-- ===== src/Mock/Route.antt =====
-- internal/mock/mock.go and the endpoint types of internal/core/endpoint.go: routes, and the
-- expansion of one endpoint row into the routes that it serves.
use restest.Base.{
  ℕ, ◌==◌, Bool, true, false, List, [], ◌∷◌, ◌++◌, map, if◌then◌else◌, Bytes, codes, same,
  drop_last,
}
use restest.Paths.{path_params}

-- `core.MockEndpoint` with the fields of the `core.Endpoint` that it embeds. A uuid is its bytes,
-- and an instant a number; the two times are not read by the matcher.
pub record MockEndpoint : Type 0 where
  pub id : Bytes
  pub project_id : Bytes
  pub method : Bytes
  pub path : Bytes
  pub kind : Bytes
  pub is_enabled : Bool
  pub delay_ms : ℕ
  pub status_code : ℕ
  pub body : Bytes
  pub collection_id : Bytes
  pub headers : List (Bytes × Bytes)
  pub created_at : ℕ
  pub updated_at : ℕ
  pub project_slug : Bytes

pub data Op : Type 0 where
  respond list create get replace patch delete : Op

pub record Route : Type 0 where
  pub endpoint : MockEndpoint
  pub open endpoint use *
  pub params : List Bytes
  pub op : Op

abbrev pub kind_collection : Bytes
kind_collection = codes "collection"

abbrev pub method_any : Bytes
method_any = codes "*"

abbrev pub document_param : Bytes
document_param = codes "id"

-- One row of `collectionOps`.
pub record OpSpec : Type 0 where
  pub method : Bytes
  pub document : Bool
  pub op : Op

abbrev pub collection_ops : List OpSpec
collection_ops =
    record { method = codes "GET"; document = false; op = list }
    ∷ record { method = codes "POST"; document = false; op = create }
    ∷ record { method = codes "GET"; document = true; op = get }
    ∷ record { method = codes "PUT"; document = true; op = replace }
    ∷ record { method = codes "PATCH"; document = true; op = patch }
    ∷ record { method = codes "DELETE"; document = true; op = delete }
    ∷ []

abbrev ends_in_slash : Bytes → Bool
ends_in_slash [] = false
ends_in_slash (c ∷ []) = c == b'/'
ends_in_slash (c ∷ d ∷ s) = ends_in_slash (d ∷ s)

-- `strings.TrimSuffix(root, "/")`
unfoldable pub trim_slash : Bytes → Bytes
trim_slash root = if ends_in_slash root then drop_last root else root

unfoldable pub document_path : Bytes → Bytes
unfolding trim_slash
document_path root = trim_slash root ++ codes "/{" ++ document_param ++ codes "}"

unfoldable pub route_of : MockEndpoint → OpSpec → Route
unfolding document_path path_params
route_of e spec =
    let path : Bytes = if spec.document then document_path e.path else e.path in
    record {
      endpoint = record e { method = spec.method; path = path };
      params = path_params path;
      op = spec.op;
    }

unfoldable pub expand : MockEndpoint → List Route
unfolding route_of same
expand e =
    if same e.kind kind_collection
    then map (route_of e) collection_ops
    else record { endpoint = e; params = path_params e.path; op = respond } ∷ []
