-- ===== src/Endpoints.antt =====
-- internal/core/endpoint.go: the endpoints of a project, with the statements of
-- internal/core/queries/endpoints.sql.
pub mod Steps
pub mod Accepted
pub mod Stored
pub mod Constraints
pub mod Isolation
pub mod Served
mod Tests
use restest.Base.{
  ℕ, zero, Bool, true, false, not, ◌&&◌, ◌||◌, List, [], ◌∷◌, ◌++◌, map, Option, none, some, leb,
  ltb, ◌==◌, if◌then◌else◌, Bytes, codes, same, contains, cut_prefix, has_byte, bytes_le, sort_by,
  Int64, pos, neg,
}
use restest.Fields.{FieldErrors, add_error, collection_unset}
use restest.Paths.{normalize_path}
use restest.Paths.Validate.{validate_path, validate_collection_path}
use restest.Forms.Headers.{Headers, validate_headers}
use restest.Forms.Endpoint.{
  any_method, kind_static, kind_collection, methods, between, normalize_method, validate_method,
  validate_kind, validate_status_code, validate_delay, validate_body,
}
use restest.Database.{
  Database, Project, CollectionRow, EndpointRow, Outcome, ok, failed, invalid, not_found,
  endpoint_exists, internal, Sql, row, no_rows, unique_violation, check_violation, text_refused,
  takes_text, owns, find_by, exists_by, update_by, delete_by, select_by,
}
use restest.Database.Narrow.{narrow, half_int16, half_int32}
use restest.Mock.Route.{MockEndpoint}
use restest.Mock.Table.{MockProject, MockData}

pub record Endpoint : Type 0 where
  pub id : Bytes
  pub project_id : Bytes
  pub method : Bytes
  pub path : Bytes
  pub kind : Bytes
  pub is_enabled : Bool
  pub delay_ms : Int64
  pub status_code : Int64
  pub body : Bytes
  pub collection_id : Bytes
  pub headers : Headers
  pub created_at : ℕ
  pub updated_at : ℕ

pub record EndpointInput : Type 0 where
  pub kind : Bytes
  pub method : Bytes
  pub path : Bytes
  pub status_code : Int64
  pub delay_ms : Int64
  pub is_enabled : Bool
  pub body : Bytes
  pub headers : Headers
  pub collection_id : Bytes

-- `uuid.Nil`
abbrev pub nil_uuid : Bytes
nil_uuid = 0 ∷ 0 ∷ 0 ∷ 0 ∷ 0 ∷ 0 ∷ 0 ∷ 0 ∷ 0 ∷ 0 ∷ 0 ∷ 0 ∷ 0 ∷ 0 ∷ 0 ∷ 0 ∷ []

abbrev pub is_collection : EndpointInput → Bool
is_collection input = same input.kind kind_collection

abbrev pub with_kind : EndpointInput → EndpointInput
with_kind input = if same input.kind [] then record input { kind = kind_static } else input

abbrev pub with_method : EndpointInput → EndpointInput
with_method input =
    if same input.kind kind_collection then record input { method = any_method } else input

-- The first half of `normalize`.
unfoldable pub tidied : EndpointInput → EndpointInput
unfolding same normalize_method normalize_path
tidied input =
    let chosen = with_method (with_kind input) in
    record chosen { method = normalize_method chosen.method; path = normalize_path chosen.path }

abbrev pub check_collection_id : Bytes → FieldErrors → FieldErrors
check_collection_id id fe =
    if same id nil_uuid then add_error (codes "collection_id") collection_unset fe else fe

-- The checks of the fields that both kinds have.
unfoldable pub check_common : EndpointInput → FieldErrors
unfolding validate_kind validate_method validate_path validate_delay validate_headers
check_common input = validate_headers input.headers (
    validate_delay input.delay_ms
      (validate_path (validate_method input.method (validate_kind input.kind [])) input.path))

-- The second half of `normalize`, the errors of the tidied input.
unfoldable pub check_input : EndpointInput → FieldErrors
unfolding same check_common validate_collection_path validate_status_code validate_body add_error
check_input input =
    if is_collection input
    then check_collection_id input.collection_id
        (validate_collection_path (check_common input) input.path)
    else validate_body input.body (validate_status_code input.status_code (check_common input))

abbrev pub or_invalid : {A : Type 0} → A → FieldErrors → Outcome A
or_invalid a [] = ok a
or_invalid a (e ∷ fe) = failed (invalid (e ∷ fe))

unfoldable pub normalize : EndpointInput → Outcome EndpointInput
unfolding tidied check_input
normalize input = let input' = tidied input in or_invalid input' (check_input input')

abbrev or_zero : Option Int64 → Int64
or_zero none = pos 0
or_zero (some n) = n

abbrev or_blank : Bytes → Option Bytes → Bytes
or_blank blank none = blank
or_blank blank (some s) = s

unfoldable pub to_endpoint : EndpointRow → Endpoint
to_endpoint r = record {
  id = r.id;
  project_id = r.project_id;
  method = r.method;
  path = r.path_pattern;
  kind = r.kind;
  is_enabled = r.is_enabled;
  delay_ms = r.delay_ms;
  status_code = or_zero r.status_code;
  body = or_blank [] r.response_body;
  collection_id = or_blank nil_uuid r.collection_id;
  headers = r.response_headers;
  created_at = r.created_at;
  updated_at = r.updated_at;
}

-- The columns that `CreateEndpoint` and `UpdateEndpoint`, or their variants for a collection, set.
unfoldable pub with_input : EndpointInput → EndpointRow → EndpointRow
unfolding same narrow
with_input input r =
    let common = record r {
      method = input.method;
      path_pattern = input.path;
      kind = input.kind;
      is_enabled = input.is_enabled;
      delay_ms = narrow half_int32 input.delay_ms;
      response_headers = input.headers;
    } in
    if is_collection input
    then record common {
      kind = kind_collection;
      status_code = none;
      response_body = none;
      collection_id = some input.collection_id;
    }
    else record common {
      kind = kind_static;
      status_code = some (narrow half_int16 input.status_code);
      response_body = some input.body;
      collection_id = none;
    }

abbrev pub kind_fields : EndpointRow → Bool
kind_fields r = elim r.status_code [
  | some _ ↦ same r.kind kind_static && elim r.collection_id [ none ↦ true | some _ ↦ false ]
  | none ↦ same r.kind kind_collection && elim r.collection_id [ none ↦ false | some _ ↦ true ]
]

abbrev pub is_absolute : Bytes → Bool
is_absolute path = elim (cut_prefix (codes "/") path) [ none ↦ false | some _ ↦ true ]

-- The check constraints of the table.
unfoldable pub passes_checks : EndpointRow → Bool
unfolding same contains cut_prefix
passes_checks r =
    (contains r.method methods && is_absolute r.path_pattern)
    && (between 0 60000 r.delay_ms && kind_fields r)

-- Another row of the unique index on (project_id, method, path_pattern).
abbrev pub same_route : EndpointRow → EndpointRow → Bool
same_route r s =
    (same s.project_id r.project_id && same s.method r.method) && same s.path_pattern r.path_pattern

abbrev pub blank_row : Bytes → Bytes → ℕ → EndpointRow
blank_row fresh project now = record {
  id = fresh;
  project_id = project;
  method = [];
  path_pattern = [];
  kind = [];
  is_enabled = true;
  delay_ms = pos 0;
  status_code = none;
  response_body = none;
  collection_id = none;
  response_headers = [];
  created_at = now;
  updated_at = now;
}

-- `join collections c on c.project_id = p.id where c.id = @collection_id`
unfoldable pub has_collection : Bytes → Bytes → Database → Bool
unfolding exists_by same
has_collection project id db =
    exists_by (λ c. same c.id id && same c.project_id project) db.collections

-- The project is the caller's and, for a collection endpoint, the collection is in the project.
abbrev pub can_write : Bytes → Bytes → EndpointInput → Database → Bool
can_write owner project input db =
    owns owner project db
    && (if is_collection input then has_collection project input.collection_id db else true)

-- A statement that writes a row, by whether its joins have a row, the row passes the checks of the
-- table, and the unique index has its route.
abbrev pub written :
    Bool → Bool → Bool → EndpointRow → Database → Database → Sql EndpointRow × Database
written joins checks taken r db db' =
    if not joins
    then (no_rows, db)
    else if not checks
    then (check_violation, db)
    else if taken
    then (unique_violation, db)
    else (row r, db')

-- The statements `CreateEndpoint` and `CreateCollectionEndpoint`.
unfoldable pub insert_endpoint :
    Bytes → ℕ → Bytes → Bytes → EndpointInput → Database → Sql EndpointRow × Database
unfolding with_input passes_checks same exists_by owns has_collection
insert_endpoint fresh now owner project input db =
    let r = with_input input (blank_row fresh project now) in
    written (can_write owner project input db) (passes_checks r)
      (exists_by (same_route r) db.endpoints) r db
      (record db { endpoints = db.endpoints ++ r ∷ [] })

-- `from projects p where e.id = @id and p.id = e.project_id and p.owner_id = @owner_id`
abbrev pub picks : Bytes → Bytes → Database → EndpointRow → Bool
picks owner id db r = same r.id id && owns owner r.project_id db

unfoldable pub find_endpoint : Bytes → Bytes → Database → Option EndpointRow
unfolding find_by same owns
find_endpoint owner id db = find_by (picks owner id db) db.endpoints

-- The statements `UpdateEndpoint` and `UpdateCollectionEndpoint`, on the row that they find.
unfoldable pub rewrite_row :
    ℕ → Bytes → Bytes → EndpointInput → Database → EndpointRow → Sql EndpointRow × Database
unfolding with_input passes_checks same exists_by owns has_collection update_by
rewrite_row now owner id input db old =
    let r = record (with_input input old) { updated_at = now } in
    written (can_write owner old.project_id input db) (passes_checks r)
      (exists_by (λ s. not (same s.id id) && same_route r s) db.endpoints) r db
      (record db { endpoints = update_by (picks owner id db) (λ _. r) db.endpoints })

unfoldable pub update_row :
    ℕ → Bytes → Bytes → EndpointInput → Database → Sql EndpointRow × Database
unfolding find_endpoint rewrite_row
update_row now owner id input db = elim (find_endpoint owner id db) [
  | none ↦ (no_rows, db)
  | some old ↦ rewrite_row now owner id input db old
]

-- The headers are sent as JSON, in which a zero byte is an escape that jsonb refuses; of what is not
-- UTF-8 encoding/json has made the replacement character.
abbrev pub takes_values : Headers → Bool
takes_values [] = true
takes_values ((name, value) ∷ headers) = not (has_byte 0 value) && takes_values headers

-- The parameters of the statement that are texts; a collection has no body.
unfoldable pub takes_texts : EndpointInput → Bool
unfolding takes_text has_byte same
takes_texts input =
    takes_text input.method
    && (takes_text input.path
        && (takes_values input.headers && (is_collection input || takes_text input.body)))

abbrev pub sent : EndpointInput → Database → Sql EndpointRow × Database → Sql EndpointRow × Database
sent input db answer = if takes_texts input then answer else (text_refused, db)

-- What both functions make of the answer of their statement.
unfoldable pub answered : Sql EndpointRow × Database → Outcome Endpoint × Database
unfolding to_endpoint
answered (row r, db) = (ok (to_endpoint r), db)
answered (no_rows, db) = (failed not_found, db)
answered (unique_violation, db) = (failed endpoint_exists, db)
answered (check_violation, db) = (failed internal, db)
answered (text_refused, db) = (failed internal, db)

abbrev pub with_normal :
    {A : Type 0}
    → Outcome EndpointInput
    → (EndpointInput → Outcome A × Database)
    → Database
    → Outcome A × Database
with_normal (ok input) f db = f input
with_normal (failed e) f db = (failed e, db)

unfoldable pub create_endpoint :
    Bytes → ℕ → Bytes → Bytes → EndpointInput → Database → Outcome Endpoint × Database
unfolding normalize insert_endpoint answered takes_texts
create_endpoint fresh now owner project input db =
    with_normal (normalize input)
      (λ input'. answered (sent input' db (insert_endpoint fresh now owner project input' db))) db

unfoldable pub update_endpoint :
    ℕ → Bytes → Bytes → EndpointInput → Database → Outcome Endpoint × Database
unfolding normalize update_row answered takes_texts
update_endpoint now owner id input db =
    with_normal (normalize input)
      (λ input'. answered (sent input' db (update_row now owner id input' db))) db

unfoldable pub delete_endpoint : Bytes → Bytes → Database → Outcome Unit × Database
unfolding find_endpoint delete_by same owns
delete_endpoint owner id db = elim (find_endpoint owner id db) [
  | none ↦ (failed not_found, db)
  | some _ ↦ (ok tt, record db { endpoints = delete_by (picks owner id db) db.endpoints })
]

unfoldable pub endpoint_by_owner_and_id : Bytes → Bytes → Database → Outcome Endpoint
unfolding find_endpoint to_endpoint
endpoint_by_owner_and_id owner id db = elim (find_endpoint owner id db) [
  | none ↦ failed not_found
  | some r ↦ ok (to_endpoint r)
]

-- `order by e.path_pattern, e.method`
abbrev pub row_le : EndpointRow → EndpointRow → Bool
row_le r s =
    if same r.path_pattern s.path_pattern
    then bytes_le r.method s.method
    else bytes_le r.path_pattern s.path_pattern

unfoldable pub endpoints_by_project : Bytes → Bytes → Database → List Endpoint
unfolding to_endpoint select_by same owns sort_by bytes_le
endpoints_by_project owner project db = map to_endpoint (
    sort_by row_le
      (select_by (λ r. same r.project_id project && owns owner r.project_id db) db.endpoints))

-- `unsigned` of the small numbers that the checks leave in the columns.
abbrev magnitude : Int64 → ℕ
magnitude (pos n) = n
magnitude (neg n) = 0

unfoldable pub mock_endpoint : Endpoint → Bytes → MockEndpoint
mock_endpoint e slug = record {
  id = e.id;
  project_id = e.project_id;
  method = e.method;
  path = e.path;
  kind = e.kind;
  is_enabled = e.is_enabled;
  delay_ms = magnitude e.delay_ms;
  status_code = magnitude e.status_code;
  body = e.body;
  collection_id = e.collection_id;
  headers = e.headers;
  created_at = e.created_at;
  updated_at = e.updated_at;
  project_slug = slug;
}

abbrev mock_project : Project → MockProject
mock_project p = record { id = p.id; slug = p.slug }

-- The join of the enabled rows with their projects.
unfoldable pub joined : List Project → List EndpointRow → List MockEndpoint
unfolding find_by same mock_endpoint to_endpoint
joined projects [] = []
joined projects (r ∷ rs) =
    let rest = joined projects rs in
    elim (find_by (λ p. same p.id r.project_id) projects) [
      | none ↦ rest
      | some p ↦ mock_endpoint (to_endpoint r) p.slug ∷ rest
    ]

unfoldable pub mock_data : Database → MockData
unfolding joined sort_by select_by bytes_le same
mock_data db = record {
  projects = map mock_project db.projects;
  endpoints = joined db.projects (sort_by row_le (select_by (λ r. r.is_enabled) db.endpoints));
}
