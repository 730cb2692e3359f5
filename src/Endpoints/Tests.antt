-- ===== src/Endpoints/Tests.antt =====
-- Runs of the operations on endpoints, and the theorems at them.
use restest.Base.{
  ◌≡◌, refl, ◌↔◌, inr, true, false, List, [], ◌∷◌, some, none, Bytes, codes, same, pos,
}
use restest.Fields.{path_query}
use restest.Forms.Endpoint.{kind_static}
use restest.Mock.Route.{Route}
use restest.Mock.Request.{split_request_path}
use restest.Mock.Trie.Shapes.{part_of}
use restest.Mock.Trie.Fits.{Fits, done, exactly, anything}
use restest.Mock.Matching.{pattern_of}
use restest.Mock.Table.{MockProject, matched, build_table, lookup_table}
use restest.Database.{
  Database, Project, EndpointRow, ok, failed, invalid, not_found, endpoint_exists, internal,
  find_by,
}
use restest.Endpoints.{
  Endpoint, EndpointInput, tidied, normalize, create_endpoint, update_endpoint, delete_endpoint,
  endpoint_by_owner_and_id, mock_endpoint, mock_data,
}
use restest.Endpoints.Accepted.{IsAccepted, normalize_iff}
use restest.Endpoints.Constraints.{IsRefusedText, create_endpoint-internal_iff}
use restest.Endpoints.Isolation.{own_part, answers-own_part}
use restest.Endpoints.Served.{static_route, create_endpoint-matched}

abbrev shop : Project
shop = record {
  id = codes "p";
  owner_id = codes "o";
  slug = codes "shop";
  name = codes "Shop";
  is_demo = false;
  created_at = 0;
  updated_at = 0;
}

abbrev db : Database
db = record { users = []; tokens = []; projects = shop ∷ []; collections = []; endpoints = [] }

abbrev input : EndpointInput
input = record {
  kind = [];
  method = codes " get";
  path = codes "users//{id}/";
  status_code = pos 200;
  delay_ms = pos 0;
  is_enabled = true;
  body = codes "{}";
  headers = [];
  collection_id = [];
}

abbrev accepted : EndpointInput
accepted = record input { kind = kind_static; method = codes "GET"; path = codes "/users/{id}" }

input-accepted : normalize input ≡ ok accepted
unfolding normalize
input-accepted = refl

query_refused :
    normalize (record input { path = codes "/a?b" })
    ≡ failed (invalid ((codes "path", path_query) ∷ []))
unfolding normalize
query_refused = refl

normalize_iff_example :
    (normalize input ≡ ok accepted) ↔ ((accepted ≡ tidied input) × IsAccepted accepted)
normalize_iff_example = normalize_iff input accepted

abbrev created : Endpoint
created = record {
  id = codes "e";
  project_id = codes "p";
  method = codes "GET";
  path = codes "/users/{id}";
  kind = kind_static;
  is_enabled = true;
  delay_ms = pos 0;
  status_code = pos 200;
  body = codes "{}";
  collection_id = 0 ∷ 0 ∷ 0 ∷ 0 ∷ 0 ∷ 0 ∷ 0 ∷ 0 ∷ 0 ∷ 0 ∷ 0 ∷ 0 ∷ 0 ∷ 0 ∷ 0 ∷ 0 ∷ [];
  headers = [];
  created_at = 7;
  updated_at = 7;
}

abbrev stored : EndpointRow
stored = record {
  id = codes "e";
  project_id = codes "p";
  method = codes "GET";
  path_pattern = codes "/users/{id}";
  kind = kind_static;
  is_enabled = true;
  delay_ms = pos 0;
  status_code = some (pos 200);
  response_body = some (codes "{}");
  collection_id = none;
  response_headers = [];
  created_at = 7;
  updated_at = 7;
}

abbrev after : Database
after = record db { endpoints = stored ∷ [] }

create_now : create_endpoint (codes "e") 7 (codes "o") (codes "p") input db ≡ (ok created, after)
unfolding create_endpoint
create_now = refl

create_twice :
    (create_endpoint (codes "f") 8 (codes "o") (codes "p") input after).0 ≡ failed endpoint_exists
unfolding create_endpoint
create_twice = refl

create_elsewhere :
    create_endpoint (codes "f") 8 (codes "x") (codes "p") input after ≡ (failed not_found, after)
unfolding create_endpoint
create_elsewhere = refl

delete_now : delete_endpoint (codes "o") (codes "e") after ≡ (ok tt, db)
unfolding delete_endpoint
delete_now = refl

-- A body with a zero byte passes the validation.
create_zero_byte :
    create_endpoint (codes "f") 8 (codes "o") (codes "p") (record input { body = 0 ∷ [] }) db
    ≡ (failed internal, db)
unfolding create_endpoint
create_zero_byte = refl

create_endpoint-internal_iff_example :
    (((create_endpoint (codes "e") 7 (codes "o") (codes "p") input after).0 ≡ failed internal)
      ↔ IsRefusedText input)
    × (((update_endpoint 7 (codes "o") (codes "e") input after).0 ≡ failed internal)
        ↔ IsRefusedText input)
create_endpoint-internal_iff_example =
    create_endpoint-internal_iff (codes "e") 7 (codes "o") (codes "p") (codes "e") input after

answers-own_part_example :
    (endpoint_by_owner_and_id (codes "x") (codes "e") (own_part (codes "x") after)
      ≡ endpoint_by_owner_and_id (codes "x") (codes "e") after)
    × ((create_endpoint (codes "f") 7 (codes "x") (codes "p") input (own_part (codes "x") after)).0
        ≡ (create_endpoint (codes "f") 7 (codes "x") (codes "p") input after).0)
    × ((update_endpoint 7 (codes "x") (codes "e") input (own_part (codes "x") after)).0
        ≡ (update_endpoint 7 (codes "x") (codes "e") input after).0)
    × ((delete_endpoint (codes "x") (codes "e") (own_part (codes "x") after)).0
        ≡ (delete_endpoint (codes "x") (codes "e") after).0)
answers-own_part_example =
    answers-own_part (codes "x") after (codes "f") 7 (codes "p") (codes "e") input

abbrev request : Bytes
request = codes "/users/9"

users-Fits :
    Fits
      (pattern_of (static_route (mock_endpoint created (codes "shop"))))
      (split_request_path request)
      (codes "9" ∷ [])
unfolding part_of split_request_path mock_endpoint
users-Fits = exactly (anything done)

shop_found : find_by (λ q. same q.id (codes "p")) db.projects ≡ some shop
unfolding find_by same
shop_found = refl

create_endpoint-matched_example :
    (q : MockProject) × (r : Route) × (params : List (Bytes × Bytes)) × (lookup_table
        (build_table (mock_data after)).0
        (codes "shop")
        (codes "HEAD")
        request
      ≡ matched q r params)
create_endpoint-matched_example =
    create_endpoint-matched (codes "e") 7 (codes "o") (codes "p") input db after created shop
      (codes "HEAD") request (codes "9" ∷ []) create_now refl refl shop_found users-Fits
      (inr (inr (refl, refl)))
