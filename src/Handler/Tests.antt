-- ===== src/Handler/Tests.antt =====
-- Runs of the handler on a project with one collection, and the theorems at them.
use restest.Base.{◌≡◌, refl, inl, true, false, [], ◌∷◌, Bytes, codes}
use restest.Forms.Headers.{Headers}
use restest.Mock.Route.{MockEndpoint}
use restest.Mock.Table.{MockData, build_table}
use restest.Collections.{Fields, text, number, serial}
use restest.Documents.{json_object}
use restest.Documents.Listing.{JsonOps}
use restest.Handler.{
  HttpLibrary, MockRequest, received, document_body, no_content, Reply, reply, Collections,
  content_type, json_type, handle_mock,
}
use restest.Handler.Proper.{IsProper}
use restest.Handler.Answers.{handle_mock-IsProper}
use restest.Handler.Safe.{handle_mock-IsSafe}

abbrev http : HttpLibrary
http = record {
  canonical = λ s. s;
  path_escape = λ s. s;
  is_json = λ s. false;
  detect = λ s. codes "text/plain; charset=utf-8";
}

abbrev json : JsonOps
json = record {
  written = λ s. s;
  is_number = λ s. false;
  holds = λ body doc. true;
  le = λ a b. true;
  takes = λ docs sort. true;
}

abbrev endpoint : Bytes → Bytes → Bytes → MockEndpoint
endpoint kind method path = record {
  id = codes "e";
  project_id = codes "p";
  method = method;
  path = path;
  kind = kind;
  is_enabled = true;
  delay_ms = 0;
  status_code = 204;
  body = codes "ignored";
  collection_id = codes "c";
  headers = [];
  created_at = 0;
  updated_at = 0;
  project_slug = codes "shop";
}

abbrev sample : MockData
sample = record {
  projects = record { id = codes "p"; slug = codes "shop" } ∷ [];
  endpoints =
      endpoint (codes "collection") (codes "*") (codes "/users")
      ∷ endpoint (codes "static") (codes "GET") (codes "/ping")
      ∷ [];
}

abbrev ann : Fields
ann = (codes "name", text (codes "ann")) ∷ []

abbrev stored : Fields
stored = (codes "name", text (codes "ann")) ∷ (codes "id", number b'7' []) ∷ []

abbrev store : Collections
store =
    (
      codes "c",
      record { id_field = codes "id"; id_strategy = serial; next_serial = 7; documents = [] },
    )
    ∷ []

abbrev request : Bytes → Bytes → MockRequest
request method path = record {
  slug = codes "Shop";
  method = method;
  escaped_path = path;
  query = [];
  body = received (json_object ann);
  uuids = λ i. codes "u";
  gave_up = false;
}

abbrev asked : Bytes → Bytes → Collections → Reply × Collections
asked method path s = handle_mock http json (build_table sample).0 (request method path) [] s

abbrev typed : Headers
typed = (content_type, json_type) ∷ []

-- The document that a POST has created_reply is found where its Location says, and listed.
located :
    (asked (codes "POST") (codes "/m/shop/users/") store).0
    ≡ reply 201 ((codes "Location", codes "/m/shop/users/7") ∷ typed) (document_body stored)
unfolding handle_mock build_table
located = refl

found :
    (asked
      (codes "GET")
      (codes "/m/shop/users/7")
      (asked (codes "POST") (codes "/m/shop/users/") store).1).0
    ≡ reply 200 typed (document_body stored)
unfolding handle_mock build_table
found = refl

bodyless :
    (asked (codes "GET") (codes "/m/shop/ping") store).0
    ≡ reply 204 ((content_type, codes "text/plain; charset=utf-8") ∷ []) no_content
unfolding handle_mock build_table
bodyless = refl

handle_mock-IsSafe_example : (asked (codes "GET") (codes "/m/shop/users") store).1 ≡ store
handle_mock-IsSafe_example =
    handle_mock-IsSafe http json (request (codes "GET") (codes "/m/shop/users")) [] store sample
      (inl refl)

handle_mock-IsProper_example : IsProper (asked (codes "DELETE") (codes "/m/shop/users/7") store).0
handle_mock-IsProper_example =
    handle_mock-IsProper http (request (codes "DELETE") (codes "/m/shop/users/7")) json
      (build_table sample).0 [] store
