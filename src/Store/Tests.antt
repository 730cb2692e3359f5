-- ===== src/Store/Tests.antt =====
-- A run of the store, and the theorem at it.
use restest.Base.{refl, true, false, [], codes, pos}
use restest.Database.{Database, exists_by}
use restest.Endpoints.{EndpointInput, create_endpoint}
use restest.Projects.{Fresh, store_project}
use restest.Store.{Reached, start, after, project_stored, endpoint_created}
use restest.Store.Tables.{IsConsistent}
use restest.Store.Consistent.{Reached-IsConsistent}

abbrev empty : Database
empty = record { users = []; tokens = []; projects = []; collections = []; endpoints = [] }

abbrev fresh : Fresh
fresh = record {
  project = codes "p";
  collection = λ name. name;
  endpoint = λ name. name;
  uuids = λ _. codes "u";
  now = 5;
}

abbrev input : EndpointInput
input = record {
  kind = [];
  method = codes "get";
  path = codes "/users";
  status_code = pos 200;
  delay_ms = pos 0;
  is_enabled = true;
  body = codes "{}";
  headers = [];
  collection_id = [];
}

abbrev with_project : Database
with_project = (store_project fresh (codes "o") (codes "shop") (codes "Shop") false [] empty).1

abbrev with_endpoint : Database
with_endpoint = (create_endpoint (codes "e") 6 (codes "o") (codes "p") input with_project).1

project-Reached : Reached with_project
unfolding exists_by
project-Reached =
    after empty with_project start
      (project_stored fresh (codes "o") (codes "shop") (codes "Shop") false refl)

endpoint-Reached : Reached with_endpoint
unfolding store_project exists_by
endpoint-Reached =
    after with_project with_endpoint project-Reached
      (endpoint_created (codes "e") 6 (codes "o") (codes "p") input refl)

Reached-IsConsistent_example : IsConsistent with_endpoint
Reached-IsConsistent_example = Reached-IsConsistent with_endpoint endpoint-Reached
