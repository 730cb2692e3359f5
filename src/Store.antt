-- ===== src/Store.antt =====
-- internal/core: the operations of the store together, in any order, on one database.
pub mod Consistent
pub mod Endpoints
pub mod Tables
pub mod Collections
pub mod Projects
mod Tests
use restest.Base.{ℕ, ◌≡◌, Bool, true, false, List, [], Bytes, same}
use restest.Collections.Store.{
  CollectionInput, with_id, create_collection, update_collection, delete_collection, reset_by_id,
}
use restest.Forms.Collection.{JsonLibrary}
use restest.Endpoints.{EndpointInput, create_endpoint, update_endpoint, delete_endpoint}
use restest.Projects.{
  Dataset, Fresh, store_project, install_dataset, update_project, delete_project,
}
use restest.Database.{Database, exists_by}

-- A uuid that `gen_random_uuid` makes is of no row that is there.
abbrev pub IsNewEndpoint : Bytes → Database → Type 0
IsNewEndpoint id db = exists_by (λ r. same r.id id) db.endpoints ≡ false

abbrev pub IsNewProject : Bytes → Database → Type 0
IsNewProject id db = exists_by (λ p. same p.id id) db.projects ≡ false

-- One operation, whatever it answers. The creation of a project with data sets is the creation of the
-- project and, for each data set, its installation, or none of them.
pub data Operation (db : Database) : Database → Type 0 where
  endpoint_created :
      (fresh : Bytes) (now : ℕ) (owner project : Bytes) (input : EndpointInput)
      → IsNewEndpoint fresh db
      → Operation db (create_endpoint fresh now owner project input db).1
  endpoint_updated :
      (now : ℕ) (owner id : Bytes) (input : EndpointInput)
      → Operation db (update_endpoint now owner id input db).1
  endpoint_deleted : (owner id : Bytes) → Operation db (delete_endpoint owner id db).1
  collection_created :
      (json : JsonLibrary) (uuids : ℕ → Bytes) (fresh owner project : Bytes)
      (input : CollectionInput)
      → Operation db (create_collection json uuids fresh owner project input db).1
  collection_updated :
      (json : JsonLibrary) (owner id : Bytes) (input : CollectionInput)
      → Operation db (update_collection json owner id input db).1
  collection_deleted : (owner id : Bytes) → Operation db (delete_collection owner id db).1
  collection_reset : (uuids : ℕ → Bytes) (id : Bytes) → Operation db (reset_by_id uuids id db).1
  project_stored :
      (fresh : Fresh) (owner slug name : Bytes) (is_demo : Bool)
      → IsNewProject fresh.project db
      → Operation db (store_project fresh owner slug name is_demo [] db).1
  dataset_installed :
      (fresh : Fresh) (owner project : Bytes) (d : Dataset)
      → IsNewEndpoint (fresh.endpoint d.name) db
      → Operation db (install_dataset fresh owner project d db).1
  project_updated :
      (now : ℕ) (owner id slug name : Bytes)
      → Operation db (update_project now owner id slug name db).1
  project_deleted : (owner id : Bytes) → Operation db (delete_project owner id db).1

-- The databases that operations lead to, from one in which nothing is.
pub data Reached : Database → Type 0 where
  start :
      Reached (record { users = []; tokens = []; projects = []; collections = []; endpoints = [] })
  after : (db db' : Database) → Reached db → Operation db db' → Reached db'
