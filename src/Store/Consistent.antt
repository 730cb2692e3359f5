-- ===== src/Store/Consistent.antt =====
-- Every database that operations lead to is consistent.
use restest.Database.{Database}
use restest.Store.{
  Operation, Reached, endpoint_created, endpoint_updated, endpoint_deleted, collection_created,
  collection_updated, collection_deleted, collection_reset, project_stored, dataset_installed,
  project_updated, project_deleted, start, after,
}
use restest.Store.Tables.{IsConsistent}
use restest.Store.Endpoints.{
  create_endpoint-IsConsistent, update_endpoint-IsConsistent, delete_endpoint-IsConsistent,
}
use restest.Store.Collections.{
  create_collection-IsConsistent, update_collection-IsConsistent, delete_collection-IsConsistent,
  reset_by_id-IsConsistent,
}
use restest.Store.Projects.{
  store_project-IsConsistent, install_dataset-IsConsistent, update_project-IsConsistent,
  delete_project-IsConsistent,
}

Operation-IsConsistent : (db db' : Database) → IsConsistent db → Operation db db' → IsConsistent db'
Operation-IsConsistent db _ h (endpoint_created fresh now owner project input new) =
    create_endpoint-IsConsistent fresh now owner project input db h new
Operation-IsConsistent db _ h (endpoint_updated now owner id input) =
    update_endpoint-IsConsistent now owner id input db h
Operation-IsConsistent db _ h (endpoint_deleted owner id) =
    delete_endpoint-IsConsistent owner id db h
Operation-IsConsistent db _ h (collection_created json uuids fresh owner project input) =
    create_collection-IsConsistent json uuids fresh owner project input db h
Operation-IsConsistent db _ h (collection_updated json owner id input) =
    update_collection-IsConsistent json owner id input db h
Operation-IsConsistent db _ h (collection_deleted owner id) =
    delete_collection-IsConsistent owner id db h
Operation-IsConsistent db _ h (collection_reset uuids id) = reset_by_id-IsConsistent uuids id db h
Operation-IsConsistent db _ h (project_stored fresh owner slug name is_demo new) =
    store_project-IsConsistent fresh owner slug name is_demo db h new
Operation-IsConsistent db _ h (dataset_installed fresh owner project d new) =
    install_dataset-IsConsistent fresh owner project d db h new
Operation-IsConsistent db _ h (project_updated now owner id slug name) =
    update_project-IsConsistent now owner id slug name db h
Operation-IsConsistent db _ h (project_deleted owner id) = delete_project-IsConsistent owner id db h

-- Whatever operations are called on the store, from an empty database on and in whatever order: every
-- endpoint passes the checks of its table and is in a project that is there, an endpoint that serves
-- a collection serves one of its own project that is there, no two endpoints of a project answer one
-- verb at one path, and no two projects have one slug.
pub Reached-IsConsistent : (db : Database) → Reached db → IsConsistent db
Reached-IsConsistent _ start = record { sound = tt; routes = tt; slugs = tt }
Reached-IsConsistent db (after before _ r s) =
    Operation-IsConsistent before db (Reached-IsConsistent before r) s
