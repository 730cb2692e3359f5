-- ===== src/Projects.antt =====
-- internal/core/project.go and internal/core/dataset.go: the projects of an account, with the
-- statements of internal/core/queries/projects.sql. The built-in data sets are a parameter.
pub mod Atomic
mod Tests
use restest.Base.{
  ℕ, zero, suc, Bool, true, false, not, ◌&&◌, ◌||◌, List, [], ◌∷◌, ◌++◌, Option, none, some,
  if◌then◌else◌, Bytes, codes, same, contains, to_lower, bytes_le, sort_by, pos, leb, ltb, ◌==◌,
}
use restest.Fields.{FieldErrors, add_error, dataset_unknown}
use restest.Paths.{trim_space}
use restest.Forms.Slug.{validate_slug}
use restest.Forms.Account.{validate_project_name}
use restest.Forms.Endpoint.{any_method, kind_collection}
use restest.Forms.Collection.{default_id_field, id_serial, normalize_collection_name}
use restest.Collections.{Element, SeedResult, seeded, refused, panicked}
use restest.Collections.Store.{seed_errors, new_row, has_name, seeding, reseeded, CollectionInput}
use restest.Endpoints.{EndpointInput, insert_endpoint}
use restest.Database.{
  Database, Project, CollectionRow, EndpointRow, Outcome, ok, failed, invalid, not_found,
  slug_taken, internal, crashed, Sql, row, no_rows, owns, find_by, exists_by, update_by, delete_by,
  select_by,
}

pub record Dataset : Type 0 where
  pub name : Bytes
  pub seed : List Element

unfoldable pub dataset_path : Dataset → Bytes
dataset_path d = b'/' ∷ d.name

unfoldable pub mock_path : Project → Bytes
mock_path p = codes "/m/" ++ p.slug ++ codes "/"

unfoldable pub normalize_project : Bytes → Bytes → Bytes × Bytes
unfolding to_lower trim_space
normalize_project slug name = (to_lower (trim_space slug), trim_space name)

abbrev is_named : Bytes → Dataset → Bool
is_named name d = same d.name name

-- The loop over the names: those that are wanted, or the errors where one is unknown.
unfoldable pub wanted_names :
    List Dataset → FieldErrors → List Bytes → FieldErrors × Option (List Bytes)
unfolding normalize_collection_name exists_by same add_error
wanted_names builtin fe [] = (fe, some [])
wanted_names builtin fe (given ∷ rest) =
    let name = normalize_collection_name given in
    let (fe', more) = wanted_names builtin fe rest in
    if not (exists_by (is_named name) builtin)
    then (add_error (codes "datasets") (dataset_unknown name) fe, none)
    else (fe', elim more [ none ↦ none | some names ↦ some (name ∷ names) ])

unfoldable pub select_datasets :
    List Dataset → FieldErrors → List Bytes → FieldErrors × List Dataset
unfolding wanted_names select_by contains
select_datasets builtin fe names =
    let (fe', wanted) = wanted_names builtin fe names in
    (fe', elim wanted [ none ↦ [] | some wanted ↦ select_by (λ d. contains d.name wanted) builtin ])

-- The values that the database and `uuid.NewString` make for one project.
pub record Fresh : Type 0 where
  pub project : Bytes
  pub collection : Bytes → Bytes
  pub endpoint : Bytes → Bytes
  pub uuids : ℕ → Bytes
  pub now : ℕ

abbrev pub dataset_collection : Dataset → CollectionInput
dataset_collection d = record {
  name = d.name;
  id_field = default_id_field;
  id_strategy = id_serial;
  seed = [];
}

abbrev pub dataset_endpoint : Dataset → Bytes → EndpointInput
dataset_endpoint d collection = record {
  kind = kind_collection;
  method = any_method;
  path = b'/' ∷ d.name;
  status_code = pos 0;
  delay_ms = pos 0;
  is_enabled = true;
  body = [];
  headers = [];
  collection_id = collection;
}

abbrev pub endpoint_added : Sql EndpointRow × Database → Outcome Unit × Database
endpoint_added (row r, db) = (ok tt, db)
endpoint_added (_, db) = (failed internal, db)

abbrev pub seeded_then : SeedResult → Outcome Unit × Database → Database → Outcome Unit × Database
seeded_then (seeded docs next) rest db = rest
seeded_then (refused e) rest db = (failed (invalid (seed_errors e)), db)
seeded_then panicked rest db = (failed crashed, db)

unfoldable pub install_dataset :
    Fresh → Bytes → Bytes → Dataset → Database → Outcome Unit × Database
unfolding new_row owns exists_by same seeding insert_endpoint
install_dataset fresh owner project d db =
    let c = new_row (fresh.collection d.name) project (dataset_collection d) d.seed in
    let r = seeding fresh.uuids c in
    let db' : Database = record db { collections = db.collections ++ reseeded r c ∷ [] } in
    if not (owns owner project db) || exists_by (has_name project d.name) db.collections
    then (failed internal, db)
    else seeded_then r
        (endpoint_added (
          insert_endpoint (fresh.endpoint d.name) fresh.now owner project (dataset_endpoint d c.id)
            db'))
        db'

-- The next statement, unless an error has ended the transaction.
abbrev pub go_on :
    Outcome Unit × Database → (Database → Outcome Unit × Database) → Outcome Unit × Database
go_on (ok _, db) f = f db
go_on (failed e, db) f = (failed e, db)

unfoldable pub install_all :
    Fresh → Bytes → Bytes → List Dataset → Database → Outcome Unit × Database
unfolding install_dataset
install_all fresh owner project [] db = (ok tt, db)
install_all fresh owner project (d ∷ ds) db =
    go_on (install_dataset fresh owner project d db) (λ db'. install_all fresh owner project ds db')

-- The commit, or the rollback to the database before.
abbrev pub committed : Project → Database → Outcome Unit × Database → Outcome Project × Database
committed p before (ok _, db) = (ok p, db)
committed p before (failed e, _) = (failed e, before)

unfoldable pub store_project :
    Fresh → Bytes → Bytes → Bytes → Bool → List Dataset → Database → Outcome Project × Database
unfolding exists_by same install_all
store_project fresh owner slug name is_demo datasets db =
    let p : Project = record {
      id = fresh.project;
      owner_id = owner;
      slug = slug;
      name = name;
      is_demo = is_demo;
      created_at = fresh.now;
      updated_at = fresh.now;
    } in
    if exists_by (λ q. same q.slug slug) db.projects
    then (failed slug_taken, db)
    else committed p db
        (install_all fresh owner p.id datasets (record db { projects = db.projects ++ p ∷ [] }))

abbrev pub or_invalid :
    {A : Type 0} → FieldErrors → Outcome A × Database → Database → Outcome A × Database
or_invalid [] rest db = rest
or_invalid (e ∷ fe) rest db = (failed (invalid (e ∷ fe)), db)

-- The errors of the form, and the data sets that are chosen.
unfoldable pub check_project :
    List Dataset → Bytes → Bytes → List Bytes → FieldErrors × List Dataset
unfolding validate_project_name validate_slug select_datasets
check_project builtin slug name datasets =
    select_datasets builtin (validate_project_name name (validate_slug slug [])) datasets

unfoldable pub create_project :
    List Dataset
    → Fresh
    → Bytes
    → Bytes
    → Bytes
    → List Bytes
    → Database
    → Outcome Project × Database
unfolding normalize_project check_project store_project
create_project builtin fresh owner slug name datasets db =
    let (slug', name') = normalize_project slug name in
    let (fe, chosen) = check_project builtin slug' name' datasets in
    or_invalid fe (store_project fresh owner slug' name' false chosen db) db

-- `order by created_at desc, slug`
abbrev newest_first : Project → Project → Bool
newest_first p q =
    if p.created_at == q.created_at then bytes_le p.slug q.slug else ltb q.created_at p.created_at

unfoldable pub projects_by_owner : Bytes → Database → List Project
unfolding sort_by bytes_le select_by same
projects_by_owner owner db =
    sort_by newest_first (select_by (λ p. same p.owner_id owner) db.projects)

abbrev or_not_found : {A : Type 0} → Option A → Outcome A
or_not_found none = failed not_found
or_not_found (some a) = ok a

unfoldable pub project_by_owner_and_slug : Bytes → Bytes → Database → Outcome Project
unfolding find_by same trim_space
project_by_owner_and_slug owner slug db =
    or_not_found (find_by (λ p. same p.owner_id owner && same p.slug (trim_space slug)) db.projects)

abbrev pub picks : Bytes → Bytes → Project → Bool
picks owner id p = same p.id id && same p.owner_id owner

abbrev pub renamed : ℕ → Bytes → Bytes → Project → Project
renamed now slug name p = record p { slug = slug; name = name; updated_at = now }

unfoldable pub rename_project :
    ℕ → Bytes → Bytes → Bytes → Bytes → Database → Outcome Project × Database
unfolding find_by exists_by update_by same
rename_project now owner id slug name db = elim (find_by (picks owner id) db.projects) [
  | none ↦ (failed not_found, db)
  | some p ↦
      if exists_by (λ q. not (same q.id id) && same q.slug slug) db.projects
      then (failed slug_taken, db)
      else (
        ok (renamed now slug name p),
        record db { projects = update_by (picks owner id) (renamed now slug name) db.projects },
      )
]

unfoldable pub update_project :
    ℕ → Bytes → Bytes → Bytes → Bytes → Database → Outcome Project × Database
unfolding normalize_project validate_project_name validate_slug rename_project
update_project now owner id slug name db =
    let (slug', name') = normalize_project slug name in
    or_invalid (validate_project_name name' (validate_slug slug' []))
      (rename_project now owner id slug' name' db) db

-- The rows that go with a project go by cascade.
unfoldable pub delete_project : Bytes → Bytes → Database → Outcome Unit × Database
unfolding find_by delete_by same
delete_project owner id db = elim (find_by (picks owner id) db.projects) [
  | none ↦ (failed not_found, db)
  | some p ↦ (
    ok tt,
    record db {
      projects = delete_by (picks owner id) db.projects;
      collections = delete_by (λ c. same c.project_id id) db.collections;
      endpoints = delete_by (λ e. same e.project_id id) db.endpoints;
    },
  )
]
