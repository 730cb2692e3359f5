-- ===== src/Collections/Store.antt =====
-- internal/core/collection.go: the collections of a project, with the statements of
-- internal/core/queries/collections.sql. The times of a row are left out.
use restest.Base.{
  ℕ, Bool, false, not, ◌&&◌, List, [], ◌∷◌, ◌++◌, map, Option, none, some, if◌then◌else◌, Bytes,
  codes, same, length, bytes_le, sort_by,
}
use restest.Fields.{FieldErrors, Message, seed_entry, seed_entry_id, seed_shared_id}
use restest.Paths.{trim_space}
use restest.Forms.Collection.{
  default_id_field, id_serial, JsonLibrary, normalize_collection_name, validate_collection_name,
  validate_id_field, validate_id_strategy, validate_seed,
}
use restest.Collections.{
  Element, Strategy, serial, uuid, SeedError, entry_not_object, entry_bad_id, shared_id, SeedResult,
  seeded, refused, panicked, seed_documents,
}
use restest.Documents.{applied}
use restest.Database.{
  Database, CollectionRow, EndpointRow, Outcome, ok, failed, invalid, not_found, collection_exists,
  crashed, owns, find_by, exists_by, update_by, delete_by, select_by,
}

pub record CollectionInput : Type 0 where
  pub name : Bytes
  pub id_field : Bytes
  pub id_strategy : Bytes
  pub seed : Bytes

abbrev or_default : Bytes → Bytes → Bytes
or_default default [] = default
or_default default (c ∷ s) = c ∷ s

-- The first half of `normalize`.
unfoldable pub tidied : CollectionInput → CollectionInput
unfolding normalize_collection_name trim_space same
tidied input = record {
  name = normalize_collection_name input.name;
  id_field = or_default default_id_field (trim_space input.id_field);
  id_strategy = or_default id_serial input.id_strategy;
  seed = if same (trim_space input.seed) [] then codes "[]" else input.seed;
}

abbrev strategy_of : Bytes → Strategy
strategy_of text = if same text id_serial then serial else uuid

abbrev elements_of : Option (List Element) → List Element
elements_of none = []
elements_of (some elements) = elements

-- The row that an insert makes, with the defaults of the table.
unfoldable pub new_row : Bytes → Bytes → CollectionInput → List Element → CollectionRow
unfolding same
new_row fresh project input elements = record {
  id = fresh;
  project_id = project;
  name = input.name;
  seed = elements;
  contents = record {
    id_field = input.id_field;
    id_strategy = strategy_of input.id_strategy;
    next_serial = 1;
    documents = [];
  };
}

abbrev pub picks : Bytes → Bytes → Database → CollectionRow → Bool
picks owner id db c = same c.id id && owns owner c.project_id db

unfoldable pub find_collection : Bytes → Bytes → Database → Option CollectionRow
unfolding find_by same owns
find_collection owner id db = find_by (picks owner id db) db.collections

-- The unique index on (project_id, name).
abbrev pub has_name : Bytes → Bytes → CollectionRow → Bool
has_name project name c = same c.project_id project && same c.name name

-- `seedDocuments` of the seed of a row.
unfoldable pub seeding : (ℕ → Bytes) → CollectionRow → SeedResult
unfolding seed_documents
seeding uuids c = seed_documents c.contents.id_strategy uuids c.contents.id_field c.seed

-- `applySeed` on the row.
abbrev pub reseeded : SeedResult → CollectionRow → CollectionRow
reseeded r c = record c { contents = applied r c.contents }

-- The one error of the field `seed` that `seedDocuments` returns.
abbrev pub seed_message : SeedError → Message
seed_message (entry_not_object i) = seed_entry i
seed_message (entry_bad_id i) = seed_entry_id i
seed_message (shared_id id) = seed_shared_id id

abbrev pub seed_errors : SeedError → FieldErrors
seed_errors e = (codes "seed", seed_message e) ∷ []

abbrev pub reset_answer : SeedResult → Outcome ℕ
reset_answer (seeded docs next) = ok (length docs)
reset_answer (refused e) = failed (invalid (seed_errors e))
reset_answer panicked = failed crashed

abbrev pub with_id : Bytes → CollectionRow → Bool
with_id id c = same c.id id

-- `ResetCollection`: the transaction is rolled back where the seed is refused.
unfoldable pub reset_by_id : (ℕ → Bytes) → Bytes → Database → Outcome ℕ × Database
unfolding find_by same seeding update_by
reset_by_id uuids id db = elim (find_by (with_id id) db.collections) [
  | none ↦ (failed not_found, db)
  | some c ↦
      let r = seeding uuids c in
      (
        reset_answer r,
        record db { collections = update_by (with_id id) (reseeded r) db.collections },
      )
]

-- The error of the reset is wrapped, and its callers look through.
abbrev pub after_reset : CollectionRow → Outcome ℕ → Outcome CollectionRow
after_reset c (ok n) = ok c
after_reset c (failed e) = failed e

abbrev pub serves : Bytes → EndpointRow → Bool
serves id e = elim e.collection_id [ none ↦ false | some c ↦ same c id ]

-- The endpoints that serve the collection go with it by cascade.
unfoldable pub delete_collection : Bytes → Bytes → Database → Outcome Unit × Database
unfolding find_collection delete_by same owns
delete_collection owner id db = elim (find_collection owner id db) [
  | none ↦ (failed not_found, db)
  | some _ ↦ (
    ok tt,
    record db {
      collections = delete_by (picks owner id db) db.collections;
      endpoints =
          delete_by (λ e. elim e.collection_id [ none ↦ false | some c ↦ same c id ]) db.endpoints;
    },
  )
]

unfoldable pub collection_by_owner_and_id : Bytes → Bytes → Database → Outcome CollectionRow
unfolding find_collection
collection_by_owner_and_id owner id db = elim (find_collection owner id db) [
  | none ↦ failed not_found
  | some c ↦ ok c
]

-- `where p.owner_id = @owner_id and p.slug = @slug and c.name = @name`
unfoldable pub collection_by_owner_and_name :
    Bytes → Bytes → Bytes → Database → Outcome CollectionRow
unfolding find_by exists_by same
collection_by_owner_and_name owner slug name db =
    elim (find_by
      (λ c.
        same c.name name
        && exists_by (λ p. same p.id c.project_id && (same p.owner_id owner && same p.slug slug))
            db.projects)
      db.collections) [ none ↦ failed not_found | some c ↦ ok c ]

-- The rows with the number of their documents.
unfoldable pub collections_by_project : Bytes → Bytes → Database → List (CollectionRow × ℕ)
unfolding select_by same owns sort_by bytes_le
collections_by_project owner project db =
    map (λ c. (c, length c.contents.documents))
      (sort_by (λ c d. bytes_le c.name d.name)
        (select_by (λ c. same c.project_id project && owns owner c.project_id db) db.collections))

-- The columns that an update sets; the documents and the counter are kept.
abbrev pub edited : CollectionInput → List Element → CollectionRow → CollectionRow
edited input elements c = record c {
  name = input.name;
  seed = elements;
  contents = record c.contents {
    id_field = input.id_field;
    id_strategy = strategy_of input.id_strategy;
  };
}

unfoldable pub edit_collection :
    Bytes
    → Bytes
    → CollectionInput
    → List Element
    → Database
    → CollectionRow
    → Outcome CollectionRow × Database
unfolding exists_by same update_by owns
edit_collection owner id input elements db old =
    if exists_by (λ c. not (same c.id id) && has_name old.project_id input.name c) db.collections
    then (failed collection_exists, db)
    else (
      ok (edited input elements old),
      record db {
        collections = update_by (picks owner id db) (edited input elements) db.collections;
      },
    )

unfoldable pub edit_found :
    Bytes
    → Bytes
    → CollectionInput
    → List Element
    → Database
    → Option CollectionRow
    → Outcome CollectionRow × Database
unfolding edit_collection
edit_found owner id input elements db none = (failed not_found, db)
edit_found owner id input elements db (some old) = edit_collection owner id input elements db old

module _ (json : JsonLibrary) where
  unfoldable pub check_input : CollectionInput → FieldErrors
  unfolding validate_seed validate_id_strategy validate_id_field validate_collection_name
  check_input input = validate_seed json input.seed (
      validate_id_strategy input.id_strategy
        (validate_id_field input.id_field (validate_collection_name input.name [])))

  -- The input and its decoded seed.
  unfoldable pub normalize : CollectionInput → Outcome (CollectionInput × List Element)
  unfolding tidied check_input
  normalize input = elim (check_input (tidied input)) [
    | [] ↦ ok (tidied input, elements_of (json.unmarshal (tidied input).seed))
    | e ∷ fe ↦ failed (invalid (e ∷ fe))
  ]

  -- The insert and, in a transaction of its own, the reset.
  unfoldable pub insert_collection :
      (ℕ → Bytes)
      → Bytes
      → Bytes
      → Bytes
      → CollectionInput
      → List Element
      → Database
      → Outcome CollectionRow × Database
  unfolding new_row owns exists_by same reset_by_id
  insert_collection uuids fresh owner project input elements db =
      let c = new_row fresh project input elements in
      let inserted : Database = record db { collections = db.collections ++ c ∷ [] } in
      let (answer, db') = reset_by_id uuids fresh inserted in
      if not (owns owner project db)
      then (failed not_found, db)
      else if exists_by (has_name project input.name) db.collections
      then (failed collection_exists, db)
      else (after_reset c answer, db')

  unfoldable pub create_collection :
      (ℕ → Bytes)
      → Bytes
      → Bytes
      → Bytes
      → CollectionInput
      → Database
      → Outcome CollectionRow × Database
  unfolding normalize insert_collection
  create_collection uuids fresh owner project input db = elim (normalize input) [
    | failed e ↦ (failed e, db)
    | ok (input', elements) ↦ insert_collection uuids fresh owner project input' elements db
  ]

  unfoldable pub update_collection :
      Bytes → Bytes → CollectionInput → Database → Outcome CollectionRow × Database
  unfolding normalize find_collection edit_found
  update_collection owner id input db = elim (normalize input) [
    | failed e ↦ (failed e, db)
    | ok (input', elements) ↦ edit_found owner id input' elements db (find_collection owner id db)
  ]
