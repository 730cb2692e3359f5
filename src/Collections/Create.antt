-- ===== src/Collections/Create.antt =====
-- `CreateCollection`: the insert and the reset are two transactions.
use restest.Base.{
  ℕ, ◌≡◌, refl, sym, ap, subst, ◌∙◌, true, false, List, [], ◌∷◌, ◌++◌, some, Bytes, same_refl,
}
use restest.Forms.Collection.{JsonLibrary}
use restest.Collections.{Element, SeedResult, refused, SeedError}
use restest.Collections.Store.{
  CollectionInput, new_row, has_name, with_id, seeding, reseeded, seed_errors, reset_answer,
  after_reset, reset_by_id, normalize, insert_collection, create_collection,
}
use restest.Database.{
  Database, CollectionRow, Outcome, ok, failed, invalid, collection_exists, owns, exists_by,
  find_by, find_by-snoc, exists_by-snoc, update_by-snoc,
}

-- What the caller is told, by what the seeding gives.
abbrev pub created_answer : SeedResult → CollectionRow → Outcome CollectionRow
created_answer r c = after_reset c (reset_answer r)

module _ (uuids : ℕ → Bytes) (c : CollectionRow) (db : Database)
    (unused : exists_by (with_id c.id) db.collections ≡ false) where
  abbrev inserted : Database
  inserted = record db { collections = db.collections ++ c ∷ [] }

  found : find_by (with_id c.id) (db.collections ++ c ∷ []) ≡ some c
  found = find_by-snoc (with_id c.id) c (same_refl c.id) db.collections unused

  reset_inserted : reset_by_id uuids c.id inserted ≡ (
    reset_answer (seeding uuids c),
    record db { collections = db.collections ++ reseeded (seeding uuids c) c ∷ [] },
  )
  unfolding reset_by_id
  reset_inserted =
      rw (found, reset_by_id)
        (ap {A = List CollectionRow}
          (λ cs. (reset_answer (seeding uuids c), record db { collections = cs }))
          (update_by-snoc (with_id c.id) c (same_refl c.id) (reseeded (seeding uuids c))
            db.collections unused))

module _ (json : JsonLibrary) (uuids : ℕ → Bytes) (fresh owner project : Bytes)
    (input : CollectionInput) (db : Database) where
  insert_collection_new :
      (input' : CollectionInput) (elements : List Element)
      → owns owner project db ≡ true
      → exists_by (has_name project input'.name) db.collections ≡ false
      → exists_by (with_id fresh) db.collections ≡ false
      → insert_collection json uuids fresh owner project input' elements db ≡ (
          let c = new_row fresh project input' elements in
          (
            created_answer (seeding uuids c) c,
            record db { collections = db.collections ++ reseeded (seeding uuids c) c ∷ [] },
          ))
  unfolding insert_collection new_row
  insert_collection_new input' elements o n u =
      rw (o, n, reset_inserted uuids (new_row fresh project input' elements) db u) refl

  pub create_collection_ok :
      (input' : CollectionInput) (elements : List Element)
      → normalize json input ≡ ok (input', elements)
      → create_collection json uuids fresh owner project input db
        ≡ insert_collection json uuids fresh owner project input' elements db
  unfolding create_collection
  create_collection_ok input' elements e = rw (e, create_collection) refl

  -- Creating a collection from an accepted input, in a project of the caller without a collection of
  -- that name, leaves the row behind its fellows whatever the seeding gives: with the documents and
  -- the counter of the seed where it gives them, and empty, with an error for the caller, where
  -- the seed is refused or the seeding panics.
  pub create_collection-stored :
      (input' : CollectionInput) (elements : List Element)
      → normalize json input ≡ ok (input', elements)
      → owns owner project db ≡ true
      → exists_by (has_name project input'.name) db.collections ≡ false
      → exists_by (with_id fresh) db.collections ≡ false
      → create_collection json uuids fresh owner project input db ≡ (
          let c = new_row fresh project input' elements in
          (
            created_answer (seeding uuids c) c,
            record db { collections = db.collections ++ reseeded (seeding uuids c) c ∷ [] },
          ))
  create_collection-stored input' elements e o n u =
      create_collection_ok input' elements e ∙ insert_collection_new input' elements o n u

exists_by_taken :
    (json : JsonLibrary) (uuids : ℕ → Bytes) (fresh owner project : Bytes) (input : CollectionInput)
    (elements : List Element) (db : Database)
    → owns owner project db ≡ true
    → exists_by (has_name project input.name) db.collections ≡ true
    → (insert_collection json uuids fresh owner project input elements db).0
      ≡ failed collection_exists
unfolding insert_collection
exists_by_taken json uuids fresh owner project input elements db o n = rw (o, n) refl

-- A seed that passes the validation but that the seeding refuses, such as one in which two entries
-- state one identifier, is answered as an error of the field `seed`, and the corrected form, of the same
-- name with whatever seed, is told that the collection is there.
pub create_collection-leftover :
    (json : JsonLibrary) (uuids uuids' : ℕ → Bytes) (fresh fresh' owner project : Bytes)
    (input again : CollectionInput) (db : Database) (input' again' : CollectionInput)
    (elements elements' : List Element) (e : SeedError)
    → normalize json input ≡ ok (input', elements)
    → normalize json again ≡ ok (again', elements')
    → again'.name ≡ input'.name
    → owns owner project db ≡ true
    → exists_by (has_name project input'.name) db.collections ≡ false
    → exists_by (with_id fresh) db.collections ≡ false
    → seeding uuids (new_row fresh project input' elements) ≡ refused e
    → ((create_collection json uuids fresh owner project input db).0
        ≡ failed (invalid (seed_errors e)))
      × ((create_collection json uuids' fresh' owner project again
            (create_collection json uuids fresh owner project input db).1).0
          ≡ failed collection_exists)
unfolding owns new_row
create_collection-leftover json uuids uuids' fresh fresh' owner project input again db input' again'
      elements elements' e k k' same_name o n u r =
    let c = new_row fresh project input' elements in
    let stored =
      create_collection-stored json uuids fresh owner project input db input' elements k o n u in
    let taken =
      subst (λ n. has_name project n c ≡ true) (sym same_name)
        (rw (same_refl project, same_refl input'.name) refl) in
    let db' : Database = record db {
      collections = db.collections ++ reseeded (seeding uuids c) c ∷ [];
    } in
    (
      ap (λ a. a.0) stored ∙ ap (λ q. created_answer q c) r,
      ap (λ d. (create_collection json uuids' fresh' owner project again d).0)
            (ap (λ a. a.1) stored)
          ∙ (ap (λ a. a.0)
                (create_collection_ok json uuids' fresh' owner project again db' again' elements'
                  k')
              ∙ exists_by_taken json uuids' fresh' owner project again' elements' db' o (
                  exists_by-snoc (has_name project again'.name) db.collections
                    (reseeded (seeding uuids c) c) taken)),
    )
