-- ===== src/Store/Collections.antt =====
-- The operations on collections keep a consistent database consistent.
use restest.Base.{
  ℕ, ◌≡◌, refl, sym, ap₂, subst, ◌∙◌, inl, inr, Bool, false, not, ◌&&◌, List, [], ◌∷◌, ◌++◌, Option,
  none, some, arith, Bytes, same, same_iff, Option-cases,
}
use restest.Forms.Collection.{JsonLibrary}
use restest.Collections.{Element}
use restest.Collections.Store.{
  CollectionInput, new_row, picks, find_collection, has_name, with_id, seeding, reseeded,
  reset_by_id, after_reset, delete_collection, normalize, insert_collection, create_collection,
  edited, edit_collection, edit_found, serves, update_collection,
}
use restest.Collections.Create.{create_collection_ok}
use restest.Store.Tables.{
  clash, IsBound, IsSound, IsConsistent, collections-changed, exists_by-update_by,
  exists_by-delete_other, delete_by-kept, guarded, Outcome-cases,
}
use restest.Database.{
  Database, CollectionRow, EndpointRow, ok, failed, not_found, collection_exists, StoreError, owns,
  find_by, exists_by, update_by, delete_by, exists_by-append,
}
use restest.Database.Apart.{IsApart-delete_by}

pub collection-added :
    (db : Database) (c : CollectionRow)
    → IsConsistent db
    → IsConsistent (record db { collections = db.collections ++ c ∷ [] })
collection-added db c h = collections-changed db h (db.collections ++ c ∷ []) (λ i project.
    exists_by-append (λ k. same k.id i && same k.project_id project) db.collections (c ∷ []))

collections-updated :
    (db : Database) (test : CollectionRow → Bool) (f : CollectionRow → CollectionRow)
    → ((c : CollectionRow) → ((f c).id ≡ c.id) × ((f c).project_id ≡ c.project_id))
    → IsConsistent db
    → IsConsistent (record db { collections = update_by test f db.collections })
collections-updated db test f kept h =
    collections-changed db h (update_by test f db.collections) (λ i project e.
      exists_by-update_by (λ k. same k.id i && same k.project_id project) test f db.collections
        (λ c. ap₂ (λ j p. same j i && same p project) (kept c).0 (kept c).1)
      ∙ e)

pub reset_by_id-IsConsistent :
    (uuids : ℕ → Bytes) (id : Bytes) (db : Database)
    → IsConsistent db
    → IsConsistent (reset_by_id uuids id db).1
unfolding reset_by_id
reset_by_id-IsConsistent uuids id db h = elim (Option-cases (find_by (with_id id) db.collections)) [
  | inl e ↦ rw (e, reset_by_id) h
  | inr (c, e) ↦
      rw (e, reset_by_id)
        (collections-updated db (with_id id) (reseeded (seeding uuids c)) (λ _. (refl, refl)) h)
]

insert_collection-IsConsistent :
    (json : JsonLibrary) (uuids : ℕ → Bytes) (fresh owner project : Bytes) (input : CollectionInput)
    (elements : List Element) (db : Database)
    → IsConsistent db
    → IsConsistent (insert_collection json uuids fresh owner project input elements db).1
unfolding insert_collection
insert_collection-IsConsistent json uuids fresh owner project input elements db h =
    let c = new_row fresh project input elements in
    let inserted : Database = record db { collections = db.collections ++ c ∷ [] } in
    guarded IsConsistent (not (owns owner project db))
      (exists_by (has_name project input.name) db.collections) (failed not_found)
      (failed collection_exists) (after_reset c (reset_by_id uuids fresh inserted).0) db
      (reset_by_id uuids fresh inserted).1 h
      (reset_by_id-IsConsistent uuids fresh inserted (collection-added db c h))

create_collection-failed :
    (json : JsonLibrary) (uuids : ℕ → Bytes) (fresh owner project : Bytes) (input : CollectionInput)
    (db : Database) (e : StoreError)
    → normalize json input ≡ failed e
    → create_collection json uuids fresh owner project input db ≡ (failed e, db)
unfolding create_collection
create_collection-failed json uuids fresh owner project input db e h =
    rw (h, create_collection) refl

pub create_collection-IsConsistent :
    (json : JsonLibrary) (uuids : ℕ → Bytes) (fresh owner project : Bytes) (input : CollectionInput)
    (db : Database)
    → IsConsistent db
    → IsConsistent (create_collection json uuids fresh owner project input db).1
create_collection-IsConsistent json uuids fresh owner project input db h =
    elim (Outcome-cases (normalize json input)) [
      | inl ((i, elements), e) ↦
          subst (λ a. IsConsistent a.1)
            (sym (create_collection_ok json uuids fresh owner project input db i elements e))
            (insert_collection-IsConsistent json uuids fresh owner project i elements db h)
      | inr (e, k) ↦
          subst (λ a. IsConsistent a.1)
            (sym (create_collection-failed json uuids fresh owner project input db e k)) h
    ]

edit_collection-IsConsistent :
    (owner id : Bytes) (input : CollectionInput) (elements : List Element) (db : Database)
    (old : CollectionRow)
    → IsConsistent db
    → IsConsistent (edit_collection owner id input elements db old).1
unfolding edit_collection
edit_collection-IsConsistent owner id input elements db old h =
    guarded IsConsistent
      (exists_by (λ c. not (same c.id id) && has_name old.project_id input.name c) db.collections)
      false (failed collection_exists) (failed collection_exists) (ok (edited input elements old))
      db
      (record db {
        collections = update_by (picks owner id db) (edited input elements) db.collections;
      })
      h (collections-updated db (picks owner id db) (edited input elements) (λ _. (refl, refl)) h)

module _ (json : JsonLibrary) (owner id : Bytes) (input : CollectionInput) (db : Database)
    (h : IsConsistent db) where
  edit_found-IsConsistent :
      (i : CollectionInput) (elements : List Element) (found : Option CollectionRow)
      → IsConsistent (edit_found owner id i elements db found).1
  unfolding edit_found
  edit_found-IsConsistent i elements none = h
  edit_found-IsConsistent i elements (some old) =
      edit_collection-IsConsistent owner id i elements db old h

  pub update_collection-IsConsistent : IsConsistent (update_collection json owner id input db).1
  unfolding update_collection
  update_collection-IsConsistent = elim (Outcome-cases (normalize json input)) [
    | inl ((i, elements), e) ↦
        rw (e, update_collection) (edit_found-IsConsistent i elements (find_collection owner id db))
    | inr (e, k) ↦ rw (k, update_collection) h
  ]

-- An endpoint that stays does not serve the collection that goes.
stays-IsBound :
    (owner id : Bytes) (db : Database) (r : EndpointRow)
    → IsBound db.collections r
    → serves id r ≡ false
    → IsBound (delete_by (picks owner id db) db.collections) r
stays-IsBound owner id db r b gone c e =
    let other : same c id ≡ false = rw e at gone in
    exists_by-delete_other (λ k. same k.id c && same k.project_id r.project_id) (picks owner id db)
      db.collections (λ k t. ground (arith, other, same_iff k.id c))
    ∙ b c e

pub delete_collection-IsConsistent :
    (owner id : Bytes) (db : Database)
    → IsConsistent db
    → IsConsistent (delete_collection owner id db).1
unfolding delete_collection
delete_collection-IsConsistent owner id db h = elim (Option-cases (find_collection owner id db)) [
  | inl e ↦ rw (e, delete_collection) h
  | inr (c, e) ↦
      rw (e, delete_collection)
        (record {
          sound =
              delete_by-kept (IsSound db.projects db.collections)
                (IsSound db.projects (delete_by (picks owner id db) db.collections)) (serves id)
                db.endpoints
                (λ r (checked, housed, bound) stays.
                  (checked, housed, stays-IsBound owner id db r bound stays))
                h.sound;
          routes = IsApart-delete_by clash (serves id) db.endpoints h.routes;
          slugs = h.slugs;
        })
]
