-- ===== src/Collections/Seeds.antt =====
-- `seedDocuments`: every document has an identifier of its own.
use restest.Base.{
  ℕ, suc, ◌≡◌, refl, subst, ◌≢◌, ◌⊎◌, true, false, List, [], ◌∷◌, Option, none, some, arith, All,
  Bytes, same_iff, contains, put, inl, inr,
}
use restest.Paths.Validate.{IsDistinct}
use restest.Collections.{
  finish, second_pass, Element, object, null_element, not_object, serial, SeedDoc, seeded, id_json,
  FirstPass, passed, stopped, read_ids, allocate_seed_id, add_doc, fill, ids_of, seed_documents,
}
use restest.Collections.Allocate.{allocate_seed_id_free}
use restest.Collections.Stated.{stated, FirstGood, read_ids-FirstGood}

contains-none : (x : Bytes) (xs : List Bytes) → All (λ y. y ≢ x) xs → contains x xs ≡ false
unfolding contains
contains-none x [] h = refl
contains-none x (y ∷ xs) (h, hs) = ground (arith, same_iff y x, contains-none x xs hs)

All-map : {P Q : Bytes → Type 0} (xs : List Bytes) → ((x : Bytes) → P x → Q x) → All P xs → All Q xs
All-map [] f h = tt
All-map (x ∷ xs) f (h, hs) = (f x h, All-map xs f hs)

-- An identifier of a document is one that was stated, or one that was not taken.
abbrev Own : List Bytes → List Bytes → Bytes → Type 0
Own ids taken x = (contains x (stated ids) ≡ true) ⊎ (contains x taken ≡ false)

-- The identifiers stated are taken.
abbrev Covers : List Bytes → List Bytes → Type 0
Covers ids taken = (x : Bytes) → contains x (stated ids) ≡ true → contains x taken ≡ true

-- The identifiers of the documents are distinct, and each is one's own.
Good : List Bytes → List Bytes → Option (List SeedDoc) → Type 0
Good ids taken none = Unit
Good ids taken (some docs) = IsDistinct (ids_of docs) × All (Own ids taken) (ids_of docs)

Good-stated :
    (d : SeedDoc) (b : ℕ) (s : Bytes) (ids taken : List Bytes) (o : Option (List SeedDoc))
    → d.public_id ≡ b ∷ s
    → contains (b ∷ s) (stated ids) ≡ false
    → Covers ((b ∷ s) ∷ ids) taken
    → Good ids taken o
    → Good ((b ∷ s) ∷ ids) taken (add_doc d o)
unfolding Good stated contains
Good-stated d b s ids taken none e fresh c h = tt
Good-stated d b s ids taken (some docs) e fresh c (distinct, own) =
    let x = d.public_id in
    let there : contains x taken ≡ true = c x (ground (arith, same_iff (b ∷ s) x)) in
    (
      (
        contains-none x (ids_of docs) (
            All-map (ids_of docs)
              (λ y o k. elim o [ inl p ↦ ground (arith, p) | inr p ↦ ground (arith, p, there) ])
              own),
        distinct,
      ),
      (
        inl (ground (arith, same_iff (b ∷ s) x)),
        All-map (ids_of docs) (λ y o. elim o [ inl p ↦ inl (ground (arith, p)) | inr p ↦ inr p ])
            own,
      ),
    )

Good-allocated :
    (d : SeedDoc) (ids taken : List Bytes) (o : Option (List SeedDoc))
    → contains d.public_id taken ≡ false
    → Covers ids taken
    → Good ids (d.public_id ∷ taken) o
    → Good ([] ∷ ids) taken (add_doc d o)
unfolding Good stated contains
Good-allocated d ids taken none fresh c h = tt
Good-allocated d ids taken (some docs) fresh c (distinct, own) =
    let x = d.public_id in
    (
      (
        contains-none x (ids_of docs) (
            All-map (ids_of docs)
              (λ y o k. elim o [
                | inl p ↦ ground (arith, c y p)
                | inr p ↦ ground (arith, p, same_iff x y)
              ])
              own),
        distinct,
      ),
      (
        inr fresh,
        All-map (ids_of docs) (λ y o. elim o [ inl p ↦ inl p | inr p ↦ inr (ground (arith, p)) ])
            own,
      ),
    )

Covers-rest : (id : Bytes) (ids taken : List Bytes) → Covers (id ∷ ids) taken → Covers ids taken
unfolding stated contains
Covers-rest [] ids taken c x h = c x h
Covers-rest (b ∷ s) ids taken c x h = c x (ground arith)

Covers-more : (id : Bytes) (ids taken : List Bytes) → Covers ids taken → Covers ids (id ∷ taken)
unfolding contains
Covers-more id ids taken c x h = ground (arith, c x h)

module _ (uuids : ℕ → Bytes) (id_field : Bytes) where
  fill-Good :
      (i : ℕ) (es : List Element) (ids : List Bytes) (counter : ℕ) (taken : List Bytes)
      → IsDistinct (stated ids)
      → Covers ids taken
      → Good ids taken (fill serial uuids id_field i es ids counter taken)
  unfolding fill Good stated
  fill-Good i [] [] counter taken d c = (tt, tt)
  fill-Good i [] ([] ∷ ids) counter taken d c = (tt, tt)
  fill-Good i [] ((b ∷ s) ∷ ids) counter taken d c = (tt, tt)
  fill-Good i (e ∷ es) [] counter taken d c = (tt, tt)
  fill-Good i (e ∷ es) ((b ∷ s) ∷ ids) counter taken (fresh, d) c =
      Good-stated _ b s ids taken _ refl fresh c
        (fill-Good (suc i) es ids counter taken d (Covers-rest (b ∷ s) ids taken c))
  fill-Good i (object fields ∷ es) ([] ∷ ids) counter taken d c =
      let (id, counter') = allocate_seed_id serial (uuids i) counter taken in
      Good-allocated (record { public_id = id; body = put id_field (id_json id) fields }) ids taken
        _ (allocate_seed_id_free (uuids i) counter taken) c
        (fill-Good (suc i) es ids counter' (id ∷ taken) d (Covers-more id ids taken c))
  fill-Good i (null_element ∷ es) ([] ∷ ids) counter taken d c = tt
  fill-Good i (not_object ∷ es) ([] ∷ ids) counter taken d c = tt

  finish-IsDistinct :
      (ids taken : List Bytes) (docs : List SeedDoc) (next : ℕ) (o : Option (List SeedDoc))
      → Good ids taken o
      → finish o ≡ seeded docs next
      → IsDistinct (ids_of docs)
  unfolding Good
  finish-IsDistinct ids taken docs next none good h = cc
  finish-IsDistinct ids taken docs next (some ds) (distinct, own) h =
      subst (λ l. IsDistinct (ids_of l)) (ground arith) distinct

  second_pass-IsDistinct :
      (es : List Element) (docs : List SeedDoc) (next : ℕ) (p : FirstPass)
      → FirstGood [] p
      → second_pass serial uuids id_field es p ≡ seeded docs next
      → IsDistinct (ids_of docs)
  unfolding FirstGood
  second_pass-IsDistinct es docs next (stopped e) good h = cc
  second_pass-IsDistinct es docs next (passed ids taken) (distinct, apart, covers) h =
      finish-IsDistinct ids taken docs next _
        (fill-Good 0 es ids 0 taken distinct (λ x k. covers x (inl k))) h

  -- The documents of a seed under serial identifiers have distinct identifiers, those that the seed
  -- states and those allocated around them together.
  pub seed_documents-IsDistinct :
      (es : List Element) (docs : List SeedDoc) (next : ℕ)
      → seed_documents serial uuids id_field es ≡ seeded docs next
      → IsDistinct (ids_of docs)
  unfolding seed_documents
  seed_documents-IsDistinct es docs next h =
      second_pass-IsDistinct es docs next (read_ids 0 id_field es [])
        (read_ids-FirstGood 0 id_field es []) h
