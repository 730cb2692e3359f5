-- ===== src/Collections/Own.antt =====
-- `seedDocuments`: what each document carries, and when the second loop panics.
use restest.Base.{
  ℕ, suc, ◌≡◌, refl, sym, ap, subst, ◌≢◌, List, [], ◌∷◌, Option, none, some, arith, length, All,
  Bytes, contains, lookup, put, lookup-put_self, Bool-cases, Option-cases, inl, inr, parse_int,
  format_int, parse_digits, parse_digits-format_int,
}
use restest.Collections.{
  Json, Fields, Element, object, null_element, not_object, Strategy, serial, uuid, SeedDoc, seeded,
  scalar_text, id_json, FirstPass, passed, stopped, with_id, read_ids, next_free, allocate_seed_id,
  add_doc, fill, finish, second_pass, seed_documents, is_printed, entry_bad_id, shared_id,
}

-- The document carries its identifier in the field for it.
pub record HasOwnId (id_field : Bytes) (d : SeedDoc) : Type 0 where
  pub raw : Json
  pub field : lookup id_field d.body ≡ some raw
  pub scalar : scalar_text raw ≡ some d.public_id

-- What the first loop has read of an object: the identifier in its field, or nothing.
unfoldable pub StatedBy : Bytes → Fields → Bytes → Type 0
StatedBy id_field fields [] = Unit
StatedBy id_field fields (c ∷ s) =
    (raw : Json) × (lookup id_field fields ≡ some raw) × (scalar_text raw ≡ some (c ∷ s))

unfoldable pub Read : Bytes → List Element → List Bytes → Type 0
Read id_field [] [] = Unit
Read id_field (object fields ∷ es) (id ∷ ids) = StatedBy id_field fields id × Read id_field es ids
Read id_field (null_element ∷ es) (id ∷ ids) = (id ≡ []) × Read id_field es ids
Read id_field _ _ = ⊥

unfoldable pub ReadPass : Bytes → List Element → FirstPass → Type 0
ReadPass id_field es (stopped e) = Unit
ReadPass id_field es (passed ids taken) = Read id_field es ids

with_id-ReadPass :
    (id_field : Bytes) (e : Element) (es : List Element) (id : Bytes) (p : FirstPass)
    → ((ids : List Bytes) → Read id_field es ids → Read id_field (e ∷ es) (id ∷ ids))
    → ReadPass id_field es p
    → ReadPass id_field (e ∷ es) (with_id id p)
unfolding ReadPass
with_id-ReadPass id_field e es id (stopped x) f h = tt
with_id-ReadPass id_field e es id (passed ids taken) f h = f ids h

StatedBy-of :
    (id_field : Bytes) (fields : Fields) (raw : Json) (id : Bytes)
    → lookup id_field fields ≡ some raw
    → scalar_text raw ≡ some id
    → StatedBy id_field fields id
unfolding StatedBy
StatedBy-of id_field fields raw [] e k = tt
StatedBy-of id_field fields raw (c ∷ s) e k = (raw, e, k)

pub read_ids-ReadPass :
    (i : ℕ) (id_field : Bytes) (es : List Element) (taken : List Bytes)
    → ReadPass id_field es (read_ids i id_field es taken)
unfolding read_ids ReadPass Read StatedBy
read_ids-ReadPass i id_field [] taken = tt
read_ids-ReadPass i id_field (not_object ∷ es) taken = tt
read_ids-ReadPass i id_field (null_element ∷ es) taken =
    with_id-ReadPass id_field null_element es [] _ (λ ids h. (refl, h))
      (read_ids-ReadPass (suc i) id_field es taken)
read_ids-ReadPass i id_field (object fields ∷ es) taken =
    elim (Option-cases (lookup id_field fields)) [
      | inl e ↦ subst (ReadPass id_field (object fields ∷ es)) (sym (ground arith)) (
          with_id-ReadPass id_field (object fields) es [] _ (λ ids h. (tt, h))
            (read_ids-ReadPass (suc i) id_field es taken))
      | inr (raw, e) ↦ elim (Option-cases (scalar_text raw)) [
        | inl k ↦
            subst (ReadPass id_field (object fields ∷ es)) {x = stopped (entry_bad_id (suc i))}
              (sym (ground arith)) tt
        | inr (id, k) ↦ elim (Bool-cases (contains id taken)) [
          | inl there ↦
              subst (ReadPass id_field (object fields ∷ es)) {x = stopped (shared_id id)}
                (sym (ground arith)) tt
          | inr free ↦ subst (ReadPass id_field (object fields ∷ es)) (sym (ground arith)) (
              with_id-ReadPass id_field (object fields) es id _
                (λ ids h. (StatedBy-of id_field fields raw id e k, h))
                (read_ids-ReadPass (suc i) id_field es (id ∷ taken)))
        ]
      ]
    ]

pub scalar_text-id_json : (id : Bytes) → id ≢ [] → scalar_text (id_json id) ≡ some id
unfolding id_json scalar_text
scalar_text-id_json [] h = absurd (h refl)
scalar_text-id_json (c ∷ s) h = elim (Bool-cases (is_printed (parse_int (c ∷ s)) (c ∷ s))) [
  | inl e ↦ rw e
  | inr e ↦ rw e
]

pub format_int-ne-nil : (n : ℕ) → format_int n ≢ []
unfolding parse_digits
format_int-ne-nil n e = ground (arith, parse_digits-format_int n, ap parse_digits e)

module _ (strategy : Strategy) (uuids : ℕ → Bytes) (id_field : Bytes)
    (some_uuid : (i : ℕ) → uuids i ≢ []) where
  OwnAll : Option (List SeedDoc) → Type 0
  OwnAll none = Unit
  OwnAll (some docs) = All (HasOwnId id_field) docs

  add_doc-OwnAll :
      (d : SeedDoc) (o : Option (List SeedDoc))
      → HasOwnId id_field d
      → OwnAll o
      → OwnAll (add_doc d o)
  unfolding OwnAll
  add_doc-OwnAll d none h k = tt
  add_doc-OwnAll d (some docs) h k = (h, k)

  allocate_seed_id-ne-nil :
      (st : Strategy) (i counter : ℕ) (taken : List Bytes)
      → (allocate_seed_id st (uuids i) counter taken).0 ≢ []
  unfolding allocate_seed_id
  allocate_seed_id-ne-nil uuid i counter taken = some_uuid i
  allocate_seed_id-ne-nil serial i counter taken =
      format_int-ne-nil (next_free (length taken) counter taken)

  fill-OwnAll :
      (i : ℕ) (es : List Element) (ids : List Bytes) (counter : ℕ) (taken : List Bytes)
      → Read id_field es ids
      → OwnAll (fill strategy uuids id_field i es ids counter taken)
  unfolding fill OwnAll Read StatedBy
  fill-OwnAll i [] [] counter taken h = tt
  fill-OwnAll i [] (id ∷ ids) counter taken h = absurd h
  fill-OwnAll i (e ∷ es) [] counter taken h = tt
  fill-OwnAll i (object fields ∷ es) ((c ∷ s) ∷ ids) counter taken ((raw, e, k), h) =
      add_doc-OwnAll _ _ (record { raw = raw; field = e; scalar = k })
        (fill-OwnAll (suc i) es ids counter taken h)
  fill-OwnAll i (null_element ∷ es) ((c ∷ s) ∷ ids) counter taken (e, h) = cc
  fill-OwnAll i (not_object ∷ es) ((c ∷ s) ∷ ids) counter taken h = absurd h
  fill-OwnAll i (object fields ∷ es) ([] ∷ ids) counter taken (_, h) =
      let (id, counter') = allocate_seed_id strategy (uuids i) counter taken in
      add_doc-OwnAll (record { public_id = id; body = put id_field (id_json id) fields }) _
        (record {
          raw = id_json id;
          field = lookup-put_self id_field (id_json id) fields;
          scalar = scalar_text-id_json id (allocate_seed_id-ne-nil strategy i counter taken);
        })
        (fill-OwnAll (suc i) es ids counter' (id ∷ taken) h)
  fill-OwnAll i (null_element ∷ es) ([] ∷ ids) counter taken h = tt
  fill-OwnAll i (not_object ∷ es) ([] ∷ ids) counter taken h = tt

  finish-OwnAll :
      (docs : List SeedDoc) (next : ℕ) (o : Option (List SeedDoc))
      → OwnAll o
      → finish o ≡ seeded docs next
      → All (HasOwnId id_field) docs
  unfolding OwnAll
  finish-OwnAll docs next none h e = cc
  finish-OwnAll docs next (some ds) h e = subst (All (HasOwnId id_field)) (ground arith) h

  second_pass-OwnAll :
      (es : List Element) (docs : List SeedDoc) (next : ℕ) (p : FirstPass)
      → ReadPass id_field es p
      → second_pass strategy uuids id_field es p ≡ seeded docs next
      → All (HasOwnId id_field) docs
  unfolding ReadPass
  second_pass-OwnAll es docs next (stopped x) h e = cc
  second_pass-OwnAll es docs next (passed ids taken) h e =
      finish-OwnAll docs next _ (fill-OwnAll 0 es ids 0 taken h) e

  -- Every document of a seed carries the identifier that it answers to in the field for it, as a text
  -- or a number, whether the seed states it or it was allocated, under either strategy, where the
  -- uuids drawn are not empty.
  pub seed_documents-HasOwnId :
      (es : List Element) (docs : List SeedDoc) (next : ℕ)
      → seed_documents strategy uuids id_field es ≡ seeded docs next
      → All (HasOwnId id_field) docs
  unfolding seed_documents
  seed_documents-HasOwnId es docs next e =
      second_pass-OwnAll es docs next (read_ids 0 id_field es [])
        (read_ids-ReadPass 0 id_field es []) e
