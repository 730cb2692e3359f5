-- ===== src/Documents/Steps.antt =====
-- Each branch of the requests, as an equation.
use restest.Base.{
  ℕ, suc, ◌≡◌, ◌⊎◌, none, some, arith, Bytes, lookup, put, drop_key, Option-cases, Bool-cases, inl,
  inr,
}
use restest.Collections.{Fields}
use restest.Documents.{
  Collection, json_object, done, deleted, not_found, counter_overflow, with_own_id,
  allocate_document_id, public_id_for, try_create, write_object, write_document, is_quotable,
  not_json, delete_document,
}

-- What an allocation leaves: the collection with another counter.
pub allocate_document_id-cases :
    (c : Collection)
    → (allocate_document_id c ≡ none)
      ⊎ ((n : ℕ) × (m : ℕ) × (allocate_document_id c ≡ some (n, record c { next_serial = m })))
unfolding allocate_document_id
allocate_document_id-cases c = elim (Option-cases (allocate_document_id c)) [
  | inl e ↦ inl e
  | inr ((n, c'), e) ↦ inr (n, c'.next_serial, ground arith)
]

module _ (left : ℕ) (uuids : ℕ → Bytes) (body : Fields) (c : Collection) where
  pub try_create-overflow :
      allocate_document_id c ≡ none → try_create (suc left) uuids body c ≡ (counter_overflow, c)
  unfolding try_create
  try_create-overflow e = ground arith

  module _ (n : ℕ) (c' : Collection) (allocated : allocate_document_id c ≡ some (n, c')) where
    abbrev pub id : Bytes
    id = public_id_for c.id_strategy (uuids left) n

    pub try_create-taken :
        (taken : Fields)
        → lookup id c'.documents ≡ some taken
        → try_create (suc left) uuids body c ≡ try_create left uuids body c'
    unfolding try_create
    try_create-taken taken e = ground arith

    abbrev pub stored : Fields
    stored = with_own_id c'.id_field id body

    pub try_create-free :
        lookup id c'.documents ≡ none
        → try_create (suc left) uuids body c
          ≡ (done id stored, record c' { documents = put id stored c'.documents })
    unfolding try_create
    try_create-free e = ground arith

module _ (statement : Fields → Fields → Fields) (id : Bytes) (body : Fields) (c : Collection) where
  pub write_document-cases :
      (write_document statement id (json_object body) c ≡ write_object statement id body c)
      ⊎ (write_document statement id (json_object body) c ≡ (not_json, c))
  unfolding write_document
  write_document-cases = elim (Bool-cases (is_quotable id)) [
    | inl e ↦ inl (ground arith)
    | inr e ↦ inr (ground arith)
  ]

  pub write_object-missing :
      lookup id c.documents ≡ none → write_object statement id body c ≡ (not_found, c)
  unfolding write_object
  write_object-missing e = ground arith

  abbrev pub written : Fields → Fields
  written old = with_own_id c.id_field id (statement old body)

  pub write_object-found :
      (old : Fields)
      → lookup id c.documents ≡ some old
      → write_object statement id body c
        ≡ (done id (written old), record c { documents = put id (written old) c.documents })
  unfolding write_object
  write_object-found old e = ground arith

module _ (id : Bytes) (c : Collection) where
  pub delete_document-missing : lookup id c.documents ≡ none → delete_document id c ≡ (not_found, c)
  unfolding delete_document
  delete_document-missing e = ground arith

  pub delete_document-found :
      (old : Fields)
      → lookup id c.documents ≡ some old
      → delete_document id c ≡ (deleted, record c { documents = drop_key id c.documents })
  unfolding delete_document
  delete_document-found old e = ground arith
