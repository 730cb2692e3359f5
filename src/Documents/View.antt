-- ===== src/Documents/View.antt =====
-- A collection as a map from identifiers to documents: what a request does to it can be read off the
-- answer to the request.
use restest.Base.{
  ℕ, zero, suc, ◌≡◌, refl, sym, ap, subst, Option, none, some, arith, if◌then◌else◌, Bytes, same,
  lookup, put, lookup-put, lookup-drop_key, Option-cases, inl, inr,
}
use restest.Collections.{Fields}
use restest.Documents.{
  Collection, Body, json_object, no_object, Result, done, deleted, not_found, not_json,
  get_document, public_id_for, create_attempts, try_create, create_document, write_object,
  write_document, merge, replace_document, patch_document, delete_document, Request, create,
  replace, patch, delete, serve, with_own_id,
}
use restest.Documents.Steps.{
  allocate_document_id-cases, try_create-overflow, try_create-taken, try_create-free,
  write_document-cases, write_object-missing, write_object-found, delete_document-missing,
  delete_document-found,
}

-- The map after a request with this answer.
abbrev pub seen : Request → Result → (Bytes → Option Fields) → Bytes → Option Fields
seen (delete id) deleted m j = if same id j then none else m j
seen r (done id stored) m j = if same id j then some stored else m j
seen r _ m j = m j

abbrev Tells : Request → Collection → Result × Collection → Type 0
Tells r c p = (j : Bytes) → lookup j p.1.documents ≡ seen r p.0 (λ k. lookup k c.documents) j

put-Tells :
    (r : Request) (c c' : Collection) (id : Bytes) (stored : Fields)
    → c'.documents ≡ c.documents
    → Tells r c (done id stored, record c' { documents = put id stored c'.documents })
put-Tells (create uuids body) c c' id stored e j =
    ground (arith, lookup-put id j stored c'.documents)
put-Tells (replace i body) c c' id stored e j = ground (arith, lookup-put id j stored c'.documents)
put-Tells (patch i body) c c' id stored e j = ground (arith, lookup-put id j stored c'.documents)
put-Tells (delete i) c c' id stored e j = ground (arith, lookup-put id j stored c'.documents)

told :
    (r : Request) (c : Collection) {p q : Result × Collection} → p ≡ q → Tells r c q → Tells r c p
told r c e = subst (Tells r c) (sym e)

try_create-Tells :
    (u : ℕ → Bytes) (b : Body) (left : ℕ) (uuids : ℕ → Bytes) (body : Fields) (c c' : Collection)
    → c'.documents ≡ c.documents
    → Tells (create u b) c (try_create left uuids body c')
unfolding try_create
try_create-Tells u b zero uuids body c c' same_documents = λ j. ap (lookup j) same_documents
try_create-Tells u b (suc left) uuids body c c' same_documents =
    elim (allocate_document_id-cases c') [
      | inl e ↦
          told (create u b) c (try_create-overflow left uuids body c' e)
            (λ j. ap (lookup j) same_documents)
      | inr (n, m, e) ↦
          let c'' : Collection = record c' { next_serial = m } in
          let id = public_id_for c'.id_strategy (uuids left) n in
          elim (Option-cases (lookup id c'.documents)) [
            | inl k ↦
                told (create u b) c (try_create-free left uuids body c' n c'' e k)
                  (put-Tells (create u b) c c'' id (with_own_id c'.id_field id body) same_documents)
            | inr (taken, k) ↦
                told (create u b) c (try_create-taken left uuids body c' n c'' e taken k)
                  (try_create-Tells u b left uuids body c c'' same_documents)
          ]
    ]

module _ (r : Request)
    (missing : (m : Bytes → Option Fields) (j : Bytes) → seen r not_found m j ≡ m j)
    (failed : (m : Bytes → Option Fields) (j : Bytes) → seen r not_json m j ≡ m j) where
  write_object-Tells :
      (statement : Fields → Fields → Fields) (id : Bytes) (body : Fields) (c : Collection)
      → Tells r c (write_object statement id body c)
  write_object-Tells statement id body c = elim (Option-cases (lookup id c.documents)) [
    | inl e ↦
        told r c (write_object-missing statement id body c e)
          (λ j. sym (missing (λ k. lookup k c.documents) j))
    | inr (old, e) ↦
        told r c (write_object-found statement id body c old e)
          (put-Tells r c c id (with_own_id c.id_field id (statement old body)) refl)
  ]

  write_document-Tells :
      (statement : Fields → Fields → Fields) (id : Bytes) (body : Fields) (c : Collection)
      → Tells r c (write_document statement id (json_object body) c)
  write_document-Tells statement id body c = elim (write_document-cases statement id body c) [
    | inl e ↦ told r c e (write_object-Tells statement id body c)
    | inr e ↦ told r c e (λ j. sym (failed (λ k. lookup k c.documents) j))
  ]

delete_document-Tells : (id : Bytes) (c : Collection) → Tells (delete id) c (delete_document id c)
delete_document-Tells id c = elim (Option-cases (lookup id c.documents)) [
  | inl e ↦ told (delete id) c (delete_document-missing id c e) (λ j. refl)
  | inr (old, e) ↦
      told (delete id) c (delete_document-found id c old e) (λ j. lookup-drop_key id j c.documents)
]

-- What a client is told is what has happened: after any request every identifier has the document that
-- the answer implies. A document that was stored is found as it was answered, one that was deleted is
-- gone, and nothing else has changed, least of all by a request that was refused.
pub get_document-serve :
    (r : Request) (c : Collection) (j : Bytes)
    → get_document j (serve r c).1 ≡ seen r (serve r c).0 (λ k. get_document k c) j
unfolding serve get_document create_document replace_document patch_document
get_document-serve (create uuids no_object) c j = refl
get_document-serve (create uuids (json_object body)) c j =
    try_create-Tells uuids (json_object body) create_attempts uuids body c c refl j
get_document-serve (replace id no_object) c j = ground arith
get_document-serve (replace id (json_object body)) c j =
    write_document-Tells (replace id (json_object body)) (λ m k. refl) (λ m k. refl)
      (λ old new. new) id body c j
get_document-serve (patch id no_object) c j = ground arith
get_document-serve (patch id (json_object body)) c j =
    write_document-Tells (patch id (json_object body)) (λ m k. refl) (λ m k. refl) merge id body c j
get_document-serve (delete id) c j = delete_document-Tells id c j
