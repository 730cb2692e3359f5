-- ===== src/Documents/Create.antt =====
-- The first document after a reset.
use restest.Base.{
  ℕ, suc, ◌<◌, ◌≡◌, refl, ap, ◌∙◌, false, List, [], ◌∷◌, none, some, map, arith, Bytes, contains,
  lookup, format_int, max_int64,
}
use restest.Collections.{Fields, Element, SeedDoc, serial, seeded, seed_documents, ids_of}
use restest.Collections.Serial.{next_serial_after-ahead, seed_documents-next}
use restest.Documents.{
  Collection, json_object, done, with_own_id, allocate_document_id, try_create, create_document,
  create_attempts, public_id_for, row, applied, reset_collection,
}
use restest.Documents.Steps.{try_create-free}

lookup-rows :
    (id : Bytes) (docs : List SeedDoc)
    → contains id (ids_of docs) ≡ false
    → lookup id (map row docs) ≡ none
unfolding lookup contains
lookup-rows id [] h = refl
lookup-rows id (d ∷ docs) h = ground (arith, lookup-rows id docs)

allocate-serial :
    (c : Collection)
    → c.id_strategy ≡ serial
    → c.next_serial < max_int64
    → allocate_document_id c ≡ some (c.next_serial, record c { next_serial = suc c.next_serial })
unfolding allocate_document_id
allocate-serial c e h = ground arith

try_create-next :
    (left : ℕ) (draws : ℕ → Bytes) (body : Fields) (c : Collection)
    → c.id_strategy ≡ serial
    → c.next_serial < max_int64
    → lookup (format_int c.next_serial) c.documents ≡ none
    → (try_create (suc left) draws body c).0
      ≡ done (format_int c.next_serial) (with_own_id c.id_field (format_int c.next_serial) body)
try_create-next left draws body c e h free =
    ap (λ p. p.0)
      (try_create-free left draws body c c.next_serial
        (record c { next_serial = suc c.next_serial }) (allocate-serial c e h)
        (ap (λ s. lookup (public_id_for s (draws left) c.next_serial) c.documents) e ∙ free))
    ∙ ap
        (λ s.
          done (public_id_for s (draws left) c.next_serial)
            (with_own_id c.id_field (public_id_for s (draws left) c.next_serial) body))
        e

-- After a reset to a seed under serial identifiers the first document that is created gets the number
-- that the seed has left the counter at, at the first attempt, provided that it is below the largest.
pub create_document-reset_collection :
    (draws uuids : ℕ → Bytes) (body : Fields) (seed : List Element) (c : Collection)
    (docs : List SeedDoc) (next : ℕ)
    → c.id_strategy ≡ serial
    → seed_documents c.id_strategy uuids c.id_field seed ≡ seeded docs next
    → next < max_int64
    → (create_document draws (json_object body) (reset_collection uuids seed c)).0
      ≡ done (format_int next) (with_own_id c.id_field (format_int next) body)
unfolding create_document reset_collection
create_document-reset_collection draws uuids body seed c docs next e h bound =
    let c' : Collection = record c { documents = map row docs; next_serial = next } in
    let counted = seed_documents-next c.id_strategy uuids c.id_field seed docs next h in
    let free = next_serial_after-ahead (ids_of docs) next (omega (arith, counted)) (omega arith) in
    ap (λ r. (try_create create_attempts draws body (applied r c)).0) h
    ∙ try_create-next 7 draws body c' e bound (lookup-rows (format_int next) docs free)
