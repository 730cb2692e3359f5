-- ===== src/Collections/Serial.antt =====
-- `nextSerialAfter`: the counter behind a seed.
use restest.Base.{
  ℕ, ◌≤◌, ◌^◌, ◌≡◌, refl, ap, ◌∙◌, true, false, List, [], ◌∷◌, Option, none, some, arith, Bytes,
  contains, same, same_iff, Bool-cases, inl, inr, Int64, pos, neg, parse_int, parse_int-format_int,
  parse_int-bound, format_int, max_int64,
}
use restest.Collections.{
  higher, highest_of, next_serial_after, Strategy, Element, SeedDoc, FirstPass, passed, stopped,
  seeded, ids_of, finish, second_pass, seed_documents,
}

higher-above : (o : Option Int64) (h : ℕ) → h ≤ higher o h
higher-above none h = omega arith
higher-above (some (pos n)) h = ground arith
higher-above (some (neg n)) h = omega arith

higher-there : (o : Option Int64) (h k : ℕ) → o ≡ some (pos k) → k ≤ higher o h
higher-there none h k e = cc
higher-there (some (pos n)) h k e = ground arith
higher-there (some (neg n)) h k e = cc

higher-bound :
    (o : Option Int64) (h : ℕ)
    → h ≤ max_int64
    → ((n : ℕ) → o ≡ some (pos n) → n ≤ max_int64)
    → higher o h ≤ max_int64
higher-bound none h b f = b
higher-bound (some (pos n)) h b f = ground (arith, f n refl)
higher-bound (some (neg n)) h b f = b

highest_of-above : (ids : List Bytes) (h : ℕ) → h ≤ highest_of ids h
unfolding highest_of
highest_of-above [] h = omega arith
highest_of-above (id ∷ ids) h =
    omega (arith, higher-above (parse_int id) h, highest_of-above ids (higher (parse_int id) h))

highest_of-contains :
    (ids : List Bytes) (h k : ℕ)
    → k ≤ max_int64
    → contains (format_int k) ids ≡ true
    → k ≤ highest_of ids h
unfolding highest_of contains
highest_of-contains [] h k b e = cc
highest_of-contains (id ∷ ids) h k b e = elim (Bool-cases (same id (format_int k))) [
  | inl same_id ↦ omega (
    arith,
    higher-there (parse_int id) h k
        (ap parse_int ((same_iff id (format_int k)).0 same_id) ∙ parse_int-format_int k b),
    highest_of-above ids (higher (parse_int id) h),
  )
  | inr other ↦ highest_of-contains ids (higher (parse_int id) h) k b (ground arith)
]

highest_of-bound : (ids : List Bytes) (h : ℕ) → h ≤ max_int64 → highest_of ids h ≤ max_int64
unfolding highest_of
highest_of-bound [] h b = b
highest_of-bound (id ∷ ids) h b =
    highest_of-bound ids (higher (parse_int id) h)
      (higher-bound (parse_int id) h b (λ n e. parse_int-bound id n e))

-- The counter stands behind every number that is an identifier of the seed: none from it on, up to the
-- largest number there is, is taken.
pub next_serial_after-ahead :
    (ids : List Bytes) (k : ℕ)
    → next_serial_after ids ≤ k
    → k ≤ max_int64
    → contains (format_int k) ids ≡ false
unfolding next_serial_after
next_serial_after-ahead ids k h b = elim (Bool-cases (contains (format_int k) ids)) [
  | inl e ↦
      absurd (ground (arith, highest_of-contains ids 0 k b e, highest_of-bound ids 0 (omega arith)))
  | inr e ↦ e
]

-- A seed with the largest number for an identifier leaves the counter at the smallest, the negative
-- number with the bits of 2 ^ 63.
pub next_serial_after-overflow :
    (ids : List Bytes) → contains (format_int max_int64) ids ≡ true → next_serial_after ids ≡ 2 ^ 63
unfolding next_serial_after
next_serial_after-overflow ids e = ground (
  arith,
  highest_of-contains ids 0 max_int64 (omega arith) e,
  highest_of-bound ids 0 (omega arith),
)

finish-next :
    (o : Option (List SeedDoc)) (docs : List SeedDoc) (next : ℕ)
    → finish o ≡ seeded docs next
    → next ≡ next_serial_after (ids_of docs)
finish-next none docs next h = cc
finish-next (some ds) docs next h = ground arith

second_pass-next :
    (strategy : Strategy) (uuids : ℕ → Bytes) (id_field : Bytes) (es : List Element) (p : FirstPass)
    (docs : List SeedDoc) (next : ℕ)
    → second_pass strategy uuids id_field es p ≡ seeded docs next
    → next ≡ next_serial_after (ids_of docs)
second_pass-next strategy uuids id_field es (stopped e) docs next h = cc
second_pass-next strategy uuids id_field es (passed ids taken) docs next h =
    finish-next _ docs next h

pub seed_documents-next :
    (strategy : Strategy) (uuids : ℕ → Bytes) (id_field : Bytes) (es : List Element)
    (docs : List SeedDoc) (next : ℕ)
    → seed_documents strategy uuids id_field es ≡ seeded docs next
    → next ≡ next_serial_after (ids_of docs)
unfolding seed_documents
seed_documents-next strategy uuids id_field es docs next h =
    second_pass-next strategy uuids id_field es _ docs next h
