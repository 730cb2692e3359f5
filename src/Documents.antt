-- ===== src/Documents.antt =====
-- internal/core/document.go: the documents of one collection, and the requests that change them. The
-- statements run in the database, which keeps the documents in the order of their insertion, with one
-- for each identifier.
pub mod Steps
pub mod Invariant
pub mod View
pub mod Create
pub mod Listing
mod Tests
use restest.Base.{
  ℕ, zero, suc, ◌+◌, ◌-◌, Bool, true, false, not, ◌&&◌, ◌||◌, ◌==◌, List, [], ◌∷◌, Option, none,
  some, if◌then◌else◌, ltb, leb, Bytes, map, lookup, put, drop_key, is_utf8, format_int, max_int64,
}
use restest.Collections.{
  Fields, Strategy, serial, uuid, id_json, SeedDoc, SeedResult, seeded, Element, seed_documents,
}

-- A collection with its documents; the counter is one that no overflow has made negative.
pub record Collection : Type 0 where
  pub id_field : Bytes
  pub id_strategy : Strategy
  pub next_serial : ℕ
  pub documents : List (Bytes × Fields)

-- A request body as `checkObject` sees it.
pub data Body : Type 0 where
  json_object : Fields → Body
  no_object : Body

pub data Result : Type 0 where
  done : Bytes → Fields → Result
  deleted not_found not_an_object : Result
  -- The errors that end in a 500.
  no_free_id counter_overflow not_json : Result

-- `a || b` of jsonb: the fields of the second take the place of those of the first.
unfoldable pub merge : Fields → Fields → Fields
unfolding put
merge a [] = a
merge a ((k, v) ∷ b) = merge (put k v a) b

-- `... || jsonb_build_object(id_field, id)`
unfoldable pub with_own_id : Bytes → Bytes → Fields → Fields
unfolding put id_json
with_own_id id_field id body = put id_field (id_json id) body

unfoldable pub get_document : Bytes → Collection → Option Fields
unfolding lookup
get_document id c = lookup id c.documents

abbrev advanced : Strategy → ℕ → ℕ
advanced serial n = suc n
advanced uuid n = n

-- `AllocateDocumentID`: the number allocated; `none` where the counter does not fit in 64 bits.
unfoldable pub allocate_document_id : Collection → Option (ℕ × Collection)
allocate_document_id c =
    let n = advanced c.id_strategy c.next_serial in
    if leb n max_int64 then some (n - 1, record c { next_serial = n }) else none

abbrev pub public_id_for : Strategy → Bytes → ℕ → Bytes
public_id_for serial fresh n = format_int n
public_id_for uuid fresh n = fresh

abbrev pub create_attempts : ℕ
create_attempts = 8

-- The insert, which the unique index refuses where the identifier is taken.
abbrev pub insert_document : Bytes → Fields → Collection → Option (Result × Collection)
insert_document id body c = elim (lookup id c.documents) [
  | some taken ↦ none
  | none ↦
      let stored = with_own_id c.id_field id body in
      some (done id stored, record c { documents = put id stored c.documents })
]

-- The loop of `CreateDocument`, with the attempts left and the uuid that each of them draws.
unfoldable pub try_create : ℕ → (ℕ → Bytes) → Fields → Collection → Result × Collection
unfolding allocate_document_id lookup put with_own_id format_int
try_create zero uuids body c = (no_free_id, c)
try_create (suc left) uuids body c = elim (allocate_document_id c) [
  | none ↦ (counter_overflow, c)
  | some (allocated, c') ↦
      elim (insert_document (public_id_for c.id_strategy (uuids left) allocated) body c') [
        | some created ↦ created
        | none ↦ try_create left uuids body c'
      ]
]

unfoldable pub create_document : (ℕ → Bytes) → Body → Collection → Result × Collection
unfolding try_create
create_document uuids no_object c = (not_an_object, c)
create_document uuids (json_object body) c = try_create create_attempts uuids body c

-- The escapes of `strconv.Quote` that JSON has too: not those of the bell, the vertical tab, and the
-- control characters without a letter. A byte that is not of UTF-8 gives such an escape too. Code points above U+FFFF are taken to be printable.
abbrev quotable_byte : ℕ → Bool
quotable_byte c = (leb 32 c && not (c == 127)) || (leb 8 c && leb c 10) || c == 12 || c == 13

abbrev all_quotable : Bytes → Bool
all_quotable [] = true
all_quotable (c ∷ s) = quotable_byte c && all_quotable s

-- Whether `idJSON` gives JSON for an identifier that is no number.
unfoldable pub is_quotable : Bytes → Bool
unfolding is_utf8
is_quotable s = is_utf8 s && all_quotable s

-- `writeDocument` behind `checkObject`: the statement makes a body of the stored one and that of the
-- request. An identifier that does not become JSON is an error of the statement.
unfoldable pub write_object :
    (Fields → Fields → Fields) → Bytes → Fields → Collection → Result × Collection
unfolding lookup put with_own_id
write_object statement id body c = elim (lookup id c.documents) [
  | none ↦ (not_found, c)
  | some old ↦
      let stored = with_own_id c.id_field id (statement old body) in
      (done id stored, record c { documents = put id stored c.documents })
]

unfoldable pub write_document :
    (Fields → Fields → Fields) → Bytes → Body → Collection → Result × Collection
unfolding write_object is_quotable
write_document statement id no_object c = (not_an_object, c)
write_document statement id (json_object body) c =
    if is_quotable id then write_object statement id body c else (not_json, c)

unfoldable pub replace_document : Bytes → Body → Collection → Result × Collection
unfolding write_document
replace_document id body c = write_document (λ old new. new) id body c

unfoldable pub patch_document : Bytes → Body → Collection → Result × Collection
unfolding write_document merge
patch_document id body c = write_document merge id body c

unfoldable pub delete_document : Bytes → Collection → Result × Collection
unfolding lookup drop_key
delete_document id c = elim (lookup id c.documents) [
  | none ↦ (not_found, c)
  | some old ↦ (deleted, record c { documents = drop_key id c.documents })
]

pub data Request : Type 0 where
  create : (ℕ → Bytes) → Body → Request
  replace patch : Bytes → Body → Request
  delete : Bytes → Request

unfoldable pub serve : Request → Collection → Result × Collection
unfolding create_document replace_document patch_document delete_document
serve (create uuids body) c = create_document uuids body c
serve (replace id body) c = replace_document id body c
serve (patch id body) c = patch_document id body c
serve (delete id) c = delete_document id c

unfoldable pub serve_all : List Request → Collection → Collection
unfolding serve
serve_all [] c = c
serve_all (r ∷ rs) c = serve_all rs (serve r c).1

abbrev pub row : SeedDoc → Bytes × Fields
row d = (d.public_id, d.body)

-- `ResetCollection` and `applySeed`: of a seed that is refused the transaction is rolled back.
abbrev pub applied : SeedResult → Collection → Collection
applied (seeded docs next) c = record c { documents = map row docs; next_serial = next }
applied _ c = c

unfoldable pub reset_collection : (ℕ → Bytes) → List Element → Collection → Collection
unfolding seed_documents
reset_collection uuids seed c = applied (seed_documents c.id_strategy uuids c.id_field seed) c
