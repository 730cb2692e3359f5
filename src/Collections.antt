-- ===== src/Collections.antt =====
-- internal/core/collection.go: the documents that a seed gives, and the identifiers that they get.
pub mod Allocate
pub mod Stated
pub mod Seeds
pub mod Serial
pub mod Own
pub mod Panic
pub mod Store
pub mod Create
mod Tests
use restest.Base.{
  ℕ, zero, suc, ◌+◌, ◌%◌, ◌^◌, Bool, true, false, List, [], ◌∷◌, ◌++◌, Option, none, some, map,
  length, ltb, if◌then◌else◌, Bytes, same, contains, lookup, put, Int64, pos, neg, parse_int,
  format_int,
}

-- A decoded JSON value; a number that a float64 holds keeps its source text, which has a byte at
-- least. `nested` is the source text of an array or an object, or of a number that is out of that
-- range, which no identifier is read from either.
pub data Json : Type 0 where
  text nested : Bytes → Json
  number : ℕ → Bytes → Json
  boolean : Bool → Json
  null_value : Json

abbrev pub Fields : Type 0
Fields = List (Bytes × Json)

-- An entry of a seed, decoded into a map: an object, `null`, which decodes to the nil map, or a value
-- that does not decode.
pub data Element : Type 0 where
  object : Fields → Element
  null_element not_object : Element

pub data Strategy : Type 0 where
  serial uuid : Strategy

pub record SeedDoc : Type 0 where
  pub public_id : Bytes
  pub body : Fields

pub data SeedError : Type 0 where
  entry_not_object entry_bad_id : ℕ → SeedError
  shared_id : Bytes → SeedError

pub data SeedResult : Type 0 where
  seeded : List SeedDoc → ℕ → SeedResult
  refused : SeedError → SeedResult
  -- An assignment to a nil map.
  panicked : SeedResult

unfoldable pub scalar_text : Json → Option Bytes
scalar_text (text []) = none
scalar_text (text (c ∷ s)) = some (c ∷ s)
scalar_text (number c s) = some (c ∷ s)
scalar_text _ = none

abbrev pub is_printed : Option Int64 → Bytes → Bool
is_printed none s = false
is_printed (some (pos n)) s = same (format_int n) s
is_printed (some (neg zero)) s = same (format_int zero) s
is_printed (some (neg (suc n))) s = same (b'-' ∷ format_int (suc n)) s

-- The value that a document carries: a whole number as a number, anything else as a text. Of a text
-- this is what its quoted form stands for, where that is JSON (Documents tells where it is not).
unfoldable pub id_json : Bytes → Json
unfolding parse_int format_int same
id_json [] = text []
id_json (c ∷ s) = if is_printed (parse_int (c ∷ s)) (c ∷ s) then number c s else text (c ∷ s)

-- What the first pass has found: the identifiers stated, in the places of the entries, an empty text
-- where there is none, and the same as a set.
pub data FirstPass : Type 0 where
  passed : List Bytes → List Bytes → FirstPass
  stopped : SeedError → FirstPass

abbrev pub with_id : Bytes → FirstPass → FirstPass
with_id id (passed ids taken) = passed (id ∷ ids) taken
with_id id (stopped e) = stopped e

-- The first loop of `seedDocuments`, from the entry `i` on.
unfoldable pub read_ids : ℕ → Bytes → List Element → List Bytes → FirstPass
unfolding lookup scalar_text contains
read_ids i id_field [] taken = passed [] taken
read_ids i id_field (not_object ∷ es) taken = stopped (entry_not_object (suc i))
read_ids i id_field (null_element ∷ es) taken = with_id [] (read_ids (suc i) id_field es taken)
read_ids i id_field (object fields ∷ es) taken = elim (lookup id_field fields) [
  | none ↦ with_id [] (read_ids (suc i) id_field es taken)
  | some raw ↦ elim (scalar_text raw) [
    | none ↦ stopped (entry_bad_id (suc i))
    | some id ↦ elim (contains id taken) [
      | true ↦ stopped (shared_id id)
      | false ↦ with_id id (read_ids (suc i) id_field es (id ∷ taken))
    ]
  ]
]

-- The loop of `allocateSeedID`: one of the numbers behind the counter is free among so many as are
-- taken and one more, so that many rounds are enough.
unfoldable pub next_free : ℕ → ℕ → List Bytes → ℕ
unfolding contains format_int
next_free zero counter taken = suc counter
next_free (suc fuel) counter taken = elim (contains (format_int (suc counter)) taken) [
  | true ↦ next_free fuel (suc counter) taken
  | false ↦ suc counter
]

-- `allocateSeedID`: the identifier, and the counter behind it; `fresh` is what `uuid.NewString` gives.
unfoldable pub allocate_seed_id : Strategy → Bytes → ℕ → List Bytes → Bytes × ℕ
unfolding next_free format_int
allocate_seed_id uuid fresh counter taken = (fresh, counter)
allocate_seed_id serial fresh counter taken =
    let n = next_free (length taken) counter taken in (format_int n, n)

abbrev pub add_doc : SeedDoc → Option (List SeedDoc) → Option (List SeedDoc)
add_doc d none = none
add_doc d (some ds) = some (d ∷ ds)

-- The map of an entry that passed the first loop with an identifier of its own.
abbrev pub fields_of : Element → Fields
fields_of (object fields) = fields
fields_of _ = []

-- The second loop, with the uuid that each entry would get; `none` is the panic.
unfoldable pub fill :
    Strategy
    → (ℕ → Bytes)
    → Bytes
    → ℕ
    → List Element
    → List Bytes
    → ℕ
    → List Bytes
    → Option (List SeedDoc)
unfolding allocate_seed_id id_json put
fill strategy uuids id_field i (e ∷ es) ((c ∷ s) ∷ ids) counter taken =
    add_doc (record { public_id = c ∷ s; body = fields_of e })
      (fill strategy uuids id_field (suc i) es ids counter taken)
fill strategy uuids id_field i (object fields ∷ es) ([] ∷ ids) counter taken =
    let (id, counter') = allocate_seed_id strategy (uuids i) counter taken in
    add_doc (record { public_id = id; body = put id_field (id_json id) fields })
      (fill strategy uuids id_field (suc i) es ids counter' (id ∷ taken))
fill strategy uuids id_field i (_ ∷ es) ([] ∷ ids) counter taken = none
fill strategy uuids id_field i _ _ counter taken = some []

abbrev pub higher : Option Int64 → ℕ → ℕ
higher (some (pos n)) highest = if ltb highest n then n else highest
higher _ highest = highest

unfoldable pub highest_of : List Bytes → ℕ → ℕ
unfolding parse_int
highest_of [] highest = highest
highest_of (id ∷ ids) highest = highest_of ids (higher (parse_int id) highest)

-- `nextSerialAfter`, as the 64 bits of the sum: from 2 ^ 63 on it is negative.
unfoldable pub next_serial_after : List Bytes → ℕ
unfolding highest_of
next_serial_after ids = (highest_of ids 0 + 1) % 2 ^ 64

abbrev pub ids_of : List SeedDoc → List Bytes
ids_of docs = map (λ d. d.public_id) docs

abbrev pub finish : Option (List SeedDoc) → SeedResult
finish none = panicked
finish (some docs) = seeded docs (next_serial_after (ids_of docs))

abbrev pub second_pass : Strategy → (ℕ → Bytes) → Bytes → List Element → FirstPass → SeedResult
second_pass strategy uuids id_field es (stopped e) = refused e
second_pass strategy uuids id_field es (passed ids taken) =
    finish (fill strategy uuids id_field 0 es ids 0 taken)

-- `seedDocuments`, of the decoded array.
unfoldable pub seed_documents : Strategy → (ℕ → Bytes) → Bytes → List Element → SeedResult
unfolding read_ids fill next_serial_after
seed_documents strategy uuids id_field es =
    second_pass strategy uuids id_field es (read_ids 0 id_field es [])
