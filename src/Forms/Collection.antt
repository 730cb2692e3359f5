-- ===== src/Forms/Collection.antt =====
-- The fields of a collection. `encoding/json` is a parameter: what a text decodes to as an array of
-- raw entries, and whether it is JSON at all.
use restest.Base.{
  ℕ, suc, ◌≤◌, ◌≡◌, refl, sym, ◌∙◌, ◌≢◌, ◌↔◌, inl, inr, Bool, true, false, not, ◌||◌, ◌&&◌, List,
  [], ◌∷◌, Option, none, some, arith, ltb, leb, ◌==◌, if◌then◌else◌, Bytes, codes, same, contains,
  to_lower, length, any, All, Option-cases,
}
use restest.Fields.{
  FieldErrors, add_error, add_error-ne-nil, collection_name_empty, collection_name_shape,
  characters, id_field_empty, id_field_shape, strategy_unknown, seed_too_large, seed_is_null,
  seed_not_array, seed_json, seed_too_many, seed_entry,
}
use restest.Paths.{trim_space}
use restest.Forms.Pattern.{lower_alnum, lower_case, upper_case, digit, match_framed}
use restest.Collections.{Element, object, null_element, not_object}

abbrev pub default_id_field : Bytes
default_id_field = codes "id"

abbrev pub max_collection_name_len : ℕ
max_collection_name_len = 40

abbrev pub max_id_field_len : ℕ
max_id_field_len = 40

abbrev pub max_seed_bytes : ℕ
max_seed_bytes = 1048576

abbrev pub max_seed_elements : ℕ
max_seed_elements = 5000

abbrev pub id_serial : Bytes
id_serial = codes "serial"

abbrev pub id_uuid : Bytes
id_uuid = codes "uuid"

abbrev pub id_strategies : List Bytes
id_strategies = id_serial ∷ id_uuid ∷ []

abbrev pub name_byte : ℕ → Bool
name_byte c = lower_alnum c || (c == b'_' || c == b'-')

-- `^[a-z0-9]([a-z0-9_-]{0,38}[a-z0-9])?$`
unfoldable pub collection_name_pattern : Bytes → Bool
unfolding match_framed
collection_name_pattern s = match_framed lower_alnum name_byte 38 s

abbrev id_start : ℕ → Bool
id_start c = (upper_case c || lower_case c) || c == b'_'

abbrev id_byte : ℕ → Bool
id_byte c = (id_start c || digit c) || c == b'-'

-- `^[A-Za-z_][A-Za-z0-9_-]{0,39}$`
unfoldable pub id_field_pattern : Bytes → Bool
id_field_pattern [] = false
id_field_pattern (c ∷ s) = id_start c && (leb (length s) 39 && not (any (λ b. not (id_byte b)) s))

unfoldable pub normalize_collection_name : Bytes → Bytes
unfolding to_lower trim_space
normalize_collection_name name = to_lower (trim_space name)

unfoldable pub validate_collection_name : Bytes → FieldErrors → FieldErrors
unfolding add_error collection_name_pattern
validate_collection_name name fe =
    if length name == 0
    then add_error (codes "name") collection_name_empty fe
    else if ltb max_collection_name_len (length name)
    then add_error (codes "name") (characters max_collection_name_len) fe
    else if not (collection_name_pattern name)
    then add_error (codes "name") collection_name_shape fe
    else fe

unfoldable pub validate_id_field : Bytes → FieldErrors → FieldErrors
unfolding add_error id_field_pattern
validate_id_field field fe =
    if length field == 0
    then add_error (codes "id_field") id_field_empty fe
    else if ltb max_id_field_len (length field)
    then add_error (codes "id_field") (characters max_id_field_len) fe
    else if not (id_field_pattern field)
    then add_error (codes "id_field") id_field_shape fe
    else fe

unfoldable pub validate_id_strategy : Bytes → FieldErrors → FieldErrors
unfolding add_error contains
validate_id_strategy strategy fe =
    if not (contains strategy id_strategies)
    then add_error (codes "id_strategy") strategy_unknown fe
    else fe

pub record JsonLibrary : Type 0 where
  -- `json.Unmarshal` of a text into a slice, each entry decoded into a map; the other side is the
  -- text of the error.
  pub unmarshal : Bytes → Option (List Element)
  pub unmarshal_error : Bytes → Bytes
  pub valid : Bytes → Bool

-- The loop over the entries: the map of an entry decodes from an object or from `null`.
unfoldable pub check_entries : ℕ → List Element → FieldErrors → FieldErrors
unfolding add_error
check_entries i [] fe = fe
check_entries i (not_object ∷ es) fe = add_error (codes "seed") (seed_entry (suc i)) fe
check_entries i (_ ∷ es) fe = check_entries (suc i) es fe

module _ (json : JsonLibrary) where
  unfoldable pub validate_seed : Bytes → FieldErrors → FieldErrors
  unfolding same trim_space check_entries add_error
  validate_seed seed fe =
      if ltb max_seed_bytes (length seed)
      then add_error (codes "seed") seed_too_large fe
      else if same (trim_space seed) (codes "null")
      then add_error (codes "seed") seed_is_null fe
      else elim (json.unmarshal seed) [
        | none ↦
            if json.valid seed
            then add_error (codes "seed") seed_not_array fe
            else add_error (codes "seed") (seed_json (json.unmarshal_error seed)) fe
        | some elements ↦
            if ltb max_seed_elements (length elements)
            then add_error (codes "seed") seed_too_many fe
            else check_entries 0 elements fe
      ]

pub validate_collection_name_iff :
    (name : Bytes) (fe : FieldErrors)
    → (validate_collection_name name fe ≡ [])
      ↔ ((1 ≤ length name) × (length name ≤ 40) × (collection_name_pattern name ≡ true) × (fe ≡ []))
unfolding validate_collection_name
validate_collection_name_iff name fe = ground (
  arith,
  add_error-ne-nil (codes "name") collection_name_empty fe,
  add_error-ne-nil (codes "name") (characters max_collection_name_len) fe,
  add_error-ne-nil (codes "name") collection_name_shape fe,
)

pub validate_id_field_iff :
    (field : Bytes) (fe : FieldErrors)
    → (validate_id_field field fe ≡ [])
      ↔ ((1 ≤ length field) × (length field ≤ 40) × (id_field_pattern field ≡ true) × (fe ≡ []))
unfolding validate_id_field
validate_id_field_iff field fe = ground (
  arith,
  add_error-ne-nil (codes "id_field") id_field_empty fe,
  add_error-ne-nil (codes "id_field") (characters max_id_field_len) fe,
  add_error-ne-nil (codes "id_field") id_field_shape fe,
)

pub validate_id_strategy_iff :
    (strategy : Bytes) (fe : FieldErrors)
    → (validate_id_strategy strategy fe ≡ [])
      ↔ ((contains strategy id_strategies ≡ true) × (fe ≡ []))
unfolding validate_id_strategy
validate_id_strategy_iff strategy fe =
    ground (arith, add_error-ne-nil (codes "id_strategy") strategy_unknown fe)

-- An object or `null`.
abbrev pub IsEntry : Element → Type 0
IsEntry not_object = ⊥
IsEntry _ = Unit

check_entries_iff :
    (i : ℕ) (es : List Element) (fe : FieldErrors)
    → (check_entries i es fe ≡ []) ↔ ((fe ≡ []) × All IsEntry es)
unfolding check_entries
check_entries_iff i [] fe = (λ h. (h, tt), λ (h, _). h)
check_entries_iff i (not_object ∷ es) fe = (
  λ h. absurd (add_error-ne-nil (codes "seed") (seed_entry (suc i)) fe h),
  λ (_, (h, _)). absurd h,
)
check_entries_iff i (object fields ∷ es) fe =
    let (there, back) = check_entries_iff (suc i) es fe in
    (λ h. let (clean, all) = there h in (clean, (tt, all)), λ (clean, (_, all)). back (clean, all))
check_entries_iff i (null_element ∷ es) fe =
    let (there, back) = check_entries_iff (suc i) es fe in
    (λ h. let (clean, all) = there h in (clean, (tt, all)), λ (clean, (_, all)). back (clean, all))

-- What a seed that passes decodes to.
pub record IsSeed (json : JsonLibrary) (seed : Bytes) : Type 0 where
  pub short : length seed ≤ max_seed_bytes
  pub not_null : same (trim_space seed) (codes "null") ≡ false
  pub elements : List Element
  pub decoded : json.unmarshal seed ≡ some elements
  pub few : length elements ≤ max_seed_elements
  pub entries : All IsEntry elements

module _ (json : JsonLibrary) where
  validate_seed_decoded :
      (seed : Bytes) (fe : FieldErrors) (elements : List Element)
      → json.unmarshal seed ≡ some elements
      → validate_seed json seed fe ≡ (
          if ltb max_seed_bytes (length seed)
          then add_error (codes "seed") seed_too_large fe
          else if same (trim_space seed) (codes "null")
          then add_error (codes "seed") seed_is_null fe
          else if ltb max_seed_elements (length elements)
          then add_error (codes "seed") seed_too_many fe
          else check_entries 0 elements fe)
  unfolding validate_seed
  validate_seed_decoded seed fe elements e = rw e refl

  validate_seed_refused :
      (seed : Bytes) (fe : FieldErrors)
      → json.unmarshal seed ≡ none
      → validate_seed json seed fe ≢ []
  unfolding validate_seed
  validate_seed_refused seed fe e h =
      let large = add_error-ne-nil (codes "seed") seed_too_large fe in
      let null = add_error-ne-nil (codes "seed") seed_is_null fe in
      let array = add_error-ne-nil (codes "seed") seed_not_array fe in
      let text = add_error-ne-nil (codes "seed") (seed_json (json.unmarshal_error seed)) fe in
      ground (arith, large, null, array, text)

  validate_seed_sound :
      (seed : Bytes) (fe : FieldErrors)
      → validate_seed json seed fe ≡ []
      → (fe ≡ []) × IsSeed json seed
  validate_seed_sound seed fe h = elim (Option-cases (json.unmarshal seed)) [
    | inl e ↦ absurd (validate_seed_refused seed fe e h)
    | inr (elements, e) ↦
        let large = add_error-ne-nil (codes "seed") seed_too_large fe in
        let null = add_error-ne-nil (codes "seed") seed_is_null fe in
        let many = add_error-ne-nil (codes "seed") seed_too_many fe in
        let h' = sym (validate_seed_decoded seed fe elements e) ∙ h in
        let (clean, entries) =
          (check_entries_iff 0 elements fe).0 (ground (arith, h', large, null, many)) in
        (
          clean,
          record {
            short = ground (arith, h', large, null, many);
            not_null = ground (arith, h', large, null, many);
            elements = elements;
            decoded = e;
            few = ground (arith, h', large, null, many);
            entries = entries;
          },
        )
  ]

  -- A seed leaves no error exactly if there was none before, its text is not too large and not `null`,
  -- and it decodes to an array of few enough entries, each of them an object or `null`.
  pub validate_seed_iff :
      (seed : Bytes) (fe : FieldErrors)
      → (validate_seed json seed fe ≡ []) ↔ ((fe ≡ []) × IsSeed json seed)
  validate_seed_iff seed fe = (
    validate_seed_sound seed fe,
    λ (clean, s).
        let checked = (check_entries_iff 0 s.elements fe).1 (clean, s.entries) in
        validate_seed_decoded seed fe s.elements s.decoded
        ∙ ground (arith, s.short, s.not_null, s.few, checked),
  )
