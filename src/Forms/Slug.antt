-- ===== src/Forms/Slug.antt =====
-- `validateSlug` against the constraint `projects_slug_format` of the database.
use restest.Base.{
  ℕ, ◌≤◌, ◌≡◌, ◌↔◌, Bool, true, false, not, ◌||◌, List, [], ◌∷◌, arith, ltb, ◌==◌, if◌then◌else◌,
  Bytes, codes, length, contains,
}
use restest.Fields.{
  FieldErrors, add_error, add_error-ne-nil, slug_empty, slug_shape, slug_reserved, characters,
}
use restest.Forms.Pattern.{lower_alnum, match_framed, match_framed_iff, IsFramed, IsFramed-length}

abbrev pub max_slug_len : ℕ
max_slug_len = 40

abbrev pub slug_byte : ℕ → Bool
slug_byte c = lower_alnum c || c == b'-'

-- `^[a-z0-9]([a-z0-9-]{0,38}[a-z0-9])?$`
unfoldable pub slug_pattern : Bytes → Bool
unfolding match_framed
slug_pattern s = match_framed lower_alnum slug_byte 38 s

abbrev pub reserved_slugs : List Bytes
reserved_slugs =
    codes "api" ∷ codes "admin" ∷ codes "demo" ∷ codes "healthz" ∷ codes "m" ∷ codes "static" ∷ []

unfoldable pub validate_slug : Bytes → FieldErrors → FieldErrors
unfolding slug_pattern contains add_error
validate_slug slug fe =
    if length slug == 0
    then add_error (codes "slug") slug_empty fe
    else if ltb max_slug_len (length slug)
    then add_error (codes "slug") (characters max_slug_len) fe
    else if not (slug_pattern slug)
    then add_error (codes "slug") slug_shape fe
    else if contains slug reserved_slugs
    then add_error (codes "slug") slug_reserved fe
    else fe

-- What the check constraint of the column accepts.
abbrev pub IsSlug : Bytes → Type 0
IsSlug slug = IsFramed lower_alnum slug_byte 38 slug

validate_slug_sound :
    (slug : Bytes) (fe : FieldErrors)
    → validate_slug slug fe ≡ []
    → (slug_pattern slug ≡ true) × (contains slug reserved_slugs ≡ false) × (fe ≡ [])
unfolding validate_slug
validate_slug_sound slug fe h = ground (
  arith,
  add_error-ne-nil (codes "slug") slug_empty fe,
  add_error-ne-nil (codes "slug") (characters max_slug_len) fe,
  add_error-ne-nil (codes "slug") slug_shape fe,
  add_error-ne-nil (codes "slug") slug_reserved fe,
)

validate_slug_complete :
    (slug : Bytes)
    → 1 ≤ length slug
    → length slug ≤ max_slug_len
    → slug_pattern slug ≡ true
    → contains slug reserved_slugs ≡ false
    → validate_slug slug [] ≡ []
unfolding validate_slug
validate_slug_complete slug h k m r = ground arith

-- A slug leaves no error exactly if there was none before, the check constraint of the database accepts
-- the slug, and the slug is not reserved: no slug that passes is refused by the database, and the
-- limit of length refuses none that the database accepts.
pub validate_slug_iff :
    (slug : Bytes) (fe : FieldErrors)
    → (validate_slug slug fe ≡ [])
      ↔ ((fe ≡ []) × IsSlug slug × (contains slug reserved_slugs ≡ false))
unfolding slug_pattern
validate_slug_iff slug fe = (
  λ h.
      let (shape, free, clean) = validate_slug_sound slug fe h in
      (clean, (match_framed_iff lower_alnum slug_byte 38 slug).0 shape, free),
  λ (clean, shape, free).
      let (low, high) = IsFramed-length lower_alnum slug_byte 38 slug shape in
      rw clean (
        validate_slug_complete slug low high
          ((match_framed_iff lower_alnum slug_byte 38 slug).1 shape) free),
)
