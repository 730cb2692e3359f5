-- ===== src/Forms/Tests.antt =====
-- Runs of the checks of a form, and the theorems at them.
use restest.Base.{
  ◌≡◌, refl, ◌↔◌, ◌≤◌, true, false, [], ◌∷◌, some, none, All, codes, contains, length, same, neg,
}
use restest.Fields.{FieldErrors, slug_shape, slug_reserved, header_forbidden, status_range}
use restest.Forms.Slug.{IsSlug, reserved_slugs, validate_slug, validate_slug_iff}
use restest.Forms.Headers.{
  Headers, max_headers, names_of, IsHeader, validate_headers, validate_headers_iff,
}
use restest.Forms.Endpoint.{normalize_method, validate_status_code}
use restest.Forms.Collection.{
  normalize_collection_name, JsonLibrary, IsSeed, validate_seed, validate_seed_iff,
}
use restest.Collections.{object}

abbrev no_errors : FieldErrors
no_errors = []

slug_dash : validate_slug (codes "my-") [] ≡ (codes "slug", slug_shape) ∷ []
unfolding validate_slug
slug_dash = refl

slug_demo : validate_slug (codes "demo") [] ≡ (codes "slug", slug_reserved) ∷ []
unfolding validate_slug same
slug_demo = refl

validate_slug_iff_example : (validate_slug (codes "my-api") [] ≡ []) ↔ (
    (no_errors ≡ []) × IsSlug (codes "my-api") × (contains (codes "my-api") reserved_slugs ≡ false))
validate_slug_iff_example = validate_slug_iff (codes "my-api") []

-- The sign for kelvin is a letter like any other to `strings.ToLower`.
lower_kelvin : normalize_collection_name (0xe2 ∷ 0x84 ∷ 0xaa ∷ codes "EY ") ≡ codes "key"
unfolding normalize_collection_name
lower_kelvin = refl

upper_method : normalize_method (codes " get ") ≡ codes "GET"
unfolding normalize_method
upper_method = refl

negative_status : validate_status_code (neg 200) [] ≡ (codes "status_code", status_range) ∷ []
unfolding validate_status_code
negative_status = refl

abbrev sample : Headers
sample = (codes "X-A", codes "1") ∷ (codes "Te", codes "2") ∷ []

headers_te : validate_headers sample [] ≡ (codes "headers", header_forbidden (codes "Te")) ∷ []
unfolding validate_headers same
headers_te = refl

validate_headers_iff_example :
    (validate_headers sample [] ≡ [])
    ↔ ((no_errors ≡ []) × (length sample ≤ max_headers) × All (IsHeader sample) (names_of sample))
validate_headers_iff_example = validate_headers_iff sample []

-- A decoder that knows two texts.
abbrev json : JsonLibrary
json = record {
  unmarshal =
      λ s. elim (contains s (codes "[{}]" ∷ [])) [ true ↦ some (object [] ∷ []) | false ↦ none ];
  unmarshal_error = λ _. codes "unexpected";
  valid = λ s. contains s (codes "{}" ∷ []);
}

validate_seed_iff_example :
    (validate_seed json (codes "[{}]") [] ≡ []) ↔ ((no_errors ≡ []) × IsSeed json (codes "[{}]"))
validate_seed_iff_example = validate_seed_iff json (codes "[{}]") []
