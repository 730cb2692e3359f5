-- ===== src/Forms/Headers.antt =====
-- `validateHeaders`: the response headers that a form sets. The headers are a Go map: what is refused
-- does not depend on the order in which the map yields its keys.
use restest.Base.{
  ℕ, ◌≤◌, ◌≡◌, refl, ◌↔◌, Bool, true, false, not, ◌||◌, List, [], ◌∷◌, Option, none, some, arith,
  ltb, if◌then◌else◌, Bytes, codes, has_byte, contains, bytes_le, lookup, length, All, any, sort_by,
  All-sort_by, All-unsort,
}
use restest.Fields.{
  FieldErrors, add_error, add_error-ne-nil, headers_too_many, header_name, header_forbidden,
  header_too_long, header_breaks,
}
use restest.Forms.Pattern.{lower_case, upper_case, digit}

abbrev pub Headers : Type 0
Headers = List (Bytes × Bytes)

abbrev pub max_headers : ℕ
max_headers = 32

abbrev pub max_header_value_len : ℕ
max_header_value_len = 2048

abbrev pub forbidden_headers : List Bytes
forbidden_headers =
    codes "Connection"
    ∷ codes "Content-Length"
    ∷ codes "Keep-Alive"
    ∷ codes "Proxy-Connection"
    ∷ codes "Te"
    ∷ codes "Trailer"
    ∷ codes "Transfer-Encoding"
    ∷ codes "Upgrade"
    ∷ []

-- A byte of a token of RFC 9110. A code point above them is written with bytes that are none either.
abbrev pub token_byte : ℕ → Bool
token_byte c = has_byte c (codes "!#$%&'*+-.^_`|~") || digit c || lower_case c || upper_case c

unfoldable pub valid_header_name : Bytes → Bool
unfolding has_byte
valid_header_name [] = false
valid_header_name (c ∷ s) = not (any (λ b. not (token_byte b)) (c ∷ s))

abbrev or_empty : Option Bytes → Bytes
or_empty none = []
or_empty (some value) = value

abbrev has_break : Bytes → Bool
has_break value = has_byte 13 value || has_byte 10 value

-- The loop over the sorted names; the first one that is refused ends it.
unfoldable pub check_headers : Headers → List Bytes → FieldErrors → FieldErrors
unfolding valid_header_name contains has_byte lookup add_error
check_headers headers [] fe = fe
check_headers headers (name ∷ names) fe =
    let rest = check_headers headers names fe in
    let value = or_empty (lookup name headers) in
    if not (valid_header_name name)
    then add_error (codes "headers") (header_name name) fe
    else if contains name forbidden_headers
    then add_error (codes "headers") (header_forbidden name) fe
    else if ltb max_header_value_len (length value)
    then add_error (codes "headers") (header_too_long name) fe
    else if has_break value
    then add_error (codes "headers") (header_breaks name) fe
    else rest

abbrev pub names_of : Headers → List Bytes
names_of [] = []
names_of ((name, _) ∷ headers) = name ∷ names_of headers

unfoldable pub validate_headers : Headers → FieldErrors → FieldErrors
unfolding check_headers sort_by bytes_le add_error
validate_headers headers fe =
    if ltb max_headers (length headers)
    then add_error (codes "headers") headers_too_many fe
    else check_headers headers (sort_by bytes_le (names_of headers)) fe

-- What is asked of one header of the map.
pub record IsHeader (headers : Headers) (name : Bytes) : Type 0 where
  pub token : valid_header_name name ≡ true
  pub allowed : contains name forbidden_headers ≡ false
  pub short : length (or_empty (lookup name headers)) ≤ max_header_value_len
  pub one_line : has_break (or_empty (lookup name headers)) ≡ false

check_headers_sound :
    (headers : Headers) (names : List Bytes) (fe : FieldErrors)
    → check_headers headers names fe ≡ []
    → All (IsHeader headers) names × (fe ≡ [])
unfolding check_headers
check_headers_sound headers [] fe h = (tt, h)
check_headers_sound headers (name ∷ names) fe h =
    let shape = add_error-ne-nil (codes "headers") (header_name name) fe in
    let forbidden = add_error-ne-nil (codes "headers") (header_forbidden name) fe in
    let long = add_error-ne-nil (codes "headers") (header_too_long name) fe in
    let breaks = add_error-ne-nil (codes "headers") (header_breaks name) fe in
    let rest : check_headers headers names fe ≡ [] =
      ground (arith, shape, forbidden, long, breaks) in
    let (all, clean) = check_headers_sound headers names fe rest in
    (
      (
        record {
          token = ground (arith, shape, forbidden, long, breaks);
          allowed = ground (arith, shape, forbidden, long, breaks);
          short = ground (arith, shape, forbidden, long, breaks);
          one_line = ground (arith, shape, forbidden, long, breaks);
        },
        all,
      ),
      clean,
    )

check_headers_complete :
    (headers : Headers) (names : List Bytes)
    → All (IsHeader headers) names
    → check_headers headers names [] ≡ []
unfolding check_headers
check_headers_complete headers [] h = refl
check_headers_complete headers (name ∷ names) (p, h) =
    ground (arith, p.token, p.allowed, p.short, p.one_line, check_headers_complete headers names h)

-- The headers leave no error exactly if there was none before, there are at most 32 of them and each
-- has a name that is a token and not one of the connection's, and a value that is not too long and
-- has no line break.
pub validate_headers_iff :
    (headers : Headers) (fe : FieldErrors)
    → (validate_headers headers fe ≡ [])
      ↔ ((fe ≡ []) × (length headers ≤ max_headers) × All (IsHeader headers) (names_of headers))
unfolding validate_headers
validate_headers_iff headers fe = (
  λ h.
      let many = add_error-ne-nil (codes "headers") headers_too_many fe in
      let checked : check_headers headers (sort_by bytes_le (names_of headers)) fe ≡ [] =
        ground (arith, many) in
      let (all, clean) =
        check_headers_sound headers (sort_by bytes_le (names_of headers)) fe checked in
      (clean, ground (arith, many), All-unsort bytes_le (IsHeader headers) (names_of headers) all),
  λ (clean, few, all).
      let checked =
        check_headers_complete headers (sort_by bytes_le (names_of headers))
          (All-sort_by bytes_le (IsHeader headers) (names_of headers) all) in
      rw clean (ground arith),
)
