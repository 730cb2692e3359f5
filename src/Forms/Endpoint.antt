-- ===== src/Forms/Endpoint.antt =====
-- The fields of an endpoint but for its path and its headers. A status and a delay are Go ints.
use restest.Base.{
  ℕ, ◌-◌, ◌≤◌, ◌≡◌, ◌↔◌, Bool, true, not, ◌&&◌, List, [], ◌∷◌, arith, ltb, leb, ◌==◌, if◌then◌else◌,
  Bytes, codes, contains, length, Int64, pos, neg,
}
use restest.Fields.{
  FieldErrors, add_error, add_error-ne-nil, method_unknown, kind_unknown, status_range, delay_range,
  body_too_long,
}
use restest.Paths.{trim_space}

abbrev pub max_body_len : ℕ
max_body_len = 1048576

abbrev pub min_status_code : ℕ
min_status_code = 100

abbrev pub max_status_code : ℕ
max_status_code = 599

abbrev pub max_delay_ms : ℕ
max_delay_ms = 60000

abbrev pub any_method : Bytes
any_method = codes "*"

abbrev pub kind_static : Bytes
kind_static = codes "static"

abbrev pub kind_collection : Bytes
kind_collection = codes "collection"

abbrev pub methods : List Bytes
methods =
    codes "GET"
    ∷ codes "POST"
    ∷ codes "PUT"
    ∷ codes "PATCH"
    ∷ codes "DELETE"
    ∷ codes "HEAD"
    ∷ codes "OPTIONS"
    ∷ any_method
    ∷ []

abbrev pub kinds : List Bytes
kinds = kind_static ∷ kind_collection ∷ []

abbrev upper : ℕ → ℕ
upper c = if leb b'a' c && leb c b'z' then c - 32 else c

-- The long s and the dotless i have an upper case of ASCII.
abbrev paste : ℕ → Bytes → Bytes
paste a [] = a ∷ []
paste a (b ∷ s) =
    if a == 0xc5 && b == 0xbf
    then b'S' ∷ s
    else if a == 0xc4 && b == 0xb1
    then b'I' ∷ s
    else a ∷ b ∷ s

-- `strings.ToUpper`, but for the letters whose upper case is no ASCII: no verb has one of them.
unfoldable pub to_upper : Bytes → Bytes
to_upper [] = []
to_upper (c ∷ s) = paste (upper c) (to_upper s)

unfoldable pub normalize_method : Bytes → Bytes
unfolding to_upper trim_space
normalize_method method = to_upper (trim_space method)

unfoldable pub validate_method : Bytes → FieldErrors → FieldErrors
unfolding add_error contains
validate_method method fe =
    if not (contains method methods) then add_error (codes "method") method_unknown fe else fe

unfoldable pub validate_kind : Bytes → FieldErrors → FieldErrors
unfolding add_error contains
validate_kind kind fe =
    if not (contains kind kinds) then add_error (codes "kind") kind_unknown fe else fe

-- `low <= n && n <= high`, for bounds that are not negative.
abbrev pub between : ℕ → ℕ → Int64 → Bool
between low high (pos n) = leb low n && leb n high
between low high (neg n) = low == 0 && n == 0

unfoldable pub validate_status_code : Int64 → FieldErrors → FieldErrors
unfolding add_error
validate_status_code status fe =
    if not (between min_status_code max_status_code status)
    then add_error (codes "status_code") status_range fe
    else fe

unfoldable pub validate_delay : Int64 → FieldErrors → FieldErrors
unfolding add_error
validate_delay delay_ms fe =
    if not (between 0 max_delay_ms delay_ms)
    then add_error (codes "delay_ms") delay_range fe
    else fe

unfoldable pub validate_body : Bytes → FieldErrors → FieldErrors
unfolding add_error
validate_body body fe =
    if ltb max_body_len (length body) then add_error (codes "body") body_too_long fe else fe

pub validate_method_iff :
    (method : Bytes) (fe : FieldErrors)
    → (validate_method method fe ≡ []) ↔ ((contains method methods ≡ true) × (fe ≡ []))
unfolding validate_method
validate_method_iff method fe = ground (arith, add_error-ne-nil (codes "method") method_unknown fe)

pub validate_kind_iff :
    (kind : Bytes) (fe : FieldErrors)
    → (validate_kind kind fe ≡ []) ↔ ((contains kind kinds ≡ true) × (fe ≡ []))
unfolding validate_kind
validate_kind_iff kind fe = ground (arith, add_error-ne-nil (codes "kind") kind_unknown fe)

pub validate_status_code_iff :
    (status : Int64) (fe : FieldErrors)
    → (validate_status_code status fe ≡ [])
      ↔ ((between min_status_code max_status_code status ≡ true) × (fe ≡ []))
unfolding validate_status_code
validate_status_code_iff status fe =
    ground (arith, add_error-ne-nil (codes "status_code") status_range fe)

pub validate_delay_iff :
    (delay : Int64) (fe : FieldErrors)
    → (validate_delay delay fe ≡ []) ↔ ((between 0 max_delay_ms delay ≡ true) × (fe ≡ []))
unfolding validate_delay
validate_delay_iff delay fe = ground (arith, add_error-ne-nil (codes "delay_ms") delay_range fe)

pub validate_body_iff :
    (body : Bytes) (fe : FieldErrors)
    → (validate_body body fe ≡ []) ↔ ((length body ≤ max_body_len) × (fe ≡ []))
unfolding validate_body
validate_body_iff body fe = ground (arith, add_error-ne-nil (codes "body") body_too_long fe)
