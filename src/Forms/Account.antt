-- ===== src/Forms/Account.antt =====
-- The fields of accounts, projects and tokens. `net/mail` is a parameter: `parse_address` gives the
-- address of what `mail.ParseAddress` accepts.
use restest.Base.{
  ℕ, zero, suc, ◌≤◌, ◌≡◌, ◌↔◌, Bool, true, false, not, ◌||◌, [], ◌∷◌, Option, none, some, arith,
  ltb, ◌==◌, if◌then◌else◌, Bytes, codes, same, to_lower, length, any, rune_count, Int64, pos, neg,
}
use restest.Fields.{
  FieldErrors, add_error, add_error-ne-nil, email_empty, email_too_long, email_shape,
  password_empty, password_short, password_too_long, project_name_empty, token_name_empty,
  name_control, characters, token_days,
}
use restest.Paths.{trim_space}
use restest.Paths.Validate.{is_control}

abbrev pub max_email_len : ℕ
max_email_len = 254

abbrev pub min_password_len : ℕ
min_password_len = 8

abbrev pub max_password_len : ℕ
max_password_len = 256

abbrev pub max_name_len : ℕ
max_name_len = 80

abbrev pub max_token_name_len : ℕ
max_token_name_len = 80

abbrev pub max_token_days : ℕ
max_token_days = 3650

unfoldable pub normalize_email : Bytes → Bytes
unfolding to_lower trim_space
normalize_email email = to_lower (trim_space email)

-- `strings.Count` of a byte
unfoldable pub count_byte : ℕ → Bytes → ℕ
count_byte c [] = 0
count_byte c (x ∷ s) = let n = count_byte c s in if x == c then suc n else n

abbrev is_address : Option Bytes → Bytes → Bool
is_address none email = false
is_address (some address) email = same address email

module _ (parse_address : Bytes → Option Bytes) where
  unfoldable pub validate_email : Bytes → FieldErrors → FieldErrors
  unfolding add_error same count_byte
  validate_email email fe =
      if length email == 0
      then add_error (codes "email") email_empty fe
      else if ltb max_email_len (length email)
      then add_error (codes "email") email_too_long fe
      else if not (is_address (parse_address email) email) || not (count_byte b'@' email == 1)
      then add_error (codes "email") email_shape fe
      else fe

  -- What the form asks of an address.
  pub record IsEmail (email : Bytes) : Type 0 where
    pub given : 1 ≤ length email
    pub short : length email ≤ max_email_len
    pub whole : is_address (parse_address email) email ≡ true
    pub one_at : count_byte b'@' email ≡ 1

  pub validate_email_sound :
      (email : Bytes) (fe : FieldErrors) → validate_email email fe ≡ [] → IsEmail email × (fe ≡ [])
  unfolding validate_email
  validate_email_sound email fe h =
      let empty = add_error-ne-nil (codes "email") email_empty fe in
      let long = add_error-ne-nil (codes "email") email_too_long fe in
      let shape = add_error-ne-nil (codes "email") email_shape fe in
      (
        record {
          given = ground (arith, empty, long, shape);
          short = ground (arith, empty, long, shape);
          whole = ground (arith, empty, long, shape);
          one_at = ground (arith, empty, long, shape);
        },
        ground (arith, empty, long, shape),
      )

  pub validate_email_complete : (email : Bytes) → IsEmail email → validate_email email [] ≡ []
  unfolding validate_email
  validate_email_complete email h = ground (arith, h.given, h.short, h.whole, h.one_at)

unfoldable pub validate_password : Bytes → FieldErrors → FieldErrors
unfolding add_error rune_count
validate_password password fe =
    if length password == 0
    then add_error (codes "password") password_empty fe
    else if ltb (rune_count password) min_password_len
    then add_error (codes "password") password_short fe
    else if ltb max_password_len (length password)
    then add_error (codes "password") password_too_long fe
    else fe

unfoldable pub validate_project_name : Bytes → FieldErrors → FieldErrors
unfolding add_error rune_count
validate_project_name name fe =
    if length name == 0
    then add_error (codes "name") project_name_empty fe
    else if ltb max_name_len (rune_count name)
    then add_error (codes "name") (characters max_name_len) fe
    else if any is_control name
    then add_error (codes "name") name_control fe
    else fe

unfoldable pub validate_token_name : Bytes → FieldErrors → FieldErrors
unfolding add_error rune_count
validate_token_name name fe =
    if length name == 0
    then add_error (codes "name") token_name_empty fe
    else if ltb max_token_name_len (rune_count name)
    then add_error (codes "name") (characters max_token_name_len) fe
    else if any is_control name
    then add_error (codes "name") name_control fe
    else fe

-- What both names have to be.
abbrev pub IsName : Bytes → Type 0
IsName name = (1 ≤ length name) × (rune_count name ≤ max_name_len) × (any is_control name ≡ false)

-- `days < 0 || days > maxTokenDays`
unfoldable pub validate_token_expiry : Int64 → FieldErrors → FieldErrors
unfolding add_error
validate_token_expiry (pos days) fe =
    if ltb max_token_days days then add_error (codes "expires_in_days") token_days fe else fe
validate_token_expiry (neg zero) fe = fe
validate_token_expiry (neg (suc _)) fe = add_error (codes "expires_in_days") token_days fe

pub validate_project_name_iff :
    (name : Bytes) (fe : FieldErrors)
    → (validate_project_name name fe ≡ []) ↔ ((fe ≡ []) × IsName name)
unfolding validate_project_name
validate_project_name_iff name fe = ground (
  arith,
  add_error-ne-nil (codes "name") project_name_empty fe,
  add_error-ne-nil (codes "name") (characters max_name_len) fe,
  add_error-ne-nil (codes "name") name_control fe,
)

pub validate_token_name_iff :
    (name : Bytes) (fe : FieldErrors)
    → (validate_token_name name fe ≡ []) ↔ ((fe ≡ []) × IsName name)
unfolding validate_token_name
validate_token_name_iff name fe = ground (
  arith,
  add_error-ne-nil (codes "name") token_name_empty fe,
  add_error-ne-nil (codes "name") (characters max_token_name_len) fe,
  add_error-ne-nil (codes "name") name_control fe,
)
