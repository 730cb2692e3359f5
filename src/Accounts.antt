-- ===== src/Accounts.antt =====
-- internal/core/user.go, internal/core/token.go and internal/core/password.go: accounts and their API
-- tokens, with the statements of internal/core/queries/users.sql and tokens.sql. The libraries
-- that hash, that draw random bytes and that read an address are parameters.
pub mod Password
pub mod Login
pub mod Token
mod Tests
use restest.Base.{
  ℕ, ◌+◌, ◌*◌, ◌≡◌, Bool, true, false, not, ◌&&◌, List, [], ◌∷◌, ◌++◌, Option, none, some,
  if◌then◌else◌, Bytes, codes, same, to_lower, cut_prefix, length, take, leb, ltb, ◌==◌, sort_by,
  Int64, pos, neg,
}
use restest.Fields.{FieldErrors}
use restest.Paths.{trim_space}
use restest.Forms.Account.{
  normalize_email, validate_email, validate_password, validate_token_name, validate_token_expiry,
}
use restest.Accounts.Password.{
  Hashing, hash_password, verify_password, Verified, matches, unreadable,
}
use restest.Database.{
  Database, User, ApiToken, Outcome, ok, failed, invalid, not_found, email_taken,
  invalid_credentials, invalid_token, internal, find_by, exists_by, update_by, delete_by, select_by,
}

abbrev pub or_invalid :
    {A : Type 0} → FieldErrors → Outcome A × Database → Database → Outcome A × Database
or_invalid [] rest db = rest
or_invalid (e ∷ fe) rest db = (failed (invalid (e ∷ fe)), db)

abbrev pub has_email : Bytes → User → Bool
has_email email u = same (to_lower u.email) (to_lower email)

module _ (hashing : Hashing) where
  -- The insert; `email` is a `citext`, so that the unique index does not see the case of letters.
  unfoldable pub insert_user :
      Bytes → Bytes → ℕ → Bytes → Bytes → Database → Outcome User × Database
  unfolding exists_by same to_lower
  insert_user fresh salt now email password db =
      let u : User = record {
        id = fresh;
        email = email;
        password_hash = hash_password hashing salt password;
        created_at = now;
        updated_at = now;
      } in
      if exists_by (has_email email) db.users
      then (failed email_taken, db)
      else (ok u, record db { users = db.users ++ u ∷ [] })

  abbrev pub authenticated : User → Verified → Outcome User
  authenticated u unreadable = failed internal
  authenticated u (matches false) = failed invalid_credentials
  authenticated u (matches true) = ok u

  -- An unknown address is answered after the comparison with a decoy, whose result is dropped.
  unfoldable pub authenticate : Bytes → Bytes → Database → Outcome User
  unfolding normalize_email find_by same to_lower verify_password
  authenticate given password db = elim (find_by (has_email (normalize_email given)) db.users) [
    | none ↦ failed invalid_credentials
    | some u ↦ authenticated u (verify_password hashing u.password_hash password)
  ]

module _ (hashing : Hashing) (parse_address : Bytes → Option Bytes) where
  unfoldable pub register_user :
      Bytes → Bytes → ℕ → Bytes → Bytes → Database → Outcome User × Database
  unfolding normalize_email validate_email validate_password insert_user
  register_user fresh salt now given password db =
      let email = normalize_email given in
      or_invalid (validate_password password (validate_email parse_address email []))
        (insert_user hashing fresh salt now email password db) db

unfoldable pub user_by_id : Bytes → Database → Outcome User
unfolding find_by same
user_by_id id db = elim (find_by (λ u. same u.id id) db.users) [
  | none ↦ failed not_found
  | some u ↦ ok u
]

abbrev pub token_mark : Bytes
token_mark = codes "rst_"

abbrev pub token_bytes : ℕ
token_bytes = 32

abbrev pub token_prefix_len : ℕ
token_prefix_len = 12

-- The mark and 43 characters of base64.
abbrev pub token_text_len : ℕ
token_text_len = 47

unfoldable pub looks_like_token : Bytes → Bool
unfolding cut_prefix
looks_like_token s =
    (length s == token_text_len) && elim (cut_prefix token_mark s) [ none ↦ false | some _ ↦ true ]

abbrev pub used : ApiToken → Bool
used t = elim t.last_used_at [ none ↦ false | some _ ↦ true ]

abbrev pub expires : ApiToken → Bool
expires t = elim t.expires_at [ none ↦ false | some _ ↦ true ]

-- `t.Expires() && !t.ExpiresAt.After(time.Now())`
unfoldable pub expired : ℕ → ApiToken → Bool
expired now t = elim t.expires_at [ none ↦ false | some at ↦ leb at now ]

abbrev pub touched : ℕ → ApiToken → ApiToken
touched now t = record t { last_used_at = some now }

-- `crypto/sha256`, `encoding/base64`, and `AddDate` of time in the zone of the process.
pub record TokenLibrary : Type 0 where
  pub sha256 : Bytes → Bytes
  pub encode : Bytes → Bytes
  pub add_days : ℕ → ℕ → ℕ

module _ (library : TokenLibrary) where
  unfoldable pub token_expiry : ℕ → Int64 → Option ℕ
  token_expiry now (pos days) = if days == 0 then none else some (library.add_days now days)
  token_expiry now (neg _) = none

  unfoldable pub hash_token : Bytes → Bytes
  hash_token plaintext = library.sha256 plaintext

  -- The mark and the secret that was drawn, encoded.
  unfoldable pub new_token_text : Bytes → Bytes
  new_token_text secret = token_mark ++ library.encode secret

  unfoldable pub insert_token :
      Bytes → ℕ → Bytes → Bytes → Int64 → Bytes → Database → Outcome (ApiToken × Bytes) × Database
  unfolding hash_token token_expiry
  insert_token fresh now user name days plaintext db =
      let t : ApiToken = record {
        id = fresh;
        user_id = user;
        name = name;
        prefix = take token_prefix_len plaintext;
        token_hash = hash_token plaintext;
        last_used_at = none;
        expires_at = token_expiry now days;
        created_at = now;
      } in
      (ok (t, plaintext), record db { tokens = db.tokens ++ t ∷ [] })

  unfoldable pub create_api_token :
      Bytes → ℕ → Bytes → Bytes → Bytes → Int64 → Database → Outcome (ApiToken × Bytes) × Database
  unfolding trim_space validate_token_name validate_token_expiry new_token_text insert_token
  create_api_token fresh now secret user given days db =
      let name = trim_space given in
      or_invalid (validate_token_expiry days (validate_token_name name []))
        (insert_token fresh now user name days (new_token_text secret) db) db

  -- `where token_hash = @token_hash and (expires_at is null or expires_at > now())`
  abbrev pub accepts : ℕ → Bytes → ApiToken → Bool
  accepts now presented t =
      same t.token_hash (hash_token presented)
      && elim t.expires_at [ none ↦ true | some at ↦ ltb now at ]

  -- The row that the statement finds is marked as used by it; its owner is joined.
  unfoldable pub authenticate_api_token :
      ℕ → Bytes → Database → Outcome (User × ApiToken) × Database
  unfolding looks_like_token find_by update_by same hash_token
  authenticate_api_token now presented db =
      if not (looks_like_token presented)
      then (failed invalid_token, db)
      else elim (find_by (accepts now presented) db.tokens) [
        | none ↦ (failed invalid_token, db)
        | some t ↦ (
          elim (find_by (λ u. same u.id t.user_id) db.users) [
            | none ↦ failed invalid_token
            | some u ↦ ok (u, touched now t)
          ],
          record db { tokens = update_by (accepts now presented) (touched now) db.tokens },
        )
      ]

unfoldable pub api_tokens_by_user : Bytes → Database → List ApiToken
unfolding sort_by select_by same
api_tokens_by_user user db =
    sort_by (λ s t. leb t.created_at s.created_at) (select_by (λ t. same t.user_id user) db.tokens)

unfoldable pub delete_api_token : Bytes → Bytes → Database → Outcome Unit × Database
unfolding exists_by delete_by same
delete_api_token user id db =
    if exists_by (λ t. same t.id id && same t.user_id user) db.tokens
    then (
      ok tt,
      record db { tokens = delete_by (λ t. same t.id id && same t.user_id user) db.tokens },
    )
    else (failed not_found, db)
