-- ===== src/Accounts/Tests.antt =====
-- Runs of the operations on accounts and tokens, and the theorems at them.
use restest.Base.{
  ℕ, zero, suc, ◌+◌, ◌-◌, ◌≡◌, ap, ap₂, Option, refl, ◌≢◌, false, [], ◌∷◌, ◌++◌, map, some, none,
  arith, Bytes, codes, same, length, has_byte, if◌then◌else◌, pos,
}
use restest.Forms.Account.{normalize_email}
use restest.Database.{
  Database, User, ApiToken, Outcome, ok, failed, invalid_credentials, invalid_token, find_by,
  exists_by,
}
use restest.Accounts.{
  TokenLibrary, new_token_text, register_user, authenticate, create_api_token,
  authenticate_api_token, delete_api_token, touched,
}
use restest.Accounts.Password.{Hashing, derived_key, hash_password, IsHashing}
use restest.Accounts.Login.{register_user-authenticate}
use restest.Accounts.Token.{IsUnused, is_live, create_api_token-life}

-- A key of the length that is asked for that ends in the password.
abbrev padded : ℕ → Bytes → Bytes
padded zero s = []
padded (suc n) [] = 0 ∷ padded n []
padded (suc n) (c ∷ s) = c ∷ padded n s

-- Bytes moved past the dollar, and back.
abbrev moved : Bytes → Bytes
moved s = map (λ c. c + 37) s

abbrev moved_back : Bytes → Bytes
moved_back s = map (λ c. c - 37) s

abbrev hashing : Hashing
hashing = record {
  id_key = λ password salt p n. padded n password;
  encode = moved;
  decode = λ s. some (moved_back s);
}

length-padded : (n : ℕ) (s : Bytes) → length (padded n s) ≡ n
length-padded zero s = refl
length-padded (suc n) [] = ap suc (length-padded n [])
length-padded (suc n) (c ∷ s) = ap suc (length-padded n s)

moved_back-moved : (s : Bytes) → moved_back (moved s) ≡ s
moved_back-moved [] = refl
moved_back-moved (c ∷ s) = ap₂ ◌∷◌ (omega arith) (moved_back-moved s)

no_dollar-moved : (s : Bytes) → has_byte b'$' (moved s) ≡ false
unfolding has_byte
no_dollar-moved [] = refl
no_dollar-moved (c ∷ s) = ground (arith, no_dollar-moved s)

hashing-IsHashing : IsHashing hashing
hashing-IsHashing = record {
  key_length = λ password salt p n. length-padded n password;
  decode-encode = λ s. ap some (moved_back-moved s);
  no_dollar = no_dollar-moved;
}

abbrev salt : Bytes
salt = codes "0123456789abcdef"

salt-given : salt ≢ []
salt-given h = cc

-- An address that is read as it stands.
abbrev parse_address : Bytes → Option Bytes
parse_address s = some s

abbrev empty : Database
empty = record { users = []; tokens = []; projects = []; collections = []; endpoints = [] }

abbrev registered : Outcome User × Database
registered =
    register_user hashing parse_address (codes "u") salt 3 (codes " Ann@x.io") (codes "password1")
      empty

abbrev ann : User
ann = record {
  id = codes "u";
  email = codes "ann@x.io";
  password_hash = hash_password hashing salt (codes "password1");
  created_at = 3;
  updated_at = 3;
}

abbrev after : Database
after = record empty { users = ann ∷ [] }

registered-ann : registered ≡ (ok ann, after)
unfolding register_user
registered-ann = refl

same_address : normalize_email (codes "ANN@x.io ") ≡ normalize_email (codes " Ann@x.io")
unfolding normalize_email
same_address = refl

register_user-authenticate_example :
    (authenticate hashing (codes "ANN@x.io ") (codes "password1") after ≡ ok ann)
    × (authenticate hashing (codes "ANN@x.io ") (codes "password2") after ≡ (
        if same
          (derived_key hashing salt (codes "password2"))
          (derived_key hashing salt (codes "password1"))
        then ok ann
        else failed invalid_credentials))
register_user-authenticate_example =
    register_user-authenticate hashing hashing-IsHashing parse_address (codes "u") salt salt-given 3
      (codes " Ann@x.io") (codes "password1") empty after ann (codes "ANN@x.io ")
      (codes "password2") registered-ann same_address

-- The digest that is the text, and an encoding of 43 bytes.
abbrev library : TokenLibrary
library = record { sha256 = λ s. s; encode = padded 43; add_days = λ now days. now + days }

abbrev token : ApiToken
token = record {
  id = codes "t";
  user_id = codes "u";
  name = codes "ci";
  prefix = codes "rst_secret" ++ 0 ∷ 0 ∷ [];
  token_hash = codes "rst_" ++ padded 43 (codes "secret");
  last_used_at = none;
  expires_at = some 5;
  created_at = 4;
}

abbrev text : Bytes
text = codes "rst_" ++ padded 43 (codes "secret")

abbrev with_token : Database
with_token = record after { tokens = token ∷ [] }

token_created :
    create_api_token library (codes "t") 4 (codes "secret") (codes "u") (codes " ci") (pos 1) after
    ≡ (ok (token, text), with_token)
unfolding create_api_token
token_created = refl

nothing_hashed : IsUnused library (new_token_text library (codes "secret")) after
unfolding exists_by
nothing_hashed = refl

ann_found : find_by (λ v. same v.id token.user_id) after.users ≡ some ann
unfolding find_by same
ann_found = refl

create_api_token-life_example :
    (authenticate_api_token library 9 text with_token ≡ (
      if is_live 9 token
      then (ok (ann, touched 9 token), record with_token { tokens = touched 9 token ∷ [] })
      else (failed invalid_token, with_token)))
    × (authenticate_api_token library 9 text (delete_api_token (codes "u") (codes "t") with_token).1
        ≡ (failed invalid_token, (delete_api_token (codes "u") (codes "t") with_token).1))
create_api_token-life_example =
    create_api_token-life library (codes "t") 4 (codes "secret") (codes "u") (codes " ci") (pos 1)
      after with_token token text token_created refl nothing_hashed 9 ann ann_found
