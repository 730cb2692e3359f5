-- ===== src/Accounts/Password.antt =====
-- internal/core/password.go: the text of a password's hash. Argon2id and base64 are a record.
use restest.Base.{
  ℕ, ◌+◌, ◌*◌, ◌-◌, ◌≡◌, refl, ap, ◌∙◌, ◌≢◌, Bool, true, false, not, ◌&&◌, List, [], ◌∷◌, ◌++◌,
  Option, none, some, arith, if◌then◌else◌, Bytes, codes, same, same_refl, has_byte, cut_prefix,
  length, format_int, split, join, Lacks, split-join, All, leb, ◌==◌,
}

pub record ArgonParams : Type 0 where
  pub memory : ℕ
  pub time : ℕ
  pub lanes : ℕ

-- `golang.org/x/crypto/argon2` and `base64.RawStdEncoding`.
pub record Hashing : Type 0 where
  -- Of a password, a salt, the parameters and the length of the key.
  pub id_key : Bytes → Bytes → ArgonParams → ℕ → Bytes
  pub encode : Bytes → Bytes
  pub decode : Bytes → Option Bytes

-- What is documented of them: the key has the length that is asked for, an encoding is decoded, and
-- no `$` is in the alphabet.
pub record IsHashing (hashing : Hashing) : Type 0 where
  pub key_length :
      (password salt : Bytes) (p : ArgonParams) (n : ℕ)
      → length (hashing.id_key password salt p n) ≡ n
  pub decode-encode : (s : Bytes) → hashing.decode (hashing.encode s) ≡ some s
  pub no_dollar : (s : Bytes) → has_byte b'$' (hashing.encode s) ≡ false

abbrev pub argon_params : ArgonParams
argon_params = record { memory = 19456; time = 2; lanes = 1 }

abbrev pub argon_key_len : ℕ
argon_key_len = 32

-- `argon2.Version`
abbrev pub argon_version : ℕ
argon_version = 19

-- The fields of the text, which begins with a `$`.
abbrev pub hash_rest : Bytes → Bytes → List Bytes
hash_rest salt key =
    codes "argon2id"
    ∷ (codes "v=" ++ format_int argon_version)
    ∷ (codes "m="
        ++ format_int argon_params.memory
        ++ codes ",t="
        ++ format_int argon_params.time
        ++ codes ",p="
        ++ format_int argon_params.lanes)
    ∷ salt
    ∷ key
    ∷ []

abbrev pub hash_fields : Bytes → Bytes → List Bytes
hash_fields salt key = [] ∷ hash_rest salt key

abbrev pub derived_key : Hashing → Bytes → Bytes → Bytes
derived_key hashing salt password = hashing.id_key password salt argon_params argon_key_len

-- `HashPassword`, with the salt that was drawn.
unfoldable pub hash_password : Hashing → Bytes → Bytes → Bytes
unfolding join format_int
hash_password hashing salt password =
    let key = derived_key hashing salt password in
    join b'$' (hash_fields (hashing.encode salt) (hashing.encode key))

abbrev digit_of : ℕ → Option ℕ
digit_of c = if leb b'0' c && leb c b'9' then some (c - b'0') else none

-- The digits at the front of a text, read behind the number `n`, and what is behind them.
unfoldable pub scan_digits : ℕ → Bytes → ℕ × Bytes
scan_digits n [] = (n, [])
scan_digits n (c ∷ s) = elim (digit_of c) [
  | none ↦ (n, c ∷ s)
  | some d ↦ scan_digits (10 * n + d) s
]

-- `%d` of `fmt.Sscanf` behind a label, up to a bound: one digit at least. The signs and the blanks
-- that `%d` passes over as well are not modelled.
unfoldable pub scan_number : Bytes → ℕ → Bytes → Option (ℕ × Bytes)
unfolding cut_prefix scan_digits
scan_number label bound s = elim (cut_prefix label s) [
  | none ↦ none
  | some [] ↦ none
  | some (c ∷ t) ↦ elim (digit_of c) [
    | none ↦ none
    | some d ↦ let (n, rest) = scan_digits d t in if leb n bound then some (n, rest) else none
  ]
]

infixl 5 ◌>>=◌
abbrev ◌>>=◌ : {A B : Type 0} → Option A → (A → Option B) → Option B
none >>= f = none
some a >>= f = f a

-- `"m=%d,t=%d,p=%d"` into a uint32, a uint32 and a uint8.
unfoldable pub scan_params : Bytes → Option ArgonParams
unfolding scan_number
scan_params s = do
  (memory, s') ← scan_number (codes "m=") 4294967295 s
  (time, s'') ← scan_number (codes ",t=") 4294967295 s'
  (lanes, _) ← scan_number (codes ",p=") 255 s''
  some (record { memory = memory; time = time; lanes = lanes })

-- A value that is read under a condition, as by an early return of `ErrInvalidHash`.
abbrev guard : Bool → Option (Unit {0})
guard true = some tt
guard false = none

abbrev is_given : Bytes → Bool
is_given s = not (length s == 0)

abbrev is_usable : ArgonParams → Bool
is_usable p = not (p.memory == 0) && (not (p.time == 0) && not (p.lanes == 0))

module _ (hashing : Hashing) where
  -- Of the fields between the dollars.
  unfoldable pub decode_fields : List Bytes → Option (ArgonParams × Bytes × Bytes)
  unfolding same scan_number scan_params
  decode_fields (front ∷ algorithm ∷ version ∷ params ∷ salt ∷ key ∷ []) = do
    _ ← guard (same front [])
    _ ← guard (same algorithm (codes "argon2id"))
    (number, _) ← scan_number (codes "v=") 9223372036854775807 version
    _ ← guard (number == argon_version)
    p ← scan_params params
    _ ← guard (is_usable p)
    salt' ← hashing.decode salt
    _ ← guard (is_given salt')
    key' ← hashing.decode key
    _ ← guard (is_given key')
    some (p, salt', key')
  decode_fields _ = none

  -- `none` is `ErrInvalidHash`.
  unfoldable pub decode_hash : Bytes → Option (ArgonParams × Bytes × Bytes)
  unfolding decode_fields split
  decode_hash encoded = decode_fields (split b'$' encoded)

pub data Verified : Type 0 where
  matches : Bool → Verified
  unreadable : Verified

unfoldable pub verify_password : Hashing → Bytes → Bytes → Verified
unfolding decode_hash same
verify_password hashing encoded password = elim (decode_hash hashing encoded) [
  | none ↦ unreadable
  | some (p, salt, want) ↦ matches (same (hashing.id_key password salt p (length want)) want)
]

module _ (hashing : Hashing) (laws : IsHashing hashing) (salt : Bytes) (given : salt ≢ []) where
  abbrev key_of : Bytes → Bytes
  key_of password = derived_key hashing salt password

  Lacks-has_byte : (s : Bytes) → has_byte b'$' s ≡ false → Lacks b'$' s
  unfolding has_byte
  Lacks-has_byte [] h = tt
  Lacks-has_byte (c ∷ s) h = (ground arith, Lacks-has_byte s (ground arith))

  hash_fields-Lacks :
      (password : Bytes)
      → All (Lacks b'$') (hash_fields (hashing.encode salt) (hashing.encode (key_of password)))
  unfolding has_byte format_int
  hash_fields-Lacks password = (
    tt,
    (
      Lacks-has_byte (codes "argon2id") refl,
      (
        Lacks-has_byte (codes "v=19") refl,
        (
          Lacks-has_byte (codes "m=19456,t=2,p=1") refl,
          (
            Lacks-has_byte (hashing.encode salt) (laws.no_dollar salt),
            (
              Lacks-has_byte (hashing.encode (key_of password)) (laws.no_dollar (key_of password)),
              tt,
            ),
          ),
        ),
      ),
    ),
  )

  is_given_of : (s : Bytes) → s ≢ [] → is_given s ≡ true
  is_given_of [] h = absurd (h refl)
  is_given_of (c ∷ s) h = ground arith

  key_given : (password : Bytes) → is_given (key_of password) ≡ true
  key_given password = ground (arith, laws.key_length password salt argon_params argon_key_len)

  fields_read :
      (password : Bytes)
      → decode_fields hashing (hash_fields (hashing.encode salt) (hashing.encode (key_of password)))
        ≡ some (argon_params, salt, key_of password)
  unfolding decode_fields scan_params scan_number scan_digits cut_prefix same format_int
  fields_read password =
      rw
        (
          laws.decode-encode salt,
          is_given_of salt given,
          laws.decode-encode (key_of password),
          key_given password,
        )
        refl

  -- The text of a hash is read back.
  pub decode_hash-hash_password :
      (password : Bytes)
      → decode_hash hashing (hash_password hashing salt password)
        ≡ some (argon_params, salt, key_of password)
  unfolding decode_hash hash_password
  decode_hash-hash_password password =
      ap (decode_fields hashing) (
        split-join b'$' [] (hash_rest (hashing.encode salt) (hashing.encode (key_of password)))
          (hash_fields-Lacks password))
      ∙ fields_read password

  verify_decoded :
      (encoded password want : Bytes) (p : ArgonParams) (salt' : Bytes)
      → decode_hash hashing encoded ≡ some (p, salt', want)
      → verify_password hashing encoded password
        ≡ matches (same (hashing.id_key password salt' p (length want)) want)
  unfolding verify_password
  verify_decoded encoded password want p salt' e = rw (e, verify_password) refl

  -- A password that is compared with the hash of another is accepted exactly if both have one key: the
  -- parameters and the salt are read back from the text, so that the right password is accepted.
  pub verify_password-hash_password :
      (password attempt : Bytes)
      → (verify_password hashing (hash_password hashing salt password) attempt
          ≡ matches (same (key_of attempt) (key_of password)))
        × (verify_password hashing (hash_password hashing salt password) password ≡ matches true)
  verify_password-hash_password password attempt =
      let read = λ (tried : Bytes).
        verify_decoded (hash_password hashing salt password) tried (key_of password) argon_params
          salt (decode_hash-hash_password password)
        ∙ ap (λ n. matches (same (hashing.id_key tried salt argon_params n) (key_of password)))
            (laws.key_length password salt argon_params argon_key_len) in
      (read attempt, read password ∙ ap matches (same_refl (key_of password)))
