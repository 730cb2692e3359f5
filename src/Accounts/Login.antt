-- ===== src/Accounts/Login.antt =====
-- `RegisterUser` and `Authenticate`.
use restest.Base.{
  ℕ, ◌≡◌, refl, sym, ap, subst, ◌∙◌, ◌≢◌, inl, inr, Bool, true, false, [], ◌∷◌, ◌++◌, Option, some,
  if◌then◌else◌, Bytes, same, same_refl, to_lower, Bool-cases,
}
use restest.Fields.{FieldErrors}
use restest.Forms.Account.{normalize_email, validate_email, validate_password}
use restest.Accounts.{
  or_invalid, has_email, insert_user, register_user, authenticated, authenticate,
}
use restest.Accounts.Password.{
  Hashing, IsHashing, derived_key, hash_password, verify_password, matches,
  verify_password-hash_password,
}
use restest.Database.{
  Database, User, Outcome, ok, failed, invalid_credentials, find_by, exists_by, find_by-snoc,
}

pub or_invalid-ok :
    {A : Type 0} (fe : FieldErrors) (rest : Outcome A × Database) (db after : Database) (a : A)
    → or_invalid fe rest db ≡ (ok a, after)
    → rest ≡ (ok a, after)
or_invalid-ok [] rest db after a h = h
or_invalid-ok (e ∷ fe) rest db after a h = cc

module _ (hashing : Hashing) where
  made : Bytes → Bytes → ℕ → Bytes → Bytes → User
  made fresh salt now email password = record {
    id = fresh;
    email = email;
    password_hash = hash_password hashing salt password;
    created_at = now;
    updated_at = now;
  }

  insert_user-ok :
      (fresh salt : Bytes) (now : ℕ) (email password : Bytes) (db after : Database) (u : User)
      → insert_user hashing fresh salt now email password db ≡ (ok u, after)
      → (exists_by (has_email email) db.users ≡ false)
        × (u ≡ made fresh salt now email password)
        × (after ≡ record db { users = db.users ++ u ∷ [] })
  unfolding insert_user made
  insert_user-ok fresh salt now email password db after u h =
      elim (Bool-cases (exists_by (has_email email) db.users)) [
        | inl e ↦ cc (rw (e, insert_user) at h)
        | inr e ↦
            let k = rw (e, insert_user) at h in
            let same_user : made fresh salt now email password ≡ u = cc in
            (
              e,
              sym same_user,
              sym (ap (λ a. a.1) k)
                  ∙ ap {A = User} (λ v. record db { users = db.users ++ v ∷ [] }) same_user,
            )
      ]

  authenticate_found :
      (given attempt : Bytes) (db : Database) (u : User)
      → find_by (has_email (normalize_email given)) db.users ≡ some u
      → authenticate hashing given attempt db
        ≡ authenticated hashing u (verify_password hashing u.password_hash attempt)
  unfolding authenticate
  authenticate_found given attempt db u e = rw (e, authenticate) refl

module _ (hashing : Hashing) (laws : IsHashing hashing) (parse_address : Bytes → Option Bytes)
    (fresh salt : Bytes) (drawn : salt ≢ []) (now : ℕ) where
  authenticated_matches :
      (u : User) (b : Bool)
      → authenticated hashing u (matches b) ≡ (if b then ok u else failed invalid_credentials)
  authenticated_matches u true = refl
  authenticated_matches u false = refl

  authenticate_stored :
      (again tried : Bytes) (db after : Database) (u : User) (password email : Bytes)
      → exists_by (has_email email) db.users ≡ false
      → u ≡ made hashing fresh salt now email password
      → after ≡ record db { users = db.users ++ u ∷ [] }
      → normalize_email again ≡ email
      → authenticate hashing again tried after
        ≡ authenticated hashing u
            (verify_password hashing (hash_password hashing salt password) tried)
  unfolding made
  authenticate_stored again tried db after u password email free is_made stored spelt =
      let hit : has_email email u ≡ true =
        subst (λ v. has_email email v ≡ true) (sym is_made) (same_refl (to_lower email)) in
      let found : find_by (has_email (normalize_email again)) after.users ≡ some u =
        subst (λ e. find_by (has_email e) after.users ≡ some u) (sym spelt)
          (subst (λ d. find_by (has_email email) d.users ≡ some u) (sym stored)
            (find_by-snoc (has_email email) u hit db.users free)) in
      authenticate_found hashing again tried after u found
      ∙ ap (λ v. authenticated hashing u (verify_password hashing v.password_hash tried)) is_made

  -- An account that has been registered can log in with its password, under every spelling of the
  -- address that is normalised to the same text; with another password it is refused, unless that
  -- has the same key.
  pub register_user-authenticate :
      (given password : Bytes) (db after : Database) (u : User) (again attempt : Bytes)
      → register_user hashing parse_address fresh salt now given password db ≡ (ok u, after)
      → normalize_email again ≡ normalize_email given
      → (authenticate hashing again password after ≡ ok u)
        × (authenticate hashing again attempt after ≡ (
            if same (derived_key hashing salt attempt) (derived_key hashing salt password)
            then ok u
            else failed invalid_credentials))
  unfolding register_user
  register_user-authenticate given password db after u again attempt h spelt =
      let email = normalize_email given in
      let inserted =
        or_invalid-ok (validate_password password (validate_email parse_address email []))
          (insert_user hashing fresh salt now email password db) db after u h in
      let (free, is_made, stored) =
        insert_user-ok hashing fresh salt now email password db after u inserted in
      let answer = λ (tried : Bytes).
        authenticate_stored again tried db after u password email free is_made stored spelt in
      let (verified, right) =
        verify_password-hash_password hashing laws salt drawn password attempt in
      (
        answer password ∙ ap (authenticated hashing u) right,
        answer attempt
            ∙ (ap (authenticated hashing u) verified
                ∙ authenticated_matches u
                    (same (derived_key hashing salt attempt) (derived_key hashing salt password))),
      )
