-- ===== src/Accounts/Token.antt =====
-- `CreateAPIToken`, `AuthenticateAPIToken` and `DeleteAPIToken`: the life of a token.
use restest.Base.{
  ℕ, ◌≡◌, refl, sym, ap, subst, ◌∙◌, inl, inr, Bool, true, false, ◌&&◌, List, [], ◌∷◌, ◌++◌, none,
  some, arith, if◌then◌else◌, Bytes, same, same_refl, cut_prefix, length, ltb, Int64, Bool-cases,
  take,
}
use restest.Paths.{trim_space}
use restest.Forms.Account.{validate_token_name, validate_token_expiry}
use restest.Accounts.{
  TokenLibrary, token_prefix_len, looks_like_token, token_expiry, hash_token, new_token_text,
  insert_token, create_api_token, accepts, touched, authenticate_api_token, delete_api_token,
}
use restest.Accounts.Login.{or_invalid-ok}
use restest.Database.{
  Database, User, ApiToken, ok, failed, invalid_token, find_by, exists_by, delete_by, find_by-snoc,
  exists_by-snoc, exists_by-snoc_none, exists_by-weaker, exists_by-delete_by, delete_by-snoc,
  find_by-exists_by, update_by, update_by-snoc,
}

module _ (library : TokenLibrary) where
  pub made : Bytes → ℕ → Bytes → Bytes → Int64 → Bytes → ApiToken
  made fresh now user name days plaintext = record {
    id = fresh;
    user_id = user;
    name = name;
    prefix = take token_prefix_len plaintext;
    token_hash = hash_token library plaintext;
    last_used_at = none;
    expires_at = token_expiry library now days;
    created_at = now;
  }

  looks_like_token-new :
      (secret : Bytes)
      → length (library.encode secret) ≡ 43
      → looks_like_token (new_token_text library secret) ≡ true
  unfolding looks_like_token new_token_text cut_prefix
  looks_like_token-new secret h = ground (arith, h)

  -- The hash is of no token of the table.
  abbrev pub IsUnused : Bytes → Database → Type 0
  IsUnused text db = exists_by (λ s. same s.token_hash (hash_token library text)) db.tokens ≡ false

  -- The database with the mark of use on the rows that the statement finds.
  abbrev pub marked : ℕ → Bytes → Database → Database
  marked now text db = record db {
    tokens = update_by (accepts library now text) (touched now) db.tokens;
  }

  refused_token :
      (now : ℕ) (text : Bytes) (db : Database)
      → exists_by (accepts library now text) db.tokens ≡ false
      → authenticate_api_token library now text db ≡ (failed invalid_token, db)
  unfolding authenticate_api_token
  refused_token now text db h = elim (Bool-cases (looks_like_token text)) [
    | inl e ↦
        rw (e, find_by-exists_by (accepts library now text) db.tokens h, authenticate_api_token)
          refl
    | inr e ↦ rw (e, authenticate_api_token) refl
  ]

  accepted_token :
      (now : ℕ) (text : Bytes) (db : Database) (t : ApiToken) (u : User)
      → looks_like_token text ≡ true
      → find_by (accepts library now text) db.tokens ≡ some t
      → find_by (λ v. same v.id t.user_id) db.users ≡ some u
      → authenticate_api_token library now text db ≡ (ok (u, touched now t), marked now text db)
  unfolding authenticate_api_token
  accepted_token now text db t u l f g = rw (l, f, g, authenticate_api_token) refl

  none_accepted :
      (now : ℕ) (text : Bytes) (db : Database)
      → IsUnused text db
      → exists_by (accepts library now text) db.tokens ≡ false
  none_accepted now text db h =
      exists_by-weaker (accepts library now text) (λ s. same s.token_hash (hash_token library text))
        db.tokens (λ s k. ground arith) h

  insert_token-ok :
      (fresh : Bytes) (now : ℕ) (user name : Bytes) (days : Int64) (plaintext text : Bytes)
      (db after : Database) (t : ApiToken)
      → insert_token library fresh now user name days plaintext db ≡ (ok (t, text), after)
      → (text ≡ plaintext)
        × (t ≡ made fresh now user name days plaintext)
        × (after ≡ record db { tokens = db.tokens ++ t ∷ [] })
  unfolding insert_token made
  insert_token-ok fresh now user name days plaintext text db after t h =
      let same_token : made fresh now user name days plaintext ≡ t = cc in
      (
        cc,
        sym same_token,
        sym (ap (λ a. a.1) h)
            ∙ ap {A = ApiToken} (λ s. record db { tokens = db.tokens ++ s ∷ [] }) same_token,
      )

delete_api_token_there :
    (user id : Bytes) (db : Database)
    → exists_by (λ t. same t.id id && same t.user_id user) db.tokens ≡ true
    → (delete_api_token user id db).1
      ≡ record db { tokens = delete_by (λ t. same t.id id && same t.user_id user) db.tokens }
unfolding delete_api_token
delete_api_token_there user id db e = rw (e, delete_api_token) refl

-- Still valid at an instant.
abbrev pub is_live : ℕ → ApiToken → Bool
is_live now t = elim t.expires_at [ none ↦ true | some at ↦ ltb now at ]

module _ (library : TokenLibrary) (fresh : Bytes) (now : ℕ) (secret user given : Bytes)
    (days : Int64) (db after : Database) (t : ApiToken) (text : Bytes)
    (created : create_api_token library fresh now secret user given days db ≡ (ok (t, text), after))
    (drawn : length (library.encode secret) ≡ 43)
    (unused : IsUnused library (new_token_text library secret) db) where
  stored :
      (text ≡ new_token_text library secret)
      × (t ≡ made library fresh now user (trim_space given) days (new_token_text library secret))
      × (after ≡ record db { tokens = db.tokens ++ t ∷ [] })
  unfolding create_api_token
  stored =
      insert_token-ok library fresh now user (trim_space given) days (new_token_text library secret)
        text db after t
        (or_invalid-ok (validate_token_expiry days (validate_token_name (trim_space given) []))
          (insert_token library fresh now user (trim_space given) days
            (new_token_text library secret) db)
          db after (t, text) created)

  hash_of : same t.token_hash (hash_token library text) ≡ true
  unfolding made
  hash_of =
      let (text_is, is_made, _) = stored in
      subst (λ s. same s.token_hash (hash_token library text) ≡ true) (sym is_made)
        (subst
          (λ x.
            same (hash_token library (new_token_text library secret)) (hash_token library x) ≡ true)
          (sym text_is) (same_refl _))

  IsUnused-text : IsUnused library text db
  IsUnused-text = subst (λ x. IsUnused library x db) (sym stored.0) unused

  live_found :
      (later : ℕ) (u : User)
      → is_live later t ≡ true
      → find_by (λ v. same v.id t.user_id) db.users ≡ some u
      → authenticate_api_token library later text after
        ≡ (ok (u, touched later t), record after { tokens = db.tokens ++ touched later t ∷ [] })
  live_found later u live owner =
      let (text_is, _, after_is) = stored in
      let hit : accepts library later text t ≡ true = rw (hash_of, live) refl in
      let formed : looks_like_token text ≡ true =
        subst (λ x. looks_like_token x ≡ true) (sym text_is)
          (looks_like_token-new library secret drawn) in
      let found : find_by (accepts library later text) after.tokens ≡ some t =
        subst (λ d. find_by (accepts library later text) d.tokens ≡ some t) (sym after_is)
          (find_by-snoc (accepts library later text) t hit db.tokens
            (none_accepted library later text db IsUnused-text)) in
      let only : marked library later text after
          ≡ record after { tokens = db.tokens ++ touched later t ∷ [] } =
        ap {A = List ApiToken} (λ ts. record after { tokens = ts })
          (subst
            (λ d.
              update_by (accepts library later text) (touched later) d.tokens
              ≡ db.tokens ++ touched later t ∷ [])
            (sym after_is)
            (update_by-snoc (accepts library later text) t hit (touched later) db.tokens
              (none_accepted library later text db IsUnused-text))) in
      accepted_token library later text after t u formed found
        (subst (λ d. find_by (λ v. same v.id t.user_id) d.users ≡ some u) (sym after_is) owner)
      ∙ ap {A = Database} (λ d. (ok (u, touched later t), d)) only

  dead_refused :
      (later : ℕ)
      → is_live later t ≡ false
      → authenticate_api_token library later text after ≡ (failed invalid_token, after)
  dead_refused later dead =
      let miss : accepts library later text t ≡ false = rw (hash_of, dead) refl in
      refused_token library later text after (
        subst (λ d. exists_by (accepts library later text) d.tokens ≡ false) (sym stored.2)
          (exists_by-snoc_none (accepts library later text) db.tokens t
            (none_accepted library later text db IsUnused-text) miss))

  mine : ApiToken → Bool
  mine s = same s.id t.id && same s.user_id t.user_id

  mine_hit : mine t ≡ true
  unfolding mine
  mine_hit = rw (same_refl t.id, same_refl t.user_id) refl

  revoked : (delete_api_token t.user_id t.id after).1.tokens ≡ delete_by mine db.tokens
  unfolding delete_api_token mine
  revoked =
      let there : exists_by mine after.tokens ≡ true =
        subst (λ d. exists_by mine d.tokens ≡ true) (sym stored.2)
          (exists_by-snoc mine db.tokens t mine_hit) in
      ap (λ d. d.tokens) (delete_api_token_there t.user_id t.id after there)
      ∙ (ap (λ d. delete_by mine d.tokens) stored.2 ∙ delete_by-snoc mine db.tokens t mine_hit)

  -- A token that has been created opens its account until it expires, and its row, no other, is stored
  -- with the time of that use; after its expiry, and at any time after it has been revoked, it is
  -- refused as one that never existed, and nothing is stored.
  pub create_api_token-life :
      (later : ℕ) (u : User)
      → find_by (λ v. same v.id t.user_id) db.users ≡ some u
      → (authenticate_api_token library later text after ≡ (
          if is_live later t
          then (
            ok (u, touched later t),
            record after { tokens = db.tokens ++ touched later t ∷ [] },
          )
          else (failed invalid_token, after)))
        × (authenticate_api_token library later text (delete_api_token t.user_id t.id after).1
            ≡ (failed invalid_token, (delete_api_token t.user_id t.id after).1))
  create_api_token-life later u owner = (
    elim (Bool-cases (is_live later t)) [
      | inl e ↦ rw e (live_found later u e owner)
      | inr e ↦ rw e (dead_refused later e)
    ],
    refused_token library later text (delete_api_token t.user_id t.id after).1 (
        subst (λ ts. exists_by (accepts library later text) ts ≡ false) (sym revoked)
          (exists_by-delete_by (accepts library later text) mine db.tokens
            (none_accepted library later text db IsUnused-text))),
  )
