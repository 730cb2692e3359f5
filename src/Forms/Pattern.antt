-- ===== src/Forms/Pattern.antt =====
-- The regular expressions of the form `^[edge]([inner]{0,n}[edge])?$`, as a matcher and as a language.
use restest.Base.{
  ℕ, zero, suc, ◌≤◌, ◌≡◌, refl, sym, ap, ◌∙◌, subst, ◌+◌, ◌↔◌, ◌⊎◌, inl, inr, Bool, true, false,
  ◌&&◌, ◌||◌, [], ◌∷◌, ◌++◌, arith, leb, Bytes, length, length-append, All,
}

abbrev pub lower_case : ℕ → Bool
lower_case c = leb b'a' c && leb c b'z'

abbrev pub upper_case : ℕ → Bool
upper_case c = leb b'A' c && leb c b'Z'

abbrev pub digit : ℕ → Bool
digit c = leb b'0' c && leb c b'9'

abbrev pub lower_alnum : ℕ → Bool
lower_alnum c = lower_case c || digit c

module _ (edge inner : ℕ → Bool) where
  -- `[inner]{0,n}[edge]$`
  unfoldable pub match_rest : ℕ → Bytes → Bool
  match_rest n [] = false
  match_rest n (c ∷ []) = edge c
  match_rest zero (c ∷ d ∷ s) = false
  match_rest (suc n) (c ∷ d ∷ s) = inner c && match_rest n (d ∷ s)

  unfoldable pub match_framed : ℕ → Bytes → Bool
  unfolding match_rest
  match_framed n [] = false
  match_framed n (c ∷ []) = edge c
  match_framed n (c ∷ d ∷ s) = edge c && match_rest n (d ∷ s)

  abbrev Ends : ℕ → Bytes → Type 0
  Ends n s =
      (middle : Bytes) × (last : ℕ) × (s ≡ middle ++ last ∷ [])
      × (length middle ≤ n)
      × All (λ c. inner c ≡ true) middle
      × (edge last ≡ true)

  -- The language of the expression: one edge, or two with at most `n` inner bytes between them.
  pub record IsFramed (n : ℕ) (s : Bytes) : Type 0 where
    pub first : ℕ
    pub begins : edge first ≡ true
    pub parts : (s ≡ first ∷ []) ⊎ ((rest : Bytes) × (s ≡ first ∷ rest) × Ends n rest)

  match_rest-Ends : (n : ℕ) (s : Bytes) → match_rest n s ≡ true → Ends n s
  unfolding match_rest
  match_rest-Ends n [] h = cc
  match_rest-Ends n (c ∷ []) h = ([], c, refl, omega arith, tt, h)
  match_rest-Ends zero (c ∷ d ∷ s) h = cc
  match_rest-Ends (suc n) (c ∷ d ∷ s) h =
      let (middle, last, e, bound, all, ends) = match_rest-Ends n (d ∷ s) (ground arith) in
      (c ∷ middle, last, ap (λ l. c ∷ l) e, omega arith, (ground arith, all), ends)

  match_rest_complete :
      (n : ℕ) (middle : Bytes) (last : ℕ)
      → length middle ≤ n
      → All (λ c. inner c ≡ true) middle
      → edge last ≡ true
      → match_rest n (middle ++ last ∷ []) ≡ true
  unfolding match_rest
  match_rest_complete n [] last h all e = e
  match_rest_complete zero (c ∷ middle) last h all e = absurd (omega arith)
  match_rest_complete (suc n) (c ∷ []) last h (p, all) e = ground arith
  match_rest_complete (suc n) (c ∷ d ∷ middle) last h (p, all) e =
      ground (arith, match_rest_complete n (d ∷ middle) last (omega arith) all e)

  match_framed-two :
      (n first : ℕ) (middle : Bytes) (last : ℕ)
      → edge first ≡ true
      → match_rest n (middle ++ last ∷ []) ≡ true
      → match_framed n (first ∷ middle ++ last ∷ []) ≡ true
  unfolding match_framed
  match_framed-two n first [] last b m = ground arith
  match_framed-two n first (c ∷ middle) last b m = ground arith

  match_framed_complete : (n : ℕ) (s : Bytes) → IsFramed n s → match_framed n s ≡ true
  unfolding match_framed
  match_framed_complete n s h = elim h.parts [
    | inl e ↦ subst (λ t. match_framed n t ≡ true) (sym e) h.begins
    | inr (rest, e, (middle, last, e', bound, all, ends)) ↦
        subst (λ t. match_framed n t ≡ true) (sym (e ∙ ap (λ l. h.first ∷ l) e'))
          (match_framed-two n h.first middle last h.begins
            (match_rest_complete n middle last bound all ends))
  ]

  match_framed-IsFramed : (n : ℕ) (s : Bytes) → match_framed n s ≡ true → IsFramed n s
  unfolding match_framed
  match_framed-IsFramed n [] h = cc
  match_framed-IsFramed n (c ∷ []) h = record { first = c; begins = h; parts = inl refl }
  match_framed-IsFramed n (c ∷ d ∷ s) h = record {
    first = c;
    begins = ground arith;
    parts = inr (d ∷ s, refl, match_rest-Ends n (d ∷ s) (ground arith));
  }

  -- The matcher decides the language.
  pub match_framed_iff : (n : ℕ) (s : Bytes) → (match_framed n s ≡ true) ↔ IsFramed n s
  match_framed_iff n s = (match_framed-IsFramed n s, match_framed_complete n s)

  length-Ends : (n : ℕ) (s : Bytes) → Ends n s → length s ≤ suc n
  length-Ends n s (middle, last, e, bound, _, _) =
      omega (arith, ap length e, length-append middle (last ∷ []))

  -- A text of the language has at least one byte and at most two more than the inner bytes.
  pub IsFramed-length : (n : ℕ) (s : Bytes) → IsFramed n s → (1 ≤ length s) × (length s ≤ 2 + n)
  IsFramed-length n s h = elim h.parts [
    | inl e ↦ (omega (arith, ap length e), omega (arith, ap length e))
    | inr (rest, e, ends) ↦
        (omega (arith, ap length e), omega (arith, ap length e, length-Ends n rest ends))
  ]
