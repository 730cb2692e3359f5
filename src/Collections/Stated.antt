-- ===== src/Collections/Stated.antt =====
-- The first loop of `seedDocuments`: the identifiers that the entries state.
use restest.Base.{
  ℕ, suc, ◌≡◌, refl, sym, subst, ◌⊎◌, true, false, List, [], ◌∷◌, none, some, arith, Bytes, same,
  same_iff, contains, lookup, Bool-cases, Option-cases, inl, inr,
}
use restest.Paths.Validate.{IsDistinct}
use restest.Collections.{
  Json, text, number, nested, boolean, null_value, Element, object, null_element, not_object,
  entry_bad_id, shared_id, scalar_text, FirstPass, passed, stopped, with_id, read_ids,
}

-- The identifiers that the entries state.
unfoldable pub stated : List Bytes → List Bytes
stated [] = []
stated ([] ∷ ids) = stated ids
stated ((c ∷ s) ∷ ids) = (c ∷ s) ∷ stated ids

-- What the first loop has found is distinct, apart from what was taken before, and taken behind it.
unfoldable pub FirstGood : List Bytes → FirstPass → Type 0
FirstGood taken (stopped e) = Unit
FirstGood taken (passed ids taken') =
    IsDistinct (stated ids)
    × ((x : Bytes) → contains x (stated ids) ≡ true → contains x taken ≡ false)
    × ((x : Bytes)
        → (contains x (stated ids) ≡ true) ⊎ (contains x taken ≡ true)
        → contains x taken' ≡ true)

FirstGood-unstated :
    (taken : List Bytes) (p : FirstPass) → FirstGood taken p → FirstGood taken (with_id [] p)
unfolding FirstGood stated
FirstGood-unstated taken (stopped e) h = tt
FirstGood-unstated taken (passed ids taken') h = h

FirstGood-stated :
    (b : ℕ) (s : Bytes) (taken : List Bytes) (p : FirstPass)
    → contains (b ∷ s) taken ≡ false
    → FirstGood ((b ∷ s) ∷ taken) p
    → FirstGood taken (with_id (b ∷ s) p)
unfolding FirstGood stated contains
FirstGood-stated b s taken (stopped e) k h = tt
FirstGood-stated b s taken (passed ids taken') k (d, apart, covers) = (
  (
    elim (Bool-cases (contains (b ∷ s) (stated ids))) [
      | inl e ↦ absurd (ground (arith, apart (b ∷ s) e, same_iff (b ∷ s) (b ∷ s)))
      | inr e ↦ e
    ],
    d,
  ),
  λ x h. ground (arith, h, same_iff (b ∷ s) x, apart x),
  λ x h. elim (Bool-cases (same (b ∷ s) x)) [
    | inl e ↦ covers x (inr (ground arith))
    | inr e ↦ elim h [
      | inl p ↦ covers x (inl (ground (arith, p)))
      | inr p ↦ covers x (inr (ground (arith, p)))
    ]
  ],
)

scalar_text-cases :
    (raw : Json)
    → (scalar_text raw ≡ none) ⊎ ((b : ℕ) × (s : Bytes) × (scalar_text raw ≡ some (b ∷ s)))
unfolding scalar_text
scalar_text-cases (text []) = inl refl
scalar_text-cases (text (c ∷ s)) = inr (c, s, refl)
scalar_text-cases (number c s) = inr (c, s, refl)
scalar_text-cases (nested s) = inl refl
scalar_text-cases (boolean b) = inl refl
scalar_text-cases null_value = inl refl

pub read_ids-FirstGood :
    (i : ℕ) (id_field : Bytes) (es : List Element) (taken : List Bytes)
    → FirstGood taken (read_ids i id_field es taken)
unfolding read_ids FirstGood stated contains
read_ids-FirstGood i id_field [] taken =
    (tt, λ x h. ground arith, λ x h. elim h [ inl p ↦ ground arith | inr p ↦ p ])
read_ids-FirstGood i id_field (not_object ∷ es) taken = tt
read_ids-FirstGood i id_field (null_element ∷ es) taken =
    FirstGood-unstated taken _ (read_ids-FirstGood (suc i) id_field es taken)
read_ids-FirstGood i id_field (object fields ∷ es) taken =
    elim (Option-cases (lookup id_field fields)) [
      | inl e ↦
          subst (FirstGood taken) (sym (ground arith))
            (FirstGood-unstated taken _ (read_ids-FirstGood (suc i) id_field es taken))
      | inr (raw, e) ↦ elim (scalar_text-cases raw) [
        | inl k ↦
            subst (FirstGood taken) {x = stopped (entry_bad_id (suc i))} (sym (ground arith)) tt
        | inr (b, s, k) ↦ elim (Bool-cases (contains (b ∷ s) taken)) [
          | inl there ↦
              subst (FirstGood taken) {x = stopped (shared_id (b ∷ s))} (sym (ground arith)) tt
          | inr free ↦ subst (FirstGood taken) (sym (ground arith)) (
              FirstGood-stated b s taken _ free
                (read_ids-FirstGood (suc i) id_field es ((b ∷ s) ∷ taken)))
        ]
      ]
    ]
