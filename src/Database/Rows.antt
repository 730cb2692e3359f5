-- ===== src/Database/Rows.antt =====
-- The rows of a table that a condition picks: found, rewritten and removed.
use restest.Base.{
  ◌≡◌, refl, inl, inr, Bool, true, false, ◌||◌, List, [], ◌∷◌, ◌++◌, Option, none, some, arith,
  if◌then◌else◌, All, Any, Bool-cases,
}

module _ {A : Type 0} (test : A → Bool) where
  unfoldable pub find_by : List A → Option A
  find_by [] = none
  find_by (x ∷ xs) = let rest = find_by xs in if test x then some x else rest

  unfoldable pub exists_by : List A → Bool
  exists_by [] = false
  exists_by (x ∷ xs) = test x || exists_by xs

  -- `update ... set ... where`
  unfoldable pub update_by : (A → A) → List A → List A
  update_by f [] = []
  update_by f (x ∷ xs) = let rest = update_by f xs in if test x then f x ∷ rest else x ∷ rest

  -- `delete ... where`
  unfoldable pub delete_by : List A → List A
  delete_by [] = []
  delete_by (x ∷ xs) = let rest = delete_by xs in if test x then rest else x ∷ rest

  -- `select ... where`
  unfoldable pub select_by : List A → List A
  select_by [] = []
  select_by (x ∷ xs) = let rest = select_by xs in if test x then x ∷ rest else rest

  pub find_by-test : (xs : List A) (x : A) → find_by xs ≡ some x → test x ≡ true
  unfolding find_by
  find_by-test [] x h = cc
  find_by-test (y ∷ xs) x h = ground (arith, find_by-test xs x)

  pub find_by-Any : (xs : List A) (x : A) → find_by xs ≡ some x → Any (λ y. y ≡ x) xs
  unfolding find_by
  find_by-Any [] x h = cc
  find_by-Any (y ∷ xs) x h = ground (arith, find_by-Any xs x)

  pub find_by-exists_by : (xs : List A) → exists_by xs ≡ false → find_by xs ≡ none
  unfolding find_by exists_by
  find_by-exists_by [] h = refl
  find_by-exists_by (x ∷ xs) h = ground (arith, find_by-exists_by xs)

  pub delete_by-All {κ} : (P : A → Type κ) (xs : List A) → All P xs → All P (delete_by xs)
  unfolding delete_by
  delete_by-All P [] h = tt
  delete_by-All P (x ∷ xs) (p, h) = elim (Bool-cases (test x)) [
    | inl k ↦ rw k (delete_by-All P xs h)
    | inr k ↦ rw k (p, delete_by-All P xs h)
  ]

  pub update_by-All {κ} :
      (P : A → Type κ) (f : A → A) (xs : List A)
      → ((x : A) → P x → test x ≡ true → P (f x))
      → All P xs
      → All P (update_by f xs)
  unfolding update_by
  update_by-All P f [] step h = tt
  update_by-All P f (x ∷ xs) step (p, h) = elim (Bool-cases (test x)) [
    | inl k ↦ rw k (step x p k, update_by-All P f xs step h)
    | inr k ↦ rw k (p, update_by-All P f xs step h)
  ]

-- Rows that no test picks may be left out before the test.
module _ {A : Type 0} (test keep : A → Bool) (kept : (x : A) → test x ≡ true → keep x ≡ true) where
  pub find_by-select_by : (xs : List A) → find_by test (select_by keep xs) ≡ find_by test xs
  unfolding find_by select_by
  find_by-select_by [] = refl
  find_by-select_by (x ∷ xs) = ground (arith, kept x, find_by-select_by xs)

  pub exists_by-select_by : (xs : List A) → exists_by test (select_by keep xs) ≡ exists_by test xs
  unfolding exists_by select_by
  exists_by-select_by [] = refl
  exists_by-select_by (x ∷ xs) = ground (arith, kept x, exists_by-select_by xs)

pub delete_by-snoc :
    {A : Type 0} (test : A → Bool) (xs : List A) (y : A)
    → test y ≡ true
    → delete_by test (xs ++ y ∷ []) ≡ delete_by test xs
unfolding delete_by
delete_by-snoc test [] y h = ground arith
delete_by-snoc test (x ∷ xs) y h = ground (arith, delete_by-snoc test xs y)

-- A row behind rows that the test does not pick.
module _ {A : Type 0} (test : A → Bool) (y : A) (hit : test y ≡ true) where
  pub find_by-snoc :
      (xs : List A) → exists_by test xs ≡ false → find_by test (xs ++ y ∷ []) ≡ some y
  unfolding find_by exists_by
  find_by-snoc [] h = ground arith
  find_by-snoc (x ∷ xs) h = ground (arith, find_by-snoc xs)

  pub update_by-snoc :
      (f : A → A) (xs : List A)
      → exists_by test xs ≡ false
      → update_by test f (xs ++ y ∷ []) ≡ xs ++ f y ∷ []
  unfolding update_by exists_by
  update_by-snoc f [] h = ground arith
  update_by-snoc f (x ∷ xs) h = ground (arith, update_by-snoc f xs)

pub exists_by-snoc :
    {A : Type 0} (test : A → Bool) (xs : List A) (y : A)
    → test y ≡ true
    → exists_by test (xs ++ y ∷ []) ≡ true
unfolding exists_by
exists_by-snoc test [] y h = ground arith
exists_by-snoc test (x ∷ xs) y h = ground (arith, exists_by-snoc test xs y)

pub exists_by-append :
    {A : Type 0} (test : A → Bool) (xs ys : List A)
    → exists_by test xs ≡ true
    → exists_by test (xs ++ ys) ≡ true
unfolding exists_by
exists_by-append test [] ys h = cc
exists_by-append test (x ∷ xs) ys h = ground (arith, exists_by-append test xs ys)

module _ {A : Type 0} (test : A → Bool) where
  pub exists_by-weaker :
      (wider : A → Bool) (xs : List A)
      → ((x : A) → test x ≡ true → wider x ≡ true)
      → exists_by wider xs ≡ false
      → exists_by test xs ≡ false
  unfolding exists_by
  exists_by-weaker wider [] sub h = refl
  exists_by-weaker wider (x ∷ xs) sub h = ground (arith, sub x, exists_by-weaker wider xs sub)

  pub exists_by-snoc_none :
      (xs : List A) (y : A)
      → exists_by test xs ≡ false
      → test y ≡ false
      → exists_by test (xs ++ y ∷ []) ≡ false
  unfolding exists_by
  exists_by-snoc_none [] y h k = ground arith
  exists_by-snoc_none (x ∷ xs) y h k = ground (arith, exists_by-snoc_none xs y)

  pub exists_by-delete_by :
      (gone : A → Bool) (xs : List A)
      → exists_by test xs ≡ false
      → exists_by test (delete_by gone xs) ≡ false
  unfolding exists_by delete_by
  exists_by-delete_by gone [] h = refl
  exists_by-delete_by gone (x ∷ xs) h = ground (arith, exists_by-delete_by gone xs)

pub Any-select_by :
    {A : Type 0} (test : A → Bool) (y : A) (xs : List A)
    → test y ≡ true
    → Any (λ x. x ≡ y) xs
    → Any (λ x. x ≡ y) (select_by test xs)
unfolding select_by
Any-select_by test y [] h a = absurd a
Any-select_by test y (x ∷ xs) h (inl e) = rw (e, h) (inl refl)
Any-select_by test y (x ∷ xs) h (inr a) = elim (Bool-cases (test x)) [
  | inl k ↦ rw k (inr (Any-select_by test y xs h a))
  | inr k ↦ rw k (Any-select_by test y xs h a)
]

pub All-select_by :
    {A : Type 0} (test : A → Bool) (xs : List A) → All (λ x. test x ≡ true) (select_by test xs)
unfolding select_by
All-select_by test [] = tt
All-select_by test (x ∷ xs) = elim (Bool-cases (test x)) [
  | inl k ↦ rw k (k, All-select_by test xs)
  | inr k ↦ rw k (All-select_by test xs)
]

pub exists_by-wider :
    {A : Type 0} (test wider : A → Bool) (xs : List A)
    → ((x : A) → test x ≡ true → wider x ≡ true)
    → exists_by test xs ≡ true
    → exists_by wider xs ≡ true
unfolding exists_by
exists_by-wider test wider [] sub h = cc
exists_by-wider test wider (x ∷ xs) sub h = ground (arith, sub x, exists_by-wider test wider xs sub)
