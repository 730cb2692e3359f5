-- ===== src/Database/Apart.antt =====
-- Tables with unique indexes: no two rows clash, and which statements keep it so.
use restest.Base.{
  ◌≡◌, ◌∙◌, inl, inr, Bool, true, false, List, [], ◌∷◌, ◌++◌, arith, All, Bool-cases,
}
use restest.Database.Rows.{exists_by, update_by, delete_by}

module _ {A : Type 0} (clash : A → A → Bool) where
  abbrev pub IsApart : List A → Type 0
  IsApart [] = Unit
  IsApart (x ∷ xs) = All (λ y. clash x y ≡ false) xs × IsApart xs

  All-snoc : (P : A → Type 0) (xs : List A) (y : A) → All P xs → P y → All P (xs ++ y ∷ [])
  All-snoc P [] y h p = (p, tt)
  All-snoc P (x ∷ xs) y (q, h) p = (q, All-snoc P xs y h p)

  -- An insert of a row that clashes with none.
  pub IsApart-snoc :
      (xs : List A) (y : A) → IsApart xs → All (λ x. clash x y ≡ false) xs → IsApart (xs ++ y ∷ [])
  IsApart-snoc [] y h k = (tt, tt)
  IsApart-snoc (x ∷ xs) y (p, h) (q, k) =
      (All-snoc (λ z. clash x z ≡ false) xs y p q, IsApart-snoc xs y h k)

  All-delete :
      (P : A → Type 0) (gone : A → Bool) (xs : List A) → All P xs → All P (delete_by gone xs)
  unfolding delete_by
  All-delete P gone [] h = tt
  All-delete P gone (x ∷ xs) (p, h) = elim (Bool-cases (gone x)) [
    | inl e ↦ rw e (All-delete P gone xs h)
    | inr e ↦ rw e (p, All-delete P gone xs h)
  ]

  pub IsApart-delete_by : (gone : A → Bool) (xs : List A) → IsApart xs → IsApart (delete_by gone xs)
  unfolding delete_by
  IsApart-delete_by gone [] h = tt
  IsApart-delete_by gone (x ∷ xs) (p, h) = elim (Bool-cases (gone x)) [
    | inl e ↦ rw e (IsApart-delete_by gone xs h)
    | inr e ↦ rw e (All-delete (λ y. clash x y ≡ false) gone xs p, IsApart-delete_by gone xs h)
  ]

  -- An update of the rows that `test` picks: two rows that `hit` picks clash, so that it picks one at
  -- most, and the new row clashes with none of the others.
  module _ (symmetric : (x y : A) → clash x y ≡ clash y x) (test hit : A → Bool)
      (sub : (x : A) → test x ≡ true → hit x ≡ true)
      (one : (x y : A) → hit x ≡ true → hit y ≡ true → clash x y ≡ true) (f : A → A) where
    -- The row clashes with no updated row.
    abbrev Clear : A → Type 0
    Clear x = hit x ≡ false → (w : A) → test w ≡ true → clash x (f w) ≡ false

    All-update_others :
        (x : A) (xs : List A)
        → Clear x
        → All (λ y. clash x y ≡ false) xs
        → test x ≡ false
        → All (λ y. clash x y ≡ false) (update_by test f xs)
    unfolding update_by
    All-update_others x [] c h t = tt
    All-update_others x (y ∷ xs) c (p, h) t = elim (Bool-cases (test y)) [
      | inl e ↦ rw e (
        elim (Bool-cases (hit x)) [ inl k ↦ ground (arith, one x y k (sub y e)) | inr k ↦ c k y e ],
        All-update_others x xs c h t,
      )
      | inr e ↦ rw e (p, All-update_others x xs c h t)
    ]

    All-updated :
        (x : A) (xs : List A)
        → test x ≡ true
        → All Clear xs
        → All (λ y. clash x y ≡ false) xs
        → All (λ y. clash (f x) y ≡ false) (update_by test f xs)
    unfolding update_by
    All-updated x [] t c h = tt
    All-updated x (y ∷ xs) t (d, c) (p, h) = elim (Bool-cases (hit y)) [
      | inl k ↦ ground (arith, one x y (sub x t) k)
      | inr k ↦
          let miss : test y ≡ false = ground (arith, sub y) in
          rw miss (symmetric (f x) y ∙ d k x t, All-updated x xs t c h)
    ]

    pub IsApart-update_by :
        (xs : List A) → IsApart xs → All Clear xs → IsApart (update_by test f xs)
    unfolding update_by
    IsApart-update_by [] h c = tt
    IsApart-update_by (x ∷ xs) (p, h) (d, c) = elim (Bool-cases (test x)) [
      | inl e ↦ rw e (All-updated x xs e c p, IsApart-update_by xs h c)
      | inr e ↦ rw e (All-update_others x xs d p e, IsApart-update_by xs h c)
    ]

-- A test that fails on every row fails on each.
pub All-exists_by_none :
    {A : Type 0} (test : A → Bool) (xs : List A)
    → exists_by test xs ≡ false
    → All (λ x. test x ≡ false) xs
unfolding exists_by
All-exists_by_none test [] h = tt
All-exists_by_none test (x ∷ xs) h = (ground arith, All-exists_by_none test xs (ground arith))

pub All-map_lemma :
    {A : Type 0} (P Q : A → Type 0) (xs : List A) → ((x : A) → P x → Q x) → All P xs → All Q xs
All-map_lemma P Q [] f h = tt
All-map_lemma P Q (x ∷ xs) f (p, h) = (f x p, All-map_lemma P Q xs f h)
