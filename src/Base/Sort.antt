-- ===== src/Base/Sort.antt =====
-- `slices.SortFunc` by a Boolean order, as an insertion sort: for an order in which no two different
-- entries are equal the result does not depend on the algorithm.
use Prim.Native.Nat.{suc}
use mathlib.Core.Path.{◌≡◌, refl, subst}
use native.Mathlib.Omega.{arith}
use mathlib.Core.Logic.{inl, inr}
use mathlib.Core.Bool.{Bool, true, false}
use mathlib.Core.List.{List, [], ◌∷◌, Perm}
use mathlib.Core.List.Perm
use restest.Base.Tests.{if◌then◌else◌, Bool-cases}
use restest.Base.Lists.{All, Any, length}

module _ {ℓ} {A : Type ℓ} (le : A → A → Bool) where
  unfoldable pub insert_by : A → List A → List A
  insert_by x [] = x ∷ []
  insert_by x (y ∷ ys) = if le x y then x ∷ y ∷ ys else y ∷ insert_by x ys

  unfoldable pub sort_by : List A → List A
  unfolding insert_by
  sort_by [] = []
  sort_by (x ∷ xs) = insert_by x (sort_by xs)

  -- Every entry is at most each of those behind it.
  abbrev pub IsSorted : List A → Type ℓ
  IsSorted [] = Unit
  IsSorted (x ∷ xs) = All (λ y. le x y ≡ true) xs × IsSorted xs

  insert_by-Perm : (x : A) (ys : List A) → Perm (insert_by x ys) (x ∷ ys)
  unfolding insert_by
  insert_by-Perm x [] = Perm.refl (x ∷ [])
  insert_by-Perm x (y ∷ ys) = elim (Bool-cases (le x y)) [
    | inl h ↦ rw (h, insert_by) (Perm.refl (x ∷ y ∷ ys))
    | inr h ↦ rw (h, insert_by) (Perm.trans (Perm.cons y (insert_by-Perm x ys)) (Perm.swap x y ys))
  ]

  -- The result has the same entries, each as often.
  pub sort_by-Perm : (xs : List A) → Perm (sort_by xs) xs
  unfolding sort_by
  sort_by-Perm [] = Perm.refl []
  sort_by-Perm (x ∷ xs) = Perm.trans (insert_by-Perm x (sort_by xs)) (Perm.cons x (sort_by-Perm xs))

  length-insert_by : (x : A) (ys : List A) → length (insert_by x ys) ≡ suc (length ys)
  unfolding insert_by
  length-insert_by x [] = refl
  length-insert_by x (y ∷ ys) = ground (arith, length-insert_by x ys)

  pub length-sort_by : (xs : List A) → length (sort_by xs) ≡ length xs
  unfolding sort_by
  length-sort_by [] = refl
  length-sort_by (x ∷ xs) = omega (arith, length-insert_by x (sort_by xs), length-sort_by xs)

  All-insert_by {κ} :
      (P : A → Type κ) (x : A) (ys : List A) → P x → All P ys → All P (insert_by x ys)
  unfolding insert_by
  All-insert_by P x [] p h = (p, tt)
  All-insert_by P x (y ∷ ys) p (q, h) = elim (Bool-cases (le x y)) [
    | inl e ↦ rw (e, insert_by) (p, (q, h))
    | inr e ↦ rw (e, insert_by) (q, All-insert_by P x ys p h)
  ]

  pub All-sort_by {κ} : (P : A → Type κ) (xs : List A) → All P xs → All P (sort_by xs)
  unfolding sort_by
  All-sort_by P [] h = tt
  All-sort_by P (x ∷ xs) (p, h) = All-insert_by P x (sort_by xs) p (All-sort_by P xs h)

  insert_by_here : (x y : A) (ys : List A) → le x y ≡ true → insert_by x (y ∷ ys) ≡ x ∷ y ∷ ys
  unfolding insert_by
  insert_by_here x y ys e = rw e refl

  insert_by_later :
      (x y : A) (ys : List A) → le x y ≡ false → insert_by x (y ∷ ys) ≡ y ∷ insert_by x ys
  unfolding insert_by
  insert_by_later x y ys e = rw e refl

  All-insert_by_inv {κ} :
      (P : A → Type κ) (x : A) (ys : List A) → All P (insert_by x ys) → P x × All P ys
  unfolding insert_by
  All-insert_by_inv P x [] h = h
  All-insert_by_inv P x (y ∷ ys) h = elim (Bool-cases (le x y)) [
    | inl e ↦ subst (All P) (insert_by_here x y ys e) h
    | inr e ↦
        let (q, rest) = subst (All P) (insert_by_later x y ys e) h in
        let (p, all) = All-insert_by_inv P x ys rest in (p, (q, all))
  ]

  -- What holds of every entry of the sorted list holds of every entry.
  pub All-unsort {κ} : (P : A → Type κ) (xs : List A) → All P (sort_by xs) → All P xs
  unfolding sort_by
  All-unsort P [] h = tt
  All-unsort P (x ∷ xs) h =
      let (p, rest) = All-insert_by_inv P x (sort_by xs) h in (p, All-unsort P xs rest)

  Any-insert_by_here : (P : A → Type 0) (x : A) (ys : List A) → P x → Any P (insert_by x ys)
  unfolding insert_by
  Any-insert_by_here P x [] p = inl p
  Any-insert_by_here P x (y ∷ ys) p = elim (Bool-cases (le x y)) [
    | inl e ↦ rw (e, insert_by) (inl p)
    | inr e ↦ rw (e, insert_by) (inr (Any-insert_by_here P x ys p))
  ]

  Any-insert_by : (P : A → Type 0) (x : A) (ys : List A) → Any P ys → Any P (insert_by x ys)
  unfolding insert_by
  Any-insert_by P x [] h = absurd h
  Any-insert_by P x (y ∷ ys) h = elim (Bool-cases (le x y)) [
    | inl e ↦ rw (e, insert_by) (inr h)
    | inr e ↦ rw (e, insert_by) (elim h [ inl p ↦ inl p | inr k ↦ inr (Any-insert_by P x ys k) ])
  ]

  -- No entry is lost.
  pub Any-sort_by : (P : A → Type 0) (xs : List A) → Any P xs → Any P (sort_by xs)
  unfolding sort_by
  Any-sort_by P [] h = absurd h
  Any-sort_by P (x ∷ xs) (inl p) = Any-insert_by_here P x (sort_by xs) p
  Any-sort_by P (x ∷ xs) (inr h) = Any-insert_by P x (sort_by xs) (Any-sort_by P xs h)

  module _ (total : (x y : A) → le x y ≡ false → le y x ≡ true)
      (trans : (x y z : A) → le x y ≡ true → le y z ≡ true → le x z ≡ true) where
    All-trans :
        (x y : A) (ys : List A)
        → le x y ≡ true
        → All (λ z. le y z ≡ true) ys
        → All (λ z. le x z ≡ true) ys
    All-trans x y [] h k = tt
    All-trans x y (z ∷ ys) h (k, ks) = (trans x y z h k, All-trans x y ys h ks)

    insert_by-IsSorted : (x : A) (ys : List A) → IsSorted ys → IsSorted (insert_by x ys)
    unfolding insert_by
    insert_by-IsSorted x [] h = (tt, tt)
    insert_by-IsSorted x (y ∷ ys) (h, k) = elim (Bool-cases (le x y)) [
      | inl e ↦ rw (e, insert_by) ((e, All-trans x y ys e h), (h, k))
      | inr e ↦
          rw (e, insert_by)
            (All-insert_by (λ z. le y z ≡ true) x ys (total x y e) h, insert_by-IsSorted x ys k)
    ]

    pub sort_by-IsSorted : (xs : List A) → IsSorted (sort_by xs)
    unfolding sort_by
    sort_by-IsSorted [] = tt
    sort_by-IsSorted (x ∷ xs) = insert_by-IsSorted x (sort_by xs) (sort_by-IsSorted xs)
