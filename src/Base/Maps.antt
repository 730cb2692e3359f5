-- ===== src/Base/Maps.antt =====
-- Go maps with string keys, as association lists.
use Prim.Native.Nat.{suc}
use mathlib.Core.Logic.{inl, inr}
use mathlib.Core.Path.{◌≡◌, refl}
use mathlib.Core.Option.{Option, none, some}
use mathlib.Core.List.{List, [], ◌∷◌}
use native.Mathlib.Omega.{arith}
use restest.Base.Tests.{if◌then◌else◌, Bool-cases}
use restest.Base.Lists.{length, All}
use restest.Base.Text.{Bytes, same, same_iff, same_refl}

module _ {ℓ} {V : Type ℓ} where
  unfoldable pub lookup : Bytes → List (Bytes × V) → Option V
  lookup k [] = none
  lookup k ((j, v) ∷ m) = if same j k then some v else lookup k m

  -- `m[k] = v`
  unfoldable pub put : Bytes → V → List (Bytes × V) → List (Bytes × V)
  put k v [] = (k, v) ∷ []
  put k v ((j, w) ∷ m) = if same j k then (k, v) ∷ m else (j, w) ∷ put k v m

  pub lookup-put :
      (k j : Bytes) (v : V) (m : List (Bytes × V))
      → lookup j (put k v m) ≡ (if same k j then some v else lookup j m)
  unfolding lookup put
  lookup-put k j v [] = refl
  lookup-put k j v ((i, w) ∷ m) =
      ground (arith, same_iff k j, same_iff i k, same_iff i j, lookup-put k j v m)

  pub lookup-put_self : (k : Bytes) (v : V) (m : List (Bytes × V)) → lookup k (put k v m) ≡ some v
  lookup-put_self k v m = simp (lookup-put, same_refl)

module _ {V : Type 0} where
  -- No key is twice in the table.
  abbrev pub HasKeysOnce : List (Bytes × V) → Type 0
  HasKeysOnce [] = Unit
  HasKeysOnce ((key, v) ∷ m) = (lookup key m ≡ none) × HasKeysOnce m

  pub put-HasKeysOnce :
      (key : Bytes) (v : V) (m : List (Bytes × V)) → HasKeysOnce m → HasKeysOnce (put key v m)
  unfolding put lookup
  put-HasKeysOnce key v [] h = (refl, tt)
  put-HasKeysOnce key v ((j, w) ∷ m) (h, hs) = elim (Bool-cases (same j key)) [
    | inl e ↦ rw e (ground (arith, same_iff j key), hs)
    | inr e ↦ rw e (
      ground (arith, same_iff j key, same_iff key j, lookup-put key j v m),
      put-HasKeysOnce key v m hs,
    )
  ]

  pub length-put_new :
      (key : Bytes) (v : V) (m : List (Bytes × V))
      → lookup key m ≡ none
      → length (put key v m) ≡ suc (length m)
  unfolding put lookup
  length-put_new key v [] h = refl
  length-put_new key v ((j, w) ∷ m) h = ground (arith, length-put_new key v m)

  pub length-put_old :
      (key : Bytes) (v w : V) (m : List (Bytes × V))
      → lookup key m ≡ some w
      → length (put key v m) ≡ length m
  unfolding put lookup
  length-put_old key v w [] h = cc
  length-put_old key v w ((j, u) ∷ m) h = ground (arith, length-put_old key v w m)

  pub All-put :
      (P : Bytes × V → Type 0) (key : Bytes) (v : V) (m : List (Bytes × V))
      → P (key, v)
      → All P m
      → All P (put key v m)
  unfolding put
  All-put P key v [] p h = (p, tt)
  All-put P key v ((j, w) ∷ m) p (q, h) = elim (Bool-cases (same j key)) [
    | inl e ↦ rw e (p, h)
    | inr e ↦ rw e (q, All-put P key v m p h)
  ]

  -- The map without a key.
  unfoldable pub drop_key : Bytes → List (Bytes × V) → List (Bytes × V)
  unfolding same
  drop_key key [] = []
  drop_key key ((j, w) ∷ m) =
      let rest = drop_key key m in if same j key then rest else (j, w) ∷ rest

  pub lookup-drop_key :
      (key j : Bytes) (m : List (Bytes × V))
      → lookup j (drop_key key m) ≡ (if same key j then none else lookup j m)
  unfolding lookup drop_key
  lookup-drop_key key j [] = ground arith
  lookup-drop_key key j ((i, w) ∷ m) =
      ground (arith, same_iff i key, same_iff i j, same_iff key j, lookup-drop_key key j m)

  pub All-drop_key :
      (P : Bytes × V → Type 0) (key : Bytes) (m : List (Bytes × V))
      → All P m
      → All P (drop_key key m)
  unfolding drop_key
  All-drop_key P key [] h = tt
  All-drop_key P key ((j, w) ∷ m) (p, h) = elim (Bool-cases (same j key)) [
    | inl e ↦ rw e (All-drop_key P key m h)
    | inr e ↦ rw e (p, All-drop_key P key m h)
  ]

  pub drop_key-HasKeysOnce :
      (key : Bytes) (m : List (Bytes × V)) → HasKeysOnce m → HasKeysOnce (drop_key key m)
  unfolding drop_key
  drop_key-HasKeysOnce key [] h = tt
  drop_key-HasKeysOnce key ((j, w) ∷ m) (h, hs) = elim (Bool-cases (same j key)) [
    | inl e ↦ rw e (drop_key-HasKeysOnce key m hs)
    | inr e ↦ rw e (ground (arith, lookup-drop_key key j m), drop_key-HasKeysOnce key m hs)
  ]
