-- ===== src/Mock/Nearest/Order.antt =====
-- internal/mock/nearest.go, the comparison in `nearest`: a total order, read from its result.
use restest.Base.{
  ℕ, ◌<◌, ◌≡◌, ◌≢◌, ◌⊎◌, inl, inr, Bool, true, false, Bool-cases, same, arith, Bytes, same_iff,
  bytes_le, bytes_le_total, bytes_le_trans, bytes_le_antisym,
}
use restest.Mock.Nearest.{ScoredRef, scored_le, le_then, text_le_then}

le_then_total :
    (a b : ℕ) (p q : Bool) → (p ≡ false → q ≡ true) → le_then a b p ≡ false → le_then b a q ≡ true
le_then_total a b p q h k = ground arith

le_then_trans :
    (a b c : ℕ) (p q r : Bool)
    → (p ≡ true → q ≡ true → r ≡ true)
    → le_then a b p ≡ true
    → le_then b c q ≡ true
    → le_then a c r ≡ true
le_then_trans a b c p q r h k l = ground arith

-- The same for a number that is compared the other way round.
le_then_trans_down :
    (a b c : ℕ) (p q r : Bool)
    → (p ≡ true → q ≡ true → r ≡ true)
    → le_then b a p ≡ true
    → le_then c b q ≡ true
    → le_then c a r ≡ true
le_then_trans_down a b c p q r h k l = ground arith

text_le_then_total :
    (s t : Bytes) (p q : Bool)
    → (p ≡ false → q ≡ true)
    → text_le_then s t p ≡ false
    → text_le_then t s q ≡ true
unfolding text_le_then
text_le_then_total s t p q h k = ground (arith, same_iff s t, same_iff t s, bytes_le_total s t)

text_le_then_trans :
    (s t u : Bytes) (p q r : Bool)
    → (p ≡ true → q ≡ true → r ≡ true)
    → text_le_then s t p ≡ true
    → text_le_then t u q ≡ true
    → text_le_then s u r ≡ true
unfolding text_le_then
text_le_then_trans s t u p q r h k l =
    ground
      (arith, same_iff s t, same_iff t u, same_iff s u, bytes_le_trans s t u, bytes_le_antisym s t)

pub scored_le_total : (x y : ScoredRef) → scored_le x y ≡ false → scored_le y x ≡ true
unfolding scored_le
scored_le_total x y = le_then_total y.prefix x.prefix _ _ (
    le_then_total x.edits y.edits _ _ (
      le_then_total x.method y.method _ _
        (text_le_then_total x.ref.path y.ref.path _ _ (bytes_le_total x.ref.method y.ref.method))))

pub scored_le_trans :
    (x y z : ScoredRef) → scored_le x y ≡ true → scored_le y z ≡ true → scored_le x z ≡ true
unfolding scored_le
scored_le_trans x y z = le_then_trans_down x.prefix y.prefix z.prefix _ _ _ (
    le_then_trans x.edits y.edits z.edits _ _ _ (
      le_then_trans x.method y.method z.method _ _ _ (
        text_le_then_trans x.ref.path y.ref.path z.ref.path _ _ _
          (bytes_le_trans x.ref.method y.ref.method z.ref.method))))

pub le_then_inv :
    (a b : ℕ) (rest : Bool) → le_then a b rest ≡ true → (a < b) ⊎ ((a ≡ b) × (rest ≡ true))
le_then_inv a b rest h = ground arith

pub text_le_then_inv :
    (s t : Bytes) (rest : Bool)
    → text_le_then s t rest ≡ true
    → ((s ≢ t) × (bytes_le s t ≡ true)) ⊎ ((s ≡ t) × (rest ≡ true))
unfolding text_le_then
text_le_then_inv s t rest h = elim (Bool-cases (same s t)) [
  | inl e ↦ inr ((same_iff s t).0 e, ground arith)
  | inr e ↦ inl (λ q. cc ((same_iff s t).1 q), ground arith)
]
