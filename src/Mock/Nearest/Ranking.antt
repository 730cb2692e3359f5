-- ===== src/Mock/Nearest/Ranking.antt =====
-- internal/mock/nearest.go, `nearest`: the order of the suggestions.
use mathlib.Core.List.{Perm}
use mathlib.Core.List.Perm
use restest.Base.{
  ℕ, suc, ◌<◌, ◌≡◌, refl, sym, ap, subst, ap₂, zero, not, ◌&&◌, All-sort_by, sort_by, ◌≢◌, ◌⊎◌, inl,
  inr, true, false, Bool-cases, List, [], ◌∷◌, All, runes, same, map, take, Bytes, same_iff,
  bytes_le, sort_by-Perm, sort_by-IsSorted, IsSorted,
}
use restest.Paths.{split_path}
use restest.Mock.Route.{method_any}
use restest.Mock.Trie.{is_param}
use restest.Mock.Nearest.Distance.{IsDistance, edit_distance-IsDistance}
use restest.Mock.Nearest.{
  Ref, ScoredRef, bool_order, common_prefix, score, scored_le, ranked, nearest,
}
use restest.Mock.Nearest.Order.{scored_le_total, scored_le_trans, le_then_inv, text_le_then_inv}

-- The segments that a path and a pattern share from the left; a parameter agrees with any.
pub data Shares : List Bytes → List Bytes → ℕ → Type 0 where
  no_segment : (pattern : List Bytes) → Shares [] pattern 0
  no_part : (wanted : List Bytes) → Shares wanted [] 0
  differs :
      (w p : Bytes) (wanted pattern : List Bytes)
      → p ≢ w
      → is_param p ≡ false
      → Shares (w ∷ wanted) (p ∷ pattern) 0
  agrees :
      (w p : Bytes) {wanted pattern : List Bytes} {n : ℕ}
      → (p ≡ w) ⊎ (is_param p ≡ true)
      → Shares wanted pattern n
      → Shares (w ∷ wanted) (p ∷ pattern) (suc n)

-- What is compared of a route: the segments shared with the path, the edits between the two paths,
-- and 0 where the verb is the one asked for or any, 1 where it is not.
pub record Looks (method path : Bytes) (r : Ref) (shared edits mark : ℕ) : Type 0 where
  pub shares : Shares (split_path path) (split_path r.path) shared
  pub distance : IsDistance (runes path) (runes r.path) edits
  pub verb :
      ((mark ≡ 0) × ((r.method ≡ method) ⊎ (r.method ≡ method_any)))
      ⊎ ((mark ≡ 1) × (r.method ≢ method) × (r.method ≢ method_any))

-- One route stands before another, or with it: more segments shared, then fewer edits, then the verb,
-- then the smaller path and the smaller verb as texts.
abbrev pub IsCloser : Ref → Ref → ℕ × (ℕ × ℕ) → ℕ × (ℕ × ℕ) → Type 0
IsCloser r s (p, (d, v)) (q, (e, w)) =
    (q < p)
    ⊎ ((q ≡ p)
        × ((d < e)
            ⊎ ((d ≡ e)
                × ((v < w)
                    ⊎ ((v ≡ w)
                        × (((r.path ≢ s.path) × (bytes_le r.path s.path ≡ true))
                            ⊎ ((r.path ≡ s.path) × (bytes_le r.method s.method ≡ true))))))))

pub record Precedes (method path : Bytes) (r s : Ref) : Type 0 where
  pub marks : ℕ × (ℕ × ℕ)
  pub marks' : ℕ × (ℕ × ℕ)
  pub looks : Looks method path r marks.0 marks.1.0 marks.1.1
  pub looks' : Looks method path s marks'.0 marks'.1.0 marks'.1.1
  pub closer : IsCloser r s marks marks'

-- Every route precedes each of those behind it.
abbrev pub IsRanked : Bytes → Bytes → List Ref → Type 0
IsRanked method path [] = Unit
IsRanked method path (r ∷ rs) = All (Precedes method path r) rs × IsRanked method path rs

common_prefix-Shares :
    (wanted pattern : List Bytes) → Shares wanted pattern (common_prefix wanted pattern)
unfolding common_prefix
common_prefix-Shares [] [] = no_segment []
common_prefix-Shares [] (p ∷ pattern) = no_segment (p ∷ pattern)
common_prefix-Shares (w ∷ wanted) [] = no_part (w ∷ wanted)
common_prefix-Shares (w ∷ wanted) (p ∷ pattern) = elim (Bool-cases (same p w)) [
  | inl e ↦ rw e (agrees w p (inl ((same_iff p w).0 e)) (common_prefix-Shares wanted pattern))
  | inr e ↦ elim (Bool-cases (is_param p)) [
    | inl k ↦ rw (e, k) (agrees w p (inr k) (common_prefix-Shares wanted pattern))
    | inr k ↦ rw (e, k) (differs w p wanted pattern (λ q. cc ((same_iff p w).1 q)) k)
  ]
]

VerbMark : Bytes → Bytes → Type 0
VerbMark m method =
    (let v = bool_order (not (same m method) && not (same m method_any)) in
      ((v ≡ 0) × ((m ≡ method) ⊎ (m ≡ method_any))) ⊎ ((v ≡ 1) × (m ≢ method) × (m ≢ method_any)))

verb_marked : (m method : Bytes) → VerbMark m method
unfolding VerbMark
verb_marked m method = elim (Bool-cases (same m method)) [
  | inl e ↦ rw e (inl (refl, inl ((same_iff m method).0 e)))
  | inr e ↦ elim (Bool-cases (same m method_any)) [
    | inl k ↦ rw (e, k) (inl (refl, inr ((same_iff m method_any).0 k)))
    | inr k ↦
        rw (e, k)
          (inr (refl, λ q. cc ((same_iff m method).1 q), λ q. cc ((same_iff m method_any).1 q)))
  ]
]

score-Looks :
    (method path : Bytes) (r : Ref)
    → (let s = score method path (split_path path) r in
        Looks method path r s.prefix s.edits s.method)
unfolding score VerbMark
score-Looks method path r = record {
  shares = common_prefix-Shares (split_path path) (split_path r.path);
  distance = edit_distance-IsDistance (runes path) (runes r.path);
  verb = verb_marked r.method method;
}

scored_le-IsCloser :
    (a b : ScoredRef)
    → scored_le a b ≡ true
    → IsCloser a.ref b.ref (a.prefix, (a.edits, a.method)) (b.prefix, (b.edits, b.method))
unfolding scored_le
scored_le-IsCloser a b h = elim (le_then_inv b.prefix a.prefix _ h) [
  | inl l ↦ inl l
  | inr (e, h) ↦ inr (
    e,
    elim (le_then_inv a.edits b.edits _ h) [
      | inl l ↦ inl l
      | inr (e, h) ↦ inr (
        e,
        elim (le_then_inv a.method b.method _ h) [
          | inl l ↦ inl l
          | inr (e, h) ↦ inr (e, text_le_then_inv a.ref.path b.ref.path _ h)
        ],
      )
    ],
  )
]

module _ (method path : Bytes) where
  abbrev scored : Ref → ScoredRef
  scored r = score method path (split_path path) r

  IsScore : ScoredRef → Type 0
  IsScore s = s ≡ scored s.ref

  scored-ref : (r : Ref) → (scored r).ref ≡ r
  unfolding score
  scored-ref r = refl

  All-IsScore : (rs : List Ref) → All IsScore (map scored rs)
  unfolding IsScore
  All-IsScore [] = tt
  All-IsScore (r ∷ rs) = (ap scored (sym (scored-ref r)), All-IsScore rs)

  Precedes-of :
      (a b : ScoredRef)
      → IsScore a
      → IsScore b
      → scored_le a b ≡ true
      → Precedes method path a.ref b.ref
  unfolding IsScore
  Precedes-of a b p q h = record {
    marks = (a.prefix, (a.edits, a.method));
    marks' = (b.prefix, (b.edits, b.method));
    looks =
        subst (λ s. Looks method path a.ref s.prefix s.edits s.method) (sym p)
          (score-Looks method path a.ref);
    looks' =
        subst (λ s. Looks method path b.ref s.prefix s.edits s.method) (sym q)
          (score-Looks method path b.ref);
    closer = scored_le-IsCloser a b h;
  }

  All-Precedes :
      (a : ScoredRef) (xs : List ScoredRef)
      → IsScore a
      → All IsScore xs
      → All (λ b. scored_le a b ≡ true) xs
      → All (Precedes method path a.ref) (map (λ s. s.ref) xs)
  All-Precedes a [] p ps h = tt
  All-Precedes a (b ∷ xs) p (q, ps) (h, hs) = (Precedes-of a b p q h, All-Precedes a xs p ps hs)

  IsSorted-IsRanked :
      (xs : List ScoredRef)
      → All IsScore xs
      → IsSorted scored_le xs
      → IsRanked method path (map (λ s. s.ref) xs)
  IsSorted-IsRanked [] ps h = tt
  IsSorted-IsRanked (a ∷ xs) (p, ps) (h, hs) =
      (All-Precedes a xs p ps h, IsSorted-IsRanked xs ps hs)

  map-scored : (rs : List Ref) → map (λ s. s.ref) (map scored rs) ≡ rs
  map-scored [] = refl
  map-scored (r ∷ rs) = ap₂ ◌∷◌ (scored-ref r) (map-scored rs)

map-take :
    (n : ℕ) (xs : List ScoredRef) → map (λ s. s.ref) (take n xs) ≡ take n (map (λ s. s.ref) xs)
map-take zero xs = refl
map-take (suc n) [] = refl
map-take (suc n) (x ∷ xs) = ap (λ l. x.ref ∷ l) (map-take n xs)

-- The suggestions: the first of all the routes, in the order in which they look closest.
pub record Ranking (routes : List Ref) (method path : Bytes) (limit : ℕ) : Type 0 where
  pub order : List Ref
  pub all : Perm order routes
  pub ranked : IsRanked method path order
  pub taken : nearest routes method path limit ≡ take limit order

-- The suggestions are the first of the project's routes, as many as the limit or all, in an order in
-- which every route precedes those behind it: the longer run of segments shared with the path, a
-- parameter agreeing with any, then the least number of edits between the paths, then a verb that is
-- the one asked for or any, then the path and the verb as texts; none is lost, none is made up.
pub nearest-Ranking :
    (routes : List Ref) (method path : Bytes) (limit : ℕ) → Ranking routes method path limit
unfolding nearest ranked
nearest-Ranking routes method path limit =
    let scores : List ScoredRef = map (scored method path) routes in
    record {
      order = map (λ s. s.ref) (ranked routes method path);
      all =
          subst (Perm (map (λ s. s.ref) (sort_by scored_le scores))) (map-scored method path routes)
            (Perm.map (λ s. s.ref) (sort_by-Perm scored_le scores));
      ranked =
          IsSorted-IsRanked method path (sort_by scored_le scores)
            (All-sort_by scored_le (IsScore method path) scores (All-IsScore method path routes))
            (sort_by-IsSorted scored_le scored_le_total scored_le_trans scores);
      taken = map-take limit (ranked routes method path);
    }
