-- ===== src/Mock/Trie/Verbs.antt =====
-- The verbs that a failed search collects, and the `Allow` list made of them.
use restest.Base.{
  ◌≡◌, refl, ◌⊎◌, inl, inr, Bool, true, false, ◌&&◌, ◌||◌, List, [], ◌∷◌, ◌++◌, map, Option, none,
  some, arith, if◌then◌else◌, Bool-cases, Bytes, codes, same, same_iff, contains, lookup, insert_by,
  sort_by,
}
use restest.Mock.Trie.{add_method, add_methods}
use restest.Mock.Trie.Answer.{with_head, allowed, method_le}
use restest.Mock.Trie.Shapes.{
  literal, param, Shape, Routes, Candidate, by_literal, by_param, candidates, verbs,
}
use restest.Mock.Trie.Fits.{Fits, done, exactly, anything}

abbrev pub defined {ℓ} : {A : Type ℓ} → Option A → Bool
defined none = false
defined (some _) = true

contains-add_method :
    (k m : Bytes) (xs : List Bytes)
    → contains k (add_method m xs) ≡ (if same m k then true else contains k xs)
unfolding contains add_method
contains-add_method k m [] = refl
contains-add_method k m (x ∷ xs) =
    ground (arith, same_iff m k, same_iff x k, same_iff x m, contains-add_method k m xs)

contains-add_methods :
    (k : Bytes) (rs : Routes) (xs : List Bytes)
    → contains k (add_methods rs xs) ≡ (if contains k xs then true else defined (lookup k rs))
unfolding add_methods lookup
contains-add_methods k [] xs = ground arith
contains-add_methods k ((m, r) ∷ rs) xs =
    ground (arith, contains-add_methods k rs (add_method m xs), contains-add_method k m xs)

-- A shape that fits the segments has a route for the verb.
pub record Offered (at : Shape → Routes) (segs : List Bytes) (k : Bytes) : Type 0 where
  pub shape : Shape
  pub values : List Bytes
  pub fits : Fits shape segs values
  pub there : defined (lookup k (at shape)) ≡ true

verbs-append :
    (at : Shape → Routes) (xs ys : List Candidate) (allow : List Bytes)
    → verbs at (xs ++ ys) allow ≡ verbs at ys (verbs at xs allow)
unfolding verbs
verbs-append at [] ys allow = refl
verbs-append at ((c, vs) ∷ xs) ys allow = verbs-append at xs ys (add_methods (at c) allow)

verbs-literal :
    (at : Shape → Routes) (s : Bytes) (xs : List Candidate) (allow : List Bytes)
    → verbs at (map (by_literal s) xs) allow ≡ verbs (λ c. at (literal s ∷ c)) xs allow
unfolding verbs
verbs-literal at s [] allow = refl
verbs-literal at s ((c, vs) ∷ xs) allow =
    verbs-literal at s xs (add_methods (at (literal s ∷ c)) allow)

verbs-param :
    (at : Shape → Routes) (s : Bytes) (xs : List Candidate) (allow : List Bytes)
    → verbs at (map (by_param s) xs) allow ≡ verbs (λ c. at (param ∷ c)) xs allow
unfolding verbs
verbs-param at s [] allow = refl
verbs-param at s ((c, vs) ∷ xs) allow = verbs-param at s xs (add_methods (at (param ∷ c)) allow)

verbs-candidates :
    (at : Shape → Routes) (s : Bytes) (segs allow : List Bytes)
    → verbs at (candidates (s ∷ segs)) allow
      ≡ verbs
          (λ c. at (param ∷ c))
          (candidates segs)
          (verbs (λ c. at (literal s ∷ c)) (candidates segs) allow)
unfolding candidates
verbs-candidates at s segs allow =
    let xs : List Candidate = candidates segs in
    ground (
      arith,
      verbs-append at (map (by_literal s) xs) (map (by_param s) xs) allow,
      verbs-literal at s xs allow,
      verbs-param at s xs (verbs at (map (by_literal s) xs) allow),
    )

module _ (k : Bytes) where
  verbs_keep :
      (at : Shape → Routes) (xs : List Candidate) (allow : List Bytes)
      → contains k allow ≡ true
      → contains k (verbs at xs allow) ≡ true
  unfolding verbs
  verbs_keep at [] allow h = h
  verbs_keep at ((c, vs) ∷ xs) allow h =
      verbs_keep at xs (add_methods (at c) allow)
        (ground (arith, contains-add_methods k (at c) allow))

  pub verbs_sound :
      (at : Shape → Routes) (segs allow : List Bytes)
      → contains k (verbs at (candidates segs) allow) ≡ true
      → (contains k allow ≡ true) ⊎ Offered at segs k
  unfolding candidates verbs
  verbs_sound at [] allow h = elim (Bool-cases (contains k allow)) [
    | inl old ↦ inl old
    | inr new ↦ inr (record {
      shape = [];
      values = [];
      fits = done;
      there = ground (arith, contains-add_methods k (at []) allow);
    })
  ]
  verbs_sound at (s ∷ segs) allow h =
      let mid : List Bytes = verbs (λ c. at (literal s ∷ c)) (candidates segs) allow in
      elim (verbs_sound (λ c. at (param ∷ c)) segs mid
        (ground (arith, verbs-candidates at s segs allow))) [
          | inr o ↦ inr (record {
            shape = param ∷ o.shape;
            values = s ∷ o.values;
            fits = anything o.fits;
            there = o.there;
          })
          | inl e ↦ elim (verbs_sound (λ c. at (literal s ∷ c)) segs allow e) [
            | inl old ↦ inl old
            | inr o ↦ inr (record {
              shape = literal s ∷ o.shape;
              values = o.values;
              fits = exactly o.fits;
              there = o.there;
            })
          ]
        ]

  pub verbs_complete :
      (at : Shape → Routes) {c : Shape} {segs vs : List Bytes} (allow : List Bytes)
      → Fits c segs vs
      → defined (lookup k (at c)) ≡ true
      → contains k (verbs at (candidates segs) allow) ≡ true
  unfolding candidates verbs
  verbs_complete at allow done h = ground (arith, contains-add_methods k (at []) allow)
  verbs_complete at allow (exactly {s} {c} {segs} f) h =
      let mid : List Bytes = verbs (λ d. at (literal s ∷ d)) (candidates segs) allow in
      ground (
        arith,
        verbs-candidates at s segs allow,
        verbs_keep (λ d. at (param ∷ d)) (candidates segs) mid
            (verbs_complete (λ d. at (literal s ∷ d)) allow f h),
      )
  verbs_complete at allow (anything {s} {c} {segs} f) h =
      let mid : List Bytes = verbs (λ d. at (literal s ∷ d)) (candidates segs) allow in
      ground (arith, verbs-candidates at s segs allow, verbs_complete (λ d. at (param ∷ d)) mid f h)

contains-insert_by :
    (k x : Bytes) (ys : List Bytes)
    → contains k (insert_by method_le x ys) ≡ (if same x k then true else contains k ys)
unfolding contains insert_by
contains-insert_by k x [] = refl
contains-insert_by k x (y ∷ ys) = ground (arith, contains-insert_by k x ys)

contains-sort_by : (k : Bytes) (xs : List Bytes) → contains k (sort_by method_le xs) ≡ contains k xs
unfolding contains sort_by
contains-sort_by k [] = refl
contains-sort_by k (x ∷ xs) =
    ground (arith, contains-insert_by k x (sort_by method_le xs), contains-sort_by k xs)

-- HEAD is listed beside GET, and nothing else is added or lost.
pub contains-allowed :
    (k : Bytes) (xs : List Bytes)
    → contains k (allowed xs)
      ≡ (contains k xs || (same (codes "HEAD") k && contains (codes "GET") xs))
unfolding allowed with_head contains
contains-allowed k [] = ground arith
contains-allowed k (x ∷ xs) =
    ground (
      arith,
      contains-sort_by k (with_head (x ∷ xs)),
      contains-add_method k (codes "HEAD") (x ∷ xs),
    )
