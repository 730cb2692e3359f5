-- ===== src/Mock/Trie/Fits.antt =====
-- Which shapes fit a request, which of two is preferred, and what the first answer and the verbs of
-- the candidates are in those terms, for any map from shapes to routes.
use restest.Base.{
  ◌≡◌, refl, inl, inr, List, [], ◌∷◌, ◌++◌, map, Option, none, some, arith, Option-cases, Bytes,
}
use restest.Mock.Route.{Route}
use restest.Mock.Trie.{pick}
use restest.Mock.Trie.Shapes.{
  literal, param, Shape, Routes, Candidate, by_literal, by_param, candidates, first_answer,
}

-- The shape fits the segments, and its parameters take the values.
pub data Fits : Shape → List Bytes → List Bytes → Type 0 where
  done : Fits [] [] []
  exactly :
      {s : Bytes} {c : Shape} {segs vs : List Bytes}
      → Fits c segs vs
      → Fits (literal s ∷ c) (s ∷ segs) vs
  anything :
      {s : Bytes} {c : Shape} {segs vs : List Bytes}
      → Fits c segs vs
      → Fits (param ∷ c) (s ∷ segs) (s ∷ vs)

-- At the first place where they differ, the first shape has a literal and the second a parameter.
abbrev pub Before : Shape → Shape → Type 0
Before (literal s ∷ c) (literal t ∷ d) = (s ≡ t) × Before c d
Before (literal s ∷ c) (param ∷ d) = Unit
Before (param ∷ c) (param ∷ d) = Before c d
Before _ _ = ⊥

abbrev or_else {ℓ} : {A : Type ℓ} → Option A → Option A → Option A
or_else none o = o
or_else (some a) o = some a

abbrev add_value : Bytes → Option (Route × List Bytes) → Option (Route × List Bytes)
add_value s none = none
add_value s (some (r, vs)) = some (r, s ∷ vs)

not-Before-nil : (d : Shape) → Before d [] → ⊥
not-Before-nil [] o = o
not-Before-nil (literal s ∷ d) o = o
not-Before-nil (param ∷ d) o = o

module _ (method : Bytes) where
  first_answer-append :
      (at : Shape → Routes) (xs ys : List Candidate)
      → first_answer method at (xs ++ ys)
        ≡ or_else (first_answer method at xs) (first_answer method at ys)
  unfolding first_answer
  first_answer-append at [] ys = refl
  first_answer-append at ((c, vs) ∷ xs) ys = ground (arith, first_answer-append at xs ys)

  first_answer-literal :
      (at : Shape → Routes) (s : Bytes) (xs : List Candidate)
      → first_answer method at (map (by_literal s) xs)
        ≡ first_answer method (λ c. at (literal s ∷ c)) xs
  unfolding first_answer
  first_answer-literal at s [] = refl
  first_answer-literal at s ((c, vs) ∷ xs) = ground (arith, first_answer-literal at s xs)

  first_answer-param :
      (at : Shape → Routes) (s : Bytes) (xs : List Candidate)
      → first_answer method at (map (by_param s) xs)
        ≡ add_value s (first_answer method (λ c. at (param ∷ c)) xs)
  unfolding first_answer
  first_answer-param at s [] = refl
  first_answer-param at s ((c, vs) ∷ xs) = ground (arith, first_answer-param at s xs)

  -- One segment of the search: the literal, and if nothing answers there, the parameter.
  first_answer-candidates :
      (at : Shape → Routes) (s : Bytes) (segs : List Bytes)
      → first_answer method at (candidates (s ∷ segs))
        ≡ or_else
            (first_answer method (λ c. at (literal s ∷ c)) (candidates segs))
            (add_value s (first_answer method (λ c. at (param ∷ c)) (candidates segs)))
  unfolding candidates
  first_answer-candidates at s segs =
      let xs : List Candidate = candidates segs in
      ground (
        arith,
        first_answer-append at (map (by_literal s) xs) (map (by_param s) xs),
        first_answer-literal at s xs,
        first_answer-param at s xs,
      )

  -- With no answer no shape that fits has a route for the method.
  pub first_answer-none :
      (at : Shape → Routes) {c : Shape} {segs vs : List Bytes}
      → Fits c segs vs
      → first_answer method at (candidates segs) ≡ none
      → pick (at c) method ≡ none
  unfolding candidates first_answer
  first_answer-none at done h = ground arith
  first_answer-none at (exactly {s} {c} {segs} f) h =
      first_answer-none (λ d. at (literal s ∷ d)) f
        (ground (arith, first_answer-candidates at s segs))
  first_answer-none at (anything {s} {c} {segs} f) h =
      first_answer-none (λ d. at (param ∷ d)) f (ground (arith, first_answer-candidates at s segs))

  -- An answer is a route of a shape that fits, and no shape before it has one.
  pub record Best (at : Shape → Routes) (segs : List Bytes) (r : Route) (values : List Bytes)
      : Type 0 where
    pub shape : Shape
    pub fits : Fits shape segs values
    pub picked : pick (at shape) method ≡ some r
    pub first :
        (d : Shape) (vs : List Bytes) → Fits d segs vs → Before d shape → pick (at d) method ≡ none

  -- No shape comes before the literal but those that begin with the same literal.
  first-literal :
      (at : Shape → Routes) {s : Bytes} {segs us : List Bytes} {d e : Shape}
      → ((c : Shape) (vs : List Bytes)
          → Fits c segs vs
          → Before c e
          → pick (at (literal s ∷ c)) method ≡ none)
      → Fits d (s ∷ segs) us
      → Before d (literal s ∷ e)
      → pick (at d) method ≡ none
  first-literal at h (exactly f) (_, o) = h _ _ f o
  first-literal at h (anything f) o = absurd o

  first-param :
      (at : Shape → Routes) {s : Bytes} {segs us : List Bytes} {d e : Shape}
      → first_answer method (λ c. at (literal s ∷ c)) (candidates segs) ≡ none
      → ((c : Shape) (vs : List Bytes)
          → Fits c segs vs
          → Before c e
          → pick (at (param ∷ c)) method ≡ none)
      → Fits d (s ∷ segs) us
      → Before d (param ∷ e)
      → pick (at d) method ≡ none
  first-param at {s} n h (exactly f) o = first_answer-none (λ c. at (literal s ∷ c)) f n
  first-param at n h (anything f) o = h _ _ f o

  Best-literal :
      (at : Shape → Routes) (s : Bytes) {segs vs : List Bytes} {r : Route}
      → Best (λ c. at (literal s ∷ c)) segs r vs
      → Best at (s ∷ segs) r vs
  Best-literal at s b = record {
    shape = literal s ∷ b.shape;
    fits = exactly b.fits;
    picked = b.picked;
    first = λ d us f o. first-literal at b.first f o;
  }

  Best-param :
      (at : Shape → Routes) (s : Bytes) {segs vs : List Bytes} {r : Route}
      → first_answer method (λ c. at (literal s ∷ c)) (candidates segs) ≡ none
      → Best (λ c. at (param ∷ c)) segs r vs
      → Best at (s ∷ segs) r (s ∷ vs)
  Best-param at s n b = record {
    shape = param ∷ b.shape;
    fits = anything b.fits;
    picked = b.picked;
    first = λ d us f o. first-param at n b.first f o;
  }

  pub first_answer-Best :
      (at : Shape → Routes) (segs : List Bytes) (r : Route) (vs : List Bytes)
      → first_answer method at (candidates segs) ≡ some (r, vs)
      → Best at segs r vs
  unfolding candidates first_answer
  first_answer-Best at [] r vs h =
      let no_values : vs ≡ [] = ground arith in
      rw no_values (record {
        shape = [];
        fits = done;
        picked = ground arith;
        first = λ d us f o. absurd (not-Before-nil d o);
      })
  first_answer-Best at (s ∷ segs) r vs h =
      let at_literal : Shape → Routes = λ c. at (literal s ∷ c) in
      let at_param : Shape → Routes = λ c. at (param ∷ c) in
      let split = first_answer-candidates at s segs in
      elim (Option-cases (first_answer method at_literal (candidates segs))) [
        | inr ((q, us), e) ↦
            Best-literal at s (first_answer-Best at_literal segs r vs (ground (arith, split)))
        | inl missed ↦ elim (Option-cases (first_answer method at_param (candidates segs))) [
          | inl none_ ↦ absurd (ground (arith, split))
          | inr ((q, us), e) ↦
              let same_route : r ≡ q = ground (arith, split) in
              let same_values : vs ≡ s ∷ us = ground (arith, split) in
              rw (same_route, same_values)
                (Best-param at s missed (first_answer-Best at_param segs q us e))
        ]
      ]
