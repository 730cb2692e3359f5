-- ===== src/Mock/Trie/Walk.antt =====
-- `walk` is the traversal of the candidates in their order.
use restest.Base.{
  ◌≡◌, refl, sym, ap, ◌∙◌, true, List, [], ◌∷◌, ◌++◌, map, Option, none, some, arith, append-nil,
  append_assoc, Option-cases, inl, inr, drop_last-append, Bytes,
}
use restest.Mock.Route.{Route}
use restest.Mock.Trie.{
  Node, node, Link, no_param, to, Children, Search, find_child, pick, arrive, found, push, pop,
  walk, walk_children, walk_param, add_methods,
}
use restest.Mock.Trie.Shapes.{
  Shape, literal, param, Routes, Candidate, find, by_literal, by_param, candidates, visit,
  visit_all, first_answer, verbs,
}

pop-push : (seg : Bytes) (s : Search) → pop (push seg s) ≡ s
pop-push seg s = ground (arith, drop_last-append s.values seg)

find-literal_none :
    (cs : Children) (p : Link) (rs : Routes) (seg : Bytes) (c : Shape)
    → find_child seg cs ≡ none
    → find (node cs p rs) (literal seg ∷ c) ≡ []
unfolding find
find-literal_none cs p rs seg c h = ground arith

find-literal_some :
    (cs : Children) (p : Link) (rs : Routes) (seg : Bytes) (n : Node) (c : Shape)
    → find_child seg cs ≡ some n
    → find (node cs p rs) (literal seg ∷ c) ≡ find n c
unfolding find
find-literal_some cs p rs seg n c h = ground arith

module _ (method : Bytes) where
  visit-found :
      (at : Shape → Routes) (x : Candidate) (s : Search) → found s ≡ true → visit method at x s ≡ s
  unfolding visit
  visit-found at (c, vs) s h = rw h

  pub visit_all-found :
      (at : Shape → Routes) (xs : List Candidate) (s : Search)
      → found s ≡ true
      → visit_all method at xs s ≡ s
  unfolding visit_all
  visit_all-found at [] s h = refl
  visit_all-found at (x ∷ xs) s h =
      ap (visit_all method at xs) (visit-found at x s h) ∙ visit_all-found at xs s h

  visit_all-append :
      (at : Shape → Routes) (xs ys : List Candidate) (s : Search)
      → visit_all method at (xs ++ ys) s ≡ visit_all method at ys (visit_all method at xs s)
  unfolding visit_all
  visit_all-append at [] ys s = refl
  visit_all-append at (x ∷ xs) ys s = visit_all-append at xs ys (visit method at x s)

  -- A shape with no routes is passed over.
  visit-nothing :
      (at : Shape → Routes) (c : Shape) (vs : List Bytes) (s : Search)
      → at c ≡ []
      → visit method at (c, vs) s ≡ s
  unfolding visit arrive
  visit-nothing at c vs s h = ground arith

  -- Two maps that agree on a part of the candidates agree on its traversal.
  module _ (at at' : Shape → Routes) (seg : Bytes) where
    visit_all-literal :
        (xs : List Candidate) (s : Search)
        → ((c : Shape) → at (literal seg ∷ c) ≡ at' c)
        → visit_all method at (map (by_literal seg) xs) s ≡ visit_all method at' xs s
    unfolding visit_all visit
    visit_all-literal [] s h = refl
    visit_all-literal ((c, vs) ∷ xs) s h =
        ground (arith, h c, visit_all-literal xs (visit method at' (c, vs) s) h)

    visit-param :
        (c : Shape) (vs : List Bytes) (s : Search)
        → ((c : Shape) → at (param ∷ c) ≡ at' c)
        → visit method at' (c, vs) (push seg s) ≡ push seg (visit method at (param ∷ c, seg ∷ vs) s)
    unfolding visit
    visit-param c vs s h = ground (arith, h c, append_assoc s.values (seg ∷ []) vs)

    visit_all-param :
        (xs : List Candidate) (s : Search)
        → ((c : Shape) → at (param ∷ c) ≡ at' c)
        → visit_all method at' xs (push seg s)
          ≡ push seg (visit_all method at (map (by_param seg) xs) s)
    unfolding visit_all
    visit_all-param [] s h = refl
    visit_all-param ((c, vs) ∷ xs) s h =
        ap (visit_all method at' xs) (visit-param c vs s h)
        ∙ visit_all-param xs (visit method at (param ∷ c, seg ∷ vs) s) h

  -- Shapes with no routes leave the traversal where it is.
  visit_all-nothing :
      (at : Shape → Routes) (seg : Bytes) (xs : List Candidate) (s : Search)
      → ((c : Shape) → at (literal seg ∷ c) ≡ [])
      → visit_all method at (map (by_literal seg) xs) s ≡ s
  unfolding visit_all
  visit_all-nothing at seg [] s h = refl
  visit_all-nothing at seg ((c, vs) ∷ xs) s h =
      ap (visit_all method at (map (by_literal seg) xs))
        (visit-nothing at (literal seg ∷ c) vs s (h c))
      ∙ visit_all-nothing at seg xs s h

  visit_all-nothing_param :
      (at : Shape → Routes) (seg : Bytes) (xs : List Candidate) (s : Search)
      → ((c : Shape) → at (param ∷ c) ≡ [])
      → visit_all method at (map (by_param seg) xs) s ≡ s
  unfolding visit_all
  visit_all-nothing_param at seg [] s h = refl
  visit_all-nothing_param at seg ((c, vs) ∷ xs) s h =
      ap (visit_all method at (map (by_param seg) xs))
        (visit-nothing at (param ∷ c) (seg ∷ vs) s (h c))
      ∙ visit_all-nothing_param at seg xs s h

  -- One step of the walk, for any two functions that agree on the children.
  module _ (seg : Bytes) (xs : List Candidate) (go : Node → Search → Search)
      (same : (n : Node) (s : Search) → go n s ≡ visit_all method (find n) xs s) where
    walk_param-visit_all :
        (cs : Children) (p : Link) (rs : Routes) (s : Search)
        → walk_param go seg p s ≡ visit_all method (find (node cs p rs)) (map (by_param seg) xs) s
    unfolding walk_param find
    walk_param-visit_all cs no_param rs s =
        sym (visit_all-nothing_param (find (node cs no_param rs)) seg xs s (λ c. refl))
    walk_param-visit_all cs (to n) rs s =
        ap pop (
          same n (push seg s)
          ∙ visit_all-param (find (node cs (to n) rs)) (find n) seg xs s (λ c. refl))
        ∙ pop-push seg _

    walk_children-visit_all :
        (n : Node) (s : Search)
        → walk_children go seg n s
          ≡ visit_all method (find n) (map (by_literal seg) xs ++ map (by_param seg) xs) s
    unfolding walk_children
    walk_children-visit_all (node cs p rs) s =
        let at : Shape → Routes = find (node cs p rs) in
        let split : visit_all method at (map (by_literal seg) xs ++ map (by_param seg) xs) s
            ≡ visit_all method at (map (by_param seg) xs)
                (visit_all method at (map (by_literal seg) xs) s) =
          visit_all-append at (map (by_literal seg) xs) (map (by_param seg) xs) s in
        elim (Option-cases (find_child seg cs)) [
          | inl missing ↦ ground (
            arith,
            split,
            walk_param-visit_all cs p rs s,
            visit_all-nothing at seg xs s (λ c. find-literal_none cs p rs seg c missing),
          )
          | inr (n, there) ↦ ground (
            arith,
            split,
            same n s,
            visit_all-literal at (find n) seg xs s (λ c. find-literal_some cs p rs seg n c there),
            visit_all-found at (map (by_param seg) xs) (go n s),
            walk_param-visit_all cs p rs (go n s),
          )
        ]

  -- `walk` visits every candidate in order, until a route answers.
  pub walk-visit_all :
      (segs : List Bytes) (n : Node) (s : Search)
      → walk method segs n s ≡ visit_all method (find n) (candidates segs) s
  unfolding walk visit_all visit candidates find
  walk-visit_all [] n s = ground (arith, append-nil s.values)
  walk-visit_all (seg ∷ segs) n s = ground (
    arith,
    visit_all-found (find n) (candidates (seg ∷ segs)) s,
    walk_children-visit_all seg (candidates segs) (walk method segs) (walk-visit_all segs) n s,
  )

  arrive-some :
      (rs : Routes) (s : Search) {r : Route}
      → pick rs method ≡ some r
      → arrive method rs s ≡ record s { route = some r; matched = s.values }
  unfolding arrive
  arrive-some [] s h = ground arith
  arrive-some (x ∷ rs) s h = ground arith

  arrive-none :
      (rs : Routes) (s : Search)
      → pick rs method ≡ none
      → arrive method rs s ≡ record s { allow = add_methods rs s.allow }
  unfolding arrive
  arrive-none [] s h = refl
  arrive-none (x ∷ rs) s h = ground arith

  module _ (at : Shape → Routes) (c : Shape) (vs : List Bytes) (s : Search)
      (h : s.route ≡ none) where
    visit-some :
        {r : Route}
        → pick (at c) method ≡ some r
        → visit method at (c, vs) s ≡ record s { route = some r; matched = s.values ++ vs }
    unfolding visit
    visit-some e = ground (arith, arrive-some (at c) (record s { values = s.values ++ vs }) e)

    visit-none :
        pick (at c) method ≡ none
        → visit method at (c, vs) s ≡ record s { allow = add_methods (at c) s.allow }
    unfolding visit
    visit-none e = ground (arith, arrive-none (at c) (record s { values = s.values ++ vs }) e)

  -- What the traversal leaves in the search: the first answer, or the verbs of all candidates.
  abbrev Left : Search → Option (Route × List Bytes) → List Bytes → Search → Type 0
  Left s none allow t = (t.route ≡ none) × (t.allow ≡ allow)
  Left s (some (r, vs)) allow t = (t.route ≡ some r) × (t.matched ≡ s.values ++ vs)

  pub visit_all-Left :
      (at : Shape → Routes) (xs : List Candidate) (s : Search)
      → s.route ≡ none
      → Left s (first_answer method at xs) (verbs at xs s.allow) (visit_all method at xs s)
  unfolding visit_all first_answer verbs
  visit_all-Left at [] s h = (h, refl)
  visit_all-Left at ((c, vs) ∷ xs) s h = elim (Option-cases (pick (at c) method)) [
    | inr (r, e) ↦
        let t : Search = record s { route = some r; matched = s.values ++ vs } in
        ground (arith, visit-some at c vs s h e, visit_all-found at xs t)
    | inl e ↦
        let t : Search = record s { allow = add_methods (at c) s.allow } in
        ground (arith, visit-none at c vs s h e, visit_all-Left at xs t h)
  ]
