-- ===== src/Mock/Trie/Shapes.antt =====
-- What a trie stands for: a map from shapes to routes by verb, where a shape is a pattern with the
-- names of its parameters forgotten; and the shapes that fit a request, the preferred one first.
use restest.Base.{List, [], ◌∷◌, ◌++◌, map, Option, none, some, if◌then◌else◌, Bytes}
use restest.Mock.Route.{Route}
use restest.Mock.Trie.{
  Node, node, routes_at, find_child, linked, is_param, Search, pick, arrive, found, add_methods,
}

pub data Part : Type 0 where
  literal : Bytes → Part
  param : Part

abbrev pub Shape : Type 0
Shape = List Part

abbrev pub Routes : Type 0
Routes = List (Bytes × Route)

unfoldable pub part_of : Bytes → Part
unfolding is_param
part_of seg = if is_param seg then param else literal seg

abbrev pub shape_of : List Bytes → Shape
shape_of segs = map part_of segs

unfoldable pub descend : Part → Node → Option Node
unfolding find_child
descend (literal seg) (node cs p rs) = find_child seg cs
descend param (node cs p rs) = linked p

-- The routes that the trie holds for a shape.
unfoldable pub find : Node → Shape → Routes
unfolding descend
find n [] = routes_at n
find n (k ∷ c) = elim (descend k n) [ none ↦ [] | some m ↦ find m c ]

abbrev pub Candidate : Type 0
Candidate = Shape × List Bytes

abbrev pub by_literal : Bytes → Candidate → Candidate
by_literal seg (c, vs) = (literal seg ∷ c, vs)

abbrev pub by_param : Bytes → Candidate → Candidate
by_param seg (c, vs) = (param ∷ c, seg ∷ vs)

-- Every shape that fits the segments, with the values of its parameters: at each segment the
-- literal before the parameter, and the first segment counts most.
unfoldable pub candidates : List Bytes → List Candidate
candidates [] = ([], []) ∷ []
candidates (seg ∷ segs) =
    map (by_literal seg) (candidates segs) ++ map (by_param seg) (candidates segs)

-- The traversal of the candidates one after the other, with no tree in it.
module _ (method : Bytes) (at : Shape → Routes) where
  unfoldable pub visit : Candidate → Search → Search
  unfolding arrive
  visit (c, vs) s =
      if found s then s else record (arrive method (at c) (record s { values = s.values ++ vs })) {
        values = s.values;
      }

  unfoldable pub visit_all : List Candidate → Search → Search
  unfolding visit
  visit_all [] s = s
  visit_all (x ∷ xs) s = visit_all xs (visit x s)

  -- The first candidate with a route that answers the method.
  unfoldable pub first_answer : List Candidate → Option (Route × List Bytes)
  unfolding pick
  first_answer [] = none
  first_answer ((c, vs) ∷ xs) = elim (pick (at c) method) [
    | some r ↦ some (r, vs)
    | none ↦ first_answer xs
  ]

-- The verbs of all candidates.
unfoldable pub verbs : (Shape → Routes) → List Candidate → List Bytes → List Bytes
unfolding add_methods
verbs at [] allow = allow
verbs at ((c, _) ∷ xs) allow = verbs at xs (add_methods (at c) allow)
