-- ===== src/Mock/Matching.antt =====
-- The route table of a project in terms of the list of its routes: which of them is served.
use restest.Base.{
  ◌≡◌, refl, ◌⊎◌, inl, inr, true, ◌&&◌, List, [], ◌∷◌, Option, none, some, arith, if◌then◌else◌,
  Option-cases, Bool-cases, Bytes, codes, same, same_iff, same_refl, lookup, lookup-put, Any,
}
use restest.Paths.{split_path}
use restest.Mock.Route.{Route, method_any}
use restest.Mock.Trie.{Node, empty_node, claim, pick}
use restest.Mock.Trie.Shapes.{Shape, Routes, shape_of, find}
use restest.Mock.Trie.Insert.{same_shape, same_shape_iff, find-insert_at, find-empty_node}
use restest.Mock.Trie.Verbs.{defined}
use restest.Mock.Table.{insert}

abbrev pub pattern_of : Route → Shape
pattern_of r = shape_of (split_path r.path)

-- The trie after the routes have been inserted one after the other.
unfoldable pub insert_all : List Route → Node → Node
unfolding insert
insert_all [] n = n
insert_all (r ∷ rs) n = insert_all rs (insert r n).0

-- The first route of a shape and a verb.
unfoldable pub first_at : Bytes → Shape → List Route → Option Route
unfolding same same_shape
first_at k c [] = none
first_at k c (r ∷ rs) =
    if same_shape (pattern_of r) c && same r.method k then some r else first_at k c rs

abbrev or_first : Option Route → Option Route → Option Route
or_first none o = o
or_first (some r) o = some r

abbrev pub Listed : Route → List Route → Type 0
Listed r rs = Any (λ q. q ≡ r) rs

lookup-claim :
    (r : Route) (rs : Routes) (k : Bytes)
    → lookup k (claim r rs).0 ≡ or_first (lookup k rs) (if same r.method k then some r else none)
unfolding claim
lookup-claim r rs k = ground (arith, lookup-put r.method k r rs, same_iff r.method k)

lookup-insert :
    (r : Route) (n : Node) (c : Shape) (k : Bytes)
    → lookup k (find (insert r n).0 c)
      ≡ or_first
          (lookup k (find n c))
          (if same_shape (pattern_of r) c && same r.method k then some r else none)
unfolding insert
lookup-insert r n c k =
    ground (arith, find-insert_at r (split_path r.path) n c, lookup-claim r (find n c) k)

lookup-find-insert_all :
    (rs : List Route) (n : Node) (c : Shape) (k : Bytes)
    → lookup k (find (insert_all rs n) c) ≡ or_first (lookup k (find n c)) (first_at k c rs)
unfolding insert_all first_at
lookup-find-insert_all [] n c k = ground arith
lookup-find-insert_all (r ∷ rs) n c k =
    ground (arith, lookup-find-insert_all rs (insert r n).0 c k, lookup-insert r n c k)

-- The trie holds, for each shape and verb, the first route inserted for them, and nothing else.
pub lookup-find-insert_all_empty :
    (rs : List Route) (c : Shape) (k : Bytes)
    → lookup k (find (insert_all rs empty_node) c) ≡ first_at k c rs
unfolding lookup
lookup-find-insert_all_empty rs c k =
    ground (arith, lookup-find-insert_all rs empty_node c k, find-empty_node c)

pub first_at_sound :
    (k : Bytes) (c : Shape) (rs : List Route) (r : Route)
    → first_at k c rs ≡ some r
    → Listed r rs × (pattern_of r ≡ c) × (r.method ≡ k)
unfolding first_at
first_at_sound k c [] r h = cc
first_at_sound k c (q ∷ rs) r h =
    elim (Bool-cases (same_shape (pattern_of q) c && same q.method k)) [
      | inl yes_ ↦
          let same_route : q ≡ r = ground arith in
          (
            inl same_route,
            rw (← same_route) (ground (arith, same_shape_iff (pattern_of q) c)),
            rw (← same_route) (ground (arith, same_iff q.method k)),
          )
      | inr no_ ↦
          let (listed, shape, verb) = first_at_sound k c rs r (ground arith) in
          (inr listed, shape, verb)
    ]

pub first_at_complete :
    (rs : List Route) (r : Route)
    → Listed r rs
    → defined (first_at r.method (pattern_of r) rs) ≡ true
unfolding first_at
first_at_complete [] r l = absurd l
first_at_complete (q ∷ rs) r (inl e) =
    rw (← e) (ground (arith, same_refl q.method, same_shape_iff (pattern_of q) (pattern_of q)))
first_at_complete (q ∷ rs) r (inr l) = ground (arith, first_at_complete rs r l)

-- A route defined for the verb `k` answers a request for the method `m`.
abbrev pub Verb : Bytes → Bytes → Type 0
Verb m k = (k ≡ m) ⊎ (k ≡ method_any) ⊎ ((m ≡ codes "HEAD") × (k ≡ codes "GET"))

pub pick_sound :
    (rs : Routes) (m : Bytes) (r : Route)
    → pick rs m ≡ some r
    → (k : Bytes) × (lookup k rs ≡ some r) × Verb m k
unfolding pick
pick_sound rs m r h = elim (Option-cases (lookup m rs)) [
  | inr (q, e) ↦ (m, ground arith, inl refl)
  | inl e ↦ elim (Option-cases (lookup method_any rs)) [
    | inr (q, f) ↦ (method_any, ground arith, inr (inl refl))
    | inl f ↦ elim (Bool-cases (same m (codes "HEAD"))) [
      | inl is_head ↦
          (codes "GET", ground arith, inr (inr ((same_iff m (codes "HEAD")).0 is_head, refl)))
      | inr other ↦ absurd (ground arith)
    ]
  ]
]

pub pick_complete : (rs : Routes) (m k : Bytes) → Verb m k → pick rs m ≡ none → lookup k rs ≡ none
unfolding pick
pick_complete rs m k (inl e) h = rw e (ground arith)
pick_complete rs m k (inr (inl e)) h = rw e (ground arith)
pick_complete rs m k (inr (inr (is_head, e))) h =
    rw e (ground (arith, (same_iff m (codes "HEAD")).1 is_head))

-- A route for the very verb of the request is taken before one for all verbs.
pub pick_exact :
    (rs : Routes) (m : Bytes) (r : Route)
    → pick rs m ≡ some r
    → defined (lookup m rs) ≡ true
    → lookup m rs ≡ some r
unfolding pick
pick_exact rs m r h d = ground arith
