-- ===== src/Mock/Trie.antt =====
-- internal/mock/trie.go: the route table of one project, a trie over path segments. The map and
-- pointer fields of a node are `Children`, `Link` and an association list of routes by verb.
pub mod Shapes
pub mod Walk
pub mod Insert
pub mod Fits
pub mod Verbs
pub mod Answer
use restest.Base.{
  ℕ, ◌==◌, Bool, true, false, ◌&&◌, List, [], ◌∷◌, ◌++◌, Option, none, some, if◌then◌else◌, ltb,
  length, Bytes, codes, same, lookup, put, drop_last,
}
use restest.Mock.Route.{Route, method_any}

mutual
  pub data Node : Type 0 where
    node : Children → Link → List (Bytes × Route) → Node

  pub data Children : Type 0 where
    no_child : Children
    child : Bytes → Node → Children → Children

  pub data Link : Type 0 where
    no_param : Link
    to : Node → Link

abbrev pub empty_node : Node
empty_node = node no_child no_param []

abbrev pub routes_at : Node → List (Bytes × Route)
routes_at (node cs p rs) = rs

abbrev pub get_last : Bytes → Option ℕ
get_last [] = none
get_last (c ∷ []) = some c
get_last (c ∷ d ∷ s) = get_last (d ∷ s)

abbrev pub is_byte : ℕ → Option ℕ → Bool
is_byte b none = false
is_byte b (some c) = c == b

abbrev pub get_first : Bytes → Option ℕ
get_first [] = none
get_first (c ∷ s) = some c

unfoldable pub is_param : Bytes → Bool
is_param seg = ltb 2 (length seg) && (is_byte b'{' (get_first seg) && is_byte b'}' (get_last seg))

-- `n.literal[segment]`
unfoldable pub find_child : Bytes → Children → Option Node
find_child seg no_child = none
find_child seg (child s n cs) = if same s seg then some n else find_child seg cs

unfoldable pub put_child : Bytes → Node → Children → Children
put_child seg n no_child = child seg n no_child
put_child seg n (child s m cs) =
    if same s seg then child seg n cs else child s m (put_child seg n cs)

abbrev pub or_new : Option Node → Node
or_new none = empty_node
or_new (some n) = n

abbrev pub linked : Link → Option Node
linked no_param = none
linked (to n) = some n

-- The child that `insert` goes to for a segment, made if it is not there.
unfoldable pub next : Bytes → Node → Node
unfolding find_child is_param
next seg (node cs p rs) = if is_param seg then or_new (linked p) else or_new (find_child seg cs)

unfoldable pub attach : Bytes → Node → Node → Node
unfolding put_child is_param
attach seg n (node cs p rs) =
    if is_param seg then node cs (to n) rs else node (put_child seg n cs) p rs

-- The end of `insert`: the new routes, and the route already there, which stays.
unfoldable pub claim : Route → List (Bytes × Route) → List (Bytes × Route) × Option Route
unfolding lookup put
claim r rs = elim (lookup r.method rs) [
  | some existing ↦ (rs, some existing)
  | none ↦ (put r.method r rs, none)
]

unfoldable pub insert_at : Route → List Bytes → Node → Node × Option Route
unfolding next attach claim
insert_at r [] (node cs p rs) = let (rs', displaced) = claim r rs in (node cs p rs', displaced)
insert_at r (seg ∷ segs) n =
    let (n', displaced) = insert_at r segs (next seg n) in (attach seg n' n, displaced)

-- One traversal. `method` and `segments` do not change and are arguments of the functions below.
pub record Search : Type 0 where
  pub values : List Bytes
  pub matched : List Bytes
  pub route : Option Route
  pub allow : List Bytes

abbrev or_else : Option Route → Option Route → Option Route
or_else none o = o
or_else (some r) o = some r

unfoldable pub pick : List (Bytes × Route) → Bytes → Option Route
unfolding lookup same
pick rs method = or_else (lookup method rs) (
    or_else (lookup method_any rs)
      (if same method (codes "HEAD") then lookup (codes "GET") rs else none))

-- `s.allow[method] = struct{}{}`: a set, without the order that a Go map does not have either.
unfoldable pub add_method : Bytes → List Bytes → List Bytes
add_method m [] = m ∷ []
add_method m (x ∷ xs) = if same x m then x ∷ xs else x ∷ add_method m xs

unfoldable pub add_methods : List (Bytes × Route) → List Bytes → List Bytes
unfolding add_method
add_methods [] allow = allow
add_methods ((m, _) ∷ rs) allow = add_methods rs (add_method m allow)

unfoldable pub arrive : Bytes → List (Bytes × Route) → Search → Search
unfolding pick add_methods
arrive method [] s = s
arrive method (r ∷ rs) s = elim (pick (r ∷ rs) method) [
  | some found ↦ record s { route = some found; matched = s.values }
  | none ↦ record s { allow = add_methods (r ∷ rs) s.allow }
]

abbrev pub found : Search → Bool
found s = elim s.route [ none ↦ false | some _ ↦ true ]

abbrev pub push : Bytes → Search → Search
push seg s = record s { values = s.values ++ seg ∷ [] }

abbrev pub pop : Search → Search
pop s = record s { values = drop_last s.values }

-- The second half of `walk`: the parameter child, with the segment on the stack of values.
unfoldable pub walk_param : (Node → Search → Search) → Bytes → Link → Search → Search
walk_param go seg no_param s = s
walk_param go seg (to n) s = pop (go n (push seg s))

-- The part of `walk` behind its two early returns.
unfoldable pub walk_children : (Node → Search → Search) → Bytes → Node → Search → Search
unfolding walk_param find_child
walk_children go seg (node cs p rs) s = elim (find_child seg cs) [
  | none ↦ walk_param go seg p s
  | some n ↦ let s' = go n s in if found s' then s' else walk_param go seg p s'
]

-- `depth` is the number of segments that are gone from the list.
unfoldable pub walk : Bytes → List Bytes → Node → Search → Search
unfolding walk_children arrive
walk method [] n s = if found s then s else arrive method (routes_at n) s
walk method (seg ∷ segs) n s = if found s then s else walk_children (walk method segs) seg n s
