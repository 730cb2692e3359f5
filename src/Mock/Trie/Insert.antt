-- ===== src/Mock/Trie/Insert.antt =====
-- `insert` changes the trie at the shape of the pattern and nowhere else.
use restest.Base.{
  ◌≡◌, refl, Bool, true, false, ◌&&◌, List, [], ◌∷◌, some, arith, if◌then◌else◌, Bytes, same,
  same_iff, ◌↔◌,
}
use restest.Mock.Route.{Route}
use restest.Mock.Trie.{
  Node, node, Children, child, no_child, Link, empty_node, routes_at, find_child, put_child, next,
  attach, claim, insert_at,
}
use restest.Mock.Trie.Shapes.{Part, literal, param, Shape, Routes, part_of, shape_of, descend, find}

unfoldable pub same_part : Part → Part → Bool
unfolding same
same_part (literal s) (literal t) = same s t
same_part param param = true
same_part _ _ = false

unfoldable pub same_shape : Shape → Shape → Bool
unfolding same_part
same_shape [] [] = true
same_shape (k ∷ c) (l ∷ d) = same_part k l && same_shape c d
same_shape _ _ = false

pub same_part_iff : (k l : Part) → (same_part k l ≡ true) ↔ (k ≡ l)
unfolding same_part
same_part_iff (literal s) (literal t) = ground (arith, same_iff s t)
same_part_iff param param = ground arith
same_part_iff _ _ = ground arith

pub same_shape_iff : (c d : Shape) → (same_shape c d ≡ true) ↔ (c ≡ d)
unfolding same_shape
same_shape_iff [] [] = ground arith
same_shape_iff (k ∷ c) (l ∷ d) = ground (arith, same_part_iff k l, same_shape_iff c d)
same_shape_iff _ _ = ground arith

find_child-put_child :
    (s t : Bytes) (n : Node) (cs : Children)
    → find_child t (put_child s n cs) ≡ (if same s t then some n else find_child t cs)
unfolding find_child put_child
find_child-put_child s t n no_child = refl
find_child-put_child s t n (child u m cs) =
    ground (arith, same_iff s t, same_iff u s, same_iff u t, find_child-put_child s t n cs)

pub find-empty_node : (c : Shape) → find empty_node c ≡ []
unfolding find
find-empty_node [] = refl
find-empty_node (literal s ∷ c) = refl
find-empty_node (param ∷ c) = refl

-- `next` goes on where the shape goes, or to a new node, where nothing is found.
find-next : (seg : Bytes) (n : Node) (c : Shape) → find (next seg n) c ≡ find n (part_of seg ∷ c)
unfolding next find part_of
find-next seg (node cs p rs) c = ground (arith, find-empty_node c)

descend-attach :
    (seg : Bytes) (k : Part) (m n : Node)
    → descend k (attach seg m n) ≡ (if same_part (part_of seg) k then some m else descend k n)
unfolding descend attach part_of same_part
descend-attach seg (literal t) m (node cs p rs) = ground (arith, find_child-put_child seg t m cs)
descend-attach seg param m (node cs p rs) = ground arith

routes_at-attach : (seg : Bytes) (m n : Node) → routes_at (attach seg m n) ≡ routes_at n
unfolding attach
routes_at-attach seg m (node cs p rs) = ground arith

descend_of_routes :
    (k : Part) (cs : Children) (p : Link) (rs rs' : Routes)
    → descend k (node cs p rs) ≡ descend k (node cs p rs')
unfolding descend
descend_of_routes (literal s) cs p rs rs' = refl
descend_of_routes param cs p rs rs' = refl

module _ (r : Route) where
  pub find-insert_at :
      (segs : List Bytes) (n : Node) (c : Shape)
      → find (insert_at r segs n).0 c
        ≡ (if same_shape (shape_of segs) c then (claim r (find n c)).0 else find n c)
  unfolding insert_at find same_shape
  find-insert_at [] (node cs p rs) [] = refl
  find-insert_at [] (node cs p rs) (k ∷ c) =
      ground (arith, descend_of_routes k cs p rs (claim r rs).0)
  find-insert_at (seg ∷ segs) n [] = routes_at-attach seg _ n
  find-insert_at (seg ∷ segs) n (k ∷ c) = ground (
    arith,
    same_part_iff (part_of seg) k,
    descend-attach seg k (insert_at r segs (next seg n)).0 n,
    find-next seg n c,
    find-insert_at segs (next seg n) c,
  )
