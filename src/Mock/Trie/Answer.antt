-- ===== src/Mock/Trie/Answer.antt =====
-- internal/mock/trie.go, `lookup`, `allowed`, `methodOrder` and `zip`: the decision of a traversal.
use restest.Base.{
  ℕ, suc, Bool, true, false, List, [], ◌∷◌, none, some, if◌then◌else◌, ltb, Bytes, codes, same, put,
  contains, bytes_le, sort_by,
}
use restest.Mock.Route.{Route}
use restest.Mock.Trie.{Node, Search, walk, add_method}

abbrev pub allow_order : List Bytes
allow_order =
    codes "GET"
    ∷ codes "HEAD"
    ∷ codes "POST"
    ∷ codes "PUT"
    ∷ codes "PATCH"
    ∷ codes "DELETE"
    ∷ codes "OPTIONS"
    ∷ []

-- `slices.Index`, or the length of the list where the verb is not in it.
unfoldable pub index_in : Bytes → List Bytes → ℕ
unfolding same
index_in m [] = 0
index_in m (x ∷ xs) = if same x m then 0 else suc (index_in m xs)

unfoldable pub method_order : Bytes → ℕ
unfolding index_in
method_order m = index_in m allow_order

-- The comparison of `allowed`, as "at most".
unfoldable pub method_le : Bytes → Bytes → Bool
unfolding method_order bytes_le
method_le a b =
    if ltb (method_order a) (method_order b)
    then true
    else if ltb (method_order b) (method_order a)
    then false
    else bytes_le a b

unfoldable pub with_head : List Bytes → List Bytes
unfolding contains add_method
with_head allow = if contains (codes "GET") allow then add_method (codes "HEAD") allow else allow

unfoldable pub allowed : List Bytes → List Bytes
unfolding sort_by method_le with_head
allowed [] = []
allowed (m ∷ ms) = sort_by method_le (with_head (m ∷ ms))

-- The loop of `zip`, which ends with the shorter list.
unfoldable pub zip_from : List (Bytes × Bytes) → List Bytes → List Bytes → List (Bytes × Bytes)
unfolding put
zip_from params (name ∷ names) (value ∷ values) = zip_from (put name value params) names values
zip_from params _ _ = params

unfoldable pub zip : List Bytes → List Bytes → List (Bytes × Bytes)
unfolding zip_from
zip names values = zip_from [] names values

-- The three results of `lookup`: a route with its parameters, or the verbs.
pub data Answer : Type 0 where
  answered : Route → List (Bytes × Bytes) → Answer
  refused : List Bytes → Answer

abbrev pub start : Search
start = record { values = []; matched = []; route = none; allow = [] }

unfoldable pub answer_of : Search → Answer
unfolding allowed zip
answer_of s = elim s.route [
  | none ↦ refused (allowed s.allow)
  | some r ↦ answered r (zip r.params s.matched)
]

unfoldable pub lookup_route : Bytes → List Bytes → Node → Answer
unfolding walk answer_of
lookup_route method segments root = answer_of (walk method segments root start)
