-- ===== src/Mock/Serves.antt =====
-- internal/mock/trie.go as a whole: what `lookup` answers, in terms of the routes inserted.
use restest.Base.{
  ◌&&◌, ◌||◌, Bool-cases, ◌≢◌, ◌≡◌, refl, sym, ap, ◌∙◌, ◌↔◌, ◌⊎◌, inl, inr, true, List, [], ◌∷◌,
  Option, none, some, arith, Option-cases, Bytes, codes, same, same_iff, contains, lookup, put,
  lookup-put, if◌then◌else◌,
}
use restest.Mock.Route.{Route}
use restest.Mock.Trie.{Node, empty_node, pick}
use restest.Mock.Trie.Walk.{walk-visit_all, visit_all-Left}
use restest.Mock.Trie.Answer.{
  Answer, answered, refused, start, answer_of, zip, zip_from, allowed, lookup_route,
}
use restest.Mock.Trie.Shapes.{Shape, Routes, find, candidates, first_answer, verbs}
use restest.Mock.Trie.Fits.{Fits, Before, Best, first_answer-none, first_answer-Best}
use restest.Mock.Trie.Verbs.{defined, Offered, verbs_sound, verbs_complete, contains-allowed}
use restest.Mock.Matching.{
  pattern_of, insert_all, first_at, Listed, lookup-find-insert_all_empty, first_at_sound,
  first_at_complete, Verb, pick_sound, pick_complete, pick_exact,
}

-- The decision by the candidates alone: the first that answers, or the verbs of them all.
unfoldable pub decide_by : (Shape → Routes) → Bytes → List Bytes → Answer
decide_by at method segs = elim (first_answer method at (candidates segs)) [
  | some (r, vs) ↦ answered r (zip r.params vs)
  | none ↦ refused (allowed (verbs at (candidates segs) []))
]

-- The traversal with its stack of values and its early returns answers what a search of the shapes
-- that fit the request answers, literals tried before parameters at every segment: the first shape
-- whose routes answer the method, or else the verbs of all of them.
pub lookup_route-decide_by :
    (method : Bytes) (segs : List Bytes) (root : Node)
    → lookup_route method segs root ≡ decide_by (find root) method segs
unfolding lookup_route answer_of decide_by
lookup_route-decide_by method segs root = ground (
  arith,
  walk-visit_all method segs root start,
  visit_all-Left method (find root) (candidates segs) start refl,
)

abbrev pub or_earlier : Option Bytes → Option Bytes → Option Bytes
or_earlier none o = o
or_earlier (some v) o = some v

-- The value at the place that a name has in the list of names, the last one if it has several.
unfoldable pub value_of : Bytes → List Bytes → List Bytes → Option Bytes
unfolding same
value_of k (n ∷ names) (v ∷ values) =
    or_earlier (value_of k names values) (if same n k then some v else none)
value_of k _ _ = none

lookup-zip_from :
    (k : Bytes) (acc : List (Bytes × Bytes)) (names values : List Bytes)
    → lookup k (zip_from acc names values) ≡ or_earlier (value_of k names values) (lookup k acc)
unfolding zip_from value_of
lookup-zip_from k acc [] values = refl
lookup-zip_from k acc (n ∷ names) [] = refl
lookup-zip_from k acc (n ∷ names) (v ∷ values) =
    ground (arith, lookup-zip_from k (put n v acc) names values, lookup-put n k v acc)

lookup-zip :
    (k : Bytes) (names values : List Bytes) → lookup k (zip names values) ≡ value_of k names values
unfolding zip lookup
lookup-zip k names values = ground (arith, lookup-zip_from k [] names values)

-- The route that is served: it is one of the list, its pattern fits the request and gives its
-- parameters their values, it answers the method, and no route that could answer too has a pattern
-- before its own, or has the same pattern and a closer verb, or stands before it in the list.
pub record Serves (rs : List Route) (method : Bytes) (segs : List Bytes) (r : Route)
    (params : List (Bytes × Bytes)) : Type 0 where
  pub values : List Bytes
  pub listed : Listed r rs
  pub fits : Fits (pattern_of r) segs values
  pub verb : Verb method r.method
  pub named : (name : Bytes) → lookup name params ≡ value_of name r.params values
  pub preferred :
      (q : Route) (vs : List Bytes)
      → Listed q rs
      → Fits (pattern_of q) segs vs
      → Verb method q.method
      → ¬ Before (pattern_of q) (pattern_of r)
  pub exact :
      (q : Route)
      → Listed q rs
      → pattern_of q ≡ pattern_of r
      → q.method ≡ method
      → r.method ≡ method
  pub first : first_at r.method (pattern_of r) rs ≡ some r

-- A route of the list whose pattern fits the request, with the verb `k`.
pub record Defines (rs : List Route) (segs : List Bytes) (k : Bytes) : Type 0 where
  pub route : Route
  pub values : List Bytes
  pub listed : Listed route rs
  pub fits : Fits (pattern_of route) segs values
  pub verb : route.method ≡ k

module _ (rs : List Route) (method : Bytes) (segs : List Bytes) where
  abbrev pub table : Shape → Routes
  table = find (insert_all rs empty_node)

  pick-none_of_Listed :
      (q : Route) → Listed q rs → Verb method q.method → pick (table (pattern_of q)) method ≢ none
  pick-none_of_Listed q l v h = ground (
    arith,
    pick_complete (table (pattern_of q)) method q.method v h,
    lookup-find-insert_all_empty rs (pattern_of q) q.method,
    first_at_complete rs q l,
  )

  table-first_at : (c : Shape) (k : Bytes) → lookup k (table c) ≡ first_at k c rs
  table-first_at c k = lookup-find-insert_all_empty rs c k

  table-Listed :
      (c : Shape) (k : Bytes) (r : Route)
      → lookup k (table c) ≡ some r
      → Listed r rs × (pattern_of r ≡ c) × (r.method ≡ k)
  table-Listed c k r h = first_at_sound k c rs r (sym (table-first_at c k) ∙ h)

  -- A route with the verb of the request at the shape of the answer is the answer's equal.
  Best-exact :
      (r : Route) (vs : List Bytes) (b : Best method table segs r vs) (q : Route)
      → Listed q rs
      → pattern_of q ≡ b.shape
      → q.method ≡ method
      → r.method ≡ method
  Best-exact r vs b q l p e =
      let there : defined (first_at q.method (pattern_of q) rs) ≡ true = first_at_complete rs q l in
      let at_shape : defined (first_at method b.shape rs) ≡ true = rw (p, e) at there in
      let chosen =
        pick_exact (table b.shape) method r b.picked
          (rw (table-first_at b.shape method) at_shape) in
      (table-Listed b.shape method r chosen).2

  Best-Serves :
      (r : Route) (vs : List Bytes)
      → Best method table segs r vs
      → Serves rs method segs r (zip r.params vs)
  Best-Serves r vs b =
      let (k, found, v) = pick_sound (table b.shape) method r b.picked in
      let (listed, shape, verb) = table-Listed b.shape k r found in
      record {
        values = vs;
        listed = listed;
        fits = rw shape b.fits;
        verb = rw verb v;
        named = λ name. lookup-zip name r.params vs;
        preferred =
            λ q us l f w o. pick-none_of_Listed q l w (b.first (pattern_of q) us f (rw shape at o));
        exact = λ q l p e. Best-exact r vs b q l (p ∙ shape) e;
        first =
            ap (λ j. first_at j (pattern_of r) rs) verb
            ∙ (ap (λ c. first_at k c rs) shape ∙ (sym (table-first_at b.shape k) ∙ found));
      }

  pub decide_by-Serves :
      (r : Route) (params : List (Bytes × Bytes))
      → decide_by table method segs ≡ answered r params
      → Serves rs method segs r params
  unfolding decide_by
  decide_by-Serves r params h = elim (Option-cases (first_answer method table (candidates segs))) [
    | inl e ↦ absurd (ground arith)
    | inr ((q, vs), e) ↦
        let same_route : r ≡ q = ground arith in
        let same_params : params ≡ zip q.params vs = ground arith in
        rw (same_route, same_params) (Best-Serves q vs (first_answer-Best method table segs q vs e))
  ]

  -- Nothing that is listed answers, and the verbs are those defined for the path, with HEAD for GET.
  pub decide_by-refused :
      (allow : List Bytes)
      → decide_by table method segs ≡ refused allow
      → ((q : Route) (vs : List Bytes)
          → Listed q rs
          → Fits (pattern_of q) segs vs
          → ¬ Verb method q.method)
        × (allow ≡ allowed (verbs table (candidates segs) []))
  unfolding decide_by
  decide_by-refused allow h = elim (Option-cases (first_answer method table (candidates segs))) [
    | inr ((q, vs), e) ↦ absurd (ground arith)
    | inl e ↦
        (λ q vs l f v. pick-none_of_Listed q l v (first_answer-none method table f e), ground arith)
  ]

  Offered-Defines : (k : Bytes) → Offered table segs k → Defines rs segs k
  Offered-Defines k o = elim (Option-cases (lookup k (table o.shape))) [
    | inl e ↦ absurd (ground (arith, o.there))
    | inr (r, e) ↦
        let (listed, shape, verb) = table-Listed o.shape k r e in
        record {
          route = r;
          values = o.values;
          listed = listed;
          fits = rw shape o.fits;
          verb = verb;
        }
  ]

  Defines-contains :
      (k : Bytes) → Defines rs segs k → contains k (verbs table (candidates segs) []) ≡ true
  Defines-contains k d =
      let there : defined (first_at d.route.method (pattern_of d.route) rs) ≡ true =
        first_at_complete rs d.route d.listed in
      verbs_complete k table [] d.fits
        (rw (table-first_at (pattern_of d.route) k) (rw d.verb at there))

  contains-Defines :
      (k : Bytes) → contains k (verbs table (candidates segs) []) ≡ true → Defines rs segs k
  unfolding contains
  contains-Defines k h = elim (verbs_sound k table segs [] h) [
    | inl e ↦ absurd (ground arith)
    | inr o ↦ Offered-Defines k o
  ]

  pub refused_iff :
      (allow : List Bytes)
      → decide_by table method segs ≡ refused allow
      → (k : Bytes)
      → (contains k allow ≡ true)
        ↔ (Defines rs segs k ⊎ ((k ≡ codes "HEAD") × Defines rs segs (codes "GET")))
  refused_iff allow h k =
      let all_verbs : List Bytes = verbs table (candidates segs) [] in
      let listing : contains k allow
          ≡ (contains k all_verbs || (same (codes "HEAD") k && contains (codes "GET") all_verbs)) =
        ap (contains k) (decide_by-refused allow h).1 ∙ contains-allowed k all_verbs in
      (
        λ c. elim (Bool-cases (contains k all_verbs)) [
          | inl e ↦ inl (contains-Defines k e)
          | inr e ↦ inr (
            ground (arith, listing, same_iff (codes "HEAD") k),
            contains-Defines (codes "GET") (ground (arith, listing)),
          )
        ],
        λ d. elim d [
          | inl e ↦ ground (arith, listing, Defines-contains k e)
          | inr (e, f) ↦
              ground (arith, listing, same_iff (codes "HEAD") k, Defines-contains (codes "GET") f)
        ],
      )
