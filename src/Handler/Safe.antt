-- ===== src/Handler/Safe.antt =====
-- A request with a method that only reads changes no collection.
use restest.Base.{
  ◌≡◌, refl, subst, ◌⊎◌, inl, inr, Bool-cases, List, [], ◌∷◌, arith, All, All-append, Bytes, codes,
  same, to_lower,
}
use restest.Forms.Headers.{Headers}
use restest.Mock.Route.{
  MockEndpoint, Route, Op, respond, list, create, get, replace, patch, delete, expand, route_of,
  kind_collection,
}
use restest.Mock.Matching.{Listed, Verb}
use restest.Mock.Build.{routes_of}
use restest.Mock.Lookup.{matched-Serves}
use restest.Mock.Table.{
  MockData, MockProject, Result, matched, no_project, wrong_method, no_route, build_table,
  lookup_table,
}
use restest.Documents.Listing.{JsonOps}
use restest.Handler.{
  HttpLibrary, MockRequest, Collections, mock_delay, mock_sub_path, serve_collection, serve_matched,
  run_op, answer_result, handle_mock,
}

abbrev Reads : Op → Type 0
Reads respond = Unit
Reads list = Unit
Reads get = Unit
Reads _ = ⊥

-- The verb of a route that writes is one of the four that do.
abbrev HasVerb : Route → Type 0
HasVerb r =
    Reads r.op
    ⊎ (r.method ≡ codes "POST")
    ⊎ (r.method ≡ codes "PUT")
    ⊎ (r.method ≡ codes "PATCH")
    ⊎ (r.method ≡ codes "DELETE")

expand-HasVerb : (e : MockEndpoint) → All HasVerb (expand e)
unfolding expand route_of
expand-HasVerb e = elim (Bool-cases (same e.kind kind_collection)) [
  | inl k ↦
      rw (k, expand)
        (
          inl tt,
          (
            inr (inl refl),
            (
              inl tt,
              (
                inr (inr (inl refl)),
                (inr (inr (inr (inl refl))), (inr (inr (inr (inr refl))), tt)),
              ),
            ),
          ),
        )
  | inr k ↦ rw (k, expand) (inl tt, tt)
]

routes_of-HasVerb : (slug : Bytes) (es : List MockEndpoint) → All HasVerb (routes_of slug es)
unfolding routes_of
routes_of-HasVerb slug [] = tt
routes_of-HasVerb slug (e ∷ es) = elim (Bool-cases (same e.project_slug slug)) [
  | inl k ↦ rw k (
      All-append HasVerb (expand e) (routes_of slug es) (expand-HasVerb e)
        (routes_of-HasVerb slug es))
  | inr k ↦ rw k (routes_of-HasVerb slug es)
]

All-Listed : (P : Route → Type 0) (r : Route) (rs : List Route) → All P rs → Listed r rs → P r
All-Listed P r [] h a = absurd a
All-Listed P r (q ∷ rs) (p, h) (inl e) = subst P e p
All-Listed P r (q ∷ rs) (p, h) (inr a) = All-Listed P r rs h a

abbrev IsSafe : Bytes → Type 0
IsSafe method = (method ≡ codes "GET") ⊎ (method ≡ codes "HEAD") ⊎ (method ≡ codes "OPTIONS")

HasVerb-Reads :
    (r : Route) (method : Bytes) → HasVerb r → Verb method r.method → IsSafe method → Reads r.op
HasVerb-Reads r method (inl k) v s = k
HasVerb-Reads r method (inr e) v s = absurd (ground arith)

module _ (http : HttpLibrary) (json : JsonOps) (r : MockRequest) (w : Headers)
    (store : Collections) where
  run_op-Reads :
      (op : Op) (id collection : Bytes) (h : Headers)
      → Reads op
      → (run_op http json op r id collection h store).1 ≡ store
  unfolding run_op
  run_op-Reads respond id collection h k = refl
  run_op-Reads list id collection h k = refl
  run_op-Reads get id collection h k = refl
  run_op-Reads create id collection h k = absurd k
  run_op-Reads replace id collection h k = absurd k
  run_op-Reads patch id collection h k = absurd k
  run_op-Reads delete id collection h k = absurd k

  serve_collection-Reads :
      (route : Route) (params : List (Bytes × Bytes))
      → Reads route.op
      → (serve_collection http json r route params w store).1 ≡ store
  unfolding serve_collection
  serve_collection-Reads route params k = elim (Bool-cases (mock_delay r.gave_up route.delay_ms)) [
    | inl e ↦ rw (e, serve_collection) (run_op-Reads route.op _ _ _ k)
    | inr e ↦ rw (e, serve_collection) refl
  ]

  serve_matched-Reads :
      (op : Op) (route : Route) (params : List (Bytes × Bytes))
      → Reads route.op
      → (serve_matched http json op r route params w store).1 ≡ store
  serve_matched-Reads respond route params k = refl
  serve_matched-Reads list route params k = serve_collection-Reads route params k
  serve_matched-Reads create route params k = serve_collection-Reads route params k
  serve_matched-Reads get route params k = serve_collection-Reads route params k
  serve_matched-Reads replace route params k = serve_collection-Reads route params k
  serve_matched-Reads patch route params k = serve_collection-Reads route params k
  serve_matched-Reads delete route params k = serve_collection-Reads route params k

  answer_result-Reads :
      (result : Result)
      → ((p : MockProject) (route : Route) (params : List (Bytes × Bytes))
          → result ≡ matched p route params
          → Reads route.op)
      → (answer_result http json r w store result).1 ≡ store
  unfolding answer_result
  answer_result-Reads (matched p route params) k =
      serve_matched-Reads route.op route params (k p route params refl)
  answer_result-Reads (wrong_method p allow) k = refl
  answer_result-Reads (no_route p near) k = refl
  answer_result-Reads no_project k = refl

  -- A request whose method is GET, HEAD or OPTIONS changes no document and no counter, whatever the
  -- rows that the route table is built from, whatever is answered.
  pub handle_mock-IsSafe :
      (d : MockData)
      → IsSafe r.method
      → (handle_mock http json (build_table d).0 r w store).1 ≡ store
  unfolding handle_mock
  handle_mock-IsSafe d safe =
      let slug = to_lower r.slug in
      let path = mock_sub_path r.escaped_path in
      answer_result-Reads (lookup_table (build_table d).0 slug r.method path) (λ p route params e.
        let (_, s) = matched-Serves d slug r.method path p route params e in
        HasVerb-Reads route r.method
          (All-Listed HasVerb route (routes_of slug d.endpoints)
            (routes_of-HasVerb slug d.endpoints) s.listed)
          s.verb safe)
