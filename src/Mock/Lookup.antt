-- ===== src/Mock/Lookup.antt =====
-- internal/mock/table.go, `Lookup`: the four outcomes, in terms of the rows of the database.
use restest.Base.{
  ◌≡◌, refl, sym, ap, ◌∙◌, ◌≢◌, ◌↔◌, ◌⊎◌, inl, inr, true, List, [], ◌∷◌, none, some, arith,
  Option-cases, Bytes, codes, same_refl, contains, map,
}
use restest.Mock.Route.{Route}
use restest.Mock.Trie.{empty_node}
use restest.Mock.Trie.Answer.{Answer, answered, refused}
use restest.Mock.Trie.Fits.{Fits}
use restest.Mock.Request.{split_request_path}
use restest.Mock.Nearest.{Ref}
use restest.Mock.Matching.{pattern_of, insert_all, Listed, Verb}
use restest.Mock.Serves.{
  Serves, Defines, table, decide_by, lookup_route-decide_by, decide_by-Serves, decide_by-refused,
  refused_iff,
}
use restest.Mock.Build.{routes_of, ref_of, last_project, lookup-build_table}
use restest.Mock.Table.{
  MockProject, MockData, ProjectRoutes, Result, matched, no_project, wrong_method, no_route,
  build_table, result_of, lookup_table,
}

Answer-cases :
    (a : Answer)
    → ((r : Route) × (params : List (Bytes × Bytes)) × (a ≡ answered r params))
      ⊎ ((a ≡ refused []) ⊎ ((m : Bytes) × (ms : List Bytes) × (a ≡ refused (m ∷ ms))))
Answer-cases (answered r params) = inl (r, params, refl)
Answer-cases (refused []) = inr (inl refl)
Answer-cases (refused (m ∷ ms)) = inr (inr (m, ms, refl))

result_of-ne-no_project :
    (q : ProjectRoutes) (method : Bytes) (segs : List Bytes) (a : Answer)
    → result_of q method segs a ≢ no_project
unfolding result_of
result_of-ne-no_project q method segs (answered r params) h = cc
result_of-ne-no_project q method segs (refused []) h = cc
result_of-ne-no_project q method segs (refused (m ∷ ms)) h = cc

-- What `result_of` did, read off its result.
matched_inv :
    (q : ProjectRoutes) (method : Bytes) (segs : List Bytes) (a : Answer) {p : MockProject}
    {r : Route} {params : List (Bytes × Bytes)}
    → result_of q method segs a ≡ matched p r params
    → (q.project ≡ p) × (a ≡ answered r params)
unfolding result_of
matched_inv q method segs (answered r params) h = ground arith
matched_inv q method segs (refused []) h = cc
matched_inv q method segs (refused (m ∷ ms)) h = cc

wrong_method_inv :
    (q : ProjectRoutes) (method : Bytes) (segs : List Bytes) (a : Answer) {p : MockProject}
    {allow : List Bytes}
    → result_of q method segs a ≡ wrong_method p allow
    → (q.project ≡ p) × (a ≡ refused allow) × (allow ≢ [])
unfolding result_of
wrong_method_inv q method segs (answered r params) h = cc
wrong_method_inv q method segs (refused []) h = cc
wrong_method_inv q method segs (refused (m ∷ ms)) h = ground arith

no_route_inv :
    (q : ProjectRoutes) (method : Bytes) (segs : List Bytes) (a : Answer) {p : MockProject}
    {near : List Ref}
    → result_of q method segs a ≡ no_route p near
    → (q.project ≡ p) × (a ≡ refused [])
unfolding result_of
no_route_inv q method segs (answered r params) h = cc
no_route_inv q method segs (refused []) h = ground arith
no_route_inv q method segs (refused (m ∷ ms)) h = cc

module _ (d : MockData) (slug method path : Bytes) where
  abbrev pub rows : List Route
  rows = routes_of slug d.endpoints

  abbrev pub segments : List Bytes
  segments = split_request_path path

  abbrev pub served : Result
  served = lookup_table (build_table d).0 slug method path

  abbrev answer : Answer
  answer = decide_by (table rows method segments) method segments

  abbrev routes_for : MockProject → ProjectRoutes
  routes_for p = record { project = p; trie = insert_all rows empty_node; refs = map ref_of rows }

  served-some :
      (p : MockProject)
      → last_project slug d.projects ≡ some p
      → served ≡ result_of (routes_for p) method segments answer
  unfolding lookup_table
  served-some p e = ground (
    arith,
    lookup-build_table d slug,
    lookup_route-decide_by method segments (insert_all rows empty_node),
  )

  served-none : last_project slug d.projects ≡ none → served ≡ no_project
  unfolding lookup_table
  served-none e = ground (arith, lookup-build_table d slug)

  -- An outcome other than `no_project` is that of a project with the slug.
  served-cases :
      (served ≡ no_project)
      ⊎ ((p : MockProject) × (last_project slug d.projects ≡ some p)
          × (served ≡ result_of (routes_for p) method segments answer))
  served-cases = elim (Option-cases (last_project slug d.projects)) [
    | inl e ↦ inl (served-none e)
    | inr (p, e) ↦ inr (p, e, served-some p e)
  ]

  -- A request is matched to a route only if it is one of the project's, its pattern fits the decoded
  -- path, its verb answers the method, each name in the pattern's list of names has for its value the
  -- segment at the parameter of the same number in the pattern, counted from the left, the last one if
  -- it has several, and no other name has one, and no other route is to be preferred: none that answers
  -- has a literal where this one has the first parameter that differs, none of the same pattern has the
  -- very verb of the request unless this one has it, and it is the first row with its pattern and verb.
  pub matched-Serves :
      (p : MockProject) (r : Route) (params : List (Bytes × Bytes))
      → served ≡ matched p r params
      → (last_project slug d.projects ≡ some p) × Serves rows method segments r params
  matched-Serves p r params h = elim served-cases [
    | inl e ↦ absurd (ground arith)
    | inr (q, e, f) ↦
        let (same_project, same_answer) =
          matched_inv (routes_for q) method segments answer (sym f ∙ h) in
        (e ∙ ap some same_project, decide_by-Serves rows method segments r params same_answer)
  ]

  -- A request is answered 405 only if no route of the project both fits the path and answers the
  -- method; the verbs listed are exactly those defined for the path, with HEAD where GET is, and
  -- there is at least one.
  pub wrong_method-Defines :
      (p : MockProject) (allow : List Bytes)
      → served ≡ wrong_method p allow
      → ((q : Route) (vs : List Bytes)
          → Listed q rows
          → Fits (pattern_of q) segments vs
          → ¬ Verb method q.method)
        × ((k : Bytes)
            → (contains k allow ≡ true) ↔ (
                Defines rows segments k
                ⊎ ((k ≡ codes "HEAD") × Defines rows segments (codes "GET"))))
        × (allow ≢ [])
  wrong_method-Defines p allow h = elim served-cases [
    | inl e ↦ absurd (ground arith)
    | inr (q, e, f) ↦
        let (same_project, same_answer, listed) =
          wrong_method_inv (routes_for q) method segments answer (sym f ∙ h) in
        (
          (decide_by-refused rows method segments allow same_answer).0,
          refused_iff rows method segments allow same_answer,
          listed,
        )
  ]

  -- No route of the project fits the path, whatever its verb.
  abbrev pub NothingFits : Type 0
  NothingFits = (q : Route) (vs : List Bytes) → Listed q rows → ¬ Fits (pattern_of q) segments vs

  refused-NothingFits : answer ≡ refused [] → NothingFits
  unfolding contains
  refused-NothingFits a q vs l f =
      let there =
        (refused_iff rows method segments [] a q.method).1
          (inl (record { route = q; values = vs; listed = l; fits = f; verb = refl })) in
      cc there

  NothingFits-refused : NothingFits → answer ≡ refused []
  unfolding contains
  NothingFits-refused no_fit = elim (Answer-cases answer) [
    | inl (r, params, a) ↦
        let s = decide_by-Serves rows method segments r params a in
        absurd (no_fit r s.values s.listed s.fits)
    | inr (inl a) ↦ a
    | inr (inr (m, ms, a)) ↦
        let first_verb : contains m (m ∷ ms) ≡ true = ground (arith, same_refl m) in
        elim ((refused_iff rows method segments (m ∷ ms) a m).0 first_verb) [
          | inl e ↦ absurd (no_fit e.route e.values e.listed e.fits)
          | inr (_, e) ↦ absurd (no_fit e.route e.values e.listed e.fits)
        ]
  ]

  -- A request is answered 404 with suggestions exactly when the project exists and no route of it
  -- fits the path, whatever the verb.
  pub no_route_iff :
      (p : MockProject)
      → ((near : List Ref) × (served ≡ no_route p near))
        ↔ ((last_project slug d.projects ≡ some p) × NothingFits)
  unfolding result_of
  no_route_iff p = (
    λ (near, h). elim served-cases [
      | inl e ↦ absurd (ground arith)
      | inr (q, e, f) ↦
          let (same_project, same_answer) =
            no_route_inv (routes_for q) method segments answer (sym f ∙ h) in
          (e ∙ ap some same_project, refused-NothingFits same_answer)
    ],
    λ (e, no_fit). (
      _,
      served-some p e ∙ ap (result_of (routes_for p) method segments) (NothingFits-refused no_fit),
    ),
  )

  -- A project that is not there is the only reason for the outcome `no_project`.
  pub no_project_iff : (served ≡ no_project) ↔ (last_project slug d.projects ≡ none)
  no_project_iff = (
    λ h. elim (Option-cases (last_project slug d.projects)) [
      | inl e ↦ e
      | inr (p, e) ↦ absurd (
          result_of-ne-no_project (routes_for p) method segments answer (sym (served-some p e) ∙ h))
    ],
    served-none,
  )

  -- A request that some route of the project fits and answers is matched, never refused.
  pub Defines-matched :
      (p : MockProject) (q : Route) (vs : List Bytes)
      → last_project slug d.projects ≡ some p
      → Listed q rows
      → Fits (pattern_of q) segments vs
      → Verb method q.method
      → (r : Route) × (params : List (Bytes × Bytes)) × (served ≡ matched p r params)
  unfolding result_of
  Defines-matched p q vs e l f v = elim (Answer-cases answer) [
    | inl (r, params, a) ↦
        (r, params, served-some p e ∙ ap (result_of (routes_for p) method segments) a)
    | inr (inl a) ↦ absurd ((decide_by-refused rows method segments [] a).0 q vs l f v)
    | inr (inr (m, ms, a)) ↦
        absurd ((decide_by-refused rows method segments (m ∷ ms) a).0 q vs l f v)
  ]
