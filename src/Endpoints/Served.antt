-- ===== src/Endpoints/Served.antt =====
-- `MockData` and the table that is built from it: what a created endpoint answers after a reload.
use restest.Base.{
  ℕ, ◌≡◌, refl, sym, ap, subst, ◌∙◌, inl, inr, true, false, List, [], ◌∷◌, ◌++◌, map, none, some,
  Bytes, same, same_refl, Any, Any-append_right, Bool-cases, Option-cases, sort_by, Any-sort_by,
}
use restest.Forms.Endpoint.{kind_static, kind_collection}
use restest.Paths.{path_params}
use restest.Mock.Route.{MockEndpoint, Route, respond, expand}
use restest.Mock.Trie.Fits.{Fits}
use restest.Mock.Request.{split_request_path}
use restest.Mock.Matching.{pattern_of, Listed, Verb}
use restest.Mock.Build.{routes_of, last_project}
use restest.Mock.Table.{MockProject, matched, build_table, lookup_table}
use restest.Mock.Lookup.{Defines-matched}
use restest.Endpoints.{
  Endpoint, EndpointInput, to_endpoint, blank_row, insert_endpoint, answered, normalize,
  with_normal, sent, create_endpoint, row_le, mock_endpoint, mock_project, joined, mock_data,
}
use restest.Endpoints.Steps.{sent-row, new_row, insert_endpoint-row}
use restest.Endpoints.Isolation.{with_input-project}
use restest.Database.{
  Database, Project, EndpointRow, Outcome, ok, failed, Sql, row, no_rows, unique_violation,
  check_violation, text_refused, find_by, select_by, find_by-Any, Any-select_by,
}

joined-some :
    (projects : List Project) (s : EndpointRow) (rs : List EndpointRow) (p : Project)
    → find_by (λ q. same q.id s.project_id) projects ≡ some p
    → joined projects (s ∷ rs) ≡ mock_endpoint (to_endpoint s) p.slug ∷ joined projects rs
unfolding joined
joined-some projects s rs p e = rw (e, joined) refl

joined-none :
    (projects : List Project) (s : EndpointRow) (rs : List EndpointRow)
    → find_by (λ q. same q.id s.project_id) projects ≡ none
    → joined projects (s ∷ rs) ≡ joined projects rs
unfolding joined
joined-none projects s rs e = rw (e, joined) refl

Any-joined :
    (projects : List Project) (r : EndpointRow) (p : Project) (rs : List EndpointRow)
    → find_by (λ q. same q.id r.project_id) projects ≡ some p
    → Any (λ s. s ≡ r) rs
    → Any (λ m. m ≡ mock_endpoint (to_endpoint r) p.slug) (joined projects rs)
Any-joined projects r p [] f a = absurd a
Any-joined projects r p (s ∷ rs) f (inl e) =
    let found = subst (λ t. find_by (λ q. same q.id t.project_id) projects ≡ some p) (sym e) f in
    subst (Any (λ m. m ≡ mock_endpoint (to_endpoint r) p.slug))
      (sym (joined-some projects s rs p found))
      (inl (ap (λ t. mock_endpoint (to_endpoint t) p.slug) e))
Any-joined projects r p (s ∷ rs) f (inr a) =
    let is = λ (m : MockEndpoint). m ≡ mock_endpoint (to_endpoint r) p.slug in
    elim (Option-cases (find_by (λ q. same q.id s.project_id) projects)) [
      | inl e ↦ subst (Any is) (sym (joined-none projects s rs e)) (Any-joined projects r p rs f a)
      | inr (q, e) ↦
          subst (Any is) (sym (joined-some projects s rs q e))
            (inr (Any-joined projects r p rs f a))
    ]

-- An enabled row of a project that is there is among the endpoints that are served.
row-mock_data :
    (db : Database) (r : EndpointRow) (p : Project)
    → r.is_enabled ≡ true
    → find_by (λ q. same q.id r.project_id) db.projects ≡ some p
    → Any (λ s. s ≡ r) db.endpoints
    → Any (λ m. m ≡ mock_endpoint (to_endpoint r) p.slug) (mock_data db).endpoints
unfolding mock_data
row-mock_data db r p enabled f a =
    Any-joined db.projects r p (sort_by row_le (select_by (λ s. s.is_enabled) db.endpoints)) f (
      Any-sort_by row_le (λ s. s ≡ r) (select_by (λ s. s.is_enabled) db.endpoints)
        (Any-select_by (λ s. s.is_enabled) r db.endpoints enabled a))

-- The route of a static endpoint.
abbrev pub static_route : MockEndpoint → Route
static_route e = record { endpoint = e; params = path_params e.path; op = respond }

Listed-routes_of :
    (e : MockEndpoint) (slug : Bytes) (es : List MockEndpoint)
    → same e.kind kind_collection ≡ false
    → e.project_slug ≡ slug
    → Any (λ m. m ≡ e) es
    → Listed (static_route e) (routes_of slug es)
unfolding routes_of expand
Listed-routes_of e slug [] k s a = absurd a
Listed-routes_of e slug (m ∷ es) k s (inl i) = rw (i, s, same_refl slug, k) (inl refl)
Listed-routes_of e slug (m ∷ es) k s (inr a) = elim (Bool-cases (same m.project_slug slug)) [
  | inl h ↦
      rw h (Any-append_right _ (expand m) (routes_of slug es) (Listed-routes_of e slug es k s a))
  | inr h ↦ rw h (Listed-routes_of e slug es k s a)
]

-- The slug of a project of the list has a last project.
last_project-some :
    (p : Project) (ps : List Project)
    → Any (λ q. q ≡ p) ps
    → (m : MockProject) × (last_project p.slug (map mock_project ps) ≡ some m)
unfolding last_project
last_project-some p [] a = absurd a
last_project-some p (q ∷ ps) a = elim (Option-cases (last_project p.slug (map mock_project ps))) [
  | inr (m, e) ↦ (m, rw e refl)
  | inl e ↦ elim a [
    | inl i ↦ (mock_project q, rw (e, i, same_refl p.slug) refl)
    | inr b ↦ let (m, f) = last_project-some p ps b in cc
  ]
]

answered-ok :
    (a : Sql EndpointRow × Database) (e : Endpoint) (after : Database)
    → answered a ≡ (ok e, after)
    → (r : EndpointRow) × (a ≡ (row r, after)) × (e ≡ to_endpoint r)
unfolding answered
answered-ok (row r, db) e after h = (r, ap (λ q. (row r, q)) (ap (λ q. q.1) h), cc)
answered-ok (no_rows, db) e after h = cc
answered-ok (unique_violation, db) e after h = cc
answered-ok (check_violation, db) e after h = cc
answered-ok (text_refused, db) e after h = cc

with_normal-ok :
    (o : Outcome EndpointInput) (f : EndpointInput → Outcome Endpoint × Database)
    (db after : Database) (e : Endpoint)
    → with_normal o f db ≡ (ok e, after)
    → (i : EndpointInput) × (o ≡ ok i) × (f i ≡ (ok e, after))
with_normal-ok (ok i) f db after e h = (i, refl, h)
with_normal-ok (failed x) f db after e h = cc

-- What a successful creation wrote: the row of the accepted input, behind the others.
pub created_row :
    (fresh : Bytes) (now : ℕ) (owner project : Bytes) (input : EndpointInput) (db after : Database)
    (e : Endpoint)
    → create_endpoint fresh now owner project input db ≡ (ok e, after)
    → (i : EndpointInput) × (normalize input ≡ ok i)
      × (e ≡ to_endpoint (new_row fresh now owner project i db))
      × (after
          ≡ record db { endpoints = db.endpoints ++ new_row fresh now owner project i db ∷ [] })
unfolding create_endpoint
created_row fresh now owner project input db after e h =
    let (i, n, k) = with_normal-ok (normalize input) _ db after e h in
    let answer = insert_endpoint fresh now owner project i db in
    let (r, t, is) = answered-ok (sent i db answer) e after k in
    let s = sent-row i db answer r after t in
    let (_, _, _, same_row, kept) = insert_endpoint-row fresh now owner project i db r after s in
    (i, n, is ∙ ap to_endpoint same_row, kept)

Any-last : {A : Type 0} (xs : List A) (y : A) → Any (λ x. x ≡ y) (xs ++ y ∷ [])
Any-last xs y = Any-append_right (λ x. x ≡ y) xs (y ∷ []) (inl refl)

-- A static endpoint that is created and enabled answers: once the table is built anew, every request to
-- the slug of its project whose path fits its path, and whose verb is its own, or any where it has
-- `*`, or HEAD where it has GET, is matched by a route of the project and not refused.
pub create_endpoint-matched :
    (fresh : Bytes) (now : ℕ) (owner project : Bytes) (input : EndpointInput) (db after : Database)
    (e : Endpoint) (p : Project) (method path : Bytes) (vs : List Bytes)
    → create_endpoint fresh now owner project input db ≡ (ok e, after)
    → e.is_enabled ≡ true
    → e.kind ≡ kind_static
    → find_by (λ q. same q.id project) db.projects ≡ some p
    → Fits (pattern_of (static_route (mock_endpoint e p.slug))) (split_request_path path) vs
    → Verb method e.method
    → (q : MockProject) × (r : Route) × (params : List (Bytes × Bytes)) × (lookup_table
          (build_table (mock_data after)).0
          p.slug
          method
          path
        ≡ matched q r params)
unfolding mock_endpoint mock_data same to_endpoint
create_endpoint-matched fresh now owner project input db after e p method path vs h on static found
      fits verb =
    let (i, _, is, kept) = created_row fresh now owner project input db after e h in
    let r = new_row fresh now owner project i db in
    let m = mock_endpoint e p.slug in
    let dynamic = subst (λ k. same k kind_collection ≡ false) (sym static) refl in
    let enabled : r.is_enabled ≡ true = subst (λ x. x.is_enabled ≡ true) is on in
    let same_project = with_input-project i (blank_row fresh project now) in
    let found' =
      subst (λ d. find_by (λ q. same q.id r.project_id) d.projects ≡ some p) (sym kept)
        (subst (λ x. find_by (λ q. same q.id x) db.projects ≡ some p) (sym same_project) found) in
    let there = subst (λ d. Any (λ s. s ≡ r) d.endpoints) (sym kept) (Any-last db.endpoints r) in
    let served =
      subst (λ x. Any (λ n. n ≡ mock_endpoint x p.slug) (mock_data after).endpoints) (sym is)
        (row-mock_data after r p enabled found' there) in
    let listed = Listed-routes_of m p.slug (mock_data after).endpoints dynamic refl served in
    let (q, last) =
      last_project-some p after.projects
        (find_by-Any (λ q. same q.id r.project_id) after.projects p found') in
    let (route, params, e') =
      Defines-matched (mock_data after) p.slug method path q (static_route m) vs last listed fits
        verb in
    (q, route, params, e')
