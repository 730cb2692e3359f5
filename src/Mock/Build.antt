-- ===== src/Mock/Build.antt =====
-- internal/mock/table.go, `BuildTable`: each project has the routes of its own endpoints.
use restest.Base.{
  ◌≡◌, refl, ap, ◌∙◌, List, [], ◌∷◌, ◌++◌, map, Option, none, some, arith, append-nil, append_assoc,
  Option-cases, Bool-cases, inl, inr, if◌then◌else◌, Bytes, same, same_iff, lookup, put, lookup-put,
}
use restest.Mock.Route.{MockEndpoint, Route, expand}
use restest.Mock.Trie.{Node, empty_node}
use restest.Mock.Nearest.{Ref}
use restest.Mock.Matching.{insert_all}
use restest.Mock.Table.{
  MockProject, MockData, ProjectRoutes, Table, insert, add_projects, add_routes, add_endpoints,
  build_table,
}

-- The routes of the endpoints of one project, in the order of the rows.
unfoldable pub routes_of : Bytes → List MockEndpoint → List Route
unfolding same
routes_of slug [] = []
routes_of slug (e ∷ es) =
    let rest = routes_of slug es in if same e.project_slug slug then expand e ++ rest else rest

abbrev pub ref_of : Route → Ref
ref_of r = record { method = r.method; path = r.path }

insert_all-append :
    (rs qs : List Route) (n : Node) → insert_all (rs ++ qs) n ≡ insert_all qs (insert_all rs n)
unfolding insert_all
insert_all-append [] qs n = refl
insert_all-append (r ∷ rs) qs n = insert_all-append rs qs (insert r n).0

-- A project with more routes.
abbrev pub extend : List Route → ProjectRoutes → ProjectRoutes
extend rs p = record p { trie = insert_all rs p.trie; refs = p.refs ++ map ref_of rs }

add_routes-extend :
    (e : MockEndpoint) (rs : List Route) (p : ProjectRoutes) → (add_routes e rs p).0 ≡ extend rs p
unfolding add_routes insert_all
add_routes-extend e [] p = ground (arith, append-nil p.refs)
add_routes-extend e (r ∷ rs) p =
    let p' : ProjectRoutes = record p {
      trie = (insert r p.trie).0;
      refs = p.refs ++ ref_of r ∷ [];
    } in
    add_routes-extend e rs p' ∙ ground (arith, append_assoc p.refs (ref_of r ∷ []) (map ref_of rs))

map-ref_of-append : (rs qs : List Route) → map ref_of (rs ++ qs) ≡ map ref_of rs ++ map ref_of qs
map-ref_of-append [] qs = refl
map-ref_of-append (r ∷ rs) qs = ap (λ l. ref_of r ∷ l) (map-ref_of-append rs qs)

extend-append :
    (rs qs : List Route) (p : ProjectRoutes) → extend qs (extend rs p) ≡ extend (rs ++ qs) p
extend-append rs qs p = ground (
  arith,
  insert_all-append rs qs p.trie,
  map-ref_of-append rs qs,
  append_assoc p.refs (map ref_of rs) (map ref_of qs),
)

-- One round of the outer loop, seen from any slug.
after : MockEndpoint → Table → Table
unfolding add_routes
after e t = elim (lookup e.project_slug t) [
  | none ↦ t
  | some p ↦ put e.project_slug (add_routes e (expand e) p).0 t
]

add_endpoints-after :
    (e : MockEndpoint) (es : List MockEndpoint) (t : Table)
    → (add_endpoints (e ∷ es) t).0 ≡ (add_endpoints es (after e t)).0
unfolding add_endpoints after
add_endpoints-after e es t = ground arith

lookup-after :
    (e : MockEndpoint) (t : Table) (slug : Bytes) (p : ProjectRoutes)
    → lookup slug t ≡ some p
    → lookup slug (after e t) ≡ some (if same e.project_slug slug then extend (expand e) p else p)
unfolding after
lookup-after e t slug p h = elim (Option-cases (lookup e.project_slug t)) [
  | inl missing ↦ ground (arith, same_iff e.project_slug slug)
  | inr (q, there) ↦ ground (
    arith,
    same_iff e.project_slug slug,
    lookup-put e.project_slug slug (add_routes e (expand e) q).0 t,
    add_routes-extend e (expand e) q,
  )
]

lookup-after-none :
    (e : MockEndpoint) (t : Table) (slug : Bytes)
    → lookup slug t ≡ none
    → lookup slug (after e t) ≡ none
unfolding after
lookup-after-none e t slug h = elim (Option-cases (lookup e.project_slug t)) [
  | inl missing ↦ ground arith
  | inr (q, there) ↦ ground (
    arith,
    same_iff e.project_slug slug,
    lookup-put e.project_slug slug (add_routes e (expand e) q).0 t,
  )
]

extend-routes :
    (e : MockEndpoint) (es : List MockEndpoint) (slug : Bytes) (p : ProjectRoutes)
    → extend (routes_of slug es) (if same e.project_slug slug then extend (expand e) p else p)
      ≡ extend (routes_of slug (e ∷ es)) p
unfolding routes_of
extend-routes e es slug p = elim (Bool-cases (same e.project_slug slug)) [
  | inl h ↦ rw h (extend-append (expand e) (routes_of slug es) p)
  | inr h ↦ rw h
]

lookup-add_endpoints :
    (es : List MockEndpoint) (t : Table) (slug : Bytes) (p : ProjectRoutes)
    → lookup slug t ≡ some p
    → lookup slug (add_endpoints es t).0 ≡ some (extend (routes_of slug es) p)
unfolding add_endpoints routes_of insert_all
lookup-add_endpoints [] t slug p h = ground (arith, append-nil p.refs)
lookup-add_endpoints (e ∷ es) t slug p h =
    let q : ProjectRoutes = if same e.project_slug slug then extend (expand e) p else p in
    ap (lookup slug) (add_endpoints-after e es t)
    ∙ (lookup-add_endpoints es (after e t) slug q (lookup-after e t slug p h)
        ∙ ap some (extend-routes e es slug p))

lookup-add_endpoints-none :
    (es : List MockEndpoint) (t : Table) (slug : Bytes)
    → lookup slug t ≡ none
    → lookup slug (add_endpoints es t).0 ≡ none
unfolding add_endpoints
lookup-add_endpoints-none [] t slug h = h
lookup-add_endpoints-none (e ∷ es) t slug h =
    ap (lookup slug) (add_endpoints-after e es t)
    ∙ lookup-add_endpoints-none es (after e t) slug (lookup-after-none e t slug h)

-- The last project of the list with the slug, which is the one that the table keeps.
unfoldable pub last_project : Bytes → List MockProject → Option MockProject
unfolding same
last_project slug [] = none
last_project slug (p ∷ ps) = elim (last_project slug ps) [
  | some q ↦ some q
  | none ↦ if same p.slug slug then some p else none
]

abbrev fresh : MockProject → ProjectRoutes
fresh p = record { project = p; trie = empty_node; refs = [] }

abbrev or_old : Option ProjectRoutes → Option MockProject → Option ProjectRoutes
or_old old none = old
or_old old (some p) = some (fresh p)

lookup-add_projects :
    (ps : List MockProject) (t : Table) (slug : Bytes)
    → lookup slug (add_projects ps t) ≡ or_old (lookup slug t) (last_project slug ps)
unfolding add_projects last_project
lookup-add_projects [] t slug = refl
lookup-add_projects (p ∷ ps) t slug = ground (
  arith,
  lookup-add_projects ps (put p.slug (fresh p) t) slug,
  lookup-put p.slug slug (fresh p) t,
)

-- The entry of a slug: a project has the routes of its own rows, in their order.
abbrev pub entry : MockData → Bytes → Option MockProject → Option ProjectRoutes
entry d slug none = none
entry d slug (some p) = some (record {
  project = p;
  trie = insert_all (routes_of slug d.endpoints) empty_node;
  refs = map ref_of (routes_of slug d.endpoints);
})

-- The entry of a slug in the table that `BuildTable` makes is there exactly if a project has the
-- slug, and holds the routes of the rows of that project, each row expanded, in the order of the
-- rows, in the trie and in the list for suggestions alike.
pub lookup-build_table :
    (d : MockData) (slug : Bytes)
    → lookup slug (build_table d).0 ≡ entry d slug (last_project slug d.projects)
unfolding build_table lookup
lookup-build_table d slug = elim (Option-cases (last_project slug d.projects)) [
  | inl e ↦ rw e (
      lookup-add_endpoints-none d.endpoints (add_projects d.projects []) slug
        (ground (arith, lookup-add_projects d.projects [] slug)))
  | inr (p, e) ↦ rw e (
      lookup-add_endpoints d.endpoints (add_projects d.projects []) slug (fresh p)
        (ground (arith, lookup-add_projects d.projects [] slug)))
]
