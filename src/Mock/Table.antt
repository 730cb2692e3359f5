-- ===== src/Mock/Table.antt =====
-- internal/mock/table.go: the immutable table of every project's routes. `BuildTable` logs a warning
-- for each shadowed route; the model returns them beside the table.
use restest.Base.{
  ℕ, ◌+◌, Bool, true, false, List, [], ◌∷◌, ◌++◌, Option, none, some, length, Bytes, lookup, put,
  join,
}
use restest.Mock.Route.{MockEndpoint, Route, expand}
use restest.Mock.Trie.{Node, empty_node, insert_at}
use restest.Mock.Trie.Answer.{Answer, answered, refused, lookup_route}
use restest.Mock.Request.{split_request_path}
use restest.Mock.Nearest.{Ref, nearest, nearest_limit}
use restest.Paths.{split_path}

pub record MockProject : Type 0 where
  pub id : Bytes
  pub slug : Bytes

pub record MockData : Type 0 where
  pub projects : List MockProject
  pub endpoints : List MockEndpoint

pub record ProjectRoutes : Type 0 where
  pub project : MockProject
  pub trie : Node
  pub refs : List Ref

abbrev pub Table : Type 0
Table = List (Bytes × ProjectRoutes)

pub record Warning : Type 0 where
  pub project : Bytes
  pub method : Bytes
  pub shadowed : Bytes
  pub serving : Bytes

unfoldable pub insert : Route → Node → Node × Option Route
unfolding insert_at split_path
insert r root = insert_at r (split_path r.path) root

unfoldable pub add_projects : List MockProject → Table → Table
unfolding put
add_projects [] t = t
add_projects (p ∷ ps) t =
    add_projects ps (put p.slug (record { project = p; trie = empty_node; refs = [] }) t)

abbrev warn : MockEndpoint → Route → Option Route → List Warning
warn e r none = []
warn e r (some existing) =
    record {
      project = e.project_slug;
      method = r.method;
      shadowed = r.path;
      serving = existing.path;
    }
    ∷ []

-- The inner loop of `BuildTable`.
unfoldable pub add_routes : MockEndpoint → List Route → ProjectRoutes → ProjectRoutes × List Warning
unfolding insert
add_routes e [] p = (p, [])
add_routes e (r ∷ rs) p =
    let (trie', existing) = insert r p.trie in
    let p' : ProjectRoutes = record p {
      trie = trie';
      refs = p.refs ++ record { method = r.method; path = r.path } ∷ [];
    } in
    let (q, ws) = add_routes e rs p' in (q, warn e r existing ++ ws)

-- The outer loop. An endpoint of a project that is not listed is dropped.
unfoldable pub add_endpoints : List MockEndpoint → Table → Table × List Warning
unfolding lookup put add_routes expand
add_endpoints [] t = (t, [])
add_endpoints (e ∷ es) t = elim (lookup e.project_slug t) [
  | none ↦ add_endpoints es t
  | some p ↦
      let (p', ws) = add_routes e (expand e) p in
      let (t', ws') = add_endpoints es (put e.project_slug p' t) in (t', ws ++ ws')
]

unfoldable pub build_table : MockData → Table × List Warning
unfolding add_endpoints add_projects
build_table d = add_endpoints d.endpoints (add_projects d.projects [])

pub data Result : Type 0 where
  matched : MockProject → Route → List (Bytes × Bytes) → Result
  no_project : Result
  wrong_method : MockProject → List Bytes → Result
  no_route : MockProject → List Ref → Result

-- The `switch` of `Lookup`.
unfoldable pub result_of : ProjectRoutes → Bytes → List Bytes → Answer → Result
unfolding nearest join
result_of p method segments (answered r params) = matched p.project r params
result_of p method segments (refused []) =
    no_route p.project (nearest p.refs method (b'/' ∷ join b'/' segments) nearest_limit)
result_of p method segments (refused (m ∷ ms)) = wrong_method p.project (m ∷ ms)

unfoldable pub lookup_table : Table → Bytes → Bytes → Bytes → Result
unfolding lookup lookup_route split_request_path result_of
lookup_table t slug method path = elim (lookup slug t) [
  | none ↦ no_project
  | some p ↦
      let segments = split_request_path path in
      result_of p method segments (lookup_route method segments p.trie)
]

unfoldable pub has_project : Table → Bytes → Bool
unfolding lookup
has_project t slug = elim (lookup slug t) [ none ↦ false | some _ ↦ true ]

unfoldable pub route_count : Table → ℕ
route_count [] = 0
route_count ((_, p) ∷ t) = length p.refs + route_count t

unfoldable pub project_count : Table → ℕ
project_count t = length t
