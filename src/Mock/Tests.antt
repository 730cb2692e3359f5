-- ===== src/Mock/Tests.antt =====
-- Runs of the matcher on a small project, and the theorems at it.
use restest.Base.{
  ◌≡◌, refl, ◌≢◌, ◌↔◌, ◌⊎◌, inl, inr, true, List, [], ◌∷◌, Bytes, codes, contains, same, none, some,
}
use restest.Paths.{split_path}
use restest.Paths.Validate.{IsPattern, validate_path, validate_path_iff}
use restest.Mock.Route.{MockEndpoint, Route, respond, expand}
use restest.Mock.Trie.{empty_node}
use restest.Mock.Request.{split_request_path}
use restest.Mock.Trie.Answer.{lookup_route}
use restest.Mock.Trie.Shapes.{part_of, shape_of, find}
use restest.Mock.Trie.Fits.{Fits, done, exactly, anything}
use restest.Mock.Nearest.{Ref, edit_distance}
use restest.Mock.Nearest.Distance.{IsDistance, edit_distance-IsDistance}
use restest.Mock.Nearest.Ranking.{Ranking, nearest-Ranking}
use restest.Mock.Matching.{pattern_of, Listed, Verb, insert_all}
use restest.Mock.Serves.{Serves, Defines, decide_by, lookup_route-decide_by}
use restest.Mock.Build.{routes_of, last_project}
use restest.Mock.Lookup.{
  rows, segments, served, NothingFits, matched-Serves, wrong_method-Defines, no_route_iff,
  Defines-matched,
}
use restest.Mock.Router.{
  new_router, reload_all, lookup_router, last_loaded, no_data, lookup_router-reload_all,
}
use restest.Mock.Table.{
  MockProject, MockData, Result, matched, no_project, wrong_method, no_route, build_table,
  lookup_table,
}

abbrev endpoint : Bytes → Bytes → Bytes → MockEndpoint
endpoint kind method path = record {
  id = codes "e";
  project_id = codes "p";
  method = method;
  path = path;
  kind = kind;
  is_enabled = true;
  delay_ms = 0;
  status_code = 200;
  body = [];
  collection_id = [];
  headers = [];
  created_at = 0;
  updated_at = 0;
  project_slug = codes "shop";
}

abbrev sample : MockData
sample = record {
  projects = record { id = codes "p"; slug = codes "shop" } ∷ [];
  endpoints =
      endpoint (codes "static") (codes "GET") (codes "/a/b/c")
      ∷ endpoint (codes "static") (codes "POST") (codes "/{x}/b/d")
      ∷ endpoint (codes "collection") (codes "*") (codes "/users")
      ∷ endpoint (codes "static") (codes "GET") (codes "/users/me")
      ∷ [];
}

-- What a test compares of a result.
abbrev summary : Result → Bytes × List (Bytes × Bytes)
summary (matched p r ps) = (r.path, ps)
summary no_project = (codes "no project", [])
summary (wrong_method p []) = (codes "?", [])
summary (wrong_method p (m ∷ ms)) = (m, [])
summary (no_route p rs) = (codes "no route", [])

abbrev ask : Bytes → Bytes → Bytes × List (Bytes × Bytes)
ask method path = summary (lookup_table (build_table sample).0 (codes "shop") method path)

backtracks : ask (codes "POST") (codes "/a/b/d") ≡ (codes "/{x}/b/d", (codes "x", codes "a") ∷ [])
unfolding build_table lookup_table
backtracks = refl

literal_first : ask (codes "HEAD") (codes "/users/me") ≡ (codes "/users/me", [])
unfolding build_table lookup_table
literal_first = refl

encoded_slash :
    ask (codes "PUT") (codes "/users/a%2Fb") ≡ (codes "/users/{id}", (codes "id", codes "a/b") ∷ [])
unfolding build_table lookup_table
encoded_slash = refl

wrong_verb : ask (codes "DELETE") (codes "/users/") ≡ (codes "GET", [])
unfolding build_table lookup_table
wrong_verb = refl

nothing_there : ask (codes "GET") (codes "/nowhere") ≡ (codes "no route", [])
unfolding build_table lookup_table
nothing_there = refl

kitten : edit_distance (codes "kitten") (codes "sitting") ≡ 3
unfolding edit_distance
kitten = refl

abbrev shop : MockProject
shop = record { id = codes "p"; slug = codes "shop" }

abbrev slug : Bytes
slug = codes "shop"

abbrev bd_route : Route
bd_route = record {
  endpoint = endpoint (codes "static") (codes "POST") (codes "/{x}/b/d");
  params = codes "x" ∷ [];
  op = respond;
}

bd_served :
    served sample slug (codes "POST") (codes "/a/b/d")
    ≡ matched shop bd_route ((codes "x", codes "a") ∷ [])
unfolding build_table lookup_table
bd_served = refl

matched-Serves_example :
    (last_project slug sample.projects ≡ some shop)
    × Serves
        (rows sample slug (codes "POST") (codes "/a/b/d"))
        (codes "POST")
        (segments sample slug (codes "POST") (codes "/a/b/d"))
        bd_route
        ((codes "x", codes "a") ∷ [])
matched-Serves_example =
    matched-Serves sample slug (codes "POST") (codes "/a/b/d") shop bd_route
      ((codes "x", codes "a") ∷ []) bd_served

shop_listed : last_project slug sample.projects ≡ some shop
unfolding last_project
shop_listed = refl

bd-Listed : Listed bd_route (rows sample slug (codes "POST") (codes "/a/b/d"))
unfolding routes_of expand
bd-Listed = inr (inl refl)

bd-Fits :
    Fits
      (pattern_of bd_route)
      (segments sample slug (codes "POST") (codes "/a/b/d"))
      (codes "a" ∷ [])
unfolding part_of split_request_path
bd-Fits = anything (exactly (exactly done))

Defines-matched_example :
    (r : Route) × (params : List (Bytes × Bytes)) × (served sample slug
        (codes "POST")
        (codes "/a/b/d")
      ≡ matched shop r params)
Defines-matched_example =
    Defines-matched sample slug (codes "POST") (codes "/a/b/d") shop bd_route (codes "a" ∷ [])
      shop_listed bd-Listed bd-Fits (inl refl)

users_refused :
    served sample slug (codes "DELETE") (codes "/users/")
    ≡ wrong_method shop (codes "GET" ∷ codes "HEAD" ∷ codes "POST" ∷ [])
unfolding build_table lookup_table
users_refused = refl

wrong_method-Defines_example :
    ((q : Route) (vs : List Bytes)
      → Listed q (rows sample slug (codes "DELETE") (codes "/users/"))
      → Fits (pattern_of q) (segments sample slug (codes "DELETE") (codes "/users/")) vs
      → ¬ Verb (codes "DELETE") q.method)
    × ((k : Bytes)
        → (contains k (codes "GET" ∷ codes "HEAD" ∷ codes "POST" ∷ []) ≡ true) ↔ (
            Defines
              (rows sample slug (codes "DELETE") (codes "/users/"))
              (segments sample slug (codes "DELETE") (codes "/users/"))
              k
            ⊎ ((k ≡ codes "HEAD")
                × Defines
                    (rows sample slug (codes "DELETE") (codes "/users/"))
                    (segments sample slug (codes "DELETE") (codes "/users/"))
                    (codes "GET"))))
    × (codes "GET" ∷ codes "HEAD" ∷ codes "POST" ∷ [] ≢ [])
wrong_method-Defines_example =
    wrong_method-Defines sample slug (codes "DELETE") (codes "/users/") shop
      (codes "GET" ∷ codes "HEAD" ∷ codes "POST" ∷ []) users_refused

no_route_iff_example :
    ((near : List Ref) × (served sample slug (codes "GET") (codes "/nowhere") ≡ no_route shop near))
    ↔ ((last_project slug sample.projects ≡ some shop)
        × NothingFits sample slug (codes "GET") (codes "/nowhere"))
no_route_iff_example = no_route_iff sample slug (codes "GET") (codes "/nowhere") shop

abbrev me_route : Route
me_route = record {
  endpoint = endpoint (codes "static") (codes "GET") (codes "/users/me");
  params = [];
  op = respond;
}

abbrev two_routes : List Route
two_routes = bd_route ∷ me_route ∷ []

lookup_route-decide_by_example :
    lookup_route
      (codes "POST")
      (codes "a" ∷ codes "b" ∷ codes "d" ∷ [])
      (insert_all two_routes empty_node)
    ≡ decide_by
        (find (insert_all two_routes empty_node))
        (codes "POST")
        (codes "a" ∷ codes "b" ∷ codes "d" ∷ [])
lookup_route-decide_by_example =
    lookup_route-decide_by (codes "POST") (codes "a" ∷ codes "b" ∷ codes "d" ∷ [])
      (insert_all two_routes empty_node)

edit_distance-IsDistance_example :
    IsDistance (codes "kitten") (codes "sitting") (edit_distance (codes "kitten") (codes "sitting"))
edit_distance-IsDistance_example = edit_distance-IsDistance (codes "kitten") (codes "sitting")

abbrev two_refs : List Ref
two_refs =
    record { method = codes "GET"; path = codes "/orders" }
    ∷ record { method = codes "GET"; path = codes "/users/{id}/posts" }
    ∷ []

nearest-Ranking_example : Ranking two_refs (codes "GET") (codes "/users/1/postz") 5
nearest-Ranking_example = nearest-Ranking two_refs (codes "GET") (codes "/users/1/postz") 5

abbrev post_path : Bytes
post_path = codes "/users/{id}/posts/{post}"

post_path-IsPattern : IsPattern post_path
unfolding validate_path same
post_path-IsPattern = (validate_path_iff post_path).0 refl

validate_path_iff_example : (validate_path [] post_path ≡ []) ↔ IsPattern post_path
validate_path_iff_example = validate_path_iff post_path

post-Fits :
    Fits
      (shape_of (split_path post_path))
      (codes "users" ∷ codes "7" ∷ codes "posts" ∷ codes "x" ∷ [])
      (codes "7" ∷ codes "x" ∷ [])
unfolding part_of split_path
post-Fits = exactly (anything (exactly (anything done)))

lookup_router-reload_all_example :
    lookup_router
      (reload_all (some sample ∷ none ∷ []) new_router)
      slug
      (codes "GET")
      (codes "/users/me")
    ≡ lookup_table
        (build_table (last_loaded no_data (some sample ∷ none ∷ []))).0
        slug
        (codes "GET")
        (codes "/users/me")
lookup_router-reload_all_example =
    lookup_router-reload_all (some sample ∷ none ∷ []) slug (codes "GET") (codes "/users/me")
