-- ===== src/Mock/Router.antt =====
-- internal/mock/router.go: the table that is served, and its reloads from the database.
use restest.Base.{ℕ, ◌≡◌, refl, Bool, true, false, List, [], ◌∷◌, Option, none, some, Bytes}
use restest.Mock.Table.{
  Table, MockData, Result, build_table, lookup_table, has_project, route_count, project_count,
}

pub record Router : Type 0 where
  pub table : Table

abbrev pub no_data : MockData
no_data = record { projects = []; endpoints = [] }

unfoldable pub new_router : Router
unfolding build_table
new_router = record { table = (build_table no_data).0 }

-- `Reload`, with what the source answers: `none` is its error. The Boolean is whether it succeeded.
unfoldable pub reload : Option MockData → Router → Bool × Router
unfolding build_table
reload none r = (false, r)
reload (some data_) r = (true, record { table = (build_table data_).0 })

-- The reloads of a process, by a change or by the timer, one after the other.
unfoldable pub reload_all : List (Option MockData) → Router → Router
unfolding reload
reload_all [] r = r
reload_all (answer ∷ answers) r = reload_all answers (reload answer r).1

unfoldable pub lookup_router : Router → Bytes → Bytes → Bytes → Result
unfolding lookup_table
lookup_router r slug method path = lookup_table r.table slug method path

unfoldable pub router_has_project : Router → Bytes → Bool
unfolding has_project
router_has_project r slug = has_project r.table slug

unfoldable pub size : Router → ℕ × ℕ
unfolding project_count route_count
size r = (project_count r.table, route_count r.table)

-- The data of the last answer that was no error, or what there was before.
unfoldable pub last_loaded : MockData → List (Option MockData) → MockData
last_loaded before [] = before
last_loaded before (none ∷ answers) = last_loaded before answers
last_loaded before (some data_ ∷ answers) = last_loaded data_ answers

reload_all-table :
    (answers : List (Option MockData)) (before : MockData)
    → (reload_all answers (record { table = (build_table before).0 })).table
      ≡ (build_table (last_loaded before answers)).0
unfolding reload_all last_loaded
reload_all-table [] before = refl
reload_all-table (none ∷ answers) before = reload_all-table answers before
reload_all-table (some data_ ∷ answers) before = reload_all-table answers data_

-- After any reloads, failed ones among them, the router serves the data of the last that succeeded,
-- and nothing before the first: a failed reload changes no answer.
pub lookup_router-reload_all :
    (answers : List (Option MockData)) (slug method path : Bytes)
    → lookup_router (reload_all answers new_router) slug method path
      ≡ lookup_table (build_table (last_loaded no_data answers)).0 slug method path
unfolding lookup_router new_router
lookup_router-reload_all answers slug method path = rw (reload_all-table answers no_data)
