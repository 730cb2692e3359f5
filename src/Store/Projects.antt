-- ===== src/Store/Projects.antt =====
-- The operations on projects keep a consistent database consistent.
use restest.Base.{
  ℕ, ◌≡◌, refl, sym, ap, ap₂, subst, ◌∙◌, inl, inr, Bool, true, false, not, ◌&&◌, ◌||◌, List, [],
  ◌∷◌, ◌++◌, arith, All, Bytes, same, same_iff, same_sym, Bool-cases, Option-cases,
}
use restest.Fields.{FieldErrors}
use restest.Forms.Slug.{validate_slug}
use restest.Forms.Account.{validate_project_name}
use restest.Collections.{SeedResult, seeded, refused, panicked}
use restest.Collections.Store.{new_row, has_name, seeding, reseeded}
use restest.Endpoints.{insert_endpoint}
use restest.Projects.{
  Dataset, Fresh, normalize_project, dataset_collection, dataset_endpoint, endpoint_added,
  seeded_then, install_dataset, install_all, store_project, or_invalid, picks, renamed,
  rename_project, update_project, delete_project,
}
use restest.Store.{IsNewEndpoint, IsNewProject}
use restest.Store.Endpoints.{insert_endpoint-IsConsistent}
use restest.Store.Collections.{collection-added}
use restest.Store.Tables.{
  clash, same_project, IsSound, IsConsistent, projects-changed, exists_by-update_by,
  exists_by-delete_other, delete_by-kept,
}
use restest.Database.{
  Database, Project, EndpointRow, Outcome, Sql, row, no_rows, unique_violation, check_violation,
  text_refused, owns, find_by, exists_by, update_by, delete_by, exists_by-append,
}
use restest.Database.Apart.{IsApart-snoc, IsApart-update_by, IsApart-delete_by, All-exists_by_none}

endpoint_added_1 : (a : Sql EndpointRow × Database) → (endpoint_added a).1 ≡ a.1
endpoint_added_1 (row r, db) = refl
endpoint_added_1 (no_rows, db) = refl
endpoint_added_1 (unique_violation, db) = refl
endpoint_added_1 (check_violation, db) = refl
endpoint_added_1 (text_refused, db) = refl

seeded_then-IsConsistent :
    (r : SeedResult) (rest : Outcome Unit × Database) (db : Database)
    → IsConsistent rest.1
    → IsConsistent db
    → IsConsistent (seeded_then r rest db).1
seeded_then-IsConsistent (seeded docs next) rest db h k = h
seeded_then-IsConsistent (refused e) rest db h k = k
seeded_then-IsConsistent panicked rest db h k = k

pub install_dataset-IsConsistent :
    (fresh : Fresh) (owner project : Bytes) (d : Dataset) (db : Database)
    → IsConsistent db
    → IsNewEndpoint (fresh.endpoint d.name) db
    → IsConsistent (install_dataset fresh owner project d db).1
unfolding install_dataset
install_dataset-IsConsistent fresh owner project d db h new =
    let c = new_row (fresh.collection d.name) project (dataset_collection d) d.seed in
    let r = seeding fresh.uuids c in
    let db' : Database = record db { collections = db.collections ++ reseeded r c ∷ [] } in
    let k = collection-added db (reseeded r c) h in
    elim (Bool-cases
      (not (owns owner project db) || exists_by (has_name project d.name) db.collections)) [
        | inl e ↦ rw (e, install_dataset) h
        | inr e ↦
            rw (e, install_dataset)
              (seeded_then-IsConsistent r _ db'
                (subst IsConsistent
                  (sym (
                    endpoint_added_1 (
                      insert_endpoint (fresh.endpoint d.name) fresh.now owner project
                        (dataset_endpoint d c.id) db')))
                  (insert_endpoint-IsConsistent (fresh.endpoint d.name) fresh.now owner project
                    (dataset_endpoint d c.id) db' k new))
                k)
      ]

same_project_sym : (p q : Project) → same_project p q ≡ same_project q p
same_project_sym p q = ap₂ ◌||◌ (same_sym p.id q.id) (same_sym p.slug q.slug)

clear_project :
    (p : Project) (qs : List Project)
    → All (λ q. same q.id p.id ≡ false) qs
    → All (λ q. same q.slug p.slug ≡ false) qs
    → All (λ q. same_project q p ≡ false) qs
clear_project p [] h k = tt
clear_project p (q ∷ qs) (a, h) (b, k) = (ap₂ ◌||◌ a b, clear_project p qs h k)

project-added :
    (db : Database) (p : Project)
    → IsConsistent db
    → exists_by (λ q. same q.id p.id) db.projects ≡ false
    → exists_by (λ q. same q.slug p.slug) db.projects ≡ false
    → IsConsistent (record db { projects = db.projects ++ p ∷ [] })
project-added db p h new free =
    projects-changed db h (db.projects ++ p ∷ [])
      (λ id. exists_by-append (λ q. same q.id id) db.projects (p ∷ []))
      (IsApart-snoc same_project db.projects p h.slugs (
        clear_project p db.projects (All-exists_by_none (λ q. same q.id p.id) db.projects new)
          (All-exists_by_none (λ q. same q.slug p.slug) db.projects free)))

pub store_project-IsConsistent :
    (fresh : Fresh) (owner slug name : Bytes) (is_demo : Bool) (db : Database)
    → IsConsistent db
    → IsNewProject fresh.project db
    → IsConsistent (store_project fresh owner slug name is_demo [] db).1
unfolding store_project install_all
store_project-IsConsistent fresh owner slug name is_demo db h new =
    elim (Bool-cases (exists_by (λ q. same q.slug slug) db.projects)) [
      | inl e ↦ rw (e, store_project) h
      | inr e ↦
          rw (e, store_project)
            (project-added db
              (record {
                id = fresh.project;
                owner_id = owner;
                slug = slug;
                name = name;
                is_demo = is_demo;
                created_at = fresh.now;
                updated_at = fresh.now;
              })
              h new e)
    ]

or_invalid-IsConsistent :
    {A : Type 0} (fe : FieldErrors) (rest : Outcome A × Database) (db : Database)
    → IsConsistent db
    → IsConsistent rest.1
    → IsConsistent (or_invalid fe rest db).1
or_invalid-IsConsistent [] rest db h k = k
or_invalid-IsConsistent (e ∷ fe) rest db h k = h

Clear_project :
    (owner id slug name : Bytes) (now : ℕ) (qs : List Project)
    → All (λ q. (not (same q.id id) && same q.slug slug) ≡ false) qs
    → All
        (λ q.
          same q.id id ≡ false
          → (w : Project) → picks owner id w ≡ true
          → same_project q (renamed now slug name w) ≡ false)
        qs
Clear_project owner id slug name now [] h = tt
Clear_project owner id slug name now (q ∷ qs) (p, h) = (
  λ other w t.
      let named : w.id ≡ id = (same_iff w.id id).0 (ground arith) in
      ap₂ ◌||◌ (ap (same q.id) named ∙ other) (ground (arith, other, p)),
  Clear_project owner id slug name now qs h,
)

rename_project-IsConsistent :
    (now : ℕ) (owner id slug name : Bytes) (db : Database)
    → IsConsistent db
    → IsConsistent (rename_project now owner id slug name db).1
unfolding rename_project
rename_project-IsConsistent now owner id slug name db h =
    elim (Option-cases (find_by (picks owner id) db.projects)) [
      | inl e ↦ rw (e, rename_project) h
      | inr (p, e) ↦
          let taken = exists_by (λ q. not (same q.id id) && same q.slug slug) db.projects in
          rw (e, rename_project)
            (elim (Bool-cases taken) [
              | inl k ↦ rw k h
              | inr k ↦ rw k (
                  projects-changed db h
                    (update_by (picks owner id) (renamed now slug name) db.projects)
                    (λ i there.
                      exists_by-update_by (λ q. same q.id i) (picks owner id)
                        (renamed now slug name) db.projects (λ _. refl)
                      ∙ there)
                    (IsApart-update_by same_project same_project_sym (picks owner id)
                      (λ q. same q.id id) (λ q t. ground arith)
                      (λ q w a b.
                        ap (λ c. c || same q.slug w.slug)
                          ((same_iff q.id w.id).1
                            ((same_iff q.id id).0 a ∙ sym ((same_iff w.id id).0 b))))
                      (renamed now slug name) db.projects h.slugs
                      (Clear_project owner id slug name now db.projects (
                        All-exists_by_none (λ q. not (same q.id id) && same q.slug slug) db.projects
                          k))))
            ])
    ]

pub update_project-IsConsistent :
    (now : ℕ) (owner id slug name : Bytes) (db : Database)
    → IsConsistent db
    → IsConsistent (update_project now owner id slug name db).1
unfolding update_project
update_project-IsConsistent now owner id slug name db h =
    let (slug', name') = normalize_project slug name in
    or_invalid-IsConsistent (validate_project_name name' (validate_slug slug' [])) _ db h
      (rename_project-IsConsistent now owner id slug' name' db h)

-- An endpoint of another project keeps its project and its collection.
stays-IsSound :
    (owner id : Bytes) (db : Database) (r : EndpointRow)
    → IsSound db.projects db.collections r
    → same r.project_id id ≡ false
    → IsSound
        (delete_by (picks owner id) db.projects)
        (delete_by (λ c. same c.project_id id) db.collections)
        r
stays-IsSound owner id db r (checked, housed, bound) other = (
  checked,
  exists_by-delete_other (λ p. same p.id r.project_id) (picks owner id) db.projects
        (λ p t. ground (arith, other, same_iff p.id r.project_id))
      ∙ housed,
  λ c e.
      exists_by-delete_other (λ k. same k.id c && same k.project_id r.project_id)
        (λ k. same k.project_id id) db.collections
        (λ k t. ground (arith, other, same_iff k.project_id r.project_id))
      ∙ bound c e,
)

pub delete_project-IsConsistent :
    (owner id : Bytes) (db : Database)
    → IsConsistent db
    → IsConsistent (delete_project owner id db).1
unfolding delete_project
delete_project-IsConsistent owner id db h =
    elim (Option-cases (find_by (picks owner id) db.projects)) [
      | inl e ↦ rw (e, delete_project) h
      | inr (p, e) ↦
          rw (e, delete_project)
            (record {
              sound =
                  delete_by-kept (IsSound db.projects db.collections)
                    (IsSound (delete_by (picks owner id) db.projects)
                      (delete_by (λ c. same c.project_id id) db.collections))
                    (λ r. same r.project_id id) db.endpoints (stays-IsSound owner id db) h.sound;
              routes = IsApart-delete_by clash (λ r. same r.project_id id) db.endpoints h.routes;
              slugs = IsApart-delete_by same_project (picks owner id) db.projects h.slugs;
            })
    ]
