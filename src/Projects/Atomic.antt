-- ===== src/Projects/Atomic.antt =====
-- `CreateProject`: the project and its data sets in one transaction.
use restest.Base.{
  ◌≡◌, refl, sym, ap, subst, ◌∙◌, ◌⊎◌, inl, inr, Bool, true, false, not, ◌&&◌, ◌||◌, List, [], ◌∷◌,
  ◌++◌, append-nil, append_assoc, Bytes, same, same_refl, All, Bool-cases,
}
use restest.Fields.{FieldErrors}
use restest.Collections.{SeedResult, seeded, refused, panicked}
use restest.Collections.Store.{new_row, has_name, seeding, reseeded}
use restest.Endpoints.{with_input, blank_row, insert_endpoint}
use restest.Endpoints.Steps.{insert_endpoint-row}
use restest.Projects.{
  Dataset, Fresh, normalize_project, dataset_collection, dataset_endpoint, endpoint_added,
  seeded_then, install_dataset, go_on, install_all, committed, store_project, or_invalid,
  check_project, create_project,
}
use restest.Database.{
  Database, Project, CollectionRow, EndpointRow, Outcome, ok, failed, invalid, slug_taken,
  StoreError, Sql, row, no_rows, unique_violation, check_violation, text_refused, owns, exists_by,
  exists_by-snoc, exists_by-append,
}

-- An endpoint of the project at the path.
abbrev at_path : Bytes → Bytes → EndpointRow → Bool
at_path project name r = same r.project_id project && same r.path_pattern (b'/' ∷ name)

-- The data set is there: a collection of its name and an endpoint at its path.
abbrev pub IsInstalled : Bytes → Database → Dataset → Type 0
IsInstalled project db d =
    (exists_by (has_name project d.name) db.collections ≡ true)
    × (exists_by (at_path project d.name) db.endpoints ≡ true)

-- Rows were added behind those that were there.
abbrev Grew : Database → Database → Type 0
Grew db db' =
    (db'.projects ≡ db.projects)
    × ((cs : List CollectionRow) × (db'.collections ≡ db.collections ++ cs))
    × ((es : List EndpointRow) × (db'.endpoints ≡ db.endpoints ++ es))

endpoint_added-ok :
    (a : Sql EndpointRow × Database) (db : Database)
    → endpoint_added a ≡ (ok tt, db)
    → (r : EndpointRow) × (a ≡ (row r, db))
endpoint_added-ok (row r, db') db h = (r, ap (λ q. (row r, q)) (ap (λ q. q.1) h))
endpoint_added-ok (no_rows, db') db h = cc
endpoint_added-ok (unique_violation, db') db h = cc
endpoint_added-ok (check_violation, db') db h = cc
endpoint_added-ok (text_refused, db') db h = cc

seeded_then-ok :
    (r : SeedResult) (rest : Outcome Unit × Database) (db after : Database)
    → seeded_then r rest db ≡ (ok tt, after)
    → rest ≡ (ok tt, after)
seeded_then-ok (seeded docs next) rest db after h = h
seeded_then-ok (refused e) rest db after h = cc
seeded_then-ok panicked rest db after h = cc

module _ (fresh : Fresh) (owner project : Bytes) where
  abbrev made : Dataset → CollectionRow
  made d = new_row (fresh.collection d.name) project (dataset_collection d) d.seed

  abbrev served : Dataset → EndpointRow
  served d =
      with_input (dataset_endpoint d (fresh.collection d.name))
        (blank_row (fresh.endpoint d.name) project fresh.now)

  installed_row :
      (d : Dataset) (db after : Database)
      → endpoint_added (
          insert_endpoint
            (fresh.endpoint d.name)
            fresh.now
            owner
            project
            (dataset_endpoint d (fresh.collection d.name))
            db)
        ≡ (ok tt, after)
      → after ≡ record db { endpoints = db.endpoints ++ served d ∷ [] }
  installed_row d db after h =
      let (r, e) = endpoint_added-ok _ after h in
      let (_, _, _, _, kept) =
        insert_endpoint-row (fresh.endpoint d.name) fresh.now owner project
          (dataset_endpoint d (fresh.collection d.name)) db r after e in
      kept

  install_dataset-ok :
      (d : Dataset) (db after : Database)
      → install_dataset fresh owner project d db ≡ (ok tt, after)
      → after ≡ record db {
        collections = db.collections ++ reseeded (seeding fresh.uuids (made d)) (made d) ∷ [];
        endpoints = db.endpoints ++ served d ∷ [];
      }
  unfolding install_dataset new_row
  install_dataset-ok d db after h =
      elim (Bool-cases
        (not (owns owner project db) || exists_by (has_name project d.name) db.collections)) [
          | inl e ↦ cc (rw (e, install_dataset) at h)
          | inr e ↦ installed_row d _ after (
              seeded_then-ok (seeding fresh.uuids (made d)) _ _ after
                (rw (e, install_dataset) at h))
        ]

  Grew-trans : (a b c : Database) → Grew a b → Grew b c → Grew a c
  Grew-trans a b c (p, (cs, h), (es, k)) (q, (cs', h'), (es', k')) = (
    q ∙ p,
    (cs ++ cs', h' ∙ (ap (λ l. l ++ cs') h ∙ append_assoc a.collections cs cs')),
    (es ++ es', k' ∙ (ap (λ l. l ++ es') k ∙ append_assoc a.endpoints es es')),
  )

  IsInstalled-Grew :
      (d : Dataset) (a b : Database) → Grew a b → IsInstalled project a d → IsInstalled project b d
  IsInstalled-Grew d a b (_, (cs, h), (es, k)) (c, e) = (
    subst (λ l. exists_by (has_name project d.name) l ≡ true) (sym h)
        (exists_by-append (has_name project d.name) a.collections cs c),
    subst (λ l. exists_by (at_path project d.name) l ≡ true) (sym k)
        (exists_by-append (at_path project d.name) a.endpoints es e),
  )

  IsInstalled-now :
      (d : Dataset) (db : Database)
      → IsInstalled project
          (record db {
            collections = db.collections ++ reseeded (seeding fresh.uuids (made d)) (made d) ∷ [];
            endpoints = db.endpoints ++ served d ∷ [];
          })
          d
  unfolding new_row with_input
  IsInstalled-now d db = (
    exists_by-snoc (has_name project d.name) db.collections _
        (rw (same_refl project, same_refl d.name) refl),
    exists_by-snoc (at_path project d.name) db.endpoints _
        (rw (same_refl project, same_refl (b'/' ∷ d.name)) refl),
  )

  go_on-ok :
      (a : Outcome Unit × Database) (f : Database → Outcome Unit × Database) (after : Database)
      → go_on a f ≡ (ok tt, after)
      → (db : Database) × (a ≡ (ok tt, db)) × (f db ≡ (ok tt, after))
  go_on-ok (ok tt, db) f after h = (db, refl, h)
  go_on-ok (failed e, db) f after h = cc

  install_all-ok :
      (ds : List Dataset) (db after : Database)
      → install_all fresh owner project ds db ≡ (ok tt, after)
      → Grew db after × All (IsInstalled project after) ds
  unfolding install_all
  install_all-ok [] db after h =
      let e : db ≡ after = ap (λ a. a.1) h in
      subst (λ d. Grew db d × Unit) e
        ((refl, ([], sym (append-nil db.collections)), ([], sym (append-nil db.endpoints))), tt)
  install_all-ok (d ∷ ds) db after h =
      let (mid, e, rest) = go_on-ok (install_dataset fresh owner project d db) _ after h in
      let (grew, all) = install_all-ok ds mid after rest in
      let mid_is = install_dataset-ok d db mid e in
      let first : Grew db mid = subst (Grew db) (sym mid_is) (
        refl,
        (reseeded (seeding fresh.uuids (made d)) (made d) ∷ [], refl),
        (served d ∷ [], refl),
      ) in
      let there : IsInstalled project mid d =
        subst (λ m. IsInstalled project m d) (sym mid_is) (IsInstalled-now d db) in
      (Grew-trans db mid after first grew, (IsInstalled-Grew d mid after grew there, all))

-- What a creation leaves: the database as it was, with an error, or the project and all that its data
-- sets add to it.
abbrev pub AllOrNothing : List Dataset → Database → Outcome Project × Database → Type 0
AllOrNothing chosen db result =
    ((e : StoreError) × (result ≡ (failed e, db)))
    ⊎ ((p : Project) × (after : Database) × (result ≡ (ok p, after))
        × (exists_by (λ q. same q.slug p.slug) db.projects ≡ false)
        × (after.projects ≡ db.projects ++ p ∷ [])
        × All (IsInstalled p.id after) chosen)

Outcome-cases :
    (a : Outcome Unit × Database) → (a.0 ≡ ok tt) ⊎ ((e : StoreError) × (a.0 ≡ failed e))
Outcome-cases (ok tt, db) = inl refl
Outcome-cases (failed e, db) = inr (e, refl)

or_invalid-AllOrNothing :
    (fe : FieldErrors) (chosen : List Dataset) (result : Outcome Project × Database) (db : Database)
    → AllOrNothing chosen db result
    → AllOrNothing chosen db (or_invalid fe result db)
or_invalid-AllOrNothing [] chosen result db h = h
or_invalid-AllOrNothing (e ∷ fe) chosen result db h = inl (invalid (e ∷ fe), refl)

committed-AllOrNothing :
    (p : Project) (chosen : List Dataset) (db : Database) (result : Outcome Unit × Database)
    → exists_by (λ q. same q.slug p.slug) db.projects ≡ false
    → ((after : Database)
        → result ≡ (ok tt, after)
        → (after.projects ≡ db.projects ++ p ∷ []) × All (IsInstalled p.id after) chosen)
    → AllOrNothing chosen db (committed p db result)
committed-AllOrNothing p chosen db (ok _, after) free h =
    let (grown, all) = h after refl in inr (p, after, refl, free, grown, all)
committed-AllOrNothing p chosen db (failed e, after) free h = inl (e, refl)

store_project_free :
    (fresh : Fresh) (owner slug name : Bytes) (chosen : List Dataset) (db : Database)
    → exists_by (λ q. same q.slug slug) db.projects ≡ false
    → store_project fresh owner slug name false chosen db ≡ (
        let p : Project = record {
          id = fresh.project;
          owner_id = owner;
          slug = slug;
          name = name;
          is_demo = false;
          created_at = fresh.now;
          updated_at = fresh.now;
        } in
        committed p db
          (install_all fresh owner p.id chosen (record db { projects = db.projects ++ p ∷ [] })))
unfolding store_project
store_project_free fresh owner slug name chosen db e = rw (e, store_project) refl

store_project-AllOrNothing :
    (fresh : Fresh) (owner slug name : Bytes) (chosen : List Dataset) (db : Database)
    → AllOrNothing chosen db (store_project fresh owner slug name false chosen db)
unfolding store_project
store_project-AllOrNothing fresh owner slug name chosen db =
    elim (Bool-cases (exists_by (λ q. same q.slug slug) db.projects)) [
      | inl e ↦ inl (slug_taken, rw (e, store_project) refl)
      | inr e ↦
          let p : Project = record {
            id = fresh.project;
            owner_id = owner;
            slug = slug;
            name = name;
            is_demo = false;
            created_at = fresh.now;
            updated_at = fresh.now;
          } in
          subst (AllOrNothing chosen db)
            (sym (store_project_free fresh owner slug name chosen db e))
            (committed-AllOrNothing p chosen db _ e (λ after h.
              let (grew, all) = install_all-ok fresh owner fresh.project chosen _ after h in
              (grew.0, all)))
    ]

-- Creating a project, with the data sets that were chosen, leaves everything as it was and answers an
-- error, or adds a project whose slug was free and, for each data set, a collection of its name and
-- an endpoint at its path: no error leaves a part of it behind.
pub create_project-AllOrNothing :
    (builtin : List Dataset) (fresh : Fresh) (owner slug name : Bytes) (names : List Bytes)
    (db : Database)
    → AllOrNothing
        (check_project builtin
          (normalize_project slug name).0
          (normalize_project slug name).1
          names).1
        db
        (create_project builtin fresh owner slug name names db)
unfolding create_project
create_project-AllOrNothing builtin fresh owner slug name names db =
    or_invalid-AllOrNothing
      (check_project builtin (normalize_project slug name).0 (normalize_project slug name).1
        names).0
      _ _ db
      (store_project-AllOrNothing fresh owner (normalize_project slug name).0
        (normalize_project slug name).1 _ db)
