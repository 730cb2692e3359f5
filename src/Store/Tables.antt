-- ===== src/Store/Tables.antt =====
-- What a consistent database is, and the changes of one table that keep it consistent.
use restest.Base.{
  ◌≡◌, refl, ap, ◌⊎◌, inl, inr, Bool, true, false, ◌&&◌, ◌||◌, List, [], ◌∷◌, ◌++◌, some, arith,
  ap₂, All, All-append, Bytes, same, if◌then◌else◌, Bool-cases,
}
use restest.Endpoints.{passes_checks, same_route}
use restest.Database.{
  Database, Project, CollectionRow, EndpointRow, Outcome, ok, failed, StoreError, exists_by,
  update_by, delete_by, delete_by-All,
}
use restest.Database.Apart.{IsApart, IsApart-snoc, IsApart-delete_by, All-map_lemma}

-- Two rows of `endpoints` that a unique index forbids.
abbrev pub clash : EndpointRow → EndpointRow → Bool
clash r s = same r.id s.id || same_route r s

-- Two rows of `projects` that a unique index forbids.
abbrev pub same_project : Project → Project → Bool
same_project p q = same p.id q.id || same p.slug q.slug

abbrev pub HasProject : List Project → Bytes → Type 0
HasProject projects id = exists_by (λ p. same p.id id) projects ≡ true

-- The collection of an endpoint is there, in the project of the endpoint.
abbrev pub IsBound : List CollectionRow → EndpointRow → Type 0
IsBound collections r =
    (c : Bytes)
    → r.collection_id ≡ some c
    → exists_by (λ k. same k.id c && same k.project_id r.project_id) collections ≡ true

-- A row on its own, and with the tables that it refers to.
abbrev pub IsSound : List Project → List CollectionRow → EndpointRow → Type 0
IsSound projects collections r =
    (passes_checks r ≡ true) × HasProject projects r.project_id × IsBound collections r

-- The constraints of the schema, and that an endpoint serves a collection of its own project.
pub record IsConsistent (db : Database) : Type 0 where
  pub sound : All (IsSound db.projects db.collections) db.endpoints
  pub routes : IsApart clash db.endpoints
  pub slugs : IsApart same_project db.projects

module _ (db : Database) (h : IsConsistent db) where
  pub endpoint-added :
      (r : EndpointRow)
      → IsSound db.projects db.collections r
      → All (λ s. clash s r ≡ false) db.endpoints
      → IsConsistent (record db { endpoints = db.endpoints ++ r ∷ [] })
  endpoint-added r s clear = record {
    sound = All-append (IsSound db.projects db.collections) db.endpoints (r ∷ []) h.sound (s, tt);
    routes = IsApart-snoc clash db.endpoints r h.routes clear;
    slugs = h.slugs;
  }

  pub endpoints-deleted :
      (gone : EndpointRow → Bool)
      → IsConsistent (record db { endpoints = delete_by gone db.endpoints })
  endpoints-deleted gone = record {
    sound = delete_by-All gone (IsSound db.projects db.collections) db.endpoints h.sound;
    routes = IsApart-delete_by clash gone db.endpoints h.routes;
    slugs = h.slugs;
  }

  -- The collections change in a way that no look-up by id and project sees.
  pub collections-changed :
      (collections : List CollectionRow)
      → ((c project : Bytes)
          → exists_by (λ k. same k.id c && same k.project_id project) db.collections ≡ true
          → exists_by (λ k. same k.id c && same k.project_id project) collections ≡ true)
      → IsConsistent (record db { collections = collections })
  collections-changed collections keep = record {
    sound =
        All-map_lemma (IsSound db.projects db.collections) (IsSound db.projects collections)
          db.endpoints
          (λ r (checked, housed, bound). (checked, housed, λ c e. keep c r.project_id (bound c e)))
          h.sound;
    routes = h.routes;
    slugs = h.slugs;
  }

  pub projects-changed :
      (projects : List Project)
      → ((id : Bytes) → HasProject db.projects id → HasProject projects id)
      → IsApart same_project projects
      → IsConsistent (record db { projects = projects })
  projects-changed projects keep apart = record {
    sound =
        All-map_lemma (IsSound db.projects db.collections) (IsSound projects db.collections)
          db.endpoints (λ r (checked, housed, bound). (checked, keep r.project_id housed, bound))
          h.sound;
    routes = h.routes;
    slugs = apart;
  }

-- An update that keeps what a test reads is not seen by the test.
pub exists_by-update_by :
    {A : Type 0} (test picked : A → Bool) (f : A → A) (xs : List A)
    → ((x : A) → test (f x) ≡ test x)
    → exists_by test (update_by picked f xs) ≡ exists_by test xs
unfolding exists_by update_by
exists_by-update_by test picked f [] h = refl
exists_by-update_by test picked f (x ∷ xs) h = elim (Bool-cases (picked x)) [
  | inl e ↦ rw e (ap₂ ◌||◌ (h x) (exists_by-update_by test picked f xs h))
  | inr e ↦ rw e (ap (λ b. test x || b) (exists_by-update_by test picked f xs h))
]

-- A row that is not removed is still found.
pub exists_by-delete_other :
    {A : Type 0} (test gone : A → Bool) (xs : List A)
    → ((x : A) → test x ≡ true → gone x ≡ false)
    → exists_by test (delete_by gone xs) ≡ exists_by test xs
unfolding exists_by delete_by
exists_by-delete_other test gone [] h = refl
exists_by-delete_other test gone (x ∷ xs) h =
    ground (arith, h x, exists_by-delete_other test gone xs h)

-- What holds of the rows that stay.
pub delete_by-kept :
    {A : Type 0} (P Q : A → Type 0) (gone : A → Bool) (xs : List A)
    → ((x : A) → P x → gone x ≡ false → Q x)
    → All P xs
    → All Q (delete_by gone xs)
unfolding delete_by
delete_by-kept P Q gone [] f h = tt
delete_by-kept P Q gone (x ∷ xs) f (p, h) = elim (Bool-cases (gone x)) [
  | inl e ↦ rw e (delete_by-kept P Q gone xs f h)
  | inr e ↦ rw e (f x p e, delete_by-kept P Q gone xs f h)
]

-- The database that a statement of two tests leaves.
pub guarded :
    {A : Type 0} (P : Database → Type 0) (refused taken : Bool) (x y z : A) (db db' : Database)
    → P db
    → P db'
    → P (if◌then◌else◌ {A = A × Database} refused (x, db) (if taken then (y, db) else (z, db'))).1
guarded P true taken x y z db db' p q = p
guarded P false true x y z db db' p q = p
guarded P false false x y z db db' p q = q

pub Outcome-cases :
    {A : Type 0} (o : Outcome A) → ((a : A) × (o ≡ ok a)) ⊎ ((e : StoreError) × (o ≡ failed e))
Outcome-cases (ok a) = inl (a, refl)
Outcome-cases (failed e) = inr (e, refl)
