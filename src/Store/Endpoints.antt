-- ===== src/Store/Endpoints.antt =====
-- The operations on endpoints keep a consistent database consistent.
use restest.Base.{
  ℕ, ◌≡◌, refl, sym, ap, ap₂, subst, ◌∙◌, inl, inr, Bool, true, false, not, ◌&&◌, ◌||◌, List, [],
  ◌∷◌, ◌++◌, some, arith, All, Bytes, same, same_iff, same_sym, Bool-cases, Option-cases,
}
use restest.Endpoints.{
  EndpointInput, is_collection, with_input, blank_row, passes_checks, same_route, has_collection,
  can_write, insert_endpoint, picks, find_endpoint, rewrite_row, update_row, answered, normalize,
  takes_texts, sent, with_normal, create_endpoint, update_endpoint, delete_endpoint,
}
use restest.Endpoints.Steps.{
  written_none, update_row-none, update_row-some, delete_endpoint-none, delete_endpoint-some,
}
use restest.Endpoints.Isolation.{with_input-project}
use restest.Store.{IsNewEndpoint}
use restest.Store.Tables.{
  clash, HasProject, IsSound, IsConsistent, endpoint-added, endpoints-deleted,
}
use restest.Database.{
  Database, EndpointRow, Outcome, ok, failed, Sql, row, no_rows, unique_violation, check_violation,
  text_refused, owns, exists_by, update_by, find_by-test, exists_by-wider, update_by-All,
}
use restest.Database.Apart.{IsApart-update_by, All-exists_by_none}

same_route_sym : (r s : EndpointRow) → same_route r s ≡ same_route s r
same_route_sym r s =
    ap₂ ◌&&◌ (ap₂ ◌&&◌ (same_sym s.project_id r.project_id) (same_sym s.method r.method))
      (same_sym s.path_pattern r.path_pattern)

clash_sym : (r s : EndpointRow) → clash r s ≡ clash s r
clash_sym r s = ap₂ ◌||◌ (same_sym r.id s.id) (same_route_sym r s)

with_input-id : (input : EndpointInput) (r : EndpointRow) → (with_input input r).id ≡ r.id
unfolding with_input
with_input-id input r = elim (Bool-cases (is_collection input)) [
  | inl e ↦ rw e refl
  | inr e ↦ rw e refl
]

-- Only a collection endpoint is written with a collection, and with the one of the input.
with_input-collection :
    (input : EndpointInput) (r : EndpointRow) (c : Bytes)
    → (with_input input r).collection_id ≡ some c
    → (is_collection input ≡ true) × (input.collection_id ≡ c)
unfolding with_input
with_input-collection input r c h = elim (Bool-cases (is_collection input)) [
  | inl e ↦ (e, cc (rw (e, with_input) at h))
  | inr e ↦ cc (rw (e, with_input) at h)
]

module _ (owner project : Bytes) (input : EndpointInput) (db : Database)
    (can : can_write owner project input db ≡ true) where
  can-HasProject : HasProject db.projects project
  unfolding owns
  can-HasProject =
      exists_by-wider (λ p. same p.id project && same p.owner_id owner) (λ p. same p.id project)
        db.projects (λ p k. ground arith) (ground arith)

  can-has_collection :
      is_collection input ≡ true → has_collection project input.collection_id db ≡ true
  can-has_collection e = ground arith

  -- A row that is written from an input, over a row of the project, is sound.
  written-IsSound :
      (old r : EndpointRow)
      → old.project_id ≡ project
      → r.project_id ≡ old.project_id
      → ((c : Bytes) → r.collection_id ≡ some c → (with_input input old).collection_id ≡ some c)
      → passes_checks r ≡ true
      → IsSound db.projects db.collections r
  unfolding has_collection
  written-IsSound old r p q k checked =
      let here = q ∙ p in
      (
        checked,
        subst (HasProject db.projects) (sym here) can-HasProject,
        λ c e.
            let (kind, id) = with_input-collection input old c (k c e) in
            subst (λ j. exists_by (λ l. same l.id c && same l.project_id j) db.collections ≡ true)
              (sym here)
              (subst
                (λ j.
                  exists_by (λ l. same l.id j && same l.project_id project) db.collections ≡ true)
                id (can-has_collection kind)),
      )

-- A row with a new id and a free route clashes with none.
clear_of :
    (r : EndpointRow) (id : Bytes)
    → r.id ≡ id
    → (xs : List EndpointRow) → All (λ s. same s.id id ≡ false) xs
    → All (λ s. same_route r s ≡ false) xs
    → All (λ s. clash s r ≡ false) xs
clear_of r id e [] h k = tt
clear_of r id e (s ∷ xs) (p, h) (q, k) =
    (ap₂ ◌||◌ (ap (same s.id) e ∙ p) (same_route_sym s r ∙ q), clear_of r id e xs h k)

pub insert_endpoint-IsConsistent :
    (fresh : Bytes) (now : ℕ) (owner project : Bytes) (input : EndpointInput) (db : Database)
    → IsConsistent db
    → IsNewEndpoint fresh db
    → IsConsistent (insert_endpoint fresh now owner project input db).1
unfolding insert_endpoint
insert_endpoint-IsConsistent fresh now owner project input db h new =
    let blank = blank_row fresh project now in
    let r = with_input input blank in
    written_none IsConsistent (can_write owner project input db) (passes_checks r)
      (exists_by (same_route r) db.endpoints) r db
      (record db { endpoints = db.endpoints ++ r ∷ [] }) h
      (λ can checked free.
        endpoint-added db h r
          (written-IsSound owner project input db can blank r refl (with_input-project input blank)
            (λ c e. e) checked)
          (clear_of r fresh (with_input-id input blank) db.endpoints
            (All-exists_by_none (λ s. same s.id fresh) db.endpoints new)
            (All-exists_by_none (same_route r) db.endpoints free)))

same_ids :
    (x y : EndpointRow) (id : Bytes) → same x.id id ≡ true → same y.id id ≡ true → clash x y ≡ true
same_ids x y id p q =
    ap (λ b. b || same_route x y)
      ((same_iff x.id y.id).1 ((same_iff x.id id).0 p ∙ sym ((same_iff y.id id).0 q)))

-- An updated row with a free route clashes with no row but those of its id.
Clear_of :
    (r : EndpointRow) (id : Bytes) (test : EndpointRow → Bool)
    → r.id ≡ id
    → (xs : List EndpointRow) → All (λ s. (not (same s.id id) && same_route r s) ≡ false) xs
    → All (λ s. same s.id id ≡ false → (w : EndpointRow) → test w ≡ true → clash s r ≡ false) xs
Clear_of r id test e [] h = tt
Clear_of r id test e (s ∷ xs) (p, h) = (
  λ other w t.
      let free : same_route r s ≡ false = ground (arith, other, p) in
      ap₂ ◌||◌ (ap (same s.id) e ∙ other) (same_route_sym s r ∙ free),
  Clear_of r id test e xs h,
)

module _ (now : ℕ) (owner id : Bytes) (input : EndpointInput) (db : Database)
    (h : IsConsistent db) where
  rewrite_row-IsConsistent :
      (old : EndpointRow)
      → find_endpoint owner id db ≡ some old
      → IsConsistent (rewrite_row now owner id input db old).1
  unfolding rewrite_row find_endpoint
  rewrite_row-IsConsistent old found =
      let r : EndpointRow = record (with_input input old) { updated_at = now } in
      let named : same old.id id ≡ true =
        ground (arith, find_by-test (picks owner id db) db.endpoints old found) in
      let id_is : r.id ≡ id = with_input-id input old ∙ (same_iff old.id id).0 named in
      written_none IsConsistent (can_write owner old.project_id input db) (passes_checks r)
        (exists_by (λ s. not (same s.id id) && same_route r s) db.endpoints) r db
        (record db { endpoints = update_by (picks owner id db) (λ _. r) db.endpoints }) h
        (λ can checked free.
          let ok_row =
            written-IsSound owner old.project_id input db can old r refl
              (with_input-project input old) (λ c e. e) checked in
          record {
            sound =
                update_by-All (picks owner id db) (IsSound db.projects db.collections) (λ _. r)
                  db.endpoints (λ x p t. ok_row) h.sound;
            routes =
                IsApart-update_by clash clash_sym (picks owner id db) (λ x. same x.id id)
                  (λ x t. ground arith) (λ x y p q. same_ids x y id p q) (λ _. r) db.endpoints
                  h.routes
                  (Clear_of r id (picks owner id db) id_is db.endpoints (
                    All-exists_by_none (λ s. not (same s.id id) && same_route r s) db.endpoints
                      free));
            slugs = h.slugs;
          })

  update_row-IsConsistent : IsConsistent (update_row now owner id input db).1
  update_row-IsConsistent = elim (Option-cases (find_endpoint owner id db)) [
    | inl e ↦ subst (λ a. IsConsistent a.1) (sym (update_row-none now owner id input db e)) h
    | inr (old, e) ↦
        subst (λ a. IsConsistent a.1) (sym (update_row-some now owner id input db old e))
          (rewrite_row-IsConsistent old e)
  ]

answered_1 : (a : Sql EndpointRow × Database) → (answered a).1 ≡ a.1
unfolding answered
answered_1 (row r, db) = refl
answered_1 (no_rows, db) = refl
answered_1 (unique_violation, db) = refl
answered_1 (check_violation, db) = refl
answered_1 (text_refused, db) = refl

with_normal-IsConsistent :
    (o : Outcome EndpointInput) (f : EndpointInput → Sql EndpointRow × Database) (db : Database)
    → IsConsistent db
    → ((i : EndpointInput) → IsConsistent (f i).1)
    → IsConsistent (with_normal o (λ i. answered (f i)) db).1
with_normal-IsConsistent (ok i) f db h k = subst IsConsistent (sym (answered_1 (f i))) (k i)
with_normal-IsConsistent (failed e) f db h k = h

sent-IsConsistent :
    (i : EndpointInput) (db : Database) (a : Sql EndpointRow × Database)
    → IsConsistent db
    → IsConsistent a.1
    → IsConsistent (sent i db a).1
sent-IsConsistent i db a h k = elim (Bool-cases (takes_texts i)) [ inl e ↦ rw e k | inr e ↦ rw e h ]

pub create_endpoint-IsConsistent :
    (fresh : Bytes) (now : ℕ) (owner project : Bytes) (input : EndpointInput) (db : Database)
    → IsConsistent db
    → IsNewEndpoint fresh db
    → IsConsistent (create_endpoint fresh now owner project input db).1
unfolding create_endpoint
create_endpoint-IsConsistent fresh now owner project input db h new =
    with_normal-IsConsistent (normalize input)
      (λ i. sent i db (insert_endpoint fresh now owner project i db)) db h
      (λ i.
        sent-IsConsistent i db _ h
          (insert_endpoint-IsConsistent fresh now owner project i db h new))

pub update_endpoint-IsConsistent :
    (now : ℕ) (owner id : Bytes) (input : EndpointInput) (db : Database)
    → IsConsistent db
    → IsConsistent (update_endpoint now owner id input db).1
unfolding update_endpoint
update_endpoint-IsConsistent now owner id input db h =
    with_normal-IsConsistent (normalize input) (λ i. sent i db (update_row now owner id i db)) db h
      (λ i. sent-IsConsistent i db _ h (update_row-IsConsistent now owner id i db h))

pub delete_endpoint-IsConsistent :
    (owner id : Bytes) (db : Database)
    → IsConsistent db
    → IsConsistent (delete_endpoint owner id db).1
delete_endpoint-IsConsistent owner id db h = elim (Option-cases (find_endpoint owner id db)) [
  | inl e ↦ subst (λ a. IsConsistent a.1) (sym (delete_endpoint-none owner id db e)) h
  | inr (r, e) ↦
      subst (λ a. IsConsistent a.1) (sym (delete_endpoint-some owner id db r e))
        (endpoints-deleted db h (picks owner id db))
]
