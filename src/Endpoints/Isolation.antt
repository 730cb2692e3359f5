-- ===== src/Endpoints/Isolation.antt =====
-- The operations on endpoints for one account: what it is answered depends on its own rows only, and
-- it changes no other row.
use restest.Base.{
  ℕ, ◌≡◌, refl, sym, ap, subst, ◌∙◌, inl, inr, Bool, true, false, not, ◌&&◌, arith, Bytes, same,
  same_iff, Bool-cases, Option-cases,
}
use restest.Database.{
  Database, EndpointRow, Outcome, ok, failed, Sql, row, no_rows, unique_violation, check_violation,
  text_refused, owns, exists_by, select_by, find_by-select_by, exists_by-select_by,
}
use restest.Endpoints.{
  Endpoint, EndpointInput, is_collection, with_input, passes_checks, same_route, blank_row,
  can_write, has_collection, written, insert_endpoint, picks, find_endpoint, rewrite_row,
  update_row, takes_texts, sent, answered, normalize, with_normal, create_endpoint, update_endpoint,
  delete_endpoint, endpoint_by_owner_and_id,
}
use restest.Endpoints.Steps.{
  update_row-none, update_row-some, delete_endpoint-none, delete_endpoint-some,
  endpoint_by_owner_and_id-none, endpoint_by_owner_and_id-some,
}

-- The endpoint is in a project of the account.
abbrev pub is_theirs : Bytes → Database → EndpointRow → Bool
is_theirs owner db r = owns owner r.project_id db

-- The database without the endpoints of the projects of other accounts.
abbrev pub own_part : Bytes → Database → Database
own_part owner db = record db { endpoints = select_by (is_theirs owner db) db.endpoints }

pub with_input-project :
    (input : EndpointInput) (r : EndpointRow) → (with_input input r).project_id ≡ r.project_id
unfolding with_input
with_input-project input r = elim (Bool-cases (is_collection input)) [
  | inl e ↦ rw e refl
  | inr e ↦ rw e refl
]

-- What a statement that writes a row answers by its three tests.
abbrev verdict : Bool → Bool → Bool → EndpointRow → Sql EndpointRow
verdict false _ _ r = no_rows
verdict true false _ r = check_violation
verdict true true true r = unique_violation
verdict true true false r = row r

verdict-of :
    (can checks taken : Bool) (r : EndpointRow) (db db' : Database)
    → (written can checks taken r db db').0 ≡ verdict can checks taken r
verdict-of true true true r db db' = refl
verdict-of true true false r db db' = refl
verdict-of true false taken r db db' = refl
verdict-of false checks taken r db db' = refl

verdict-cong :
    (can checks taken taken' : Bool) (r : EndpointRow)
    → (can ≡ true → taken ≡ taken')
    → verdict can checks taken r ≡ verdict can checks taken' r
verdict-cong false checks taken taken' r h = refl
verdict-cong true checks taken taken' r h = ap (λ t. verdict true checks t r) (h refl)

module _ (owner : Bytes) (db : Database) where
  picks-is_theirs :
      (id : Bytes) (r : EndpointRow) → picks owner id db r ≡ true → is_theirs owner db r ≡ true
  picks-is_theirs id r h = ground arith

  find_endpoint-own :
      (id : Bytes) → find_endpoint owner id (own_part owner db) ≡ find_endpoint owner id db
  unfolding find_endpoint owns
  find_endpoint-own id =
      find_by-select_by (picks owner id db) (is_theirs owner db) (picks-is_theirs id) db.endpoints

  can_write-owns :
      (project : Bytes) (input : EndpointInput)
      → can_write owner project input db ≡ true
      → owns owner project db ≡ true
  can_write-owns project input h = ground arith

  -- A row with the route of another is in the same project.
  route-is_theirs :
      (r s : EndpointRow)
      → owns owner r.project_id db ≡ true
      → same_route r s ≡ true
      → is_theirs owner db s ≡ true
  route-is_theirs r s h k =
      subst (λ p. owns owner p db ≡ true)
        (sym ((same_iff s.project_id r.project_id).0 (ground arith))) h

  -- The unique index sees the same rows.
  own_route :
      (r : EndpointRow) (test : EndpointRow → Bool)
      → owns owner r.project_id db ≡ true
      → ((s : EndpointRow) → test s ≡ true → same_route r s ≡ true)
      → exists_by test (own_part owner db).endpoints ≡ exists_by test db.endpoints
  own_route r test mine sub =
      exists_by-select_by test (is_theirs owner db) (λ s h. route-is_theirs r s mine (sub s h))
        db.endpoints

  insert_endpoint-own :
      (fresh : Bytes) (now : ℕ) (project : Bytes) (input : EndpointInput)
      → (insert_endpoint fresh now owner project input (own_part owner db)).0
        ≡ (insert_endpoint fresh now owner project input db).0
  unfolding insert_endpoint owns has_collection
  insert_endpoint-own fresh now project input =
      let r = with_input input (blank_row fresh project now) in
      let mine = λ (e : can_write owner project input db ≡ true).
        subst (λ p. owns owner p db ≡ true)
          (sym (with_input-project input (blank_row fresh project now)))
          (can_write-owns project input e) in
      verdict-of _ _ _ r _ _
      ∙ (verdict-cong (can_write owner project input db) (passes_checks r) _ _ r
            (λ e. own_route r (same_route r) (mine e) (λ s h. h))
          ∙ sym (verdict-of _ _ _ r _ _))

  rewrite_row-own :
      (now : ℕ) (id : Bytes) (input : EndpointInput) (old : EndpointRow)
      → (rewrite_row now owner id input (own_part owner db) old).0
        ≡ (rewrite_row now owner id input db old).0
  unfolding rewrite_row owns has_collection
  rewrite_row-own now id input old =
      let r : EndpointRow = record (with_input input old) { updated_at = now } in
      let mine = λ (e : can_write owner old.project_id input db ≡ true).
        subst (λ p. owns owner p db ≡ true) (sym (with_input-project input old))
          (can_write-owns old.project_id input e) in
      verdict-of _ _ _ r _ _
      ∙ (verdict-cong (can_write owner old.project_id input db) (passes_checks r) _ _ r (λ e.
            own_route r (λ s. not (same s.id id) && same_route r s) (mine e) (λ s h. ground arith))
          ∙ sym (verdict-of _ _ _ r _ _))

  update_row-own :
      (now : ℕ) (id : Bytes) (input : EndpointInput)
      → (update_row now owner id input (own_part owner db)).0 ≡ (update_row now owner id input db).0
  update_row-own now id input = elim (Option-cases (find_endpoint owner id db)) [
    | inl e ↦
        ap (λ a. a.0)
          (update_row-none now owner id input (own_part owner db) (find_endpoint-own id ∙ e))
        ∙ ap (λ a. a.0) (sym (update_row-none now owner id input db e))
    | inr (old, e) ↦
        ap (λ a. a.0)
          (update_row-some now owner id input (own_part owner db) old (find_endpoint-own id ∙ e))
        ∙ (rewrite_row-own now id input old
            ∙ ap (λ a. a.0) (sym (update_row-some now owner id input db old e)))
  ]

  delete_endpoint-own :
      (id : Bytes)
      → (delete_endpoint owner id (own_part owner db)).0 ≡ (delete_endpoint owner id db).0
  delete_endpoint-own id = elim (Option-cases (find_endpoint owner id db)) [
    | inl e ↦
        ap (λ a. a.0) (delete_endpoint-none owner id (own_part owner db) (find_endpoint-own id ∙ e))
        ∙ ap (λ a. a.0) (sym (delete_endpoint-none owner id db e))
    | inr (r, e) ↦
        ap (λ a. a.0)
          (delete_endpoint-some owner id (own_part owner db) r (find_endpoint-own id ∙ e))
        ∙ ap (λ a. a.0) (sym (delete_endpoint-some owner id db r e))
  ]

  endpoint_by_owner_and_id-own :
      (id : Bytes)
      → endpoint_by_owner_and_id owner id (own_part owner db) ≡ endpoint_by_owner_and_id owner id db
  endpoint_by_owner_and_id-own id = elim (Option-cases (find_endpoint owner id db)) [
    | inl e ↦
        endpoint_by_owner_and_id-none owner id (own_part owner db) (find_endpoint-own id ∙ e)
        ∙ sym (endpoint_by_owner_and_id-none owner id db e)
    | inr (r, e) ↦
        endpoint_by_owner_and_id-some owner id (own_part owner db) r (find_endpoint-own id ∙ e)
        ∙ sym (endpoint_by_owner_and_id-some owner id db r e)
  ]

answered_same :
    (s : Sql EndpointRow) (db db' : Database) → (answered (s, db)).0 ≡ (answered (s, db')).0
unfolding answered
answered_same (row r) db db' = refl
answered_same no_rows db db' = refl
answered_same unique_violation db db' = refl
answered_same check_violation db db' = refl
answered_same text_refused db db' = refl

sent_0 :
    (i : EndpointInput) (db db' : Database) (a b : Sql EndpointRow × Database)
    → a.0 ≡ b.0
    → (sent i db a).0 ≡ (sent i db' b).0
sent_0 i db db' a b h = elim (Bool-cases (takes_texts i)) [ inl e ↦ rw e h | inr e ↦ rw e refl ]

answered_0 : (a b : Sql EndpointRow × Database) → a.0 ≡ b.0 → (answered a).0 ≡ (answered b).0
unfolding answered
answered_0 (x, db) (y, db') h = ap (λ s. (answered (s, db)).0) h ∙ answered_same y db db'

with_normal_0 :
    (o : Outcome EndpointInput) (f g : EndpointInput → Outcome Endpoint × Database)
    (db db' : Database)
    → ((i : EndpointInput) → (f i).0 ≡ (g i).0)
    → (with_normal o f db).0 ≡ (with_normal o g db').0
with_normal_0 (ok i) f g db db' h = h i
with_normal_0 (failed e) f g db db' h = refl

-- What an account is answered about endpoints, when it reads, creates, updates or deletes one, does not
-- depend on the endpoints of other accounts' projects: they could as well not be there.
pub answers-own_part :
    (owner : Bytes) (db : Database) (fresh : Bytes) (now : ℕ) (project id : Bytes)
    (input : EndpointInput)
    → (endpoint_by_owner_and_id owner id (own_part owner db) ≡ endpoint_by_owner_and_id owner id db)
      × ((create_endpoint fresh now owner project input (own_part owner db)).0
          ≡ (create_endpoint fresh now owner project input db).0)
      × ((update_endpoint now owner id input (own_part owner db)).0
          ≡ (update_endpoint now owner id input db).0)
      × ((delete_endpoint owner id (own_part owner db)).0 ≡ (delete_endpoint owner id db).0)
unfolding create_endpoint update_endpoint
answers-own_part owner db fresh now project id input = (
  endpoint_by_owner_and_id-own owner db id,
  with_normal_0 (normalize input) _ _ _ _
      (λ i. answered_0 _ _ (sent_0 i _ _ _ _ (insert_endpoint-own owner db fresh now project i))),
  with_normal_0 (normalize input) _ _ _ _
      (λ i. answered_0 _ _ (sent_0 i _ _ _ _ (update_row-own owner db now id i))),
  delete_endpoint-own owner db id,
)
