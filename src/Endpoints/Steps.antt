-- ===== src/Endpoints/Steps.antt =====
-- The operations that look an endpoint up first, on each answer of the look-up.
use restest.Base.{
  arith, ℕ, ◌≡◌, refl, sym, ◌∙◌, Bool-cases, inl, inr, Bool, true, false, [], ◌∷◌, ◌++◌, none, some,
  Bytes,
}
use restest.Database.{
  Database, EndpointRow, ok, failed, not_found, Sql, row, no_rows, text_refused, delete_by,
  exists_by,
}
use restest.Endpoints.{
  EndpointInput, to_endpoint, with_input, blank_row, can_write, passes_checks, same_route,
  insert_endpoint, picks, find_endpoint, rewrite_row, written, update_row, delete_endpoint,
  endpoint_by_owner_and_id, takes_texts, sent,
}

pub update_row-none :
    (now : ℕ) (owner id : Bytes) (input : EndpointInput) (db : Database)
    → find_endpoint owner id db ≡ none
    → update_row now owner id input db ≡ (no_rows, db)
unfolding update_row
update_row-none now owner id input db e = rw (e, update_row) refl

pub update_row-some :
    (now : ℕ) (owner id : Bytes) (input : EndpointInput) (db : Database) (old : EndpointRow)
    → find_endpoint owner id db ≡ some old
    → update_row now owner id input db ≡ rewrite_row now owner id input db old
unfolding update_row
update_row-some now owner id input db old e = rw (e, update_row) refl

module _ (owner id : Bytes) (db : Database) where
  pub delete_endpoint-none :
      find_endpoint owner id db ≡ none → delete_endpoint owner id db ≡ (failed not_found, db)
  unfolding delete_endpoint
  delete_endpoint-none e = rw (e, delete_endpoint) refl

  pub delete_endpoint-some :
      (r : EndpointRow)
      → find_endpoint owner id db ≡ some r
      → delete_endpoint owner id db
        ≡ (ok tt, record db { endpoints = delete_by (picks owner id db) db.endpoints })
  unfolding delete_endpoint
  delete_endpoint-some r e = rw (e, delete_endpoint) refl

  pub endpoint_by_owner_and_id-none :
      find_endpoint owner id db ≡ none → endpoint_by_owner_and_id owner id db ≡ failed not_found
  unfolding endpoint_by_owner_and_id
  endpoint_by_owner_and_id-none e = rw (e, endpoint_by_owner_and_id) refl

  pub endpoint_by_owner_and_id-some :
      (r : EndpointRow)
      → find_endpoint owner id db ≡ some r
      → endpoint_by_owner_and_id owner id db ≡ ok (to_endpoint r)
  unfolding endpoint_by_owner_and_id
  endpoint_by_owner_and_id-some r e = rw (e, endpoint_by_owner_and_id) refl

-- A statement that wrote its row: its joins had a row, the row passes the checks, and its route was free.
pub written_row :
    (joins checks taken : Bool) (r s : EndpointRow) (db db' after : Database)
    → written joins checks taken r db db' ≡ (row s, after)
    → (joins ≡ true) × (checks ≡ true) × (taken ≡ false) × (s ≡ r) × (after ≡ db')
written_row true true false r s db db' after h = (refl, refl, refl, cc, cc)
written_row true true true r s db db' after h = cc
written_row true false taken r s db db' after h = cc
written_row false checks taken r s db db' after h = cc

-- A statement that wrote no row left the database as it was.
pub written_none :
    (P : Database → Type 0) (joins checks taken : Bool) (r : EndpointRow) (db db' : Database)
    → P db
    → (joins ≡ true → checks ≡ true → taken ≡ false → P db')
    → P (written joins checks taken r db db').1
written_none P true true false r db db' p q = q refl refl refl
written_none P true true true r db db' p q = p
written_none P true false taken r db db' p q = p
written_none P false checks taken r db db' p q = p

module _ (fresh : Bytes) (now : ℕ) (owner project : Bytes) (input : EndpointInput)
    (db : Database) where
  abbrev pub new_row : EndpointRow
  new_row = with_input input (blank_row fresh project now)

  pub insert_endpoint-row :
      (r : EndpointRow) (after : Database)
      → insert_endpoint fresh now owner project input db ≡ (row r, after)
      → (can_write owner project input db ≡ true)
        × (passes_checks new_row ≡ true)
        × (exists_by (same_route new_row) db.endpoints ≡ false)
        × (r ≡ new_row)
        × (after ≡ record db { endpoints = db.endpoints ++ new_row ∷ [] })
  unfolding insert_endpoint
  insert_endpoint-row r after h =
      written_row (can_write owner project input db) (passes_checks new_row)
        (exists_by (same_route new_row) db.endpoints) new_row r db
        (record db { endpoints = db.endpoints ++ new_row ∷ [] }) after h

-- A statement is answered by the database where its texts are taken.
module _ (input : EndpointInput) (db : Database) (answer : Sql EndpointRow × Database) where
  pub sent-taken : takes_texts input ≡ true → sent input db answer ≡ answer
  sent-taken e = rw e refl

  pub sent-refused : takes_texts input ≡ false → sent input db answer ≡ (text_refused, db)
  sent-refused e = rw e refl

  pub sent-row :
      (r : EndpointRow) (after : Database)
      → sent input db answer ≡ (row r, after)
      → answer ≡ (row r, after)
  sent-row r after h = elim (Bool-cases (takes_texts input)) [
    | inl e ↦ sym (sent-taken e) ∙ h
    | inr e ↦ absurd (ground (arith, sent-refused e))
  ]
