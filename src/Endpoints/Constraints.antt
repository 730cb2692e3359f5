-- ===== src/Endpoints/Constraints.antt =====
-- The check constraints of the table `endpoints`, and what it takes for a text, against the validation
-- of internal/core/validate.go.
use restest.Base.{
  ℕ, ◌≡◌, refl, sym, ap, subst, ◌∙◌, ◌≢◌, ◌↔◌, inl, inr, Bool, true, false, [], ◌∷◌, arith, Bytes,
  same, Bool-cases, Option-cases,
}
use restest.Paths.{normalize_path}
use restest.Fields.{FieldErrors}
use restest.Database.{
  Database, EndpointRow, Outcome, ok, failed, internal, not_found, Sql, row, no_rows,
  unique_violation, check_violation, text_refused,
}
use restest.Endpoints.{
  Endpoint, EndpointInput, is_collection, tidied, normalize, with_input, passes_checks,
  insert_endpoint, rewrite_row, update_row, answered, create_endpoint, update_endpoint, blank_row,
  written, with_normal, sent, takes_texts, with_kind, with_method, find_endpoint, check_input,
  or_invalid,
}
use restest.Endpoints.Steps.{update_row-none, update_row-some, sent-taken, sent-refused}
use restest.Endpoints.Accepted.{IsAccepted, normalize_iff}
use restest.Endpoints.Stored.{with_input-passes_checks}

insert_endpoint_checked :
    (fresh : Bytes) (now : ℕ) (owner project : Bytes) (input : EndpointInput) (db : Database)
    → passes_checks (with_input input (blank_row fresh project now)) ≡ true
    → (insert_endpoint fresh now owner project input db).0 ≢ check_violation
unfolding insert_endpoint
insert_endpoint_checked fresh now owner project input db h e = ground arith

written_text :
    (joins checks taken : Bool) (r : EndpointRow) (db db' : Database)
    → (written joins checks taken r db db').0 ≢ text_refused
written_text false checks taken r db db' e = cc
written_text true false taken r db db' e = cc
written_text true true false r db db' e = cc
written_text true true true r db db' e = cc

-- No statement on the tables refuses a text: that is for the parameters.
insert_endpoint_text :
    (fresh : Bytes) (now : ℕ) (owner project : Bytes) (input : EndpointInput) (db : Database)
    → (insert_endpoint fresh now owner project input db).0 ≢ text_refused
unfolding insert_endpoint
insert_endpoint_text fresh now owner project input db e = written_text _ _ _ _ db _ e

update_row_text :
    (now : ℕ) (owner id : Bytes) (input : EndpointInput) (db : Database)
    → (update_row now owner id input db).0 ≢ text_refused
unfolding update_row rewrite_row
update_row_text now owner id input db e = elim (Option-cases (find_endpoint owner id db)) [
  | inl k ↦ cc
  | inr (old, k) ↦
      written_text _ _ _ _ db _
        (ap (λ a. a.0) (sym (update_row-some now owner id input db old k)) ∙ e)
]

rewrite_row_checked :
    (now : ℕ) (owner id : Bytes) (input : EndpointInput) (db : Database) (old : EndpointRow)
    → passes_checks (record (with_input input old) { updated_at = now }) ≡ true
    → (rewrite_row now owner id input db old).0 ≢ check_violation
unfolding rewrite_row
rewrite_row_checked now owner id input db old h e = ground arith

update_row_checked :
    (now : ℕ) (owner id : Bytes) (input : EndpointInput) (db : Database)
    → ((r : EndpointRow) → passes_checks (record (with_input input r) { updated_at = now }) ≡ true)
    → (update_row now owner id input db).0 ≢ check_violation
update_row_checked now owner id input db h e = elim (Option-cases (find_endpoint owner id db)) [
  | inl k ↦ cc (update_row-none now owner id input db k)
  | inr (old, k) ↦
      rewrite_row_checked now owner id input db old (h old)
        (ap (λ a. a.0) (sym (update_row-some now owner id input db old k)) ∙ e)
]

answered_internal :
    (answer : Sql EndpointRow × Database)
    → answer.0 ≢ check_violation
    → answer.0 ≢ text_refused
    → (answered answer).0 ≢ failed internal
unfolding answered
answered_internal (row r, db) h k e = cc
answered_internal (no_rows, db) h k e = cc
answered_internal (unique_violation, db) h k e = cc
answered_internal (check_violation, db) h k e = h refl
answered_internal (text_refused, db) h k e = k refl

passes_checks-updated :
    (r : EndpointRow) (now : ℕ) → passes_checks (record r { updated_at = now }) ≡ passes_checks r
unfolding passes_checks
passes_checks-updated r now = refl

abbrev relabelled : Outcome Endpoint → Outcome EndpointInput
relabelled (ok _) = failed not_found
relabelled (failed e) = failed e

or_invalid-internal : {A : Type 0} (a : A) (fe : FieldErrors) → or_invalid a fe ≢ failed internal
or_invalid-internal a [] h = cc
or_invalid-internal a (e ∷ fe) h = cc

normalize-internal : (input : EndpointInput) → normalize input ≢ failed internal
unfolding normalize
normalize-internal input h = or_invalid-internal (tidied input) (check_input (tidied input)) h

with_kind-path : (input : EndpointInput) → (with_kind input).path ≡ input.path
with_kind-path input = elim (Bool-cases (same input.kind [])) [
  | inl e ↦ rw e refl
  | inr e ↦ rw e refl
]

with_method-path : (input : EndpointInput) → (with_method input).path ≡ input.path
with_method-path input = elim (Bool-cases (is_collection input)) [
  | inl e ↦ rw e refl
  | inr e ↦ rw e refl
]

module _ (input input' : EndpointInput) (accepted : normalize input ≡ ok input') where
  normal : IsAccepted input'
  normal = ((normalize_iff input input').0 accepted).1

  normal_path : input'.path ≡ normalize_path input.path
  unfolding tidied
  normal_path =
      ap (λ i. i.path) ((normalize_iff input input').0 accepted).0
      ∙ ap normalize_path (with_method-path (with_kind input) ∙ with_kind-path input)

-- The input is accepted, and the database does not take all of its texts.
abbrev pub IsRefusedText : EndpointInput → Type 0
IsRefusedText input =
    (input' : EndpointInput) × (normalize input ≡ ok input') × (takes_texts input' ≡ false)

answered_text : (db : Database) → (answered (text_refused, db)).0 ≡ failed internal
unfolding answered
answered_text db = refl

-- A statement behind the validation that ends in no error of its own ends in an unexpected error
-- exactly for its texts.
with_normal-internal_iff :
    (o : Outcome EndpointInput) (f : EndpointInput → Sql EndpointRow × Database) (db : Database)
    → o ≢ failed internal
    → ((i : EndpointInput) → o ≡ ok i → (answered (f i)).0 ≢ failed internal)
    → ((with_normal o (λ i. answered (sent i db (f i))) db).0 ≡ failed internal)
      ↔ ((i : EndpointInput) × (o ≡ ok i) × (takes_texts i ≡ false))
with_normal-internal_iff (failed e) f db h fine =
    (λ q. absurd (h (ap relabelled q)), λ (i, k, _). cc)
with_normal-internal_iff (ok i) f db h fine = (
  λ q. (
    i,
    refl,
    elim (Bool-cases (takes_texts i)) [
      | inl e ↦ absurd (fine i refl (sym (ap (λ a. (answered a).0) (sent-taken i db (f i) e)) ∙ q))
      | inr e ↦ e
    ],
  ),
  λ (j, k, e).
      let same_input : j ≡ i = cc in
      ap (λ a. (answered a).0)
        (sent-refused i db (f i) (subst (λ x. takes_texts x ≡ false) same_input e))
      ∙ answered_text db,
)

-- Creating and updating an endpoint end in an unexpected error exactly where the validation accepts
-- the input and one of its texts, the method, the path, the body of a static endpoint or the value of
-- a header, has a zero byte or, but for a header, is not UTF-8: no check constraint refuses it.
pub create_endpoint-internal_iff :
    (fresh : Bytes) (now : ℕ) (owner project id : Bytes) (input : EndpointInput) (db : Database)
    → (((create_endpoint fresh now owner project input db).0 ≡ failed internal)
        ↔ IsRefusedText input)
      × (((update_endpoint now owner id input db).0 ≡ failed internal) ↔ IsRefusedText input)
unfolding create_endpoint update_endpoint
create_endpoint-internal_iff fresh now owner project id input db = (
  with_normal-internal_iff (normalize input) (λ i. insert_endpoint fresh now owner project i db) db
      (normalize-internal input)
      (λ i e.
        answered_internal (insert_endpoint fresh now owner project i db)
          (insert_endpoint_checked fresh now owner project i db (
            with_input-passes_checks i (blank_row fresh project now) input.path (normal input i e)
              (normal_path input i e)))
          (insert_endpoint_text fresh now owner project i db)),
  with_normal-internal_iff (normalize input) (λ i. update_row now owner id i db) db
      (normalize-internal input)
      (λ i e.
        answered_internal (update_row now owner id i db)
          (update_row_checked now owner id i db (λ r.
            passes_checks-updated (with_input i r) now
            ∙ with_input-passes_checks i r input.path (normal input i e) (normal_path input i e)))
          (update_row_text now owner id i db)),
)
