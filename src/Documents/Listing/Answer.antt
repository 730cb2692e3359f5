-- ===== src/Documents/Listing/Answer.antt =====
-- The page that answers a query string.
use restest.Base.{
  ℕ, zero, suc, ◌*◌, ◌<◌, ◌≤◌, ◌≡◌, refl, sym, ap, ◌∙◌, subst, ◌⊎◌, ◌↔◌, Bool, true, false, ◌&&◌,
  Bool-cases, inl, inr, List, [], ◌∷◌, ◌++◌, some, arith, Bytes, length, take, lookup, All, Any,
  All-sort_by, All-append, length-take, Any-append_left, Any-append_right,
}
use mathlib.Core.List.{reverse, reverse-cons}
use restest.Database.{exists_by, All-select_by}
use restest.Collections.{Fields}
use restest.Documents.{Collection}
use restest.Documents.Listing.{
  ListQuery, Filter, JsonOps, DocumentPage, Values, read, drop, matching, before, order_by,
  list_documents, document_filter, passes, alternatives_of, containment_docs, parse_list_query,
  max_list_limit, two_63,
}
use restest.Documents.Listing.Accepted.{limit-range}
use restest.Documents.Listing.Pages.{Taken, page_at, list_documents-page}

abbrev Row : Type 0
Row = Bytes × Fields

exists_by-Any_iff :
    (test : Fields → Bool) (docs : List Fields)
    → (exists_by test docs ≡ true) ↔ Any (λ d. test d ≡ true) docs
unfolding exists_by
exists_by-Any_iff test [] = (λ h. cc, λ a. absurd a)
exists_by-Any_iff test (d ∷ docs) =
    let (there, back) = exists_by-Any_iff test docs in
    (
      λ h. elim (Bool-cases (test d)) [ inl e ↦ inl e | inr e ↦ inr (there (ground arith)) ],
      λ a. elim a [ inl e ↦ ground arith | inr k ↦ ground (arith, back k) ],
    )

List-cases : (vs : List Bytes) → (vs ≡ []) ⊎ ((v : Bytes) × (rest : List Bytes) × (vs ≡ v ∷ rest))
List-cases [] = inl refl
List-cases (v ∷ rest) = inr (v, rest, refl)

Any-append_inv :
    (P : Fields → Type 0) (xs ys : List Fields) → Any P (xs ++ ys) → Any P xs ⊎ Any P ys
Any-append_inv P [] ys a = inr a
Any-append_inv P (x ∷ xs) ys (inl p) = inl (inl p)
Any-append_inv P (x ∷ xs) ys (inr a) = elim (Any-append_inv P xs ys a) [
  | inl here ↦ inl (inr here)
  | inr later ↦ inr later
]

module _ (P : Row → Type 0) where
  All-take : (n : ℕ) (rows : List Row) → All P rows → All P (take n rows)
  All-take zero rows h = tt
  All-take (suc n) [] h = tt
  All-take (suc n) (row ∷ rows) (p, h) = (p, All-take n rows h)

  All-drop : (n : ℕ) (rows : List Row) → All P rows → All P (drop n rows)
  All-drop zero rows h = h
  All-drop (suc n) [] h = tt
  All-drop (suc n) (row ∷ rows) (p, h) = All-drop n rows h

  All-reverse : (rows : List Row) → All P rows → All P (reverse rows)
  All-reverse [] h = tt
  All-reverse (row ∷ rows) (p, h) =
      subst (All P) (sym (reverse-cons row rows))
        (All-append P (reverse rows) (row ∷ []) (All-reverse rows h) (p, tt))

  All-map :
      {Q : Row → Type 0} (rows : List Row) → ((row : Row) → Q row → P row) → All Q rows → All P rows
  All-map [] f h = tt
  All-map (row ∷ rows) f (q, h) = (f row q, All-map rows f h)

module _ (ops : JsonOps) where
  -- A filter without a value admits every document; another one those that hold one of its values, as
  -- a text or, where it can be read so, as a number, a Boolean or null.
  abbrev pub Admits : Fields → Filter → Type 0
  Admits body f =
      (f.values ≡ [])
      ⊎ Any (λ v. Any (λ d. ops.holds body d ≡ true) (containment_docs ops f.field v)) f.values

  All-order_by :
      (P : Row → Type 0) (field : Bytes) (desc : Bool) (rows : List Row)
      → All P rows
      → All P (order_by ops field desc rows)
  unfolding order_by
  All-order_by P [] desc rows h = elim (Bool-cases desc) [
    | inl e ↦ rw e (All-reverse P rows h)
    | inr e ↦ rw e h
  ]
  All-order_by P (c ∷ s) desc rows h =
      All-sort_by (λ x y. before ops desc (lookup (c ∷ s) x.1) (lookup (c ∷ s) y.1)) P rows h

  abbrev AnyHeld : Fields → List Fields → Type 0
  AnyHeld body docs = Any (λ d. ops.holds body d ≡ true) docs

  alternatives_of_iff :
      (body : Fields) (field : Bytes) (vs : List Bytes)
      → AnyHeld body (alternatives_of ops field vs)
        ↔ Any (λ v. AnyHeld body (containment_docs ops field v)) vs
  unfolding alternatives_of
  alternatives_of_iff body field [] = (λ a. a, λ a. a)
  alternatives_of_iff body field (v ∷ vs) =
      let (there, back) = alternatives_of_iff body field vs in
      let docs = containment_docs ops field v in
      let P : Fields → Type 0 = λ d. ops.holds body d ≡ true in
      (
        λ a. elim (Any-append_inv P docs (alternatives_of ops field vs) a) [
          | inl here ↦ inl here
          | inr later ↦ inr (there later)
        ],
        λ a. elim a [
          | inl here ↦ Any-append_left P docs (alternatives_of ops field vs) here
          | inr later ↦ Any-append_right P docs (alternatives_of ops field vs) (back later)
        ],
      )

  module _ (f : Filter) (fs : List Filter) where
    document_filter-skipped : f.values ≡ [] → document_filter ops (f ∷ fs) ≡ document_filter ops fs
    unfolding document_filter alternatives_of
    document_filter-skipped e = rw (e, document_filter) refl

    document_filter-kept :
        (v : Bytes) (vs : List Bytes)
        → f.values ≡ v ∷ vs
        → document_filter ops (f ∷ fs)
          ≡ alternatives_of ops f.field f.values ∷ document_filter ops fs
    unfolding document_filter alternatives_of containment_docs
    document_filter-kept v vs e = rw (e, document_filter) refl

  and_iff :
      {A B : Type 0} {a b : Bool} → ((a ≡ true) ↔ A) → ((b ≡ true) ↔ B) → (a && b ≡ true) ↔ (A × B)
  and_iff {a = true} p q = (λ h. (p.0 refl, q.0 h), λ (x, y). q.1 y)
  and_iff {a = false} p q = (λ h. cc, λ (x, y). p.1 x)

  passes-kept_iff :
      (body : Fields) (docs : List Fields) (conditions : List (List Fields)) {B : Type 0}
      → ((passes ops conditions body ≡ true) ↔ B)
      → (passes ops (docs ∷ conditions) body ≡ true) ↔ (AnyHeld body docs × B)
  unfolding passes
  passes-kept_iff body docs conditions rest = and_iff (exists_by-Any_iff (ops.holds body) docs) rest

  pub passes_iff :
      (body : Fields) (fs : List Filter)
      → (passes ops (document_filter ops fs) body ≡ true) ↔ All (Admits body) fs
  unfolding passes document_filter
  passes_iff body [] = (λ h. tt, λ h. refl)
  passes_iff body (f ∷ fs) =
      let rest = passes_iff body fs in
      elim (List-cases f.values) [
        | inl e ↦
            let skipped = ap (λ d. passes ops d body) (document_filter-skipped f fs e) in
            (λ h. (inl e, rest.0 (sym skipped ∙ h)), λ (_, k). skipped ∙ rest.1 k)
        | inr (v, vs, e) ↦
            let docs = alternatives_of ops f.field f.values in
            let kept = ap (λ d. passes ops d body) (document_filter-kept f fs v vs e) in
            let (there, back) = passes-kept_iff body docs (document_filter ops fs) rest in
            let (any, held) = alternatives_of_iff body f.field f.values in
            (
              λ h. let (a, k) = there (sym kept ∙ h) in (inr (any a), k),
              λ (a, k). elim a [ inl none_left ↦ cc | inr given ↦ kept ∙ back (held given, k) ],
            )
      ]

  abbrev pub IsShown : ListQuery → Row → Type 0
  IsShown q row = All (Admits row.1) q.filters

  matching-IsShown : (q : ListQuery) (c : Collection) → All (IsShown q) (matching ops q.filters c)
  unfolding matching
  matching-IsShown q c =
      All-map (IsShown q) (matching ops q.filters c) (λ row h. (passes_iff row.1 q.filters).0 h)
        (All-select_by (λ d. passes ops (document_filter ops q.filters) d.1) c.documents)

  -- An accepted query string is answered with a page, where its offset is less than 2 ^ 63 and the
  -- database takes its texts: of 1000 documents at most, each of them admitted by every filter, with
  -- the number of all documents that the filters pass, also where the page is past the end.
  pub list_documents-IsShown :
      (values : Values) (q : ListQuery) (c : Collection) (k : ℕ)
      → parse_list_query values ≡ read q
      → Taken ops q
      → q.page ≡ suc k
      → k * q.limit < two_63
      → (page : DocumentPage) × (list_documents ops q c ≡ some page)
        × (page.total ≡ length (matching ops q.filters c))
        × (length page.documents ≤ max_list_limit)
        × All (IsShown q) page.documents
  list_documents-IsShown values q c k accepted t e small =
      let rows = order_by ops q.sort q.desc (matching ops q.filters c) in
      let shown = drop (k * q.limit) rows in
      let (_, bound) = limit-range values q accepted in
      (
        page_at ops (k * q.limit) q c,
        ap (λ p. list_documents ops (record q { page = p }) c) e
            ∙ list_documents-page ops q c k t small,
        refl,
        omega (arith, bound, length-take q.limit shown),
        All-take (IsShown q) q.limit shown (
            All-drop (IsShown q) (k * q.limit) rows (
              All-order_by (IsShown q) q.sort q.desc (matching ops q.filters c)
                (matching-IsShown q c))),
      )
