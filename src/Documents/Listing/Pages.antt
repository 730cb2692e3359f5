-- ===== src/Documents/Listing/Pages.antt =====
-- What the pages of a listing hold, and that they make up the whole of it.
use restest.Base.{
  Bool, true, ℕ, zero, suc, ◌+◌, ◌*◌, ◌<◌, ◌≤◌, ◌≡◌, refl, sym, ap, ap₂, ◌∙◌, subst, Bool-cases,
  inl, inr, List, [], ◌∷◌, ◌++◌, Option, none, some, arith, Bytes, length, take, take_all,
  length-append, length-sort_by, sort_by-Perm, lookup,
}
use mathlib.Core.List.{Perm, reverse, reverse_perm, reverse-cons}
use mathlib.Core.List.Perm
use native.Mathlib.Nat.{add-mul}
use restest.Collections.{Fields}
use restest.Documents.{Collection}
use restest.Documents.Listing.{
  ListQuery, JsonOps, DocumentPage, offset_of, drop, scanned, matching, before, order_by,
  count_documents, document_filter, with_total, list_documents, two_63, two_64,
}

abbrev Row : Type 0
Row = Bytes × Fields

take_nil : (n : ℕ) → take {A = Row} n [] ≡ []
take_nil zero = refl
take_nil (suc n) = refl

take-drop : (n m : ℕ) (rows : List Row) → take n rows ++ take m (drop n rows) ≡ take (n + m) rows
take-drop zero m rows = ap (λ n. take n rows) (omega arith)
take-drop (suc n) m [] = take_nil m ∙ sym (take_nil (suc n + m))
take-drop (suc n) m (row ∷ rows) =
    ap (λ l. row ∷ l) (take-drop n m rows)
    ∙ (let e : suc (n + m) ≡ suc n + m = omega arith in ap (λ k. take k (row ∷ rows)) e)

length-reverse : (rows : List Row) → length (reverse rows) ≡ length rows
length-reverse [] = refl
length-reverse (row ∷ rows) =
    ap length (reverse-cons row rows)
    ∙ omega (arith, length-reverse rows, length-append (reverse rows) (row ∷ []))

module _ (ops : JsonOps) where
  pub length-order_by :
      (field : Bytes) (desc : Bool) (rows : List Row)
      → length (order_by ops field desc rows) ≡ length rows
  unfolding order_by
  length-order_by [] desc rows = elim (Bool-cases desc) [
    | inl e ↦ rw e (length-reverse rows)
    | inr e ↦ rw e refl
  ]
  length-order_by (c ∷ s) desc rows =
      length-sort_by (λ x y. before ops desc (lookup (c ∷ s) x.1) (lookup (c ∷ s) y.1)) rows

  pub order_by-Perm :
      (field : Bytes) (desc : Bool) (rows : List Row) → Perm (order_by ops field desc rows) rows
  unfolding order_by
  order_by-Perm [] desc rows = elim (Bool-cases desc) [
    | inl e ↦ rw e (reverse_perm rows)
    | inr e ↦ rw e (Perm.refl rows)
  ]
  order_by-Perm (c ∷ s) desc rows =
      sort_by-Perm (λ x y. before ops desc (lookup (c ∷ s) x.1) (lookup (c ∷ s) y.1)) rows

  with_total-scanned :
      (q : ListQuery) (c : Collection) (rows : List Row)
      → with_total ops q.filters c (scanned (length (matching ops q.filters c)) rows)
        ≡ record { documents = rows; total = length (matching ops q.filters c) }
  unfolding count_documents
  with_total-scanned q c [] = refl
  with_total-scanned q c (row ∷ rows) = refl

  abbrev pub page_at : ℕ → ListQuery → Collection → DocumentPage
  page_at offset q c =
      let rows = matching ops q.filters c in
      record {
        documents = take q.limit (drop offset (order_by ops q.sort q.desc rows));
        total = length rows;
      }

  -- The database takes what the query sends.
  abbrev pub Taken : ListQuery → Type 0
  Taken q = ops.takes (document_filter ops q.filters) q.sort ≡ true

  offset_of-small : (k limit : ℕ) → k * limit < two_63 → offset_of (suc k) limit ≡ some (k * limit)
  unfolding offset_of
  offset_of-small k limit h = ground arith

  offset_of-negative :
      (k limit : ℕ) → two_63 ≤ k * limit → k * limit < two_64 → offset_of (suc k) limit ≡ none
  unfolding offset_of
  offset_of-negative k limit l u = ground arith

  offset_of-wrapped :
      (n k limit : ℕ)
      → n * limit ≡ two_64
      → k * limit < two_63
      → offset_of (suc (n + k)) limit ≡ some (k * limit)
  unfolding offset_of
  offset_of-wrapped n k limit e h =
      let split : (n + k) * limit ≡ two_64 + k * limit = omega (arith, add-mul n k limit) in
      ground arith

  list_documents-refused :
      (q : ListQuery) (c : Collection)
      → offset_of q.page q.limit ≡ none
      → list_documents ops q c ≡ none
  unfolding list_documents
  list_documents-refused q c e =
      elim (Bool-cases (ops.takes (document_filter ops q.filters) q.sort)) [
        | inl k ↦ rw (k, e, list_documents) refl
        | inr k ↦ rw (k, list_documents) refl
      ]

  pub list_documents-offset :
      (q : ListQuery) (c : Collection) (offset : ℕ)
      → Taken q
      → offset_of q.page q.limit ≡ some offset
      → list_documents ops q c ≡ some (page_at offset q c)
  unfolding list_documents
  list_documents-offset q c offset k e =
      let rows = matching ops q.filters c in
      rw (k, e, list_documents)
        (ap some
          (with_total-scanned q c (take q.limit (drop offset (order_by ops q.sort q.desc rows)))))

  pub list_documents-page :
      (q : ListQuery) (c : Collection) (k : ℕ)
      → Taken q
      → k * q.limit < two_63
      → list_documents ops (record q { page = suc k }) c ≡ some (page_at (k * q.limit) q c)
  list_documents-page q c k t h =
      list_documents-offset (record q { page = suc k }) c (k * q.limit) t
        (offset_of-small k q.limit h)

  abbrev pub shown : Option DocumentPage → List Row
  shown none = []
  shown (some page) = page.documents

  -- The first pages in a row.
  abbrev pub turned : ℕ → ListQuery → Collection → List Row
  turned zero q c = []
  turned (suc k) q c = turned k q c ++ shown (list_documents ops (record q { page = suc k }) c)

  turned-take :
      (k : ℕ) (q : ListQuery) (c : Collection)
      → Taken q
      → k * q.limit ≤ two_63
      → 1 ≤ q.limit
      → turned k q c ≡ take (k * q.limit) (order_by ops q.sort q.desc (matching ops q.filters c))
  turned-take zero q c t h l =
      let e : 0 ≡ 0 * q.limit = omega arith in
      ap (λ n. take n (order_by ops q.sort q.desc (matching ops q.filters c))) e
  turned-take (suc k) q c t h l =
      let rows = order_by ops q.sort q.desc (matching ops q.filters c) in
      let e : k * q.limit + q.limit ≡ suc k * q.limit = omega arith in
      ap₂ ◌++◌ (turned-take k q c t (omega arith) l)
        (ap shown (list_documents-page q c k t (omega arith)))
      ∙ take-drop (k * q.limit) q.limit rows
      ∙ ap (λ n. take n rows) e

  -- The first n pages of a listing, one behind the other, are all the documents that the filters pass, in
  -- the order of the query, and so each of them once, where n pages hold that many documents; n pages
  -- reach to 2 ^ 63 documents at most, and the database takes the texts of the query.
  pub turned-matching :
      (n : ℕ) (q : ListQuery) (c : Collection)
      → Taken q
      → 1 ≤ q.limit
      → n * q.limit ≤ two_63
      → length (matching ops q.filters c) ≤ n * q.limit
      → (turned n q c ≡ order_by ops q.sort q.desc (matching ops q.filters c))
        × Perm (turned n q c) (matching ops q.filters c)
  turned-matching n q c t l h fits =
      let rows = matching ops q.filters c in
      let all : turned n q c ≡ order_by ops q.sort q.desc rows =
        turned-take n q c t h l
        ∙ take_all (n * q.limit) (order_by ops q.sort q.desc rows)
            (omega (arith, fits, length-order_by q.sort q.desc rows)) in
      (all, subst (λ l. Perm l rows) (sym all) (order_by-Perm q.sort q.desc rows))

  -- From an offset of 2 ^ 63 on the database is asked for a negative one, which is an error.
  pub list_documents-negative :
      (q : ListQuery) (c : Collection) (k : ℕ)
      → two_63 ≤ k * q.limit
      → k * q.limit < two_64
      → list_documents ops (record q { page = suc k }) c ≡ none
  list_documents-negative q c k l u =
      list_documents-refused (record q { page = suc k }) c (offset_of-negative k q.limit l u)

  -- The offset of a page is counted in 64 bits: where n pages hold 2 ^ 64 documents, the page n further
  -- on is answered as the page itself, with its documents, and not as a page past the end, if the
  -- database takes the texts of the query.
  pub list_documents-wrapped :
      (q : ListQuery) (c : Collection) (n k : ℕ)
      → Taken q
      → n * q.limit ≡ two_64
      → k * q.limit < two_63
      → list_documents ops (record q { page = suc (n + k) }) c
        ≡ list_documents ops (record q { page = suc k }) c
  list_documents-wrapped q c n k t e h =
      list_documents-offset (record q { page = suc (n + k) }) c (k * q.limit) t
        (offset_of-wrapped n k q.limit e h)
      ∙ sym (list_documents-page q c k t h)
