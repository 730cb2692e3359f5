-- ===== src/Collections/Panic.antt =====
-- `seedDocuments` on a seed with `null` for an entry: the assignment to a nil map.
use restest.Base.{ℕ, suc, ◌≡◌, refl, ◌↔◌, List, [], ◌∷◌, Option, none, some, Any, Bytes, inl, inr}
use restest.Collections.{
  Element, object, null_element, not_object, Strategy, SeedDoc, panicked, FirstPass, passed,
  stopped, read_ids, add_doc, fill, finish, second_pass, seed_documents,
}
use restest.Collections.Own.{Read, ReadPass, read_ids-ReadPass}

abbrev pub IsNull : Element → Type 0
IsNull e = e ≡ null_element

-- The first loop found no fault with the seed.
abbrev pub Passes : FirstPass → Type 0
Passes p = (ids : List Bytes) × (taken : List Bytes) × (p ≡ passed ids taken)

add_doc-none : (d : SeedDoc) (o : Option (List SeedDoc)) → (add_doc d o ≡ none) ↔ (o ≡ none)
add_doc-none d none = (λ h. refl, λ h. refl)
add_doc-none d (some ds) = (λ h. cc, λ h. cc)

finish-panicked : (o : Option (List SeedDoc)) → (finish o ≡ panicked) ↔ (o ≡ none)
finish-panicked none = (λ h. refl, λ h. refl)
finish-panicked (some ds) = (λ h. cc, λ h. cc)

Any-IsNull_tail :
    (e : Element) (es : List Element) → ¬ IsNull e → Any IsNull es ↔ Any IsNull (e ∷ es)
Any-IsNull_tail e es h = (inr, λ a. elim a [ inl n ↦ absurd (h n) | inr r ↦ r ])

↔-trans : {A B C : Type 0} → A ↔ B → B ↔ C → A ↔ C
↔-trans (f, g) (h, k) = (λ a. h (f a), λ c. g (k c))

module _ (strategy : Strategy) (uuids : ℕ → Bytes) (id_field : Bytes) where
  fill-none :
      (i : ℕ) (es : List Element) (ids : List Bytes) (counter : ℕ) (taken : List Bytes)
      → Read id_field es ids
      → (fill strategy uuids id_field i es ids counter taken ≡ none) ↔ Any IsNull es
  unfolding fill Read
  fill-none i [] [] counter taken h = (λ e. cc, λ a. absurd a)
  fill-none i [] (id ∷ ids) counter taken h = absurd h
  fill-none i (object fields ∷ es) [] counter taken h = absurd h
  fill-none i (null_element ∷ es) [] counter taken h = absurd h
  fill-none i (not_object ∷ es) [] counter taken h = absurd h
  fill-none i (object fields ∷ es) ((c ∷ s) ∷ ids) counter taken (_, h) =
      ↔-trans (add_doc-none _ _) (
        ↔-trans (fill-none (suc i) es ids counter taken h)
          (Any-IsNull_tail (object fields) es (λ e. cc)))
  fill-none i (null_element ∷ es) ((c ∷ s) ∷ ids) counter taken (e, h) = cc
  fill-none i (not_object ∷ es) ((c ∷ s) ∷ ids) counter taken h = absurd h
  fill-none i (object fields ∷ es) ([] ∷ ids) counter taken (_, h) =
      ↔-trans (add_doc-none _ _)
        (↔-trans (fill-none (suc i) es ids _ _ h) (Any-IsNull_tail (object fields) es (λ e. cc)))
  fill-none i (null_element ∷ es) ([] ∷ ids) counter taken h = (λ e. inl refl, λ a. refl)
  fill-none i (not_object ∷ es) ([] ∷ ids) counter taken h = absurd h

  second_pass-panicked :
      (es : List Element) (p : FirstPass)
      → ReadPass id_field es p
      → (second_pass strategy uuids id_field es p ≡ panicked) ↔ (Passes p × Any IsNull es)
  unfolding ReadPass
  second_pass-panicked es (stopped x) h = (λ e. cc, λ ((ids, taken, e), a). cc)
  second_pass-panicked es (passed ids taken) h =
      let decided =
        ↔-trans (finish-panicked (fill strategy uuids id_field 0 es ids 0 taken))
          (fill-none 0 es ids 0 taken h) in
      (λ e. ((ids, taken, refl), decided.0 e), λ (_, a). decided.1 a)

  -- The seeding panics exactly if the first loop finds no fault with the seed and an entry is `null`.
  pub seed_documents-panicked :
      (es : List Element)
      → (seed_documents strategy uuids id_field es ≡ panicked)
        ↔ (Passes (read_ids 0 id_field es []) × Any IsNull es)
  unfolding seed_documents
  seed_documents-panicked es =
      second_pass-panicked es (read_ids 0 id_field es []) (read_ids-ReadPass 0 id_field es [])
