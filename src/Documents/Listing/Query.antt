-- ===== src/Documents/Listing/Query.antt =====
-- The parameters of a listing, each by itself: what is read where it is accepted.
use restest.Base.{
  ℕ, ◌≤◌, ◌≡◌, refl, sym, ap, ◌∙◌, ◌⊎◌, ◌↔◌, Bool, true, false, not, ◌&&◌, leb, Bool-cases, inl,
  inr, List, [], ◌∷◌, Option, none, some, arith, All, Bytes, codes, same_iff, map, contains, Int64,
  pos, neg, parse_int,
}
use restest.Database.{select_by}
use restest.Documents.Listing.{
  Filter, Read, read, refused, Values, number_of, in_range, direction_of, is_reserved, filter_of,
  add_filter, read_filters, list_params, unknown_param,
}

-- A parameter that is missing or empty, and one that states a number of the range.
abbrev pub IsNumber : ℕ → ℕ → Bytes → ℕ → Type 0
IsNumber default bound raw n =
    (raw ≡ [] × n ≡ default) ⊎ ((parse_int raw ≡ some (pos n)) × (1 ≤ n) × (n ≤ bound))

abbrev pub IsDirection : Bytes → Bool → Type 0
IsDirection order desc =
    ((order ≡ [] ⊎ order ≡ codes "asc") × desc ≡ false) ⊎ (order ≡ codes "desc" × desc ≡ true)

abbrev pub IsKnown : Bytes → Type 0
IsKnown field = is_reserved field ≡ true → contains field list_params ≡ true

abbrev pub plain : List Bytes → List Bytes
plain fields = select_by (λ f. not (is_reserved f)) fields

in_range_iff :
    (bound : ℕ) (o : Option Int64) (n : ℕ)
    → (in_range bound o ≡ some n) ↔ ((o ≡ some (pos n)) × (1 ≤ n) × (n ≤ bound))
in_range_iff bound none n = (λ e. cc, λ (e, _, _). cc)
in_range_iff bound (some (neg m)) n = (λ e. cc, λ (e, _, _). cc)
in_range_iff bound (some (pos m)) n = (
  λ h. elim (Bool-cases (leb 1 m && leb m bound)) [
    | inl e ↦
        let same_number : m ≡ n = ground arith in
        (ap (λ k. some (pos k)) same_number, ground arith, ground arith)
    | inr e ↦ ground arith
  ],
  λ (e, l, u). ground arith,
)

pub number_of_iff :
    (default bound : ℕ) (raw : Bytes) (n : ℕ)
    → (number_of default bound raw ≡ some n) ↔ IsNumber default bound raw n
unfolding number_of
number_of_iff default bound [] n = (
  λ e. inl (refl, ground arith),
  λ h. elim h [ inl (_, e) ↦ ap some (sym e) | inr (e, _, _) ↦ cc ],
)
number_of_iff default bound (c ∷ s) n =
    let (there, back) = in_range_iff bound (parse_int (c ∷ s)) n in
    (λ e. inr (there e), λ h. elim h [ inl (e, _) ↦ cc | inr k ↦ back k ])

pub direction_of_iff :
    (order : Bytes) (desc : Bool) → (direction_of order ≡ some desc) ↔ IsDirection order desc
unfolding direction_of
direction_of_iff order desc =
    ground (arith, same_iff order [], same_iff order (codes "asc"), same_iff order (codes "desc"))

module _ (values : Values) (f : Bytes) (fields : List Bytes) where
  add_filter-read :
      (r : Read (List Filter)) (fs : List Filter)
      → add_filter (filter_of values f) r ≡ read fs
      → (gs : List Filter) × (r ≡ read gs) × (fs ≡ filter_of values f ∷ gs)
  add_filter-read (read gs) fs e = (gs, refl, ground arith)
  add_filter-read (refused error) fs e = cc

  read_filters-reserved :
      is_reserved f ≡ true
      → contains f list_params ≡ true
      → read_filters values (f ∷ fields) ≡ read_filters values fields
  unfolding read_filters
  read_filters-reserved e k = rw (e, k) refl

  read_filters-unknown :
      is_reserved f ≡ true
      → contains f list_params ≡ false
      → read_filters values (f ∷ fields) ≡ refused (unknown_param f)
  unfolding read_filters
  read_filters-unknown e k = rw (e, k) refl

  read_filters-plain :
      is_reserved f ≡ false
      → read_filters values (f ∷ fields)
        ≡ add_filter (filter_of values f) (read_filters values fields)
  unfolding read_filters
  read_filters-plain e = rw e refl

  plain-reserved : is_reserved f ≡ true → plain (f ∷ fields) ≡ plain fields
  unfolding select_by
  plain-reserved e = rw e refl

  plain-plain : is_reserved f ≡ false → plain (f ∷ fields) ≡ f ∷ plain fields
  unfolding select_by
  plain-plain e = rw e refl

abbrev mapped : Values → List Bytes → List Filter
mapped values fields = map (filter_of values) (plain fields)

pub read_filters_iff :
    (values : Values) (fields : List Bytes) (fs : List Filter)
    → (read_filters values fields ≡ read fs)
      ↔ (All IsKnown fields × fs ≡ map (filter_of values) (plain fields))
unfolding read_filters select_by
read_filters_iff values [] fs = (λ e. (tt, ground arith), λ (_, e). ap read (sym e))
read_filters_iff values (f ∷ fields) fs =
    let (there, back) = read_filters_iff values fields fs in
    elim (Bool-cases (is_reserved f)) [
      | inl e ↦ elim (Bool-cases (contains f list_params)) [
        | inl k ↦ (
          λ h.
              let (known, g) = there (sym (read_filters-reserved values f fields e k) ∙ h) in
              (
                (λ _. k, known),
                g ∙ ap (map (filter_of values)) (sym (plain-reserved values f fields e)),
              ),
          λ ((_, known), g).
              read_filters-reserved values f fields e k
              ∙ back (known, g ∙ ap (map (filter_of values)) (plain-reserved values f fields e)),
        )
        | inr k ↦ (
          λ h. absurd (ground (arith, read_filters-unknown values f fields e k)),
          λ ((known, _), _). absurd (ground (arith, known e)),
        )
      ]
      | inr e ↦ (
        λ h.
            let (gs, r, g) =
              add_filter-read values f fields (read_filters values fields) fs
                (sym (read_filters-plain values f fields e) ∙ h) in
            let (known, g') = (read_filters_iff values fields gs).0 r in
            (
              (λ k. absurd (ground arith), known),
              g
                  ∙ ap (λ l. filter_of values f ∷ l) g'
                  ∙ ap (map (filter_of values)) (sym (plain-plain values f fields e)),
            ),
        λ ((_, known), g).
            read_filters-plain values f fields e
            ∙ ap (add_filter (filter_of values f))
                ((read_filters_iff values fields (mapped values fields)).1 (known, refl))
            ∙ ap read (sym (g ∙ ap (map (filter_of values)) (plain-plain values f fields e))),
      )
    ]
