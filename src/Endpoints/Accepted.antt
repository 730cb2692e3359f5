-- ===== src/Endpoints/Accepted.antt =====
-- What `EndpointInput.normalize` accepts.
use restest.Base.{
  ◌≤◌, ◌≡◌, refl, sym, ap, subst, ◌∙◌, ◌↔◌, inl, inr, Bool, true, false, List, [], ◌∷◌, arith,
  Bytes, codes, same, contains, length, All, Bool-cases,
}
use restest.Fields.{
  FieldErrors, add_error-ne-nil, path_too_long, path_too_deep, path_control, path_query,
  path_not_whole, param_twice, collection_path_id, collection_unset,
}
use restest.Paths.{split_path, param_name, path_params}
use restest.Paths.Validate.{
  validate_path, validate_collection_path, check_segments, IsPattern, validate_path_iff,
}
use restest.Forms.Headers.{max_headers, names_of, IsHeader, validate_headers_iff}
use restest.Forms.Endpoint.{
  kinds, methods, between, min_status_code, max_status_code, max_delay_ms, max_body_len,
  validate_method, validate_kind, validate_delay, validate_method_iff, validate_kind_iff,
  validate_status_code_iff, validate_delay_iff, validate_body_iff,
}
use restest.Database.{ok}
use restest.Endpoints.{
  EndpointInput, nil_uuid, is_collection, tidied, check_common, check_collection_id, check_input,
  or_invalid, normalize,
}

check_segments_clean :
    (fe : FieldErrors) (seen segs : List Bytes) → check_segments fe seen segs ≡ [] → fe ≡ []
unfolding check_segments
check_segments_clean fe seen [] h = h
check_segments_clean fe seen (seg ∷ segs) h =
    let twice = add_error-ne-nil (codes "path") (param_twice (param_name seg)) fe in
    let brace = add_error-ne-nil (codes "path") path_not_whole fe in
    let named = check_segments_clean fe (param_name seg ∷ seen) segs in
    let plain = check_segments_clean fe seen segs in ground (arith, twice, brace, named, plain)

validate_path_clean : (fe : FieldErrors) (path : Bytes) → validate_path fe path ≡ [] → fe ≡ []
unfolding validate_path
validate_path_clean fe path h =
    let long = add_error-ne-nil (codes "path") path_too_long fe in
    let deep = add_error-ne-nil (codes "path") path_too_deep fe in
    let control = add_error-ne-nil (codes "path") path_control fe in
    let query = add_error-ne-nil (codes "path") path_query fe in
    let segments = check_segments_clean fe [] (split_path path) in
    ground (arith, long, deep, control, query, segments)

path_iff :
    (fe : FieldErrors) (path : Bytes) → (validate_path fe path ≡ []) ↔ ((fe ≡ []) × IsPattern path)
path_iff fe path = (
  λ h.
      let clean = validate_path_clean fe path h in
      (clean, (validate_path_iff path).0 (subst (λ f. validate_path f path ≡ []) clean h)),
  λ (clean, p). subst (λ f. validate_path f path ≡ []) (sym clean) ((validate_path_iff path).1 p),
)

collection_path_iff :
    (fe : FieldErrors) (path : Bytes)
    → (validate_collection_path fe path ≡ [])
      ↔ ((contains (codes "id") (path_params path) ≡ false) × (fe ≡ []))
unfolding validate_collection_path
collection_path_iff fe path = ground (arith, add_error-ne-nil (codes "path") collection_path_id fe)

collection_id_iff :
    (fe : FieldErrors) (id : Bytes)
    → (check_collection_id id fe ≡ []) ↔ ((same id nil_uuid ≡ false) × (fe ≡ []))
collection_id_iff fe id = elim (Bool-cases (same id nil_uuid)) [
  | inl e ↦
      rw e
        (λ h. absurd (add_error-ne-nil (codes "collection_id") collection_unset fe h), λ (h, _). cc)
  | inr e ↦ rw e (λ h. (refl, h), λ (_, h). h)
]

-- The fields that both kinds have.
pub record IsCommon (input : EndpointInput) : Type 0 where
  pub kind_listed : contains input.kind kinds ≡ true
  pub method_listed : contains input.method methods ≡ true
  pub pattern_path : IsPattern input.path
  pub delay_sane : between 0 max_delay_ms input.delay_ms ≡ true
  pub few_headers : length input.headers ≤ max_headers
  pub headers_fit : All (IsHeader input.headers) (names_of input.headers)

check_common_iff : (input : EndpointInput) → (check_common input ≡ []) ↔ IsCommon input
unfolding check_common
check_common_iff input =
    let a = validate_kind input.kind [] in
    let b = validate_method input.method a in
    let c = validate_path b input.path in
    let d = validate_delay input.delay_ms c in
    (
      λ h.
          let (h4, few, headers) = (validate_headers_iff input.headers d).0 h in
          let (delay, h3) = (validate_delay_iff input.delay_ms c).0 h4 in
          let (h2, path) = (path_iff b input.path).0 h3 in
          let (method, h1) = (validate_method_iff input.method a).0 h2 in
          record {
            kind_listed = ((validate_kind_iff input.kind []).0 h1).0;
            method_listed = method;
            pattern_path = path;
            delay_sane = delay;
            few_headers = few;
            headers_fit = headers;
          },
      λ p.
          let h1 = (validate_kind_iff input.kind []).1 (p.kind_listed, refl) in
          let h2 = (validate_method_iff input.method a).1 (p.method_listed, h1) in
          let h3 = (path_iff b input.path).1 (h2, p.pattern_path) in
          let h4 = (validate_delay_iff input.delay_ms c).1 (p.delay_sane, h3) in
          (validate_headers_iff input.headers d).1 (h4, p.few_headers, p.headers_fit),
    )

-- The fields of the kind of the input; those of the other kind are not read.
abbrev pub IsOfKind : EndpointInput → Bool → Type 0
IsOfKind input true =
    (contains (codes "id") (path_params input.path) ≡ false)
    × (same input.collection_id nil_uuid ≡ false)
IsOfKind input false =
    (between min_status_code max_status_code input.status_code ≡ true)
    × (length input.body ≤ max_body_len)

abbrev pub IsAccepted : EndpointInput → Type 0
IsAccepted input = IsCommon input × IsOfKind input (is_collection input)

check_input_iff : (input : EndpointInput) → (check_input input ≡ []) ↔ IsAccepted input
unfolding check_input
check_input_iff input = elim (Bool-cases (is_collection input)) [
  | inl e ↦ rw e (
    λ h.
        let (id, h1) = (collection_id_iff _ input.collection_id).0 h in
        let (path, h2) = (collection_path_iff (check_common input) input.path).0 h1 in
        ((check_common_iff input).0 h2, (path, id)),
    λ (common, (path, id)). (collection_id_iff _ input.collection_id).1 (
      id,
      (collection_path_iff (check_common input) input.path).1
          (path, (check_common_iff input).1 common),
    ),
  )
  | inr e ↦ rw e (
    λ h.
        let (body, h1) = (validate_body_iff input.body _).0 h in
        let (status, h2) = (validate_status_code_iff input.status_code (check_common input)).0 h1 in
        ((check_common_iff input).0 h2, (status, body)),
    λ (common, (status, body)). (validate_body_iff input.body _).1 (
      body,
      (validate_status_code_iff input.status_code (check_common input)).1
          (status, (check_common_iff input).1 common),
    ),
  )
]

or_invalid-ok :
    {A : Type 0} (a b : A) (fe : FieldErrors) → or_invalid a fe ≡ ok b → (fe ≡ []) × (a ≡ b)
or_invalid-ok a b [] h = (refl, cc)
or_invalid-ok a b (e ∷ fe) h = cc

-- An input is accepted exactly if its tidied form keeps the rules of the fields of its kind, and what
-- is accepted is the tidied form: the fields of the other kind are not looked at.
pub normalize_iff :
    (input input' : EndpointInput)
    → (normalize input ≡ ok input') ↔ ((input' ≡ tidied input) × IsAccepted input')
unfolding normalize
normalize_iff input input' = (
  λ h.
      let (clean, e) = or_invalid-ok (tidied input) input' (check_input (tidied input)) h in
      (sym e, subst IsAccepted e ((check_input_iff (tidied input)).0 clean)),
  λ (e, p).
      ap (or_invalid (tidied input)) ((check_input_iff (tidied input)).1 (subst IsAccepted e p))
      ∙ ap ok (sym e),
)
