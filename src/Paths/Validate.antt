-- ===== src/Paths/Validate.antt =====
-- `validatePath` and `validateCollectionPath`, and what a path that passes them is.
use restest.Base.{
  ℕ, ◌≤◌, ◌≡◌, refl, ◌↔◌, ◌⊎◌, inl, inr, Bool, true, false, ◌||◌, List, [], ◌∷◌, arith, ltb, ◌==◌,
  if◌then◌else◌, Bool-cases, Bytes, codes, has_byte, length, All, any, contains, same_iff,
}
use restest.Fields.{
  FieldErrors, add_error, add_error-ne-nil, path_too_long, path_too_deep, path_control, path_query,
  path_not_whole, param_twice, collection_path_id,
}
use restest.Paths.Segments.{split_path, param_pattern, param_name, names_of, path_params}

abbrev pub max_path_len : ℕ
max_path_len = 512

abbrev pub max_path_segments : ℕ
max_path_segments = 32

-- `isControl`, on a byte: the code points that it accepts are bytes of their own.
abbrev pub is_control : ℕ → Bool
is_control c = ltb c 0x20 || c == 0x7f

abbrev pub has_brace : Bytes → Bool
has_brace segment = has_byte b'{' segment || has_byte b'}' segment

-- The loop of `validatePath`, with the names seen so far.
unfoldable pub check_segments : FieldErrors → List Bytes → List Bytes → FieldErrors
unfolding param_pattern contains has_byte add_error
check_segments fe seen [] = fe
check_segments fe seen (seg ∷ segs) =
    let named = check_segments fe (param_name seg ∷ seen) segs in
    let plain = check_segments fe seen segs in
    if param_pattern seg
    then (if contains (param_name seg) seen
        then add_error (codes "path") (param_twice (param_name seg)) fe
        else named)
    else if has_brace seg
    then add_error (codes "path") path_not_whole fe
    else plain

unfoldable pub validate_path : FieldErrors → Bytes → FieldErrors
unfolding split_path check_segments has_byte add_error
validate_path fe path =
    if ltb max_path_len (length path)
    then add_error (codes "path") path_too_long fe
    else if ltb max_path_segments (length (split_path path))
    then add_error (codes "path") path_too_deep fe
    else if any is_control path
    then add_error (codes "path") path_control fe
    else if has_byte b'?' path || has_byte b'#' path
    then add_error (codes "path") path_query fe
    else check_segments fe [] (split_path path)

unfoldable pub validate_collection_path : FieldErrors → Bytes → FieldErrors
unfolding contains path_params add_error
validate_collection_path fe path =
    if contains (codes "id") (path_params path)
    then add_error (codes "path") collection_path_id fe
    else fe

-- No name is twice in the list.
abbrev pub IsDistinct : List Bytes → Type 0
IsDistinct [] = Unit
IsDistinct (x ∷ xs) = (contains x xs ≡ false) × IsDistinct xs

-- A segment is a parameter as a whole or has no brace at all.
abbrev pub IsWhole : Bytes → Type 0
IsWhole seg = (param_pattern seg ≡ true) ⊎ (has_brace seg ≡ false)

-- The names of one list are not in the other.
abbrev Apart : List Bytes → List Bytes → Type 0
Apart xs ys = All (λ x. contains x ys ≡ false) xs

Apart-cons :
    (n : Bytes) (xs ys : List Bytes) → Apart xs (n ∷ ys) ↔ ((contains n xs ≡ false) × Apart xs ys)
unfolding contains
Apart-cons n [] ys = (λ h. (refl, tt), λ h. tt)
Apart-cons n (x ∷ xs) ys = (
  λ (p, h). ground (arith, (Apart-cons n xs ys).0 h, same_iff x n, same_iff n x),
  λ (p, (q, h)).
      (ground (arith, same_iff x n, same_iff n x), (Apart-cons n xs ys).1 (ground arith, h)),
)

-- What the loop checks, in one statement.
abbrev Passes : List Bytes → List Bytes → Type 0
Passes seen segs = All IsWhole segs × IsDistinct (names_of segs) × Apart (names_of segs) seen

check_segments_sound :
    (seen segs : List Bytes) → check_segments [] seen segs ≡ [] → Passes seen segs
unfolding check_segments names_of contains
check_segments_sound seen [] h = (tt, tt, tt)
check_segments_sound seen (seg ∷ segs) h = elim (Bool-cases (param_pattern seg)) [
  | inl named ↦
      let name : Bytes = param_name seg in
      let rest : check_segments [] (name ∷ seen) segs ≡ [] =
        ground (arith, add_error-ne-nil (codes "path") (param_twice name) []) in
      let unseen : contains name seen ≡ false =
        ground (arith, add_error-ne-nil (codes "path") (param_twice name) []) in
      let (whole, distinct, apart) = check_segments_sound (name ∷ seen) segs rest in
      let (fresh, apart') = (Apart-cons name (names_of segs) seen).0 apart in
      rw named ((inl refl, whole), (fresh, distinct), (unseen, apart'))
  | inr plain ↦
      let rest : check_segments [] seen segs ≡ [] =
        ground (arith, add_error-ne-nil (codes "path") path_not_whole []) in
      let braceless : has_brace seg ≡ false =
        ground (arith, add_error-ne-nil (codes "path") path_not_whole []) in
      let (whole, distinct, apart) = check_segments_sound seen segs rest in
      rw plain ((inr braceless, whole), distinct, apart)
]

named_parts :
    (seen : List Bytes) (seg : Bytes) (segs : List Bytes)
    → param_pattern seg ≡ true
    → Passes seen (seg ∷ segs)
    → All IsWhole segs
      × ((contains (param_name seg) (names_of segs) ≡ false) × IsDistinct (names_of segs))
      × ((contains (param_name seg) seen ≡ false) × Apart (names_of segs) seen)
unfolding names_of
named_parts seen seg segs named h =
    let ((_, whole), distinct, apart) = h in (whole, rw named at distinct, rw named at apart)

plain_parts :
    (seen : List Bytes) (seg : Bytes) (segs : List Bytes)
    → param_pattern seg ≡ false
    → Passes seen (seg ∷ segs)
    → (has_brace seg ≡ false)
      × All IsWhole segs
      × IsDistinct (names_of segs)
      × Apart (names_of segs) seen
unfolding names_of
plain_parts seen seg segs plain h =
    let ((here, whole), distinct, apart) = h in
    (ground arith, whole, rw plain at distinct, rw plain at apart)

check_segments_complete :
    (seen segs : List Bytes) → Passes seen segs → check_segments [] seen segs ≡ []
unfolding check_segments names_of contains
check_segments_complete seen [] h = refl
check_segments_complete seen (seg ∷ segs) h = elim (Bool-cases (param_pattern seg)) [
  | inl named ↦
      let name : Bytes = param_name seg in
      let (whole, (fresh, distinct), (unseen, apart)) = named_parts seen seg segs named h in
      let both = (Apart-cons name (names_of segs) seen).1 (fresh, apart) in
      ground (arith, check_segments_complete (name ∷ seen) segs (whole, distinct, both))
  | inr plain ↦
      let (braceless, whole, distinct, apart) = plain_parts seen seg segs plain h in
      ground (arith, check_segments_complete seen segs (whole, distinct, apart))
]

Apart-nil : (xs : List Bytes) → Apart xs []
unfolding contains
Apart-nil [] = tt
Apart-nil (x ∷ xs) = (refl, Apart-nil xs)

validate_path_guards :
    (path : Bytes)
    → validate_path [] path ≡ []
    → (length path ≤ max_path_len)
      × (length (split_path path) ≤ max_path_segments)
      × (any is_control path ≡ false)
      × (has_byte b'?' path ≡ false)
      × (has_byte b'#' path ≡ false)
      × (check_segments [] [] (split_path path) ≡ [])
unfolding validate_path
validate_path_guards path h = ground arith

-- What `validatePath` promises of a path.
pub record IsPattern (path : Bytes) : Type 0 where
  pub short : length path ≤ max_path_len
  pub shallow : length (split_path path) ≤ max_path_segments
  pub printable : any is_control path ≡ false
  pub no_query : (has_byte b'?' path ≡ false) × (has_byte b'#' path ≡ false)
  pub whole : All IsWhole (split_path path)
  pub distinct : IsDistinct (path_params path)

-- A path passes `validatePath` exactly if it is within the limits of length and depth, has no control
-- character, no `?` and no `#`, each segment is a parameter as a whole or has no brace, and no
-- parameter name is there twice.
pub validate_path_iff : (path : Bytes) → (validate_path [] path ≡ []) ↔ IsPattern path
unfolding validate_path path_params
validate_path_iff path = (
  λ h.
      let (short, shallow, printable, no_query, no_fragment, checked) =
        validate_path_guards path h in
      let (whole, distinct, _) = check_segments_sound [] (split_path path) checked in
      record {
        short = short;
        shallow = shallow;
        printable = printable;
        no_query = (no_query, no_fragment);
        whole = whole;
        distinct = distinct;
      },
  λ p.
      let checked : check_segments [] [] (split_path path) ≡ [] =
        check_segments_complete [] (split_path path) (p.whole, p.distinct, Apart-nil _) in
      ground arith,
)
