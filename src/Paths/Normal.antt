-- ===== src/Paths/Normal.antt =====
-- `NormalizePath`: when the stored form of a path keeps its segments, and when it does not.
use mathlib.Core.List.{reverse, reverse-append}
use restest.Base.{
  ℕ, suc, ◌≡◌, refl, sym, ap, ◌∙◌, ◌≢◌, List, [], ◌∷◌, ◌++◌, map, none, arith, Bytes, split, join,
  All, Lacks, split-join, split-append, split_of_Lacks, length, length-append,
}
use restest.Paths.Trim.{
  spaces, cut_space, trim_left, trim_right, trim_space, trim_space_of_IsTrimmed, trim_right_of_stop,
}
use restest.Paths.Segments.{non_empty, split_path, normalize_path, IsSegment, split_path-IsSegment}

-- The text does not end with white space.
abbrev pub EndsInText : Bytes → Type 0
EndsInText s = cut_space (map reverse spaces) (reverse s) ≡ none

slash_front : (s : Bytes) → cut_space spaces (b'/' ∷ s) ≡ none
unfolding cut_space
slash_front s = refl

non_empty_of_IsSegment : (ps : List Bytes) → All IsSegment ps → non_empty ps ≡ ps
unfolding non_empty
non_empty_of_IsSegment [] h = refl
non_empty_of_IsSegment ([] ∷ ps) ((h, _), _) = absurd (h refl)
non_empty_of_IsSegment ((c ∷ s) ∷ ps) (_, h) = ap (λ l. (c ∷ s) ∷ l) (non_empty_of_IsSegment ps h)

All-Lacks : (ps : List Bytes) → All IsSegment ps → All (Lacks b'/') ps
All-Lacks [] h = tt
All-Lacks (p ∷ ps) ((_, k), h) = (k, All-Lacks ps h)

split_path_trimmed :
    (t : Bytes) → EndsInText (b'/' ∷ t) → split_path (b'/' ∷ t) ≡ non_empty (split b'/' t)
unfolding split_path split
split_path_trimmed t back =
    ap (λ u. non_empty (split b'/' u)) {y = b'/' ∷ t}
      (trim_space_of_IsTrimmed (b'/' ∷ t) (slash_front t, back))

-- Segments that are written behind a slash each are read back, unless the text ends in white space.
split_path-join :
    (ps : List Bytes)
    → All IsSegment ps
    → EndsInText (b'/' ∷ join b'/' ps)
    → split_path (b'/' ∷ join b'/' ps) ≡ ps
unfolding join split non_empty
split_path-join [] h back = split_path_trimmed [] back
split_path-join (p ∷ ps) h back =
    split_path_trimmed (join b'/' (p ∷ ps)) back
    ∙ (ap non_empty (split-join b'/' p ps (All-Lacks (p ∷ ps) h))
        ∙ non_empty_of_IsSegment (p ∷ ps) h)

-- A path whose normal form does not end in white space has the segments of its normal form, and is
-- normalised once and for all.
pub split_path-normalize_path :
    (path : Bytes)
    → EndsInText (normalize_path path)
    → (split_path (normalize_path path) ≡ split_path path)
      × (normalize_path (normalize_path path) ≡ normalize_path path)
unfolding normalize_path
split_path-normalize_path path h =
    let same_segments = split_path-join (split_path path) (split_path-IsSegment path) h in
    (same_segments, ap (λ l. b'/' ∷ join b'/' l) same_segments)

reverse-snoc : (s : Bytes) (c : ℕ) → reverse (s ++ c ∷ []) ≡ c ∷ reverse s
reverse-snoc s c = reverse-append s (c ∷ [])

EndsInText-slash : (s : Bytes) → EndsInText (s ++ b'/' ∷ [])
unfolding cut_space
EndsInText-slash s = rw (reverse-snoc s b'/')

length-snoc : (s : Bytes) (c : ℕ) → length (s ++ c ∷ []) ≡ suc (length s)
length-snoc s c = omega (arith, length-append s (c ∷ []))

trim_right-space : (s : Bytes) → trim_right (s ++ 32 ∷ []) ≡ trim_right s
unfolding trim_right cut_space
trim_right-space s = rw (reverse-snoc s 32, length-snoc s 32)

Lacks-snoc : (s : Bytes) (c : ℕ) → Lacks b'/' s → c ≢ b'/' → Lacks b'/' (s ++ c ∷ [])
Lacks-snoc [] c h k = (k, tt)
Lacks-snoc (d ∷ s) c (p, h) k = (p, Lacks-snoc s c h k)

non_empty_snoc : (p : Bytes) → IsSegment p → non_empty (p ∷ [] ∷ []) ≡ p ∷ []
unfolding non_empty
non_empty_snoc [] (h, _) = absurd (h refl)
non_empty_snoc (c ∷ p) h = refl

module _ (s : Bytes) (seg : IsSegment s) (back : EndsInText (b'/' ∷ s)) where
  abbrev spaced : Bytes
  spaced = s ++ 32 ∷ []

  spaced-IsSegment : IsSegment spaced
  spaced-IsSegment = (
    λ e. absurd (omega (arith, length-snoc s 32, ap length e)),
    Lacks-snoc s 32 seg.1 (omega arith),
  )

  split_path-plain : split_path (b'/' ∷ s) ≡ s ∷ []
  split_path-plain =
      split_path_trimmed s back
      ∙ (ap non_empty (split_of_Lacks b'/' s seg.1) ∙ non_empty_of_IsSegment (s ∷ []) (seg, tt))

  split_path-slash : split_path (b'/' ∷ (spaced ++ b'/' ∷ [])) ≡ spaced ∷ []
  unfolding split non_empty
  split_path-slash =
      split_path_trimmed (spaced ++ b'/' ∷ []) (EndsInText-slash (b'/' ∷ spaced))
      ∙ (ap non_empty (split-append b'/' spaced [] spaced-IsSegment.1)
          ∙ non_empty_snoc spaced spaced-IsSegment)

  trim_space-spaced : trim_space (b'/' ∷ spaced) ≡ b'/' ∷ s
  unfolding trim_space trim_left cut_space
  trim_space-spaced = trim_right-space (b'/' ∷ s) ∙ trim_right_of_stop (b'/' ∷ s) back

  split_path-spaced : split_path (b'/' ∷ spaced) ≡ s ∷ []
  unfolding split_path split
  split_path-spaced =
      ap (λ t. non_empty (split b'/' t)) {y = b'/' ∷ s} trim_space-spaced
      ∙ (ap non_empty (split_of_Lacks b'/' s seg.1) ∙ non_empty_of_IsSegment (s ∷ []) (seg, tt))

  -- A segment that ends in a space is kept by one normalisation and loses the space in the matcher:
  -- "/s /" is stored as "/s ", which is not the stored form "/s", and both have the one segment "s".
  pub normalize_path-space :
      (normalize_path (b'/' ∷ (spaced ++ b'/' ∷ [])) ≡ b'/' ∷ spaced)
      × (normalize_path (b'/' ∷ s) ≡ b'/' ∷ s)
      × (split_path (b'/' ∷ spaced) ≡ split_path (b'/' ∷ s))
      × (b'/' ∷ spaced ≢ b'/' ∷ s)
  unfolding normalize_path join
  normalize_path-space = (
    ap (λ l. b'/' ∷ join b'/' l) split_path-slash,
    ap (λ l. b'/' ∷ join b'/' l) split_path-plain,
    split_path-spaced ∙ sym split_path-plain,
    λ e. absurd (omega (arith, length-snoc s 32, ap length e)),
  )
