-- ===== src/Paths/Segments.antt =====
-- `SplitPath`, `NormalizePath` and `PathParams`.
use restest.Base.{
  ℕ, ◌≢◌, Bool, false, ◌&&◌, ◌||◌, List, [], ◌∷◌, leb, ◌==◌, if◌then◌else◌, Bytes, split, join,
  drop_last, All, Lacks, split-Lacks,
}
use restest.Paths.Trim.{trim_space}

unfoldable pub non_empty : List Bytes → List Bytes
non_empty [] = []
non_empty ([] ∷ ps) = non_empty ps
non_empty ((c ∷ s) ∷ ps) = (c ∷ s) ∷ non_empty ps

unfoldable pub split_path : Bytes → List Bytes
unfolding split non_empty trim_space
split_path path = non_empty (split b'/' (trim_space path))

abbrev from_root : List Bytes → Bytes
from_root segments = b'/' ∷ join b'/' segments

unfoldable pub normalize_path : Bytes → Bytes
unfolding split_path join
normalize_path path = from_root (split_path path)

abbrev is_letter : ℕ → Bool
is_letter c = (leb b'A' c && leb c b'Z') || (leb b'a' c && leb c b'z')

abbrev is_digit : ℕ → Bool
is_digit c = leb b'0' c && leb c b'9'

abbrev name_start : ℕ → Bool
name_start c = is_letter c || c == b'_'

abbrev name_byte : ℕ → Bool
name_byte c = is_letter c || is_digit c || c == b'_'

-- `[A-Za-z0-9_]*\}$`
unfoldable pub ends_name : Bytes → Bool
ends_name [] = false
ends_name (c ∷ []) = c == b'}'
ends_name (c ∷ d ∷ s) = name_byte c && ends_name (d ∷ s)

-- `paramPattern.MatchString`
unfoldable pub param_pattern : Bytes → Bool
unfolding ends_name
param_pattern (b ∷ c ∷ d ∷ s) = b == b'{' && (name_start c && ends_name (d ∷ s))
param_pattern _ = false

-- `segment[1:len(segment)-1]`
abbrev pub param_name : Bytes → Bytes
param_name [] = []
param_name (_ ∷ s) = drop_last s

unfoldable pub names_of : List Bytes → List Bytes
unfolding param_pattern
names_of [] = []
names_of (seg ∷ segs) =
    let rest = names_of segs in if param_pattern seg then param_name seg ∷ rest else rest

unfoldable pub path_params : Bytes → List Bytes
unfolding names_of split_path
path_params pattern = names_of (split_path pattern)

-- What every segment of a path is: a text with no slash that is not empty.
abbrev pub IsSegment : Bytes → Type 0
IsSegment s = (s ≢ []) × Lacks b'/' s

non_empty-IsSegment : (ps : List Bytes) → All (Lacks b'/') ps → All IsSegment (non_empty ps)
unfolding non_empty
non_empty-IsSegment [] h = tt
non_empty-IsSegment ([] ∷ ps) (_, h) = non_empty-IsSegment ps h
non_empty-IsSegment ((c ∷ s) ∷ ps) (k, h) = ((λ e. cc, k), non_empty-IsSegment ps h)

pub split_path-IsSegment : (path : Bytes) → All IsSegment (split_path path)
unfolding split_path
split_path-IsSegment path = non_empty-IsSegment _ (split-Lacks b'/' (trim_space path))
