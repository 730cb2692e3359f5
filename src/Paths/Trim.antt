-- ===== src/Paths/Trim.antt =====
-- `strings.TrimSpace`: the bytes of a Go string less the white space at its ends.
use mathlib.Core.List.{reverse, reverse-reverse}
use restest.Base.{ℕ, zero, suc, ◌≡◌, refl, ap, ◌∙◌, List, [], ◌∷◌, map, Option, none, some}
use restest.Base.{Bytes, cut_prefix, length}

-- The UTF-8 encodings of the code points that `unicode.IsSpace` accepts.
abbrev pub spaces : List Bytes
spaces =
    (9 ∷ [])
    ∷ (10 ∷ [])
    ∷ (11 ∷ [])
    ∷ (12 ∷ [])
    ∷ (13 ∷ [])
    ∷ (32 ∷ [])
    ∷ (0xc2 ∷ 0x85 ∷ [])
    ∷ (0xc2 ∷ 0xa0 ∷ [])
    ∷ (0xe1 ∷ 0x9a ∷ 0x80 ∷ [])
    ∷ (0xe2 ∷ 0x80 ∷ 0x80 ∷ [])
    ∷ (0xe2 ∷ 0x80 ∷ 0x81 ∷ [])
    ∷ (0xe2 ∷ 0x80 ∷ 0x82 ∷ [])
    ∷ (0xe2 ∷ 0x80 ∷ 0x83 ∷ [])
    ∷ (0xe2 ∷ 0x80 ∷ 0x84 ∷ [])
    ∷ (0xe2 ∷ 0x80 ∷ 0x85 ∷ [])
    ∷ (0xe2 ∷ 0x80 ∷ 0x86 ∷ [])
    ∷ (0xe2 ∷ 0x80 ∷ 0x87 ∷ [])
    ∷ (0xe2 ∷ 0x80 ∷ 0x88 ∷ [])
    ∷ (0xe2 ∷ 0x80 ∷ 0x89 ∷ [])
    ∷ (0xe2 ∷ 0x80 ∷ 0x8a ∷ [])
    ∷ (0xe2 ∷ 0x80 ∷ 0xa8 ∷ [])
    ∷ (0xe2 ∷ 0x80 ∷ 0xa9 ∷ [])
    ∷ (0xe2 ∷ 0x80 ∷ 0xaf ∷ [])
    ∷ (0xe2 ∷ 0x81 ∷ 0x9f ∷ [])
    ∷ (0xe3 ∷ 0x80 ∷ 0x80 ∷ [])
    ∷ []

-- The text behind one space at its front, if there is one.
unfoldable pub cut_space : List Bytes → Bytes → Option Bytes
unfolding cut_prefix
cut_space [] s = none
cut_space (p ∷ ps) s = elim (cut_prefix p s) [ some r ↦ some r | none ↦ cut_space ps s ]

-- A space has a byte at least, so as many rounds as there are bytes are enough.
unfoldable pub trim_from : List Bytes → ℕ → Bytes → Bytes
unfolding cut_space
trim_from ps zero s = s
trim_from ps (suc f) s = elim (cut_space ps s) [ none ↦ s | some r ↦ trim_from ps f r ]

unfoldable pub trim_left : Bytes → Bytes
unfolding trim_from
trim_left s = trim_from spaces (length s) s

unfoldable pub trim_right : Bytes → Bytes
unfolding trim_from
trim_right s = reverse (trim_from (map reverse spaces) (length s) (reverse s))

unfoldable pub trim_space : Bytes → Bytes
unfolding trim_left trim_right
trim_space s = trim_right (trim_left s)

-- No space at the front, and none at the back.
abbrev pub IsTrimmed : Bytes → Type 0
IsTrimmed s = (cut_space spaces s ≡ none) × (cut_space (map reverse spaces) (reverse s) ≡ none)

trim_from_stop :
    (ps : List Bytes) (f : ℕ) (s : Bytes) → cut_space ps s ≡ none → trim_from ps f s ≡ s
unfolding trim_from
trim_from_stop ps zero s h = refl
trim_from_stop ps (suc f) s h = rw (h, trim_from)

pub trim_right_of_stop :
    (s : Bytes) → cut_space (map reverse spaces) (reverse s) ≡ none → trim_right s ≡ s
unfolding trim_right
trim_right_of_stop s h =
    ap reverse (trim_from_stop (map reverse spaces) (length s) (reverse s) h) ∙ reverse-reverse s

pub trim_space_of_IsTrimmed : (s : Bytes) → IsTrimmed s → trim_space s ≡ s
unfolding trim_space
trim_space_of_IsTrimmed s (front, back) =
    ap trim_right (trim_from_stop spaces (length s) s front) ∙ trim_right_of_stop s back
