-- ===== src/Base/Text.antt =====
-- Go strings as their bytes: comparison, literals, prefixes and the split at a byte.
use Prim.Native.Nat.{ℕ, ◌+◌}
use Prim.Native.Char.{code}
use Prim.Native.String.{String}
use mathlib.Core.Path.{◌≡◌, refl, ap, ap₂}
use mathlib.Core.Logic.{◌↔◌, ◌⊎◌, inl, inr}
use mathlib.Core.Bool.{Bool, true, false, ◌&&◌}
use mathlib.Core.Option.{Option, none, some}
use mathlib.Core.List.{List, [], ◌∷◌, ◌++◌}
use native.Mathlib.Omega.{arith}
use restest.Base.Tests.{ltb, leb, ◌==◌, ==_iff, Bool-cases, if◌then◌else◌}

abbrev pub Bytes : Type 0
Bytes = List ℕ

-- The code points of a literal: its bytes, since every literal here is ASCII.
abbrev pub codes : String → Bytes
codes String.[] = []
codes (String.◌∷◌ c s) = code c ∷ codes s

-- `a == b` on strings
unfoldable pub same : Bytes → Bytes → Bool
same [] [] = true
same (a ∷ s) (b ∷ t) = a == b && same s t
same _ _ = false

pub same→eq : (s t : Bytes) → same s t ≡ true → s ≡ t
unfolding same
same→eq [] [] h = refl
same→eq (a ∷ s) (b ∷ t) h = ap₂ ◌∷◌ (ground arith) (same→eq s t (ground arith))
same→eq _ _ h = cc

pub same_refl : (s : Bytes) → same s s ≡ true
unfolding same
same_refl [] = refl
same_refl (a ∷ s) = ground (arith, same_refl s)

pub same_iff : (s t : Bytes) → (same s t ≡ true) ↔ (s ≡ t)
same_iff s t = (same→eq s t, λ e. rw e (same_refl t))

pub same_sym : (s t : Bytes) → same s t ≡ same t s
unfolding same
same_sym [] [] = refl
same_sym [] (b ∷ t) = refl
same_sym (a ∷ s) [] = refl
same_sym (a ∷ s) (b ∷ t) = ground (arith, same_sym s t)

-- `strings.CutPrefix`
unfoldable pub cut_prefix : Bytes → Bytes → Option Bytes
cut_prefix [] s = some s
cut_prefix (p ∷ ps) [] = none
cut_prefix (p ∷ ps) (c ∷ s) = if p == c then cut_prefix ps s else none

-- Membership of a byte, `strings.IndexByte(s, c) >= 0`.
unfoldable pub has_byte : ℕ → Bytes → Bool
has_byte c [] = false
has_byte c (x ∷ s) = if x == c then true else has_byte c s

-- `a <= b` on strings: byte by byte.
unfoldable pub bytes_le : Bytes → Bytes → Bool
bytes_le [] t = true
bytes_le (a ∷ s) [] = false
bytes_le (a ∷ s) (b ∷ t) = if a == b then bytes_le s t else ltb a b

pub bytes_le_total : (s t : Bytes) → bytes_le s t ≡ false → bytes_le t s ≡ true
unfolding bytes_le
bytes_le_total [] t h = cc
bytes_le_total (a ∷ s) [] h = refl
bytes_le_total (a ∷ s) (b ∷ t) h = ground (arith, bytes_le_total s t)

pub bytes_le_trans :
    (s t u : Bytes) → bytes_le s t ≡ true → bytes_le t u ≡ true → bytes_le s u ≡ true
unfolding bytes_le
bytes_le_trans [] t u h k = refl
bytes_le_trans (a ∷ s) [] u h k = cc
bytes_le_trans (a ∷ s) (b ∷ t) [] h k = cc
bytes_le_trans (a ∷ s) (b ∷ t) (c ∷ u) h k = ground (arith, bytes_le_trans s t u)

pub bytes_le_antisym : (s t : Bytes) → bytes_le s t ≡ true → bytes_le t s ≡ true → s ≡ t
unfolding bytes_le
bytes_le_antisym [] [] h k = refl
bytes_le_antisym [] (b ∷ t) h k = cc
bytes_le_antisym (a ∷ s) [] h k = cc
bytes_le_antisym (a ∷ s) (b ∷ t) h k =
    ap₂ ◌∷◌ (ground arith) (bytes_le_antisym s t (ground arith) (ground arith))

-- `slices.Contains`
unfoldable pub contains : Bytes → List Bytes → Bool
contains k [] = false
contains k (x ∷ xs) = if same x k then true else contains k xs

abbrev lower : ℕ → ℕ
lower c = if leb b'A' c && leb c b'Z' then c + 32 else c

-- The capital I with a dot and the sign for kelvin have a lower case of ASCII.
abbrev is_dotted : ℕ → ℕ → Bool
is_dotted a b = a == 0xc4 && b == 0xb0

abbrev lowered : ℕ → Bytes → Bytes
lowered a [] = a ∷ []
lowered a (b ∷ []) = if is_dotted a b then b'i' ∷ [] else a ∷ b ∷ []
lowered a (b ∷ c ∷ s) =
    if is_dotted a b
    then b'i' ∷ c ∷ s
    else if a == 0xe2 && (b == 0x84 && c == 0xaa)
    then b'k' ∷ s
    else a ∷ b ∷ c ∷ s

-- `strings.ToLower`, but for the letters whose lower case is no ASCII: they stay as they are.
unfoldable pub to_lower : Bytes → Bytes
to_lower [] = []
to_lower (c ∷ s) = lowered (lower c) (to_lower s)

abbrev add_before : ℕ → Option (Bytes × Bytes) → Option (Bytes × Bytes)
add_before c none = none
add_before c (some (before, behind)) = some (c ∷ before, behind)

-- `strings.Cut` at a byte: what is before it and behind it.
unfoldable pub cut_at : ℕ → Bytes → Option (Bytes × Bytes)
cut_at sep [] = none
cut_at sep (c ∷ s) =
    let further = add_before c (cut_at sep s) in if c == sep then some ([], s) else further

-- The byte that is cut at is the first of its kind.
pub cut_at-cases :
    (sep : ℕ) (s : Bytes)
    → (cut_at sep s ≡ none)
      ⊎ ((before : Bytes) × (behind : Bytes) × (cut_at sep s ≡ some (before, behind))
          × (s ≡ before ++ sep ∷ behind)
          × (has_byte sep before ≡ false))
unfolding cut_at has_byte
cut_at-cases sep [] = inl refl
cut_at-cases sep (c ∷ s) = elim (Bool-cases (c == sep)) [
  | inl e ↦ inr ([], s, ground arith, ap (λ x. x ∷ s) ((==_iff c sep).0 e), refl)
  | inr e ↦ elim (cut_at-cases sep s) [
    | inl k ↦ inl (ground arith)
    | inr (before, behind, k, parts, h) ↦
        inr (c ∷ before, behind, ground arith, ap (λ l. c ∷ l) parts, ground arith)
  ]
]

pub cut_at-append :
    (sep : ℕ) (before behind : Bytes)
    → has_byte sep before ≡ false
    → cut_at sep (before ++ sep ∷ behind) ≡ some (before, behind)
unfolding cut_at has_byte
cut_at-append sep [] behind h = ground arith
cut_at-append sep (c ∷ before) behind h = ground (arith, cut_at-append sep before behind)
