-- ===== src/Base/Utf8.antt =====
-- `[]rune(s)` and `utf8.RuneCountInString`: a Go string decoded as UTF-8. A byte that begins no valid
-- encoding gives the replacement character and is passed over alone.
use Prim.Native.Nat.{ℕ, zero, suc, ◌+◌, ◌-◌, ◌*◌}
use mathlib.Core.Bool.{Bool, true, false, ◌&&◌}
use mathlib.Core.List.{List, [], ◌∷◌}
use restest.Base.Tests.{leb, ltb, ◌==◌, if◌then◌else◌}
use restest.Base.Lists.{length}
use restest.Base.Text.{Bytes}

abbrev within : ℕ → ℕ → ℕ → Bool
within lo hi c = leb lo c && leb c hi

abbrev tail_byte : ℕ → Bool
tail_byte c = within 0x80 0xbf c

-- The range of the second byte, which depends on the first.
abbrev second_byte : ℕ → ℕ → Bool
second_byte a b =
    if a == 0xe0
    then within 0xa0 0xbf b
    else if a == 0xed
    then within 0x80 0x9f b
    else if a == 0xf0
    then within 0x90 0xbf b
    else if a == 0xf4
    then within 0x80 0x8f b
    else tail_byte b

abbrev rune_error : ℕ × ℕ
rune_error = (0xfffd, 1)

-- A code point and the number of its bytes, for a text that begins with the byte `a`.
unfoldable pub decode_rune : ℕ → Bytes → ℕ × ℕ
decode_rune a (b ∷ c ∷ d ∷ s) =
    if ltb a 0x80
    then (a, 1)
    else if within 0xc2 0xdf a && tail_byte b
    then ((a - 0xc0) * 0x40 + (b - 0x80), 2)
    else if within 0xe0 0xef a && (second_byte a b && tail_byte c)
    then ((a - 0xe0) * 0x1000 + (b - 0x80) * 0x40 + (c - 0x80), 3)
    else if within 0xf0 0xf4 a && (second_byte a b && (tail_byte c && tail_byte d))
    then ((a - 0xf0) * 0x40000 + (b - 0x80) * 0x1000 + (c - 0x80) * 0x40 + (d - 0x80), 4)
    else rune_error
decode_rune a (b ∷ c ∷ []) =
    if ltb a 0x80
    then (a, 1)
    else if within 0xc2 0xdf a && tail_byte b
    then ((a - 0xc0) * 0x40 + (b - 0x80), 2)
    else if within 0xe0 0xef a && (second_byte a b && tail_byte c)
    then ((a - 0xe0) * 0x1000 + (b - 0x80) * 0x40 + (c - 0x80), 3)
    else rune_error
decode_rune a (b ∷ []) =
    if ltb a 0x80
    then (a, 1)
    else if within 0xc2 0xdf a && tail_byte b
    then ((a - 0xc0) * 0x40 + (b - 0x80), 2)
    else rune_error
decode_rune a [] = if ltb a 0x80 then (a, 1) else rune_error

-- The first argument counts the bytes of the current code point that are still to be passed over.
unfoldable pub runes_from : ℕ → Bytes → List ℕ
unfolding decode_rune
runes_from k [] = []
runes_from (suc k) (a ∷ s) = runes_from k s
runes_from zero (a ∷ s) = let (r, w) = decode_rune a s in r ∷ runes_from (w - 1) s

unfoldable pub runes : Bytes → List ℕ
unfolding runes_from
runes s = runes_from 0 s

unfoldable pub rune_count : Bytes → ℕ
unfolding runes
rune_count s = length (runes s)

-- `utf8.ValidString`: no byte is passed over alone but an ASCII one.
unfoldable pub utf8_from : ℕ → Bytes → Bool
unfolding decode_rune
utf8_from k [] = true
utf8_from (suc k) (a ∷ s) = utf8_from k s
utf8_from zero (a ∷ s) =
    let (r, w) = decode_rune a s in
    let rest = utf8_from (w - 1) s in if leb 0x80 a && w == 1 then false else rest

unfoldable pub is_utf8 : Bytes → Bool
unfolding utf8_from
is_utf8 s = utf8_from 0 s
