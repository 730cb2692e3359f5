-- ===== src/Database/Narrow.antt =====
-- The conversions of a Go int to `int16` and `int32`: its low bits, read as two's complement.
use restest.Base.{ℕ, ◌+◌, ◌-◌, ◌%◌, ltb, if◌then◌else◌, Int64, pos, neg}

-- The number of the low bits `m`, of a word of `2 * half` values.
unfoldable pub signed : ℕ → ℕ → Int64
signed half m = if ltb m half then pos m else neg (half + half - m)

-- A negative number is the complement of its distance from zero.
unfoldable pub narrow : ℕ → Int64 → Int64
unfolding signed
narrow half (pos n) = signed half (n % (half + half))
narrow half (neg n) = signed half ((half + half - n % (half + half)) % (half + half))

abbrev pub half_int16 : ℕ
half_int16 = 32768

abbrev pub half_int32 : ℕ
half_int32 = 2147483648
