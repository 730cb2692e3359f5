-- ===== src/Base/Decimal.antt =====
-- Decimal numbers: `strconv.FormatInt(n, 10)` for n that is not negative, and `strconv.ParseInt(s, 10, 64)`.
use Prim.Native.Nat.{ℕ, zero, suc, ◌+◌, ◌-◌, ◌*◌, ◌/◌, ◌%◌, ◌<◌, ◌≤◌}
use mathlib.Core.Path.{◌≡◌, refl, ap}
use mathlib.Core.Bool.{Bool, true, false, ◌&&◌}
use mathlib.Core.Option.{Option, none, some}
use mathlib.Core.List.{[], ◌∷◌, ◌++◌}
use mathlib.Core.Logic.{◌≢◌, inl, inr}
use native.Mathlib.Omega.{arith}
use restest.Base.Tests.{ltb, leb, ◌==◌, if◌then◌else◌, Bool-cases}
use restest.Base.Text.{Bytes, has_byte}

-- The digits of a number, with more fuel than its value.
unfoldable pub digits : ℕ → ℕ → Bytes
digits zero n = []
digits (suc f) n = elim (ltb n 10) [
  | true ↦ (b'0' + n) ∷ []
  | false ↦ digits f (n / 10) ++ (b'0' + n % 10) ∷ []
]

unfoldable pub format_int : ℕ → Bytes
unfolding digits
format_int n = digits (suc n) n

abbrev pub is_digit : ℕ → Bool
is_digit c = leb b'0' c && leb c b'9'

unfoldable pub parse_from : ℕ → Bytes → Option ℕ
parse_from acc [] = some acc
parse_from acc (c ∷ s) = elim (is_digit c) [
  | true ↦ parse_from (10 * acc + (c - b'0')) s
  | false ↦ none
]

-- The digits of a number, one at least.
unfoldable pub parse_digits : Bytes → Option ℕ
unfolding parse_from
parse_digits [] = none
parse_digits (c ∷ s) = parse_from 0 (c ∷ s)

-- A number of 64 bits with its sign; `neg 0` is zero too.
pub data Int64 : Type 0 where
  pos neg : ℕ → Int64

abbrev up_to : ℕ → (ℕ → Int64) → Option ℕ → Option Int64
up_to bound f none = none
up_to bound f (some n) = if leb n bound then some (f n) else none

abbrev pub max_int64 : ℕ
max_int64 = 9223372036854775807

unfoldable pub parse_int : Bytes → Option Int64
unfolding parse_digits
parse_int [] = none
parse_int (c ∷ s) =
    if c == b'-'
    then up_to (suc max_int64) neg (parse_digits s)
    else if c == b'+'
    then up_to max_int64 pos (parse_digits s)
    else up_to max_int64 pos (parse_digits (c ∷ s))

abbrev then_digit : ℕ → Option ℕ → Option ℕ
then_digit d none = none
then_digit d (some n) = some (10 * n + d)

parse_from-snoc :
    (acc d : ℕ) (s : Bytes)
    → d < 10
    → parse_from acc (s ++ (b'0' + d) ∷ []) ≡ then_digit d (parse_from acc s)
unfolding parse_from
parse_from-snoc acc d [] h = ground arith
parse_from-snoc acc d (c ∷ s) h = elim (Bool-cases (is_digit c)) [
  | inl e ↦ ground (arith, parse_from-snoc (10 * acc + (c - b'0')) d s h)
  | inr e ↦ ground arith
]

parse_from-digits : (f n : ℕ) → n < f → parse_from 0 (digits f n) ≡ some n
unfolding digits parse_from
parse_from-digits zero n h = absurd (omega arith)
parse_from-digits (suc f) n h = elim (Bool-cases (ltb n 10)) [
  | inl e ↦ ground arith
  | inr e ↦ ground (
    arith,
    parse_from-snoc 0 (n % 10) (digits f (n / 10)) (omega arith),
    parse_from-digits f (n / 10) (ground arith),
  )
]

snoc-ne-nil : (s : Bytes) (c : ℕ) → s ++ c ∷ [] ≢ []
snoc-ne-nil [] c h = cc
snoc-ne-nil (d ∷ s) c h = cc

parse_digits_of_from :
    (s : Bytes) (n : ℕ) → s ≢ [] → parse_from 0 s ≡ some n → parse_digits s ≡ some n
unfolding parse_digits
parse_digits_of_from [] n h e = absurd (h refl)
parse_digits_of_from (c ∷ s) n h e = e

digits-ne-nil : (f n : ℕ) → n < f → digits f n ≢ []
unfolding digits
digits-ne-nil zero n h e = omega arith
digits-ne-nil (suc f) n h e = elim (Bool-cases (ltb n 10)) [
  | inl k ↦ ground arith
  | inr k ↦ ground (arith, snoc-ne-nil (digits f (n / 10)) (b'0' + n % 10))
]

-- A number is read back from its digits.
pub parse_digits-format_int : (n : ℕ) → parse_digits (format_int n) ≡ some n
unfolding format_int
parse_digits-format_int n =
    parse_digits_of_from (format_int n) n (digits-ne-nil (suc n) n (omega arith))
      (parse_from-digits (suc n) n (omega arith))

pub format_int-injective : (m n : ℕ) → format_int m ≡ format_int n → m ≡ n
format_int-injective m n h =
    ground (arith, parse_digits-format_int m, parse_digits-format_int n, ap parse_digits h)

parse_int_of_digits :
    (s : Bytes) (n : ℕ) → n ≤ max_int64 → parse_digits s ≡ some n → parse_int s ≡ some (pos n)
unfolding parse_int parse_digits parse_from
parse_int_of_digits [] n h e = cc
parse_int_of_digits (c ∷ s) n h e = ground arith

pub parse_int-format_int : (n : ℕ) → n ≤ max_int64 → parse_int (format_int n) ≡ some (pos n)
parse_int-format_int n h = parse_int_of_digits (format_int n) n h (parse_digits-format_int n)

up_to-bound :
    (bound n : ℕ) (f : ℕ → Int64) (o : Option ℕ)
    → bound ≤ max_int64
    → ((m : ℕ) → f m ≡ pos m)
    → up_to bound f o ≡ some (pos n)
    → n ≤ max_int64
up_to-bound bound n f none b p h = cc
up_to-bound bound n f (some m) b p h = ground (arith, p m)

up_to-neg : (bound n : ℕ) (o : Option ℕ) → up_to bound neg o ≢ some (pos n)
up_to-neg bound n none h = cc
up_to-neg bound n (some m) h = ground arith

pub parse_int-bound : (s : Bytes) (n : ℕ) → parse_int s ≡ some (pos n) → n ≤ max_int64
unfolding parse_int
parse_int-bound [] n h = cc
parse_int-bound (c ∷ s) n h = ground (
  arith,
  up_to-bound max_int64 n pos (parse_digits s) (omega arith) (λ m. refl),
  up_to-bound max_int64 n pos (parse_digits (c ∷ s)) (omega arith) (λ m. refl),
  up_to-neg (suc max_int64) n (parse_digits s),
)

has_byte-snoc :
    (b c : ℕ) (s : Bytes) → has_byte b s ≡ false → c ≢ b → has_byte b (s ++ c ∷ []) ≡ false
unfolding has_byte
has_byte-snoc b c [] h k = ground arith
has_byte-snoc b c (d ∷ s) h k = ground (arith, has_byte-snoc b c s)

has_byte-digits : (b f n : ℕ) → b < b'0' → has_byte b (digits f n) ≡ false
unfolding digits has_byte
has_byte-digits b zero n h = refl
has_byte-digits b (suc f) n h = elim (Bool-cases (ltb n 10)) [
  | inl e ↦ ground arith
  | inr e ↦ ground (
    arith,
    has_byte-snoc b (b'0' + n % 10) (digits f (n / 10)) (has_byte-digits b f (n / 10) h)
        (omega arith),
  )
]

-- No byte before the digits, such as a sign, stands in a number that is not negative.
pub has_byte-format_int : (b n : ℕ) → b < b'0' → has_byte b (format_int n) ≡ false
unfolding format_int
has_byte-format_int b n h = has_byte-digits b (suc n) n h
