-- ===== src/Partition/Names.antt =====
-- The month is read back from the name of its partition.
use restest.Base.{
  ℕ, ◌≤◌, ◌<◌, ◌≡◌, ap, ◌∙◌, false, Option, Int64, some, arith, length, Bytes, has_byte, cut_prefix,
  cut_at-append, parse_int, parse_digits, parse_from, pos,
}
use restest.Partition.{
  parts_month, with_length, month_of, two_digits, four_digits, partition_name, partition_month,
}

parse_int-two : (n : ℕ) → n < 100 → parse_int (two_digits n) ≡ some (pos n)
unfolding parse_int parse_digits parse_from two_digits
parse_int-two n h = ground arith

parse_int-four : (n : ℕ) → n < 10000 → parse_int (four_digits n) ≡ some (pos n)
unfolding parse_int parse_digits parse_from four_digits
parse_int-four n h = ground arith

has_byte-four_digits : (n : ℕ) → n < 10000 → has_byte b'_' (four_digits n) ≡ false
unfolding has_byte four_digits
has_byte-four_digits n h = ground arith

length-two_digits : (n : ℕ) → n < 100 → length (two_digits n) ≡ 2
unfolding two_digits
length-two_digits n h = ground arith

length-four_digits : (n : ℕ) → n < 10000 → length (four_digits n) ≡ 4
unfolding four_digits
length-four_digits n h = ground arith

with_length_same : (n : ℕ) (s : Bytes) (o : Option Int64) → length s ≡ n → with_length n s o ≡ o
with_length_same n s o h = ground arith

month_of_same :
    (y : Int64) (m : ℕ) → 1 ≤ m → m ≤ 12 → month_of (some y) (some (pos m)) ≡ some (y, m)
month_of_same y m from upto = ground arith

-- The month of a partition is read back from its name, of every year of four digits.
pub partition_month-partition_name :
    (year month : ℕ)
    → year < 10000
    → 1 ≤ month
    → month ≤ 12
    → partition_month (partition_name year month) ≡ some (pos year, month)
unfolding partition_month partition_name cut_prefix
partition_month-partition_name year month y from upto =
    ap parts_month
      (cut_at-append b'_' (four_digits year) (two_digits month) (has_byte-four_digits year y))
    ∙ (ap (λ y. month_of y (with_length 2 (two_digits month) (parse_int (two_digits month))))
          (with_length_same 4 (four_digits year) (parse_int (four_digits year))
              (length-four_digits year y)
            ∙ parse_int-four year y)
        ∙ (ap (month_of (some (pos year))) (
              with_length_same 2 (two_digits month) (parse_int (two_digits month))
                (length-two_digits month (omega arith))
              ∙ parse_int-two month (omega arith))
            ∙ month_of_same (pos year) month from upto))
