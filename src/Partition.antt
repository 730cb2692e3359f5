-- ===== src/Partition.antt =====
-- internal/core/partition.go: the monthly partitions of the request log, and those that expire.
pub mod Names
pub mod Retention
mod Tests
use restest.Base.{
  ℕ, zero, suc, ◌+◌, ◌-◌, ◌*◌, ◌/◌, ◌%◌, Bool, true, false, ◌&&◌, List, [], ◌∷◌, ◌++◌, Option, none,
  some, length, max, ltb, leb, ◌==◌, if◌then◌else◌, Bytes, codes, cut_prefix, cut_at, format_int,
  parse_int, Int64, pos, neg,
}

-- A month, counted from one, of a year, which may be before the common era.
abbrev pub Month : Type 0
Month = Int64 × ℕ

abbrev pub exchanges_table : Bytes
exchanges_table = codes "exchanges"

abbrev pub default_partition : Bytes
default_partition = codes "exchanges_default"

abbrev pub partitions_ahead : ℕ
partitions_ahead = 3

abbrev pub min_retention_months : ℕ
min_retention_months = 1

-- `%02d` and `%04d`
unfoldable pub two_digits : ℕ → Bytes
unfolding format_int
two_digits n = if ltb n 100 then (b'0' + n / 10) ∷ (b'0' + n % 10) ∷ [] else format_int n

unfoldable pub four_digits : ℕ → Bytes
unfolding format_int
four_digits n =
    if ltb n 10000
    then (b'0' + n / 1000) ∷ (b'0' + n / 100 % 10) ∷ (b'0' + n / 10 % 10) ∷ (b'0' + n % 10) ∷ []
    else format_int n

-- Of a year of the common era.
unfoldable pub partition_name : ℕ → ℕ → Bytes
unfolding two_digits four_digits
partition_name year month = exchanges_table ++ b'_' ∷ (four_digits year ++ b'_' ∷ two_digits month)

abbrev pub with_length : ℕ → Bytes → Option Int64 → Option Int64
with_length n s o = if length s == n then o else none

abbrev pub month_of : Option Int64 → Option Int64 → Option Month
month_of (some y) (some (pos m)) = if leb 1 m && leb m 12 then some (y, m) else none
month_of _ _ = none

abbrev pub parts_month : Option (Bytes × Bytes) → Option Month
parts_month none = none
parts_month (some (year, month)) =
    month_of (with_length 4 year (parse_int year)) (with_length 2 month (parse_int month))

-- `partitionMonth`
unfoldable pub partition_month : Bytes → Option Month
unfolding cut_prefix cut_at parse_int
partition_month name = elim (cut_prefix (exchanges_table ++ b'_' ∷ []) name) [
  | none ↦ none
  | some rest ↦ parts_month (cut_at b'_' rest)
]

-- `AddDate(0, months, 0)` and `Before` on the first of a month, as months since the year zero: a year
-- before the common era is before every cutoff.
abbrev pub months_since : ℕ → ℕ → ℕ
months_since year month = 12 * year + (month - 1)

abbrev pub is_before : Month → ℕ → Bool
is_before (pos year, month) cutoff = ltb (months_since year month) cutoff
is_before (neg zero, month) cutoff = ltb (months_since 0 month) cutoff
is_before (neg (suc year), month) cutoff = true

-- The decision of `DropExpiredExchangePartitions` on one name, in a month of the common era that is
-- late enough for the months that are kept.
unfoldable pub is_expired : ℕ → ℕ → ℕ → Bytes → Bool
unfolding partition_month
is_expired year month keep_months name = elim (partition_month name) [
  | none ↦ false
  | some m ↦ is_before m (months_since year month - (max keep_months min_retention_months - 1))
]

unfoldable pub dropped : ℕ → ℕ → ℕ → List Bytes → List Bytes
unfolding is_expired
dropped year month keep_months [] = []
dropped year month keep_months (name ∷ names) =
    let rest = dropped year month keep_months names in
    if is_expired year month keep_months name then name ∷ rest else rest
