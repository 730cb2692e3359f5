-- ===== src/Partition/Tests.antt =====
-- Names of partitions, and the theorems at them.
use restest.Base.{◌+◌, ◌≤◌, ◌≡◌, refl, ◌↔◌, true, false, [], ◌∷◌, arith, max, codes}
use restest.Partition.{
  partition_name, is_expired, dropped, months_since, min_retention_months, default_partition,
}
use restest.Partition.Retention.{is_expired_iff}

august : partition_name 2026 8 ≡ codes "exchanges_2026_08"
unfolding partition_name
august = refl

two_dropped :
    dropped 2026 8 3 (
      codes "exchanges_2026_05"
      ∷ codes "exchanges_2026_06"
      ∷ codes "exchanges_2025_12"
      ∷ default_partition
      ∷ [])
    ≡ codes "exchanges_2026_05" ∷ codes "exchanges_2025_12" ∷ []
unfolding dropped
two_dropped = refl

is_expired_iff_example :
    ((is_expired 2026 8 3 (partition_name 2026 5) ≡ true)
      ↔ (months_since 2026 5 + max 3 min_retention_months ≤ months_since 2026 8))
    × (is_expired 2026 8 3 default_partition ≡ false)
is_expired_iff_example = is_expired_iff 2026 8 3 2026 5 (omega arith) (omega arith) (omega arith)
