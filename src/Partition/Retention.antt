-- ===== src/Partition/Retention.antt =====
-- Which partitions expire.
use restest.Base.{ℕ, ◌+◌, ◌≤◌, ◌<◌, ◌≡◌, refl, ◌↔◌, true, false, cut_prefix, cut_at, arith, max}
use restest.Partition.{
  months_since, min_retention_months, partition_name, is_expired, default_partition,
}
use restest.Partition.Names.{partition_month-partition_name}

-- A monthly partition is dropped exactly if it is as many months old as are kept, and one at least, so
-- that the month being written never is; the default partition never is dropped at all.
pub is_expired_iff :
    (year month keep_months year' month' : ℕ)
    → year' < 10000
    → 1 ≤ month'
    → month' ≤ 12
    → ((is_expired year month keep_months (partition_name year' month') ≡ true) ↔ (
        months_since year' month' + max keep_months min_retention_months ≤ months_since year month))
      × (is_expired year month keep_months default_partition ≡ false)
unfolding is_expired cut_prefix cut_at
is_expired_iff year month keep_months year' month' y from upto =
    (ground (arith, partition_month-partition_name year' month' y from upto), refl)
