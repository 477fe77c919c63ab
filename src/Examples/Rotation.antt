-- ===== src/Examples/Rotation.antt =====
-- Examples on the rotation of keys.
use cfnts.Base.{ℕ, ◌≤◌, ◌≡◌, refl, arith, [], ok, err, panic, ◌==◌, if◌then◌else◌}
use cfnts.KeyRotator.{
  Memcache, memcache_error, fetch_periods, set_latest, rotate, connect_loop, connect,
  latest_key_value,
}
use cfnts.KeyRotator.Rotate.{IsSane, IsFresh, rotate-IsFresh}
use cfnts.KeyRotator.Latest.{HasLatest, latest_key_value-rotate_lost, rotate-HasLatest}
use cfnts.KeyRotator.Connect.{LatestAt, connect-LatestAt}
use cfnts.Examples.Data.{sign, full_memcache, down_memcache, counters, rotator_with, master_key}

rotator-IsSane : IsSane (rotator_with 0) 36000
rotator-IsSane = record { positive = omega arith; short = omega arith; early = omega arith }

rotates : (rotate sign full_memcache 36000 (rotator_with 0) counters).2 ≡ ok tt
unfolding rotate fetch_periods set_latest
rotates = refl

rotate-IsFresh_example :
    IsFresh sign full_memcache 36000
      (rotator_with 0)
      (rotate sign full_memcache 36000 (rotator_with 0) counters).0
rotate-IsFresh_example =
    rotate-IsFresh sign full_memcache 36000 (rotator_with 0) counters rotator-IsSane rotates

-- The latest key is that of period 8, and the time is in period 10, from where 8 is removed.
latest_key_value-rotate_lost_example :
    ((rotate sign down_memcache 36000 (rotator_with 28800) counters).2 ≡ err (memcache_error 1))
    × (latest_key_value (rotate sign down_memcache 36000 (rotator_with 28800) counters).0 ≡ panic)
latest_key_value-rotate_lost_example =
    latest_key_value-rotate_lost sign down_memcache 36000 (rotator_with 28800) counters 1
      (omega arith) refl refl

rotate-HasLatest_example :
    HasLatest (rotate sign down_memcache 36000 (rotator_with 32400) counters).0
rotate-HasLatest_example =
    rotate-HasLatest sign down_memcache 36000 (rotator_with 32400) counters
      (record { positive = omega arith; short = omega arith; early = omega arith })
      (master_key, refl) (λ e. absurd (omega arith))

-- The server is down at the first try, and there at the second.
abbrev world : ℕ → ℕ × Memcache
world i = (36000, if i == 1 then down_memcache else full_memcache)

connects : (connect sign world [] [] master_key counters).2 ≡ ok tt
unfolding connect connect_loop rotate fetch_periods set_latest
connects = refl

connect-LatestAt_example :
    (j : ℕ) × (1 ≤ j)
    × (j ≤ 5)
    × LatestAt sign world (connect sign world [] [] master_key counters).0 j
connect-LatestAt_example =
    connect-LatestAt sign world [] [] master_key counters (λ j. omega arith) connects
