-- ===== src/FileShare/ReadScheduling/Tests.antt =====
-- Read-ahead windows of a concrete file.
use peerbit_examples.Prelude.{◌*◌, ◌≤◌, ◌<◌, ◌≡◌, refl, min, [], ◌∷◌, arith}
use peerbit_examples.FileShare.ReadScheduling.{
  read_ahead_limit, estimated_chunk_bytes, byte_budget, read_ahead_limit_bounds, adapt_all,
  adapt_all_bounds,
}

-- 100 MB in 200 chunks of 500 KB
limit_of_file : read_ahead_limit 100000000 200 ≡ 8
unfolding read_ahead_limit
limit_of_file = refl

read_ahead_limit_bounds_example :
    (1 ≤ read_ahead_limit 100000000 200)
    × (read_ahead_limit 100000000 200 ≤ 200)
    × (read_ahead_limit 100000000 200 ≤ 8)
    × (1 < read_ahead_limit 100000000 200
        → read_ahead_limit 100000000 200 * estimated_chunk_bytes 100000000 200 ≤ byte_budget)
read_ahead_limit_bounds_example = read_ahead_limit_bounds 100000000 200 (omega arith)

adapt_all_bounds_example :
    (min 2 8
      ≤ adapt_all 4 8 (
          record { demand_wait_ms = 30; attempts = 1 }
          ∷ record { demand_wait_ms = 0; attempts = 3 }
          ∷ []))
    × (adapt_all 4 8 (
          record { demand_wait_ms = 30; attempts = 1 }
          ∷ record { demand_wait_ms = 0; attempts = 3 }
          ∷ [])
        ≤ 8)
adapt_all_bounds_example =
    adapt_all_bounds 4 8
      (record { demand_wait_ms = 30; attempts = 1 }
        ∷ record { demand_wait_ms = 0; attempts = 3 }
        ∷ [])
      (omega arith) (omega arith)
