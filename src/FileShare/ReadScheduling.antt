-- ===== src/FileShare/ReadScheduling.antt =====
-- packages/file-share/library/src/read-scheduling.ts: how far a remote reader reads ahead. Sizes,
-- counts and times are natural numbers, and a quotient is exact.
pub mod Circuit
mod Tests
use native.Mathlib.Nat.{le_trans, mul-le-mul_right, div-mul-le_self}
use peerbit_examples.Prelude.{
  ℕ, suc, ◌+◌, ◌-◌, ◌*◌, ◌/◌, ◌≤◌, ◌<◌, ◌≡◌, min, max, false, List, [], ◌∷◌, All, ltb, leb, ◌==◌,
  if◌then◌else◌, arith,
}

abbrev read_ahead_min : ℕ
read_ahead_min = 2

abbrev read_ahead_max : ℕ
read_ahead_max = 8

abbrev pub byte_budget : ℕ
byte_budget = 4194304

abbrev grow_wait_ms : ℕ
grow_wait_ms = 25

-- `Math.max(1, Math.ceil(size / chunkCount))`
abbrev pub estimated_chunk_bytes : ℕ → ℕ → ℕ
estimated_chunk_bytes size chunk_count = max 1 ((size + (chunk_count - 1)) / chunk_count)

pub read_ahead_limit : ℕ → ℕ → ℕ
read_ahead_limit size chunk_count =
    if chunk_count == 0
    then 0
    else min (min chunk_count read_ahead_max)
        (max 1 (byte_budget / estimated_chunk_bytes size chunk_count))

pub record Observation : Type 0 where
  pub demand_wait_ms : ℕ
  pub attempts : ℕ

pub adapt_read_ahead : ℕ → ℕ → Observation → ℕ
adapt_read_ahead current limit o =
    if ltb 1 o.attempts
    then max (min read_ahead_min limit) (current / 2)
    else if leb grow_wait_ms o.demand_wait_ms
    then min limit (current + 1)
    else current

-- A reader's window after a sequence of observations.
pub adapt_all : ℕ → ℕ → List Observation → ℕ
adapt_all current limit [] = current
adapt_all current limit (o ∷ os) = adapt_all (adapt_read_ahead current limit o) limit os

window_fits :
    (limit quotient chunk budget : ℕ)
    → quotient * chunk ≤ budget
    → limit ≤ max 1 quotient
    → 1 < limit
    → limit * chunk ≤ budget
window_fits limit quotient chunk budget h small more =
    le_trans (mul-le-mul_right {m = limit} {n = quotient} chunk (omega arith)) h

-- For a file that has a chunk the limit is at least 1, at most 8 and at most the number of chunks;
-- unless it is 1, that many chunks of the estimated size fit the byte budget.
pub read_ahead_limit_bounds :
    (size chunk_count : ℕ)
    → 0 < chunk_count
    → (1 ≤ read_ahead_limit size chunk_count)
      × (read_ahead_limit size chunk_count ≤ chunk_count)
      × (read_ahead_limit size chunk_count ≤ 8)
      × (1 < read_ahead_limit size chunk_count
          → read_ahead_limit size chunk_count * estimated_chunk_bytes size chunk_count
            ≤ byte_budget)
unfolding read_ahead_limit
read_ahead_limit_bounds size chunk_count h =
    let chunk = estimated_chunk_bytes size chunk_count in
    let some_chunk : (chunk_count == 0) ≡ false = ground arith in
    rw some_chunk (
      ground arith,
      ground arith,
      ground arith,
      window_fits _ (byte_budget / chunk) chunk byte_budget (div-mul-le_self byte_budget chunk)
          (omega arith),
    )

-- No observation takes the window out of the range from `min(2, limit)` to the limit.
pub adapt_all_bounds :
    (current limit : ℕ) (os : List Observation)
    → min 2 limit ≤ current
    → current ≤ limit
    → (min 2 limit ≤ adapt_all current limit os) × (adapt_all current limit os ≤ limit)
unfolding adapt_all
adapt_all_bounds current limit [] lo hi = (lo, hi)
adapt_all_bounds current limit (o ∷ os) lo hi =
    let (lo', hi') = adapt_bounds in
    adapt_all_bounds (adapt_read_ahead current limit o) limit os lo' hi'
  where
    adapt_bounds :
        (min 2 limit ≤ adapt_read_ahead current limit o)
        × (adapt_read_ahead current limit o ≤ limit)
    adapt_bounds = unfold adapt_read_ahead in ground arith
