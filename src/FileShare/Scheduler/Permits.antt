-- ===== src/FileShare/Scheduler/Permits.antt =====
-- packages/file-share/library/src/transfer-scheduling.ts: the `release` closure of a permit.
use peerbit_examples.Prelude.{
  ℕ, ◌+◌, ◌-◌, ◌≤◌, ◌≡◌, Bool, false, not, ◌&&◌, ◌||◌, List, [], ◌∷◌, Option, none, some, ltb, leb,
  ◌==◌, if◌then◌else◌, or_else, sum_by, arith,
}
use peerbit_examples.FileShare.Scheduler.State.{
  Number, natural, other, safe_end, bad_release, Permit, Scheduler, set_lane, Result, ok, thrown,
}
use peerbit_examples.FileShare.Scheduler.Pump.{pump}

-- `permit.release(count, bytes)`; a `none` is an argument that the caller leaves out.

unfoldable pub find_permit : ℕ → List Permit → Option Permit
find_permit k [] = none
find_permit k (p ∷ ps) = if p.id == k then some p else find_permit k ps

unfoldable pub set_permit : ℕ → ℕ → ℕ → List Permit → List Permit
set_permit k count bytes [] = []
set_permit k count bytes (p ∷ ps) =
    if p.id == k
    then record p { count = count; bytes = bytes } ∷ ps
    else p ∷ set_permit k count bytes ps

unfoldable pub is_part : Number → ℕ → Bool
is_part other whole = false
is_part (natural n) whole = ltb n safe_end && leb n whole

abbrev pub amount : Number → ℕ
amount (natural n) = n
amount other = 0

-- `(activeLaneCounts.get(lane) ?? count) - count`, and a lane at zero leaves the map.
unfoldable pub lane_after : Option ℕ → ℕ → Option ℕ
lane_after held count =
    let left = or_else held count - count in if left == 0 then none else some left

unfoldable pub release_part : Scheduler → Permit → ℕ → ℕ → Scheduler
unfolding lane_after
release_part s p count bytes = record s {
  permits = set_permit p.id (p.count - count) (p.bytes - bytes) s.permits;
  active_count = s.active_count - count;
  active_bytes = s.active_bytes - bytes;
  lane_counts = set_lane p.lane (lane_after (s.lane_counts p.lane) count) s.lane_counts;
}

unfoldable pub release_permit : Scheduler → Permit → Number → Number → Result
unfolding is_part
release_permit s p count bytes =
    if p.count == 0 && p.bytes == 0
    then ok s
    else if not (is_part count p.count)
        || not (is_part bytes p.bytes)
        || amount count == 0 && amount bytes == 0
    then thrown bad_release
    else ok (pump (release_part s p (amount count) (amount bytes)))

unfoldable pub release : Scheduler → ℕ → Option Number → Option Number → Result
release s k count bytes = elim (find_permit k s.permits) [
  | none ↦ ok s
  | some p ↦ release_permit s p (or_else count (natural p.count)) (or_else bytes (natural p.bytes))
]

-- A sum over the permits after one is set.

pub sum-set_permit :
    (f : Permit → ℕ) (k count bytes : ℕ) (ps : List Permit) (p : Permit)
    → find_permit k ps ≡ some p
    → sum_by f (set_permit k count bytes ps) + f p
      ≡ sum_by f ps + f (record p { count = count; bytes = bytes })
unfolding find_permit set_permit
sum-set_permit f k count bytes [] p e = cc
sum-set_permit f k count bytes (x ∷ ps) p e = ground (arith, sum-set_permit f k count bytes ps p)

pub sum-find_permit :
    (f : Permit → ℕ) (k : ℕ) (ps : List Permit) (p : Permit)
    → find_permit k ps ≡ some p
    → f p ≤ sum_by f ps
unfolding find_permit
sum-find_permit f k [] p e = cc
sum-find_permit f k (x ∷ ps) p e = ground (arith, sum-find_permit f k ps p)

pub id-find_permit : (k : ℕ) (ps : List Permit) (p : Permit) → find_permit k ps ≡ some p → p.id ≡ k
unfolding find_permit
id-find_permit k [] p e = cc
id-find_permit k (x ∷ ps) p e = ground (arith, id-find_permit k ps p)
