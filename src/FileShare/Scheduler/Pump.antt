-- ===== src/FileShare/Scheduler/Pump.antt =====
-- packages/file-share/library/src/transfer-scheduling.ts: capacity, grants and `pump` of
-- `FairTransferScheduler`.
use peerbit_examples.Prelude.{
  ℕ, zero, suc, ◌+◌, ◌-◌, ◌*◌, max, Bool, true, false, not, ◌&&◌, ◌||◌, List, [], ◌∷◌, ◌++◌, none,
  some, ltb, leb, ◌==◌, if◌then◌else◌, length, is_some,
}
use peerbit_examples.FileShare.Scheduler.Owners.{Request, Owner, get, put, remove, tally}
use peerbit_examples.FileShare.Scheduler.State.{granted, Scheduler, lane_count, set_lane}

-- Capacity.

unfoldable pub has_shared_capacity : Scheduler → Request → Bool
has_shared_capacity s r =
    leb (s.active_count + r.count) s.count_limit
    && (s.active_bytes == 0 || leb (s.active_bytes + r.bytes) s.byte_limit)

unfoldable pub has_lane_capacity : Scheduler → Request → Bool
has_lane_capacity s r = elim (s.lane_limits r.lane) [
  | none ↦ true
  | some limit ↦ leb (lane_count s r.lane + r.count) limit
]

unfoldable pub can_grant : Scheduler → Request → Bool
unfolding has_shared_capacity has_lane_capacity
can_grant s r = has_shared_capacity s r && has_lane_capacity s r

-- Owners leave the rotation.

unfoldable pub without : ℕ → List ℕ → List ℕ
without k [] = []
without k (x ∷ xs) = if x == k then without k xs else x ∷ without k xs

-- `owner.scheduled = b`, where the owner is there.
unfoldable pub set_scheduled : ℕ → Bool → List Owner → List Owner
set_scheduled k b owners = elim (get k owners) [
  | none ↦ owners
  | some o ↦ put k o.requests b owners
]

unfoldable pub unschedule_owner : Scheduler → ℕ → Scheduler
unfolding set_scheduled without
unschedule_owner s k = record s {
  rotation = without k s.rotation;
  owners = set_scheduled k false s.owners;
}

-- Grants.

unfoldable pub grant : Scheduler → Request → Scheduler
grant s r = record s {
  lane_counts = set_lane r.lane (some (lane_count s r.lane + r.count)) s.lane_counts;
  active_count = s.active_count + r.count;
  active_bytes = s.active_bytes + r.bytes;
  peak_count = max s.peak_count (s.active_count + r.count);
  peak_bytes = max s.peak_bytes (s.active_bytes + r.bytes);
  pending_count = s.pending_count - 1;
  last_granted = some r.owner;
  permits = record { id = r.id; lane = r.lane; count = r.count; bytes = r.bytes } ∷ s.permits;
  settlements = record { id = r.id; outcome = granted } ∷ s.settlements;
}

-- `owner.requests.shift()`, after which the owner waits for another turn or leaves the map; the
-- argument is what is left of its queue.
unfoldable pub shift_owner : Scheduler → ℕ → List Request → Scheduler
shift_owner s k [] = record s { owners = remove k s.owners }
shift_owner s k (q ∷ qs) = record s {
  owners = put k (q ∷ qs) true s.owners;
  rotation = s.rotation ++ k ∷ [];
}

-- The loop of `pump`: `stop` is its end, `again` another round with a new
-- `examinedWithoutGrant`.
pub data Round : Type 0 where
  stop : Scheduler → Round
  again : ℕ → Scheduler → Round

abbrev pub requeue : Scheduler → ℕ → List Request → Scheduler
requeue s k rs = record s { owners = put k rs true s.owners; rotation = s.rotation ++ k ∷ [] }

unfoldable pub visit_queue : ℕ → Scheduler → ℕ → List Request → Round
unfolding has_shared_capacity has_lane_capacity can_grant
visit_queue examined s k [] = again examined (record s { owners = remove k s.owners })
visit_queue examined s k (r ∷ rs) =
    if not (can_grant s r)
    then if not (has_shared_capacity s r) && has_lane_capacity s r
      then stop (record (requeue s k (r ∷ rs)) { reserved = some r })
      else again (examined + 1) (requeue s k (r ∷ rs))
    else again 0 (grant (shift_owner s k rs) r)

unfoldable pub visit : ℕ → Scheduler → ℕ → Round
visit examined s k = elim (get k s.owners) [
  | none ↦ again examined s
  | some o ↦ visit_queue examined s k o.requests
]

unfoldable pub turn : ℕ → Scheduler → List ℕ → Round
turn examined s [] = stop s
turn examined s (k ∷ rest) =
    if ltb examined (suc (length rest))
    then visit examined (record s { rotation = rest }) k
    else stop s

unfoldable pub round : ℕ → Scheduler → Round
unfolding turn
round examined s = turn examined s s.rotation

unfoldable pub pump_loop : ℕ → ℕ → Scheduler → Scheduler
pump_loop zero examined s = s
pump_loop (suc fuel) examined s = elim (round examined s) [
  | stop t ↦ t
  | again n t ↦ pump_loop fuel n t
]

-- Rounds that are enough: a grant takes a request off, a stale entry leaves the rotation, and the
-- rotation is passed over at most once between grants.
abbrev pub rounds : Scheduler → ℕ
rounds s = suc (tally length s.owners * suc (2 * length s.rotation) + 2 * length s.rotation)

-- The first part of `pump`: `stop` returns from `pump`. A request is an object, so when the head of
-- the queue is the reserved request, the two are one value.
unfoldable pub reserved_head : Scheduler → Request → List Request → Round
reserved_head s r [] = again 0 (record s { reserved = none })
reserved_head s r (q ∷ qs) =
    if not (q.id == r.id)
    then again 0 (record s { reserved = none })
    else if not (has_shared_capacity s q)
    then stop s
    else if not (has_lane_capacity s q)
    then again 0 (record s { reserved = none })
    else again 0
        (grant (shift_owner (unschedule_owner (record s { reserved = none }) r.owner) r.owner qs) q)

unfoldable pub serve_reserved : Scheduler → Round
unfolding reserved_head
serve_reserved s = elim s.reserved [
  | none ↦ again 0 s
  | some r ↦ elim (get r.owner s.owners) [
    | none ↦ again 0 (record s { reserved = none })
    | some o ↦ reserved_head s r o.requests
  ]
]

unfoldable pub is_empty : List ℕ → Bool
is_empty [] = true
is_empty (x ∷ xs) = false

unfoldable pub pump : Scheduler → Scheduler
unfolding is_empty
pump s =
    if is_some s.closed_reason || is_empty s.rotation
    then s
    else elim (serve_reserved s) [ stop t ↦ t | again n t ↦ pump_loop (rounds t) n t ]
