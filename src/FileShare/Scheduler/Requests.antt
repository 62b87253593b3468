-- ===== src/FileShare/Scheduler/Requests.antt =====
-- packages/file-share/library/src/transfer-scheduling.ts: `removePending`, `acquire`, `cancelOwner`,
-- `close` and `reopen` of `FairTransferScheduler`.
use peerbit_examples.Prelude.{
  ℕ, ◌+◌, ◌-◌, Bool, true, false, not, ◌&&◌, ◌||◌, List, [], ◌∷◌, ◌++◌, Option, none, some, ltb,
  ◌==◌, if◌then◌else◌, is_id,
}
use peerbit_examples.FileShare.Scheduler.Owners.{
  Lane, Request, Owner, get, put, remove, fresh_owner,
}
use peerbit_examples.FileShare.Scheduler.State.{
  Number, natural, other, safe_end, Signal, bytes_negative, bytes_over_limit, count_not_positive,
  count_over_limit, queued_transfers, Reason, range_error, abort_reason, is_aborted, rejected,
  Scheduler, is_settled, Result, ok, thrown,
}
use peerbit_examples.FileShare.Scheduler.Pump.{set_scheduled, unschedule_owner, pump}

-- `removePending`, which the listener of a request's signal calls.

unfoldable pub without_request : ℕ → List Request → List Request
without_request k [] = []
without_request k (r ∷ rs) = if r.id == k then rs else r ∷ without_request k rs

unfoldable pub has_request : ℕ → List Request → Bool
has_request k [] = false
has_request k (r ∷ rs) = if r.id == k then true else has_request k rs

abbrev pub is_reserved : Scheduler → ℕ → Bool
is_reserved s k = elim s.reserved [ none ↦ false | some r ↦ r.id == k ]

abbrev pub reject : Scheduler → ℕ → Reason → Scheduler
reject s k reason = record s {
  pending_count = s.pending_count - 1;
  settlements = record { id = k; outcome = rejected reason } ∷ s.settlements;
}

-- What is left of the owner's queue: an empty one is unscheduled and deleted.
unfoldable pub settle_queue : Scheduler → ℕ → List Request → Scheduler
settle_queue s k [] = let t = unschedule_owner s k in record t { owners = remove k t.owners }
settle_queue s k (q ∷ qs) = elim (get k s.owners) [
  | none ↦ s
  | some o ↦ record s { owners = put k (q ∷ qs) o.scheduled s.owners }
]

abbrev pub drop_reserved : Scheduler → ℕ → Scheduler
drop_reserved s k = record s { reserved = if is_reserved s k then none else s.reserved }

unfoldable pub remove_pending : Scheduler → Request → Reason → Scheduler
unfolding without_request has_request settle_queue
remove_pending s r reason =
    if is_settled r.id s.settlements then s else elim (get r.owner s.owners) [
      | none ↦ s
      | some o ↦
          if has_request r.id o.requests
          then pump (
              reject (settle_queue (drop_reserved s r.id) r.owner (without_request r.id o.requests))
                r.id reason)
          else s
    ]

-- `acquire`.

-- The entry for a new owner in the rotation. The owner that was granted last goes behind it.
unfoldable pub rotate_last : Scheduler → ℕ → List ℕ → Scheduler
rotate_last s k [] = s
rotate_last s k (g ∷ rest) =
    if is_id s.last_granted g && not (k == g)
    then record s {
      rotation = rest ++ g ∷ [];
      reserved = elim s.reserved [ none ↦ none | some r ↦ if r.owner == g then none else some r ];
    }
    else s

unfoldable pub schedule : Scheduler → ℕ → Scheduler
unfolding rotate_last set_scheduled
schedule s k =
    let t = record s { owners = set_scheduled k true s.owners; rotation = s.rotation ++ k ∷ [] } in
    rotate_last t k t.rotation

-- `owners.get(ownerId)`, or a new entry
unfoldable pub with_owner : ℕ → List Owner → List Owner
with_owner k owners = elim (get k owners) [ none ↦ owners ++ fresh_owner k ∷ [] | some o ↦ owners ]

unfoldable pub push_request : ℕ → Request → List Owner → List Owner
push_request k r owners = elim (get k owners) [
  | none ↦ owners
  | some o ↦ put k (o.requests ++ r ∷ []) o.scheduled owners
]

unfoldable pub is_scheduled : ℕ → List Owner → Bool
is_scheduled k owners = elim (get k owners) [ none ↦ false | some o ↦ o.scheduled ]

unfoldable pub queue_request : Scheduler → Request → Scheduler
unfolding with_owner push_request
queue_request s r = record s {
  owners = push_request r.owner r (with_owner r.owner s.owners);
  pending_count = s.pending_count + 1;
  next_id = s.next_id + 1;
}

unfoldable pub enqueue : Scheduler → Request → Scheduler
unfolding queue_request is_scheduled
enqueue s r =
    let t = queue_request s r in
    pump (if is_scheduled r.owner t.owners then t else schedule t r.owner)

pub data Ticket : Type 0 where
  pending : Request → Ticket
  refused : Reason → Ticket

unfoldable pub exceeds_lane : Scheduler → Lane → ℕ → Bool
exceeds_lane s lane count = elim (s.lane_limits lane) [
  | none ↦ false
  | some limit ↦ ltb limit count
]

unfoldable pub admit : Scheduler → ℕ → ℕ → Lane → Option Signal → ℕ → Scheduler × Ticket
admit s k bytes lane signal count = elim s.closed_reason [
  | some reason ↦ (s, refused reason)
  | none ↦
      let r : Request = record {
        id = s.next_id;
        owner = k;
        count = count;
        bytes = bytes;
        lane = lane;
      } in
      if is_aborted signal then (s, refused (abort_reason signal)) else (enqueue s r, pending r)
]

unfoldable pub acquire : Scheduler → ℕ → Number → Lane → Option Signal → Number → Scheduler × Ticket
unfolding exceeds_lane admit
acquire s k other lane signal n = (s, refused (range_error bytes_negative))
acquire s k (natural bytes) lane signal n =
    if not (ltb bytes safe_end)
    then (s, refused (range_error bytes_negative))
    else if ltb s.byte_limit bytes
    then (s, refused (range_error bytes_over_limit))
    else elim n [
      | other ↦ (s, refused (range_error count_not_positive))
      | natural count ↦
          if not (ltb count safe_end) || count == 0
          then (s, refused (range_error count_not_positive))
          else if ltb s.count_limit count || exceeds_lane s lane count
          then (s, refused (range_error count_over_limit))
          else admit s k bytes lane signal count
    ]

-- `cancelOwner`, `close` and `reopen`.

unfoldable pub reject_all : Reason → List Request → Scheduler → Scheduler
reject_all reason [] s = s
reject_all reason (r ∷ rs) s =
    reject_all reason rs (if is_settled r.id s.settlements then s else reject s r.id reason)

abbrev pub drop_reserved_of : Scheduler → ℕ → Scheduler
drop_reserved_of s k = record s {
  reserved = elim s.reserved [ none ↦ none | some r ↦ if r.owner == k then none else some r ];
}

-- The owner's queue leaves the map before its requests are rejected.
unfoldable pub detach_owner : Scheduler → ℕ → Scheduler
detach_owner s k =
    let t = unschedule_owner s k in drop_reserved_of (record t { owners = remove k t.owners }) k

unfoldable pub cancel_owner : Scheduler → ℕ → Reason → Scheduler
unfolding detach_owner
cancel_owner s k reason = elim (get k s.owners) [
  | none ↦ s
  | some o ↦ pump (reject_all reason o.requests (detach_owner s k))
]

unfoldable pub cancel_all : Reason → List Owner → Scheduler → Scheduler
cancel_all reason [] s = s
cancel_all reason (o ∷ os) s = cancel_all reason os (cancel_owner s o.id reason)

-- The owners are those at the call, as the source copies the keys.
unfoldable pub close : Scheduler → Reason → Scheduler
close s reason = elim s.closed_reason [
  | some _ ↦ s
  | none ↦ cancel_all reason s.owners (record s { closed_reason = some reason })
]

unfoldable pub no_owners : List Owner → Bool
no_owners [] = true
no_owners (o ∷ os) = false

unfoldable pub reopen : Scheduler → Result
unfolding no_owners
reopen s =
    if not (s.pending_count == 0) || not (no_owners s.owners)
    then thrown queued_transfers
    else ok (record s { closed_reason = none; reserved = none })
