-- ===== src/FileShare/Scheduler/Tests.antt =====
-- Runs of `FairTransferScheduler` on small histories.
use peerbit_examples.Prelude.{
  ℕ, ◌+◌, ◌≡◌, refl, List, [], ◌∷◌, ◌++◌, Option, none, some, true, ltb, if◌then◌else◌, length,
  sum_by,
}
use peerbit_examples.FileShare.Scheduler.Owners.{Lane, default, remote, get, put, remove, tally}
use peerbit_examples.FileShare.Scheduler.State.{
  natural, given, Scheduler, new, init, is_settled, lane_count,
}
use peerbit_examples.FileShare.Scheduler.Pump.{
  pump, pump_loop, serve_reserved, round, visit, visit_queue, grant, shift_owner, unschedule_owner,
}
use peerbit_examples.FileShare.Scheduler.Permits.{
  release, release_permit, release_part, find_permit, set_permit,
}
use peerbit_examples.FileShare.Scheduler.Requests.{
  acquire, cancel_owner, cancel_all, close, reopen, remove_pending, enqueue, schedule,
  queue_request, reject_all, detach_owner,
}
use peerbit_examples.FileShare.Scheduler.{Call, acquires, releases, cancels, step, run}
use peerbit_examples.FileShare.Scheduler.Budget.{on_lane}
use peerbit_examples.FileShare.Scheduler.Accounting.{times, settled_times}
use peerbit_examples.FileShare.Scheduler.History.{IsWithin, run-IsWithin, run-counters, run-once}
use peerbit_examples.FileShare.Scheduler.Termination.{Finishes, pump-Finishes}
use peerbit_examples.FileShare.Scheduler.Settled.{IsServed}
use peerbit_examples.FileShare.Scheduler.Waiting.{run-IsServed}

scheduler : Unit {0}
unfolding step run acquire release release_permit release_part find_permit set_permit cancel_owner
    cancel_all close reopen remove_pending enqueue schedule queue_request reject_all detach_owner
    pump pump_loop serve_reserved round visit visit_queue grant shift_owner unschedule_owner get put
    remove is_settled init
scheduler = tt

abbrev lanes : Lane → Option ℕ
lanes remote = some 1
lanes _ = none

abbrev start : Scheduler
start = new 3 100 lanes

-- Owner 1 takes 60 bytes; owner 2 asks for 60 and waits for the bytes; owner 3 waits behind it.
abbrev crowded : List Call
crowded =
    acquires 1 (natural 60) default none (natural 1)
    ∷ acquires 2 (natural 60) default none (natural 1)
    ∷ acquires 3 (natural 10) remote none (natural 1)
    ∷ []

crowded_counts :
    ((run start crowded).active_bytes ≡ 60)
    × ((run start crowded).pending_count ≡ 2)
    × ((run start (crowded ++ releases 0 none none ∷ [])).active_bytes ≡ 70)
    × ((run start (crowded ++ cancels 2 (given 7) ∷ [])).active_bytes ≡ 70)
unfolding scheduler
crowded_counts = (refl, refl, refl, refl)

run-IsWithin_example : IsWithin 3 100 lanes (run start crowded)
unfolding init
run-IsWithin_example = run-IsWithin 3 100 lanes start crowded refl

run-counters_example :
    ((run start crowded).active_count ≡ sum_by (λ p. p.count) (run start crowded).permits)
    × ((run start crowded).active_bytes ≡ sum_by (λ p. p.bytes) (run start crowded).permits)
    × ((l : Lane)
        → lane_count (run start crowded) l ≡ sum_by (on_lane l) (run start crowded).permits)
    × ((run start crowded).pending_count ≡ tally length (run start crowded).owners)
unfolding init
run-counters_example = run-counters 3 100 lanes start crowded refl

run-once_example :
    tally (times 1) (run start crowded).owners + settled_times 1 (run start crowded).settlements
    ≡ (if ltb 1 (run start crowded).next_id then 1 else 0)
unfolding init
run-once_example = run-once 3 100 lanes start crowded 1 refl

-- A scheduler that waits: owner 2 has a request queued.
abbrev waiting : Scheduler
waiting = record start {
  owners =
      record {
        id = 2;
        requests = record { id = 0; owner = 2; count = 1; bytes = 60; lane = remote } ∷ [];
        scheduled = true;
      }
      ∷ [];
  rotation = 2 ∷ [];
  pending_count = 1;
  next_id = 1;
}

pump-Finishes_example : Finishes (serve_reserved waiting) (pump waiting)
pump-Finishes_example = pump-Finishes waiting refl (λ e. cc)

-- Owner 1 holds the lane `remote`, and has one more request for it behind one for `default`; owner 2 waits
-- for the lane.
abbrev lane_taken : List Call
lane_taken =
    acquires 1 (natural 10) remote none (natural 1)
    ∷ acquires 2 (natural 10) remote none (natural 1)
    ∷ acquires 1 (natural 10) default none (natural 1)
    ∷ acquires 1 (natural 10) remote none (natural 1)
    ∷ []

lane_taken_waits :
    ((run start lane_taken).pending_count ≡ 2)
    × ((run start lane_taken).active_count ≡ 2)
    × ((run start lane_taken).rotation ≡ 2 ∷ 1 ∷ [])
unfolding scheduler
lane_taken_waits = (refl, refl, refl)

run-IsServed_example : IsServed (run start lane_taken)
unfolding scheduler
run-IsServed_example = run-IsServed 3 100 lanes start lane_taken refl refl
