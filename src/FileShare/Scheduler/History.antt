-- ===== src/FileShare/Scheduler/History.antt =====
-- `FairTransferScheduler` after a history of calls.
use peerbit_examples.Prelude.{
  ℕ, ◌+◌, ◌≤◌, ◌≡◌, refl, ap, subst, ◌∙◌, List, Option, some, arith, ltb, if◌then◌else◌, length,
  sum_by,
}
use peerbit_examples.FileShare.Scheduler.Owners.{Lane, tally}
use peerbit_examples.FileShare.Scheduler.State.{natural, Scheduler, lane_count, init, new}
use peerbit_examples.FileShare.Scheduler.{Call, run}
use peerbit_examples.FileShare.Scheduler.Budget.{Budget, on_lane}
use peerbit_examples.FileShare.Scheduler.Budget.Calls.{run-Budget}
use peerbit_examples.FileShare.Scheduler.Limits.{HasLimits, run-HasLimits}
use peerbit_examples.FileShare.Scheduler.Accounting.{Accounted, run-Accounted, times, settled_times}

-- A scheduler that the constructor returns is new.
pub init-new :
    (c b : ℕ) (lanes : Lane → Option ℕ) {s : Scheduler}
    → init (natural c) (natural b) lanes ≡ some s
    → new c b lanes ≡ s
unfolding init
init-new c b lanes e = ground arith

new-Budget : (m n : ℕ) (lanes : Lane → Option ℕ) → Budget (new m n lanes)
new-Budget m n lanes = record {
  ledger = record {
    count_used = refl;
    bytes_used = refl;
    lane_used = λ l. refl;
    count_bound = omega arith;
    bytes_bound = omega arith;
    lane_bound = λ l k e. omega arith;
  };
  fits = tt;
}

new-Accounted : (m n : ℕ) (lanes : Lane → Option ℕ) → Accounted (new m n lanes)
new-Accounted m n lanes = record { books = record { queued = refl; once = λ i. ground arith } }

new-HasLimits : (m n : ℕ) (lanes : Lane → Option ℕ) → HasLimits m n lanes (new m n lanes)
new-HasLimits m n lanes = record { count_limit = refl; byte_limit = refl; lane_limits = refl }

-- The permits that are held keep within the limits given to the constructor.
pub record IsWithin (count bytes : ℕ) (lanes : Lane → Option ℕ) (s : Scheduler) : Type 0 where
  pub count_held : sum_by (λ p. p.count) s.permits ≤ count
  pub bytes_held : sum_by (λ p. p.bytes) s.permits ≤ bytes
  pub lane_held : (l : Lane) (n : ℕ) → lanes l ≡ some n → sum_by (on_lane l) s.permits ≤ n

-- After any history of calls on a new scheduler the counts and the bytes that the permits still
-- hold sum up to at most the limits given to the constructor, as do the counts on each lane that
-- has a limit.
pub run-IsWithin :
    (c b : ℕ) (lanes : Lane → Option ℕ) (s : Scheduler) (cs : List Call)
    → init (natural c) (natural b) lanes ≡ some s
    → IsWithin c b lanes (run s cs)
run-IsWithin c b lanes s cs e =
    let start = init-new c b lanes e in
    let h = (run-Budget s cs (subst Budget start (new-Budget c b lanes))).ledger in
    let same =
      run-HasLimits c b lanes s cs (subst (HasLimits c b lanes) start (new-HasLimits c b lanes)) in
    record {
      count_held = omega (arith, h.count_used, h.count_bound, same.count_limit);
      bytes_held = omega (arith, h.bytes_used, h.bytes_bound, same.byte_limit);
      lane_held = λ l n limit. omega (
        arith,
        h.lane_used l,
        h.lane_bound l n (ap (λ (f : Lane → Option ℕ). f l) same.lane_limits ∙ limit),
      );
    }

-- After any history of calls on a new scheduler `activePermitCount`, `activePermitBytes` and the
-- count of each lane are the sums over the permits that are held, and `pendingPermitCount` is the
-- number of queued requests.
pub run-counters :
    (c b : ℕ) (lanes : Lane → Option ℕ) (s : Scheduler) (cs : List Call)
    → init (natural c) (natural b) lanes ≡ some s
    → ((run s cs).active_count ≡ sum_by (λ p. p.count) (run s cs).permits)
      × ((run s cs).active_bytes ≡ sum_by (λ p. p.bytes) (run s cs).permits)
      × ((l : Lane) → lane_count (run s cs) l ≡ sum_by (on_lane l) (run s cs).permits)
      × ((run s cs).pending_count ≡ tally length (run s cs).owners)
run-counters c b lanes s cs e =
    let start = init-new c b lanes e in
    let h = (run-Budget s cs (subst Budget start (new-Budget c b lanes))).ledger in
    let a = (run-Accounted s cs (subst Accounted start (new-Accounted c b lanes))).books in
    (h.count_used, h.bytes_used, h.lane_used, omega (arith, a.queued))

-- After any history of calls on a new scheduler a request that `acquire` has taken is either queued
-- or settled, and that once; no other is in a queue or settled.
pub run-once :
    (c b : ℕ) (lanes : Lane → Option ℕ) (s : Scheduler) (cs : List Call) (i : ℕ)
    → init (natural c) (natural b) lanes ≡ some s
    → tally (times i) (run s cs).owners + settled_times i (run s cs).settlements
      ≡ (if ltb i (run s cs).next_id then 1 else 0)
run-once c b lanes s cs i e =
    let start = init-new c b lanes e in
    omega
      (arith, (run-Accounted s cs (subst Accounted start (new-Accounted c b lanes))).books.once i)
