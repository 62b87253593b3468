-- ===== src/FileShare/Scheduler/Budget/Calls.antt =====
-- The budget of `FairTransferScheduler` under its calls.
use peerbit_examples.Prelude.{
  ℕ, ◌-◌, ◌≤◌, ◌≡◌, refl, ap, ◌∙◌, inl, inr, Bool, true, false, List, [], ◌∷◌, ◌++◌, Option, none,
  some, arith, if◌then◌else◌, Option-cases, Bool-cases, sum_by, All, All-append, or_else,
}
use peerbit_examples.FileShare.Scheduler.Owners.{
  Lane, Request, Owner, get, AllQueued, get-All, put-AllQueued, remove-AllQueued, fresh_owner,
}
use peerbit_examples.FileShare.Scheduler.State.{
  Permit, Scheduler, lane_count, same_lane, Reason, is_settled,
}
use peerbit_examples.FileShare.Scheduler.Permits.{
  find_permit, release_part, lane_after, sum-set_permit, sum-find_permit,
}
use peerbit_examples.FileShare.Scheduler.Requests.{
  settle_queue, without_request, drop_reserved, reject, reject_all, detach_owner, queue_request,
  with_owner, push_request,
}
use peerbit_examples.FileShare.Scheduler.{Call, run}
use peerbit_examples.FileShare.Scheduler.Rule.{unschedule_owner-P}
use peerbit_examples.FileShare.Scheduler.Rule.Calls.{CallRule, run-P}
use peerbit_examples.FileShare.Scheduler.Budget.{
  on_lane, Ledger, Budget, Budget-Rule, same_lane-eq, queued-Fits,
}

-- Releases.

lane_after-or_else :
    (held : Option ℕ) (count : ℕ) → or_else (lane_after held count) 0 ≡ or_else held 0 - count
unfolding lane_after
lane_after-or_else none count = ground arith
lane_after-or_else (some n) count = ground arith

lane_count-release_part :
    (s : Scheduler) (p : Permit) (count bytes : ℕ) (l : Lane)
    → lane_count (release_part s p count bytes) l
      ≡ (if same_lane p.lane l then lane_count s l - count else lane_count s l)
unfolding release_part
lane_count-release_part s p count bytes l = elim (Bool-cases (same_lane p.lane l)) [
  | inl same ↦ rw same (
      lane_after-or_else (s.lane_counts p.lane) count
      ∙ ap (λ k. lane_count s k - count) (same_lane-eq p.lane l same))
  | inr differs ↦ rw differs refl
]

lane_used-release_part :
    (s : Scheduler) (p : Permit) (count bytes : ℕ) (l : Lane)
    → find_permit p.id s.permits ≡ some p
    → count ≤ p.count
    → lane_count s l ≡ sum_by (on_lane l) s.permits
    → lane_count (release_part s p count bytes) l
      ≡ sum_by (on_lane l) (release_part s p count bytes).permits
lane_used-release_part s p count bytes l e c h =
    let kept = sum-set_permit (on_lane l) p.id (p.count - count) (p.bytes - bytes) s.permits p e in
    let part = sum-find_permit (on_lane l) p.id s.permits p e in
    elim (Bool-cases (same_lane p.lane l)) [
      | inl same ↦
          rw (lane_count-release_part s p count bytes l, same)
            (unfold release_part in omega (arith, h, c, rw same at kept, rw same at part))
      | inr differs ↦
          rw (lane_count-release_part s p count bytes l, differs)
            (unfold release_part in omega (arith, h, rw differs at kept))
    ]

release_part-Ledger :
    (s : Scheduler) (p : Permit) (count bytes : ℕ)
    → find_permit p.id s.permits ≡ some p
    → count ≤ p.count
    → bytes ≤ p.bytes
    → Ledger s
    → Ledger (release_part s p count bytes)
release_part-Ledger s p count bytes e c b h = record {
  count_used =
      unfold release_part in
      omega (
        arith,
        h.count_used,
        sum-set_permit (λ q. q.count) p.id (p.count - count) (p.bytes - bytes) s.permits p e,
        sum-find_permit (λ q. q.count) p.id s.permits p e,
      );
  bytes_used =
      unfold release_part in
      omega (
        arith,
        h.bytes_used,
        sum-set_permit (λ q. q.bytes) p.id (p.count - count) (p.bytes - bytes) s.permits p e,
        sum-find_permit (λ q. q.bytes) p.id s.permits p e,
      );
  lane_used = λ l. lane_used-release_part s p count bytes l e c (h.lane_used l);
  count_bound = unfold release_part in omega (arith, h.count_bound);
  bytes_bound = unfold release_part in omega (arith, h.bytes_bound);
  lane_bound = λ l n limit.
      rw (lane_count-release_part s p count bytes l)
        (ground (arith, h.lane_bound l n (unfold release_part in limit)));
}

-- Queues.

without_request-All :
    (P : Request → Type 0) (k : ℕ) (rs : List Request) → All P rs → All P (without_request k rs)
unfolding without_request
without_request-All P k [] h = h
without_request-All P k (r ∷ rs) h = ground (arith, without_request-All P k rs h.1)

with_owner-AllQueued :
    (P : Request → Type 0) (k : ℕ) (os : List Owner)
    → AllQueued P os
    → AllQueued P (with_owner k os)
unfolding with_owner
with_owner-AllQueued P k os h = elim (Option-cases (get k os)) [
  | inl e ↦ rw (e, with_owner) (All-append _ os (fresh_owner k ∷ []) h (tt, tt))
  | inr (o, e) ↦ rw (e, with_owner) h
]

push_request-AllQueued :
    (P : Request → Type 0) (k : ℕ) (r : Request) (os : List Owner)
    → P r
    → AllQueued P os
    → AllQueued P (push_request k r os)
unfolding push_request
push_request-AllQueued P k r os p h = elim (Option-cases (get k os)) [
  | inl e ↦ rw (e, push_request) h
  | inr (o, e) ↦
      rw (e, push_request)
        (put-AllQueued P k (o.requests ++ r ∷ []) o.scheduled os
          (All-append P o.requests (r ∷ []) (get-All P k os o e h) (p, tt)) h)
]

settle_queue-Budget :
    (s : Scheduler) (k : ℕ) (rs : List Request)
    → All (λ r. r.bytes ≤ s.byte_limit) rs
    → Budget s
    → Budget (settle_queue s k rs)
unfolding settle_queue
settle_queue-Budget s k [] p h =
    let t = unschedule_owner-P Budget Budget-Rule s k h in
    record { ledger = t.ledger; fits = remove-AllQueued _ k _ t.fits }
settle_queue-Budget s k (q ∷ qs) p h = elim (Option-cases (get k s.owners)) [
  | inl e ↦ rw (e, settle_queue) h
  | inr (o, e) ↦
      rw (e, settle_queue)
        (record {
          ledger = h.ledger;
          fits = put-AllQueued _ k (q ∷ qs) o.scheduled s.owners p h.fits;
        })
]

detach_owner-Budget : (s : Scheduler) (k : ℕ) → Budget s → Budget (detach_owner s k)
unfolding detach_owner
detach_owner-Budget s k h =
    let t = unschedule_owner-P Budget Budget-Rule s k h in
    record { ledger = t.ledger; fits = remove-AllQueued _ k _ t.fits }

reject_all-Budget :
    (reason : Reason) (rs : List Request) (s : Scheduler)
    → Budget s
    → Budget (reject_all reason rs s)
unfolding reject_all
reject_all-Budget reason [] s h = h
reject_all-Budget reason (r ∷ rs) s h =
    reject_all-Budget reason rs _ (reject_one (is_settled r.id s.settlements))
  where
    reject_one : (b : Bool) → Budget (if b then s else reject s r.id reason)
    reject_one true = h
    reject_one false = record { ledger = h.ledger; fits = h.fits }

Budget-CallRule : CallRule Budget
Budget-CallRule = record {
  rule = Budget-Rule;
  releases = λ s p count bytes e c b h. record {
    ledger = release_part-Ledger s p count bytes e c b h.ledger;
    fits = unfold release_part in h.fits;
  };
  queues = λ s r a h. record {
    ledger = unfold queue_request in h.ledger;
    fits =
        unfold queue_request in
        push_request-AllQueued _ r.owner r _ a.small
          (with_owner-AllQueued _ r.owner s.owners h.fits);
  };
  withdraws = λ s r o reason new e queued h.
      let rest = without_request-All _ r.id o.requests (queued-Fits s r.owner o e h.fits) in
      let dropped : Budget (drop_reserved s r.id) = record { ledger = h.ledger; fits = h.fits } in
      let t = settle_queue-Budget (drop_reserved s r.id) r.owner _ rest dropped in
      record { ledger = t.ledger; fits = t.fits };
  detaches = λ s k o reason e h. reject_all-Budget reason o.requests _ (detach_owner-Budget s k h);
  closings = λ s reason h. record { ledger = h.ledger; fits = h.fits };
}

-- After any history of calls that starts in such a state, the counters are the sums over the permits
-- that are held, and the count, the bytes and each lane stay within their limits.
pub run-Budget : (s : Scheduler) (cs : List Call) → Budget s → Budget (run s cs)
run-Budget = run-P Budget Budget-CallRule
