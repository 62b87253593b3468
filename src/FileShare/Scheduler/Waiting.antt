-- ===== src/FileShare/Scheduler/Waiting.antt =====
-- packages/file-share/library/src/transfer-scheduling.ts: the requests that wait behind the calls on
-- `FairTransferScheduler`.
use peerbit_examples.Prelude.{
  ℕ, ◌≡◌, ◌≢◌, subst, inr, true, not, ◌&&◌, ◌||◌, List, [], ◌∷◌, Option, none, some, arith, ◌==◌,
  ltb, if◌then◌else◌, or_else, bool_split, option_split,
}
use peerbit_examples.FileShare.Scheduler.Owners.{Lane, Request, Owner, get}
use peerbit_examples.FileShare.Scheduler.State.{
  Number, natural, other, safe_end, Signal, Reason, is_aborted, Scheduler, is_settled, Result,
  Permit, init, new, range_error, count_not_positive, count_over_limit,
}
use peerbit_examples.FileShare.Scheduler.Requests.{
  without_request, has_request, drop_reserved, remove_pending, enqueue, exceeds_lane, admit,
  acquire, cancel_owner, cancel_all, close, no_owners, reopen, Ticket, refused,
}
use peerbit_examples.FileShare.Scheduler.Permits.{
  is_part, amount, release_part, release_permit, release, find_permit,
}
use peerbit_examples.FileShare.Scheduler.{
  Call, acquires, releases, aborts, cancels, closes, reopens, after, step, run,
}
use peerbit_examples.FileShare.Scheduler.History.{init-new}
use peerbit_examples.FileShare.Scheduler.Coverage.{IsMap}
use peerbit_examples.FileShare.Scheduler.Coverage.Calls.{
  settle_queue-IsCovered, detach_owner-IsCovered, reject_all-IsCovered, queue_request-IsCovered,
}
use peerbit_examples.FileShare.Scheduler.Settled.{IsServed, IsSettled, pump-IsSettled}

remove_pending-IsSettled :
    (s : Scheduler) (r : Request) (reason : Reason)
    → IsSettled s
    → IsSettled (remove_pending s r reason)
unfolding remove_pending
remove_pending-IsSettled s r reason h =
    bool_split IsSettled (is_settled r.id s.settlements) (λ _. h)
      (λ _.
        option_split IsSettled (get r.owner s.owners) (λ _. h)
          (λ o found.
            bool_split IsSettled (has_request r.id o.requests)
              (λ there. pump-IsSettled _ (
                settle_queue-IsCovered (drop_reserved s r.id) r.owner r.id o
                  (without_request r.id o.requests) found there h.covered))
              (λ _. h)))

-- What a call leaves behind.
abbrev Answered : Scheduler × Ticket → Type 0
Answered x = IsSettled x.0

abbrev Left : Scheduler → Result → Type 0
Left s x = IsSettled (after s x)

admit-IsSettled :
    (s : Scheduler) (k bytes : ℕ) (lane : Lane) (signal : Option Signal) (count : ℕ)
    → IsSettled s
    → IsSettled (admit s k bytes lane signal count).0
unfolding admit enqueue
admit-IsSettled s k bytes lane signal count h =
    option_split Answered s.closed_reason
      (λ _.
        bool_split Answered (is_aborted signal) (λ _. h)
          (λ _. pump-IsSettled _ (queue_request-IsCovered s _ h.covered)))
      (λ reason _. h)

acquire-IsSettled :
    (s : Scheduler) (k : ℕ) (bytes : Number) (lane : Lane) (signal : Option Signal) (n : Number)
    → IsSettled s
    → IsSettled (acquire s k bytes lane signal n).0
unfolding acquire
acquire-IsSettled s k other lane signal n h = h
acquire-IsSettled s k (natural bytes) lane signal n h =
    bool_split Answered (not (ltb bytes safe_end)) (λ _. h)
      (λ _. bool_split Answered (ltb s.byte_limit bytes) (λ _. h) (λ _. counted n))
  where
    counted :
        (n : Number)
        → IsSettled
            (elim n as (λ n. Scheduler × Ticket) [
              | other ↦ (s, refused (range_error count_not_positive))
              | natural count ↦
                  if not (ltb count safe_end) || count == 0
                  then (s, refused (range_error count_not_positive))
                  else if ltb s.count_limit count || exceeds_lane s lane count
                  then (s, refused (range_error count_over_limit))
                  else admit s k bytes lane signal count
            ]).0
    counted other = h
    counted (natural count) =
        bool_split Answered (not (ltb count safe_end) || count == 0) (λ _. h)
          (λ _.
            bool_split Answered (ltb s.count_limit count || exceeds_lane s lane count) (λ _. h)
              (λ _. admit-IsSettled s k bytes lane signal count h))

cancel_owner-IsSettled :
    (s : Scheduler) (k : ℕ) (reason : Reason) → IsSettled s → IsSettled (cancel_owner s k reason)
unfolding cancel_owner
cancel_owner-IsSettled s k reason h =
    option_split IsSettled (get k s.owners) (λ _. h)
      (λ o _.
        pump-IsSettled _
          (reject_all-IsCovered reason o.requests _ (detach_owner-IsCovered s k h.covered)))

cancel_all-IsSettled :
    (reason : Reason) (os : List Owner) (s : Scheduler)
    → IsSettled s
    → IsSettled (cancel_all reason os s)
unfolding cancel_all
cancel_all-IsSettled reason [] s h = h
cancel_all-IsSettled reason (o ∷ os) s h =
    cancel_all-IsSettled reason os _ (cancel_owner-IsSettled s o.id reason h)

close-IsSettled : (s : Scheduler) (reason : Reason) → IsSettled s → IsSettled (close s reason)
unfolding close
close-IsSettled s reason h =
    option_split IsSettled s.closed_reason
      (λ _.
        cancel_all-IsSettled reason s.owners _
          (record { covered = h.covered; served = λ e. absurd (cc e) }))
      (λ old _. h)

reopen-IsSettled : (s : Scheduler) → IsSettled s → IsSettled (after s (reopen s))
unfolding reopen
reopen-IsSettled s h =
    bool_split (Left s) (not (s.pending_count == 0) || not (no_owners s.owners)) (λ _. h)
      (λ e. record {
        covered = h.covered;
        served = λ _. inr (λ k o found q. absurd (none_left s.owners (ground arith) k o found));
      })
  where
    none_left : (os : List Owner) → no_owners os ≡ true → (k : ℕ) (o : Owner) → get k os ≢ some o
    none_left [] e k o = unfold get in λ f. cc
    none_left (p ∷ os) e k o = unfold no_owners in cc

release_permit-IsSettled :
    (s : Scheduler) (p : Permit) (count bytes : Number)
    → IsSettled s
    → Left s (release_permit s p count bytes)
unfolding release_permit release_part
release_permit-IsSettled s p count bytes h =
    bool_split (Left s) (p.count == 0 && p.bytes == 0) (λ _. h)
      (λ _.
        bool_split (Left s)
          (not (is_part count p.count)
            || not (is_part bytes p.bytes)
            || amount count == 0 && amount bytes == 0)
          (λ _. h) (λ _. pump-IsSettled (release_part s p (amount count) (amount bytes)) h.covered))

release-IsSettled :
    (s : Scheduler) (k : ℕ) (count bytes : Option Number)
    → IsSettled s
    → Left s (release s k count bytes)
unfolding release
release-IsSettled s k count bytes h =
    option_split (Left s) (find_permit k s.permits) (λ _. h)
      (λ p _.
        release_permit-IsSettled s p (or_else count (natural p.count))
          (or_else bytes (natural p.bytes)) h)

step-IsSettled : (s : Scheduler) (c : Call) → IsSettled s → IsSettled (step s c)
unfolding step
step-IsSettled s (acquires k bytes lane signal count) h =
    acquire-IsSettled s k bytes lane signal count h
step-IsSettled s (releases k count bytes) h = release-IsSettled s k count bytes h
step-IsSettled s (aborts r reason) h = remove_pending-IsSettled s r reason h
step-IsSettled s (cancels k reason) h = cancel_owner-IsSettled s k reason h
step-IsSettled s (closes reason) h = close-IsSettled s reason h
step-IsSettled s reopens h = reopen-IsSettled s h

run-IsSettled : (s : Scheduler) (cs : List Call) → IsSettled s → IsSettled (run s cs)
unfolding run
run-IsSettled s [] h = h
run-IsSettled s (c ∷ cs) h = run-IsSettled (step s c) cs (step-IsSettled s c h)

new-IsSettled : (m n : ℕ) (lanes : Lane → Option ℕ) → IsSettled (new m n lanes)
unfolding get IsMap
new-IsSettled m n lanes = record {
  covered = record { map = tt; all = λ j o e. absurd (cc e) };
  served = λ _. inr (λ k o e. absurd (cc e));
}

-- After any history of calls on a new scheduler that is open at its end, a head request is reserved
-- that waits for the shared count or bytes, or every owner with a queued request has a head that waits
-- for its lane.
pub run-IsServed :
    (c b : ℕ) (lanes : Lane → Option ℕ) (s : Scheduler) (cs : List Call)
    → init (natural c) (natural b) lanes ≡ some s
    → (run s cs).closed_reason ≡ none
    → IsServed (run s cs)
run-IsServed c b lanes s cs e open_ =
    (run-IsSettled s cs (subst IsSettled (init-new c b lanes e) (new-IsSettled c b lanes))).served
      open_
