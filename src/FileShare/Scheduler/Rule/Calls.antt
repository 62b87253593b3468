-- ===== src/FileShare/Scheduler/Rule/Calls.antt =====
-- A rule for invariants of the calls on `FairTransferScheduler`.
use peerbit_examples.Prelude.{
  ℕ, ◌≤◌, ◌<◌, ◌≡◌, refl, ap, ◌∙◌, inl, inr, Bool, true, false, not, ◌&&◌, ◌||◌, List, [], ◌∷◌,
  ◌++◌, Option, none, some, arith, ◌==◌, if◌then◌else◌, Option-cases, Bool-cases, ltb, is_id,
}
use peerbit_examples.FileShare.Scheduler.Owners.{Lane, Request, Owner, get}
use peerbit_examples.FileShare.Scheduler.State.{
  Number, natural, other, safe_end, Fault, Signal, is_aborted, Reason, Permit, Scheduler,
  is_settled, Result, ok, thrown,
}
use peerbit_examples.FileShare.Scheduler.Pump.{set_scheduled, pump}
use peerbit_examples.FileShare.Scheduler.Permits.{
  find_permit, id-find_permit, release_part, release_permit, release, is_part, amount,
}
use peerbit_examples.FileShare.Scheduler.Requests.{
  remove_pending, settle_queue, without_request, has_request, drop_reserved, reject, reject_all,
  detach_owner, cancel_owner, cancel_all, close, reopen, no_owners, acquire, admit, enqueue,
  queue_request, schedule, rotate_last, exceeds_lane, Ticket,
}
use peerbit_examples.FileShare.Scheduler.{
  Call, acquires, releases, aborts, cancels, closes, reopens, after, step, run,
}
use peerbit_examples.FileShare.Scheduler.Rule.{Rule, pump-P}

-- What `acquire` has checked of a new request.
pub record IsAdmissible (s : Scheduler) (r : Request) : Type 0 where
  pub fresh : r.id ≡ s.next_id
  pub open_ : s.closed_reason ≡ none
  pub small : r.bytes ≤ s.byte_limit
  pub positive : 0 < r.count
  pub few : r.count ≤ s.count_limit
  pub lane : exceeds_lane s r.lane r.count ≡ false

pub record CallRule (P : Scheduler → Type 0) : Type 0 where
  pub rule : Rule P
  pub releases :
      (s : Scheduler) (p : Permit) (count bytes : ℕ)
      → find_permit p.id s.permits ≡ some p
      → count ≤ p.count
      → bytes ≤ p.bytes
      → P s
      → P (release_part s p count bytes)
  pub queues : (s : Scheduler) (r : Request) → IsAdmissible s r → P s → P (queue_request s r)
  pub withdraws :
      (s : Scheduler) (r : Request) (o : Owner) (reason : Reason)
      → is_settled r.id s.settlements ≡ false
      → get r.owner s.owners ≡ some o
      → has_request r.id o.requests ≡ true
      → P s
      → P (
          reject
            (settle_queue (drop_reserved s r.id) r.owner (without_request r.id o.requests))
            r.id
            reason)
  pub detaches :
      (s : Scheduler) (k : ℕ) (o : Owner) (reason : Reason)
      → get k s.owners ≡ some o
      → P s
      → P (reject_all reason o.requests (detach_owner s k))
  pub closings :
      (s : Scheduler) (reason : Option Reason) → P s → P (record s { closed_reason = reason })

-- What holds of the state behind a call that may throw.
pub data After (P : Scheduler → Type 0) (s : Scheduler) : Result → Type 0 where
  returns : {t : Scheduler} → P t → After P s (ok t)
  throws : {f : Fault} → P s → After P s (thrown f)

-- Of the state behind an `acquire`.
pub data Answers (P : Scheduler → Type 0) : Scheduler × Ticket → Type 0 where
  answers : {t : Scheduler} {x : Ticket} → P t → Answers P (t, x)

amount-le : (n : Number) (whole : ℕ) → is_part n whole ≡ true → amount n ≤ whole
unfolding is_part
amount-le (natural n) whole e = ground arith
amount-le other whole e = cc

both_true : (a b c : Bool) → (not a || not b || c) ≡ false → (a ≡ true) × (b ≡ true)
both_true a b c e = ground arith

find_permit_self :
    (k : ℕ) (ps : List Permit) (p : Permit)
    → find_permit k ps ≡ some p
    → find_permit p.id ps ≡ some p
unfolding find_permit
find_permit_self k ps p e = ap (λ j. find_permit j ps) (id-find_permit k ps p e) ∙ e

module _ (P : Scheduler → Type 0) (calls : CallRule P) where
  if-After :
      (b : Bool) {s : Scheduler} {x y : Result}
      → (b ≡ true → After P s x)
      → (b ≡ false → After P s y)
      → After P s (if b then x else y)
  if-After true h g = h refl
  if-After false h g = g refl

  if-Answers :
      (b : Bool) {x y : Scheduler × Ticket}
      → (b ≡ true → Answers P x)
      → (b ≡ false → Answers P y)
      → Answers P (if b then x else y)
  if-Answers true h g = h refl
  if-Answers false h g = g refl

  pump-keeps : (s : Scheduler) → P s → P (pump s)
  pump-keeps = pump-P P calls.rule

  release_permit-After :
      (s : Scheduler) (p : Permit) (count bytes : Number)
      → find_permit p.id s.permits ≡ some p
      → P s
      → After P s (release_permit s p count bytes)
  unfolding release_permit
  release_permit-After s p count bytes e h =
      if-After (p.count == 0 && p.bytes == 0) (λ _. returns h)
        (λ _.
          if-After
            (not (is_part count p.count)
              || not (is_part bytes p.bytes)
              || amount count == 0 && amount bytes == 0)
            (λ _. throws h)
            (λ fits.
              let parts = both_true _ _ _ fits in
              returns (
                pump-keeps _ (
                  calls.releases s p (amount count) (amount bytes) e
                    (amount-le count p.count parts.0) (amount-le bytes p.bytes parts.1) h))))

  release-After :
      (s : Scheduler) (k : ℕ) (count bytes : Option Number)
      → P s
      → After P s (release s k count bytes)
  unfolding release
  release-After s k count bytes h = elim (Option-cases (find_permit k s.permits)) [
    | inl e ↦ rw (e, release) (returns h)
    | inr (p, e) ↦
        rw (e, release) (release_permit-After s p _ _ (find_permit_self k s.permits p e) h)
  ]

  remove_pending-P :
      (s : Scheduler) (r : Request) (reason : Reason) → P s → P (remove_pending s r reason)
  unfolding remove_pending
  remove_pending-P s r reason h = elim (Bool-cases (is_settled r.id s.settlements)) [
    | inl old ↦ rw (old, remove_pending) h
    | inr new ↦ elim (Option-cases (get r.owner s.owners)) [
      | inl e ↦ rw (new, e, remove_pending) h
      | inr (o, e) ↦ elim (Bool-cases (has_request r.id o.requests)) [
        | inl queued ↦
            rw (new, e, queued, remove_pending)
              (pump-keeps _ (calls.withdraws s r o reason new e queued h))
        | inr gone ↦ rw (new, e, gone, remove_pending) h
      ]
    ]
  ]

  set_scheduled-P :
      (s : Scheduler) (k : ℕ) (b : Bool)
      → P s
      → P (record s { owners = set_scheduled k b s.owners })
  unfolding set_scheduled
  set_scheduled-P s k b h = elim (Option-cases (get k s.owners)) [
    | inl e ↦ rw (e, set_scheduled) h
    | inr (o, e) ↦ rw (e, set_scheduled) (calls.rule.flags s k o b e h)
  ]

  if-P : (b : Bool) (x y : Scheduler) → P x → P y → P (if b then x else y)
  if-P true x y h g = h
  if-P false x y h g = g

  rotate_last-P : (s : Scheduler) (k : ℕ) (ks : List ℕ) → P s → P (rotate_last s k ks)
  unfolding rotate_last
  rotate_last-P s k [] h = h
  rotate_last-P s k (g ∷ ks) h =
      if-P (is_id s.last_granted g && not (k == g)) _ _
        (calls.rule.reserves _ _ (calls.rule.rotates s (ks ++ g ∷ []) h)) h

  schedule-P : (s : Scheduler) (k : ℕ) → P s → P (schedule s k)
  unfolding schedule
  schedule-P s k h =
      rotate_last-P _ k _ (calls.rule.rotates _ (s.rotation ++ k ∷ []) (set_scheduled-P s k true h))

  enqueue-P : (s : Scheduler) (r : Request) → IsAdmissible s r → P s → P (enqueue s r)
  unfolding enqueue
  enqueue-P s r a h =
      let queued = calls.queues s r a h in
      pump-keeps _ (if-P _ _ _ queued (schedule-P _ r.owner queued))

  admit-Answers :
      (s : Scheduler) (k bytes : ℕ) (lane : Lane) (signal : Option Signal) (count : ℕ)
      → bytes ≤ s.byte_limit
      → 0 < count
      → count ≤ s.count_limit
      → exceeds_lane s lane count ≡ false
      → P s
      → Answers P (admit s k bytes lane signal count)
  unfolding admit
  admit-Answers s k bytes lane signal count small positive few room h =
      elim (Option-cases s.closed_reason) [
        | inl e ↦
            rw (e, admit)
              (if-Answers (is_aborted signal) (λ _. answers h)
                (λ _. answers (
                  enqueue-P s _
                    (record {
                      fresh = refl;
                      open_ = e;
                      small = small;
                      positive = positive;
                      few = few;
                      lane = room;
                    })
                    h)))
        | inr (x, e) ↦ rw (e, admit) (answers h)
      ]

  acquire-Answers :
      (s : Scheduler) (k : ℕ) (bytes : Number) (lane : Lane) (signal : Option Signal)
      (count : Number)
      → P s
      → Answers P (acquire s k bytes lane signal count)
  unfolding acquire
  acquire-Answers s k other lane signal n h = answers h
  acquire-Answers s k (natural bytes) lane signal other h =
      if-Answers (not (ltb bytes safe_end)) (λ _. answers h)
        (λ _. if-Answers (ltb s.byte_limit bytes) (λ _. answers h) (λ _. answers h))
  acquire-Answers s k (natural bytes) lane signal (natural n) h =
      if-Answers (not (ltb bytes safe_end)) (λ _. answers h)
        (λ _.
          if-Answers (ltb s.byte_limit bytes) (λ _. answers h)
            (λ small.
              if-Answers (not (ltb n safe_end) || n == 0) (λ _. answers h)
                (λ positive.
                  if-Answers (ltb s.count_limit n || exceeds_lane s lane n) (λ _. answers h)
                    (λ few.
                      admit-Answers s k bytes lane signal n (ground arith) (ground arith)
                        (ground arith) (ground arith) h))))

  cancel_owner-P : (s : Scheduler) (k : ℕ) (reason : Reason) → P s → P (cancel_owner s k reason)
  unfolding cancel_owner
  cancel_owner-P s k reason h = elim (Option-cases (get k s.owners)) [
    | inl e ↦ rw (e, cancel_owner) h
    | inr (o, e) ↦ rw (e, cancel_owner) (pump-keeps _ (calls.detaches s k o reason e h))
  ]

  cancel_all-P :
      (reason : Reason) (os : List Owner) (s : Scheduler) → P s → P (cancel_all reason os s)
  unfolding cancel_all
  cancel_all-P reason [] s h = h
  cancel_all-P reason (o ∷ os) s h = cancel_all-P reason os _ (cancel_owner-P s o.id reason h)

  close-P : (s : Scheduler) (reason : Reason) → P s → P (close s reason)
  unfolding close
  close-P s reason h = elim (Option-cases s.closed_reason) [
    | inl e ↦ rw (e, close) (cancel_all-P reason s.owners _ (calls.closings s (some reason) h))
    | inr (x, e) ↦ rw (e, close) h
  ]

  reopen-After : (s : Scheduler) → P s → After P s (reopen s)
  unfolding reopen
  reopen-After s h =
      if-After (not (s.pending_count == 0) || not (no_owners s.owners)) (λ _. throws h)
        (λ _. returns (calls.rule.reserves _ none (calls.closings s none h)))

  after-P : (s : Scheduler) (x : Result) → After P s x → P (after s x)
  after-P s _ (returns h) = h
  after-P s _ (throws h) = h

  answer-P : (x : Scheduler × Ticket) → Answers P x → P x.0
  answer-P _ (answers h) = h

  pub step-P : (s : Scheduler) (c : Call) → P s → P (step s c)
  unfolding step
  step-P s (acquires k bytes lane signal count) h =
      answer-P _ (acquire-Answers s k bytes lane signal count h)
  step-P s (releases k count bytes) h = after-P s _ (release-After s k count bytes h)
  step-P s (aborts r reason) h = remove_pending-P s r reason h
  step-P s (cancels k reason) h = cancel_owner-P s k reason h
  step-P s (closes reason) h = close-P s reason h
  step-P s reopens h = after-P s _ (reopen-After s h)

  pub run-P : (s : Scheduler) (cs : List Call) → P s → P (run s cs)
  unfolding run
  run-P s [] h = h
  run-P s (c ∷ cs) h = run-P (step s c) cs (step-P s c h)
