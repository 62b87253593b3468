-- ===== src/FileShare/Scheduler/Rule.antt =====
-- A rule for invariants of `pump`, by its elementary changes of the state.
pub mod Calls
use peerbit_examples.Prelude.{
  ℕ, zero, suc, ◌+◌, ◌≡◌, refl, inl, inr, Bool, true, not, ◌&&◌, ◌||◌, is_some, false, List, [],
  ◌∷◌, ◌++◌, Option, none, some, arith, ◌==◌, if◌then◌else◌, Option-cases, Bool-cases, ltb, length,
}
use peerbit_examples.FileShare.Scheduler.Owners.{Request, Owner, get, put, remove, get-put}
use peerbit_examples.FileShare.Scheduler.State.{Scheduler}
use peerbit_examples.FileShare.Scheduler.Pump.{
  has_shared_capacity, has_lane_capacity, can_grant, set_scheduled, unschedule_owner, without,
  grant, shift_owner, Round, stop, again, requeue, visit_queue, visit, turn, round, pump_loop,
  reserved_head, serve_reserved, is_empty, pump, rounds,
}

pub record Rule (P : Scheduler → Type 0) : Type 0 where
  pub rotates : (s : Scheduler) (ks : List ℕ) → P s → P (record s { rotation = ks })
  pub reserves : (s : Scheduler) (r : Option Request) → P s → P (record s { reserved = r })
  pub flags :
      (s : Scheduler) (k : ℕ) (o : Owner) (b : Bool)
      → get k s.owners ≡ some o
      → P s
      → P (record s { owners = put k o.requests b s.owners })
  pub drops :
      (s : Scheduler) (k : ℕ) (o : Owner)
      → get k s.owners ≡ some o
      → o.requests ≡ []
      → P s
      → P (record s { owners = remove k s.owners })
  pub grants :
      (s : Scheduler) (k : ℕ) (r : Request) (rs : List Request) (o : Owner)
      → get k s.owners ≡ some o
      → o.requests ≡ r ∷ rs
      → can_grant s r ≡ true
      → P s
      → P (grant (shift_owner s k rs) r)

eq-true_of_not : {b : Bool} → not b ≡ false → b ≡ true
eq-true_of_not {b = true} e = refl
eq-true_of_not {b = false} e = cc

can_grant-unschedule_owner :
    (s : Scheduler) (r : Request) (k : ℕ)
    → not (has_shared_capacity s r) ≡ false
    → not (has_lane_capacity s r) ≡ false
    → can_grant (unschedule_owner (record s { reserved = none }) k) r ≡ true
unfolding can_grant unschedule_owner
can_grant-unschedule_owner s r k shared lane = ground arith

pub get-unschedule_owner :
    (s : Scheduler) (k : ℕ) (o : Owner)
    → get k s.owners ≡ some o
    → get k (unschedule_owner s k).owners ≡ some (record o { scheduled = false })
unfolding unschedule_owner
get-unschedule_owner s k o e =
    rw (e, set_scheduled) (ground (arith, get-put k k o.requests false s.owners o))

module _ (P : Scheduler → Type 0) (rule : Rule P) where
  pub data Keeps : Round → Type 0 where
    stops : {t : Scheduler} → P t → Keeps (stop t)
    goes_on : {n : ℕ} {t : Scheduler} → P t → Keeps (again n t)

  requeue-P :
      (s : Scheduler) (k : ℕ) (o : Owner) (rs : List Request)
      → get k s.owners ≡ some o
      → o.requests ≡ rs
      → P s
      → P (requeue s k rs)
  requeue-P s k o rs e q h =
      rw (← q) (rule.rotates _ (s.rotation ++ k ∷ []) (rule.flags s k o true e h))

  if-Keeps :
      (b : Bool) {x y : Round}
      → (b ≡ true → Keeps x)
      → (b ≡ false → Keeps y)
      → Keeps (if b then x else y)
  if-Keeps true h g = h refl
  if-Keeps false h g = g refl

  visit_queue-Keeps :
      (n : ℕ) (s : Scheduler) (k : ℕ) (o : Owner) (rs : List Request)
      → get k s.owners ≡ some o
      → o.requests ≡ rs
      → P s
      → Keeps (visit_queue n s k rs)
  unfolding visit_queue
  visit_queue-Keeps n s k o [] e q h = goes_on (rule.drops s k o e q h)
  visit_queue-Keeps n s k o (r ∷ rs) e q h =
      if-Keeps (not (can_grant s r))
        (λ _.
          if-Keeps (not (has_shared_capacity s r) && has_lane_capacity s r)
            (λ _. stops (rule.reserves _ (some r) waits)) (λ _. goes_on waits))
        (λ fits. goes_on (rule.grants s k r rs o e q (eq-true_of_not fits) h))
    where
      waits : P (requeue s k (r ∷ rs))
      waits = requeue-P s k o (r ∷ rs) e q h

  visit-Keeps : (n : ℕ) (s : Scheduler) (k : ℕ) → P s → Keeps (visit n s k)
  unfolding visit
  visit-Keeps n s k h = elim (Option-cases (get k s.owners)) [
    | inl e ↦ rw (e, visit) (goes_on h)
    | inr (o, e) ↦ rw (e, visit) (visit_queue-Keeps n s k o o.requests e refl h)
  ]

  turn-Keeps : (n : ℕ) (s : Scheduler) (ks : List ℕ) → P s → Keeps (turn n s ks)
  unfolding turn
  turn-Keeps n s [] h = stops h
  turn-Keeps n s (k ∷ ks) h =
      if-Keeps (ltb n (suc (length ks))) (λ _. visit-Keeps n _ k (rule.rotates s ks h))
        (λ _. stops h)

  round-Keeps : (n : ℕ) (s : Scheduler) → P s → Keeps (round n s)
  unfolding round
  round-Keeps n s h = turn-Keeps n s s.rotation h

  next-P :
      (x : Round) (f : ℕ → Scheduler → Scheduler)
      → Keeps x
      → ((n : ℕ) (t : Scheduler) → P t → P (f n t))
      → P (elim x [ stop t ↦ t | again n t ↦ f n t ])
  next-P _ f (stops h) g = h
  next-P _ f (goes_on {n} {t} h) g = g n t h

  pump_loop-P : (fuel n : ℕ) (s : Scheduler) → P s → P (pump_loop fuel n s)
  unfolding pump_loop
  pump_loop-P zero n s h = h
  pump_loop-P (suc fuel) n s h =
      next-P (round n s) (pump_loop fuel) (round-Keeps n s h) (λ m t g. pump_loop-P fuel m t g)

  -- Taking an owner out of the rotation and its head off the queue.
  pub unschedule_owner-P : (s : Scheduler) (k : ℕ) → P s → P (unschedule_owner s k)
  unfolding unschedule_owner
  unschedule_owner-P s k h = elim (Option-cases (get k s.owners)) [
    | inl e ↦ rw (e, set_scheduled) (rule.rotates s _ h)
    | inr (o, e) ↦ rw (e, set_scheduled) (rule.rotates _ _ (rule.flags s k o false e h))
  ]

  reserved_head-Keeps :
      (s : Scheduler) (r : Request) (o : Owner) (rs : List Request)
      → get r.owner s.owners ≡ some o
      → o.requests ≡ rs
      → P s
      → Keeps (reserved_head s r rs)
  unfolding reserved_head
  reserved_head-Keeps s r o [] e q h = goes_on (rule.reserves s none h)
  reserved_head-Keeps s r o (x ∷ xs) e q h =
      if-Keeps (not (x.id == r.id)) (λ _. goes_on free)
        (λ _.
          if-Keeps (not (has_shared_capacity s x)) (λ _. stops h)
            (λ shared.
              if-Keeps (not (has_lane_capacity s x)) (λ _. goes_on free)
                (λ lane. goes_on (served shared lane))))
    where
      free : P (record s { reserved = none })
      free = rule.reserves s none h

      served :
          not (has_shared_capacity s x) ≡ false
          → not (has_lane_capacity s x) ≡ false
          → P (
              grant
                (shift_owner (unschedule_owner (record s { reserved = none }) r.owner) r.owner xs)
                x)
      served shared lane =
          rule.grants _ r.owner x xs _
            (get-unschedule_owner (record s { reserved = none }) r.owner o e) q
            (can_grant-unschedule_owner s x r.owner shared lane) (unschedule_owner-P _ r.owner free)

  serve_reserved-Keeps : (s : Scheduler) → P s → Keeps (serve_reserved s)
  unfolding serve_reserved
  serve_reserved-Keeps s h = elim (Option-cases s.reserved) [
    | inl e ↦ rw (e, serve_reserved) (goes_on h)
    | inr (r, e) ↦ elim (Option-cases (get r.owner s.owners)) [
      | inl e' ↦ rw (e, e', serve_reserved) (goes_on (rule.reserves s none h))
      | inr (o, e') ↦ rw (e, e', serve_reserved) (reserved_head-Keeps s r o o.requests e' refl h)
    ]
  ]

  if-P : (b : Bool) (x y : Scheduler) → P x → P y → P (if b then x else y)
  if-P true x y h g = h
  if-P false x y h g = g

  pub pump-P : (s : Scheduler) → P s → P (pump s)
  unfolding pump
  pump-P s h = if-P (is_some s.closed_reason || is_empty s.rotation) s _ h (
      next-P (serve_reserved s) (λ n t. pump_loop (rounds t) n t) (serve_reserved-Keeps s h)
        (λ n t g. pump_loop-P (rounds t) n t g))
