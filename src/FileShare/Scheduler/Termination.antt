-- ===== src/FileShare/Scheduler/Termination.antt =====
-- The rounds of the loop of `pump`, and the loop with no bound on them.
use peerbit_examples.Prelude.{
  ℕ, zero, suc, ◌+◌, ◌-◌, ◌*◌, ◌≤◌, ◌<◌, ◌≡◌, ◌≢◌, refl, ap, inl, inr, Bool, true, false, not, ◌&&◌,
  List, [], ◌∷◌, none, some, arith, ltb, if◌then◌else◌, Option-cases, length, length-append,
}
use peerbit_examples.FileShare.Scheduler.Owners.{
  Request, Owner, get, put, remove, tally, tally-put, tally-remove,
}
use peerbit_examples.FileShare.Scheduler.State.{Scheduler}
use peerbit_examples.FileShare.Scheduler.Pump.{
  can_grant, has_shared_capacity, has_lane_capacity, grant, shift_owner, Round, stop, again,
  requeue, visit_queue, visit, turn, round, pump_loop, rounds, serve_reserved, is_empty, pump,
}

-- `room` bounds twice the length of the rotation.
abbrev pub weight : ℕ → ℕ → Scheduler → ℕ
weight room n s = tally length s.owners * suc room + (length s.rotation + (length s.rotation - n))

pub data Falls (room bound : ℕ) : Round → Type 0 where
  ends : {t : Scheduler} → Falls room bound (stop t)
  falls :
      {n : ℕ} {t : Scheduler}
      → n ≤ length t.rotation
      → 2 * length t.rotation ≤ room
      → weight room n t < bound
      → Falls room bound (again n t)

if-Falls :
    (b : Bool) {room bound : ℕ} {x y : Round}
    → (b ≡ true → Falls room bound x)
    → (b ≡ false → Falls room bound y)
    → Falls room bound (if b then x else y)
if-Falls true h g = h refl
if-Falls false h g = g refl

requeue-Falls :
    (room bound n : ℕ) (s : Scheduler) (k : ℕ) (rs : List Request) (o : Owner)
    → get k s.owners ≡ some o
    → o.requests ≡ rs
    → n ≤ length s.rotation
    → 2 * suc (length s.rotation) ≤ room
    → tally length s.owners * suc room + (suc (length s.rotation) + (suc (length s.rotation) - n))
      ≤ bound
    → Falls room bound (again (n + 1) (requeue s k rs))
requeue-Falls room bound n s k rs o e q small fits h =
    let len = length-append s.rotation (k ∷ []) in
    let same : tally length (put k rs true s.owners) ≡ tally length s.owners =
      omega (arith, tally-put length k rs true s.owners o e, ap length q) in
    falls (omega (arith, len)) (omega (arith, len))
      (omega (arith, len, ap (λ (t : ℕ). t * suc room) same))

grant-Falls :
    (room bound : ℕ) (s : Scheduler) (k : ℕ) (r : Request) (rs : List Request) (o : Owner)
    → get k s.owners ≡ some o
    → o.requests ≡ r ∷ rs
    → 2 * suc (length s.rotation) ≤ room
    → tally length s.owners * suc room < bound
    → Falls room bound (again 0 (grant (shift_owner s k rs) r))
unfolding grant shift_owner
grant-Falls room bound s k r [] o e q fits h =
    let fewer : tally length (remove k s.owners) + 1 ≡ tally length s.owners =
      omega (arith, tally-remove length k s.owners o e, ap length q) in
    falls (omega arith) (omega arith) (omega (arith, ap (λ (t : ℕ). t * suc room) fewer))
grant-Falls room bound s k r (x ∷ xs) o e q fits h =
    let len = length-append s.rotation (k ∷ []) in
    let fewer : tally length (put k (x ∷ xs) true s.owners) + 1 ≡ tally length s.owners =
      omega (arith, tally-put length k (x ∷ xs) true s.owners o e, ap length q) in
    falls (omega arith) (omega (arith, len))
      (omega (arith, len, ap (λ (t : ℕ). t * suc room) fewer))

visit_queue-Falls :
    (room bound n : ℕ) (s : Scheduler) (k : ℕ) (rs : List Request) (o : Owner)
    → get k s.owners ≡ some o
    → o.requests ≡ rs
    → n ≤ length s.rotation
    → 2 * suc (length s.rotation) ≤ room
    → tally length s.owners * suc room + (suc (length s.rotation) + (suc (length s.rotation) - n))
      ≤ bound
    → Falls room bound (visit_queue n s k rs)
unfolding visit_queue
visit_queue-Falls room bound n s k [] o e q small fits h =
    let same : tally length (remove k s.owners) ≡ tally length s.owners =
      omega (arith, tally-remove length k s.owners o e, ap length q) in
    falls small (omega arith) (omega (arith, ap (λ (t : ℕ). t * suc room) same))
visit_queue-Falls room bound n s k (r ∷ rs) o e q small fits h =
    if-Falls (not (can_grant s r))
      (λ _.
        if-Falls (not (has_shared_capacity s r) && has_lane_capacity s r) (λ _. ends)
          (λ _. requeue-Falls room bound n s k (r ∷ rs) o e q small fits h))
      (λ _. grant-Falls room bound s k r rs o e q fits (omega arith))

turn-Falls :
    (room n : ℕ) (s : Scheduler) (ks : List ℕ)
    → s.rotation ≡ ks
    → 2 * length ks ≤ room
    → Falls room (weight room n s) (turn n s ks)
unfolding turn visit
turn-Falls room n s [] e fits = ends
turn-Falls room n s (k ∷ ks) e fits =
    if-Falls (ltb n (suc (length ks)))
      (λ more. elim (Option-cases (get k s.owners)) [
        | inl gone ↦
            rw (gone, visit) (falls (ground arith) (omega arith) (ground (arith, ap length e)))
        | inr (o, found) ↦
            rw (found, visit)
              (visit_queue-Falls room (weight room n s) n (record s { rotation = ks }) k o.requests
                o found refl (ground arith) fits (omega (arith, ap length e)))
      ])
      (λ _. ends)

-- The loop of `pump` with no bound on its rounds: from `examinedWithoutGrant` and a state to the
-- state at its end.
pub data Loop : ℕ → Scheduler → Scheduler → Type 0 where
  last : {n : ℕ} {s t : Scheduler} → round n s ≡ stop t → Loop n s t
  more : {n m : ℕ} {s u t : Scheduler} → round n s ≡ again m u → Loop m u t → Loop n s t

pump_loop-Loop :
    (room fuel n : ℕ) (s : Scheduler)
    → 2 * length s.rotation ≤ room
    → weight room n s < fuel
    → Loop n s (pump_loop fuel n s)
unfolding pump_loop
pump_loop-Loop room zero n s fits h = absurd (omega arith)
pump_loop-Loop room (suc fuel) n s fits h =
    next (round n s) refl (unfold round in turn-Falls room n s s.rotation refl fits)
      (λ m u fits' h'. pump_loop-Loop room fuel m u fits' h')
  where
    next :
        (x : Round)
        → round n s ≡ x
        → Falls room (weight room n s) x
        → ((m : ℕ) (u : Scheduler)
            → 2 * length u.rotation ≤ room
            → weight room m u < fuel
            → Loop m u (pump_loop fuel m u))
        → Loop n s (elim x [ stop t ↦ t | again m u ↦ pump_loop fuel m u ])
    next _ e ends rest = last e
    next _ e (falls {n = m} {t = u} small fits' less) rest = more e (rest m u fits' (omega arith))

-- What `pump` does behind the part that serves the reserved request: it returns, or runs the loop
-- to its end.
pub data Finishes : Round → Scheduler → Type 0 where
  returns : {t : Scheduler} → Finishes (stop t) t
  loops : {n : ℕ} {s t : Scheduler} → Loop n s t → Finishes (again n s) t

finishes : (x : Round) → Finishes x (elim x [ stop t ↦ t | again n t ↦ pump_loop (rounds t) n t ])
finishes (stop t) = returns
finishes (again n s) =
    loops (pump_loop-Loop (2 * length s.rotation) (rounds s) n s (omega arith) (omega arith))

-- On an open scheduler with an owner in the rotation `pump` ends in the state at which the source's
-- loop, with no bound on its rounds, ends.
pub pump-Finishes :
    (s : Scheduler)
    → s.closed_reason ≡ none
    → s.rotation ≢ []
    → Finishes (serve_reserved s) (pump s)
unfolding pump
pump-Finishes s open_ busy = simp (open_, nonempty s.rotation busy) (finishes (serve_reserved s))
  where
    nonempty : (ks : List ℕ) → ks ≢ [] → is_empty ks ≡ false
    nonempty [] h = absurd (h refl)
    nonempty (k ∷ ks) h = unfold is_empty in refl
