-- ===== src/FileShare/Scheduler/Progress.antt =====
-- packages/file-share/library/src/transfer-scheduling.ts: the requests that wait when `pump` of
-- `FairTransferScheduler` returns.
use peerbit_examples.Prelude.{
  ℕ, suc, ◌+◌, ◌≡◌, ◌≢◌, refl, sym, ap, subst, ◌∙◌, ◌⊎◌, inl, inr, Bool, true, false, not, ◌&&◌,
  ◌||◌, List, [], ◌∷◌, ◌++◌, none, some, arith, ◌==◌, ==_iff, ltb, if◌then◌else◌, Option-cases,
  Bool-cases, length, length-append, is_some, All, All-append,
}
use mathlib.Core.List.{append_assoc, append-nil}
use peerbit_examples.FileShare.Scheduler.Owners.{
  Request, Owner, get, remove, get-put, get-remove_ne,
}
use peerbit_examples.FileShare.Scheduler.State.{Scheduler}
use peerbit_examples.FileShare.Scheduler.Pump.{
  can_grant, has_shared_capacity, has_lane_capacity, grant, shift_owner, Round, stop, again,
  requeue, visit_queue, visit, turn, round, reserved_head, serve_reserved, is_empty, pump,
}
use peerbit_examples.FileShare.Scheduler.Termination.{
  Loop, last, more, Finishes, returns, loops, pump-Finishes,
}

-- The head of an owner's queue is `r`.
abbrev pub IsHead : Scheduler → ℕ → Request → Type 0
IsHead s k r = (o : Owner) × (rs : List Request) × (get k s.owners ≡ some o) × (o.requests ≡ r ∷ rs)

-- The owner's head waits for its lane.
abbrev pub IsBlocked : Scheduler → ℕ → Type 0
IsBlocked s k = (r : Request) × IsHead s k r × (has_lane_capacity s r ≡ false)

-- A head request is reserved, and waits for the shared count or bytes.
abbrev pub IsReserving : Scheduler → Type 0
IsReserving s =
    (x : Request) × (k : ℕ) × (r : Request) × (s.reserved ≡ some x)
    × (r.id ≡ x.id)
    × IsHead s k r
    × (has_shared_capacity s r ≡ false)

-- ... or every owner of the rotation is blocked.
abbrev pub IsConserving : Scheduler → Type 0
IsConserving s = IsReserving s ⊎ All (IsBlocked s) s.rotation

-- The owners examined since the last grant stand at the end of the rotation, and are blocked.
abbrev Examined : ℕ → Scheduler → Type 0
Examined n s =
    (front : List ℕ) × (back : List ℕ) × (s.rotation ≡ front ++ back)
    × (length back ≡ n)
    × All (IsBlocked s) back

data Leaves : Round → Type 0 where
  stops : {t : Scheduler} → IsConserving t → Leaves (stop t)
  goes_on : {n : ℕ} {t : Scheduler} → Examined n t → Leaves (again n t)

if-Leaves :
    (b : Bool) {x y : Round}
    → (b ≡ true → Leaves x)
    → (b ≡ false → Leaves y)
    → Leaves (if b then x else y)
if-Leaves true h g = h refl
if-Leaves false h g = g refl

All-map : {A B : ℕ → Type 0} (f : (k : ℕ) → A k → B k) (ks : List ℕ) → All A ks → All B ks
All-map f [] h = tt
All-map f (k ∷ ks) h = (f k h.0, All-map f ks h.1)

Examined-zero : (s : Scheduler) → Examined 0 s
Examined-zero s = (s.rotation, [], sym (append-nil s.rotation), refl, tt)

same_id : (k : ℕ) → (k == k) ≡ true
same_id k = ground arith

same_owner :
    (k j : ℕ) (os : List Owner) (o p : Owner)
    → (k == j) ≡ true
    → get k os ≡ some o
    → get j os ≡ some p
    → o ≡ p
same_owner k j os o p same e found = let moved = ap (λ i. get i os) ((==_iff k j).0 same) in cc

-- Requeueing an owner behind its head keeps the others' heads, and its own.
requeue-IsBlocked :
    (s : Scheduler) (k : ℕ) (o : Owner) (r : Request) (rs : List Request)
    → get k s.owners ≡ some o
    → o.requests ≡ r ∷ rs
    → (j : ℕ) → IsBlocked s j
    → IsBlocked (requeue s k (r ∷ rs)) j
requeue-IsBlocked s k o r rs e q j (x, (p, ps, found, queue), full) = elim (Bool-cases (k == j)) [
  | inl same ↦ (
    x,
    (
      record o { requests = r ∷ rs; scheduled = true },
      ps,
      get-put k j (r ∷ rs) true s.owners o e ∙ (rw same),
      sym q ∙ ap (λ y. y.requests) (same_owner k j s.owners o p same e found) ∙ queue,
    ),
    unfold has_lane_capacity in full,
  )
  | inr differs ↦ (
    x,
    (p, ps, get-put k j (r ∷ rs) true s.owners o e ∙ rw differs found, queue),
    unfold has_lane_capacity in full,
  )
]

remove-IsBlocked :
    (s : Scheduler) (k : ℕ) (o : Owner)
    → get k s.owners ≡ some o
    → o.requests ≡ []
    → (j : ℕ) → IsBlocked s j
    → IsBlocked (record s { owners = remove k s.owners }) j
remove-IsBlocked s k o e q j (x, (p, ps, found, queue), full) = elim (Bool-cases (k == j)) [
  | inl same ↦ absurd (
      not_nil
        (sym queue ∙ ap (λ y. y.requests) (sym (same_owner k j s.owners o p same e found)) ∙ q))
  | inr differs ↦ (
    x,
    (p, ps, get-remove_ne k j s.owners differs ∙ found, queue),
    unfold has_lane_capacity in full,
  )
]
  where
    not_nil : {r : Request} {rs : List Request} → r ∷ rs ≡ [] → ⊥
    not_nil e = cc

-- A change of the rotation alone.
rotation-IsBlocked :
    (s : Scheduler) (ks : List ℕ) (j : ℕ) → IsBlocked s j → IsBlocked (record s { rotation = ks }) j
rotation-IsBlocked s ks j (x, head, full) = (x, head, unfold has_lane_capacity in full)

eq-false_of_not : (b : Bool) → not b ≡ true → b ≡ false
eq-false_of_not b e = ground arith

lane_full :
    (shared lane : Bool) → (shared && lane) ≡ false → (not shared && lane) ≡ false → lane ≡ false
lane_full shared lane a b = ground arith

shared_full : (shared lane : Bool) → (not shared && lane) ≡ true → shared ≡ false
shared_full shared lane a = ground arith

module _ (n : ℕ) (s : Scheduler) (k : ℕ) (o : Owner) (e : get k s.owners ≡ some o) where
  requeue-Leaves :
      (r : Request) (rs : List Request)
      → o.requests ≡ r ∷ rs
      → has_lane_capacity s r ≡ false
      → Examined n s
      → Examined (n + 1) (requeue s k (r ∷ rs))
  requeue-Leaves r rs q full (front, back, split, len, blocked) = (
    front,
    back ++ k ∷ [],
    ap (λ (ks : List ℕ). ks ++ k ∷ []) split ∙ append_assoc front back (k ∷ []),
    length-append back (k ∷ []) ∙ (omega (arith, len)),
    All-append (IsBlocked (requeue s k (r ∷ rs))) back (k ∷ [])
        (All-map (requeue-IsBlocked s k o r rs e q) back blocked)
        (requeue-IsBlocked s k o r rs e q k (r, (o, rs, e, q), full), tt),
  )

  reserving :
      (r : Request) (rs : List Request)
      → o.requests ≡ r ∷ rs
      → (not (has_shared_capacity s r) && has_lane_capacity s r) ≡ true
      → IsReserving (record (requeue s k (r ∷ rs)) { reserved = some r })
  reserving r rs q shared = (
    r,
    k,
    r,
    refl,
    refl,
    (
      record o { requests = r ∷ rs; scheduled = true },
      rs,
      get-put k k (r ∷ rs) true s.owners o e ∙ (rw (same_id k)),
      refl,
    ),
    unfold has_shared_capacity in shared_full _ (has_lane_capacity s r) shared,
  )

  visit_queue-Leaves :
      (rs : List Request) → o.requests ≡ rs → Examined n s → Leaves (visit_queue n s k rs)
  unfolding visit_queue
  visit_queue-Leaves [] q (front, back, split, len, blocked) =
      goes_on (front, back, split, len, All-map (remove-IsBlocked s k o e q) back blocked)
  visit_queue-Leaves (r ∷ rs) q x =
      if-Leaves (not (can_grant s r))
        (λ full.
          if-Leaves (not (has_shared_capacity s r) && has_lane_capacity s r)
            (λ shared. stops (inl (reserving r rs q shared)))
            (λ lane. goes_on (
              requeue-Leaves r rs q
                (lane_full _ _ (unfold can_grant in eq-false_of_not _ full) lane) x)))
        (λ fits. goes_on (Examined-zero (grant (shift_owner s k rs) r)))

turn-Leaves :
    (n : ℕ) (s : Scheduler) (ks front back : List ℕ)
    → s.rotation ≡ ks
    → ks ≡ front ++ back
    → length back ≡ n
    → All (IsBlocked s) back
    → Leaves (turn n s ks)
unfolding turn visit
turn-Leaves n s [] front back e split len blocked = stops (inr (rw e tt))
turn-Leaves n s (k ∷ ks) [] back e split len blocked =
    if-Leaves (ltb n (suc (length ks))) (λ more. absurd (ground (arith, ap length split, len)))
      (λ _. stops (inr (subst (All (IsBlocked s)) (sym (e ∙ split)) blocked)))
turn-Leaves n s (k ∷ ks) (x ∷ front) back e split len blocked =
    if-Leaves (ltb n (suc (length ks)))
      (λ _. elim (Option-cases (get k s.owners)) [
        | inl gone ↦ rw (gone, visit) (goes_on rest)
        | inr (o, found) ↦
            rw (found, visit)
              (visit_queue-Leaves n (record s { rotation = ks }) k o found o.requests refl rest)
      ])
      (λ all. absurd (ground (arith, ap length split, len, length-append front back)))
  where
    rest : Examined n (record s { rotation = ks })
    rest = (front, back, cc, len, All-map (rotation-IsBlocked s ks) back blocked)

round-Leaves : (n : ℕ) (s : Scheduler) → Examined n s → Leaves (round n s)
unfolding round
round-Leaves n s (front, back, split, len, blocked) =
    turn-Leaves n s s.rotation front back refl split len blocked

Loop-IsConserving : {n : ℕ} {s t : Scheduler} → Loop n s t → Examined n s → IsConserving t
Loop-IsConserving {n} {s} {t} (last e) x = ended (rw e at (round-Leaves n s x))
  where
    ended : Leaves (stop t) → IsConserving t
    ended (stops c) = c
Loop-IsConserving {n} {s} {t} (more {m} {u} e l) x =
    Loop-IsConserving l (left (rw e at (round-Leaves n s x)))
  where
    left : Leaves (again m u) → Examined m u
    left (goes_on y) = y

reserved_head-Leaves :
    (s : Scheduler) (x : Request) (o : Owner) (rs : List Request)
    → s.reserved ≡ some x
    → get x.owner s.owners ≡ some o
    → o.requests ≡ rs
    → Leaves (reserved_head s x rs)
unfolding reserved_head
reserved_head-Leaves s x o [] held e q = goes_on (Examined-zero (record s { reserved = none }))
reserved_head-Leaves s x o (r ∷ rs) held e q =
    if-Leaves (not (r.id == x.id)) (λ _. goes_on (Examined-zero (record s { reserved = none })))
      (λ same.
        if-Leaves (not (has_shared_capacity s r))
          (λ full. stops (
            inl (x, x.owner, r, held, ground (arith, same), (o, rs, e, q), eq-false_of_not _ full)))
          (λ _.
            if-Leaves (not (has_lane_capacity s r))
              (λ _. goes_on (Examined-zero (record s { reserved = none })))
              (λ _. goes_on (Examined-zero _))))

serve_reserved-Leaves : (s : Scheduler) → Leaves (serve_reserved s)
unfolding serve_reserved
serve_reserved-Leaves s = elim (Option-cases s.reserved) [
  | inl e ↦ simp (e, serve_reserved) (goes_on (Examined-zero s))
  | inr (x, e) ↦ elim (Option-cases (get x.owner s.owners)) [
    | inl gone ↦
        simp (e, gone, serve_reserved) (goes_on (Examined-zero (record s { reserved = none })))
    | inr (o, found) ↦
        simp (e, found, serve_reserved) (reserved_head-Leaves s x o o.requests e found refl)
  ]
]

Finishes-IsConserving : (x : Round) (t : Scheduler) → Leaves x → Finishes x t → IsConserving t
Finishes-IsConserving _ t (stops c) returns = c
Finishes-IsConserving _ t (goes_on y) (loops l) = Loop-IsConserving l y

pump-idle : (s : Scheduler) → s.rotation ≡ [] → s ≡ pump s
unfolding pump
pump-idle s e = sym (skips (is_some s.closed_reason) (is_empty s.rotation) _ _ (ap is_empty e))
  where
    skips : (b c : Bool) (x y : Scheduler) → c ≡ true → (if b || c then x else y) ≡ x
    skips true c x y h = refl
    skips false true x y h = refl
    skips false false x y h = cc

-- The owners of the rotation when `pump` returns on an open scheduler.
pub pump-IsConserving : (s : Scheduler) → s.closed_reason ≡ none → IsConserving (pump s)
pump-IsConserving s open_ = elim (rotation_cases s.rotation) [
  | inl idle ↦ subst IsConserving (pump-idle s idle) (inr (subst (All (IsBlocked s)) (sym idle) tt))
  | inr busy ↦
      Finishes-IsConserving (serve_reserved s) (pump s) (serve_reserved-Leaves s)
        (pump-Finishes s open_ busy)
]
  where
    rotation_cases : (ks : List ℕ) → (ks ≡ []) ⊎ (ks ≢ [])
    rotation_cases [] = inl refl
    rotation_cases (k ∷ ks) = inr (λ e. cc)
