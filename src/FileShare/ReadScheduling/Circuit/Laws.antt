-- ===== src/FileShare/ReadScheduling/Circuit/Laws.antt =====
-- Lemmas on `ManifestHeadBatchCircuit` and its histories of calls.
use peerbit_examples.Prelude.{
  ℕ, ◌≤◌, ◌<◌, ◌≡◌, ◌≢◌, ◌⊎◌, Bool, true, false, List, [], ◌∷◌, none, some, arith,
}
use peerbit_examples.FileShare.ReadScheduling.Circuit.{
  enabled, zero_open, half_open_inflight, permanent_zero, permanent_error, normal, recovery,
  Circuit, initial, try_start, note_resolution, armed, opened, extended, turned_permanent, stale,
  observe_zero, observe_recovery_success, Call, starts, resolves, zeros, succeeds, fails, step, run,
}

-- When recovery is available, and which token is active.
pub record IsConsistent (c : Circuit) : Type 0 where
  pub enabled_available : c.state ≡ enabled → c.recovery_available ≡ true
  pub zero_available : c.state ≡ zero_open → c.recovery_available ≡ true
  pub active : c.state ≡ half_open_inflight → c.active_token ≡ some c.next_token
  pub inactive : c.state ≢ half_open_inflight → c.active_token ≡ none

step-IsConsistent : (c : Circuit) (x : Call) → IsConsistent c → IsConsistent (step c x)
unfolding step
step-IsConsistent c (starts i b) h = ground arith
step-IsConsistent c (resolves i) h = ground arith
step-IsConsistent c (zeros (normal e) i) h = ground arith
step-IsConsistent c (zeros (recovery e t) i) h = ground arith
step-IsConsistent c (succeeds (normal e)) h = ground arith
step-IsConsistent c (succeeds (recovery e t)) h = ground arith
step-IsConsistent c (fails a) h = ground arith

run-IsConsistent : (c : Circuit) (xs : List Call) → IsConsistent c → IsConsistent (run c xs)
unfolding run
run-IsConsistent c [] h = h
run-IsConsistent c (x ∷ xs) h = run-IsConsistent (step c x) xs (step-IsConsistent c x h)

initial-IsConsistent : IsConsistent initial
initial-IsConsistent = ground arith

-- A call changes the epoch upwards only.
step-epoch_mono : (c : Circuit) (x : Call) → c.epoch ≤ (step c x).epoch
unfolding step
step-epoch_mono c (starts i b) = ground arith
step-epoch_mono c (resolves i) = ground arith
step-epoch_mono c (zeros (normal e) i) = ground arith
step-epoch_mono c (zeros (recovery e t) i) = ground arith
step-epoch_mono c (succeeds (normal e)) = ground arith
step-epoch_mono c (succeeds (recovery e t)) = ground arith
step-epoch_mono c (fails a) = ground arith

run-epoch_mono : (c : Circuit) (xs : List Call) → c.epoch ≤ (run c xs).epoch
unfolding run
run-epoch_mono c [] = omega arith
run-epoch_mono c (x ∷ xs) = omega (arith, step-epoch_mono c x, run-epoch_mono (step c x) xs)

step-eligible_mono : (c : Circuit) (x : Call) → c.eligible_after ≤ (step c x).eligible_after
unfolding step
step-eligible_mono c (starts i b) = ground arith
step-eligible_mono c (resolves i) = ground arith
step-eligible_mono c (zeros (normal e) i) = ground arith
step-eligible_mono c (zeros (recovery e t) i) = ground arith
step-eligible_mono c (succeeds (normal e)) = ground arith
step-eligible_mono c (succeeds (recovery e t)) = ground arith
step-eligible_mono c (fails a) = ground arith

run-eligible_mono : (c : Circuit) (xs : List Call) → c.eligible_after ≤ (run c xs).eligible_after
unfolding run
run-eligible_mono c [] = omega arith
run-eligible_mono c (x ∷ xs) =
    omega (arith, step-eligible_mono c x, run-eligible_mono (step c x) xs)

-- What `tryStart` has checked and done when it admits a batch.
try_start-normal :
    (c : Circuit) (i : ℕ) (b : Bool) (e : ℕ)
    → (try_start c i b).1 ≡ some (normal e)
    → (e ≡ c.epoch) × ((try_start c i b).0 ≡ c)
unfolding try_start
try_start-normal c i b e h = ground arith

try_start-recovery :
    (c : Circuit) (i : ℕ) (b : Bool) (e t : ℕ)
    → (try_start c i b).1 ≡ some (recovery e t)
    → (c.epoch < e) × ((try_start c i b).0.epoch ≡ e) × (c.eligible_after ≤ i)
unfolding try_start
try_start-recovery c i b e t h = ground arith

observe_zero-old : (c : Circuit) (e i : ℕ) → e < c.epoch → observe_zero c (normal e) i ≡ (c, stale)
unfolding observe_zero
observe_zero-old c e i h = ground arith

observe-old_recovery :
    (c : Circuit) (e t i : ℕ)
    → e < c.epoch
    → (observe_zero c (recovery e t) i ≡ (c, stale))
      × (observe_recovery_success c (recovery e t) ≡ (c, false))
unfolding observe_zero observe_recovery_success
observe-old_recovery c e t i h = (ground arith, ground arith)

-- A batch is admitted as a normal attempt; calls follow; a recovery is admitted; more calls follow.
-- Then a zero result of the first batch is stale and changes nothing.
pub late_zero_harmless :
    (c : Circuit) (xs ys : List Call) (i i' last e e' t : ℕ) (b b' : Bool)
    → (try_start c i b).1 ≡ some (normal e)
    → (try_start (run c xs) i' b').1 ≡ some (recovery e' t)
    → let d = run (try_start (run c xs) i' b').0 ys in observe_zero d (normal e) last ≡ (d, stale)
late_zero_harmless c xs ys i i' last e e' t b b' first second =
    let (same, _) = try_start-normal c i b e first in
    let (up, at, _) = try_start-recovery (run c xs) i' b' e' t second in
    observe_zero-old _ e last
      (omega (arith, run-epoch_mono c xs, run-epoch_mono (try_start (run c xs) i' b').0 ys))

-- A recovery is admitted; calls follow; another recovery is admitted; more calls follow. Then the
-- result of the first recovery, zero or not, is ignored and changes nothing.
pub late_recovery_harmless :
    (c : Circuit) (xs ys : List Call) (i i' last e e' t t' : ℕ) (b b' : Bool)
    → (try_start c i b).1 ≡ some (recovery e t)
    → (try_start (run (try_start c i b).0 xs) i' b').1 ≡ some (recovery e' t')
    → let d = run (try_start (run (try_start c i b).0 xs) i' b').0 ys in
      (observe_zero d (recovery e t) last ≡ (d, stale))
      × (observe_recovery_success d (recovery e t) ≡ (d, false))
late_recovery_harmless c xs ys i i' last e e' t t' b b' first second =
    let start = (try_start c i b).0 in
    let (_, at, _) = try_start-recovery c i b e t first in
    let (up, at', _) = try_start-recovery (run start xs) i' b' e' t' second in
    observe-old_recovery _ e t last
      (omega (arith, run-epoch_mono start xs, run-epoch_mono (try_start (run start xs) i' b').0 ys))

-- The call opens, extends or arms the circuit at an index.
abbrev pub Marks : Circuit → ℕ → Call → Type 0
Marks c last (zeros a i) =
    (i ≡ last) × (((observe_zero c a i).1 ≡ opened) ⊎ ((observe_zero c a i).1 ≡ extended))
Marks c last (resolves i) = (i ≡ last) × ((note_resolution c i).1 ≡ armed)
Marks c last _ = ⊥

marked : (c : Circuit) (x : Call) (last : ℕ) → Marks c last x → last < (step c x).eligible_after
unfolding step
marked c (zeros (normal e) i) last m = ground arith
marked c (zeros (recovery e t) i) last m = ground arith
marked c (resolves i) last m = ground arith
marked c (starts i b) last m = absurd m
marked c (succeeds a) last m = absurd m
marked c (fails a) last m = absurd m

-- The circuit opens or is extended at an index, or is armed at one; calls follow; a recovery is
-- admitted. Then it starts behind that index.
pub recovery_starts_behind :
    (c : Circuit) (x : Call) (xs : List Call) (last i e t : ℕ) (b : Bool)
    → Marks c last x
    → (try_start (run c (x ∷ xs)) i b).1 ≡ some (recovery e t)
    → last < i
unfolding run
recovery_starts_behind c x xs last i e t b marks h =
    let (_, _, behind) = try_start-recovery (run (step c x) xs) i b e t h in
    omega (arith, marked c x last marks, run-eligible_mono (step c x) xs)

abbrev pub IsPermanent : Circuit → Type 0
IsPermanent c = (c.state ≡ permanent_zero) ⊎ (c.state ≡ permanent_error)

step-IsPermanent : (c : Circuit) (x : Call) → IsPermanent c → IsPermanent (step c x)
unfolding step
step-IsPermanent c (starts i b) h = ground arith
step-IsPermanent c (resolves i) h = ground arith
step-IsPermanent c (zeros (normal e) i) h = ground arith
step-IsPermanent c (zeros (recovery e t) i) h = ground arith
step-IsPermanent c (succeeds (normal e)) h = ground arith
step-IsPermanent c (succeeds (recovery e t)) h = ground arith
step-IsPermanent c (fails a) h = ground arith

run-IsPermanent : (c : Circuit) (xs : List Call) → IsPermanent c → IsPermanent (run c xs)
unfolding run
run-IsPermanent c [] h = h
run-IsPermanent c (x ∷ xs) h = run-IsPermanent (step c x) xs (step-IsPermanent c x h)

refuses : (c : Circuit) (i : ℕ) (b : Bool) → IsPermanent c → try_start c i b ≡ (c, none)
unfolding try_start
refuses c i b h = ground arith

not_permanent :
    (c : Circuit) (e i : ℕ) → IsConsistent c → (observe_zero c (normal e) i).1 ≢ turned_permanent
unfolding observe_zero
not_permanent c e i h = ground arith

-- Once a call has made the circuit permanent, no later call admits a batch.
pub permanent_refuses :
    (c : Circuit) (xs : List Call) (i : ℕ) (b : Bool)
    → IsPermanent c
    → try_start (run c xs) i b ≡ (run c xs, none)
permanent_refuses c xs i b h = refuses (run c xs) i b (run-IsPermanent c xs h)

-- A zero result of a normal attempt leaves a circuit that is not permanent so.
zero-not-IsPermanent :
    (c : Circuit) (e i : ℕ)
    → IsConsistent c
    → ¬ IsPermanent c
    → ¬ IsPermanent (observe_zero c (normal e) i).0
unfolding observe_zero
zero-not-IsPermanent c e i h p = ground arith

-- In any history of the circuit a zero result of a normal attempt is not answered with "permanent",
-- and the circuit is not in a permanent state behind it, unless it was before.
pub normal_zero_not-IsPermanent :
    (xs : List Call) (e i : ℕ)
    → ((observe_zero (run initial xs) (normal e) i).1 ≢ turned_permanent)
      × (¬ IsPermanent (run initial xs)
          → ¬ IsPermanent (observe_zero (run initial xs) (normal e) i).0)
normal_zero_not-IsPermanent xs e i =
    let h = run-IsConsistent initial xs initial-IsConsistent in
    (not_permanent (run initial xs) e i h, zero-not-IsPermanent (run initial xs) e i h)
