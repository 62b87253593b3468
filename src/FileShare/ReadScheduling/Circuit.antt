-- ===== src/FileShare/ReadScheduling/Circuit.antt =====
-- packages/file-share/library/src/read-scheduling.ts: `ManifestHeadBatchCircuit`. An index is counted
-- from 1 in `eligible_after`, so that 0 stands for the source's -1.
pub mod Laws
mod Tests
use peerbit_examples.Prelude.{
  ℕ, suc, ◌+◌, ◌≡◌, max, Bool, true, false, not, ◌&&◌, ◌||◌, List, [], ◌∷◌, Option, none, some, ltb,
  leb, ◌==◌, if◌then◌else◌, is_id,
}

pub data CircuitState : Type 0 where
  enabled zero_open half_open_ready half_open_inflight permanent_zero permanent_error : CircuitState

pub data Attempt : Type 0 where
  normal : (epoch : ℕ) → Attempt
  recovery : (epoch token : ℕ) → Attempt

pub record Circuit : Type 0 where
  pub state : CircuitState
  pub epoch : ℕ
  pub eligible_after : ℕ
  pub recovery_available : Bool
  pub active_token : Option ℕ
  pub next_token : ℕ

abbrev pub initial : Circuit
initial = record {
  state = enabled;
  epoch = 0;
  eligible_after = 0;
  recovery_available = true;
  active_token = none;
  next_token = 0;
}

abbrev pub same_state : CircuitState → CircuitState → Bool
same_state enabled enabled = true
same_state zero_open zero_open = true
same_state half_open_ready half_open_ready = true
same_state half_open_inflight half_open_inflight = true
same_state permanent_zero permanent_zero = true
same_state permanent_error permanent_error = true
same_state _ _ = false

-- A recovery starts at an index behind those at which the circuit was opened or armed.
start_recovery : Circuit → Circuit × Option Attempt
start_recovery c = (
  record c {
    epoch = c.epoch + 1;
    next_token = c.next_token + 1;
    active_token = some (c.next_token + 1);
    state = half_open_inflight;
  },
  some (recovery (c.epoch + 1) (c.next_token + 1)),
)

pub try_start : Circuit → ℕ → Bool → Circuit × Option Attempt
unfolding start_recovery
try_start c start_index fetch_missing =
    if same_state c.state enabled
    then (c, some (normal c.epoch))
    else if not (same_state c.state half_open_ready)
        || not fetch_missing
        || ltb start_index c.eligible_after
    then (c, none)
    else start_recovery c

pub data Resolution : Type 0 where
  armed counted ignored : Resolution

pub note_resolution : Circuit → ℕ → Circuit × Resolution
note_resolution c index =
    if not (same_state c.state zero_open)
      && not (same_state c.state half_open_ready)
      && not (same_state c.state half_open_inflight)
    then (c, ignored)
    else if not (same_state c.state zero_open)
    then (c, counted)
    else (
      record c {
        recovery_available = false;
        eligible_after = max c.eligible_after (index + 1);
        state = half_open_ready;
      },
      armed,
    )

is_current_recovery : Circuit → ℕ → ℕ → Bool
is_current_recovery c epoch token =
    same_state c.state half_open_inflight && epoch == c.epoch && is_id c.active_token token

enter_permanent : Circuit → CircuitState → Circuit
enter_permanent c state = record c {
  epoch = if not (same_state c.state state) then c.epoch + 1 else c.epoch;
  active_token = none;
  state = state;
}

pub data ZeroResult : Type 0 where
  opened extended turned_permanent stale : ZeroResult

extend : Circuit → ℕ → Circuit
extend c last_index = record c {
  eligible_after = max c.eligible_after (last_index + 1);
  state = zero_open;
}

pub observe_zero : Circuit → Attempt → ℕ → Circuit × ZeroResult
unfolding is_current_recovery enter_permanent extend
observe_zero c (recovery epoch token) last_index =
    if not (is_current_recovery c epoch token)
    then (c, stale)
    else (enter_permanent c permanent_zero, turned_permanent)
observe_zero c (normal epoch) last_index =
    if not (epoch == c.epoch)
    then (c, stale)
    else if same_state c.state enabled
    then if not c.recovery_available
      then (enter_permanent c permanent_zero, turned_permanent)
      else (extend c last_index, opened)
    else if same_state c.state zero_open
    then (extend c last_index, extended)
    else (c, stale)

pub observe_recovery_success : Circuit → Attempt → Circuit × Bool
unfolding is_current_recovery
observe_recovery_success c (normal epoch) = (c, false)
observe_recovery_success c (recovery epoch token) =
    if not (is_current_recovery c epoch token)
    then (c, false)
    else (record c { active_token = none; recovery_available = true; state = enabled }, true)

pub observe_error : Circuit → Attempt → Circuit
unfolding enter_permanent
observe_error c attempt = enter_permanent c permanent_error

-- A history of calls, by any batches in any order.
pub data Call : Type 0 where
  starts : (start_index : ℕ) → (fetch_missing : Bool) → Call
  resolves : (index : ℕ) → Call
  zeros : Attempt → (last_index : ℕ) → Call
  succeeds : Attempt → Call
  fails : Attempt → Call

pub step : Circuit → Call → Circuit
unfolding try_start note_resolution observe_zero observe_recovery_success observe_error
step c (starts start_index fetch_missing) = (try_start c start_index fetch_missing).0
step c (resolves index) = (note_resolution c index).0
step c (zeros attempt last_index) = (observe_zero c attempt last_index).0
step c (succeeds attempt) = (observe_recovery_success c attempt).0
step c (fails attempt) = observe_error c attempt

pub run : Circuit → List Call → Circuit
run c [] = c
run c (x ∷ xs) = run (step c x) xs
