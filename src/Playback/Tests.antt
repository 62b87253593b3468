-- ===== src/Playback/Tests.antt =====
-- Backoffs, budgets and reconciliations of concrete values.
use peerbit_examples.Prelude.{
  ◌≡◌, ◌≤◌, ◌+◌, refl, arith, Bool, true, false, not, List, [], ◌∷◌, none, some, leb, is_some, suc,
}
use peerbit_examples.Playback.Lifecycle.{
  Callbacks, Lifecycle, Event, terminates, changes, is_current, terminate, happen_all,
  terminate_once,
}
use peerbit_examples.Playback.Backoff.{
  RetryBudget, default_options, initial_delay, maximum_delay, bounded_backoff_delay, exhausted,
  next_delay, called, reset, can_attempt, record_failure, record_success,
  bounded_backoff_delay_bounds, reset-exhausted, record_failure-can_attempt,
}
use peerbit_examples.Playback.Reconcile.{
  Resource, answered, applied_or, reconcile, apply_request, compare_requests, same_snapshot,
  reconcile_playback_request, reconcile_settled,
}

-- The caller's state is whether the controller was aborted.
abbrev callbacks : Callbacks Bool
callbacks = record {
  current_generation = λ w. 3;
  advance_generation = λ w. w;
  active_generation = λ w. some 3;
  clear_active_generation = λ w. w;
  is_aborted = λ w. w;
  abort = λ w r. true;
}

abbrev fresh : Lifecycle Bool
fresh = record { terminal = false; world = false }

abbrev events : List (Event Bool)
events = changes (λ w. false) ∷ terminates 1 ∷ changes (λ w. false) ∷ []

terminate_once_example :
    (is_current callbacks 3 (happen_all callbacks 3 events (terminate callbacks 3 0 fresh).0)
      ≡ false)
    × (terminate callbacks 3 2 (happen_all callbacks 3 events (terminate callbacks 3 0 fresh).0)
        ≡ (happen_all callbacks 3 events (terminate callbacks 3 0 fresh).0, false))
terminate_once_example = terminate_once callbacks 3 0 2 events fresh

bounded_backoff_delay_bounds_example :
    (1 ≤ bounded_backoff_delay 4 default_options)
    × (initial_delay default_options ≤ bounded_backoff_delay 4 default_options)
    × (bounded_backoff_delay 4 default_options ≤ maximum_delay default_options)
    × (bounded_backoff_delay 4 default_options ≤ bounded_backoff_delay (suc 4) default_options)
bounded_backoff_delay_bounds_example = bounded_backoff_delay_bounds 4 default_options

abbrev budget : RetryBudget
budget = record { options = default_options; maximum_attempts = 3; attempt = 2 }

reset-exhausted_example :
    (exhausted (called 3 (reset budget)) ≡ leb 3 3)
    × (is_some (next_delay (called 3 (reset budget))).1 ≡ not (leb 3 3))
reset-exhausted_example = reset-exhausted 3 budget

record_failure-can_attempt_example :
    (can_attempt (record_failure default_options [] 10 1).0 50 1
      ≡ leb (10 + (record_failure default_options [] 10 1).1) 50)
    × (can_attempt (record_success [] 1) 50 1 ≡ true)
    × (can_attempt (record_failure default_options [] 10 1).0 50 2 ≡ can_attempt [] 50 2)
    × (can_attempt (record_success [] 1) 50 2 ≡ can_attempt [] 50 2)
record_failure-can_attempt_example =
    record_failure-can_attempt default_options [] 10 50 2 1 (λ e. omega (arith, e))

-- The resource's state is whether it plays.
abbrev player : Resource Bool
player = record {
  is_current = λ w. true;
  read_request = λ w. record { request = 1; should_play = true };
  apply = λ w b. (b, true);
  is_applied = some (λ w b. w);
  sleep = λ w t. w;
}

plays : (reconcile_playback_request player none none false).1 ≡ answered true
unfolding reconcile_playback_request reconcile apply_request compare_requests same_snapshot
plays = refl

reconcile_settled_example :
    (player.is_current (reconcile_playback_request player none none false).0 ≡ true)
    × (applied_or true player.is_applied
          (reconcile_playback_request player none none false).0
          (player.read_request (reconcile_playback_request player none none false).0).should_play
        ≡ true)
reconcile_settled_example = reconcile_settled player none none false plays
