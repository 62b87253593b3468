-- ===== src/FileShare/ReadScheduling/Circuit/Tests.antt =====
-- Runs of `ManifestHeadBatchCircuit`.
use peerbit_examples.Prelude.{◌<◌, ◌≡◌, ◌≢◌, refl, true, false, List, [], ◌∷◌, none, inl, inr}
use peerbit_examples.FileShare.ReadScheduling.Circuit.{
  normal, recovery, Circuit, initial, try_start, observe_zero, observe_recovery_success,
  half_open_ready, permanent_error, stale, turned_permanent, Call, resolves, zeros, succeeds, step,
  run,
}
use peerbit_examples.FileShare.ReadScheduling.Circuit.Laws.{
  IsPermanent, late_zero_harmless, late_recovery_harmless, recovery_starts_behind,
  permanent_refuses, normal_zero_not-IsPermanent,
}

-- A batch is admitted; another finds nothing and opens the circuit, and the head at 9 arms it.
abbrev opening : List Call
opening = zeros (normal 0) 7 ∷ resolves 9 ∷ []

late_zero_harmless_example :
    let d = run (try_start (run initial opening) 10 true).0 (succeeds (recovery 1 1) ∷ []) in
    observe_zero d (normal 0) 3 ≡ (d, stale)
unfolding run step try_start
late_zero_harmless_example =
    late_zero_harmless initial opening (succeeds (recovery 1 1) ∷ []) 0 10 3 0 1 1 true true refl
      refl

abbrev ready : Circuit
ready = record initial { state = half_open_ready; eligible_after = 10; recovery_available = false }

-- A first recovery succeeds; the circuit opens and is armed again, and a second starts.
abbrev reopening : List Call
reopening = succeeds (recovery 1 1) ∷ zeros (normal 1) 12 ∷ resolves 13 ∷ []

late_recovery_harmless_example :
    let d = run (try_start (run (try_start ready 10 true).0 reopening) 14 true).0 [] in
    (observe_zero d (recovery 1 1) 11 ≡ (d, stale))
    × (observe_recovery_success d (recovery 1 1) ≡ (d, false))
unfolding run step try_start
late_recovery_harmless_example =
    late_recovery_harmless ready reopening [] 10 14 11 1 2 1 2 true true refl refl

recovery_starts_behind_example : 7 < 10
unfolding run step try_start
recovery_starts_behind_example =
    recovery_starts_behind initial (zeros (normal 0) 7) (resolves 9 ∷ []) 7 10 1 1 true
      (refl, inl refl) refl

abbrev failed : Circuit
failed = record initial { state = permanent_error; epoch = 1 }

permanent_refuses_example :
    try_start (run failed (succeeds (recovery 1 1) ∷ resolves 4 ∷ [])) 5 true
    ≡ (run failed (succeeds (recovery 1 1) ∷ resolves 4 ∷ []), none)
permanent_refuses_example =
    permanent_refuses failed (succeeds (recovery 1 1) ∷ resolves 4 ∷ []) 5 true (inr refl)

normal_zero_not-IsPermanent_example :
    ((observe_zero (run initial opening) (normal 0) 8).1 ≢ turned_permanent)
    × (¬ IsPermanent (run initial opening)
        → ¬ IsPermanent (observe_zero (run initial opening) (normal 0) 8).0)
normal_zero_not-IsPermanent_example = normal_zero_not-IsPermanent opening 0 8
