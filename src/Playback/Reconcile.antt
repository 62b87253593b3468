-- ===== src/Playback/Reconcile.antt =====
-- playbackLifecycle.ts: `reconcilePlaybackRequest` and `runProgressCallback`.  The media resource and
-- the generation stand behind callbacks: what they read and change is the type `W`.  A wait, and an
-- awaited callback, may change all of it.
use peerbit_examples.Prelude.{
  ℕ, zero, suc, ◌≡◌, refl, bool_split, sym, ap, ◌∙◌, max, Bool, true, false, not, ◌&&◌, Option,
  none, some, arith, ltb, ◌==◌, if◌then◌else◌, or_else,
}

pub record Snapshot : Type 0 where
  pub request : ℕ
  pub should_play : Bool

pub record Resource (W : Type 0) : Type 0 where
  pub is_current : W → Bool
  pub read_request : W → Snapshot
  -- The next state, and whether the call ended without an error.
  pub apply : W → Bool → W × Bool
  pub is_applied : Option (W → Bool → Bool)
  pub sleep : W → ℕ → W

-- How the call ends: it answers, or throws.
pub data Reconciled : Type 0 where
  answered : Bool → Reconciled
  apply_failed : Reconciled
  not_applied : Reconciled
  unstable : Reconciled

abbrev pub same_bool : Bool → Bool → Bool
same_bool true b = b
same_bool false b = not b

unfoldable pub same_snapshot : Snapshot → Snapshot → Bool
same_snapshot a b = a.request == b.request && same_bool a.should_play b.should_play

-- `isApplied?.(shouldPlay)`, or the answer where there is no such callback.
abbrev pub applied_or : {W : Type 0} → Bool → Option (W → Bool → Bool) → W → Bool → Bool
applied_or d none w b = d
applied_or d (some f) w b = f w b

module _ {W : Type 0} (resource : Resource W) (retry_delay_ms : ℕ) where
  unfoldable pub apply_request : W → Snapshot → W × Bool
  apply_request w request =
      if applied_or false resource.is_applied w request.should_play
      then (w, true)
      else resource.apply w request.should_play

  -- The end of an attempt whose request did not change, or the wait and the attempts behind it.
  unfoldable pub compare_requests : W → Snapshot → W × Reconciled → W × Reconciled
  compare_requests w request rest =
      if same_snapshot request (resource.read_request w)
      then (
        w,
        if applied_or true resource.is_applied w request.should_play
            then answered true
            else not_applied,
      )
      else rest

  unfoldable pub reconcile : ℕ → W → W × Reconciled
  reconcile zero w = (w, if resource.is_current w then unstable else answered false)
  reconcile (suc fuel) w =
      let request = resource.read_request w in
      let (applied, is_done) = apply_request w request in
      let rest =
        reconcile fuel (if ltb 0 fuel then resource.sleep applied retry_delay_ms else applied) in
      if not (resource.is_current w)
      then (w, answered false)
      else if not is_done
      then (applied, apply_failed)
      else if not (resource.is_current applied)
      then (applied, answered false)
      else compare_requests applied request rest

  -- What an answer "true" means: the resource is current, and the last request is applied to it.
  IsSettled : W × Reconciled → Type 0
  IsSettled r =
      r.1 ≡ answered true
      → (resource.is_current r.0 ≡ true)
        × (applied_or true resource.is_applied r.0 (resource.read_request r.0).should_play ≡ true)

  same_snapshot-should_play :
      (a b : Snapshot) → same_snapshot a b ≡ true → a.should_play ≡ b.should_play
  unfolding same_snapshot
  same_snapshot-should_play a b e = ground arith

  applied_if : (b : Bool) → (if b then answered true else not_applied) ≡ answered true → b ≡ true
  applied_if true e = refl
  applied_if false e = cc

  compare_requests-IsSettled :
      (w : W) (request : Snapshot) (rest : W × Reconciled)
      → resource.is_current w ≡ true
      → IsSettled rest
      → IsSettled (compare_requests w request rest)
  unfolding compare_requests
  compare_requests-IsSettled w request rest c i =
      bool_split IsSettled (same_snapshot request (resource.read_request w))
        (λ s.
          unfold IsSettled in
          λ e. (
            c,
            ap (applied_or true resource.is_applied w)
                  (sym (same_snapshot-should_play request (resource.read_request w) s))
                ∙ applied_if _ e,
          ))
        (λ s. i)

  reconcile-IsSettled : (fuel : ℕ) (w : W) → IsSettled (reconcile fuel w)
  unfolding reconcile
  reconcile-IsSettled zero w =
      bool_split (λ r. IsSettled (w, r)) (resource.is_current w) (λ c. unfold IsSettled in λ e. cc)
        (λ c. unfold IsSettled in λ e. ground arith)
  reconcile-IsSettled (suc fuel) w =
      bool_split IsSettled (not (resource.is_current w))
        (λ c. unfold IsSettled in λ e. ground arith)
        (λ c.
          bool_split IsSettled (not (apply_request w (resource.read_request w)).1)
            (λ d. unfold IsSettled in λ e. cc)
            (λ d.
              bool_split IsSettled
                (not (resource.is_current (apply_request w (resource.read_request w)).0))
                (λ f. unfold IsSettled in λ e. ground arith)
                (λ f.
                  compare_requests-IsSettled _ _ _ (ground arith) (reconcile-IsSettled fuel _))))

-- `Math.max(1, maximumAttempts ?? 4)` attempts, with `Math.max(1, retryDelayMs ?? 16)` between them.
unfoldable pub reconcile_playback_request :
    {W : Type 0} → Resource W → Option ℕ → Option ℕ → W → W × Reconciled
reconcile_playback_request resource attempts delay w =
    reconcile resource (max 1 (or_else delay 16)) (max 1 (or_else attempts 4)) w

-- Where the reconciliation answers "true", the resource is current, and the request that stands then is
-- applied to it, as far as there is a callback that tells.
pub reconcile_settled :
    {W : Type 0} (resource : Resource W) (attempts delay : Option ℕ) (w : W)
    → (reconcile_playback_request resource attempts delay w).1 ≡ answered true
    → (resource.is_current (reconcile_playback_request resource attempts delay w).0 ≡ true)
      × (applied_or true resource.is_applied
            (reconcile_playback_request resource attempts delay w).0
            (resource.read_request
              (reconcile_playback_request resource attempts delay w).0).should_play
          ≡ true)
unfolding reconcile_playback_request IsSettled
reconcile_settled resource attempts delay w e =
    reconcile-IsSettled resource (max 1 (or_else delay 16)) (max 1 (or_else attempts 4)) w e

pub data ProgressCallbackResult : Type 0 where
  processed : ProgressCallbackResult
  deferred : ProgressCallbackResult
  failed : ProgressCallbackResult
  stale : ProgressCallbackResult

-- The callbacks of `runProgressCallback`; `none` of `process` is an error, `false` of a hook too.
pub record Hooks (W : Type 0) : Type 0 where
  pub is_current : W → Bool
  pub process : W → W × Option Bool
  pub on_processed : W → W × Bool
  pub on_deferred : W → W × Bool
  pub on_failure : W → W × Bool

module _ {W : Type 0} (hooks : Hooks W) where
  -- The `catch` block: an error of `onFailure` is dropped.
  unfoldable pub handle_error : W → W × ProgressCallbackResult
  handle_error w =
      let (x, is_done) = hooks.on_failure w in
      if hooks.is_current w then (x, failed) else (w, stale)

  unfoldable pub run_hook : W × Bool → ProgressCallbackResult → W × ProgressCallbackResult
  run_hook (w, true) result = (w, result)
  run_hook (w, false) result = handle_error w

  unfoldable pub after_process : W → Option Bool → W × ProgressCallbackResult
  after_process w none = handle_error w
  after_process w (some is_processed) =
      if not (hooks.is_current w)
      then (w, stale)
      else if is_processed
      then run_hook (hooks.on_processed w) processed
      else run_hook (hooks.on_deferred w) deferred

  unfoldable pub run_progress_callback : W → W × ProgressCallbackResult
  run_progress_callback w =
      let (x, outcome) = hooks.process w in
      if hooks.is_current w then after_process x outcome else (w, stale)
