-- ===== src/Playback/Lifecycle.antt =====
-- playbackLifecycle.ts: `fencePlaybackGeneration`, `createPlaybackGenerationLifecycle` and
-- `fencePlaybackFailure`.  The generations stand with the caller, behind callbacks: what the callbacks
-- read and change is the type `W`.
use peerbit_examples.Prelude.{
  arith, ℕ, ◌≡◌, ap, Bool, true, false, not, ◌&&◌, List, [], ◌∷◌, Option, ◌==◌, if◌then◌else◌,
  is_id,
}

pub record Callbacks (W : Type 0) : Type 0 where
  pub current_generation : W → ℕ
  pub advance_generation : W → W
  pub active_generation : W → Option ℕ
  pub clear_active_generation : W → W
  pub is_aborted : W → Bool
  pub abort : W → ℕ → W

pub record Lifecycle (W : Type 0) : Type 0 where
  pub terminal : Bool
  pub world : W

-- What may happen to a lifecycle: it is terminated, or the caller's state changes.
pub data Event (W : Type 0) : Type 0 where
  terminates : ℕ → Event W
  changes : (W → W) → Event W

module _ {W : Type 0} (callbacks : Callbacks W) (generation : ℕ) where
  unfoldable pub advanced : W → W
  advanced w =
      if callbacks.current_generation w == generation then callbacks.advance_generation w else w

  unfoldable pub cleared : W → W
  cleared w =
      if is_id (callbacks.active_generation w) generation
      then callbacks.clear_active_generation w
      else w

  -- `fencePlaybackGeneration`; a reason is a number.
  unfoldable pub fence_generation : ℕ → W → W
  fence_generation reason w = callbacks.abort (cleared (advanced w)) reason

  unfoldable pub is_base_current : W → Bool
  is_base_current w =
      not (callbacks.is_aborted w)
      && (callbacks.current_generation w == generation)
      && is_id (callbacks.active_generation w) generation

  unfoldable pub is_current : Lifecycle W → Bool
  is_current l = not l.terminal && is_base_current l.world

  unfoldable pub terminate : ℕ → Lifecycle W → Lifecycle W × Bool
  terminate reason l = (
    if l.terminal then l else record { terminal = true; world = fence_generation reason l.world },
    is_current l,
  )

  unfoldable pub happen : Event W → Lifecycle W → Lifecycle W
  happen (terminates reason) l = (terminate reason l).0
  happen (changes f) l = record l { world = f l.world }

  unfoldable pub happen_all : List (Event W) → Lifecycle W → Lifecycle W
  happen_all [] l = l
  happen_all (e ∷ es) l = happen_all es (happen e l)

  terminal_stays :
      (es : List (Event W)) (l : Lifecycle W)
      → l.terminal ≡ true
      → (happen_all es l).terminal ≡ true
  unfolding happen_all happen terminate
  terminal_stays [] l e = e
  terminal_stays (terminates reason ∷ es) l e = terminal_stays es _ (simp e)
  terminal_stays (changes f ∷ es) l e = terminal_stays es _ e

  terminated : (reason : ℕ) (l : Lifecycle W) → (terminate reason l).0.terminal ≡ true
  unfolding terminate
  terminated reason l = ground arith

  terminal_fenced :
      (reason : ℕ) (l : Lifecycle W) → l.terminal ≡ true → terminate reason l ≡ (l, false)
  unfolding terminate is_current
  terminal_fenced reason l e = simp e

  -- Once terminated, a lifecycle is never current again, whatever happens to the caller's state and
  -- however often it is terminated: a further call fences nothing and answers that it was not current.
  pub terminate_once :
      (reason again : ℕ) (es : List (Event W)) (l : Lifecycle W)
      → (is_current (happen_all es (terminate reason l).0) ≡ false)
        × (terminate again (happen_all es (terminate reason l).0)
            ≡ (happen_all es (terminate reason l).0, false))
  unfolding is_current
  terminate_once reason again es l =
      let e = terminal_stays es (terminate reason l).0 (terminated reason l) in
      (
        ap (λ (b : Bool). not b && is_base_current (happen_all es (terminate reason l).0).world) e,
        terminal_fenced again _ e,
      )

-- How `fencePlaybackFailure` ends: not current, retired, or with the retirement's error.
pub data Fenced : Type 0 where
  not_current : Fenced
  retired : Fenced
  retirement_failed : Fenced

-- `fencePlaybackFailure`: `retire` may throw or reject, which is awaited behind the fence.
module _ {W : Type 0} (is_current_now : W → Bool) (retire : W → W × Bool) (fence : W → W) where
  unfoldable pub fence_playback_failure : W → W × Fenced
  fence_playback_failure w =
      let (x, is_done) = retire w in
      if is_current_now w
      then (fence x, (if is_done then retired else retirement_failed))
      else (w, not_current)
