-- ===== src/Playback/Backoff.antt =====
-- playbackLifecycle.ts: `boundedBackoffDelay`, `createBoundedRetryBudget` and
-- `createKeyedRetryBackoff`.  Options, times and attempts are natural numbers; keys are numbers.
use native.Mathlib.Nat.{mul-le-mul_left, pow-suc, pow-zero}
use peerbit_examples.Prelude.{
  ℕ, subst, zero, suc, ◌+◌, ◌-◌, ◌*◌, ◌^◌, ◌≤◌, ◌≡◌, ◌≢◌, refl, ap, sym, ◌∙◌, max, min, Bool, true,
  false, not, List, [], ◌∷◌, Option, none, some, arith, leb, ◌==◌, if◌then◌else◌, if-true, if-false,
  Bool-cases, inl, inr, is_some,
}

pub record BackoffOptions : Type 0 where
  pub initial_delay_ms : ℕ
  pub maximum_delay_ms : ℕ
  pub factor : ℕ

unfoldable pub initial_delay : BackoffOptions → ℕ
initial_delay options = max 1 options.initial_delay_ms

unfoldable pub maximum_delay : BackoffOptions → ℕ
maximum_delay options = max (initial_delay options) options.maximum_delay_ms

unfoldable pub bounded_backoff_delay : ℕ → BackoffOptions → ℕ
bounded_backoff_delay attempt options =
    min (maximum_delay options) (initial_delay options * max 1 options.factor ^ attempt)

pub record RetryBudget : Type 0 where
  pub options : BackoffOptions
  pub maximum_attempts : ℕ
  pub attempt : ℕ

unfoldable pub exhausted : RetryBudget → Bool
exhausted b = leb b.maximum_attempts b.attempt

unfoldable pub next_delay : RetryBudget → RetryBudget × Option ℕ
next_delay b =
    if leb b.maximum_attempts b.attempt
    then (b, none)
    else (record b { attempt = b.attempt + 1 }, some (bounded_backoff_delay b.attempt b.options))

unfoldable pub reset : RetryBudget → RetryBudget
reset b = record b { attempt = 0 }

-- The delays of a number of calls.
unfoldable pub delays : ℕ → RetryBudget → List (Option ℕ)
delays zero b = []
delays (suc n) b = let (c, d) = next_delay b in d ∷ delays n c

-- The budget after a number of calls.
unfoldable pub called : ℕ → RetryBudget → RetryBudget
called zero b = b
called (suc n) b = called n (next_delay b).0

pub record Failure : Type 0 where
  pub key : ℕ
  pub consecutive_failures : ℕ
  pub retry_at : ℕ

unfoldable pub default_options : BackoffOptions
default_options = record { initial_delay_ms = 100; maximum_delay_ms = 5000; factor = 2 }

unfoldable pub get_failure : List Failure → ℕ → Option Failure
get_failure [] k = none
get_failure (f ∷ fs) k = if f.key == k then some f else get_failure fs k

unfoldable pub set_failure : List Failure → Failure → List Failure
set_failure [] g = g ∷ []
set_failure (f ∷ fs) g = if f.key == g.key then g ∷ fs else f ∷ set_failure fs g

unfoldable pub delete_failure : List Failure → ℕ → List Failure
delete_failure [] k = []
delete_failure (f ∷ fs) k = let rest = delete_failure fs k in if f.key == k then rest else f ∷ rest

abbrev pub is_due : Option Failure → ℕ → Bool
is_due none now = true
is_due (some f) now = leb f.retry_at now

unfoldable pub can_attempt : List Failure → ℕ → ℕ → Bool
can_attempt fs now k = is_due (get_failure fs k) now

abbrev pub failures_of : Option Failure → ℕ
failures_of none = 0
failures_of (some f) = f.consecutive_failures

-- `now` is what the two readings of the clock give: one call records the failure.
unfoldable pub record_failure : BackoffOptions → List Failure → ℕ → ℕ → List Failure × ℕ
record_failure options fs now k =
    let failures = min 9007199254740991 (failures_of (get_failure fs k) + 1) in
    let delay = bounded_backoff_delay (failures - 1) options in
    (
      set_failure fs (record { key = k; consecutive_failures = failures; retry_at = now + delay }),
      delay,
    )

unfoldable pub record_success : List Failure → ℕ → List Failure
record_success fs k = delete_failure fs k

unfoldable pub clear : List Failure → List Failure
clear fs = []

grows : (a b n : ℕ) → a * max 1 b ^ n ≤ a * max 1 b ^ suc n
grows a b n =
    let c = max 1 b in
    mul-le-mul_left a (
      subst (λ k. k ≤ c ^ suc n) (omega arith)
        (subst (λ k. c ^ n * 1 ≤ k) (sym (pow-suc c n)) (mul-le-mul_left (c ^ n) (omega arith))))

grown : (a b n : ℕ) → a ≤ a * max 1 b ^ n
grown a b zero = subst (λ k. a ≤ a * k) (sym (pow-zero (max 1 b))) (omega arith)
grown a b (suc n) = omega (arith, grown a b n, grows a b n)

-- A delay is at least the initial delay, which is positive, and at most the maximum, and a later
-- attempt does not wait less.
pub bounded_backoff_delay_bounds :
    (attempt : ℕ) (options : BackoffOptions)
    → (1 ≤ bounded_backoff_delay attempt options)
      × (initial_delay options ≤ bounded_backoff_delay attempt options)
      × (bounded_backoff_delay attempt options ≤ maximum_delay options)
      × (bounded_backoff_delay attempt options ≤ bounded_backoff_delay (suc attempt) options)
unfolding bounded_backoff_delay maximum_delay initial_delay
bounded_backoff_delay_bounds attempt options =
    let low = grown (initial_delay options) options.factor attempt in
    let up = grows (initial_delay options) options.factor attempt in
    (omega (arith, low), omega (arith, low), omega arith, omega (arith, up))

next_delay-spent :
    (b : RetryBudget) → leb b.maximum_attempts b.attempt ≡ true → (next_delay b).0 ≡ b
unfolding next_delay
next_delay-spent b e = simp e

next_delay-more :
    (b : RetryBudget)
    → leb b.maximum_attempts b.attempt ≡ false
    → (next_delay b).0 ≡ record b { attempt = b.attempt + 1 }
unfolding next_delay
next_delay-more b e = simp e

called_attempt :
    (n : ℕ) (b : RetryBudget)
    → b.attempt ≤ b.maximum_attempts
    → ((called n b).attempt ≡ min b.maximum_attempts (b.attempt + n))
      × ((called n b).maximum_attempts ≡ b.maximum_attempts)
unfolding called next_delay
called_attempt zero b h = (omega (arith, h), refl)
called_attempt (suc n) b h = elim (Bool-cases (leb b.maximum_attempts b.attempt)) [
  | inl e ↦
      let (p, q) = called_attempt n b h in
      subst Reached (sym (next_delay-spent b e)) (ground (arith, p), q)
  | inr e ↦
      let (p, q) = called_attempt n (record b { attempt = b.attempt + 1 }) (ground arith) in
      subst Reached (sym (next_delay-more b e)) (ground (arith, p), q)
]
  where
    Reached : RetryBudget → Type 0
    Reached c =
        ((called n c).attempt ≡ min b.maximum_attempts (b.attempt + suc n))
        × ((called n c).maximum_attempts ≡ b.maximum_attempts)

-- From a reset, exactly as many calls as the budget allows give a delay, and from then on the budget
-- is exhausted and gives none.
pub reset-exhausted :
    (n : ℕ) (b : RetryBudget)
    → (exhausted (called n (reset b)) ≡ leb b.maximum_attempts n)
      × (is_some (next_delay (called n (reset b))).1 ≡ not (leb b.maximum_attempts n))
unfolding exhausted next_delay reset
reset-exhausted n b =
    let (p, q) = called_attempt n (record b { attempt = 0 }) (omega arith) in
    (ground (arith, p, q), ground (arith, p, q))

get_failure-set_failure :
    (fs : List Failure) (g : Failure) (k : ℕ)
    → get_failure (set_failure fs g) k ≡ (if g.key == k then some g else get_failure fs k)
unfolding get_failure set_failure
get_failure-set_failure [] g k = refl
get_failure-set_failure (f ∷ fs) g k = ground (arith, get_failure-set_failure fs g k)

get_failure-delete_failure :
    (fs : List Failure) (j k : ℕ)
    → get_failure (delete_failure fs j) k ≡ (if j == k then none else get_failure fs k)
unfolding get_failure delete_failure
get_failure-delete_failure [] j k = ground arith
get_failure-delete_failure (f ∷ fs) j k = ground (arith, get_failure-delete_failure fs j k)

-- After a failure the key may be tried again once its delay has passed and not before; a success
-- admits it at once; another key is affected by neither.
pub record_failure-can_attempt :
    (options : BackoffOptions) (fs : List Failure) (now later j k : ℕ)
    → j ≢ k
    → (can_attempt (record_failure options fs now k).0 later k
        ≡ leb (now + (record_failure options fs now k).1) later)
      × (can_attempt (record_success fs k) later k ≡ true)
      × (can_attempt (record_failure options fs now k).0 later j ≡ can_attempt fs later j)
      × (can_attempt (record_success fs k) later j ≡ can_attempt fs later j)
unfolding can_attempt record_failure record_success
record_failure-can_attempt options fs now later j k ne =
    let same : (k == k) ≡ true = ground arith in
    let apart : (k == j) ≡ false = ground arith in
    (
      ap (λ (o : Option Failure). is_due o later)
          (get_failure-set_failure fs _ k ∙ if-true _ _ _ same),
      ap (λ (o : Option Failure). is_due o later)
          (get_failure-delete_failure fs k k ∙ if-true _ _ _ same),
      ap (λ (o : Option Failure). is_due o later)
          (get_failure-set_failure fs _ j ∙ if-false _ _ _ apart),
      ap (λ (o : Option Failure). is_due o later)
          (get_failure-delete_failure fs k j ∙ if-false _ _ _ apart),
    )
