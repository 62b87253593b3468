-- ===== src/FileShare/Scheduler/State.antt =====
-- packages/file-share/library/src/transfer-scheduling.ts: the values and the fields of
-- `FairTransferScheduler`.
use peerbit_examples.Prelude.{
  ℕ, Bool, true, false, not, ◌&&◌, List, [], ◌∷◌, Option, none, some, ◌==◌, if◌then◌else◌, ltb,
  or_else,
}
use peerbit_examples.FileShare.Scheduler.Owners.{Lane, default, local, remote, Request, Owner}

-- A JavaScript number: a natural number, or any other (negative, fractional, infinite, NaN).
pub data Number : Type 0 where
  natural : ℕ → Number
  other : Number

-- `Number.MAX_SAFE_INTEGER + 1`
abbrev pub safe_end : ℕ
safe_end = 9007199254740992

-- What an `AbortSignal` holds as its reason.
pub data AbortValue : Type 0 where
  error_value : ℕ → AbortValue
  other_value : ℕ → AbortValue

-- `aborted` holds the reason of a signal that is aborted.
pub record Signal : Type 0 where
  pub aborted : Option AbortValue

pub data Fault : Type 0 where
  bytes_negative bytes_over_limit count_not_positive count_over_limit bad_release : Fault
  queued_transfers : Fault

-- Why a promise is rejected: an error of the code's own, one that the caller gave, or a
-- cancellation with its cause.
pub data Reason : Type 0 where
  range_error : Fault → Reason
  given : ℕ → Reason
  cancelled : Option AbortValue → Reason

unfoldable pub abort_reason : Option Signal → Reason
abort_reason none = cancelled none
abort_reason (some signal) = elim signal.aborted [
  | none ↦ cancelled none
  | some (error_value n) ↦ given n
  | some (other_value n) ↦ cancelled (some (other_value n))
]

abbrev pub is_aborted : Option Signal → Bool
is_aborted none = false
is_aborted (some signal) = elim signal.aborted [ none ↦ false | some v ↦ true ]

-- The closure of a granted permit; `id` is the request's.
pub record Permit : Type 0 where
  pub id : ℕ
  pub lane : Lane
  pub count : ℕ
  pub bytes : ℕ

pub data Outcome : Type 0 where
  granted : Outcome
  rejected : Reason → Outcome

pub record Settlement : Type 0 where
  pub id : ℕ
  pub outcome : Outcome

-- The private fields. `permits` and `settlements` stand for the closures that are handed out and
-- for the promises that are settled, `next_id` for the identity of the next request object.
pub record Scheduler : Type 0 where
  pub count_limit : ℕ
  pub byte_limit : ℕ
  pub lane_limits : Lane → Option ℕ
  pub owners : List Owner
  pub rotation : List ℕ
  pub lane_counts : Lane → Option ℕ
  pub active_count : ℕ
  pub active_bytes : ℕ
  pub peak_count : ℕ
  pub peak_bytes : ℕ
  pub pending_count : ℕ
  pub closed_reason : Option Reason
  pub reserved : Option Request
  pub last_granted : Option ℕ
  pub next_id : ℕ
  pub permits : List Permit
  pub settlements : List Settlement

abbrev pub same_lane : Lane → Lane → Bool
same_lane default default = true
same_lane local local = true
same_lane remote remote = true
same_lane _ _ = false

-- `activeLaneCounts.get(lane) ?? 0`
abbrev pub lane_count : Scheduler → Lane → ℕ
lane_count s lane = or_else (s.lane_counts lane) 0

abbrev pub set_lane : Lane → Option ℕ → (Lane → Option ℕ) → Lane → Option ℕ
set_lane lane v counts l = if same_lane lane l then v else counts l

-- The state of a new scheduler.
abbrev pub new : ℕ → ℕ → (Lane → Option ℕ) → Scheduler
new count bytes lanes = record {
  count_limit = count;
  byte_limit = bytes;
  lane_limits = lanes;
  owners = [];
  rotation = [];
  lane_counts = λ l. none;
  active_count = 0;
  active_bytes = 0;
  peak_count = 0;
  peak_bytes = 0;
  pending_count = 0;
  closed_reason = none;
  reserved = none;
  last_granted = none;
  next_id = 0;
  permits = [];
  settlements = [];
}

unfoldable pub is_limit : ℕ → Bool
is_limit n = ltb n safe_end && ltb 0 n

-- The constructor, which throws on a limit that is not a positive safe integer.
unfoldable pub init : Number → Number → (Lane → Option ℕ) → Option Scheduler
unfolding is_limit
init (natural c) (natural b) lanes =
    if not (is_limit c) then none else if not (is_limit b) then none else some (new c b lanes)
init _ _ lanes = none

-- `request.settled`: every assignment of it goes with a settlement of the request's promise.
unfoldable pub is_settled : ℕ → List Settlement → Bool
is_settled k [] = false
is_settled k (x ∷ xs) = if x.id == k then true else is_settled k xs

-- What a method that may throw returns.
pub data Result : Type 0 where
  ok : Scheduler → Result
  thrown : Fault → Result
