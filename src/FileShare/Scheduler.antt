-- ===== src/FileShare/Scheduler.antt =====
-- packages/file-share/library/src/transfer-scheduling.ts: `FairTransferScheduler`.
-- Each method runs to its end before the next call, since none of them awaits.
pub mod Owners
pub mod State
pub mod Pump
pub mod Requests
pub mod Permits
pub mod Rule
pub mod Budget
mod Tests
pub mod Termination
pub mod Coverage
pub mod Progress
pub mod Settled
pub mod Waiting
pub mod Limits
pub mod History
pub mod Accounting
use peerbit_examples.Prelude.{ℕ, List, [], ◌∷◌, Option}
use Owners.{Lane, Request}
use State.{Number, Signal, Reason, Scheduler, Result, ok, thrown}
use Requests.{remove_pending, acquire, cancel_owner, close, reopen}
use Permits.{release}

-- A history of calls. An error leaves the scheduler as it was.
pub data Call : Type 0 where
  acquires : ℕ → Number → Lane → Option Signal → Number → Call
  releases : ℕ → Option Number → Option Number → Call
  aborts : Request → Reason → Call
  cancels : ℕ → Reason → Call
  closes : Reason → Call
  reopens : Call

abbrev pub after : Scheduler → Result → Scheduler
after s (ok t) = t
after s (thrown e) = s

pub step : Scheduler → Call → Scheduler
step s (acquires k bytes lane signal count) = (acquire s k bytes lane signal count).0
step s (releases k count bytes) = after s (release s k count bytes)
step s (aborts r reason) = remove_pending s r reason
step s (cancels k reason) = cancel_owner s k reason
step s (closes reason) = close s reason
step s reopens = after s (reopen s)

pub run : Scheduler → List Call → Scheduler
run s [] = s
run s (c ∷ cs) = run (step s c) cs
