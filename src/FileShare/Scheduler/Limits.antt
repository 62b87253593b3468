-- ===== src/FileShare/Scheduler/Limits.antt =====
-- The limits of `FairTransferScheduler` under its calls.
use peerbit_examples.Prelude.{
  ℕ, ◌≡◌, refl, ◌∙◌, inl, inr, Bool, true, false, List, [], ◌∷◌, Option, if◌then◌else◌,
  Option-cases,
}
use peerbit_examples.FileShare.Scheduler.Owners.{Lane, Request, get}
use peerbit_examples.FileShare.Scheduler.State.{Scheduler, Reason, is_settled}
use peerbit_examples.FileShare.Scheduler.Pump.{grant, shift_owner, unschedule_owner}
use peerbit_examples.FileShare.Scheduler.Permits.{release_part}
use peerbit_examples.FileShare.Scheduler.Requests.{
  settle_queue, drop_reserved, reject, reject_all, detach_owner, queue_request,
}
use peerbit_examples.FileShare.Scheduler.{Call, run}
use peerbit_examples.FileShare.Scheduler.Rule.Calls.{CallRule, run-P}

module _ (count bytes : ℕ) (lanes : Lane → Option ℕ) where
  pub record HasLimits (s : Scheduler) : Type 0 where
    pub count_limit : s.count_limit ≡ count
    pub byte_limit : s.byte_limit ≡ bytes
    pub lane_limits : s.lane_limits ≡ lanes

  same :
      {s : Scheduler} (t : Scheduler)
      → HasLimits s
      → t.count_limit ≡ s.count_limit
      → t.byte_limit ≡ s.byte_limit
      → t.lane_limits ≡ s.lane_limits
      → HasLimits t
  same t h c b l = record {
    count_limit = c ∙ h.count_limit;
    byte_limit = b ∙ h.byte_limit;
    lane_limits = l ∙ h.lane_limits;
  }

  shift_owner-HasLimits :
      (s : Scheduler) (k : ℕ) (rs : List Request) → HasLimits s → HasLimits (shift_owner s k rs)
  unfolding shift_owner
  shift_owner-HasLimits s k [] h = same _ h refl refl refl
  shift_owner-HasLimits s k (q ∷ qs) h = same _ h refl refl refl

  settle_queue-HasLimits :
      (s : Scheduler) (k : ℕ) (rs : List Request) → HasLimits s → HasLimits (settle_queue s k rs)
  unfolding settle_queue unschedule_owner
  settle_queue-HasLimits s k [] h = same _ h refl refl refl
  settle_queue-HasLimits s k (q ∷ qs) h = elim (Option-cases (get k s.owners)) [
    | inl e ↦ rw (e, settle_queue) h
    | inr (o, e) ↦ rw (e, settle_queue) (same _ h refl refl refl)
  ]

  reject_all-HasLimits :
      (reason : Reason) (rs : List Request) (s : Scheduler)
      → HasLimits s
      → HasLimits (reject_all reason rs s)
  unfolding reject_all
  reject_all-HasLimits reason [] s h = h
  reject_all-HasLimits reason (r ∷ rs) s h =
      reject_all-HasLimits reason rs _ (reject_one (is_settled r.id s.settlements))
    where
      reject_one : (b : Bool) → HasLimits (if b then s else reject s r.id reason)
      reject_one true = h
      reject_one false = same _ h refl refl refl

  HasLimits-CallRule : CallRule HasLimits
  HasLimits-CallRule = record {
    rule = record {
      rotates = λ s ks h. same _ h refl refl refl;
      reserves = λ s r h. same _ h refl refl refl;
      flags = λ s k o b e h. same _ h refl refl refl;
      drops = λ s k o e q h. same _ h refl refl refl;
      grants = λ s k r rs o e q fits h.
          unfold grant in same _ (shift_owner-HasLimits s k rs h) refl refl refl;
    };
    releases = λ s p count bytes e c b h. unfold release_part in same _ h refl refl refl;
    queues = λ s r a h. unfold queue_request in same _ h refl refl refl;
    withdraws = λ s r o reason new e queued h.
        same _ (settle_queue-HasLimits (drop_reserved s r.id) r.owner _ (same _ h refl refl refl))
          refl refl refl;
    detaches = λ s k o reason e h.
        reject_all-HasLimits reason o.requests _
          (unfold detach_owner unschedule_owner in same _ h refl refl refl);
    closings = λ s reason h. same _ h refl refl refl;
  }

  pub run-HasLimits : (s : Scheduler) (cs : List Call) → HasLimits s → HasLimits (run s cs)
  run-HasLimits = run-P HasLimits HasLimits-CallRule
