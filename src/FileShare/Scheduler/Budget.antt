-- ===== src/FileShare/Scheduler/Budget.antt =====
-- The budget of `FairTransferScheduler`: what the permits hold, and the limits; lemmas on `pump`.
pub mod Calls
use peerbit_examples.Prelude.{
  ℕ, zero, suc, ◌+◌, ◌-◌, ◌≤◌, ◌≡◌, refl, ap, ◌∙◌, inl, inr, Bool, true, false, not, ◌&&◌, ◌||◌,
  List, [], ◌∷◌, ◌++◌, Option, none, some, arith, ◌==◌, if◌then◌else◌, Option-cases, Bool-cases,
  leb, sum_by, All, or_else,
}
use peerbit_examples.FileShare.Scheduler.Owners.{
  Lane, default, local, remote, Request, Owner, get, put, remove, AllQueued, get-All, put-AllQueued,
  remove-AllQueued,
}
use peerbit_examples.FileShare.Scheduler.State.{Permit, Scheduler, lane_count, same_lane, set_lane}
use peerbit_examples.FileShare.Scheduler.Pump.{
  has_shared_capacity, has_lane_capacity, can_grant, grant, shift_owner, pump,
}
use peerbit_examples.FileShare.Scheduler.Rule.{Rule, pump-P}

abbrev pub on_lane : Lane → Permit → ℕ
on_lane l p = if same_lane p.lane l then p.count else 0

-- The counters are the sums over the permits, and no limit is exceeded.
pub record Books (count_limit byte_limit : ℕ) (lane_limits : Lane → Option ℕ)
    (active_count active_bytes : ℕ) (lane_counts : Lane → Option ℕ) (permits : List Permit)
    : Type 0 where
  pub count_used : active_count ≡ sum_by (λ p. p.count) permits
  pub bytes_used : active_bytes ≡ sum_by (λ p. p.bytes) permits
  pub lane_used : (l : Lane) → or_else (lane_counts l) 0 ≡ sum_by (on_lane l) permits
  pub count_bound : active_count ≤ count_limit
  pub bytes_bound : active_bytes ≤ byte_limit
  pub lane_bound : (l : Lane) (n : ℕ) → lane_limits l ≡ some n → or_else (lane_counts l) 0 ≤ n

abbrev pub Ledger : Scheduler → Type 0
Ledger s =
    Books s.count_limit s.byte_limit s.lane_limits s.active_count s.active_bytes s.lane_counts
      s.permits

-- The queued requests fit the byte limit, which `acquire` checks.
abbrev pub Fits : Scheduler → Type 0
Fits s = AllQueued (λ r. r.bytes ≤ s.byte_limit) s.owners

pub record Budget (s : Scheduler) : Type 0 where
  pub ledger : Ledger s
  pub fits : Fits s

same_lane-eq : (a b : Lane) → same_lane a b ≡ true → a ≡ b
same_lane-eq a b e = ground arith

lane_count-grant :
    (s : Scheduler) (r : Request) (l : Lane)
    → lane_count (grant s r) l ≡ lane_count s l + (if same_lane r.lane l then r.count else 0)
unfolding grant
lane_count-grant s r l = elim (Bool-cases (same_lane r.lane l)) [
  | inl same ↦ rw same (ap (λ k. lane_count s k + r.count) (same_lane-eq r.lane l same))
  | inr other ↦ rw other (omega arith)
]

lane_bound-grant :
    (s : Scheduler) (r : Request) (l : Lane) (n : ℕ)
    → has_lane_capacity s r ≡ true
    → (s.lane_limits l ≡ some n → lane_count s l ≤ n)
    → s.lane_limits l ≡ some n
    → lane_count s l + (if same_lane r.lane l then r.count else 0) ≤ n
unfolding has_lane_capacity
lane_bound-grant s r l n free h e = elim (Bool-cases (same_lane r.lane l)) [
  | inl same ↦ rw same (ground (arith, same_lane-eq r.lane l same))
  | inr other ↦ rw other (omega (arith, h e))
]

grant-Ledger :
    (s : Scheduler) (r : Request)
    → can_grant s r ≡ true
    → r.bytes ≤ s.byte_limit
    → Ledger s
    → Ledger (grant s r)
grant-Ledger s r fits small h = record {
  count_used = unfold grant in omega (arith, h.count_used);
  bytes_used = unfold grant in omega (arith, h.bytes_used);
  lane_used = λ l. lane_count-grant s r l ∙ unfold grant in omega (arith, h.lane_used l);
  count_bound = unfold grant can_grant has_shared_capacity in ground (arith, h.count_bound);
  bytes_bound = unfold grant can_grant has_shared_capacity in ground (arith, h.bytes_bound);
  lane_bound = λ l n e. rw (lane_count-grant s r l) (
      lane_bound-grant s r l n (unfold can_grant in ground arith) (h.lane_bound l n)
        (unfold grant in e));
}

shift_owner-Ledger :
    (s : Scheduler) (k : ℕ) (rs : List Request) → Ledger s → Ledger (shift_owner s k rs)
unfolding shift_owner
shift_owner-Ledger s k [] h = h
shift_owner-Ledger s k (q ∷ qs) h = h

shift_owner-Fits :
    (s : Scheduler) (k : ℕ) (rs : List Request)
    → All (λ r. r.bytes ≤ s.byte_limit) rs
    → Fits s
    → Fits (shift_owner s k rs)
unfolding shift_owner
shift_owner-Fits s k [] q h = remove-AllQueued _ k s.owners h
shift_owner-Fits s k (r ∷ rs) q h = put-AllQueued _ k (r ∷ rs) true s.owners q h

can_grant-shift_owner :
    (s : Scheduler) (r : Request) (k : ℕ) (rs : List Request)
    → can_grant (shift_owner s k rs) r ≡ can_grant s r
unfolding shift_owner can_grant
can_grant-shift_owner s r k [] = refl
can_grant-shift_owner s r k (q ∷ qs) = refl

byte_limit-shift_owner :
    (s : Scheduler) (k : ℕ) (rs : List Request) → (shift_owner s k rs).byte_limit ≡ s.byte_limit
unfolding shift_owner
byte_limit-shift_owner s k [] = refl
byte_limit-shift_owner s k (q ∷ qs) = refl

queued-Fits :
    (s : Scheduler) (k : ℕ) (o : Owner)
    → get k s.owners ≡ some o
    → Fits s
    → All (λ r. r.bytes ≤ s.byte_limit) o.requests
queued-Fits s k o e h = get-All (λ r. r.bytes ≤ s.byte_limit) k s.owners o e h

pub Budget-Rule : Rule Budget
Budget-Rule = record {
  rotates = λ s ks h. record { ledger = h.ledger; fits = h.fits };
  reserves = λ s r h. record { ledger = h.ledger; fits = h.fits };
  flags = λ s k o b e h. record {
    ledger = h.ledger;
    fits = put-AllQueued _ k o.requests b s.owners (queued-Fits s k o e h.fits) h.fits;
  };
  drops = λ s k o e q h. record { ledger = h.ledger; fits = remove-AllQueued _ k s.owners h.fits };
  grants = λ s k r rs o e q fits h.
      let queue = rw q at (queued-Fits s k o e h.fits) in
      record {
        ledger =
            grant-Ledger (shift_owner s k rs) r (can_grant-shift_owner s r k rs ∙ fits)
              (rw (byte_limit-shift_owner s k rs) queue.0) (shift_owner-Ledger s k rs h.ledger);
        fits = unfold grant in shift_owner-Fits s k rs queue.1 h.fits;
      };
}

pub pump-Budget : (s : Scheduler) → Budget s → Budget (pump s)
pump-Budget = pump-P Budget Budget-Rule
