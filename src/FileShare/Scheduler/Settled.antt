-- ===== src/FileShare/Scheduler/Settled.antt =====
-- packages/file-share/library/src/transfer-scheduling.ts: what waits when `pump` of
-- `FairTransferScheduler` returns, over all queued owners.
use peerbit_examples.Prelude.{
  ℕ, ◌≡◌, ◌≢◌, refl, sym, subst, ◌∙◌, ◌⊎◌, inl, inr, Bool, true, List, [], ◌∷◌, none, some, ◌==◌,
  ==_iff, All, Bool-cases, if-false,
}
use peerbit_examples.FileShare.Scheduler.Owners.{Request, Owner, get}
use peerbit_examples.FileShare.Scheduler.State.{Scheduler}
use peerbit_examples.FileShare.Scheduler.Pump.{pump, grant, shift_owner}
use peerbit_examples.FileShare.Scheduler.Rule.{Rule, pump-P}
use peerbit_examples.FileShare.Scheduler.Coverage.{IsCovered, is_waiting, has}
use peerbit_examples.FileShare.Scheduler.Progress.{IsBlocked, IsReserving, pump-IsConserving}
use peerbit_examples.FileShare.Scheduler.Coverage.Rounds.{pump-IsCovered}

-- A reserved head request waits for the shared count or bytes, or every queued owner's head waits for its
-- lane.
abbrev pub IsServed : Scheduler → Type 0
IsServed s =
    IsReserving s
    ⊎ ((k : ℕ) (o : Owner) → get k s.owners ≡ some o → o.requests ≢ [] → IsBlocked s k)

pub record IsSettled (s : Scheduler) : Type 0 where
  pub covered : IsCovered s
  pub served : s.closed_reason ≡ none → IsServed s

has-All : (P : ℕ → Type 0) (j : ℕ) (ks : List ℕ) → has j ks ≡ true → All P ks → P j
unfolding has
has-All P j [] e h = cc
has-All P j (k ∷ ks) e h = elim (Bool-cases (k == j)) [
  | inl same ↦ subst P ((==_iff k j).0 same) h.0
  | inr differs ↦ has-All P j ks (sym (if-false _ _ _ differs) ∙ e) h.1
]

queued_waits : (o : Owner) → o.requests ≢ [] → is_waiting o ≡ true
unfolding is_waiting
queued_waits o q = cases o.requests refl
  where
    cases :
        (rs : List Request)
        → o.requests ≡ rs
        → (elim rs as (λ rs. Bool) [ [] ↦ o.scheduled | _ ∷ _ ↦ true ]) ≡ true
    cases [] e = absurd (q e)
    cases (r ∷ rs) e = refl

keeps_reason : (s : Scheduler) → Rule (λ t. t.closed_reason ≡ s.closed_reason)
unfolding grant shift_owner
keeps_reason s = record {
  rotates = λ t ks h. h;
  reserves = λ t r h. h;
  flags = λ t k o b e h. h;
  drops = λ t k o e q h. h;
  grants = λ t k r rs o e q fits h. granted t k r rs h;
}
  where
    granted :
        (t : Scheduler) (k : ℕ) (r : Request) (rs : List Request)
        → t.closed_reason ≡ s.closed_reason
        → (grant (shift_owner t k rs) r).closed_reason ≡ s.closed_reason
    granted t k r [] h = h
    granted t k r (q ∷ qs) h = h

pub pump-IsSettled : (s : Scheduler) → IsCovered s → IsSettled (pump s)
pump-IsSettled s c = record {
  covered = pump-IsCovered s c;
  served = λ e. elim (pump-IsConserving s (sym (pump-P _ (keeps_reason s) s refl) ∙ e)) [
    | inl reserving ↦ inl reserving
    | inr blocked ↦ inr (λ k o found q.
        has-All (IsBlocked (pump s)) k (pump s).rotation
          ((pump-IsCovered s c).all k o found (queued_waits o q)) blocked)
  ];
}
