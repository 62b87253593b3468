-- ===== src/FileShare/Scheduler/Coverage/Calls.antt =====
-- packages/file-share/library/src/transfer-scheduling.ts: the owners that stand in the rotation, under
-- the changes that the calls make before `pump`.
use peerbit_examples.Prelude.{
  ℕ, ◌≡◌, refl, sym, ap, subst, ◌∙◌, Bool, true, not, ◌&&◌, List, [], ◌∷◌, ◌++◌, Option, none, some,
  arith, ◌==◌, if◌then◌else◌, is_id, bool_split, option_split,
}
use peerbit_examples.FileShare.Scheduler.Owners.{
  Request, Owner, get, put, get-put, get-append, fresh_owner,
}
use peerbit_examples.FileShare.Scheduler.State.{Reason, Scheduler, is_settled}
use peerbit_examples.FileShare.Scheduler.Pump.{set_scheduled, unschedule_owner}
use peerbit_examples.FileShare.Scheduler.Requests.{
  has_request, settle_queue, rotate_last, schedule, with_owner, push_request, is_scheduled,
  queue_request, reject_all, detach_owner,
}
use peerbit_examples.FileShare.Scheduler.Coverage.{
  CoversBut, Covers, IsCovered, is_waiting, has, has-append, fresh-IsMap, Covers-remove, Covers-put,
  CoversBut-change, Covers-push, Covers-but, unschedule_owner-Covers,
}

-- `removePending`.

has_request-waits : (o : Owner) (k : ℕ) → has_request k o.requests ≡ true → is_waiting o ≡ true
unfolding is_waiting
has_request-waits o k h = cases o.requests h
  where
    cases :
        (rs : List Request)
        → has_request k rs ≡ true
        → (elim rs as (λ rs. Bool) [ [] ↦ o.scheduled | _ ∷ _ ↦ true ]) ≡ true
    cases [] e = unfold has_request in cc
    cases (r ∷ rs) e = refl

pub settle_queue-IsCovered :
    (s : Scheduler) (k i : ℕ) (o : Owner) (rs : List Request)
    → get k s.owners ≡ some o
    → has_request i o.requests ≡ true
    → IsCovered s
    → IsCovered (settle_queue s k rs)
unfolding settle_queue
settle_queue-IsCovered s k i o [] e h c =
    Covers-remove k (unschedule_owner s k).rotation (unschedule_owner s k).owners
      (unschedule_owner-Covers s k c)
settle_queue-IsCovered s k i o (q ∷ qs) e h c =
    option_split IsCovered (get k s.owners) (λ _. c)
      (λ p found.
        Covers-put k s.rotation (q ∷ qs) p.scheduled s.owners o e
          (c.all k o e (has_request-waits o i h)) (Covers-but k s.rotation s.owners c))

-- `cancelOwner`.

pub detach_owner-IsCovered : (s : Scheduler) (k : ℕ) → IsCovered s → IsCovered (detach_owner s k)
unfolding detach_owner
detach_owner-IsCovered s k c =
    Covers-remove k (unschedule_owner s k).rotation (unschedule_owner s k).owners
      (unschedule_owner-Covers s k c)

pub reject_all-IsCovered :
    (reason : Reason) (rs : List Request) (s : Scheduler)
    → IsCovered s
    → IsCovered (reject_all reason rs s)
unfolding reject_all
reject_all-IsCovered reason [] s c = c
reject_all-IsCovered reason (r ∷ rs) s c =
    reject_all-IsCovered reason rs _
      (bool_split IsCovered (is_settled r.id s.settlements) (λ _. c) (λ _. c))

-- `acquire`.

with_owner-Covers :
    (ks : List ℕ) (k : ℕ) (os : List Owner) → Covers ks os → Covers ks (with_owner k os)
unfolding with_owner
with_owner-Covers ks k os c =
    option_split (Covers ks) (get k os)
      (λ gone. record {
        map = fresh-IsMap k os gone c.map;
        all =
            λ j o e w. added j o (get j os) refl (sym (get-append j os (fresh_owner k ∷ [])) ∙ e) w;
      })
      (λ o found. c)
  where
    added :
        (j : ℕ) (o : Owner) (p : Option Owner)
        → get j os ≡ p
        → (elim p as (λ p. Option Owner) [ none ↦ get j (fresh_owner k ∷ []) | some q ↦ some q ])
          ≡ some o
        → is_waiting o ≡ true
        → has j ks ≡ true
    added j o none f e w = unfold get is_waiting in ground arith
    added j o (some q) f e w = c.all j o (f ∙ e) w

with_owner-found : (k : ℕ) (os : List Owner) → (o : Owner) × (get k (with_owner k os) ≡ some o)
unfolding with_owner get
with_owner-found k os =
    option_split (λ ps. (o : Owner) × (get k ps ≡ some o)) (get k os)
      (λ gone. (fresh_owner k, get-append k os (fresh_owner k ∷ []) ∙ ground (arith, gone)))
      (λ o found. (o, found))

rotate_last-IsCovered :
    (s : Scheduler) (k : ℕ) (ks : List ℕ)
    → s.rotation ≡ ks
    → IsCovered s
    → IsCovered (rotate_last s k ks)
unfolding rotate_last
rotate_last-IsCovered s k [] e c = c
rotate_last-IsCovered s k (g ∷ rest) e c =
    bool_split IsCovered (is_id s.last_granted g && not (k == g))
      (λ _. record { map = c.map; all = λ j o f w. turned j (ap (has j) (sym e) ∙ c.all j o f w) })
      (λ _. c)
  where
    turned : (j : ℕ) → has j (g ∷ rest) ≡ true → has j (rest ++ g ∷ []) ≡ true
    turned j h = unfold has in ground (arith, has-append j rest (g ∷ []))

schedule-Covers :
    (s : Scheduler) (k : ℕ) (o : Owner)
    → get k s.owners ≡ some o
    → CoversBut k s.rotation s.owners
    → IsCovered (schedule s k)
unfolding schedule set_scheduled
schedule-Covers s k o e c = rotate_last-IsCovered _ k _ refl (
    option_split (Covers (s.rotation ++ k ∷ [])) (get k s.owners) (λ gone. absurd (cc (gone, e)))
      (λ p found. Covers-push k s.rotation p.requests true s.owners p found c))

-- The request goes to the end of its owner's queue.
push_request-put :
    (k : ℕ) (r : Request) (os : List Owner) (o : Owner)
    → get k os ≡ some o
    → push_request k r os ≡ put k (o.requests ++ r ∷ []) o.scheduled os
unfolding push_request
push_request-put k r os o e = rw (e, push_request) refl

get-put_same :
    (k : ℕ) (rs : List Request) (b : Bool) (os : List Owner) (o : Owner)
    → get k os ≡ some o
    → get k (put k rs b os) ≡ some (record o { requests = rs; scheduled = b })
get-put_same k rs b os o e = get-put k k rs b os o e ∙ ground arith

is_scheduled-put :
    (k : ℕ) (rs : List Request) (b : Bool) (os : List Owner) (o : Owner)
    → get k os ≡ some o
    → is_scheduled k (put k rs b os) ≡ b
unfolding is_scheduled
is_scheduled-put k rs b os o e = rw (get-put_same k rs b os o e, is_scheduled) refl

scheduled_waits : (o : Owner) → o.scheduled ≡ true → is_waiting o ≡ true
unfolding is_waiting
scheduled_waits o h = cases o.requests
  where
    cases :
        (rs : List Request) → (elim rs as (λ rs. Bool) [ [] ↦ o.scheduled | _ ∷ _ ↦ true ]) ≡ true
    cases [] = h
    cases (r ∷ rs) = refl

-- A request is queued: its owner is scheduled, if it was not.
abbrev pub scheduled : Scheduler → ℕ → Scheduler
scheduled t k = if is_scheduled k t.owners then t else schedule t k

scheduled-Covers :
    (t : Scheduler) (k : ℕ) (rs : List Request) (os : List Owner) (o : Owner)
    → get k os ≡ some o
    → t.owners ≡ put k rs o.scheduled os
    → Covers t.rotation os
    → IsCovered (scheduled t k)
scheduled-Covers t k rs os o e q c =
    let but = Covers-but k t.rotation os c in
    bool_split IsCovered (is_scheduled k t.owners)
      (λ was.
        let flag =
          sym (is_scheduled-put k rs o.scheduled os o e) ∙ ap (is_scheduled k) (sym q) ∙ was in
        subst (Covers t.rotation) (sym q) (
          Covers-put k t.rotation rs o.scheduled os o e (c.all k o e (scheduled_waits o flag)) but))
      (λ was. schedule-Covers t k _ (ap (get k) q ∙ get-put_same k rs o.scheduled os o e) (
        subst (CoversBut k t.rotation) (sym q)
          (CoversBut-change k t.rotation rs o.scheduled os o e but)))

pub queue_request-IsCovered :
    (s : Scheduler) (r : Request) → IsCovered s → IsCovered (scheduled (queue_request s r) r.owner)
unfolding queue_request
queue_request-IsCovered s r c =
    let (o, e) = with_owner-found r.owner s.owners in
    scheduled-Covers (queue_request s r) r.owner (o.requests ++ r ∷ [])
      (with_owner r.owner s.owners) o e
      (push_request-put r.owner r (with_owner r.owner s.owners) o e)
      (with_owner-Covers s.rotation r.owner s.owners c)
