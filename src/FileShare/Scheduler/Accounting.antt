-- ===== src/FileShare/Scheduler/Accounting.antt =====
-- Lemmas on the requests that `acquire` takes: where they are queued and how often they are settled.
use peerbit_examples.Prelude.{
  ℕ, ◌+◌, ◌≤◌, ◌≡◌, refl, ap, ◌∙◌, inl, inr, true, false, List, [], ◌∷◌, ◌++◌, none, some, arith,
  ◌==◌, ltb, if◌then◌else◌, Option-cases, sum_by, length, length-append,
}
use peerbit_examples.FileShare.Scheduler.Owners.{
  Request, Owner, get, remove, tally, tally-put, tally-remove, tally-append, fresh_owner,
  get-append,
}
use peerbit_examples.FileShare.Scheduler.State.{Scheduler, Settlement, Reason, is_settled}
use peerbit_examples.FileShare.Scheduler.Pump.{grant, shift_owner, set_scheduled, unschedule_owner}
use peerbit_examples.FileShare.Scheduler.Permits.{release_part}
use peerbit_examples.FileShare.Scheduler.Requests.{
  settle_queue, without_request, has_request, drop_reserved, reject, reject_all, detach_owner,
  queue_request, with_owner, push_request,
}
use peerbit_examples.FileShare.Scheduler.{Call, run}
use peerbit_examples.FileShare.Scheduler.Rule.{Rule, get-unschedule_owner}
use peerbit_examples.FileShare.Scheduler.Rule.Calls.{CallRule, run-P}

abbrev pub times : ℕ → List Request → ℕ
times i = sum_by (λ r. if r.id == i then 1 else 0)

abbrev pub settled_times : ℕ → List Settlement → ℕ
settled_times i = sum_by (λ x. if x.id == i then 1 else 0)

-- The books over the queues, with the requests `rest` taken off them and not yet settled.
pub record Accounts (rest : List Request) (owners : List Owner) (pending next : ℕ)
    (settlements : List Settlement) : Type 0 where
  pub queued : pending ≡ tally length owners + length rest
  pub once :
      (i : ℕ)
      → tally (times i) owners + times i rest + settled_times i settlements
        ≡ (if ltb i next then 1 else 0)

abbrev pub Detached : List Request → Scheduler → Type 0
Detached rest s = Accounts rest s.owners s.pending_count s.next_id s.settlements

pub record Accounted (s : Scheduler) : Type 0 where
  pub books : Detached [] s

settled_times-is_settled :
    (k : ℕ) (xs : List Settlement) → settled_times k xs ≡ 0 → is_settled k xs ≡ false
unfolding is_settled
settled_times-is_settled k [] e = refl
settled_times-is_settled k (x ∷ xs) e = ground (arith, settled_times-is_settled k xs)

times_self : (r : Request) (rs : List Request) → 1 ≤ times r.id (r ∷ rs)
times_self r rs = ground arith

-- A request that is off its queue and not settled is rejected, once.
reject_all-Detached :
    (reason : Reason) (rs : List Request) (s : Scheduler)
    → Detached rs s
    → Detached [] (reject_all reason rs s)
unfolding reject_all
reject_all-Detached reason [] s h = h
reject_all-Detached reason (r ∷ rs) s h =
    let new : is_settled r.id s.settlements ≡ false =
      settled_times-is_settled r.id s.settlements (ground (arith, h.once r.id, times_self r rs)) in
    reject_all-Detached reason rs _
      (rw new (record { queued = omega (arith, h.queued); once = λ i. omega (arith, h.once i) }))

-- The moves between the queues.

module _ (f : List Request → ℕ) (empty : f [] ≡ 0) where
  tally-shift_owner :
      (s : Scheduler) (k : ℕ) (rs : List Request) (o : Owner)
      → get k s.owners ≡ some o
      → tally f (shift_owner s k rs).owners + f o.requests ≡ tally f s.owners + f rs
  unfolding shift_owner
  tally-shift_owner s k [] o e = omega (arith, tally-remove f k s.owners o e, empty)
  tally-shift_owner s k (q ∷ qs) o e = tally-put f k (q ∷ qs) true s.owners o e

  tally-unschedule_owner :
      (s : Scheduler) (k : ℕ) (o : Owner)
      → get k s.owners ≡ some o
      → tally f (unschedule_owner s k).owners ≡ tally f s.owners
  unfolding unschedule_owner
  tally-unschedule_owner s k o e =
      rw (e, set_scheduled) (omega (arith, tally-put f k o.requests false s.owners o e))

  tally-detach_owner :
      (s : Scheduler) (k : ℕ) (o : Owner)
      → get k s.owners ≡ some o
      → tally f (remove k (unschedule_owner s k).owners) + f o.requests ≡ tally f s.owners
  tally-detach_owner s k o e =
      tally-remove f k _ _ (get-unschedule_owner s k o e) ∙ tally-unschedule_owner s k o e

  tally-settle_queue :
      (s : Scheduler) (k : ℕ) (rs : List Request) (o : Owner)
      → get k s.owners ≡ some o
      → tally f (settle_queue s k rs).owners + f o.requests ≡ tally f s.owners + f rs
  unfolding settle_queue
  tally-settle_queue s k [] o e = omega (arith, tally-detach_owner s k o e, empty)
  tally-settle_queue s k (q ∷ qs) o e =
      rw (e, settle_queue) (tally-put f k (q ∷ qs) o.scheduled s.owners o e)

  get-with_owner :
      (k : ℕ) (os : List Owner)
      → (o : Owner) × (get k (with_owner k os) ≡ some o) × (tally f (with_owner k os) ≡ tally f os)
  unfolding with_owner
  get-with_owner k os = elim (Option-cases (get k os)) [
    | inl e ↦
        rw (e, with_owner)
          (
            fresh_owner k,
            get-append k os (fresh_owner k ∷ []) ∙ new e,
            omega (arith, tally-append f os (fresh_owner k ∷ []), empty),
          )
    | inr (o, e) ↦ rw (e, with_owner) (o, e, refl)
  ]
    where
      new :
          get k os ≡ none
          → elim (get k os) [ none ↦ get k (fresh_owner k ∷ []) | some o ↦ some o ]
            ≡ some (fresh_owner k)
      new e = rw e (unfold get in ground arith)

  tally-push_request :
      (k : ℕ) (r : Request) (os : List Owner)
      → ((rs : List Request) → f (rs ++ r ∷ []) ≡ f rs + f (r ∷ []))
      → tally f (push_request k r (with_owner k os)) ≡ tally f os + f (r ∷ [])
  unfolding push_request
  tally-push_request k r os h =
      let (o, e, same) = get-with_owner k os in
      rw (e, push_request)
        (omega (
          arith,
          tally-put f k (o.requests ++ r ∷ []) o.scheduled (with_owner k os) o e,
          h o.requests,
          same,
        ))

times-append :
    (i : ℕ) (r : Request) (rs : List Request)
    → times i (rs ++ r ∷ []) ≡ times i rs + times i (r ∷ [])
times-append i r [] = omega arith
times-append i r (x ∷ rs) = omega (arith, times-append i r rs)

length-without_request :
    (k : ℕ) (rs : List Request)
    → has_request k rs ≡ true
    → length (without_request k rs) + 1 ≡ length rs
unfolding without_request has_request
length-without_request k [] e = cc
length-without_request k (r ∷ rs) e = ground (arith, length-without_request k rs)

times-without_request :
    (i k : ℕ) (rs : List Request)
    → has_request k rs ≡ true
    → times i (without_request k rs) + (if k == i then 1 else 0) ≡ times i rs
unfolding without_request has_request
times-without_request i k [] e = cc
times-without_request i k (r ∷ rs) e = ground (arith, times-without_request i k rs)

module _ (s : Scheduler) (k : ℕ) (r : Request) (o : Owner) (e : get k s.owners ≡ some o)
    (h : Accounted s) where
  shift_owner-Detached :
      (rs : List Request) → o.requests ≡ r ∷ rs → Detached (r ∷ []) (shift_owner s k rs)
  unfolding shift_owner
  shift_owner-Detached [] q = record {
    queued = omega (arith, h.books.queued, tally-remove length k s.owners o e, ap length q);
    once =
        λ i. omega (arith, h.books.once i, tally-remove (times i) k s.owners o e, ap (times i) q);
  }
  shift_owner-Detached (x ∷ xs) q = record {
    queued =
        omega (arith, h.books.queued, tally-put length k (x ∷ xs) true s.owners o e, ap length q);
    once = λ i.
        omega
          (arith, h.books.once i, tally-put (times i) k (x ∷ xs) true s.owners o e, ap (times i) q);
  }

  settle_queue-Detached :
      (rs : List Request)
      → length rs + 1 ≡ length o.requests
      → ((i : ℕ) → times i rs + times i (r ∷ []) ≡ times i o.requests)
      → Detached (r ∷ []) (settle_queue s k rs)
  unfolding settle_queue unschedule_owner
  settle_queue-Detached [] len ids = record {
    queued = omega (arith, h.books.queued, tally-settle_queue length refl s k [] o e, len);
    once = λ i. omega (arith, h.books.once i, tally-settle_queue (times i) refl s k [] o e, ids i);
  }
  settle_queue-Detached (x ∷ xs) len ids =
      rw (e, settle_queue)
        (record {
          queued =
              omega
                (arith, h.books.queued, tally-put length k (x ∷ xs) o.scheduled s.owners o e, len);
          once = λ i. omega (
            arith,
            h.books.once i,
            tally-put (times i) k (x ∷ xs) o.scheduled s.owners o e,
            ids i,
          );
        })

detach_owner-Detached :
    (s : Scheduler) (k : ℕ) (o : Owner)
    → get k s.owners ≡ some o
    → Accounted s
    → Detached o.requests (detach_owner s k)
unfolding detach_owner unschedule_owner
detach_owner-Detached s k o e h = record {
  queued = omega (arith, h.books.queued, tally-detach_owner length refl s k o e);
  once = λ i. omega (arith, h.books.once i, tally-detach_owner (times i) refl s k o e);
}

grant-Accounted : (s : Scheduler) (r : Request) → Detached (r ∷ []) s → Accounted (grant s r)
unfolding grant
grant-Accounted s r h = record {
  books = record { queued = omega (arith, h.queued); once = λ i. omega (arith, h.once i) };
}

reject-Accounted :
    (s : Scheduler) (r : Request) (reason : Reason)
    → Detached (r ∷ []) s
    → Accounted (reject s r.id reason)
reject-Accounted s r reason h = record {
  books = record { queued = omega (arith, h.queued); once = λ i. omega (arith, h.once i) };
}

queue_request-Accounted :
    (s : Scheduler) (r : Request) → r.id ≡ s.next_id → Accounted s → Accounted (queue_request s r)
unfolding queue_request
queue_request-Accounted s r e h = record {
  books = record {
    queued = omega (
      arith,
      h.books.queued,
      tally-push_request length refl r.owner r s.owners (λ rs. length-append rs (r ∷ [])),
    );
    once = λ i. ground (
      arith,
      h.books.once i,
      tally-push_request (times i) refl r.owner r s.owners (times-append i r),
    );
  };
}

Accounted-Rule : Rule Accounted
Accounted-Rule = record {
  rotates = λ s ks h. record { books = h.books };
  reserves = λ s r h. record { books = h.books };
  flags = λ s k o b e h. record {
    books = record {
      queued = omega (arith, h.books.queued, tally-put length k o.requests b s.owners o e);
      once = λ i. omega (arith, h.books.once i, tally-put (times i) k o.requests b s.owners o e);
    };
  };
  drops = λ s k o e q h. record {
    books = record {
      queued = omega (arith, h.books.queued, tally-remove length k s.owners o e, ap length q);
      once =
          λ i. omega (arith, h.books.once i, tally-remove (times i) k s.owners o e, ap (times i) q);
    };
  };
  grants = λ s k r rs o e q fits h. grant-Accounted _ r (shift_owner-Detached s k r o e h rs q);
}

Accounted-CallRule : CallRule Accounted
Accounted-CallRule = record {
  rule = Accounted-Rule;
  releases = λ s p count bytes e c b h. record { books = unfold release_part in h.books };
  queues = λ s r a h. queue_request-Accounted s r a.fresh h;
  withdraws = λ s r o reason new e queued h. reject-Accounted _ r reason (
      settle_queue-Detached (drop_reserved s r.id) r.owner r o e (record { books = h.books })
        (without_request r.id o.requests) (length-without_request r.id o.requests queued)
        (λ i. omega (arith, times-without_request i r.id o.requests queued)));
  detaches = λ s k o reason e h. record {
    books = reject_all-Detached reason o.requests _ (detach_owner-Detached s k o e h);
  };
  closings = λ s reason h. record { books = h.books };
}

pub run-Accounted : (s : Scheduler) (cs : List Call) → Accounted s → Accounted (run s cs)
run-Accounted = run-P Accounted Accounted-CallRule
