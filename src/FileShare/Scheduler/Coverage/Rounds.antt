-- ===== src/FileShare/Scheduler/Coverage/Rounds.antt =====
-- packages/file-share/library/src/transfer-scheduling.ts: the owners that stand in the rotation of
-- `FairTransferScheduler`, under the rounds of `pump`.
use peerbit_examples.Prelude.{
  ℕ, zero, suc, ◌≡◌, refl, true, not, ◌&&◌, ◌||◌, List, [], ◌∷◌, none, some, ◌==◌, ltb, is_some,
  bool_split, option_split, length, subst,
}
use peerbit_examples.FileShare.Scheduler.Owners.{Request, Owner, get}
use peerbit_examples.FileShare.Scheduler.State.{Scheduler}
use peerbit_examples.FileShare.Scheduler.Rule.{get-unschedule_owner}
use peerbit_examples.FileShare.Scheduler.Pump.{
  can_grant, has_shared_capacity, has_lane_capacity, grant, shift_owner, Round, stop, again,
  visit_queue, visit, turn, round, pump_loop, rounds, reserved_head, serve_reserved, is_empty, pump,
  unschedule_owner,
}
use peerbit_examples.FileShare.Scheduler.Coverage.{
  IsCovered, CoversBut, Covers, Covers-pop, Covers-none, Covers-remove, Covers-push,
  unschedule_owner-Covers,
}

-- Each round of `pump`.
abbrev CoversRound : Round → Type 0
CoversRound (stop t) = IsCovered t
CoversRound (again n t) = IsCovered t

grant-IsCovered :
    (s : Scheduler) (k : ℕ) (o : Owner) (r : Request) (rs : List Request)
    → get k s.owners ≡ some o
    → CoversBut k s.rotation s.owners
    → IsCovered (grant (shift_owner s k rs) r)
unfolding grant shift_owner
grant-IsCovered s k o r [] e c = Covers-remove k s.rotation s.owners c
grant-IsCovered s k o r (q ∷ qs) e c = Covers-push k s.rotation (q ∷ qs) true s.owners o e c

visit_queue-IsCovered :
    (n : ℕ) (s : Scheduler) (k : ℕ) (o : Owner) (rs : List Request)
    → get k s.owners ≡ some o
    → CoversBut k s.rotation s.owners
    → CoversRound (visit_queue n s k rs)
unfolding visit_queue
visit_queue-IsCovered n s k o [] e c = Covers-remove k s.rotation s.owners c
visit_queue-IsCovered n s k o (r ∷ rs) e c =
    let back = Covers-push k s.rotation (r ∷ rs) true s.owners o e c in
    bool_split CoversRound (not (can_grant s r))
      (λ _.
        bool_split CoversRound (not (has_shared_capacity s r) && has_lane_capacity s r) (λ _. back)
          (λ _. back))
      (λ _. grant-IsCovered s k o r rs e c)

turn-IsCovered :
    (n : ℕ) (s : Scheduler) (ks : List ℕ)
    → s.rotation ≡ ks
    → IsCovered s
    → CoversRound (turn n s ks)
unfolding turn visit
turn-IsCovered n s [] e c = c
turn-IsCovered n s (k ∷ ks) e c =
    let c' = Covers-pop k ks s.owners (subst (λ l. Covers l s.owners) e c) in
    bool_split CoversRound (ltb n (suc (length ks)))
      (λ _.
        option_split CoversRound (get k s.owners) (λ gone. Covers-none k ks s.owners gone c')
          (λ o found. visit_queue-IsCovered n (record s { rotation = ks }) k o o.requests found c'))
      (λ _. c)

pump_loop-IsCovered : (fuel n : ℕ) (s : Scheduler) → IsCovered s → IsCovered (pump_loop fuel n s)
unfolding pump_loop round
pump_loop-IsCovered zero n s c = c
pump_loop-IsCovered (suc fuel) n s c =
    next (turn n s s.rotation) (turn-IsCovered n s s.rotation refl c)
      (λ m t h. pump_loop-IsCovered fuel m t h)
  where
    next :
        (x : Round)
        → CoversRound x
        → ((m : ℕ) (t : Scheduler) → IsCovered t → IsCovered (pump_loop fuel m t))
        → IsCovered (elim x [ stop t ↦ t | again m t ↦ pump_loop fuel m t ])
    next (stop t) h rest = h
    next (again m t) h rest = rest m t h

reserved_head-IsCovered :
    (s : Scheduler) (r : Request) (o : Owner) (rs : List Request)
    → get r.owner s.owners ≡ some o
    → IsCovered s
    → CoversRound (reserved_head s r rs)
unfolding reserved_head
reserved_head-IsCovered s r o [] e c = c
reserved_head-IsCovered s r o (q ∷ qs) e c =
    bool_split CoversRound (not (q.id == r.id)) (λ _. c)
      (λ _.
        bool_split CoversRound (not (has_shared_capacity s q)) (λ _. c)
          (λ _.
            bool_split CoversRound (not (has_lane_capacity s q)) (λ _. c)
              (λ _.
                grant-IsCovered (unschedule_owner (record s { reserved = none }) r.owner) r.owner _
                  q qs (get-unschedule_owner (record s { reserved = none }) r.owner o e)
                  (unschedule_owner-Covers (record s { reserved = none }) r.owner c))))

serve_reserved-IsCovered : (s : Scheduler) → IsCovered s → CoversRound (serve_reserved s)
unfolding serve_reserved
serve_reserved-IsCovered s c =
    option_split CoversRound s.reserved (λ _. c)
      (λ r _.
        option_split CoversRound (get r.owner s.owners) (λ _. c)
          (λ o found. reserved_head-IsCovered s r o o.requests found c))

pub pump-IsCovered : (s : Scheduler) → IsCovered s → IsCovered (pump s)
unfolding pump
pump-IsCovered s c =
    bool_split IsCovered (is_some s.closed_reason || is_empty s.rotation) (λ _. c)
      (λ _. ended (serve_reserved s) (serve_reserved-IsCovered s c))
  where
    ended :
        (x : Round)
        → CoversRound x
        → IsCovered (elim x [ stop t ↦ t | again n t ↦ pump_loop (rounds t) n t ])
    ended (stop t) h = h
    ended (again n t) h = pump_loop-IsCovered (rounds t) n t h
