-- ===== src/FileShare/Scheduler/Coverage.antt =====
-- packages/file-share/library/src/transfer-scheduling.ts: the owners that stand in the rotation of
-- `FairTransferScheduler`, under `pump`.
pub mod Calls
pub mod Rounds
use peerbit_examples.Prelude.{
  ℕ, zero, suc, ◌≡◌, refl, sym, ap, ◌∙◌, Bool, true, false, not, ◌&&◌, ◌||◌, List, [], ◌∷◌, ◌++◌,
  Option, none, some, arith, ◌==◌, ltb, if◌then◌else◌, Option-cases, inl, inr, is_some, bool_split,
  option_split, length, Bool-cases, ==_iff, if-false, subst,
}
use peerbit_examples.FileShare.Scheduler.Owners.{
  Request, Owner, get, put, remove, get-put, get-append, get-remove_ne, fresh_owner,
}
use peerbit_examples.FileShare.Scheduler.State.{Scheduler}
use peerbit_examples.FileShare.Scheduler.Rule.{get-unschedule_owner}
use peerbit_examples.FileShare.Scheduler.Pump.{
  can_grant, has_shared_capacity, has_lane_capacity, grant, shift_owner, Round, stop, again,
  requeue, visit_queue, visit, turn, round, pump_loop, rounds, reserved_head, serve_reserved,
  is_empty, pump, without, set_scheduled, unschedule_owner,
}

-- The map of the owners has one entry to a key.
unfoldable pub IsMap : List Owner → Type 0
IsMap [] = Unit
IsMap (o ∷ os) = (get o.id os ≡ none) × IsMap os

unfoldable pub has : ℕ → List ℕ → Bool
has j [] = false
has j (k ∷ ks) = if k == j then true else has j ks

-- An owner with a request, or that is scheduled, has to stand in the rotation.
unfoldable pub is_waiting : Owner → Bool
is_waiting o = elim o.requests [ [] ↦ o.scheduled | _ ∷ _ ↦ true ]

-- Every owner that has to, stands in the rotation, but for `k`.
pub record CoversBut (k : ℕ) (ks : List ℕ) (os : List Owner) : Type 0 where
  pub map : IsMap os
  pub others :
      (j : ℕ) (o : Owner)
      → (k == j) ≡ false
      → get j os ≡ some o
      → is_waiting o ≡ true
      → has j ks ≡ true

pub record Covers (ks : List ℕ) (os : List Owner) : Type 0 where
  pub map : IsMap os
  pub all : (j : ℕ) (o : Owner) → get j os ≡ some o → is_waiting o ≡ true → has j ks ≡ true

abbrev pub IsCovered : Scheduler → Type 0
IsCovered s = Covers s.rotation s.owners

get-put_none :
    (j k : ℕ) (rs : List Request) (b : Bool) (os : List Owner)
    → get j os ≡ none
    → get j (put k rs b os) ≡ none
unfolding get put
get-put_none j k rs b [] e = refl
get-put_none j k rs b (o ∷ os) e = ground (arith, get-put_none j k rs b os)

put-IsMap :
    (k : ℕ) (rs : List Request) (b : Bool) (os : List Owner) → IsMap os → IsMap (put k rs b os)
unfolding put IsMap
put-IsMap k rs b [] m = m
put-IsMap k rs b (o ∷ os) m =
    ground (arith, get-put_none o.id k rs b os m.0, put-IsMap k rs b os m.1)

get-remove_none : (j k : ℕ) (os : List Owner) → get j os ≡ none → get j (remove k os) ≡ none
unfolding get remove
get-remove_none j k [] e = refl
get-remove_none j k (o ∷ os) e = ground (arith, get-remove_none j k os)

remove-IsMap : (k : ℕ) (os : List Owner) → IsMap os → IsMap (remove k os)
unfolding remove IsMap
remove-IsMap k [] m = m
remove-IsMap k (o ∷ os) m = ground (arith, get-remove_none o.id k os m.0, remove-IsMap k os m.1)

-- A key that is deleted is gone.
get-remove_same : (k : ℕ) (os : List Owner) → IsMap os → get k (remove k os) ≡ none
unfolding get remove IsMap
get-remove_same k [] m = refl
get-remove_same k (o ∷ os) m = ground (arith, get-remove_same k os m.1)

pub fresh-IsMap :
    (k : ℕ) (os : List Owner) → get k os ≡ none → IsMap os → IsMap (os ++ fresh_owner k ∷ [])
unfolding get IsMap
fresh-IsMap k [] e m = (refl, tt)
fresh-IsMap k (o ∷ os) e m = (
  ground (arith, get-append o.id os (fresh_owner k ∷ []), m.0),
  fresh-IsMap k os (ground arith) m.1,
)

pub has-append : (j : ℕ) (ks ls : List ℕ) → has j (ks ++ ls) ≡ has j ks || has j ls
unfolding has
has-append j [] ls = refl
has-append j (k ∷ ks) ls = ground (arith, has-append j ks ls)

has-without : (j k : ℕ) (ks : List ℕ) → (k == j) ≡ false → has j (without k ks) ≡ has j ks
unfolding has without
has-without j k [] e = refl
has-without j k (x ∷ ks) e = ground (arith, has-without j k ks e)

-- The first of the rotation leaves it.
pub Covers-pop : (k : ℕ) (ks : List ℕ) (os : List Owner) → Covers (k ∷ ks) os → CoversBut k ks os
unfolding has
Covers-pop k ks os c = record {
  map = c.map;
  others = λ j o differs e w. ground (arith, c.all j o e w);
}

-- An owner that is not there needs no place.
pub Covers-none :
    (k : ℕ) (ks : List ℕ) (os : List Owner) → get k os ≡ none → CoversBut k ks os → Covers ks os
Covers-none k ks os gone c = record {
  map = c.map;
  all = λ j o e w. elim (Bool-cases (k == j)) [
    | inl same ↦ let moved = ap (λ i. get i os) ((==_iff k j).0 same) in cc
    | inr differs ↦ c.others j o differs e w
  ];
}

pub Covers-remove :
    (k : ℕ) (ks : List ℕ) (os : List Owner) → CoversBut k ks os → Covers ks (remove k os)
Covers-remove k ks os c = Covers-none k ks (remove k os) (get-remove_same k os c.map) (record {
  map = remove-IsMap k os c.map;
  others = λ j o differs e w. c.others j o differs (sym (get-remove_ne k j os differs) ∙ e) w;
})

-- An owner that is changed leaves the others as they are.
pub CoversBut-change :
    (k : ℕ) (ks : List ℕ) (rs : List Request) (b : Bool) (os : List Owner) (o : Owner)
    → get k os ≡ some o
    → CoversBut k ks os
    → CoversBut k ks (put k rs b os)
CoversBut-change k ks rs b os o found c = record {
  map = put-IsMap k rs b os c.map;
  others = λ j p differs e w.
      c.others j p differs (sym (if-false _ _ _ differs) ∙ sym (get-put k j rs b os o found) ∙ e) w;
}

-- An owner that stands in the rotation needs no more.
Covers-all :
    (k : ℕ) (ks : List ℕ) (os : List Owner) → has k ks ≡ true → CoversBut k ks os → Covers ks os
Covers-all k ks os at c = record {
  map = c.map;
  all = λ j p e w. elim (Bool-cases (k == j)) [
    | inl same ↦ sym (ap (λ i. has i ks) ((==_iff k j).0 same)) ∙ at
    | inr differs ↦ c.others j p differs e w
  ];
}

-- An owner is changed, and stands in the rotation.
pub Covers-put :
    (k : ℕ) (ks : List ℕ) (rs : List Request) (b : Bool) (os : List Owner) (o : Owner)
    → get k os ≡ some o
    → has k ks ≡ true
    → CoversBut k ks os
    → Covers ks (put k rs b os)
Covers-put k ks rs b os o found at c =
    Covers-all k ks (put k rs b os) at (CoversBut-change k ks rs b os o found c)

pub CoversBut-append :
    (k : ℕ) (ks ls : List ℕ) (os : List Owner) → CoversBut k ks os → CoversBut k (ks ++ ls) os
CoversBut-append k ks ls os c = record {
  map = c.map;
  others = λ j o differs e w. ground (arith, has-append j ks ls, c.others j o differs e w);
}

pub has_last : (k : ℕ) (ks : List ℕ) → has k (ks ++ k ∷ []) ≡ true
unfolding has
has_last k ks = ground (arith, has-append k ks (k ∷ []))

-- An owner is changed, and goes to the end of the rotation.
pub Covers-push :
    (k : ℕ) (ks : List ℕ) (rs : List Request) (b : Bool) (os : List Owner) (o : Owner)
    → get k os ≡ some o
    → CoversBut k ks os
    → Covers (ks ++ k ∷ []) (put k rs b os)
Covers-push k ks rs b os o found c =
    Covers-put k (ks ++ k ∷ []) rs b os o found (has_last k ks)
      (CoversBut-append k ks (k ∷ []) os c)

pub Covers-but : (k : ℕ) (ks : List ℕ) (os : List Owner) → Covers ks os → CoversBut k ks os
Covers-but k ks os c = record { map = c.map; others = λ j o differs e w. c.all j o e w }

-- `unscheduleOwner` takes the owner alone out of the rotation.
pub unschedule_owner-Covers :
    (s : Scheduler) (k : ℕ)
    → IsCovered s
    → CoversBut k (unschedule_owner s k).rotation (unschedule_owner s k).owners
unfolding unschedule_owner set_scheduled
unschedule_owner-Covers s k c =
    option_split (λ os. CoversBut k (without k s.rotation) os) (get k s.owners)
      (λ gone. taken_out s.owners c.map (λ j o differs e. e))
      (λ o found. taken_out _ (put-IsMap k o.requests false s.owners c.map) (λ j p differs e.
        sym (if-false _ _ _ differs) ∙ sym (get-put k j o.requests false s.owners o found) ∙ e))
  where
    taken_out :
        (os : List Owner)
        → IsMap os
        → ((j : ℕ) (o : Owner) → (k == j) ≡ false → get j os ≡ some o → get j s.owners ≡ some o)
        → CoversBut k (without k s.rotation) os
    taken_out os m same = record {
      map = m;
      others =
          λ j o differs e w. has-without j k s.rotation differs ∙ c.all j o (same j o differs e) w;
    }
