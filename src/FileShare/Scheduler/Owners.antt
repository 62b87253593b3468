-- ===== src/FileShare/Scheduler/Owners.antt =====
-- packages/file-share/library/src/transfer-scheduling.ts: `PendingPermit`, `OwnerQueue` and the
-- `owners` map of `FairTransferScheduler`, an association list in the order of insertion.
use peerbit_examples.Prelude.{
  ℕ, ◌+◌, ◌≡◌, refl, ◌⊎◌, inl, inr, Bool, true, false, List, [], ◌∷◌, ◌++◌, Option, none, some,
  arith, ◌==◌, if◌then◌else◌, sum_by, All,
}

pub data Lane : Type 0 where
  default local remote : Lane

-- A request is an object: `id` is its identity. An owner's id, a string that the code only
-- compares, is a number.
pub record Request : Type 0 where
  pub id : ℕ
  pub owner : ℕ
  pub count : ℕ
  pub bytes : ℕ
  pub lane : Lane

pub record Owner : Type 0 where
  pub id : ℕ
  pub requests : List Request
  pub scheduled : Bool

-- `owners.get(id)`
unfoldable pub get : ℕ → List Owner → Option Owner
get k [] = none
get k (o ∷ os) = if o.id == k then some o else get k os

-- `owner.requests = rs; owner.scheduled = b` on the queue that `get` finds.
unfoldable pub put : ℕ → List Request → Bool → List Owner → List Owner
put k rs b [] = []
put k rs b (o ∷ os) =
    if o.id == k then record o { requests = rs; scheduled = b } ∷ os else o ∷ put k rs b os

-- `owners.delete(id)`
unfoldable pub remove : ℕ → List Owner → List Owner
remove k [] = []
remove k (o ∷ os) = if o.id == k then os else o ∷ remove k os

-- `owners.set(id, { requests: [], scheduled: false })` for a new key
abbrev pub fresh_owner : ℕ → Owner
fresh_owner k = record { id = k; requests = []; scheduled = false }

pub id-get : (k : ℕ) (os : List Owner) (o : Owner) → get k os ≡ some o → o.id ≡ k
unfolding get
id-get k [] o e = cc
id-get k (x ∷ os) o e = ground (arith, id-get k os o)

pub get-put :
    (k j : ℕ) (rs : List Request) (b : Bool) (os : List Owner) (o : Owner)
    → get k os ≡ some o
    → get j (put k rs b os)
      ≡ (if k == j then some (record o { requests = rs; scheduled = b }) else get j os)
unfolding get put
get-put k j rs b [] o e = cc
get-put k j rs b (x ∷ os) o e = ground (arith, get-put k j rs b os o)

pub get-append :
    (k : ℕ) (os ps : List Owner)
    → get k (os ++ ps) ≡ elim (get k os) [ none ↦ get k ps | some o ↦ some o ]
unfolding get
get-append k [] ps = refl
get-append k (x ∷ os) ps = ground (arith, get-append k os ps)

pub get-remove_ne : (k j : ℕ) (os : List Owner) → (k == j) ≡ false → get j (remove k os) ≡ get j os
unfolding get remove
get-remove_ne k j [] e = refl
get-remove_ne k j (x ∷ os) e = ground (arith, get-remove_ne k j os)

-- The sum of a measure of the queues.
abbrev pub tally : (List Request → ℕ) → List Owner → ℕ
tally f = sum_by (λ o. f o.requests)

module _ (f : List Request → ℕ) where
  pub tally-put :
      (k : ℕ) (rs : List Request) (b : Bool) (os : List Owner) (o : Owner)
      → get k os ≡ some o
      → tally f (put k rs b os) + f o.requests ≡ tally f os + f rs
  unfolding get put
  tally-put k rs b [] o e = cc
  tally-put k rs b (x ∷ os) o e = ground (arith, tally-put k rs b os o)

  pub tally-remove :
      (k : ℕ) (os : List Owner) (o : Owner)
      → get k os ≡ some o
      → tally f (remove k os) + f o.requests ≡ tally f os
  unfolding get remove
  tally-remove k [] o e = cc
  tally-remove k (x ∷ os) o e = ground (arith, tally-remove k os o)

  pub tally-append : (os ps : List Owner) → tally f (os ++ ps) ≡ tally f os + tally f ps
  tally-append [] ps = omega arith
  tally-append (x ∷ os) ps = omega (arith, tally-append os ps)

-- A property of every queued request.
module _ (P : Request → Type 0) where
  abbrev pub AllQueued : List Owner → Type 0
  AllQueued = All (λ o. All P o.requests)

  pub get-All :
      (k : ℕ) (os : List Owner) (o : Owner) → get k os ≡ some o → AllQueued os → All P o.requests
  unfolding get
  get-All k [] o e h = cc
  get-All k (x ∷ os) o e h = elim (eq_or x.id k) [
    | inl same ↦ let e' : x ≡ o = ground arith in rw (← e') h.0
    | inr other ↦ get-All k os o (ground arith) h.1
  ]
    where
      eq_or : (a b : ℕ) → ((a == b) ≡ true) ⊎ ((a == b) ≡ false)
      eq_or a b = ground arith

  pub put-AllQueued :
      (k : ℕ) (rs : List Request) (b : Bool) (os : List Owner)
      → All P rs
      → AllQueued os
      → AllQueued (put k rs b os)
  unfolding put
  put-AllQueued k rs b [] q h = h
  put-AllQueued k rs b (x ∷ os) q h = ground (arith, put-AllQueued k rs b os q h.1)

  pub remove-AllQueued : (k : ℕ) (os : List Owner) → AllQueued os → AllQueued (remove k os)
  unfolding remove
  remove-AllQueued k [] h = h
  remove-AllQueued k (x ∷ os) h = ground (arith, remove-AllQueued k os h.1)
