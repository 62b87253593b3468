-- ===== src/SharedFs/Mount/Lawful.antt =====
-- Lemmas on the map of the open handles.
use peerbit_examples.Prelude.{
  ℕ, suc, ◌<◌, ◌≡◌, refl, ap, inl, inr, true, [], ◌∷◌, Option, none, some, arith, ◌==◌, Bool-cases,
  All,
}
use peerbit_examples.SharedFs.Path.Split.{Text}
use peerbit_examples.SharedFs.Mount.Buffer.{OpenHandle, Outcome}
use peerbit_examples.SharedFs.Mount.Handles.{
  Handles, State, get_handle, change_handle, delete_handle, is_pending, pending_writable_handle,
}
use peerbit_examples.SharedFs.Mount.Directory.{rename_handles}
use peerbit_examples.SharedFs.Mount.Buffer.Laws.{IsFitting}
use peerbit_examples.SharedFs.Mount.Rights.{IsLawful}

-- A number that was given out, with a handle that holds what it may.
abbrev pub IsGiven : ℕ → ℕ × OpenHandle → Type 0
IsGiven next e = (e.0 < next) × IsLawful e.1

unfoldable pub AllLawful : {W : Type 0} → State W → Type 0
AllLawful s = All (IsGiven s.next_handle) s.handles

abbrev pub IsFound : Option OpenHandle → Type 0
IsFound none = Unit
IsFound (some h) = IsLawful h

abbrev pub IsFoundPending : Option (ℕ × OpenHandle) → Type 0
IsFoundPending none = Unit
IsFoundPending (some r) = IsLawful r.1 × (r.1.write ≡ true)

pub get_handle-lawful :
    (hs : Handles) (next k : ℕ) → All (IsGiven next) hs → IsFound (get_handle hs k)
unfolding get_handle
get_handle-lawful [] next k l = tt
get_handle-lawful ((j, g) ∷ hs) next k l = elim (Bool-cases (j == k)) [
  | inl e ↦ rw e l.0.1
  | inr e ↦ rw e (get_handle-lawful hs next k l.1)
]

pub change_handle-lawful :
    (hs : Handles) (next k : ℕ) (g : OpenHandle)
    → All (IsGiven next) hs
    → IsLawful g
    → All (IsGiven next) (change_handle hs k g)
unfolding change_handle
change_handle-lawful [] next k g l i = tt
change_handle-lawful ((j, h) ∷ hs) next k g l i = elim (Bool-cases (j == k)) [
  | inl e ↦ rw e ((l.0.0, i), l.1)
  | inr e ↦ rw e (l.0, change_handle-lawful hs next k g l.1 i)
]

pub delete_handle-lawful :
    (hs : Handles) (next k : ℕ) → All (IsGiven next) hs → All (IsGiven next) (delete_handle hs k)
unfolding delete_handle
delete_handle-lawful [] next k l = tt
delete_handle-lawful ((j, h) ∷ hs) next k l = elim (Bool-cases (j == k)) [
  | inl e ↦ rw e (delete_handle-lawful hs next k l.1)
  | inr e ↦ rw e (l.0, delete_handle-lawful hs next k l.1)
]

pub delete_handle-change_handle :
    (hs : Handles) (k : ℕ) (g : OpenHandle)
    → delete_handle (change_handle hs k g) k ≡ delete_handle hs k
unfolding delete_handle change_handle
delete_handle-change_handle [] k g = refl
delete_handle-change_handle ((j, h) ∷ hs) k g = elim (Bool-cases (j == k)) [
  | inl e ↦ rw e (rw e refl)
  | inr e ↦ rw e (rw e (ap (◌∷◌ (j, h)) (delete_handle-change_handle hs k g)))
]

pub get_handle-delete_handle : (hs : Handles) (k : ℕ) → get_handle (delete_handle hs k) k ≡ none
unfolding get_handle delete_handle
get_handle-delete_handle [] k = refl
get_handle-delete_handle ((j, h) ∷ hs) k = elim (Bool-cases (j == k)) [
  | inl e ↦ rw e (get_handle-delete_handle hs k)
  | inr e ↦ rw e (rw e (get_handle-delete_handle hs k))
]

pub one_more : (hs : Handles) (next : ℕ) → All (IsGiven next) hs → All (IsGiven (suc next)) hs
one_more [] next l = tt
one_more ((j, h) ∷ hs) next l = ((omega (arith, l.0.0), l.0.1), one_more hs next l.1)

pub rename_handles-lawful :
    (a b : Text) (hs : Handles) (next : ℕ)
    → All (IsGiven next) hs
    → All (IsGiven next) (rename_handles a b hs)
unfolding rename_handles IsFitting
rename_handles-lawful a b [] next l = tt
rename_handles-lawful a b ((j, h) ∷ hs) next l = (
  (l.0.0, record { fits = l.0.1.fits; guarded = l.0.1.guarded; one_right = l.0.1.one_right }),
  rename_handles-lawful a b hs next l.1,
)

-- The handle that `pendingWritableHandle` finds is in the map and open for writing.
pub pending-lawful :
    (hs : Handles) (next : ℕ) (path : Text)
    → All (IsGiven next) hs
    → IsFoundPending (pending_writable_handle hs path)
unfolding pending_writable_handle
pending-lawful [] next path l = tt
pending-lawful ((j, g) ∷ hs) next path l = elim (Bool-cases (is_pending path g)) [
  | inl e ↦ rw e (l.0.1, ground arith)
  | inr e ↦ rw e (pending-lawful hs next path l.1)
]

abbrev pub AfterLawful {ℓ} : {W : Type 0} {A : Type ℓ} → State W × Outcome A → Type 0
AfterLawful r = AllLawful r.0
