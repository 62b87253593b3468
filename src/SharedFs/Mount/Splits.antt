-- ===== src/SharedFs/Mount/Splits.antt =====
-- Proofs by the cases of a computed value.
use peerbit_examples.Prelude.{ℕ, ◌≡◌, refl, true, Option, none, some}
use peerbit_examples.SharedFs.Path.Split.{Text}
use peerbit_examples.SharedFs.Mount.Buffer.{OpenHandle, Fault, Outcome, ok, fail}
use peerbit_examples.SharedFs.Mount.Commit.{Begun, idle, read_only_path, unchanged, writing}
use peerbit_examples.SharedFs.Mount.Rights.{IsLawful}
use peerbit_examples.SharedFs.Mount.Lawful.{IsFound, IsFoundPending}

-- What holds of every case of a computed value holds of the value's `elim`.
module _ {ℓ κ} {R : Type ℓ} (P : R → Type κ) where
  pub found_split :
      (f : Option OpenHandle) {x : R} {y : OpenHandle → R}
      → IsFound f
      → P x
      → ((h : OpenHandle) → IsLawful h → P (y h))
      → P (elim f [ none ↦ x | some h ↦ y h ])
  found_split none i p q = p
  found_split (some h) i p q = q h i

  pub outcome_split {ι} :
      {A : Type ι} (o : Outcome A) {x : Fault → R} {y : A → R}
      → ((e : Fault) → o ≡ fail e → P (x e))
      → ((a : A) → o ≡ ok a → P (y a))
      → P (elim o [ fail e ↦ x e | ok a ↦ y a ])
  outcome_split (fail e) p q = p e refl
  outcome_split (ok a) p q = q a refl

  pub entry_split :
      {A : Type 0} (o : Outcome (Option A)) {x : Fault → R} {y : R} {z : A → R}
      → ((e : Fault) → P (x e))
      → P y
      → ((a : A) → P (z a))
      → P (elim o [ fail e ↦ x e | ok none ↦ y | ok (some a) ↦ z a ])
  entry_split (fail e) p q r = p e
  entry_split (ok none) p q r = q
  entry_split (ok (some a)) p q r = r a

  pub pending_split :
      (f : Option (ℕ × OpenHandle)) {x : R} {y : ℕ × OpenHandle → R}
      → IsFoundPending f
      → P x
      → ((r : ℕ × OpenHandle) → IsLawful r.1 → r.1.write ≡ true → P (y r))
      → P (elim f [ none ↦ x | some r ↦ y r ])
  pending_split none i p q = p
  pending_split (some r) i p q = q r i.0 i.1

  pub begun_split :
      (b : Begun) {x y : R} {u : OpenHandle → R} {v : OpenHandle → Text → R}
      → P x
      → P y
      → ((g : OpenHandle) → b ≡ unchanged g → P (u g))
      → ((g : OpenHandle) (hash : Text) → b ≡ writing g hash → P (v g hash))
      → P (elim b [ idle ↦ x | read_only_path ↦ y | unchanged g ↦ u g | writing g hash ↦ v g hash ])
  begun_split idle p q r t = p
  begun_split read_only_path p q r t = q
  begun_split (unchanged g) p q r t = r g refl
  begun_split (writing g hash) p q r t = t g hash refl
