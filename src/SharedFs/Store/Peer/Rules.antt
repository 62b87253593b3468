-- ===== src/SharedFs/Store/Peer/Rules.antt =====
-- Rules for the steps that calls are made of: what is asked before and said after a call.
use peerbit_examples.Prelude.{◌≡◌, refl, Bool, true, false, inl, inr, if◌then◌else◌, Bool-cases}
use peerbit_examples.SharedFs.Mount.Buffer.{Fault, Outcome, ok, fail}
use peerbit_examples.SharedFs.Store.Documents.{Document}
use peerbit_examples.SharedFs.Store.Peer.{
  Peer, Act, ◌>>=◌, ◌>>◌, pure, raise, gets, asks, may_put, put,
}

-- What holds of how a call ends: `Q` of an answer, `E` where it throws.
abbrev pub Ending : {S A : Type 0} → (A → S → Type 0) → (S → Type 0) → S × Outcome A → Type 0
Ending Q E (s, ok a) = Q a s
Ending Q E (s, fail e) = E s

-- From a state with `P` the call ends as `Q` and `E` say.
pub record Triple {S A : Type 0} (P : S → Type 0) (m : Act S A) (Q : A → S → Type 0)
    (E : S → Type 0) : Type 0 where
  pub run : (s : S) → P s → Ending Q E (m s)

module _ {S : Type 0} {P E : S → Type 0} where
  pub pure_rule :
      {A : Type 0} {Q : A → S → Type 0} (a : A) → ((s : S) → P s → Q a s) → Triple P (pure a) Q E
  unfolding pure
  pure_rule a h = record { run = h }

  pub raise_rule :
      {A : Type 0} {Q : A → S → Type 0} (e : Fault) → ((s : S) → P s → E s) → Triple P (raise e) Q E
  unfolding raise
  raise_rule e h = record { run = h }

  pub gets_rule :
      {A : Type 0} {Q : A → S → Type 0} (f : S → A)
      → ((s : S) → P s → Q (f s) s)
      → Triple P (gets f) Q E
  unfolding gets
  gets_rule f h = record { run = h }

  pub asks_rule :
      {A : Type 0} {Q : A → S → Type 0} (f : S → Outcome A)
      → ((s : S) (a : A) → f s ≡ ok a → P s → Q a s)
      → ((s : S) → P s → E s)
      → Triple P (asks f) Q E
  unfolding asks
  asks_rule {A} {Q} f h g = record { run = λ s p. go s p (f s) refl }
    where
      go : (s : S) → P s → (o : Outcome A) → f s ≡ o → Ending Q E (s, o)
      go s p (ok a) e = h s a e p
      go s p (fail x) e = g s p

  pub bind_rule :
      {A B : Type 0} {Q : A → S → Type 0} {R : B → S → Type 0} (m : Act S A) (f : A → Act S B)
      → Triple P m Q E
      → ((a : A) → Triple (Q a) (f a) R E)
      → Triple P (m >>= f) R E
  unfolding ◌>>=◌
  bind_rule {A} {B} {Q} {R} m f first rest = record { run = λ s p. go (m s) (first.run s p) }
    where
      go :
          (x : S × Outcome A)
          → Ending Q E x
          → Ending R E (elim x.1 [ ok a ↦ f a x.0 | fail e ↦ (x.0, fail e) ])
      go (t, ok a) q = (rest a).run t q
      go (t, fail e) q = q

  pub weaken_rule :
      {A : Type 0} {F : S → Type 0} {Q : A → S → Type 0} (m : Act S A)
      → ((s : S) → P s → F s)
      → Triple F m Q E
      → Triple P m Q E
  weaken_rule m h t = record { run = λ s p. t.run s (h s p) }

  -- A fact that is no matter of the state.
  pub fact_rule :
      {A F : Type 0} {Q : A → S → Type 0} (m : Act S A)
      → (F → Triple P m Q E)
      → Triple (λ s. F × P s) m Q E
  fact_rule m h = record { run = λ s p. (h p.0).run s p.1 }

  pub after_rule :
      {A : Type 0} {Q R : A → S → Type 0} (m : Act S A)
      → ((a : A) (s : S) → Q a s → R a s)
      → Triple P m Q E
      → Triple P m R E
  after_rule {A} {Q} {R} m h t = record { run = λ s p. go (m s) (t.run s p) }
    where
      go : (x : S × Outcome A) → Ending Q E x → Ending R E x
      go (s, ok a) q = h a s q
      go (s, fail e) q = q

  pub seq_rule :
      {A B : Type 0} {Q : S → Type 0} {R : B → S → Type 0} (m : Act S A) (n : Act S B)
      → Triple P m (λ a. Q) E
      → Triple Q n R E
      → Triple P (m >> n) R E
  unfolding ◌>>◌
  seq_rule m n first rest = bind_rule m (λ a. n) first (λ a. rest)

  pub if_rule :
      {A : Type 0} {Q : A → S → Type 0} (b : Bool) (m n : Act S A)
      → (b ≡ true → Triple P m Q E)
      → (b ≡ false → Triple P n Q E)
      → Triple P (if b then m else n) Q E
  if_rule true m n h g = h refl
  if_rule false m n h g = g refl

  pub put_rule :
      {Q : Unit {0} → S → Type 0} (peer : Peer S) (d : Document)
      → ((s : S) → P s → Q tt (peer.index.put s d))
      → ((s : S) → P s → E s)
      → Triple P (put peer d) Q E
  unfolding put
  put_rule peer d h g = record {
    run =
        λ s p. elim (Bool-cases (may_put peer s d)) [ inl e ↦ rw e (h s p) | inr e ↦ rw e (g s p) ];
  }

-- Nothing is said of how the call ends.
pub any_rule : {S A : Type 0} {P : S → Type 0} (m : Act S A) → Triple P m (λ a s. Unit) (λ s. Unit)
any_rule {S} {A} m = record { run = λ s p. go (m s) }
  where
    go : (x : S × Outcome A) → Ending (λ a s. Unit) (λ s. Unit) x
    go (s, ok a) = tt
    go (s, fail e) = tt
