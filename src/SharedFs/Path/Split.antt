-- ===== src/SharedFs/Path/Split.antt =====
-- `split("/")` and `join("/")` on texts.
use peerbit_examples.Prelude.{
  ℕ, ◌≡◌, ◌↔◌, refl, ap, ◌∙◌, ◌⊎◌, Bool, true, false, ◌&&◌, List, [], ◌∷◌, ◌++◌, arith, ◌==◌,
  if◌then◌else◌, Bool-cases, inl, inr, All,
}

abbrev pub Text : Type 0
Text = List ℕ

abbrev pub slash : ℕ
slash = 47

unfoldable pub same_text : Text → Text → Bool
same_text [] [] = true
same_text (a ∷ p) (b ∷ q) = a == b && same_text p q
same_text _ _ = false

pub same_text_iff : (a b : Text) → (same_text a b ≡ true) ↔ (a ≡ b)
unfolding same_text
same_text_iff [] [] = ground arith
same_text_iff (a ∷ p) (b ∷ q) = ground (arith, same_text_iff p q)
same_text_iff [] (b ∷ q) = ground arith
same_text_iff (a ∷ p) [] = ground arith

-- The first part grows by a character.
abbrev pub onto_first : ℕ → List Text → List Text
onto_first c [] = (c ∷ []) ∷ []
onto_first c (p ∷ ps) = (c ∷ p) ∷ ps

unfoldable pub split : Text → List Text
split [] = [] ∷ []
split (c ∷ cs) = let rest = split cs in if c == slash then [] ∷ rest else onto_first c rest

unfoldable pub join : List Text → Text
join [] = []
join (p ∷ []) = p
join (p ∷ q ∷ ps) = p ++ slash ∷ join (q ∷ ps)

-- No character of the text is a slash.
abbrev pub HasNo : ℕ → Text → Type 0
HasNo k = All (λ c. (c == k) ≡ false)

pub split-HasNo : (cs : Text) → All (HasNo slash) (split cs)
unfolding split
split-HasNo [] = (tt, tt)
split-HasNo (c ∷ cs) = onto (split cs) (split-HasNo cs) (Bool-cases (c == slash))
  where
    onto :
        (ps : List Text)
        → All (HasNo slash) ps
        → ((c == slash) ≡ true) ⊎ ((c == slash) ≡ false)
        → All (HasNo slash) (if c == slash then [] ∷ ps else onto_first c ps)
    onto ps h (inl e) = rw e (tt, h)
    onto [] h (inr e) = rw e ((e, tt), tt)
    onto (p ∷ ps) h (inr e) = rw e ((e, h.0), h.1)

-- What no character of the text is, no character of a part is.
pub split-HasNo_of : (k : ℕ) (cs : Text) → HasNo k cs → All (HasNo k) (split cs)
unfolding split
split-HasNo_of k [] h = (tt, tt)
split-HasNo_of k (c ∷ cs) h = onto (split cs) (split-HasNo_of k cs h.1) (Bool-cases (c == slash))
  where
    onto :
        (ps : List Text)
        → All (HasNo k) ps
        → ((c == slash) ≡ true) ⊎ ((c == slash) ≡ false)
        → All (HasNo k) (if c == slash then [] ∷ ps else onto_first c ps)
    onto ps g (inl e) = rw e (tt, g)
    onto [] g (inr e) = rw e ((h.0, tt), tt)
    onto (p ∷ ps) g (inr e) = rw e ((h.0, g.0), g.1)

split-append : (p cs : Text) → HasNo slash p → split (p ++ slash ∷ cs) ≡ p ∷ split cs
unfolding split
split-append [] cs h = refl
split-append (c ∷ p) cs h = rw (h.0, split-append p cs h.1)

split_part : (p : Text) → HasNo slash p → split p ≡ p ∷ []
unfolding split
split_part [] h = refl
split_part (c ∷ p) h = rw (h.0, split_part p h.1)

-- Splitting takes back a joined list of parts that is not empty.
pub split-join :
    (p : Text) (ps : List Text) → All (HasNo slash) (p ∷ ps) → split (join (p ∷ ps)) ≡ p ∷ ps
unfolding join
split-join p [] h = split_part p h.0
split-join p (q ∷ ps) h = split-append p (join (q ∷ ps)) h.0 ∙ ap (◌∷◌ p) (split-join q ps h.1)
