-- ===== src/SharedFs/Store/Order.antt =====
-- `Array.prototype.sort` by a comparison, as an insertion sort that keeps the order of equals, and the
-- comparisons `oldestFirst` and `newestFirst` of packages/shared-fs/library/src/index.ts.  The order of
-- ids by `localeCompare` is a parameter.
use peerbit_examples.Prelude.{
  ℕ, subst, ap, ◌∙◌, ◌≡◌, refl, ◌⊎◌, ◌↔◌, inl, inr, Bool, true, false, List, [], ◌∷◌, Option, none,
  some, arith, ltb, ◌==◌, if◌then◌else◌, Bool-cases,
}
use peerbit_examples.SharedFs.Path.Split.{Text}

-- `x` is an entry of the list.
abbrev pub In : {A : Type 0} → A → List A → Type 0
In x [] = ⊥
In x (y ∷ ys) = (x ≡ y) ⊎ In x ys

abbrev pub first : {A : Type 0} → List A → Option A
first [] = none
first (x ∷ xs) = some x

-- A comparison that is asymmetric, and under which to be no later is transitive.
pub record IsStrict {A : Type 0} (lt : A → A → Bool) : Type 0 where
  pub asym : (a b : A) → lt a b ≡ true → lt b a ≡ false
  pub no_later : (a b c : A) → lt b a ≡ false → lt c b ≡ false → lt c a ≡ false

module _ {A : Type 0} (lt : A → A → Bool) where
  unfoldable pub insert : A → List A → List A
  insert x [] = x ∷ []
  insert x (y ∷ ys) = let rest = insert x ys in if lt y x then y ∷ rest else x ∷ y ∷ ys

  unfoldable pub sort : List A → List A
  sort [] = []
  sort (x ∷ xs) = insert x (sort xs)

  -- An entry that no other entry precedes.
  unfoldable pub IsLeast : A → List A → Type 0
  IsLeast x xs = In x xs × ((y : A) → In y xs → lt y x ≡ false)

  pub In-insert : (a x : A) (ys : List A) → In a (insert x ys) ↔ In a (x ∷ ys)
  unfolding insert
  In-insert a x [] = (λ h. h, λ h. h)
  In-insert a x (y ∷ ys) = elim (Bool-cases (lt y x)) [
    | inl e ↦ rw e (swapped (In-insert a x ys).0, swapped_back (In-insert a x ys).1)
    | inr e ↦ rw e (λ h. h, λ h. h)
  ]
    where
      swapped : {P Q R S : Type 0} → (P → R ⊎ S) → Q ⊎ P → R ⊎ (Q ⊎ S)
      swapped f (inl q) = inr (inl q)
      swapped f (inr p) = elim (f p) [ inl r ↦ inl r | inr s ↦ inr (inr s) ]

      swapped_back : {P Q R S : Type 0} → (R ⊎ S → P) → R ⊎ (Q ⊎ S) → Q ⊎ P
      swapped_back f (inl r) = inr (f (inl r))
      swapped_back f (inr (inl q)) = inl q
      swapped_back f (inr (inr s)) = inr (f (inr s))

  pub In-sort : (a : A) (xs : List A) → In a (sort xs) ↔ In a xs
  unfolding sort
  In-sort a [] = (λ h. h, λ h. h)
  In-sort a (x ∷ xs) = (
    λ h. elim ((In-insert a x (sort xs)).0 h) [ inl e ↦ inl e | inr i ↦ inr ((In-sort a xs).0 i) ],
    λ h. (In-insert a x (sort xs)).1 (elim h [ inl e ↦ inl e | inr i ↦ inr ((In-sort a xs).1 i) ]),
  )

  -- Which entries there are is what counts.
  pub IsLeast-of :
      (xs ys : List A) (x : A) → ((a : A) → In a xs ↔ In a ys) → IsLeast x xs → IsLeast x ys
  unfolding IsLeast
  IsLeast-of xs ys x same h = ((same x).0 h.0, λ z i. h.1 z ((same z).1 i))

  module _ (strict : IsStrict lt) where
    insert-IsLeast :
        (x y : A) (ys : List A)
        → ((z : A) → In z ys → lt z y ≡ false)
        → (lt y x ≡ false)
        → (z : A) → In z (y ∷ ys)
        → lt z x ≡ false
    insert-IsLeast x y ys h e z (inl p) = rw p e
    insert-IsLeast x y ys h e z (inr i) = strict.no_later x y z e (h z i)

    irrefl : (x : A) → lt x x ≡ false
    irrefl x = elim (Bool-cases (lt x x)) [ inl e ↦ strict.asym x x e | inr e ↦ e ]

    -- The first entry of what is inserted into a list whose first entry is least.
    insert-first :
        (x : A) (ys : List A)
        → ((y : A) → first ys ≡ some y → IsLeast y ys)
        → (y : A) → first (insert x ys) ≡ some y
        → IsLeast y (x ∷ ys)
    unfolding insert IsLeast
    insert-first x [] h y e =
        subst (λ v. IsLeast v (x ∷ [])) (ground arith)
          (inl refl, λ z i. elim i [ inl p ↦ rw p (irrefl x) | inr n ↦ absurd n ])
    insert-first x (w ∷ ws) h y e = elim (Bool-cases (lt w x)) [
      | inl b ↦
          subst (λ v. IsLeast v (x ∷ w ∷ ws)) (ground arith)
            (
              inr (inl refl),
              λ z i. elim i [ inl p ↦ rw p (strict.asym w x b) | inr j ↦ (h w refl).1 z j ],
            )
      | inr b ↦
          subst (λ v. IsLeast v (x ∷ w ∷ ws)) (ground arith)
            (
              inl refl,
              λ z i. elim i [
                | inl p ↦ rw p (irrefl x)
                | inr j ↦ insert-IsLeast x w ws (λ v k. (h w refl).1 v (inr k)) b z j
              ],
            )
    ]

    pub first-sort : (xs : List A) (y : A) → first (sort xs) ≡ some y → IsLeast y xs
    unfolding sort IsLeast
    first-sort [] y e = cc
    first-sort (x ∷ xs) y e =
        IsLeast-of (x ∷ sort xs) (x ∷ xs) y
          (λ a. (
            λ h. elim h [ inl p ↦ inl p | inr i ↦ inr ((In-sort a xs).0 i) ],
            λ h. elim h [ inl p ↦ inl p | inr i ↦ inr ((In-sort a xs).1 i) ],
          ))
          (insert-first x (sort xs)
            (λ v q.
              IsLeast-of xs (sort xs) v (λ a. ((In-sort a xs).1, (In-sort a xs).0))
                (first-sort xs v q))
            y e)

  -- What two lists with the same entries have as their least is the same, where no two entries tie.
  pub least_unique :
      (xs ys : List A) (x y : A)
      → ((a : A) → In a xs ↔ In a ys)
      → ((a b : A) → In a xs → In b xs → lt a b ≡ false → lt b a ≡ false → a ≡ b)
      → IsLeast x xs
      → IsLeast y ys
      → x ≡ y
  unfolding IsLeast
  least_unique xs ys x y same ties h g =
      ties x y h.0 ((same y).1 g.0) (g.1 x ((same x).0 h.0)) (h.1 y ((same y).1 g.0))

pub first-In : {A : Type 0} (xs : List A) (x : A) → first xs ≡ some x → In x xs
first-In [] x e = cc
first-In (y ∷ ys) x e = inl (ground arith)

pub first_nothing : {A : Type 0} (xs : List A) (x : A) → first xs ≡ none → In x xs → ⊥
first_nothing [] x e i = i
first_nothing (y ∷ ys) x e i = cc

-- Lists with the same entries, sorted by comparisons that agree on them, begin with the same entry, where
-- no two entries tie.
pub first-sort_same :
    {A : Type 0} (lt under : A → A → Bool)
    → IsStrict lt
    → IsStrict under
    → (xs ys : List A) → ((a : A) → In a xs ↔ In a ys)
    → ((a b : A) → In a xs → In b xs → lt a b ≡ under a b)
    → ((a b : A) → In a xs → In b xs → lt a b ≡ false → lt b a ≡ false → a ≡ b)
    → first (sort lt xs) ≡ first (sort under ys)
unfolding IsLeast
first-sort_same {A} lt under strict strict' xs ys same agree ties =
    compare_firsts (first (sort lt xs)) (first (sort under ys)) refl refl
  where
    least : (y : A) → IsLeast under y ys → IsLeast lt y ys
    least y h = (h.0, λ z i. agree z y ((same z).1 i) ((same y).1 h.0) ∙ h.1 z i)

    compare_firsts : (o p : Option A) → first (sort lt xs) ≡ o → first (sort under ys) ≡ p → o ≡ p
    compare_firsts none none e f = refl
    compare_firsts none (some y) e f = absurd (
        first_nothing (sort lt xs) y e (
          (In-sort lt y xs).1 ((same y).1 ((In-sort under y ys).0 (first-In (sort under ys) y f)))))
    compare_firsts (some x) none e f = absurd (
        first_nothing (sort under ys) x f
          ((In-sort under x ys).1 ((same x).0 ((In-sort lt x xs).0 (first-In (sort lt xs) x e)))))
    compare_firsts (some x) (some y) e f = ap some (
        least_unique lt xs ys x y same ties (first-sort lt strict xs x e)
          (least y (first-sort under strict' ys y f)))

-- A comparison that a sort may use, as `localeCompare` is: `before a b` is a negative comparison.  Ids that
-- differ may tie.
pub record IsComparison (before : Text → Text → Bool) : Type 0 where
  pub asym : (a b : Text) → before a b ≡ true → before b a ≡ false
  pub no_later : (a b d : Text) → before b a ≡ false → before d b ≡ false → before d a ≡ false

-- A total order of ids: no two of them tie.
pub record IsCollation (before : Text → Text → Bool) : Type 0 where
  pub asym : (a b : Text) → before a b ≡ true → before b a ≡ false
  pub trans : (a b c : Text) → before a b ≡ true → before b c ≡ true → before a c ≡ true
  pub total : (a b : Text) → before a b ≡ false → before b a ≡ false → a ≡ b

pub collation-IsComparison :
    (before : Text → Text → Bool) → IsCollation before → IsComparison before
collation-IsComparison before c = record {
  asym = c.asym;
  no_later = λ a b d h g. ground (arith, c.trans d a b, c.total a b);
}

-- `aTime - bTime || a.localeCompare(b)`, below zero.
unfoldable pub earlier : (Text → Text → Bool) → ℕ → Text → ℕ → Text → Bool
earlier before t a u b = if t == u then before a b else ltb t u

module _ (before : Text → Text → Bool) (c : IsComparison before) where
  pub earlier-asym :
      (t u : ℕ) (a b : Text) → earlier before t a u b ≡ true → earlier before u b t a ≡ false
  unfolding earlier
  earlier-asym t u a b h = ground (arith, c.asym a b)

  pub earlier_no_later :
      (t u v : ℕ) (a b d : Text)
      → earlier before u b t a ≡ false
      → earlier before v d u b ≡ false
      → earlier before v d t a ≡ false
  unfolding earlier
  earlier_no_later t u v a b d h g = ground (arith, c.no_later a b d)

-- Ids of a tie are compared, and tie.
pub earlier_ties :
    (before : Text → Text → Bool) (t u : ℕ) (a b : Text)
    → earlier before t a u b ≡ false
    → earlier before u b t a ≡ false
    → (before a b ≡ false) × (before b a ≡ false)
unfolding earlier
earlier_ties before t u a b h g = (ground arith, ground arith)
