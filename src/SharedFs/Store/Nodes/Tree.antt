-- ===== src/SharedFs/Store/Nodes/Tree.antt =====
-- The walk of `isWithinSubtree` up from a node.
use peerbit_examples.Prelude.{
  ℕ, subst, zero, suc, ◌+◌, ◌≤◌, ◌<◌, ◌≡◌, refl, sym, ap, ◌∙◌, ◌↔◌, inl, inr, Bool, true, false,
  ◌||◌, List, [], ◌∷◌, Option, none, some, arith, if◌then◌else◌, if-true, if-false, Bool-cases,
  Option-cases, length,
}
use peerbit_examples.SharedFs.Path.Split.{Text, same_text, same_text_iff}
use peerbit_examples.SharedFs.Store.Documents.{
  NodeRecord, Document, document_id, get_document, contains_text,
}
use peerbit_examples.SharedFs.Store.Nodes.{
  root_node_id, as_node, node_record, within_subtree, is_within_subtree,
}

-- From `id` the first step up to `ancestor` is the step numbered `k`; the root is no ancestor.
unfoldable pub Reaches : List Document → Text → ℕ → Text → Type 0
Reaches ds ancestor zero id = (same_text id root_node_id ≡ false) × (same_text id ancestor ≡ true)
Reaches ds ancestor (suc k) id =
    (same_text id root_node_id ≡ false)
    × (same_text id ancestor ≡ false)
    × ((r : NodeRecord) × (node_record ds id ≡ some r) × Reaches ds ancestor k r.parent_id)

-- `ancestor` is the node, or lies above it, and is met before the root.
abbrev pub IsBelow : List Document → Text → Text → Type 0
IsBelow ds id ancestor = (k : ℕ) × Reaches ds ancestor k id

pub same_record : {r q : NodeRecord} {o : Option NodeRecord} → o ≡ some r → o ≡ some q → r ≡ q
same_record e f = cc

Reaches-unique :
    (ds : List Document) (ancestor id : Text) (k j : ℕ)
    → Reaches ds ancestor k id
    → Reaches ds ancestor j id
    → k ≡ j
unfolding Reaches
Reaches-unique ds ancestor id zero zero h g = refl
Reaches-unique ds ancestor id zero (suc j) h g = cc
Reaches-unique ds ancestor id (suc k) zero h g = cc
Reaches-unique ds ancestor id (suc k) (suc j) h g = ap suc (
    Reaches-unique ds ancestor h.2.0.parent_id k j h.2.2 (
      subst (λ (r : NodeRecord). Reaches ds ancestor j r.parent_id) (same_record g.2.1 h.2.1)
        g.2.2))

-- The documents that the walk has not been at.
pub unvisited : List Document → List Text → ℕ
unvisited [] visited = 0
unvisited (d ∷ ds) visited =
    (if contains_text visited (document_id d) then 0 else 1) + unvisited ds visited

pub unvisited-le : (ds : List Document) (visited : List Text) → unvisited ds visited ≤ length ds
unfolding unvisited
unvisited-le [] visited = omega arith
unvisited-le (d ∷ ds) visited = ground (arith, unvisited-le ds visited)

pub unvisited_more :
    (ds : List Document) (visited : List Text) (id : Text)
    → unvisited ds (id ∷ visited) ≤ unvisited ds visited
unfolding unvisited contains_text
unvisited_more [] visited id = omega arith
unvisited_more (d ∷ ds) visited id = ground (arith, unvisited_more ds visited id)

pub unvisited_falls :
    (ds : List Document) (visited : List Text) (id : Text) (d : Document)
    → get_document ds id ≡ some d
    → contains_text visited id ≡ false
    → unvisited ds (id ∷ visited) < unvisited ds visited
unfolding unvisited contains_text get_document
unvisited_falls [] visited id d e c = cc
unvisited_falls (x ∷ ds) visited id d e c = elim (Bool-cases (same_text (document_id x) id)) [
  | inl s ↦
      let same : document_id x ≡ id = (same_text_iff _ _).0 s in
      let again : same_text id (document_id x) ≡ true = (same_text_iff _ _).1 (sym same) in
      let old : contains_text visited (document_id x) ≡ false =
        ap (contains_text visited) same ∙ c in
      rw (again, old) (omega (arith, unvisited_more ds visited id))
  | inr s ↦
      let rest : get_document ds id ≡ some d = sym (if-false _ _ _ s) ∙ e in
      ground (arith, unvisited_falls ds visited id d rest c)
]

pub found_document :
    (ds : List Document) (id : Text) (r : NodeRecord)
    → node_record ds id ≡ some r
    → (d : Document) × (get_document ds id ≡ some d)
unfolding node_record
found_document ds id r e = elim (Bool-cases (same_text id root_node_id)) [
  | inl s ↦ cc (if-true _ none (as_node (get_document ds id)) s)
  | inr s ↦ elim (Option-cases (get_document ds id)) [
    | inl n ↦ cc (if-false _ none (as_node (get_document ds id)) s, ap as_node n)
    | inr h ↦ h
  ]
]

-- The rounds of the walk.
module _ (fuel : ℕ) (ds : List Document) (visited : List Text) (current ancestor : Text) where
  root_round :
      same_text current root_node_id ≡ true
      → within_subtree (suc fuel) ds visited current ancestor ≡ some false
  unfolding within_subtree
  root_round a = rw (a, within_subtree) refl

  found_round :
      same_text current root_node_id ≡ false
      → same_text current ancestor ≡ true
      → within_subtree (suc fuel) ds visited current ancestor ≡ some true
  unfolding within_subtree
  found_round a b = rw (a, b, within_subtree) refl

  seen_round :
      same_text current root_node_id ≡ false
      → same_text current ancestor ≡ false
      → contains_text visited current ≡ true
      → within_subtree (suc fuel) ds visited current ancestor ≡ some false
  unfolding within_subtree
  seen_round a b c = rw (a, b, c, within_subtree) refl

  missing_round :
      same_text current root_node_id ≡ false
      → same_text current ancestor ≡ false
      → contains_text visited current ≡ false
      → node_record ds current ≡ none
      → within_subtree (suc fuel) ds visited current ancestor ≡ some false
  unfolding within_subtree
  missing_round a b c e = rw (a, b, c, e, within_subtree) refl

  up_round :
      (r : NodeRecord)
      → same_text current root_node_id ≡ false
      → same_text current ancestor ≡ false
      → contains_text visited current ≡ false
      → node_record ds current ≡ some r
      → within_subtree (suc fuel) ds visited current ancestor
        ≡ within_subtree fuel ds (current ∷ visited) r.parent_id ancestor
  unfolding within_subtree
  up_round r a b c e = rw (a, b, c, e, within_subtree) refl

-- The walk ends within the rounds.
within_subtree_total :
    (fuel : ℕ) (ds : List Document) (visited : List Text) (current ancestor : Text)
    → unvisited ds visited < fuel
    → (b : Bool) × (within_subtree fuel ds visited current ancestor ≡ some b)
within_subtree_total zero ds visited current ancestor h = absurd (omega arith)
within_subtree_total (suc fuel) ds visited current ancestor h =
    elim (Bool-cases (same_text current root_node_id)) [
      | inl a ↦ (false, root_round fuel ds visited current ancestor a)
      | inr a ↦ elim (Bool-cases (same_text current ancestor)) [
        | inl b ↦ (true, found_round fuel ds visited current ancestor a b)
        | inr b ↦ elim (Bool-cases (contains_text visited current)) [
          | inl c ↦ (false, seen_round fuel ds visited current ancestor a b c)
          | inr c ↦ elim (Option-cases (node_record ds current)) [
            | inl n ↦ (false, missing_round fuel ds visited current ancestor a b c n)
            | inr f ↦
                let (d, g) = found_document ds current f.0 f.1 in
                let rest =
                  within_subtree_total fuel ds (current ∷ visited) f.0.parent_id ancestor
                    (omega (arith, unvisited_falls ds visited current d g c, h)) in
                (rest.0, up_round fuel ds visited current ancestor f.0 a b c f.1 ∙ rest.1)
          ]
        ]
      ]
    ]

not_found : {A : Type 0} {o : Option Bool} → o ≡ some false → o ≡ some true → A
not_found e h = cc

no_rounds :
    (ds : List Document) (visited : List Text) (current ancestor : Text)
    → within_subtree 0 ds visited current ancestor ≡ some true
    → ⊥
unfolding within_subtree
no_rounds ds visited current ancestor h = cc

-- Where the walk answers that it found the ancestor, it is there.
within_subtree-Reaches :
    (fuel : ℕ) (ds : List Document) (visited : List Text) (current ancestor : Text)
    → within_subtree fuel ds visited current ancestor ≡ some true
    → (k : ℕ) × Reaches ds ancestor k current
unfolding Reaches
within_subtree-Reaches zero ds visited current ancestor h =
    absurd (no_rounds ds visited current ancestor h)
within_subtree-Reaches (suc fuel) ds visited current ancestor h =
    elim (Bool-cases (same_text current root_node_id)) [
      | inl a ↦ not_found (root_round fuel ds visited current ancestor a) h
      | inr a ↦ elim (Bool-cases (same_text current ancestor)) [
        | inl b ↦ (0, (a, b))
        | inr b ↦ elim (Bool-cases (contains_text visited current)) [
          | inl c ↦ not_found (seen_round fuel ds visited current ancestor a b c) h
          | inr c ↦ elim (Option-cases (node_record ds current)) [
            | inl n ↦ not_found (missing_round fuel ds visited current ancestor a b c n) h
            | inr f ↦
                let rest =
                  within_subtree-Reaches fuel ds (current ∷ visited) f.0.parent_id ancestor
                    (sym (up_round fuel ds visited current ancestor f.0 a b c f.1) ∙ h) in
                (suc rest.0, (a, b, (f.0, f.1, rest.1)))
          ]
        ]
      ]
    ]

-- No node that the walk has been at is nearer to the ancestor, so none comes again.
further :
    (ds : List Document) (visited : List Text) (current ancestor : Text) (k : ℕ)
    → Reaches ds ancestor (suc k) current
    → ((id : Text) (j : ℕ) → contains_text visited id ≡ true → Reaches ds ancestor j id → suc k < j)
    → (id : Text) (j : ℕ) → contains_text (current ∷ visited) id ≡ true
    → Reaches ds ancestor j id
    → k < j
unfolding contains_text
further ds visited current ancestor k h g id j c r = elim (Bool-cases (same_text current id)) [
  | inl s ↦
      let here : Reaches ds ancestor j current =
        subst (λ x. Reaches ds ancestor j x) (sym ((same_text_iff current id).0 s)) r in
      omega (arith, Reaches-unique ds ancestor current (suc k) j h here)
  | inr s ↦ omega (arith, g id j (old s c) r)
]
  where
    old : {a b : Bool} → a ≡ false → a || b ≡ true → b ≡ true
    old {a} {b} e f = ground arith

-- The walk finds an ancestor that is there, where it has been at no node above it yet.
Reaches-within_subtree :
    (fuel : ℕ) (ds : List Document) (visited : List Text) (current ancestor : Text) (k : ℕ)
    → Reaches ds ancestor k current
    → ((id : Text) (j : ℕ) → contains_text visited id ≡ true → Reaches ds ancestor j id → k < j)
    → unvisited ds visited < fuel
    → within_subtree fuel ds visited current ancestor ≡ some true
unfolding Reaches
Reaches-within_subtree zero ds visited current ancestor k h g f = absurd (omega arith)
Reaches-within_subtree (suc fuel) ds visited current ancestor zero h g f =
    found_round fuel ds visited current ancestor h.0 h.1
Reaches-within_subtree (suc fuel) ds visited current ancestor (suc k) h g f =
    elim (Bool-cases (contains_text visited current)) [
      | inl c ↦ absurd (omega (arith, g current (suc k) c h))
      | inr c ↦
          let (a, b, (r, e, up)) = h in
          let (d, q) = found_document ds current r e in
          up_round fuel ds visited current ancestor r a b c e
          ∙ Reaches-within_subtree fuel ds (current ∷ visited) r.parent_id ancestor k up
              (further ds visited current ancestor k h g)
              (omega (arith, unvisited_falls ds visited current d q c, f))
    ]

-- The test ends for every index, and answers "true" exactly when the ancestor is the node or lies above
-- it, and neither is the root: the walk up ends at the root without an answer of "true".  Cycles of
-- parents are no obstacle.
pub is_within_subtree-IsBelow :
    (ds : List Document) (id ancestor : Text)
    → ((b : Bool) × (is_within_subtree ds id ancestor ≡ some b))
      × ((is_within_subtree ds id ancestor ≡ some true) ↔ IsBelow ds id ancestor)
unfolding is_within_subtree contains_text
is_within_subtree-IsBelow ds id ancestor =
    let room : unvisited ds [] < suc (length ds) = omega (arith, unvisited-le ds []) in
    (
      within_subtree_total (suc (length ds)) ds [] id ancestor room,
      (
        λ h. within_subtree-Reaches (suc (length ds)) ds [] id ancestor h,
        λ h.
            Reaches-within_subtree (suc (length ds)) ds [] id ancestor h.0 h.1 (λ x j c r. cc) room,
      ),
    )
