-- ===== src/SharedFs/Store/Nodes/Acyclic.antt =====
-- The tree of nodes under a put: the walk up from a node.
use peerbit_examples.Prelude.{
  ℕ, subst, zero, suc, ◌≤◌, ◌≡◌, refl, sym, ap, ◌∙◌, ◌⊎◌, inl, inr, Bool, true, false, List, Option,
  none, some, arith, if◌then◌else◌, if-true, if-false, Bool-cases,
}
use peerbit_examples.SharedFs.Path.Split.{Text, same_text, same_text_iff}
use peerbit_examples.SharedFs.Store.Documents.{NodeRecord, Document, document_id, get_document}
use peerbit_examples.SharedFs.Store.Nodes.{root_node_id, as_node, node_record}
use peerbit_examples.SharedFs.Store.Nodes.Tree.{Reaches, IsBelow, same_record}

-- The walk up from `id` ends, at the root or at a node that is missing, after `k` steps.
unfoldable pub Ends : List Document → ℕ → Text → Type 0
Ends ds zero id = node_record ds id ≡ none
Ends ds (suc k) id = (r : NodeRecord) × (node_record ds id ≡ some r) × Ends ds k r.parent_id

-- The parents lead in no circle: every walk up ends.
abbrev pub IsAcyclic : List Document → Type 0
IsAcyclic ds = (id : Text) → (k : ℕ) × Ends ds k id

-- `es` is what `ds` is after `d` is put.
abbrev pub IsPut : List Document → Document → List Document → Type 0
IsPut ds d es =
    (id : Text)
    → get_document es id ≡ (if same_text (document_id d) id then some d else get_document ds id)

pub none_or_some : {A : Type 0} {B : Type 0} {o : Option A} {a : A} → o ≡ none → o ≡ some a → B
none_or_some e f = cc

Ends-unique : (ds : List Document) (k j : ℕ) (id : Text) → Ends ds k id → Ends ds j id → k ≡ j
unfolding Ends
Ends-unique ds zero zero id h g = refl
Ends-unique ds zero (suc j) id h g = none_or_some h g.1
Ends-unique ds (suc k) zero id h g = none_or_some g h.1
Ends-unique ds (suc k) (suc j) id h g = ap suc (
    Ends-unique ds k j h.0.parent_id h.2
      (subst (λ (r : NodeRecord). Ends ds j r.parent_id) (same_record g.1 h.1) g.2))

Ends-Reaches :
    (ds : List Document) (ancestor : Text) (k j : ℕ) (id : Text)
    → Reaches ds ancestor k id
    → Ends ds j ancestor
    → (n : ℕ) × (j ≤ n) × Ends ds n id
unfolding Ends Reaches
Ends-Reaches ds ancestor zero j id h e =
    (j, omega arith, subst (Ends ds j) (sym ((same_text_iff _ _).0 h.1)) e)
Ends-Reaches ds ancestor (suc k) j id h e =
    let (n, le, up) = Ends-Reaches ds ancestor k j h.2.0.parent_id h.2.2 e in
    (suc n, omega (arith, le), (h.2.0, h.2.1, up))

-- Where there is no cycle, no node is above its parent.
pub parent-not-IsBelow :
    (ds : List Document) (id : Text) (r : NodeRecord)
    → IsAcyclic ds
    → node_record ds id ≡ some r
    → IsBelow ds r.parent_id id
    → ⊥
unfolding Ends
parent-not-IsBelow ds id r acyclic e below =
    let (j, up) = acyclic id in
    let (n, le, longer) = Ends-Reaches ds id below.0 j r.parent_id below.1 up in
    let round : Ends ds (suc n) id = (r, e, longer) in
    absurd (omega (arith, le, Ends-unique ds j (suc n) id up round))

pub node_record-root :
    (ds : List Document) (id : Text) → same_text id root_node_id ≡ true → node_record ds id ≡ none
unfolding node_record
node_record-root ds id e = if-true _ _ _ e

pub node_record-inner :
    (ds : List Document) (id : Text)
    → same_text id root_node_id ≡ false
    → node_record ds id ≡ as_node (get_document ds id)
unfolding node_record
node_record-inner ds id e = if-false _ _ _ e

not-root :
    (ds : List Document) (id : Text) (r : NodeRecord)
    → node_record ds id ≡ some r
    → same_text id root_node_id ≡ false
not-root ds id r e = elim (Bool-cases (same_text id root_node_id)) [
  | inl s ↦ none_or_some (node_record-root ds id s) e
  | inr s ↦ s
]

pub same_text_flip : {b : Bool} (x y : Text) → same_text x y ≡ b → same_text y x ≡ b
same_text_flip {b = true} x y e = (same_text_iff y x).1 (sym ((same_text_iff x y).0 e))
same_text_flip {b = false} x y e = elim (Bool-cases (same_text y x)) [
  | inl s ↦ cc ((same_text_iff x y).1 (sym ((same_text_iff y x).0 s)))
  | inr s ↦ s
]

IsBelow-child :
    (ds : List Document) (id ancestor : Text) (r : NodeRecord)
    → same_text id root_node_id ≡ false
    → node_record ds id ≡ some r
    → same_text ancestor id ≡ false
    → IsBelow ds r.parent_id ancestor
    → IsBelow ds id ancestor
unfolding Reaches
IsBelow-child ds id ancestor r a e s b = (suc b.0, (a, same_text_flip ancestor id s, (r, e, b.1)))

module _ (ds es : List Document) (d : Document) (stored : IsPut ds d es) where
  -- The node of another id is what it was.
  node_record_kept :
      (id : Text) → same_text (document_id d) id ≡ false → node_record es id ≡ node_record ds id
  node_record_kept id e = elim (Bool-cases (same_text id root_node_id)) [
    | inl s ↦ node_record-root es id s ∙ sym (node_record-root ds id s)
    | inr s ↦
        node_record-inner es id s
        ∙ ap as_node (stored id ∙ if-false _ _ _ e)
        ∙ sym (node_record-inner ds id s)
  ]

  -- Under the id of what is put stands what is put.
  node_record_new :
      (id : Text)
      → same_text (document_id d) id ≡ true
      → same_text id root_node_id ≡ false
      → node_record es id ≡ as_node (some d)
  node_record_new id e s = node_record-inner es id s ∙ ap as_node (stored id ∙ if-true _ _ _ e)

  -- A walk that does not come to what is put is a walk as before.
  pub Reaches-before :
      (ancestor : Text) (k : ℕ) (id : Text)
      → ((as_node (some d) ≡ none) ⊎ (IsBelow ds id (document_id d) → ⊥))
      → Reaches es ancestor k id
      → Reaches ds ancestor k id
  unfolding Reaches
  Reaches-before ancestor zero id clear h = h
  Reaches-before ancestor (suc k) id clear h = elim (Bool-cases (same_text (document_id d) id)) [
    | inl s ↦ elim clear [
      | inl other ↦ none_or_some (node_record_new id s h.0 ∙ other) h.2.1
      | inr apart ↦ absurd (apart (0, (h.0, same_text_flip (document_id d) id s)))
    ]
    | inr s ↦
        let old : node_record ds id ≡ some h.2.0 = sym (node_record_kept id s) ∙ h.2.1 in
        (
          h.0,
          h.1,
          (
            h.2.0,
            old,
            Reaches-before ancestor k h.2.0.parent_id
                (elim clear [
                  | inl other ↦ inl other
                  | inr apart ↦
                      inr (λ b. apart (IsBelow-child ds id (document_id d) h.2.0 h.0 old s b))
                ])
                h.2.2,
          ),
        )
  ]

  -- A node is what it was, or it is what was put.
  pub node_record_cases :
      (id : Text)
      → (node_record es id ≡ node_record ds id)
        ⊎ ((same_text id root_node_id ≡ false)
            × (same_text (document_id d) id ≡ true)
            × (node_record es id ≡ as_node (some d)))
  node_record_cases id = elim (Bool-cases (same_text (document_id d) id)) [
    | inl s ↦ elim (Bool-cases (same_text id root_node_id)) [
      | inl a ↦ inl (node_record-root es id a ∙ sym (node_record-root ds id a))
      | inr a ↦ inr (a, s, node_record_new id s a)
    ]
    | inr s ↦ inl (node_record_kept id s)
  ]

  -- What is no node can only cut a walk short.
  Ends-other : as_node (some d) ≡ none → (k : ℕ) (id : Text) → Ends ds k id → (j : ℕ) × Ends es j id
  unfolding Ends
  Ends-other other zero id h = elim (node_record_cases id) [
    | inl e ↦ (0, e ∙ h)
    | inr n ↦ (0, n.2 ∙ other)
  ]
  Ends-other other (suc k) id h =
      let rest = Ends-other other k h.0.parent_id h.2 in
      elim (node_record_cases id) [
        | inl e ↦ (suc rest.0, (h.0, e ∙ h.1, rest.1))
        | inr n ↦ (0, n.2 ∙ other)
      ]

  -- A walk that does not come to what is put ends as before.
  Ends-kept :
      (k : ℕ) (id : Text)
      → (IsBelow ds id (document_id d) → ⊥)
      → Ends ds k id
      → (j : ℕ) × Ends es j id
  unfolding Ends Reaches
  Ends-kept zero id apart h = elim (node_record_cases id) [
    | inl e ↦ (0, e ∙ h)
    | inr n ↦ absurd (apart (0, (n.0, same_text_flip (document_id d) id n.1)))
  ]
  Ends-kept (suc k) id apart h = elim (Bool-cases (same_text (document_id d) id)) [
    | inl s ↦ absurd (apart (0, (not-root ds id h.0 h.1, same_text_flip (document_id d) id s)))
    | inr s ↦
        let rest =
          Ends-kept k h.0.parent_id
            (λ b. apart (IsBelow-child ds id (document_id d) h.0 (not-root ds id h.0 h.1) h.1 s b))
            h.2 in
        (suc rest.0, (h.0, node_record_kept id s ∙ h.1, rest.1))
  ]

  -- A walk that comes to the node that is put goes on from its new parent.
  Ends-through :
      (r : NodeRecord)
      → as_node (some d) ≡ some r
      → ((j : ℕ) × Ends es j r.parent_id)
      → (k : ℕ) (id : Text) → Ends ds k id
      → (j : ℕ) × Ends es j id
  unfolding Ends
  Ends-through r new up zero id h = elim (node_record_cases id) [
    | inl e ↦ (0, e ∙ h)
    | inr n ↦ (suc up.0, (r, n.2 ∙ new, up.1))
  ]
  Ends-through r new up (suc k) id h =
      let rest = Ends-through r new up k h.0.parent_id h.2 in
      elim (node_record_cases id) [
        | inl e ↦ (suc rest.0, (h.0, e ∙ h.1, rest.1))
        | inr n ↦ (suc up.0, (r, n.2 ∙ new, up.1))
      ]

  -- A document that is no node makes no cycle.
  pub put_other-IsAcyclic : as_node (some d) ≡ none → IsAcyclic ds → IsAcyclic es
  put_other-IsAcyclic other acyclic id = Ends-other other (acyclic id).0 id (acyclic id).1

  -- A node makes none where it is not above its parent.
  pub put_node-IsAcyclic :
      (r : NodeRecord)
      → as_node (some d) ≡ some r
      → (IsBelow ds r.parent_id (document_id d) → ⊥)
      → IsAcyclic ds
      → IsAcyclic es
  put_node-IsAcyclic r new apart acyclic id =
      let up = Ends-kept (acyclic r.parent_id).0 r.parent_id apart (acyclic r.parent_id).1 in
      Ends-through r new up (acyclic id).0 id (acyclic id).1
