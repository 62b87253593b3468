-- ===== src/SharedFs/Store/Query.antt =====
-- Lemmas on queries of an index.
use peerbit_examples.Prelude.{
  ◌≡◌, refl, sym, ap, ◌∙◌, ◌↔◌, inl, inr, Bool, true, false, List, [], ◌∷◌, Option, none, some,
  if◌then◌else◌, Bool-cases, if-true, if-false,
}
use peerbit_examples.SharedFs.Path.Split.{Text, same_text, same_text_iff}
use peerbit_examples.SharedFs.Store.Documents.{
  NodeRecord, FileHead, Document, node, head, chunk, document_id, get_document, IsUnique, pick,
  node_if, head_if, nodes_where, heads_where,
}
use peerbit_examples.SharedFs.Store.Order.{In}

pub same_text_refl : (a : Text) → same_text a a ≡ true
same_text_refl a = (same_text_iff a a).1 refl

none-ne-some : {A : Type 0} {a : A} → ◌≡◌ {A = Option A} none (some a) → ⊥
none-ne-some e = cc

pub some_injective : {A : Type 0} {a b : A} → some a ≡ some b → a ≡ b
some_injective e = cc

if_some :
    {A : Type 0} (b : Bool) (x y : A) → (if b then some x else none) ≡ some y → (b ≡ true) × (x ≡ y)
if_some true x y e = (refl, cc)
if_some false x y e = absurd (none-ne-some e)

In-pick :
    {A : Type 0} (of : Document → Option A) (a : A) (ds : List Document)
    → In a (pick of ds) ↔ ((d : Document) × In d ds × (of d ≡ some a))
unfolding pick
In-pick of a [] = (λ h. absurd h, λ h. absurd h.1)
In-pick {A} of a (d ∷ ds) = step (In-pick of a ds) (of d) refl
  where
    step :
        (In a (pick of ds) ↔ ((x : Document) × In x ds × (of x ≡ some a)))
        → (o : Option A) → of d ≡ o
        → In a (elim o [ none ↦ pick of ds | some b ↦ b ∷ pick of ds ])
          ↔ ((x : Document) × In x (d ∷ ds) × (of x ≡ some a))
    step ih none q = (
      λ h. let (x, i, e) = ih.0 h in (x, inr i, e),
      λ h. elim h.1 [
        | inl p ↦ absurd (none-ne-some (sym q ∙ ap of (sym p) ∙ h.2))
        | inr i ↦ ih.1 (h.0, i, h.2)
      ],
    )
    step ih (some b) q = (
      λ h. elim h [
        | inl p ↦ (d, inl refl, q ∙ ap some (sym p))
        | inr i ↦ let (x, j, e) = ih.0 i in (x, inr j, e)
      ],
      λ h. elim h.1 [
        | inl p ↦ inl (some_injective (sym h.2 ∙ ap of p ∙ q))
        | inr i ↦ inr (ih.1 (h.0, i, h.2))
      ],
    )

true-ne-false : true ≡ false → ⊥
true-ne-false e = cc

In-get_document :
    (d : Document) (ds : List Document)
    → IsUnique ds
    → In d ds ↔ (get_document ds (document_id d) ≡ some d)
unfolding get_document
In-get_document d [] u = (λ h. absurd h, λ h. cc)
In-get_document d (e ∷ ds) u = elim (Bool-cases (same_text (document_id e) (document_id d))) [
  | inl q ↦
      let same : document_id e ≡ document_id d = (same_text_iff _ _).0 q in
      (
        λ h. elim h [
          | inl p ↦ rw q (ap some (sym p))
          | inr i ↦
              absurd (
                none-ne-some (sym u.0 ∙ ap (get_document ds) same ∙ (In-get_document d ds u.1).0 i))
        ],
        λ h. inl (
            sym
              (some_injective (sym (if-true _ (some e) (get_document ds (document_id d)) q) ∙ h))),
      )
  | inr q ↦ (
    λ h. elim h [
      | inl p ↦ absurd (
          true-ne-false (
            sym (same_text_refl (document_id e))
            ∙ ap (λ x. same_text (document_id e) (document_id x)) (sym p)
            ∙ q))
      | inr i ↦
          if-false _ (some e) (get_document ds (document_id d)) q ∙ (In-get_document d ds u.1).0 i
    ],
    λ h. inr (
        (In-get_document d ds u.1).1
          (sym (if-false _ (some e) (get_document ds (document_id d)) q) ∙ h)),
  )
]

node_if-some :
    (test : NodeRecord → Bool) (d : Document) (r : NodeRecord)
    → node_if test d ≡ some r
    → (d ≡ node r) × (test r ≡ true)
node_if-some test (node x) r e =
    let (t, q) = if_some (test x) x r e in (ap node q, ap test (sym q) ∙ t)
node_if-some test (head h) r e = cc
node_if-some test (chunk c) r e = cc

head_if-some :
    (test : FileHead → Bool) (d : Document) (r : FileHead)
    → head_if test d ≡ some r
    → (d ≡ head r) × (test r ≡ true)
head_if-some test (node x) r e = cc
head_if-some test (head h) r e =
    let (t, q) = if_some (test h) h r e in (ap head q, ap test (sym q) ∙ t)
head_if-some test (chunk c) r e = cc

-- A node is found exactly when it stands under its id and meets the test.
pub In-nodes_where :
    (test : NodeRecord → Bool) (r : NodeRecord) (ds : List Document)
    → IsUnique ds
    → In r (nodes_where test ds) ↔ ((get_document ds r.node_id ≡ some (node r)) × (test r ≡ true))
In-nodes_where test r ds u = (
  λ h.
      let (d, i, e) = (In-pick (node_if test) r ds).0 h in
      let (p, t) = node_if-some test d r e in
      (
        ap (λ x. get_document ds (document_id x)) (sym p)
            ∙ (In-get_document d ds u).0 i
            ∙ ap some p,
        t,
      ),
  λ h. (In-pick (node_if test) r ds).1 (node r, (In-get_document (node r) ds u).1 h.0, rw h.1 refl),
)

-- So is a head.
pub In-heads_where :
    (test : FileHead → Bool) (r : FileHead) (ds : List Document)
    → IsUnique ds
    → In r (heads_where test ds) ↔ ((get_document ds r.id ≡ some (head r)) × (test r ≡ true))
In-heads_where test r ds u = (
  λ h.
      let (d, i, e) = (In-pick (head_if test) r ds).0 h in
      let (p, t) = head_if-some test d r e in
      (
        ap (λ x. get_document ds (document_id x)) (sym p)
            ∙ (In-get_document d ds u).0 i
            ∙ ap some p,
        t,
      ),
  λ h. (In-pick (head_if test) r ds).1 (head r, (In-get_document (head r) ds u).1 h.0, rw h.1 refl),
)
