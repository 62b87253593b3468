-- ===== src/SharedFs/Store/Cycles.antt =====
-- Cycles of parents: lemmas on the puts of the calls.
pub mod Saves
pub mod Moves
pub mod Calls
use peerbit_examples.Prelude.{
  ℕ, zero, suc, subst, ◌≡◌, refl, sym, ap, ◌∙◌, ◌⊎◌, inl, inr, Bool, true, false, List, Option,
  none, some, if◌then◌else◌, if-false, Bool-cases,
}
use peerbit_examples.SharedFs.Path.Split.{Text, same_text, same_text_iff}
use peerbit_examples.SharedFs.Store.Documents.{
  NodeRecord, FileHead, Document, node, head, chunk, document_id, get_document, Index, IsIndex,
  Metadata,
}
use peerbit_examples.SharedFs.Store.Query.{same_text_refl}
use peerbit_examples.SharedFs.Store.Nodes.{root_node_id, as_node, node_record, is_directory_record}
use peerbit_examples.SharedFs.Store.Nodes.Tree.{Reaches, IsBelow, same_record}
use peerbit_examples.SharedFs.Store.Nodes.Acyclic.{
  IsAcyclic, IsPut, none_or_some, node_record-inner, node_record_cases, Reaches-before,
  parent-not-IsBelow, put_other-IsAcyclic, put_node-IsAcyclic,
}
use peerbit_examples.SharedFs.Store.Nodes.Resolved.{AreDirectories, IsPlaced}
use peerbit_examples.SharedFs.Store.Peer.{create_id, Peer, documents, signed_metadata, put}
use peerbit_examples.SharedFs.Store.Peer.Rules.{Triple, put_rule}

-- The id is not the node's, and is not above it.
abbrev pub IsApart : List Document → Text → Text → Type 0
IsApart ds id ancestor = IsBelow ds id ancestor → ⊥

-- What the index holds of a node.
abbrev pub IsStored : List Document → NodeRecord → Type 0
IsStored ds r = get_document ds r.node_id ≡ some (node r)

Reaches-not_root :
    (ds : List Document) (a : Text) (k : ℕ) (id : Text)
    → Reaches ds a k id
    → same_text a root_node_id ≡ false
unfolding Reaches
Reaches-not_root ds a zero id h =
    subst (λ x. same_text x root_node_id ≡ false) ((same_text_iff id a).0 h.1) h.0
Reaches-not_root ds a (suc k) id h = Reaches-not_root ds a k h.2.0.parent_id h.2.2

-- What is above a directory is a record that is there.
above_is_there :
    (ds : List Document) (parent id : Text)
    → AreDirectories ds parent
    → IsBelow ds parent id
    → (q : NodeRecord) × (as_node (get_document ds id) ≡ some q) × (is_directory_record q ≡ true)
above_is_there ds parent id above below =
    let (q, e, d) = above id below in
    (q, sym (node_record-inner ds id (Reaches-not_root ds id below.0 parent below.1)) ∙ e, d)

-- Nothing is above the root.
pub root-IsApart : (ds : List Document) (y : Text) → IsApart ds root_node_id y
unfolding Reaches
root-IsApart ds y (zero, h) = absurd (cc (same_text_refl root_node_id))
root-IsApart ds y (suc k, h) = absurd (cc (same_text_refl root_node_id))

-- An id under which nothing stands is not above a directory.
pub fresh-IsApart :
    (ds : List Document) (parent id : Text)
    → AreDirectories ds parent
    → get_document ds id ≡ none
    → IsApart ds parent id
fresh-IsApart ds parent id above e below =
    let (q, f, d) = above_is_there ds parent id above below in none_or_some (ap as_node e) f

-- A file is not above a directory.
pub file-IsApart :
    (ds : List Document) (parent : Text) (r : NodeRecord)
    → AreDirectories ds parent
    → IsPlaced ds r
    → is_directory_record r ≡ false
    → IsApart ds parent r.node_id
file-IsApart ds parent r above placed e below =
    let (q, f, d) = above_is_there ds parent r.node_id above below in
    let same : r ≡ q = same_record (ap as_node placed.stored) f in
    cc (e, ap (λ x. is_directory_record x) same, d)

-- A node is not above its parent.
pub own_parent-IsApart :
    (ds : List Document) (r : NodeRecord)
    → IsAcyclic ds
    → IsStored ds r
    → IsApart ds r.parent_id r.node_id
own_parent-IsApart ds r acyclic stored below =
    let inner = Reaches-not_root ds r.node_id below.0 r.parent_id below.1 in
    parent-not-IsBelow ds r.node_id r acyclic
      (node_record-inner ds r.node_id inner ∙ ap as_node stored) below

-- A record that is put again below the same parent changes no walk.
Reaches-again :
    (ds es : List Document) (q r : NodeRecord)
    → IsPut ds (node q) es
    → get_document ds q.node_id ≡ some (node r)
    → q.parent_id ≡ r.parent_id
    → (a : Text) (k : ℕ) (id : Text) → Reaches es a k id
    → Reaches ds a k id
unfolding Reaches
Reaches-again ds es q r stored old same a zero id h = h
Reaches-again ds es q r stored old same a (suc k) id h =
    let rest = Reaches-again ds es q r stored old same a k h.2.0.parent_id h.2.2 in
    elim (node_record_cases ds es (node q) stored id) [
      | inl e ↦ (h.0, h.1, (h.2.0, sym e ∙ h.2.1, rest))
      | inr n ↦
          let here : h.2.0 ≡ q = same_record h.2.1 n.2 in
          let parent : h.2.0.parent_id ≡ r.parent_id =
            ap (λ (x : NodeRecord). x.parent_id) here ∙ same in
          let is : get_document ds id ≡ some (node r) =
            subst (λ x. get_document ds x ≡ some (node r)) ((same_text_iff q.node_id id).0 n.1)
              old in
          (
            h.0,
            h.1,
            (
              r,
              node_record-inner ds id h.0 ∙ ap as_node is,
              subst (λ x. Reaches ds a k x) parent rest,
            ),
          )
    ]

pub other_id :
    {d : Document} (ds : List Document) (a b : Text)
    → get_document ds a ≡ none
    → get_document ds b ≡ some d
    → same_text a b ≡ false
other_id {d} ds a b e f = elim (Bool-cases (same_text a b)) [
  | inl s ↦ none_or_some e (ap (get_document ds) ((same_text_iff a b).0 s) ∙ f)
  | inr s ↦ s
]

-- Ids that are made stand for nothing yet.
pub record HasFreshIds {S : Type 0} (peer : Peer S) : Type 0 where
  pub fresh :
      (s : S) (prefix : Text) → get_document (documents peer s) (create_id peer s prefix) ≡ none

module _ {S : Type 0} (peer : Peer S) (law : IsIndex peer.index) where
  abbrev pub Acyclic : S → Type 0
  Acyclic s = IsAcyclic (documents peer s)

  -- Without a cycle, and with an id that is not above the parent it is meant to come below.
  abbrev pub Ready : Text → Text → S → Type 0
  Ready parent id s = Acyclic s × IsApart (documents peer s) parent id

  put_law :
      (s : S) (d : Document) → IsPut (documents peer s) d (documents peer (peer.index.put s d))
  put_law s d id = law.get-put s d id

  Ready-after :
      (s : S) (d : Document) (x y : Text)
      → as_node (some d) ≡ none
      → Ready x y s
      → Ready x y (peer.index.put s d)
  Ready-after s d x y other h = (
    put_other-IsAcyclic (documents peer s) (documents peer (peer.index.put s d)) d (put_law s d)
        other h.0,
    λ b. h.1 (
      b.0,
      Reaches-before (documents peer s) (documents peer (peer.index.put s d)) d (put_law s d) y b.0
          x (inl other) b.1,
    ),
  )

  pub put_other_rule :
      (d : Document) (x y : Text)
      → as_node (some d) ≡ none
      → Triple (Ready x y) (put peer d) (λ u. Ready x y) Acyclic
  put_other_rule d x y other = put_rule peer d (λ s h. Ready-after s d x y other h) (λ s h. h.0)

  pub put_node_rule :
      (r : NodeRecord)
      → Triple (Ready r.parent_id r.node_id) (put peer (node r)) (λ u. Acyclic) Acyclic
  put_node_rule r =
      put_rule peer (node r)
        (λ s h.
          put_node-IsAcyclic (documents peer s) (documents peer (peer.index.put s (node r)))
            (node r) (put_law s (node r)) r refl h.1 h.0)
        (λ s h. h.0)

  -- A head under an id that is new; the records stay.
  pub put_head_rule :
      (h : FileHead) (r : NodeRecord) (x y : Text)
      → Triple
          (λ s.
            Ready x y s
            × IsStored (documents peer s) r
            × (get_document (documents peer s) h.id ≡ none))
          (put peer (head h))
          (λ u s. Ready x y s × IsStored (documents peer s) r)
          Acyclic
  put_head_rule h r x y =
      put_rule peer (head h)
        (λ s p. (
          Ready-after s (head h) x y refl p.0,
          law.get-put s (head h) r.node_id
              ∙ if-false _ _ _ (other_id (documents peer s) h.id r.node_id p.2 p.1)
              ∙ p.1,
        ))
        (λ s p. p.0.0)

  -- A record that stands below the same parent.
  pub put_again_rule :
      (q r : NodeRecord) (x y : Text)
      → q.node_id ≡ r.node_id
      → q.parent_id ≡ r.parent_id
      → Triple
          (λ s. Ready x y s × IsStored (documents peer s) r)
          (put peer (node q))
          (λ u. Ready x y)
          Acyclic
  put_again_rule q r x y same_id same_parent =
      put_rule peer (node q)
        (λ s p.
          let old : get_document (documents peer s) q.node_id ≡ some (node r) =
            ap (get_document (documents peer s)) same_id ∙ p.1 in
          let apart : IsApart (documents peer s) q.parent_id q.node_id = λ b.
            own_parent-IsApart (documents peer s) r p.0.0 p.1 (
              subst (λ z. IsBelow (documents peer s) z r.node_id) same_parent
                (subst (IsBelow (documents peer s) q.parent_id) same_id b)) in
          (
            put_node-IsAcyclic (documents peer s) (documents peer (peer.index.put s (node q)))
                (node q) (put_law s (node q)) q refl apart p.0.0,
            λ b. p.0.1 (
              b.0,
              Reaches-again (documents peer s) (documents peer (peer.index.put s (node q))) q r
                  (put_law s (node q)) old same_parent y b.0 x b.1,
            ),
          ))
        (λ s p. p.0.0)

  -- The clock and the author are read without a change.
  pub metadata_rule :
      {P E : S → Type 0} {Q : Metadata → S → Type 0}
      → ((s : S) (m : Metadata) → P s → Q m s)
      → Triple P (signed_metadata peer) Q E
  unfolding signed_metadata
  metadata_rule h = record { run = λ s p. h s _ p }
