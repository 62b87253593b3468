-- ===== src/SharedFs/Store/Heads/Laws.antt =====
-- The heads of a file against what a head is.
use peerbit_examples.Prelude.{
  ◌≡◌, refl, sym, ap, ◌∙◌, ◌↔◌, inl, inr, Bool, false, ◌||◌, List, [], ◌∷◌, ◌++◌, some, arith,
  Bool-cases,
}
use peerbit_examples.SharedFs.Path.Split.{Text, same_text_iff}
use peerbit_examples.SharedFs.Store.Documents.{
  FileHead, Document, head, get_document, IsUnique, contains_text, heads_where,
}
use peerbit_examples.SharedFs.Store.Order.{In, In-sort}
use peerbit_examples.SharedFs.Store.Query.{In-heads_where}
use peerbit_examples.SharedFs.Store.Heads.{
  referenced, not_referenced, is_of_node, newest_first, heads_from_documents,
  head_documents_for_node, heads_for_node,
}

-- A version or marker of a node.
abbrev pub IsVersionOf : List Document → Text → FileHead → Type 0
IsVersionOf ds node_id h = (get_document ds h.id ≡ some (head h)) × (h.node_id ≡ node_id)

-- A head of a node is a version or marker of it that none of the node's names as a parent.
pub record IsHead (ds : List Document) (node_id : Text) (h : FileHead) : Type 0 where
  pub version : IsVersionOf ds node_id h
  pub unnamed :
      (x : FileHead) → IsVersionOf ds node_id x → contains_text x.parent_version_ids h.id ≡ false

contains_text-append :
    (xs ys : List Text) (t : Text)
    → contains_text (xs ++ ys) t ≡ (contains_text xs t || contains_text ys t)
unfolding contains_text
contains_text-append [] ys t = refl
contains_text-append (x ∷ xs) ys t = ground (arith, contains_text-append xs ys t)

or_false : (a b : Bool) → (a || b) ≡ false → (a ≡ false) × (b ≡ false)
or_false a b h = ground arith

contains_text-referenced :
    (hs : List FileHead) (t : Text)
    → (contains_text (referenced hs) t ≡ false)
      ↔ ((x : FileHead) → In x hs → contains_text x.parent_version_ids t ≡ false)
unfolding referenced
contains_text-referenced [] t = (λ e x i. absurd i, λ f. unfold contains_text in refl)
contains_text-referenced (h ∷ hs) t =
    let split = contains_text-append h.parent_version_ids (referenced hs) t in
    let ih = contains_text-referenced hs t in
    (
      λ e x i.
          let (a, b) = or_false _ _ (sym split ∙ e) in
          elim i [
            | inl p ↦ ap (λ (y : FileHead). contains_text y.parent_version_ids t) p ∙ a
            | inr j ↦ ih.0 b x j
          ],
      λ f.
          let a = f h (inl refl) in
          let b = ih.1 (λ x i. f x (inr i)) in split ∙ ground (arith, a, b),
    )

In-not_referenced :
    (ids : List Text) (hs : List FileHead) (h : FileHead)
    → In h (not_referenced ids hs) ↔ (In h hs × (contains_text ids h.id ≡ false))
unfolding not_referenced
In-not_referenced ids [] h = (λ i. absurd i, λ i. i.0)
In-not_referenced ids (x ∷ xs) h =
    let ih = In-not_referenced ids xs h in
    elim (Bool-cases (contains_text ids x.id)) [
      | inl e ↦ rw e (
        λ i. (inr (ih.0 i).0, (ih.0 i).1),
        λ i. elim i.0 [
          | inl p ↦ cc (ap (λ (y : FileHead). contains_text ids y.id) p)
          | inr j ↦ ih.1 (j, i.1)
        ],
      )
      | inr e ↦ rw e (
        λ i. elim i [
          | inl p ↦ (inl p, ap (λ (y : FileHead). contains_text ids y.id) p ∙ e)
          | inr j ↦ (inr (ih.0 j).0, (ih.0 j).1)
        ],
        λ i. elim i.0 [ inl p ↦ inl p | inr j ↦ inr (ih.1 (j, i.1)) ],
      )
    ]

module _ (before : Text → Text → Bool) where
  In-head_documents :
      (ds : List Document) (node_id : Text) (h : FileHead)
      → IsUnique ds
      → In h (head_documents_for_node before ds node_id) ↔ IsVersionOf ds node_id h
  unfolding head_documents_for_node
  In-head_documents ds node_id h u =
      let sorted = In-sort (newest_first before) h (heads_where (is_of_node node_id) ds) in
      let found = In-heads_where (is_of_node node_id) h ds u in
      (
        λ i. let (g, e) = found.0 (sorted.0 i) in (g, (same_text_iff _ _).0 e),
        λ v. sorted.1 (found.1 (v.0, (same_text_iff _ _).1 v.1)),
      )

  -- In an index with one document to an id, what is computed as a node's heads are exactly its versions and
  -- markers that none of its versions and markers names as a parent.
  pub heads_for_node-IsHead :
      (ds : List Document) (node_id : Text) (h : FileHead)
      → IsUnique ds
      → In h (heads_for_node before ds node_id) ↔ IsHead ds node_id h
  unfolding heads_for_node heads_from_documents
  heads_for_node-IsHead ds node_id h u =
      let hs = head_documents_for_node before ds node_id in
      let sorted = In-sort (newest_first before) h (not_referenced (referenced hs) hs) in
      let kept = In-not_referenced (referenced hs) hs h in
      let named = contains_text-referenced hs h.id in
      (
        λ i.
            let (a, b) = kept.0 (sorted.0 i) in
            record {
              version = (In-head_documents ds node_id h u).0 a;
              unnamed = λ x v. named.0 b x ((In-head_documents ds node_id x u).1 v);
            },
        λ k. sorted.1 (
            kept.1 (
              (In-head_documents ds node_id h u).1 k.version,
              named.1 (λ x i. k.unnamed x ((In-head_documents ds node_id x u).0 i)),
            )),
      )
