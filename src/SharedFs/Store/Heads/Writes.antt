-- ===== src/SharedFs/Store/Heads/Writes.antt =====
-- The heads of a file under a put of a version or a delete marker.
use peerbit_examples.Prelude.{
  ◌≡◌, refl, sym, ap, ◌∙◌, ◌⊎◌, ◌↔◌, inl, inr, Bool, false, List, none, some, if◌then◌else◌,
  if-true, if-false, Bool-cases,
}
use peerbit_examples.SharedFs.Path.Split.{Text, same_text, same_text_iff}
use peerbit_examples.SharedFs.Store.Documents.{
  FileHead, Document, head, get_document, contains_text, Index, IsIndex,
}
use peerbit_examples.SharedFs.Store.Order.{In}
use peerbit_examples.SharedFs.Store.Heads.{heads_for_node}
use peerbit_examples.SharedFs.Store.Heads.Laws.{IsVersionOf, IsHead, heads_for_node-IsHead}

head_injective : {a b : FileHead} → some (head a) ≡ some (head b) → a ≡ b
head_injective e = cc

none-ne-head : {a : FileHead} → none ≡ some (head a) → ⊥
none-ne-head e = cc

-- What is put is new: nothing stands under its id, and no version of its node, itself included, names
-- it as a parent.
pub record IsFresh (ds : List Document) (v : FileHead) : Type 0 where
  pub absent : get_document ds v.id ≡ none
  pub not_own_parent : contains_text v.parent_version_ids v.id ≡ false
  pub not_named :
      (x : FileHead) → IsVersionOf ds v.node_id x → contains_text x.parent_version_ids v.id ≡ false

module _ (ds es : List Document) (v : FileHead)
    (stored : (id : Text)
      → get_document es id ≡ (if same_text v.id id then some (head v) else get_document ds id))
    (fresh : IsFresh ds v) where
  versions_after :
      (x : FileHead) → IsVersionOf es v.node_id x ↔ ((x ≡ v) ⊎ IsVersionOf ds v.node_id x)
  versions_after x = elim (Bool-cases (same_text v.id x.id)) [
    | inl e ↦
        let here : get_document es x.id ≡ some (head v) = stored x.id ∙ if-true _ _ _ e in
        let same : v.id ≡ x.id = (same_text_iff _ _).0 e in
        (
          λ h. inl (head_injective (sym h.0 ∙ here)),
          λ h. elim h [
            | inl p ↦ (here ∙ ap (λ y. some (head y)) (sym p), ap (λ (y : FileHead). y.node_id) p)
            | inr k ↦ absurd (none-ne-head (sym fresh.absent ∙ ap (get_document ds) same ∙ k.0))
          ],
        )
    | inr e ↦
        let here : get_document es x.id ≡ get_document ds x.id = stored x.id ∙ if-false _ _ _ e in
        (
          λ h. inr (sym here ∙ h.0, h.1),
          λ h. elim h [
            | inl p ↦
                let same = (same_text_iff v.id x.id).1 (ap (λ (y : FileHead). y.id) (sym p)) in cc
            | inr k ↦ (here ∙ k.0, k.1)
          ],
        )
  ]

  heads_after :
      (h : FileHead)
      → IsHead es v.node_id h
        ↔ ((h ≡ v) ⊎ (IsHead ds v.node_id h × (contains_text v.parent_version_ids h.id ≡ false)))
  heads_after h = (
    λ k. elim ((versions_after h).0 k.version) [
      | inl p ↦ inl p
      | inr w ↦ inr (
        record { version = w; unnamed = λ x y. k.unnamed x ((versions_after x).1 (inr y)) },
        k.unnamed v ((versions_after v).1 (inl refl)),
      )
    ],
    λ k. elim k [
      | inl p ↦ record {
        version = (versions_after h).1 (inl p);
        unnamed = λ x y. elim ((versions_after x).0 y) [
          | inl q ↦ cc (fresh.not_own_parent)
          | inr w ↦
              ap (λ (z : FileHead). contains_text x.parent_version_ids z.id) p ∙ fresh.not_named x w
        ];
      }
      | inr l ↦ record {
        version = (versions_after h).1 (inr l.0.version);
        unnamed = λ x y. elim ((versions_after x).0 y) [
          | inl q ↦ ap (λ (z : FileHead). contains_text z.parent_version_ids h.id) q ∙ l.1
          | inr w ↦ l.0.unnamed x w
        ];
      }
    ],
  )

-- After a version or delete marker that is fresh is put, the heads of its file are it and exactly those
-- of the heads before that it does not name as a parent. The index holds one document to an id and
-- answers what was put.
pub heads_for_node-put :
    {S : Type 0} (before : Text → Text → Bool) (index : Index S)
    → IsIndex index
    → (s : S) (v : FileHead) → IsFresh (index.documents s) v
    → (h : FileHead)
    → In h (heads_for_node before (index.documents (index.put s (head v))) v.node_id) ↔ (
        (h ≡ v)
        ⊎ (In h (heads_for_node before (index.documents s) v.node_id)
            × (contains_text v.parent_version_ids h.id ≡ false)))
heads_for_node-put before index lawful s v fresh h =
    let t = index.put s (head v) in
    let new = heads_for_node-IsHead before (index.documents t) v.node_id h (lawful.unique t) in
    let old = heads_for_node-IsHead before (index.documents s) v.node_id h (lawful.unique s) in
    let after =
      heads_after (index.documents s) (index.documents t) v (lawful.get-put s (head v)) fresh h in
    (
      λ i. elim (after.0 (new.0 i)) [ inl p ↦ inl p | inr k ↦ inr (old.1 k.0, k.1) ],
      λ k. new.1 (after.1 (elim k [ inl p ↦ inl p | inr l ↦ inr (old.0 l.0, l.1) ])),
    )
