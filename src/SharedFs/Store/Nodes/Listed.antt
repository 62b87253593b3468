-- ===== src/SharedFs/Store/Nodes/Listed.antt =====
-- `dedupeByName` beside `childByName`.
use peerbit_examples.Prelude.{
  ◌≡◌, refl, sym, ap, ◌∙◌, ◌⊎◌, inl, inr, Bool, false, List, [], ◌∷◌, none, some, if-true, if-false,
  Bool-cases, Option-cases,
}
use peerbit_examples.SharedFs.Path.Split.{Text}
use peerbit_examples.SharedFs.Store.Documents.{NodeRecord, Document, nodes_where, IsUnique}
use peerbit_examples.SharedFs.Store.Order.{
  In, first, sort, IsStrict, IsLeast, In-sort, first-sort, least_unique, IsCollation, first_nothing,
  collation-IsComparison,
}
use peerbit_examples.SharedFs.Store.Query.{In-nodes_where}
use peerbit_examples.SharedFs.Store.Nodes.{
  is_live_child, is_child_named, child_records, oldest_first, dedupe_by_name, child_by_name,
}
use peerbit_examples.SharedFs.Store.Nodes.Same.{oldest_first-IsStrict, oldest_first_ties}
use peerbit_examples.SharedFs.Store.Nodes.Dedupe.{
  find_named, IsDistinct, named-nodes_where, older, best, find_named-dedupe_from,
  dedupe_from-IsDistinct,
}

module _ (before : Text → Text → Bool) where
  module _ (strict : IsStrict (oldest_first before)) where
    not_before : (x : NodeRecord) → oldest_first before x x ≡ false
    not_before x = elim (Bool-cases (oldest_first before x x)) [
      | inl e ↦ strict.asym x x e
      | inr e ↦ e
    ]

    older_either : (x r : NodeRecord) → (older before x r ≡ x) ⊎ (older before x r ≡ r)
    older_either x r = elim (Bool-cases (oldest_first before r x)) [
      | inl e ↦ inr (if-true _ _ _ e)
      | inr e ↦ inl (if-false _ _ _ e)
    ]

    older_no_later :
        (x r : NodeRecord)
        → (oldest_first before x (older before x r) ≡ false)
          × (oldest_first before r (older before x r) ≡ false)
    older_no_later x r = elim (Bool-cases (oldest_first before r x)) [
      | inl e ↦ rw e (strict.asym r x e, not_before r)
      | inr e ↦ rw e (not_before x, e)
    ]

    best-IsLeast :
        (x : NodeRecord) (rs : List NodeRecord)
        → (y : NodeRecord) × (best before (some x) rs ≡ some y)
          × IsLeast (oldest_first before) y (x ∷ rs)
    unfolding best IsLeast
    best-IsLeast x [] =
        (x, refl, (inl refl, λ z i. elim i [ inl p ↦ rw p (not_before x) | inr n ↦ absurd n ]))
    best-IsLeast x (r ∷ rs) =
        let (y, e, found) = best-IsLeast (older before x r) rs in
        let (i, least) = found in
        let (old, new) = older_no_later x r in
        let first_least = least (older before x r) (inl refl) in
        (
          y,
          e,
          (
            elim i [
              | inl p ↦ elim (older_either x r) [ inl q ↦ inl (p ∙ q) | inr q ↦ inr (inl (p ∙ q)) ]
              | inr j ↦ inr (inr j)
            ],
            λ z k. elim k [
              | inl p ↦ rw p (strict.no_later y (older before x r) x first_least old)
              | inr l ↦ elim l [
                | inl p ↦ rw p (strict.no_later y (older before x r) r first_least new)
                | inr j ↦ least z (inr j)
              ]
            ],
          ),
        )

    best-first :
        (rs : List NodeRecord)
        → ((a b : NodeRecord)
            → In a rs
            → In b rs
            → oldest_first before a b ≡ false
            → oldest_first before b a ≡ false
            → a ≡ b)
        → best before none rs ≡ first (sort (oldest_first before) rs)
    unfolding best sort
    best-first [] ties = refl
    best-first (r ∷ rs) ties = elim (Option-cases (first (sort (oldest_first before) (r ∷ rs)))) [
      | inl n ↦ absurd (
          first_nothing (sort (oldest_first before) (r ∷ rs)) r n
            ((In-sort (oldest_first before) r (r ∷ rs)).1 (inl refl)))
      | inr f ↦
          let (y, e, least) = best-IsLeast r rs in
          e
          ∙ ap some (
              least_unique (oldest_first before) (r ∷ rs) (r ∷ rs) y f.0 (λ a. (λ i. i, λ i. i))
                ties least (first-sort (oldest_first before) strict (r ∷ rs) f.0 f.1))
          ∙ sym f.1
    ]

  -- What a directory lists of a name is what a path finds under it, and it lists a name once.
  module _ (c : IsCollation before) (ds : List Document) (unique : IsUnique ds) where
    -- A directory's children, one to a name, have distinct names; and the one of a name is the node that
    -- a path finds under the name, for an index with one document to an id and any total order of ids.
    pub dedupe_by_name-child_by_name :
        (parent name : Text)
        → IsDistinct (dedupe_by_name before (child_records ds parent))
          × (find_named (dedupe_by_name before (child_records ds parent)) name
              ≡ child_by_name before ds parent name)
    unfolding dedupe_by_name child_records child_by_name IsDistinct find_named
    dedupe_by_name-child_by_name parent name = (
      dedupe_from-IsDistinct before [] (nodes_where (is_live_child parent) ds) tt,
      find_named-dedupe_from before [] (nodes_where (is_live_child parent) ds) name
          ∙ ap (best before none) (named-nodes_where ds parent name)
          ∙ best-first (oldest_first-IsStrict before (collation-IsComparison before c))
              (nodes_where (is_child_named parent name) ds)
              (λ a b i j.
                oldest_first_ties before ds (λ a b h g. c.total a b) a b
                  ((In-nodes_where (is_child_named parent name) a ds unique).0 i).0
                  ((In-nodes_where (is_child_named parent name) b ds unique).0 j).0),
    )
