-- ===== src/SharedFs/Store/Nodes/Above.antt =====
-- The walk of `pathForRecord` up the parents.
use peerbit_examples.Prelude.{
  ℕ, zero, suc, ◌<◌, ◌≡◌, refl, inl, inr, List, [], ◌∷◌, some, arith, length, Bool-cases,
  Option-cases,
}
use peerbit_examples.SharedFs.Path.Split.{Text, same_text, slash, join}
use peerbit_examples.SharedFs.Store.Documents.{NodeRecord, Document, contains_text}
use peerbit_examples.SharedFs.Store.Nodes.{root_node_id, node_record, names_above, path_for_record}
use peerbit_examples.SharedFs.Store.Nodes.Tree.{
  unvisited, unvisited-le, unvisited_falls, found_document,
}

names_above_total :
    (fuel : ℕ) (ds : List Document) (visited names : List Text) (parent : Text)
    → unvisited ds visited < fuel
    → (found : List Text) × (names_above fuel ds visited names parent ≡ some found)
unfolding names_above
names_above_total zero ds visited names parent h = absurd (omega arith)
names_above_total (suc fuel) ds visited names parent h =
    elim (Bool-cases (same_text parent root_node_id)) [
      | inl a ↦ (names, rw (a, names_above) refl)
      | inr a ↦ elim (Bool-cases (contains_text visited parent)) [
        | inl c ↦ (names, rw (a, c, names_above) refl)
        | inr c ↦ elim (Option-cases (node_record ds parent)) [
          | inl n ↦ (names, rw (a, c, n, names_above) refl)
          | inr f ↦
              let (d, g) = found_document ds parent f.0 f.1 in
              let rest =
                names_above_total fuel ds (parent ∷ visited) (f.0.name ∷ names) f.0.parent_id
                  (omega (arith, unvisited_falls ds visited parent d g c, h)) in
              (rest.0, rw (a, c, f.1, names_above) rest.1)
        ]
      ]
    ]

pub path_for_record_total :
    (ds : List Document) (r : NodeRecord) → (path : Text) × (path_for_record ds r ≡ some path)
unfolding path_for_record
path_for_record_total ds r =
    let (names, e) =
      names_above_total (suc (length ds)) ds (r.node_id ∷ []) (r.name ∷ []) r.parent_id
        (omega (arith, unvisited-le ds (r.node_id ∷ []))) in
    (slash ∷ join names, rw (e, path_for_record) refl)
