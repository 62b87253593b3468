-- ===== src/SharedFs/Store/Reads/Parents.antt =====
-- The parents of a version, as the loop over the candidates of a read takes them.
use peerbit_examples.Prelude.{
  ◌+◌, ◌≤◌, subst, ◌≡◌, refl, ap, ◌⊎◌, inl, inr, true, false, List, [], ◌∷◌, Option, none, some,
  All, All-map, arith, length, Bool-cases, Option-cases,
}
use peerbit_examples.SharedFs.Path.Split.{Text}
use peerbit_examples.SharedFs.Mount.Buffer.{Fault, Outcome, ok, fail}
use peerbit_examples.SharedFs.Store.Documents.{
  FileHead, VersionBody, Document, node, head, chunk, get_document, contains_text,
}
use peerbit_examples.SharedFs.Store.Query.{some_injective}
use peerbit_examples.SharedFs.Store.Nodes.Acyclic.{none_or_some}
use peerbit_examples.SharedFs.Store.Reads.Fetch.{first_in, later_in}
use peerbit_examples.SharedFs.Store.Nodes.Tree.{unvisited, unvisited_more, unvisited_falls}
use peerbit_examples.SharedFs.Store.Reads.{as_version, with_body, push_parents}

-- The second version is the first, or a parent of one that the first comes from.
pub data ComesFrom (documents : List Document) (h : FileHead) : FileHead → Type 0 where
  itself : ComesFrom documents h h
  parent :
      (v p : FileHead) (id : Text)
      → ComesFrom documents h v
      → contains_text v.parent_version_ids id ≡ true
      → get_document documents id ≡ some (head p)
      → ComesFrom documents h p

as_version-head :
    (o : Option Document) (v : FileHead × VersionBody)
    → as_version o ≡ some v
    → (o ≡ some (head v.0)) × (v.0.body ≡ some v.1)
as_version-head none v e = cc
as_version-head (some (node r)) v e = cc
as_version-head (some (chunk c)) v e = cc
as_version-head (some (head h)) v e = go h.body refl e
  where
    go :
        (b : Option VersionBody)
        → h.body ≡ b
        → with_body h b ≡ some v
        → ((some (head h)) ≡ some (head v.0)) × (v.0.body ≡ some v.1)
    go none f g = none_or_some refl g
    go (some b) f g =
        let same : (h, b) ≡ v = some_injective g in
        (
          ap (λ (x : FileHead × VersionBody). some (head x.0)) same,
          subst (λ (x : FileHead × VersionBody). x.0.body ≡ some x.1) same f,
        )

-- A version that is there under one of the ids, with its body.
abbrev pub IsParent : List Document → List Text → FileHead × VersionBody → Type 0
IsParent documents ids v =
    ((id : Text) × (contains_text ids id ≡ true) × (get_document documents id ≡ some (head v.0)))
    × (v.0.body ≡ some v.1)

IsParent-later :
    (documents : List Document) (ids : List Text) (id : Text) (v : FileHead × VersionBody)
    → IsParent documents ids v
    → IsParent documents (id ∷ ids) v
IsParent-later documents ids id v h = ((h.0.0, later_in id ids h.0.0 h.0.1, h.0.2), h.1)

pub Outcome-cases :
    {A : Type 0} (o : Outcome A) → ((a : A) × (o ≡ ok a)) ⊎ ((f : Fault) × (o ≡ fail f))
Outcome-cases (ok a) = inl (a, refl)
Outcome-cases (fail f) = inr (f, refl)

module _ (documents : List Document) where
  push_nil : (seen : List Text) → push_parents documents seen [] ≡ (seen, [])
  unfolding push_parents
  push_nil seen = refl

  push_seen :
      (seen ids : List Text) (id : Text)
      → contains_text seen id ≡ true
      → push_parents documents seen (id ∷ ids) ≡ push_parents documents seen ids
  unfolding push_parents
  push_seen seen ids id e = rw (e, push_parents) refl

  push_other :
      (seen ids : List Text) (id : Text)
      → contains_text seen id ≡ false
      → as_version (get_document documents id) ≡ none
      → push_parents documents seen (id ∷ ids) ≡ push_parents documents (id ∷ seen) ids
  unfolding push_parents
  push_other seen ids id e f = rw (e, f, push_parents) refl

  push_version :
      (seen ids : List Text) (id : Text) (v : FileHead × VersionBody)
      → contains_text seen id ≡ false
      → as_version (get_document documents id) ≡ some v
      → push_parents documents seen (id ∷ ids) ≡ (
        (push_parents documents (id ∷ seen) ids).0,
        v ∷ (push_parents documents (id ∷ seen) ids).1,
      )
  unfolding push_parents
  push_version seen ids id v e f = rw (e, f, push_parents) refl

  -- The parents that are pushed are versions that are there.
  pub push_parents-All :
      (seen ids : List Text) → All (IsParent documents ids) (push_parents documents seen ids).1
  push_parents-All seen [] = rw (push_nil seen) tt
  push_parents-All seen (id ∷ ids) =
      let rest =
        All-map (IsParent documents ids) (IsParent documents (id ∷ ids))
          (IsParent-later documents ids id) _ (push_parents-All seen ids) in
      let others =
        All-map (IsParent documents ids) (IsParent documents (id ∷ ids))
          (IsParent-later documents ids id) _ (push_parents-All (id ∷ seen) ids) in
      elim (Bool-cases (contains_text seen id)) [
        | inl s ↦ rw (push_seen seen ids id s) rest
        | inr s ↦ elim (Option-cases (as_version (get_document documents id))) [
          | inl n ↦ rw (push_other seen ids id s n) others
          | inr f ↦
              let (here, body) = as_version-head (get_document documents id) f.0 f.1 in
              rw (push_version seen ids id f.0 s f.1) (((id, first_in id ids, here), body), others)
        ]
      ]

  pub push_parents_room :
      (seen ids : List Text)
      → length (push_parents documents seen ids).1
          + unvisited documents (push_parents documents seen ids).0
        ≤ unvisited documents seen
  push_parents_room seen [] = rw (push_nil seen) (omega arith)
  push_parents_room seen (id ∷ ids) = elim (Bool-cases (contains_text seen id)) [
    | inl s ↦ rw (push_seen seen ids id s) (push_parents_room seen ids)
    | inr s ↦ elim (Option-cases (as_version (get_document documents id))) [
      | inl n ↦
          rw (push_other seen ids id s n)
            (omega (arith, push_parents_room (id ∷ seen) ids, unvisited_more documents seen id))
      | inr f ↦
          let (here, body) = as_version-head (get_document documents id) f.0 f.1 in
          rw (push_version seen ids id f.0 s f.1) (
            omega (
              arith,
              push_parents_room (id ∷ seen) ids,
              unvisited_falls documents seen id (head f.0.0) here s,
            ))
    ]
  ]
