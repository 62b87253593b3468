-- ===== src/SharedFs/Store/Reads/Candidates.antt =====
-- Lemmas on the candidates of a read.
use peerbit_examples.Prelude.{
  ℕ, zero, suc, ◌+◌, ◌<◌, subst, ◌≡◌, refl, sym, ap, ◌∙◌, inl, inr, List, [], ◌∷◌, ◌++◌, map,
  Option, none, some, All, All-map, All-append, length-append, arith, length, or_else,
  if◌then◌else◌, if-true, if-false, Bool-cases,
}
use peerbit_examples.SharedFs.Path.Split.{Text, same_text, same_text_iff}
use peerbit_examples.SharedFs.Mount.Buffer.{Fault, coded, eio, Outcome, ok, fail}
use peerbit_examples.SharedFs.Mount.Target.{◌then_do◌}
use peerbit_examples.SharedFs.Store.Documents.{FileHead, VersionBody, Document}
use peerbit_examples.SharedFs.Store.Query.{some_injective}
use peerbit_examples.SharedFs.Store.Nodes.Acyclic.{none_or_some}
use peerbit_examples.SharedFs.Store.Nodes.Resolved.{fail_or_ok, ok_injective}
use peerbit_examples.SharedFs.Store.Nodes.Tree.{unvisited, unvisited-le}
use peerbit_examples.SharedFs.Store.Chunks.{concat}
use peerbit_examples.SharedFs.Store.Reads.{
  push_parents, read_file_version, read_candidates, read_visible, fetch_all, unique_from,
  bytes_of_id,
}
use peerbit_examples.SharedFs.Store.Reads.Parents.{
  ComesFrom, itself, parent, IsParent, Outcome-cases, push_parents-All, push_parents_room,
}

module _ (sha256 : List ℕ → Text) (documents : List Document)
    (remote : Option (Text → Option Document)) where
  read_ok :
      (fuel : ℕ) (seen : List Text) (v : FileHead × VersionBody)
      (queue : List (FileHead × VersionBody)) (first_error : Option Fault) (bytes : List ℕ)
      → read_file_version sha256 documents remote v.1 ≡ ok bytes
      → read_candidates sha256 documents remote (suc fuel) seen (v ∷ queue) first_error
        ≡ some (ok bytes)
  unfolding read_candidates
  read_ok fuel seen v queue first_error bytes e = rw (e, read_candidates) refl

  read_on :
      (fuel : ℕ) (seen : List Text) (v : FileHead × VersionBody)
      (queue : List (FileHead × VersionBody)) (first_error : Option Fault) (f : Fault)
      → read_file_version sha256 documents remote v.1 ≡ fail f
      → read_candidates sha256 documents remote (suc fuel) seen (v ∷ queue) first_error
        ≡ read_candidates sha256 documents remote fuel
            (push_parents documents seen v.0.parent_version_ids).0
            (queue ++ (push_parents documents seen v.0.parent_version_ids).1)
            (some (or_else first_error f))
  unfolding read_candidates
  read_on fuel seen v queue first_error f e = rw (e, read_candidates) refl

  no_candidates :
      (fuel : ℕ) (seen : List Text) (first_error : Option Fault)
      → read_candidates sha256 documents remote (suc fuel) seen [] first_error
        ≡ some (fail (or_else first_error (coded eio)))
  unfolding read_candidates
  no_candidates fuel seen first_error = refl

  -- The loop ends within the rounds.
  read_candidates_total :
      (fuel : ℕ) (seen : List Text) (queue : List (FileHead × VersionBody))
      (first_error : Option Fault)
      → length queue + unvisited documents seen < fuel
      → (o : Outcome (List ℕ)) × (read_candidates sha256 documents remote fuel seen queue
            first_error
          ≡ some o)
  read_candidates_total zero seen queue first_error h = absurd (omega arith)
  read_candidates_total (suc fuel) seen [] first_error h = (_, no_candidates fuel seen first_error)
  read_candidates_total (suc fuel) seen (v ∷ queue) first_error h =
      elim (Outcome-cases (read_file_version sha256 documents remote v.1)) [
        | inl bytes ↦ (ok bytes.0, read_ok fuel seen v queue first_error bytes.0 bytes.1)
        | inr f ↦
            let (more, pushed) = push_parents documents seen v.0.parent_version_ids in
            let rest =
              read_candidates_total fuel more (queue ++ pushed) (some (or_else first_error f.0)) (
                omega (
                  arith,
                  length-append queue pushed,
                  push_parents_room documents seen v.0.parent_version_ids,
                  h,
                )) in
            (rest.0, read_on fuel seen v queue first_error f.0 f.1 ∙ rest.1)
      ]

  -- A version with its body that the first version comes from.
  abbrev pub IsOrigin : FileHead → FileHead × VersionBody → Type 0
  IsOrigin h v = ComesFrom documents h v.0 × (v.0.body ≡ some v.1)

  parent-IsOrigin :
      (h : FileHead) (v : FileHead × VersionBody)
      → ComesFrom documents h v.0
      → (p : FileHead × VersionBody) → IsParent documents v.0.parent_version_ids p
      → IsOrigin h p
  parent-IsOrigin h v from p q = (parent v.0 p.0 q.0.0 from q.0.1 q.0.2, q.1)

  no_rounds :
      (seen : List Text) (queue : List (FileHead × VersionBody)) (first_error : Option Fault)
      → read_candidates sha256 documents remote 0 seen queue first_error ≡ none
  unfolding read_candidates
  no_rounds seen queue first_error = refl

  read_candidates-IsOrigin :
      (h : FileHead) (fuel : ℕ) (seen : List Text) (queue : List (FileHead × VersionBody))
      (first_error : Option Fault) (bytes : List ℕ)
      → All (IsOrigin h) queue
      → read_candidates sha256 documents remote fuel seen queue first_error ≡ some (ok bytes)
      → (v : FileHead × VersionBody) × IsOrigin h v
        × (read_file_version sha256 documents remote v.1 ≡ ok bytes)
  read_candidates-IsOrigin h zero seen queue first_error bytes q e =
      none_or_some (no_rounds seen queue first_error) e
  read_candidates-IsOrigin h (suc fuel) seen [] first_error bytes q e =
      fail_or_ok (some_injective (sym (no_candidates fuel seen first_error) ∙ e))
  read_candidates-IsOrigin h (suc fuel) seen (v ∷ queue) first_error bytes q e =
      elim (Outcome-cases (read_file_version sha256 documents remote v.1)) [
        | inl b ↦
            let same : b.0 ≡ bytes =
              ok_injective
                (some_injective (sym (read_ok fuel seen v queue first_error b.0 b.1) ∙ e)) in
            (v, q.0, b.1 ∙ ap ok same)
        | inr f ↦
            let (more, pushed) = push_parents documents seen v.0.parent_version_ids in
            read_candidates-IsOrigin h fuel more (queue ++ pushed) (some (or_else first_error f.0))
              bytes
              (All-append (IsOrigin h) queue pushed q.1 (
                All-map (IsParent documents v.0.parent_version_ids) (IsOrigin h)
                  (parent-IsOrigin h v q.0.0) pushed
                  (push_parents-All documents seen v.0.parent_version_ids)))
              (sym (read_on fuel seen v queue first_error f.0 f.1) ∙ e)
      ]

  pub read_file_version_hash :
      (version : VersionBody) (bytes : List ℕ)
      → read_file_version sha256 documents remote version ≡ ok bytes
      → sha256 bytes ≡ version.content_hash
  unfolding read_file_version ◌then_do◌
  read_file_version_hash version bytes e =
      go (fetch_all sha256 documents remote (unique_from [] version.chunk_ids)) e
    where
      go :
          (o : Outcome (List (Text × List ℕ)))
          → (o then_do (λ by_id.
              let bytes = concat (map (bytes_of_id by_id) version.chunk_ids) in
              if same_text (sha256 bytes) version.content_hash then ok bytes else fail (coded eio)))
            ≡ ok bytes
          → sha256 bytes ≡ version.content_hash
      go (fail f) g = fail_or_ok g
      go (ok by_id) g = checked (concat (map (bytes_of_id by_id) version.chunk_ids)) g
        where
          checked :
              (b : List ℕ)
              → (if same_text (sha256 b) version.content_hash then ok b else fail (coded eio))
                ≡ ok bytes
              → sha256 bytes ≡ version.content_hash
          checked b g = elim (Bool-cases (same_text (sha256 b) version.content_hash)) [
            | inl t ↦
                subst (λ x. sha256 x ≡ version.content_hash)
                  (ok_injective (sym (if-true _ _ _ t) ∙ g)) ((same_text_iff _ _).0 t)
            | inr t ↦ fail_or_ok (sym (if-false _ _ _ t) ∙ g)
          ]

  pub read_visible_total :
      (h : FileHead) (b : VersionBody)
      → (o : Outcome (List ℕ)) × (read_visible sha256 documents remote h b ≡ some o)
  unfolding read_visible
  read_visible_total h b =
      read_candidates_total (suc (suc (length documents))) (h.id ∷ []) ((h, b) ∷ []) none
        (omega (arith, unvisited-le documents (h.id ∷ [])))

  pub read_visible-IsOrigin :
      (h : FileHead) (b : VersionBody) (bytes : List ℕ)
      → h.body ≡ some b
      → read_visible sha256 documents remote h b ≡ some (ok bytes)
      → (v : FileHead × VersionBody) × IsOrigin h v
        × (read_file_version sha256 documents remote v.1 ≡ ok bytes)
  unfolding read_visible
  read_visible-IsOrigin h b bytes e f =
      read_candidates-IsOrigin h (suc (suc (length documents))) (h.id ∷ []) ((h, b) ∷ []) none bytes
        ((itself, e), tt) f
