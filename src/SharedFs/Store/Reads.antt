-- ===== src/SharedFs/Store/Reads.antt =====
-- packages/shared-fs/library/src/index.ts: reading the content of a file.  Chunks of one version are
-- fetched one after another.
pub mod Fetch
pub mod Parents
pub mod Candidates
pub mod Answers
use peerbit_examples.Prelude.{
  ℕ, zero, suc, Bool, List, [], ◌∷◌, ◌++◌, map, Option, none, some, if◌then◌else◌, length, or_else,
}
use peerbit_examples.SharedFs.Path.Split.{Text, same_text}
use peerbit_examples.SharedFs.Path.{normalize_fs_path}
use peerbit_examples.SharedFs.Mount.Buffer.{Fault, coded, eio, Outcome, ok, fail}
use peerbit_examples.SharedFs.Mount.Target.{◌then_do◌}
use peerbit_examples.SharedFs.Store.Documents.{
  FileHead, FileChunk, VersionBody, Document, node, head, chunk, get_document, contains_text,
}
use peerbit_examples.SharedFs.Store.Nodes.{
  ResolvedPath, at_root, at_directory, at_file, resolve_path,
}
use peerbit_examples.SharedFs.Store.Heads.{visible_file_head}
use peerbit_examples.SharedFs.Store.Chunks.{concat, is_certified}

-- `new Set(ids)`, in the order of the first times.
unfoldable pub unique_from : List Text → List Text → List Text
unique_from seen [] = []
unique_from seen (id ∷ ids) =
    let rest = unique_from seen ids in
    let others = unique_from (id ∷ seen) ids in if contains_text seen id then rest else id ∷ others

unfoldable pub bytes_of_id : List (Text × List ℕ) → Text → List ℕ
bytes_of_id [] id = []
bytes_of_id ((i, bytes) ∷ rest) id = if same_text i id then bytes else bytes_of_id rest id

abbrev pub with_body : FileHead → Option VersionBody → Option (FileHead × VersionBody)
with_body h none = none
with_body h (some b) = some (h, b)

-- A document that is a file version, with its body.
abbrev pub as_version : Option Document → Option (FileHead × VersionBody)
as_version none = none
as_version (some (node r)) = none
as_version (some (chunk c)) = none
as_version (some (head h)) = with_body h h.body

abbrev pub version_of_node : Text → Option (FileHead × VersionBody) → Option VersionBody
version_of_node node_id none = none
version_of_node node_id (some (h, b)) = if same_text h.node_id node_id then some b else none

abbrev pub answered : Option (Outcome (List ℕ)) → Option (Outcome (Option (List ℕ)))
answered none = none
answered (some (ok bytes)) = some (ok (some bytes))
answered (some (fail e)) = some (fail e)

module _ (documents : List Document) where
  -- The parents that are pushed, and the ids that are seen after it.
  unfoldable pub push_parents : List Text → List Text → List Text × List (FileHead × VersionBody)
  push_parents seen [] = (seen, [])
  push_parents seen (id ∷ ids) =
      let rest = push_parents seen ids in
      let further = push_parents (id ∷ seen) ids in
      if contains_text seen id then rest else elim (as_version (get_document documents id)) [
        | none ↦ further
        | some v ↦ (further.0, v ∷ further.1)
      ]

module _ (sha256 : List ℕ → Text) (documents : List Document)
    (remote : Option (Text → Option Document)) where
  unfoldable pub verify_chunk : Option Document → Text → Option FileChunk
  verify_chunk none id = none
  verify_chunk (some (node r)) id = none
  verify_chunk (some (head h)) id = none
  verify_chunk (some (chunk c)) id = if is_certified sha256 c id then some c else none

  abbrev pub remote_chunk : Text → Option FileChunk
  remote_chunk id = elim remote [ none ↦ none | some get ↦ verify_chunk (get id) id ]

  unfoldable pub fetch_chunk : Text → Outcome FileChunk
  fetch_chunk id = elim (verify_chunk (get_document documents id) id) [
    | some c ↦ ok c
    | none ↦ elim (remote_chunk id) [ some c ↦ ok c | none ↦ fail (coded eio) ]
  ]

  unfoldable pub fetch_all : List Text → Outcome (List (Text × List ℕ))
  fetch_all [] = ok []
  fetch_all (id ∷ ids) =
      let rest = fetch_all ids in
      fetch_chunk id then_do (λ c. rest then_do (λ by_id. ok ((id, c.bytes) ∷ by_id)))

  unfoldable pub read_file_version : VersionBody → Outcome (List ℕ)
  read_file_version version = fetch_all (unique_from [] version.chunk_ids) then_do (λ by_id.
      let bytes = concat (map (bytes_of_id by_id) version.chunk_ids) in
      if same_text (sha256 bytes) version.content_hash then ok bytes else fail (coded eio))

  -- The loop over the candidates; `none` means that the rounds ran out.
  unfoldable pub read_candidates :
      ℕ → List Text → List (FileHead × VersionBody) → Option Fault → Option (Outcome (List ℕ))
  read_candidates zero seen queue first_error = none
  read_candidates (suc fuel) seen [] first_error = some (fail (or_else first_error (coded eio)))
  read_candidates (suc fuel) seen (v ∷ queue) first_error = elim (read_file_version v.1) [
    | ok bytes ↦ some (ok bytes)
    | fail e ↦
        let (now_seen, pushed) = push_parents documents seen v.0.parent_version_ids in
        read_candidates fuel now_seen (queue ++ pushed) (some (or_else first_error e))
  ]

  -- Two rounds more than there are documents are enough.
  unfoldable pub read_visible : FileHead → VersionBody → Option (Outcome (List ℕ))
  read_visible h body =
      read_candidates (suc (suc (length documents))) (h.id ∷ []) ((h, body) ∷ []) none

  abbrev pub read_body : FileHead → Option VersionBody → Option (Outcome (Option (List ℕ)))
  read_body h none = some (ok none)
  read_body h (some b) = answered (read_visible h b)

  abbrev pub read_head : Option FileHead → Option (Outcome (Option (List ℕ)))
  read_head none = some (ok none)
  read_head (some h) = read_body h h.body

module _ (sha256 : List ℕ → Text) (documents : List Document)
    (remote : Option (Text → Option Document)) (before : Text → Text → Bool) where
  abbrev pub read_resolved : Option ResolvedPath → Option (Outcome (Option (List ℕ)))
  read_resolved none = some (ok none)
  read_resolved (some at_root) = some (ok none)
  read_resolved (some (at_directory r p)) = some (ok none)
  read_resolved (some (at_file r p)) =
      read_head sha256 documents remote (visible_file_head before documents r.node_id)

  unfoldable pub read_file : Text → Option (Outcome (Option (List ℕ)))
  read_file path = read_resolved (resolve_path before documents (normalize_fs_path path))

  abbrev pub read_selected : Text → Option ResolvedPath → Outcome (Option (List ℕ))
  read_selected version_id none = ok none
  read_selected version_id (some at_root) = ok none
  read_selected version_id (some (at_directory r p)) = ok none
  read_selected version_id (some (at_file r p)) =
      elim (version_of_node r.node_id (as_version (get_document documents version_id))) [
        | none ↦ ok none
        | some b ↦ read_file_version sha256 documents remote b then_do (λ bytes. ok (some bytes))
      ]

  unfoldable pub read_version : Text → Text → Outcome (Option (List ℕ))
  read_version path version_id =
      read_selected version_id (resolve_path before documents (normalize_fs_path path))
