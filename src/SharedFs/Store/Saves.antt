-- ===== src/SharedFs/Store/Saves.antt =====
-- packages/shared-fs/library/src/index.ts: `mkdir`, `writeFile` and `resolveConflict`.  The chunks of a
-- write are put one after another.
use peerbit_examples.Prelude.{
  ℕ, Bool, true, false, not, ◌&&◌, List, [], ◌∷◌, map, Option, none, some, if◌then◌else◌, length,
  or_else, is_some,
}
use peerbit_examples.SharedFs.Path.Split.{Text, same_text}
use peerbit_examples.SharedFs.Path.{normalize_fs_path, basename}
use peerbit_examples.SharedFs.Mount.Buffer.{
  Number, nat, coded, eexist, eisdir, enoent, Outcome, ok, fail,
}
use peerbit_examples.SharedFs.Mount.Target.{directory, file}
use peerbit_examples.SharedFs.Store.Documents.{
  NodeRecord, FileHead, VersionBody, FileChunk, node, head, chunk, get_document, Metadata,
}
use peerbit_examples.SharedFs.Store.Nodes.{
  ResolvedPath, at_root, at_directory, at_file, resolve_parent,
}
use peerbit_examples.SharedFs.Store.Heads.{heads_for_node, not_referenced, ids_of}
use peerbit_examples.SharedFs.Store.Chunks.{chunk_bytes, file_chunk}
use peerbit_examples.SharedFs.Store.Peer.{
  create_id, Peer, Act, ◌>>=◌, ◌>>◌, pure, raise, gets, asks, documents, signed_metadata, put,
}
use peerbit_examples.SharedFs.Store.Infos.{SharedFsVersionInfo, version_info}
use peerbit_examples.SharedFs.Store.Reads.{as_version, version_of_node}
use peerbit_examples.SharedFs.Store.Records.{is_root_path, record_of, head_of, resolved}

pub record WriteFileOptions : Type 0 where
  pub base_version_ids : Option (List Text)
  pub chunk_size : Option Number

-- The file that stands at the path of a write; a directory there is an error.
abbrev pub existing_file : Option ResolvedPath → Outcome (Option NodeRecord)
existing_file none = ok none
existing_file (some at_root) = ok none
existing_file (some (at_directory r p)) = fail (coded eisdir)
existing_file (some (at_file r p)) = ok (some r)

abbrev pub version_hash : Option VersionBody → Text → Bool
version_hash none hash = false
version_hash (some b) hash = same_text b.content_hash hash

-- The head of a save that changes nothing.
unfoldable pub unchanged_head : WriteFileOptions → List FileHead → Text → Option FileHead
unchanged_head options [] hash = none
unchanged_head options (h ∷ []) hash =
    if not (is_some options.base_version_ids)
      && not (is_some options.chunk_size)
      && version_hash h.body hash
    then some h
    else none
unchanged_head options (h ∷ g ∷ hs) hash = none

-- `Map.set`, by the ids of the chunks.
unfoldable pub set_chunk : List FileChunk → FileChunk → List FileChunk
set_chunk [] c = c ∷ []
set_chunk (x ∷ xs) c = if same_text x.id c.id then c ∷ xs else x ∷ set_chunk xs c

unfoldable pub unique_chunks : List FileChunk → List FileChunk → List FileChunk
unique_chunks acc [] = acc
unique_chunks acc (c ∷ cs) = unique_chunks (set_chunk acc c) cs

-- The node that `resolveConflict` is about.
abbrev pub file_there : Option ResolvedPath → Outcome NodeRecord
file_there none = fail (coded enoent)
file_there (some at_root) = fail (coded enoent)
file_there (some (at_directory r p)) = fail (coded enoent)
file_there (some (at_file r p)) = ok r

abbrev pub version_there : Option VersionBody → Outcome VersionBody
version_there none = fail (coded enoent)
version_there (some b) = ok b

module _ {S : Type 0} (peer : Peer S) where
  unfoldable pub mkdir : Text → Act S (Unit {0})
  mkdir path =
      let normalized = normalize_fs_path path in
      if is_root_path normalized then pure tt else do
        found ← gets (resolved peer normalized)
        if is_some found then raise (coded eexist) else do
          parent_id ← asks (λ s. resolve_parent peer.before (documents peer s) normalized)
          metadata ← signed_metadata peer
          id ← gets (λ s. create_id peer s (b'd' ∷ b'i' ∷ b'r' ∷ []))
          put peer (
              node (
                record_of directory id parent_id (basename normalized) none metadata.timestamp false
                  metadata))

  unfoldable pub has_document : Text → S → Bool
  has_document id s = is_some (get_document (documents peer s) id)

  unfoldable pub put_chunk : FileChunk → Act S (Unit {0})
  put_chunk c =
      if peer.is_full_replica
      then (do there ← gets (has_document c.id); if there then pure tt else put peer (chunk c))
      else put peer (chunk c)

  unfoldable pub put_chunks : List FileChunk → Act S (Unit {0})
  put_chunks [] = pure tt
  put_chunks (c ∷ cs) = do put_chunk c; put_chunks cs

  -- The new version, its chunks before it and its record behind it.
  unfoldable pub put_version :
      Text
      → Text
      → Text
      → List FileHead
      → Text
      → List ℕ
      → WriteFileOptions
      → ℕ
      → Metadata
      → Act S SharedFsVersionInfo
  put_version normalized node_id parent_id heads hash bytes options created_at metadata = do
    let parents = or_else options.base_version_ids (ids_of heads)
    id ← gets (λ s. create_id peer s (b'v' ∷ b'e' ∷ b'r' ∷ b's' ∷ b'i' ∷ b'o' ∷ b'n' ∷ []))
    pieces ← asks (λ s. chunk_bytes bytes (or_else options.chunk_size (nat 524288)))
    let chunks = map (file_chunk peer.sha256) pieces
    put_chunks (unique_chunks [] chunks)
    let body : VersionBody = record {
      content_hash = hash;
      size = length bytes;
      chunk_ids = map (λ c. c.id) chunks;
      conflict_resolution = false;
    }
    let version = head_of id node_id parent_id (basename normalized) parents metadata (some body)
    put peer (head version)
    put peer (
        node (
          record_of file node_id parent_id (basename normalized) (some id) created_at false
            metadata))
    pure (version_info version normalized (version ∷ not_referenced parents heads))

  abbrev pub node_to_write : Option NodeRecord → S → Text
  node_to_write none s = create_id peer s (b'f' ∷ b'i' ∷ b'l' ∷ b'e' ∷ [])
  node_to_write (some r) s = r.node_id

  abbrev pub current_heads : Option NodeRecord → S → List FileHead
  current_heads none s = []
  current_heads (some r) s = heads_for_node peer.before (documents peer s) r.node_id

  abbrev pub created : Option NodeRecord → Metadata → ℕ
  created none metadata = metadata.timestamp
  created (some r) metadata = r.created_at

  unfoldable pub write_file : Text → List ℕ → WriteFileOptions → Act S SharedFsVersionInfo
  write_file path bytes options =
      let normalized = normalize_fs_path path in
      if is_root_path normalized then raise (coded eisdir) else do
        existing ← asks (λ s. existing_file (resolved peer normalized s))
        parent_id ← asks (λ s. resolve_parent peer.before (documents peer s) normalized)
        metadata ← signed_metadata peer
        node_id ← gets (node_to_write existing)
        heads ← gets (current_heads existing)
        let hash = peer.sha256 bytes
        elim (unchanged_head options heads hash) [
          | some h ↦ pure (version_info h normalized heads)
          | none ↦
              put_version normalized node_id parent_id heads hash bytes options
                (created existing metadata) metadata
        ]

  unfoldable pub resolve_conflict : Text → Text → Act S SharedFsVersionInfo
  resolve_conflict path version_id = do
    let normalized = normalize_fs_path path
    r ← asks (λ s. file_there (resolved peer normalized s))
    selected ← asks (λ s.
        version_there
          (version_of_node r.node_id (as_version (get_document (documents peer s) version_id))))
    heads ← gets (λ s. heads_for_node peer.before (documents peer s) r.node_id)
    metadata ← signed_metadata peer
    id ← gets (λ s. create_id peer s (b'v' ∷ b'e' ∷ b'r' ∷ b's' ∷ b'i' ∷ b'o' ∷ b'n' ∷ []))
    let resolution =
        head_of id r.node_id r.parent_id r.name (ids_of heads) metadata
          (some (record selected { conflict_resolution = true }))
    put peer (head resolution)
    put peer (
        node
          (record_of file r.node_id r.parent_id r.name (some id) r.created_at r.deleted metadata))
    pure (version_info resolution normalized (resolution ∷ []))
