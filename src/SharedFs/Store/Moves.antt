-- ===== src/SharedFs/Store/Moves.antt =====
-- packages/shared-fs/library/src/index.ts: `rm` and `rename`.
use peerbit_examples.Prelude.{
  Bool, true, false, ◌||◌, ◌&&◌, List, [], ◌∷◌, Option, none, some, if◌then◌else◌,
}
use peerbit_examples.SharedFs.Path.Split.{Text, same_text}
use peerbit_examples.SharedFs.Path.{normalize_fs_path, basename}
use peerbit_examples.SharedFs.Mount.Buffer.{
  coded, eisdir, enoent, enotdir, enotempty, einval, Outcome, ok, fail,
}
use peerbit_examples.SharedFs.Mount.Target.{directory, file}
use peerbit_examples.SharedFs.Store.Documents.{NodeRecord, Document, node, head}
use peerbit_examples.SharedFs.Store.Nodes.{
  ResolvedPath, at_root, at_directory, at_file, resolve_parent, is_within_subtree,
  is_directory_record,
}
use peerbit_examples.SharedFs.Store.Heads.{heads_for_node, ids_of}
use peerbit_examples.SharedFs.Store.Peer.{
  create_id, Peer, Act, ◌>>=◌, ◌>>◌, pure, raise, gets, asks, documents, signed_metadata, put,
}
use peerbit_examples.SharedFs.Store.Views.{list}
use peerbit_examples.SharedFs.Store.Records.{is_root_path, record_of, head_of, resolved}

-- What `rename` moves.
abbrev pub moved_node : Option ResolvedPath → Outcome NodeRecord
moved_node none = fail (coded enoent)
moved_node (some at_root) = fail (coded enoent)
moved_node (some (at_directory r p)) = ok r
moved_node (some (at_file r p)) = ok r

pub data Destination : Type 0 where
  itself : Destination
  vacant : Destination
  taken : Destination

-- What stands where `rename` moves a node to; only a file takes a file's place.
unfoldable pub destination_of : NodeRecord → Option ResolvedPath → Outcome Destination
destination_of r none = ok vacant
destination_of r (some at_root) = fail (coded einval)
destination_of r (some (at_directory d p)) =
    if same_text d.node_id r.node_id then ok itself else fail (coded eisdir)
destination_of r (some (at_file d p)) =
    if same_text d.node_id r.node_id
    then ok itself
    else elim r.kind [ directory ↦ fail (coded enotdir) | file ↦ ok taken ]

abbrev pub or_true : Option Bool → Bool
or_true none = true
or_true (some b) = b

-- Whether a directory would come below itself; the walk ends, so it answers.
unfoldable pub into_itself : List Document → NodeRecord → Text → Bool
into_itself ds r parent_id =
    is_directory_record r
    && (same_text parent_id r.node_id || or_true (is_within_subtree ds parent_id r.node_id))

module _ {S : Type 0} (peer : Peer S) where
  unfoldable pub remove_directory : Text → NodeRecord → Act S (Unit {0})
  remove_directory normalized r = do
    metadata ← signed_metadata peer
    children ← asks (λ s. list peer.before (documents peer s) normalized)
    elim children [
      | c ∷ cs ↦ raise (coded enotempty)
      | [] ↦
          put peer (
            node (record_of directory r.node_id r.parent_id r.name none r.created_at true metadata))
    ]

  unfoldable pub remove_file : NodeRecord → Act S (Unit {0})
  remove_file r = do
    metadata ← signed_metadata peer
    heads ← gets (λ s. heads_for_node peer.before (documents peer s) r.node_id)
    id ← gets (λ s. create_id peer s (b'd' ∷ b'e' ∷ b'l' ∷ b'e' ∷ b't' ∷ b'e' ∷ []))
    put peer (head (head_of id r.node_id r.parent_id r.name (ids_of heads) metadata none))
    put peer
        (node (record_of file r.node_id r.parent_id r.name (some id) r.created_at true metadata))

  abbrev pub remove_resolved : Text → Option ResolvedPath → Act S (Unit {0})
  remove_resolved normalized none = pure tt
  remove_resolved normalized (some at_root) = raise (coded einval)
  remove_resolved normalized (some (at_directory r p)) = remove_directory normalized r
  remove_resolved normalized (some (at_file r p)) = remove_file r

  unfoldable pub rm : Text → Act S (Unit {0})
  rm path =
      let normalized = normalize_fs_path path in
      if is_root_path normalized
      then raise (coded einval)
      else do found ← gets (resolved peer normalized); remove_resolved normalized found

  -- The move itself, with what it replaces removed first.
  unfoldable pub move_node : NodeRecord → Text → Text → Bool → Act S (Unit {0})
  move_node r to_path parent_id replaces = do
    (if replaces then rm to_path else pure tt)
    metadata ← signed_metadata peer
    put peer (
        node (
          record_of r.kind r.node_id parent_id (basename to_path) r.current_version_id r.created_at
            r.deleted metadata))

  abbrev pub rename_to : NodeRecord → Text → Bool → Act S (Unit {0})
  rename_to r to_path replaces = do
    parent_id ← asks (λ s. resolve_parent peer.before (documents peer s) to_path)
    blocked ← gets (λ s. into_itself (documents peer s) r parent_id)
    if blocked then raise (coded einval) else move_node r to_path parent_id replaces

  unfoldable pub rename : Text → Text → Act S (Unit {0})
  rename from to =
      let from_path = normalize_fs_path from in
      let to_path = normalize_fs_path to in
      if same_text from_path to_path then pure tt else do
        r ← asks (λ s. moved_node (resolved peer from_path s))
        destination ← asks (λ s. destination_of r (resolved peer to_path s))
        elim destination [
          | itself ↦ pure tt
          | vacant ↦ rename_to r to_path false
          | taken ↦ rename_to r to_path true
        ]
