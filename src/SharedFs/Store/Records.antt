-- ===== src/SharedFs/Store/Records.antt =====
-- packages/shared-fs/library/src/model.ts and index.ts: the documents as the calls make them, and the
-- node at a path.
use peerbit_examples.Prelude.{ℕ, Bool, List, [], ◌∷◌, Option}
use peerbit_examples.SharedFs.Path.Split.{Text, slash, same_text}
use peerbit_examples.SharedFs.Mount.Target.{Kind}
use peerbit_examples.SharedFs.Store.Documents.{NodeRecord, FileHead, VersionBody, Metadata}
use peerbit_examples.SharedFs.Store.Nodes.{ResolvedPath, resolve_path}
use peerbit_examples.SharedFs.Store.Peer.{Peer, documents}

abbrev pub is_root_path : Text → Bool
is_root_path normalized = same_text normalized (slash ∷ [])

-- The record of a directory, or of a file whose current version is given.
abbrev pub record_of : Kind → Text → Text → Text → Option Text → ℕ → Bool → Metadata → NodeRecord
record_of kind node_id parent_id name version created_at deleted metadata = record {
  kind = kind;
  node_id = node_id;
  parent_id = parent_id;
  name = name;
  current_version_id = version;
  created_at = created_at;
  updated_at = metadata.timestamp;
  author_key = metadata.author_key;
  machine_label = metadata.machine_label;
  deleted = deleted;
}

abbrev pub head_of :
    Text → Text → Text → Text → List Text → Metadata → Option VersionBody → FileHead
head_of id node_id parent_id name parents metadata body = record {
  id = id;
  node_id = node_id;
  parent_id = parent_id;
  name = name;
  parent_version_ids = parents;
  created_at = metadata.timestamp;
  author_key = metadata.author_key;
  machine_label = metadata.machine_label;
  body = body;
}

module _ {S : Type 0} (peer : Peer S) where
  abbrev pub resolved : Text → S → Option ResolvedPath
  resolved path s = resolve_path peer.before (documents peer s) path
