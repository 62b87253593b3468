-- ===== src/SharedFs/Store/Infos.antt =====
-- packages/shared-fs/library/src/index.ts: what the calls tell of entries and versions.
use peerbit_examples.Prelude.{ℕ, Bool, true, false, List, [], ◌∷◌, Option, none, some, ltb, length}
use peerbit_examples.SharedFs.Path.Split.{Text}
use peerbit_examples.SharedFs.Mount.Target.{Kind, directory, file}
use peerbit_examples.SharedFs.Store.Documents.{NodeRecord, FileHead, VersionBody, contains_text}
use peerbit_examples.SharedFs.Store.Heads.{ids_of}

-- The last three are there for files.
pub record SharedFsEntryInfo : Type 0 where
  pub path : Text
  pub node_id : Text
  pub name : Text
  pub kind : Kind
  pub size : ℕ
  pub updated_at : ℕ
  pub author_key : Text
  pub machine_label : Text
  pub conflict : Bool
  pub version_id : Option Text
  pub head_version_ids : Option (List Text)
  pub content_hash : Option Text

pub record SharedFsVersionInfo : Type 0 where
  pub id : Text
  pub node_id : Text
  pub path : Text
  pub size : ℕ
  pub content_hash : Option Text
  pub parent_version_ids : List Text
  pub created_at : ℕ
  pub author_key : Text
  pub machine_label : Text
  pub deleted : Bool
  pub head : Bool

pub record SharedFsConflict : Type 0 where
  pub path : Text
  pub node_id : Text
  pub versions : List SharedFsVersionInfo

abbrev pub body_size : Option VersionBody → ℕ
body_size none = 0
body_size (some b) = b.size

abbrev pub body_hash : Option VersionBody → Option Text
body_hash none = none
body_hash (some b) = some b.content_hash

abbrev pub is_deleted : Option VersionBody → Bool
is_deleted none = true
is_deleted (some b) = false

unfoldable pub version_info : FileHead → Text → List FileHead → SharedFsVersionInfo
version_info h path heads = record {
  id = h.id;
  node_id = h.node_id;
  path = path;
  size = body_size h.body;
  content_hash = body_hash h.body;
  parent_version_ids = h.parent_version_ids;
  created_at = h.created_at;
  author_key = h.author_key;
  machine_label = h.machine_label;
  deleted = is_deleted h.body;
  head = contains_text (ids_of heads) h.id;
}

abbrev pub directory_info : NodeRecord → Text → SharedFsEntryInfo
directory_info r path = record {
  path = path;
  node_id = r.node_id;
  name = r.name;
  kind = directory;
  size = 0;
  updated_at = r.updated_at;
  author_key = r.author_key;
  machine_label = r.machine_label;
  conflict = false;
  version_id = none;
  head_version_ids = none;
  content_hash = none;
}

abbrev pub file_info :
    NodeRecord → Text → List FileHead → FileHead → VersionBody → SharedFsEntryInfo
file_info r path heads visible body = record {
  path = path;
  node_id = r.node_id;
  name = r.name;
  kind = file;
  size = body.size;
  updated_at = r.updated_at;
  author_key = r.author_key;
  machine_label = r.machine_label;
  conflict = ltb 1 (length heads);
  version_id = some visible.id;
  head_version_ids = some (ids_of heads);
  content_hash = some body.content_hash;
}

-- The file's entry, which a visible delete marker hides.
abbrev pub visible_info : NodeRecord → Text → List FileHead → Option SharedFsEntryInfo
visible_info r path [] = none
visible_info r path (h ∷ hs) = elim h.body [
  | none ↦ none
  | some b ↦ some (file_info r path (h ∷ hs) h b)
]

unfoldable pub entry_info_for : NodeRecord → Text → List FileHead → Option SharedFsEntryInfo
entry_info_for r path heads = elim r.kind [
  | directory ↦ some (directory_info r path)
  | file ↦ visible_info r path heads
]
