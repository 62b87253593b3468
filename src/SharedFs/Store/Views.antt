-- ===== src/SharedFs/Store/Views.antt =====
-- packages/shared-fs/library/src/index.ts: `stat`, `list`, `versions` and `conflicts`.  The heads of
-- many nodes are asked for by one query for each node.
use peerbit_examples.Prelude.{
  Bool, true, false, ◌||◌, List, [], ◌∷◌, ◌++◌, map, Option, none, some, if◌then◌else◌, ltb, length,
}
use peerbit_examples.SharedFs.Path.Split.{Text, slash, same_text}
use peerbit_examples.SharedFs.Path.{normalize_fs_path, join_fs_path}
use peerbit_examples.SharedFs.Mount.Buffer.{coded, enoent, enotdir, Outcome, ok, fail}
use peerbit_examples.SharedFs.Mount.Target.{directory, ◌then_do◌}
use peerbit_examples.SharedFs.Mount.Directory.{starts_with}
use peerbit_examples.SharedFs.Store.Documents.{NodeRecord, FileHead, Document, heads_where}
use peerbit_examples.SharedFs.Store.Order.{sort}
use peerbit_examples.SharedFs.Store.Nodes.{
  ResolvedPath, at_root, at_directory, at_file, root_node_id, is_directory_record, node_record,
  child_records, dedupe_by_name, resolve_path, path_for_record,
}
use peerbit_examples.SharedFs.Store.Heads.{
  is_of_node, heads_from_documents, head_documents_for_node, heads_for_node,
}
use peerbit_examples.SharedFs.Store.Infos.{
  SharedFsEntryInfo, SharedFsVersionInfo, SharedFsConflict, version_info, entry_info_for,
}

-- What `stat` tells of the root.
abbrev pub root_info : SharedFsEntryInfo
root_info = record {
  path = slash ∷ [];
  node_id = root_node_id;
  name = [];
  kind = directory;
  size = 0;
  updated_at = 0;
  author_key = [];
  machine_label = [];
  conflict = false;
  version_id = none;
  head_version_ids = none;
  content_hash = none;
}

-- The node whose children are listed.
abbrev pub listed_node : Option ResolvedPath → Outcome Text
listed_node none = fail (coded enoent)
listed_node (some at_root) = ok root_node_id
listed_node (some (at_directory r p)) = ok r.node_id
listed_node (some (at_file r p)) = fail (coded enotdir)

-- `byNode`, in the order in which the nodes come first.
unfoldable pub add_to_node : List (Text × List FileHead) → FileHead → List (Text × List FileHead)
add_to_node [] h = (h.node_id, h ∷ []) ∷ []
add_to_node ((id, hs) ∷ rest) h =
    if same_text id h.node_id then (id, hs ++ h ∷ []) ∷ rest else (id, hs) ∷ add_to_node rest h

unfoldable pub by_node_from :
    List (Text × List FileHead) → List FileHead → List (Text × List FileHead)
by_node_from groups [] = groups
by_node_from groups (h ∷ hs) = by_node_from (add_to_node groups h) hs

-- A path that is the one asked for, or below it.
unfoldable pub is_at_or_below : Option Text → Text → Bool
is_at_or_below none path = true
is_at_or_below (some prefix) path =
    same_text prefix (slash ∷ [])
    || same_text path prefix
    || starts_with path (prefix ++ slash ∷ [])

-- `if (path)`, which the empty path does not pass.
abbrev pub nonempty_path : Option Text → Option Text
nonempty_path none = none
nonempty_path (some []) = none
nonempty_path (some (c ∷ cs)) = some (c ∷ cs)

-- Of a record that is a file and not deleted.
abbrev pub live_file : Option NodeRecord → Option NodeRecord
live_file none = none
live_file (some r) = if is_directory_record r || r.deleted then none else some r

module _ (before : Text → Text → Bool) (documents : List Document) where
  abbrev pub stat_resolved : Option ResolvedPath → Option SharedFsEntryInfo
  stat_resolved none = none
  stat_resolved (some at_root) = some root_info
  stat_resolved (some (at_directory r p)) = entry_info_for r p []
  stat_resolved (some (at_file r p)) =
      entry_info_for r p (heads_for_node before documents r.node_id)

  unfoldable pub stat : Text → Option SharedFsEntryInfo
  stat path = stat_resolved (resolve_path before documents (normalize_fs_path path))

  unfoldable pub heads_of_child : NodeRecord → List FileHead
  heads_of_child r =
      if is_directory_record r
      then []
      else heads_from_documents before (heads_where (is_of_node r.node_id) documents)

  unfoldable pub infos_of : Text → List NodeRecord → List SharedFsEntryInfo
  infos_of normalized [] = []
  infos_of normalized (r ∷ rs) =
      let rest = infos_of normalized rs in
      elim (entry_info_for r (join_fs_path (normalized ∷ r.name ∷ [])) (heads_of_child r)) [
        | none ↦ rest
        | some info ↦ info ∷ rest
      ]

  abbrev pub name_before : SharedFsEntryInfo → SharedFsEntryInfo → Bool
  name_before a b = before a.name b.name

  unfoldable pub list : Text → Outcome (List SharedFsEntryInfo)
  list path =
      let normalized = normalize_fs_path path in
      listed_node (resolve_path before documents normalized) then_do (λ parent_id.
        let children = dedupe_by_name before (child_records documents parent_id) in
        ok (sort name_before (infos_of normalized children)))

  abbrev pub version_infos : Text → List FileHead → List FileHead → List SharedFsVersionInfo
  version_infos path hs heads = map (λ h. version_info h path heads) hs

  abbrev pub versions_resolved : Text → Option ResolvedPath → List SharedFsVersionInfo
  versions_resolved path none = []
  versions_resolved path (some at_root) = []
  versions_resolved path (some (at_directory r p)) = []
  versions_resolved path (some (at_file r p)) =
      let hs = head_documents_for_node before documents r.node_id in
      version_infos path hs (heads_from_documents before hs)

  unfoldable pub versions : Text → List SharedFsVersionInfo
  versions path =
      let normalized = normalize_fs_path path in
      versions_resolved normalized (resolve_path before documents normalized)

  abbrev pub conflict_of : Text → Text → List FileHead → SharedFsConflict
  conflict_of path node_id heads = record {
    path = path;
    node_id = node_id;
    versions = version_infos path heads heads;
  }

  abbrev pub conflicting : List FileHead → Bool
  conflicting heads = ltb 1 (length heads)

  -- A node's conflict, where it has one, it is a live file and its path is asked for.
  unfoldable pub node_conflict : Option Text → Text → List FileHead → Option SharedFsConflict
  node_conflict prefix node_id hs =
      let heads = heads_from_documents before hs in
      if conflicting heads
      then elim (live_file (node_record documents node_id)) [
        | none ↦ none
        | some r ↦ elim (path_for_record documents r) [
          | none ↦ none
          | some path ↦
              if is_at_or_below prefix path then some (conflict_of path node_id heads) else none
        ]
      ]
      else none

  unfoldable pub node_conflicts : Option Text → List (Text × List FileHead) → List SharedFsConflict
  node_conflicts prefix [] = []
  node_conflicts prefix ((id, hs) ∷ rest) =
      let others = node_conflicts prefix rest in
      elim (node_conflict prefix id hs) [ none ↦ others | some c ↦ c ∷ others ]

  abbrev pub path_before : SharedFsConflict → SharedFsConflict → Bool
  path_before a b = before a.path b.path

  unfoldable pub all_conflicts : Option Text → List SharedFsConflict
  all_conflicts prefix =
      sort path_before (node_conflicts prefix (by_node_from [] (heads_where (λ h. true) documents)))

  abbrev pub conflicts_at : Text → Option ResolvedPath → List SharedFsConflict
  conflicts_at path none = []
  conflicts_at path (some at_root) = all_conflicts (some (normalize_fs_path path))
  conflicts_at path (some (at_directory r p)) = all_conflicts (some (normalize_fs_path path))
  conflicts_at path (some (at_file r p)) =
      let heads = heads_for_node before documents r.node_id in
      if conflicting heads then conflict_of p r.node_id heads ∷ [] else []

  unfoldable pub conflicts : Option Text → List SharedFsConflict
  conflicts path = elim (nonempty_path path) [
    | none ↦ all_conflicts none
    | some p ↦ conflicts_at p (resolve_path before documents p)
  ]
