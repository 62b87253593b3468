-- ===== src/SharedFs/Store/Nodes.antt =====
-- packages/shared-fs/library/src/index.ts: nodes, and the paths that lead to them.
pub mod Same
pub mod Tree
pub mod Acyclic
pub mod Resolved
pub mod Dedupe
pub mod Listed
pub mod Above
use peerbit_examples.Prelude.{
  ℕ, zero, suc, ◌≡◌, Bool, true, false, not, ◌&&◌, List, [], ◌∷◌, Option, none, some, if◌then◌else◌,
  length,
}
use peerbit_examples.SharedFs.Path.Split.{Text, slash, same_text, join}
use peerbit_examples.SharedFs.Path.{normalize_fs_path, path_segments, dirname, join_fs_path}
use peerbit_examples.SharedFs.Mount.Buffer.{Outcome, ok, fail, coded, enoent, enotdir}
use peerbit_examples.SharedFs.Mount.Target.{Kind, directory, file}
use peerbit_examples.SharedFs.Store.Documents.{
  NodeRecord, FileHead, FileChunk, Document, node, head, chunk, get_document, nodes_where,
  contains_text,
}
use peerbit_examples.SharedFs.Store.Order.{first, sort, earlier}

abbrev pub root_node_id : Text
root_node_id = b'r' ∷ b'o' ∷ b'o' ∷ b't' ∷ []

abbrev pub as_node : Option Document → Option NodeRecord
as_node (some (node r)) = some r
as_node (some (head h)) = none
as_node (some (chunk c)) = none
as_node none = none

unfoldable pub node_record : List Document → Text → Option NodeRecord
node_record documents id =
    if same_text id root_node_id then none else as_node (get_document documents id)

abbrev pub is_live_child : Text → NodeRecord → Bool
is_live_child parent_id r = same_text r.parent_id parent_id && not r.deleted

abbrev pub is_child_named : Text → Text → NodeRecord → Bool
is_child_named parent_id name r =
    same_text r.parent_id parent_id && same_text r.name name && not r.deleted

unfoldable pub child_records : List Document → Text → List NodeRecord
child_records documents parent_id = nodes_where (is_live_child parent_id) documents

pub data ResolvedPath : Type 0 where
  at_root : ResolvedPath
  at_directory : NodeRecord → Text → ResolvedPath
  at_file : NodeRecord → Text → ResolvedPath

abbrev pub is_directory_record : NodeRecord → Bool
is_directory_record r = elim r.kind [ directory ↦ true | file ↦ false ]

-- The node of a directory that something is made in.
abbrev pub parent_of : Option ResolvedPath → Outcome Text
parent_of none = fail (coded enoent)
parent_of (some at_root) = ok root_node_id
parent_of (some (at_directory r p)) = ok r.node_id
parent_of (some (at_file r p)) = fail (coded enotdir)

module _ (before : Text → Text → Bool) where
  unfoldable pub oldest_first : NodeRecord → NodeRecord → Bool
  oldest_first a b = earlier before a.created_at a.node_id b.created_at b.node_id

  -- `byName` as a list of records, one to a name.
  unfoldable pub keep_oldest : List NodeRecord → NodeRecord → List NodeRecord
  keep_oldest [] r = r ∷ []
  keep_oldest (x ∷ xs) r =
      if same_text x.name r.name
      then (if oldest_first r x then r else x) ∷ xs
      else x ∷ keep_oldest xs r

  unfoldable pub dedupe_from : List NodeRecord → List NodeRecord → List NodeRecord
  dedupe_from by_name [] = by_name
  dedupe_from by_name (r ∷ rs) = dedupe_from (keep_oldest by_name r) rs

  unfoldable pub dedupe_by_name : List NodeRecord → List NodeRecord
  dedupe_by_name records = dedupe_from [] records

  unfoldable pub child_by_name : List Document → Text → Text → Option NodeRecord
  child_by_name documents parent_id name =
      first (sort oldest_first (nodes_where (is_child_named parent_id name) documents))

  -- The loop over the segments, from a directory at a path.
  unfoldable pub resolve_from : List Document → Text → Text → List Text → Option ResolvedPath
  resolve_from documents parent_id path [] = none
  resolve_from documents parent_id path (name ∷ []) =
      elim (child_by_name documents parent_id name) [
        | none ↦ none
        | some r ↦
            let current = join_fs_path (path ∷ name ∷ []) in
            some (if is_directory_record r then at_directory r current else at_file r current)
      ]
  resolve_from documents parent_id path (name ∷ next ∷ rest) =
      elim (child_by_name documents parent_id name) [
        | none ↦ none
        | some r ↦
            let found =
              resolve_from documents r.node_id (join_fs_path (path ∷ name ∷ [])) (next ∷ rest) in
            if is_directory_record r then found else none
      ]

  unfoldable pub resolve_path : List Document → Text → Option ResolvedPath
  resolve_path documents path =
      let normalized = normalize_fs_path path in
      if same_text normalized (slash ∷ [])
      then some at_root
      else resolve_from documents root_node_id (slash ∷ []) (path_segments normalized)

  unfoldable pub resolve_parent : List Document → Text → Outcome Text
  resolve_parent documents path = parent_of (resolve_path documents (dirname path))

-- The walk up the parents; `none` means that the rounds ran out.
unfoldable pub names_above : ℕ → List Document → List Text → List Text → Text → Option (List Text)
names_above zero documents visited names parent_id = none
names_above (suc fuel) documents visited names parent_id = elim (same_text parent_id root_node_id) [
  | true ↦ some names
  | false ↦ elim (contains_text visited parent_id) [
    | true ↦ some names
    | false ↦ elim (node_record documents parent_id) [
      | none ↦ some names
      | some r ↦ names_above fuel documents (parent_id ∷ visited) (r.name ∷ names) r.parent_id
    ]
  ]
]

unfoldable pub path_for_record : List Document → NodeRecord → Option Text
path_for_record documents r =
    elim (names_above (suc (length documents)) documents (r.node_id ∷ []) (r.name ∷ [])
      r.parent_id) [ none ↦ none | some names ↦ some (slash ∷ join names) ]

unfoldable pub within_subtree : ℕ → List Document → List Text → Text → Text → Option Bool
within_subtree zero documents visited current ancestor = none
within_subtree (suc fuel) documents visited current ancestor =
    elim (same_text current root_node_id) [
      | true ↦ some false
      | false ↦ elim (same_text current ancestor) [
        | true ↦ some true
        | false ↦ elim (contains_text visited current) [
          | true ↦ some false
          | false ↦ elim (node_record documents current) [
            | none ↦ some false
            | some r ↦ within_subtree fuel documents (current ∷ visited) r.parent_id ancestor
          ]
        ]
      ]
    ]

-- A round more than there are documents is enough.
unfoldable pub is_within_subtree : List Document → Text → Text → Option Bool
is_within_subtree documents node_id ancestor =
    within_subtree (suc (length documents)) documents [] node_id ancestor
