-- ===== src/SharedFs/Store/Heads.antt =====
-- packages/shared-fs/library/src/index.ts: the heads of a file, which are the versions and delete
-- markers that no other refers to.
pub mod Laws
pub mod Writes
use peerbit_examples.Prelude.{
  ℕ, ◌≡◌, Bool, true, false, not, ◌&&◌, ◌||◌, List, [], ◌∷◌, ◌++◌, map, Option, none, some,
  if◌then◌else◌,
}
use peerbit_examples.SharedFs.Path.Split.{Text, same_text}
use peerbit_examples.SharedFs.Store.Documents.{
  FileHead, VersionBody, Document, heads_where, contains_text,
}
use peerbit_examples.SharedFs.Store.Order.{first, sort, earlier}

-- The ids that some document names as a parent.
unfoldable pub referenced : List FileHead → List Text
referenced [] = []
referenced (h ∷ hs) = h.parent_version_ids ++ referenced hs

unfoldable pub not_referenced : List Text → List FileHead → List FileHead
not_referenced ids [] = []
not_referenced ids (h ∷ hs) =
    let rest = not_referenced ids hs in if contains_text ids h.id then rest else h ∷ rest

abbrev pub is_of_node : Text → FileHead → Bool
is_of_node node_id h = same_text h.node_id node_id

module _ (before : Text → Text → Bool) where
  unfoldable pub newest_first : FileHead → FileHead → Bool
  newest_first a b = earlier before b.created_at b.id a.created_at a.id

  unfoldable pub heads_from_documents : List FileHead → List FileHead
  heads_from_documents hs = sort newest_first (not_referenced (referenced hs) hs)

  unfoldable pub head_documents_for_node : List Document → Text → List FileHead
  head_documents_for_node documents node_id =
      sort newest_first (heads_where (is_of_node node_id) documents)

  unfoldable pub heads_for_node : List Document → Text → List FileHead
  heads_for_node documents node_id =
      heads_from_documents (head_documents_for_node documents node_id)

  unfoldable pub visible_file_head : List Document → Text → Option FileHead
  visible_file_head documents node_id = first (heads_for_node documents node_id)

abbrev pub ids_of : List FileHead → List Text
ids_of = map (λ h. h.id)
