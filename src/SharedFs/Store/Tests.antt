-- ===== src/SharedFs/Store/Tests.antt =====
-- The documents of packages/shared-fs/library/src/index.ts on concrete input.
use peerbit_examples.Prelude.{
  ℕ, ◌≡◌, refl, sym, subst, ◌∙◌, ◌⊎◌, ◌↔◌, inl, inr, Bool, true, false, List, [], ◌∷◌, Option, none,
  some, Bool-cases, if◌then◌else◌, if-true, if-false,
}
use peerbit_examples.SharedFs.Path.Split.{Text, same_text, same_text_iff}
use peerbit_examples.SharedFs.Mount.Buffer.{Outcome, ok, fail}
use peerbit_examples.SharedFs.Mount.Target.{directory, file}
use peerbit_examples.SharedFs.Store.Documents.{
  NodeRecord, FileHead, Document, node, head, get_document, IsUnique, contains_text, Metadata,
}
use peerbit_examples.SharedFs.Store.Order.{In, IsComparison, collation-IsComparison}
use peerbit_examples.SharedFs.Store.Nodes.{
  root_node_id, as_node, node_record, resolve_path, is_within_subtree, child_records, child_by_name,
  dedupe_by_name,
}
use peerbit_examples.SharedFs.Store.Nodes.Same.{SameDocuments, resolve_path_converges}
use peerbit_examples.SharedFs.Store.Nodes.Tree.{IsBelow, is_within_subtree-IsBelow}
use peerbit_examples.SharedFs.Store.Nodes.Acyclic.{Ends, IsAcyclic}
use peerbit_examples.SharedFs.Store.Nodes.Dedupe.{IsDistinct, find_named}
use peerbit_examples.SharedFs.Store.Nodes.Listed.{dedupe_by_name-child_by_name}
use peerbit_examples.SharedFs.Store.Heads.{heads_for_node, visible_file_head}
use peerbit_examples.SharedFs.Store.Heads.Laws.{IsVersionOf, IsHead, heads_for_node-IsHead}
use peerbit_examples.SharedFs.Store.Heads.Writes.{IsFresh, heads_for_node-put}
use peerbit_examples.SharedFs.Store.Chunks.{chunk_bytes}
use peerbit_examples.SharedFs.Store.Peer.{documents}
use peerbit_examples.SharedFs.Store.Records.{record_of, head_of}
use peerbit_examples.SharedFs.Store.Infos.{SharedFsVersionInfo, version_info}
use peerbit_examples.SharedFs.Store.Saves.{WriteFileOptions, write_file}
use peerbit_examples.SharedFs.Store.Saved.{IsCertified}
use peerbit_examples.SharedFs.Store.Saved.Versions.{IsSaved}
use peerbit_examples.SharedFs.Store.Saved.Writes.{write_file-IsSaved}
use peerbit_examples.SharedFs.Store.Calls.{Call, making, writing, removing, renaming, run}
use peerbit_examples.SharedFs.Store.Cycles.Calls.{run-IsAcyclic}
use peerbit_examples.SharedFs.Mount.Target.{◌then_do◌}
use peerbit_examples.SharedFs.Store.Reads.{
  read_file, read_visible, read_candidates, read_file_version, fetch_all, unique_from, fetch_chunk,
  verify_chunk, bytes_of_id,
}
use peerbit_examples.SharedFs.Store.Reads.Answers.{IsContentOf, read_file-IsContentOf}
use peerbit_examples.SharedFs.Store.Sample.{
  lexicographic, lexicographic-IsCollation, without, latest, sample, sample-IsIndex,
  sample-HasFreshIds,
}
use peerbit_examples.SharedFs.Path.Split.{split, join}
use peerbit_examples.SharedFs.Path.{
  normalize_fs_path, normalized_segments, resolve, real_parts, to_slash, path_segments, is_nil,
  nonempty_parts, or_root, pop, tail_text, dirname, basename, join_fs_path, drop_last,
  last_or_empty,
}
use peerbit_examples.SharedFs.Store.Documents.{pick}
use peerbit_examples.SharedFs.Store.Order.{sort, insert, earlier}
use peerbit_examples.SharedFs.Store.Nodes.{resolve_from, resolve_parent, oldest_first}
use peerbit_examples.SharedFs.Store.Heads.{
  head_documents_for_node, heads_from_documents, newest_first, not_referenced, referenced,
}
use peerbit_examples.SharedFs.Store.Chunks.{
  chunk_id, chunks_from, concat, drop, file_chunk, is_certified, take,
}
use peerbit_examples.SharedFs.Store.Peer.{
  ◌>>=◌, ◌>>◌, asks, gets, pure, raise, put, signed_metadata, some_is, trusted_keys,
  can_perform_entry, create_id, is_malformed_chunk, may_put,
}
use peerbit_examples.SharedFs.Store.Saves.{
  has_document, put_chunk, put_chunks, put_version, set_chunk, unchanged_head, unique_chunks,
}
use peerbit_examples.SharedFs.Store.Sample.{repeat, lengths}

abbrev me : Metadata
me = record { author_key = b'm' ∷ []; machine_label = b'p' ∷ []; timestamp = 7 }

-- `/a`, made twice, with `/a/f` in the older one.
abbrev older_dir : NodeRecord
older_dir = record_of directory (b'd' ∷ []) root_node_id (b'a' ∷ []) none 1 false me

abbrev newer_dir : NodeRecord
newer_dir = record_of directory (b'e' ∷ []) root_node_id (b'a' ∷ []) none 2 false me

abbrev a_file : NodeRecord
a_file = record_of file (b'f' ∷ []) (b'd' ∷ []) (b'f' ∷ []) (some (b'v' ∷ [])) 3 false me

abbrev a_version : FileHead
a_version = head_of (b'v' ∷ []) (b'f' ∷ []) (b'd' ∷ []) (b'f' ∷ []) [] me (
    some
      (record { content_hash = 1 ∷ 2 ∷ []; size = 2; chunk_ids = []; conflict_resolution = false }))

abbrev next_version : FileHead
next_version =
    head_of (b'w' ∷ []) (b'f' ∷ []) (b'd' ∷ []) (b'f' ∷ []) ((b'v' ∷ []) ∷ []) me (
      some
        (record { content_hash = 3 ∷ []; size = 1; chunk_ids = []; conflict_resolution = false }))

abbrev these : List Document
these = node older_dir ∷ node newer_dir ∷ node a_file ∷ head a_version ∷ []

abbrev turned : List Document
turned = node newer_dir ∷ node older_dir ∷ []

abbrev two_dirs : List Document
two_dirs = node older_dir ∷ node newer_dir ∷ []

abbrev path_f : Text
path_f = b'/' ∷ b'a' ∷ b'/' ∷ b'f' ∷ []

these-IsUnique : IsUnique these
unfolding get_document same_text
these-IsUnique = (refl, (refl, (refl, (refl, tt))))

turned-IsUnique : IsUnique turned
unfolding get_document same_text
turned-IsUnique = (refl, (refl, tt))

two_dirs-IsUnique : IsUnique two_dirs
unfolding get_document same_text
two_dirs-IsUnique = (refl, (refl, tt))

two_dirs-turned : SameDocuments two_dirs turned
unfolding get_document same_text
two_dirs-turned id = elim (Bool-cases (same_text (b'd' ∷ []) id)) [
  | inl e ↦
      subst (λ x. get_document two_dirs x ≡ get_document turned x)
        ((same_text_iff (b'd' ∷ []) id).0 e) refl
  | inr e ↦ rw e refl
]

abbrev path_a : Text
path_a = b'/' ∷ b'a' ∷ []

lexicographic-IsComparison : IsComparison lexicographic
lexicographic-IsComparison = collation-IsComparison lexicographic lexicographic-IsCollation

resolve_path_converges_example :
    resolve_path lexicographic two_dirs path_a ≡ resolve_path lexicographic turned path_a
resolve_path_converges_example =
    resolve_path_converges lexicographic lexicographic two_dirs turned lexicographic-IsComparison
      lexicographic-IsComparison two_dirs-IsUnique turned-IsUnique two_dirs-turned (λ a b h g. refl)
      (λ a b h g. lexicographic-IsCollation.total a b) path_a

is_within_subtree-IsBelow_example :
    ((b : Bool) × (is_within_subtree these (b'f' ∷ []) (b'd' ∷ []) ≡ some b))
    × ((is_within_subtree these (b'f' ∷ []) (b'd' ∷ []) ≡ some true)
        ↔ IsBelow these (b'f' ∷ []) (b'd' ∷ []))
is_within_subtree-IsBelow_example = is_within_subtree-IsBelow these (b'f' ∷ []) (b'd' ∷ [])

heads_for_node-IsHead_example :
    In a_version (heads_for_node lexicographic these (b'f' ∷ []))
    ↔ IsHead these (b'f' ∷ []) a_version
heads_for_node-IsHead_example =
    heads_for_node-IsHead lexicographic these (b'f' ∷ []) a_version these-IsUnique

dedupe_by_name-child_by_name_example :
    IsDistinct (dedupe_by_name lexicographic (child_records these root_node_id))
    × (find_named (dedupe_by_name lexicographic (child_records these root_node_id)) (b'a' ∷ [])
        ≡ child_by_name lexicographic these root_node_id (b'a' ∷ []))
dedupe_by_name-child_by_name_example =
    dedupe_by_name-child_by_name lexicographic lexicographic-IsCollation these these-IsUnique
      root_node_id (b'a' ∷ [])

abbrev puts : List Document
puts = head a_version ∷ node a_file ∷ []

same_head : {a b : FileHead} → some (head a) ≡ some (head b) → a ≡ b
same_head e = cc

no_head :
    {A : Type 0} {x : FileHead} {b : Bool}
    → (b ≡ true) ⊎ (b ≡ false)
    → (if b then some (node a_file) else none) ≡ some (head x)
    → A
no_head (inl e) f = cc (if-true _ (some (node a_file)) none e)
no_head (inr e) f = cc (if-false _ (some (node a_file)) none e)

version-IsFresh : IsFresh (latest puts) next_version
unfolding latest get_document same_text contains_text without
version-IsFresh = record { absent = refl; not_own_parent = refl; not_named = only_named }
  where
    only_named :
        (x : FileHead)
        → IsVersionOf (latest puts) (b'f' ∷ []) x
        → contains_text x.parent_version_ids (b'w' ∷ []) ≡ false
    only_named x h = elim (Bool-cases (same_text (b'v' ∷ []) x.id)) [
      | inl e ↦
          subst (λ (y : FileHead). contains_text y.parent_version_ids (b'w' ∷ []) ≡ false)
            (same_head (sym (if-true _ _ _ e) ∙ h.0)) refl
      | inr e ↦ no_head (Bool-cases (same_text (b'f' ∷ []) x.id)) (sym (if-false _ _ _ e) ∙ h.0)
    ]

heads_for_node-put_example :
    In next_version (
      heads_for_node lexicographic
        (documents sample (sample.index.put puts (head next_version)))
        (b'f' ∷ []))
    ↔ ((next_version ≡ next_version)
        ⊎ (In next_version (heads_for_node lexicographic (documents sample puts) (b'f' ∷ []))
            × (contains_text next_version.parent_version_ids next_version.id ≡ false)))
heads_for_node-put_example =
    heads_for_node-put lexicographic sample.index sample-IsIndex puts next_version version-IsFresh
      next_version

empty-IsAcyclic : IsAcyclic (documents sample [])
unfolding Ends latest node_record get_document
empty-IsAcyclic id = (0, both (same_text id root_node_id))
  where
    both : (b : Bool) → (if b then none else as_node none) ≡ none
    both true = refl
    both false = refl

abbrev some_calls : List Call
some_calls =
    making (b'/' ∷ b'a' ∷ [])
    ∷ writing path_f (1 ∷ 2 ∷ []) (record { base_version_ids = none; chunk_size = none })
    ∷ making (b'/' ∷ b'a' ∷ b'/' ∷ b'b' ∷ [])
    ∷ renaming (b'/' ∷ b'a' ∷ []) (b'/' ∷ b'a' ∷ b'/' ∷ b'b' ∷ b'/' ∷ b'c' ∷ [])
    ∷ removing path_f
    ∷ []

run-IsAcyclic_example : IsAcyclic (documents sample (run sample some_calls []))
run-IsAcyclic_example =
    run-IsAcyclic sample sample-IsIndex sample-HasFreshIds some_calls [] empty-IsAcyclic

abbrev plain : WriteFileOptions
plain = record { base_version_ids = none; chunk_size = none }

abbrev path_g : Text
path_g = b'/' ∷ b'g' ∷ []

abbrev info_or : SharedFsVersionInfo → Outcome SharedFsVersionInfo → SharedFsVersionInfo
info_or default (ok info) = info
info_or default (fail e) = default

abbrev written : List Document × Outcome SharedFsVersionInfo
written = write_file sample path_g (1 ∷ 2 ∷ []) plain []

abbrev written_info : SharedFsVersionInfo
written_info = info_or (version_info a_version path_g []) written.1

filing : Unit {0}
unfolding write_file same_text normalize_fs_path join normalized_segments resolve real_parts split
    to_slash ◌>>=◌ asks resolve_path resolve_from path_segments child_by_name sort pick latest
    is_nil nonempty_parts or_root pop tail_text chunk_bytes chunk_id chunks_from drop file_chunk
    is_certified take contains_text get_document head_documents_for_node heads_for_node
    heads_from_documents newest_first not_referenced referenced version_info oldest_first
    resolve_parent earlier insert can_perform_entry create_id gets is_malformed_chunk may_put pure
    put raise signed_metadata some_is trusted_keys ◌>>◌ without has_document put_chunk put_chunks
    put_version set_chunk unchanged_head unique_chunks dirname basename join_fs_path drop_last
    last_or_empty repeat lengths read_file visible_file_head read_visible read_candidates
    read_file_version ◌then_do◌ fetch_all unique_from fetch_chunk verify_chunk concat bytes_of_id
filing = tt

written_ok : written ≡ (written.0, ok written_info)
unfolding filing
written_ok = refl

nothing-IsCertified : IsCertified sample.sha256 (documents sample [])
unfolding latest get_document
nothing-IsCertified c = inl refl

write_file-IsSaved_example : IsSaved sample [] (1 ∷ 2 ∷ []) written_info written.0
write_file-IsSaved_example =
    write_file-IsSaved sample sample-IsIndex sample-HasFreshIds (λ a b e. e) path_g (1 ∷ 2 ∷ [])
      plain [] written.0 written_info nothing-IsCertified written_ok

-- What was written is read.
abbrev read_back : Option (Outcome (Option (List ℕ)))
read_back = read_file sample.sha256 (documents sample written.0) none lexicographic path_g

read_back-some : read_back ≡ some (ok (some (1 ∷ 2 ∷ [])))
unfolding filing
read_back-some = refl

read_file-IsContentOf_example :
    IsContentOf sample.sha256 (documents sample written.0) none lexicographic path_g (1 ∷ 2 ∷ [])
read_file-IsContentOf_example =
    (read_file-IsContentOf sample.sha256 (documents sample written.0) none lexicographic path_g).1
      (1 ∷ 2 ∷ []) read_back-some
