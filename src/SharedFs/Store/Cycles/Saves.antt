-- ===== src/SharedFs/Store/Cycles/Saves.antt =====
-- Cycles of parents under `mkdir`, `writeFile` and `resolveConflict`.
use peerbit_examples.Prelude.{
  ℕ, subst, ◌≡◌, refl, Bool, false, List, [], ◌∷◌, Option, none, some, is_some,
}
use peerbit_examples.SharedFs.Path.Split.{Text}
use peerbit_examples.SharedFs.Path.{normalize_fs_path}
use peerbit_examples.SharedFs.Mount.Buffer.{coded, eexist, eisdir, ok}
use peerbit_examples.SharedFs.Store.Documents.{
  NodeRecord, FileHead, FileChunk, Document, chunk, IsIndex, IsUnique, Metadata,
}
use peerbit_examples.SharedFs.Store.Nodes.{
  ResolvedPath, at_root, at_directory, at_file, is_directory_record, resolve_path,
}
use peerbit_examples.SharedFs.Store.Nodes.Resolved.{
  AreDirectories, IsPlaced, fail_or_ok, ok_injective, resolve_path-IsResolved,
  resolve_parent-AreDirectories,
}
use peerbit_examples.SharedFs.Store.Peer.{Peer, documents, gets, asks, pure}
use peerbit_examples.SharedFs.Store.Peer.Rules.{
  Triple, pure_rule, raise_rule, gets_rule, asks_rule, bind_rule, if_rule, seq_rule,
}
use peerbit_examples.SharedFs.Store.Infos.{version_info}
use peerbit_examples.SharedFs.Store.Records.{is_root_path, resolved}
use peerbit_examples.SharedFs.Store.Saves.{
  WriteFileOptions, existing_file, unchanged_head, file_there, mkdir, put_chunk, put_chunks,
  put_version, node_to_write, created, write_file, resolve_conflict,
}
use peerbit_examples.SharedFs.Store.Cycles.{
  fresh-IsApart, file-IsApart, HasFreshIds, Acyclic, Ready, put_other_rule, put_node_rule,
  metadata_rule,
}

-- The file that a write finds, where it finds one.
abbrev pub IsFileThere : List Document → Option NodeRecord → Type 0
IsFileThere ds none = Unit
IsFileThere ds (some r) = IsPlaced ds r × (is_directory_record r ≡ false)

module _ (before : Text → Text → Bool) (ds : List Document) (unique : IsUnique ds) where
  pub existing-IsFileThere :
      (path : Text) (existing : Option NodeRecord)
      → existing_file (resolve_path before ds path) ≡ ok existing
      → IsFileThere ds existing
  existing-IsFileThere path existing e = go (resolve_path before ds path) refl e
    where
      go :
          (o : Option ResolvedPath)
          → resolve_path before ds path ≡ o
          → existing_file o ≡ ok existing
          → IsFileThere ds existing
      go none f g = subst (IsFileThere ds) (ok_injective g) tt
      go (some at_root) f g = subst (IsFileThere ds) (ok_injective g) tt
      go (some (at_directory r p)) f g = fail_or_ok g
      go (some (at_file r p)) f g =
          subst (IsFileThere ds) (ok_injective g)
            (resolve_path-IsResolved before ds unique path (at_file r p) f)

  pub file_there-IsFileThere :
      (path : Text) (r : NodeRecord)
      → file_there (resolve_path before ds path) ≡ ok r
      → IsFileThere ds (some r)
  file_there-IsFileThere path r e = go (resolve_path before ds path) refl e
    where
      go :
          (o : Option ResolvedPath)
          → resolve_path before ds path ≡ o
          → file_there o ≡ ok r
          → IsFileThere ds (some r)
      go none f g = fail_or_ok g
      go (some at_root) f g = fail_or_ok g
      go (some (at_directory q p)) f g = fail_or_ok g
      go (some (at_file q p)) f g =
          subst (λ x. IsFileThere ds (some x)) (ok_injective g)
            (resolve_path-IsResolved before ds unique path (at_file q p) f)

module _ {S : Type 0} (peer : Peer S) (law : IsIndex peer.index) where
  put_chunk_rule :
      (c : FileChunk) (x y : Text)
      → Triple (Ready peer law x y) (put_chunk peer c) (λ u. Ready peer law x y) (Acyclic peer law)
  unfolding put_chunk
  put_chunk_rule c x y =
      if_rule peer.is_full_replica _ _
        (λ e. bind_rule _ _ (gets_rule {Q = λ there. Ready peer law x y} _ (λ s p. p)) (λ there.
          if_rule there _ _ (λ f. pure_rule tt (λ s p. p))
            (λ f. put_other_rule peer law (chunk c) x y refl)))
        (λ e. put_other_rule peer law (chunk c) x y refl)

  put_chunks_rule :
      (cs : List FileChunk) (x y : Text)
      → Triple
          (Ready peer law x y)
          (put_chunks peer cs)
          (λ u. Ready peer law x y)
          (Acyclic peer law)
  unfolding put_chunks
  put_chunks_rule [] x y = pure_rule tt (λ s p. p)
  put_chunks_rule (c ∷ cs) x y = seq_rule _ _ (put_chunk_rule c x y) (put_chunks_rule cs x y)

  pub put_version_rule :
      (normalized node_id parent_id : Text) (heads : List FileHead) (hash : Text) (bytes : List ℕ)
      (options : WriteFileOptions) (created_at : ℕ) (metadata : Metadata)
      → Triple
          (Ready peer law parent_id node_id)
          (put_version peer normalized node_id parent_id heads hash bytes options created_at
            metadata)
          (λ info. Acyclic peer law)
          (Acyclic peer law)
  unfolding put_version
  put_version_rule normalized node_id parent_id heads hash bytes options created_at metadata =
      bind_rule _ _ (gets_rule {Q = λ id. Ready peer law parent_id node_id} _ (λ s p. p)) (λ id.
        bind_rule _ _
          (asks_rule {Q = λ pieces. Ready peer law parent_id node_id} _ (λ s a e p. p) (λ s p. p.0))
          (λ pieces. seq_rule _ _ (put_chunks_rule _ parent_id node_id) (
            seq_rule _ _ (put_other_rule peer law _ parent_id node_id refl)
              (seq_rule _ _ (put_node_rule peer law _) (pure_rule _ (λ s p. p))))))

  module _ (fresh : HasFreshIds peer) where
    pub mkdir_rule :
        (path : Text)
        → Triple (Acyclic peer law) (mkdir peer path) (λ u. Acyclic peer law) (Acyclic peer law)
    unfolding mkdir
    mkdir_rule path =
        if_rule (is_root_path (normalize_fs_path path)) _ _ (λ e. pure_rule tt (λ s p. p))
          (λ e. bind_rule _ _ (gets_rule {Q = λ found. Acyclic peer law} _ (λ s p. p)) (λ found.
            if_rule (is_some found) _ _ (λ f. raise_rule (coded eexist) (λ s p. p))
              (λ f.
                bind_rule _ _
                  (asks_rule
                    {Q = λ parent s. Acyclic peer law s × AreDirectories (documents peer s) parent}
                    _
                    (λ s parent g p. (
                      p,
                      resolve_parent-AreDirectories peer.before (documents peer s) (law.unique s) _
                          parent g,
                    ))
                    (λ s p. p))
                  (λ parent.
                    bind_rule _ _
                      (metadata_rule peer law
                        {Q = λ m s. Acyclic peer law s × AreDirectories (documents peer s) parent}
                        (λ s m p. p))
                      (λ m.
                        bind_rule _ _
                          (gets_rule {Q = λ id. Ready peer law parent id} _ (λ s p.
                            (p.0, fresh-IsApart (documents peer s) parent _ p.1 (fresh.fresh s _))))
                          (λ id. put_node_rule peer law _))))))

    existing_rule :
        {P E : S → Type 0} (normalized : Text)
        → ((s : S) → P s → E s)
        → Triple P
            (asks (λ s. existing_file (resolved peer normalized s)))
            (λ existing s. P s × IsFileThere (documents peer s) existing)
            E
    existing_rule normalized out =
        asks_rule _
          (λ s existing e p. (
            p,
            existing-IsFileThere peer.before (documents peer s) (law.unique s) normalized existing
                e,
          ))
          out

    node_rule :
        (parent : Text) (existing : Option NodeRecord)
        → Triple
            (λ s.
              (Acyclic peer law s × IsFileThere (documents peer s) existing)
              × AreDirectories (documents peer s) parent)
            (gets (node_to_write peer existing))
            (λ id. Ready peer law parent id)
            (Acyclic peer law)
    node_rule parent none =
        gets_rule _
          (λ s p. (p.0.0, fresh-IsApart (documents peer s) parent _ p.1 (fresh.fresh s _)))
    node_rule parent (some r) =
        gets_rule _ (λ s p. (p.0.0, file-IsApart (documents peer s) parent r p.1 p.0.1.0 p.0.1.1))

    pub write_file_rule :
        (path : Text) (bytes : List ℕ) (options : WriteFileOptions)
        → Triple
            (Acyclic peer law)
            (write_file peer path bytes options)
            (λ info. Acyclic peer law)
            (Acyclic peer law)
    unfolding write_file
    write_file_rule path bytes options =
        if_rule (is_root_path (normalize_fs_path path)) _ _
          (λ e. raise_rule (coded eisdir) (λ s p. p))
          (λ e. bind_rule _ _ (existing_rule (normalize_fs_path path) (λ s p. p)) (λ existing.
            bind_rule _ _
              (asks_rule
                {Q = λ parent s.
                  (Acyclic peer law s × IsFileThere (documents peer s) existing)
                  × AreDirectories (documents peer s) parent}
                _
                (λ s parent g p. (
                  p,
                  resolve_parent-AreDirectories peer.before (documents peer s) (law.unique s) _
                      parent g,
                ))
                (λ s p. p.0))
              (λ parent. bind_rule _ _ (metadata_rule peer law (λ s m p. p)) (λ m.
                bind_rule _ _ (node_rule parent existing) (λ id.
                  bind_rule _ _ (gets_rule {Q = λ heads. Ready peer law parent id} _ (λ s p. p))
                    (λ heads.
                      save_rule parent id heads (unchanged_head options heads (peer.sha256 bytes)) m
                        existing))))))
      where
        save_rule :
            (parent id : Text) (heads : List FileHead) (o : Option FileHead) (m : Metadata)
            (existing : Option NodeRecord)
            → Triple
                (Ready peer law parent id)
                (elim o [
                  | some h ↦ pure (version_info h (normalize_fs_path path) heads)
                  | none ↦
                      put_version peer
                        (normalize_fs_path path)
                        id
                        parent
                        heads
                        (peer.sha256 bytes)
                        bytes
                        options
                        (created peer existing m)
                        m
                ])
                (λ info. Acyclic peer law)
                (Acyclic peer law)
        save_rule parent id heads (some h) m existing = pure_rule _ (λ s p. p.0)
        save_rule parent id heads none m existing = put_version_rule _ _ _ _ _ _ _ _ _

    pub resolve_conflict_rule :
        (path version_id : Text)
        → Triple
            (Acyclic peer law)
            (resolve_conflict peer path version_id)
            (λ info. Acyclic peer law)
            (Acyclic peer law)
    unfolding resolve_conflict
    resolve_conflict_rule path version_id =
        bind_rule _ _
          (asks_rule {Q = λ r. Ready peer law r.parent_id r.node_id} _
            (λ s r e p.
              let there =
                file_there-IsFileThere peer.before (documents peer s) (law.unique s) _ r e in
              (p, file-IsApart (documents peer s) r.parent_id r there.0.above there.0 there.1))
            (λ s p. p))
          (λ r.
            bind_rule _ _
              (asks_rule {Q = λ selected. Ready peer law r.parent_id r.node_id} _ (λ s a e p. p)
                (λ s p. p.0))
              (λ selected.
                bind_rule _ _
                  (gets_rule {Q = λ heads. Ready peer law r.parent_id r.node_id} _ (λ s p. p))
                  (λ heads.
                    bind_rule _ _
                      (metadata_rule peer law {Q = λ m. Ready peer law r.parent_id r.node_id}
                        (λ s m p. p))
                      (λ m.
                        bind_rule _ _
                          (gets_rule {Q = λ id. Ready peer law r.parent_id r.node_id} _ (λ s p. p))
                          (λ id.
                            seq_rule _ _ (put_other_rule peer law _ r.parent_id r.node_id refl) (
                              seq_rule _ _ (put_node_rule peer law _) (pure_rule _ (λ s p. p))))))))
