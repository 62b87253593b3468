-- ===== src/SharedFs/Store/Handle/Reports.antt =====
-- The answer of `writeFile` to the commit of a mount.
use peerbit_examples.Prelude.{
  ℕ, ◌≡◌, refl, sym, subst, ap, ◌∙◌, ◌⊎◌, inl, inr, true, List, Option, none, some,
}
use peerbit_examples.SharedFs.Path.Split.{Text}
use peerbit_examples.SharedFs.Path.{normalize_fs_path}
use peerbit_examples.SharedFs.Mount.Buffer.{OpenHandle, Outcome, ok, fail, coded, eisdir}
use peerbit_examples.SharedFs.Mount.Commit.{
  Reply, written, refused, IsReport, Session, Step, finishes, finish_commit,
}
use peerbit_examples.SharedFs.Mount.Commit.Laws.{IsSaved, dirty-IsSaved, Step-IsSaved}
use peerbit_examples.SharedFs.Store.Documents.{NodeRecord, FileHead, Metadata}
use peerbit_examples.SharedFs.Store.Infos.{SharedFsVersionInfo, body_hash, version_info}
use peerbit_examples.SharedFs.Store.Peer.{Peer, pure}
use peerbit_examples.SharedFs.Store.Peer.Rules.{
  Ending, Triple, pure_rule, raise_rule, bind_rule, if_rule, seq_rule, any_rule,
}
use peerbit_examples.SharedFs.Store.Records.{is_root_path}
use peerbit_examples.SharedFs.Store.Saves.{
  WriteFileOptions, unchanged_head, put_version, created, write_file,
}
use peerbit_examples.SharedFs.Store.Saved.Versions.{version_hash-some, unchanged_head-In}
use peerbit_examples.SharedFs.Store.Handle.{reply_of, shared_fs_target}

module _ {S : Type 0} (peer : Peer S) where
  -- The reported hash is that of the bytes.
  abbrev Reports : List ℕ → SharedFsVersionInfo → S → Type 0
  Reports bytes info s = info.content_hash ≡ some (peer.sha256 bytes)

  put_version-Reports :
      (normalized node_id parent_id : Text) (heads : List FileHead) (bytes : List ℕ)
      (options : WriteFileOptions) (created_at : ℕ) (metadata : Metadata)
      → Triple
          (λ s. Unit)
          (put_version peer normalized node_id parent_id heads
            (peer.sha256 bytes)
            bytes
            options
            created_at
            metadata)
          (Reports bytes)
          (λ s. Unit)
  unfolding put_version version_info
  put_version-Reports normalized node_id parent_id heads bytes options created_at metadata =
      bind_rule _ _ (any_rule _) (λ id. bind_rule _ _ (any_rule _) (λ pieces.
        seq_rule _ _ (any_rule _)
          (seq_rule _ _ (any_rule _) (seq_rule _ _ (any_rule _) (pure_rule _ (λ s p. refl))))))

  write_file-Reports :
      (path : Text) (bytes : List ℕ) (options : WriteFileOptions)
      → Triple (λ s. Unit) (write_file peer path bytes options) (Reports bytes) (λ s. Unit)
  unfolding write_file version_info
  write_file-Reports path bytes options =
      if_rule (is_root_path (normalize_fs_path path)) _ _
        (λ e. raise_rule (coded eisdir) (λ s p. tt))
        (λ e. bind_rule _ _ (any_rule _) (λ existing. bind_rule _ _ (any_rule _) (λ parent.
          bind_rule _ _ (any_rule _) (λ m. bind_rule _ _ (any_rule _) (λ id.
            bind_rule _ _ (any_rule _) (λ heads.
              report parent id heads (unchanged_head options heads (peer.sha256 bytes)) refl m
                existing))))))
    where
      same_hash :
          (heads : List FileHead) (h : FileHead)
          → unchanged_head options heads (peer.sha256 bytes) ≡ some h
          → (version_info h (normalize_fs_path path) heads).content_hash ≡ some (peer.sha256 bytes)
      same_hash heads h f =
          let (b, body, same) =
            version_hash-some h.body (peer.sha256 bytes)
              (unchanged_head-In options heads (peer.sha256 bytes) h f).1 in
          ap body_hash body ∙ ap some same

      report :
          (parent id : Text) (heads : List FileHead) (o : Option FileHead)
          → unchanged_head options heads (peer.sha256 bytes) ≡ o
          → (m : Metadata) (existing : Option NodeRecord)
          → Triple
              (λ s. Unit)
              (elim o [
                | some h ↦ pure (version_info h (normalize_fs_path path) heads)
                | none ↦
                    put_version peer
                      (normalize_fs_path path)
                      id
                      parent
                      heads
                      (peer.sha256 bytes)
                      bytes
                      options
                      (created peer existing m)
                      m
              ])
              (Reports bytes)
              (λ s. Unit)
      report parent id heads (some h) f m existing = pure_rule _ (λ s p. same_hash heads h f)
      report parent id heads none f m existing =
          put_version-Reports _ id parent heads bytes options _ m

  reply-IsReport :
      (hash : Text) (x : S × Outcome SharedFsVersionInfo)
      → Ending (λ info s. info.content_hash ≡ some hash) (λ s. Unit) x
      → IsReport hash (reply_of x.1)
  unfolding IsReport
  reply-IsReport hash (s, ok info) h = inr h
  reply-IsReport hash (s, fail e) h = tt

  -- With the hash of the bytes in flight the answer is a step of the mount.
  shared_fs_target-Step :
      (s : S) (path : Text) (bytes : List ℕ) (base : Option (List Text)) (session : Session)
      → session.in_flight ≡ some (peer.sha256 bytes)
      → Step peer.sha256 session (record session {
        handle =
            finish_commit
              (peer.sha256 bytes)
              session.handle
              ((shared_fs_target peer).write_file s path bytes base).1;
        in_flight = none;
      })
  unfolding shared_fs_target
  shared_fs_target-Step s path bytes base session e = finishes session (peer.sha256 bytes) _ e (
      reply-IsReport (peer.sha256 bytes)
        (write_file peer path bytes (record { base_version_ids = base; chunk_size = none }) s)
        ((write_file-Reports path bytes (record { base_version_ids = base; chunk_size = none })).run
          s tt))

  still_dirty :
      (hash : Text) (h : OpenHandle) (reply : Reply)
      → h.dirty ≡ true
      → (finish_commit hash h reply).dirty ≡ true
  unfolding finish_commit
  still_dirty hash h (written id reported) e = e
  still_dirty hash h (refused fault) e = refl

  pub shared_fs_target-IsSaved :
      (s : S) (path : Text) (bytes : List ℕ) (base : Option (List Text)) (session : Session)
      (hash : Text)
      → session.in_flight ≡ some hash
      → (hash ≡ peer.sha256 bytes) ⊎ (session.handle.dirty ≡ true)
      → IsSaved peer.sha256 session
      → IsSaved peer.sha256 (record session {
        handle =
            finish_commit hash session.handle
              ((shared_fs_target peer).write_file s path bytes base).1;
        in_flight = none;
      })
  shared_fs_target-IsSaved s path bytes base session hash e (inr late) saved =
      dirty-IsSaved peer.sha256 _ (still_dirty hash session.handle _ late)
  shared_fs_target-IsSaved s path bytes base session hash e (inl same) saved =
      subst
        (λ (h : Text). IsSaved peer.sha256 (record session {
          handle =
              finish_commit h session.handle
                ((shared_fs_target peer).write_file s path bytes base).1;
          in_flight = none;
        }))
        (sym same)
        (Step-IsSaved peer.sha256 session _
          (shared_fs_target-Step s path bytes base session (e ∙ ap some same)) saved)
