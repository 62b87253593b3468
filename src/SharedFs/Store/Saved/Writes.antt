-- ===== src/SharedFs/Store/Saved/Writes.antt =====
-- `writeFile` as a whole: what it reports and what is stored.
use peerbit_examples.Prelude.{
  ℕ, subst, ◌≡◌, refl, sym, ap, ◌∙◌, inl, inr, List, Option, none, some, Bool-cases,
}
use peerbit_examples.SharedFs.Path.Split.{Text, same_text, same_text_iff}
use peerbit_examples.SharedFs.Path.{normalize_fs_path}
use peerbit_examples.SharedFs.Mount.Buffer.{ok, coded, eisdir}
use peerbit_examples.SharedFs.Store.Documents.{
  NodeRecord, FileHead, Document, node, get_document, IsIndex, Metadata,
}
use peerbit_examples.SharedFs.Store.Order.{In}
use peerbit_examples.SharedFs.Store.Nodes.Acyclic.{none_or_some}
use peerbit_examples.SharedFs.Store.Heads.Laws.{heads_for_node-IsHead}
use peerbit_examples.SharedFs.Store.Chunks.{chunk_id}
use peerbit_examples.SharedFs.Store.Peer.{Peer, documents, pure, gets}
use peerbit_examples.SharedFs.Store.Peer.Rules.{
  Ending, Triple, pure_rule, raise_rule, gets_rule, asks_rule, bind_rule, if_rule, weaken_rule,
  fact_rule,
}
use peerbit_examples.SharedFs.Store.Infos.{SharedFsVersionInfo, body_hash, version_info}
use peerbit_examples.SharedFs.Store.Records.{is_root_path}
use peerbit_examples.SharedFs.Store.Saves.{
  WriteFileOptions, unchanged_head, put_version, node_to_write, current_heads, created, write_file,
}
use peerbit_examples.SharedFs.Store.Cycles.{HasFreshIds, metadata_rule}
use peerbit_examples.SharedFs.Store.Cycles.Saves.{IsFileThere, existing-IsFileThere}
use peerbit_examples.SharedFs.Store.Saved.{IsCollisionFree, IsCertified, IsNoChunkId, AreStored}
use peerbit_examples.SharedFs.Store.Saved.Versions.{
  version_hash-some, unchanged_head-In, IsSaved, IsOther, file_id-IsNoChunkId, file_id-IsOther,
  nothing_stored, put_version_saves,
}

module _ {S : Type 0} (peer : Peer S) (law : IsIndex peer.index) (fresh : HasFreshIds peer)
    (free : IsCollisionFree peer.sha256) where
  -- The state before, in which the write finds a file or none.
  abbrev IsStart : S → Option NodeRecord → S → Type 0
  IsStart before existing s = (s ≡ before) × IsFileThere (documents peer s) existing

  node_to_write_rule :
      (before : S) (existing : Option NodeRecord)
      → IsCertified peer.sha256 (documents peer before)
      → Triple
          (IsStart before existing)
          (gets (node_to_write peer existing))
          (λ id s. IsStart before existing s × IsNoChunkId peer.sha256 id × IsOther peer id s)
          (λ s. Unit)
  node_to_write_rule before none certified = gets_rule _ (λ s p.
      (p, file_id-IsNoChunkId peer law fresh free s, file_id-IsOther peer law fresh free s s))
  node_to_write_rule before (some r) certified = gets_rule _ (λ s p. (
    p,
    node-IsNoChunkId (documents peer s) r p.1.0.stored
        (subst (λ t. IsCertified peer.sha256 (documents peer t)) (sym p.0) certified),
    inr (node r, p.1.0.stored),
  ))
    where
      node-IsNoChunkId :
          (ds : List Document) (r : NodeRecord)
          → get_document ds r.node_id ≡ some (node r)
          → IsCertified peer.sha256 ds
          → IsNoChunkId peer.sha256 r.node_id
      node-IsNoChunkId ds r e h c =
          elim (Bool-cases (same_text r.node_id (chunk_id (peer.sha256 c)))) [
            | inl s ↦
                let here : get_document ds (chunk_id (peer.sha256 c)) ≡ some (node r) =
                  ap (get_document ds)
                    (sym ((same_text_iff r.node_id (chunk_id (peer.sha256 c))).0 s))
                  ∙ e in
                elim (h c) [ inl n ↦ none_or_some n here | inr k ↦ cc ]
            | inr s ↦ s
          ]

  -- A head that is found unchanged is the version that is reported.
  unchanged-IsSaved :
      (before s : S) (existing : Option NodeRecord) (heads : List FileHead) (h : FileHead)
      (normalized : Text) (bytes : List ℕ) (options : WriteFileOptions)
      → IsStart before existing s
      → current_heads peer existing s ≡ heads
      → unchanged_head options heads (peer.sha256 bytes) ≡ some h
      → IsSaved peer before bytes (version_info h normalized heads) s
  unfolding IsSaved version_info
  unchanged-IsSaved before s none heads h normalized bytes options p e f =
      absurd (subst (In h) (sym e) (unchanged_head-In options heads (peer.sha256 bytes) h f).0)
  unchanged-IsSaved before s (some r) heads h normalized bytes options p e f =
      let (i, hash) = unchanged_head-In options heads (peer.sha256 bytes) h f in
      let (b, body, same) = version_hash-some h.body (peer.sha256 bytes) hash in
      let is =
        (heads_for_node-IsHead peer.before (documents peer s) r.node_id h (law.unique s)).0
          (subst (In h) (sym e) i) in
      (h, b, refl, is.version.0, body, same, ap body_hash body ∙ ap some same, inl p.0)

  write_file_saves :
      (path : Text) (bytes : List ℕ) (options : WriteFileOptions) (before : S)
      → IsCertified peer.sha256 (documents peer before)
      → Triple
          (λ s. s ≡ before)
          (write_file peer path bytes options)
          (IsSaved peer before bytes)
          (λ s. Unit)
  unfolding write_file
  write_file_saves path bytes options before certified =
      if_rule (is_root_path (normalize_fs_path path)) _ _
        (λ e. raise_rule (coded eisdir) (λ s p. tt))
        (λ e.
          bind_rule _ _
            (asks_rule {Q = IsStart before} _
              (λ s existing f p. (
                p,
                existing-IsFileThere peer.before (documents peer s) (law.unique s)
                    (normalize_fs_path path) existing f,
              ))
              (λ s p. tt))
            (λ existing.
              bind_rule _ _
                (asks_rule {Q = λ parent. IsStart before existing} _ (λ s a f p. p) (λ s p. tt))
                (λ parent.
                  bind_rule _ _
                    (metadata_rule peer law {Q = λ m. IsStart before existing} (λ s m p. p))
                    (λ m. bind_rule _ _ (node_to_write_rule before existing certified) (λ id.
                      bind_rule _ _
                        (gets_rule
                          {Q = λ heads s.
                            (IsStart before existing s
                              × IsNoChunkId peer.sha256 id
                              × IsOther peer id s)
                            × (current_heads peer existing s ≡ heads)}
                          _ (λ s p. (p, refl)))
                        (λ heads.
                          save parent id heads (unchanged_head options heads (peer.sha256 bytes))
                            refl m existing))))))
    where
      save :
          (parent id : Text) (heads : List FileHead) (o : Option FileHead)
          → unchanged_head options heads (peer.sha256 bytes) ≡ o
          → (m : Metadata) (existing : Option NodeRecord)
          → Triple
              (λ s.
                (IsStart before existing s × IsNoChunkId peer.sha256 id × IsOther peer id s)
                × (current_heads peer existing s ≡ heads))
              (elim o [
                | some h ↦ pure (version_info h (normalize_fs_path path) heads)
                | none ↦
                    put_version peer
                      (normalize_fs_path path)
                      id
                      parent
                      heads
                      (peer.sha256 bytes)
                      bytes
                      options
                      (created peer existing m)
                      m
              ])
              (IsSaved peer before bytes)
              (λ s. Unit)
      save parent id heads (some h) f m existing = pure_rule _ (λ s p.
          unchanged-IsSaved before s existing heads h (normalize_fs_path path) bytes options p.0.0
            p.1 f)
      save parent id heads none f m existing =
          weaken_rule
            {F = λ s.
              IsNoChunkId peer.sha256 id × (AreStored peer law (λ x. ⊥) s × IsOther peer id s)}
            _
            (λ s p. (
              p.0.1,
              (
                nothing_stored peer law fresh free s (
                    subst (λ t. IsCertified peer.sha256 (documents peer t)) (sym p.0.0.0)
                      certified),
                p.0.2,
              ),
            ))
            (fact_rule _ (λ no.
              put_version_saves peer law fresh free _ id parent heads bytes options _ m before no))

  -- A write that answers reports a version that is stored and has the hash of the bytes; and either it
  -- changed nothing, or the content of that version is read back from the index, byte for byte and
  -- whatever remote peers answer. The index holds one document to an id and answers what was put, ids
  -- that are made are new, the hash tells contents apart, and under the id of a chunk stands nothing but
  -- the chunk.
  pub write_file-IsSaved :
      (path : Text) (bytes : List ℕ) (options : WriteFileOptions) (s t : S)
      (info : SharedFsVersionInfo)
      → IsCertified peer.sha256 (documents peer s)
      → write_file peer path bytes options s ≡ (t, ok info)
      → IsSaved peer s bytes info t
  write_file-IsSaved path bytes options s t info certified e =
      subst (λ x. Ending (IsSaved peer s bytes) (λ u. Unit) x) e
        ((write_file_saves path bytes options s certified).run s refl)
