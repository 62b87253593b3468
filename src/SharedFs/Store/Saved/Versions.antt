-- ===== src/SharedFs/Store/Saved/Versions.antt =====
-- `writeFile` and the stored version.
use peerbit_examples.Prelude.{
  ℕ, subst, ◌≡◌, refl, sym, ap, ◌∙◌, ◌⊎◌, inl, inr, Bool, true, false, not, ◌&&◌, List, [], ◌∷◌,
  map, Option, none, some, is_some, if◌then◌else◌, if-true, if-false,
}
use peerbit_examples.SharedFs.Path.Split.{Text, same_text, same_text_iff}
use peerbit_examples.SharedFs.Mount.Buffer.{ok}
use peerbit_examples.SharedFs.Store.Documents.{
  NodeRecord, FileHead, FileChunk, VersionBody, Document, node, head, get_document, IsIndex,
  Metadata,
}
use peerbit_examples.SharedFs.Store.Order.{In}
use peerbit_examples.SharedFs.Store.Query.{same_text_refl, some_injective}
use peerbit_examples.SharedFs.Store.Nodes.Acyclic.{same_text_flip}
use peerbit_examples.SharedFs.Store.Chunks.{chunk_id, file_chunk, concat}
use peerbit_examples.SharedFs.Store.Peer.{Peer, documents, create_id, put, ◌>>◌, pure}
use peerbit_examples.SharedFs.Store.Peer.Rules.{
  Triple, pure_rule, gets_rule, asks_rule, bind_rule, put_rule, seq_rule, fact_rule,
}
use peerbit_examples.SharedFs.Store.Infos.{SharedFsVersionInfo, version_info}
use peerbit_examples.SharedFs.Store.Reads.{read_file_version}
use peerbit_examples.SharedFs.Store.Reads.Fetch.{read_file_version-concat, chunk_ids_of}
use peerbit_examples.SharedFs.Store.Saves.{
  WriteFileOptions, version_hash, unchanged_head, put_chunks, put_version,
}
use peerbit_examples.SharedFs.Store.Cycles.{HasFreshIds, other_id}
use peerbit_examples.SharedFs.Store.Saved.{
  IsCollisionFree, IsCertified, IsNoChunkId, unique_chunks_lem, concat-chunk_bytes_ok, AreStored,
  AreStored-put, put_chunks_rule,
}

pub version_hash-some :
    (o : Option VersionBody) (hash : Text)
    → version_hash o hash ≡ true
    → (b : VersionBody) × (o ≡ some b) × (b.content_hash ≡ hash)
version_hash-some none hash e = cc
version_hash-some (some b) hash e = (b, refl, (same_text_iff b.content_hash hash).0 e)

pub unchanged_head-In :
    (options : WriteFileOptions) (heads : List FileHead) (hash : Text) (h : FileHead)
    → unchanged_head options heads hash ≡ some h
    → In h heads × (version_hash h.body hash ≡ true)
unfolding unchanged_head
unchanged_head-In options [] hash h e = cc
unchanged_head-In options (x ∷ y ∷ hs) hash h e = cc
unchanged_head-In options (x ∷ []) hash h e =
    go (not (is_some options.base_version_ids)) (not (is_some options.chunk_size))
      (version_hash x.body hash) refl e
  where
    go :
        (a b c : Bool)
        → version_hash x.body hash ≡ c
        → (if a && b && c then some x else none) ≡ some h
        → In h (x ∷ []) × (version_hash h.body hash ≡ true)
    go true true true f g =
        let same : x ≡ h = some_injective g in
        (inl (sym same), subst (λ (y : FileHead). version_hash y.body hash ≡ true) same f)
    go true true false f g = cc
    go true false c f g = cc
    go false b c f g = cc

chunk_ids_map :
    (sha256 : List ℕ → Text) (documents : List Document) (remote : Option (Text → Option Document))
    (pieces : List (List ℕ))
    → map (λ (c : FileChunk). c.id) (map (file_chunk sha256) pieces)
      ≡ chunk_ids_of sha256 documents remote pieces
unfolding file_chunk
chunk_ids_map sha256 documents remote [] = refl
chunk_ids_map sha256 documents remote (c ∷ cs) =
    ap (λ l. chunk_id (sha256 c) ∷ l) (chunk_ids_map sha256 documents remote cs)

abbrev version_prefix : Text
version_prefix = b'v' ∷ b'e' ∷ b'r' ∷ b's' ∷ b'i' ∷ b'o' ∷ b'n' ∷ []

module _ {S : Type 0} (peer : Peer S) where
  -- The version that is reported is stored, with the hash of the bytes; and either nothing changed, or its
  -- content is read back from the index, whatever remote peers answer.
  unfoldable pub IsSaved : S → List ℕ → SharedFsVersionInfo → S → Type 0
  IsSaved before bytes info s =
      (v : FileHead) × (b : VersionBody) × (v.id ≡ info.id)
      × (get_document (documents peer s) v.id ≡ some (head v))
      × (v.body ≡ some b)
      × (b.content_hash ≡ peer.sha256 bytes)
      × (info.content_hash ≡ some (peer.sha256 bytes))
      × ((s ≡ before)
          ⊎ ((remote : Option (Text → Option Document))
              → read_file_version peer.sha256 (documents peer s) remote b ≡ ok bytes))

  -- No new version can have the node's id.
  abbrev pub IsOther : Text → S → Type 0
  IsOther node_id s =
      ((t : S) → same_text (create_id peer t version_prefix) node_id ≡ false)
      ⊎ ((d : Document) × (get_document (documents peer s) node_id ≡ some d))

  module _ (law : IsIndex peer.index) (fresh : HasFreshIds peer)
      (free : IsCollisionFree peer.sha256) where
    version_id-IsNoChunkId : (s : S) → IsNoChunkId peer.sha256 (create_id peer s version_prefix)
    unfolding create_id chunk_id same_text
    version_id-IsNoChunkId s c = refl

    pub file_id-IsNoChunkId :
        (s : S) → IsNoChunkId peer.sha256 (create_id peer s (b'f' ∷ b'i' ∷ b'l' ∷ b'e' ∷ []))
    unfolding create_id chunk_id same_text
    file_id-IsNoChunkId s c = refl

    pub file_id-IsOther : (s t : S) → IsOther (create_id peer s (b'f' ∷ b'i' ∷ b'l' ∷ b'e' ∷ [])) t
    unfolding create_id same_text
    file_id-IsOther s t = inl (λ u. refl)

    pub version_id_other :
        (node_id : Text) (s : S)
        → IsOther node_id s
        → same_text (create_id peer s version_prefix) node_id ≡ false
    version_id_other node_id s (inl h) = h s
    version_id_other node_id s (inr h) =
        other_id (documents peer s) (create_id peer s version_prefix) node_id
          (fresh.fresh s version_prefix) h.1

    pub nothing_stored :
        (s : S) → IsCertified peer.sha256 (documents peer s) → AreStored peer law (λ x. ⊥) s
    nothing_stored s h = (h, λ c i. absurd i)

    -- The last puts of a write: the version, then the record of its file.
    put_both :
        {A : Type 0} {R : A → S → Type 0} (D : List ℕ → Type 0) (h : FileHead) (r : NodeRecord)
        (a : A)
        → IsNoChunkId peer.sha256 h.id
        → IsNoChunkId peer.sha256 r.node_id
        → same_text h.id r.node_id ≡ false
        → ((s : S)
            → AreStored peer law D s
            → get_document (documents peer s) h.id ≡ some (head h)
            → R a s)
        → Triple
            (AreStored peer law D)
            (put peer (head h) >> (put peer (node r) >> pure a))
            R
            (λ s. Unit)
    put_both D h r a no_head no_node other done =
        seq_rule _ _
          (put_rule
            {Q = λ u s.
              AreStored peer law D s × (get_document (documents peer s) h.id ≡ some (head h))}
            peer (head h)
            (λ s p. (
              AreStored-put peer law D s (head h) no_head p,
              law.get-put s (head h) h.id ∙ if-true _ _ _ (same_text_refl h.id),
            ))
            (λ s p. tt))
          (seq_rule _ _
            (put_rule
              {Q = λ u s.
                AreStored peer law D s × (get_document (documents peer s) h.id ≡ some (head h))}
              peer (node r)
              (λ s p. (
                AreStored-put peer law D s (node r) no_node p.0,
                law.get-put s (node r) h.id
                    ∙ if-false _ _ _ (same_text_flip h.id r.node_id other)
                    ∙ p.1,
              ))
              (λ s p. tt))
            (pure_rule a (λ s p. done s p.0 p.1)))

    pub put_version_saves :
        (normalized node_id parent_id : Text) (heads : List FileHead) (bytes : List ℕ)
        (options : WriteFileOptions) (created_at : ℕ) (metadata : Metadata) (before : S)
        → IsNoChunkId peer.sha256 node_id
        → Triple
            (λ s. AreStored peer law (λ x. ⊥) s × IsOther node_id s)
            (put_version peer normalized node_id parent_id heads
              (peer.sha256 bytes)
              bytes
              options
              created_at
              metadata)
            (IsSaved before bytes)
            (λ s. Unit)
    unfolding put_version IsSaved version_info
    put_version_saves normalized node_id parent_id heads bytes options created_at metadata before
          no_chunk =
        bind_rule _ _
          (gets_rule
            {Q = λ id s.
              (IsNoChunkId peer.sha256 id × (same_text id node_id ≡ false))
              × AreStored peer law (λ x. ⊥) s}
            _ (λ s p. ((version_id-IsNoChunkId s, version_id_other node_id s p.1), p.0)))
          (λ id. fact_rule _ (λ facts.
            bind_rule _ _
              (asks_rule {Q = λ pieces s. (concat pieces ≡ bytes) × AreStored peer law (λ x. ⊥) s} _
                (λ s pieces e p. (concat-chunk_bytes_ok bytes _ pieces e, p)) (λ s p. tt))
              (λ pieces. fact_rule _ (λ whole.
                let (vs, e, all) = unique_chunks_lem peer.sha256 free [] pieces in
                seq_rule _ _
                  (subst
                    (λ l.
                      Triple (AreStored peer law (λ x. ⊥)) (put_chunks peer l)
                        (λ u. AreStored peer law (λ x. In x vs ⊎ ⊥)) (λ s. Unit))
                    (sym e) (put_chunks_rule peer law free vs (λ x. ⊥)))
                  (put_both (λ x. In x vs ⊎ ⊥) _ _ _ facts.0 no_chunk facts.1
                    (λ s p q. (
                      _,
                      _,
                      refl,
                      q,
                      refl,
                      refl,
                      refl,
                      inr (λ remote.
                          read_file_version-concat peer.sha256 (documents peer s) remote _ pieces
                            (λ c i. p.1 c (inl (all c (inr i))))
                            (chunk_ids_map peer.sha256 (documents peer s) remote pieces)
                            (ap peer.sha256 (sym whole))
                          ∙ ap ok whole),
                    )))))))
