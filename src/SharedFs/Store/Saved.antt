-- ===== src/SharedFs/Store/Saved.antt =====
-- `writeFile` and the stored chunks.
pub mod Versions
pub mod Writes
use peerbit_examples.Prelude.{
  ℕ, suc, zero, subst, ◌≡◌, refl, sym, ap, ap₂, ◌∙◌, ◌⊎◌, inl, inr, Bool, true, false, List, [],
  ◌∷◌, ◌++◌, map, Option, none, some, is_some, if◌then◌else◌, if-true, if-false, Bool-cases,
}
use peerbit_examples.SharedFs.Path.Split.{Text, same_text, same_text_iff}
use peerbit_examples.SharedFs.Path.{tail_text}
use peerbit_examples.SharedFs.Mount.Buffer.{Outcome, ok, fail, Number, nat, below_zero, not_finite}
use peerbit_examples.SharedFs.Store.Documents.{
  FileChunk, Document, chunk, document_id, get_document, IsIndex,
}
use peerbit_examples.SharedFs.Store.Query.{same_text_refl}
use peerbit_examples.SharedFs.Store.Order.{In}
use peerbit_examples.SharedFs.Store.Nodes.Acyclic.{none_or_some}
use peerbit_examples.SharedFs.Store.Nodes.Resolved.{fail_or_ok, ok_injective}
use peerbit_examples.SharedFs.Store.Chunks.{chunk_id, file_chunk, chunk_bytes, concat}
use peerbit_examples.SharedFs.Store.Chunks.Laws.{chunk_bytes-IsChunking}
use peerbit_examples.SharedFs.Store.Peer.{Peer, documents, create_id}
use peerbit_examples.SharedFs.Store.Peer.Rules.{
  Triple, pure_rule, gets_rule, bind_rule, if_rule, put_rule, seq_rule, after_rule, weaken_rule,
}
use peerbit_examples.SharedFs.Store.Saves.{
  set_chunk, unique_chunks, has_document, put_chunk, put_chunks,
}

chunk_id_injective : (a b : Text) → chunk_id a ≡ chunk_id b → a ≡ b
unfolding chunk_id tail_text
chunk_id_injective a b e =
    ap (λ t. tail_text (tail_text (tail_text (tail_text (tail_text (tail_text t)))))) e

pub concat-chunk_bytes_ok :
    (bytes : List ℕ) (size : Number) (cs : List (List ℕ))
    → chunk_bytes bytes size ≡ ok cs
    → concat cs ≡ bytes
unfolding chunk_bytes
concat-chunk_bytes_ok bytes (nat zero) cs e = fail_or_ok e
concat-chunk_bytes_ok bytes (nat (suc n)) cs e =
    let (ds, f, whole, sized) = chunk_bytes-IsChunking bytes n in
    ap concat (ok_injective (sym e ∙ f)) ∙ whole
concat-chunk_bytes_ok bytes below_zero cs e = fail_or_ok e
concat-chunk_bytes_ok bytes not_finite cs e = fail_or_ok e

-- The hash tells contents apart.
abbrev pub IsCollisionFree : (List ℕ → Text) → Type 0
IsCollisionFree sha256 = (a b : List ℕ) → sha256 a ≡ sha256 b → a ≡ b

module _ (sha256 : List ℕ → Text) where
  -- Under the id of a chunk stands nothing but the chunk.
  abbrev pub IsCertified : List Document → Type 0
  IsCertified ds =
      (c : List ℕ)
      → (get_document ds (chunk_id (sha256 c)) ≡ none)
        ⊎ (get_document ds (chunk_id (sha256 c)) ≡ some (chunk (file_chunk sha256 c)))

  -- No chunk has the id.
  abbrev pub IsNoChunkId : Text → Type 0
  IsNoChunkId id = (c : List ℕ) → same_text id (chunk_id (sha256 c)) ≡ false

  module _ (free : IsCollisionFree sha256) where
    same_chunk :
        (a b : List ℕ) → same_text (chunk_id (sha256 a)) (chunk_id (sha256 b)) ≡ true → a ≡ b
    same_chunk a b e = free a b (chunk_id_injective _ _ ((same_text_iff _ _).0 e))

    set_chunk_lem :
        (us : List (List ℕ)) (c : List ℕ)
        → (vs : List (List ℕ)) × (set_chunk (map (file_chunk sha256) us) (file_chunk sha256 c)
            ≡ map (file_chunk sha256) vs)
          × ((x : List ℕ) → In x (c ∷ us) → In x vs)
    unfolding set_chunk file_chunk
    set_chunk_lem [] c = (c ∷ [], refl, λ x i. i)
    set_chunk_lem (u ∷ us) c =
        elim (Bool-cases (same_text (chunk_id (sha256 u)) (chunk_id (sha256 c)))) [
          | inl e ↦ (
            c ∷ us,
            if-true _ _ _ e,
            λ x i. elim i [
              | inl p ↦ inl p
              | inr j ↦ elim j [ inl q ↦ inl (q ∙ same_chunk u c e) | inr k ↦ inr k ]
            ],
          )
          | inr e ↦
              let (vs, f, kept) = set_chunk_lem us c in
              (
                u ∷ vs,
                if-false _ _ _ e ∙ ap (λ l. file_chunk sha256 u ∷ l) f,
                λ x i. elim i [
                  | inl p ↦ inr (kept x (inl p))
                  | inr j ↦ elim j [ inl q ↦ inl q | inr k ↦ inr (kept x (inr k)) ]
                ],
              )
        ]

    pub unique_chunks_lem :
        (us cs : List (List ℕ))
        → (vs : List (List ℕ)) × (unique_chunks
              (map (file_chunk sha256) us)
              (map (file_chunk sha256) cs)
            ≡ map (file_chunk sha256) vs)
          × ((x : List ℕ) → In x us ⊎ In x cs → In x vs)
    unfolding unique_chunks
    unique_chunks_lem us [] = (us, refl, λ x i. elim i [ inl j ↦ j | inr j ↦ absurd j ])
    unique_chunks_lem us (c ∷ cs) =
        let (vs, e, kept) = set_chunk_lem us c in
        let (ws, f, rest) = unique_chunks_lem vs cs in
        (
          ws,
          ap (λ l. unique_chunks l (map (file_chunk sha256) cs)) e ∙ f,
          λ x i. rest x (elim i [
            | inl j ↦ inl (kept x (inr j))
            | inr j ↦ elim j [ inl p ↦ inl (kept x (inl p)) | inr k ↦ inr k ]
          ]),
        )

module _ {S : Type 0} (peer : Peer S) (law : IsIndex peer.index) where
  abbrev pub IsChunkThere : S → List ℕ → Type 0
  IsChunkThere s c =
      get_document (documents peer s) (chunk_id (peer.sha256 c))
      ≡ some (chunk (file_chunk peer.sha256 c))

  -- Some chunks are stored, and under the ids of chunks stand chunks only.
  abbrev pub AreStored : (List ℕ → Type 0) → S → Type 0
  AreStored D s =
      IsCertified peer.sha256 (documents peer s) × ((c : List ℕ) → D c → IsChunkThere s c)

  -- A document that is no chunk changes nothing of it.
  pub AreStored-put :
      (D : List ℕ → Type 0) (s : S) (d : Document)
      → IsNoChunkId peer.sha256 (document_id d)
      → AreStored D s
      → AreStored D (peer.index.put s d)
  AreStored-put D s d other h = (
    λ c. elim (h.0 c) [ inl e ↦ inl (kept c ∙ e) | inr e ↦ inr (kept c ∙ e) ],
    λ c i. kept c ∙ h.1 c i,
  )
    where
      kept :
          (c : List ℕ)
          → get_document (documents peer (peer.index.put s d)) (chunk_id (peer.sha256 c))
            ≡ get_document (documents peer s) (chunk_id (peer.sha256 c))
      kept c = law.get-put s d _ ∙ if-false _ _ _ (other c)

  module _ (free : IsCollisionFree peer.sha256) where
    chunk_stored :
        (D : List ℕ → Type 0) (c : List ℕ) (s : S)
        → AreStored D s
        → AreStored (λ x. (x ≡ c) ⊎ D x) (peer.index.put s (chunk (file_chunk peer.sha256 c)))
    unfolding file_chunk
    chunk_stored D c s h = (
      λ x. elim (new x) [
        | inl there ↦ inr there
        | inr old ↦ elim (h.0 x) [ inl e ↦ inl (old ∙ e) | inr e ↦ inr (old ∙ e) ]
      ],
      λ x i. elim i [
        | inl p ↦
            rw p (law.get-put s _ _ ∙ if-true _ _ _ (same_text_refl (chunk_id (peer.sha256 c))))
        | inr j ↦ elim (new x) [ inl there ↦ there | inr old ↦ old ∙ h.1 x j ]
      ],
    )
      where
        new :
            (x : List ℕ)
            → IsChunkThere (peer.index.put s (chunk (file_chunk peer.sha256 c))) x
              ⊎ (get_document
                    (documents peer (peer.index.put s (chunk (file_chunk peer.sha256 c))))
                    (chunk_id (peer.sha256 x))
                  ≡ get_document (documents peer s) (chunk_id (peer.sha256 x)))
        new x =
            elim (Bool-cases (same_text (chunk_id (peer.sha256 c)) (chunk_id (peer.sha256 x)))) [
              | inl e ↦ inl (
                  law.get-put s _ _
                  ∙ if-true _ _ _ e
                  ∙ ap (λ b. some (chunk (file_chunk peer.sha256 b)))
                      (same_chunk peer.sha256 free c x e))
              | inr e ↦ inr (law.get-put s _ _ ∙ if-false _ _ _ e)
            ]

    put_chunk_rule :
        (D : List ℕ → Type 0) (c : List ℕ)
        → Triple
            (AreStored D)
            (put_chunk peer (file_chunk peer.sha256 c))
            (λ u. AreStored (λ x. (x ≡ c) ⊎ D x))
            (λ s. Unit)
    unfolding put_chunk has_document file_chunk
    put_chunk_rule D c =
        if_rule peer.is_full_replica _ _
          (λ e.
            bind_rule _ _
              (gets_rule
                {Q = λ there s.
                  AreStored D s
                  × (is_some (get_document (documents peer s) (chunk_id (peer.sha256 c))) ≡ there)}
                _ (λ s p. (p, refl)))
              (λ there.
                if_rule there _ _ (λ f. pure_rule tt (λ s p. already s p.0 (p.1 ∙ f)))
                  (λ f. put_rule peer _ (λ s p. chunk_stored D c s p.0) (λ s p. tt))))
          (λ e. put_rule peer _ (λ s p. chunk_stored D c s p) (λ s p. tt))
      where
        already :
            (s : S)
            → AreStored D s
            → is_some (get_document (documents peer s) (chunk_id (peer.sha256 c))) ≡ true
            → AreStored (λ x. (x ≡ c) ⊎ D x) s
        already s p f = (
          p.0,
          λ x i. elim i [
            | inl e ↦ rw e (elim (p.0 c) [
              | inl n ↦ cc (sym (ap (λ (o : Option Document). is_some o) n) ∙ f)
              | inr there ↦ there
            ])
            | inr j ↦ p.1 x j
          ],
        )

    pub put_chunks_rule :
        (cs : List (List ℕ)) (D : List ℕ → Type 0)
        → Triple
            (AreStored D)
            (put_chunks peer (map (file_chunk peer.sha256) cs))
            (λ u. AreStored (λ x. In x cs ⊎ D x))
            (λ s. Unit)
    unfolding put_chunks
    put_chunks_rule [] D =
        pure_rule tt (λ s p. (p.0, λ c i. p.1 c (elim i [ inl j ↦ absurd j | inr j ↦ j ])))
    put_chunks_rule (c ∷ cs) D =
        after_rule _
          (λ u s p. (
            p.0,
            λ x i. p.1 x (elim i [
              | inl j ↦ elim j [ inl e ↦ inr (inl e) | inr k ↦ inl k ]
              | inr j ↦ inr (inr j)
            ]),
          ))
          (seq_rule _ _ (put_chunk_rule D c) (put_chunks_rule cs (λ x. (x ≡ c) ⊎ D x)))
