-- ===== src/SharedFs/Store/Peer.antt =====
-- packages/shared-fs/library/src/index.ts: what a `SharedFileSystem` has at hand, which writes it
-- permits, and the calls as actions on the state.  The index, the order of ids, the hash, the clock,
-- the random ids, the trust graph and the remote peers are parameters.
pub mod Rules
use peerbit_examples.Prelude.{
  ℕ, Bool, true, false, not, ◌&&◌, ◌||◌, List, [], ◌∷◌, ◌++◌, Option, none, some, if◌then◌else◌,
}
use peerbit_examples.SharedFs.Path.Split.{Text, same_text}
use peerbit_examples.SharedFs.Mount.Buffer.{Fault, range_error, Outcome, ok, fail}
use peerbit_examples.SharedFs.Store.Documents.{
  NodeRecord, FileHead, FileChunk, Document, node, head, chunk, Index, Metadata,
}
use peerbit_examples.SharedFs.Store.Chunks.{is_certified}

pub record Peer (S : Type 0) : Type 0 where
  pub index : Index S
  pub before : Text → Text → Bool
  pub sha256 : List ℕ → Text
  pub clock : S → ℕ
  -- `toBase64URL(randomBytes(32))`
  pub random : S → Text
  pub author_key : Text
  pub machine_label : Text
  pub is_full_replica : Bool
  -- `trustGraph.isTrusted`, where there is a trust graph.
  pub trust : Option (S → Text → Bool)
  -- A remote get, where it is switched on; one that fails finds nothing.
  pub remote : Option (S → Text → Option Document)

pub data Operation : Type 0 where
  putting : Document → Operation
  deleting : Text → Operation

abbrev pub entry_author_key : Document → Option Text
entry_author_key (node r) = some r.author_key
entry_author_key (head h) = some h.author_key
entry_author_key (chunk c) = none

unfoldable pub trusted_keys : (Text → Bool) → List Text → List Text
trusted_keys is_trusted [] = []
trusted_keys is_trusted (k ∷ ks) =
    let rest = trusted_keys is_trusted ks in if is_trusted k then k ∷ rest else rest

unfoldable pub some_is : List Text → Text → Bool
some_is [] key = false
some_is (k ∷ ks) key = same_text k key || some_is ks key

unfoldable pub is_malformed_chunk : (List ℕ → Text) → Operation → Bool
is_malformed_chunk sha256 (putting (node r)) = false
is_malformed_chunk sha256 (putting (head h)) = false
is_malformed_chunk sha256 (putting (chunk c)) = not (is_certified sha256 c c.id)
is_malformed_chunk sha256 (deleting id) = false

abbrev pub author_signed : List Text → Operation → Bool
author_signed trusted (putting d) = elim (entry_author_key d) [
  | none ↦ true
  | some key ↦ some_is trusted key
]
author_signed trusted (deleting id) = true

abbrev pub is_empty : List Text → Bool
is_empty [] = true
is_empty (x ∷ xs) = false

-- `canPerformEntry`, with the keys that signed the entry.
unfoldable pub can_perform_entry :
    (List ℕ → Text) → Option (Text → Bool) → List Text → Operation → Bool
can_perform_entry sha256 trust keys operation =
    not (is_malformed_chunk sha256 operation) && elim trust [
      | none ↦ true
      | some is_trusted ↦
          let trusted = trusted_keys is_trusted keys in
          not (is_empty trusted) && author_signed trusted operation
    ]

-- A call: the state after it, and what it answers or the error it throws.
abbrev pub Act : Type 0 → Type 0 → Type 0
Act S A = S → S × Outcome A

infixl 5 ◌>>=◌ ◌>>◌
unfoldable pub ◌>>=◌ : {S A B : Type 0} → Act S A → (A → Act S B) → Act S B
◌>>=◌ m f s = elim (m s).1 [ ok a ↦ f a (m s).0 | fail e ↦ ((m s).0, fail e) ]

unfoldable pub ◌>>◌ : {S A B : Type 0} → Act S A → Act S B → Act S B
◌>>◌ m n = m >>= (λ a. n)

unfoldable pub pure : {S A : Type 0} → A → Act S A
pure a s = (s, ok a)

unfoldable pub raise : {S A : Type 0} → Fault → Act S A
raise e s = (s, fail e)

-- What is computed from the state.
unfoldable pub gets : {S A : Type 0} → (S → A) → Act S A
gets f s = (s, ok (f s))

-- What is computed from the state, or is an error.
unfoldable pub asks : {S A : Type 0} → (S → Outcome A) → Act S A
asks f s = (s, f s)

module _ {S : Type 0} (peer : Peer S) where
  unfoldable pub create_id : S → Text → Text
  create_id s prefix = prefix ++ b':' ∷ peer.random s

  abbrev pub documents : S → List Document
  documents s = peer.index.documents s

  unfoldable pub signed_metadata : Act S Metadata
  signed_metadata s = (
    s,
    ok (record {
      author_key = peer.author_key;
      machine_label = peer.machine_label;
      timestamp = peer.clock s;
    }),
  )

  unfoldable pub may_put : S → Document → Bool
  may_put s d =
      can_perform_entry peer.sha256
        (elim peer.trust [ none ↦ none | some is_trusted ↦ some (is_trusted s) ])
        (peer.author_key ∷ []) (putting d)

  -- `entries.put`: a put that is not permitted throws what is no `SharedFsError`.
  unfoldable pub put : Document → Act S (Unit {0})
  put d s = if may_put s d then (peer.index.put s d, ok tt) else (s, fail range_error)
