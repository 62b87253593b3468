-- ===== src/SharedFs/Store/Chunks.antt =====
-- packages/shared-fs/library/src/index.ts and model.ts: the chunks of a file's content.
pub mod Laws
use peerbit_examples.Prelude.{
  ℕ, zero, suc, ◌≡◌, Bool, true, false, ◌&&◌, List, [], ◌∷◌, ◌++◌, map, Option, none, some,
  if◌then◌else◌, length,
}
use peerbit_examples.SharedFs.Path.Split.{Text, same_text}
use peerbit_examples.SharedFs.Mount.Buffer.{
  Number, nat, below_zero, not_finite, Outcome, ok, fail, coded, einval,
}
use peerbit_examples.SharedFs.Store.Documents.{FileChunk}

unfoldable pub take : ℕ → List ℕ → List ℕ
take zero xs = []
take (suc n) [] = []
take (suc n) (x ∷ xs) = x ∷ take n xs

unfoldable pub drop : ℕ → List ℕ → List ℕ
drop zero xs = xs
drop (suc n) [] = []
drop (suc n) (x ∷ xs) = drop n xs

-- The loop over the offsets, with what is left of the bytes; a round takes a byte at least.
unfoldable pub chunks_from : ℕ → ℕ → List ℕ → List (List ℕ)
chunks_from zero size bytes = []
chunks_from (suc fuel) size [] = []
chunks_from (suc fuel) size (b ∷ bs) =
    take size (b ∷ bs) ∷ chunks_from fuel size (drop size (b ∷ bs))

abbrev pub or_one_empty : List (List ℕ) → List (List ℕ)
or_one_empty [] = [] ∷ []
or_one_empty (c ∷ cs) = c ∷ cs

-- A size that is not an integer is refused as one that is not finite is.
unfoldable pub chunk_bytes : List ℕ → Number → Outcome (List (List ℕ))
chunk_bytes bytes (nat zero) = fail (coded einval)
chunk_bytes bytes (nat (suc n)) = ok (or_one_empty (chunks_from (length bytes) (suc n) bytes))
chunk_bytes bytes below_zero = fail (coded einval)
chunk_bytes bytes not_finite = fail (coded einval)

-- `concat`
unfoldable pub concat : List (List ℕ) → List ℕ
concat [] = []
concat (c ∷ cs) = c ++ concat cs

-- `chunk:` and the hash of the bytes.
unfoldable pub chunk_id : Text → Text
chunk_id hash = b'c' ∷ b'h' ∷ b'u' ∷ b'n' ∷ b'k' ∷ b':' ∷ hash

module _ (sha256 : List ℕ → Text) where
  unfoldable pub file_chunk : List ℕ → FileChunk
  file_chunk bytes = record { id = chunk_id (sha256 bytes); hash = sha256 bytes; bytes = bytes }

  -- Whether the bytes hash to the id.
  unfoldable pub is_certified : FileChunk → Text → Bool
  is_certified c id = same_text (sha256 c.bytes) c.hash && same_text (chunk_id (sha256 c.bytes)) id
