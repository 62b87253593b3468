-- ===== src/SharedFs/Store/Reads/Fetch.antt =====
-- Lemmas on reading the content of one version.
use peerbit_examples.Prelude.{
  ℕ, ◌≡◌, refl, sym, ap, ap₂, ◌∙◌, ◌⊎◌, inl, inr, Bool, true, false, List, [], ◌∷◌, map, Option,
  some, arith, if◌then◌else◌, if-true, if-false, Bool-cases,
}
use peerbit_examples.SharedFs.Path.Split.{Text, same_text, same_text_iff}
use peerbit_examples.SharedFs.Mount.Buffer.{ok, fail, coded, eio}
use peerbit_examples.SharedFs.Mount.Target.{◌then_do◌}
use peerbit_examples.SharedFs.Store.Documents.{
  FileChunk, VersionBody, Document, chunk, get_document, contains_text,
}
use peerbit_examples.SharedFs.Store.Order.{In}
use peerbit_examples.SharedFs.Store.Query.{same_text_refl}
use peerbit_examples.SharedFs.Store.Chunks.{concat, chunk_id, file_chunk, is_certified}
use peerbit_examples.SharedFs.Store.Reads.{
  unique_from, bytes_of_id, fetch_chunk, fetch_all, verify_chunk, read_file_version,
}

-- An id comes among the unique ones, or was seen before.
unique_from_contains :
    (seen ids : List Text) (id : Text)
    → contains_text ids id ≡ true
    → (contains_text seen id ≡ true) ⊎ (contains_text (unique_from seen ids) id ≡ true)
unfolding unique_from contains_text
unique_from_contains seen [] id h = cc
unique_from_contains seen (x ∷ xs) id h = elim (Bool-cases (contains_text seen x)) [
  | inl s ↦ rw s (elim (Bool-cases (same_text x id)) [
    | inl e ↦ inl (ap (contains_text seen) (sym ((same_text_iff x id).0 e)) ∙ s)
    | inr e ↦ unique_from_contains seen xs id (ground arith)
  ])
  | inr s ↦ rw s (elim (Bool-cases (same_text x id)) [
    | inl e ↦ inr (ground arith)
    | inr e ↦ elim (unique_from_contains (x ∷ seen) xs id (ground arith)) [
      | inl f ↦ inl (ground arith)
      | inr f ↦ inr (ground arith)
    ]
  ])
]

pairs_of : (Text → List ℕ) → List Text → List (Text × List ℕ)
pairs_of got = map (λ id. (id, got id))

bytes_of_pairs :
    (got : Text → List ℕ) (ids : List Text) (id : Text)
    → contains_text ids id ≡ true
    → bytes_of_id (pairs_of got ids) id ≡ got id
unfolding bytes_of_id contains_text pairs_of
bytes_of_pairs got [] id h = cc
bytes_of_pairs got (x ∷ xs) id h = elim (Bool-cases (same_text x id)) [
  | inl e ↦ if-true _ _ _ e ∙ ap got ((same_text_iff x id).0 e)
  | inr e ↦ if-false _ _ _ e ∙ bytes_of_pairs got xs id (ground arith)
]

pub first_in : (x : Text) (xs : List Text) → contains_text (x ∷ xs) x ≡ true
unfolding contains_text
first_in x xs = rw (same_text_refl x) refl

pub later_in :
    (x : Text) (xs : List Text) (id : Text)
    → contains_text xs id ≡ true
    → contains_text (x ∷ xs) id ≡ true
unfolding contains_text
later_in x xs id h = ground arith

contains_unique_from :
    (seen ids : List Text) (id : Text)
    → contains_text (unique_from seen ids) id ≡ true
    → contains_text ids id ≡ true
unfolding unique_from contains_text
contains_unique_from seen [] id h = h
contains_unique_from seen (x ∷ xs) id h =
    ground (arith, contains_unique_from seen xs id, contains_unique_from (x ∷ seen) xs id)

module _ (sha256 : List ℕ → Text) (documents : List Document)
    (remote : Option (Text → Option Document)) where
  -- The chunk of these bytes is stored under its id.
  abbrev pub IsChunkStored : List ℕ → Type 0
  IsChunkStored c =
      get_document documents (chunk_id (sha256 c)) ≡ some (chunk (file_chunk sha256 c))

  certified : (c : List ℕ) → is_certified sha256 (file_chunk sha256 c) (chunk_id (sha256 c)) ≡ true
  unfolding is_certified file_chunk
  certified c = rw (same_text_refl (sha256 c), same_text_refl (chunk_id (sha256 c))) refl

  verified :
      (c : List ℕ)
      → verify_chunk sha256 documents remote
          (some (chunk (file_chunk sha256 c)))
          (chunk_id (sha256 c))
        ≡ some (file_chunk sha256 c)
  unfolding verify_chunk
  verified c = if-true _ _ _ (certified c)

  fetch_stored :
      (c : List ℕ)
      → IsChunkStored c
      → fetch_chunk sha256 documents remote (chunk_id (sha256 c)) ≡ ok (file_chunk sha256 c)
  unfolding fetch_chunk
  fetch_stored c e = rw (e, verified c, fetch_chunk) refl

  -- The bytes that a fetch gives.
  got : Text → List ℕ
  got id = elim (fetch_chunk sha256 documents remote id) [ ok c ↦ c.bytes | fail e ↦ [] ]

  abbrev pub IsFetched : Text → Type 0
  IsFetched id = (c : FileChunk) × (fetch_chunk sha256 documents remote id ≡ ok c)

  got-fetch_chunk :
      (id : Text) (c : FileChunk) → fetch_chunk sha256 documents remote id ≡ ok c → got id ≡ c.bytes
  unfolding got
  got-fetch_chunk id c e = rw (e, got) refl

  fetch_all_fetched :
      (ids : List Text)
      → ((id : Text) → contains_text ids id ≡ true → IsFetched id)
      → fetch_all sha256 documents remote ids ≡ ok (pairs_of got ids)
  unfolding fetch_all pairs_of contains_text ◌then_do◌
  fetch_all_fetched [] h = refl
  fetch_all_fetched (x ∷ xs) h =
      let (c, e) = h x (first_in x xs) in
      let rest = fetch_all_fetched xs (λ id i. h id (later_in x xs id i)) in
      rw (e, rest, ◌then_do◌)
        (ap (λ b. ok ((x, b) ∷ pairs_of got xs)) (sym (got-fetch_chunk x c e)))

  abbrev pub chunk_ids_of : List (List ℕ) → List Text
  chunk_ids_of pieces = map (λ c. chunk_id (sha256 c)) pieces

  chunk_of_id :
      (pieces : List (List ℕ)) (id : Text)
      → contains_text (chunk_ids_of pieces) id ≡ true
      → (c : List ℕ) × In c pieces × (chunk_id (sha256 c) ≡ id)
  unfolding contains_text
  chunk_of_id [] id h = cc
  chunk_of_id (c ∷ cs) id h = elim (Bool-cases (same_text (chunk_id (sha256 c)) id)) [
    | inl e ↦ (c, inl refl, (same_text_iff _ _).0 e)
    | inr e ↦ let rest = chunk_of_id cs id (ground arith) in (rest.0, inr rest.1, rest.2)
  ]

  id_of_chunk :
      (pieces : List (List ℕ)) (c : List ℕ)
      → In c pieces
      → contains_text (chunk_ids_of pieces) (chunk_id (sha256 c)) ≡ true
  unfolding contains_text
  id_of_chunk [] c i = absurd i
  id_of_chunk (x ∷ xs) c (inl e) = rw e (first_in (chunk_id (sha256 x)) (chunk_ids_of xs))
  id_of_chunk (x ∷ xs) c (inr i) = later_in _ (chunk_ids_of xs) _ (id_of_chunk xs c i)

  pieces_again :
      (by_id : List (Text × List ℕ)) (pieces : List (List ℕ))
      → ((c : List ℕ) → In c pieces → bytes_of_id by_id (chunk_id (sha256 c)) ≡ c)
      → map (bytes_of_id by_id) (chunk_ids_of pieces) ≡ pieces
  pieces_again by_id [] h = refl
  pieces_again by_id (c ∷ cs) h =
      ap₂ (λ x xs. x ∷ xs) (h c (inl refl)) (pieces_again by_id cs (λ d i. h d (inr i)))

  -- A version whose chunks are all stored, and whose hash is that of their bytes together, is read back
  -- byte for byte, also where chunks repeat, and whatever remote peers answer.
  pub read_file_version-concat :
      (version : VersionBody) (pieces : List (List ℕ))
      → ((c : List ℕ) → In c pieces → IsChunkStored c)
      → version.chunk_ids ≡ chunk_ids_of pieces
      → version.content_hash ≡ sha256 (concat pieces)
      → read_file_version sha256 documents remote version ≡ ok (concat pieces)
  unfolding read_file_version ◌then_do◌ contains_text file_chunk
  read_file_version-concat version pieces stored ids hash =
      let unique = unique_from [] version.chunk_ids in
      let fetched : (id : Text) → contains_text unique id ≡ true → IsFetched id = λ id i.
        is_fetched id (
          chunk_of_id pieces id (
            ap (λ l. contains_text l id) (sym ids)
            ∙ contains_unique_from [] version.chunk_ids id i)) in
      let same : map (bytes_of_id (pairs_of got unique)) version.chunk_ids ≡ pieces =
        ap (map (bytes_of_id (pairs_of got unique))) ids
        ∙ pieces_again _ pieces (λ c i.
          piece c i
            (ap (λ l. contains_text l (chunk_id (sha256 c))) ids ∙ id_of_chunk pieces c i)) in
      rw (fetch_all_fetched unique fetched, ◌then_do◌)
        (checked (concat (map (bytes_of_id (pairs_of got unique)) version.chunk_ids))
          version.content_hash (ap concat same) hash)
    where
      is_fetched :
          (id : Text) → ((c : List ℕ) × In c pieces × (chunk_id (sha256 c) ≡ id)) → IsFetched id
      is_fetched id h = rw (sym h.2) (file_chunk sha256 h.0, fetch_stored h.0 (stored h.0 h.1))

      listed : {b : Bool} → (false ≡ true) ⊎ (b ≡ true) → b ≡ true
      listed (inl e) = cc
      listed (inr e) = e

      piece :
          (c : List ℕ)
          → In c pieces
          → contains_text version.chunk_ids (chunk_id (sha256 c)) ≡ true
          → bytes_of_id (pairs_of got (unique_from [] version.chunk_ids)) (chunk_id (sha256 c)) ≡ c
      piece c i h =
          bytes_of_pairs got (unique_from [] version.chunk_ids) (chunk_id (sha256 c))
            (listed (unique_from_contains [] version.chunk_ids (chunk_id (sha256 c)) h))
          ∙ got-fetch_chunk (chunk_id (sha256 c)) (file_chunk sha256 c)
              (fetch_stored c (stored c i))

      checked :
          (b : List ℕ) (h : Text)
          → b ≡ concat pieces
          → h ≡ sha256 (concat pieces)
          → (if same_text (sha256 b) h then ok b else fail (coded eio)) ≡ ok (concat pieces)
      checked b h e f = rw (e, f, same_text_refl (sha256 (concat pieces))) refl
