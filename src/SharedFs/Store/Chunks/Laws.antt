-- ===== src/SharedFs/Store/Chunks/Laws.antt =====
-- Lemmas on the chunks of a content.
use peerbit_examples.Prelude.{
  ℕ, subst, zero, suc, ◌≤◌, ◌≡◌, refl, ap, ◌∙◌, List, [], ◌∷◌, ◌++◌, arith, All, length,
}
use peerbit_examples.SharedFs.Mount.Buffer.{nat, ok}
use peerbit_examples.SharedFs.Store.Chunks.{
  take, drop, chunks_from, or_one_empty, chunk_bytes, concat,
}

take-drop : (n : ℕ) (xs : List ℕ) → take n xs ++ drop n xs ≡ xs
unfolding take drop
take-drop zero xs = refl
take-drop (suc n) [] = refl
take-drop (suc n) (x ∷ xs) = ap (◌∷◌ x) (take-drop n xs)

length-take-le : (n : ℕ) (xs : List ℕ) → length (take n xs) ≤ n
unfolding take
length-take-le zero xs = omega arith
length-take-le (suc n) [] = omega arith
length-take-le (suc n) (x ∷ xs) = omega (arith, length-take-le n xs)

length-drop-le : (n : ℕ) (xs : List ℕ) → length (drop n xs) ≤ length xs
unfolding drop
length-drop-le zero xs = omega arith
length-drop-le (suc n) [] = omega arith
length-drop-le (suc n) (x ∷ xs) = omega (arith, length-drop-le n xs)

concat-chunks_from :
    (fuel n : ℕ) (bytes : List ℕ)
    → length bytes ≤ fuel
    → concat (chunks_from fuel (suc n) bytes) ≡ bytes
unfolding chunks_from concat drop take
concat-chunks_from zero n [] h = refl
concat-chunks_from zero n (b ∷ bs) h = absurd (omega arith)
concat-chunks_from (suc fuel) n [] h = refl
concat-chunks_from (suc fuel) n (b ∷ bs) h =
    ap (λ (r : List ℕ). b ∷ take n bs ++ r)
      (concat-chunks_from fuel n (drop n bs) (omega (arith, length-drop-le n bs, h)))
    ∙ ap (◌∷◌ b) (take-drop n bs)

-- A chunk of a content that is not empty has a byte, and at most as many as the chunk size.
abbrev pub IsSized : ℕ → List ℕ → Type 0
IsSized size c = (1 ≤ length c) × (length c ≤ size)

chunks_from-IsSized :
    (fuel n : ℕ) (bytes : List ℕ) → All (IsSized (suc n)) (chunks_from fuel (suc n) bytes)
unfolding chunks_from take
chunks_from-IsSized zero n bytes = tt
chunks_from-IsSized (suc fuel) n [] = tt
chunks_from-IsSized (suc fuel) n (b ∷ bs) = (
  (omega arith, omega (arith, length-take-le n bs)),
  chunks_from-IsSized fuel n (drop (suc n) (b ∷ bs)),
)

nonempty_chunks :
    (bytes : List ℕ) (cs : List (List ℕ)) → concat cs ≡ bytes → concat (or_one_empty cs) ≡ bytes
unfolding concat
nonempty_chunks bytes [] e = e
nonempty_chunks bytes (c ∷ cs) e = e

concat-chunk_bytes :
    (bytes : List ℕ) (n : ℕ)
    → (cs : List (List ℕ)) × (chunk_bytes bytes (nat (suc n)) ≡ ok cs) × (concat cs ≡ bytes)
unfolding chunk_bytes
concat-chunk_bytes bytes n = (
  or_one_empty (chunks_from (length bytes) (suc n) bytes),
  refl,
  nonempty_chunks bytes _ (concat-chunks_from (length bytes) n bytes (omega arith)),
)

All-or_one_empty :
    (n : ℕ) (cs : List (List ℕ))
    → All (IsSized (suc n)) cs
    → All (λ c. length c ≤ suc n) (or_one_empty cs)
All-or_one_empty n [] h = (omega arith, tt)
All-or_one_empty n (c ∷ cs) h = (h.0.1, tail cs h.1)
  where
    tail : (xs : List (List ℕ)) → All (IsSized (suc n)) xs → All (λ c. length c ≤ suc n) xs
    tail [] g = tt
    tail (x ∷ xs) g = (g.0.1, tail xs g.1)

chunk_bytes-le :
    (bytes : List ℕ) (n : ℕ) (cs : List (List ℕ))
    → chunk_bytes bytes (nat (suc n)) ≡ ok cs
    → All (λ c. length c ≤ suc n) cs
unfolding chunk_bytes
chunk_bytes-le bytes n cs e =
    subst (All (λ c. length c ≤ suc n)) (ok_injective e)
      (All-or_one_empty n _ (chunks_from-IsSized (length bytes) n bytes))
  where
    ok_injective : {a b : List (List ℕ)} → ok a ≡ ok b → a ≡ b
    ok_injective q = cc

-- With a chunk size that is positive, a content of any length is split into chunks that give it when they
-- are put together again, and every chunk fits the chunk size.
pub chunk_bytes-IsChunking :
    (bytes : List ℕ) (n : ℕ)
    → (cs : List (List ℕ)) × (chunk_bytes bytes (nat (suc n)) ≡ ok cs)
      × (concat cs ≡ bytes)
      × All (λ c. length c ≤ suc n) cs
chunk_bytes-IsChunking bytes n =
    let (cs, e, whole) = concat-chunk_bytes bytes n in (cs, e, whole, chunk_bytes-le bytes n cs e)
