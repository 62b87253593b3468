-- ===== src/SharedFs/Mount/Buffer/Laws.antt =====
-- The bytes that a file shows; lemmas on reads, writes and resizes.
use peerbit_examples.Prelude.{
  ℕ, zero, suc, ◌+◌, ◌-◌, ◌*◌, ◌<◌, ◌≤◌, ◌≡◌, refl, ap, ap₂, ◌∙◌, max, Bool, true, false, List, [],
  ◌∷◌, arith, ltb, leb, if◌then◌else◌, length, Bool-cases, inl, inr,
}
use peerbit_examples.SharedFs.Mount.Buffer.{
  Bytes, OpenHandle, Outcome, ok, fail, coded, eacces, start, nat, is_in, fill, get_or, set, slice,
  doubled, grow_to, resized, resize_handle, read_handle, write_at, write_handle,
}

-- The length fits the buffer.
unfoldable pub IsFitting : OpenHandle → Type 0
IsFitting h = h.length ≤ h.buffer.size

-- The byte that a file shows at an index; behind its end, 0.
unfoldable pub shown : OpenHandle → ℕ → ℕ
shown h i = if ltb i h.length then h.buffer.byte i else 0

doubled-ge :
    (fuel next capacity : ℕ)
    → 1 ≤ next
    → capacity ≤ next + fuel
    → capacity ≤ doubled fuel next capacity
unfolding doubled
doubled-ge zero next capacity h g = omega (arith, g)
doubled-ge (suc fuel) next capacity h g = elim (Bool-cases (ltb next capacity)) [
  | inl e ↦ rw e (doubled-ge fuel (next * 2) capacity (omega (arith, h)) (omega (arith, h, g)))
  | inr e ↦ rw e (ground arith)
]

-- The buffer that `growTo` leaves has the capacity that was asked for.
pub grow_to_size : (h : OpenHandle) (capacity : ℕ) → capacity ≤ (grow_to h capacity).buffer.size
unfolding grow_to
grow_to_size h capacity = elim (Bool-cases (leb capacity h.buffer.size)) [
  | inl e ↦ rw e (ground arith)
  | inr e ↦
      rw e
        (doubled-ge capacity (max (h.buffer.size * 2) 65536) capacity (omega arith) (omega arith))
]

grow_to_length : (h : OpenHandle) (capacity : ℕ) → (grow_to h capacity).length ≡ h.length
unfolding grow_to
grow_to_length h capacity = elim (Bool-cases (leb capacity h.buffer.size)) [
  | inl e ↦ rw e refl
  | inr e ↦ rw e refl
]

grow_to_byte :
    (h : OpenHandle) (capacity i : ℕ)
    → i < h.length
    → (grow_to h capacity).buffer.byte i ≡ h.buffer.byte i
unfolding grow_to
grow_to_byte h capacity i g = elim (Bool-cases (leb capacity h.buffer.size)) [
  | inl e ↦ rw e refl
  | inr e ↦ rw e (ground arith)
]

-- What a resize leaves: the bytes before the new length, and zeros behind them.
pub record IsResized (h : OpenHandle) (n : ℕ) (g : OpenHandle) : Type 0 where
  pub fits : IsFitting g
  pub new_length : g.length ≡ n
  pub marked : g.dirty ≡ true
  pub same_rights : (g.write ≡ h.write) × (g.read_only ≡ h.read_only)
  pub bytes : (i : ℕ) → shown g i ≡ (if ltb i n then shown h i else 0)

grow_to_rights :
    (h : OpenHandle) (capacity : ℕ)
    → ((grow_to h capacity).write ≡ h.write) × ((grow_to h capacity).read_only ≡ h.read_only)
unfolding grow_to
grow_to_rights h capacity = elim (Bool-cases (leb capacity h.buffer.size)) [
  | inl e ↦ rw e (refl, refl)
  | inr e ↦ rw e (refl, refl)
]

pub resized-IsResized : (h : OpenHandle) (n : ℕ) → IsFitting h → IsResized h n (resized h n)
unfolding IsFitting resized shown fill
resized-IsResized h n f =
    let s = grow_to_size h n in
    elim (Bool-cases (ltb n h.length)) [
      | inl e ↦ rw e (record {
        fits = ground arith;
        new_length = refl;
        marked = refl;
        same_rights = (refl, refl);
        bytes = λ i. ground arith;
      })
      | inr e ↦ elim (Bool-cases (ltb h.length n)) [
        | inl e' ↦
            rw (e, e')
              (record {
                fits = s;
                new_length = refl;
                marked = refl;
                same_rights = grow_to_rights h n;
                bytes = λ i. ground (arith, grow_to_byte h n i);
              })
        | inr e' ↦
            rw (e, e')
              (record {
                fits = ground arith;
                new_length = refl;
                marked = refl;
                same_rights = (refl, refl);
                bytes = λ i. ground arith;
              })
      ]
    ]

-- What a write leaves: the chunk at its offset, the old bytes elsewhere, and zeros in a gap.
pub record IsWritten (h : OpenHandle) (chunk : List ℕ) (offset : ℕ) (g : OpenHandle) : Type 0 where
  pub fits : IsFitting g
  pub new_length : g.length ≡ max h.length (offset + length chunk)
  pub marked : g.dirty ≡ true
  pub same_rights : (g.write ≡ h.write) × (g.read_only ≡ h.read_only)
  pub bytes :
      (i : ℕ)
      → shown g i
        ≡ (if is_in offset (offset + length chunk) i then get_or chunk (i - offset) else shown h i)

-- A write with a buffer behind the gap that is large enough.
module _ (h grown : OpenHandle) (chunk : List ℕ) (offset : ℕ) where
  gap_free : Bytes
  gap_free = if ltb grown.length offset then fill grown.buffer grown.length offset else grown.buffer

  placed : OpenHandle
  placed = record grown {
    buffer = record gap_free {
      byte = λ i.
          if is_in offset (offset + length chunk) i
          then get_or chunk (i - offset)
          else gap_free.byte i;
    };
    length = max grown.length (offset + length chunk);
    dirty = true;
  }

  placed-IsWritten :
      offset + length chunk ≤ grown.buffer.size
      → grown.length ≡ h.length
      → IsFitting grown
      → ((i : ℕ) → i < h.length → grown.buffer.byte i ≡ h.buffer.byte i)
      → (grown.write ≡ h.write) × (grown.read_only ≡ h.read_only)
      → IsWritten h chunk offset placed
  unfolding placed gap_free IsFitting shown fill
  placed-IsWritten s e f b r = elim (Bool-cases (ltb grown.length offset)) [
    | inl g ↦ rw g (record {
      fits = ground arith;
      new_length = ground arith;
      marked = refl;
      same_rights = r;
      bytes = λ i. ground (arith, b i);
    })
    | inr g ↦ rw g (record {
      fits = ground arith;
      new_length = ground arith;
      marked = refl;
      same_rights = r;
      bytes = λ i. ground (arith, b i);
    })
  ]

grow_to-IsFitting : (h : OpenHandle) (capacity : ℕ) → IsFitting h → IsFitting (grow_to h capacity)
unfolding IsFitting grow_to
grow_to-IsFitting h capacity f = elim (Bool-cases (leb capacity h.buffer.size)) [
  | inl e ↦ rw e f
  | inr e ↦
      let s : capacity ≤ doubled capacity (max (h.buffer.size * 2) 65536) capacity =
        doubled-ge capacity (max (h.buffer.size * 2) 65536) capacity (omega arith) (omega arith) in
      rw e (ground arith)
]

with_buffer : OpenHandle → ℕ → Outcome Bytes → Outcome OpenHandle
with_buffer grown end o = elim o [
  | fail e ↦ fail e
  | ok b ↦ ok (record grown { buffer = b; length = max grown.length end; dirty = true })
]

placed-set :
    (h grown : OpenHandle) (chunk : List ℕ) (offset : ℕ)
    → offset + length chunk ≤ grown.buffer.size
    → with_buffer grown (offset + length chunk) (set (gap_free h grown chunk offset) chunk offset)
      ≡ ok (placed h grown chunk offset)
unfolding with_buffer set placed gap_free fill
placed-set h grown chunk offset s =
    let e : ltb grown.buffer.size (offset + length chunk) ≡ false = ground arith in
    elim (Bool-cases (ltb grown.length offset)) [ inl g ↦ rw (g, e) refl | inr g ↦ rw (g, e) refl ]

write_at_fits :
    (h : OpenHandle) (chunk : List ℕ) (offset : ℕ)
    → IsFitting h
    → (g : OpenHandle) × (write_at h chunk offset ≡ ok g) × IsWritten h chunk offset g
unfolding write_at with_buffer gap_free
write_at_fits h chunk offset f =
    let end = offset + length chunk in
    let grown = grow_to h end in
    let s : end ≤ grown.buffer.size = grow_to_size h end in
    (
      placed h grown chunk offset,
      placed-set h grown chunk offset s,
      placed-IsWritten h grown chunk offset s (grow_to_length h end) (grow_to-IsFitting h end f)
          (λ i. grow_to_byte h end i) (grow_to_rights h end),
    )

writable :
    (b : Bool)
    → b ≡ true
    → {r : Outcome (OpenHandle × ℕ)} (o : Outcome (OpenHandle × ℕ)) → o ≡ r
    → (if b then o else fail (coded eacces)) ≡ r
writable b w o e = rw w e

-- A write to a handle that is open for writing, and whose length fits its buffer, succeeds: the chunk
-- stands at its offset, a gap before it shows zeros, every other byte is as it was, the length covers
-- the chunk and fits the buffer, and the handle is dirty and keeps its rights.
pub write_handle-IsWritten :
    (h : OpenHandle) (chunk : List ℕ) (offset : ℕ)
    → h.write ≡ true
    → IsFitting h
    → (g : OpenHandle) × (write_handle h chunk (start offset) ≡ ok (g, length chunk))
      × IsWritten h chunk offset g
unfolding write_handle
write_handle-IsWritten h chunk offset w f =
    let (g, e, i) = write_at_fits h chunk offset f in (g, writable h.write w _ (rw e refl), i)

-- A resize of a handle whose length fits its buffer, to a size that is a natural number, succeeds: it
-- keeps the bytes before the new length, and what it adds shows zeros, also where a longer file was
-- before; the handle is dirty, fits its buffer and keeps its rights.
pub resize_handle-IsResized :
    (h : OpenHandle) (n : ℕ)
    → IsFitting h
    → (g : OpenHandle) × (resize_handle h (nat n) ≡ ok g) × IsResized h n g
unfolding resize_handle
resize_handle-IsResized h n f = (resized h n, refl, resized-IsResized h n f)

slice_chunk :
    (b : Bytes) (from : ℕ) (chunk : List ℕ)
    → ((i : ℕ) → i < length chunk → b.byte (from + i) ≡ get_or chunk i)
    → slice b from (length chunk) ≡ chunk
unfolding slice
slice_chunk b from [] h = refl
slice_chunk b from (x ∷ xs) h =
    ap₂ ◌∷◌ (ap b.byte (omega arith) ∙ h 0 (omega arith))
      (slice_chunk b (suc from) xs (λ i g. ap b.byte (omega arith) ∙ h (suc i) (omega (arith, g))))

read_shown :
    (h : OpenHandle) (chunk : List ℕ) (offset : ℕ)
    → offset + length chunk ≤ h.length
    → ((i : ℕ) → i < length chunk → shown h (offset + i) ≡ get_or chunk i)
    → read_handle h (length chunk) offset ≡ chunk
unfolding read_handle shown
read_shown h [] offset s b = elim (Bool-cases (leb h.length offset)) [
  | inl e ↦ rw e refl
  | inr e ↦ rw e (
      ap (slice h.buffer offset) (omega (arith, s))
      ∙ slice_chunk h.buffer offset [] (λ i g. omega (arith, g)))
]
read_shown h (x ∷ xs) offset s b =
    let e : leb h.length offset ≡ false = ground (arith, s) in
    rw e (
      ap (slice h.buffer offset) (omega (arith, s))
      ∙ slice_chunk h.buffer offset (x ∷ xs) (λ i g. ground (arith, b i g, s)))

-- What is written to a writable handle whose length fits its buffer is read back, at any offset.
pub read_handle-write_handle :
    (h : OpenHandle) (chunk : List ℕ) (offset : ℕ)
    → h.write ≡ true
    → IsFitting h
    → (g : OpenHandle) × (write_handle h chunk (start offset) ≡ ok (g, length chunk))
      × (read_handle g (length chunk) offset ≡ chunk)
read_handle-write_handle h chunk offset w f =
    let (g, e, i) = write_handle-IsWritten h chunk offset w f in
    (
      g,
      e,
      read_shown g chunk offset (omega (arith, i.new_length))
          (λ k l. i.bytes (offset + k) ∙ found k l),
    )
  where
    found :
        (k : ℕ)
        → k < length chunk
        → (if is_in offset (offset + length chunk) (offset + k)
            then get_or chunk (offset + k - offset)
            else shown h (offset + k))
          ≡ get_or chunk k
    found k l =
        let e : is_in offset (offset + length chunk) (offset + k) ≡ true = ground (arith, l) in
        rw e (ap (get_or chunk) (omega arith))
