-- ===== src/SharedFs/Mount/Buffer.antt =====
-- packages/shared-fs/library/src/mount-backend.ts: the buffer of an open file. A `Uint8Array` is its
-- size with its bytes by index; a read behind its end gives 0 here, and none of the code does one.
pub mod Laws
mod Tests
use peerbit_examples.Prelude.{
  ℕ, zero, suc, ◌+◌, ◌-◌, ◌*◌, max, min, Bool, true, false, ◌&&◌, List, [], ◌∷◌, Option, none, some,
  ltb, leb, ◌==◌, if◌then◌else◌, length,
}
use peerbit_examples.SharedFs.Path.Split.{Text}

pub data Code : Type 0 where
  enoent : Code
  eio : Code
  eexist : Code
  eisdir : Code
  enotdir : Code
  enotempty : Code
  einval : Code
  eacces : Code
  ebadf : Code
  erofs : Code

-- A `SharedFsBackendError`, or the `RangeError` of `Uint8Array.set`.
pub data Fault : Type 0 where
  coded : Code → Fault
  range_error : Fault

pub data Outcome {ℓ} (A : Type ℓ) : Type ℓ where
  ok : A → Outcome A
  fail : Fault → Outcome A

pub record Bytes : Type 0 where
  pub size : ℕ
  pub byte : ℕ → ℕ

pub record OpenHandle : Type 0 where
  pub path : Text
  pub buffer : Bytes
  pub length : ℕ
  pub write : Bool
  pub dirty : Bool
  pub read_only : Bool
  pub base_version_ids : Option (List Text)
  pub base_content_hash : Option Text
  pub committing : Bool

-- An offset, which the file protocol gives as an integer.
pub data Offset : Type 0 where
  start : ℕ → Offset
  negative : Offset

-- A size, which may be any JavaScript number that is an integer or not finite.
pub data Number : Type 0 where
  nat : ℕ → Number
  below_zero : Number
  not_finite : Number

-- Whether `i` lies in `[from, to)`.
abbrev pub is_in : ℕ → ℕ → ℕ → Bool
is_in from to i = leb from i && ltb i to

-- `new Uint8Array(size)`
unfoldable pub zeros : ℕ → Bytes
zeros n = record { size = n; byte = λ i. 0 }

-- `fill(0, from, to)`
unfoldable pub fill : Bytes → ℕ → ℕ → Bytes
fill b from to = record b { byte = λ i. if is_in from to i then 0 else b.byte i }

abbrev pub get_or : List ℕ → ℕ → ℕ
get_or [] i = 0
get_or (x ∷ xs) zero = x
get_or (x ∷ xs) (suc i) = get_or xs i

-- `set(data, offset)`
unfoldable pub set : Bytes → List ℕ → ℕ → Outcome Bytes
set b chunk offset =
    let end = offset + length chunk in
    if ltb b.size end
    then fail range_error
    else ok (record b {
      byte = λ i. if is_in offset end i then get_or chunk (i - offset) else b.byte i;
    })

-- The bytes of `subarray(from, from + count)`.
unfoldable pub slice : Bytes → ℕ → ℕ → List ℕ
slice b from zero = []
slice b from (suc count) = b.byte from ∷ slice b (suc from) count

-- The loop that doubles `next` up to the capacity.
unfoldable pub doubled : ℕ → ℕ → ℕ → ℕ
doubled zero next capacity = next
doubled (suc fuel) next capacity =
    let rest = doubled fuel (next * 2) capacity in if ltb next capacity then rest else next

unfoldable pub grow_to : OpenHandle → ℕ → OpenHandle
unfolding doubled
grow_to h capacity = if leb capacity h.buffer.size then h else record h {
  buffer = record {
    size = doubled capacity (max (h.buffer.size * 2) 65536) capacity;
    byte = λ i. if ltb i h.length then h.buffer.byte i else 0;
  };
}

unfoldable pub content_of : OpenHandle → List ℕ
content_of h = slice h.buffer 0 h.length

-- The new length, with the buffer zeroed between it and the old one.
unfoldable pub resized : OpenHandle → ℕ → OpenHandle
resized h n =
    let grown = grow_to h n in
    record (if ltb n h.length
      then record h { buffer = fill h.buffer n h.length }
      else if ltb h.length n
      then record grown { buffer = fill grown.buffer h.length n }
      else h) { length = n; dirty = true }

unfoldable pub resize_handle : OpenHandle → Number → Outcome OpenHandle
resize_handle h (nat n) = ok (resized h n)
resize_handle h below_zero = fail (coded einval)
resize_handle h not_finite = fail (coded einval)

-- `read` of a handle that is open.
unfoldable pub read_handle : OpenHandle → ℕ → ℕ → List ℕ
read_handle h count offset =
    if leb h.length offset
    then []
    else slice h.buffer offset (min h.length (offset + count) - offset)

-- The body of `write` behind its guards.
unfoldable pub write_at : OpenHandle → List ℕ → ℕ → Outcome OpenHandle
write_at h chunk offset =
    let end = offset + length chunk in
    let grown = grow_to h end in
    let gap_free =
      if ltb grown.length offset then fill grown.buffer grown.length offset else grown.buffer in
    elim (set gap_free chunk offset) [
      | fail e ↦ fail e
      | ok b ↦ ok (record grown { buffer = b; length = max grown.length end; dirty = true })
    ]

-- `write` of a handle that is open.
unfoldable pub write_handle : OpenHandle → List ℕ → Offset → Outcome (OpenHandle × ℕ)
write_handle h chunk (start offset) =
    if h.write
    then elim (write_at h chunk offset) [ fail e ↦ fail e | ok g ↦ ok (g, length chunk) ]
    else fail (coded eacces)
write_handle h chunk negative = if h.write then fail (coded einval) else fail (coded eacces)
