-- ===== src/SharedFs/Mount/Buffer/Tests.antt =====
-- Buffers of concrete files.
use peerbit_examples.Prelude.{◌≡◌, refl, arith, true, false, none, [], ◌∷◌}
use peerbit_examples.SharedFs.Mount.Buffer.{
  OpenHandle, ok, start, nat, fill, slice, grow_to, read_handle, write_handle, content_of, resized,
  resize_handle,
}
use peerbit_examples.SharedFs.Mount.Buffer.Laws.{
  IsFitting, IsWritten, IsResized, write_handle-IsWritten, read_handle-write_handle,
  resize_handle-IsResized,
}

-- A file of three bytes in a buffer of five.
abbrev small : OpenHandle
small = record {
  path = 47 ∷ 97 ∷ [];
  buffer = record { size = 5; byte = λ i. 7 };
  length = 3;
  write = true;
  dirty = false;
  read_only = false;
  base_version_ids = none;
  base_content_hash = none;
  committing = false;
}

small-IsFitting : IsFitting small
unfolding IsFitting
small-IsFitting = omega arith

shrink_grow_test : content_of (resized (resized small 1) 4) ≡ 7 ∷ 0 ∷ 0 ∷ 0 ∷ []
unfolding resized fill content_of slice grow_to
shrink_grow_test = refl

write_handle-IsWritten_example :
    (g : OpenHandle) × (write_handle small (1 ∷ 2 ∷ []) (start 4) ≡ ok (g, 2))
    × IsWritten small (1 ∷ 2 ∷ []) 4 g
write_handle-IsWritten_example = write_handle-IsWritten small (1 ∷ 2 ∷ []) 4 refl small-IsFitting

read_handle-write_handle_example :
    (g : OpenHandle) × (write_handle small (1 ∷ 2 ∷ []) (start 4) ≡ ok (g, 2))
    × (read_handle g 2 4 ≡ 1 ∷ 2 ∷ [])
read_handle-write_handle_example =
    read_handle-write_handle small (1 ∷ 2 ∷ []) 4 refl small-IsFitting

resize_handle-IsResized_example :
    (g : OpenHandle) × (resize_handle small (nat 1) ≡ ok g) × IsResized small 1 g
resize_handle-IsResized_example = resize_handle-IsResized small 1 small-IsFitting
