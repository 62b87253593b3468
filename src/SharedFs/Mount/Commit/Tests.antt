-- ===== src/SharedFs/Mount/Commit/Tests.antt =====
-- A session of a concrete handle: a write lands while a commit awaits the target.
use peerbit_examples.Prelude.{◌≡◌, ℕ, refl, inl, true, false, none, some, List, [], ◌∷◌}
use peerbit_examples.SharedFs.Path.Split.{Text, same_text}
use peerbit_examples.SharedFs.Mount.Buffer.{
  OpenHandle, nat, resized, resize_handle, content_of, slice, fill,
}
use peerbit_examples.SharedFs.Mount.Commit.{
  Reply, written, Session, Steps, stay, go, begins, resizes, finishes, begin_commit, finish_commit,
  is_hash, has_one_base, IsReport,
}
use peerbit_examples.SharedFs.Mount.Commit.Laws.{no_write_lost}

-- A stand-in for the hash that tells the contents below apart.
abbrev pub first_hash : List ℕ → Text
first_hash xs = xs

abbrev pub edited : OpenHandle
edited = record {
  path = 47 ∷ 97 ∷ [];
  buffer = record { size = 5; byte = λ i. 7 };
  length = 2;
  write = true;
  dirty = true;
  read_only = false;
  base_version_ids = none;
  base_content_hash = none;
  committing = false;
}

abbrev s0 : Session
s0 = record { handle = edited; in_flight = none }

abbrev hash : Text
hash = 7 ∷ 7 ∷ []

abbrev s1 : Session
s1 = record { handle = record edited { dirty = false; committing = true }; in_flight = some hash }

abbrev s2 : Session
s2 = record s1 { handle = resized s1.handle 1 }

abbrev s3 : Session
s3 = record s2 { handle = finish_commit hash s2.handle (written none none); in_flight = none }

-- The write left the handle dirty, so it is committed again.
abbrev s3_handle : OpenHandle
s3_handle = record s3.handle { dirty = false; committing = true }

abbrev s3_sent : Session
s3_sent = record { handle = s3_handle; in_flight = some (7 ∷ []) }

abbrev last_reply : Reply
last_reply = written (some (b'v' ∷ [])) none

abbrev s4 : Session
s4 = record { handle = finish_commit (7 ∷ []) s3_handle last_reply; in_flight = none }

session : Steps first_hash s0 s4
unfolding begin_commit resized fill finish_commit same_text is_hash has_one_base content_of slice
    resize_handle IsReport
session = go s0 s1 s4 (begins s0 s1.handle hash refl refl) (
    go s1 s2 s4 (resizes s1 (nat 1) s2.handle refl) (
      go s2 s3 s4 (finishes s2 hash (written none none) refl (inl refl)) (
        go s3 s3_sent s4 (begins s3 s3_handle (7 ∷ []) refl refl)
          (go s3_sent s4 s4 (finishes s3_sent (7 ∷ []) last_reply refl (inl refl)) (stay s4)))))

no_write_lost_example : s4.handle.base_content_hash ≡ some (first_hash (content_of s4.handle))
unfolding finish_commit resized
no_write_lost_example = no_write_lost first_hash s0 s4 refl session refl refl
