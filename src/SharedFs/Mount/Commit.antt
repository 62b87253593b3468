-- ===== src/SharedFs/Mount/Commit.antt =====
-- packages/shared-fs/library/src/mount-backend.ts: `commitNow` and `commit`.  A commit awaits the
-- target's `writeFile`; the half before and the half after the await are functions, and what may come
-- between them is a relation on sessions of one handle.  A commit that awaits nothing is one step.
pub mod Laws
pub mod Tests
use peerbit_examples.Prelude.{
  ℕ, ◌≡◌, ◌⊎◌, Bool, true, false, ◌&&◌, List, [], ◌∷◌, Option, none, some, leb, if◌then◌else◌,
  length, or_else,
}
use peerbit_examples.SharedFs.Path.Split.{Text, same_text}
use peerbit_examples.SharedFs.Mount.Buffer.{
  OpenHandle, Outcome, ok, Fault, coded, erofs, Offset, Number, content_of, resize_handle,
  write_handle,
}

-- What `writeFile` answers: the version's id and hash, each where the result has it, or an error.
pub data Reply : Type 0 where
  written : Option Text → Option Text → Reply
  refused : Fault → Reply

-- How the half before the await ends; `writing` carries the hash of what is sent.
pub data Begun : Type 0 where
  idle : Begun
  read_only_path : Begun
  unchanged : OpenHandle → Begun
  writing : OpenHandle → Text → Begun

-- `(baseVersionIds?.length ?? 0) <= 1`
unfoldable pub has_one_base : Option (List Text) → Bool
has_one_base none = true
has_one_base (some ids) = leb (length ids) 1

unfoldable pub is_hash : Option Text → Text → Bool
is_hash none hash = false
is_hash (some base) hash = same_text base hash

module _ (sha256 : List ℕ → Text) where
  unfoldable pub begin_commit : OpenHandle → Begun
  begin_commit h =
      let hash = sha256 (content_of h) in
      if h.dirty
      then if h.read_only
        then read_only_path
        else if is_hash h.base_content_hash hash && has_one_base h.base_version_ids
        then unchanged (record h { dirty = false })
        else writing (record h { dirty = false; committing = true }) hash
      else idle

unfoldable pub new_base : Option Text → Option (List Text) → Option (List Text)
new_base none ids = ids
new_base (some id) ids = some (id ∷ [])

unfoldable pub finish_commit : Text → OpenHandle → Reply → OpenHandle
finish_commit hash h (written id reported) = record h {
  base_version_ids = new_base id h.base_version_ids;
  base_content_hash = some (or_else reported hash);
  committing = false;
}
finish_commit hash h (refused e) = record h { dirty = true; committing = false }

-- A handle, with the hash that was sent while `writeFile` is awaited.
pub record Session : Type 0 where
  pub handle : OpenHandle
  pub in_flight : Option Text

-- The target reports the hash of what it was sent, or none.
unfoldable pub IsReport : Text → Reply → Type 0
IsReport hash (written id reported) = (reported ≡ none) ⊎ (reported ≡ some hash)
IsReport hash (refused e) = Unit

pub data Step (sha256 : List ℕ → Text) : Session → Session → Type 0 where
  writes :
      (s : Session) (chunk : List ℕ) (offset : Offset) (g : OpenHandle) (n : ℕ)
      → write_handle s.handle chunk offset ≡ ok (g, n)
      → Step sha256 s (record s { handle = g })
  resizes :
      (s : Session) (size : Number) (g : OpenHandle)
      → resize_handle s.handle size ≡ ok g
      → Step sha256 s (record s { handle = g })
  keeps :
      (s : Session) (g : OpenHandle)
      → s.in_flight ≡ none
      → begin_commit sha256 s.handle ≡ unchanged g
      → Step sha256 s (record s { handle = g })
  begins :
      (s : Session) (g : OpenHandle) (hash : Text)
      → s.in_flight ≡ none
      → begin_commit sha256 s.handle ≡ writing g hash
      → Step sha256 s (record s { handle = g; in_flight = some hash })
  finishes :
      (s : Session) (hash : Text) (reply : Reply)
      → s.in_flight ≡ some hash
      → IsReport hash reply
      → Step sha256 s (record s { handle = finish_commit hash s.handle reply; in_flight = none })

-- Steps one after another.
pub data Steps (sha256 : List ℕ → Text) : Session → Session → Type 0 where
  stay : (s : Session) → Steps sha256 s s
  go : (s t u : Session) → Step sha256 s t → Steps sha256 t u → Steps sha256 s u
