-- ===== src/SharedFs/Mount/Target.antt =====
-- packages/shared-fs/library/src/mount-backend.ts: the target of a mount, and the paths of the
-- conflict directory.  The target is a parameter: what it keeps is the type `W`, a call that changes
-- it gives its next state, and a call answers or fails.

use peerbit_examples.Prelude.{ℕ, Bool, false, List, [], ◌∷◌, Option, none, some, if◌then◌else◌}
use peerbit_examples.SharedFs.Path.Split.{Text, slash, same_text}
use peerbit_examples.SharedFs.Path.{normalize_fs_path, path_segments, dirname, basename}
use peerbit_examples.SharedFs.Conflicts.{decode_conflict_path_name}
use peerbit_examples.SharedFs.Mount.Buffer.{
  Code, enoent, eio, eisdir, Fault, coded, range_error, Outcome, ok, fail,
}
use peerbit_examples.SharedFs.Mount.Commit.{Reply}

pub data Kind : Type 0 where
  directory : Kind
  file : Kind

pub record EntryInfo : Type 0 where
  pub name : Text
  pub kind : Kind
  pub size : ℕ
  pub updated_at : ℕ
  pub head_version_ids : Option (List Text)
  pub content_hash : Option Text

pub record VersionInfo : Type 0 where
  pub id : Text
  pub size : ℕ
  pub created_at : ℕ
  pub deleted : Bool

pub record Conflict : Type 0 where
  pub path : Text
  pub versions : List VersionInfo

-- An error that is neither a `SharedFsBackendError` nor a `SharedFsError` stands as `range_error`.
pub record Target (W : Type 0) : Type 0 where
  pub read_file : W → Text → Outcome (Option (List ℕ))
  pub read_version : W → Text → Text → Outcome (Option (List ℕ))
  pub write_file : W → Text → List ℕ → Option (List Text) → W × Reply
  pub make_directory : W → Text → W × Outcome {0} Unit
  pub remove : W → Text → W × Outcome {0} Unit
  pub move : W → Text → Text → W × Outcome {0} Unit
  pub list : W → Text → Outcome (List EntryInfo)
  pub conflicts : W → Option Text → Outcome (List Conflict)
  pub stat : Option (W → Text → Outcome (Option EntryInfo))

-- The next step of a call that may fail.
infixl 20 ◌then_do◌
unfoldable pub ◌then_do◌ {ℓ κ} : {A : Type ℓ} {B : Type κ} → Outcome A → (A → Outcome B) → Outcome B
o then_do f = elim o [ ok a ↦ f a | fail e ↦ fail e ]

-- `toBackendError`
unfoldable pub to_backend_error : Fault → Code
to_backend_error (coded c) = c
to_backend_error range_error = eio

unfoldable pub wrap {ℓ} : {A : Type ℓ} → Outcome A → Outcome A
wrap (ok a) = ok a
wrap (fail e) = fail (coded (to_backend_error e))

abbrev pub conflicts_dir : Text
conflicts_dir =
    b'.' ∷ b'p' ∷ b'e' ∷ b'e' ∷ b'r' ∷ b'b' ∷ b'i' ∷ b't' ∷ b'-' ∷ b'c' ∷ b'o' ∷ b'n' ∷ b'f' ∷ b'l'
    ∷ b'i' ∷ b'c' ∷ b't' ∷ b's' ∷ []

abbrev pub is_first : List Text → Bool
is_first [] = false
is_first (p ∷ ps) = same_text p conflicts_dir

unfoldable pub is_conflict_path : Text → Bool
is_conflict_path path = is_first (path_segments path)

pub data ConflictPath : Type 0 where
  root : ConflictPath
  path_of : Text → ConflictPath
  version_of : Text → Text → ConflictPath
  invalid : ConflictPath

-- `decodeConflictPathName`, whose `URIError` is no backend error.
unfoldable pub decoded : Text → Outcome Text
decoded name = elim (decode_conflict_path_name name) [ none ↦ fail range_error | some p ↦ ok p ]

unfoldable pub conflict_path_of : List Text → Outcome ConflictPath
conflict_path_of [] = ok root
conflict_path_of (p ∷ []) = decoded p then_do (λ f. ok (path_of f))
conflict_path_of (p ∷ v ∷ []) = decoded p then_do (λ f. ok (version_of f v))
conflict_path_of (p ∷ v ∷ x ∷ rest) = decoded p then_do (λ f. ok invalid)

unfoldable pub parse_segments : List Text → Outcome (Option ConflictPath)
parse_segments [] = ok none
parse_segments (p ∷ ps) =
    if same_text p conflicts_dir then conflict_path_of ps then_do (λ c. ok (some c)) else ok none

unfoldable pub parse_conflict_path : Text → Outcome (Option ConflictPath)
parse_conflict_path path = parse_segments (path_segments path)

unfoldable pub find_name : List EntryInfo → Text → Option EntryInfo
find_name [] name = none
find_name (e ∷ es) name = if same_text e.name name then some e else find_name es name

unfoldable pub find_path : List Conflict → Text → Option Conflict
find_path [] p = none
find_path (c ∷ cs) p = if same_text c.path p then some c else find_path cs p

unfoldable pub find_version : List VersionInfo → Text → Option VersionInfo
find_version [] id = none
find_version (v ∷ vs) id = if same_text v.id id then some v else find_version vs id

module _ {W : Type 0} (target : Target W) (w : W) where
  unfoldable pub find_entry : Text → Outcome (Option EntryInfo)
  find_entry path =
      let normalized = normalize_fs_path path in
      if same_text normalized (slash ∷ []) then ok none else elim target.stat [
        | some stat ↦ stat w normalized
        | none ↦
            target.list w (dirname normalized)
            then_do (λ entries. ok (find_name entries (basename normalized)))
      ]

  unfoldable pub conflict_for_path : Text → Outcome (Option Conflict)
  conflict_for_path file_path =
      target.conflicts w (some file_path) then_do (λ cs. ok (find_path cs file_path))

  unfoldable pub read_parsed : Option ConflictPath → Outcome (List ℕ)
  read_parsed (some (version_of file_path id)) =
      target.read_version w file_path id
      then_do (λ found. elim found [ none ↦ fail (coded enoent) | some content ↦ ok content ])
  read_parsed _ = fail (coded eisdir)

  unfoldable pub read_conflict_file : Text → Outcome (List ℕ)
  read_conflict_file path = parse_conflict_path path then_do read_parsed
