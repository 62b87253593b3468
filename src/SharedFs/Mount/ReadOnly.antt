-- ===== src/SharedFs/Mount/ReadOnly.antt =====
-- packages/shared-fs/library/src/mount-backend.ts: the calls on a path beside the conflict directory.
mod Tests
use peerbit_examples.Prelude.{
  ℕ, ◌≡◌, refl, inl, inr, Bool, true, false, ◌||◌, if◌then◌else◌, List, none, some, Bool-cases,
  bool_split, if-true, if-false, arith, subst, sym, Option,
}
use peerbit_examples.SharedFs.Path.Split.{Text}
use peerbit_examples.SharedFs.Path.{normalize_fs_path}
use peerbit_examples.SharedFs.Mount.Buffer.{coded, erofs, Outcome, ok, fail}
use peerbit_examples.SharedFs.Mount.Target.{Target, EntryInfo, is_conflict_path, find_entry}
use peerbit_examples.SharedFs.Mount.Handles.{State, is_directory}
use peerbit_examples.SharedFs.Mount.Splits.{entry_split}
use peerbit_examples.SharedFs.Mount.Directory.{
  make_directory, remove_directory, unlink, rename, moved,
}

-- What the target keeps when it is asked to change a path outside the conflict directory.
pub record IsKept {W : Type 0} (target : Target W) (P : W → Type 0) : Type 0 where
  pub makes :
      (w : W) (path : Text)
      → is_conflict_path path ≡ false
      → P w
      → P (target.make_directory w path).0
  pub removes :
      (w : W) (path : Text) → is_conflict_path path ≡ false → P w → P (target.remove w path).0
  pub moves :
      (w : W) (from_path to_path : Text)
      → is_conflict_path from_path ≡ false
      → is_conflict_path to_path ≡ false
      → P w
      → P (target.move w from_path to_path).0

either : (a b : Bool) → a || b ≡ false → (a ≡ false) × (b ≡ false)
either a b e = (ground arith, ground arith)

module _ {W : Type 0} (target : Target W) (sha256 : List ℕ → Text) (P : W → Type 0)
    (kept : IsKept target P) (s : State W) (p : P s.world) where
  abbrev Holds : State W × Outcome {0} Unit → Type 0
  Holds r = P r.0.world

  make_directory-kept : (path : Text) → Holds (make_directory target sha256 s path)
  unfolding make_directory
  make_directory-kept path =
      let at = normalize_fs_path path in
      bool_split Holds (is_conflict_path at) (λ e. p)
        (λ e.
          entry_split Holds (find_entry target s.world at) (λ x. p) (kept.makes s.world at e p)
            (λ x. p))

  remove_directory-kept : (path : Text) → Holds (remove_directory target sha256 s path)
  unfolding remove_directory
  remove_directory-kept path =
      let at = normalize_fs_path path in
      bool_split Holds (is_conflict_path at) (λ e. p)
        (λ e.
          entry_split Holds (find_entry target s.world at) (λ x. p) p
            (λ x.
              bool_split Holds (is_directory (some x)) (λ d. kept.removes s.world at e p) (λ d. p)))

  unlink-kept : (path : Text) → Holds (unlink target sha256 s path)
  unfolding unlink
  unlink-kept path =
      let at = normalize_fs_path path in
      bool_split Holds (is_conflict_path at) (λ e. p)
        (λ e.
          entry_split Holds (find_entry target s.world at) (λ x. p) p
            (λ x.
              bool_split Holds (is_directory (some x)) (λ d. p) (λ d. kept.removes s.world at e p)))

  moved-kept : (a b : Text) (r : W × Outcome {0} Unit) → P r.0 → Holds (moved target sha256 a b s r)
  unfolding moved
  moved-kept a b (w, fail e) q = q
  moved-kept a b (w, ok u) q = q

  rename-kept : (path onto : Text) → Holds (rename target sha256 s path onto)
  unfolding rename
  rename-kept path onto =
      let from_path = normalize_fs_path path in
      let to_path = normalize_fs_path onto in
      bool_split Holds (is_conflict_path from_path || is_conflict_path to_path) (λ e. p)
        (λ e.
          let outside = either (is_conflict_path from_path) (is_conflict_path to_path) e in
          moved-kept from_path to_path _
            (kept.moves s.world from_path to_path outside.0 outside.1 p))

  -- Making, removing, unlinking and renaming, on any paths and whatever the target answers, keep every
  -- property of the target that its own changes of paths outside the conflict directory keep.
  pub path_calls-kept :
      (path onto : Text)
      → P (make_directory target sha256 s path).0.world
        × P (remove_directory target sha256 s path).0.world
        × P (unlink target sha256 s path).0.world
        × P (rename target sha256 s path onto).0.world
  path_calls-kept path onto = (
    make_directory-kept path,
    remove_directory-kept path,
    unlink-kept path,
    rename-kept path onto,
  )
