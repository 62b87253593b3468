-- ===== src/SharedFs/Mount/Directory.antt =====
-- packages/shared-fs/library/src/mount-backend.ts: `getattr`, `readdir`, `mkdir`, `rmdir`, `rename`
-- and `unlink`.
use peerbit_examples.Prelude.{
  ℕ, suc, zero, min, Bool, true, false, not, ◌&&◌, ◌||◌, List, [], ◌∷◌, ◌++◌, map, Option, none,
  some, ◌==◌, if◌then◌else◌, length,
}
use peerbit_examples.SharedFs.Path.Split.{Text, slash, same_text}
use peerbit_examples.SharedFs.Path.{normalize_fs_path, dirname, basename, join_fs_path}
use peerbit_examples.SharedFs.Conflicts.{encode_conflict_path_name}
use peerbit_examples.SharedFs.Mount.Buffer.{
  coded, enoent, eexist, eisdir, enotdir, erofs, Outcome, ok, fail,
}
use peerbit_examples.SharedFs.Mount.Target.{
  Target, Kind, directory, file, EntryInfo, VersionInfo, Conflict, wrap, ◌then_do◌, conflicts_dir,
  is_conflict_path, ConflictPath, root, path_of, version_of, invalid, parse_conflict_path,
  find_version, find_entry, conflict_for_path,
}
use peerbit_examples.SharedFs.Mount.Handles.{Handles, State, pending_writable_handle, is_directory}

pub record Stat : Type 0 where
  pub path : Text
  pub kind : Kind
  pub size : ℕ
  pub mode : ℕ
  pub mtime_ms : ℕ
  pub ctime_ms : ℕ
  pub nlink : ℕ

-- `Number.MAX_SAFE_INTEGER` bounds what `bigintToSize` gives.
unfoldable pub bigint_to_size : ℕ → ℕ
bigint_to_size n = min n 9007199254740991

-- `S_IFDIR | 0o755`
unfoldable pub directory_stat : Text → ℕ → Stat
directory_stat path mtime = record {
  path = path;
  kind = directory;
  size = 0;
  mode = 16877;
  mtime_ms = mtime;
  ctime_ms = mtime;
  nlink = 2;
}

-- `S_IFREG | 0o644`
unfoldable pub file_stat : Text → ℕ → ℕ → Stat
file_stat path size mtime = record {
  path = path;
  kind = file;
  size = size;
  mode = 33188;
  mtime_ms = mtime;
  ctime_ms = mtime;
  nlink = 1;
}

pub record Dirent : Type 0 where
  pub name : Text
  pub kind : Kind

-- `Map.set` keeps the place of a key that is there.
unfoldable pub set_name : List Dirent → Dirent → List Dirent
set_name [] d = d ∷ []
set_name (e ∷ es) d = if same_text e.name d.name then d ∷ es else e ∷ set_name es d

abbrev pub file_dirent : Text → Dirent
file_dirent name = record { name = name; kind = file }

unfoldable pub listed : List Dirent → List EntryInfo → List Dirent
listed by_name [] = by_name
listed by_name (e ∷ es) = listed (set_name by_name (record { name = e.name; kind = e.kind })) es

unfoldable pub with_pending : Text → List Dirent → Handles → List Dirent
with_pending path by_name [] = by_name
with_pending path by_name ((j, h) ∷ hs) =
    with_pending path
      (if h.write && not h.read_only && h.dirty && same_text (dirname h.path) path
        then set_name by_name (file_dirent (basename h.path))
        else by_name)
      hs

unfoldable pub live_versions : List VersionInfo → List Dirent
live_versions [] = []
live_versions (v ∷ vs) = if v.deleted then live_versions vs else file_dirent v.id ∷ live_versions vs

abbrev pub conflict_dirent : Conflict → Dirent
conflict_dirent c = record { name = encode_conflict_path_name c.path; kind = directory }

abbrev pub conflicts_entry : Text → List Dirent
conflicts_entry path =
    if same_text path (slash ∷ [])
    then record { name = conflicts_dir; kind = directory } ∷ []
    else []

unfoldable pub starts_with : Text → Text → Bool
starts_with cs [] = true
starts_with [] (p ∷ ps) = false
starts_with (c ∷ cs) (p ∷ ps) = c == p && starts_with cs ps

unfoldable pub text_from : ℕ → Text → Text
text_from zero cs = cs
text_from (suc n) [] = []
text_from (suc n) (c ∷ cs) = text_from n cs

unfoldable pub renamed_path : Text → Text → Text → Text
renamed_path from_path to_path path =
    if same_text path from_path
    then to_path
    else if starts_with path (from_path ++ slash ∷ [])
    then to_path ++ text_from (length from_path) path
    else path

unfoldable pub rename_handles : Text → Text → Handles → Handles
rename_handles from_path to_path [] = []
rename_handles from_path to_path ((j, h) ∷ hs) =
    (j, record h { path = renamed_path from_path to_path h.path })
    ∷ rename_handles from_path to_path hs

module _ {W : Type 0} (target : Target W) (sha256 : List ℕ → Text) where
  unfoldable pub stat_version : Text → Text → Conflict → Outcome Stat
  stat_version path id conflict = elim (find_version conflict.versions id) [
    | none ↦ fail (coded enoent)
    | some v ↦
        if v.deleted
        then fail (coded enoent)
        else ok (file_stat path (bigint_to_size v.size) v.created_at)
  ]

  -- A conflict that is there, or `ENOENT`.
  unfoldable pub conflict_at : State W → Text → Outcome Conflict
  conflict_at s file_path =
      conflict_for_path target s.world file_path
      then_do (λ found. elim found [ none ↦ fail (coded enoent) | some c ↦ ok c ])

  unfoldable pub stat_conflict : ℕ → State W → Text → Option ConflictPath → Outcome Stat
  stat_conflict now s path none = fail (coded enoent)
  stat_conflict now s path (some invalid) = fail (coded enoent)
  stat_conflict now s path (some root) =
      ok (directory_stat (join_fs_path ((slash ∷ []) ∷ conflicts_dir ∷ [])) now)
  stat_conflict now s path (some (path_of f)) =
      conflict_at s f then_do (λ c. ok (directory_stat path now))
  stat_conflict now s path (some (version_of f id)) = conflict_at s f then_do stat_version path id

  unfoldable pub getattr_conflict : ℕ → State W → Text → Outcome Stat
  getattr_conflict now s path = parse_conflict_path path then_do stat_conflict now s path

  unfoldable pub stat_entry : Text → Option EntryInfo → Outcome Stat
  stat_entry path none = fail (coded enoent)
  stat_entry path (some e) = elim e.kind [
    | directory ↦ ok (directory_stat path e.updated_at)
    | file ↦ ok (file_stat path (bigint_to_size e.size) e.updated_at)
  ]

  unfoldable pub getattr : ℕ → State W → Text → Outcome Stat
  getattr now s path =
      let normalized = normalize_fs_path path in
      wrap (
        if same_text normalized (slash ∷ [])
        then ok (directory_stat (slash ∷ []) now)
        else if is_conflict_path normalized
        then getattr_conflict now s normalized
        else elim (pending_writable_handle s.handles normalized) [
          | some (j, h) ↦ ok (file_stat normalized h.length now)
          | none ↦ find_entry target s.world normalized then_do stat_entry normalized
        ])

  unfoldable pub read_conflicts : State W → Option ConflictPath → Outcome (List Dirent)
  read_conflicts s (some root) =
      target.conflicts s.world none then_do (λ cs. ok (map conflict_dirent cs))
  read_conflicts s (some (path_of f)) = conflict_at s f then_do (λ c. ok (live_versions c.versions))
  read_conflicts s _ = fail (coded enotdir)

  unfoldable pub readdir : State W → Text → Outcome (List Dirent)
  readdir s path =
      let normalized = normalize_fs_path path in
      wrap (
        if is_conflict_path normalized
        then parse_conflict_path normalized then_do read_conflicts s
        else target.list s.world normalized then_do (λ entries.
          ok (with_pending normalized (listed [] entries) s.handles ++ conflicts_entry normalized)))

  -- A call that changes the target, and its answer.
  abbrev pub changed : State W → W × Outcome {0} Unit → State W × Outcome {0} Unit
  changed s r = (record s { world = r.0 }, wrap r.1)

  unfoldable pub make_directory : State W → Text → State W × Outcome {0} Unit
  make_directory s path =
      let normalized = normalize_fs_path path in
      if is_conflict_path normalized
      then (s, fail (coded erofs))
      else elim (find_entry target s.world normalized) [
        | fail e ↦ (s, wrap (fail e))
        | ok (some e) ↦ (s, fail (coded eexist))
        | ok none ↦ changed s (target.make_directory s.world normalized)
      ]

  unfoldable pub remove_directory : State W → Text → State W × Outcome {0} Unit
  remove_directory s path =
      let normalized = normalize_fs_path path in
      if is_conflict_path normalized
      then (s, fail (coded erofs))
      else elim (find_entry target s.world normalized) [
        | fail e ↦ (s, wrap (fail e))
        | ok none ↦ (s, fail (coded enoent))
        | ok (some e) ↦
            if is_directory (some e)
            then changed s (target.remove s.world normalized)
            else (s, fail (coded enotdir))
      ]

  unfoldable pub unlink : State W → Text → State W × Outcome {0} Unit
  unlink s path =
      let normalized = normalize_fs_path path in
      if is_conflict_path normalized
      then (s, fail (coded erofs))
      else elim (find_entry target s.world normalized) [
        | fail e ↦ (s, wrap (fail e))
        | ok none ↦ (s, fail (coded enoent))
        | ok (some e) ↦
            if is_directory (some e)
            then (s, fail (coded eisdir))
            else changed s (target.remove s.world normalized)
      ]

  unfoldable pub moved : Text → Text → State W → W × Outcome {0} Unit → State W × Outcome {0} Unit
  moved from_path to_path s (w, fail e) = (record s { world = w }, wrap (fail e))
  moved from_path to_path s (w, ok u) =
      (record s { handles = rename_handles from_path to_path s.handles; world = w }, ok tt)

  unfoldable pub rename : State W → Text → Text → State W × Outcome {0} Unit
  rename s path_a path_b =
      let from_path = normalize_fs_path path_a in
      let to_path = normalize_fs_path path_b in
      if is_conflict_path from_path || is_conflict_path to_path
      then (s, fail (coded erofs))
      else moved from_path to_path s (target.move s.world from_path to_path)
