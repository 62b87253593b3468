-- ===== src/SharedFs/Mount/History.antt =====
-- Histories of calls of a mount backend.
mod Tests
use peerbit_examples.Prelude.{
  ℕ, suc, ◌<◌, ◌≡◌, refl, sym, ap, ◌∙◌, subst, ◌⊎◌, inl, inr, Bool, true, false, not, ◌&&◌, ◌||◌,
  List, [], ◌∷◌, ◌++◌, Option, none, some, arith, ◌==◌, if◌then◌else◌, Bool-cases, Option-cases,
  All, All-append,
}
use peerbit_examples.SharedFs.Path.Split.{Text}
use peerbit_examples.SharedFs.Path.{normalize_fs_path}
use peerbit_examples.SharedFs.Mount.Buffer.{
  OpenHandle, Fault, coded, ebadf, Outcome, ok, fail, Offset, Number, resize_handle, write_handle,
}
use peerbit_examples.SharedFs.Mount.Commit.{
  Begun, idle, read_only_path, unchanged, writing, begin_commit, finish_commit,
}
use peerbit_examples.SharedFs.Mount.Target.{
  Target, EntryInfo, is_conflict_path, find_entry, read_conflict_file,
}
use peerbit_examples.SharedFs.Mount.Flags.{ParsedFlags, OpenFlags, Platform, parse_flags}
use peerbit_examples.SharedFs.Mount.Handles.{
  Handles, State, get_handle, change_handle, delete_handle, is_pending, pending_writable_handle,
  add_handle, store_handle, existing_content, open_entry, open_path, open_file, write, file_handle,
  conflict_handle, is_directory, is_there,
}
use peerbit_examples.SharedFs.Mount.Files.{
  commit, resize_open, remove_handle, truncate_handle, truncate_opened, truncate_path,
  truncate_flags, flush, release,
}
use peerbit_examples.SharedFs.Mount.Directory.{
  make_directory, remove_directory, unlink, rename, moved, rename_handles,
}
use peerbit_examples.SharedFs.Mount.Buffer.Laws.{IsFitting}
use peerbit_examples.SharedFs.Mount.Rights.{
  IsLawful, write_handle-IsLawful, resize_handle-IsLawful, unchanged-IsLawful, writing-IsLawful,
  conflict_handle-IsLawful, file_handle-IsLawful,
}
use peerbit_examples.SharedFs.Mount.Lawful.{
  AfterLawful, IsGiven, AllLawful, IsFound, IsFoundPending, get_handle-lawful, change_handle-lawful,
  delete_handle-lawful, delete_handle-change_handle, get_handle-delete_handle, one_more,
  rename_handles-lawful, pending-lawful,
}
use peerbit_examples.SharedFs.Mount.Splits.{
  found_split, outcome_split, entry_split, pending_split, begun_split,
}
use peerbit_examples.SharedFs.Mount.PathCalls.{
  open_entry-lawful, open_path-lawful, removed_world, removed_stored, removed_commit,
  truncate_opened-lawful, truncate_path-lawful, make_directory-lawful, remove_directory-lawful,
  unlink-lawful, moved-lawful, rename-lawful,
}
use peerbit_examples.SharedFs.Mount.HandleCalls.{
  get_handle-IsFound, world-lawful, found_pending, stored-lawful, removed-lawful, added-lawful,
  write-lawful, commit-lawful, resize_open-lawful, flush-lawful, release-lawful,
  truncate_handle-lawful,
}

-- The calls that change a mount.
pub data Call : Type 0 where
  opens : Text → OpenFlags → Platform → Call
  writes : ℕ → List ℕ → Offset → Call
  truncates_handle : ℕ → Number → Call
  truncates_path : Text → Number → Call
  flushes : ℕ → Call
  releases : ℕ → Call
  makes_directory : Text → Call
  removes_directory : Text → Call
  renames : Text → Text → Call
  unlinks : Text → Call

module _ {W : Type 0} (target : Target W) (sha256 : List ℕ → Text) where
  unfoldable pub step : Call → State W → State W
  step (opens path flags platform) s = (open_file target sha256 s path flags platform).0
  step (writes handle chunk offset) s = (write target sha256 s handle chunk offset).0
  step (truncates_handle handle size) s = (truncate_handle target sha256 s handle size).0
  step (truncates_path path size) s = (truncate_path target sha256 s path size).0
  step (flushes handle) s = (flush target sha256 s handle).0
  step (releases handle) s = (release target sha256 s handle).0
  step (makes_directory path) s = (make_directory target sha256 s path).0
  step (removes_directory path) s = (remove_directory target sha256 s path).0
  step (renames path_a path_b) s = (rename target sha256 s path_a path_b).0
  step (unlinks path) s = (unlink target sha256 s path).0

  unfoldable pub run : List Call → State W → State W
  run [] s = s
  run (c ∷ cs) s = run cs (step c s)

module _ {W : Type 0} (target : Target W) (sha256 : List ℕ → Text) where
  step-lawful : (c : Call) (s : State W) → AllLawful s → AllLawful (step target sha256 c s)
  unfolding step open_file
  step-lawful (opens path flags platform) s l = open_path-lawful target sha256 s _ _ l
  step-lawful (writes k chunk o) s l = write-lawful target sha256 s k chunk o l
  step-lawful (truncates_handle k size) s l = truncate_handle-lawful target sha256 s k size l
  step-lawful (truncates_path path size) s l = truncate_path-lawful target sha256 s path size l
  step-lawful (flushes k) s l = flush-lawful target sha256 s k l
  step-lawful (releases k) s l = release-lawful target sha256 s k l
  step-lawful (makes_directory path) s l = make_directory-lawful target sha256 s path l
  step-lawful (removes_directory path) s l = remove_directory-lawful target sha256 s path l
  step-lawful (renames a b) s l = rename-lawful target sha256 s a b l
  step-lawful (unlinks path) s l = unlink-lawful target sha256 s path l

  -- After any calls, whatever the target answers, from a state in which it holds: every open handle has
  -- a number that was given out, its length fits its buffer, and it is dirty only if it was opened for
  -- writing, which no handle of a conflict version is.
  pub run-AllLawful :
      (cs : List Call) (s : State W) → AllLawful s → AllLawful (run target sha256 cs s)
  unfolding run
  run-AllLawful [] s l = l
  run-AllLawful (c ∷ cs) s l = run-AllLawful cs (step target sha256 c s) (step-lawful c s l)
