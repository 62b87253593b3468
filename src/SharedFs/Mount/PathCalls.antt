-- ===== src/SharedFs/Mount/PathCalls.antt =====
-- Lawful handles under the calls on a path.
use peerbit_examples.Prelude.{bool_split, ℕ, not, ◌&&◌, ◌||◌, List, Option, some}
use peerbit_examples.SharedFs.Path.Split.{Text}
use peerbit_examples.SharedFs.Path.{normalize_fs_path}
use peerbit_examples.SharedFs.Mount.Buffer.{OpenHandle, Outcome, ok, fail, Number, resize_handle}
use peerbit_examples.SharedFs.Mount.Commit.{begin_commit}
use peerbit_examples.SharedFs.Mount.Target.{
  Target, EntryInfo, is_conflict_path, find_entry, read_conflict_file,
}
use peerbit_examples.SharedFs.Mount.Flags.{ParsedFlags}
use peerbit_examples.SharedFs.Mount.Handles.{
  State, get_handle, pending_writable_handle, store_handle, existing_content, open_entry, open_path,
  is_directory, is_there,
}
use peerbit_examples.SharedFs.Mount.Files.{
  commit, remove_handle, truncate_opened, truncate_path, truncate_flags,
}
use peerbit_examples.SharedFs.Mount.Directory.{
  make_directory, remove_directory, unlink, rename, moved,
}
use peerbit_examples.SharedFs.Mount.Rights.{conflict_handle-IsLawful, file_handle-IsLawful}
use peerbit_examples.SharedFs.Mount.Lawful.{
  AfterLawful, AllLawful, delete_handle-change_handle, rename_handles-lawful,
}
use peerbit_examples.SharedFs.Mount.Splits.{
  found_split, outcome_split, entry_split, pending_split, begun_split,
}
use peerbit_examples.SharedFs.Mount.HandleCalls.{
  get_handle-IsFound, world-lawful, found_pending, removed-lawful, added-lawful, resize_open-lawful,
}

module _ {W : Type 0} (target : Target W) (sha256 : List ℕ → Text) where
  pub open_entry-lawful :
      (s : State W) (path : Text) (flags : ParsedFlags) (entry : Option EntryInfo)
      → AllLawful s
      → AllLawful (open_entry target sha256 s path flags entry).0
  unfolding open_entry
  open_entry-lawful s path flags entry l =
      bool_split AfterLawful (is_directory entry) (λ e. l)
        (λ e.
          bool_split AfterLawful (not (is_there entry) && not flags.create && not flags.write)
            (λ f. l)
            (λ f.
              outcome_split AfterLawful (existing_content target sha256 s.world path flags entry)
                (λ x q. l)
                (λ x q.
                  added-lawful target sha256 s _ l
                    (file_handle-IsLawful target sha256 path flags entry x))))

  pub open_path-lawful :
      (s : State W) (path : Text) (flags : ParsedFlags)
      → AllLawful s
      → AllLawful (open_path target sha256 s path flags).0
  unfolding open_path
  open_path-lawful s path flags l =
      bool_split AfterLawful (is_conflict_path path)
        (λ e.
          bool_split AfterLawful flags.write (λ f. l)
            (λ f.
              outcome_split AfterLawful (read_conflict_file target s.world path) (λ x q. l)
                (λ x q.
                  added-lawful target sha256 s _ l
                    (conflict_handle-IsLawful target sha256 path x))))
        (λ e.
          outcome_split AfterLawful (find_entry target s.world path) (λ x q. l)
            (λ x q. open_entry-lawful s path flags x l))

  pub removed_world :
      (s : State W) (k : ℕ) (w : W)
      → AllLawful (remove_handle target sha256 s k)
      → AllLawful (remove_handle target sha256 (record s { world = w }) k)
  unfolding AllLawful remove_handle
  removed_world s k w l = l

  pub removed_stored :
      (s : State W) (k : ℕ) (g : OpenHandle)
      → AllLawful (remove_handle target sha256 s k)
      → AllLawful (remove_handle target sha256 (store_handle target sha256 s k g) k)
  unfolding AllLawful remove_handle store_handle
  removed_stored s k g l = rw (delete_handle-change_handle s.handles k g) l

  -- A commit changes the entry of its handle only, so once that is dropped nothing is left of it.
  pub removed_commit :
      (s : State W) (k : ℕ) (g : OpenHandle)
      → AllLawful (remove_handle target sha256 s k)
      → AllLawful (remove_handle target sha256 (commit target sha256 s k g).0 k)
  unfolding commit
  removed_commit s k g l =
      begun_split
        (λ (r : State W × Outcome {0} Unit). AllLawful (remove_handle target sha256 r.0 k))
        (begin_commit sha256 g) l l (λ h q. removed_stored s k h l)
        (λ h hash q. removed_stored _ k _ (removed_world s k _ l))

  pub truncate_opened-lawful :
      (s : State W) (k : ℕ) (size : Number)
      → AllLawful s
      → AllLawful (truncate_opened target sha256 s k size).0
  unfolding truncate_opened
  truncate_opened-lawful s k size l =
      let r = removed-lawful target sha256 s k l in
      found_split AfterLawful (get_handle s.handles k) (get_handle-IsFound target sha256 s k l) l
        (λ h i.
          outcome_split AfterLawful (resize_handle h size) (λ e q. r)
            (λ g q. removed_commit _ k g (removed_stored s k g r)))

  pub truncate_path-lawful :
      (s : State W) (path : Text) (size : Number)
      → AllLawful s
      → AllLawful (truncate_path target sha256 s path size).0
  unfolding truncate_path
  truncate_path-lawful s path size l =
      let p = normalize_fs_path path in
      bool_split AfterLawful (is_conflict_path p) (λ e. l)
        (λ e.
          pending_split AfterLawful (pending_writable_handle s.handles p)
            (found_pending target sha256 s p l)
            (let t = open_path-lawful s p truncate_flags l in
              outcome_split AfterLawful (open_path target sha256 s p truncate_flags).1 (λ x q. t)
                (λ k q. truncate_opened-lawful _ k size t))
            (λ r i w. resize_open-lawful target sha256 s r.0 r.1 size l i w))

  pub make_directory-lawful :
      (s : State W) (path : Text) → AllLawful s → AllLawful (make_directory target sha256 s path).0
  unfolding make_directory
  make_directory-lawful s path l =
      bool_split AfterLawful (is_conflict_path (normalize_fs_path path)) (λ e. l)
        (λ e.
          entry_split AfterLawful (find_entry target s.world (normalize_fs_path path)) (λ x. l)
            (world-lawful target sha256 s _ l) (λ x. l))

  pub remove_directory-lawful :
      (s : State W) (path : Text)
      → AllLawful s
      → AllLawful (remove_directory target sha256 s path).0
  unfolding remove_directory
  remove_directory-lawful s path l =
      bool_split AfterLawful (is_conflict_path (normalize_fs_path path)) (λ e. l)
        (λ e.
          entry_split AfterLawful (find_entry target s.world (normalize_fs_path path)) (λ x. l) l
            (λ x.
              bool_split AfterLawful (is_directory (some x)) (λ d. world-lawful target sha256 s _ l)
                (λ d. l)))

  pub unlink-lawful :
      (s : State W) (path : Text) → AllLawful s → AllLawful (unlink target sha256 s path).0
  unfolding unlink
  unlink-lawful s path l =
      bool_split AfterLawful (is_conflict_path (normalize_fs_path path)) (λ e. l)
        (λ e.
          entry_split AfterLawful (find_entry target s.world (normalize_fs_path path)) (λ x. l) l
            (λ x.
              bool_split AfterLawful (is_directory (some x)) (λ d. l)
                (λ d. world-lawful target sha256 s _ l)))

  pub moved-lawful :
      (a b : Text) (s : State W) (r : W × Outcome {0} Unit)
      → AllLawful s
      → AllLawful (moved target sha256 a b s r).0
  unfolding moved AllLawful
  moved-lawful a b s (w, fail e) l = l
  moved-lawful a b s (w, ok u) l = rename_handles-lawful a b s.handles s.next_handle l

  pub rename-lawful :
      (s : State W) (a b : Text) → AllLawful s → AllLawful (rename target sha256 s a b).0
  unfolding rename
  rename-lawful s a b l =
      bool_split AfterLawful
        (is_conflict_path (normalize_fs_path a) || is_conflict_path (normalize_fs_path b)) (λ e. l)
        (λ e. moved-lawful (normalize_fs_path a) (normalize_fs_path b) s _ l)
