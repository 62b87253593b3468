-- ===== src/SharedFs/Mount/Files.antt =====
-- packages/shared-fs/library/src/mount-backend.ts: commits, `truncate`, `flush`, `fsync` and `release`.
use peerbit_examples.Prelude.{ℕ, List, none, some, true, false, if◌then◌else◌}
use peerbit_examples.SharedFs.Path.Split.{Text}
use peerbit_examples.SharedFs.Path.{normalize_fs_path}
use peerbit_examples.SharedFs.Mount.Buffer.{
  OpenHandle, coded, erofs, ebadf, eacces, Outcome, ok, fail, Number, content_of, resize_handle,
}
use peerbit_examples.SharedFs.Mount.Commit.{
  Reply, written, refused, idle, read_only_path, unchanged, writing, begin_commit, finish_commit,
}
use peerbit_examples.SharedFs.Mount.Target.{Target, wrap, is_conflict_path}
use peerbit_examples.SharedFs.Mount.Flags.{ParsedFlags}
use peerbit_examples.SharedFs.Mount.Handles.{
  State, get_handle, delete_handle, pending_writable_handle, open_path, store_handle, wrapped,
}

abbrev pub reply_outcome : Reply → Outcome {0} Unit
reply_outcome (written id hash) = ok tt
reply_outcome (refused e) = fail e

-- The flags with which `truncate` opens a path.
abbrev pub truncate_flags : ParsedFlags
truncate_flags = record {
  read = true;
  write = true;
  create = false;
  truncate = false;
  append = false;
}

module _ {W : Type 0} (target : Target W) (sha256 : List ℕ → Text) where
  unfoldable pub commit : State W → ℕ → OpenHandle → State W × Outcome {0} Unit
  commit s handle h = elim (begin_commit sha256 h) [
    | idle ↦ (s, ok tt)
    | read_only_path ↦ (s, fail (coded erofs))
    | unchanged g ↦ (store_handle target sha256 s handle g, ok tt)
    | writing g hash ↦
        let (w, reply) = target.write_file s.world h.path (content_of h) h.base_version_ids in
        (
          store_handle target sha256 (record s { world = w }) handle (finish_commit hash g reply),
          reply_outcome reply,
        )
  ]

  unfoldable pub remove_handle : State W → ℕ → State W
  remove_handle s handle = record s { handles = delete_handle s.handles handle }

  -- Resize a handle that is open.
  unfoldable pub resize_open : State W → ℕ → OpenHandle → Number → State W × Outcome {0} Unit
  resize_open s handle h size = elim (resize_handle h size) [
    | fail e ↦ (s, fail e)
    | ok g ↦ (store_handle target sha256 s handle g, ok tt)
  ]

  unfoldable pub truncate_handle : State W → ℕ → Number → State W × Outcome {0} Unit
  truncate_handle s handle size = elim (get_handle s.handles handle) [
    | none ↦ (s, fail (coded ebadf))
    | some h ↦
        if h.write
        then wrapped target sha256 (resize_open s handle h size)
        else (s, fail (coded eacces))
  ]

  -- Resize, commit, and drop a handle that was opened for it, on every way out.
  unfoldable pub truncate_opened : State W → ℕ → Number → State W × Outcome {0} Unit
  truncate_opened s handle size = elim (get_handle s.handles handle) [
    | none ↦ (s, fail (coded ebadf))
    | some h ↦ elim (resize_handle h size) [
      | fail e ↦ (remove_handle s handle, fail e)
      | ok g ↦
          let (t, result) = commit (store_handle target sha256 s handle g) handle g in
          (remove_handle t handle, result)
    ]
  ]

  unfoldable pub truncate_path : State W → Text → Number → State W × Outcome {0} Unit
  truncate_path s path size =
      let normalized = normalize_fs_path path in
      if is_conflict_path normalized
      then (s, fail (coded erofs))
      else elim (pending_writable_handle s.handles normalized) [
        | some (handle, h) ↦ wrapped target sha256 (resize_open s handle h size)
        | none ↦
            let (t, opened) = open_path target sha256 s normalized truncate_flags in
            elim opened [
              | fail e ↦ (t, wrap (fail e))
              | ok handle ↦ wrapped target sha256 (truncate_opened t handle size)
            ]
      ]

  -- `flush` and `fsync`
  unfoldable pub flush : State W → ℕ → State W × Outcome {0} Unit
  flush s handle = elim (get_handle s.handles handle) [
    | none ↦ (s, fail (coded ebadf))
    | some h ↦ wrapped target sha256 (commit s handle h)
  ]

  unfoldable pub release : State W → ℕ → State W × Outcome {0} Unit
  release s handle = elim (get_handle s.handles handle) [
    | none ↦ (s, ok tt)
    | some h ↦ let (t, result) = commit s handle h in (remove_handle t handle, wrap result)
  ]
