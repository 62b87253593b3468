-- ===== src/SharedFs/Mount/Handles.antt =====
-- packages/shared-fs/library/src/mount-backend.ts: the open handles of a mount, and the operations
-- on them.  An operation is run to its end before the next one; what lands within a commit is the
-- subject of the sessions of `Commit`.
use peerbit_examples.Prelude.{
  ℕ, suc, Bool, true, false, not, ◌&&◌, ◌||◌, List, [], ◌∷◌, ◌++◌, Option, none, some, ◌==◌,
  if◌then◌else◌, length,
}
use peerbit_examples.SharedFs.Path.Split.{Text, same_text}
use peerbit_examples.SharedFs.Path.{normalize_fs_path}
use peerbit_examples.SharedFs.Mount.Buffer.{
  Bytes, OpenHandle, coded, enoent, eisdir, erofs, ebadf, Outcome, ok, fail, Offset, get_or,
  read_handle, write_handle,
}
use peerbit_examples.SharedFs.Mount.Target.{
  Target, directory, file, EntryInfo, wrap, is_conflict_path, find_entry, read_conflict_file,
}
use peerbit_examples.SharedFs.Mount.Flags.{ParsedFlags, OpenFlags, Platform, parse_flags}

abbrev pub Handles : Type 0
Handles = List (ℕ × OpenHandle)

unfoldable pub get_handle : Handles → ℕ → Option OpenHandle
get_handle [] k = none
get_handle ((j, h) ∷ hs) k = if j == k then some h else get_handle hs k

-- The handle is an object that the map shares: changing it changes the entry in place.
unfoldable pub change_handle : Handles → ℕ → OpenHandle → Handles
change_handle [] k g = []
change_handle ((j, h) ∷ hs) k g = if j == k then (j, g) ∷ hs else (j, h) ∷ change_handle hs k g

unfoldable pub delete_handle : Handles → ℕ → Handles
delete_handle [] k = []
delete_handle ((j, h) ∷ hs) k =
    let rest = delete_handle hs k in if j == k then rest else (j, h) ∷ rest

abbrev pub is_pending : Text → OpenHandle → Bool
is_pending path h = same_text h.path path && h.write && not h.read_only && h.dirty

unfoldable pub pending_writable_handle : Handles → Text → Option (ℕ × OpenHandle)
pending_writable_handle [] path = none
pending_writable_handle ((j, h) ∷ hs) path =
    if is_pending path h then some (j, h) else pending_writable_handle hs path

pub record State (W : Type 0) : Type 0 where
  pub handles : Handles
  pub next_handle : ℕ
  pub world : W

-- The buffer that holds the content, and no more.
unfoldable pub bytes_of : List ℕ → Bytes
bytes_of content = record { size = length content; byte = get_or content }

abbrev pub head_ids : Option EntryInfo → Option (List Text)
head_ids none = none
head_ids (some e) = e.head_version_ids

abbrev pub head_hash : Option EntryInfo → Option Text
head_hash none = none
head_hash (some e) = e.content_hash

abbrev pub is_directory : Option EntryInfo → Bool
is_directory none = false
is_directory (some e) = elim e.kind [ directory ↦ true | file ↦ false ]

abbrev pub is_there : Option EntryInfo → Bool
is_there none = false
is_there (some e) = true

abbrev pub or_empty : Option (List ℕ) → List ℕ
or_empty none = []
or_empty (some content) = content

module _ {W : Type 0} (target : Target W) (sha256 : List ℕ → Text) where
  -- A new handle, and its number.
  unfoldable pub add_handle : State W → OpenHandle → State W × Outcome ℕ
  add_handle s h = (
    record s { handles = s.handles ++ (s.next_handle, h) ∷ []; next_handle = suc s.next_handle },
    ok s.next_handle,
  )

  unfoldable pub conflict_handle : Text → List ℕ → OpenHandle
  conflict_handle path content = record {
    path = path;
    buffer = bytes_of content;
    length = length content;
    write = false;
    dirty = false;
    read_only = true;
    base_version_ids = none;
    base_content_hash = none;
    committing = false;
  }

  unfoldable pub file_handle : Text → ParsedFlags → Option EntryInfo → List ℕ → OpenHandle
  file_handle path flags entry existing = record {
    path = path;
    buffer = bytes_of existing;
    length = length existing;
    write = flags.write;
    dirty =
        flags.write
        && (flags.create || flags.truncate)
        && not (is_there entry && not flags.truncate);
    read_only = false;
    base_version_ids = head_ids entry;
    base_content_hash = head_hash entry;
    committing = false;
  }

  unfoldable pub existing_content : W → Text → ParsedFlags → Option EntryInfo → Outcome (List ℕ)
  existing_content w path flags entry =
      if flags.truncate || not (is_there entry)
      then ok []
      else elim (target.read_file w path) [ fail e ↦ fail e | ok found ↦ ok (or_empty found) ]

  unfoldable pub open_entry : State W → Text → ParsedFlags → Option EntryInfo → State W × Outcome ℕ
  open_entry s path flags entry =
      if is_directory entry
      then (s, fail (coded eisdir))
      else if not (is_there entry) && not flags.create && not flags.write
      then (s, fail (coded enoent))
      else elim (existing_content s.world path flags entry) [
        | fail e ↦ (s, fail e)
        | ok existing ↦ add_handle s (file_handle path flags entry existing)
      ]

  unfoldable pub open_path : State W → Text → ParsedFlags → State W × Outcome ℕ
  open_path s path flags =
      if is_conflict_path path
      then if flags.write
        then (s, fail (coded erofs))
        else elim (read_conflict_file target s.world path) [
          | fail e ↦ (s, fail e)
          | ok content ↦ add_handle s (conflict_handle path content)
        ]
      else elim (find_entry target s.world path) [
        | fail e ↦ (s, fail e)
        | ok entry ↦ open_entry s path flags entry
      ]

  abbrev pub wrapped {ℓ} : {A : Type ℓ} → State W × Outcome A → State W × Outcome A
  wrapped r = (r.0, wrap r.1)

  unfoldable pub open_file : State W → Text → OpenFlags → Platform → State W × Outcome ℕ
  open_file s path flags platform =
      wrapped (open_path s (normalize_fs_path path) (parse_flags flags platform))

  unfoldable pub read : State W → ℕ → ℕ → ℕ → State W × Outcome (List ℕ)
  read s handle count offset = elim (get_handle s.handles handle) [
    | none ↦ (s, fail (coded ebadf))
    | some h ↦ (s, ok (read_handle h count offset))
  ]

  unfoldable pub store_handle : State W → ℕ → OpenHandle → State W
  store_handle s handle g = record s { handles = change_handle s.handles handle g }

  unfoldable pub write : State W → ℕ → List ℕ → Offset → State W × Outcome ℕ
  write s handle chunk offset = elim (get_handle s.handles handle) [
    | none ↦ (s, fail (coded ebadf))
    | some h ↦ elim (write_handle h chunk offset) [
      | fail e ↦ (s, fail e)
      | ok (g, n) ↦ (store_handle s handle g, ok n)
    ]
  ]
