-- ===== src/SharedFs/Store/Handle.antt =====
-- packages/shared-fs/library/src/index.ts: `SharedFsHandle`, which passes calls on to the file system, as
-- the target of a mount.  The bytes of a write are those that `writeFile` finds in the buffer when it
-- hashes them.
pub mod Reports
mod Tests
use peerbit_examples.Prelude.{ℕ, List, [], ◌∷◌, map, Option, none, some}
use peerbit_examples.SharedFs.Path.Split.{Text}
use peerbit_examples.SharedFs.Mount.Buffer.{Fault, range_error, Outcome, ok, fail}
use peerbit_examples.SharedFs.Mount.Commit.{Reply, written, refused}
use peerbit_examples.SharedFs.Mount.Target.{EntryInfo, VersionInfo, Conflict, Target, ◌then_do◌}
use peerbit_examples.SharedFs.Store.Documents.{Document}
use peerbit_examples.SharedFs.Store.Infos.{SharedFsEntryInfo, SharedFsVersionInfo, SharedFsConflict}
use peerbit_examples.SharedFs.Store.Peer.{Peer, documents}
use peerbit_examples.SharedFs.Store.Reads.{read_file, read_version}
use peerbit_examples.SharedFs.Store.Views.{stat, list, conflicts}
use peerbit_examples.SharedFs.Store.Saves.{WriteFileOptions, mkdir, write_file}
use peerbit_examples.SharedFs.Store.Moves.{rm, rename}

-- What a mount reads of the file system's answers.
abbrev pub entry_of : SharedFsEntryInfo → EntryInfo
entry_of i = record {
  name = i.name;
  kind = i.kind;
  size = i.size;
  updated_at = i.updated_at;
  head_version_ids = i.head_version_ids;
  content_hash = i.content_hash;
}

abbrev pub version_of : SharedFsVersionInfo → VersionInfo
version_of v = record { id = v.id; size = v.size; created_at = v.created_at; deleted = v.deleted }

abbrev pub conflict_seen : SharedFsConflict → Conflict
conflict_seen c = record { path = c.path; versions = map version_of c.versions }

abbrev pub entry_there : Option SharedFsEntryInfo → Option EntryInfo
entry_there none = none
entry_there (some i) = some (entry_of i)

-- The version's id and hash, or the error.
abbrev pub reply_of : Outcome SharedFsVersionInfo → Reply
reply_of (ok info) = written (some info.id) info.content_hash
reply_of (fail e) = refused e

-- A read ends, so it answers.
abbrev pub read_answer : Option (Outcome (Option (List ℕ))) → Outcome (Option (List ℕ))
read_answer none = fail range_error
read_answer (some o) = o

module _ {S : Type 0} (peer : Peer S) where
  abbrev pub remote_of : S → Option (Text → Option Document)
  remote_of s = elim peer.remote [ none ↦ none | some get ↦ some (get s) ]

  abbrev pub send : S → Text → List ℕ → Option (List Text) → S × Reply
  send s path bytes base =
      let answer =
        write_file peer path bytes (record { base_version_ids = base; chunk_size = none }) s in
      (answer.0, reply_of answer.1)

  unfoldable pub shared_fs_target : Target S
  shared_fs_target = record {
    read_file = λ s path.
        read_answer (read_file peer.sha256 (documents peer s) (remote_of s) peer.before path);
    read_version =
        λ s path id. read_version peer.sha256 (documents peer s) (remote_of s) peer.before path id;
    write_file = send;
    make_directory = λ s path. mkdir peer path s;
    remove = λ s path. rm peer path s;
    move = λ s from to. rename peer from to s;
    list = λ s path.
        list peer.before (documents peer s) path then_do (λ infos. ok (map entry_of infos));
    conflicts = λ s path. ok (map conflict_seen (conflicts peer.before (documents peer s) path));
    stat = some (λ s path. ok (entry_there (stat peer.before (documents peer s) path)));
  }
