-- ===== src/SharedFs/Store/Handle/Tests.antt =====
-- A mount of the shared file system on concrete input.
use peerbit_examples.Prelude.{inr, refl, false, true, [], ◌∷◌, none, some}
use peerbit_examples.SharedFs.Path.Split.{Text}
use peerbit_examples.SharedFs.Mount.Buffer.{zeros}
use peerbit_examples.SharedFs.Mount.Commit.{Session, finish_commit}
use peerbit_examples.SharedFs.Mount.Commit.Laws.{IsSaved}
use peerbit_examples.SharedFs.Store.Sample.{sample}
use peerbit_examples.SharedFs.Store.Handle.{shared_fs_target}
use peerbit_examples.SharedFs.Store.Handle.Reports.{shared_fs_target-IsSaved}

abbrev path_h : Text
path_h = b'/' ∷ b'h' ∷ []

-- Two bytes were sent, and a write has landed while the commit is in flight.
abbrev in_commit : Session
in_commit = record {
  handle = record {
    path = path_h;
    buffer = zeros 2;
    length = 2;
    write = true;
    dirty = true;
    read_only = false;
    base_version_ids = none;
    base_content_hash = none;
    committing = true;
  };
  in_flight = some (7 ∷ 8 ∷ []);
}

in_commit-IsSaved : IsSaved sample.sha256 in_commit
unfolding IsSaved
in_commit-IsSaved e = cc

-- No write has landed: the bytes that are hashed are those that were sent.
abbrev undisturbed : Session
undisturbed = record in_commit {
  handle = record in_commit.handle { dirty = false };
  in_flight = some (0 ∷ 0 ∷ []);
}

abbrev answered : Session
answered = record undisturbed {
  handle =
      finish_commit (0 ∷ 0 ∷ []) undisturbed.handle
        ((shared_fs_target sample).write_file [] path_h (0 ∷ 0 ∷ []) none).1;
  in_flight = none;
}

late_write-IsSaved : IsSaved sample.sha256 (record in_commit {
  handle =
      finish_commit
        (7 ∷ 8 ∷ [])
        in_commit.handle
        ((shared_fs_target sample).write_file [] path_h (0 ∷ 0 ∷ []) none).1;
  in_flight = none;
})
late_write-IsSaved =
    shared_fs_target-IsSaved sample [] path_h (0 ∷ 0 ∷ []) none in_commit (7 ∷ 8 ∷ []) refl
      (inr refl) in_commit-IsSaved
