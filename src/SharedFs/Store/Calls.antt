-- ===== src/SharedFs/Store/Calls.antt =====
-- packages/shared-fs/library/src/index.ts: calls that change the documents, one after another.
use peerbit_examples.Prelude.{ℕ, List, [], ◌∷◌}
use peerbit_examples.SharedFs.Path.Split.{Text}
use peerbit_examples.SharedFs.Store.Peer.{Peer}
use peerbit_examples.SharedFs.Store.Saves.{WriteFileOptions, mkdir, write_file, resolve_conflict}
use peerbit_examples.SharedFs.Store.Moves.{rm, rename}

pub data Call : Type 0 where
  making : Text → Call
  writing : Text → List ℕ → WriteFileOptions → Call
  resolving : Text → Text → Call
  removing : Text → Call
  renaming : Text → Text → Call

module _ {S : Type 0} (peer : Peer S) where
  -- The state after a call, whatever it answers or throws.
  unfoldable pub step : Call → S → S
  step (making path) s = (mkdir peer path s).0
  step (writing path bytes options) s = (write_file peer path bytes options s).0
  step (resolving path version_id) s = (resolve_conflict peer path version_id s).0
  step (removing path) s = (rm peer path s).0
  step (renaming from to) s = (rename peer from to s).0

  unfoldable pub run : List Call → S → S
  run [] s = s
  run (c ∷ cs) s = run cs (step c s)
