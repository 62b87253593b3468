-- ===== src/Lib.antt =====
-- Verification of the Peerbit examples: how files are scheduled, mounted and played.  Paths are from
-- the repository's root.
--
-- FileShare (packages/file-share/library/src).
--   Scheduler, over transfer-scheduling.ts: `FairTransferScheduler`.  Scheduler/State and
--   Scheduler/Owners hold the scheduler's fields: the owners with their queues, the rotation, the
--   reserved head, the counters and the permits that are held.  A promise is a list of settlements by
--   request, a listener of a signal is a call of `remove_pending`, and a permit's `release` closure is
--   found by the permit's id.  Scheduler/Pump is `pump` with `grant` and `unscheduleOwner`,
--   Scheduler/Requests `acquire`, `removePending`, `cancelOwner`, `close` and `reopen`, and
--   Scheduler/Permits `release`.  Scheduler itself has the calls, `step` and `run`.  The proofs stand in
--   Budget and Limits (the limits), Rule, Requests and History (settlements), Accounting (the sums),
--   Termination, Progress, Coverage, Settled and Waiting (`pump`, and what waits behind a call).  The loop of
--   `pump` is bounded by `rounds`, which counts the requests and the entries of the rotation
--   (Scheduler/Termination).
--   ReadScheduling, over read-scheduling.ts: the read-ahead window; ReadScheduling/Circuit is
--   `ManifestHeadBatchCircuit`, with histories of calls by batches in any order.
--
-- SharedFs (packages/shared-fs/library/src).
--   Path and Conflicts, over path.ts.  A text is the list of its UTF-8 bytes, so `encodeURIComponent`
--   and `decodeURIComponent` work byte by byte.
--   Mount, over mount-backend.ts.  Mount/Buffer is the buffer of an open file, and its reads, writes
--   and resizes; the doubling loop of `growTo` is bounded by the capacity, which is enough since it
--   starts at 64 KiB.  Mount/Commit has the two halves of `commitNow`, before and after `writeFile` is
--   awaited, and the relation of what may land between them.  Mount/Target has the target and the paths
--   of the conflict directory, Mount/Flags `parseFlags`, Mount/Handles the map of open handles with
--   `open`, `read` and `write`, Mount/Files `truncate`, `flush`, `fsync` and `release`, and
--   Mount/Directory `getattr`, `readdir`, `mkdir`, `rmdir`, `rename` and `unlink`.  Mount/History has the
--   calls and what holds after each; Lawful, Splits, Rights, HandleCalls and PathCalls carry its proof.
--   The target, the hash and the clock are parameters; Mount/Memory is a target to run mounts on.  Apart
--   from Commit, an operation runs to its end before the next one.  The flags' `append` is parsed and
--   used nowhere, as in the code.
--
--   Store, over index.ts and model.ts: `SharedFileSystem` and its documents.  The database that holds
--   the documents is a parameter, `Index`: a list of documents and a put, with the laws of `IsIndex`.
--   Parameters of a `Peer` are also the hash, the order of ids by `localeCompare`, the clock, the random
--   part of ids, the trust graph and the chunks that remote peers answer.  Store/Documents has the
--   records of model.ts (the ids that it keeps as JSON texts are lists), Store/Order the sorts,
--   Store/Nodes the tree of directories and its paths, Store/Heads the versions that are current,
--   Store/Chunks the pieces of a content, Store/Peer
--   `canPerformEntry` and the calls as actions that may throw, Store/Reads `readFile` and `readVersion`,
--   Store/Views `stat`, `list`, `versions` and `conflicts`, Store/Saves `mkdir`, `writeFile` and
--   `resolveConflict`, Store/Moves `rm` and `rename`, Store/Calls sequences of calls, and
--   Store/Handle `SharedFsHandle` as the target of a mount.  A write
--   takes the bytes as `writeFile` finds them when it hashes them, which is after awaits: the mount passes a
--   view of its live buffer, so after a write in between they are not those that the mount hashed.  A write
--   that lands between that and the put of a chunk is not modelled.  A put that access control does not permit throws what is no `SharedFsError`.  The walks up the parents and the
--   loop over the candidates of a read are bounded by the number of documents, which is enough since they
--   come to no document twice: Store/Nodes/Tree, Store/Nodes/Above and Store/Reads/Candidates show it for
--   `isWithinSubtree`, `pathForRecord` and `readFile`.  Of a call's concurrent fetches and puts one
--   follows the other, the heads of many nodes are asked for node by node and not in batches, and the
--   memo of `pathForRecord` is left out.  Cycles and Saved with their children carry the proofs about
--   cycles of parents and about what a write stores; Sample is a peer to run calls on.
--
-- Playback (packages/media-streaming/playback-utils/src/playbackLifecycle.ts).  Lifecycle fences
-- generations, Backoff has the delays, budgets and keyed backoffs, and Reconcile the reconciliation of a
-- playback request and the progress callback.  Callbacks and waits act on a state of the caller's, which
-- is a parameter; times, factors and attempts are natural numbers.
--
-- Prelude has the names, tests and lemmas that the parts share.
--
-- Not modelled: the documents of the file share, the opening of the database under the shared file system
-- (the database is in a library that is not part of the repository), the React frontends, the command line tools, and the
-- remaining examples.  JavaScript's numbers are natural numbers where the code keeps them safe integers;
-- where a guard of the code tells other numbers apart, these are a constructor of their own.
pub mod FileShare
pub mod Playback
pub mod Prelude
pub mod SharedFs
