-- ===== src/SharedFs/Store.antt =====
-- packages/shared-fs/library/src/index.ts and model.ts: the documents of the shared file system, and
-- what `SharedFileSystem` does with them.
pub mod Documents
pub mod Order
pub mod Query
pub mod Nodes
pub mod Heads
pub mod Chunks
pub mod Peer
pub mod Infos
pub mod Reads
pub mod Views
pub mod Records
pub mod Saves
pub mod Moves
pub mod Calls
pub mod Cycles
pub mod Saved
pub mod Handle
mod Sample
mod Tests
