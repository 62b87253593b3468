-- ===== src/SharedFs/Mount.antt =====
-- packages/shared-fs/library/src/mount-backend.ts
pub mod Buffer
pub mod Commit
pub mod Target
pub mod Flags
pub mod Handles
pub mod Files
pub mod Directory
pub mod Rights
pub mod Lawful
pub mod Splits
pub mod HandleCalls
pub mod PathCalls
pub mod ReadOnly
pub mod Memory
pub mod History
