-- ===== src/SharedFs.antt =====
-- packages/shared-fs/library: a file system over a shared database, and its mount backend.
pub mod Path
pub mod Conflicts
pub mod Mount
pub mod Store
