-- ===== src/FileShare.antt =====
-- packages/file-share: the transfer library and the React front end.
pub mod Scheduler
pub mod ReadScheduling
