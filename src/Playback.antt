-- ===== src/Playback.antt =====
-- packages/media-streaming/playback-utils/src/playbackLifecycle.ts
pub mod Lifecycle
pub mod Backoff
pub mod Reconcile
mod Tests
