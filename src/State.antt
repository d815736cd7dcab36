-- ===== src/State.antt =====
-- src/state.rs and src/state/: the shared state of the proxy.
pub mod Stats
pub mod Remote
pub mod Info
pub mod Store
pub mod View
pub mod Streams
pub mod Dead
pub mod Steps
pub mod Separate
pub mod Watched
pub mod Select
pub mod Counted
pub mod Failures
pub mod Lifecycle
pub mod Remotes
pub mod Mirrored
pub mod Examples
