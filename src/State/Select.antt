-- ===== src/State/Select.antt =====
-- src/state.rs and src/state/strategy.rs: the selection of a remote.
pub mod Strategies
pub mod Streams
pub mod Cycle
