-- ===== src/Aio.antt =====
-- src/aio.rs: copying between a client and a remote.
pub mod Streams
pub mod Buffer
pub mod Transfer
pub mod Faithful
pub mod Ends
pub mod Delivered
mod Examples
