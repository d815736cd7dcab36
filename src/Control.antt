-- ===== src/Control.antt =====
-- src/controller/: the line protocol that controls the proxy.
pub mod Request
pub mod Response
pub mod Exec
pub mod Words
pub mod Effects
pub mod Session
pub mod Lines
pub mod OpenClose
pub mod Examples
pub mod Printed
