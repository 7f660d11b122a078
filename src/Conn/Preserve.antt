-- ===== src/Conn/Preserve.antt =====
-- The invariant of a connection of src/server/connection.rs, handler by handler.
pub mod Data
pub mod Connect
pub mod Control
pub mod Phases
pub mod Inbound
