-- ===== src/Raklib.antt =====
-- The RakLib layer: src/raklib and include/mpmpes/raklib.
pub mod Tests
pub mod Encapsulated
pub mod Datagram
pub mod Acknowledge
pub mod Constants
pub mod Session
pub mod SessionManager
