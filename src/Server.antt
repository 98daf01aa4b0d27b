-- ===== src/Server.antt =====
-- The rules of include/mpmpes/server that need no world.
pub mod Permission
pub mod Bans
pub mod Tests
