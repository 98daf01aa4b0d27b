-- ===== src/Level.antt =====
-- The chunks of a level: src/level and include/mpmpes/level.
pub mod Chunk
pub mod Generators
pub mod Tests
