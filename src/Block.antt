-- ===== src/Block.antt =====
-- Blocks that look at their neighbours: include/mpmpes/block.
pub mod Rails
pub mod Tests
