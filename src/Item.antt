-- ===== src/Item.antt =====
-- include/mpmpes/item/Item.hpp: stacks of items and their slots on the wire.
pub mod Slot
pub mod Tests
