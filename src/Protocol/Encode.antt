-- ===== src/Protocol/Encode.antt =====
-- The encoders of include/mpmpes/protocol/Packets.hpp: one function for each packet.
pub mod World
pub mod Entities
pub mod Containers
pub mod Metadata
pub mod Slots
pub mod Nbt
pub mod Players
pub mod Recipes
