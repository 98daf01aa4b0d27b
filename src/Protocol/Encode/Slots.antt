-- ===== src/Protocol/Encode/Slots.antt =====
-- The encoders of include/mpmpes/protocol/Packets.hpp that write item stacks.
use mpmpescore_cpp.Prelude.{
  ℕ, ◌%◌, ◌^◌, Bool, not, ◌&&◌, Option, some, List, [], ◌∷◌, if◌then◌else◌, length, ◌>>=◌, is_empty,
  ◌==◌, map,
}
use mpmpescore_cpp.Binary.{Bytes}
use mpmpescore_cpp.Binary.Stream.{BinaryStream, empty, put}
use mpmpescore_cpp.Binary.Fields.{byte, short, int, long, float, str, plain, put_fields}
use mpmpescore_cpp.Protocol.{sent, zero_float}
use mpmpescore_cpp.Item.Slot.{ItemStack, put_slot}
use mpmpescore_cpp.Protocol.Info.{
  add_entity_packet, add_item_entity_packet, add_player_packet, container_set_content_packet,
  container_set_slot_packet, window_inventory,
}
use mpmpescore_cpp.Protocol.Encode.Metadata.{encode_empty_metadata, encode_player_metadata}

unfoldable pub encode_add_player :
    Bool
    → Bytes
    → Bytes
    → ℕ
    → Bytes
    → Bytes
    → Bytes
    → Bytes
    → Bytes
    → ItemStack
    → Bytes
    → Option Bytes
unfolding put put_slot encode_player_metadata
encode_add_player big uuid username eid x y z yaw pitch held metadata = sent (do
  o ←
      put_fields big
        (byte add_player_packet
          ∷ plain uuid
          ∷ str username
          ∷ long eid
          ∷ float x
          ∷ float y
          ∷ float z
          ∷ float zero_float
          ∷ float zero_float
          ∷ float zero_float
          ∷ float yaw
          ∷ float yaw
          ∷ float pitch
          ∷ [])
        empty
  some (
      put (if is_empty metadata then encode_player_metadata username else metadata)
        (put_slot held o)))

unfoldable pub encode_add_entity :
    Bool
    → ℕ
    → ℕ
    → Bytes
    → Bytes
    → Bytes
    → Bytes
    → Bytes
    → Bytes
    → Bytes
    → Bytes
    → Bytes
    → Option Bytes
unfolding encode_empty_metadata
encode_add_entity big eid kind x y z yaw pitch sx sy sz metadata = sent (
    put_fields big
      (byte add_entity_packet
        ∷ long eid
        ∷ int kind
        ∷ float x
        ∷ float y
        ∷ float z
        ∷ float sx
        ∷ float sy
        ∷ float sz
        ∷ float yaw
        ∷ float pitch
        ∷ plain (if is_empty metadata then encode_empty_metadata else metadata)
        ∷ short 0
        ∷ [])
      empty)

unfoldable pub encode_add_item_entity :
    Bool → ℕ → ItemStack → Bytes → Bytes → Bytes → Bytes → Bytes → Bytes → Option Bytes
unfolding put_slot
encode_add_item_entity big eid stack x y z sx sy sz = sent (do
  o ← put_fields big (byte add_item_entity_packet ∷ long eid ∷ []) empty
  put_fields big (float x ∷ float y ∷ float z ∷ float sx ∷ float sy ∷ float sz ∷ [])
      (put_slot stack o))

-- One slot after the other.
unfoldable pub put_slots : List ItemStack → BinaryStream → BinaryStream
unfolding put_slot
put_slots [] o = o
put_slots (s ∷ slots) o = put_slots slots (put_slot s o)

unfoldable pub encode_container_set_content : Bool → ℕ → List ItemStack → List ℕ → Option Bytes
unfolding put_slots
encode_container_set_content big window_id slots hotbar = sent (do
  o ←
      put_fields big
        (byte container_set_content_packet ∷ byte window_id ∷ short (length slots % 2 ^ 16) ∷ [])
        empty
  put_fields big
      (if window_id == window_inventory && not (is_empty hotbar)
        then short (length hotbar % 2 ^ 16) ∷ map int hotbar
        else short 0 ∷ [])
      (put_slots slots o))

unfoldable pub encode_container_set_slot : Bool → ℕ → ℕ → ℕ → ItemStack → Option Bytes
unfolding put_slot
encode_container_set_slot big window_id slot hotbar_slot stack = sent (do
  o ←
      put_fields big
        (byte container_set_slot_packet ∷ byte window_id ∷ short slot ∷ short hotbar_slot ∷ [])
        empty
  some (put_slot stack o))
