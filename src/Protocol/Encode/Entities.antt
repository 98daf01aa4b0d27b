-- ===== src/Protocol/Encode/Entities.antt =====
-- The encoders of include/mpmpes/protocol/Packets.hpp for entities and players.
use mpmpescore_cpp.Prelude.{ℕ, Bool, Option, [], ◌∷◌, if◌then◌else◌}
use mpmpescore_cpp.Binary.{Bytes}
use mpmpescore_cpp.Binary.Stream.{empty}
use mpmpescore_cpp.Binary.Fields.{byte, int, long, float, plain, put_fields}
use mpmpescore_cpp.Protocol.{sent}
use mpmpescore_cpp.Protocol.Info.{
  animate_packet, entity_event_packet, move_entity_packet, move_player_packet, remove_entity_packet,
  remove_player_packet, respawn_packet, set_entity_data_packet, set_entity_link_packet,
  set_entity_motion_packet, take_item_entity_packet,
}

unfoldable pub encode_entity_event : Bool → ℕ → ℕ → Option Bytes
encode_entity_event big eid event =
    sent (put_fields big (byte entity_event_packet ∷ long eid ∷ byte event ∷ []) empty)

unfoldable pub encode_animate : Bool → ℕ → ℕ → Option Bytes
encode_animate big action eid =
    sent (put_fields big (byte animate_packet ∷ byte action ∷ long eid ∷ []) empty)

unfoldable pub encode_respawn : Bool → Bytes → Bytes → Bytes → Option Bytes
encode_respawn big x y z =
    sent (put_fields big (byte respawn_packet ∷ float x ∷ float y ∷ float z ∷ []) empty)

unfoldable pub encode_move_player :
    Bool → ℕ → Bytes → Bytes → Bytes → Bytes → Bytes → Bytes → ℕ → Bool → Option Bytes
encode_move_player big eid x y z yaw body_yaw pitch mode on_ground = sent (
    put_fields big
      (byte move_player_packet
        ∷ long eid
        ∷ float x
        ∷ float y
        ∷ float z
        ∷ float yaw
        ∷ float body_yaw
        ∷ float pitch
        ∷ byte mode
        ∷ byte (if on_ground then 1 else 0)
        ∷ [])
      empty)

unfoldable pub encode_remove_entity : Bool → ℕ → Option Bytes
encode_remove_entity big eid =
    sent (put_fields big (byte remove_entity_packet ∷ long eid ∷ []) empty)

unfoldable pub encode_set_entity_link : Bool → ℕ → ℕ → ℕ → Option Bytes
encode_set_entity_link big from to kind =
    sent (put_fields big (byte set_entity_link_packet ∷ long from ∷ long to ∷ byte kind ∷ []) empty)

unfoldable pub encode_remove_player : Bool → ℕ → Bytes → Option Bytes
encode_remove_player big eid uuid =
    sent (put_fields big (byte remove_player_packet ∷ long eid ∷ plain uuid ∷ []) empty)

unfoldable pub encode_set_entity_data : Bool → ℕ → Bytes → Option Bytes
encode_set_entity_data big eid metadata =
    sent (put_fields big (byte set_entity_data_packet ∷ long eid ∷ plain metadata ∷ []) empty)

unfoldable pub encode_move_entity :
    Bool → ℕ → Bytes → Bytes → Bytes → Bytes → Bytes → Bytes → Option Bytes
encode_move_entity big eid x y z yaw head_yaw pitch = sent (
    put_fields big
      (byte move_entity_packet
        ∷ int 1
        ∷ long eid
        ∷ float x
        ∷ float y
        ∷ float z
        ∷ float yaw
        ∷ float head_yaw
        ∷ float pitch
        ∷ [])
      empty)

unfoldable pub encode_take_item_entity : Bool → ℕ → ℕ → Option Bytes
encode_take_item_entity big target_item_eid collector_eid = sent (
    put_fields big (byte take_item_entity_packet ∷ long target_item_eid ∷ long collector_eid ∷ [])
      empty)

unfoldable pub encode_set_entity_motion : Bool → ℕ → Bytes → Bytes → Bytes → Option Bytes
encode_set_entity_motion big eid mx my mz = sent (
    put_fields big
      (byte set_entity_motion_packet ∷ int 1 ∷ long eid ∷ float mx ∷ float my ∷ float mz ∷ [])
      empty)
