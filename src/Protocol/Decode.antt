-- ===== src/Protocol/Decode.antt =====
-- The decoders of include/mpmpes/protocol/Packets.hpp. The result is `none` where `ok` stays false:
-- for another packet's number, and where the stream is too short; the fields that were read before
-- are then dropped, as the callers look at `ok` first.
pub mod Client
pub mod UseItem
pub mod RoundTrip
use mpmpescore_cpp.Prelude.{
  ℕ, zero, suc, ◌-◌, replicate, ◌+◌, ◌*◌, ◌/◌, ◌%◌, ◌^◌, ◌<◌, ◌≡◌, refl, Bool, true, false, not,
  ◌&&◌, ◌||◌, Option, none, some, List, [], ◌∷◌, ◌++◌, if◌then◌else◌, length, ◌>>=◌, take, is_empty,
  ◌==◌, ltb, min, map, get_or,
}
use mpmpescore_cpp.Prelude.Bits.{bit_and, bit_or, bit_xor}
use mpmpescore_cpp.Binary.{Bytes}
use mpmpescore_cpp.Binary.Stream.{
  BinaryStream, get, get_byte, get_int, get_short, get_long, get_float, get_string, get_remaining,
  feof,
}
use mpmpescore_cpp.Binary.Fields.{
  Field, byte, bool, short, lshort, int, lint, long, float, str, plain, put_fields,
}
use mpmpescore_cpp.Protocol.{sent}
use mpmpescore_cpp.Item.Slot.{ItemStack, get_slot}
use mpmpescore_cpp.Protocol.Info.{
  add_entity_packet, add_item_entity_packet, add_player_packet, adventure_settings_packet,
  animate_packet, batch_packet, block_entity_data_packet, block_event_packet,
  change_dimension_packet, chunk_radius_update_packet, container_close_packet,
  container_open_packet, container_set_content_packet, container_set_data_packet,
  container_set_slot_packet, craft_entry_shaped, craft_entry_shapeless, crafting_data_packet,
  crafting_event_packet, data_air, data_color_info, data_flags, data_nametag, data_no_ai,
  data_show_nametag, data_type_byte, data_type_short, data_type_string, disconnect_packet,
  drop_item_packet, entity_event_packet, event_particle_destroy, full_chunk_data_packet,
  interact_packet, level_event_packet, login_packet, mob_equipment_packet, move_entity_packet,
  move_player_packet, play_status_packet, player_action_packet, player_input_packet,
  player_list_packet, remove_block_packet, remove_entity_packet, remove_player_packet,
  request_chunk_radius_packet, respawn_packet, set_difficulty_packet, set_entity_data_packet,
  set_entity_link_packet, set_entity_motion_packet, set_health_packet, set_player_gametype_packet,
  set_spawn_position_packet, set_time_packet, start_game_packet, take_item_entity_packet, text_chat,
  text_packet, text_popup, text_raw, text_system, text_tip, text_translation, update_block_packet,
  update_flag_all, update_flag_neighbors, update_flag_network, use_item_packet, window_inventory,
}

-- A stream at the start of a packet, past its number.
unfoldable pub opened : ℕ → Bytes → Option BinaryStream
unfolding get_byte
opened packet b = do
  (p, s) ← get_byte (record { buffer = b; offset = 0 })
  (if p == packet then some s else none)

pub record AnimateDecoded : Type 0 where
  pub action : ℕ
  pub eid : ℕ

unfoldable pub decode_animate : Bytes → Option AnimateDecoded
unfolding opened
decode_animate b = do
  s ← opened animate_packet b
  (a, s) ← get_byte s
  (e, s) ← get_long s
  some (record { action = a; eid = e })

pub record BlockEntityDataPacket : Type 0 where
  pub x : ℕ
  pub y : ℕ
  pub z : ℕ
  pub namedtag : Bytes

unfoldable pub decode_block_entity_data : Bytes → Option BlockEntityDataPacket
unfolding opened
decode_block_entity_data b = do
  s ← opened block_entity_data_packet b
  (i, s) ← get_int s
  (j, s) ← get_int s
  (k, s) ← get_int s
  some (record { x = i; y = j; z = k; namedtag = (get_remaining s).0 })

pub record ContainerSetSlotDecoded : Type 0 where
  pub window_id : ℕ
  pub slot : ℕ
  pub hotbar_slot : ℕ
  pub item : ItemStack

unfoldable pub decode_container_set_slot : Bytes → Option ContainerSetSlotDecoded
unfolding opened
decode_container_set_slot b = do
  s ← opened container_set_slot_packet b
  (w, s) ← get_byte s
  (n, s) ← get_short s
  (h, s) ← get_short s
  (i, s) ← get_slot s
  some (record { window_id = w; slot = n; hotbar_slot = h; item = i })

pub record MoveDecoded : Type 0 where
  pub eid : ℕ
  pub x : Bytes
  pub y : Bytes
  pub z : Bytes
  pub yaw : Bytes
  pub body_yaw : Bytes
  pub pitch : Bytes
  pub mode : ℕ
  pub on_ground : Bool

unfoldable pub decode_move_player : Bool → Bytes → Option MoveDecoded
unfolding opened
decode_move_player big b = do
  s ← opened move_player_packet b
  (e, s) ← get_long s
  (i, s) ← get_float big s
  (j, s) ← get_float big s
  (k, s) ← get_float big s
  (u, s) ← get_float big s
  (v, s) ← get_float big s
  (w, s) ← get_float big s
  (m, s) ← get_byte s
  (g, s) ← get_byte s
  some (record {
    eid = e;
    x = i;
    y = j;
    z = k;
    yaw = u;
    body_yaw = v;
    pitch = w;
    mode = m;
    on_ground = ltb 0 g;
  })

pub record TextDecoded : Type 0 where
  pub kind : ℕ
  pub author : Bytes
  pub text : Bytes

-- The parameters of a translation are read and dropped.
unfoldable pub skip_strings : ℕ → BinaryStream → Option BinaryStream
skip_strings zero s = some s
skip_strings (suc n) s = do (t, s') ← get_string s; skip_strings n s'

-- The switch on the type, with its fall-through.
unfoldable pub text_body : ℕ → BinaryStream → Option TextDecoded
unfolding skip_strings
text_body t s =
    if t == text_popup || t == text_chat
    then (do
      (a, s) ← get_string s
      (m, s) ← get_string s
      some (record { kind = t; author = a; text = m }))
    else (if t == text_raw || t == text_tip || t == text_system
        then (do (m, s) ← get_string s; some (record { kind = t; author = []; text = m }))
        else (if t == text_translation
            then (do
              (m, s) ← get_string s
              (n, s) ← get_byte s
              s ← skip_strings n s
              some (record { kind = t; author = []; text = m }))
            else some (record { kind = t; author = []; text = [] })))

unfoldable pub decode_text : Bytes → Option TextDecoded
unfolding opened text_body
decode_text b = do s ← opened text_packet b; (t, s) ← get_byte s; text_body t s
