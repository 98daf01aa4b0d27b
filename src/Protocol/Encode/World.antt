-- ===== src/Protocol/Encode/World.antt =====
-- The encoders of include/mpmpes/protocol/Packets.hpp for the world, chat and chunks.
use mpmpescore_cpp.Prelude.{ℕ, ◌+◌, ◌*◌, ◌%◌, ◌^◌, Bool, Option, [], ◌∷◌, if◌then◌else◌, length}
use mpmpescore_cpp.Prelude.Bits.{bit_and, bit_or}
use mpmpescore_cpp.Binary.{Bytes}
use mpmpescore_cpp.Binary.Stream.{empty}
use mpmpescore_cpp.Binary.Fields.{byte, short, int, long, float, str, plain, put_fields}
use mpmpescore_cpp.Protocol.{sent}
use mpmpescore_cpp.Protocol.Info.{
  adventure_settings_packet, batch_packet, block_entity_data_packet, block_event_packet,
  change_dimension_packet, chunk_radius_update_packet, disconnect_packet, event_particle_destroy,
  full_chunk_data_packet, level_event_packet, play_status_packet, set_difficulty_packet,
  set_health_packet, set_player_gametype_packet, set_spawn_position_packet, set_time_packet,
  start_game_packet, text_chat, text_packet, text_raw, text_system, update_block_packet,
}

unfoldable pub encode_play_status : Bool → ℕ → Option Bytes
encode_play_status big status =
    sent (put_fields big (byte play_status_packet ∷ int status ∷ []) empty)

unfoldable pub encode_disconnect : Bool → Bytes → Option Bytes
encode_disconnect big text = sent (put_fields big (byte disconnect_packet ∷ str text ∷ []) empty)

unfoldable pub encode_start_game :
    Bool → ℕ → ℕ → ℕ → ℕ → ℕ → ℕ → ℕ → ℕ → Bytes → Bytes → Bytes → Bytes → Option Bytes
encode_start_game big seed dimension generator gamemode eid spawn_x spawn_y spawn_z x y z unknown =
    sent (
      put_fields big
        (byte start_game_packet
          ∷ int seed
          ∷ byte dimension
          ∷ int generator
          ∷ int gamemode
          ∷ long eid
          ∷ int spawn_x
          ∷ int spawn_y
          ∷ int spawn_z
          ∷ float x
          ∷ float y
          ∷ float z
          ∷ byte 1
          ∷ byte 1
          ∷ byte 0
          ∷ str unknown
          ∷ [])
        empty)

unfoldable pub encode_set_time : Bool → ℕ → Bool → Option Bytes
encode_set_time big time started =
    sent (
      put_fields big (byte set_time_packet ∷ int time ∷ byte (if started then 1 else 0) ∷ []) empty)

unfoldable pub encode_change_dimension : Bool → ℕ → Option Bytes
encode_change_dimension big dimension =
    sent (put_fields big (byte change_dimension_packet ∷ byte dimension ∷ byte 0 ∷ []) empty)

unfoldable pub encode_set_spawn_position : Bool → ℕ → ℕ → ℕ → Option Bytes
encode_set_spawn_position big x y z =
    sent (put_fields big (byte set_spawn_position_packet ∷ int x ∷ int y ∷ int z ∷ []) empty)

unfoldable pub encode_set_health : Bool → ℕ → Option Bytes
encode_set_health big health =
    sent (put_fields big (byte set_health_packet ∷ int health ∷ []) empty)

unfoldable pub encode_set_difficulty : Bool → ℕ → Option Bytes
encode_set_difficulty big difficulty =
    sent (put_fields big (byte set_difficulty_packet ∷ int difficulty ∷ []) empty)

unfoldable pub encode_set_player_game_type : Bool → ℕ → Option Bytes
encode_set_player_game_type big gamemode =
    sent (put_fields big (byte set_player_gametype_packet ∷ int gamemode ∷ []) empty)

unfoldable pub encode_full_chunk_data : Bool → ℕ → ℕ → Bytes → ℕ → Option Bytes
encode_full_chunk_data big chunk_x chunk_z payload order = sent (
    put_fields big
      (byte full_chunk_data_packet
        ∷ int chunk_x
        ∷ int chunk_z
        ∷ byte order
        ∷ int (length payload % 2 ^ 32)
        ∷ plain payload
        ∷ [])
      empty)

unfoldable pub encode_chunk_radius_update : Bool → ℕ → Option Bytes
encode_chunk_radius_update big radius =
    sent (put_fields big (byte chunk_radius_update_packet ∷ int radius ∷ []) empty)

unfoldable pub encode_adventure_settings : Bool → ℕ → ℕ → ℕ → Option Bytes
encode_adventure_settings big flags user_perm global_perm = sent (
    put_fields big
      (byte adventure_settings_packet ∷ int flags ∷ int user_perm ∷ int global_perm ∷ []) empty)

unfoldable pub encode_text_system : Bool → Bytes → Option Bytes
encode_text_system big text =
    sent (put_fields big (byte text_packet ∷ byte text_system ∷ str text ∷ []) empty)

unfoldable pub encode_text_chat : Bool → Bytes → Bytes → Option Bytes
encode_text_chat big author text =
    sent (put_fields big (byte text_packet ∷ byte text_chat ∷ str author ∷ str text ∷ []) empty)

unfoldable pub encode_text_raw : Bool → Bytes → Option Bytes
encode_text_raw big text =
    sent (put_fields big (byte text_packet ∷ byte text_raw ∷ str text ∷ []) empty)

unfoldable pub encode_update_block : Bool → ℕ → ℕ → ℕ → ℕ → ℕ → ℕ → Option Bytes
encode_update_block big x y z block_id meta flags = sent (
    put_fields big
      (byte update_block_packet
        ∷ int 1
        ∷ int x
        ∷ int z
        ∷ byte (y % 256)
        ∷ byte block_id
        ∷ byte (bit_or (flags * 16) (bit_and meta 0x0f) % 256)
        ∷ [])
      empty)

unfoldable pub encode_level_event : Bool → ℕ → Bytes → Bytes → Bytes → ℕ → Option Bytes
encode_level_event big evid x y z payload = sent (
    put_fields big
      (byte level_event_packet ∷ short evid ∷ float x ∷ float y ∷ float z ∷ int payload ∷ []) empty)

unfoldable pub encode_block_event : Bool → ℕ → ℕ → ℕ → ℕ → ℕ → Option Bytes
encode_block_event big x y z case1 case2 = sent (
    put_fields big (byte block_event_packet ∷ int x ∷ int y ∷ int z ∷ int case1 ∷ int case2 ∷ [])
      empty)

unfoldable pub encode_block_entity_data : Bool → ℕ → ℕ → ℕ → Bytes → Option Bytes
encode_block_entity_data big x y z namedtag_le = sent (
    put_fields big (byte block_entity_data_packet ∷ int x ∷ int y ∷ int z ∷ plain namedtag_le ∷ [])
      empty)

unfoldable pub encode_batch : Bool → Bytes → Option Bytes
encode_batch big zlib_payload = sent (
    put_fields big
      (byte batch_packet ∷ int (length zlib_payload % 2 ^ 32) ∷ plain zlib_payload ∷ []) empty)

unfoldable pub encode_destroy_block_particle : Bool → Bytes → Bytes → Bytes → ℕ → ℕ → Option Bytes
unfolding encode_level_event
encode_destroy_block_particle big x y z block_id meta =
    encode_level_event big event_particle_destroy x y z (block_id + meta * 2 ^ 12)
