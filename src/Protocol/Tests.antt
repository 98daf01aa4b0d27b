-- ===== src/Protocol/Tests.antt =====
-- Packets on small inputs.
use mpmpescore_cpp.Prelude.{◌≡◌, refl, arith, true, false, some, [], ◌∷◌, All}
use mpmpescore_cpp.Prelude.Int.{pos, negsuc, ◌+ℤ◌}
use mpmpescore_cpp.Binary.{Bytes, write_int}
use mpmpescore_cpp.Binary.Stream.{put_byte, put_int}
use mpmpescore_cpp.Binary.Fields.{Fits}
use mpmpescore_cpp.Item.Slot.{of, sanitize_slot}
use mpmpescore_cpp.Protocol.Encode.World.{encode_update_block}
use mpmpescore_cpp.Protocol.Encode.Slots.{encode_container_set_slot}
use mpmpescore_cpp.Protocol.Decode.{MoveDecoded, decode_container_set_slot}
use mpmpescore_cpp.Protocol.Decode.Client.{face_offset}
use mpmpescore_cpp.Protocol.Decode.RoundTrip.{
  move_fields, decode_container_set_slot-encode_container_set_slot,
}

encode_update_block-bytes :
    encode_update_block false 1 300 2 35 14 3
    ≡ some (0x9f ∷ 0 ∷ 0 ∷ 0 ∷ 1 ∷ 0 ∷ 0 ∷ 0 ∷ 1 ∷ 0 ∷ 0 ∷ 0 ∷ 2 ∷ 44 ∷ 35 ∷ 0x3e ∷ [])
unfolding encode_update_block put_byte put_int write_int
encode_update_block-bytes = refl

face_offset-up : face_offset 1 (pos 3, negsuc 0, pos 5) ≡ (pos 3, pos 0, pos 5)
unfolding face_offset ◌+ℤ◌
face_offset-up = refl

-- A player who stands on the ground; the floats are raw bytes.
abbrev one_float : Bytes
one_float = 0 ∷ 0 ∷ 0x80 ∷ 0x3f ∷ []

abbrev a_move : MoveDecoded
a_move = record {
  eid = 7;
  x = one_float;
  y = one_float;
  z = one_float;
  yaw = one_float;
  body_yaw = one_float;
  pitch = one_float;
  mode = 0;
  on_ground = true;
}

a_move-Fits : All Fits (move_fields a_move)
a_move-Fits = ground arith

decode_container_set_slot-encode_container_set_slot_example :
    (b : Bytes) × (encode_container_set_slot false 0 5 0 (of (pos 154) 200 (negsuc 4)) ≡ some b)
    × (decode_container_set_slot b
        ≡ some (record {
          window_id = 0;
          slot = 5;
          hotbar_slot = 0;
          item = sanitize_slot (of (pos 154) 200 (negsuc 4));
        }))
decode_container_set_slot-encode_container_set_slot_example =
    decode_container_set_slot-encode_container_set_slot false 0 5 0 (of (pos 154) 200 (negsuc 4))
      (omega arith) (omega arith) (omega arith)
      (record { id_fits = omega arith; count_fits = omega arith; damage_fits = omega arith })
