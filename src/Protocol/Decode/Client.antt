-- ===== src/Protocol/Decode/Client.antt =====
-- The decoders of include/mpmpes/protocol/Packets.hpp for packets that only a client sends.
use mpmpescore_cpp.Prelude.{
  ℕ, zero, suc, replicate, ◌^◌, Bool, not, Option, some, List, [], ◌∷◌, if◌then◌else◌, ◌>>=◌, ◌==◌,
  ltb, min,
}
use mpmpescore_cpp.Prelude.Bits.{bit_and}
use mpmpescore_cpp.Binary.{Bytes}
use mpmpescore_cpp.Binary.Stream.{
  BinaryStream, get, get_byte, get_int, get_long, get_float, get_string, feof,
}
use mpmpescore_cpp.Item.Slot.{ItemStack, get_slot}
use mpmpescore_cpp.Protocol.Info.{
  crafting_event_packet, drop_item_packet, interact_packet, login_packet, mob_equipment_packet,
  player_action_packet, player_input_packet, remove_block_packet, request_chunk_radius_packet,
}
use mpmpescore_cpp.Prelude.Int.{ℤ, pos, ◌+ℤ◌, ◌-ℤ◌}
use mpmpescore_cpp.Prelude.Int.{ℤ, pos, ◌+ℤ◌, ◌-ℤ◌}
use mpmpescore_cpp.Protocol.Decode.{opened}

pub record LoginDecoded : Type 0 where
  pub username : Bytes
  pub protocol1 : ℕ
  pub protocol2 : ℕ
  pub client_id : ℕ
  pub uuid : Bytes
  pub server_address : Bytes
  pub client_secret : Bytes
  pub skin_name : Bytes
  pub skin_data : Bytes

-- A field that is read unless the stream is at its end.
unfoldable pub unless_end :
    (BinaryStream → Option (Bytes × BinaryStream))
    → Bytes
    → BinaryStream
    → Option (Bytes × BinaryStream)
unfolding feof
unless_end read d s = if feof s then some (d, s) else read s

abbrev no_uuid : Bytes
no_uuid = replicate 16 0

unfoldable pub decode_login : Bytes → Option LoginDecoded
unfolding opened unless_end
decode_login b = do
  s ← opened login_packet b
  (name, s) ← get_string s
  (p, s) ← get_int s
  (q, s) ← get_int s
  (c, s) ← get_long s
  (u, s) ← unless_end (get 16) no_uuid s
  (address, s) ← unless_end get_string [] s
  (secret, s) ← unless_end get_string [] s
  (skin, s) ← unless_end get_string [] s
  (pixels, s) ← unless_end get_string [] s
  some (record {
    username = name;
    protocol1 = p;
    protocol2 = q;
    client_id = c;
    uuid = u;
    server_address = address;
    client_secret = secret;
    skin_name = skin;
    skin_data = pixels;
  })

pub record PlayerInputDecoded : Type 0 where
  pub mot_x : Bytes
  pub mot_y : Bytes
  pub jumping : Bool
  pub sneaking : Bool

unfoldable pub decode_player_input : Bool → Bytes → Option PlayerInputDecoded
unfolding opened
decode_player_input big b = do
  s ← opened player_input_packet b
  (u, s) ← get_float big s
  (v, s) ← get_float big s
  (f, s) ← get_byte s
  some (record {
    mot_x = u;
    mot_y = v;
    jumping = not (bit_and f 0x80 == 0);
    sneaking = not (bit_and f 0x40 == 0);
  })

unfoldable pub decode_request_chunk_radius : Bytes → Option ℕ
unfolding opened
decode_request_chunk_radius b = do
  s ← opened request_chunk_radius_packet b
  (r, s) ← get_int s
  some r

pub record PlayerActionDecoded : Type 0 where
  pub eid : ℕ
  pub action : ℕ
  pub x : ℕ
  pub y : ℕ
  pub z : ℕ
  pub face : ℕ

unfoldable pub decode_player_action : Bytes → Option PlayerActionDecoded
unfolding opened
decode_player_action b = do
  s ← opened player_action_packet b
  (e, s) ← get_long s
  (a, s) ← get_int s
  (i, s) ← get_int s
  (j, s) ← get_int s
  (k, s) ← get_int s
  (f, s) ← get_int s
  some (record { eid = e; action = a; x = i; y = j; z = k; face = f })

pub record RemoveBlockDecoded : Type 0 where
  pub eid : ℕ
  pub x : ℕ
  pub y : ℕ
  pub z : ℕ

unfoldable pub decode_remove_block : Bytes → Option RemoveBlockDecoded
unfolding opened
decode_remove_block b = do
  s ← opened remove_block_packet b
  (e, s) ← get_long s
  (i, s) ← get_int s
  (k, s) ← get_int s
  (j, s) ← get_byte s
  some (record { eid = e; x = i; y = j; z = k })

pub record MobEquipmentDecoded : Type 0 where
  pub eid : ℕ
  pub item : ItemStack
  pub slot : ℕ
  pub selected_slot : ℕ

unfoldable pub decode_mob_equipment : Bytes → Option MobEquipmentDecoded
unfolding opened
decode_mob_equipment b = do
  s ← opened mob_equipment_packet b
  (e, s) ← get_long s
  (i, s) ← get_slot s
  (n, s) ← get_byte s
  (m, s) ← get_byte s
  some (record { eid = e; item = i; slot = n; selected_slot = m })

-- The rounds of `for (int i = 0; i < n && i < 128; ++i)`, where `n` is an int32_t.
abbrev pub rounds : ℕ → ℕ
rounds n = if ltb n (2 ^ 31) then min n 128 else 0

unfoldable pub get_slots : ℕ → BinaryStream → Option (List ItemStack × BinaryStream)
get_slots zero s = some ([], s)
get_slots (suc n) s = do (i, s') ← get_slot s; (is, s'') ← get_slots n s'; some (i ∷ is, s'')

pub record CraftingEventDecoded : Type 0 where
  pub window_id : ℕ
  pub kind : ℕ
  pub uuid : Bytes
  pub input : List ItemStack
  pub output : List ItemStack

unfoldable pub decode_crafting_event : Bytes → Option CraftingEventDecoded
unfolding opened get_slots
decode_crafting_event b = do
  s ← opened crafting_event_packet b
  (w, s) ← get_byte s
  (t, s) ← get_int s
  (u, s) ← get 16 s
  (n, s) ← get_int s
  (ins, s) ← get_slots (rounds n) s
  (m, s) ← get_int s
  (outs, s) ← get_slots (rounds m) s
  some (record { window_id = w; kind = t; uuid = u; input = ins; output = outs })

pub record InteractDecoded : Type 0 where
  pub action : ℕ
  pub target : ℕ

unfoldable pub decode_interact : Bytes → Option InteractDecoded
unfolding opened
decode_interact b = do
  s ← opened interact_packet b
  (a, s) ← get_byte s
  (t, s) ← get_long s
  some (record { action = a; target = t })

pub record DropItemDecoded : Type 0 where
  pub kind : ℕ
  pub item : ItemStack

unfoldable pub decode_drop_item : Bytes → Option DropItemDecoded
unfolding opened
decode_drop_item b = do
  s ← opened drop_item_packet b
  (t, s) ← get_byte s
  (i, s) ← get_slot s
  some (record { kind = t; item = i })

-- The block beside a face: down, up, north, south, west and east, and none for another number. A
-- coordinate is an integer that does not overflow.
unfoldable pub face_offset : ℕ → ℤ × ℤ × ℤ → ℤ × ℤ × ℤ
face_offset face (x, y, z) =
    if face == 0
    then (x, y -ℤ pos 1, z)
    else (if face == 1
        then (x, y +ℤ pos 1, z)
        else (if face == 2
            then (x, y, z -ℤ pos 1)
            else (if face == 3
                then (x, y, z +ℤ pos 1)
                else (if face == 4
                    then (x -ℤ pos 1, y, z)
                    else (if face == 5 then (x +ℤ pos 1, y, z) else (x, y, z))))))
