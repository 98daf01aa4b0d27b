-- ===== src/Protocol/Decode/RoundTrip.antt =====
-- What an encoder of include/mpmpes/protocol/Packets.hpp writes, the decoder for its packet reads.
use mpmpescore_cpp.Prelude.{
  ℕ, ◌^◌, ◌<◌, ◌≡◌, refl, Bool, true, false, some, List, [], ◌∷◌, ◌++◌, if◌then◌else◌, length, ◌==◌,
  ltb,
}
use mpmpescore_cpp.Binary.{Bytes}
use mpmpescore_cpp.Binary.Stream.{BinaryStream, empty}
use mpmpescore_cpp.Binary.Fields.{Field, byte, short, long, float, str, put_fields}
use mpmpescore_cpp.Protocol.{sent}
use mpmpescore_cpp.Item.Slot.{ItemStack, put_slot, sanitize_slot}
use mpmpescore_cpp.Protocol.Info.{
  container_set_slot_packet, move_player_packet, text_chat, text_packet,
}
use mpmpescore_cpp.Prelude.{All, append_assoc, ap, ◌∙◌, arith, bind-some, append-nil}
use mpmpescore_cpp.Binary.At.{at}
use mpmpescore_cpp.Binary.Fields.{Fits, message, put_fields-message, bytes_of}
use mpmpescore_cpp.Binary.Fields.Reads.{
  get_byte-field, get_short-field, get_long-field, get_float-field, get_string-field,
}
use mpmpescore_cpp.Item.Slot.Clean.{IsStack}
use mpmpescore_cpp.Item.Slot.RoundTrip.{get_slot-slot_bytes}
use mpmpescore_cpp.Item.Slot.Written.{slot_bytes, put_slot-slot_bytes}
use mpmpescore_cpp.Protocol.Encode.World.{encode_text_chat}
use mpmpescore_cpp.Protocol.Encode.Entities.{encode_move_player}
use mpmpescore_cpp.Protocol.Encode.Slots.{encode_container_set_slot}
use mpmpescore_cpp.Protocol.Decode.{
  opened, decode_container_set_slot, MoveDecoded, decode_move_player, text_body, decode_text,
}

-- Fields that fit are sent as their message.
pub sent-put_fields :
    (big : Bool) (fs : List Field)
    → All Fits fs
    → sent (put_fields big fs empty) ≡ some (message big fs)
sent-put_fields big fs h = ap sent (put_fields-message big fs empty h)

opened-message :
    (big : Bool) (packet : ℕ) (rest : Bytes)
    → packet < 2 ^ 8
    → opened packet (bytes_of big (byte packet) ++ rest)
      ≡ some (at (bytes_of big (byte packet)) rest)
unfolding opened
opened-message big packet rest h =
    let same : (packet == packet) ≡ true = ground arith in
    rw (get_byte-field big [] rest packet h, same) refl

-- The fields of a movement packet.
abbrev pub move_fields : MoveDecoded → List Field
move_fields m =
    byte move_player_packet
    ∷ long m.eid
    ∷ float m.x
    ∷ float m.y
    ∷ float m.z
    ∷ float m.yaw
    ∷ float m.body_yaw
    ∷ float m.pitch
    ∷ byte m.mode
    ∷ byte (if m.on_ground then 1 else 0)
    ∷ []

ground_byte : (b : Bool) → (ltb 0 (if b then 1 else 0) ≡ b) × ((if b then 1 else 0) < 2 ^ 8)
ground_byte true = (refl, omega arith)
ground_byte false = (refl, omega arith)

-- A movement with an identifier of 64 bits, a mode of 8 bits and six floats of four bytes is written
-- without an exception on a host of either byte order, and the decoder reads back the same movement
-- from what was written.
pub decode_move_player-encode_move_player :
    (big : Bool) (m : MoveDecoded)
    → All Fits (move_fields m)
    → (b : Bytes) × (encode_move_player big m.eid m.x m.y m.z m.yaw m.body_yaw m.pitch m.mode
          m.on_ground
        ≡ some b)
      × (decode_move_player big b ≡ some m)
unfolding encode_move_player decode_move_player
decode_move_player-encode_move_player big m (p, (e, (x, (y, (z, (u, (v, (w, (o, (g, _)))))))))) = (
  message big (move_fields m),
  sent-put_fields big (move_fields m) (p, (e, (x, (y, (z, (u, (v, (w, (o, (g, tt)))))))))),
  rw
      (
        opened-message big move_player_packet _ p,
        get_long-field big _ _ m.eid e,
        get_float-field big _ _ m.x x,
        get_float-field big _ _ m.y y,
        get_float-field big _ _ m.z z,
        get_float-field big _ _ m.yaw u,
        get_float-field big _ _ m.body_yaw v,
        get_float-field big _ _ m.pitch w,
        get_byte-field big _ _ m.mode o,
        get_byte-field big _ [] (if m.on_ground then 1 else 0) g,
        (ground_byte m.on_ground).0,
      )
      refl,
)

-- A line of chat whose author and text have lengths of 16 bits is written, and the decoder reads
-- back the author and the text.
pub decode_text-encode_text_chat :
    (big : Bool) (author text : Bytes)
    → length author < 2 ^ 16
    → length text < 2 ^ 16
    → (b : Bytes) × (encode_text_chat big author text ≡ some b)
      × (decode_text b ≡ some (record { kind = text_chat; author = author; text = text }))
unfolding encode_text_chat decode_text text_body
decode_text-encode_text_chat big author text h k =
    let fs : List Field = byte text_packet ∷ byte text_chat ∷ str author ∷ str text ∷ [] in
    (
      message big fs,
      sent-put_fields big fs (omega arith, (omega arith, (h, (k, tt)))),
      rw
          (
            opened-message big text_packet _ (omega arith),
            get_byte-field big _ _ text_chat (omega arith),
            get_string-field big _ _ author h,
            get_string-field big _ [] text k,
          )
          refl,
    )

-- A slot of a container is written and read back with the sanitized item, for any item stack in
-- range; the window has 8 bits and the two slot numbers have 16.
pub decode_container_set_slot-encode_container_set_slot :
    (big : Bool) (window slot hotbar : ℕ) (item : ItemStack)
    → window < 2 ^ 8
    → slot < 2 ^ 16
    → hotbar < 2 ^ 16
    → IsStack item
    → (b : Bytes) × (encode_container_set_slot big window slot hotbar item ≡ some b)
      × (decode_container_set_slot b
          ≡ some (record {
            window_id = window;
            slot = slot;
            hotbar_slot = hotbar;
            item = sanitize_slot item;
          }))
unfolding encode_container_set_slot decode_container_set_slot
decode_container_set_slot-encode_container_set_slot big window slot hotbar item h k l g =
    let fs : List Field =
      byte container_set_slot_packet ∷ byte window ∷ short slot ∷ short hotbar ∷ [] in
    let bytes = slot_bytes (sanitize_slot item) in
    let head : Field → Bytes → Bytes = λ f rest. bytes_of big f ++ rest in
    let order : message big fs ++ bytes
        ≡ head (byte container_set_slot_packet)
            (head (byte window) (head (short slot) (head (short hotbar) (bytes ++ [])))) =
      simp (append_assoc, append-nil) in
    (
      message big fs ++ bytes,
      bind-some _ (λ s. some s.buffer) _
            (bind-some _ (λ o. some (put_slot item o)) _
              (put_fields-message big fs empty (omega arith, (h, (k, (l, tt))))))
          ∙ ap (λ (o : BinaryStream). some o.buffer) (put_slot-slot_bytes item _),
      ap decode_container_set_slot order
          ∙ rw
              (
                opened-message big container_set_slot_packet _ (omega arith),
                get_byte-field big _ _ window h,
                get_short-field big _ _ slot k,
                get_short-field big _ _ hotbar l,
                get_slot-slot_bytes item _ [] g,
              )
              refl,
    )
