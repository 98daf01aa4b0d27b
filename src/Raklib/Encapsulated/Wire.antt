-- ===== src/Raklib/Encapsulated/Wire.antt =====
-- The bytes that `to_binary` of src/raklib/EncapsulatedPacket.cpp writes, stage by stage.
use mpmpescore_cpp.Prelude.{
  ℕ, ◌*◌, ◌/◌, ◌%◌, ◌^◌, ◌<◌, ◌≡◌, refl, Bool, true, false, none, ◌∷◌, ◌++◌, arith, length,
  append_assoc, append-nil, if◌then◌else◌,
}
use mpmpescore_cpp.Prelude.Bits.{bit_and, bit_or, same_tables, agree_below}
use mpmpescore_cpp.Binary.{Bytes}
use mpmpescore_cpp.Binary.Stream.{BinaryStream, put_byte, put_int, put_short, put_ltriad}
use mpmpescore_cpp.Raklib.Encapsulated.{
  EncapsulatedPacket, is_reliable, is_ordered, to_binary, with_flags, put_message_index, put_order,
  put_split,
}
use mpmpescore_cpp.Raklib.Encapsulated.Stages.{
  Present, length_bytes, message_bytes, order_bytes, split_bytes,
}

-- The optional fields are those that the reliability and the split flag call for, each value fits
-- its width on the wire, and the length in bits fits 16 bits.
pub record IsWire (p : EncapsulatedPacket) : Type 0 where
  pub reliability : p.reliability < 8
  pub message : Present (is_reliable p.reliability) p.message_index (2 ^ 24)
  pub order : Present (is_ordered p.reliability) p.order_index (2 ^ 24)
  pub channel : Present (is_ordered p.reliability) p.order_channel (2 ^ 8)
  pub count : Present p.has_split p.split_count (2 ^ 32)
  pub id : Present p.has_split p.split_id (2 ^ 16)
  pub index : Present p.has_split p.split_index (2 ^ 32)
  pub buffer : length p.buffer < 2 ^ 13
  pub need_ack : p.need_ack ≡ false
  pub identifier_ack : p.identifier_ack ≡ none

abbrev pub flags_of : EncapsulatedPacket → ℕ
flags_of p = bit_or (p.reliability * 32) (if p.has_split then 0x10 else 0) % 256

flags_split :
    (r : ℕ)
    → r < 8
    → (bit_and (bit_or (r * 32) 0x10 % 256) 0xe0 / 32 ≡ r)
      × (bit_and (bit_or (r * 32) 0x10 % 256) 0x10 ≡ 16)
unfolding same_tables
flags_split r h = (
  agree_below 8 (λ i. bit_and (bit_or (i * 32) 0x10 % 256) 0xe0 / 32) (λ i. i) r refl h,
  agree_below 8 (λ i. bit_and (bit_or (i * 32) 0x10 % 256) 0x10) (λ i. 16) r refl h,
)

flags_whole :
    (r : ℕ)
    → r < 8
    → (bit_and (bit_or (r * 32) 0 % 256) 0xe0 / 32 ≡ r)
      × (bit_and (bit_or (r * 32) 0 % 256) 0x10 ≡ 0)
unfolding same_tables
flags_whole r h = (
  agree_below 8 (λ i. bit_and (bit_or (i * 32) 0 % 256) 0xe0 / 32) (λ i. i) r refl h,
  agree_below 8 (λ i. bit_and (bit_or (i * 32) 0 % 256) 0x10) (λ i. 0) r refl h,
)

-- The flag byte gives the reliability and the split flag back.
pub flags_lem :
    (r : ℕ) (s : Bool)
    → r < 8
    → with_flags (bit_or (r * 32) (if s then 0x10 else 0) % 256)
      ≡ record (with_flags 0) { reliability = r; has_split = s }
flags_lem r true h = rw ((flags_split r h).0, (flags_split r h).1)
flags_lem r false h = rw ((flags_whole r h).0, (flags_whole r h).1)

put_message_index_lem :
    (b : Bool) (p : EncapsulatedPacket) (out : BinaryStream)
    → put_message_index b p out
      ≡ record out { buffer = out.buffer ++ message_bytes b p.message_index }
unfolding put_message_index put_ltriad
put_message_index_lem true p out = refl
put_message_index_lem false p out = rw append-nil

put_order_lem :
    (b : Bool) (p : EncapsulatedPacket) (out : BinaryStream)
    → put_order b p out
      ≡ record out { buffer = out.buffer ++ order_bytes b p.order_index p.order_channel }
unfolding put_order put_ltriad put_byte
put_order_lem true p out = rw append_assoc
put_order_lem false p out = rw append-nil

put_split_lem :
    (b : Bool) (p : EncapsulatedPacket) (out : BinaryStream)
    → put_split b p out
      ≡ record out { buffer = out.buffer ++ split_bytes b p.split_count p.split_id p.split_index }
unfolding put_split put_int put_short
put_split_lem true p out = simp append_assoc
put_split_lem false p out = rw append-nil

-- What `to_binary` writes, stage by stage.
module _ (p : EncapsulatedPacket) where
  abbrev pub wire : Bytes
  wire =
      (flags_of p ∷ length_bytes p.buffer)
      ++ (message_bytes (is_reliable p.reliability) p.message_index
          ++ (order_bytes (is_ordered p.reliability) p.order_index p.order_channel
              ++ (split_bytes p.has_split p.split_count p.split_id p.split_index ++ p.buffer)))

  pub to_binary-wire : IsWire p → to_binary p false ≡ wire
  unfolding to_binary
  to_binary-wire v =
      rw
        (
          put_message_index_lem (is_reliable p.reliability) p,
          put_order_lem (is_ordered p.reliability) p,
          put_split_lem p.has_split p,
        )
        (let len : length p.buffer * 8 % 2 ^ 16 ≡ length p.buffer * 8 = omega arith in
          rw len (simp append_assoc))
