-- ===== src/Raklib/Encapsulated.antt =====
-- src/raklib/EncapsulatedPacket.cpp and include/mpmpes/raklib/EncapsulatedPacket.hpp.
-- A field of a signed type holds the bit pattern. A length is a std::size_t, so sums with a length
-- that was read as an int32_t wrap at 2 ^ 64.

pub mod Stages
pub mod RoundTrip
pub mod Wire
use mpmpescore_cpp.Prelude.{
  ℕ, ◌+◌, ◌-◌, ◌*◌, ◌/◌, ◌%◌, ◌^◌, Bool, true, false, not, ◌&&◌, Option, none, some, [], ltb, leb,
  ◌==◌, if◌then◌else◌, length, is_empty, get_or, take, drop, value_or, has_value,
}
use mpmpescore_cpp.Prelude.Bits.{bit_and, bit_or}
use mpmpescore_cpp.Binary.{Bytes, read_int, read_short, read_ltriad}
use mpmpescore_cpp.Binary.Stream.{
  BinaryStream, empty, put, put_byte, put_int, put_ltriad, put_short,
}

pub record EncapsulatedPacket : Type 0 where
  pub reliability : ℕ
  pub has_split : Bool
  pub message_index : Option ℕ
  pub order_index : Option ℕ
  pub order_channel : Option ℕ
  pub split_count : Option ℕ
  pub split_id : Option ℕ
  pub split_index : Option ℕ
  pub buffer : Bytes
  pub need_ack : Bool
  pub identifier_ack : Option ℕ

-- `EncapsulatedPacket{}`.
abbrev pub fresh : EncapsulatedPacket
fresh = record {
  reliability = 0;
  has_split = false;
  message_index = none;
  order_index = none;
  order_channel = none;
  split_count = none;
  split_id = none;
  split_index = none;
  buffer = [];
  need_ack = false;
  identifier_ack = none;
}

-- `stop p` is the early return of `{p, 0}`.
pub data Parse {ℓ} (A : Type ℓ) : Type ℓ where
  stop : EncapsulatedPacket → Parse A
  go : A → Parse A

infixl 5 ◌>>=◌
abbrev pub ◌>>=◌ {ℓ κ} : {A : Type ℓ} {B : Type κ} → Parse A → (A → Parse B) → Parse B
stop p >>= f = stop p
go a >>= f = f a

-- The catch of StreamError returns a packet with no field set.
abbrev pub or_throw {ℓ} : {A : Type ℓ} → Option A → Parse A
or_throw none = stop fresh
or_throw (some a) = go a

-- `if (binary.size() < n) return {packet, 0};`
abbrev pub need_size : Bytes → ℕ → EncapsulatedPacket → Parse (Unit {0})
need_size binary n p = if ltb (length binary) n then stop p else go tt

abbrev pub substr : Bytes → ℕ → ℕ → Bytes
substr s offset n = take n (drop offset s)

-- static_cast<std::size_t> of an int32_t.
abbrev pub to_size : ℕ → ℕ
to_size w = if ltb w (2 ^ 31) then w else w + (2 ^ 64 - 2 ^ 32)

-- `rel >= 2 && rel != 5` and `rel > 0 && rel <= 4 && rel != 2`.
abbrev pub is_reliable : ℕ → Bool
is_reliable rel = leb 2 rel && not (rel == 5)

abbrev pub is_ordered : ℕ → Bool
is_ordered rel = ltb 0 rel && (leb rel 4 && not (rel == 2))

-- The length and the acknowledgement identifier: the packet, the offset behind them, the length.
unfoldable pub read_length : Bool → Bytes → EncapsulatedPacket → Parse (EncapsulatedPacket × ℕ × ℕ)
read_length true binary p = do
  _ ← need_size binary 9 p
  len ← or_throw (read_int (substr binary 1 4))
  ack ← or_throw (read_int (substr binary 5 4))
  go (record p { identifier_ack = some ack }, 9, to_size len)
read_length false binary p = do
  _ ← need_size binary 3 p
  bits ← or_throw (read_short (substr binary 1 2))
  go (record p { identifier_ack = none }, 3, (bits + 7) / 8)

-- The first argument tells whether the reliability has the field.
unfoldable pub read_message_index :
    Bool → Bytes → EncapsulatedPacket → ℕ → Parse (EncapsulatedPacket × ℕ)
read_message_index true binary p offset = do
  _ ← need_size binary (offset + 3) p
  m ← or_throw (read_ltriad (substr binary offset 3))
  go (record p { message_index = some m }, offset + 3)
read_message_index false binary p offset = go (p, offset)

unfoldable pub read_order : Bool → Bytes → EncapsulatedPacket → ℕ → Parse (EncapsulatedPacket × ℕ)
read_order true binary p offset = do
  _ ← need_size binary (offset + 4) p
  o ← or_throw (read_ltriad (substr binary offset 3))
  let channel = get_or binary (offset + 3) 0
  go (record p { order_index = some o; order_channel = some channel }, offset + 4)
read_order false binary p offset = go (p, offset)

-- The first argument is `has_split`.
unfoldable pub read_split : Bool → Bytes → EncapsulatedPacket → ℕ → Parse (EncapsulatedPacket × ℕ)
read_split true binary p offset = do
  _ ← need_size binary (offset + 10) p
  count ← or_throw (read_int (substr binary offset 4))
  id ← or_throw (read_short (substr binary (offset + 4) 2))
  index ← or_throw (read_int (substr binary (offset + 6) 4))
  go (
    record p { split_count = some count; split_id = some id; split_index = some index },
    offset + 10,
  )
read_split false binary p offset = go (p, offset)

unfoldable pub read_buffer : Bytes → EncapsulatedPacket → ℕ → ℕ → Parse (EncapsulatedPacket × ℕ)
read_buffer binary p offset len = do
  _ ← need_size binary ((offset + len) % 2 ^ 64) p
  go (record p { buffer = substr binary offset len }, (offset + len) % 2 ^ 64)

abbrev pub result : Parse (EncapsulatedPacket × ℕ) → EncapsulatedPacket × ℕ
result (stop p) = (p, 0)
result (go r) = r

abbrev pub with_flags : ℕ → EncapsulatedPacket
with_flags flags = record fresh {
  reliability = bit_and flags 0xe0 / 32;
  has_split = not (bit_and flags 0x10 == 0);
}

-- The packet and the bytes consumed, 0 on failure.
unfoldable pub from_binary : Bytes → Bool → EncapsulatedPacket × ℕ
from_binary binary internal =
    if is_empty binary
    then (fresh, 0)
    else result (do
      (p, offset, len) ← read_length internal binary (with_flags (get_or binary 0 0))
      (p, offset) ← read_message_index (is_reliable p.reliability) binary p offset
      (p, offset) ← read_order (is_ordered p.reliability) binary p offset
      (p, offset) ← read_split p.has_split binary p offset
      read_buffer binary p offset len)

unfoldable pub total_length : EncapsulatedPacket → ℕ
total_length p =
    3
    + length p.buffer
    + (if has_value p.message_index then 3 else 0)
    + (if has_value p.order_index then 4 else 0)
    + (if p.has_split then 10 else 0)

unfoldable pub put_length : Bool → EncapsulatedPacket → BinaryStream → BinaryStream
put_length true p out =
    put_int (value_or p.identifier_ack 0) (put_int (length p.buffer % 2 ^ 32) out)
put_length false p out = put_short (length p.buffer * 8 % 2 ^ 16) out

unfoldable pub put_message_index : Bool → EncapsulatedPacket → BinaryStream → BinaryStream
put_message_index true p out = put_ltriad (value_or p.message_index 0) out
put_message_index false p out = out

unfoldable pub put_order : Bool → EncapsulatedPacket → BinaryStream → BinaryStream
put_order true p out =
    put_byte (value_or p.order_channel 0) (put_ltriad (value_or p.order_index 0) out)
put_order false p out = out

unfoldable pub put_split : Bool → EncapsulatedPacket → BinaryStream → BinaryStream
put_split true p out =
    put_int (value_or p.split_index 0)
      (put_short (value_or p.split_id 0) (put_int (value_or p.split_count 0) out))
put_split false p out = out

unfoldable pub to_binary : EncapsulatedPacket → Bool → Bytes
unfolding put_length put_message_index put_order put_split put put_byte put_int put_short put_ltriad
to_binary p internal =
    let out =
      put_byte (bit_or (p.reliability * 32) (if p.has_split then 0x10 else 0) % 256) empty in
    let out = put_length internal p out in
    let out = put_message_index (is_reliable p.reliability) p out in
    let out = put_order (is_ordered p.reliability) p out in
    let out = put_split p.has_split p out in (put p.buffer out).buffer
