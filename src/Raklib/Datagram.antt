-- ===== src/Raklib/Datagram.antt =====
-- src/raklib/Datagram.cpp and include/mpmpes/raklib/Datagram.hpp. A time is a number of nanoseconds
-- since the start of the server, where the source has seconds in a double.

pub mod RoundTrip
pub mod Bounds
use mpmpescore_cpp.Prelude.{
  ℕ, zero, suc, ◌+◌, false, ◌||◌, List, [], ◌∷◌, Option, none, some, ltb, ◌==◌, if◌then◌else◌,
  length, is_empty, drop, get_or, ◌>>=◌,
}
use mpmpescore_cpp.Binary.{Bytes, read_ltriad}
use mpmpescore_cpp.Binary.Stream.{BinaryStream, empty, put, put_byte, put_ltriad}
use mpmpescore_cpp.Raklib.Encapsulated.{
  EncapsulatedPacket, substr, from_binary, to_binary, total_length,
}

pub record Datagram : Type 0 where
  pub id : ℕ
  pub seq_number : ℕ
  pub packets : List EncapsulatedPacket
  pub send_time : ℕ

-- `Datagram{}`.
abbrev pub fresh : Datagram
fresh = record { id = 0x84; seq_number = 0; packets = []; send_time = 0 }

abbrev pub lengths : List EncapsulatedPacket → ℕ
lengths [] = 0
lengths (p ∷ ps) = total_length p + lengths ps

-- `length()`.
unfoldable pub size : Datagram → ℕ
size d = 4 + lengths d.packets

abbrev pub put_packets : List EncapsulatedPacket → BinaryStream → BinaryStream
put_packets [] out = out
put_packets (p ∷ ps) out = put_packets ps (put (to_binary p false) out)

unfoldable pub encode : Datagram → Bytes
unfolding put_byte put_ltriad put
encode d = (put_packets d.packets (put_ltriad d.seq_number (put_byte d.id empty))).buffer

-- The loop of `decode` on the bytes from `offset` on. Each round consumes a byte at least, so that
-- the number of these bytes is enough fuel.
unfoldable pub decode_loop : ℕ → Bytes → List EncapsulatedPacket
decode_loop zero rest = []
decode_loop (suc fuel) rest =
    let (p, used) = from_binary rest false in
    let more = p ∷ decode_loop fuel (drop used rest) in
    if is_empty rest then [] else (if (used == 0) || is_empty p.buffer then [] else more)

-- `none` where `decode` returns false.
unfoldable pub decode : Bytes → Datagram → Option Datagram
unfolding decode_loop
decode buffer d = if ltb (length buffer) 4 then none else (do
  seq ← read_ltriad (substr buffer 1 3)
  let rest = drop 4 buffer
  some (record d {
    id = get_or buffer 0 0;
    seq_number = seq;
    packets = decode_loop (length rest) rest;
  }))
