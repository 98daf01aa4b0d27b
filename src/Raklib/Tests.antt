-- ===== src/Raklib/Tests.antt =====
-- Runs of the packets of src/raklib on small inputs.
use mpmpescore_cpp.Prelude.{
  ℕ, ◌≡◌, refl, true, false, some, [], ◌∷◌, ◌++◌, arith, length, drop, is_empty, ◌==◌, ◌||◌,
  if◌then◌else◌, elem, ◌^◌,
}
use mpmpescore_cpp.Binary.{Bytes}
use mpmpescore_cpp.Raklib.Encapsulated.{EncapsulatedPacket, from_binary, to_binary, total_length}
use mpmpescore_cpp.Raklib.Encapsulated
use mpmpescore_cpp.Raklib.Encapsulated.RoundTrip.{from_binary-to_binary}
use mpmpescore_cpp.Raklib.Encapsulated.Wire.{IsWire}
use mpmpescore_cpp.Raklib.Datagram.{Datagram, size, decode_loop}
use mpmpescore_cpp.Raklib.Datagram
use mpmpescore_cpp.Raklib.Datagram.RoundTrip.{
  IsCarried, decode_loop_while, decode-encode_datagram, length-encode,
}
use mpmpescore_cpp.Raklib.Acknowledge.{AcknowledgePacket, sort, unique}
use mpmpescore_cpp.Raklib.Acknowledge
use mpmpescore_cpp.Raklib.Acknowledge.Runs.{IsAscending}
use mpmpescore_cpp.Raklib.Acknowledge.RoundTrip.{decode-encode_ack}

-- A reliable ordered packet that is a part of a larger one.
abbrev part : EncapsulatedPacket
part = record Encapsulated.fresh {
  reliability = 3;
  has_split = true;
  message_index = some 70000;
  order_index = some 12;
  order_channel = some 1;
  split_count = some 3;
  split_id = some 9;
  split_index = some 2;
  buffer = 1 ∷ 2 ∷ 3 ∷ [];
}

part-IsWire : IsWire part
part-IsWire = record {
  reliability = omega arith;
  message = omega arith;
  order = omega arith;
  channel = omega arith;
  count = omega arith;
  id = omega arith;
  index = omega arith;
  buffer = omega arith;
  need_ack = refl;
  identifier_ack = refl;
}

part-IsCarried : IsCarried part
part-IsCarried = record { wire = part-IsWire; payload = refl }

from_binary-to_binary_example :
    from_binary (to_binary part false ++ (7 ∷ 8 ∷ [])) false ≡ (part, length (to_binary part false))
from_binary-to_binary_example = from_binary-to_binary part (7 ∷ 8 ∷ []) part-IsWire

abbrev datagram : Datagram
datagram = record { id = 0x84; seq_number = 300; packets = part ∷ part ∷ []; send_time = 5 }

decode-encode_datagram_example :
    Datagram.decode (Datagram.encode datagram) Datagram.fresh
    ≡ some (record Datagram.fresh { id = 0x84; seq_number = 300; packets = part ∷ part ∷ [] })
decode-encode_datagram_example =
    decode-encode_datagram datagram Datagram.fresh (omega arith)
      (part-IsCarried, (part-IsCarried, tt))

length-encode_example : length (Datagram.encode datagram) ≡ size datagram
length-encode_example = length-encode datagram (part-IsCarried, (part-IsCarried, tt))

-- An unreliable packet of one byte, and a byte behind it.
abbrev wire_bytes : Bytes
wire_bytes = 0 ∷ 0 ∷ 8 ∷ 0x15 ∷ 0xff ∷ []

decode_loop_while_example : decode_loop (length wire_bytes) wire_bytes ≡ (
    let (p, used) = from_binary wire_bytes false in
    if is_empty wire_bytes
    then []
    else (if (used == 0) || is_empty p.buffer
        then []
        else p ∷ decode_loop (length (drop used wire_bytes)) (drop used wire_bytes)))
decode_loop_while_example = decode_loop_while wire_bytes

abbrev ack : AcknowledgePacket
ack = record { id = 0xc0; packets = 7 ∷ 5 ∷ 6 ∷ 5 ∷ 1 ∷ [] }

abbrev no_numbers : AcknowledgePacket
no_numbers = record { id = 0; packets = [] }

decode-encode_ack_example :
    (Acknowledge.decode (Acknowledge.encode ack) no_numbers
      ≡ (record { id = 0xc0; packets = unique (sort (ack.packets)) }, true))
    × IsAscending (2 ^ 24) (unique (sort (ack.packets)))
    × ((k : ℕ) → elem k (unique (sort (ack.packets))) ≡ elem k (ack.packets))
decode-encode_ack_example = decode-encode_ack ack no_numbers (ground arith) (omega arith)
