-- ===== src/Raklib/Session/Send.antt =====
-- The sending side of src/raklib/Session.cpp: raw bytes, acknowledgements, datagrams, the send
-- queue, the split of a packet that is too long.
use mpmpescore_cpp.Prelude.{
  ℕ, zero, suc, ◌+◌, ◌-◌, ◌*◌, ◌/◌, ◌%◌, ◌^◌, Bool, true, false, ◌||◌, some, [], ◌∷◌, ◌++◌, ltb,
  ◌==◌, if◌then◌else◌, is_empty, length, get_or, set, value_or,
}
use mpmpescore_cpp.Prelude.Maps.{map_set}
use mpmpescore_cpp.Binary.{Bytes}
use mpmpescore_cpp.Raklib.Constants.{id_ack, id_nack}
use mpmpescore_cpp.Raklib.Encapsulated.{EncapsulatedPacket, substr, total_length}
use mpmpescore_cpp.Raklib.Encapsulated
use mpmpescore_cpp.Raklib.Datagram.{Datagram}
use mpmpescore_cpp.Raklib.Datagram
use mpmpescore_cpp.Raklib.Acknowledge
use mpmpescore_cpp.Raklib.Session.{Session, emit, send_raw_to, send_raw}

unfoldable pub send_bytes : Bytes → Session → Session
send_bytes d s = if s.cached_dst_ok then emit (send_raw_to d) s else emit (send_raw d s.endpoint) s

-- The two halves of `flushAcks`.
unfoldable pub flush_ack_queue : Session → Session
flush_ack_queue s =
    if is_empty s.ack_queue
    then s
    else record (send_bytes (Acknowledge.encode (record { id = id_ack; packets = s.ack_queue }))
        s) { ack_queue = [] }

unfoldable pub flush_nack_queue : Session → Session
flush_nack_queue s =
    if is_empty s.nack_queue
    then s
    else record (send_bytes (Acknowledge.encode (record { id = id_nack; packets = s.nack_queue }))
        s) { nack_queue = [] }

unfoldable pub flush_acks : Session → Session
flush_acks s = flush_nack_queue (flush_ack_queue s)

unfoldable pub send_datagram : Datagram → ℕ → Session → Session
send_datagram dgram now s =
    let dgram' = record dgram { send_time = now } in
    send_bytes (Datagram.encode dgram')
      (record s { recovery_queue = map_set dgram'.seq_number dgram' s.recovery_queue })

-- `send_seq_++`.
abbrev pub next_seq : Session → Session
next_seq s = record s { send_seq = (s.send_seq + 1) % 2 ^ 32 }

unfoldable pub flush_send_queue : ℕ → Session → Session
flush_send_queue now s =
    if is_empty s.send_queue.packets
    then s
    else record (send_datagram (record (s.send_queue) { seq_number = s.send_seq; id = 0x84 }) now
        (next_seq s)) { send_queue = record Datagram.fresh { id = 0x84 } }

unfoldable pub push_queue : EncapsulatedPacket → Session → Session
push_queue pk s = record s {
  send_queue = record (s.send_queue) { packets = s.send_queue.packets ++ (pk ∷ []) };
}

unfoldable pub add_to_queue : EncapsulatedPacket → Bool → ℕ → Session → Session
add_to_queue pk true now s =
    send_datagram (record Datagram.fresh { id = 0x80; seq_number = s.send_seq; packets = pk ∷ [] })
      now (next_seq s)
add_to_queue pk false now s = push_queue pk (
    if ltb s.mtu_size (Datagram.size s.send_queue + total_length pk)
    then flush_send_queue now s
    else s)

-- `rel == 2 || rel == 3 || rel == 4 || rel == 6 || rel == 7`.
abbrev pub has_message_index : ℕ → Bool
has_message_index rel = rel == 2 || rel == 3 || rel == 4 || rel == 6 || rel == 7

-- `message_index_++`: the value before.
abbrev pub next_message : Session → Session
next_message s = record s { message_index = (s.message_index + 1) % 2 ^ 32 }

-- The indices that `addEncapsulated` gives the packet.
unfoldable pub assign_indices : EncapsulatedPacket → Session → EncapsulatedPacket × Session
assign_indices p s =
    let channel = value_or p.order_channel 0 in
    let order = get_or s.channel_index (channel % 32) 0 in
    let p' = record p { message_index = some s.message_index } in
    if has_message_index p.reliability
    then (if p.reliability == 3
        then (
          record p' { order_channel = some channel; order_index = some order },
          record (next_message s) {
            channel_index = set s.channel_index (channel % 32) ((order + 1) % 2 ^ 32);
          },
        )
        else (p', next_message s))
    else (p, s)

-- The payload bytes of each part of a split packet.
unfoldable pub chunk_size : ℕ → ℕ
chunk_size mtu = if ltb 34 mtu then mtu - 34 else 64

-- One part of a split packet, without its message index.
unfoldable pub split_part : EncapsulatedPacket → ℕ → ℕ → ℕ → ℕ → EncapsulatedPacket
split_part packet chunk count sid i =
    let part = record Encapsulated.fresh {
      has_split = true;
      split_id = some sid;
      split_count = some count;
      split_index = some i;
      reliability = packet.reliability;
      buffer = substr packet.buffer (i * chunk) chunk;
    } in
    if packet.reliability == 3
    then record part { order_channel = packet.order_channel; order_index = packet.order_index }
    else part

-- The message index of part `i`: the first part has that of the packet, the others their own.
unfoldable pub number_part :
    EncapsulatedPacket → ℕ → EncapsulatedPacket → Session → EncapsulatedPacket × Session
number_part packet i part s =
    if i == 0
    then (record part { message_index = packet.message_index }, s)
    else (if has_message_index packet.reliability
        then (record part { message_index = some s.message_index }, next_message s)
        else (part, s))

-- The loop over the parts: `rounds` are left, `i` is the next.
unfoldable pub send_parts : ℕ → ℕ → EncapsulatedPacket → ℕ → ℕ → ℕ → ℕ → Session → Session
send_parts zero i packet chunk count sid now s = s
send_parts (suc rounds) i packet chunk count sid now s =
    let (part, s') = number_part packet i (split_part packet chunk count sid i) s in
    send_parts rounds (i + 1) packet chunk count sid now (add_to_queue part true now s')

unfoldable pub add_encapsulated : EncapsulatedPacket → Bool → ℕ → Session → Session
add_encapsulated packet immediate now s =
    let (p, s') = assign_indices packet s in
    let chunk = chunk_size s'.mtu_size in
    let count = (length p.buffer + chunk - 1) / chunk in
    let sid = (s'.split_id_counter + 1) % 2 ^ 16 in
    if ltb s'.mtu_size (total_length p + 4)
    then send_parts count 0 p chunk count sid now (record s' { split_id_counter = sid })
    else add_to_queue p immediate now s'
