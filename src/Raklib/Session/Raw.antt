-- ===== src/Raklib/Session/Raw.antt =====
-- The entry points of src/raklib/Session.cpp: a datagram, an ACK, a NACK, an offline message, and the
-- dispatch between them; the update of every tick.
use mpmpescore_cpp.Prelude.{
  ℕ, zero, suc, ◌+◌, ◌%◌, ◌^◌, Bool, true, false, not, ◌&&◌, ◌||◌, Option, none, some, List, [],
  ◌∷◌, ltb, leb, ◌==◌, if◌then◌else◌, is_empty, length, get_or, take, drop, min, elem, bytes_eq,
  ◌-◌, ◌>>=◌,
}
use mpmpescore_cpp.Prelude.Int.{ℤ, pos, negsuc, pos_part, ltℤ, eqℤ, ◌+ℤ◌, ◌-ℤ◌, to_i32}
use mpmpescore_cpp.Prelude.Maps.{map_find, map_erase, set_insert, set_erase}
use mpmpescore_cpp.Binary.{Bytes}
use mpmpescore_cpp.Binary.Stream.{
  empty, put, put_byte, put_short, put_long, get, get_byte, get_short, get_long,
}
use mpmpescore_cpp.Raklib.Constants.{
  magic, id_open_connection_request_1, id_open_connection_reply_1, id_open_connection_request_2,
  id_ack, id_nack,
}
use mpmpescore_cpp.Raklib.Encapsulated.{EncapsulatedPacket}
use mpmpescore_cpp.Raklib.Datagram.{Datagram}
use mpmpescore_cpp.Raklib.Datagram
use mpmpescore_cpp.Raklib.Acknowledge
use mpmpescore_cpp.Raklib.Session.{Session, SessionState, connecting1, connecting2}
use mpmpescore_cpp.Raklib.Session.Send.{send_bytes, send_datagram, next_seq}
use mpmpescore_cpp.Raklib.Session.Handshake.{send_open_connection_reply_2}
use mpmpescore_cpp.Raklib.Session.Receive.{handle_encapsulated, start, is_connected, is_connecting2}

-- static_cast<std::uint32_t> of an int32_t.
abbrev pub to_u32 : ℤ → ℕ
to_u32 (pos n) = n % 2 ^ 32
to_u32 (negsuc n) = (2 ^ 32 - 1 - n) % 2 ^ 32

-- One number of the gap.
unfoldable pub nack_one : ℕ → Session → Session
nack_one seq s =
    if elem seq s.received_window then s else record s { nack_queue = set_insert seq s.nack_queue }

-- The loop that asks for what is missing: `rounds` numbers from `i` on.
unfoldable pub nack_gap : ℕ → ℤ → Session → Session
nack_gap zero i s = s
nack_gap (suc rounds) i s = nack_gap rounds (i +ℤ pos 1) (nack_one (to_u32 i) s)

unfoldable pub handle_all : List EncapsulatedPacket → ℕ → Session → Session
handle_all [] now s = s
handle_all (p ∷ ps) now s = handle_all ps now (handle_encapsulated p now s)

-- `seq < window_start_ || seq > window_end_ || received_window_.count(…)`.
unfoldable pub is_refused : ℕ → Session → Bool
is_refused number s =
    ltℤ (to_i32 number) s.window_start
    || (ltℤ s.window_end (to_i32 number) || elem number s.received_window)

-- The bookkeeping of an accepted datagram: the queues, the gap, the window.
unfoldable pub mark_received : ℕ → Session → Session
mark_received number s = record s {
  nack_queue = set_erase number s.nack_queue;
  ack_queue = set_insert number s.ack_queue;
  received_window = set_insert number s.received_window;
}

unfoldable pub nack_missing : ℤ → ℤ → Session → Session
nack_missing seq diff s =
    let i = s.last_seq +ℤ pos 1 in
    if eqℤ diff (pos 1) then s else nack_gap (pos_part (seq -ℤ i)) i s

unfoldable pub move_window : ℤ → ℤ → Session → Session
move_window seq diff s = if ltℤ diff (pos 1) then s else record s {
  last_seq = seq;
  window_start = s.window_start +ℤ diff;
  window_end = s.window_end +ℤ diff;
}

unfoldable pub accept_seq : ℕ → Session → Session
accept_seq number s =
    let seq = to_i32 number in
    let diff = seq -ℤ s.last_seq in
    move_window seq diff (nack_missing seq diff (mark_received number s))

unfoldable pub handle_datagram : Bytes → ℕ → Session → Session
handle_datagram buffer now s = elim (Datagram.decode buffer Datagram.fresh) [
  | none ↦ s
  | some dgram ↦
      if is_refused dgram.seq_number s
      then s
      else handle_all dgram.packets now (accept_seq dgram.seq_number s)
]

abbrev pub no_ack : Acknowledge.AcknowledgePacket
no_ack = record { id = 0; packets = [] }

-- `AcknowledgePacket ack; ack.decode(buffer)`; `none` where it returns false.
unfoldable pub decode_ack : Bytes → Option (List ℕ)
decode_ack buffer =
    let (ack, good) = Acknowledge.decode buffer no_ack in if good then some ack.packets else none

unfoldable pub erase_recovered : List ℕ → Session → Session
erase_recovered [] s = s
erase_recovered (seq ∷ seqs) s =
    erase_recovered seqs (record s { recovery_queue = map_erase seq s.recovery_queue })

unfoldable pub handle_ack : Bytes → Session → Session
handle_ack buffer s = elim (decode_ack buffer) [ none ↦ s | some seqs ↦ erase_recovered seqs s ]

-- One number of a NACK: the datagram is sent again under a new number.
unfoldable pub resend_one : ℕ → ℕ → Session → Session
resend_one seq now s = elim (map_find seq s.recovery_queue) [
  | none ↦ s
  | some dgram ↦
      send_datagram (record dgram { seq_number = s.send_seq }) now
        (record (next_seq s) { recovery_queue = map_erase seq s.recovery_queue })
]

unfoldable pub resend_all : List ℕ → ℕ → Session → Session
resend_all [] now s = s
resend_all (seq ∷ seqs) now s = resend_all seqs now (resend_one seq now s)

unfoldable pub handle_nack : Bytes → ℕ → Session → Session
handle_nack buffer now s = elim (decode_ack buffer) [ none ↦ s | some seqs ↦ resend_all seqs now s ]

unfoldable pub handle_request_1 : Bytes → Session → Session
handle_request_1 buffer s =
    let mtu = length buffer % 2 ^ 16 in
    let out = put_long s.server_id (put magic (put_byte id_open_connection_reply_1 empty)) in
    let out = put_short mtu (put_byte 0 out) in
    if ltb (length buffer) (1 + length magic + 1)
    then s
    else (if not (bytes_eq (take (length magic) (drop 1 buffer)) magic)
        then s
        else record (send_bytes out.buffer (record s { mtu_size = mtu })) { state = connecting1 })

-- The size and the client of a second request; `none` where it throws or returns early.
unfoldable pub read_request_2 : Bytes → Option (ℕ × ℕ)
read_request_2 buffer = do
  (id, in_stream) ← get_byte (start buffer)
  (mark, in_stream) ← get (length magic) in_stream
  (version, in_stream) ← (if bytes_eq mark magic then get_byte in_stream else none)
  (octets, in_stream) ← (if version == 4 then get 4 in_stream else none)
  (server_port, in_stream) ← get_short in_stream
  (mtu, in_stream) ← get_short in_stream
  (client_id, in_stream) ← get_long in_stream
  some (mtu, client_id)

unfoldable pub handle_request_2 : Bytes → Session → Session
handle_request_2 buffer s = elim (read_request_2 buffer) [
  | none ↦ s
  | some (mtu, client_id) ↦
      record (send_open_connection_reply_2
        (record s { client_id = client_id; mtu_size = min mtu 1464 })) { state = connecting2 }
]

abbrev pub is_connecting1 : SessionState → Bool
is_connecting1 connecting1 = true
is_connecting1 _ = false

unfoldable pub handle_offline : Bytes → Session → Session
handle_offline buffer s =
    let pid = get_or buffer 0 0 in
    if pid == id_open_connection_request_1
    then handle_request_1 buffer s
    else (if is_connecting1 s.state && pid == id_open_connection_request_2
        then handle_request_2 buffer s
        else s)

-- `pid >= 0x80 && pid <= 0x8f`.
abbrev pub is_data : ℕ → Bool
is_data pid = leb 0x80 pid && leb pid 0x8f

-- The dispatch once the session is past CONNECTING_1.
unfoldable pub handle_online : Bytes → ℕ → Session → Session
handle_online buffer now s =
    let pid = get_or buffer 0 0 in
    if is_data pid
    then handle_datagram buffer now s
    else (if pid == id_ack
        then handle_ack buffer s
        else (if pid == id_nack
            then handle_nack buffer now s
            else (if is_connecting2 s.state && pid == id_open_connection_request_2
                then send_open_connection_reply_2 s
                else s)))

unfoldable pub handle_raw : Bytes → ℕ → Session → Session
handle_raw buffer now s =
    let pid = get_or buffer 0 0 in
    let s' = record s { active = true; last_update = now } in
    if is_empty buffer
    then s
    else (if is_connected s.state || is_connecting2 s.state
        then handle_online buffer now s'
        else (if ltb 0 pid && ltb pid 0x80 then handle_offline buffer s' else s'))
