-- ===== src/Raklib/Session/Receive.antt =====
-- What src/raklib/Session.cpp does with the packets inside of a datagram: the internal packets of a
-- connection, the reassembly of split packets, the delivery of reliable packets in order.
use Prim.Native.String.{String}
use mpmpescore_cpp.Prelude.{
  ℕ, zero, suc, ◌+◌, Bool, true, false, not, ◌&&◌, ◌||◌, Option, none, some, List, [], ◌∷◌, ◌++◌,
  ltb, ◌==◌, if◌then◌else◌, is_empty, length, get_or, ◌>>=◌,
}
use mpmpescore_cpp.Prelude.Int.{ℤ, pos, pos_part, ltℤ, eqℤ, ◌+ℤ◌, ◌-ℤ◌, to_i32}
use mpmpescore_cpp.Prelude.Maps.{map_find, map_set, map_erase}
use mpmpescore_cpp.Binary.{Bytes}
use mpmpescore_cpp.Binary.Stream.{BinaryStream, empty, put_byte, put_long, get_byte, get_long}
use mpmpescore_cpp.Raklib.Constants.{
  id_client_connect, id_client_handshake, id_client_disconnect, id_connected_ping,
  id_connected_pong,
}
use mpmpescore_cpp.Raklib.Encapsulated.{EncapsulatedPacket}
use mpmpescore_cpp.Raklib.Encapsulated
use mpmpescore_cpp.Raklib.Session.{
  Session, SessionState, connecting2, connected, emit, on_encap, on_open, on_close, mark_closed,
  max_split_size, max_split_count,
}
use mpmpescore_cpp.Raklib.Session.Send.{add_to_queue}
use mpmpescore_cpp.Raklib.Session.Handshake.{encode_server_handshake}

unfoldable pub disconnect : String → Session → Session
disconnect reason s =
    if s.closed
    then s
    else (let s' = record s { closed = true } in
        emit (mark_closed s.endpoint reason)
          (if s.handlers then emit (on_close s.endpoint reason) s' else s'))

abbrev pub reply : Bytes → EncapsulatedPacket
reply buffer = record Encapsulated.fresh { reliability = 0; buffer = buffer }

abbrev pub start : Bytes → BinaryStream
start payload = record { buffer = payload; offset = 0 }

-- The ping of a CLIENT_CONNECT; `none` where reading throws.
unfoldable pub read_client_connect : Bytes → Option ℕ
read_client_connect payload = do
  (id, in_stream) ← get_byte (start payload)
  (client_id, in_stream) ← get_long in_stream
  (send_ping, in_stream) ← get_long in_stream
  some send_ping

unfoldable pub handle_client_connect : Bytes → ℕ → Session → Session
handle_client_connect payload now s = elim (read_client_connect payload) [
  | none ↦ s
  | some send_ping ↦ add_to_queue (reply (encode_server_handshake send_ping s)) true now s
]

unfoldable pub handle_client_handshake : Session → Session
handle_client_handshake s =
    let s' = record s { state = connected; temporal = false } in
    if s.handlers then emit (on_open s.endpoint s.client_id) s' else s'

unfoldable pub read_ping : Bytes → Option ℕ
read_ping payload = do
  (id, in_stream) ← get_byte (start payload)
  (ping_id, in_stream) ← get_long in_stream
  some ping_id

unfoldable pub handle_connected_ping : Bytes → ℕ → Session → Session
handle_connected_ping payload now s = elim (read_ping payload) [
  | none ↦ s
  | some ping_id ↦
      add_to_queue (reply (put_long ping_id (put_byte id_connected_pong empty)).buffer) false now s
]

abbrev pub is_connected : SessionState → Bool
is_connected connected = true
is_connected _ = false

abbrev pub is_connecting2 : SessionState → Bool
is_connecting2 connecting2 = true
is_connecting2 _ = false

unfoldable pub handle_internal_connected : Bytes → ℕ → Session → Session
handle_internal_connected payload now s =
    let id = get_or payload 0 0 in
    if is_empty payload
    then s
    else (if is_connecting2 s.state && id == id_client_connect
        then handle_client_connect payload now s
        else (if is_connecting2 s.state && id == id_client_handshake
            then handle_client_handshake s
            else (if id == id_client_disconnect
                then disconnect "client disconnect" s
                else (if id == id_connected_ping then handle_connected_ping payload now s else s))))

-- `handleEncapsulatedRoute` on a packet without the split flag.
unfoldable pub route_whole : EncapsulatedPacket → ℕ → Session → Session
route_whole packet now s =
    if is_empty packet.buffer
    then s
    else (if ltb (get_or packet.buffer 0 0) 0x80
        then handle_internal_connected packet.buffer now s
        else (if is_connected s.state && s.handlers
            then emit (on_encap s.endpoint packet) s
            else s))

-- `std::map::find` for each index from `i` on; `none` if one is missing.
unfoldable pub combine : ℕ → ℕ → List (ℕ × EncapsulatedPacket) → Option Bytes
combine zero i parts = some []
combine (suc rounds) i parts = do
  part ← map_find i parts
  rest ← combine rounds (i + 1) parts
  some (part.buffer ++ rest)

-- `splits_[sid]`, and what it makes of a missing entry.
abbrev pub parts_of : ℕ → List (ℕ × List (ℕ × EncapsulatedPacket)) → List (ℕ × EncapsulatedPacket)
parts_of sid splits = elim (map_find sid splits) [ none ↦ [] | some parts ↦ parts ]

-- With all parts there: the payload is passed on, and the entry is gone in any case.
unfoldable pub finish_split : ℕ → ℕ → List (ℕ × EncapsulatedPacket) → ℕ → Session → Session
finish_split sid count parts now s =
    let s' = record s { splits = map_erase sid s.splits } in
    elim (combine count 0 parts) [
      | none ↦ s'
      | some buffer ↦ route_whole (record Encapsulated.fresh { buffer = buffer }) now s'
    ]

-- `handleSplit` on a packet with all three fields. A part's index is not negative where it is used
-- as a key.
unfoldable pub store_split : EncapsulatedPacket → ℤ → ℤ → ℕ → ℕ → Session → Session
store_split packet count index sid now s =
    let parts = parts_of sid s.splits in
    let entered = map_set sid parts s.splits in
    let parts' = map_set (pos_part index) packet parts in
    let s' = record s { splits = map_set sid parts' s.splits } in
    if not (ltℤ count (pos max_split_size))
      || (not (ltℤ index (pos max_split_size)) || ltℤ index (pos 0))
    then s
    else (if is_empty parts && ltb max_split_count (length entered)
        then record s { splits = entered }
        else (if eqℤ (pos (length parts')) count
            then finish_split sid (pos_part count) parts' now s'
            else s'))

unfoldable pub handle_split : EncapsulatedPacket → ℕ → Session → Session
handle_split packet now s = elim packet.split_count [
  | none ↦ s
  | some count ↦ elim packet.split_index [
    | none ↦ s
    | some index ↦ elim packet.split_id [
      | none ↦ s
      | some sid ↦ store_split packet (to_i32 count) (to_i32 index) sid now s
    ]
  ]
]

unfoldable pub handle_encapsulated_route : EncapsulatedPacket → ℕ → Session → Session
handle_encapsulated_route packet now s =
    if packet.has_split
    then (if is_connected s.state then handle_split packet now s else s)
    else route_whole packet now s

-- `last_reliable_index_++`, and both window bounds.
abbrev pub slide : Session → Session
slide s = record s {
  last_reliable_index = s.last_reliable_index +ℤ pos 1;
  reliable_window_start = s.reliable_window_start +ℤ pos 1;
  reliable_window_end = s.reliable_window_end +ℤ pos 1;
}

-- The loop that delivers what was waiting: the list is `reliable_window` of the session. A key is a
-- message index that the window has accepted, so it is not negative.
unfoldable pub deliver : List (ℕ × EncapsulatedPacket) → ℕ → Session → Session
deliver [] now s = s
deliver ((index, packet) ∷ waiting) now s =
    let rest =
      deliver waiting now
        (handle_encapsulated_route packet now (record (slide s) { reliable_window = waiting })) in
    if eqℤ (pos index -ℤ s.last_reliable_index) (pos 1) then rest else s

-- `handleEncapsulated` on a packet with a message index.
unfoldable pub handle_reliable : EncapsulatedPacket → ℕ → ℕ → Session → Session
handle_reliable packet index now s =
    let i = to_i32 index in
    let s' = handle_encapsulated_route packet now (slide s) in
    if ltℤ i s.reliable_window_start || ltℤ s.reliable_window_end i
    then s
    else (if eqℤ (i -ℤ s.last_reliable_index) (pos 1)
        then deliver s'.reliable_window now s'
        else record s { reliable_window = map_set index packet s.reliable_window })

unfoldable pub handle_encapsulated : EncapsulatedPacket → ℕ → Session → Session
handle_encapsulated packet now s = elim packet.message_index [
  | none ↦ handle_encapsulated_route packet now s
  | some index ↦ handle_reliable packet index now s
]
