-- ===== src/Raklib/SessionManager.antt =====
-- src/raklib/SessionManager.cpp and include/mpmpes/raklib/SessionManager.hpp.
-- `sessions_` is an association list, whose order stands for that of the unordered map. The flag
-- that `resolves` gives is the result of inet_pton for an address. What arrives is the list of the
-- UDP datagrams that the socket holds, each with the time at which it is read.
pub mod Keys
pub mod Sessions
pub mod Reach
pub mod Table
pub mod Tick
pub mod Tests
use mpmpescore_cpp.Prelude.{
  ℕ, zero, suc, ◌+◌, ◌/◌, ◌%◌, Bool, not, ◌&&◌, ◌||◌, Option, none, some, List, [], ◌∷◌, ◌++◌, ltb,
  ◌==◌, if◌then◌else◌, is_empty, get_or, length, take, drop, bytes_eq, map, ◌>>=◌,
}
use mpmpescore_cpp.Binary.{Bytes}
use mpmpescore_cpp.Binary.Stream.{
  BinaryStream, empty, get_byte, get_long, put, put_byte, put_long, put_string,
}
use mpmpescore_cpp.Raklib.Constants.{
  magic, id_unconnected_ping, id_unconnected_ping_open_connections, id_unconnected_pong,
  id_open_connection_request_1, id_open_connection_request_2, id_ack, id_nack,
}
use mpmpescore_cpp.Raklib.Session.{Session, Endpoint, create, set_handlers}
use mpmpescore_cpp.Raklib.Session.Send.{flush_acks}
use mpmpescore_cpp.Raklib.Session.Receive.{start}
use mpmpescore_cpp.Raklib.Session.Raw.{is_data, handle_raw}
use mpmpescore_cpp.Raklib.Session.Update.{update}

abbrev pub Sessions : Type 0
Sessions = List (Bytes × Session)

-- `sent` is what the manager itself hands to the socket.
pub record SessionManager : Type 0 where
  pub server_id : ℕ
  pub name : Bytes
  pub sessions : Sessions
  pub handlers : Bool
  pub sent : List (Bytes × Endpoint)

-- One datagram at the socket.
pub record Incoming : Type 0 where
  pub time : ℕ
  pub buffer : Bytes
  pub source : Endpoint

-- std::to_string, for a number of `fuel` digits at most.
unfoldable pub to_string : ℕ → ℕ → Bytes
to_string zero v = []
to_string (suc fuel) v =
    let front = to_string fuel (v / 10) in
    if ltb v 10 then (b'0' + v) ∷ [] else front ++ ((b'0' + v % 10) ∷ [])

-- A port has five digits at most.
unfoldable pub key_of : Endpoint → Bytes
key_of ep = ep.address ++ (b':' ∷ to_string 5 ep.port)

unfoldable pub has_magic : Bytes → ℕ → Bool
has_magic buffer offset =
    not (ltb (length buffer) (offset + length magic))
    && bytes_eq (take (length magic) (drop offset buffer)) magic

unfoldable pub find_session : Bytes → Sessions → Option Session
find_session k [] = none
find_session k ((j, s) ∷ m) = let rest = find_session k m in if bytes_eq j k then some s else rest

-- A change of the session under a key, through the pointer that the map holds.
unfoldable pub change_session : Bytes → (Session → Session) → Sessions → Sessions
change_session k f [] = []
change_session k f ((j, s) ∷ m) =
    let rest = change_session k f m in if bytes_eq j k then (j, f s) ∷ m else (j, s) ∷ rest

unfoldable pub erase_session : Bytes → Sessions → Sessions
erase_session k [] = []
erase_session k ((j, s) ∷ m) =
    let rest = erase_session k m in if bytes_eq j k then m else (j, s) ∷ rest

unfoldable pub send_raw : Bytes → Endpoint → SessionManager → SessionManager
send_raw d to m = record m { sent = m.sent ++ ((d, to) ∷ []) }

unfoldable pub remove_session : Endpoint → SessionManager → SessionManager
remove_session ep m = record m { sessions = erase_session (key_of ep) m.sessions }

unfoldable pub get_session : Endpoint → SessionManager → Option Session
get_session ep m = find_session (key_of ep) m.sessions

abbrev pub new_session : (Bytes → Bool) → Endpoint → SessionManager → Session
new_session resolves ep m =
    let s = create ep (resolves ep.address) m.server_id in if m.handlers then set_handlers s else s

-- The session is in the map afterwards.
unfoldable pub get_or_create_session : (Bytes → Bool) → Endpoint → SessionManager → SessionManager
get_or_create_session resolves ep m = elim (find_session (key_of ep) m.sessions) [
  | some s ↦ m
  | none ↦ record m { sessions = m.sessions ++ ((key_of ep, new_session resolves ep m) ∷ []) }
]

-- The answer to a ping; `none` where reading throws.
unfoldable pub pong : Bytes → SessionManager → Option BinaryStream
pong buffer m = do
  (id, in_stream) ← get_byte (start buffer)
  (ping_id, in_stream) ← get_long in_stream
  put_string m.name
      (put magic (put_long m.server_id (put_long ping_id (put_byte id_unconnected_pong empty))))

unfoldable pub handle_unconnected_ping : Bytes → Endpoint → SessionManager → SessionManager
handle_unconnected_ping buffer source m = elim (pong buffer m) [
  | none ↦ m
  | some out ↦ send_raw out.buffer source m
]

-- Which packets go to a session.
abbrev pub is_session_packet : ℕ → Bool
is_session_packet pid =
    pid == id_open_connection_request_1
    || pid == id_open_connection_request_2
    || is_data pid
    || pid == id_ack
    || pid == id_nack
    || (ltb 0 pid && ltb pid 0x80)

unfoldable pub handle_packet :
    (Bytes → Bool) → Bytes → Endpoint → ℕ → SessionManager → SessionManager
handle_packet resolves buffer source now m =
    let pid = get_or buffer 0 0 in
    let m' = get_or_create_session resolves source m in
    if pid == id_unconnected_ping || pid == id_unconnected_ping_open_connections
    then handle_unconnected_ping buffer source m
    else (if pid == id_unconnected_pong
        then m
        else (if is_session_packet pid
            then record m' {
              sessions = change_session (key_of source) (handle_raw buffer now) m'.sessions;
            }
            else m))

-- The loop over the socket: `rounds` are left. An empty datagram reads as 0 bytes, which ends it.
unfoldable pub drain_socket :
    (Bytes → Bool) → ℕ → List Incoming → SessionManager → ℕ → List Incoming × SessionManager × ℕ
drain_socket resolves zero queue m handled = (queue, m, handled)
drain_socket resolves (suc rounds) [] m handled = ([], m, handled)
drain_socket resolves (suc rounds) (d ∷ queue) m handled =
    let more =
      drain_socket resolves rounds queue (handle_packet resolves d.buffer d.source d.time m)
        (handled + 1) in
    if is_empty d.buffer then (queue, m, handled) else more

abbrev pub each : (Session → Session) → Sessions → Sessions
each f = map (λ e. (e.0, f e.1))

abbrev pub open_only : (Session → Session) → Session → Session
open_only f s = if s.closed then s else f s

unfoldable pub drop_closed : Sessions → Sessions
drop_closed [] = []
drop_closed ((k, s) ∷ m) = if s.closed then drop_closed m else (k, s) ∷ drop_closed m

-- What `tick` does with the sessions once the socket is drained.
unfoldable pub tick_sessions : ℕ → ℕ → Sessions → Sessions
tick_sessions handled now sessions =
    let flushed = if ltb 0 handled then each (open_only flush_acks) sessions else sessions in
    drop_closed (each (open_only (update now)) flushed)

-- The datagrams left at the socket, the manager, and the number handled.
unfoldable pub tick :
    (Bytes → Bool) → List Incoming → ℕ → SessionManager → List Incoming × SessionManager × ℕ
tick resolves queue now m =
    let (left, m', handled) = drain_socket resolves 10000 queue m 0 in
    (left, record m' { sessions = tick_sessions handled now m'.sessions }, handled)
