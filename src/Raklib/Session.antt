-- ===== src/Raklib/Session.antt =====
-- The state of src/raklib/Session.cpp and include/mpmpes/raklib/Session.hpp.
-- What the session does to its manager and its handlers is a list of events, oldest first. A time
-- is a number of nanoseconds, where the source has seconds in a double. The uint8_t, uint16_t and
-- uint32_t counters wrap; the int32_t window bounds are integers.
pub mod Send
pub mod Handshake
pub mod Receive
pub mod Raw
pub mod Update
pub mod Frame
pub mod Routing
pub mod Entry
pub mod Reach
pub mod Splits
pub mod Recovery
pub mod Tests
pub mod Window
pub mod Sending
use Prim.Native.String.{String}
use mpmpescore_cpp.Prelude.{ℕ, ◌+◌, Bool, true, false, List, [], ◌∷◌, ◌++◌, replicate}
use mpmpescore_cpp.Prelude.Int.{ℤ, pos, negsuc}
use mpmpescore_cpp.Binary.{Bytes}
use mpmpescore_cpp.Raklib.Encapsulated.{EncapsulatedPacket}
use mpmpescore_cpp.Raklib.Datagram.{Datagram}
use mpmpescore_cpp.Raklib.Datagram

-- The address is a dotted text, as bytes.
pub record Endpoint : Type 0 where
  pub address : Bytes
  pub port : ℕ

pub data SessionState : Type 0 where
  unconnected connecting1 connecting2 connected : SessionState

-- `send_raw_to` is `manager_.sendRawTo` to the cached address, `send_raw` is `manager_.sendRaw`; then
-- the three handlers, and `manager_.markSessionClosed`.
pub data Event : Type 0 where
  send_raw_to : Bytes → Event
  send_raw : Bytes → Endpoint → Event
  on_encap : Endpoint → EncapsulatedPacket → Event
  on_open : Endpoint → ℕ → Event
  on_close mark_closed : Endpoint → String → Event

-- `kWindowSize`, `kMaxSplitSize` and `kMaxSplitCount`.
abbrev pub window_size : ℕ
window_size = 2048

abbrev pub max_split_size : ℕ
max_split_size = 128

abbrev pub max_split_count : ℕ
max_split_count = 4

-- Half a second, and the ten seconds of the timeout.
abbrev pub recovery_resend_delay : ℕ
recovery_resend_delay = 500_000_000

abbrev pub timeout_delay : ℕ
timeout_delay = 10_000_000_000

-- `handlers` is true once `setHandlers` has given all three. The maps are ascending lists, and
-- `received_window`, whose values are all true, is the list of its keys.
pub record Session : Type 0 where
  pub endpoint : Endpoint
  pub cached_dst_ok : Bool
  pub server_id : ℕ
  pub client_id : ℕ
  pub state : SessionState
  pub temporal : Bool
  pub active : Bool
  pub closed : Bool
  pub last_update : ℕ
  pub mtu_size : ℕ
  pub message_index : ℕ
  pub split_id_counter : ℕ
  pub channel_index : List ℕ
  pub send_seq : ℕ
  pub last_seq : ℤ
  pub window_start : ℤ
  pub window_end : ℤ
  pub reliable_window_start : ℤ
  pub reliable_window_end : ℤ
  pub last_reliable_index : ℤ
  pub reliable_window : List (ℕ × EncapsulatedPacket)
  pub ack_queue : List ℕ
  pub nack_queue : List ℕ
  pub received_window : List ℕ
  pub send_queue : Datagram
  pub packet_to_send : List Datagram
  pub recovery_queue : List (ℕ × Datagram)
  pub splits : List (ℕ × List (ℕ × EncapsulatedPacket))
  pub handlers : Bool
  pub events : List Event

-- The constructor. The flag is the result of `inet_pton`.
unfoldable pub create : Endpoint → Bool → ℕ → Session
create endpoint cached_dst_ok server_id = record {
  endpoint = endpoint;
  cached_dst_ok = cached_dst_ok;
  server_id = server_id;
  client_id = 0;
  state = unconnected;
  temporal = true;
  active = false;
  closed = false;
  last_update = 0;
  mtu_size = 548;
  message_index = 0;
  split_id_counter = 0;
  channel_index = replicate 32 0;
  send_seq = 0;
  last_seq = negsuc 0;
  window_start = negsuc 0;
  window_end = pos window_size;
  reliable_window_start = pos 0;
  reliable_window_end = pos window_size;
  last_reliable_index = negsuc 0;
  reliable_window = [];
  ack_queue = [];
  nack_queue = [];
  received_window = [];
  send_queue = record Datagram.fresh { id = 0x84 };
  packet_to_send = [];
  recovery_queue = [];
  splits = [];
  handlers = false;
  events = [];
}

unfoldable pub set_handlers : Session → Session
set_handlers s = record s { handlers = true }

unfoldable pub emit : Event → Session → Session
emit e s = record s { events = s.events ++ (e ∷ []) }
