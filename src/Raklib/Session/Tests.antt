-- ===== src/Raklib/Session/Tests.antt =====
-- Runs of src/raklib/Session.cpp on small sessions.
use mpmpescore_cpp.Prelude.{
  ℕ, ◌+◌, ◌-◌, ◌%◌, ◌^◌, ◌≡◌, ◌≤◌, ◌<◌, refl, true, false, not, ◌&&◌, ◌||◌, none, some, List, [],
  ◌∷◌, arith, ltb, leb, ◌==◌, if◌then◌else◌, ◌⊎◌, elem, length, inl, inr, replicate,
}
use mpmpescore_cpp.Prelude.Int.{pos}
use mpmpescore_cpp.Prelude.Maps.{map_set, map_find}
use mpmpescore_cpp.Binary.{Bytes}
use mpmpescore_cpp.Raklib.Encapsulated.{EncapsulatedPacket, total_length}
use mpmpescore_cpp.Raklib.Encapsulated
use mpmpescore_cpp.Raklib.Acknowledge
use mpmpescore_cpp.Raklib.Acknowledge.{AcknowledgePacket}
use mpmpescore_cpp.Binary.Stream.{get_byte, get_short, get_ltriad, get_as, get, need, feof}
use mpmpescore_cpp.Binary.{read_short, read_ltriad}
use mpmpescore_cpp.Raklib.Datagram.{Datagram, size}
use mpmpescore_cpp.Raklib.Datagram
use mpmpescore_cpp.Raklib.Session.{Session, Endpoint, connected, create, window_size, emit}
use mpmpescore_cpp.Raklib.Session.Send.{
  add_to_queue, chunk_size, split_part, add_encapsulated, assign_indices, send_parts, number_part,
  send_datagram, send_bytes,
}
use mpmpescore_cpp.Raklib.Session.Receive.{
  is_connected, handle_reliable, handle_encapsulated_route, combine, store_split,
}
use mpmpescore_cpp.Raklib.Session.Raw.{
  is_refused, accept_seq, handle_raw, decode_ack, handle_ack, resend_one,
}
use mpmpescore_cpp.Raklib.Session.Update.{update}
use mpmpescore_cpp.Raklib.Session.Frame.{receiving}
use mpmpescore_cpp.Raklib.Session.Routing.{receiving-handle_encapsulated_route}
use mpmpescore_cpp.Raklib.Session.Window.{IsWindow}
use mpmpescore_cpp.Raklib.Session.Window.Datagrams.{is_refused_lem, accept_seq-queues}
use mpmpescore_cpp.Raklib.Session.Window.Messages.{next_index, handle_reliable-IsWindow}
use mpmpescore_cpp.Raklib.Session.Reach.{Step, received, ticked, Reachable, created, called}
use mpmpescore_cpp.Raklib.Session.Reach.Windows.{HasWindow, Reachable-HasWindow}
use mpmpescore_cpp.Raklib.Session.Reach.Connection.{
  IsConnection, Reachable-IsConnection, is_past, Step-forward,
}
use mpmpescore_cpp.Raklib.Session.Splits.{bytes_of, splits-store_split_refused}
use mpmpescore_cpp.Raklib.Session.Splits.Parts.{sent_at, bytes_in, header_in}
use mpmpescore_cpp.Raklib.Session.Splits.Sent.{combine-add_encapsulated}
use mpmpescore_cpp.Raklib.Session.Window.InTurn.{in_turn, turns, handle_reliable-in_turn}
use mpmpescore_cpp.Raklib.Session.Recovery.Wire.{find-handle_ack-encode}
use mpmpescore_cpp.Raklib.Session.Recovery.{find-resend_one, size-add_to_queue}

abbrev here : Endpoint
here = record { address = b'1' ∷ []; port = 19132 }

-- An ordinary message of two bytes.
abbrev message : EncapsulatedPacket
message = record Encapsulated.fresh {
  reliability = 2;
  message_index = some 2;
  buffer = 0x95 ∷ 0 ∷ [];
}

abbrev sent : Datagram
sent = record { id = 0x84; seq_number = 5; packets = message ∷ []; send_time = 100 }

-- Datagrams 0 to 2 and messages 0 and 1 have come, and message 3 waits.
abbrev running : Session
running = record (create here true 7) {
  state = connected;
  handlers = true;
  mtu_size = 1464;
  send_seq = 9;
  last_seq = pos 2;
  window_start = pos 2;
  window_end = pos 2051;
  received_window = 2 ∷ [];
  reliable_window_start = pos 2;
  reliable_window_end = pos 2050;
  last_reliable_index = pos 1;
  reliable_window = (3, message) ∷ [];
  ack_queue = 2 ∷ [];
  nack_queue = 1 ∷ [];
  recovery_queue = (5, sent) ∷ [];
  send_queue = record Datagram.fresh { packets = message ∷ [] };
  splits = (1, []) ∷ (2, []) ∷ (3, []) ∷ (4, []) ∷ [];
}

running-IsWindow : IsWindow 3 2 (receiving running)
running-IsWindow = record {
  last_seq = refl;
  window_start = refl;
  window_end = refl;
  received = (omega arith, tt);
  newest = λ k e. ground arith;
  reliable_window_start = refl;
  reliable_window_end = refl;
  last_reliable_index = refl;
  waiting = (omega arith, tt);
}

is_refused_lem_example : is_refused 5 running ≡ (ltb 5 3 || ltb (3 + window_size) 5)
is_refused_lem_example = is_refused_lem 5 3 2 running (omega arith) running-IsWindow

accept_seq-queues_example :
    (elem 4 (accept_seq 5 running).ack_queue ≡ ((5 == 4) || elem 4 (running.ack_queue)))
    × (elem 4 (accept_seq 5 running).nack_queue
        ≡ ((not (5 == 4) && elem 4 (running.nack_queue)) || (leb 3 4 && ltb 4 5)))
accept_seq-queues_example =
    accept_seq-queues 5 3 2 running (omega arith) running-IsWindow (omega arith) 4

handle_reliable-in_turn_example : handle_reliable message 2 100 running ≡ (
    if ltb 2 2 || ltb (2 + window_size) 2
    then running
    else (if 2 == 2
        then in_turn 100 2
            ((message, running.reliable_window) ∷ turns 3 (running.reliable_window))
            running
        else record running { reliable_window = map_set 2 message (running.reliable_window) }))
handle_reliable-in_turn_example =
    handle_reliable-in_turn 3 2 2 100 message running (omega arith) running-IsWindow

handle_reliable-IsWindow_example :
    IsWindow 3
      (if ltb 2 2 || ltb (2 + window_size) 2 then 2 else next_index 2 2 (running.reliable_window))
      (receiving (handle_reliable message 2 100 running))
handle_reliable-IsWindow_example =
    handle_reliable-IsWindow 3 2 2 100 message running (omega arith) running-IsWindow

receiving-handle_encapsulated_route_example :
    receiving (handle_encapsulated_route message 100 running) ≡ receiving running
receiving-handle_encapsulated_route_example =
    receiving-handle_encapsulated_route message 100 running

-- A first request that is too short, and a tick.
abbrev begun : Session
begun = handle_raw (5 ∷ []) 50 (create here true 7)

begun-Step : Step (create here true 7) begun
begun-Step = received (5 ∷ []) 50 (omega arith, tt)

begun-Reachable : Reachable (update 60 begun)
begun-Reachable = called (called (created here true 7) begun-Step) (ticked 60)

Reachable-HasWindow_example : HasWindow (update 60 begun)
Reachable-HasWindow_example = Reachable-HasWindow begun-Reachable

Reachable-IsConnection_example : IsConnection (update 60 begun)
Reachable-IsConnection_example = Reachable-IsConnection begun-Reachable

Step-forward_example :
    (is_past running ≡ true → is_past (update 60 running) ≡ true)
    × (is_connected (running.state) ≡ true → is_connected (update 60 running).state ≡ true)
Step-forward_example = Step-forward (ticked {s = running} 60)

-- 51 bytes in two parts, with 60 bytes to a datagram.
abbrev long_message : EncapsulatedPacket
long_message = record message { buffer = replicate 51 7 }

abbrev small_datagrams : Session
small_datagrams = record running { mtu_size = 60; send_seq = 9 }

abbrev split_up : Session
split_up = add_encapsulated long_message false 100 small_datagrams

abbrev both_parts : List (ℕ × EncapsulatedPacket)
both_parts = (0, split_part long_message 26 2 1 0) ∷ (1, split_part long_message 26 2 1 1) ∷ []

all_parts :
    (i : ℕ)
    → i < split_up.send_seq - 9
    → bytes_of i both_parts ≡ bytes_in (sent_at (9 + i) split_up)
unfolding add_encapsulated assign_indices send_parts number_part split_part add_to_queue
    send_datagram send_bytes emit chunk_size total_length create
all_parts i h = elim (two i h) [ inl e ↦ rw e refl | inr e ↦ rw e refl ]
  where
    two : (i : ℕ) → i < 2 → (i ≡ 0) ⊎ (i ≡ 1)
    two i h = omega arith

combine-add_encapsulated_example :
    (combine (split_up.send_seq - 9) 0 both_parts ≡ some (long_message.buffer))
    × (header_in (sent_at (9 + 1) split_up) ≡ (
        if ltb 1 (split_up.send_seq - 9)
        then some (
          true,
          some (split_up.send_seq - 9),
          some ((small_datagrams.split_id_counter + 1) % 2 ^ 16),
          some 1,
        )
        else header_in (sent_at (9 + 1) small_datagrams)))
unfolding total_length assign_indices
combine-add_encapsulated_example =
    combine-add_encapsulated long_message false 100 1 small_datagrams both_parts (omega arith)
      (omega arith) all_parts

splits-store_split_refused_example :
    (length (store_split message (pos 3) (pos 0) 8 100 running).splits
      ≡ length (running.splits) + 1)
    × (map_find 8 (store_split message (pos 3) (pos 0) 8 100 running).splits
        ≡ (if 8 == 8 then some [] else map_find 8 (running.splits)))
    × (record (store_split message (pos 3) (pos 0) 8 100 running) { splits = running.splits }
        ≡ running)
splits-store_split_refused_example =
    splits-store_split_refused message 3 0 8 8 100 running (omega arith) (omega arith) refl
      (omega arith)

-- The ACK of datagram 5.
abbrev ack_bytes : Bytes
ack_bytes = 0xc0 ∷ 0 ∷ 1 ∷ 1 ∷ 5 ∷ 0 ∷ 0 ∷ []

ack_numbers : decode_ack ack_bytes ≡ some (5 ∷ [])
unfolding decode_ack Acknowledge.decode Acknowledge.decode_loop Acknowledge.read_record get_byte
    get_short get_ltriad get_as get need feof read_short read_ltriad
ack_numbers = refl

-- Numbers out of order and twice.
abbrev ack_of_five : AcknowledgePacket
ack_of_five = record { id = 0xc0; packets = 6 ∷ 5 ∷ 5 ∷ [] }

find-handle_ack-encode_example :
    map_find 5 (handle_ack (Acknowledge.encode ack_of_five) running).recovery_queue
    ≡ (if elem 5 (ack_of_five.packets) then none else map_find 5 (running.recovery_queue))
find-handle_ack-encode_example =
    find-handle_ack-encode 5 ack_of_five running (ground arith) (omega arith)

find-resend_one_example : map_find 9 (resend_one 5 700 running).recovery_queue ≡ (
    if 9 == 9
    then some (record sent { seq_number = 9; send_time = 700 })
    else (if 5 == 9 then none else map_find 9 (running.recovery_queue)))
find-resend_one_example = find-resend_one 9 5 700 sent running refl

message_fits : total_length message + 4 ≤ 1464
unfolding total_length
message_fits = omega arith

size-add_to_queue_example : size (add_to_queue message false 100 running).send_queue ≤ 1464
size-add_to_queue_example = size-add_to_queue message 100 running message_fits
