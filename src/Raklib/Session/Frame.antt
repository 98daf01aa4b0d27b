-- ===== src/Raklib/Session/Frame.antt =====
-- What the sending side of src/raklib/Session.cpp leaves as it is: the connection and the receiving
-- side.
use mpmpescore_cpp.Prelude.{
  is_empty, if_both, ltb, ◌==◌, ◌+◌, ℕ, zero, suc, ◌≡◌, refl, ◌∙◌, Bool, true, false, List, [], ◌∷◌,
  ◌++◌, ap, arith,
}
use mpmpescore_cpp.Prelude.Int.{ℤ}
use mpmpescore_cpp.Binary.{Bytes}
use mpmpescore_cpp.Raklib.Encapsulated.{EncapsulatedPacket, total_length}
use mpmpescore_cpp.Raklib.Datagram.{Datagram}
use mpmpescore_cpp.Raklib.Datagram
use mpmpescore_cpp.Raklib.Session.{
  Session, SessionState, Endpoint, Event, send_raw_to, send_raw, on_encap, on_open, on_close,
  mark_closed, emit,
}
use mpmpescore_cpp.Raklib.Session.Handshake.{send_open_connection_reply_2}
use mpmpescore_cpp.Raklib.Session.Send.{
  send_bytes, flush_ack_queue, flush_nack_queue, flush_acks, send_datagram, flush_send_queue,
  add_to_queue, push_queue, assign_indices, number_part, send_parts, add_encapsulated,
  has_message_index,
}

-- The receiving side.
pub record Receiving : Type 0 where
  pub last_seq : ℤ
  pub window_start : ℤ
  pub window_end : ℤ
  pub received_window : List ℕ
  pub reliable_window_start : ℤ
  pub reliable_window_end : ℤ
  pub last_reliable_index : ℤ
  pub reliable_window : List (ℕ × EncapsulatedPacket)

abbrev pub receiving : Session → Receiving
receiving s = record {
  last_seq = s.last_seq;
  window_start = s.window_start;
  window_end = s.window_end;
  received_window = s.received_window;
  reliable_window_start = s.reliable_window_start;
  reliable_window_end = s.reliable_window_end;
  last_reliable_index = s.last_reliable_index;
  reliable_window = s.reliable_window;
}

-- How often the manager was told that the session is closed.
abbrev pub closings : List Event → ℕ
closings [] = 0
closings (send_raw_to d ∷ es) = closings es
closings (send_raw d e ∷ es) = closings es
closings (on_encap e p ∷ es) = closings es
closings (on_open e c ∷ es) = closings es
closings (on_close e r ∷ es) = closings es
closings (mark_closed e r ∷ es) = closings es + 1

pub closings-append : (es fs : List Event) → closings (es ++ fs) ≡ closings es + closings fs
closings-append [] fs = ground arith
closings-append (send_raw_to d ∷ es) fs = closings-append es fs
closings-append (send_raw d e ∷ es) fs = closings-append es fs
closings-append (on_encap e p ∷ es) fs = closings-append es fs
closings-append (on_open e c ∷ es) fs = closings-append es fs
closings-append (on_close e r ∷ es) fs = closings-append es fs
closings-append (mark_closed e r ∷ es) fs = ground (arith, closings-append es fs)

-- The connection and the receiving side.
pub record Kept : Type 0 where
  pub endpoint : Endpoint
  pub state : SessionState
  pub closed : Bool
  pub handlers : Bool
  pub mtu_size : ℕ
  pub client_id : ℕ
  pub splits : List (ℕ × List (ℕ × EncapsulatedPacket))
  pub closed_events : ℕ
  pub receive : Receiving

abbrev pub kept : Session → Kept
kept s = record {
  endpoint = s.endpoint;
  state = s.state;
  closed = s.closed;
  handlers = s.handlers;
  mtu_size = s.mtu_size;
  client_id = s.client_id;
  splits = s.splits;
  closed_events = closings s.events;
  receive = receiving s;
}

-- A change that leaves what is kept.
abbrev pub Keeps : (Session → Session) → Type 0
Keeps f = (s : Session) → kept (f s) ≡ kept s

pub kept-emit : (e : Event) → closings (e ∷ []) ≡ 0 → Keeps (emit e)
unfolding emit
kept-emit e h s =
    ap (λ (n : ℕ). record (kept s) { closed_events = n })
      (closings-append s.events (e ∷ []) ∙ omega (arith, h))

pub kept-send_bytes : (d : Bytes) → Keeps (send_bytes d)
unfolding send_bytes
kept-send_bytes d s =
    if_both (λ t. kept t ≡ kept s) s.cached_dst_ok (kept-emit (send_raw_to d) refl s)
      (kept-emit (send_raw d s.endpoint) refl s)

kept-flush_ack_queue : Keeps flush_ack_queue
unfolding flush_ack_queue
kept-flush_ack_queue s =
    if_both (λ t. kept t ≡ kept s) (is_empty s.ack_queue) refl (kept-send_bytes _ s)

kept-flush_nack_queue : Keeps flush_nack_queue
unfolding flush_nack_queue
kept-flush_nack_queue s =
    if_both (λ t. kept t ≡ kept s) (is_empty s.nack_queue) refl (kept-send_bytes _ s)

pub kept-flush_acks : Keeps flush_acks
unfolding flush_acks
kept-flush_acks s = kept-flush_nack_queue (flush_ack_queue s) ∙ kept-flush_ack_queue s

pub kept-send_datagram : (d : Datagram) (now : ℕ) → Keeps (send_datagram d now)
unfolding send_datagram
kept-send_datagram d now s = kept-send_bytes _ _

pub kept-flush_send_queue : (now : ℕ) → Keeps (flush_send_queue now)
unfolding flush_send_queue
kept-flush_send_queue now s =
    if_both (λ t. kept t ≡ kept s) (is_empty s.send_queue.packets) refl (kept-send_datagram _ now _)

pub kept-add_to_queue :
    (pk : EncapsulatedPacket) (immediate : Bool) (now : ℕ) → Keeps (add_to_queue pk immediate now)
unfolding add_to_queue push_queue
kept-add_to_queue pk true now s = kept-send_datagram _ now _
kept-add_to_queue pk false now s =
    if_both (λ t. kept t ≡ kept s) (ltb s.mtu_size (Datagram.size s.send_queue + total_length pk))
      (kept-flush_send_queue now s) refl

kept-assign_indices : (p : EncapsulatedPacket) (s : Session) → kept (assign_indices p s).1 ≡ kept s
unfolding assign_indices
kept-assign_indices p s =
    if_both (λ (t : EncapsulatedPacket × Session). kept t.1 ≡ kept s)
      (has_message_index p.reliability)
      (if_both (λ (t : EncapsulatedPacket × Session). kept t.1 ≡ kept s) (p.reliability == 3) refl
        refl)
      refl

kept-number_part :
    (packet : EncapsulatedPacket) (i : ℕ) (part : EncapsulatedPacket) (s : Session)
    → kept (number_part packet i part s).1 ≡ kept s
unfolding number_part
kept-number_part packet i part s =
    if_both (λ (t : EncapsulatedPacket × Session). kept t.1 ≡ kept s) (i == 0) refl
      (if_both (λ (t : EncapsulatedPacket × Session). kept t.1 ≡ kept s)
        (has_message_index packet.reliability) refl refl)

kept-send_parts :
    (rounds i : ℕ) (packet : EncapsulatedPacket) (chunk count sid now : ℕ)
    → Keeps (send_parts rounds i packet chunk count sid now)
unfolding send_parts
kept-send_parts zero i packet chunk count sid now s = refl
kept-send_parts (suc rounds) i packet chunk count sid now s =
    kept-send_parts rounds (i + 1) packet chunk count sid now _
    ∙ kept-add_to_queue _ true now _
    ∙ kept-number_part packet i _ s

pub kept-add_encapsulated :
    (packet : EncapsulatedPacket) (immediate : Bool) (now : ℕ)
    → Keeps (add_encapsulated packet immediate now)
unfolding add_encapsulated
kept-add_encapsulated packet immediate now s =
    if_both (λ t. kept t ≡ kept s)
      (ltb (assign_indices packet s).1.mtu_size (total_length (assign_indices packet s).0 + 4))
      (kept-send_parts _ 0 _ _ _ _ now _ ∙ kept-assign_indices packet s)
      (kept-add_to_queue _ immediate now _ ∙ kept-assign_indices packet s)

pub kept-send_open_connection_reply_2 : Keeps send_open_connection_reply_2
unfolding send_open_connection_reply_2
kept-send_open_connection_reply_2 s = kept-send_bytes _ s
