-- ===== src/Raklib/Session/Entry.antt =====
-- The entry points of src/raklib/Session.cpp keep every property of sessions that their steps keep.
use Prim.Native.String.{String}
use mpmpescore_cpp.Prelude.{
  if◌then◌else◌, not, length, ap, ◌%◌, take, drop, min, bytes_eq, ℕ, ◌^◌, ◌<◌, ◌≡◌, refl, true,
  false, List, [], ◌∷◌, Option, none, some, ◌==◌, ◌&&◌, ◌||◌, is_empty, get_or, ltb, if_both,
  if_cases, All,
}
use mpmpescore_cpp.Binary.{Bytes}
use mpmpescore_cpp.Raklib.Constants.{
  magic, id_open_connection_request_1, id_open_connection_request_2, id_ack, id_nack,
}
use mpmpescore_cpp.Raklib.Encapsulated.{EncapsulatedPacket}
use mpmpescore_cpp.Raklib.Datagram.{Datagram}
use mpmpescore_cpp.Raklib.Datagram
use mpmpescore_cpp.Raklib.Datagram.Bounds.{Below, IsNumbered, decode-IsNumbered}
use mpmpescore_cpp.Raklib.Session.{Session, connecting1, connecting2}
use mpmpescore_cpp.Raklib.Session.Routing.{and_left}
use mpmpescore_cpp.Raklib.Session.Handshake.{send_open_connection_reply_2}
use mpmpescore_cpp.Raklib.Session.Send.{send_bytes, flush_send_queue}
use mpmpescore_cpp.Raklib.Session.Receive.{
  disconnect, handle_encapsulated_route, handle_reliable, handle_encapsulated, is_connected,
  is_connecting2,
}
use mpmpescore_cpp.Raklib.Session.Raw.{
  read_request_2, handle_all, is_refused, accept_seq, handle_datagram, handle_request_1,
  handle_request_2, is_connecting1, handle_offline, is_data, handle_online, handle_raw,
}
use mpmpescore_cpp.Raklib.Session.Update.{send_due, trim_received, is_timed_out, run_tick, update}
use mpmpescore_cpp.Raklib.Session.Frame.{
  Kept, kept-send_bytes, kept, kept-flush_send_queue, kept-send_open_connection_reply_2,
}
use mpmpescore_cpp.Raklib.Session.Sending.{kept-handle_ack, kept-handle_nack, kept-send_due}

-- A property of sessions that no step breaks. Sending leaves what is kept; the numbers and indices
-- that arrive are below 2 ^ 24; a first offline request sets the size and the state, a second one
-- comes in CONNECTING_1 only.
pub record IsKept {ℓ} (P : Session → Type ℓ) : Type ℓ where
  pub sending : (s t : Session) → kept t ≡ kept s → P s → P t
  pub routing :
      (p : EncapsulatedPacket) (now : ℕ) (s : Session) → P s → P (handle_encapsulated_route p now s)
  pub ordering :
      (p : EncapsulatedPacket) (k now : ℕ) (s : Session)
      → k < 2 ^ 24
      → P s
      → P (handle_reliable p k now s)
  pub accepting :
      (k : ℕ) (s : Session) → k < 2 ^ 24 → is_refused k s ≡ false → P s → P (accept_seq k s)
  pub first_request :
      (mtu : ℕ) (s : Session)
      → (is_connected s.state || is_connecting2 s.state) ≡ false
      → P s
      → P (record s { mtu_size = mtu; state = connecting1 })
  pub second_request :
      (mtu client_id : ℕ) (s : Session)
      → is_connecting1 s.state ≡ true
      → P s
      → P (record s { client_id = client_id; mtu_size = min mtu 1464; state = connecting2 })
  pub closing : (reason : String) (s : Session) → P s → P (disconnect reason s)
  pub trimming : (s : Session) → P s → P (trim_received s)

module _ {ℓ} (P : Session → Type ℓ) (keeps : IsKept P) where
  handle_request_1-keeps :
      (buffer : Bytes) (s : Session)
      → (is_connected s.state || is_connecting2 s.state) ≡ false
      → P s
      → P (handle_request_1 buffer s)
  unfolding handle_request_1
  handle_request_1-keeps buffer s e h = if_both P (ltb (length buffer) 18) h (
      if_both P (not (bytes_eq (take 16 (drop 1 buffer)) magic)) h
        (sent _ (length buffer % 2 ^ 16)))
    where
      sent :
          (d : Bytes) (mtu : ℕ)
          → P (record (send_bytes d (record s { mtu_size = mtu })) { state = connecting1 })
      sent d mtu =
          keeps.sending (record s { mtu_size = mtu; state = connecting1 }) _
            (ap (λ (k : Kept). record k { state = connecting1 })
              (kept-send_bytes d (record s { mtu_size = mtu })))
            (keeps.first_request mtu s e h)

  handle_request_2-keeps :
      (buffer : Bytes) (s : Session)
      → is_connecting1 s.state ≡ true
      → P s
      → P (handle_request_2 buffer s)
  unfolding handle_request_2
  handle_request_2-keeps buffer s e h = read (read_request_2 buffer)
    where
      asked : ℕ → ℕ → Session
      asked mtu client_id = record s { client_id = client_id; mtu_size = min mtu 1464 }

      read :
          (r : Option (ℕ × ℕ))
          → P (elim r [
            | none ↦ s
            | some (mtu, client_id) ↦
                record (send_open_connection_reply_2
                  (record s { client_id = client_id; mtu_size = min mtu 1464 })) {
                    state = connecting2;
                  }
          ])
      read none = h
      read (some (mtu, client_id)) =
          keeps.sending (record (asked mtu client_id) { state = connecting2 }) _
            (ap (λ (k : Kept). record k { state = connecting2 })
              (kept-send_open_connection_reply_2 (asked mtu client_id)))
            (keeps.second_request mtu client_id s e h)

  handle_offline-keeps :
      (buffer : Bytes) (s : Session)
      → (is_connected s.state || is_connecting2 s.state) ≡ false
      → P s
      → P (handle_offline buffer s)
  unfolding handle_offline
  handle_offline-keeps buffer s e h =
      let pid = get_or buffer 0 0 in
      if_both P (pid == id_open_connection_request_1) (handle_request_1-keeps buffer s e h) (
        if_cases P (is_connecting1 s.state && pid == id_open_connection_request_2)
          (λ q. handle_request_2-keeps buffer s (and_left _ _ q) h) (λ _. h))

  handle_encapsulated-keeps :
      (p : EncapsulatedPacket) (now : ℕ) (s : Session)
      → Below p.message_index
      → P s
      → P (handle_encapsulated p now s)
  unfolding handle_encapsulated
  handle_encapsulated-keeps p now s b h = go p.message_index b
    where
      go :
          (m : Option ℕ)
          → Below m
          → P (elim m [
            | none ↦ handle_encapsulated_route p now s
            | some index ↦ handle_reliable p index now s
          ])
      go none b = keeps.routing p now s h
      go (some k) b = keeps.ordering p k now s b h

  handle_all-keeps :
      (ps : List EncapsulatedPacket) (now : ℕ) (s : Session)
      → All (λ (p : EncapsulatedPacket). Below p.message_index) ps
      → P s
      → P (handle_all ps now s)
  unfolding handle_all
  handle_all-keeps [] now s b h = h
  handle_all-keeps (p ∷ ps) now s b h =
      handle_all-keeps ps now _ b.1 (handle_encapsulated-keeps p now s b.0 h)

  handle_datagram-keeps :
      (buffer : Bytes) (now : ℕ) (s : Session)
      → All (λ b. b < 256) buffer
      → P s
      → P (handle_datagram buffer now s)
  unfolding handle_datagram
  handle_datagram-keeps buffer now s bytes h =
      go (Datagram.decode buffer Datagram.fresh) (decode-IsNumbered buffer bytes)
    where
      go :
          (r : Option Datagram)
          → IsNumbered r
          → P (elim r [
            | none ↦ s
            | some dgram ↦
                if is_refused dgram.seq_number s
                then s
                else handle_all dgram.packets now (accept_seq dgram.seq_number s)
          ])
      go none b = h
      go (some d) b =
          if_cases P (is_refused d.seq_number s) (λ _. h)
            (λ e. handle_all-keeps d.packets now _ b.1 (keeps.accepting d.seq_number s b.0 e h))

  handle_online-keeps :
      (buffer : Bytes) (now : ℕ) (s : Session)
      → All (λ b. b < 256) buffer
      → P s
      → P (handle_online buffer now s)
  unfolding handle_online
  handle_online-keeps buffer now s bytes h =
      let pid = get_or buffer 0 0 in
      if_both P (is_data pid) (handle_datagram-keeps buffer now s bytes h) (
        if_both P (pid == id_ack) (keeps.sending s _ (kept-handle_ack buffer s) h) (
          if_both P (pid == id_nack) (keeps.sending s _ (kept-handle_nack buffer now s) h) (
            if_both P (is_connecting2 s.state && pid == id_open_connection_request_2)
              (keeps.sending s _ (kept-send_open_connection_reply_2 s) h) h)))

  pub handle_raw-keeps :
      (buffer : Bytes) (now : ℕ) (s : Session)
      → All (λ b. b < 256) buffer
      → P s
      → P (handle_raw buffer now s)
  unfolding handle_raw
  handle_raw-keeps buffer now s bytes h =
      let pid = get_or buffer 0 0 in
      let h' = keeps.sending s (record s { active = true; last_update = now }) refl h in
      if_both P (is_empty buffer) h (
        if_cases P (is_connected s.state || is_connecting2 s.state)
          (λ _. handle_online-keeps buffer now _ bytes h')
          (λ e. if_both P (ltb 0 pid && ltb pid 0x80) (handle_offline-keeps buffer _ e h') h'))

  run_tick-keeps : (now : ℕ) (s : Session) → P s → P (run_tick now s)
  unfolding run_tick
  run_tick-keeps now s h =
      let inactive : Session = record s { active = false } in
      let h1 : P (send_due now inactive) =
        keeps.sending s (send_due now inactive) (kept-send_due now inactive) h in
      let h2 : P (trim_received (send_due now inactive)) =
        keeps.trimming (send_due now inactive) h1 in
      keeps.sending (trim_received (send_due now inactive))
        (flush_send_queue now (trim_received (send_due now inactive)))
        (kept-flush_send_queue now (trim_received (send_due now inactive))) h2

  pub update-keeps : (now : ℕ) (s : Session) → P s → P (update now s)
  unfolding update
  update-keeps now s h =
      if_both P (is_timed_out now s) (keeps.closing "timeout" s h) (run_tick-keeps now s h)
