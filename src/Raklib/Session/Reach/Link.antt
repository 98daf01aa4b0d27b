-- ===== src/Raklib/Session/Reach/Link.antt =====
-- The part of a session of src/raklib/Session.cpp that its receiving windows do not touch.
use Prim.Native.String.{String}
use mpmpescore_cpp.Prelude.{
  min, ℕ, zero, suc, ◌^◌, ◌<◌, ◌≡◌, refl, ap, ◌∙◌, Bool, true, false, List, [], ◌∷◌, elem, ◌||◌,
  if_both,
}
use mpmpescore_cpp.Prelude.Int.{ℤ, pos, ltℤ, to_i32, eqℤ, ◌+ℤ◌, ◌-ℤ◌}
use mpmpescore_cpp.Prelude.Maps.{map_set}
use mpmpescore_cpp.Raklib.Encapsulated.{EncapsulatedPacket}
use mpmpescore_cpp.Raklib.Session.{Session, SessionState, connecting1, connecting2}
use mpmpescore_cpp.Raklib.Session.Receive.{
  is_connected, is_connecting2, slide, deliver, disconnect, handle_client_handshake,
  handle_reliable, handle_encapsulated_route,
}
use mpmpescore_cpp.Raklib.Session.Raw.{
  is_connecting1, to_u32, nack_one, nack_gap, mark_received, nack_missing, move_window, accept_seq,
}
use mpmpescore_cpp.Raklib.Session.Update.{trim_received}
use mpmpescore_cpp.Raklib.Session.Frame.{Kept, kept}
use mpmpescore_cpp.Raklib.Session.Routing.{handle_encapsulated_route-keeps}
use mpmpescore_cpp.Raklib.Session.Entry.{IsKept}

-- What the receiving windows do not touch.
pub record Link : Type 0 where
  pub state : SessionState
  pub closed : Bool
  pub mtu_size : ℕ
  pub closed_events : ℕ

abbrev pub link_of : Kept → Link
link_of k = record {
  state = k.state;
  closed = k.closed;
  mtu_size = k.mtu_size;
  closed_events = k.closed_events;
}

abbrev pub link : Session → Link
link s = link_of (kept s)

link-nack_gap : (rounds : ℕ) (i : ℤ) (s : Session) → link (nack_gap rounds i s) ≡ link s
unfolding nack_gap nack_one
link-nack_gap zero i s = refl
link-nack_gap (suc rounds) i s =
    link-nack_gap rounds (i +ℤ pos 1) _
    ∙ if_both (λ t. link t ≡ link s) (elem (to_u32 i) s.received_window) refl refl

link-nack_missing : (seq diff : ℤ) (s : Session) → link (nack_missing seq diff s) ≡ link s
unfolding nack_missing
link-nack_missing seq diff s =
    if_both (λ t. link t ≡ link s) (eqℤ diff (pos 1)) refl (link-nack_gap _ _ s)

link-move_window : (seq diff : ℤ) (s : Session) → link (move_window seq diff s) ≡ link s
unfolding move_window
link-move_window seq diff s = if_both (λ t. link t ≡ link s) (ltℤ diff (pos 1)) refl refl

link-accept_seq : (k : ℕ) (s : Session) → link (accept_seq k s) ≡ link s
unfolding accept_seq mark_received
link-accept_seq k s = link-move_window _ _ _ ∙ link-nack_missing _ _ _

link-trim_received : (s : Session) → link (trim_received s) ≡ link s
unfolding trim_received
link-trim_received s = refl

-- A property of the link alone is kept when the steps of the link keep it.
module _ {ℓ} (P : Session → Type ℓ) (moving : (s t : Session) → link t ≡ link s → P s → P t)
    (handshake : (s : Session)
      → P s
      → is_connecting2 s.state ≡ true
      → P (handle_client_handshake s))
    (first_request : (mtu : ℕ) (s : Session)
      → (is_connected s.state || is_connecting2 s.state) ≡ false
      → P s
      → P (record s { mtu_size = mtu; state = connecting1 }))
    (second_request : (mtu client_id : ℕ) (s : Session)
      → is_connecting1 s.state ≡ true
      → P s
      → P (record s { client_id = client_id; mtu_size = min mtu 1464; state = connecting2 }))
    (closing : (reason : String) (s : Session) → P s → P (disconnect reason s)) where
  sending : (s t : Session) → kept t ≡ kept s → P s → P t
  sending s t e = moving s t (ap link_of e)

  routing :
      (p : EncapsulatedPacket) (now : ℕ) (s : Session) → P s → P (handle_encapsulated_route p now s)
  routing =
      handle_encapsulated_route-keeps P sending handshake (λ s reason. closing reason s)
        (λ s splits. moving s (record s { splits = splits }) refl)

  delivering :
      (waiting : List (ℕ × EncapsulatedPacket)) (now : ℕ) (s : Session)
      → P s
      → P (deliver waiting now s)
  unfolding deliver
  delivering [] now s h = h
  delivering ((k, p) ∷ waiting) now s h =
      if_both P (eqℤ (pos k -ℤ s.last_reliable_index) (pos 1))
        (delivering waiting now _
          (routing p now _ (moving s (record (slide s) { reliable_window = waiting }) refl h)))
        h

  ordering :
      (p : EncapsulatedPacket) (k now : ℕ) (s : Session)
      → k < 2 ^ 24
      → P s
      → P (handle_reliable p k now s)
  unfolding handle_reliable
  ordering p k now s small h =
      if_both P (ltℤ (to_i32 k) s.reliable_window_start || ltℤ s.reliable_window_end (to_i32 k)) h (
        if_both P (eqℤ (to_i32 k -ℤ s.last_reliable_index) (pos 1))
          (delivering _ now _ (routing p now (slide s) (moving s (slide s) refl h)))
          (moving s (record s { reliable_window = map_set k p s.reliable_window }) refl h))

  pub link-IsKept : IsKept P
  link-IsKept = record {
    sending = sending;
    routing = routing;
    ordering = ordering;
    accepting = λ k s _ _. moving s (accept_seq k s) (link-accept_seq k s);
    first_request = first_request;
    second_request = second_request;
    closing = closing;
    trimming = λ s. moving s (trim_received s) (link-trim_received s);
  }
