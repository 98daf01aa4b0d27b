-- ===== src/Raklib/Session/Routing.antt =====
-- Routing a packet, in src/raklib/Session.cpp, leaves the receiving windows alone, and changes the
-- connection in few ways.
use Prim.Native.String.{String}
use mpmpescore_cpp.Prelude.{
  ℕ, ◌≡◌, refl, ap, ◌∙◌, Bool, true, false, List, Option, none, some, ◌==◌, ◌&&◌, ◌||◌, not,
  is_empty, get_or, ltb, length, if_both, if_cases,
}
use mpmpescore_cpp.Prelude.Int.{ℤ, ltℤ, eqℤ, pos, pos_part, to_i32}
use mpmpescore_cpp.Prelude.Maps.{map_set, map_erase}
use mpmpescore_cpp.Binary.{Bytes}
use mpmpescore_cpp.Raklib.Constants.{
  id_client_connect, id_client_handshake, id_client_disconnect, id_connected_ping,
  id_connected_pong,
}
use mpmpescore_cpp.Binary.Stream.{empty, put_byte, put_long}
use mpmpescore_cpp.Raklib.Encapsulated.{EncapsulatedPacket}
use mpmpescore_cpp.Raklib.Encapsulated
use mpmpescore_cpp.Raklib.Session.Send.{add_to_queue}
use mpmpescore_cpp.Raklib.Session.Handshake.{encode_server_handshake}
use mpmpescore_cpp.Raklib.Session.{Session, emit, mark_closed, max_split_size, max_split_count}
use mpmpescore_cpp.Raklib.Session.Receive.{
  disconnect, reply, read_client_connect, handle_client_connect, handle_client_handshake, read_ping,
  handle_connected_ping, is_connected, is_connecting2, handle_internal_connected, route_whole,
  combine, parts_of, finish_split, store_split, handle_split, handle_encapsulated_route,
}
use mpmpescore_cpp.Raklib.Session.Frame.{receiving, Kept, kept, kept-emit, kept-add_to_queue}

pub and_left : (a b : Bool) → (a && b) ≡ true → a ≡ true
and_left true b h = refl
and_left false b h = h

-- A property of sessions that no step of the routing breaks: sending leaves what is kept, a
-- handshake comes in CONNECTING_2 only, and the split table may become any other.
module _ {ℓ} (P : Session → Type ℓ) (sending : (s t : Session) → kept t ≡ kept s → P s → P t)
    (handshake : (s : Session)
      → P s
      → is_connecting2 s.state ≡ true
      → P (handle_client_handshake s))
    (closing : (s : Session) (reason : String) → P s → P (disconnect reason s))
    (splitting : (s : Session) (splits : List (ℕ × List (ℕ × EncapsulatedPacket)))
      → P s
      → P (record s { splits = splits })) where
  handle_client_connect-keeps :
      (payload : Bytes) (now : ℕ) (s : Session) → P s → P (handle_client_connect payload now s)
  unfolding handle_client_connect
  handle_client_connect-keeps payload now s h = go (read_client_connect payload)
    where
      go :
          (r : Option ℕ)
          → P (elim r [
            | none ↦ s
            | some ping ↦ add_to_queue (reply (encode_server_handshake ping s)) true now s
          ])
      go none = h
      go (some ping) = sending s _ (kept-add_to_queue _ true now s) h

  handle_connected_ping-keeps :
      (payload : Bytes) (now : ℕ) (s : Session) → P s → P (handle_connected_ping payload now s)
  unfolding handle_connected_ping
  handle_connected_ping-keeps payload now s h = go (read_ping payload)
    where
      go :
          (r : Option ℕ)
          → P (elim r [
            | none ↦ s
            | some ping_id ↦
                add_to_queue
                  (reply (put_long ping_id (put_byte id_connected_pong empty)).buffer)
                  false
                  now
                  s
          ])
      go none = h
      go (some ping_id) = sending s _ (kept-add_to_queue _ false now s) h

  handle_internal_connected-keeps :
      (payload : Bytes) (now : ℕ) (s : Session) → P s → P (handle_internal_connected payload now s)
  unfolding handle_internal_connected
  handle_internal_connected-keeps payload now s h = if_both P (is_empty payload) h (
      if_both P (is_connecting2 s.state && get_or payload 0 0 == id_client_connect)
        (handle_client_connect-keeps payload now s h)
        (if_cases P (is_connecting2 s.state && get_or payload 0 0 == id_client_handshake)
          (λ e. handshake s h (and_left _ _ e))
          (λ _.
            if_both P (get_or payload 0 0 == id_client_disconnect) (closing s "client disconnect" h)
              (if_both P (get_or payload 0 0 == id_connected_ping)
                (handle_connected_ping-keeps payload now s h) h))))

  route_whole-keeps :
      (p : EncapsulatedPacket) (now : ℕ) (s : Session) → P s → P (route_whole p now s)
  unfolding route_whole
  route_whole-keeps p now s h = if_both P (is_empty p.buffer) h (
      if_both P (ltb (get_or p.buffer 0 0) 0x80) (handle_internal_connected-keeps p.buffer now s h)
        (if_both P (is_connected s.state && s.handlers) (sending s _ (kept-emit _ refl s) h) h))

  finish_split-keeps :
      (sid count : ℕ) (parts : List (ℕ × EncapsulatedPacket)) (now : ℕ) (s : Session)
      → P s
      → P (finish_split sid count parts now s)
  unfolding finish_split
  finish_split-keeps sid count parts now s h = go (combine count 0 parts)
    where
      go :
          (r : Option Bytes)
          → P (elim r [
            | none ↦ record s { splits = map_erase sid s.splits }
            | some buffer ↦
                route_whole
                  (record Encapsulated.fresh { buffer = buffer })
                  now
                  (record s { splits = map_erase sid s.splits })
          ])
      go none = splitting s _ h
      go (some buffer) = route_whole-keeps _ now _ (splitting s _ h)

  store_split-keeps :
      (p : EncapsulatedPacket) (count index : ℤ) (sid now : ℕ) (s : Session)
      → P s
      → P (store_split p count index sid now s)
  unfolding store_split
  store_split-keeps p count index sid now s h =
      if_both P
        (not (ltℤ count (pos max_split_size))
          || (not (ltℤ index (pos max_split_size)) || ltℤ index (pos 0)))
        h
        (if_both P
          (is_empty (parts_of sid s.splits)
            && ltb max_split_count (length (map_set sid (parts_of sid s.splits) s.splits)))
          (splitting s _ h)
          (if_both P (eqℤ (pos (length (map_set (pos_part index) p (parts_of sid s.splits)))) count)
            (finish_split-keeps sid _ _ now _ (splitting s _ h)) (splitting s _ h)))

  handle_split-keeps :
      (p : EncapsulatedPacket) (now : ℕ) (s : Session) → P s → P (handle_split p now s)
  unfolding handle_split
  handle_split-keeps p now s h = go p.split_count p.split_index p.split_id
    where
      go :
          (c x d : Option ℕ)
          → P (elim c [
            | none ↦ s
            | some count ↦ elim x [
              | none ↦ s
              | some index ↦ elim d [
                | none ↦ s
                | some sid ↦ store_split p (to_i32 count) (to_i32 index) sid now s
              ]
            ]
          ])
      go none x d = h
      go (some count) none d = h
      go (some count) (some index) none = h
      go (some count) (some index) (some sid) =
          store_split-keeps p (to_i32 count) (to_i32 index) sid now s h

  -- Routing keeps the property.
  pub handle_encapsulated_route-keeps :
      (p : EncapsulatedPacket) (now : ℕ) (s : Session) → P s → P (handle_encapsulated_route p now s)
  unfolding handle_encapsulated_route
  handle_encapsulated_route-keeps p now s h =
      if_both P p.has_split (if_both P (is_connected s.state) (handle_split-keeps p now s h) h)
        (route_whole-keeps p now s h)

pub receiving-disconnect :
    (s : Session) (reason : String) → receiving (disconnect reason s) ≡ receiving s
unfolding disconnect emit
receiving-disconnect s reason =
    if_both (λ t. receiving t ≡ receiving s) s.closed refl
      (if_both (λ t. receiving (emit (mark_closed s.endpoint reason) t) ≡ receiving s) s.handlers
        refl refl)

pub receiving-handshake : (s : Session) → receiving (handle_client_handshake s) ≡ receiving s
unfolding handle_client_handshake emit
receiving-handshake s = if_both (λ t. receiving t ≡ receiving s) s.handlers refl refl

-- The windows are as they were.
pub receiving-handle_encapsulated_route :
    (p : EncapsulatedPacket) (now : ℕ) (s : Session)
    → receiving (handle_encapsulated_route p now s) ≡ receiving s
receiving-handle_encapsulated_route p now s =
    handle_encapsulated_route-keeps (λ t. receiving t ≡ receiving s)
      (λ t u e h. ap (λ (k : Kept). k.receive) e ∙ h) (λ t h _. receiving-handshake t ∙ h)
      (λ t reason h. receiving-disconnect t reason ∙ h) (λ t splits h. h) p now s refl
