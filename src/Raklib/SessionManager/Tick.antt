-- ===== src/Raklib/SessionManager/Tick.antt =====
-- A tick of src/raklib/SessionManager.cpp as each session sees it.
use mpmpescore_cpp.Prelude.{
  ℕ, zero, suc, ◌+◌, ◌≤◌, ◌≡◌, refl, ap, ◌∙◌, Bool, true, false, ◌&&◌, ◌||◌, List, [], ◌∷◌, ◌++◌,
  arith, Option, none, some, ltb, ◌==◌, if◌then◌else◌, if_both, bytes_eq, bytes_eq_lem, Bool-cases,
  inl, inr, value_or, is_empty, get_or, length, All,
}
use mpmpescore_cpp.Binary.{Bytes}
use mpmpescore_cpp.Binary.Stream.{BinaryStream}
use mpmpescore_cpp.Raklib.Constants.{
  id_unconnected_ping, id_unconnected_ping_open_connections, id_unconnected_pong,
}
use mpmpescore_cpp.Raklib.Session.{Session, Endpoint, create, set_handlers}
use mpmpescore_cpp.Raklib.Session.Send.{flush_acks}
use mpmpescore_cpp.Raklib.Session.Raw.{handle_raw}
use mpmpescore_cpp.Raklib.Session.Update.{update}
use mpmpescore_cpp.Raklib.SessionManager.{
  Sessions, SessionManager, Incoming, key_of, find_session, send_raw, pong, get_session,
  new_session, get_or_create_session, handle_unconnected_ping, is_session_packet, handle_packet,
  drain_socket, each, tick_sessions, tick,
}
use mpmpescore_cpp.Raklib.SessionManager.Table.{
  IsTable, unless_closed, changed, find-each, find-drop_closed, each-IsTable, drain_socket-IsTable,
  tick_sessions-IsTable,
}
use mpmpescore_cpp.Raklib.SessionManager.Sessions.{is_routed, handle_packet_lem, drain_socket_left}

-- What the session of an endpoint, if there is one, becomes by a datagram: it handles those of its
-- own sender, and the first of them brings it about.
abbrev pub hear : (Endpoint → Session) → Endpoint → Incoming → Option Session → Option Session
hear new ep d o =
    if is_routed (get_or d.buffer 0 0) && bytes_eq (key_of d.source) (key_of ep)
    then some (handle_raw d.buffer d.time (value_or o (new d.source)))
    else o

-- The same for datagrams one after the other.
abbrev pub hear_all :
    (Endpoint → Session) → Endpoint → List Incoming → Option Session → Option Session
hear_all new ep [] o = o
hear_all new ep (d ∷ queue) o = hear_all new ep queue (hear new ep d o)

-- The datagrams that one drain reads: at most `rounds`, and none from the first empty one on.
abbrev pub readable : ℕ → List Incoming → List Incoming
readable zero queue = []
readable (suc rounds) [] = []
readable (suc rounds) (d ∷ queue) =
    let rest = readable rounds queue in if is_empty d.buffer then [] else d ∷ rest

-- The new session of an endpoint.
abbrev pub born : (Bytes → Bool) → SessionManager → Endpoint → Session
born resolves m ep = new_session resolves ep m

-- What the manager gives a new session stays the same.
Alike : SessionManager → SessionManager → Type 0
Alike m n = (n.server_id ≡ m.server_id) × (n.handlers ≡ m.handlers)

born-Alike :
    (resolves : Bytes → Bool) (m n : SessionManager) → Alike m n → born resolves n ≡ born resolves m
unfolding Alike
born-Alike resolves m n (id, handlers) =
    ap (λ i. given i n.handlers) id ∙ ap (given m.server_id) handlers
  where
    given : ℕ → Bool → Endpoint → Session
    given server_id handlers ep =
        let s = create ep (resolves ep.address) server_id in if handlers then set_handlers s else s

Alike-ping :
    (buffer : Bytes) (source : Endpoint) (m : SessionManager)
    → Alike m (handle_unconnected_ping buffer source m)
unfolding Alike handle_unconnected_ping send_raw
Alike-ping buffer source m = answered (pong buffer m)
  where
    answered :
        (o : Option BinaryStream)
        → Alike m
            (elim o as (λ _. SessionManager) [ none ↦ m | some out ↦ send_raw out.buffer source m ])
    answered none = (refl, refl)
    answered (some out) = (refl, refl)

Alike-get_or_create :
    (resolves : Bytes → Bool) (ep : Endpoint) (m : SessionManager)
    → Alike m (get_or_create_session resolves ep m)
unfolding Alike get_or_create_session
Alike-get_or_create resolves ep m = made (find_session (key_of ep) m.sessions)
  where
    made :
        (o : Option Session)
        → Alike m (elim o as (λ _. SessionManager) [
          | some s ↦ m
          | none ↦ record m {
            sessions = m.sessions ++ ((key_of ep, new_session resolves ep m) ∷ []);
          }
        ])
    made none = (refl, refl)
    made (some s) = (refl, refl)

Alike-handle_packet :
    (resolves : Bytes → Bool) (buffer : Bytes) (source : Endpoint) (now : ℕ) (m : SessionManager)
    → Alike m (handle_packet resolves buffer source now m)
unfolding Alike handle_packet
Alike-handle_packet resolves buffer source now m =
    let pid = get_or buffer 0 0 in
    if_both (Alike m) (pid == id_unconnected_ping || pid == id_unconnected_ping_open_connections)
      (Alike-ping buffer source m)
      (if_both (Alike m) (pid == id_unconnected_pong) (refl, refl)
        (if_both (Alike m) (is_session_packet pid) (Alike-get_or_create resolves source m)
          (refl, refl)))

get_session-hear :
    (resolves : Bytes → Bool) (d : Incoming) (m : SessionManager) (ep : Endpoint)
    → get_session ep (handle_packet resolves d.buffer d.source d.time m)
      ≡ hear (born resolves m) ep d (get_session ep m)
unfolding get_session
get_session-hear resolves d m ep =
    handle_packet_lem resolves d.buffer d.source d.time m ep
    ∙ elim (Bool-cases
        (is_routed (get_or d.buffer 0 0) && bytes_eq (key_of d.source) (key_of ep))) [
          | inl e ↦
              let same : key_of d.source ≡ key_of ep =
                bytes_eq_lem (key_of d.source) (key_of ep) (ground arith) in
              rw e (
                ap
                  (λ k. some (
                    handle_raw d.buffer d.time
                      (value_or (find_session k m.sessions) (new_session resolves d.source m))))
                  same)
          | inr e ↦ rw e refl
        ]

-- Every datagram that is read reaches the session of its sender, in order.
drain_socket_lem :
    (resolves : Bytes → Bool) (rounds : ℕ) (queue : List Incoming) (m : SessionManager)
    (handled : ℕ) (ep : Endpoint)
    → (get_session ep (drain_socket resolves rounds queue m handled).1
        ≡ hear_all (born resolves m) ep (readable rounds queue) (get_session ep m))
      × ((drain_socket resolves rounds queue m handled).2
          ≡ handled + length (readable rounds queue))
unfolding drain_socket
drain_socket_lem resolves zero queue m handled ep = (refl, omega arith)
drain_socket_lem resolves (suc rounds) [] m handled ep = (refl, omega arith)
drain_socket_lem resolves (suc rounds) (d ∷ queue) m handled ep =
    elim (Bool-cases (is_empty d.buffer)) [
      | inl e ↦ rw e (refl, omega arith)
      | inr e ↦
          let next = handle_packet resolves d.buffer d.source d.time m in
          let (a, b) = drain_socket_lem resolves rounds queue next (handled + 1) ep in
          rw e (
            a
                ∙ ap (λ b. hear_all b ep (readable rounds queue) (get_session ep next))
                    (born-Alike resolves m next
                      (Alike-handle_packet resolves d.buffer d.source d.time m))
                ∙ ap (hear_all (born resolves m) ep (readable rounds queue))
                    (get_session-hear resolves d m ep),
            b ∙ omega arith,
          )
    ]

-- What a tick makes of a session after the drain: what it owes is acknowledged when a datagram was
-- read, and it is updated, both unless it is closed; then it is dropped if it is closed.
abbrev pub unless : (Session → Session) → Session → Session
unless f s = if s.closed then s else f s

abbrev pub ticked : ℕ → ℕ → Session → Session
ticked handled now s = unless (update now) (if ltb 0 handled then unless flush_acks s else s)

find-tick_sessions :
    (k : Bytes) (handled now : ℕ) (m : Sessions)
    → IsTable m
    → find_session k (tick_sessions handled now m)
      ≡ unless_closed (changed (ticked handled now) (find_session k m))
unfolding tick_sessions
find-tick_sessions k handled now m h =
    let b = ltb 0 handled in
    find-drop_closed k (each (unless (update now)) (flushed b))
      (each-IsTable (unless (update now)) (flushed b) (flushed-IsTable b))
    ∙ ap unless_closed
        (find-each k (unless (update now)) (flushed b) ∙ updated b (find_session k m) refl)
  where
    flushed : Bool → Sessions
    flushed b = if b then each (unless flush_acks) m else m

    flushed-IsTable : (b : Bool) → IsTable (flushed b)
    flushed-IsTable true = each-IsTable (unless flush_acks) m h
    flushed-IsTable false = h

    updated :
        (b : Bool) (o : Option Session)
        → find_session k m ≡ o
        → changed (unless (update now)) (find_session k (flushed b))
          ≡ changed
              (λ s. unless (update now) (if b then unless flush_acks s else s))
              (find_session k m)
    updated true none e =
        ap (changed (unless (update now))) (find-each k (unless flush_acks) m) ∙ rw e refl
    updated true (some s) e =
        ap (changed (unless (update now))) (find-each k (unless flush_acks) m) ∙ rw e refl
    updated false o e = refl

-- A tick, for each endpoint: its session hears the datagrams of its own sender that are read, in
-- order, then acknowledges and is updated, and is in the table afterwards exactly when it is open. The
-- datagrams that are read are the first 10000, or those before the first empty one. The table still
-- has one entry for an endpoint.
pub get_session-tick :
    (resolves : Bytes → Bool) (queue : List Incoming) (now : ℕ) (m : SessionManager) (ep : Endpoint)
    → IsTable m.sessions
    → (get_session ep (tick resolves queue now m).1
        ≡ unless_closed (
            changed
              (ticked (length (readable 10000 queue)) now)
              (hear_all (born resolves m) ep (readable 10000 queue) (get_session ep m))))
      × IsTable (tick resolves queue now m).1.sessions
unfolding tick get_session tick_sessions
get_session-tick resolves queue now m ep h =
    let drained = drain_socket resolves 10000 queue m 0 in
    let (heard, count) = drain_socket_lem resolves 10000 queue m 0 ep in
    let table = drain_socket-IsTable resolves 10000 queue m 0 h in
    let total : drained.2 ≡ length (readable 10000 queue) = count ∙ omega arith in
    (
      find-tick_sessions (key_of ep) drained.2 now drained.1.sessions table
          ∙ ap
              (λ n.
                unless_closed
                  (changed (ticked n now) (find_session (key_of ep) drained.1.sessions)))
              total
          ∙ ap (λ o. unless_closed (changed (ticked (length (readable 10000 queue)) now) o)) heard,
      tick_sessions-IsTable drained.2 now drained.1.sessions table,
    )

-- When no datagram at the socket is empty, the first ones are read.
readable_lem :
    (rounds : ℕ) (queue : List Incoming)
    → All (λ (d : Incoming). is_empty d.buffer ≡ false) queue
    → length queue ≤ rounds
    → readable rounds queue ≡ queue
readable_lem zero [] h l = refl
readable_lem zero (d ∷ queue) h l = absurd (omega arith)
readable_lem (suc rounds) [] h l = refl
readable_lem (suc rounds) (d ∷ queue) h l =
    ap (λ b. if b then [] else d ∷ readable rounds queue) h.0
    ∙ ap (λ r. d ∷ r) (readable_lem rounds queue h.1 (omega arith))

-- When the socket holds 10000 datagrams at most and none of them is empty, one drain takes them all: the
-- socket is empty afterwards, they are counted, and each session, of any endpoint, has handled those of
-- its own sender, in order.
pub drain_socket_drained :
    (resolves : Bytes → Bool) (queue : List Incoming) (m : SessionManager) (ep : Endpoint)
    → All (λ (d : Incoming). is_empty d.buffer ≡ false) queue
    → length queue ≤ 10000
    → ((drain_socket resolves 10000 queue m 0).0 ≡ [])
      × ((drain_socket resolves 10000 queue m 0).2 ≡ length queue)
      × (get_session ep (drain_socket resolves 10000 queue m 0).1
          ≡ hear_all (born resolves m) ep queue (get_session ep m))
drain_socket_drained resolves queue m ep h l =
    let (heard, count) = drain_socket_lem resolves 10000 queue m 0 ep in
    let all = readable_lem 10000 queue h l in
    (
      drain_socket_left resolves 10000 queue m 0 h l,
      count ∙ omega (arith, ap length all),
      heard ∙ ap (λ q. hear_all (born resolves m) ep q (get_session ep m)) all,
    )
