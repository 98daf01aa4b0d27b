-- ===== src/Raklib/SessionManager/Reach.antt =====
-- The sessions that src/raklib/SessionManager.cpp holds are those that calls of it lead to.
use mpmpescore_cpp.Prelude.{
  ℕ, zero, suc, ◌+◌, ◌<◌, Bool, ◌==◌, ◌||◌, Option, none, some, List, [], ◌∷◌, ◌++◌, All, ltb,
  if_both, bytes_eq, is_empty, get_or, subst, sym,
}
use mpmpescore_cpp.Binary.{Bytes}
use mpmpescore_cpp.Raklib.Constants.{
  id_unconnected_ping, id_unconnected_ping_open_connections, id_unconnected_pong,
}
use mpmpescore_cpp.Raklib.Session.{Session, Endpoint, create}
use mpmpescore_cpp.Raklib.Session.Send.{flush_acks}
use mpmpescore_cpp.Raklib.Session.Raw.{handle_raw}
use mpmpescore_cpp.Raklib.Session.Update.{update}
use mpmpescore_cpp.Raklib.Session.Reach.{
  Step, Reachable, created, called, received, ticked, flushed, handled,
}
use mpmpescore_cpp.Raklib.SessionManager.{
  Sessions, SessionManager, Incoming, key_of, find_session, change_session, new_session,
  get_or_create_session, is_session_packet, handle_packet, drain_socket, each, open_only,
  drop_closed, tick_sessions, tick, erase_session, remove_session,
}
use mpmpescore_cpp.Raklib.Session.Reach.Windows.{HasWindow, Reachable-HasWindow}
use mpmpescore_cpp.Raklib.Session.Reach.Connection.{IsConnection, Reachable-IsConnection}
use mpmpescore_cpp.Raklib.SessionManager.Table.{
  IsTable, drain_socket-IsTable, change_session-IsTable, erase_session-IsTable,
  tick_sessions-IsTable,
}
use mpmpescore_cpp.Raklib.SessionManager.Sessions.{sessions-ping}

-- Each session of the table is one that calls lead to.
abbrev pub AreReachable : Sessions → Type 0
AreReachable sessions = All (λ (e : Bytes × Session). Reachable e.1) sessions

-- What arrives is bytes.
abbrev pub AreBytes : List Incoming → Type 0
AreBytes queue = All (λ (d : Incoming). All (λ b. b < 256) d.buffer) queue

module _ (f : Session → Session) (keeps : (s : Session) → Reachable s → Reachable (f s)) where
  change_session-AreReachable :
      (k : Bytes) (m : Sessions) → AreReachable m → AreReachable (change_session k f m)
  unfolding change_session
  change_session-AreReachable k [] h = tt
  change_session-AreReachable k ((j, s) ∷ m) h =
      if_both AreReachable (bytes_eq j k) (keeps s h.0, h.1)
        (h.0, change_session-AreReachable k m h.1)

  each-AreReachable : (m : Sessions) → AreReachable m → AreReachable (each (open_only f) m)
  each-AreReachable [] h = tt
  each-AreReachable ((j, s) ∷ m) h =
      (if_both Reachable s.closed h.0 (keeps s h.0), each-AreReachable m h.1)

drop_closed-AreReachable : (m : Sessions) → AreReachable m → AreReachable (drop_closed m)
unfolding drop_closed
drop_closed-AreReachable [] h = tt
drop_closed-AreReachable ((k, s) ∷ m) h =
    if_both AreReachable s.closed (drop_closed-AreReachable m h.1)
      (h.0, drop_closed-AreReachable m h.1)

append-AreReachable :
    (m : Sessions) (k : Bytes) (s : Session)
    → AreReachable m
    → Reachable s
    → AreReachable (m ++ ((k, s) ∷ []))
append-AreReachable [] k s h r = (r, tt)
append-AreReachable (e ∷ m) k s h r = (h.0, append-AreReachable m k s h.1 r)

new_session-Reachable :
    (resolves : Bytes → Bool) (ep : Endpoint) (m : SessionManager)
    → Reachable (new_session resolves ep m)
new_session-Reachable resolves ep m =
    let fresh : Reachable (create ep (resolves ep.address) m.server_id) =
      created ep (resolves ep.address) m.server_id in
    if_both Reachable m.handlers (called fresh handled) fresh

get_or_create-AreReachable :
    (resolves : Bytes → Bool) (ep : Endpoint) (m : SessionManager)
    → AreReachable m.sessions
    → AreReachable (get_or_create_session resolves ep m).sessions
unfolding get_or_create_session
get_or_create-AreReachable resolves ep m h = created_for (find_session (key_of ep) m.sessions)
  where
    created_for :
        (o : Option Session)
        → AreReachable
            (elim o as (λ _. SessionManager) [
              | some s ↦ m
              | none ↦ record m {
                sessions = m.sessions ++ ((key_of ep, new_session resolves ep m) ∷ []);
              }
            ]).sessions
    created_for none = append-AreReachable m.sessions _ _ h (new_session-Reachable resolves ep m)
    created_for (some s) = h

handle_packet-AreReachable :
    (resolves : Bytes → Bool) (buffer : Bytes) (source : Endpoint) (now : ℕ) (m : SessionManager)
    → All (λ b. b < 256) buffer
    → AreReachable m.sessions
    → AreReachable (handle_packet resolves buffer source now m).sessions
unfolding handle_packet
handle_packet-AreReachable resolves buffer source now m bytes h =
    let pid = get_or buffer 0 0 in
    if_both Holds (pid == id_unconnected_ping || pid == id_unconnected_ping_open_connections)
      (subst AreReachable (sym (sessions-ping buffer source m)) h)
      (if_both Holds (pid == id_unconnected_pong) h (
        if_both Holds (is_session_packet pid)
          (change_session-AreReachable (handle_raw buffer now)
            (λ s r. called r (received buffer now bytes)) (key_of source) _
            (get_or_create-AreReachable resolves source m h))
          h))
  where
    Holds : SessionManager → Type 0
    Holds m = AreReachable m.sessions

drain_socket-AreReachable :
    (resolves : Bytes → Bool) (rounds : ℕ) (queue : List Incoming) (m : SessionManager) (count : ℕ)
    → AreBytes queue
    → AreReachable m.sessions
    → AreReachable (drain_socket resolves rounds queue m count).1.sessions
unfolding drain_socket
drain_socket-AreReachable resolves zero queue m count b h = h
drain_socket-AreReachable resolves (suc rounds) [] m count b h = h
drain_socket-AreReachable resolves (suc rounds) (d ∷ queue) m count b h =
    if_both (λ (r : List Incoming × SessionManager × ℕ). AreReachable r.1.sessions)
      (is_empty d.buffer) h
      (drain_socket-AreReachable resolves rounds queue
        (handle_packet resolves d.buffer d.source d.time m) (count + 1) b.1
        (handle_packet-AreReachable resolves d.buffer d.source d.time m b.0 h))

tick_sessions-AreReachable :
    (count now : ℕ) (m : Sessions) → AreReachable m → AreReachable (tick_sessions count now m)
unfolding tick_sessions
tick_sessions-AreReachable count now m h = drop_closed-AreReachable _ (
    each-AreReachable (update now) (λ s r. called r (ticked now)) _
      (if_both AreReachable (ltb 0 count)
        (each-AreReachable flush_acks (λ s r. called r flushed) m h) h))

tick-AreReachable :
    (resolves : Bytes → Bool) (queue : List Incoming) (now : ℕ) (m : SessionManager)
    → AreBytes queue
    → AreReachable m.sessions
    → AreReachable (tick resolves queue now m).1.sessions
unfolding tick
tick-AreReachable resolves queue now m b h =
    tick_sessions-AreReachable _ now _ (drain_socket-AreReachable resolves 10000 queue m 0 b h)

erase_session-AreReachable :
    (k : Bytes) (m : Sessions) → AreReachable m → AreReachable (erase_session k m)
unfolding erase_session
erase_session-AreReachable k [] h = tt
erase_session-AreReachable k ((j, s) ∷ m) h =
    if_both AreReachable (bytes_eq j k) h.1 (h.0, erase_session-AreReachable k m h.1)

-- The managers that calls lead to. Between two ticks the server calls sessions that the manager has
-- given to it, and removes sessions.
pub data Running : SessionManager → Type 0 where
  started :
      (server_id : ℕ) (name : Bytes) (handlers : Bool)
      → Running (record {
        server_id = server_id;
        name = name;
        sessions = [];
        handlers = handlers;
        sent = [];
      })
  ticking :
      {m : SessionManager} (resolves : Bytes → Bool) (queue : List Incoming) (now : ℕ)
      → AreBytes queue
      → Running m
      → Running (tick resolves queue now m).1
  acting :
      {m : SessionManager} (k : Bytes) (f : Session → Session)
      → ((s : Session) → Step s (f s))
      → Running m
      → Running (record m { sessions = change_session k f m.sessions })
  removing : {m : SessionManager} (ep : Endpoint) → Running m → Running (remove_session ep m)

Running-AreReachable : {m : SessionManager} → Running m → AreReachable m.sessions
unfolding remove_session
Running-AreReachable (started server_id name handlers) = tt
Running-AreReachable (ticking {m} resolves queue now b r) =
    tick-AreReachable resolves queue now m b (Running-AreReachable r)
Running-AreReachable (acting {m} k f step r) =
    change_session-AreReachable f (λ s h. called h (step s)) k m.sessions (Running-AreReachable r)
Running-AreReachable (removing {m} ep r) =
    erase_session-AreReachable (key_of ep) m.sessions (Running-AreReachable r)

Running-IsTable : {m : SessionManager} → Running m → IsTable m.sessions
unfolding remove_session tick
Running-IsTable (started server_id name handlers) = tt
Running-IsTable (ticking {m} resolves queue now b r) =
    tick_sessions-IsTable _ now _
      (drain_socket-IsTable resolves 10000 queue m 0 (Running-IsTable r))
Running-IsTable (acting {m} k f step r) = change_session-IsTable k f m.sessions (Running-IsTable r)
Running-IsTable (removing {m} ep r) =
    erase_session-IsTable (key_of ep) m.sessions (Running-IsTable r)

-- A session of the table is as the calls of its own methods keep it.
IsHeld : Sessions → Type 0
IsHeld sessions = All (λ (e : Bytes × Session). HasWindow e.1 × IsConnection e.1) sessions

held : (m : Sessions) → AreReachable m → IsHeld m
unfolding IsHeld
held [] h = tt
held (e ∷ m) h = ((Reachable-HasWindow h.0, Reachable-IsConnection h.0), held m h.1)

-- In every manager that ticks, calls of its sessions and removals lead to, when what arrives is bytes,
-- the table has one entry for an endpoint, and each session has both receiving windows in their form,
-- has reported its end once if it is closed and never otherwise, and has a datagram size of 1464 bytes
-- at most once it is past the first request.
pub Running-All :
    {m : SessionManager}
    → Running m
    → IsTable m.sessions
      × All (λ (e : Bytes × Session). HasWindow e.1 × IsConnection e.1) m.sessions
unfolding IsHeld
Running-All {m} r = (Running-IsTable r, held m.sessions (Running-AreReachable r))
