-- ===== src/Raklib/SessionManager/Tests.antt =====
-- Runs of src/raklib/SessionManager.cpp on small managers.
use mpmpescore_cpp.Prelude.{◌==◌}
use mpmpescore_cpp.Prelude.{
  ◌≡◌, refl, Bool, true, ◌&&◌, some, List, [], ◌∷◌, arith, All, if◌then◌else◌, get_or, bytes_eq,
  length,
}
use mpmpescore_cpp.Binary.{Bytes}
use mpmpescore_cpp.Raklib.Session.{Session, Endpoint}
use mpmpescore_cpp.Raklib.Session.Raw.{handle_raw}
use mpmpescore_cpp.Raklib.SessionManager.{
  SessionManager, Incoming, get_session, handle_packet, tick, drain_socket,
}
use mpmpescore_cpp.Raklib.Session.Reach.Windows.{HasWindow}
use mpmpescore_cpp.Raklib.Session.Reach.Connection.{IsConnection}
use mpmpescore_cpp.Raklib.SessionManager.Table.{IsTable, unless_closed, changed}
use mpmpescore_cpp.Raklib.SessionManager.Tick.{
  hear_all, readable, born, ticked, get_session-tick, drain_socket_drained,
}
use mpmpescore_cpp.Raklib.SessionManager.Reach.{Running, started, ticking, Running-All}
use mpmpescore_cpp.Raklib.SessionManager.Sessions.{
  session_for, is_routed, get_session-handle_packet,
}

abbrev always : Bytes → Bool
always address = true

abbrev here : Endpoint
here = record { address = b'1' ∷ []; port = 19132 }

abbrev there : Endpoint
there = record { address = b'2' ∷ []; port = 19132 }

abbrev manager : SessionManager
manager = record { server_id = 7; name = b'M' ∷ []; sessions = []; handlers = true; sent = [] }

abbrev queue : List Incoming
queue =
    record { time = 1; buffer = 5 ∷ []; source = here }
    ∷ record { time = 2; buffer = 1 ∷ []; source = there }
    ∷ []

get_session-handle_packet_example :
    get_session there (handle_packet always (5 ∷ []) here 1 manager) ≡ (
      if is_routed (get_or (5 ∷ []) 0 0)
        && (bytes_eq (here.address) (there.address) && here.port == there.port)
      then some (handle_raw (5 ∷ []) 1 (session_for always here manager))
      else get_session there manager)
get_session-handle_packet_example =
    get_session-handle_packet always (5 ∷ []) here 1 manager there (omega arith) (omega arith)

drain_socket_drained_example :
    ((drain_socket always 10000 queue manager 0).0 ≡ [])
    × ((drain_socket always 10000 queue manager 0).2 ≡ length queue)
    × (get_session there (drain_socket always 10000 queue manager 0).1
        ≡ hear_all (born always manager) there queue (get_session there manager))
drain_socket_drained_example =
    drain_socket_drained always queue manager there (refl, (refl, tt)) (omega arith)

get_session-tick_example :
    (get_session here (tick always queue 3 manager).1
      ≡ unless_closed (
          changed (ticked (length (readable 10000 queue)) 3) (
            hear_all (born always manager) here (readable 10000 queue) (get_session here manager))))
    × IsTable (tick always queue 3 manager).1.sessions
get_session-tick_example = get_session-tick always queue 3 manager here tt

-- A tick on an empty manager.
manager_ticked : Running (tick always queue 3 manager).1
manager_ticked =
    ticking always queue 3 ((omega arith, tt), ((omega arith, tt), tt)) (started 7 (b'M' ∷ []) true)

Running-All_example :
    IsTable (tick always queue 3 manager).1.sessions
    × All
        (λ (e : Bytes × Session). HasWindow e.1 × IsConnection e.1)
        (tick always queue 3 manager).1.sessions
Running-All_example = Running-All manager_ticked
