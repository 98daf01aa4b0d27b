-- ===== src/Raklib/SessionManager/Sessions.antt =====
-- The session table of src/raklib/SessionManager.cpp: who it holds, and what a packet or a tick does to it.
use mpmpescore_cpp.Prelude.{
  ℕ, zero, suc, ◌+◌, ◌≤◌, ◌<◌, ◌^◌, ◌≡◌, refl, sym, ap, ◌∙◌, Bool, true, false, not, ◌&&◌, ◌||◌,
  List, [], ◌∷◌, ◌++◌, arith, Option, none, some, ◌==◌, if◌then◌else◌, bytes_eq, bytes_eq_lem,
  bytes_eq_refl, Bool-cases, inl, inr, value_or, is_empty, get_or, length, All,
}
use mpmpescore_cpp.Binary.{Bytes}
use mpmpescore_cpp.Binary.Stream.{BinaryStream}
use mpmpescore_cpp.Raklib.Constants.{
  id_unconnected_ping, id_unconnected_ping_open_connections, id_unconnected_pong,
}
use mpmpescore_cpp.Raklib.Session.{Session, Endpoint}
use mpmpescore_cpp.Raklib.Session.Raw.{handle_raw}
use mpmpescore_cpp.Raklib.SessionManager.Keys.{bytes_eq-key_of}
use mpmpescore_cpp.Raklib.SessionManager.{
  Sessions, SessionManager, Incoming, key_of, find_session, change_session, send_raw, pong,
  get_session, new_session, get_or_create_session, handle_unconnected_ping, is_session_packet,
  handle_packet, drain_socket,
}

find-change_same :
    (k : Bytes) (f : Session → Session) (m : Sessions)
    → find_session k (change_session k f m)
      ≡ (elim (find_session k m) [ none ↦ none | some s ↦ some (f s) ])
unfolding find_session change_session
find-change_same k f [] = refl
find-change_same k f ((j, s) ∷ m) = elim (Bool-cases (bytes_eq j k)) [
  | inl e ↦ rw e (ap (λ b. if b then some (f s) else find_session k m) e)
  | inr e ↦ rw e (
      ap (λ b. if b then some s else find_session k (change_session k f m)) e
      ∙ find-change_same k f m)
]

pub find-change_other :
    (i k : Bytes) (f : Session → Session) (m : Sessions)
    → bytes_eq k i ≡ false
    → find_session i (change_session k f m) ≡ find_session i m
unfolding find_session change_session
find-change_other i k f [] h = refl
find-change_other i k f ((j, s) ∷ m) h = elim (Bool-cases (bytes_eq j k)) [
  | inl e ↦
      let other : bytes_eq j i ≡ false = ap (λ x. bytes_eq x i) (bytes_eq_lem j k e) ∙ h in
      rw (e, other) refl
  | inr e ↦ rw e (ap (λ r. if bytes_eq j i then some s else r) (find-change_other i k f m h))
]

pub find-append :
    (i k : Bytes) (s : Session) (m : Sessions)
    → find_session i (m ++ ((k, s) ∷ [])) ≡ (elim (find_session i m) [
      | none ↦ (if bytes_eq k i then some s else none)
      | some t ↦ some t
    ])
unfolding find_session
find-append i k s [] = refl
find-append i k s ((j, t) ∷ m) = elim (Bool-cases (bytes_eq j i)) [
  | inl e ↦ rw e refl
  | inr e ↦ rw e (find-append i k s m)
]

-- The session that a packet from the endpoint goes to.
abbrev pub session_for : (Bytes → Bool) → Endpoint → SessionManager → Session
session_for resolves ep m = value_or (get_session ep m) (new_session resolves ep m)

find-get_or_create :
    (i : Bytes) (resolves : Bytes → Bool) (ep : Endpoint) (m : SessionManager)
    → find_session i (get_or_create_session resolves ep m).sessions ≡ (
        if bytes_eq (key_of ep) i
        then some (session_for resolves ep m)
        else find_session i m.sessions)
unfolding get_or_create_session get_session
find-get_or_create i resolves ep m = elim (Bool-cases (bytes_eq (key_of ep) i)) [
  | inl e ↦ rw e (
      same (find_session (key_of ep) m.sessions)
        (ap (λ k. find_session k m.sessions) (sym (bytes_eq_lem (key_of ep) i e))) e)
  | inr e ↦ rw e (other (find_session (key_of ep) m.sessions) e)
]
  where
    created : Option Session → SessionManager
    created o = elim o as (λ _. SessionManager) [
      | some s ↦ m
      | none ↦ record m { sessions = m.sessions ++ ((key_of ep, new_session resolves ep m) ∷ []) }
    ]

    same :
        (o : Option Session)
        → find_session i m.sessions ≡ o
        → bytes_eq (key_of ep) i ≡ true
        → find_session i (created o).sessions ≡ some (value_or o (new_session resolves ep m))
    same none q e =
        find-append i (key_of ep) (new_session resolves ep m) m.sessions ∙ rw (q, e) refl
    same (some s) q e = q

    other :
        (o : Option Session)
        → bytes_eq (key_of ep) i ≡ false
        → find_session i (created o).sessions ≡ find_session i m.sessions
    other none e =
        find-append i (key_of ep) (new_session resolves ep m) m.sessions
        ∙ ap
            (λ b. elim (find_session i m.sessions) as (λ _. Option Session) [
              | none ↦ if b then some (new_session resolves ep m) else none
              | some t ↦ some t
            ])
            e
        ∙ back (find_session i m.sessions)
      where
        back :
            (o : Option Session)
            → (elim o as (λ _. Option Session) [ none ↦ none | some t ↦ some t ]) ≡ o
        back none = refl
        back (some t) = refl
    other (some s) e = refl

-- The first byte tells whether a packet goes to a session.
abbrev pub is_routed : ℕ → Bool
is_routed pid =
    not (pid == id_unconnected_ping || pid == id_unconnected_ping_open_connections)
    && (not (pid == id_unconnected_pong) && is_session_packet pid)

pub sessions-ping :
    (buffer : Bytes) (source : Endpoint) (m : SessionManager)
    → (handle_unconnected_ping buffer source m).sessions ≡ m.sessions
unfolding handle_unconnected_ping send_raw
sessions-ping buffer source m = answered (pong buffer m)
  where
    answered :
        (o : Option BinaryStream)
        → (elim o as (λ _. SessionManager) [
          | none ↦ m
          | some out ↦ send_raw out.buffer source m
        ]).sessions
          ≡ m.sessions
    answered none = refl
    answered (some out) = refl

-- The sessions once the packet of a session has been handled.
find-handle_raw :
    (i : Bytes) (resolves : Bytes → Bool) (buffer : Bytes) (source : Endpoint) (now : ℕ)
    (m : SessionManager)
    → find_session i (
        change_session
          (key_of source)
          (handle_raw buffer now)
          (get_or_create_session resolves source m).sessions)
      ≡ (if bytes_eq (key_of source) i
          then some (handle_raw buffer now (session_for resolves source m))
          else find_session i m.sessions)
find-handle_raw i resolves buffer source now m = elim (Bool-cases (bytes_eq (key_of source) i)) [
  | inl e ↦
      ap (λ k. find_session k (change_session (key_of source) (handle_raw buffer now) created))
        (sym (bytes_eq_lem (key_of source) i e))
      ∙ find-change_same (key_of source) (handle_raw buffer now) created
      ∙ ap
          (λ o. elim o as (λ _. Option Session) [
            | none ↦ none
            | some s ↦ some (handle_raw buffer now s)
          ])
          (find-get_or_create (key_of source) resolves source m
            ∙ ap
                (λ b.
                  if b
                  then some (session_for resolves source m)
                  else find_session (key_of source) m.sessions)
                (bytes_eq_refl (key_of source)))
      ∙ ap
          (λ b.
            if b
            then some (handle_raw buffer now (session_for resolves source m))
            else find_session i m.sessions)
          (sym e)
  | inr e ↦
      find-change_other i (key_of source) (handle_raw buffer now) created e
      ∙ find-get_or_create i resolves source m
      ∙ ap (λ b. if b then some (session_for resolves source m) else find_session i m.sessions) e
      ∙ ap
          (λ b.
            if b
            then some (handle_raw buffer now (session_for resolves source m))
            else find_session i m.sessions)
          (sym e)
]
  where
    created : Sessions
    created = (get_or_create_session resolves source m).sessions

-- Of the sessions in the table, a packet changes the one under the key of its sender.
pub handle_packet_lem :
    (resolves : Bytes → Bool) (buffer : Bytes) (source : Endpoint) (now : ℕ) (m : SessionManager)
    (ep : Endpoint)
    → get_session ep (handle_packet resolves buffer source now m) ≡ (
        if is_routed (get_or buffer 0 0) && bytes_eq (key_of source) (key_of ep)
        then some (handle_raw buffer now (session_for resolves source m))
        else get_session ep m)
unfolding get_session handle_packet
handle_packet_lem resolves buffer source now m ep =
    dispatch (pid == id_unconnected_ping || pid == id_unconnected_ping_open_connections)
      (pid == id_unconnected_pong) (is_session_packet pid)
  where
    pid : ℕ
    pid = get_or buffer 0 0

    routed : SessionManager
    routed = record (get_or_create_session resolves source m) {
      sessions =
          change_session (key_of source) (handle_raw buffer now)
            (get_or_create_session resolves source m).sessions;
    }

    dispatch :
        (a b c : Bool)
        → find_session
            (key_of ep)
            (if a
              then handle_unconnected_ping buffer source m
              else (if b then m else (if c then routed else m))).sessions
          ≡ (if (not a && (not b && c)) && bytes_eq (key_of source) (key_of ep)
              then some (handle_raw buffer now (session_for resolves source m))
              else find_session (key_of ep) m.sessions)
    dispatch true b c = ap (find_session (key_of ep)) (sessions-ping buffer source m)
    dispatch false true c = refl
    dispatch false false true = find-handle_raw (key_of ep) resolves buffer source now m
    dispatch false false false = refl

-- A packet changes the session of its sender only, the one with the same address and the same port,
-- which it creates when it is new; pings, pongs and unknown packets change no session. A port has 16
-- bits.
pub get_session-handle_packet :
    (resolves : Bytes → Bool) (buffer : Bytes) (source : Endpoint) (now : ℕ) (m : SessionManager)
    (ep : Endpoint)
    → source.port < 2 ^ 16
    → ep.port < 2 ^ 16
    → get_session ep (handle_packet resolves buffer source now m) ≡ (
        if is_routed (get_or buffer 0 0)
          && (bytes_eq source.address ep.address && source.port == ep.port)
        then some (handle_raw buffer now (session_for resolves source m))
        else get_session ep m)
get_session-handle_packet resolves buffer source now m ep p q =
    handle_packet_lem resolves buffer source now m ep
    ∙ ap
        (λ b.
          if is_routed (get_or buffer 0 0) && b
          then some (handle_raw buffer now (session_for resolves source m))
          else get_session ep m)
        (bytes_eq-key_of source ep p q)

-- Enough rounds read every datagram, when none is empty.
pub drain_socket_left :
    (resolves : Bytes → Bool) (rounds : ℕ) (queue : List Incoming) (m : SessionManager)
    (handled : ℕ)
    → All (λ (d : Incoming). is_empty d.buffer ≡ false) queue
    → length queue ≤ rounds
    → (drain_socket resolves rounds queue m handled).0 ≡ []
unfolding drain_socket
drain_socket_left resolves zero [] m handled h l = refl
drain_socket_left resolves zero (d ∷ queue) m handled h l = ground arith
drain_socket_left resolves (suc rounds) [] m handled h l = refl
drain_socket_left resolves (suc rounds) (d ∷ queue) m handled h l = rw (h.0) (
    drain_socket_left resolves rounds queue (handle_packet resolves d.buffer d.source d.time m)
      (handled + 1) h.1 (omega arith))
