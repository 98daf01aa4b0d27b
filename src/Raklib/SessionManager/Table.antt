-- ===== src/Raklib/SessionManager/Table.antt =====
-- The session table of src/raklib/SessionManager.cpp has one entry for an endpoint.
use mpmpescore_cpp.Prelude.{
  ℕ, zero, suc, ◌+◌, ◌≡◌, refl, sym, ap, ◌∙◌, Bool, true, false, ◌||◌, List, [], ◌∷◌, ◌++◌, arith,
  Option, none, some, ltb, ◌==◌, if◌then◌else◌, if_both, bytes_eq, bytes_eq_lem, bytes_eq_refl,
  Bool-cases, inl, inr, is_empty, get_or, subst,
}
use mpmpescore_cpp.Binary.{Bytes}
use mpmpescore_cpp.Raklib.Constants.{
  id_unconnected_ping, id_unconnected_ping_open_connections, id_unconnected_pong,
}
use mpmpescore_cpp.Raklib.Session.{Session, Endpoint}
use mpmpescore_cpp.Raklib.Session.Send.{flush_acks}
use mpmpescore_cpp.Raklib.Session.Raw.{handle_raw}
use mpmpescore_cpp.Raklib.Session.Update.{update}
use mpmpescore_cpp.Raklib.SessionManager.{
  Sessions, SessionManager, Incoming, key_of, find_session, change_session, new_session,
  get_or_create_session, is_session_packet, handle_packet, drain_socket, each, open_only,
  drop_closed, tick_sessions, erase_session,
}
use mpmpescore_cpp.Raklib.SessionManager.Sessions.{sessions-ping, find-append, find-change_other}

-- No endpoint has two entries.
abbrev pub IsTable : Sessions → Type 0
IsTable [] = Unit {0}
IsTable ((k, s) ∷ m) = (find_session k m ≡ none) × IsTable m

-- The session of a table that is dropped when it is closed.
abbrev pub unless_closed : Option Session → Option Session
unless_closed none = none
unless_closed (some s) = if s.closed then none else some s

abbrev pub changed : (Session → Session) → Option Session → Option Session
changed f none = none
changed f (some s) = some (f s)

pub find-each :
    (k : Bytes) (f : Session → Session) (m : Sessions)
    → find_session k (each f m) ≡ changed f (find_session k m)
unfolding find_session
find-each k f [] = refl
find-each k f ((j, s) ∷ m) = elim (Bool-cases (bytes_eq j k)) [
  | inl e ↦ rw e refl
  | inr e ↦ rw e (find-each k f m)
]

pub find-drop_closed :
    (k : Bytes) (m : Sessions)
    → IsTable m
    → find_session k (drop_closed m) ≡ unless_closed (find_session k m)
unfolding find_session drop_closed
find-drop_closed k [] h = refl
find-drop_closed k ((j, s) ∷ m) h = elim (Bool-cases (bytes_eq j k)) [
  | inl e ↦
      let gone : find_session k (drop_closed m) ≡ none =
        find-drop_closed k m h.1
        ∙ ap unless_closed (ap (λ i. find_session i m) (sym (bytes_eq_lem j k e)) ∙ h.0) in
      rw e
        (elim s.closed
          as (λ b.
            find_session k (if b then drop_closed m else (j, s) ∷ drop_closed m)
            ≡ (if b then none else some s)) [
              | true ↦ gone
              | false ↦ ap (λ b. if b then some s else find_session k (drop_closed m)) e
            ])
  | inr e ↦ rw e (
      if_both (λ n. find_session k n ≡ unless_closed (find_session k m)) s.closed
        (find-drop_closed k m h.1)
        (ap (λ b. if b then some s else find_session k (drop_closed m)) e
          ∙ find-drop_closed k m h.1))
]

pub each-IsTable : (f : Session → Session) (m : Sessions) → IsTable m → IsTable (each f m)
each-IsTable f [] h = tt
each-IsTable f ((k, s) ∷ m) h = (find-each k f m ∙ ap (changed f) h.0, each-IsTable f m h.1)

pub drop_closed-IsTable : (m : Sessions) → IsTable m → IsTable (drop_closed m)
unfolding drop_closed
drop_closed-IsTable [] h = tt
drop_closed-IsTable ((k, s) ∷ m) h =
    if_both IsTable s.closed (drop_closed-IsTable m h.1)
      (find-drop_closed k m h.1 ∙ ap unless_closed h.0, drop_closed-IsTable m h.1)

bytes_eq-sym : (a b : Bytes) → bytes_eq a b ≡ false → bytes_eq b a ≡ false
bytes_eq-sym a b h = elim (Bool-cases (bytes_eq b a)) [
  | inl e ↦
      let same : bytes_eq a b ≡ true =
        ap (λ x. bytes_eq x b) (sym (bytes_eq_lem b a e)) ∙ bytes_eq_refl b in
      let no : true ≡ false = sym same ∙ h in absurd (ground arith)
  | inr e ↦ e
]

pub change_session-IsTable :
    (k : Bytes) (f : Session → Session) (m : Sessions) → IsTable m → IsTable (change_session k f m)
unfolding change_session
change_session-IsTable k f [] h = tt
change_session-IsTable k f ((j, s) ∷ m) h = elim (Bool-cases (bytes_eq j k)) [
  | inl e ↦ rw e (h.0, h.1)
  | inr e ↦
      rw e (find-change_other j k f m (bytes_eq-sym j k e) ∙ h.0, change_session-IsTable k f m h.1)
]

append-IsTable :
    (k : Bytes) (s : Session) (m : Sessions)
    → find_session k m ≡ none
    → IsTable m
    → IsTable (m ++ ((k, s) ∷ []))
unfolding find_session
append-IsTable k s [] e h = (refl, tt)
append-IsTable k s ((j, t) ∷ m) e h = elim (Bool-cases (bytes_eq j k)) [
  | inl q ↦
      let here : some t ≡ none = sym (ap (λ b. if b then some t else find_session k m) q) ∙ e in
      ground arith
  | inr q ↦ (
    find-append j k s m ∙ rw (h.0, bytes_eq-sym j k q) refl,
    append-IsTable k s m (sym (ap (λ b. if b then some t else find_session k m) q) ∙ e) h.1,
  )
]

get_or_create-IsTable :
    (resolves : Bytes → Bool) (ep : Endpoint) (m : SessionManager)
    → IsTable m.sessions
    → IsTable (get_or_create_session resolves ep m).sessions
unfolding get_or_create_session
get_or_create-IsTable resolves ep m h = made (find_session (key_of ep) m.sessions) refl
  where
    made :
        (o : Option Session)
        → find_session (key_of ep) m.sessions ≡ o
        → IsTable
            (elim o as (λ _. SessionManager) [
              | some s ↦ m
              | none ↦ record m {
                sessions = m.sessions ++ ((key_of ep, new_session resolves ep m) ∷ []);
              }
            ]).sessions
    made none e = append-IsTable (key_of ep) (new_session resolves ep m) m.sessions e h
    made (some s) e = h

pub handle_packet-IsTable :
    (resolves : Bytes → Bool) (buffer : Bytes) (source : Endpoint) (now : ℕ) (m : SessionManager)
    → IsTable m.sessions
    → IsTable (handle_packet resolves buffer source now m).sessions
unfolding handle_packet
handle_packet-IsTable resolves buffer source now m h =
    let pid = get_or buffer 0 0 in
    if_both Holds (pid == id_unconnected_ping || pid == id_unconnected_ping_open_connections)
      (subst IsTable (sym (sessions-ping buffer source m)) h)
      (if_both Holds (pid == id_unconnected_pong) h (
        if_both Holds (is_session_packet pid)
          (change_session-IsTable (key_of source) (handle_raw buffer now) _
            (get_or_create-IsTable resolves source m h))
          h))
  where
    Holds : SessionManager → Type 0
    Holds m = IsTable m.sessions

pub drain_socket-IsTable :
    (resolves : Bytes → Bool) (rounds : ℕ) (queue : List Incoming) (m : SessionManager) (count : ℕ)
    → IsTable m.sessions
    → IsTable (drain_socket resolves rounds queue m count).1.sessions
unfolding drain_socket
drain_socket-IsTable resolves zero queue m count h = h
drain_socket-IsTable resolves (suc rounds) [] m count h = h
drain_socket-IsTable resolves (suc rounds) (d ∷ queue) m count h =
    if_both (λ (r : List Incoming × SessionManager × ℕ). IsTable r.1.sessions) (is_empty d.buffer) h
      (drain_socket-IsTable resolves rounds queue
        (handle_packet resolves d.buffer d.source d.time m) (count + 1)
        (handle_packet-IsTable resolves d.buffer d.source d.time m h))

pub tick_sessions-IsTable :
    (handled now : ℕ) (m : Sessions) → IsTable m → IsTable (tick_sessions handled now m)
unfolding tick_sessions
tick_sessions-IsTable handled now m h = drop_closed-IsTable _ (
    each-IsTable (open_only (update now)) _
      (if_both IsTable (ltb 0 handled) (each-IsTable (open_only flush_acks) m h) h))

erase_other :
    (i k : Bytes) (m : Sessions)
    → find_session i m ≡ none
    → find_session i (erase_session k m) ≡ none
unfolding find_session erase_session
erase_other i k [] h = refl
erase_other i k ((j, s) ∷ m) h = elim (Bool-cases (bytes_eq j i)) [
  | inl e ↦
      let here : some s ≡ none = sym (ap (λ b. if b then some s else find_session i m) e) ∙ h in
      ground arith
  | inr e ↦
      let rest : find_session i m ≡ none =
        sym (ap (λ b. if b then some s else find_session i m) e) ∙ h in
      if_both (λ n. find_session i n ≡ none) (bytes_eq j k) rest
        (ap (λ b. if b then some s else find_session i (erase_session k m)) e
          ∙ erase_other i k m rest)
]

pub erase_session-IsTable : (k : Bytes) (m : Sessions) → IsTable m → IsTable (erase_session k m)
unfolding erase_session
erase_session-IsTable k [] h = tt
erase_session-IsTable k ((j, s) ∷ m) h =
    if_both IsTable (bytes_eq j k) h.1 (erase_other j k m h.0, erase_session-IsTable k m h.1)
