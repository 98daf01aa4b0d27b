-- ===== src/Raklib/Session/Reach/Connection.antt =====
-- The connection of src/raklib/Session.cpp in every session that calls lead to: its state, the size of
-- a datagram, and the report of its end.
use Prim.Native.String.{String}
use mpmpescore_cpp.Prelude.{
  ℕ, ◌+◌, ◌≤◌, ◌≡◌, refl, sym, ap, ◌∙◌, Bool, true, false, [], ◌∷◌, arith, ◌||◌, if◌then◌else◌,
  if_both, if_cases, subst,
}
use mpmpescore_cpp.Raklib.Session.{
  Session, SessionState, Endpoint, unconnected, connecting1, connecting2, connected, emit,
  mark_closed, on_close, on_open, create, set_handlers,
}
use mpmpescore_cpp.Raklib.Session.Receive.{
  is_connected, is_connecting2, disconnect, handle_client_handshake,
}
use mpmpescore_cpp.Raklib.Session.Raw.{is_connecting1}
use mpmpescore_cpp.Raklib.Session.Frame.{
  closings, closings-append, kept-emit, kept-add_encapsulated, kept-flush_acks,
}
use mpmpescore_cpp.Raklib.Session.Entry.{IsKept, handle_raw-keeps, update-keeps}
use mpmpescore_cpp.Raklib.Session.Reach.{
  Step, received, ticked, queued, ended, flushed, handled, Reachable, created, called,
}
use mpmpescore_cpp.Raklib.Session.Reach.Link.{link-IsKept, Link, link_of, link}

-- The state is CONNECTING_2 or CONNECTED.
abbrev pub is_past : Session → Bool
is_past s = is_connected s.state || is_connecting2 s.state

-- The manager hears of the end once, and a datagram never exceeds 1464 bytes once the size is agreed.
pub record IsConnection (s : Session) : Type 0 where
  pub closing : closings s.events ≡ (if s.closed then 1 else 0)
  pub mtu : is_past s ≡ true → s.mtu_size ≤ 1464

moved : (s t : Session) → link t ≡ link s → IsConnection s → IsConnection t
moved s t e h = record {
  closing = subst (λ (l : Link). l.closed_events ≡ (if l.closed then 1 else 0)) (sym e) h.closing;
  mtu =
      subst
        (λ (l : Link). (is_connected l.state || is_connecting2 l.state) ≡ true → l.mtu_size ≤ 1464)
        (sym e) h.mtu;
}

handshake-link :
    (s : Session) → link (handle_client_handshake s) ≡ record (link s) { state = connected }
unfolding handle_client_handshake
handshake-link s =
    if_both (λ t. link t ≡ record (link s) { state = connected }) s.handlers
      (ap link_of (
        kept-emit (on_open s.endpoint s.client_id) refl
          (record s { state = connected; temporal = false })))
      refl

link-mark_closed :
    (e : Endpoint) (reason : String) (t : Session)
    → link (emit (mark_closed e reason) t)
      ≡ record (link t) { closed_events = closings t.events + 1 }
unfolding emit
link-mark_closed e reason t =
    ap (λ (n : ℕ). record (link t) { closed_events = n })
      (closings-append t.events (mark_closed e reason ∷ []) ∙ omega arith)

disconnect-link :
    (reason : String) (s : Session)
    → link (disconnect reason s) ≡ record (link s) {
      closed = true;
      closed_events = if s.closed then closings s.events else closings s.events + 1;
    }
unfolding disconnect
disconnect-link reason s =
    if_cases (λ t. link t ≡ ended_link s.closed) s.closed
      (λ e. ap (λ (b : Bool). record (link s) { closed = b }) e ∙ ap ended_link (sym e))
      (λ e.
        link-mark_closed s.endpoint reason _
        ∙ ap (λ (l : Link). record l { closed_events = l.closed_events + 1 })
            (if_both (λ t. link t ≡ record (link s) { closed = true }) s.handlers
              (ap link_of
                (kept-emit (on_close s.endpoint reason) refl (record s { closed = true })))
              refl)
        ∙ ap ended_link (sym e))
  where
    ended_link : Bool → Link
    ended_link b = record (link s) {
      closed = true;
      closed_events = if b then closings s.events else closings s.events + 1;
    }

IsConnection-IsKept : IsKept IsConnection
IsConnection-IsKept =
    link-IsKept IsConnection moved
      (λ s h e. record {
        closing =
            subst (λ (l : Link). l.closed_events ≡ (if l.closed then 1 else 0))
              (sym (handshake-link s)) h.closing;
        mtu = λ _.
            subst (λ (l : Link). l.mtu_size ≤ 1464) (sym (handshake-link s))
              (h.mtu (second (is_connected s.state) (is_connecting2 s.state) e));
      })
      (λ mtu s _ h. record { closing = h.closing; mtu = λ e. ground arith })
      (λ mtu client_id s _ h. record { closing = h.closing; mtu = λ _. omega arith })
      (λ reason s h. record {
        closing =
            ap (λ (l : Link). l.closed_events) (disconnect-link reason s)
            ∙ counted (closings s.events) s.closed h.closing
            ∙ ap (λ (l : Link). if l.closed then 1 else 0) (sym (disconnect-link reason s));
        mtu =
            subst
              (λ (l : Link).
                (is_connected l.state || is_connecting2 l.state) ≡ true → l.mtu_size ≤ 1464)
              (sym (disconnect-link reason s)) h.mtu;
      })
  where
    second : (a b : Bool) → b ≡ true → (a || b) ≡ true
    second a b e = ground arith

    counted : (n : ℕ) (b : Bool) → n ≡ (if b then 1 else 0) → (if b then n else n + 1) ≡ 1
    counted n true e = e
    counted n false e = omega arith

IsPast-IsKept : IsKept (λ s. is_past s ≡ true)
IsPast-IsKept =
    link-IsKept (λ s. is_past s ≡ true)
      (λ s t e h.
        subst (λ (l : Link). (is_connected l.state || is_connecting2 l.state) ≡ true) (sym e) h)
      (λ s h e.
        ap (λ (l : Link). is_connected l.state || is_connecting2 l.state) (handshake-link s))
      (λ mtu s e h. ground arith) (λ mtu client_id s _ h. refl)
      (λ reason s h.
        subst (λ (l : Link). (is_connected l.state || is_connecting2 l.state) ≡ true)
          (sym (disconnect-link reason s)) h)

IsConnected-IsKept : IsKept (λ s. is_connected s.state ≡ true)
IsConnected-IsKept =
    link-IsKept (λ s. is_connected s.state ≡ true)
      (λ s t e h. subst (λ (l : Link). is_connected l.state ≡ true) (sym e) h)
      (λ s h e. ap (λ (l : Link). is_connected l.state) (handshake-link s))
      (λ mtu s e h. ground arith) (λ mtu client_id s e h. clash s.state e h)
      (λ reason s h.
        subst (λ (l : Link). is_connected l.state ≡ true) (sym (disconnect-link reason s)) h)
  where
    clash : (st : SessionState) → is_connecting1 st ≡ true → is_connected st ≡ true → false ≡ true
    clash unconnected e h = e
    clash connecting1 e h = h
    clash connecting2 e h = e
    clash connected e h = e

create-IsConnection :
    (endpoint : Endpoint) (ok : Bool) (server_id : ℕ) → IsConnection (create endpoint ok server_id)
unfolding create
create-IsConnection endpoint ok server_id = record { closing = refl; mtu = λ e. ground arith }

link-set_handlers : (s : Session) → link (set_handlers s) ≡ link s
unfolding set_handlers
link-set_handlers s = refl

step-keeps {ℓ} :
    (P : Session → Type ℓ) {s t : Session}
    → IsKept P
    → ((s : Session) → P s → P (set_handlers s))
    → Step s t
    → P s
    → P t
step-keeps P keeps f (received buffer now bytes) h = handle_raw-keeps P keeps buffer now _ bytes h
step-keeps P keeps f (ticked now) h = update-keeps P keeps now _ h
step-keeps P keeps f (queued packet immediate now) h =
    keeps.sending _ _ (kept-add_encapsulated packet immediate now _) h
step-keeps P keeps f (ended reason) h = keeps.closing reason _ h
step-keeps P keeps f flushed h = keeps.sending _ _ (kept-flush_acks _) h
step-keeps P keeps f handled h = f _ h

-- In every session that calls lead to, the manager has heard of the end exactly once if the session is
-- closed and never if it is not, and a datagram may have 1464 bytes at most from CONNECTING_2 on.
pub Reachable-IsConnection : {s : Session} → Reachable s → IsConnection s
Reachable-IsConnection (created endpoint ok server_id) = create-IsConnection endpoint ok server_id
Reachable-IsConnection (called r step) =
    step-keeps IsConnection IsConnection-IsKept (λ s. moved _ _ (link-set_handlers s)) step
      (Reachable-IsConnection r)

-- No call takes a session in CONNECTING_2 or CONNECTED back to an earlier state, nor one that is
-- CONNECTED out of that state.
pub Step-forward :
    {s t : Session}
    → Step s t
    → (is_past s ≡ true → is_past t ≡ true)
      × (is_connected s.state ≡ true → is_connected t.state ≡ true)
Step-forward step = (
  step-keeps (λ s. is_past s ≡ true) IsPast-IsKept
      (λ s h.
        ap (λ (l : Link). is_connected l.state || is_connecting2 l.state) (link-set_handlers s) ∙ h)
      step,
  step-keeps (λ s. is_connected s.state ≡ true) IsConnected-IsKept
      (λ s h. ap (λ (l : Link). is_connected l.state) (link-set_handlers s) ∙ h) step,
)
