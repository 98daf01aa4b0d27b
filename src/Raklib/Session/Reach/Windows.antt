-- ===== src/Raklib/Session/Reach/Windows.antt =====
-- The receiving windows of src/raklib/Session.cpp in every session that calls lead to.
use mpmpescore_cpp.Prelude.{
  min, ℕ, suc, ◌+◌, ◌^◌, ◌≤◌, ◌<◌, ◌≡◌, refl, sym, ap, ◌∙◌, Bool, true, false, List, [], ◌∷◌, arith,
  All, elem, ltb, ◌||◌, if◌then◌else◌, if_both, if_cases, subst,
}
use mpmpescore_cpp.Prelude.Int.{ℤ, pos, ltℤ, to_i32}
use mpmpescore_cpp.Raklib.Encapsulated.{EncapsulatedPacket}
use mpmpescore_cpp.Raklib.Session.{
  Session, Endpoint, connecting1, connecting2, create, set_handlers, window_size,
}
use mpmpescore_cpp.Raklib.Session.Receive.{disconnect, handle_reliable, handle_encapsulated_route}
use mpmpescore_cpp.Raklib.Session.Raw.{is_refused, accept_seq}
use mpmpescore_cpp.Raklib.Session.Update.{forget_received, trim_received}
use mpmpescore_cpp.Raklib.Session.Frame.{receiving, Kept, kept-add_encapsulated, kept-flush_acks}
use mpmpescore_cpp.Raklib.Session.Routing.{
  receiving-disconnect, receiving-handle_encapsulated_route,
}
use mpmpescore_cpp.Raklib.Session.Entry.{handle_raw-keeps, update-keeps, IsKept}
use mpmpescore_cpp.Raklib.Session.Window.{before, IsWindow, to_i32-pos}
use mpmpescore_cpp.Raklib.Session.Window.Datagrams.{is_refused_lem, accept_seq-IsWindow}
use mpmpescore_cpp.Raklib.Session.Window.Messages.{next_index, handle_reliable-IsWindow}
use mpmpescore_cpp.Raklib.Session.Reach.{
  Step, received, ticked, queued, ended, flushed, handled, Reachable, created, called,
}

-- The windows stand somewhere.
pub record HasWindow (s : Session) : Type 0 where
  pub seq : ℕ
  pub index : ℕ
  pub bounded : seq ≤ 2 ^ 24
  pub is_window : IsWindow seq index (receiving s)

same : (s t : Session) → receiving t ≡ receiving s → HasWindow s → HasWindow t
same s t e h = record {
  seq = h.seq;
  index = h.index;
  bounded = h.bounded;
  is_window = subst (IsWindow h.seq h.index) (sym e) h.is_window;
}

accept_seq-HasWindow :
    (k : ℕ) (s : Session)
    → k < 2 ^ 24
    → is_refused k s ≡ false
    → HasWindow s
    → HasWindow (accept_seq k s)
accept_seq-HasWindow k s small e h = record {
  seq = k + 1;
  index = h.index;
  bounded = omega arith;
  is_window = accept_seq-IsWindow k h.seq h.index s small h.is_window new;
}
  where
    new : h.seq ≤ k
    new = let e' = sym (is_refused_lem k h.seq h.index s small h.is_window) ∙ e in ground arith

handle_reliable-HasWindow :
    (p : EncapsulatedPacket) (k now : ℕ) (s : Session)
    → k < 2 ^ 24
    → HasWindow s
    → HasWindow (handle_reliable p k now s)
handle_reliable-HasWindow p k now s small h = record {
  seq = h.seq;
  index =
      if ltb k h.index || ltb (h.index + window_size) k
      then h.index
      else next_index k h.index s.reliable_window;
  bounded = h.bounded;
  is_window = handle_reliable-IsWindow h.seq h.index k now p s small h.is_window;
}

forget_received-All :
    (m : ℕ) (seqs : List ℕ) (s : Session)
    → All (λ k. k < m) seqs
    → All (λ k. k < m) (forget_received seqs s)
unfolding forget_received
forget_received-All m [] s h = tt
forget_received-All m (seq ∷ seqs) s h =
    if_both (All (λ k. k < m)) (ltℤ (to_i32 seq) s.window_start) (forget_received-All m seqs s h.1)
      h

forget_received-newest :
    (k : ℕ) (seqs : List ℕ) (s : Session)
    → ltℤ (to_i32 k) s.window_start ≡ false
    → elem k seqs ≡ true
    → elem k (forget_received seqs s) ≡ true
unfolding forget_received
forget_received-newest k [] s h e = e
forget_received-newest k (seq ∷ seqs) s h e =
    if_cases (λ (xs : List ℕ). elem k xs ≡ true) (ltℤ (to_i32 seq) s.window_start)
      (λ q. forget_received-newest k seqs s h (other q)) (λ _. e)
  where
    other : ltℤ (to_i32 seq) s.window_start ≡ true → elem k seqs ≡ true
    other q = ground (arith, is_k)
      where
        is_k : seq ≡ k → elem k seqs ≡ true
        is_k p =
            let absurd : true ≡ false = sym q ∙ ap (λ j. ltℤ (to_i32 j) s.window_start) p ∙ h in
            ground arith

trim_received-HasWindow : (s : Session) → HasWindow s → HasWindow (trim_received s)
unfolding trim_received
trim_received-HasWindow s h = record {
  seq = h.seq;
  index = h.index;
  bounded = h.bounded;
  is_window = record {
    last_seq = w.last_seq;
    window_start = w.window_start;
    window_end = w.window_end;
    received = forget_received-All h.seq s.received_window s w.received;
    newest = λ k e. forget_received-newest k s.received_window s (stays k e) (w.newest k e);
    reliable_window_start = w.reliable_window_start;
    reliable_window_end = w.reliable_window_end;
    last_reliable_index = w.last_reliable_index;
    waiting = w.waiting;
  };
}
  where
    w : IsWindow h.seq h.index (receiving s)
    w = h.is_window

    stays : (k : ℕ) → suc k ≡ h.seq → ltℤ (to_i32 k) s.window_start ≡ false
    stays k e =
        ap (ltℤ (to_i32 k)) (w.window_start ∙ ap before (sym e))
        ∙ ap (λ (z : ℤ). ltℤ z (pos k)) (to_i32-pos k (omega (arith, h.bounded)))
        ∙ ground arith

-- Every entry point keeps the windows.
HasWindow-IsKept : IsKept HasWindow
HasWindow-IsKept = record {
  sending = λ s t e. same s t (ap (λ (k : Kept). k.receive) e);
  routing = λ p now s.
      same s (handle_encapsulated_route p now s) (receiving-handle_encapsulated_route p now s);
  ordering = handle_reliable-HasWindow;
  accepting = accept_seq-HasWindow;
  first_request = λ mtu s _. same s (record s { mtu_size = mtu; state = connecting1 }) refl;
  second_request = λ mtu client_id s _.
      same s (record s { client_id = client_id; mtu_size = min mtu 1464; state = connecting2 })
        refl;
  closing = λ reason s. same s (disconnect reason s) (receiving-disconnect s reason);
  trimming = trim_received-HasWindow;
}

set_handlers-HasWindow : (s : Session) → HasWindow s → HasWindow (set_handlers s)
unfolding set_handlers
set_handlers-HasWindow s = same s (record s { handlers = true }) refl

Step-HasWindow : {s t : Session} → Step s t → HasWindow s → HasWindow t
Step-HasWindow (received buffer now bytes) =
    handle_raw-keeps HasWindow HasWindow-IsKept buffer now _ bytes
Step-HasWindow (ticked now) = update-keeps HasWindow HasWindow-IsKept now _
Step-HasWindow (queued packet immediate now) =
    same _ _ (ap (λ (k : Kept). k.receive) (kept-add_encapsulated packet immediate now _))
Step-HasWindow (ended reason) = same _ _ (receiving-disconnect _ reason)
Step-HasWindow flushed = same _ _ (ap (λ (k : Kept). k.receive) (kept-flush_acks _))
Step-HasWindow handled = set_handlers-HasWindow _

pub create-IsWindow :
    (endpoint : Endpoint) (ok : Bool) (server_id : ℕ)
    → IsWindow 0 0 (receiving (create endpoint ok server_id))
unfolding create
create-IsWindow endpoint ok server_id = record {
  last_seq = refl;
  window_start = refl;
  window_end = refl;
  received = tt;
  newest = λ k e. ground arith;
  reliable_window_start = refl;
  reliable_window_end = refl;
  last_reliable_index = refl;
  waiting = tt;
}

-- In every session that calls lead to, both windows have their form: what was received lies below the
-- lowest new number, what waits lies above the lowest new index, and each window reaches 2048 further.
pub Reachable-HasWindow : {s : Session} → Reachable s → HasWindow s
Reachable-HasWindow (created endpoint ok server_id) = record {
  seq = 0;
  index = 0;
  bounded = omega arith;
  is_window = create-IsWindow endpoint ok server_id;
}
Reachable-HasWindow (called r step) = Step-HasWindow step (Reachable-HasWindow r)
