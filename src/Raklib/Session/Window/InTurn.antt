-- ===== src/Raklib/Session/Window/InTurn.antt =====
-- The order in which `handleEncapsulated` of src/raklib/Session.cpp routes messages with an index.
use mpmpescore_cpp.Prelude.{
  ℕ, ◌+◌, ◌^◌, ◌<◌, ◌≡◌, refl, ap, ◌∙◌, ◌||◌, List, [], ◌∷◌, arith, ltb, ◌==◌, if◌then◌else◌, subst,
  Bool-cases, inl, inr,
}
use mpmpescore_cpp.Prelude.Int.{pos}
use mpmpescore_cpp.Prelude.Maps.{map_set}
use mpmpescore_cpp.Raklib.Encapsulated.{EncapsulatedPacket}
use mpmpescore_cpp.Raklib.Session.{Session, window_size}
use mpmpescore_cpp.Raklib.Session.Frame.{receiving}
use mpmpescore_cpp.Raklib.Session.Receive.{
  slide, deliver, handle_reliable, handle_encapsulated_route,
}
use mpmpescore_cpp.Raklib.Session.Window.{before, Waiting, IsWindow}
use mpmpescore_cpp.Raklib.Session.Window.Messages.{
  slid-IsWindow, is_next, routed, routed-IsWindow, handle_reliable_lem,
}

-- Messages that wait, with their indices.
abbrev pub Held : Type 0
Held = List (ℕ × EncapsulatedPacket)

-- The run of consecutive indices from `n` on: each message with what still waits behind it.
abbrev pub turns : ℕ → Held → List (EncapsulatedPacket × Held)
turns n [] = []
turns n ((k, p) ∷ waiting) =
    let rest = turns (n + 1) waiting in if k == n then (p, waiting) ∷ rest else []

-- The message window begins at `n`, and `waiting` is held back.
abbrev pub placed : ℕ → Held → Session → Session
placed n waiting t = record t {
  last_reliable_index = before n;
  reliable_window_start = pos n;
  reliable_window_end = pos (n + window_size);
  reliable_window = waiting;
}

-- Messages with the indices `n`, `n + 1`, ... are routed one after the other, each when the window
-- begins right behind it.
abbrev pub in_turn : ℕ → ℕ → List (EncapsulatedPacket × Held) → Session → Session
in_turn now n [] t = t
in_turn now n ((p, waiting) ∷ rest) t =
    in_turn now (n + 1) rest (handle_encapsulated_route p now (placed (n + 1) waiting t))

slide-placed :
    (m n : ℕ) (waiting : Held) (t : Session)
    → IsWindow m n (record (receiving t) { reliable_window = [] })
    → record (slide t) { reliable_window = waiting } ≡ placed (n + 1) waiting t
slide-placed m n waiting t w =
    let v = slid-IsWindow m n [] _ w tt in
    rw (v.last_reliable_index, v.reliable_window_start, v.reliable_window_end) refl

deliver-in_turn :
    (waiting : Held) (m n now : ℕ) (t : Session)
    → IsWindow m (n + 1) (record (receiving t) { reliable_window = [] })
    → Waiting n waiting
    → deliver waiting now t ≡ in_turn now (n + 1) (turns (n + 1) waiting) t
unfolding deliver
deliver-in_turn [] m n now t w h = refl
deliver-in_turn ((k, p) ∷ waiting) m n now t w h =
    let next = is_next k (n + 1) t.last_reliable_index (omega (arith, h.0)) w.last_reliable_index in
    ap (λ b. if b then deliver waiting now (routed p waiting now t) else t) next
    ∙ elim (Bool-cases (k == n + 1)) [
      | inl e ↦
          let behind : Waiting (n + 1) waiting =
            subst (λ j. Waiting j waiting) (ground arith) h.1 in
          rw e (
            deliver-in_turn waiting m (n + 1) now (routed p waiting now t)
              (routed-IsWindow p waiting m (n + 1) now t w) behind
            ∙ ap
                (λ u.
                  in_turn now (n + 1 + 1) (turns (n + 1 + 1) waiting)
                    (handle_encapsulated_route p now u))
                (slide-placed m (n + 1) waiting t w))
      | inr e ↦ rw e refl
    ]

-- With `n` the lowest new index: a message below `n` or more than 2048 above it changes nothing. The
-- message `n` is routed, and then each waiting message of the run of consecutive indices behind it,
-- one after the other, each with the window right behind its own index. Any other message waits.
pub handle_reliable-in_turn :
    (m n k now : ℕ) (p : EncapsulatedPacket) (s : Session)
    → k < 2 ^ 24
    → IsWindow m n (receiving s)
    → handle_reliable p k now s ≡ (
        if ltb k n || ltb (n + window_size) k
        then s
        else (if k == n
            then in_turn now n ((p, s.reliable_window) ∷ turns (n + 1) s.reliable_window) s
            else record s { reliable_window = map_set k p s.reliable_window }))
handle_reliable-in_turn m n k now p s small w =
    handle_reliable_lem m n k now p s small w
    ∙ ap
        (λ t.
          if ltb k n || ltb (n + window_size) k
          then s
          else (if k == n then t else record s { reliable_window = map_set k p s.reliable_window }))
        (deliver-in_turn s.reliable_window m n now (handle_encapsulated_route p now (slide s))
            (routed-IsWindow p s.reliable_window m n now s (windowless w)) w.waiting
          ∙ ap
              (λ u.
                in_turn now (n + 1) (turns (n + 1) s.reliable_window)
                  (handle_encapsulated_route p now u))
              (slide-placed m n s.reliable_window s (windowless w)))
  where
    windowless :
        IsWindow m n (receiving s) → IsWindow m n (record (receiving s) { reliable_window = [] })
    windowless w = record {
      last_seq = w.last_seq;
      window_start = w.window_start;
      window_end = w.window_end;
      received = w.received;
      newest = w.newest;
      reliable_window_start = w.reliable_window_start;
      reliable_window_end = w.reliable_window_end;
      last_reliable_index = w.last_reliable_index;
      waiting = tt;
    }
