-- ===== src/Raklib/Session/Window/Messages.antt =====
-- Messages with an index, in `handleEncapsulated` of src/raklib/Session.cpp: delivered in order, held
-- back, or dropped.
use mathlib.Core.Path.{ap₂}
use native.Mathlib.Numerals.{add-one}
use mpmpescore_cpp.Prelude.{
  ℕ, ◌+◌, ◌^◌, ◌≤◌, ◌<◌, ◌≡◌, refl, sym, ap, ◌∙◌, Bool, true, false, ◌||◌, List, [], ◌∷◌, arith,
  ltb, ◌==◌, if◌then◌else◌, if_cases, subst,
}
use mpmpescore_cpp.Prelude.Int.{ℤ, pos, ltℤ, eqℤ, ◌+ℤ◌, ◌-ℤ◌, to_i32}
use mpmpescore_cpp.Prelude.Maps.{map_set}
use mpmpescore_cpp.Raklib.Encapsulated.{EncapsulatedPacket}
use mpmpescore_cpp.Raklib.Session.{Session, window_size}
use mpmpescore_cpp.Raklib.Session.Frame.{Receiving, receiving}
use mpmpescore_cpp.Raklib.Session.Routing.{receiving-handle_encapsulated_route}
use mpmpescore_cpp.Raklib.Session.Receive.{
  slide, deliver, handle_reliable, handle_encapsulated_route,
}
use mpmpescore_cpp.Raklib.Session.Window.{
  before, Waiting, IsWindow, before-add_one, pos-add, pos-sub_before, to_i32-pos,
}

-- Where the run of consecutive indices that begins at `n` ends.
abbrev pub reached : ℕ → List (ℕ × EncapsulatedPacket) → ℕ
reached n [] = n
reached n ((k, p) ∷ waiting) = let rest = reached (n + 1) waiting in if k == n then rest else n

-- The lowest index that is new once index `k` has come.
abbrev pub next_index : ℕ → ℕ → List (ℕ × EncapsulatedPacket) → ℕ
next_index k n waiting = if k == n then reached (n + 1) waiting else n

abbrev slid : Receiving → Receiving
slid r = record r {
  last_reliable_index = r.last_reliable_index +ℤ pos 1;
  reliable_window_start = r.reliable_window_start +ℤ pos 1;
  reliable_window_end = r.reliable_window_end +ℤ pos 1;
}

pub slid-IsWindow :
    (m n : ℕ) (waiting : List (ℕ × EncapsulatedPacket)) (r : Receiving)
    → IsWindow m n r
    → Waiting (n + 1) waiting
    → IsWindow m (n + 1) (record (slid r) { reliable_window = waiting })
slid-IsWindow m n waiting r w h = record {
  last_seq = w.last_seq;
  window_start = w.window_start;
  window_end = w.window_end;
  received = w.received;
  newest = w.newest;
  reliable_window_start = ap (λ (z : ℤ). z +ℤ pos 1) w.reliable_window_start ∙ pos-add n 1;
  reliable_window_end =
      ap (λ (z : ℤ). z +ℤ pos 1) w.reliable_window_end
      ∙ pos-add (n + window_size) 1
      ∙ ap pos (omega arith);
  last_reliable_index =
      ap (λ (z : ℤ). z +ℤ pos 1) w.last_reliable_index
      ∙ before-add_one n
      ∙ ap before (sym (add-one n));
  waiting = h;
}

-- The test for the next index in turn.
pub is_next : (k n : ℕ) (z : ℤ) → n ≤ k → z ≡ before n → eqℤ (pos k -ℤ z) (pos 1) ≡ (k == n)
is_next k n z l e =
    ap (λ (y : ℤ). eqℤ (pos k -ℤ y) (pos 1)) e
    ∙ ap (λ (y : ℤ). eqℤ y (pos 1)) (pos-sub_before k n l)
    ∙ ground arith

-- A window whose waiting messages are replaced.
held :
    (m n : ℕ) (waiting : List (ℕ × EncapsulatedPacket)) (t : Session)
    → IsWindow m n (record (receiving t) { reliable_window = [] })
    → Waiting n waiting
    → t.reliable_window ≡ waiting
    → IsWindow m n (receiving t)
held m n waiting t w h e = record {
  last_seq = w.last_seq;
  window_start = w.window_start;
  window_end = w.window_end;
  received = w.received;
  newest = w.newest;
  reliable_window_start = w.reliable_window_start;
  reliable_window_end = w.reliable_window_end;
  last_reliable_index = w.last_reliable_index;
  waiting = subst (Waiting n) (sym e) h;
}

-- A message that is routed in turn.
abbrev pub routed : EncapsulatedPacket → List (ℕ × EncapsulatedPacket) → ℕ → Session → Session
routed p waiting now t =
    handle_encapsulated_route p now (record (slide t) { reliable_window = waiting })

pub routed-IsWindow :
    (p : EncapsulatedPacket) (waiting : List (ℕ × EncapsulatedPacket)) (m n now : ℕ) (t : Session)
    → IsWindow m n (record (receiving t) { reliable_window = [] })
    → IsWindow m (n + 1) (record (receiving (routed p waiting now t)) { reliable_window = [] })
routed-IsWindow p waiting m n now t w =
    subst (λ (r : Receiving). IsWindow m (n + 1) (record r { reliable_window = [] }))
      (sym (
        receiving-handle_encapsulated_route p now (record (slide t) { reliable_window = waiting })))
      (slid-IsWindow m n [] _ w tt)

-- Delivery stops behind the run of consecutive indices.
deliver-IsWindow :
    (waiting : List (ℕ × EncapsulatedPacket)) (m n now : ℕ) (t : Session)
    → IsWindow m (n + 1) (record (receiving t) { reliable_window = [] })
    → Waiting n waiting
    → t.reliable_window ≡ waiting
    → IsWindow m (reached (n + 1) waiting) (receiving (deliver waiting now t))
unfolding deliver
deliver-IsWindow [] m n now t w h e = held m (n + 1) [] t w tt e
deliver-IsWindow ((k, p) ∷ waiting) m n now t w h e =
    subst
      (λ (b : Bool).
        IsWindow m (reached (n + 1) ((k, p) ∷ waiting))
          (receiving (if b then deliver waiting now (routed p waiting now t) else t)))
      (sym (is_next k (n + 1) t.last_reliable_index (omega (arith, h.0)) w.last_reliable_index))
      (go
        (λ (h' : Waiting (n + 1) waiting).
          deliver-IsWindow waiting m (n + 1) now (routed p waiting now t)
            (routed-IsWindow p waiting m (n + 1) now t w) h'
            (ap (λ (r : Receiving). r.reliable_window)
              (receiving-handle_encapsulated_route p now
                (record (slide t) { reliable_window = waiting }))))
        (k == (n + 1)) refl)
  where
    go :
        (deeper : Waiting (n + 1) waiting
          → IsWindow m
              (reached (n + 1 + 1) waiting)
              (receiving (deliver waiting now (routed p waiting now t))))
        (b : Bool)
        → (k == (n + 1)) ≡ b
        → IsWindow m
            (if b then reached (n + 1 + 1) waiting else n + 1)
            (receiving (if b then deliver waiting now (routed p waiting now t) else t))
    go deeper true q = deeper (subst (λ j. Waiting j waiting) (ground arith) h.1)
    go deeper false q = held m (n + 1) ((k, p) ∷ waiting) t w (ground (arith, h.0), h.1) e

Waiting-map_set :
    (n k : ℕ) (p : EncapsulatedPacket) (waiting : List (ℕ × EncapsulatedPacket))
    → n < k
    → Waiting n waiting
    → Waiting n (map_set k p waiting)
Waiting-map_set n k p [] l h = (l, tt)
Waiting-map_set n k p ((j, q) ∷ waiting) l h =
    ground (arith, Waiting-map_set j k p waiting, h.0, h.1)

-- What the window does with a message.
module _ (m n k now : ℕ) (p : EncapsulatedPacket) (s : Session) (small : k < 2 ^ 24)
    (w : IsWindow m n (receiving s)) where
  is_outside :
      ltℤ (to_i32 k) s.reliable_window_start || ltℤ s.reliable_window_end (to_i32 k)
      ≡ (ltb k n || ltb (n + window_size) k)
  is_outside =
      rw (to_i32-pos k (omega arith), w.reliable_window_start, w.reliable_window_end) (ground arith)

  abbrev after : Session
  after = handle_encapsulated_route p now (slide s)

  abbrev stored : Session
  stored = record s { reliable_window = map_set k p s.reliable_window }

  abbrev taken : Session
  taken =
      if eqℤ (to_i32 k -ℤ s.last_reliable_index) (pos 1)
      then deliver after.reliable_window now after
      else stored

  abbrev taken_plain : Session
  taken_plain = if k == n then deliver s.reliable_window now after else stored

  -- With `n` the lowest new index: a message below `n` or more than 2048 above it changes nothing; the
  -- message `n` is routed and then the run of waiting messages behind it; any other waits.
  pub handle_reliable_lem : handle_reliable p k now s ≡ (
      if ltb k n || ltb (n + window_size) k
      then s
      else (if k == n
          then deliver s.reliable_window now (handle_encapsulated_route p now (slide s))
          else record s { reliable_window = map_set k p s.reliable_window }))
  unfolding handle_reliable
  handle_reliable_lem =
      ap (λ b. if b then s else taken) is_outside
      ∙ if_cases (λ t. t ≡ (if ltb k n || ltb (n + window_size) k then s else taken_plain))
          (ltb k n || ltb (n + window_size) k) (λ e. sym (ap (λ b. if b then s else taken_plain) e))
          (λ e. inner (ground arith) ∙ sym (ap (λ b. if b then s else taken_plain) e))
    where
      inner : n ≤ k → taken ≡ taken_plain
      inner l =
          ap₂ (λ b (ws : List (ℕ × EncapsulatedPacket)). if b then deliver ws now after else stored)
            (ap (λ (z : ℤ). eqℤ (z -ℤ s.last_reliable_index) (pos 1)) (to_i32-pos k (omega arith))
              ∙ is_next k n s.last_reliable_index l w.last_reliable_index)
            (ap (λ (r : Receiving). r.reliable_window)
              (receiving-handle_encapsulated_route p now (slide s)))

  -- The window keeps its form: it moves behind the run of indices that message `n` completes, and stays
  -- for any other message.
  pub handle_reliable-IsWindow :
      IsWindow m
        (if ltb k n || ltb (n + window_size) k then n else next_index k n s.reliable_window)
        (receiving (handle_reliable p k now s))
  handle_reliable-IsWindow =
      subst
        (λ (t : Session).
          IsWindow m
            (if ltb k n || ltb (n + window_size) k then n else next_index k n s.reliable_window)
            (receiving t))
        (sym handle_reliable_lem)
        (go (ltb k n || ltb (n + window_size) k) (k == n) (λ e f. ground arith))
    where
      go :
          (b c : Bool)
          → (b ≡ false → c ≡ false → n < k)
          → IsWindow m (if b then n else (if c then reached (n + 1) s.reliable_window else n)) (
              receiving
                (if b then s else (if c then deliver s.reliable_window now after else stored)))
      go true c f = w
      go false true f =
          deliver-IsWindow s.reliable_window m n now after
            (subst (λ (r : Receiving). IsWindow m (n + 1) (record r { reliable_window = [] }))
              (sym (receiving-handle_encapsulated_route p now (slide s)))
              (slid-IsWindow m n [] (receiving s) w tt))
            w.waiting
            (ap (λ (r : Receiving). r.reliable_window)
              (receiving-handle_encapsulated_route p now (slide s)))
      go false false f = record {
        last_seq = w.last_seq;
        window_start = w.window_start;
        window_end = w.window_end;
        received = w.received;
        newest = w.newest;
        reliable_window_start = w.reliable_window_start;
        reliable_window_end = w.reliable_window_end;
        last_reliable_index = w.last_reliable_index;
        waiting = Waiting-map_set n k p s.reliable_window (f refl refl) w.waiting;
      }
