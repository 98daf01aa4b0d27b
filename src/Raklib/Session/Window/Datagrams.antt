-- ===== src/Raklib/Session/Window/Datagrams.antt =====
-- Which datagrams `handleDatagram` of src/raklib/Session.cpp accepts, and what it does to the queues.
use mathlib.Core.Path.{ap₂}
use native.Mathlib.Numerals.{add-one}
use mpmpescore_cpp.Prelude.{
  ℕ, zero, suc, ◌+◌, ◌-◌, ◌%◌, ◌^◌, ◌≤◌, ◌<◌, ◌≡◌, refl, sym, ap, ◌∙◌, Bool, true, false, not, ◌&&◌,
  ◌||◌, List, [], ◌∷◌, arith, All, elem, ltb, leb, ◌==◌, if◌then◌else◌, Bool-cases, inl, inr,
  if_both, if_cases, subst, ==_refl,
}
use mpmpescore_cpp.Prelude.Int.{ℤ, pos, pos_part, ltℤ, eqℤ, ◌+ℤ◌, ◌-ℤ◌}
use mpmpescore_cpp.Prelude.Maps.{set_insert, elem-set_insert, elem-set_erase}
use mpmpescore_cpp.Raklib.Session.{Session, window_size}
use mpmpescore_cpp.Raklib.Session.Frame.{Receiving, receiving}
use mpmpescore_cpp.Raklib.Session.Raw.{
  to_u32, nack_one, nack_gap, is_refused, mark_received, nack_missing, move_window, accept_seq,
}
use mpmpescore_cpp.Raklib.Session.Window.{
  before, IsWindow, before-add_one, pos-add, pos-sub_before, before-add, to_i32-pos,
}

elem_above : (k m : ℕ) (xs : List ℕ) → All (λ x. x < m) xs → m ≤ k → elem k xs ≡ false
elem_above k m [] h l = refl
elem_above k m (x ∷ xs) h l = ground (arith, elem_above k m xs h.1)

All-set_insert :
    (k m : ℕ) (xs : List ℕ) → All (λ x. x < m) xs → m ≤ k → All (λ x. x < k + 1) (set_insert k xs)
All-set_insert k m [] h l = omega arith
All-set_insert k m (x ∷ xs) h l = ground (arith, All-set_insert k m xs h.1, All-mono k m xs h.1)
  where
    All-mono : (k m : ℕ) (xs : List ℕ) → All (λ x. x < m) xs → m ≤ k → All (λ x. x < k + 1) xs
    All-mono k m [] h l = tt
    All-mono k m (x ∷ xs) h l = (omega arith, All-mono k m xs h.1 l)

-- Where the window begins at the new number `m`, a datagram is refused exactly when its number is
-- below `m`, or more than 2048 above it.
pub is_refused_lem :
    (k m n : ℕ) (s : Session)
    → k < 2 ^ 24
    → IsWindow m n (receiving s)
    → is_refused k s ≡ (ltb k m || ltb (m + window_size) k)
unfolding is_refused
is_refused_lem k zero n s h w =
    rw (to_i32-pos k (omega arith), w.window_start, w.window_end)
      (ground (arith, elem_above k 0 s.received_window w.received))
is_refused_lem k (suc m) n s h w =
    rw (to_i32-pos k (omega arith), w.window_start, w.window_end)
      (ground (arith, elem_above k (suc m) s.received_window w.received, found))
  where
    found : k ≡ m → elem k s.received_window ≡ true
    found e = w.newest k (ap suc e)

receiving-nack_one : (seq : ℕ) (s : Session) → receiving (nack_one seq s) ≡ receiving s
unfolding nack_one
receiving-nack_one seq s =
    if_both (λ t. receiving t ≡ receiving s) (elem seq s.received_window) refl refl

receiving-nack_gap :
    (rounds : ℕ) (i : ℤ) (s : Session) → receiving (nack_gap rounds i s) ≡ receiving s
unfolding nack_gap
receiving-nack_gap zero i s = refl
receiving-nack_gap (suc rounds) i s =
    receiving-nack_gap rounds (i +ℤ pos 1) (nack_one (to_u32 i) s) ∙ receiving-nack_one (to_u32 i) s

ack-nack_gap : (rounds : ℕ) (i : ℤ) (s : Session) → (nack_gap rounds i s).ack_queue ≡ s.ack_queue
unfolding nack_gap nack_one
ack-nack_gap zero i s = refl
ack-nack_gap (suc rounds) i s =
    ack-nack_gap rounds (i +ℤ pos 1) _
    ∙ if_both (λ (t : Session). t.ack_queue ≡ s.ack_queue) (elem (to_u32 i) s.received_window) refl
        refl

elem-nack_one :
    (a k : ℕ) (s : Session)
    → elem k (nack_one a s).nack_queue
      ≡ (elem k s.nack_queue || ((a == k) && not (elem k s.received_window)))
unfolding nack_one
elem-nack_one a k s = elim (Bool-cases (elem a s.received_window)) [
  | inl e ↦ rw e (same (elem k s.nack_queue) (elem k s.received_window) (λ q. rw q at e))
  | inr e ↦
      rw (e, elem-set_insert k a s.nack_queue)
        (new (elem k s.nack_queue) (elem k s.received_window) (λ q. rw q at e))
]
  where
    same : (x y : Bool) → (a ≡ k → y ≡ true) → x ≡ (x || ((a == k) && not y))
    same x y f = ground arith

    new : (x y : Bool) → (a ≡ k → y ≡ false) → ((a == k) || x) ≡ (x || ((a == k) && not y))
    new x y f = ground arith

-- The numbers of a gap that are not received are asked for, and no others.
elem-nack_gap :
    (rounds a k : ℕ) (s : Session)
    → a + rounds ≤ 2 ^ 32
    → elem k (nack_gap rounds (pos a) s).nack_queue
      ≡ (elem k s.nack_queue || ((leb a k && ltb k (a + rounds)) && not (elem k s.received_window)))
unfolding nack_gap
elem-nack_gap zero a k s h = ground arith
elem-nack_gap (suc rounds) a k s h =
    ap₂ (λ (x : ℕ) (z : ℤ). elem k (nack_gap rounds z (nack_one x s)).nack_queue) small
      (pos-add a 1)
    ∙ elem-nack_gap rounds (a + 1) k (nack_one a s) (omega arith)
    ∙ rw (elem-nack_one a k s, ap (λ (r : Receiving). r.received_window) (receiving-nack_one a s))
        (join (elem k s.nack_queue) (elem k s.received_window))
  where
    small : a % 2 ^ 32 ≡ a
    small = omega arith

    join :
        (x y : Bool)
        → ((x || ((a == k) && not y)) || ((leb (a + 1) k && ltb k (a + 1 + rounds)) && not y))
          ≡ (x || ((leb a k && ltb k (a + suc rounds)) && not y))
    join x y = ground arith

pos-sub : (k m : ℕ) → m ≤ k → pos k -ℤ pos m ≡ pos (k - m)
unfolding ◌-ℤ◌
pos-sub k m h = ground arith

move_window_lem :
    (seq diff a b : ℤ) (t : Session)
    → ltℤ diff (pos 1) ≡ false
    → t.window_start +ℤ diff ≡ a
    → t.window_end +ℤ diff ≡ b
    → move_window seq diff t ≡ record t { last_seq = seq; window_start = a; window_end = b }
unfolding move_window
move_window_lem seq diff a b t h e f =
    rw h (λ i. record t { last_seq = seq; window_start = e i; window_end = f i })

-- With `d` the distance from the number before `m`.
nack_missing_lem :
    (k m : ℕ) (t : Session)
    → m ≤ k
    → t.last_seq ≡ before m
    → nack_missing (pos k) (pos (k - m + 1)) t ≡ nack_gap (k - m) (pos m) t
unfolding nack_missing nack_gap
nack_missing_lem k m t h e =
    ap
      (λ (z : ℤ). if eqℤ (pos (k - m + 1)) (pos 1) then t else nack_gap (pos_part (pos k -ℤ z)) z t)
      (ap (λ (z : ℤ). z +ℤ pos 1) e ∙ before-add_one m)
    ∙ ap (λ (z : ℤ). if eqℤ (pos (k - m + 1)) (pos 1) then t else nack_gap (pos_part z) (pos m) t)
        (pos-sub k m h)
    ∙ if_cases (λ u. u ≡ nack_gap (k - m) (pos m) t) (eqℤ (pos (k - m + 1)) (pos 1))
        (λ q. let none : 0 ≡ k - m = ground arith in ap (λ (r : ℕ). nack_gap r (pos m) t) none)
        (λ _. refl)

-- What `accept_seq` does to the queues, and where the windows stand afterwards.
module _ (k m n : ℕ) (s : Session) (small : k < 2 ^ 24) (w : IsWindow m n (receiving s))
    (new : m ≤ k) where
  abbrev marked : Session
  marked = mark_received k s

  abbrev asked : Session
  asked = nack_gap (k - m) (pos m) marked

  marked-receiving :
      receiving marked ≡ record (receiving s) { received_window = set_insert k s.received_window }
  unfolding mark_received
  marked-receiving = refl

  asked-receiving :
      receiving asked ≡ record (receiving s) { received_window = set_insert k s.received_window }
  asked-receiving = receiving-nack_gap (k - m) (pos m) marked ∙ marked-receiving

  -- The windows then begin right behind the number that was accepted.
  accept_seq_lem : accept_seq k s ≡ record asked {
    last_seq = pos k;
    window_start = pos k;
    window_end = pos (k + 1 + window_size);
  }
  unfolding accept_seq
  accept_seq_lem =
      ap₂ (λ q d. move_window q d (nack_missing q d marked)) (to_i32-pos k (omega arith))
        (ap₂ ◌-ℤ◌ (to_i32-pos k (omega arith)) w.last_seq ∙ pos-sub_before k m new)
      ∙ ap (move_window (pos k) (pos (k - m + 1))) (
          nack_missing_lem k m marked new
            (ap (λ (r : Receiving). r.last_seq) marked-receiving ∙ w.last_seq))
      ∙ move_window_lem (pos k) (pos (k - m + 1)) (pos k) (pos (k + 1 + window_size)) asked
          (ground arith)
          (ap (λ (r : Receiving). r.window_start +ℤ pos (k - m + 1)) asked-receiving
            ∙ ap (λ (z : ℤ). z +ℤ pos (k - m + 1)) w.window_start
            ∙ before-add k m new)
          (ap (λ (r : Receiving). r.window_end +ℤ pos (k - m + 1)) asked-receiving
            ∙ ap (λ (z : ℤ). z +ℤ pos (k - m + 1)) w.window_end
            ∙ pos-add (m + window_size) (k - m + 1)
            ∙ ap pos (omega arith))

  accept_seq-receiving : receiving (accept_seq k s) ≡ record (receiving s) {
    last_seq = pos k;
    window_start = pos k;
    window_end = pos (k + 1 + window_size);
    received_window = set_insert k s.received_window;
  }
  accept_seq-receiving =
      ap receiving accept_seq_lem
      ∙ ap
          (λ (r : Receiving). record r {
            last_seq = pos k;
            window_start = pos k;
            window_end = pos (k + 1 + window_size);
          })
          asked-receiving

  -- Accepting a datagram with a new number moves the window right behind that number.
  pub accept_seq-IsWindow : IsWindow (k + 1) n (receiving (accept_seq k s))
  accept_seq-IsWindow = subst (IsWindow (k + 1) n) (sym accept_seq-receiving) (record {
    last_seq = last;
    window_start = last;
    window_end = refl;
    received = All-set_insert k m s.received_window w.received new;
    newest = λ j e. newest j (omega arith);
    reliable_window_start = w.reliable_window_start;
    reliable_window_end = w.reliable_window_end;
    last_reliable_index = w.last_reliable_index;
    waiting = w.waiting;
  })
    where
      last : pos k ≡ before (k + 1)
      last = ap before (sym (add-one k))

      newest : (j : ℕ) → j ≡ k → elem j (set_insert k s.received_window) ≡ true
      newest j e = elem-set_insert j k s.received_window ∙ rw (e, ==_refl k)

  -- After a datagram with a new number `k`, the numbers to acknowledge are those before and `k`; the
  -- numbers to ask for again are those before, without `k`, and every number skipped from `m` to `k`.
  pub accept_seq-queues :
      (j : ℕ)
      → (elem j (accept_seq k s).ack_queue ≡ ((k == j) || elem j s.ack_queue))
        × (elem j (accept_seq k s).nack_queue
            ≡ ((not (k == j) && elem j s.nack_queue) || (leb m j && ltb j k)))
  accept_seq-queues j = (
    ap (λ (t : Session). elem j t.ack_queue) accept_seq_lem
        ∙ ap (elem j) (ack-nack_gap (k - m) (pos m) marked)
        ∙ (unfold mark_received in elem-set_insert j k s.ack_queue),
    ap (λ (t : Session). elem j t.nack_queue) accept_seq_lem
        ∙ elem-nack_gap (k - m) m j marked (omega arith)
        ∙ (unfold mark_received in
            rw (elem-set_erase j k s.nack_queue, elem-set_insert j k s.received_window)
              (both (elem j s.nack_queue) (elem j s.received_window)
                (elem_above j m s.received_window w.received))),
  )
    where
      both :
          (x y : Bool)
          → (m ≤ j → y ≡ false)
          → ((not (k == j) && x) || ((leb m j && ltb j (m + (k - m))) && not ((k == j) || y)))
            ≡ ((not (k == j) && x) || (leb m j && ltb j k))
      both x y f = ground arith
