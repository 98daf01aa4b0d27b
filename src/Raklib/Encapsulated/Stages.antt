-- ===== src/Raklib/Encapsulated/Stages.antt =====
-- Each stage of `from_binary` on the bytes that the same stage of `to_binary` wrote.
use native.Mathlib.Nat.{mod-eq_of_lt}
use mpmpescore_cpp.Prelude.{
  ℕ, ◌+◌, ◌*◌, ◌/◌, ◌^◌, ◌<◌, ◌≡◌, refl, sym, Bool, true, false, Option, none, some, [], ◌∷◌, ◌++◌,
  arith, length, length-append, append_assoc, append-nil, take-length-append, drop-length-append,
  ltb, le→ltb_false, value_or, get_or,
}
use mpmpescore_cpp.Binary.{Bytes, write_short, write_int, write_ltriad}
use mpmpescore_cpp.Binary.Codec.{
  read_short-write_short, read_int-write_int, read_ltriad-write_ltriad,
}
use mpmpescore_cpp.Binary.At.{get_or-length-append}
use mpmpescore_cpp.Raklib.Encapsulated.{
  EncapsulatedPacket, go, substr, read_length, read_message_index, read_order, read_split,
  read_buffer,
}

-- The field is there exactly when it is wanted, and is below the bound.
abbrev pub Present : Bool → Option ℕ → ℕ → Type 0
Present true (some v) bound = v < bound
Present true none bound = ⊥
Present false (some v) bound = ⊥
Present false none bound = Unit {0}

abbrev pub length_bytes : Bytes → Bytes
length_bytes buffer = write_short (length buffer * 8)

abbrev pub message_bytes : Bool → Option ℕ → Bytes
message_bytes true m = write_ltriad (value_or m 0)
message_bytes false m = []

abbrev pub order_bytes : Bool → Option ℕ → Option ℕ → Bytes
order_bytes true o c = write_ltriad (value_or o 0) ++ (value_or c 0 ∷ [])
order_bytes false o c = []

abbrev pub split_bytes : Bool → Option ℕ → Option ℕ → Option ℕ → Bytes
split_bytes true count id index =
    write_int (value_or count 0) ++ (write_short (value_or id 0) ++ write_int (value_or index 0))
split_bytes false count id index = []

substr-at :
    (front xs rest : Bytes) (n : ℕ)
    → length xs ≡ n
    → substr (front ++ (xs ++ rest)) (length front) n ≡ xs
substr-at front xs rest n h =
    rw (← h, drop-length-append front (xs ++ rest), take-length-append xs rest)

-- The part of `front ++ (xs ++ (ys ++ rest))` that starts behind `xs`.
substr-at_next :
    (front xs ys rest : Bytes) (k n : ℕ)
    → length xs ≡ k
    → length ys ≡ n
    → substr (front ++ (xs ++ (ys ++ rest))) (length front + k) n ≡ ys
substr-at_next front xs ys rest k n h e =
    rw (← append_assoc front xs (ys ++ rest), ← h, ← length-append front xs)
      (substr-at (front ++ xs) ys rest n e)

get_or-at :
    (front xs rest : Bytes) (v k : ℕ)
    → length xs ≡ k
    → get_or (front ++ (xs ++ (v ∷ rest))) (length front + k) 0 ≡ v
get_or-at front xs rest v k h =
    rw (← h, ← length-append front xs, ← append_assoc front xs (v ∷ rest))
      (get_or-length-append (front ++ xs) v rest)

enough :
    (front xs rest : Bytes) (n : ℕ)
    → length xs ≡ n
    → ltb (length (front ++ (xs ++ rest))) (length front + n) ≡ false
enough front xs rest n h =
    le→ltb_false _ _ (omega (arith, length-append front (xs ++ rest), length-append xs rest))

module _ (q : EncapsulatedPacket) (front rest : Bytes) where
  pub read_message_index-at :
      (b : Bool) (m : Option ℕ)
      → q.message_index ≡ none
      → Present b m (2 ^ 24)
      → read_message_index b (front ++ (message_bytes b m ++ rest)) q (length front)
        ≡ go (record q { message_index = m }, length (front ++ message_bytes b m))
  unfolding read_message_index
  read_message_index-at true (some v) e h =
      rw
        (
          enough front (write_ltriad v) rest 3 (unfold write_ltriad in refl),
          substr-at front (write_ltriad v) rest 3 (unfold write_ltriad in refl),
          read_ltriad-write_ltriad v h,
          length-append front (write_ltriad v),
        )
        (unfold write_ltriad in refl)
  read_message_index-at true none e h = absurd h
  read_message_index-at false (some v) e h = absurd h
  read_message_index-at false none e h =
      rw append-nil (λ i. go (record q { message_index = e i }, length front))

  pub read_order-at :
      (b : Bool) (o c : Option ℕ)
      → q.order_index ≡ none
      → q.order_channel ≡ none
      → Present b o (2 ^ 24)
      → Present b c (2 ^ 8)
      → read_order b (front ++ (order_bytes b o c ++ rest)) q (length front)
        ≡ go (record q { order_index = o; order_channel = c }, length (front ++ order_bytes b o c))
  unfolding read_order
  read_order-at true (some v) (some w) e d h k =
      rw
        (
          enough front (write_ltriad v ++ (w ∷ [])) rest 4 (unfold write_ltriad in refl),
          append_assoc (write_ltriad v) (w ∷ []) rest,
          substr-at front (write_ltriad v) (w ∷ rest) 3 (unfold write_ltriad in refl),
          read_ltriad-write_ltriad v h,
          get_or-at front (write_ltriad v) rest w 3 (unfold write_ltriad in refl),
          length-append front (write_ltriad v ++ (w ∷ [])),
        )
        (unfold write_ltriad in refl)
  read_order-at true (some v) none e d h k = absurd k
  read_order-at true none c e d h k = absurd h
  read_order-at false (some v) c e d h k = absurd h
  read_order-at false none (some w) e d h k = absurd k
  read_order-at false none none e d h k =
      rw append-nil (λ i. go (record q { order_index = e i; order_channel = d i }, length front))

  pub read_split-at :
      (b : Bool) (count id index : Option ℕ)
      → q.split_count ≡ none
      → q.split_id ≡ none
      → q.split_index ≡ none
      → Present b count (2 ^ 32)
      → Present b id (2 ^ 16)
      → Present b index (2 ^ 32)
      → read_split b (front ++ (split_bytes b count id index ++ rest)) q (length front)
        ≡ go (
          record q { split_count = count; split_id = id; split_index = index },
          length (front ++ split_bytes b count id index),
        )
  unfolding read_split
  read_split-at true (some c) (some d) (some x) e e' e'' h h' h'' =
      rw
        (
          enough front (write_int c ++ (write_short d ++ write_int x)) rest 10
              (unfold write_int write_short in refl),
          append_assoc (write_int c) (write_short d ++ write_int x) rest,
          append_assoc (write_short d) (write_int x) rest,
          substr-at front (write_int c) (write_short d ++ (write_int x ++ rest)) 4
              (unfold write_int in refl),
          read_int-write_int c h,
          substr-at_next front (write_int c) (write_short d) (write_int x ++ rest) 4 2
              (unfold write_int in refl) (unfold write_short in refl),
          read_short-write_short d h',
          ← append_assoc (write_int c) (write_short d) (write_int x ++ rest),
          substr-at_next front (write_int c ++ write_short d) (write_int x) rest 6 4
              (unfold write_int write_short in refl) (unfold write_int in refl),
          read_int-write_int x h'',
          length-append front (write_int c ++ (write_short d ++ write_int x)),
        )
        (unfold write_int write_short in refl)
  read_split-at true none d x e e' e'' h h' h'' = absurd h
  read_split-at true (some c) none x e e' e'' h h' h'' = absurd h'
  read_split-at true (some c) (some d) none e e' e'' h h' h'' = absurd h''
  read_split-at false (some c) d x e e' e'' h h' h'' = absurd h
  read_split-at false none (some d) x e e' e'' h h' h'' = absurd h'
  read_split-at false none none (some x) e e' e'' h h' h'' = absurd h''
  read_split-at false none none none e e' e'' h h' h'' =
      rw append-nil (λ i.
        go (record q { split_count = e i; split_id = e' i; split_index = e'' i }, length front))

  pub read_length-at :
      (flags : ℕ) (buffer : Bytes)
      → q.identifier_ack ≡ none
      → length buffer < 2 ^ 13
      → read_length false (flags ∷ (length_bytes buffer ++ rest)) q
        ≡ go (q, length (flags ∷ length_bytes buffer), length buffer)
  unfolding read_length
  read_length-at flags buffer e h =
      rw
        (
          enough [] (flags ∷ length_bytes buffer) rest 3 (unfold write_short in refl),
          substr-at (flags ∷ []) (length_bytes buffer) rest 2 (unfold write_short in refl),
          read_short-write_short (length buffer * 8) (omega arith),
        )
        (let len : (length buffer * 8 + 7) / 8 ≡ length buffer = omega arith in
          unfold write_short in λ i. go (record q { identifier_ack = sym e i }, 3, len i))

  pub read_buffer-at :
      (buffer : Bytes)
      → length front + length buffer < 2 ^ 64
      → read_buffer (front ++ (buffer ++ rest)) q (length front) (length buffer)
        ≡ go (record q { buffer = buffer }, length (front ++ buffer))
  unfolding read_buffer
  read_buffer-at buffer h = rw (
    mod-eq_of_lt h,
    enough front buffer rest (length buffer) refl,
    substr-at front buffer rest (length buffer) refl,
    length-append front buffer,
  )
