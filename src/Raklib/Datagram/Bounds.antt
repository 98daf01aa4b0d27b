-- ===== src/Raklib/Datagram/Bounds.antt =====
-- What `decode` of src/raklib/Datagram.cpp reads is in range: a number of three bytes is below 2 ^ 24.
use mpmpescore_cpp.Prelude.{
  ℕ, zero, suc, ◌+◌, ◌*◌, ◌%◌, ◌^◌, ◌<◌, ◌≡◌, refl, Bool, true, false, List, [], ◌∷◌, Option, none,
  some, ◌==◌, ◌||◌, is_empty, get_or, ltb, length, take, drop, if_both, if_cases, All, arith,
  if◌then◌else◌, subst, sym,
}
use mpmpescore_cpp.Prelude
use mpmpescore_cpp.Binary.{Bytes, read_ltriad, read_int, read_short}
use mpmpescore_cpp.Raklib.Encapsulated.{
  EncapsulatedPacket, Parse, stop, go, or_throw, need_size, ◌>>=◌, substr, read_length,
  read_message_index, read_order, read_split, read_buffer, result, from_binary,
}
use mpmpescore_cpp.Raklib.Datagram.{Datagram, decode_loop, decode}
use mpmpescore_cpp.Raklib.Datagram

-- The value, where there is one, is below 2 ^ 24.
abbrev pub Below : Option ℕ → Type 0
Below none = Unit {0}
Below (some k) = k < 2 ^ 24

All-take : (n : ℕ) (xs : Bytes) → All (λ b. b < 256) xs → All (λ b. b < 256) (take n xs)
All-take zero xs h = tt
All-take (suc n) [] h = tt
All-take (suc n) (x ∷ xs) h = (h.0, All-take n xs h.1)

All-drop : (n : ℕ) (xs : Bytes) → All (λ b. b < 256) xs → All (λ b. b < 256) (drop n xs)
All-drop zero xs h = h
All-drop (suc n) [] h = tt
All-drop (suc n) (x ∷ xs) h = All-drop n xs h.1

get_or-byte : (n : ℕ) (xs : Bytes) → All (λ b. b < 256) xs → get_or xs n 0 < 256
get_or-byte n [] h = omega arith
get_or-byte zero (x ∷ xs) h = h.0
get_or-byte (suc n) (x ∷ xs) h = get_or-byte n xs h.1

read_ltriad-Below : (xs : Bytes) → All (λ b. b < 256) xs → Below (read_ltriad xs)
unfolding read_ltriad
read_ltriad-Below xs h =
    let a = get_or-byte 0 xs h in
    let b = get_or-byte 1 xs h in
    let c = get_or-byte 2 xs h in if_both Below (ltb (length xs) 3) tt (omega arith)

-- The packet of every outcome has its message index below 2 ^ 24.
module _ {ℓ} {A : Type ℓ} (packet : A → EncapsulatedPacket) where
  abbrev InRange : Parse A → Type 0
  InRange (stop p) = Below p.message_index
  InRange (go a) = Below (packet a).message_index

abbrev Any : {A : Type 0} → Parse A → Type 0
Any (stop p) = Below p.message_index
Any (go a) = Unit {0}

module _ {B : Type 0} (packet : B → EncapsulatedPacket) where
  bind-Any :
      {A : Type 0} (m : Parse A) (f : A → Parse B)
      → Any m
      → ((a : A) → InRange packet (f a))
      → InRange packet (m >>= f)
  bind-Any (stop p) f h k = h
  bind-Any (go a) f h k = k a

  bind :
      {A : Type 0} (source : A → EncapsulatedPacket) (m : Parse A) (f : A → Parse B)
      → InRange source m
      → ((a : A) → Below (source a).message_index → InRange packet (f a))
      → InRange packet (m >>= f)
  bind source (stop p) f h k = h
  bind source (go a) f h k = k a h

Any-or_throw : {A : Type 0} (o : Option A) → Any (or_throw o)
Any-or_throw none = tt
Any-or_throw (some a) = tt

Any-need_size :
    (binary : Bytes) (n : ℕ) (p : EncapsulatedPacket)
    → Below p.message_index
    → Any (need_size binary n p)
Any-need_size binary n p h = if_both Any (ltb (length binary) n) h tt

abbrev head : EncapsulatedPacket × ℕ × ℕ → EncapsulatedPacket
head r = r.0

abbrev first : EncapsulatedPacket × ℕ → EncapsulatedPacket
first r = r.0

read_length-InRange :
    (internal : Bool) (binary : Bytes) (p : EncapsulatedPacket)
    → Below p.message_index
    → InRange head (read_length internal binary p)
unfolding read_length
read_length-InRange true binary p h = bind-Any head _ _ (Any-need_size binary 9 p h) (λ _.
    bind-Any head _ _ (Any-or_throw (read_int (substr binary 1 4)))
      (λ len. bind-Any head _ _ (Any-or_throw (read_int (substr binary 5 4))) (λ ack. h)))
read_length-InRange false binary p h =
    bind-Any head _ _ (Any-need_size binary 3 p h)
      (λ _. bind-Any head _ _ (Any-or_throw (read_short (substr binary 1 2))) (λ bits. h))

read_message_index-InRange :
    (wanted : Bool) (binary : Bytes) (p : EncapsulatedPacket) (offset : ℕ)
    → All (λ b. b < 256) binary
    → Below p.message_index
    → InRange first (read_message_index wanted binary p offset)
unfolding read_message_index
read_message_index-InRange true binary p offset bytes h =
    bind-Any first _ _ (Any-need_size binary (offset + 3) p h) (λ _.
      read (read_ltriad (substr binary offset 3))
        (read_ltriad-Below _ (All-take 3 _ (All-drop offset binary bytes))))
  where
    read :
        (o : Option ℕ)
        → Below o
        → InRange first (or_throw o >>= λ m. go (record p { message_index = some m }, offset + 3))
    read none b = tt
    read (some m) b = b
read_message_index-InRange false binary p offset bytes h = h

read_order-InRange :
    (wanted : Bool) (binary : Bytes) (p : EncapsulatedPacket) (offset : ℕ)
    → Below p.message_index
    → InRange first (read_order wanted binary p offset)
unfolding read_order
read_order-InRange true binary p offset h =
    bind-Any first _ _ (Any-need_size binary (offset + 4) p h)
      (λ _. bind-Any first _ _ (Any-or_throw (read_ltriad (substr binary offset 3))) (λ o. h))
read_order-InRange false binary p offset h = h

read_split-InRange :
    (wanted : Bool) (binary : Bytes) (p : EncapsulatedPacket) (offset : ℕ)
    → Below p.message_index
    → InRange first (read_split wanted binary p offset)
unfolding read_split
read_split-InRange true binary p offset h =
    bind-Any first _ _ (Any-need_size binary (offset + 10) p h) (λ _.
      bind-Any first _ _ (Any-or_throw (read_int (substr binary offset 4))) (λ count.
        bind-Any first _ _ (Any-or_throw (read_short (substr binary (offset + 4) 2))) (λ id.
          bind-Any first _ _ (Any-or_throw (read_int (substr binary (offset + 6) 4)))
            (λ index. h))))
read_split-InRange false binary p offset h = h

read_buffer-InRange :
    (binary : Bytes) (p : EncapsulatedPacket) (offset len : ℕ)
    → Below p.message_index
    → InRange first (read_buffer binary p offset len)
unfolding read_buffer
read_buffer-InRange binary p offset len h =
    bind-Any first _ _ (Any-need_size binary ((offset + len) % 2 ^ 64) p h) (λ _. h)

result-InRange :
    (m : Parse (EncapsulatedPacket × ℕ)) → InRange first m → Below (result m).0.message_index
result-InRange (stop p) h = h
result-InRange (go r) h = h

from_binary-Below :
    (binary : Bytes) (internal : Bool)
    → All (λ b. b < 256) binary
    → Below (from_binary binary internal).0.message_index
unfolding from_binary
from_binary-Below binary internal bytes =
    if_both (λ (r : EncapsulatedPacket × ℕ). Below r.0.message_index) (is_empty binary) tt
      (result-InRange _ (
        bind first head _ _ (read_length-InRange internal binary _ tt) (λ (p, offset, len) h.
          bind first first _ _ (read_message_index-InRange _ binary p offset bytes h)
            (λ (p, offset) h.
              bind first first _ _ (read_order-InRange _ binary p offset h) (λ (p, offset) h.
                bind first first _ _ (read_split-InRange _ binary p offset h)
                  (λ (p, offset) h. read_buffer-InRange binary p offset len h))))))

decode_loop-Below :
    (fuel : ℕ) (rest : Bytes)
    → All (λ b. b < 256) rest
    → All (λ (p : EncapsulatedPacket). Below p.message_index) (decode_loop fuel rest)
unfolding decode_loop
decode_loop-Below zero rest bytes = tt
decode_loop-Below (suc fuel) rest bytes =
    let (p, used) = from_binary rest false in
    if_both (All (λ (p : EncapsulatedPacket). Below p.message_index)) (is_empty rest) tt (
      if_both (All (λ (p : EncapsulatedPacket). Below p.message_index))
        ((used == 0) || is_empty p.buffer) tt
        (
          from_binary-Below rest false bytes,
          decode_loop-Below fuel (drop used rest) (All-drop used rest bytes),
        ))

abbrev pub IsNumbered : Option Datagram → Type 0
IsNumbered none = Unit {0}
IsNumbered (some d) =
    (d.seq_number < 2 ^ 24) × All (λ (p : EncapsulatedPacket). Below p.message_index) d.packets

-- The number of a datagram that is decoded from bytes and the message index of each of its packets are
-- below 2 ^ 24.
pub decode-IsNumbered :
    (buffer : Bytes) → All (λ b. b < 256) buffer → IsNumbered (decode buffer Datagram.fresh)
unfolding decode
decode-IsNumbered buffer bytes = if_both IsNumbered (ltb (length buffer) 4) tt (
    read (read_ltriad (substr buffer 1 3))
      (read_ltriad-Below _ (All-take 3 _ (All-drop 1 buffer bytes))))
  where
    read :
        (o : Option ℕ)
        → Below o
        → IsNumbered (
            Prelude.◌>>=◌ o (λ seq. some (record Datagram.fresh {
              id = get_or buffer 0 0;
              seq_number = seq;
              packets = decode_loop (length (drop 4 buffer)) (drop 4 buffer);
            })))
    read none b = tt
    read (some seq) b = (b, decode_loop-Below _ _ (All-drop 4 buffer bytes))
