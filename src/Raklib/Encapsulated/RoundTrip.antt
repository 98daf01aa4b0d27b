-- ===== src/Raklib/Encapsulated/RoundTrip.antt =====
-- `from_binary` and `to_binary` of src/raklib/EncapsulatedPacket.cpp undo one another on the wire.
use mpmpescore_cpp.Prelude.{
  ℕ, ◌+◌, ◌^◌, ◌<◌, ◌≤◌, ◌≡◌, refl, sym, ap, ◌∙◌, Bool, true, false, Option, none, some, [], ◌∷◌,
  ◌++◌, arith, length, length-append, append_assoc, if◌then◌else◌, has_value,
}
use mpmpescore_cpp.Binary.{Bytes, write_short, write_int, write_ltriad}
use mpmpescore_cpp.Raklib.Encapsulated.{
  EncapsulatedPacket, is_reliable, is_ordered, from_binary, to_binary, total_length, with_flags, go,
  read_length, read_message_index, read_order, read_split, read_buffer,
}
use mpmpescore_cpp.Raklib.Encapsulated.Stages.{
  Present, length_bytes, message_bytes, order_bytes, split_bytes, read_message_index-at,
  read_order-at, read_split-at, read_length-at, read_buffer-at,
}
use mpmpescore_cpp.Raklib.Encapsulated.Wire.{wire, to_binary-wire, IsWire, flags_of, flags_lem}

-- A run of `from_binary` in which no stage stops.
from_binary_steps :
    (b : ℕ) (bs : Bytes) (q₀ q₁ q₂ q₃ q₄ : EncapsulatedPacket) (o₁ o₂ o₃ o₄ o₅ len : ℕ)
    → with_flags b ≡ q₀
    → read_length false (b ∷ bs) q₀ ≡ go (q₀, o₁, len)
    → read_message_index (is_reliable q₀.reliability) (b ∷ bs) q₀ o₁ ≡ go (q₁, o₂)
    → read_order (is_ordered q₁.reliability) (b ∷ bs) q₁ o₂ ≡ go (q₂, o₃)
    → read_split q₂.has_split (b ∷ bs) q₂ o₃ ≡ go (q₃, o₄)
    → read_buffer (b ∷ bs) q₃ o₄ len ≡ go (q₄, o₅)
    → from_binary (b ∷ bs) false ≡ (q₄, o₅)
unfolding from_binary
from_binary_steps b bs q₀ q₁ q₂ q₃ q₄ o₁ o₂ o₃ o₄ o₅ len e₀ e₁ e₂ e₃ e₄ e₅ =
    rw (e₀, e₁, e₂, e₃, e₄, e₅)

length-message_bytes : (b : Bool) (m : Option ℕ) → length (message_bytes b m) ≡ (if b then 3 else 0)
unfolding write_ltriad
length-message_bytes true m = refl
length-message_bytes false m = refl

length-order_bytes : (b : Bool) (o c : Option ℕ) → length (order_bytes b o c) ≡ (if b then 4 else 0)
unfolding write_ltriad
length-order_bytes true o c = refl
length-order_bytes false o c = refl

length-split_bytes :
    (b : Bool) (c d x : Option ℕ) → length (split_bytes b c d x) ≡ (if b then 10 else 0)
unfolding write_int write_short
length-split_bytes true c d x = refl
length-split_bytes false c d x = refl

length-length_bytes : (buffer : Bytes) → length (length_bytes buffer) ≡ 2
unfolding write_short
length-length_bytes buffer = refl

if_bound : (b : Bool) (n : ℕ) → (if b then n else 0) ≤ n
if_bound true n = omega arith
if_bound false n = omega arith

length-wire :
    (p : EncapsulatedPacket)
    → length (wire p)
      ≡ 3
        + (if is_reliable p.reliability then 3 else 0)
        + (if is_ordered p.reliability then 4 else 0)
        + (if p.has_split then 10 else 0)
        + length p.buffer
length-wire p =
    simp
      (
        length-append, length-length_bytes, length-message_bytes, length-order_bytes,
        length-split_bytes,
      )
      (omega arith)

-- The packet after each stage.
module _ (p : EncapsulatedPacket) where
  abbrev after_flags : EncapsulatedPacket
  after_flags = record (with_flags 0) { reliability = p.reliability; has_split = p.has_split }

  abbrev after_message : EncapsulatedPacket
  after_message = record after_flags { message_index = p.message_index }

  abbrev after_order : EncapsulatedPacket
  after_order = record after_message {
    order_index = p.order_index;
    order_channel = p.order_channel;
  }

  abbrev after_split : EncapsulatedPacket
  after_split = record after_order {
    split_count = p.split_count;
    split_id = p.split_id;
    split_index = p.split_index;
  }

  abbrev after_buffer : EncapsulatedPacket
  after_buffer = record after_split { buffer = p.buffer }

  after_buffer_lem : IsWire p → after_buffer ≡ p
  after_buffer_lem v =
      λ i. record p { need_ack = sym v.need_ack i; identifier_ack = sym v.identifier_ack i }

  whole :
      ((((flags_of p ∷ length_bytes p.buffer)
              ++ message_bytes (is_reliable p.reliability) p.message_index)
            ++ order_bytes (is_ordered p.reliability) p.order_index p.order_channel)
          ++ split_bytes p.has_split p.split_count p.split_id p.split_index)
        ++ p.buffer
      ≡ wire p
  whole = simp append_assoc

  from_binary-wire :
      (rest : Bytes)
      → IsWire p
      → from_binary (wire p ++ rest) false ≡ (after_buffer, length (wire p))
  from_binary-wire rest v =
      from_binary_steps (flags_of p) _ after_flags after_message after_order after_split
        after_buffer (length f₁) (length f₂) (length f₃) (length f₄) (length (wire p))
        (length p.buffer) (flags_lem p.reliability p.has_split v.reliability)
        (rw (append_assoc (length_bytes p.buffer))
          (read_length-at after_flags [] _ (flags_of p) p.buffer refl v.buffer))
        (simp append_assoc (
          read_message_index-at after_flags f₁ (ord ++ (spl ++ (p.buffer ++ rest))) _
            p.message_index refl v.message))
        (simp append_assoc (
          simp append_assoc at (
            read_order-at after_message f₂ (spl ++ (p.buffer ++ rest)) _ p.order_index
              p.order_channel refl refl v.order v.channel)))
        (simp append_assoc (
          simp append_assoc at (
            read_split-at after_order f₃ (p.buffer ++ rest) p.has_split p.split_count p.split_id
              p.split_index refl refl refl v.count v.id v.index)))
        (simp append_assoc
          (simp append_assoc at (read_buffer-at after_split f₄ rest p.buffer bound)))
    where
      ord : Bytes
      ord = order_bytes (is_ordered p.reliability) p.order_index p.order_channel

      spl : Bytes
      spl = split_bytes p.has_split p.split_count p.split_id p.split_index

      f₁ : Bytes
      f₁ = flags_of p ∷ length_bytes p.buffer

      f₂ : Bytes
      f₂ = f₁ ++ message_bytes (is_reliable p.reliability) p.message_index

      f₃ : Bytes
      f₃ = f₂ ++ ord

      f₄ : Bytes
      f₄ = f₃ ++ spl

      bound : length f₄ + length p.buffer < 2 ^ 64
      bound = omega (
        arith,
        v.buffer,
        length-append f₄ p.buffer,
        ap length whole,
        length-wire p,
        if_bound (is_reliable p.reliability) 3,
        if_bound (is_ordered p.reliability) 4,
        if_bound p.has_split 10,
      )

-- A packet whose fields fit the wire is read back as it was, whatever follows it, and the bytes
-- consumed are those that were written.
pub from_binary-to_binary :
    (p : EncapsulatedPacket) (rest : Bytes)
    → IsWire p
    → from_binary (to_binary p false ++ rest) false ≡ (p, length (to_binary p false))
from_binary-to_binary p rest v = rw (to_binary-wire p v) (
    from_binary-wire p rest v
    ∙ ap (λ (q : EncapsulatedPacket). (q, length (wire p))) (after_buffer_lem p v))

has_value_of :
    (b : Bool) (o : Option ℕ) (n k : ℕ)
    → Present b o n
    → (if b then k else 0) ≡ (if has_value o then k else 0)
has_value_of true (some v) n k h = refl
has_value_of true none n k h = absurd h
has_value_of false (some v) n k h = absurd h
has_value_of false none n k h = refl

-- `total_length` counts the bytes that `to_binary` writes, for a packet whose optional fields are
-- those of its reliability.
pub length-to_binary :
    (p : EncapsulatedPacket) → IsWire p → length (to_binary p false) ≡ total_length p
unfolding total_length
length-to_binary p v = rw (to_binary-wire p v) omega (
  arith,
  length-wire p,
  has_value_of (is_reliable p.reliability) p.message_index (2 ^ 24) 3 v.message,
  has_value_of (is_ordered p.reliability) p.order_index (2 ^ 24) 4 v.order,
)
