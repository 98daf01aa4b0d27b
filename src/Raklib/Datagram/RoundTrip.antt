-- ===== src/Raklib/Datagram/RoundTrip.antt =====
-- `decode` and `encode` of src/raklib/Datagram.cpp: the loop ends, and the packets come back.
use mpmpescore_cpp.Prelude.{
  ℕ, zero, suc, ◌+◌, ◌^◌, ◌<◌, ◌≤◌, ◌≡◌, refl, ap, ◌∙◌, Bool, false, ◌||◌, inl, inr, some, List, [],
  ◌∷◌, ◌++◌, arith, All, length, length-append, length-drop, append_assoc, append-nil,
  drop-length-append, le→ltb_false, ◌==◌, is_empty, drop, take, if◌then◌else◌, Bool-cases,
}
use mpmpescore_cpp.Binary.{Bytes, write_ltriad}
use mpmpescore_cpp.Binary.Codec.{read_ltriad-write_ltriad}
use mpmpescore_cpp.Binary.Stream.{BinaryStream, put}
use mpmpescore_cpp.Raklib.Encapsulated.{EncapsulatedPacket, from_binary, to_binary, total_length}
use mpmpescore_cpp.Raklib.Encapsulated.RoundTrip.{from_binary-to_binary, length-to_binary}
use mpmpescore_cpp.Raklib.Encapsulated.Wire.{IsWire}
use mpmpescore_cpp.Raklib.Datagram.{
  Datagram, put_packets, lengths, encode, decode_loop, decode, size,
}

-- The test that ends the loop at the bytes `rest`.
abbrev stops : Bytes → Bool
stops rest = ((from_binary rest false).1 == 0) || is_empty (from_binary rest false).0.buffer

decode_loop_step :
    (fuel b : ℕ) (rest : Bytes)
    → stops (b ∷ rest) ≡ false
    → decode_loop (suc fuel) (b ∷ rest)
      ≡ (from_binary (b ∷ rest) false).0
        ∷ decode_loop fuel (drop (from_binary (b ∷ rest) false).1 (b ∷ rest))
unfolding decode_loop
decode_loop_step fuel b rest e = rw e

drop_shorter :
    (b n : ℕ) (rest : Bytes)
    → stops (b ∷ rest) ≡ false
    → length rest ≤ n
    → length (drop (from_binary (b ∷ rest) false).1 (b ∷ rest)) ≤ n
drop_shorter b n rest e h = ground (arith, length-drop (from_binary (b ∷ rest) false).1 (b ∷ rest))

decode_loop-fuel :
    (f g : ℕ) (rest : Bytes)
    → length rest ≤ f
    → length rest ≤ g
    → decode_loop f rest ≡ decode_loop g rest
unfolding decode_loop
decode_loop-fuel zero zero rest h k = refl
decode_loop-fuel zero (suc g) [] h k = refl
decode_loop-fuel zero (suc g) (b ∷ rest) h k = absurd (omega arith)
decode_loop-fuel (suc f) zero [] h k = refl
decode_loop-fuel (suc f) zero (b ∷ rest) h k = absurd (omega arith)
decode_loop-fuel (suc f) (suc g) [] h k = refl
decode_loop-fuel (suc f) (suc g) (b ∷ rest) h k = elim (Bool-cases (stops (b ∷ rest))) [
  | inl e ↦ rw e
  | inr e ↦ rw e (
      ap (◌∷◌ (from_binary (b ∷ rest) false).0) (
        decode_loop-fuel f g (drop (from_binary (b ∷ rest) false).1 (b ∷ rest))
          (drop_shorter b f rest e (omega arith)) (drop_shorter b g rest e (omega arith))))
]

-- The loop of `decode` runs to its own end: with the fuel that `decode` gives, it meets the equation
-- of the source's `while`, in which nothing is cut off.
pub decode_loop_while :
    (rest : Bytes)
    → decode_loop (length rest) rest ≡ (
        let (p, used) = from_binary rest false in
        if is_empty rest
        then []
        else (if (used == 0) || is_empty p.buffer
            then []
            else p ∷ decode_loop (length (drop used rest)) (drop used rest)))
decode_loop_while [] = unfold decode_loop in refl
decode_loop_while (b ∷ rest) = elim (Bool-cases (stops (b ∷ rest))) [
  | inl e ↦ rw e (unfold decode_loop in rw e)
  | inr e ↦ rw e (
      ◌∙◌ {b = p ∷ decode_loop (length rest) (drop used (b ∷ rest))}
        (decode_loop_step (length rest) b rest e)
        (ap (◌∷◌ p) (
          decode_loop-fuel (length rest) _ (drop used (b ∷ rest))
            (drop_shorter b (length rest) rest e (omega arith)) (omega arith))))
]
  where
    p : EncapsulatedPacket
    p = (from_binary (b ∷ rest) false).0

    used : ℕ
    used = (from_binary (b ∷ rest) false).1

-- A packet that a datagram can carry: it fits the wire and has a payload.
pub record IsCarried (p : EncapsulatedPacket) : Type 0 where
  pub wire : IsWire p
  pub payload : is_empty p.buffer ≡ false

abbrev bytes : List EncapsulatedPacket → Bytes
bytes [] = []
bytes (p ∷ ps) = to_binary p false ++ bytes ps

put_packets-bytes :
    (ps : List EncapsulatedPacket) (out : BinaryStream)
    → put_packets ps out ≡ record out { buffer = out.buffer ++ bytes ps }
unfolding put
put_packets-bytes [] out = rw append-nil
put_packets-bytes (p ∷ ps) out = rw (put_packets-bytes ps, append_assoc)

is_empty_of_length : (xs : Bytes) → 0 < length xs → is_empty xs ≡ false
is_empty_of_length [] h = absurd (omega arith)
is_empty_of_length (x ∷ xs) h = refl

total_length_pos : (p : EncapsulatedPacket) → 3 ≤ total_length p
unfolding total_length
total_length_pos p = omega arith

length-bytes : (ps : List EncapsulatedPacket) → All IsCarried ps → length (bytes ps) ≡ lengths ps
length-bytes [] h = refl
length-bytes (p ∷ ps) h = omega (
  arith,
  length-append (to_binary p false) (bytes ps),
  length-to_binary p h.0.wire,
  length-bytes ps h.1,
)

module _ (p : EncapsulatedPacket) (rest : Bytes) (h : IsCarried p) where
  written_pos : 0 < length (to_binary p false ++ rest)
  written_pos =
      omega (
        arith,
        length-append (to_binary p false) rest,
        length-to_binary p h.wire,
        total_length_pos p,
      )

  written_used : ((length (to_binary p false)) == 0) ≡ false
  written_used = ground (arith, length-to_binary p h.wire, total_length_pos p)

  -- One round of the loop on a packet that was written.
  decode_loop-written :
      (fuel : ℕ) → decode_loop (suc fuel) (to_binary p false ++ rest) ≡ p ∷ decode_loop fuel rest
  unfolding decode_loop
  decode_loop-written fuel = rw (
    from_binary-to_binary p rest h.wire,
    is_empty_of_length _ written_pos,
    written_used,
    h.payload,
    drop-length-append (to_binary p false) rest,
  )

decode_loop-bytes :
    (ps : List EncapsulatedPacket) (fuel : ℕ)
    → All IsCarried ps
    → length (bytes ps) ≤ fuel
    → decode_loop fuel (bytes ps) ≡ ps
decode_loop-bytes [] zero h k = unfold decode_loop in refl
decode_loop-bytes [] (suc fuel) h k = unfold decode_loop in refl
decode_loop-bytes (p ∷ ps) zero h k = absurd (omega (arith, written_pos p (bytes ps) h.0))
decode_loop-bytes (p ∷ ps) (suc fuel) h k =
    decode_loop-written p (bytes ps) h.0 fuel
    ∙ ap (◌∷◌ p) (
        decode_loop-bytes ps fuel h.1 (
          omega (
            arith,
            length-append (to_binary p false) (bytes ps),
            length-to_binary p h.0.wire,
            total_length_pos p,
          )))

take_triad : (v : ℕ) (rest : Bytes) → take 3 (write_ltriad v ++ rest) ≡ write_ltriad v
unfolding write_ltriad
take_triad v rest = refl

drop_triad : (v : ℕ) (rest : Bytes) → drop 3 (write_ltriad v ++ rest) ≡ rest
unfolding write_ltriad
drop_triad v rest = refl

length-triad : (v : ℕ) (rest : Bytes) → length (write_ltriad v ++ rest) ≡ 3 + length rest
unfolding write_ltriad
length-triad v rest = omega arith

encode-bytes : (d : Datagram) → encode d ≡ d.id ∷ (write_ltriad d.seq_number ++ bytes d.packets)
unfolding encode
encode-bytes d =
    ap (λ (s : BinaryStream). s.buffer)
      (put_packets-bytes d.packets
        (record { buffer = d.id ∷ write_ltriad d.seq_number; offset = 0 }))

-- A datagram of packets that fit the wire and have a payload is decoded into the same packets in the
-- same order, with its id and its sequence number.
pub decode-encode_datagram :
    (d e : Datagram)
    → d.seq_number < 2 ^ 24
    → All IsCarried d.packets
    → decode (encode d) e
      ≡ some (record e { id = d.id; seq_number = d.seq_number; packets = d.packets })
unfolding decode
decode-encode_datagram d e h k = rw (
  encode-bytes d,
  decode,
  le→ltb_false (suc (length (write_ltriad d.seq_number ++ bytes d.packets))) 4
      (omega (arith, length-triad d.seq_number (bytes d.packets))),
  take_triad d.seq_number (bytes d.packets),
  read_ltriad-write_ltriad d.seq_number h,
  drop_triad d.seq_number (bytes d.packets),
  decode_loop-bytes d.packets (length (bytes d.packets)) k (omega arith),
)

-- `length()` is the number of bytes that `encode` writes for such a datagram.
pub length-encode : (d : Datagram) → All IsCarried d.packets → length (encode d) ≡ size d
unfolding size
length-encode d k =
    rw (encode-bytes d)
      (omega (arith, length-triad d.seq_number (bytes d.packets), length-bytes d.packets k))
