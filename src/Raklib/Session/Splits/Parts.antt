-- ===== src/Raklib/Session/Splits/Parts.antt =====
-- The parts of a packet that the loop of `addEncapsulated` in src/raklib/Session.cpp sends.
use mpmpescore_cpp.Prelude.{
  ℕ, zero, suc, ◌+◌, ◌-◌, ◌*◌, ◌%◌, ◌^◌, ◌<◌, ◌≡◌, refl, ap, ◌∙◌, Bool, true, false, ◌&&◌, List, [],
  ◌∷◌, arith, Option, none, some, ltb, leb, ◌==◌, if◌then◌else◌, if_both, Bool-cases, inl, inr,
  take, drop,
}
use mpmpescore_cpp.Prelude.Maps.{map_find}
use mpmpescore_cpp.Binary.{Bytes}
use mpmpescore_cpp.Raklib.Encapsulated.{EncapsulatedPacket}
use mpmpescore_cpp.Raklib.Datagram.{Datagram}
use mpmpescore_cpp.Raklib.Session.{Session, emit}
use mpmpescore_cpp.Raklib.Session.Send.{
  split_part, number_part, has_message_index, send_bytes, send_datagram, next_seq, add_to_queue,
  send_parts,
}
use mpmpescore_cpp.Raklib.Session.Recovery.{find-send_datagram}

-- Whether a packet is a part, and its count, id and index.
abbrev pub Header : Type 0
Header = Bool × Option ℕ × Option ℕ × Option ℕ

abbrev pub header_and_bytes : EncapsulatedPacket → Header × Bytes
header_and_bytes p = ((p.has_split, p.split_count, p.split_id, p.split_index), p.buffer)

-- The only packet of a datagram.
abbrev pub only : List EncapsulatedPacket → Option (Header × Bytes)
only [] = none
only (p ∷ []) = some (header_and_bytes p)
only (p ∷ q ∷ ps) = none

abbrev pub in_datagram : Option Datagram → Option (Header × Bytes)
in_datagram none = none
in_datagram (some d) = only d.packets

-- What was sent under a number and is kept until it is acknowledged.
abbrev pub sent_at : ℕ → Session → Option (Header × Bytes)
sent_at seq s = in_datagram (map_find seq s.recovery_queue)

abbrev pub header_in : Option (Header × Bytes) → Option Header
header_in none = none
header_in (some (h, b)) = some h

abbrev pub bytes_in : Option (Header × Bytes) → Option Bytes
bytes_in none = none
bytes_in (some (h, b)) = some b

send_seq-send_datagram :
    (d : Datagram) (now : ℕ) (s : Session) → (send_datagram d now s).send_seq ≡ s.send_seq
unfolding send_datagram send_bytes emit
send_seq-send_datagram d now s =
    if_both (λ (t : Session). t.send_seq ≡ s.send_seq) s.cached_dst_ok refl refl

mtu_free_number :
    (packet : EncapsulatedPacket) (i : ℕ) (part : EncapsulatedPacket) (s : Session)
    → (header_and_bytes (number_part packet i part s).0 ≡ header_and_bytes part)
      × ((number_part packet i part s).1.send_seq ≡ s.send_seq)
      × ((number_part packet i part s).1.recovery_queue ≡ s.recovery_queue)
unfolding number_part
mtu_free_number packet i part s =
    if_both Same (i == 0) (refl, refl, refl)
      (if_both Same (has_message_index packet.reliability) (refl, refl, refl) (refl, refl, refl))
  where
    Same : EncapsulatedPacket × Session → Type 0
    Same r =
        (header_and_bytes r.0 ≡ header_and_bytes part)
        × (r.1.send_seq ≡ s.send_seq)
        × (r.1.recovery_queue ≡ s.recovery_queue)

in_datagram-if :
    (b : Bool) (x y : Option Datagram)
    → in_datagram (if b then x else y) ≡ (if b then in_datagram x else in_datagram y)
in_datagram-if true x y = refl
in_datagram-if false x y = refl

pub header_in-if :
    (b : Bool) (x y : Option (Header × Bytes))
    → header_in (if b then x else y) ≡ (if b then header_in x else header_in y)
header_in-if true x y = refl
header_in-if false x y = refl

sent-add_to_queue :
    (j now : ℕ) (part : EncapsulatedPacket) (s : Session)
    → sent_at j (add_to_queue part true now s)
      ≡ (if s.send_seq == j then some (header_and_bytes part) else sent_at j s)
unfolding add_to_queue
sent-add_to_queue j now part s =
    ap in_datagram (find-send_datagram j _ now (next_seq s))
    ∙ in_datagram-if (s.send_seq == j) _ (map_find j s.recovery_queue)

send_seq-add_to_queue :
    (now : ℕ) (part : EncapsulatedPacket) (s : Session)
    → (add_to_queue part true now s).send_seq ≡ (s.send_seq + 1) % 2 ^ 32
unfolding add_to_queue
send_seq-add_to_queue now part s = send_seq-send_datagram _ now (next_seq s)

module _ (packet : EncapsulatedPacket) (chunk count sid now : ℕ) where
  -- Part `i`, as it is sent.
  abbrev pub part_at : ℕ → Header × Bytes
  part_at i = ((true, some count, some sid, some i), take chunk (drop (i * chunk) packet.buffer))

  split_part-part_at : (i : ℕ) → header_and_bytes (split_part packet chunk count sid i) ≡ part_at i
  unfolding split_part
  split_part-part_at i =
      if_both (λ p. header_and_bytes p ≡ part_at i) (packet.reliability == 3) refl refl

  -- The session after part `i`.
  abbrev one_sent : ℕ → Session → Session
  one_sent i s =
      let r = number_part packet i (split_part packet chunk count sid i) s in
      add_to_queue r.0 true now r.1

  one_sent-sent :
      (i j : ℕ) (s : Session)
      → sent_at j (one_sent i s) ≡ (if s.send_seq == j then some (part_at i) else sent_at j s)
  one_sent-sent i j s =
      let part = split_part packet chunk count sid i in
      let r = number_part packet i part s in
      let (h, seq, queue) = mtu_free_number packet i part s in
      sent-add_to_queue j now r.0 r.1
      ∙ ap (λ n. if n == j then some (header_and_bytes r.0) else sent_at j r.1) seq
      ∙ ap (λ v. if s.send_seq == j then some v else sent_at j r.1) (h ∙ split_part-part_at i)
      ∙ ap (λ q. if s.send_seq == j then some (part_at i) else in_datagram (map_find j q)) queue

  one_sent-seq :
      (i : ℕ) (s : Session) → s.send_seq + 1 < 2 ^ 32 → (one_sent i s).send_seq ≡ s.send_seq + 1
  one_sent-seq i s h =
      let part = split_part packet chunk count sid i in
      let r = number_part packet i part s in
      send_seq-add_to_queue now r.0 r.1
      ∙ ap (λ n. (n + 1) % 2 ^ 32) (mtu_free_number packet i part s).1
      ∙ omega arith

  pub send_parts-seq :
      (rounds i : ℕ) (s : Session)
      → s.send_seq + rounds < 2 ^ 32
      → (send_parts rounds i packet chunk count sid now s).send_seq ≡ s.send_seq + rounds
  unfolding send_parts
  send_parts-seq zero i s h = omega arith
  send_parts-seq (suc rounds) i s h =
      let seq = one_sent-seq i s (omega arith) in
      send_parts-seq rounds (i + 1) (one_sent i s) (omega (arith, seq)) ∙ omega (arith, seq)

  -- The parts from `i` on have the numbers from the next one on.
  pub send_parts-sent :
      (rounds i j : ℕ) (s : Session)
      → s.send_seq + rounds < 2 ^ 32
      → sent_at j (send_parts rounds i packet chunk count sid now s) ≡ (
          if leb s.send_seq j && ltb j (s.send_seq + rounds)
          then some (part_at (i + (j - s.send_seq)))
          else sent_at j s)
  unfolding send_parts
  send_parts-sent zero i j s h =
      let none_sent : (leb s.send_seq j && ltb j (s.send_seq + 0)) ≡ false = ground arith in
      rw none_sent refl
  send_parts-sent (suc rounds) i j s h =
      let seq = one_sent-seq i s (omega arith) in
      let t = one_sent i s in
      send_parts-sent rounds (i + 1) j t (omega (arith, seq))
      ∙ ap
          (λ n.
            if leb n j && ltb j (n + rounds) then some (part_at (i + 1 + (j - n))) else sent_at j t)
          seq
      ∙ ap
          (λ o.
            if leb (s.send_seq + 1) j && ltb j (s.send_seq + 1 + rounds)
            then some (part_at (i + 1 + (j - (s.send_seq + 1))))
            else o)
          (one_sent-sent i j s)
      ∙ merged (sent_at j s)
    where
      merged :
          (o : Option (Header × Bytes))
          → (if leb (s.send_seq + 1) j && ltb j (s.send_seq + 1 + rounds)
              then some (part_at (i + 1 + (j - (s.send_seq + 1))))
              else (if s.send_seq == j then some (part_at i) else o))
            ≡ (if leb s.send_seq j && ltb j (s.send_seq + suc rounds)
                then some (part_at (i + (j - s.send_seq)))
                else o)
      merged o = elim (Bool-cases (s.send_seq == j)) [
        | inl e ↦
            let before : (leb (s.send_seq + 1) j && ltb j (s.send_seq + 1 + rounds)) ≡ false =
              ground arith in
            let here : (leb s.send_seq j && ltb j (s.send_seq + suc rounds)) ≡ true =
              ground arith in
            let same : i ≡ i + (j - s.send_seq) = ground arith in
            rw (before, here, e) (ap (λ k. some (part_at k)) same)
        | inr e ↦ elim (Bool-cases (leb s.send_seq j && ltb j (s.send_seq + suc rounds))) [
          | inl f ↦
              let later : (leb (s.send_seq + 1) j && ltb j (s.send_seq + 1 + rounds)) ≡ true =
                ground arith in
              let same : i + 1 + (j - (s.send_seq + 1)) ≡ i + (j - s.send_seq) = ground arith in
              rw (later, f) (ap (λ k. some (part_at k)) same)
          | inr f ↦
              let out : (leb (s.send_seq + 1) j && ltb j (s.send_seq + 1 + rounds)) ≡ false =
                ground arith in
              rw (out, f, e) refl
        ]
      ]
