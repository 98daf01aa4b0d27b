-- ===== src/Raklib/Session/Splits/Sent.antt =====
-- What `addEncapsulated` of src/raklib/Session.cpp sends for a packet that is too long.
use native.Mathlib.Nat.{div-eq_of_lt, div-le_of_le-mul}
use mpmpescore_cpp.Prelude.{
  ℕ, zero, suc, ◌+◌, ◌-◌, ◌/◌, ◌%◌, ◌^◌, ◌≤◌, ◌<◌, ◌≡◌, sym, ap, ◌∙◌, Bool, true, ◌&&◌, List, arith,
  some, ltb, leb, ◌==◌, if◌then◌else◌, if_both, length, subst, value_or, get_or, set,
}
use mpmpescore_cpp.Raklib.Encapsulated.{EncapsulatedPacket, total_length}
use mpmpescore_cpp.Raklib.Session.{Session}
use mpmpescore_cpp.Raklib.Session.Send.{
  chunk_size, has_message_index, next_message, add_to_queue, send_parts, assign_indices,
  add_encapsulated,
}
use mpmpescore_cpp.Raklib.Session.Receive.{combine}
use mpmpescore_cpp.Raklib.Session.Splits.{bytes_of, buffer-split_part, combine-split_part}
use mpmpescore_cpp.Raklib.Session.Splits.Parts.{
  part_at, send_parts-seq, send_parts-sent, sent_at, header_in, bytes_in, header_in-if,
}

-- There are at most as many parts as bytes.
parts-bound : (n c : ℕ) → 1 ≤ c → (n + c - 1) / c ≤ n
parts-bound n zero h = absurd (omega arith)
parts-bound zero (suc d) h =
    let first : 0 + suc d - 1 ≡ d = omega arith in
    subst (λ m. m / suc d ≤ 0) (sym first)
      (subst (λ q. q ≤ 0) (sym (div-eq_of_lt {n = d} {m = suc d} (omega arith))) (omega arith))
parts-bound (suc k) (suc d) h = div-le_of_le-mul (suc d) (ground arith)

module _ (now : ℕ) (immediate : Bool) where
  -- What `addEncapsulated` does once the packet has its indices.
  abbrev finish : EncapsulatedPacket × Session → Session
  finish r =
      let chunk = chunk_size r.1.mtu_size in
      let count = (length r.0.buffer + chunk - 1) / chunk in
      let sid = (r.1.split_id_counter + 1) % 2 ^ 16 in
      if ltb r.1.mtu_size (total_length r.0 + 4)
      then send_parts count 0 r.0 chunk count sid now (record (r.1) { split_id_counter = sid })
      else add_to_queue r.0 immediate now r.1

  -- The parts that `after` shows, for a packet that was to be sent from `s` on.
  abbrev Complete :
      List (ℕ × EncapsulatedPacket) → ℕ → EncapsulatedPacket → Session → Session → Type 0
  Complete parts j packet s after =
      ((i : ℕ)
        → i < after.send_seq - s.send_seq
        → bytes_of i parts ≡ bytes_in (sent_at (s.send_seq + i) after))
      → (combine (after.send_seq - s.send_seq) 0 parts ≡ some packet.buffer)
        × (header_in (sent_at (s.send_seq + j) after) ≡ (
            if ltb j (after.send_seq - s.send_seq)
            then some (
              true,
              some (after.send_seq - s.send_seq),
              some ((s.split_id_counter + 1) % 2 ^ 16),
              some j,
            )
            else header_in (sent_at (s.send_seq + j) s)))

  finish-Complete :
      (r : EncapsulatedPacket × Session) (parts : List (ℕ × EncapsulatedPacket)) (j : ℕ)
      → r.1.mtu_size < total_length r.0 + 4
      → r.1.send_seq + length r.0.buffer < 2 ^ 32
      → Complete parts j r.0 r.1 (finish r)
  finish-Complete r parts j long bound =
      let too_long : ltb r.1.mtu_size (total_length r.0 + 4) ≡ true = ground arith in
      subst (Complete parts j r.0 r.1)
        (sym (ap (λ b. if b then after else add_to_queue r.0 immediate now r.1) too_long)) complete
    where
      chunk : ℕ
      chunk = chunk_size r.1.mtu_size

      count : ℕ
      count = (length r.0.buffer + chunk - 1) / chunk

      sid : ℕ
      sid = (r.1.split_id_counter + 1) % 2 ^ 16

      before : Session
      before = record (r.1) { split_id_counter = sid }

      after : Session
      after = send_parts count 0 r.0 chunk count sid now before

      few : r.1.send_seq + count < 2 ^ 32
      few =
          let some_bytes : 1 ≤ chunk_size r.1.mtu_size = unfold chunk_size in ground arith in
          omega (arith, bound, parts-bound (length r.0.buffer) chunk some_bytes)

      sent : after.send_seq - r.1.send_seq ≡ count
      sent = omega (arith, send_parts-seq r.0 chunk count sid now count 0 before few)

      shown :
          (i : ℕ)
          → sent_at (r.1.send_seq + i) after ≡ (
              if ltb i count
              then some (part_at r.0 chunk count sid now i)
              else sent_at (r.1.send_seq + i) r.1)
      shown i =
          let seq = r.1.send_seq in
          let same : (leb seq (seq + i) && ltb (seq + i) (seq + count)) ≡ ltb i count =
            ground arith in
          let index : 0 + (seq + i - seq) ≡ i = omega arith in
          send_parts-sent r.0 chunk count sid now count 0 (seq + i) before few
          ∙ ap
              (λ b.
                if b
                then some (part_at r.0 chunk count sid now (0 + (seq + i - seq)))
                else sent_at (seq + i) r.1)
              same
          ∙ ap
              (λ k.
                if ltb i count
                then some (part_at r.0 chunk count sid now k)
                else sent_at (seq + i) r.1)
              index

      complete : Complete parts j r.0 r.1 after
      complete held = (
        ap (λ n. combine n 0 parts) sent
            ∙ combine-split_part r.0 r.1.mtu_size sid parts (λ i l.
              let there : ltb i count ≡ true = ground arith in
              held i (omega (arith, sent))
              ∙ ap bytes_in (
                  shown i
                  ∙ ap
                      (λ b.
                        if b
                        then some (part_at r.0 chunk count sid now i)
                        else sent_at (r.1.send_seq + i) r.1)
                      there)
              ∙ ap some (sym (buffer-split_part r.0 chunk count sid i))),
        ap header_in (shown j)
            ∙ header_in-if (ltb j count) _ (sent_at (r.1.send_seq + j) r.1)
            ∙ ap
                (λ n.
                  if ltb j n
                  then some (true, some n, some sid, some j)
                  else header_in (sent_at (r.1.send_seq + j) r.1))
                (sym sent),
      )

-- `addEncapsulated` sends a packet that does not fit into a datagram in parts, one to a datagram, under
-- the numbers from the next one on, each marked as a part with its index, with the number of parts that
-- are sent as the count, and with the next split id. A receiver that holds the bytes of each of them
-- puts together the bytes of the packet. The numbers do not wrap around at 2 ^ 32.
pub combine-add_encapsulated :
    (packet : EncapsulatedPacket) (immediate : Bool) (now j : ℕ) (s : Session)
    (parts : List (ℕ × EncapsulatedPacket))
    → s.mtu_size < total_length (assign_indices packet s).0 + 4
    → s.send_seq + length packet.buffer < 2 ^ 32
    → ((i : ℕ)
        → i < (add_encapsulated packet immediate now s).send_seq - s.send_seq
        → bytes_of i parts
          ≡ bytes_in (sent_at (s.send_seq + i) (add_encapsulated packet immediate now s)))
    → (combine ((add_encapsulated packet immediate now s).send_seq - s.send_seq) 0 parts
        ≡ some packet.buffer)
      × (header_in (sent_at (s.send_seq + j) (add_encapsulated packet immediate now s)) ≡ (
          if ltb j ((add_encapsulated packet immediate now s).send_seq - s.send_seq)
          then some (
            true,
            some ((add_encapsulated packet immediate now s).send_seq - s.send_seq),
            some ((s.split_id_counter + 1) % 2 ^ 16),
            some j,
          )
          else header_in (sent_at (s.send_seq + j) s)))
unfolding add_encapsulated assign_indices
combine-add_encapsulated packet immediate now j s parts long bound held =
    if_both Claim (has_message_index packet.reliability)
      (if_both Claim (packet.reliability == 3)
        (λ l. finish-Complete now immediate (ordered, moved) parts j l bound)
        (λ l. finish-Complete now immediate (numbered, next_message s) parts j l bound))
      (λ l. finish-Complete now immediate (packet, s) parts j l bound) long held
  where
    Claim : EncapsulatedPacket × Session → Type 0
    Claim r =
        s.mtu_size < total_length r.0 + 4
        → Complete now immediate parts j packet s (finish now immediate r)

    channel : ℕ
    channel = value_or packet.order_channel 0

    order : ℕ
    order = get_or s.channel_index (channel % 32) 0

    numbered : EncapsulatedPacket
    numbered = record packet { message_index = some s.message_index }

    ordered : EncapsulatedPacket
    ordered = record numbered { order_channel = some channel; order_index = some order }

    moved : Session
    moved = record (next_message s) {
      channel_index = set s.channel_index (channel % 32) ((order + 1) % 2 ^ 32);
    }
