-- ===== src/Raklib/Session/Recovery.antt =====
-- What src/raklib/Session.cpp keeps until it is acknowledged, and the size of its datagrams.
pub mod Wire
use mpmpescore_cpp.Prelude.{
  ℕ, ◌+◌, ◌≤◌, ◌≡◌, refl, ap, ◌∙◌, Bool, true, false, List, [], ◌∷◌, ◌++◌, arith, Option, none,
  some, ltb, ◌==◌, ◌||◌, if◌then◌else◌, if_both, if_cases, elem, is_empty,
}
use mpmpescore_cpp.Prelude.Maps.{map_find, map_erase, map_find-set, map_find-erase}
use mpmpescore_cpp.Binary.{Bytes}
use mpmpescore_cpp.Raklib.Encapsulated.{EncapsulatedPacket, total_length}
use mpmpescore_cpp.Raklib.Datagram.{Datagram, size, lengths}
use mpmpescore_cpp.Raklib.Session.{Session, emit}
use mpmpescore_cpp.Raklib.Session.Send.{
  send_bytes, send_datagram, next_seq, flush_send_queue, push_queue, add_to_queue,
}
use mpmpescore_cpp.Raklib.Session.Raw.{decode_ack, erase_recovered, handle_ack, resend_one}

-- Sending bytes leaves the queues.
recovery-send_bytes : (d : Bytes) (s : Session) → (send_bytes d s).recovery_queue ≡ s.recovery_queue
unfolding send_bytes emit
recovery-send_bytes d s =
    if_both (λ (t : Session). t.recovery_queue ≡ s.recovery_queue) s.cached_dst_ok refl refl

find-erase_recovered :
    (j : ℕ) (seqs : List ℕ) (s : Session)
    → map_find j (erase_recovered seqs s).recovery_queue
      ≡ (if elem j seqs then none else map_find j s.recovery_queue)
unfolding erase_recovered
find-erase_recovered j [] s = refl
find-erase_recovered j (seq ∷ seqs) s =
    find-erase_recovered j seqs (record s { recovery_queue = map_erase seq s.recovery_queue })
    ∙ ap (λ (o : Option Datagram). if elem j seqs then none else o)
        (map_find-erase j seq s.recovery_queue)
    ∙ both (seq == j) (elem j seqs) (map_find j s.recovery_queue)
  where
    both :
        (a b : Bool) (o : Option Datagram)
        → (if b then none else (if a then none else o)) ≡ (if a || b then none else o)
    both true true o = refl
    both true false o = refl
    both false true o = refl
    both false false o = refl

-- An ACK that decodes takes the datagrams it names out of the recovery queue and keeps all others.
pub find-handle_ack :
    (j : ℕ) (buffer : Bytes) (seqs : List ℕ) (s : Session)
    → decode_ack buffer ≡ some seqs
    → map_find j (handle_ack buffer s).recovery_queue
      ≡ (if elem j seqs then none else map_find j s.recovery_queue)
unfolding handle_ack
find-handle_ack j buffer seqs s e =
    ap
      (λ (o : Option (List ℕ)).
        map_find j
          (elim o as (λ _. Session) [
            | none ↦ s
            | some seqs ↦ erase_recovered seqs s
          ]).recovery_queue)
      e
    ∙ find-erase_recovered j seqs s

pub find-send_datagram :
    (j : ℕ) (d : Datagram) (now : ℕ) (s : Session)
    → map_find j (send_datagram d now s).recovery_queue ≡ (
        if d.seq_number == j
        then some (record d { send_time = now })
        else map_find j s.recovery_queue)
unfolding send_datagram
find-send_datagram j d now s =
    ap (map_find j) (recovery-send_bytes _ _) ∙ map_find-set j d.seq_number _ s.recovery_queue

-- A datagram that a NACK names is kept under the next number, with the same packets, and no longer
-- under its own, unless that is the next number; the others stay.
pub find-resend_one :
    (j seq now : ℕ) (d : Datagram) (s : Session)
    → map_find seq s.recovery_queue ≡ some d
    → map_find j (resend_one seq now s).recovery_queue ≡ (
        if s.send_seq == j
        then some (record d { seq_number = s.send_seq; send_time = now })
        else (if seq == j then none else map_find j s.recovery_queue))
unfolding resend_one
find-resend_one j seq now d s e =
    ap
      (λ (o : Option Datagram).
        map_find j
          (elim o as (λ _. Session) [
            | none ↦ s
            | some dgram ↦
                send_datagram (record dgram { seq_number = s.send_seq }) now
                  (record (next_seq s) { recovery_queue = map_erase seq s.recovery_queue })
          ]).recovery_queue)
      e
    ∙ (find-send_datagram j (record d { seq_number = s.send_seq }) now
          (record (next_seq s) { recovery_queue = map_erase seq s.recovery_queue })
        ∙ ap
            (λ (o : Option Datagram).
              if s.send_seq == j
              then some (record d { seq_number = s.send_seq; send_time = now })
              else o)
            (map_find-erase j seq s.recovery_queue))

lengths-append : (ps qs : List EncapsulatedPacket) → lengths (ps ++ qs) ≡ lengths ps + lengths qs
lengths-append [] qs = omega arith
lengths-append (p ∷ ps) qs = omega (arith, lengths-append ps qs)

lengths-only :
    (p : EncapsulatedPacket) (ps : List EncapsulatedPacket)
    → is_empty ps ≡ true
    → lengths (ps ++ (p ∷ [])) ≡ total_length p
lengths-only p [] e = omega arith
lengths-only p (q ∷ ps) e = ground arith

-- After a packet that fits into a datagram is queued, the queue fits into a datagram, whatever it held
-- before.
pub size-add_to_queue :
    (p : EncapsulatedPacket) (now : ℕ) (s : Session)
    → total_length p + 4 ≤ s.mtu_size
    → size (add_to_queue p false now s).send_queue ≤ s.mtu_size
unfolding add_to_queue push_queue flush_send_queue
size-add_to_queue p now s h =
    if_cases
      (λ (t : Session).
        size (record (t.send_queue) { packets = t.send_queue.packets ++ (p ∷ []) }) ≤ s.mtu_size)
      (ltb s.mtu_size (size s.send_queue + total_length p)) (λ _. flushed) (λ e. kept e)
  where
    flushed :
        size (record ((flush_send_queue now s).send_queue) {
          packets = (flush_send_queue now s).send_queue.packets ++ (p ∷ []);
        })
        ≤ s.mtu_size
    flushed =
        if_cases
          (λ (t : Session).
            size (record (t.send_queue) { packets = t.send_queue.packets ++ (p ∷ []) })
            ≤ s.mtu_size)
          (is_empty s.send_queue.packets)
          (λ e. unfold size in omega (arith, h, lengths-only p s.send_queue.packets e))
          (λ _. unfold size in omega (arith, h))

    kept :
        ltb s.mtu_size (size s.send_queue + total_length p) ≡ false
        → size (record (s.send_queue) { packets = s.send_queue.packets ++ (p ∷ []) }) ≤ s.mtu_size
    kept e = unfold size in ground (arith, lengths-append s.send_queue.packets (p ∷ []))
