-- ===== src/Raklib/Session/Sending.antt =====
-- The steps of src/raklib/Session.cpp that only send or resend, and what they leave as it was.
use mpmpescore_cpp.Prelude.{
  ℕ, zero, suc, ◌≡◌, refl, ◌∙◌, List, [], ◌∷◌, Option, none, some, if_both,
}
use mpmpescore_cpp.Binary.{Bytes}
use mpmpescore_cpp.Raklib.Datagram.{Datagram}
use mpmpescore_cpp.Prelude.Maps.{map_find, map_erase}
use mpmpescore_cpp.Raklib.Session.{Session}
use mpmpescore_cpp.Raklib.Session.Send.{flush_acks, send_datagram, next_seq}
use mpmpescore_cpp.Raklib.Session.Raw.{
  decode_ack, erase_recovered, handle_ack, resend_one, resend_all, handle_nack,
}
use mpmpescore_cpp.Raklib.Session.Update.{
  drain, drain_queue, send_due, is_overdue, reschedule_one, reschedule, reschedule_overdue,
}
use mpmpescore_cpp.Raklib.Session.Frame.{kept, Keeps, kept-send_datagram, kept-flush_acks}

kept-erase_recovered : (seqs : List ℕ) → Keeps (erase_recovered seqs)
unfolding erase_recovered
kept-erase_recovered [] s = refl
kept-erase_recovered (seq ∷ seqs) s = kept-erase_recovered seqs _

pub kept-handle_ack : (buffer : Bytes) → Keeps (handle_ack buffer)
unfolding handle_ack
kept-handle_ack buffer s = go (decode_ack buffer)
  where
    go :
        (r : Option (List ℕ))
        → kept (elim r [ none ↦ s | some seqs ↦ erase_recovered seqs s ]) ≡ kept s
    go none = refl
    go (some seqs) = kept-erase_recovered seqs s

kept-resend_one : (seq now : ℕ) → Keeps (resend_one seq now)
unfolding resend_one
kept-resend_one seq now s = go (map_find seq s.recovery_queue)
  where
    go :
        (r : Option Datagram)
        → kept (elim r [
          | none ↦ s
          | some dgram ↦
              send_datagram
                (record dgram { seq_number = s.send_seq })
                now
                (record (next_seq s) { recovery_queue = map_erase seq s.recovery_queue })
        ])
          ≡ kept s
    go none = refl
    go (some dgram) = kept-send_datagram _ now _

kept-resend_all : (seqs : List ℕ) (now : ℕ) → Keeps (resend_all seqs now)
unfolding resend_all
kept-resend_all [] now s = refl
kept-resend_all (seq ∷ seqs) now s = kept-resend_all seqs now _ ∙ kept-resend_one seq now s

pub kept-handle_nack : (buffer : Bytes) (now : ℕ) → Keeps (handle_nack buffer now)
unfolding handle_nack
kept-handle_nack buffer now s = go (decode_ack buffer)
  where
    go :
        (r : Option (List ℕ))
        → kept (elim r [ none ↦ s | some seqs ↦ resend_all seqs now s ]) ≡ kept s
    go none = refl
    go (some seqs) = kept-resend_all seqs now s

kept-drain : (limit : ℕ) (queue : List Datagram) (now : ℕ) → Keeps (drain limit queue now)
unfolding drain
kept-drain zero queue now s = refl
kept-drain (suc limit) [] now s = refl
kept-drain (suc limit) (d ∷ queue) now s = kept-drain limit queue now _ ∙ kept-send_datagram d now _

kept-reschedule :
    (queue : List (ℕ × Datagram)) (now : ℕ) (s : Session) → kept (reschedule queue now s).1 ≡ kept s
unfolding reschedule reschedule_one
kept-reschedule [] now s = refl
kept-reschedule ((seq, d) ∷ queue) now s =
    kept-reschedule queue now _ ∙ if_both (λ t. kept t ≡ kept s) (is_overdue now d) refl refl

kept-reschedule_overdue : (now : ℕ) → Keeps (reschedule_overdue now)
unfolding reschedule_overdue
kept-reschedule_overdue now s = kept-reschedule s.recovery_queue now s

kept-drain_queue : (now : ℕ) → Keeps (drain_queue now)
unfolding drain_queue
kept-drain_queue now s = kept-drain 64 s.packet_to_send now s

pub kept-send_due : (now : ℕ) → Keeps (send_due now)
unfolding send_due
kept-send_due now s =
    kept-drain_queue now (reschedule_overdue now (drain_queue now (flush_acks s)))
    ∙ kept-reschedule_overdue now (drain_queue now (flush_acks s))
    ∙ kept-drain_queue now (flush_acks s)
    ∙ kept-flush_acks s
