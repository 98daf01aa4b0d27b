-- ===== src/Raklib/Session/Update.antt =====
-- `update` of src/raklib/Session.cpp: the timeout, and what is sent on every tick.
use mpmpescore_cpp.Prelude.{
  ℕ, zero, suc, ◌+◌, Bool, false, not, ◌&&◌, List, [], ◌∷◌, ◌++◌, ltb, if◌then◌else◌,
}
use mpmpescore_cpp.Prelude.Int.{ltℤ, to_i32}
use mpmpescore_cpp.Raklib.Datagram.{Datagram}
use mpmpescore_cpp.Raklib.Session.{Session, recovery_resend_delay, timeout_delay}
use mpmpescore_cpp.Raklib.Session.Send.{send_datagram, next_seq, flush_acks, flush_send_queue}
use mpmpescore_cpp.Raklib.Session.Receive.{disconnect}

-- The loop that sends from `packet_to_send`, at most `limit` datagrams: the list is that queue.
unfoldable pub drain : ℕ → List Datagram → ℕ → Session → Session
drain zero queue now s = s
drain (suc limit) [] now s = s
drain (suc limit) (d ∷ queue) now s =
    drain limit queue now (send_datagram d now (record s { packet_to_send = queue }))

-- `send_time < now - kRecoveryResendDelay`.
abbrev pub is_overdue : ℕ → Datagram → Bool
is_overdue now d = ltb (d.send_time + recovery_resend_delay) now

unfoldable pub reschedule_one : Datagram → Session → Session
reschedule_one d s = record (next_seq s) {
  packet_to_send = s.packet_to_send ++ (record d { seq_number = s.send_seq } ∷ []);
}

-- The loop over `recovery_queue`: what is overdue gets a new number and is queued, the rest is kept.
unfoldable pub reschedule : List (ℕ × Datagram) → ℕ → Session → List (ℕ × Datagram) × Session
reschedule [] now s = ([], s)
reschedule ((seq, d) ∷ queue) now s =
    let (kept, s') = reschedule queue now (if is_overdue now d then reschedule_one d s else s) in
    (if is_overdue now d then kept else (seq, d) ∷ kept, s')

unfoldable pub reschedule_overdue : ℕ → Session → Session
reschedule_overdue now s =
    let (kept, s') = reschedule s.recovery_queue now s in record s' { recovery_queue = kept }

-- The loop that forgets the received numbers below the window, up to the first that is not.
unfoldable pub forget_received : List ℕ → Session → List ℕ
forget_received [] s = []
forget_received (seq ∷ seqs) s =
    let rest = forget_received seqs s in
    if ltℤ (to_i32 seq) s.window_start then rest else seq ∷ seqs

unfoldable pub trim_received : Session → Session
trim_received s = record s { received_window = forget_received s.received_window s }

unfoldable pub is_timed_out : ℕ → Session → Bool
is_timed_out now s =
    not s.active && (ltb 0 s.last_update && ltb (s.last_update + timeout_delay) now)

-- The loop from `packet_to_send`.
unfoldable pub drain_queue : ℕ → Session → Session
drain_queue now s = drain 64 s.packet_to_send now s

-- What a tick sends before it forgets what was received.
unfoldable pub send_due : ℕ → Session → Session
send_due now s = drain_queue now (reschedule_overdue now (drain_queue now (flush_acks s)))

-- What `update` does when the session has not timed out.
unfoldable pub run_tick : ℕ → Session → Session
run_tick now s = flush_send_queue now (trim_received (send_due now (record s { active = false })))

unfoldable pub update : ℕ → Session → Session
update now s = if is_timed_out now s then disconnect "timeout" s else run_tick now s
