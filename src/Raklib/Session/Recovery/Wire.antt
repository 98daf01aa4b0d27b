-- ===== src/Raklib/Session/Recovery/Wire.antt =====
-- An ACK on its way between two sessions: src/raklib/AcknowledgePacket.cpp and src/raklib/Session.cpp.
use mpmpescore_cpp.Prelude.{
  ℕ, ◌≡◌, ◌≤◌, ◌<◌, ◌^◌, ap, ◌∙◌, Bool, true, none, some, if◌then◌else◌, elem, length, All,
}
use mpmpescore_cpp.Prelude.Maps.{map_find}
use mpmpescore_cpp.Raklib.Acknowledge.{AcknowledgePacket, sort, unique, encode, decode}
use mpmpescore_cpp.Raklib.Acknowledge.Runs.{IsAscending}
use mpmpescore_cpp.Raklib.Acknowledge.RoundTrip.{decode-encode_ack}
use mpmpescore_cpp.Raklib.Session.{Session}
use mpmpescore_cpp.Raklib.Session.Raw.{no_ack, decode_ack, handle_ack}
use mpmpescore_cpp.Raklib.Session.Recovery.{find-handle_ack}

-- The ACK that a peer writes for at most 512 distinct numbers below 2 ^ 24, in any order and with
-- repetitions, takes exactly the datagrams with these numbers out of the recovery queue.
pub find-handle_ack-encode :
    (j : ℕ) (p : AcknowledgePacket) (s : Session)
    → All (λ x. x < 2 ^ 24) p.packets
    → length (unique (sort p.packets)) ≤ 512
    → map_find j (handle_ack (encode p) s).recovery_queue
      ≡ (if elem j p.packets then none else map_find j s.recovery_queue)
find-handle_ack-encode j p s below few =
    find-handle_ack j (encode p) (unique (sort p.packets)) s decoded
    ∙ ap (λ b. if b then none else map_find j s.recovery_queue) (trip.2 j)
  where
    trip :
        (decode (encode p) no_ack ≡ (record { id = p.id; packets = unique (sort p.packets) }, true))
        × IsAscending (2 ^ 24) (unique (sort p.packets))
        × ((k : ℕ) → elem k (unique (sort p.packets)) ≡ elem k p.packets)
    trip = decode-encode_ack p no_ack below few

    decoded : decode_ack (encode p) ≡ some (unique (sort p.packets))
    decoded =
        unfold decode_ack in
        ap (λ (r : AcknowledgePacket × Bool). if r.1 then some r.0.packets else none) trip.0
