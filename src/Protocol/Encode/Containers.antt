-- ===== src/Protocol/Encode/Containers.antt =====
-- The encoders of include/mpmpes/protocol/Packets.hpp for containers.
use mpmpescore_cpp.Prelude.{ℕ, Bool, Option, [], ◌∷◌}
use mpmpescore_cpp.Binary.{Bytes}
use mpmpescore_cpp.Binary.Stream.{empty}
use mpmpescore_cpp.Binary.Fields.{byte, short, int, long, put_fields}
use mpmpescore_cpp.Protocol.{sent}
use mpmpescore_cpp.Protocol.Info.{
  container_close_packet, container_open_packet, container_set_data_packet,
}

unfoldable pub encode_container_open : Bool → ℕ → ℕ → ℕ → ℕ → ℕ → ℕ → ℕ → Option Bytes
encode_container_open big window_id kind slots x y z entity_id = sent (
    put_fields big
      (byte container_open_packet
        ∷ byte window_id
        ∷ byte kind
        ∷ short slots
        ∷ int x
        ∷ int y
        ∷ int z
        ∷ long entity_id
        ∷ [])
      empty)

unfoldable pub encode_container_set_data : Bool → ℕ → ℕ → ℕ → Option Bytes
encode_container_set_data big window_id property value = sent (
    put_fields big
      (byte container_set_data_packet ∷ byte window_id ∷ short property ∷ short value ∷ []) empty)

unfoldable pub encode_container_close : Bool → ℕ → Option Bytes
encode_container_close big window_id =
    sent (put_fields big (byte container_close_packet ∷ byte window_id ∷ []) empty)
