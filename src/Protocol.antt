-- ===== src/Protocol.antt =====
-- The packets of the game: include/mpmpes/protocol. An integer of a packet is its bit pattern and a
-- float its bytes in memory; `big` is the host's byte order and `none` a thrown StreamError.
pub mod Info
pub mod Encode
pub mod Decode
pub mod Tests
use mpmpescore_cpp.Prelude.{Option, some, [], ◌∷◌, ◌>>=◌}
use mpmpescore_cpp.Binary.{Bytes}
use mpmpescore_cpp.Binary.Stream.{BinaryStream}

-- `out.buffer()`.
abbrev pub sent : Option BinaryStream → Option Bytes
sent o = do s ← o; some s.buffer

-- 0.f.
abbrev pub zero_float : Bytes
zero_float = 0 ∷ 0 ∷ 0 ∷ 0 ∷ []
