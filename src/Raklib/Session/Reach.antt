-- ===== src/Raklib/Session/Reach.antt =====
-- The sessions that the calls of src/raklib/SessionManager.cpp and of the server can lead to.
pub mod Windows
pub mod Connection
pub mod Link
use Prim.Native.String.{String}
use mpmpescore_cpp.Prelude.{ℕ, ◌<◌, Bool, All}
use mpmpescore_cpp.Binary.{Bytes}
use mpmpescore_cpp.Raklib.Encapsulated.{EncapsulatedPacket}
use mpmpescore_cpp.Raklib.Session.{Session, Endpoint, create, set_handlers}
use mpmpescore_cpp.Raklib.Session.Send.{flush_acks, add_encapsulated}
use mpmpescore_cpp.Raklib.Session.Receive.{disconnect}
use mpmpescore_cpp.Raklib.Session.Raw.{handle_raw}
use mpmpescore_cpp.Raklib.Session.Update.{update}

-- One call from outside.
pub data Step : Session → Session → Type 0 where
  received :
      {s : Session} (buffer : Bytes) (now : ℕ)
      → All (λ b. b < 256) buffer
      → Step s (handle_raw buffer now s)
  ticked : {s : Session} (now : ℕ) → Step s (update now s)
  queued :
      {s : Session} (packet : EncapsulatedPacket) (immediate : Bool) (now : ℕ)
      → Step s (add_encapsulated packet immediate now s)
  ended : {s : Session} (reason : String) → Step s (disconnect reason s)
  flushed : {s : Session} → Step s (flush_acks s)
  handled : {s : Session} → Step s (set_handlers s)

-- The sessions that calls lead to.
pub data Reachable : Session → Type 0 where
  created :
      (endpoint : Endpoint) (cached_dst_ok : Bool) (server_id : ℕ)
      → Reachable (create endpoint cached_dst_ok server_id)
  called : {s t : Session} → Reachable s → Step s t → Reachable t
