-- ===== src/Protocol/Encode/Players.antt =====
-- The player list and the recipes of include/mpmpes/protocol/Packets.hpp.
use mpmpescore_cpp.Prelude.{
  ℕ, ◌%◌, ◌^◌, Bool, Option, List, [], ◌∷◌, ◌++◌, if◌then◌else◌, length, is_empty, map,
}
use mpmpescore_cpp.Binary.{Bytes}
use mpmpescore_cpp.Binary.Stream.{empty}
use mpmpescore_cpp.Binary.Fields.{Field, byte, int, long, str, plain, put_fields}
use mpmpescore_cpp.Protocol.{sent}
use mpmpescore_cpp.Protocol.Info.{player_list_packet}

pub record PlayerListEntry : Type 0 where
  pub uuid : Bytes
  pub eid : ℕ
  pub name : Bytes
  pub skin_name : Bytes
  pub skin_data : Bytes

-- "Standard_Custom".
abbrev standard_custom : Bytes
standard_custom =
    b'S' ∷ b't' ∷ b'a' ∷ b'n' ∷ b'd' ∷ b'a' ∷ b'r' ∷ b'd' ∷ b'_' ∷ b'C' ∷ b'u' ∷ b's' ∷ b't' ∷ b'o'
    ∷ b'm' ∷ []

unfoldable pub entry_fields : List PlayerListEntry → List Field
entry_fields [] = []
entry_fields (e ∷ entries) =
    (plain e.uuid
      ∷ long e.eid
      ∷ str e.name
      ∷ str (if is_empty e.skin_name then standard_custom else e.skin_name)
      ∷ str e.skin_data
      ∷ [])
    ++ entry_fields entries

unfoldable pub encode_player_list_add : Bool → List PlayerListEntry → Option Bytes
unfolding entry_fields
encode_player_list_add big entries = sent (
    put_fields big
      ((byte player_list_packet ∷ byte 0 ∷ int (length entries % 2 ^ 32) ∷ [])
        ++ entry_fields entries)
      empty)

unfoldable pub encode_player_list_remove : Bool → List Bytes → Option Bytes
encode_player_list_remove big uuids = sent (
    put_fields big
      ((byte player_list_packet ∷ byte 1 ∷ int (length uuids % 2 ^ 32) ∷ []) ++ map plain uuids)
      empty)
