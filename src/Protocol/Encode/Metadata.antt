-- ===== src/Protocol/Encode/Metadata.antt =====
-- The metadata of entities in include/mpmpes/protocol/Packets.hpp.
use mpmpescore_cpp.Prelude.{ℕ, ◌*◌, ◌/◌, ◌%◌, Bool, [], ◌∷◌, ◌++◌, if◌then◌else◌, length, take, min}
use mpmpescore_cpp.Prelude.Bits.{bit_and, bit_or}
use mpmpescore_cpp.Binary.{Bytes}
use mpmpescore_cpp.Protocol.Info.{
  data_air, data_color_info, data_flags, data_nametag, data_no_ai, data_show_nametag,
  data_type_byte, data_type_short, data_type_string,
}

-- The byte before an entry: its type and its key.
abbrev pub meta_key : ℕ → ℕ → ℕ
meta_key kind key = bit_or (kind * 32 % 256) (bit_and key 0x1f)

-- The entries that all have, up to where an encoder adds its own.
abbrev flags_and_air : Bytes
flags_and_air =
    meta_key data_type_byte data_flags
    ∷ 0
    ∷ meta_key data_type_short data_air
    ∷ 300 % 256
    ∷ 300 / 256 % 256
    ∷ []

abbrev nametag_and_ai : Bytes
nametag_and_ai =
    meta_key data_type_byte data_show_nametag ∷ 1 ∷ meta_key data_type_byte data_no_ai ∷ 0 ∷ []

unfoldable pub encode_empty_metadata : Bytes
encode_empty_metadata = flags_and_air ++ nametag_and_ai ++ (0x7f ∷ [])

unfoldable pub encode_sheep_metadata : ℕ → Bool → Bytes
encode_sheep_metadata color sheared =
    let c = bit_and color 0x0f in
    flags_and_air
    ++ nametag_and_ai
    ++ (meta_key data_type_byte data_color_info
        ∷ (if sheared then bit_or c 0x10 else c)
        ∷ 0x7f
        ∷ [])

unfoldable pub encode_player_metadata : Bytes → Bytes
encode_player_metadata nametag =
    let n = min (length nametag) 0xffff in
    flags_and_air
    ++ (meta_key data_type_string data_nametag ∷ (n % 256) ∷ (n / 256 % 256) ∷ [])
    ++ take n nametag
    ++ nametag_and_ai
    ++ (0x7f ∷ [])
