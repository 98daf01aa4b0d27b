-- ===== src/Protocol/Encode/Nbt.antt =====
-- The little-endian tags of include/mpmpes/protocol/Packets.hpp, and the tags of blocks.
use mpmpescore_cpp.Prelude.{
  ℕ, ◌+◌, ◌%◌, ◌^◌, Bool, Option, List, [], ◌∷◌, ◌++◌, if◌then◌else◌, length,
}
use mpmpescore_cpp.Binary.{Bytes}
use mpmpescore_cpp.Binary.Stream.{empty}
use mpmpescore_cpp.Binary.Fields.{Field, byte, lshort, lint, plain, put_fields}
use mpmpescore_cpp.Protocol.{sent}
use mpmpescore_cpp.Binary.Fields.{lint}

-- `putName`: nothing more is put for an empty name.
abbrev pub name_fields : Bytes → List Field
name_fields name = lshort (length name % 2 ^ 16) ∷ plain name ∷ []

unfoldable pub string_tag : Bytes → Bytes → List Field
string_tag name value =
    (byte 8 ∷ []) ++ name_fields name ++ (lshort (length value % 2 ^ 16) ∷ plain value ∷ [])

unfoldable pub int_tag : Bytes → ℕ → List Field
int_tag name v = (byte 3 ∷ []) ++ name_fields name ++ (lint v ∷ [])

unfoldable pub short_tag : Bytes → ℕ → List Field
short_tag name v = (byte 2 ∷ []) ++ name_fields name ++ (lshort v ∷ [])

unfoldable pub write_root_compound : Bool → List Field → Option Bytes
write_root_compound big children =
    sent (put_fields big ((byte 10 ∷ []) ++ name_fields [] ++ children ++ (byte 0 ∷ [])) empty)

-- "id", and the coordinates' names.
abbrev pub id_name : Bytes
id_name = b'i' ∷ b'd' ∷ []

abbrev pub position_tags : ℕ → ℕ → ℕ → List Field
unfolding int_tag
position_tags x y z = int_tag (b'x' ∷ []) x ++ int_tag (b'y' ∷ []) y ++ int_tag (b'z' ∷ []) z

abbrev furnace_name : Bytes
furnace_name = b'F' ∷ b'u' ∷ b'r' ∷ b'n' ∷ b'a' ∷ b'c' ∷ b'e' ∷ []

abbrev burn_time_name : Bytes
burn_time_name = b'B' ∷ b'u' ∷ b'r' ∷ b'n' ∷ b'T' ∷ b'i' ∷ b'm' ∷ b'e' ∷ []

abbrev cook_time_name : Bytes
cook_time_name = b'C' ∷ b'o' ∷ b'o' ∷ b'k' ∷ b'T' ∷ b'i' ∷ b'm' ∷ b'e' ∷ []

unfoldable pub encode_furnace_spawn_nbt : Bool → ℕ → ℕ → ℕ → ℕ → ℕ → Option Bytes
unfolding write_root_compound string_tag position_tags short_tag
encode_furnace_spawn_nbt big x y z burn_time cook_time = write_root_compound big (
    string_tag id_name furnace_name
    ++ position_tags x y z
    ++ short_tag burn_time_name burn_time
    ++ short_tag cook_time_name cook_time)

abbrev chest_name : Bytes
chest_name = b'C' ∷ b'h' ∷ b'e' ∷ b's' ∷ b't' ∷ []

unfoldable pub encode_chest_spawn_nbt : Bool → ℕ → ℕ → ℕ → Bool → ℕ → ℕ → Option Bytes
unfolding write_root_compound string_tag position_tags int_tag
encode_chest_spawn_nbt big x y z paired pair_x pair_z = write_root_compound big (
    string_tag id_name chest_name
    ++ position_tags x y z
    ++ (if paired
        then int_tag (b'p' ∷ b'a' ∷ b'i' ∷ b'r' ∷ b'x' ∷ []) pair_x
          ++ int_tag (b'p' ∷ b'a' ∷ b'i' ∷ b'r' ∷ b'z' ∷ []) pair_z
        else []))

abbrev hopper_name : Bytes
hopper_name = b'H' ∷ b'o' ∷ b'p' ∷ b'p' ∷ b'e' ∷ b'r' ∷ []

unfoldable pub encode_hopper_spawn_nbt : Bool → ℕ → ℕ → ℕ → Option Bytes
unfolding write_root_compound string_tag position_tags
encode_hopper_spawn_nbt big x y z =
    write_root_compound big (string_tag id_name hopper_name ++ position_tags x y z)

abbrev pub sign_name : Bytes
sign_name = b'S' ∷ b'i' ∷ b'g' ∷ b'n' ∷ []

-- "Text1" to "Text4".
abbrev pub text_name : ℕ → Bytes
text_name n = b'T' ∷ b'e' ∷ b'x' ∷ b't' ∷ (b'0' + n) ∷ []

unfoldable pub encode_sign_spawn_nbt :
    Bool → ℕ → ℕ → ℕ → Bytes → Bytes → Bytes → Bytes → Option Bytes
unfolding write_root_compound string_tag position_tags
encode_sign_spawn_nbt big x y z text1 text2 text3 text4 = write_root_compound big (
    string_tag id_name sign_name
    ++ string_tag (text_name 1) text1
    ++ string_tag (text_name 2) text2
    ++ string_tag (text_name 3) text3
    ++ string_tag (text_name 4) text4
    ++ position_tags x y z)
