-- ===== src/Binary.antt =====
-- src/binary/BinaryStream.cpp and include/mpmpes/binary/BinaryStream.hpp.
-- A std::string is a list of bytes, each below 256, and `none` is a thrown StreamError. An int16_t,
-- int32_t or int64_t is its bit pattern; fields that are shifted apart are joined by `+` where the
-- source writes `|`. A float or a double is the list of its bytes in memory, in the host's order.
pub mod Tests
pub mod Stream
pub mod Codec
pub mod At
pub mod Fields
use mpmpescore_cpp.Prelude.{
  ℕ, zero, suc, ◌+◌, ◌*◌, ◌/◌, ◌%◌, ◌^◌, Bool, Option, none, some, List, [], ◌∷◌, reverse, ltb,
  if◌then◌else◌, length, get_or, take,
}
use mathlib.Core.List.{foldl}

abbrev pub Bytes : Type 0
Bytes = List ℕ

abbrev byte_at : Bytes → ℕ → ℕ
byte_at s i = get_or s i 0

unfoldable pub reverse_bytes : Bytes → Bytes
reverse_bytes s = reverse s

-- `(v >> 8 * i) & 0xFF`.
abbrev octet : ℕ → ℕ → ℕ
octet v i = v / 256 ^ i % 256

unfoldable pub read_short : Bytes → Option ℕ
read_short s = if ltb (length s) 2 then none else some (byte_at s 0 * 256 + byte_at s 1)

unfoldable pub write_short : ℕ → Bytes
write_short v = octet v 1 ∷ octet v 0 ∷ []

unfoldable pub read_signed_short : Bytes → Option ℕ
unfolding read_short
read_signed_short s = read_short s

unfoldable pub read_lshort : Bytes → Option ℕ
read_lshort s = if ltb (length s) 2 then none else some (byte_at s 0 + byte_at s 1 * 256)

unfoldable pub write_lshort : ℕ → Bytes
write_lshort v = octet v 0 ∷ octet v 1 ∷ []

unfoldable pub read_triad : Bytes → Option ℕ
read_triad s =
    if ltb (length s) 3
    then none
    else some (byte_at s 0 * 256 ^ 2 + byte_at s 1 * 256 + byte_at s 2)

unfoldable pub write_triad : ℕ → Bytes
write_triad v = octet v 2 ∷ octet v 1 ∷ octet v 0 ∷ []

unfoldable pub read_ltriad : Bytes → Option ℕ
read_ltriad s =
    if ltb (length s) 3
    then none
    else some (byte_at s 0 + byte_at s 1 * 256 + byte_at s 2 * 256 ^ 2)

unfoldable pub write_ltriad : ℕ → Bytes
write_ltriad v = octet v 0 ∷ octet v 1 ∷ octet v 2 ∷ []

unfoldable pub read_int : Bytes → Option ℕ
read_int s =
    if ltb (length s) 4
    then none
    else some (byte_at s 0 * 256 ^ 3 + byte_at s 1 * 256 ^ 2 + byte_at s 2 * 256 + byte_at s 3)

unfoldable pub write_int : ℕ → Bytes
write_int v = octet v 3 ∷ octet v 2 ∷ octet v 1 ∷ octet v 0 ∷ []

unfoldable pub read_lint : Bytes → Option ℕ
read_lint s =
    if ltb (length s) 4
    then none
    else some (byte_at s 0 + byte_at s 1 * 256 + byte_at s 2 * 256 ^ 2 + byte_at s 3 * 256 ^ 3)

unfoldable pub write_lint : ℕ → Bytes
write_lint v = octet v 0 ∷ octet v 1 ∷ octet v 2 ∷ octet v 3 ∷ []

-- One round of the loop of readLong: `u = (u << 8) | s[i]` on 64 bits.
abbrev shift_in : ℕ → ℕ → ℕ
shift_in u b = (u * 256 + b) % 2 ^ 64

unfoldable pub read_long : Bytes → Option ℕ
read_long s = if ltb (length s) 8 then none else some (foldl shift_in 0 (take 8 s))

-- The loop of writeLong fills the string from its end.
abbrev write_long_loop : ℕ → ℕ → Bytes → Bytes
write_long_loop zero u o = o
write_long_loop (suc rounds) u o = write_long_loop rounds (u / 256) ((u % 256) ∷ o)

unfoldable pub write_long : ℕ → Bytes
write_long v = write_long_loop 8 v []

unfoldable pub read_llong : Bytes → Option ℕ
unfolding read_long reverse_bytes
read_llong s = read_long (reverse_bytes (take 8 s))

unfoldable pub write_llong : ℕ → Bytes
unfolding write_long reverse_bytes
write_llong v = reverse_bytes (write_long v)

-- The parameter is `host_is_big_endian()`.
unfoldable pub read_float : Bool → Bytes → Option Bytes
unfolding reverse_bytes
read_float big s =
    if ltb (length s) 4 then none else some (if big then take 4 s else reverse_bytes (take 4 s))

unfoldable pub write_float : Bool → Bytes → Bytes
unfolding reverse_bytes
write_float big raw = if big then raw else reverse_bytes raw

unfoldable pub read_lfloat : Bool → Bytes → Option Bytes
unfolding reverse_bytes
read_lfloat big s =
    if ltb (length s) 4 then none else some (if big then reverse_bytes (take 4 s) else take 4 s)

unfoldable pub write_lfloat : Bool → Bytes → Bytes
unfolding reverse_bytes
write_lfloat big raw = if big then reverse_bytes raw else raw
