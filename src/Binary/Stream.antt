-- ===== src/Binary/Stream.antt =====
-- The cursor of src/binary/BinaryStream.cpp. A reader returns the value with the moved cursor. The
-- offset plus a length does not wrap around std::size_t.
use mpmpescore_cpp.Prelude.{
  ℕ, ◌+◌, Bool, not, Option, none, some, [], ◌∷◌, ◌++◌, ltb, leb, ◌==◌, if◌then◌else◌, length,
  get_or, take, drop, ◌>>=◌,
}
use mpmpescore_cpp.Binary.{
  Bytes, read_short, read_signed_short, read_lshort, read_triad, read_ltriad, read_int, read_lint,
  read_long, read_llong, read_float, read_lfloat, reverse_bytes, write_short, write_lshort,
  write_triad, write_ltriad, write_int, write_lint, write_long, write_llong, write_float,
  write_lfloat,
}

pub record BinaryStream : Type 0 where
  pub buffer : Bytes
  pub offset : ℕ

abbrev pub empty : BinaryStream
empty = record { buffer = []; offset = 0 }

unfoldable pub set_buffer : Bytes → ℕ → BinaryStream → BinaryStream
set_buffer b o s = record { buffer = b; offset = o }

unfoldable pub feof : BinaryStream → Bool
feof s = leb (length s.buffer) s.offset

-- `need`: false where it throws.
unfoldable pub need : ℕ → BinaryStream → Bool
need n s = not (ltb (length s.buffer) (s.offset + n))

unfoldable pub get : ℕ → BinaryStream → Option (Bytes × BinaryStream)
unfolding need
get len s =
    if need len s
    then some (take len (drop s.offset s.buffer), record s { offset = s.offset + len })
    else none

unfoldable pub get_remaining : BinaryStream → Bytes × BinaryStream
get_remaining s =
    if leb (length s.buffer) s.offset
    then ([], s)
    else (drop s.offset s.buffer, record s { offset = length s.buffer })

unfoldable pub get_byte : BinaryStream → Option (ℕ × BinaryStream)
unfolding need
get_byte s =
    if need 1 s then some (get_or s.buffer s.offset 0, record s { offset = s.offset + 1 }) else none

unfoldable pub get_bool : BinaryStream → Option (Bool × BinaryStream)
unfolding get_byte
get_bool s = do (b, s') ← get_byte s; some (not (b == 0), s')

-- `Binary::readX(get(n))`.
unfoldable pub get_as {ℓ} :
    {A : Type ℓ} → ℕ → (Bytes → Option A) → BinaryStream → Option (A × BinaryStream)
unfolding get
get_as n read s = do (d, s') ← get n s; v ← read d; some (v, s')

unfoldable pub get_short : BinaryStream → Option (ℕ × BinaryStream)
unfolding get_as
get_short = get_as 2 read_short

unfoldable pub get_signed_short : BinaryStream → Option (ℕ × BinaryStream)
unfolding get_as
get_signed_short = get_as 2 read_signed_short

unfoldable pub get_lshort : BinaryStream → Option (ℕ × BinaryStream)
unfolding get_as
get_lshort = get_as 2 read_lshort

unfoldable pub get_triad : BinaryStream → Option (ℕ × BinaryStream)
unfolding get_as
get_triad = get_as 3 read_triad

unfoldable pub get_ltriad : BinaryStream → Option (ℕ × BinaryStream)
unfolding get_as
get_ltriad = get_as 3 read_ltriad

unfoldable pub get_int : BinaryStream → Option (ℕ × BinaryStream)
unfolding get_as
get_int = get_as 4 read_int

unfoldable pub get_lint : BinaryStream → Option (ℕ × BinaryStream)
unfolding get_as
get_lint = get_as 4 read_lint

unfoldable pub get_long : BinaryStream → Option (ℕ × BinaryStream)
unfolding get_as
get_long = get_as 8 read_long

unfoldable pub get_llong : BinaryStream → Option (ℕ × BinaryStream)
unfolding get_as
get_llong = get_as 8 read_llong

unfoldable pub get_float : Bool → BinaryStream → Option (Bytes × BinaryStream)
unfolding get_as
get_float big = get_as 4 (read_float big)

unfoldable pub get_lfloat : Bool → BinaryStream → Option (Bytes × BinaryStream)
unfolding get_as
get_lfloat big = get_as 4 (read_lfloat big)

unfoldable pub get_double : Bool → BinaryStream → Option (Bytes × BinaryStream)
unfolding get reverse_bytes
get_double big s = do (d, s') ← get 8 s; some (if big then d else reverse_bytes d, s')

unfoldable pub get_ldouble : Bool → BinaryStream → Option (Bytes × BinaryStream)
unfolding get reverse_bytes
get_ldouble big s = do (d, s') ← get 8 s; some (if big then reverse_bytes d else d, s')

unfoldable pub get_string : BinaryStream → Option (Bytes × BinaryStream)
unfolding get get_short
get_string s = do (len, s') ← get_short s; get len s'

unfoldable pub put : Bytes → BinaryStream → BinaryStream
put d s = record s { buffer = s.buffer ++ d }

unfoldable pub put_byte : ℕ → BinaryStream → BinaryStream
put_byte v s = record s { buffer = s.buffer ++ (v ∷ []) }

unfoldable pub put_bool : Bool → BinaryStream → BinaryStream
unfolding put_byte
put_bool v = put_byte (if v then 1 else 0)

unfoldable pub put_short : ℕ → BinaryStream → BinaryStream
unfolding put
put_short v = put (write_short v)

unfoldable pub put_lshort : ℕ → BinaryStream → BinaryStream
unfolding put
put_lshort v = put (write_lshort v)

unfoldable pub put_triad : ℕ → BinaryStream → BinaryStream
unfolding put
put_triad v = put (write_triad v)

unfoldable pub put_ltriad : ℕ → BinaryStream → BinaryStream
unfolding put
put_ltriad v = put (write_ltriad v)

unfoldable pub put_int : ℕ → BinaryStream → BinaryStream
unfolding put
put_int v = put (write_int v)

unfoldable pub put_lint : ℕ → BinaryStream → BinaryStream
unfolding put
put_lint v = put (write_lint v)

unfoldable pub put_long : ℕ → BinaryStream → BinaryStream
unfolding put
put_long v = put (write_long v)

unfoldable pub put_llong : ℕ → BinaryStream → BinaryStream
unfolding put
put_llong v = put (write_llong v)

unfoldable pub put_float : Bool → Bytes → BinaryStream → BinaryStream
unfolding put
put_float big raw = put (write_float big raw)

unfoldable pub put_lfloat : Bool → Bytes → BinaryStream → BinaryStream
unfolding put
put_lfloat big raw = put (write_lfloat big raw)

unfoldable pub put_double : Bool → Bytes → BinaryStream → BinaryStream
unfolding put reverse_bytes
put_double big raw = put (if big then raw else reverse_bytes raw)

unfoldable pub put_ldouble : Bool → Bytes → BinaryStream → BinaryStream
unfolding put reverse_bytes
put_ldouble big raw = put (if big then reverse_bytes raw else raw)

unfoldable pub put_string : Bytes → BinaryStream → Option BinaryStream
unfolding put put_short
put_string str s =
    if ltb 0xFFFF (length str) then none else some (put str (put_short (length str) s))
