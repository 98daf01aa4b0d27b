-- ===== src/Item/Slot.antt =====
-- Slots of include/mpmpes/item/Item.hpp, written and read. An int16_t is an integer; `none` is a
-- thrown StreamError.
pub mod Clean
pub mod RoundTrip
pub mod Written
use mpmpescore_cpp.Prelude.{
  ℕ, ◌-◌, ◌^◌, ◌%◌, Bool, ◌&&◌, ◌||◌, Option, some, [], ltb, ◌==◌, if◌then◌else◌, length, is_empty,
  ◌>>=◌,
}
use mpmpescore_cpp.Prelude.Int.{ℤ, pos, negsuc, ltℤ, leℤ, eqℤ}
use mpmpescore_cpp.Binary.{Bytes}
use mpmpescore_cpp.Binary.Stream.{
  BinaryStream, get_signed_short, get_byte, get_short, get_lshort, get, put_short, put_byte,
  put_lshort, put,
}

pub record ItemStack : Type 0 where
  pub id : ℤ
  pub count : ℕ
  pub damage : ℤ
  pub nbt : Bytes

unfoldable pub empty_stack : ItemStack → Bool
empty_stack s = leℤ s.id (pos 0) || (s.count == 0)

abbrev pub air : ItemStack
air = record { id = pos 0; count = 0; damage = pos 0; nbt = [] }

unfoldable pub same_type : ItemStack → ItemStack → Bool
same_type s o = eqℤ s.id o.id && eqℤ s.damage o.damage

unfoldable pub equals_stack : ItemStack → ItemStack → Bool
unfolding same_type
equals_stack s o = same_type s o && s.count == o.count

abbrev pub of : ℤ → ℕ → ℤ → ItemStack
of i c d = record { id = i; count = c; damage = d; nbt = [] }

-- A hopper and a comparator have an item of their own.
abbrev pub item_form : ℤ → ℤ
item_form i =
    let j = (if eqℤ i (pos 154) then pos 410 else i) in if eqℤ j (pos 149) then pos 404 else j

unfoldable pub sanitize_slot : ItemStack → ItemStack
sanitize_slot s =
    if leℤ s.id (pos 0) || (s.count == 0)
    then air
    else (if ltℤ (pos 511) s.id then air else record {
      id = item_form s.id;
      count = if ltb 64 s.count then 64 else s.count;
      damage = if ltℤ s.damage (pos 0) then pos 0 else s.damage;
      nbt = if ltb 1024 (length s.nbt) then [] else s.nbt;
    })

-- The bit pattern of an int16_t, and the int16_t of a pattern.
abbrev pub from_i16 : ℤ → ℕ
from_i16 (pos n) = n
from_i16 (negsuc n) = 2 ^ 16 - n - 1

abbrev pub to_i16 : ℕ → ℤ
to_i16 w = if ltb w (2 ^ 15) then pos w else negsuc (2 ^ 16 - w - 1)

unfoldable pub put_clean : ItemStack → BinaryStream → BinaryStream
unfolding empty_stack put_short put_byte put_lshort put
put_clean s out =
    if empty_stack s
    then put_short 0 out
    else (let o =
          put_lshort (length s.nbt % 2 ^ 16)
            (put_short (from_i16 s.damage) (put_byte s.count (put_short (from_i16 s.id) out))) in
        if is_empty s.nbt then o else put s.nbt o)

unfoldable pub put_slot : ItemStack → BinaryStream → BinaryStream
unfolding put_clean sanitize_slot
put_slot item out = put_clean (sanitize_slot item) out

-- The tag of a slot: an oversized one is read and dropped.
abbrev pub keep_tag : ℕ → Bytes → Bytes
keep_tag len b = if ltb 1024 len then [] else b

unfoldable pub get_nbt : ℕ → BinaryStream → Option (Bytes × BinaryStream)
unfolding get
get_nbt len s =
    if ltb 0 len then (do (b, s') ← get len s; some (keep_tag len b, s')) else some ([], s)

abbrev pub stack : ℤ → ℕ → ℤ → Bytes → ItemStack
stack i c d b = record { id = i; count = c; damage = d; nbt = b }

-- The fields after the identifier.
unfoldable pub get_rest : ℤ → BinaryStream → Option (ItemStack × BinaryStream)
unfolding get_byte get_short get_lshort get_nbt sanitize_slot
get_rest i s = do
  (c, s1) ← get_byte s
  (d, s2) ← get_short s1
  (len, s3) ← get_lshort s2
  (b, s4) ← get_nbt len s3
  some (sanitize_slot (stack i c (to_i16 d) b), s4)

unfoldable pub get_slot : BinaryStream → Option (ItemStack × BinaryStream)
unfolding get_signed_short get_rest
get_slot s = do
  (w, s') ← get_signed_short s
  (if leℤ (to_i16 w) (pos 0) then some (air, s') else get_rest (to_i16 w) s')
