-- ===== src/Level/Chunk.antt =====
-- include/mpmpes/level/Chunk.hpp and the cells of src/level/Chunk.cpp: one column of 16 x 16 x 128
-- blocks. A vector is a list and an element of a vector of bytes is below 256. A coordinate is an
-- integer; after a guard it is its natural part, and the fields of an index, which are shifted
-- apart, are joined by `+` where the source writes `|`.
pub mod Nibbles
pub mod Cells
pub mod Heights
pub mod HeightMap
pub mod Passes
pub mod Sound
pub mod Elsewhere
pub mod Files
pub mod RoundTrip
pub mod Loaded
use mpmpescore_cpp.Prelude.{
  ℕ, zero, suc, ◌+◌, ◌*◌, ◌/◌, ◌%◌, ◌^◌, Bool, true, false, not, ◌&&◌, ◌||◌, List, ltb, leb, ◌==◌,
  if◌then◌else◌, length, get_or, set, replicate,
}
use mpmpescore_cpp.Prelude.Int.{ℤ, pos, pos_part, ltℤ, leℤ}
use mpmpescore_cpp.Prelude.Bits.{bit_and, bit_or}
use mpmpescore_cpp.Binary.{Bytes}

abbrev pub chunk_height : ℕ
chunk_height = 128

abbrev pub blocks_size : ℕ
blocks_size = 32768

abbrev pub nibble_size : ℕ
nibble_size = 16384

abbrev pub map_size : ℕ
map_size = 256

unfoldable pub block_index : ℕ → ℕ → ℕ → ℕ
block_index x y z = x * 2048 + z * 128 + y

abbrev pub column_index : ℕ → ℕ → ℕ
column_index x z = z * 16 + x

-- The new byte at `i`: the upper or the lower half is replaced.
abbrev pub with_nibble : ℕ → ℕ → ℕ → ℕ
with_nibble index nibble old =
    if index % 2 == 1
    then bit_or (bit_and old 0x0f) (nibble * 16)
    else bit_or (bit_and old 0xf0) nibble

abbrev pub nibble_of : ℕ → ℕ → ℕ
nibble_of index byte = if index % 2 == 1 then bit_and (byte / 16) 0x0f else bit_and byte 0x0f

unfoldable pub set_nibble : Bytes → ℕ → ℕ → Bytes
set_nibble arr index nibble =
    if leb (length arr) (index / 2)
    then arr
    else set arr (index / 2) (with_nibble index (bit_and nibble 0x0f) (get_or arr (index / 2) 0))

unfoldable pub get_nibble : Bytes → ℕ → ℕ
get_nibble arr index =
    if leb (length arr) (index / 2) then 0 else nibble_of index (get_or arr (index / 2) 0)

pub record Chunk : Type 0 where
  pub x : ℤ
  pub z : ℤ
  pub generated : Bool
  pub dirty : Bool
  pub blocks : Bytes
  pub metas : Bytes
  pub sky_light : Bytes
  pub block_light : Bytes
  pub height_map : Bytes
  pub biome_colors : List ℕ

unfoldable pub new_chunk : ℤ → ℤ → Chunk
new_chunk x z = record {
  x = x;
  z = z;
  generated = false;
  dirty = false;
  blocks = replicate blocks_size 0;
  metas = replicate nibble_size 0;
  sky_light = replicate nibble_size 0xff;
  block_light = replicate nibble_size 0;
  height_map = replicate map_size 0;
  biome_colors = replicate map_size 0x018DB360;
}

abbrev pub set_generated : Chunk → Chunk
set_generated c = record c { generated = true }

abbrev pub clear_dirty : Chunk → Chunk
clear_dirty c = record c { dirty = false }

-- The guards of the operations on a column, and on a block.
abbrev pub outside_column : ℤ → ℤ → Bool
outside_column x z = ltℤ x (pos 0) || leℤ (pos 16) x || ltℤ z (pos 0) || leℤ (pos 16) z

abbrev pub outside : ℤ → ℤ → ℤ → Bool
outside x y z = outside_column x z || ltℤ y (pos 0) || leℤ (pos chunk_height) y

-- The reads behind the guards.
unfoldable pub id_at : Chunk → ℕ → ℕ → ℕ → ℕ
unfolding block_index
id_at c x y z = get_or c.blocks (block_index x y z) 0

unfoldable pub meta_at : Chunk → ℕ → ℕ → ℕ → ℕ
unfolding block_index get_nibble
meta_at c x y z = get_nibble c.metas (block_index x y z)

abbrev pub height_at : Chunk → ℕ → ℕ → ℕ
height_at c x z = get_or c.height_map (column_index x z) 0

unfoldable pub get_block_id : ℤ → ℤ → ℤ → Chunk → ℕ
unfolding id_at
get_block_id x y z c = if outside x y z then 0 else id_at c (pos_part x) (pos_part y) (pos_part z)

unfoldable pub get_block_meta : ℤ → ℤ → ℤ → Chunk → ℕ
unfolding meta_at
get_block_meta x y z c =
    if outside x y z then 0 else meta_at c (pos_part x) (pos_part y) (pos_part z)

-- The loop from the block at `n - 1` down: one more than the first that is not air.
unfoldable pub top_below : Chunk → ℕ → ℕ → ℕ → ℕ
unfolding id_at
top_below c x z zero = 0
top_below c x z (suc y) = let rest = top_below c x z y in if id_at c x y z == 0 then rest else suc y

abbrev pub put_height : ℕ → ℕ → ℕ → Chunk → Chunk
put_height x z h c = record c { height_map = set c.height_map (column_index x z) h }

-- The writes of a block that differs, behind the guards.
unfoldable pub put_block : ℕ → ℕ → ℕ → ℕ → ℕ → Chunk → Chunk
unfolding block_index set_nibble
put_block x y z id meta c = record c {
  dirty = true;
  blocks = set c.blocks (block_index x y z) id;
  metas = set_nibble c.metas (block_index x y z) meta;
}

-- The height map after the write: raised by a block, scanned again where the top is removed.
unfoldable pub update_height : ℕ → ℕ → ℕ → ℕ → Chunk → Chunk
unfolding top_below
update_height x y z id c =
    if not (id == 0)
    then (if ltb (height_at c x z) (y + 1) then put_height x z (y + 1) c else c)
    else (if height_at c x z == y + 1 then put_height x z (top_below c x z chunk_height) c else c)

-- The write behind the guards.
unfoldable pub write_block : ℕ → ℕ → ℕ → ℕ → ℕ → Chunk → Chunk
unfolding update_height id_at meta_at put_block
write_block x y z id meta c =
    if (id_at c x y z == id) && (meta_at c x y z == bit_and meta 0x0f)
    then c
    else update_height x y z id (put_block x y z id meta c)

unfoldable pub set_block : ℤ → ℤ → ℤ → ℕ → ℕ → Chunk → Chunk
unfolding write_block
set_block x y z id meta c =
    if outside x y z then c else write_block (pos_part x) (pos_part y) (pos_part z) id meta c

-- The loops over z and, inside, over x: both from 0 up.
unfoldable pub over_x : (ℕ → ℕ → Chunk → Chunk) → ℕ → ℕ → Chunk → Chunk
over_x f z zero c = c
over_x f z (suc n) c = f n z (over_x f z n c)

unfoldable pub over_columns : (ℕ → ℕ → Chunk → Chunk) → ℕ → Chunk → Chunk
unfolding over_x
over_columns f zero c = c
over_columns f (suc n) c = over_x f n 16 (over_columns f n c)

unfoldable pub recompute_column : ℕ → ℕ → Chunk → Chunk
unfolding top_below
recompute_column x z c = put_height x z (top_below c x z chunk_height) c

unfoldable pub recompute_height_map : Chunk → Chunk
unfolding recompute_column over_columns
recompute_height_map c = over_columns recompute_column 16 c

unfoldable pub set_biome : ℤ → ℤ → ℕ → ℕ → Chunk → Chunk
set_biome x z biome rgb c = if outside_column x z then c else record c {
  biome_colors =
      set c.biome_colors (column_index (pos_part x) (pos_part z)) (biome * 2 ^ 24 + rgb % 2 ^ 24);
}

unfoldable pub set_height : ℤ → ℤ → ℕ → Chunk → Chunk
set_height x z h c = if outside_column x z then c else put_height (pos_part x) (pos_part z) h c
