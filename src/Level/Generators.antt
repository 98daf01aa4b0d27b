-- ===== src/Level/Generators.antt =====
-- The generators of src/level/Chunk.cpp. A float is a parameter with its operations; integers do not
-- overflow, except in the 32-bit hash and in a seed, which wrap around.
pub mod Noise
pub mod Overworld
pub mod Nether
pub mod End
pub mod Columns
pub mod Flat
use mpmpescore_cpp.Prelude.{
  ℕ, zero, suc, ◌+◌, ◌-◌, ◌*◌, ◌/◌, ◌%◌, ◌^◌, ◌<◌, ◌≤◌, ◌≡◌, refl, sym, ap, ◌∙◌, subst, ◌≢◌, true,
  false, Bool, not, ◌&&◌, ◌||◌, arith, ltb, leb, ◌==◌, if◌then◌else◌, length, get_or, set,
  get_or-set, length-set, List, [], ◌∷◌, ◌++◌, Option, none, some, ◌>>=◌, take, drop, map,
  Bool-cases, if_both, if_cases, inl, inr, length-replicate, replicate, All, get_or-replicate,
  All-replicate, length-append, take-length-append, drop-length-append, append_assoc, append-nil,
  bytes_eq, bytes_eq_refl, length-take, length-drop, value_or, is_empty, min, max,
}
use mpmpescore_cpp.Prelude.Int.{
  ℤ, pos, negsuc, pos_part, neg_part, ltℤ, leℤ, eqℤ, ◌+ℤ◌, ◌-ℤ◌, to_i32,
}
use mpmpescore_cpp.Prelude.Bits.{bit_and, bit_or, bit_xor}
use mpmpescore_cpp.Binary.{Bytes, read_lint, write_lint, write_int, read_int}
use mpmpescore_cpp.Level.Chunk.{
  Chunk, block_index, outside, outside_column, id_at, meta_at, height_at, put_height, put_block,
  write_block, update_height, top_below, set_block, get_block_id, get_block_meta, chunk_height,
  get_nibble, new_chunk, set_biome, set_height, blocks_size, nibble_size, map_size, set_nibble,
  column_index, recompute_column, recompute_height_map, over_x, over_columns, set_generated,
  clear_dirty,
}
use mpmpescore_cpp.Level.Chunk.Nibbles.{
  IsBytes, get_nibble-set_nibble, set_nibble-IsBytes, length-set_nibble,
}
use mpmpescore_cpp.Level.Chunk.Cells.{
  IsSized, Inside, id_at-put_block, update_height-ids, same_place, place-Inside, cells, put_cell,
  same_position, cells-set_block,
}
use mpmpescore_cpp.Level.Chunk.Heights.{
  IsHeight, column_of, top_below-IsHeight, raised-IsHeight, kept-IsHeight, cleared-IsHeight,
  same-IsHeight,
}
use mpmpescore_cpp.Level.Chunk.HeightMap.{
  HasHeight, HasHeights, height_at-put_height, put_height-HasHeight, put_block-HasHeights, written,
}

-- static_cast<std::uint32_t> of an integer.
abbrev pub to_u32 : ℤ → ℕ
to_u32 (pos n) = n % 2 ^ 32
to_u32 (negsuc n) = 2 ^ 32 - 1 - n % 2 ^ 32

unfoldable pub hash2 : ℤ → ℤ → ℤ → ℕ
hash2 x z seed =
    let h = bit_xor (to_u32 seed) (to_u32 x * 374761393 % 2 ^ 32) in
    let g = bit_xor h (to_u32 z * 668265263 % 2 ^ 32) in
    let m = bit_xor g (g / 2 ^ 13) * 1274126177 % 2 ^ 32 in bit_xor m (m / 2 ^ 16)

abbrev pub block_bedrock : ℕ
block_bedrock = 7

abbrev pub block_dirt : ℕ
block_dirt = 3

abbrev pub block_grass : ℕ
block_grass = 2

-- The loop from `from` up: `n` blocks of a column.
unfoldable pub fill : ℕ → ℕ → (ℕ → ℕ) → ℕ → ℕ → Chunk → Chunk
unfolding set_block
fill x z layer from zero c = c
fill x z layer from (suc n) c =
    set_block (pos x) (pos (from + n)) (pos z) (layer (from + n)) 0 (fill x z layer from n c)

-- One column of the flat world.
unfoldable pub flat_column : ℕ → ℕ → ℕ → Chunk → Chunk
unfolding set_biome set_block set_height
flat_column biome x z c =
    let px = pos x in
    let pz = pos z in
    set_height px pz 4 (
      set_block px (pos 3) pz block_grass 0 (
        set_block px (pos 2) pz block_dirt 0 (
          set_block px (pos 1) pz block_dirt 0
            (set_block px (pos 0) pz block_bedrock 0 (set_biome px pz biome 0x8DB360 c)))))

unfoldable pub generate_flat_chunk : ℤ → ℤ → ℕ → Chunk
unfolding new_chunk over_columns flat_column
generate_flat_chunk x z biome = set_generated (over_columns (flat_column biome) 16 (new_chunk x z))

unfoldable pub void_column : ℕ → ℕ → Chunk → Chunk
unfolding set_biome
void_column x z c = set_biome (pos x) (pos z) 1 0x8DB360 c

unfoldable pub generate_void_chunk : ℤ → ℤ → Chunk
unfolding new_chunk over_columns void_column
generate_void_chunk x z = set_generated (over_columns void_column 16 (new_chunk x z))
