-- ===== src/Level/Tests.antt =====
-- Chunks with a few blocks, and their files.
use mpmpescore_cpp.Prelude.{
  ℕ, ◌^◌, ◌<◌, ◌≡◌, refl, sym, subst, arith, some, [], ◌∷◌, ◌++◌, List, All-replicate, All-append,
  length-replicate,
}
use mpmpescore_cpp.Prelude.Int.{ℤ, pos, negsuc, pos_part, ltℤ, ◌+ℤ◌, ◌-ℤ◌}
use mpmpescore_cpp.Prelude.{◌/◌, ◌*◌}
use mpmpescore_cpp.Level.Generators.Noise.{Floats}
use mpmpescore_cpp.Prelude.{◌≤◌, true}
use mpmpescore_cpp.Level.Chunk.Cells.{IsSized}
use mpmpescore_cpp.Level.Generators.{block_bedrock}
use mpmpescore_cpp.Level.Generators.Columns.{HasBlock}
use mpmpescore_cpp.Level.Generators.Nether.{generate_nether_chunk}
use mpmpescore_cpp.Level.Generators.Nether.Bedrock.{generate_nether_chunk-Cave}
use mpmpescore_cpp.Level.Generators.End.{generate_end_chunk}
use mpmpescore_cpp.Level.Generators.End.Platform.{
  is_platform, ground_at, generate_end_chunk-Landing,
}
use mpmpescore_cpp.Level.Generators.Overworld.{generate_normal_stub_chunk}
use mpmpescore_cpp.Level.Generators.Overworld.Sound.{generate_normal_stub_chunk-IsSound}
use mpmpescore_cpp.Prelude.Bits.{bit_and}
use mpmpescore_cpp.Binary.{Bytes, write_lint}
use mpmpescore_cpp.Level.Chunk.{
  Chunk, new_chunk, set_block, recompute_height_map, block_index, set_nibble, map_size, blocks_size,
  nibble_size,
}
use mpmpescore_cpp.Level.Chunk.Nibbles.{IsBytes}
use mpmpescore_cpp.Level.Chunk.Cells.{cells, put_cell, cells-set_block}
use mpmpescore_cpp.Level.Chunk.Sound.{
  IsSound, set_block-IsSound, recompute_height_map-IsSound, new_chunk-IsSound, new_chunk-IsSized,
}
use mpmpescore_cpp.Level.Chunk.Files.{
  magic, save_to_file, load_from_file, loaded, save_colors, from_i32,
}
use mpmpescore_cpp.Level.Chunk.RoundTrip.{
  IsStorable, load_from_file-save_to_file, save_to_file-append, after_magic, after_position,
}
use mpmpescore_cpp.Level.Chunk.Loaded.{load_from_file-IsStorable}
use mpmpescore_cpp.Level.Generators.{generate_flat_chunk}
use mpmpescore_cpp.Level.Generators.Flat.{layer, generate_flat_chunk-layers}

-- Two nibbles in one byte.
set_nibble-pair : set_nibble (set_nibble (0 ∷ []) 1 0x1A) 0 5 ≡ 0xA5 ∷ []
unfolding set_nibble
set_nibble-pair = refl

block_index-last : block_index 15 127 15 ≡ 32767
unfolding block_index
block_index-last = refl

-- The chunk at (2, -1), and a stone in it.
abbrev air_chunk : Chunk
unfolding new_chunk
air_chunk = new_chunk (pos 2) (negsuc 0)

abbrev stone_chunk : Chunk
unfolding set_block air_chunk
stone_chunk = set_block (pos 3) (pos 64) (pos 5) 1 17 air_chunk

cells-set_block_example :
    cells (set_block (pos 3) (pos 64) (pos 5) 1 17 air_chunk)
    ≡ put_cell (pos 3) (pos 64) (pos 5) (1, bit_and 17 0x0f) (cells air_chunk)
unfolding air_chunk
cells-set_block_example =
    cells-set_block (pos 3) (pos 64) (pos 5) 1 17 air_chunk (new_chunk-IsSized (pos 2) (negsuc 0))
      (omega arith)

stone_chunk-IsSound : IsSound stone_chunk
unfolding stone_chunk air_chunk
stone_chunk-IsSound =
    set_block-IsSound (pos 3) (pos 64) (pos 5) 1 17 air_chunk (new_chunk-IsSound (pos 2) (negsuc 0))
      (omega arith)

set_block-IsSound_example : IsSound (set_block (pos 3) (pos 64) (pos 5) 0 0 stone_chunk)
set_block-IsSound_example =
    set_block-IsSound (pos 3) (pos 64) (pos 5) 0 0 stone_chunk stone_chunk-IsSound (omega arith)

recompute_height_map-IsSound_example : IsSound (recompute_height_map stone_chunk)
recompute_height_map-IsSound_example =
    recompute_height_map-IsSound stone_chunk stone_chunk-IsSound.sized

air_chunk-IsStorable : IsStorable air_chunk
unfolding air_chunk new_chunk
air_chunk-IsStorable = record {
  sized = new_chunk-IsSized (pos 2) (negsuc 0);
  x_fits = (omega arith, omega arith);
  z_fits = (omega arith, omega arith);
  colors_length = length-replicate {A = ℕ} map_size 0x018DB360;
  colors_fit = All-replicate (λ v. v < 2 ^ 32) map_size 0x018DB360 (omega arith);
}

load_from_file-save_to_file_example :
    load_from_file (save_to_file air_chunk ++ (7 ∷ []))
    ≡ some (
        loaded air_chunk.x air_chunk.z air_chunk.blocks air_chunk.metas air_chunk.height_map
          air_chunk.biome_colors)
load_from_file-save_to_file_example =
    load_from_file-save_to_file air_chunk (7 ∷ []) air_chunk-IsStorable

write_lint-IsBytes : (v : ℕ) → IsBytes (write_lint v)
unfolding write_lint
write_lint-IsBytes v = (omega arith, (omega arith, (omega arith, (omega arith, tt))))

save_colors-IsBytes : (cs : List ℕ) → IsBytes (save_colors cs)
unfolding save_colors
save_colors-IsBytes [] = tt
save_colors-IsBytes (c ∷ cs) =
    All-append (λ b. b < 256) (write_lint c) (save_colors cs) (write_lint-IsBytes c)
      (save_colors-IsBytes cs)

-- The file of a chunk with more bytes after it.
saved-IsBytes :
    (c : Chunk) (rest : Bytes)
    → IsBytes c.blocks
    → IsBytes c.metas
    → IsBytes c.height_map
    → IsBytes rest
    → IsBytes (save_to_file c ++ rest)
unfolding after_magic after_position
saved-IsBytes c rest b m h r =
    let append = All-append (λ v. v < 256) in
    let colors = save_colors c.biome_colors ++ rest in
    let heights = c.height_map ++ colors in
    let metas = c.metas ++ heights in
    let blocks = c.blocks ++ metas in
    let z = write_lint (from_i32 c.z) ++ blocks in
    let x = write_lint (from_i32 c.x) ++ z in
    subst IsBytes (sym (save_to_file-append c rest)) (
      append magic x (omega arith, (omega arith, (omega arith, (omega arith, tt))))
        (append (write_lint (from_i32 c.x)) z (write_lint-IsBytes (from_i32 c.x)) (
          append (write_lint (from_i32 c.z)) blocks (write_lint-IsBytes (from_i32 c.z)) (
            append c.blocks metas b (
              append c.metas heights m (
                append c.height_map colors h (
                  append (save_colors c.biome_colors) rest (save_colors-IsBytes c.biome_colors)
                    r)))))))

abbrev air_file : Bytes
unfolding save_to_file air_chunk
air_file = save_to_file air_chunk ++ (7 ∷ [])

air_file-IsBytes : IsBytes air_file
unfolding air_file air_chunk new_chunk
air_file-IsBytes =
    let zeros = λ (n : ℕ). All-replicate {A = ℕ} (λ v. v < 256) n 0 (omega arith) in
    saved-IsBytes air_chunk (7 ∷ []) (zeros blocks_size) (zeros nibble_size) (zeros map_size)
      (omega arith, tt)

load_from_file-IsStorable_example :
    IsStorable (
      loaded air_chunk.x air_chunk.z air_chunk.blocks air_chunk.metas air_chunk.height_map
        air_chunk.biome_colors)
    × ((rest : Bytes) × (save_to_file (
              loaded air_chunk.x air_chunk.z air_chunk.blocks air_chunk.metas air_chunk.height_map
                air_chunk.biome_colors)
            ++ rest
          ≡ air_file))
unfolding air_file
load_from_file-IsStorable_example =
    load_from_file-IsStorable air_file
      (loaded air_chunk.x air_chunk.z air_chunk.blocks air_chunk.metas air_chunk.height_map
        air_chunk.biome_colors)
      air_file-IsBytes load_from_file-save_to_file_example

generate_flat_chunk-layers_example :
    IsSound (generate_flat_chunk (pos 2) (negsuc 0) 1)
    × ((i k y : ℕ)
        → i < 16
        → k < 16
        → y < 128
        → cells (generate_flat_chunk (pos 2) (negsuc 0) 1) (pos i) (pos y) (pos k) ≡ (layer y, 0))
generate_flat_chunk-layers_example = generate_flat_chunk-layers (pos 2) (negsuc 0) 1

-- Integers in place of floats: a coarse arithmetic to run the generator on.
abbrev whole_floats : Floats ℤ
whole_floats = record {
  of_int = λ a. a;
  lit = λ n d. pos (n / d);
  add = λ a b. a +ℤ b;
  sub = λ a b. a -ℤ b;
  mul = λ a b. pos (pos_part a * pos_part b);
  div = λ a b. a;
  sqrt = λ a. a;
  lt = ltℤ;
  trunc = λ a. a;
  floor = λ a. a;
}

generate_normal_stub_chunk-IsSound_example :
    IsSound (generate_normal_stub_chunk whole_floats (pos 2) (negsuc 0) (pos 1234))
generate_normal_stub_chunk-IsSound_example =
    generate_normal_stub_chunk-IsSound whole_floats (pos 2) (negsuc 0) (pos 1234)

generate_nether_chunk-Cave_example :
    IsSized (generate_nether_chunk whole_floats (pos 0) (negsuc 0) (pos 1234))
    × ((i k : ℕ)
        → i < 16
        → k < 16
        → HasBlock
            (generate_nether_chunk whole_floats (pos 0) (negsuc 0) (pos 1234))
            i
            0
            k
            block_bedrock
          × HasBlock
              (generate_nether_chunk whole_floats (pos 0) (negsuc 0) (pos 1234))
              i
              127
              k
              block_bedrock
          × ((j : ℕ)
              → 73 ≤ j
              → j ≤ 93
              → HasBlock
                  (generate_nether_chunk whole_floats (pos 0) (negsuc 0) (pos 1234))
                  i
                  j
                  k
                  0))
generate_nether_chunk-Cave_example =
    generate_nether_chunk-Cave whole_floats (pos 0) (negsuc 0) (pos 1234)

-- The chunk at the spawn, with a part of the platform.
generate_end_chunk-Landing_example :
    IsSized (generate_end_chunk whole_floats (pos 0) (negsuc 0) (pos 1234))
    × ((i k : ℕ)
        → i < 16
        → k < 16
        → is_platform (pos 0) (negsuc 0) i k ≡ true
        → (j : ℕ) → 60 ≤ j
        → j ≤ 80
        → HasBlock
            (generate_end_chunk whole_floats (pos 0) (negsuc 0) (pos 1234))
            i
            j
            k
            (ground_at j))
generate_end_chunk-Landing_example =
    generate_end_chunk-Landing whole_floats (pos 0) (negsuc 0) (pos 1234)
