-- ===== src/Level/Generators/Flat.antt =====
-- The flat world of src/level/Chunk.cpp, block by block.
use mpmpescore_cpp.Prelude.{ℕ, ◌<◌, ◌≡◌, refl, ap, ◌∙◌, arith, ltb, ◌==◌, if◌then◌else◌}
use mpmpescore_cpp.Prelude.Int.{ℤ, pos}
use mpmpescore_cpp.Level.Chunk.{Chunk, new_chunk, over_columns}
use mpmpescore_cpp.Level.Chunk.Cells.{cells}
use mpmpescore_cpp.Level.Chunk.Sound.{IsSound, set_generated-IsSound}
use mpmpescore_cpp.Level.Generators.{
  fill, flat_column, generate_flat_chunk, block_bedrock, block_dirt, block_grass,
}
use mpmpescore_cpp.Level.Generators.Columns.{
  HasBlock, column_step, over_columns_lem, cells-set_generated,
}

-- Bedrock, two layers of dirt and grass, with air above.
abbrev pub layer : ℕ → ℕ
layer y =
    if y == 0
    then block_bedrock
    else (if ltb y 3 then block_dirt else (if y == 3 then block_grass else 0))

layer-above : (y : ℕ) → (if ltb y 4 then layer y else 0) ≡ layer y
layer-above y = ground arith

-- The four blocks that the loop sets are the layers from the bottom.
abbrev flat_step : ℕ → ℕ → ℕ → Chunk → Chunk
flat_step biome = column_step (λ x z. biome) (λ x z. 0x8DB360) (λ x z. 3) (λ x z. layer)

flat_column-flat_step : (biome : ℕ) → flat_column biome ≡ flat_step biome
unfolding flat_column fill
flat_column-flat_step biome = refl

abbrev flat_columns : ℕ → ℤ → ℤ → Chunk
flat_columns biome x z = over_columns (flat_column biome) 16 (new_chunk x z)

flat_columns-layers :
    (x z : ℤ) (biome : ℕ)
    → IsSound (flat_columns biome x z)
      × ((i k y : ℕ)
          → i < 16
          → k < 16
          → y < 128
          → HasBlock (flat_columns biome x z) i y k (layer y))
flat_columns-layers x z biome =
    let (s, h) =
      over_columns_lem (λ x z. biome) (λ x z. 0x8DB360) (λ x z. 3) (λ x z. layer)
        (λ x z. omega arith) (λ x z e. omega arith) (flat_column biome) x z
        (flat_column-flat_step biome) in
    (s, λ i k y p q g. h i k p q y g ∙ ap (λ v. (v, 0)) (layer-above y))

-- The flat world has bedrock, two layers of dirt and one of grass, with metadata 0 and air above, at
-- each position of the chunk, its vectors have their sizes and its height map is right.
pub generate_flat_chunk-layers :
    (x z : ℤ) (biome : ℕ)
    → IsSound (generate_flat_chunk x z biome)
      × ((i k y : ℕ)
          → i < 16
          → k < 16
          → y < 128
          → cells (generate_flat_chunk x z biome) (pos i) (pos y) (pos k) ≡ (layer y, 0))
unfolding generate_flat_chunk
generate_flat_chunk-layers x z biome =
    let (s, h) = flat_columns-layers x z biome in
    (
      set_generated-IsSound (flat_columns biome x z) s,
      λ i k y p q g.
          ap (λ f. f (pos i) (pos y) (pos k)) (cells-set_generated (flat_columns biome x z))
          ∙ h i k y p q g,
    )
