-- ===== src/Level/Generators/Nether/Bedrock.antt =====
-- The floor, the ceiling and the layers of bedrock of the nether of src/level/Chunk.cpp.
use mpmpescore_cpp.Prelude.{
  ℕ, ◌<◌, ◌≤◌, ◌≡◌, refl, ◌∙◌, true, false, Bool, ◌&&◌, arith, ltb, ◌==◌, Option, none,
}
use mpmpescore_cpp.Prelude.Int.{ℤ, pos, ◌+ℤ◌}
use mpmpescore_cpp.Level.Chunk.{Chunk, set_block, new_chunk, set_biome, over_columns, set_generated}
use mpmpescore_cpp.Level.Chunk.Cells.{IsSized}
use mpmpescore_cpp.Level.Chunk.Sound.{new_chunk-IsSized}
use mpmpescore_cpp.Level.Chunk.Passes.{over_columns-all}
use mpmpescore_cpp.Level.Chunk.Elsewhere.{
  Same, Same-trans, set_block-own, set_block-Same, set_biome-Same, set_height-Same,
  set_generated-Same, set_block-IsSized,
}
use mpmpescore_cpp.Level.Generators.{hash2, block_bedrock}
use mpmpescore_cpp.Level.Generators.Columns.{HasBlock, new_chunk-HasBlock}
use mpmpescore_cpp.Level.Generators.Noise.{Floats, world}
use mpmpescore_cpp.Level.Generators.Nether.{
  ceil_y, on_spawn_island, nether_block, nether_rock, glowstone_under, nether_floor, nether_ceiling,
  nether_column, generate_nether_chunk,
}
use mpmpescore_cpp.Level.Generators.Nether.Caves.{
  nether_floor-bounds, nether_ceiling-bounds, nether_rock-Same, glowstone_under-Same, Unlit,
  nether_block-open,
}

module _ {F : Type 0} (fl : Floats F) (chunk_x chunk_z seed : ℤ) where
  -- A column up to its layers of bedrock.
  abbrev floored : ℕ → ℕ → Chunk → Chunk
  floored x z c =
      set_block (pos x) (pos 0) (pos z) block_bedrock 0 (set_biome (pos x) (pos z) 8 0xbf3b3b c)

  abbrev framed : ℕ → ℕ → Chunk → Chunk
  framed x z c = set_block (pos x) (pos ceil_y) (pos z) block_bedrock 0 (floored x z c)

  abbrev block_of : ℕ → ℕ → ℕ → Option ℕ
  block_of x z =
      let wx = world chunk_x x in
      let wz = world chunk_z z in
      nether_block wx wz seed (on_spawn_island wx wz) (nether_floor fl wx wz seed)
        (nether_ceiling fl wx wz seed)

  column-framed :
      (x z i j k : ℕ) (c : Chunk)
      → ((y : ℕ) → 0 < y → y < 127 → (x == i && y == j && z == k) ≡ true → block_of x z y ≡ none)
      → Unlit x z i j k
      → Same i j k (framed x z c) (nether_column fl chunk_x chunk_z seed x z c)
  unfolding nether_column
  column-framed x z i j k c h g =
      let wx = world chunk_x x in
      let wz = world chunk_z z in
      let b = nether_ceiling-bounds fl wx wz seed in
      let rock = nether_rock (block_of x z) x z 126 (framed x z c) in
      let lit =
        glowstone_under x z (hash2 wx wz (seed +ℤ pos 88)) (nether_ceiling fl wx wz seed) rock in
      Same-trans i j k (framed x z c) rock _
        (nether_rock-Same x z i j k (block_of x z) 126 (framed x z c) (omega arith) h)
        (Same-trans i j k rock lit _ (glowstone_under-Same x z i j k _ _ rock b.0 b.1 g)
          (set_height-Same (pos x) (pos z) _ i j k lit))

  -- The bedrock at the bottom and the top, once the column has had its step, and the air between.
  abbrev Cave : Bool → Chunk → ℕ → ℕ → Type 0
  Cave b c i k =
      (b ≡ true → HasBlock c i 0 k block_bedrock × HasBlock c i 127 k block_bedrock)
      × ((j : ℕ) → 73 ≤ j → j ≤ 93 → HasBlock c i j k 0)

  column-elsewhere :
      (x z i j k : ℕ) (c : Chunk)
      → (x == i && z == k) ≡ false
      → Same i j k c (nether_column fl chunk_x chunk_z seed x z c)
  column-elsewhere x z i j k c e =
      Same-trans i j k c (framed x z c) _
        (Same-trans i j k c (floored x z c) _
          (Same-trans i j k c (set_biome (pos x) (pos z) 8 0xbf3b3b c) _
            (set_biome-Same (pos x) (pos z) 8 0xbf3b3b i j k c)
            (set_block-Same x 0 z block_bedrock i j k _ (ground arith)))
          (set_block-Same x 127 z block_bedrock i j k _ (ground arith)))
        (column-framed x z i j k c (λ y p q t. ground arith) (λ y p q. ground arith))

  column-leaves :
      (b : Bool) (x z i k : ℕ) (c : Chunk)
      → x < 16
      → z < 16
      → i < 16
      → k < 16
      → (x == i && z == k) ≡ false
      → IsSized c
      → Cave b c i k
      → Cave b (nether_column fl chunk_x chunk_z seed x z c) i k
  column-leaves b x z i k c p q r t e s h =
      let same = λ (j : ℕ). (column-elsewhere x z i j k c e s).1 in
      (λ d. (same 0 ∙ (h.0 d).0, same 127 ∙ (h.0 d).1), λ j l m. same j ∙ h.1 j l m)

  column-makes :
      (x z : ℕ) (c : Chunk)
      → x < 16
      → z < 16
      → IsSized c
      → Cave false c x z
      → IsSized (nether_column fl chunk_x chunk_z seed x z c)
        × Cave true (nether_column fl chunk_x chunk_z seed x z c) x z
  column-makes x z c p q s h =
      let wx = world chunk_x x in
      let wz = world chunk_z z in
      let low = nether_floor-bounds fl wx wz seed in
      let high = nether_ceiling-bounds fl wx wz seed in
      let biome = set_biome (pos x) (pos z) 8 0xbf3b3b c in
      let biome_same = λ (j : ℕ). set_biome-Same (pos x) (pos z) 8 0xbf3b3b x j z c s in
      let floored_sized =
        set_block-IsSized (pos x) (pos 0) (pos z) block_bedrock biome (biome_same 0).0 in
      let framed_sized =
        set_block-IsSized (pos x) (pos 127) (pos z) block_bedrock (floored x z c) floored_sized in
      let rim : (j : ℕ)
          → (ltb 0 j && ltb j 127) ≡ false
          → Same x j z (framed x z c) (nether_column fl chunk_x chunk_z seed x z c) =
        λ j e. column-framed x z x j z c (λ y m n t. ground arith) (λ y m n. ground arith) in
      let bottom = rim 0 refl framed_sized in
      (
        bottom.0,
        (
          λ d. (
            bottom.1
                ∙ (set_block-Same x 127 z block_bedrock x 0 z (floored x z c) (ground arith)
                    floored_sized).1
                ∙ set_block-own x 0 z block_bedrock biome p (omega arith) q (biome_same 0).0,
            (rim 127 refl framed_sized).1
                ∙ set_block-own x 127 z block_bedrock (floored x z c) p (omega arith) q
                    floored_sized,
          ),
          λ j l m.
              (column-framed x z x j z c
                (λ y n o t.
                  nether_block-open wx wz seed (on_spawn_island wx wz) _ _ y (ground (arith, low.1))
                    (ground (arith, high.0)) (ground arith))
                (λ y n o. ground arith) framed_sized).1
              ∙ (set_block-Same x 127 z block_bedrock x j z (floored x z c) (ground arith)
                  floored_sized).1
              ∙ (set_block-Same x 0 z block_bedrock x j z biome (ground arith) (biome_same j).0).1
              ∙ (biome_same j).1
              ∙ h.1 j l m,
        ),
      )

  -- Each column of the nether has bedrock at the bottom and at the top, and from 73 to 93, above
  -- every floor and below the glowstone that hangs from the ceiling, it is open air, whatever the
  -- arithmetic of floats makes of the noise. The vectors of the chunk have their sizes.
  pub generate_nether_chunk-Cave :
      IsSized (generate_nether_chunk fl chunk_x chunk_z seed)
      × ((i k : ℕ)
          → i < 16
          → k < 16
          → HasBlock (generate_nether_chunk fl chunk_x chunk_z seed) i 0 k block_bedrock
            × HasBlock (generate_nether_chunk fl chunk_x chunk_z seed) i 127 k block_bedrock
            × ((j : ℕ)
                → 73 ≤ j
                → j ≤ 93
                → HasBlock (generate_nether_chunk fl chunk_x chunk_z seed) i j k 0))
  unfolding generate_nether_chunk
  generate_nether_chunk-Cave =
      let columns =
        over_columns (nether_column fl chunk_x chunk_z seed) 16 (new_chunk chunk_x chunk_z) in
      let (s, h) =
        over_columns-all (nether_column fl chunk_x chunk_z seed) IsSized Cave column-makes
          column-leaves (new_chunk chunk_x chunk_z) (new_chunk-IsSized chunk_x chunk_z)
          (λ i k p q. (
            λ d. absurd (ground arith),
            λ j l m. new_chunk-HasBlock chunk_x chunk_z i j k p (omega arith) q,
          )) in
      let done : (i j k : ℕ) → Same i j k columns (set_generated columns) =
        λ i j k. set_generated-Same i j k columns in
      (
        (done 0 0 0 s).0,
        λ i k p q.
            let (low, high) = (h i k p q).0 refl in
            (
              (done i 0 k s).1 ∙ low,
              (done i 127 k s).1 ∙ high,
              λ j l m. (done i j k s).1 ∙ (h i k p q).1 j l m,
            ),
      )
