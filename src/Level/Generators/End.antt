-- ===== src/Level/Generators/End.antt =====
-- The end of src/level/Chunk.cpp: islands of end stone, with a platform for the spawn.
pub mod Platform
use mpmpescore_cpp.Prelude.{
  ℕ, zero, suc, ◌+◌, ◌*◌, ◌/◌, Bool, ◌&&◌, leb, if◌then◌else◌, Option, none, some,
}
use mpmpescore_cpp.Prelude.Int.{ℤ, pos, pos_part, neg_part, sub_ℕ, ltℤ, leℤ, ◌+ℤ◌, ◌-ℤ◌}
use mpmpescore_cpp.Level.Chunk.{
  Chunk, set_block, new_chunk, set_biome, set_height, over_columns, set_generated,
}
use mpmpescore_cpp.Level.Generators.{fill}
use mpmpescore_cpp.Level.Generators.Noise.{Floats, world, noise_at}
use mpmpescore_cpp.Level.Generators.Nether.{dist2}

abbrev pub end_stone : ℕ
end_stone = 121

-- a / 2, toward zero.
abbrev pub half : ℤ → ℤ
half a = sub_ℕ (pos_part a / 2) (neg_part a / 2)

-- The loop of `y` over `n` blocks from `base`, with the highest block that is set: those from 0 on
-- and below `limit`.
unfoldable pub slab : ℕ → ℕ → ℤ → ℕ → ℕ → Chunk → Chunk × Option ℕ
unfolding set_block
slab x z base limit zero c = (c, none)
slab x z base limit (suc n) c =
    let before = slab x z base limit n c in
    let y = base +ℤ pos n in
    if leℤ (pos 0) y && ltℤ y (pos limit)
    then (set_block (pos x) (pos (pos_part y)) (pos z) end_stone 0 before.0, some (pos_part y))
    else before

abbrev pub is_near : ℤ → Bool
is_near a = leb (pos_part a + neg_part a) 8

-- The platform around the spawn, and the air above it.
unfoldable pub platform : Bool → ℕ → ℕ → Chunk × Option ℕ → Chunk × Option ℕ
unfolding fill
platform near x z (c, top) =
    if near then (fill x z (λ y. 0) 65 16 (fill x z (λ y. end_stone) 60 5 c), some 64) else (c, top)

-- solid ? top + 1 : 0.
unfoldable pub height_over : Option ℕ → ℕ
height_over none = 0
height_over (some top) = top + 1

module _ {F : Type 0} (fl : Floats F) where
  -- The island in the middle, thicker near its center.
  unfoldable pub main_island : F → F → ℕ → ℕ → Chunk → Chunk × Option ℕ
  unfolding slab
  main_island dist island x z c =
      let edge = fl.sub (fl.lit 1 1) (fl.div dist (fl.lit 48 1)) in
      let thick =
        pos 8 +ℤ fl.trunc (fl.add (fl.mul edge (fl.lit 16 1)) (fl.mul island (fl.lit 6 1))) in
      slab x z (pos 56 -ℤ half thick) 128 (pos_part thick) c

  -- An island around it.
  unfoldable pub outer_island : ℤ → ℤ → ℤ → F → ℕ → ℕ → Chunk → Chunk × Option ℕ
  unfolding noise_at slab
  outer_island wx wz seed island x z c =
      let thick = pos 3 +ℤ fl.trunc (fl.mul (fl.sub island (fl.lit 68 100)) (fl.lit 20 1)) in
      let rise = noise_at fl (fl.lit 2 100) wx wz (seed +ℤ pos 9) 2 in
      let base = pos 48 +ℤ fl.trunc (fl.mul rise (fl.lit 30 1)) in
      slab x z base 120 (pos_part thick) c

  unfoldable pub choose_island : ℤ → ℤ → ℤ → F → F → ℕ → ℕ → Chunk → Chunk × Option ℕ
  unfolding main_island outer_island
  choose_island wx wz seed dist island x z c =
      if fl.lt dist (fl.lit 48 1)
      then main_island dist island x z c
      else (if fl.lt (fl.lit 68 100) island && fl.lt dist (fl.lit 220 1)
          then outer_island wx wz seed island x z c
          else (c, none))

  unfoldable pub end_islands : ℤ → ℤ → ℤ → ℕ → ℕ → Chunk → Chunk × Option ℕ
  unfolding noise_at choose_island
  end_islands wx wz seed x z c =
      choose_island wx wz seed (fl.sqrt (fl.of_int (pos (dist2 wx wz))))
        (noise_at fl (fl.lit 5 100) wx wz (seed +ℤ pos 3) 4) x z c

  unfoldable pub end_column : ℤ → ℤ → ℤ → ℕ → ℕ → Chunk → Chunk
  unfolding set_biome set_height end_islands platform height_over
  end_column chunk_x chunk_z seed x z c =
      let wx = world chunk_x x in
      let wz = world chunk_z z in
      let (d, top) =
        platform (is_near wx && is_near wz) x z
          (end_islands wx wz seed x z (set_biome (pos x) (pos z) 9 0xd6d6a8 c)) in
      set_height (pos x) (pos z) (height_over top) d

  unfoldable pub generate_end_chunk : ℤ → ℤ → ℤ → Chunk
  unfolding new_chunk over_columns end_column
  generate_end_chunk chunk_x chunk_z seed =
      set_generated (over_columns (end_column chunk_x chunk_z seed) 16 (new_chunk chunk_x chunk_z))
