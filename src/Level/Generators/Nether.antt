-- ===== src/Level/Generators/Nether.antt =====
-- The nether of src/level/Chunk.cpp: caves between two layers of bedrock.
pub mod Bedrock
pub mod Caves
use mpmpescore_cpp.Prelude.{
  ℕ, zero, suc, ◌+◌, ◌-◌, ◌*◌, ◌%◌, Bool, not, ◌&&◌, ◌||◌, ltb, leb, ◌==◌, if◌then◌else◌, Option,
  none, some, min,
}
use mpmpescore_cpp.Prelude.Int.{ℤ, pos, pos_part, neg_part, ltℤ, ◌+ℤ◌, ◌-ℤ◌}
use mpmpescore_cpp.Level.Chunk.{
  Chunk, set_block, new_chunk, set_biome, set_height, over_columns, set_generated,
}
use mpmpescore_cpp.Level.Generators.{hash2, block_bedrock}
use mpmpescore_cpp.Level.Generators.Noise.{Floats, scale, world, fbm2d, noise_at}
use mpmpescore_cpp.Level.Generators.Overworld.{clamp}

abbrev pub ceil_y : ℕ
ceil_y = 127

abbrev pub lava_y : ℕ
lava_y = 31

abbrev pub square : ℤ → ℕ
square a = (pos_part a + neg_part a) * (pos_part a + neg_part a)

-- wx * wx + wz * wz.
abbrev pub dist2 : ℤ → ℤ → ℕ
dist2 wx wz = square wx + square wz

-- The island around the spawn.
unfoldable pub on_spawn_island : ℤ → ℤ → Bool
on_spawn_island wx wz = leb (dist2 wx wz) 400

-- The surface of the island at a distance from its middle.
unfoldable pub island_surface : ℤ → ℕ
island_surface dist =
    let top = pos 72 -ℤ scale 3 (dist -ℤ pos 16) in
    if ltℤ (pos 16) dist
    then (if ltℤ top (pos (lava_y + 2)) then lava_y + 2 else pos_part top)
    else 72

-- The ceiling above a floor.
unfoldable pub ceiling_over : Bool → ℕ → ℕ → ℕ
ceiling_over island floor_h ceil_h =
    let raised = (if ltb ceil_h (floor_h + 24) then floor_h + 24 else ceil_h) in
    if island
    then (if ltb (ceil_y - 2) raised then ceil_y - 2 else raised)
    else (if leb ceil_h (floor_h + 8) then min (ceil_y - 2) (floor_h + 16) else ceil_h)

-- The block at `y` between the layers of bedrock, if one is set.
unfoldable pub nether_block : ℤ → ℤ → ℤ → Bool → ℕ → ℕ → ℕ → Option ℕ
unfolding hash2
nether_block wx wz seed island floor_h ceil_h y =
    let nh = hash2 (wx +ℤ pos (y * 3)) (wz -ℤ pos (y * 7)) (seed +ℤ pos 5) in
    if leb y floor_h || leb ceil_h y
    then (if ltb 4 y && ltb y floor_h && nh % 40 == 0
        then some 13
        else (if (y == floor_h || y == ceil_h) && nh % 90 == 0 then some 89 else some 87))
    else (if leb y lava_y && not island then some 10 else none)

unfoldable pub put_option : ℕ → ℕ → ℕ → Option ℕ → Chunk → Chunk
unfolding set_block
put_option x y z none c = c
put_option x y z (some id) c = set_block (pos x) (pos y) (pos z) id 0 c

-- The loop of `y` from 1: `n` blocks.
unfoldable pub nether_rock : (ℕ → Option ℕ) → ℕ → ℕ → ℕ → Chunk → Chunk
unfolding put_option
nether_rock block x z zero c = c
nether_rock block x z (suc n) c = put_option x (suc n) z (block (suc n)) (nether_rock block x z n c)

-- The loop of `dy`: `n` blocks of glowstone downward from `gy`, above the lava.
unfoldable pub glowstone : ℕ → ℕ → ℕ → ℕ → Chunk → Chunk
unfolding set_block
glowstone x z gy zero c = c
glowstone x z gy (suc n) c =
    let above = glowstone x z gy n c in
    if ltb lava_y (gy - n) then set_block (pos x) (pos (gy - n)) (pos z) 89 0 above else above

-- The glowstone that hangs under the ceiling, for some hashes.
unfoldable pub glowstone_under : ℕ → ℕ → ℕ → ℕ → Chunk → Chunk
unfolding glowstone
glowstone_under x z gh ceil_h c =
    if gh % 70 == 0 && ltb (lava_y + 10) ceil_h then glowstone x z (ceil_h - 1 - gh % 4) 3 c else c

module _ {F : Type 0} (fl : Floats F) where
  -- The floor before it is clamped, away from the island.
  unfoldable pub raw_floor : ℤ → ℤ → ℤ → ℤ
  unfolding noise_at
  raw_floor wx wz seed =
      let floor_n = noise_at fl (fl.lit 4 100) wx wz seed 4 in
      pos 18 +ℤ fl.trunc (fl.mul floor_n (fl.lit 40 1))

  unfoldable pub nether_floor : ℤ → ℤ → ℤ → ℕ
  unfolding on_spawn_island island_surface raw_floor
  nether_floor wx wz seed =
      let dist = fl.trunc (fl.sqrt (fl.of_int (pos (dist2 wx wz)))) in
      if on_spawn_island wx wz then island_surface dist else clamp 4 64 (raw_floor wx wz seed)

  -- The ceiling before it is clamped.
  unfoldable pub raw_ceiling : ℤ → ℤ → ℤ → ℤ
  unfolding fbm2d
  raw_ceiling wx wz seed =
      let along : ℤ → F = λ w. fl.add (fl.mul (fl.of_int w) (fl.lit 3 100)) (fl.lit 50 1) in
      let ceil_n = fbm2d fl (along wx) (along wz) (seed +ℤ pos 11) 3 in
      pos (ceil_y - 4) -ℤ fl.trunc (fl.mul ceil_n (fl.lit 20 1))

  unfoldable pub nether_ceiling : ℤ → ℤ → ℤ → ℕ
  unfolding on_spawn_island ceiling_over nether_floor raw_ceiling
  nether_ceiling wx wz seed =
      ceiling_over (on_spawn_island wx wz) (nether_floor wx wz seed)
        (clamp 100 (ceil_y - 2) (raw_ceiling wx wz seed))

  unfoldable pub nether_column : ℤ → ℤ → ℤ → ℕ → ℕ → Chunk → Chunk
  unfolding set_biome set_block set_height nether_floor nether_ceiling nether_rock nether_block
      glowstone_under hash2 on_spawn_island
  nether_column chunk_x chunk_z seed x z c =
      let wx = world chunk_x x in
      let wz = world chunk_z z in
      let floor_h = nether_floor wx wz seed in
      let ceil_h = nether_ceiling wx wz seed in
      let block = nether_block wx wz seed (on_spawn_island wx wz) floor_h ceil_h in
      set_height (pos x) (pos z) (floor_h + 1) (
        glowstone_under x z (hash2 wx wz (seed +ℤ pos 88)) ceil_h (
          nether_rock block x z (ceil_y - 1) (
            set_block (pos x) (pos ceil_y) (pos z) block_bedrock 0 (
              set_block (pos x) (pos 0) (pos z) block_bedrock 0
                (set_biome (pos x) (pos z) 8 0xbf3b3b c)))))

  unfoldable pub generate_nether_chunk : ℤ → ℤ → ℤ → Chunk
  unfolding new_chunk over_columns nether_column
  generate_nether_chunk chunk_x chunk_z seed =
      set_generated
        (over_columns (nether_column chunk_x chunk_z seed) 16 (new_chunk chunk_x chunk_z))
