-- ===== src/Level/Generators/Overworld.antt =====
-- The overworld of src/level/Chunk.cpp: hills with ores, water and trees.
pub mod Sound
use mpmpescore_cpp.Prelude.{
  ℕ, zero, suc, ◌+◌, ◌-◌, ◌*◌, ◌%◌, Bool, not, ◌&&◌, ◌||◌, ltb, leb, ◌==◌, if◌then◌else◌, List, [],
  ◌∷◌, Option, none, some, range_from, max,
}
use mpmpescore_cpp.Prelude.Int.{ℤ, pos, negsuc, pos_part, neg_part, ltℤ, eqℤ, ◌+ℤ◌}
use mpmpescore_cpp.Level.Chunk.{
  Chunk, outside_column, set_block, get_block_id, new_chunk, set_biome, set_height, over_columns,
  set_generated,
}
use mpmpescore_cpp.Level.Generators.{fill, hash2, block_bedrock, block_dirt, block_grass}
use mpmpescore_cpp.Level.Generators.Noise.{Floats, scale, world, noise_at}

abbrev pub sea : ℕ
sea = 62

abbrev pub clamp : ℕ → ℕ → ℤ → ℕ
clamp low high a = if ltℤ a (pos low) then low else (if ltℤ (pos high) a then high else pos_part a)

-- A block of stone, or an ore or gravel for some hashes.
unfoldable pub stone_or_ore : ℤ → ℤ → ℤ → ℕ → ℕ
unfolding hash2
stone_or_ore wx wz seed y =
    let oh = hash2 (scale 31 wx +ℤ pos y) (scale 17 wz +ℤ pos (y * 3)) (seed +ℤ pos 3) in
    if ltb y 16 && oh % 48 == 0
    then 56
    else (if ltb y 32 && oh % 24 == 0
        then 14
        else (if ltb y 64 && oh % 12 == 0
            then 15
            else (if oh % 8 == 0 then 16 else (if oh % 40 == 1 then 13 else 1))))

-- The block at `y` in a column whose ground is at `height`, with water above it up to the sea.
unfoldable pub normal_layer : ℤ → ℤ → ℤ → ℕ → ℕ → ℕ
unfolding stone_or_ore
normal_layer wx wz seed height y =
    if ltb height y
    then 8
    else (if y == 0
        then block_bedrock
        else (if ltb y (height - 4)
            then stone_or_ore wx wz seed y
            else (if ltb y height
                then block_dirt
                else (if leb height sea && ltb height 64 then 12 else block_grass))))

-- A loop over a list.
unfoldable pub each {ℓ} : {A : Type ℓ} → List A → (A → Chunk → Chunk) → Chunk → Chunk
each [] f c = c
each (a ∷ rest) f c = each rest f (f a c)

-- The scan for the grass on which a tree stands, from `y` down; leaves and logs are passed.
unfoldable pub surface_below : ℤ → ℤ → ℕ → Chunk → Option ℕ
unfolding get_block_id
surface_below x z zero c = none
surface_below x z (suc y) c =
    let rest = surface_below x z y c in
    let id = get_block_id x (pos (suc y)) z c in
    if id == block_grass
    then some (suc y)
    else (if not (id == 0) && not (id == 18) && not (id == 17) then none else rest)

-- The loop of `ty` from 1: `n` logs above the surface.
unfoldable pub trunk : ℤ → ℤ → ℕ → ℕ → Chunk → Chunk
unfolding set_block
trunk x z surface zero c = c
trunk x z surface (suc n) c = set_block x (pos (surface + suc n)) z 17 0 (trunk x z surface n c)

-- The integers from -r to r.
abbrev pub offsets : ℕ → List ℤ
offsets r =
    if r == 1
    then negsuc 0 ∷ pos 0 ∷ pos 1 ∷ []
    else negsuc 1 ∷ negsuc 0 ∷ pos 0 ∷ pos 1 ∷ pos 2 ∷ []

abbrev pub is_far : ℕ → ℤ → Bool
is_far r d = pos_part d + neg_part d == r

-- One leaf, unless it is in the trunk, at a corner, outside the chunk or in a block.
unfoldable pub leaf : ℤ → ℤ → ℕ → ℕ → ℕ → ℕ → ℤ → ℤ → Chunk → Chunk
unfolding set_block get_block_id
leaf x z th top ly r dz dx c =
    let lx = x +ℤ dx in
    let lz = z +ℤ dz in
    if eqℤ dx (pos 0) && eqℤ dz (pos 0) && leb ly top
    then c
    else (if is_far r dx && is_far r dz && th % 2 == 1
        then c
        else (if outside_column lx lz
            then c
            else (if get_block_id lx (pos ly) lz c == 0
                then set_block lx (pos ly) lz 18 0 c
                else c)))

unfoldable pub leaf_layer : ℤ → ℤ → ℕ → ℕ → ℕ → Chunk → Chunk
unfolding each leaf
leaf_layer x z th top ly c =
    let r = (if leb top ly then 1 else 2) in
    each (offsets r) (λ dz. each (offsets r) (leaf x z th top ly r dz)) c

unfoldable pub leaves : ℤ → ℤ → ℕ → ℕ → Chunk → Chunk
unfolding each leaf_layer
leaves x z th top c = each ((top - 2) ∷ (top - 1) ∷ top ∷ (top + 1) ∷ []) (leaf_layer x z th top) c

unfoldable pub grow : ℤ → ℤ → ℕ → ℕ → Chunk → Chunk
unfolding trunk leaves
grow x z th surface c =
    let trunk_h = 4 + th % 3 in leaves x z th (surface + trunk_h) (trunk x z surface trunk_h c)

-- A tree on a surface that is neither too low nor too high.
unfoldable pub plant : ℤ → ℤ → ℕ → Option ℕ → Chunk → Chunk
unfolding grow
plant x z th none c = c
plant x z th (some surface) c =
    if ltb surface 8 || ltb 100 surface then c else grow x z th surface c

-- What happens at one place in the pass for trees.
unfoldable pub tree : ℤ → ℤ → ℤ → ℕ → ℕ → Chunk → Chunk
unfolding hash2 surface_below plant
tree chunk_x chunk_z seed x z c =
    let th = hash2 (world chunk_x x) (world chunk_z z) (seed +ℤ pos 42) in
    if not (th % 55 == 0)
    then c
    else plant (pos x) (pos z) th (surface_below (pos x) (pos z) 120 c) c

unfoldable pub trees : ℤ → ℤ → ℤ → Chunk → Chunk
unfolding each tree
trees chunk_x chunk_z seed c =
    each (range_from 2 12) (λ z. each (range_from 2 12) (λ x. tree chunk_x chunk_z seed x z)) c

module _ {F : Type 0} (fl : Floats F) where
  -- The height before it is clamped.
  unfoldable pub raw_height : ℤ → ℤ → ℤ → ℤ
  unfolding noise_at
  raw_height wx wz seed =
      let n = noise_at fl (fl.lit 2 100) wx wz seed 5 in
      let base = pos 58 +ℤ fl.trunc (fl.mul n (fl.lit 28 1)) in
      let ridge = noise_at fl (fl.lit 8 1000) wx wz (seed +ℤ pos 99) 3 in
      let peak = fl.trunc (fl.mul (fl.sub ridge (fl.lit 72 100)) (fl.lit 40 1)) in
      if fl.lt (fl.lit 72 100) ridge then base +ℤ peak else base

  unfoldable pub normal_height : ℤ → ℤ → ℤ → ℕ
  unfolding raw_height
  normal_height wx wz seed = clamp 8 120 (raw_height wx wz seed)

  unfoldable pub is_forest : ℤ → ℤ → ℤ → Bool
  unfolding noise_at
  is_forest wx wz seed = fl.lt (fl.lit 55 100) (noise_at fl (fl.lit 1 100) wx wz (seed +ℤ pos 7) 2)

  unfoldable pub normal_column : ℤ → ℤ → ℤ → ℕ → ℕ → Chunk → Chunk
  unfolding set_biome set_height fill normal_layer normal_height is_forest
  normal_column chunk_x chunk_z seed x z c =
      let wx = world chunk_x x in
      let wz = world chunk_z z in
      let height = normal_height wx wz seed in
      let forest = is_forest wx wz seed in
      let layer = normal_layer wx wz seed height in
      set_height (pos x) (pos z) (max height sea + 1) (
        fill x z layer (height + 1) (sea - height) (
          fill x z layer 0 (height + 1) (
            set_biome (pos x) (pos z) (if forest then 4 else 1)
              (if forest then 0x056621 else 0x8DB360) c)))

  unfoldable pub generate_normal_stub_chunk : ℤ → ℤ → ℤ → Chunk
  unfolding new_chunk over_columns normal_column trees
  generate_normal_stub_chunk chunk_x chunk_z seed = set_generated (
      trees chunk_x chunk_z seed
        (over_columns (normal_column chunk_x chunk_z seed) 16 (new_chunk chunk_x chunk_z)))
