-- ===== src/Level/Generators/Overworld/Sound.antt =====
-- The overworld of src/level/Chunk.cpp is sound, whatever the arithmetic of floats gives.
use mpmpescore_cpp.Prelude.{
  ℕ, zero, suc, ◌+◌, ◌-◌, ◌%◌, ◌<◌, ◌≤◌, ◌≡◌, ap, ◌∙◌, subst, ◌≢◌, true, false, not, ◌&&◌, ◌||◌,
  arith, ltb, leb, ◌==◌, if◌then◌else◌, List, [], ◌∷◌, Option, none, some, Bool-cases, if_both, inl,
  inr, range_from, max,
}
use mpmpescore_cpp.Prelude.Int.{ℤ, pos, eqℤ, ◌+ℤ◌}
use mpmpescore_cpp.Level.Chunk.{
  Chunk, outside_column, set_block, get_block_id, new_chunk, set_biome, set_height, over_columns,
}
use mathlib.Core.Path.{fun_ext}
use mpmpescore_cpp.Level.Chunk.Sound.{IsSound, set_generated-IsSound, set_block-IsSound}
use mpmpescore_cpp.Level.Generators.{fill, hash2}
use mpmpescore_cpp.Level.Generators.Columns.{column_step, over_columns_lem}
use mpmpescore_cpp.Level.Generators.Noise.{Floats, world}
use mpmpescore_cpp.Level.Generators.Overworld.{
  raw_height, plant, is_far, sea, clamp, normal_layer, each, surface_below, trunk, offsets, leaf,
  leaf_layer, leaves, grow, tree, trees, normal_height, is_forest, normal_column,
  generate_normal_stub_chunk,
}

each-keeps {ℓ} :
    {A : Type ℓ} (P : Chunk → Type 0) (list : List A) (f : A → Chunk → Chunk) (c : Chunk)
    → ((a : A) (d : Chunk) → P d → P (f a d))
    → P c
    → P (each list f c)
unfolding each
each-keeps P [] f c k h = h
each-keeps P (a ∷ list) f c k h = each-keeps P list f (f a c) k (k a c h)

trunk-IsSound : (x z : ℤ) (surface n : ℕ) (c : Chunk) → IsSound c → IsSound (trunk x z surface n c)
unfolding trunk
trunk-IsSound x z surface zero c h = h
trunk-IsSound x z surface (suc n) c h =
    set_block-IsSound x (pos (surface + suc n)) z 17 0 (trunk x z surface n c)
      (trunk-IsSound x z surface n c h) (omega arith)

leaf-IsSound :
    (x z : ℤ) (th top ly r : ℕ) (dz dx : ℤ) (c : Chunk)
    → IsSound c
    → IsSound (leaf x z th top ly r dz dx c)
unfolding leaf
leaf-IsSound x z th top ly r dz dx c h =
    if_both IsSound (eqℤ dx (pos 0) && eqℤ dz (pos 0) && leb ly top) h (
      if_both IsSound (is_far r dx && is_far r dz && th % 2 == 1) h (
        if_both IsSound (outside_column (x +ℤ dx) (z +ℤ dz)) h (
          if_both IsSound (get_block_id (x +ℤ dx) (pos ly) (z +ℤ dz) c == 0)
            (set_block-IsSound (x +ℤ dx) (pos ly) (z +ℤ dz) 18 0 c h (omega arith)) h)))

leaf_layer-IsSound :
    (x z : ℤ) (th top ly : ℕ) (c : Chunk) → IsSound c → IsSound (leaf_layer x z th top ly c)
unfolding leaf_layer
leaf_layer-IsSound x z th top ly c h =
    let r : ℕ = (if leb top ly then 1 else 2) in
    each-keeps IsSound (offsets r) (λ dz. each (offsets r) (leaf x z th top ly r dz)) c
      (λ dz d k.
        each-keeps IsSound (offsets r) (leaf x z th top ly r dz) d
          (λ dx e l. leaf-IsSound x z th top ly r dz dx e l) k)
      h

leaves-IsSound : (x z : ℤ) (th top : ℕ) (c : Chunk) → IsSound c → IsSound (leaves x z th top c)
unfolding leaves
leaves-IsSound x z th top c h =
    each-keeps IsSound ((top - 2) ∷ (top - 1) ∷ top ∷ (top + 1) ∷ []) (leaf_layer x z th top) c
      (λ ly d k. leaf_layer-IsSound x z th top ly d k) h

plant-IsSound :
    (x z : ℤ) (th : ℕ) (o : Option ℕ) (c : Chunk) → IsSound c → IsSound (plant x z th o c)
unfolding plant grow
plant-IsSound x z th none c h = h
plant-IsSound x z th (some surface) c h =
    if_both IsSound (ltb surface 8 || ltb 100 surface) h (
      leaves-IsSound x z th (surface + (4 + th % 3)) _ (trunk-IsSound x z surface (4 + th % 3) c h))

tree-IsSound :
    (chunk_x chunk_z seed : ℤ) (x z : ℕ) (c : Chunk)
    → IsSound c
    → IsSound (tree chunk_x chunk_z seed x z c)
unfolding tree
tree-IsSound chunk_x chunk_z seed x z c h =
    let th = hash2 (world chunk_x x) (world chunk_z z) (seed +ℤ pos 42) in
    if_both IsSound (not (th % 55 == 0)) h
      (plant-IsSound (pos x) (pos z) th (surface_below (pos x) (pos z) 120 c) c h)

trees-IsSound :
    (chunk_x chunk_z seed : ℤ) (c : Chunk) → IsSound c → IsSound (trees chunk_x chunk_z seed c)
unfolding trees
trees-IsSound chunk_x chunk_z seed c h =
    let places = range_from 2 12 in
    each-keeps IsSound places (λ z. each places (λ x. tree chunk_x chunk_z seed x z)) c
      (λ z d k.
        each-keeps IsSound places (λ x. tree chunk_x chunk_z seed x z) d
          (λ x e l. tree-IsSound chunk_x chunk_z seed x z e l) k)
      h

-- Two loops over adjoining blocks are one.
fill-fill :
    (x z : ℕ) (layer : ℕ → ℕ) (m n : ℕ) (c : Chunk)
    → fill x z layer m n (fill x z layer 0 m c) ≡ fill x z layer 0 (m + n) c
unfolding fill
fill-fill x z layer m zero c =
    let same : m ≡ m + 0 = omega arith in ap (λ k. fill x z layer 0 k c) same
fill-fill x z layer m (suc n) c =
    let same : suc (m + n) ≡ m + suc n = omega arith in
    let start : m + n ≡ 0 + (m + n) = omega arith in
    ap (λ d. set_block (pos x) (pos (m + n)) (pos z) (layer (m + n)) 0 d)
      (fill-fill x z layer m n c)
    ∙ ap (λ k. set_block (pos x) (pos k) (pos z) (layer k) 0 (fill x z layer 0 (m + n) c)) start
    ∙ ap (λ k. fill x z layer 0 k c) same

clamp-bounds : (a : ℤ) → (8 ≤ clamp 8 120 a) × (clamp 8 120 a ≤ 120)
clamp-bounds a = ground arith

normal_layer-ground :
    (wx wz seed : ℤ) (height : ℕ) → 8 ≤ height → normal_layer wx wz seed height height ≢ 0
unfolding normal_layer
normal_layer-ground wx wz seed height h =
    let dry : ltb height height ≡ false = ground arith in
    let high : (height == 0) ≡ false = ground arith in
    let top : ltb height (height - 4) ≡ false = ground arith in
    rw (dry, high, top)
      (if_both (λ v. v ≢ 0) (leb height sea && ltb height 64) (λ e. omega arith) (λ e. omega arith))

normal_layer-sea :
    (wx wz seed : ℤ) (height : ℕ) → height < sea → normal_layer wx wz seed height sea ≢ 0
unfolding normal_layer
normal_layer-sea wx wz seed height h =
    let wet : ltb height sea ≡ true = ground arith in rw wet (λ e. omega arith)

normal_layer-top :
    (wx wz seed : ℤ) (height : ℕ) → 8 ≤ height → normal_layer wx wz seed height (max height sea) ≢ 0
normal_layer-top wx wz seed height h = elim (Bool-cases (ltb height sea)) [
  | inl e ↦
      let below : height < sea = ground arith in
      let top : sea ≡ max height sea = omega arith in
      subst (λ y. normal_layer wx wz seed height y ≢ 0) top
        (normal_layer-sea wx wz seed height below)
  | inr e ↦
      let above : sea ≤ height = ground arith in
      let top : height ≡ max height sea = omega arith in
      subst (λ y. normal_layer wx wz seed height y ≢ 0) top
        (normal_layer-ground wx wz seed height h)
]

module _ {F : Type 0} (fl : Floats F) (chunk_x chunk_z seed : ℤ) where
  abbrev height_of : ℕ → ℕ → ℕ
  height_of x z = normal_height fl (world chunk_x x) (world chunk_z z) seed

  height-bounds : (x z : ℕ) → (8 ≤ height_of x z) × (height_of x z ≤ 120)
  unfolding normal_height
  height-bounds x z = clamp-bounds (raw_height fl (world chunk_x x) (world chunk_z z) seed)

  -- The loops of a column as one, up to the ground or the sea.
  normal_column-column_step :
      normal_column fl chunk_x chunk_z seed
      ≡ column_step
          (λ x z. if is_forest fl (world chunk_x x) (world chunk_z z) seed then 4 else 1)
          (λ x z.
            if is_forest fl (world chunk_x x) (world chunk_z z) seed then 0x056621 else 0x8DB360)
          (λ x z. max (height_of x z) sea)
          (λ x z. normal_layer (world chunk_x x) (world chunk_z z) seed (height_of x z))
  unfolding normal_column
  normal_column-column_step = fun_ext (λ x. fun_ext (λ z. fun_ext (λ c.
      let height = height_of x z in
      let layer = normal_layer (world chunk_x x) (world chunk_z z) seed height in
      let forest = is_forest fl (world chunk_x x) (world chunk_z z) seed in
      let b =
        set_biome (pos x) (pos z) (if forest then 4 else 1) (if forest then 0x056621 else 0x8DB360)
          c in
      let total : height + 1 + (sea - height) ≡ suc (max height sea) = omega arith in
      let top : max height sea + 1 ≡ suc (max height sea) = omega arith in
      ap
        (λ h.
          set_height (pos x) (pos z) h
            (fill x z layer (height + 1) (sea - height) (fill x z layer 0 (height + 1) b)))
        top
      ∙ ap (set_height (pos x) (pos z) (suc (max height sea)))
          (fill-fill x z layer (height + 1) (sea - height) b)
      ∙ ap (λ n. set_height (pos x) (pos z) (suc (max height sea)) (fill x z layer 0 n b)) total)))

  abbrev normal_columns : Chunk
  normal_columns =
      over_columns (normal_column fl chunk_x chunk_z seed) 16 (new_chunk chunk_x chunk_z)

  normal_columns-IsSound : IsSound normal_columns
  normal_columns-IsSound =
      (over_columns_lem
        (λ x z. if is_forest fl (world chunk_x x) (world chunk_z z) seed then 4 else 1)
        (λ x z.
          if is_forest fl (world chunk_x x) (world chunk_z z) seed then 0x056621 else 0x8DB360)
        (λ x z. max (height_of x z) sea)
        (λ x z. normal_layer (world chunk_x x) (world chunk_z z) seed (height_of x z))
        (λ x z. omega (arith, (height-bounds x z).1))
        (λ x z.
          normal_layer-top (world chunk_x x) (world chunk_z z) seed (height_of x z)
            (height-bounds x z).0)
        (normal_column fl chunk_x chunk_z seed) chunk_x chunk_z normal_column-column_step).0

  -- A chunk of the overworld, with its ores, water and trees, has its vectors at their sizes and in
  -- its height map, for each of the 256 columns, one more than the height of its highest block,
  -- whatever the arithmetic of floats makes of the noise.
  pub generate_normal_stub_chunk-IsSound :
      IsSound (generate_normal_stub_chunk fl chunk_x chunk_z seed)
  unfolding generate_normal_stub_chunk
  generate_normal_stub_chunk-IsSound =
      set_generated-IsSound (trees chunk_x chunk_z seed normal_columns)
        (trees-IsSound chunk_x chunk_z seed normal_columns normal_columns-IsSound)
