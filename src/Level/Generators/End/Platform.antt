-- ===== src/Level/Generators/End/Platform.antt =====
-- The platform for the spawn in the end of src/level/Chunk.cpp.
use mpmpescore_cpp.Prelude.{
  ℕ, zero, suc, ◌+◌, ◌<◌, ◌≤◌, ◌≡◌, refl, sym, ap, ◌∙◌, subst, true, false, Bool, ◌&&◌, arith, ltb,
  leb, ◌==◌, if◌then◌else◌, if_both, Bool-cases, inl, inr, Option,
}
use mpmpescore_cpp.Prelude.Int.{ℤ, pos, pos_part, leℤ, ltℤ, ◌+ℤ◌}
use mpmpescore_cpp.Level.Chunk.{Chunk, set_block, new_chunk, set_biome, over_columns, set_generated}
use mpmpescore_cpp.Level.Chunk.Cells.{IsSized, cells}
use mpmpescore_cpp.Level.Chunk.Sound.{new_chunk-IsSized}
use mpmpescore_cpp.Level.Chunk.Passes.{over_columns-all}
use mpmpescore_cpp.Level.Chunk.Elsewhere.{
  Same, Same-refl, Same-trans, set_block-own, set_block-Same, set_biome-Same, set_height-Same,
  set_generated-Same,
}
use mpmpescore_cpp.Level.Generators.{fill}
use mpmpescore_cpp.Level.Generators.Columns.{HasBlock}
use mpmpescore_cpp.Level.Generators.Noise.{Floats, world, noise_at}
use mpmpescore_cpp.Level.Generators.Nether.{dist2}
use mpmpescore_cpp.Level.Generators.End.{
  end_stone, slab, is_near, platform, height_over, end_islands, end_column, main_island,
  outer_island, choose_island, generate_end_chunk,
}

next_column : (x z : ℕ) → (x == suc x && z == z) ≡ false
next_column x z = ground arith

fill-Same :
    (x z : ℕ) (layer : ℕ → ℕ) (first n i j k : ℕ) (c : Chunk)
    → (x == i && z == k && leb first j && ltb j (first + n)) ≡ false
    → Same i j k c (fill x z layer first n c)
unfolding fill
fill-Same x z layer first zero i j k c e = Same-refl i j k c
fill-Same x z layer first (suc n) i j k c e =
    Same-trans i j k c (fill x z layer first n c) _
      (fill-Same x z layer first n i j k c (ground arith))
      (set_block-Same x (first + n) z (layer (first + n)) i j k _ (ground arith))

fill-IsSized :
    (x z : ℕ) (layer : ℕ → ℕ) (first n : ℕ) (c : Chunk)
    → IsSized c
    → IsSized (fill x z layer first n c)
fill-IsSized x z layer first n c s = (fill-Same x z layer first n (suc x) 0 z c (ground arith) s).0

fill-own :
    (x z : ℕ) (layer : ℕ → ℕ) (first n j : ℕ) (c : Chunk)
    → x < 16
    → z < 16
    → first + n ≤ 128
    → first ≤ j
    → j < first + n
    → IsSized c
    → HasBlock (fill x z layer first n c) x j z (layer j)
unfolding fill
fill-own x z layer first zero j c p q l f g s = absurd (omega arith)
fill-own x z layer first (suc n) j c p q l f g s =
    let below = fill x z layer first n c in
    let sized = fill-IsSized x z layer first n c s in
    elim (Bool-cases (first + n == j)) [
      | inl e ↦
          let top : first + n ≡ j = ground arith in
          subst
            (λ y. HasBlock (set_block (pos x) (pos y) (pos z) (layer y) 0 below) x j z (layer j))
            (sym top) (set_block-own x j z (layer j) below p (omega arith) q sized)
      | inr e ↦
          (set_block-Same x (first + n) z (layer (first + n)) x j z below (ground arith) sized).1
          ∙ fill-own x z layer first n j c p q (omega arith) f (ground arith) s
    ]

slab-Same :
    (x z : ℕ) (base : ℤ) (limit n i j k : ℕ) (c : Chunk)
    → (x == i && z == k) ≡ false
    → Same i j k c (slab x z base limit n c).0
unfolding slab
slab-Same x z base limit zero i j k c e = Same-refl i j k c
slab-Same x z base limit (suc n) i j k c e =
    let before = slab x z base limit n c in
    let y = base +ℤ pos n in
    Same-trans i j k c before.0 _ (slab-Same x z base limit n i j k c e) (
      if_both (λ (r : Chunk × Option ℕ). Same i j k before.0 r.0)
        (leℤ (pos 0) y && ltℤ y (pos limit))
        (set_block-Same x (pos_part y) z end_stone i j k before.0 (ground arith))
        (Same-refl i j k before.0))

platform-Same :
    (near : Bool) (x z i j k : ℕ) (r : Chunk × Option ℕ)
    → (x == i && z == k) ≡ false
    → Same i j k r.0 (platform near x z r).0
unfolding platform
platform-Same near x z i j k (c, top) e =
    if_both (λ (r : Chunk × Option ℕ). Same i j k c r.0) near
      (Same-trans i j k c (fill x z (λ y. end_stone) 60 5 c) _
        (fill-Same x z (λ y. end_stone) 60 5 i j k c (ground arith))
        (fill-Same x z (λ y. 0) 65 16 i j k _ (ground arith)))
      (Same-refl i j k c)

-- End stone from 60 to 64 and air from 65 to 80.
abbrev pub ground_at : ℕ → ℕ
ground_at j = if leb j 64 then end_stone else 0

platform-own :
    (x z j : ℕ) (r : Chunk × Option ℕ)
    → x < 16
    → z < 16
    → 60 ≤ j
    → j ≤ 80
    → IsSized r.0
    → HasBlock (platform true x z r).0 x j z (ground_at j)
unfolding platform
platform-own x z j (c, top) p q l m s =
    let stone = fill x z (λ y. end_stone) 60 5 c in
    let sized = fill-IsSized x z (λ y. end_stone) 60 5 c s in
    elim (Bool-cases (leb j 64)) [
      | inl e ↦
          (fill-Same x z (λ y. 0) 65 16 x j z stone (ground arith) sized).1
          ∙ fill-own x z (λ y. end_stone) 60 5 j c p q (omega arith) l (ground arith) s
          ∙ ap (λ b. (if b then end_stone else 0, 0)) (sym e)
      | inr e ↦
          fill-own x z (λ y. 0) 65 16 j stone p q (omega arith) (ground arith) (omega arith) sized
          ∙ ap (λ b. (if b then end_stone else 0, 0)) (sym e)
    ]

-- The columns of the platform.
abbrev pub is_platform : ℤ → ℤ → ℕ → ℕ → Bool
is_platform chunk_x chunk_z x z = is_near (world chunk_x x) && is_near (world chunk_z z)

module _ {F : Type 0} (fl : Floats F) (chunk_x chunk_z seed : ℤ) where
  main_island-Same :
      (dist island : F) (x z i j k : ℕ) (c : Chunk)
      → (x == i && z == k) ≡ false
      → Same i j k c (main_island fl dist island x z c).0
  unfolding main_island
  main_island-Same dist island x z i j k c e = slab-Same x z _ 128 _ i j k c e

  outer_island-Same :
      (wx wz : ℤ) (island : F) (x z i j k : ℕ) (c : Chunk)
      → (x == i && z == k) ≡ false
      → Same i j k c (outer_island fl wx wz seed island x z c).0
  unfolding outer_island
  outer_island-Same wx wz island x z i j k c e = slab-Same x z _ 120 _ i j k c e

  choose_island-Same :
      (wx wz : ℤ) (dist island : F) (x z i j k : ℕ) (c : Chunk)
      → (x == i && z == k) ≡ false
      → Same i j k c (choose_island fl wx wz seed dist island x z c).0
  unfolding choose_island
  choose_island-Same wx wz dist island x z i j k c e =
      if_both (λ (r : Chunk × Option ℕ). Same i j k c r.0) (fl.lt dist (fl.lit 48 1))
        (main_island-Same dist island x z i j k c e)
        (if_both (λ (r : Chunk × Option ℕ). Same i j k c r.0)
          (fl.lt (fl.lit 68 100) island && fl.lt dist (fl.lit 220 1))
          (outer_island-Same wx wz island x z i j k c e) (Same-refl i j k c))

  islands-Same :
      (wx wz : ℤ) (x z i j k : ℕ) (c : Chunk)
      → (x == i && z == k) ≡ false
      → Same i j k c (end_islands fl wx wz seed x z c).0
  unfolding end_islands
  islands-Same wx wz x z i j k c e =
      choose_island-Same wx wz (fl.sqrt (fl.of_int (pos (dist2 wx wz))))
        (noise_at fl (fl.lit 5 100) wx wz (seed +ℤ pos 3) 4) x z i j k c e

  abbrev islands : ℕ → ℕ → Chunk → Chunk × Option ℕ
  islands x z c =
      end_islands fl (world chunk_x x) (world chunk_z z) seed x z
        (set_biome (pos x) (pos z) 9 0xd6d6a8 c)

  column-elsewhere :
      (x z i j k : ℕ) (c : Chunk)
      → (x == i && z == k) ≡ false
      → Same i j k c (end_column fl chunk_x chunk_z seed x z c)
  unfolding end_column
  column-elsewhere x z i j k c e =
      let biome = set_biome (pos x) (pos z) 9 0xd6d6a8 c in
      let built = (platform (is_platform chunk_x chunk_z x z) x z (islands x z c)).0 in
      Same-trans i j k c built _
        (Same-trans i j k c (islands x z c).0 _
          (Same-trans i j k c biome _ (set_biome-Same (pos x) (pos z) 9 0xd6d6a8 i j k c)
            (islands-Same (world chunk_x x) (world chunk_z z) x z i j k biome e))
          (platform-Same (is_platform chunk_x chunk_z x z) x z i j k (islands x z c) e))
        (set_height-Same (pos x) (pos z) _ i j k built)

  -- The platform, in a column that has had its step.
  abbrev Landing : Bool → Chunk → ℕ → ℕ → Type 0
  Landing b c i k =
      b ≡ true
      → is_platform chunk_x chunk_z i k ≡ true
      → (j : ℕ) → 60 ≤ j
      → j ≤ 80
      → HasBlock c i j k (ground_at j)

  column-leaves :
      (b : Bool) (x z i k : ℕ) (c : Chunk)
      → x < 16
      → z < 16
      → i < 16
      → k < 16
      → (x == i && z == k) ≡ false
      → IsSized c
      → Landing b c i k
      → Landing b (end_column fl chunk_x chunk_z seed x z c) i k
  column-leaves b x z i k c p q r t e s h =
      λ d near j l m. (column-elsewhere x z i j k c e s).1 ∙ h d near j l m

  column-makes :
      (x z : ℕ) (c : Chunk)
      → x < 16
      → z < 16
      → IsSized c
      → Landing false c x z
      → IsSized (end_column fl chunk_x chunk_z seed x z c)
        × Landing true (end_column fl chunk_x chunk_z seed x z c) x z
  unfolding end_column
  column-makes x z c p q s h =
      let biome = set_biome (pos x) (pos z) 9 0xd6d6a8 c in
      let sized_biome = (set_biome-Same (pos x) (pos z) 9 0xd6d6a8 x 0 z c s).0 in
      let sized =
        (islands-Same (world chunk_x x) (world chunk_z z) x z (suc x) 0 z biome (next_column x z)
          sized_biome).0 in
      let r = platform (is_platform chunk_x chunk_z x z) x z (islands x z c) in
      let sized_built =
        (platform-Same (is_platform chunk_x chunk_z x z) x z (suc x) 0 z (islands x z c)
          (next_column x z) sized).0 in
      (
        (column-elsewhere x z (suc x) 0 z c (next_column x z) s).0,
        λ d near j l m.
            (set_height-Same (pos x) (pos z) (height_over r.1) x j z r.0 sized_built).1
            ∙ ap (λ b. cells (platform b x z (islands x z c)).0 (pos x) (pos j) (pos z)) near
            ∙ platform-own x z j (islands x z c) p q l m sized,
      )

  -- Each column of the end whose place in the world is at most 8 from the spawn in both directions
  -- has end stone from 60 to 64 and open air above it up to 80, whatever the islands are there. The
  -- vectors of the chunk have their sizes.
  pub generate_end_chunk-Landing :
      IsSized (generate_end_chunk fl chunk_x chunk_z seed)
      × ((i k : ℕ)
          → i < 16
          → k < 16
          → is_platform chunk_x chunk_z i k ≡ true
          → (j : ℕ) → 60 ≤ j
          → j ≤ 80
          → HasBlock (generate_end_chunk fl chunk_x chunk_z seed) i j k (ground_at j))
  unfolding generate_end_chunk
  generate_end_chunk-Landing =
      let columns =
        over_columns (end_column fl chunk_x chunk_z seed) 16 (new_chunk chunk_x chunk_z) in
      let (s, h) =
        over_columns-all (end_column fl chunk_x chunk_z seed) IsSized Landing column-makes
          column-leaves (new_chunk chunk_x chunk_z) (new_chunk-IsSized chunk_x chunk_z)
          (λ i k p q d. absurd (ground arith)) in
      let done : (i j k : ℕ) → Same i j k columns (set_generated columns) =
        λ i j k. set_generated-Same i j k columns in
      ((done 0 0 0 s).0, λ i k p q near j l m. (done i j k s).1 ∙ h i k p q refl near j l m)
