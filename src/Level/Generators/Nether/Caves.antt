-- ===== src/Level/Generators/Nether/Caves.antt =====
-- The floor, the ceiling and the open blocks of the nether of src/level/Chunk.cpp.
use mpmpescore_cpp.Prelude.{
  ℕ, zero, suc, ◌+◌, ◌-◌, ◌%◌, ◌<◌, ◌≤◌, ◌≡◌, refl, sym, true, false, Bool, not, ◌&&◌, ◌||◌, arith,
  ltb, leb, ◌==◌, if_both, Option, none, some, subst, Bool-cases, inl, inr,
}
use mpmpescore_cpp.Prelude.Int.{ℤ, pos, ◌-ℤ◌}
use mpmpescore_cpp.Level.Chunk.{Chunk}
use mpmpescore_cpp.Level.Chunk.Elsewhere.{Same, Same-refl, Same-trans, set_block-Same}
use mpmpescore_cpp.Level.Generators.Noise.{Floats}
use mpmpescore_cpp.Level.Generators.Overworld.{clamp}
use mpmpescore_cpp.Level.Generators.Nether.{
  lava_y, on_spawn_island, island_surface, ceiling_over, nether_block, put_option, nether_rock,
  glowstone, glowstone_under, nether_floor, nether_ceiling, dist2, raw_floor, raw_ceiling,
}

island_surface-bounds : (dist : ℤ) → (33 ≤ island_surface dist) × (island_surface dist ≤ 72)
unfolding island_surface ◌-ℤ◌
island_surface-bounds dist = ground arith

clamp-bounds :
    (low high : ℕ) (a : ℤ) → low ≤ high → (low ≤ clamp low high a) × (clamp low high a ≤ high)
clamp-bounds low high a h = ground arith

ceiling_over-bounds :
    (island : Bool) (floor_h ceil_h : ℕ)
    → floor_h ≤ 72
    → 100 ≤ ceil_h
    → ceil_h ≤ 125
    → (100 ≤ ceiling_over island floor_h ceil_h) × (ceiling_over island floor_h ceil_h ≤ 125)
unfolding ceiling_over
ceiling_over-bounds island floor_h ceil_h p q r = ground arith

module _ {F : Type 0} (fl : Floats F) (wx wz seed : ℤ) where
  pub nether_floor-bounds : (4 ≤ nether_floor fl wx wz seed) × (nether_floor fl wx wz seed ≤ 72)
  unfolding nether_floor
  nether_floor-bounds =
      if_both (λ v. (4 ≤ v) × (v ≤ 72)) (on_spawn_island wx wz)
        (let (p, q) = island_surface-bounds (fl.trunc (fl.sqrt (fl.of_int (pos (dist2 wx wz))))) in
          (omega arith, q))
        (let (p, q) = clamp-bounds 4 64 (raw_floor fl wx wz seed) (omega arith) in
          (p, omega (arith, q)))

  pub nether_ceiling-bounds :
      (100 ≤ nether_ceiling fl wx wz seed) × (nether_ceiling fl wx wz seed ≤ 125)
  unfolding nether_ceiling
  nether_ceiling-bounds =
      let (p, q) = clamp-bounds 100 125 (raw_ceiling fl wx wz seed) (omega arith) in
      ceiling_over-bounds (on_spawn_island wx wz) (nether_floor fl wx wz seed)
        (clamp 100 125 (raw_ceiling fl wx wz seed)) nether_floor-bounds.1 p q

-- Between the floor and the ceiling, above the lava, no block is set.
pub nether_block-open :
    (wx wz seed : ℤ) (island : Bool) (floor_h ceil_h y : ℕ)
    → floor_h < y
    → y < ceil_h
    → lava_y < y
    → nether_block wx wz seed island floor_h ceil_h y ≡ none
unfolding nether_block
nether_block-open wx wz seed island floor_h ceil_h y p q r =
    let clear : (leb y floor_h || leb ceil_h y) ≡ false = ground arith in
    let dry : (leb y lava_y && not island) ≡ false = ground arith in rw (clear, dry) refl

put_option-Same :
    (x y z : ℕ) (o : Option ℕ) (i j k : ℕ) (c : Chunk)
    → ((x == i && y == j && z == k) ≡ true → o ≡ none)
    → Same i j k c (put_option x y z o c)
unfolding put_option
put_option-Same x y z none i j k c h = Same-refl i j k c
put_option-Same x y z (some id) i j k c h = elim (Bool-cases (x == i && y == j && z == k)) [
  | inl e ↦ subst (λ o. Same i j k c (put_option x y z o c)) (sym (h e)) (Same-refl i j k c)
  | inr e ↦ set_block-Same x y z id i j k c e
]

module _ (x z i j k : ℕ) where
  pub nether_rock-Same :
      (block : ℕ → Option ℕ) (n : ℕ) (c : Chunk)
      → n ≤ 126
      → ((y : ℕ) → 0 < y → y < 127 → (x == i && y == j && z == k) ≡ true → block y ≡ none)
      → Same i j k c (nether_rock block x z n c)
  unfolding nether_rock
  nether_rock-Same block zero c l h = Same-refl i j k c
  nether_rock-Same block (suc n) c l h =
      Same-trans i j k c (nether_rock block x z n c) _ (nether_rock-Same block n c (omega arith) h)
        (put_option-Same x (suc n) z (block (suc n)) i j k _
          (h (suc n) (omega arith) (omega arith)))

  -- No block of the hanging glowstone is at the position.
  abbrev pub Unlit : Type 0
  Unlit = (y : ℕ) → 94 ≤ y → y < 127 → (x == i && y == j && z == k) ≡ false

  glowstone-Same :
      (gy n : ℕ) (c : Chunk)
      → n ≤ 3
      → 96 ≤ gy
      → gy < 127
      → Unlit
      → Same i j k c (glowstone x z gy n c)
  unfolding glowstone
  glowstone-Same gy zero c l p q h = Same-refl i j k c
  glowstone-Same gy (suc n) c l p q h =
      Same-trans i j k c (glowstone x z gy n c) _ (glowstone-Same gy n c (omega arith) p q h) (
        if_both (Same i j k (glowstone x z gy n c)) (ltb lava_y (gy - n))
          (set_block-Same x (gy - n) z 89 i j k _ (h (gy - n) (omega arith) (omega arith)))
          (Same-refl i j k _))

  pub glowstone_under-Same :
      (gh ceil_h : ℕ) (c : Chunk)
      → 100 ≤ ceil_h
      → ceil_h ≤ 125
      → Unlit
      → Same i j k c (glowstone_under x z gh ceil_h c)
  unfolding glowstone_under
  glowstone_under-Same gh ceil_h c p q h =
      if_both (Same i j k c) (gh % 70 == 0 && ltb (lava_y + 10) ceil_h)
        (glowstone-Same (ceil_h - 1 - gh % 4) 3 c (omega arith) (omega arith) (omega arith) h)
        (Same-refl i j k c)
