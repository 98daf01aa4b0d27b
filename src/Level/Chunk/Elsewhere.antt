-- ===== src/Level/Chunk/Elsewhere.antt =====
-- What the operations of src/level/Chunk.cpp leave as it was at one position.
use mpmpescore_cpp.Prelude.{
  ℕ, ◌<◌, ◌≡◌, refl, ap, ◌∙◌, true, false, not, ◌&&◌, arith, ◌==◌, if◌then◌else◌, if_both,
}
use mpmpescore_cpp.Prelude.Int.{ℤ, pos}
use mpmpescore_cpp.Level.Chunk.{
  Chunk, outside, outside_column, id_at, meta_at, set_block, write_block, get_block_id,
  get_block_meta, set_biome, set_height, set_generated,
}
use mpmpescore_cpp.Level.Chunk.Cells.{IsSized, cells, same_position, cells-set_block}
use mpmpescore_cpp.Level.Chunk.Sound.{put_block-IsSized, update_height-IsSized, put_height-IsSized}

-- The vectors keep their sizes, and the block at a position is the same.
abbrev pub Same : ℕ → ℕ → ℕ → Chunk → Chunk → Type 0
Same i j k c d =
    IsSized c → IsSized d × (cells d (pos i) (pos j) (pos k) ≡ cells c (pos i) (pos j) (pos k))

pub Same-refl : (i j k : ℕ) (c : Chunk) → Same i j k c c
Same-refl i j k c s = (s, refl)

pub Same-trans : (i j k : ℕ) (c d e : Chunk) → Same i j k c d → Same i j k d e → Same i j k c e
Same-trans i j k c d e f g s = let (sd, p) = f s in let (se, q) = g sd in (se, q ∙ p)

pub set_block-IsSized :
    (x y z : ℤ) (id : ℕ) (c : Chunk) → IsSized c → IsSized (set_block x y z id 0 c)
unfolding set_block write_block
set_block-IsSized x y z id c s = if_both IsSized (outside x y z) s (
    if_both IsSized _ s
      (update_height-IsSized _ _ _ id _ (put_block-IsSized _ _ _ id 0 c s (omega arith))))

pub set_block-own :
    (x y z id : ℕ) (c : Chunk)
    → x < 16
    → y < 128
    → z < 16
    → IsSized c
    → cells (set_block (pos x) (pos y) (pos z) id 0 c) (pos x) (pos y) (pos z) ≡ (id, 0)
set_block-own x y z id c p q r s =
    let here : (not (outside (pos x) (pos y) (pos z))
          && same_position (pos x) (pos y) (pos z) (pos x) (pos y) (pos z))
        ≡ true =
      ground arith in
    ap (λ f. f (pos x) (pos y) (pos z))
      (cells-set_block (pos x) (pos y) (pos z) id 0 c s (omega arith))
    ∙ ap (λ b. if b then (id, 0) else cells c (pos x) (pos y) (pos z)) here

pub set_block-Same :
    (x y z id i j k : ℕ) (c : Chunk)
    → (x == i && y == j && z == k) ≡ false
    → Same i j k c (set_block (pos x) (pos y) (pos z) id 0 c)
set_block-Same x y z id i j k c e s =
    let apart : (not (outside (pos x) (pos y) (pos z))
          && same_position (pos x) (pos y) (pos z) (pos i) (pos j) (pos k))
        ≡ false =
      ground arith in
    (
      set_block-IsSized (pos x) (pos y) (pos z) id c s,
      ap (λ f. f (pos i) (pos j) (pos k))
            (cells-set_block (pos x) (pos y) (pos z) id 0 c s (omega arith))
          ∙ ap (λ b. if b then (id, 0) else cells c (pos i) (pos j) (pos k)) apart,
    )

pub set_biome-Same :
    (x z : ℤ) (biome rgb i j k : ℕ) (c : Chunk) → Same i j k c (set_biome x z biome rgb c)
unfolding set_biome cells get_block_id get_block_meta id_at meta_at
set_biome-Same x z biome rgb i j k c =
    if_both (Same i j k c) (outside_column x z) (Same-refl i j k c) (λ s. (
      record {
        blocks_length = s.blocks_length;
        metas_length = s.metas_length;
        heights_length = s.heights_length;
        metas_bytes = s.metas_bytes;
      },
      refl,
    ))

pub set_height-Same : (x z : ℤ) (h i j k : ℕ) (c : Chunk) → Same i j k c (set_height x z h c)
unfolding set_height cells get_block_id get_block_meta id_at meta_at
set_height-Same x z h i j k c =
    if_both (Same i j k c) (outside_column x z) (Same-refl i j k c)
      (λ s. (put_height-IsSized _ _ h c s, refl))

pub set_generated-Same : (i j k : ℕ) (c : Chunk) → Same i j k c (set_generated c)
unfolding cells get_block_id get_block_meta id_at meta_at
set_generated-Same i j k c s = (
  record {
    blocks_length = s.blocks_length;
    metas_length = s.metas_length;
    heights_length = s.heights_length;
    metas_bytes = s.metas_bytes;
  },
  refl,
)
