-- ===== src/Level/Chunk/Sound.antt =====
-- The invariant of a chunk of src/level/Chunk.cpp: its vectors keep their sizes and its height map
-- is right.
use mpmpescore_cpp.Prelude.{
  ℕ, ◌+◌, ◌/◌, ◌%◌, ◌<◌, ◌≡◌, refl, sym, ◌∙◌, subst, true, false, Bool, not, ◌&&◌, arith, ltb, leb,
  ◌==◌, length, length-set, Bool-cases, if_both, if_cases, inl, inr, length-replicate, replicate,
  get_or-replicate, All-replicate,
}
use mpmpescore_cpp.Prelude.Int.{ℤ, pos}
use mpmpescore_cpp.Binary.{Bytes}
use mpmpescore_cpp.Level.Chunk.{
  Chunk, block_index, outside, outside_column, id_at, meta_at, height_at, put_height, put_block,
  write_block, update_height, top_below, set_block, chunk_height, get_nibble, new_chunk, set_biome,
  set_height, blocks_size, nibble_size, map_size, column_index, recompute_column,
  recompute_height_map, set_generated,
}
use mpmpescore_cpp.Level.Chunk.Nibbles.{set_nibble-IsBytes, length-set_nibble}
use mpmpescore_cpp.Level.Chunk.Cells.{IsSized, Inside, place-Inside}
use mpmpescore_cpp.Level.Chunk.Heights.{IsHeight, column_of, top_below-IsHeight}
use mpmpescore_cpp.Level.Chunk.HeightMap.{
  HasHeight, HasHeights, height_at-put_height, put_height-HasHeight, put_block-HasHeights, written,
}
use mpmpescore_cpp.Level.Chunk.Passes.{over_columns-all}

-- A chunk with vectors at their sizes and the right height for each column.
pub record IsSound (c : Chunk) : Type 0 where
  pub sized : IsSized c
  pub heights : HasHeights c

pub put_block-IsSized :
    (x y z id meta : ℕ) (c : Chunk) → IsSized c → meta < 256 → IsSized (put_block x y z id meta c)
unfolding put_block
put_block-IsSized x y z id meta c s m = record {
  blocks_length = length-set c.blocks _ id ∙ s.blocks_length;
  metas_length = length-set_nibble c.metas _ meta ∙ s.metas_length;
  heights_length = s.heights_length;
  metas_bytes = set_nibble-IsBytes c.metas _ meta s.metas_bytes m;
}

pub put_height-IsSized : (x z h : ℕ) (c : Chunk) → IsSized c → IsSized (put_height x z h c)
put_height-IsSized x z h c s = record {
  blocks_length = s.blocks_length;
  metas_length = s.metas_length;
  heights_length = length-set c.height_map _ h ∙ s.heights_length;
  metas_bytes = s.metas_bytes;
}

pub update_height-IsSized :
    (x y z id : ℕ) (c : Chunk) → IsSized c → IsSized (update_height x y z id c)
unfolding update_height
update_height-IsSized x y z id c s =
    if_both IsSized (not (id == 0))
      (if_both IsSized (ltb (height_at c x z) (y + 1)) (put_height-IsSized x z _ c s) s)
      (if_both IsSized (height_at c x z == y + 1) (put_height-IsSized x z _ c s) s)

write_block-IsSound :
    (x y z id meta : ℕ) (c : Chunk)
    → IsSound c
    → meta < 256
    → Inside x y z
    → IsSound (write_block x y z id meta c)
unfolding write_block written
write_block-IsSound x y z id meta c h m p = if_both IsSound _ h (record {
  sized = update_height-IsSized x y z id _ (put_block-IsSized x y z id meta c h.sized m);
  heights = put_block-HasHeights x y z id meta c h.sized p h.heights;
})

-- Setting a block, inside the chunk or not, keeps the vectors at their sizes and leaves in the
-- height map, for each of the 256 columns, one more than the height of its highest block, or 0 for
-- a column of air. This held before, and the metadata is a byte.
pub set_block-IsSound :
    (x y z : ℤ) (id meta : ℕ) (c : Chunk)
    → IsSound c
    → meta < 256
    → IsSound (set_block x y z id meta c)
unfolding set_block
set_block-IsSound x y z id meta c h m =
    if_cases IsSound (outside x y z) (λ _. h)
      (λ e. write_block-IsSound _ _ _ id meta c h m (place-Inside x y z e))

pub new_chunk-IsSized : (x z : ℤ) → IsSized (new_chunk x z)
unfolding new_chunk
new_chunk-IsSized x z = record {
  blocks_length = length-replicate {A = ℕ} blocks_size 0;
  metas_length = length-replicate {A = ℕ} nibble_size 0;
  heights_length = length-replicate {A = ℕ} map_size 0;
  metas_bytes = All-replicate (λ b. b < 256) nibble_size 0 (omega arith);
}

-- A new chunk is all air.
pub new_chunk-air : (x z : ℤ) (i j k : ℕ) → id_at (new_chunk x z) i j k ≡ 0
unfolding new_chunk id_at
new_chunk-air x z i j k = get_or-replicate blocks_size (block_index i j k) 0

pub new_chunk-no_meta : (x z : ℤ) (i j k : ℕ) → meta_at (new_chunk x z) i j k ≡ 0
unfolding new_chunk meta_at get_nibble
new_chunk-no_meta x z i j k =
    let n = block_index i j k in
    let zeros : Bytes = replicate nibble_size 0 in
    if_both (λ v. v ≡ 0) (leb (length zeros) (n / 2)) refl
      (rw (get_or-replicate {A = ℕ} nibble_size (n / 2) 0)
        (if_both (λ v. v ≡ 0) (n % 2 == 1) refl refl))

pub new_chunk-IsSound : (x z : ℤ) → IsSound (new_chunk x z)
unfolding new_chunk HasHeight column_of
new_chunk-IsSound x z = record {
  sized = new_chunk-IsSized x z;
  heights = record {
    column = λ i k p q.
        subst (λ h. IsHeight (column_of (new_chunk x z) i k) h)
          (sym (get_or-replicate map_size (column_index i k) 0))
          (record {
            above = λ j g m. new_chunk-air x z i j k;
            below = λ j e z. absurd (omega arith);
            bound = omega arith;
          });
  };
}

recompute_column-HasHeight :
    (x z : ℕ) (c : Chunk) → x < 16 → z < 16 → IsSized c → HasHeight (recompute_column x z c) x z
unfolding recompute_column
recompute_column-HasHeight x z c p q s =
    put_height-HasHeight x z (top_below c x z chunk_height) c s.heights_length p q
      (top_below-IsHeight c x z chunk_height (omega arith) (λ j g m. absurd (omega arith)))

-- A height of another column is left.
put_height-leaves :
    (x z h i k : ℕ) (c : Chunk)
    → x < 16
    → z < 16
    → i < 16
    → (x == i && z == k) ≡ false
    → IsSized c
    → HasHeight c i k
    → HasHeight (put_height x z h c) i k
unfolding HasHeight column_of id_at
put_height-leaves x z h i k c p q r e s g =
    subst (λ n. IsHeight (column_of c i k) n)
      (sym (height_at-put_height x z h i k c s.heights_length p q r ∙ rw e refl)) g

abbrev AfterPass : Bool → Chunk → ℕ → ℕ → Type 0
AfterPass true c x z = HasHeight c x z
AfterPass false c x z = Unit {0}

recompute_column-leaves :
    (b : Bool) (x z i k : ℕ) (c : Chunk)
    → x < 16
    → z < 16
    → i < 16
    → k < 16
    → (x == i && z == k) ≡ false
    → IsSized c
    → AfterPass b c i k
    → AfterPass b (recompute_column x z c) i k
unfolding recompute_column
recompute_column-leaves true x z i k c p q r t e s g = put_height-leaves x z _ i k c p q r e s g
recompute_column-leaves false x z i k c p q r t e s g = tt

recompute_column-IsSized :
    (x z : ℕ) (c : Chunk) → x < 16 → z < 16 → IsSized c → IsSized (recompute_column x z c)
unfolding recompute_column
recompute_column-IsSized x z c p q s = put_height-IsSized x z _ c s

-- Whatever the height map holds, computing it anew makes it right for each of the 256 columns, in a
-- chunk whose vectors have their sizes.
pub recompute_height_map-IsSound : (c : Chunk) → IsSized c → IsSound (recompute_height_map c)
unfolding recompute_height_map
recompute_height_map-IsSound c s =
    let (sized, heights) =
      over_columns-all recompute_column IsSized AfterPass
        (λ x z d p q t u.
          (recompute_column-IsSized x z d p q t, recompute_column-HasHeight x z d p q t))
        recompute_column-leaves c s (λ i k p q. tt) in
    record { sized = sized; heights = record { column = heights } }

-- A height that is set by hand is right if the column has it.
pub set_height-IsSound :
    (x z h : ℕ) (c : Chunk)
    → x < 16
    → z < 16
    → IsSound c
    → IsHeight (column_of c x z) h
    → IsSound (set_height (pos x) (pos z) h c)
unfolding set_height
set_height-IsSound x z h c p q s g = if_both IsSound (outside_column (pos x) (pos z)) s (record {
  sized = put_height-IsSized x z h c s.sized;
  heights = record {
    column = λ i k r t. elim (Bool-cases (x == i && z == k)) [
      | inl e ↦
          let ex : x ≡ i = ground arith in
          let ez : z ≡ k = ground arith in
          subst (λ m. HasHeight (put_height x z h c) m k) ex
            (subst (λ m. HasHeight (put_height x z h c) x m) ez
              (put_height-HasHeight x z h c s.sized.heights_length p q g))
      | inr e ↦ put_height-leaves x z h i k c p q r e s.sized (s.heights.column i k r t)
    ];
  };
})

pub set_biome-IsSound :
    (x z : ℤ) (biome rgb : ℕ) (c : Chunk) → IsSound c → IsSound (set_biome x z biome rgb c)
unfolding set_biome HasHeight column_of id_at
set_biome-IsSound x z biome rgb c s = if_both IsSound (outside_column x z) s (record {
  sized = record {
    blocks_length = s.sized.blocks_length;
    metas_length = s.sized.metas_length;
    heights_length = s.sized.heights_length;
    metas_bytes = s.sized.metas_bytes;
  };
  heights = record { column = s.heights.column };
})

pub set_generated-IsSound : (c : Chunk) → IsSound c → IsSound (set_generated c)
unfolding HasHeight column_of id_at
set_generated-IsSound c s = record {
  sized = record {
    blocks_length = s.sized.blocks_length;
    metas_length = s.sized.metas_length;
    heights_length = s.sized.heights_length;
    metas_bytes = s.sized.metas_bytes;
  };
  heights = record { column = s.heights.column };
}
