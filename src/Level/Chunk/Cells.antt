-- ===== src/Level/Chunk/Cells.antt =====
-- The blocks of a chunk, for src/level/Chunk.cpp, as a map from positions to identifiers and metadata.
use mpmpescore_cpp.Prelude.{
  ℕ, ◌/◌, ◌<◌, ◌≡◌, refl, sym, ap, ◌∙◌, subst, true, false, Bool, not, ◌&&◌, arith, ◌==◌,
  if◌then◌else◌, length, get_or, get_or-set, Bool-cases, if_cases, inl, inr,
}
use mathlib.Core.Path.{fun_ext}
use mpmpescore_cpp.Prelude.Int.{ℤ, pos_part, eqℤ}
use mpmpescore_cpp.Prelude.Bits.{bit_and}
use mpmpescore_cpp.Level.Chunk.{
  set_block, get_block_id, get_block_meta, Chunk, block_index, outside, id_at, meta_at, put_block,
  write_block, update_height, get_block_id, get_block_meta, get_nibble, blocks_size, nibble_size,
  map_size,
}
use mpmpescore_cpp.Level.Chunk.Nibbles.{IsBytes, get_nibble-set_nibble}

-- The sizes of the vectors, and the metadata in bytes.
pub record IsSized (c : Chunk) : Type 0 where
  pub blocks_length : length c.blocks ≡ blocks_size
  pub metas_length : length c.metas ≡ nibble_size
  pub heights_length : length c.height_map ≡ map_size
  pub metas_bytes : IsBytes c.metas

-- A place inside the chunk.
abbrev pub Inside : ℕ → ℕ → ℕ → Type 0
Inside x y z = (x < 16) × (y < 128) × (z < 16)

abbrev pub same_place : ℕ → ℕ → ℕ → ℕ → ℕ → ℕ → Bool
same_place x y z i j k = x == i && y == j && z == k

block_index-place :
    (x y z i j k : ℕ)
    → Inside x y z
    → Inside i j k
    → (block_index x y z == block_index i j k) ≡ same_place x y z i j k
unfolding block_index
block_index-place x y z i j k p q = ground arith

pub block_index-bound : (x y z : ℕ) → Inside x y z → block_index x y z < blocks_size
unfolding block_index
block_index-bound x y z p = omega arith

pub id_at-put_block :
    (x y z i j k id meta : ℕ) (c : Chunk)
    → IsSized c
    → Inside x y z
    → Inside i j k
    → id_at (put_block x y z id meta c) i j k
      ≡ (if same_place x y z i j k then id else id_at c i j k)
unfolding id_at put_block
id_at-put_block x y z i j k id meta c s p q =
    get_or-set c.blocks (block_index x y z) (block_index i j k) id 0
      (subst (λ n. block_index x y z < n) (sym s.blocks_length) (block_index-bound x y z p))
    ∙ ap (λ b. if b then id else id_at c i j k) (block_index-place x y z i j k p q)

meta_at-put_block :
    (x y z i j k id meta : ℕ) (c : Chunk)
    → IsSized c
    → meta < 256
    → Inside x y z
    → Inside i j k
    → meta_at (put_block x y z id meta c) i j k
      ≡ (if same_place x y z i j k then bit_and meta 0x0f else meta_at c i j k)
unfolding meta_at put_block
meta_at-put_block x y z i j k id meta c s m p q =
    get_nibble-set_nibble c.metas (block_index x y z) (block_index i j k) meta s.metas_bytes m (
      subst (λ n. block_index x y z / 2 < n) (sym s.metas_length)
        (omega (arith, block_index-bound x y z p)))
    ∙ ap (λ b. if b then bit_and meta 0x0f else meta_at c i j k) (block_index-place x y z i j k p q)

pub update_height-ids : (x y z id : ℕ) (c : Chunk) → (update_height x y z id c).blocks ≡ c.blocks
unfolding update_height
update_height-ids x y z id c = ground arith

update_height-metas : (x y z id : ℕ) (c : Chunk) → (update_height x y z id c).metas ≡ c.metas
unfolding update_height
update_height-metas x y z id c = ground arith

same_index :
    (x y z i j k : ℕ) → same_place x y z i j k ≡ true → block_index x y z ≡ block_index i j k
unfolding block_index
same_index x y z i j k e = ground arith

id_at-write_block :
    (x y z i j k id meta : ℕ) (c : Chunk)
    → IsSized c
    → Inside x y z
    → Inside i j k
    → id_at (write_block x y z id meta c) i j k
      ≡ (if same_place x y z i j k then id else id_at c i j k)
unfolding write_block id_at
id_at-write_block x y z i j k id meta c s p q =
    if_cases (λ d. id_at d i j k ≡ (if same_place x y z i j k then id else id_at c i j k)) _
      (λ e.
        if_cases (λ w. id_at c i j k ≡ w) (same_place x y z i j k)
          (λ h.
            let old : id_at c x y z ≡ id = ground arith in
            ap (λ n. get_or c.blocks n 0) (sym (same_index x y z i j k h)) ∙ old)
          (λ h. refl))
      (λ e.
        ap (λ b. get_or b (block_index i j k) 0)
          (update_height-ids x y z id (put_block x y z id meta c))
        ∙ id_at-put_block x y z i j k id meta c s p q)

meta_at-write_block :
    (x y z i j k id meta : ℕ) (c : Chunk)
    → IsSized c
    → meta < 256
    → Inside x y z
    → Inside i j k
    → meta_at (write_block x y z id meta c) i j k
      ≡ (if same_place x y z i j k then bit_and meta 0x0f else meta_at c i j k)
unfolding write_block meta_at
meta_at-write_block x y z i j k id meta c s m p q =
    if_cases
      (λ d.
        meta_at d i j k ≡ (if same_place x y z i j k then bit_and meta 0x0f else meta_at c i j k))
      _
      (λ e.
        if_cases (λ w. meta_at c i j k ≡ w) (same_place x y z i j k)
          (λ h.
            let old : meta_at c x y z ≡ bit_and meta 0x0f = ground arith in
            ap (get_nibble c.metas) (sym (same_index x y z i j k h)) ∙ old)
          (λ h. refl))
      (λ e.
        ap (λ b. get_nibble b (block_index i j k))
          (update_height-metas x y z id (put_block x y z id meta c))
        ∙ meta_at-put_block x y z i j k id meta c s m p q)

pub place-Inside :
    (x y z : ℤ) → outside x y z ≡ false → Inside (pos_part x) (pos_part y) (pos_part z)
place-Inside x y z h = ground arith

-- What a chunk is for its readers: an identifier and metadata at every position, air outside.
abbrev pub Cells : Type 0
Cells = ℤ → ℤ → ℤ → ℕ × ℕ

unfoldable pub cells : Chunk → Cells
unfolding get_block_id get_block_meta
cells c x y z = (get_block_id x y z c, get_block_meta x y z c)

abbrev pub same_position : ℤ → ℤ → ℤ → ℤ → ℤ → ℤ → Bool
same_position x y z i j k = eqℤ x i && eqℤ y j && eqℤ z k

-- The map with one position inside the chunk changed.
abbrev pub put_cell : ℤ → ℤ → ℤ → ℕ × ℕ → Cells → Cells
put_cell x y z v m i j k = if not (outside x y z) && same_position x y z i j k then v else m i j k

same_position_inside :
    (x y z i j k : ℤ)
    → outside x y z ≡ false
    → outside i j k ≡ false
    → same_position x y z i j k
      ≡ same_place (pos_part x) (pos_part y) (pos_part z) (pos_part i) (pos_part j) (pos_part k)
same_position_inside x y z i j k p q = ground arith

apart_outside :
    (x y z i j k : ℤ)
    → outside x y z ≡ false
    → outside i j k ≡ true
    → same_position x y z i j k ≡ false
apart_outside x y z i j k p q = ground arith

pub cells-outside : (x y z : ℤ) (c : Chunk) → outside x y z ≡ true → cells c x y z ≡ (0, 0)
unfolding cells get_block_id get_block_meta
cells-outside x y z c h = rw h

pub cells-inside :
    (x y z : ℤ) (c : Chunk)
    → outside x y z ≡ false
    → cells c x y z ≡ (
      id_at c (pos_part x) (pos_part y) (pos_part z),
      meta_at c (pos_part x) (pos_part y) (pos_part z),
    )
unfolding cells get_block_id get_block_meta
cells-inside x y z c h = rw h

if_pair :
    (b : Bool) (v w v' w' : ℕ)
    → ◌≡◌ {A = ℕ × ℕ} (if b then v else v', if b then w else w') (if b then (v, w) else (v', w'))
if_pair true v w v' w' = refl
if_pair false v w v' w' = refl

cells-write_block :
    (x y z : ℤ) (id meta : ℕ) (c : Chunk) (i j k : ℤ)
    → IsSized c
    → meta < 256
    → outside x y z ≡ false
    → cells (write_block (pos_part x) (pos_part y) (pos_part z) id meta c) i j k
      ≡ (if same_position x y z i j k then (id, bit_and meta 0x0f) else cells c i j k)
cells-write_block x y z id meta c i j k s m h =
    let p = place-Inside x y z h in
    let d = write_block (pos_part x) (pos_part y) (pos_part z) id meta c in
    elim (Bool-cases (outside i j k)) [
      | inl q ↦
          rw (cells-outside i j k d q, cells-outside i j k c q, apart_outside x y z i j k h q) refl
      | inr q ↦
          let r = place-Inside i j k q in
          rw
            (
              cells-inside i j k d q,
              cells-inside i j k c q,
              same_position_inside x y z i j k h q,
              id_at-write_block _ _ _ _ _ _ id meta c s p r,
              meta_at-write_block _ _ _ _ _ _ id meta c s m p r,
            )
            (if_pair
              (same_place (pos_part x) (pos_part y) (pos_part z) (pos_part i) (pos_part j)
                (pos_part k))
              id (bit_and meta 0x0f) (id_at c (pos_part i) (pos_part j) (pos_part k))
              (meta_at c (pos_part i) (pos_part j) (pos_part k)))
    ]

-- After a block is set, a reader finds at every position what an independent map says: the new
-- identifier and the low four bits of the metadata at the position that was set, provided it is
-- inside the chunk, and what was there before at every other position. The chunk has its vectors at
-- their sizes, and the metadata is a byte.
pub cells-set_block :
    (x y z : ℤ) (id meta : ℕ) (c : Chunk)
    → IsSized c
    → meta < 256
    → cells (set_block x y z id meta c) ≡ put_cell x y z (id, bit_and meta 0x0f) (cells c)
unfolding set_block
cells-set_block x y z id meta c s m = fun_ext (λ i. fun_ext (λ j. fun_ext (λ k.
    if_cases (λ (d : Chunk). cells d i j k ≡ put_cell x y z (id, bit_and meta 0x0f) (cells c) i j k)
      (outside x y z) (λ h. rw h) (λ h. rw h (cells-write_block x y z id meta c i j k s m h)))))
