-- ===== src/Level/Chunk/RoundTrip.antt =====
-- A chunk of src/level/Chunk.cpp that was written to a file is read back.
use mpmpescore_cpp.Prelude.{
  ℕ, zero, suc, ◌^◌, ◌<◌, ◌≤◌, ◌≡◌, refl, sym, ap, ◌∙◌, false, arith, ltb, length, List, [], ◌∷◌,
  ◌++◌, some, ◌>>=◌, All, if◌then◌else◌, bytes_eq, length-append, bind-some, none,
  take-length-append, drop-length-append, append_assoc,
}
use mpmpescore_cpp.Prelude.Int.{ℤ, pos_part, neg_part, to_i32}
use mpmpescore_cpp.Binary.{Bytes, write_lint}
use mpmpescore_cpp.Level.Chunk.{Chunk, blocks_size, nibble_size, map_size}
use mpmpescore_cpp.Level.Chunk.Cells.{IsSized}
use mpmpescore_cpp.Binary.Codec.{read_lint-write_lint}
use mpmpescore_cpp.Level.Chunk.Files.{
  magic, from_i32, save_colors, save_to_file, read, read_i32, load_colors, load_rest, load_heights,
  load_metas, load_blocks, load_position, loaded, load_from_file,
}

-- The values of an int32_t.
abbrev pub IsInt32 : ℤ → Type 0
IsInt32 a = (pos_part a < 2 ^ 31) × (neg_part a ≤ 2 ^ 31)

-- What a file can hold.
pub record IsStorable (c : Chunk) : Type 0 where
  pub sized : IsSized c
  pub x_fits : IsInt32 c.x
  pub z_fits : IsInt32 c.z
  pub colors_length : length c.biome_colors ≡ map_size
  pub colors_fit : All (λ v. v < 2 ^ 32) c.biome_colors

read-append : (n : ℕ) (xs rest : Bytes) → length xs ≡ n → read n (xs ++ rest) ≡ some (xs, rest)
unfolding read
read-append n xs rest h =
    let enough : ltb (length (xs ++ rest)) n ≡ false = ground (arith, length-append xs rest) in
    rw enough (rw (sym h) (rw (take-length-append xs rest, drop-length-append xs rest) refl))

to_i32-from_i32 : (a : ℤ) → IsInt32 a → to_i32 (from_i32 a) ≡ a
to_i32-from_i32 a h = ground arith

from_i32-bound : (a : ℤ) → IsInt32 a → from_i32 a < 2 ^ 32
from_i32-bound a h = ground arith

length-write_lint : (v : ℕ) → length (write_lint v) ≡ 4
unfolding write_lint
length-write_lint v = refl

read_i32-at :
    (a : ℤ) (rest : Bytes) → IsInt32 a → read_i32 (write_lint (from_i32 a) ++ rest) ≡ some (a, rest)
unfolding read_i32
read_i32-at a rest h =
    rw
      (
        read-append 4 (write_lint (from_i32 a)) rest (length-write_lint (from_i32 a)),
        read_lint-write_lint (from_i32 a) (from_i32-bound a h),
        to_i32-from_i32 a h,
      )
      refl

load_colors-at :
    (n : ℕ) (cs : List ℕ) (rest : Bytes)
    → length cs ≡ n
    → All (λ v. v < 2 ^ 32) cs
    → load_colors n (save_colors cs ++ rest) ≡ some (cs, rest)
unfolding load_colors save_colors
load_colors-at zero [] rest l h = refl
load_colors-at zero (c ∷ cs) rest l h = absurd (omega arith)
load_colors-at (suc n) [] rest l h = absurd (omega arith)
load_colors-at (suc n) (c ∷ cs) rest l h =
    ap (load_colors (suc n)) (append_assoc (write_lint c) (save_colors cs) rest)
    ∙ bind-some _ _ _ (read-append 4 (write_lint c) (save_colors cs ++ rest) (length-write_lint c))
    ∙ bind-some _ (λ v. load_colors n (save_colors cs ++ rest) >>= (λ p. some (v ∷ p.0, p.1))) _
        (read_lint-write_lint c h.0)
    ∙ bind-some _ (λ p. some (c ∷ p.0, p.1)) _ (load_colors-at n cs rest (omega arith) h.1)

-- The bytes of a file in the order in which they are read.
unfoldable pub after_position : Chunk → Bytes → Bytes
unfolding save_colors
after_position c rest =
    c.blocks ++ (c.metas ++ (c.height_map ++ (save_colors c.biome_colors ++ rest)))

unfoldable pub after_magic : Chunk → Bytes → Bytes
unfolding write_lint after_position
after_magic c rest =
    write_lint (from_i32 c.x) ++ (write_lint (from_i32 c.z) ++ after_position c rest)

pub save_to_file-append :
    (c : Chunk) (rest : Bytes) → save_to_file c ++ rest ≡ magic ++ after_magic c rest
unfolding save_to_file after_magic after_position
save_to_file-append c rest = simp append_assoc

load_rest-at :
    (c : Chunk) (rest : Bytes)
    → IsStorable c
    → load_rest c.x c.z c.blocks c.metas c.height_map (save_colors c.biome_colors ++ rest)
      ≡ some (loaded c.x c.z c.blocks c.metas c.height_map c.biome_colors)
unfolding load_rest
load_rest-at c rest h =
    bind-some _ (λ p. some (loaded c.x c.z c.blocks c.metas c.height_map p.0)) _
      (load_colors-at map_size c.biome_colors rest h.colors_length h.colors_fit)

load_blocks-at :
    (c : Chunk) (rest : Bytes)
    → IsStorable c
    → load_blocks c.x c.z (after_position c rest)
      ≡ some (loaded c.x c.z c.blocks c.metas c.height_map c.biome_colors)
unfolding load_blocks load_metas load_heights after_position
load_blocks-at c rest h =
    bind-some _ (λ p. load_metas c.x c.z p.0 p.1) _
      (read-append blocks_size c.blocks _ h.sized.blocks_length)
    ∙ bind-some _ (λ p. load_heights c.x c.z c.blocks p.0 p.1) _
        (read-append nibble_size c.metas _ h.sized.metas_length)
    ∙ bind-some _ (λ p. load_rest c.x c.z c.blocks c.metas p.0 p.1) _
        (read-append map_size c.height_map _ h.sized.heights_length)
    ∙ load_rest-at c rest h

load_position-at :
    (c : Chunk) (rest : Bytes)
    → IsStorable c
    → load_position (after_magic c rest)
      ≡ some (loaded c.x c.z c.blocks c.metas c.height_map c.biome_colors)
unfolding load_position after_magic
load_position-at c rest h =
    bind-some _ (λ p. read_i32 p.1 >>= (λ q. load_blocks p.0 q.0 q.1)) _
      (read_i32-at c.x (write_lint (from_i32 c.z) ++ after_position c rest) h.x_fits)
    ∙ bind-some _ (λ q. load_blocks c.x q.0 q.1) _
        (read_i32-at c.z (after_position c rest) h.z_fits)
    ∙ load_blocks-at c rest h

-- A chunk that is saved, with more bytes after it or not, loads as a chunk with the same position,
-- blocks, metadata, height map and colors, which is marked generated and not dirty and has full sky
-- light and no block light. Its vectors have their sizes, its position is in two int32_t and its
-- colors are in 32 bits.
pub load_from_file-save_to_file :
    (c : Chunk) (rest : Bytes)
    → IsStorable c
    → load_from_file (save_to_file c ++ rest)
      ≡ some (loaded c.x c.z c.blocks c.metas c.height_map c.biome_colors)
unfolding load_from_file
load_from_file-save_to_file c rest h =
    ap load_from_file (save_to_file-append c rest)
    ∙ bind-some _ (λ p. if bytes_eq p.0 magic then load_position p.1 else none) _
        (read-append 4 magic (after_magic c rest) refl)
    ∙ load_position-at c rest h
