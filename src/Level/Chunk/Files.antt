-- ===== src/Level/Chunk/Files.antt =====
-- Chunks as bytes, for src/level/Chunk.cpp: the file MPC1, written and read, and the payload for a
-- client. A file is the list of its bytes, and `none` is a return of false. Integers of the file are
-- in the host's order, which is little-endian here.
use mpmpescore_cpp.Prelude.{
  ℕ, zero, suc, ◌-◌, ◌/◌, ◌%◌, ◌^◌, true, false, ltb, if◌then◌else◌, length, List, [], ◌∷◌, ◌++◌,
  Option, none, some, ◌>>=◌, take, drop, replicate, bytes_eq,
}
use mpmpescore_cpp.Prelude.Int.{ℤ, pos, negsuc, to_i32}
use mpmpescore_cpp.Binary.{Bytes, read_lint, write_lint}
use mpmpescore_cpp.Level.Chunk.{Chunk, blocks_size, nibble_size, map_size}

-- "MPC1".
abbrev pub magic : Bytes
magic = b'M' ∷ b'P' ∷ b'C' ∷ b'1' ∷ []

-- The bit pattern of an int32_t.
abbrev pub from_i32 : ℤ → ℕ
from_i32 (pos n) = n
from_i32 (negsuc n) = 2 ^ 32 - n - 1

unfoldable pub save_colors : List ℕ → Bytes
unfolding write_lint
save_colors [] = []
save_colors (c ∷ cs) = write_lint c ++ save_colors cs

unfoldable pub save_to_file : Chunk → Bytes
unfolding write_lint save_colors
save_to_file c =
    magic
    ++ write_lint (from_i32 c.x)
    ++ write_lint (from_i32 c.z)
    ++ c.blocks
    ++ c.metas
    ++ c.height_map
    ++ save_colors c.biome_colors

-- `in.read` of `n` bytes; a file that is too short makes the load fail.
unfoldable pub read : ℕ → Bytes → Option (Bytes × Bytes)
read n s = if ltb (length s) n then none else some (take n s, drop n s)

unfoldable pub read_i32 : Bytes → Option (ℤ × Bytes)
unfolding read read_lint
read_i32 s = do (b, r) ← read 4 s; v ← read_lint b; some (to_i32 v, r)

unfoldable pub load_colors : ℕ → Bytes → Option (List ℕ × Bytes)
unfolding read read_lint
load_colors zero s = some ([], s)
load_colors (suc n) s = do
  (b, r) ← read 4 s
  v ← read_lint b
  (cs, r') ← load_colors n r
  some (v ∷ cs, r')

-- The chunk that is loaded: full sky light, no block light, generated and not dirty.
abbrev pub loaded : ℤ → ℤ → Bytes → Bytes → Bytes → List ℕ → Chunk
loaded cx cz b m h cs = record {
  x = cx;
  z = cz;
  generated = true;
  dirty = false;
  blocks = b;
  metas = m;
  sky_light = replicate nibble_size 0xff;
  block_light = replicate nibble_size 0;
  height_map = h;
  biome_colors = cs;
}

-- The reads in their order. What follows the colors in the file is not looked at.
unfoldable pub load_rest : ℤ → ℤ → Bytes → Bytes → Bytes → Bytes → Option Chunk
unfolding load_colors
load_rest cx cz b d h s = do (cs, r) ← load_colors map_size s; some (loaded cx cz b d h cs)

unfoldable pub load_heights : ℤ → ℤ → Bytes → Bytes → Bytes → Option Chunk
unfolding read load_rest
load_heights cx cz b d s = do (h, r) ← read map_size s; load_rest cx cz b d h r

unfoldable pub load_metas : ℤ → ℤ → Bytes → Bytes → Option Chunk
unfolding read load_heights
load_metas cx cz b s = do (d, r) ← read nibble_size s; load_heights cx cz b d r

unfoldable pub load_blocks : ℤ → ℤ → Bytes → Option Chunk
unfolding read load_metas
load_blocks cx cz s = do (b, r) ← read blocks_size s; load_metas cx cz b r

unfoldable pub load_position : Bytes → Option Chunk
unfolding read_i32 load_blocks
load_position s = do (cx, r) ← read_i32 s; (cz, r') ← read_i32 r; load_blocks cx cz r'

unfoldable pub load_from_file : Bytes → Option Chunk
unfolding read load_position
load_from_file s = do (m, r) ← read 4 s; (if bytes_eq m magic then load_position r else none)

unfoldable pub color_bytes : List ℕ → Bytes
color_bytes [] = []
color_bytes (c ∷ cs) =
    (c / 2 ^ 24 % 256) ∷ (c / 2 ^ 16 % 256) ∷ (c / 2 ^ 8 % 256) ∷ (c % 256) ∷ color_bytes cs

-- Colors from the highest byte, and then no extra data: a count of zero.
unfoldable pub network_payload : Chunk → Bytes
unfolding color_bytes
network_payload c =
    c.blocks
    ++ c.metas
    ++ c.sky_light
    ++ c.block_light
    ++ c.height_map
    ++ color_bytes c.biome_colors
    ++ (0 ∷ 0 ∷ 0 ∷ 0 ∷ [])
