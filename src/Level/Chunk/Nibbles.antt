-- ===== src/Level/Chunk/Nibbles.antt =====
-- The nibbles of src/level/Chunk.cpp: a write of one half of a byte leaves the other half.
use mpmpescore_cpp.Prelude.{
  ℕ, zero, suc, ◌+◌, ◌*◌, ◌/◌, ◌%◌, ◌<◌, ◌≡◌, refl, true, [], ◌∷◌, arith, leb, ◌==◌, if◌then◌else◌,
  length, get_or, set, All, get_or-set_self, get_or-set_ne, length-set, if_both,
}
use mpmpescore_cpp.Prelude.Bits.{bit_and, bit_or, same_tables, agree_below}
use mpmpescore_cpp.Binary.{Bytes}
use mpmpescore_cpp.Level.Chunk.{with_nibble, nibble_of, set_nibble, get_nibble}

-- A function of a byte and a nibble as a table.
abbrev joined : (ℕ → ℕ → ℕ) → ℕ → ℕ
joined f k = f (k / 16) (k % 16)

agree_on_nibbles :
    (f g : ℕ → ℕ → ℕ) (b m : ℕ)
    → same_tables (joined f) (joined g) 4096 ≡ true
    → b < 256
    → m < 16
    → f b m ≡ g b m
agree_on_nibbles f g b m e hb hm =
    let q : (b * 16 + m) / 16 ≡ b = omega arith in
    let r : (b * 16 + m) % 16 ≡ m = omega arith in
    rw (q, r) at (agree_below 4096 (joined f) (joined g) (b * 16 + m) e (omega arith))

-- What is read at `j` after a write at `i` of the same byte.
nibble_of-with_nibble :
    (i j b m : ℕ)
    → b < 256
    → m < 16
    → nibble_of j (with_nibble i m b) ≡ (if i % 2 == j % 2 then m else nibble_of j b)
unfolding same_tables
nibble_of-with_nibble i j b m hb hm = ground (
  arith,
  agree_on_nibbles (λ b m. bit_and (bit_or (bit_and b 0x0f) (m * 16)) 0x0f) (λ b m. bit_and b 0x0f)
      b m refl hb hm,
  agree_on_nibbles (λ b m. bit_and (bit_or (bit_and b 0x0f) (m * 16) / 16) 0x0f) (λ b m. m) b m refl
      hb hm,
  agree_on_nibbles (λ b m. bit_and (bit_or (bit_and b 0xf0) m) 0x0f) (λ b m. m) b m refl hb hm,
  agree_on_nibbles (λ b m. bit_and (bit_or (bit_and b 0xf0) m / 16) 0x0f)
      (λ b m. bit_and (b / 16) 0x0f) b m refl hb hm,
)

-- Bytes that fit in eight bits.
abbrev pub IsBytes : Bytes → Type 0
IsBytes = All (λ b. b < 256)

pub get_or-IsBytes : (arr : Bytes) (i : ℕ) → IsBytes arr → get_or arr i 0 < 256
get_or-IsBytes [] i h = omega arith
get_or-IsBytes (b ∷ arr) zero h = h.0
get_or-IsBytes (b ∷ arr) (suc i) h = get_or-IsBytes arr i h.1

set-IsBytes : (arr : Bytes) (i v : ℕ) → IsBytes arr → v < 256 → IsBytes (set arr i v)
set-IsBytes [] i v h k = h
set-IsBytes (b ∷ arr) zero v h k = (k, h.1)
set-IsBytes (b ∷ arr) (suc i) v h k = (h.0, set-IsBytes arr i v h.1 k)

with_nibble-bound : (i m b : ℕ) → b < 256 → m < 16 → with_nibble i m b < 256
unfolding same_tables
with_nibble-bound i m b hb hm = ground (
  arith,
  agree_on_nibbles (λ b m. bit_or (bit_and b 0x0f) (m * 16) / 256) (λ b m. 0) b m refl hb hm,
  agree_on_nibbles (λ b m. bit_or (bit_and b 0xf0) m / 256) (λ b m. 0) b m refl hb hm,
)

pub nibble-bound : (n : ℕ) → n < 256 → bit_and n 0x0f < 16
unfolding same_tables
nibble-bound n h = omega (arith, agree_below 256 (λ k. bit_and k 0x0f / 16) (λ k. 0) n refl h)

pub set_nibble-IsBytes :
    (arr : Bytes) (i n : ℕ) → IsBytes arr → n < 256 → IsBytes (set_nibble arr i n)
unfolding set_nibble
set_nibble-IsBytes arr i n h k = if_both IsBytes (leb (length arr) (i / 2)) h (
    set-IsBytes arr (i / 2) _ h (
      with_nibble-bound i (bit_and n 0x0f) (get_or arr (i / 2) 0) (get_or-IsBytes arr (i / 2) h)
        (nibble-bound n k)))

pub length-set_nibble : (arr : Bytes) (i n : ℕ) → length (set_nibble arr i n) ≡ length arr
unfolding set_nibble
length-set_nibble arr i n =
    if_both (λ (a : Bytes). length a ≡ length arr) (leb (length arr) (i / 2)) refl
      (length-set arr (i / 2) (with_nibble i (bit_and n 0x0f) (get_or arr (i / 2) 0)))

-- A nibble that is written inside the array is read back, and every other index reads as before.
pub get_nibble-set_nibble :
    (arr : Bytes) (i j n : ℕ)
    → IsBytes arr
    → n < 256
    → i / 2 < length arr
    → get_nibble (set_nibble arr i n) j ≡ (if i == j then bit_and n 0x0f else get_nibble arr j)
unfolding set_nibble get_nibble
get_nibble-set_nibble arr i j n h k l =
    let m = bit_and n 0x0f in
    let b = get_or arr (i / 2) 0 in
    let v = with_nibble i m b in
    ground (
      arith,
      length-set arr (i / 2) v,
      get_or-set_self arr (i / 2) v 0 l,
      get_or-set_ne arr (i / 2) (j / 2) v 0,
      nibble_of-with_nibble i j b m (get_or-IsBytes arr (i / 2) h) (nibble-bound n k),
    )
