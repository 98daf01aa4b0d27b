-- ===== src/Level/Chunk/Loaded.antt =====
-- What src/level/Chunk.cpp accepts as a file, and the chunk that it makes of one.
use mpmpescore_cpp.Prelude.{
  ℕ, zero, suc, ◌^◌, ◌<◌, ◌≡◌, refl, sym, ap, ◌∙◌, subst, arith, ltb, length, List, [], ◌∷◌, ◌++◌,
  Option, none, some, ◌>>=◌, if_cases, All, append_assoc, bytes_eq, length-take,
}
use mpmpescore_cpp.Prelude.Int.{ℤ, to_i32}
use mpmpescore_cpp.Binary.{Bytes, read_lint, write_lint}
use mpmpescore_cpp.Level.Chunk.{Chunk, blocks_size, nibble_size, map_size}
use mpmpescore_cpp.Level.Chunk.Nibbles.{IsBytes}
use mpmpescore_cpp.Level.Chunk.Files.{
  magic, from_i32, save_colors, save_to_file, read, read_i32, load_colors, load_rest, load_heights,
  load_metas, load_blocks, load_position, loaded, load_from_file,
}
use mpmpescore_cpp.Prelude.{take-append-drop, bytes_eq_lem}
use mpmpescore_cpp.Level.Chunk.RoundTrip.{
  IsInt32, IsStorable, after_position, after_magic, save_to_file-append,
}

-- If there is a result, it has the property.
abbrev OnSome {ℓ} : {A : Type ℓ} → (A → Type 0) → Option A → Type 0
OnSome P none = Unit {0}
OnSome P (some a) = P a

bind-OnSome {ℓ κ} :
    {A : Type ℓ} {B : Type κ} (P : B → Type 0) (o : Option A) (f : A → Option B)
    → ((a : A) → o ≡ some a → OnSome P (f a))
    → OnSome P (o >>= f)
bind-OnSome P none f h = tt
bind-OnSome P (some a) f h = h a refl

-- What `n` bytes that were read are.
record IsRead (n : ℕ) (s : Bytes) (p : Bytes × Bytes) : Type 0 where
  taken : p.0 ++ p.1 ≡ s
  size : length p.0 ≡ n

read-IsRead : (n : ℕ) (s : Bytes) → OnSome (IsRead n s) (read n s)
unfolding read
read-IsRead n s =
    if_cases (OnSome (IsRead n s)) (ltb (length s) n) (λ e. tt)
      (λ e. record { taken = take-append-drop n s; size = ground (arith, length-take n s) })

each_some {ℓ} :
    {A : Type ℓ} (P : A → Type 0) (o : Option A) → ((a : A) → o ≡ some a → P a) → OnSome P o
each_some P none h = tt
each_some P (some a) h = h a refl

on_some {ℓ} : {A : Type ℓ} (P : A → Type 0) (o : Option A) (a : A) → OnSome P o → o ≡ some a → P a
on_some P o a h e = subst (OnSome P) e h

All-front {ℓ} : {A : Type ℓ} (P : A → Type 0) (xs ys : List A) → All P (xs ++ ys) → All P xs
All-front P [] ys h = tt
All-front P (x ∷ xs) ys h = (h.0, All-front P xs ys h.1)

All-back {ℓ} : {A : Type ℓ} (P : A → Type 0) (xs ys : List A) → All P (xs ++ ys) → All P ys
All-back P [] ys h = h
All-back P (x ∷ xs) ys h = All-back P xs ys h.1

-- Four bytes are the writing of the number that they read as.
record IsWord (b : Bytes) (v : ℕ) : Type 0 where
  written_back : write_lint v ≡ b
  fits : v < 2 ^ 32

read_lint-IsWord : (b : Bytes) → IsBytes b → length b ≡ 4 → OnSome (IsWord b) (read_lint b)
unfolding read_lint write_lint
read_lint-IsWord [] h l = absurd (omega arith)
read_lint-IsWord (a ∷ []) h l = absurd (omega arith)
read_lint-IsWord (a ∷ b ∷ []) h l = absurd (omega arith)
read_lint-IsWord (a ∷ b ∷ c ∷ []) h l = absurd (omega arith)
read_lint-IsWord (a ∷ b ∷ c ∷ d ∷ []) h l = record {
  written_back = ground (arith, h.0, h.1.0, h.1.1.0, h.1.1.1.0);
  fits = omega (arith, h.0, h.1.0, h.1.1.0, h.1.1.1.0);
}
read_lint-IsWord (a ∷ b ∷ c ∷ d ∷ e ∷ s) h l = absurd (omega arith)

-- The bytes after a read are bytes.
rest-IsBytes : (n : ℕ) (s : Bytes) (p : Bytes × Bytes) → IsBytes s → IsRead n s p → IsBytes p.1
rest-IsBytes n s p h r = All-back (λ b. b < 256) p.0 p.1 (subst IsBytes (sym r.taken) h)

part-IsBytes : (n : ℕ) (s : Bytes) (p : Bytes × Bytes) → IsBytes s → IsRead n s p → IsBytes p.0
part-IsBytes n s p h r = All-front (λ b. b < 256) p.0 p.1 (subst IsBytes (sym r.taken) h)

from_i32-to_i32 : (v : ℕ) → v < 2 ^ 32 → from_i32 (to_i32 v) ≡ v
from_i32-to_i32 v h = ground arith

to_i32-IsInt32 : (v : ℕ) → v < 2 ^ 32 → IsInt32 (to_i32 v)
to_i32-IsInt32 v h = ground arith

record IsInt (s : Bytes) (p : ℤ × Bytes) : Type 0 where
  taken : write_lint (from_i32 p.0) ++ p.1 ≡ s
  fits : IsInt32 p.0
  rest : IsBytes p.1

read_i32-IsInt : (s : Bytes) → IsBytes s → OnSome (IsInt s) (read_i32 s)
unfolding read_i32
read_i32-IsInt s h = bind-OnSome (IsInt s) (read 4 s) _ (λ p e.
    let r = on_some (IsRead 4 s) (read 4 s) p (read-IsRead 4 s) e in
    bind-OnSome (IsInt s) (read_lint p.0) (λ v. some (to_i32 v, p.1))
      (λ v e'.
        let w =
          on_some (IsWord p.0) (read_lint p.0) v
            (read_lint-IsWord p.0 (part-IsBytes 4 s p h r) r.size) e' in
        record {
          taken =
              ap (λ n. write_lint n ++ p.1) (from_i32-to_i32 v w.fits)
              ∙ ap (λ b. b ++ p.1) w.written_back
              ∙ r.taken;
          fits = to_i32-IsInt32 v w.fits;
          rest = rest-IsBytes 4 s p h r;
        }))

record IsColors (n : ℕ) (s : Bytes) (p : List ℕ × Bytes) : Type 0 where
  taken : save_colors p.0 ++ p.1 ≡ s
  size : length p.0 ≡ n
  fit : All (λ v. v < 2 ^ 32) p.0

load_colors-IsColors : (n : ℕ) (s : Bytes) → IsBytes s → OnSome (IsColors n s) (load_colors n s)
unfolding load_colors save_colors
load_colors-IsColors zero s h = record { taken = refl; size = refl; fit = tt }
load_colors-IsColors (suc n) s h = bind-OnSome (IsColors (suc n) s) (read 4 s) _ (λ p e.
    let r = on_some (IsRead 4 s) (read 4 s) p (read-IsRead 4 s) e in
    bind-OnSome (IsColors (suc n) s) (read_lint p.0) _ (λ v e'.
      let w =
        on_some (IsWord p.0) (read_lint p.0) v
          (read_lint-IsWord p.0 (part-IsBytes 4 s p h r) r.size) e' in
      bind-OnSome (IsColors (suc n) s) (load_colors n p.1) (λ q. some (v ∷ q.0, q.1))
        (λ q e''.
          let cs =
            on_some (IsColors n p.1) (load_colors n p.1) q
              (load_colors-IsColors n p.1 (rest-IsBytes 4 s p h r)) e'' in
          record {
            taken =
                append_assoc (write_lint v) (save_colors q.0) q.1
                ∙ ap (λ b. b ++ (save_colors q.0 ++ q.1)) w.written_back
                ∙ ap (λ b. p.0 ++ b) cs.taken
                ∙ r.taken;
            size = ap suc cs.size;
            fit = (w.fits, cs.fit);
          })))

-- A chunk with the bytes that it was read from.
record IsLoaded (s : Bytes) (c : Chunk) : Type 0 where
  rest : Bytes
  taken : after_magic c rest ≡ s
  storable : IsStorable c

-- A read with what is known of it.
record IsPart (n : ℕ) (s : Bytes) (p : Bytes × Bytes) : Type 0 where
  taken : p.0 ++ p.1 ≡ s
  size : length p.0 ≡ n
  part : IsBytes p.0
  after : IsBytes p.1

bind-read :
    (P : Chunk → Type 0) (n : ℕ) (s : Bytes) (f : Bytes × Bytes → Option Chunk)
    → IsBytes s
    → ((p : Bytes × Bytes) → IsPart n s p → OnSome P (f p))
    → OnSome P (read n s >>= f)
bind-read P n s f h k = bind-OnSome P (read n s) f (λ p e.
    let r = on_some (IsRead n s) (read n s) p (read-IsRead n s) e in
    k p (record {
      taken = r.taken;
      size = r.size;
      part = part-IsBytes n s p h r;
      after = rest-IsBytes n s p h r;
    }))

bind-read_i32 :
    (P : Chunk → Type 0) (s : Bytes) (f : ℤ × Bytes → Option Chunk)
    → IsBytes s
    → ((p : ℤ × Bytes) → IsInt s p → OnSome P (f p))
    → OnSome P (read_i32 s >>= f)
bind-read_i32 P s f h k =
    bind-OnSome P (read_i32 s) f
      (λ p e. k p (on_some (IsInt s) (read_i32 s) p (read_i32-IsInt s h) e))

load_position-IsLoaded : (s : Bytes) → IsBytes s → OnSome (IsLoaded s) (load_position s)
unfolding load_position load_blocks load_metas load_heights load_rest after_magic after_position
load_position-IsLoaded s h =
    let P = IsLoaded s in
    bind-read_i32 P s _ h (λ x ix. bind-read_i32 P x.1 _ ix.rest (λ z iz.
      bind-read P blocks_size z.1 _ iz.rest (λ b ib. bind-read P nibble_size b.1 _ ib.after (λ d id.
        bind-read P map_size d.1 _ id.after (λ m im.
          bind-OnSome P (load_colors map_size m.1) (λ p. some (loaded x.0 z.0 b.0 d.0 m.0 p.0))
            (λ cs e.
              let ic =
                on_some (IsColors map_size m.1) (load_colors map_size m.1) cs
                  (load_colors-IsColors map_size m.1 im.after) e in
              let at_z : Bytes → Bytes = λ t. write_lint (from_i32 x.0) ++ t in
              let at_b : Bytes → Bytes = λ t. at_z (write_lint (from_i32 z.0) ++ t) in
              record {
                rest = cs.1;
                taken =
                    ap (λ t. at_b (b.0 ++ (d.0 ++ (m.0 ++ t)))) ic.taken
                    ∙ ap (λ t. at_b (b.0 ++ (d.0 ++ t))) im.taken
                    ∙ ap (λ t. at_b (b.0 ++ t)) id.taken
                    ∙ ap at_b ib.taken
                    ∙ ap at_z iz.taken
                    ∙ ix.taken;
                storable = record {
                  sized = record {
                    blocks_length = ib.size;
                    metas_length = id.size;
                    heights_length = im.size;
                    metas_bytes = id.part;
                  };
                  x_fits = ix.fits;
                  z_fits = iz.fits;
                  colors_length = ic.size;
                  colors_fit = ic.fit;
                };
              }))))))

abbrev IsSaved : Bytes → Chunk → Type 0
IsSaved s c = IsStorable c × ((rest : Bytes) × (save_to_file c ++ rest ≡ s))

load_from_file-IsSaved : (s : Bytes) → IsBytes s → OnSome (IsSaved s) (load_from_file s)
unfolding load_from_file
load_from_file-IsSaved s h = bind-read (IsSaved s) 4 s _ h (λ p ip.
    if_cases (OnSome (IsSaved s)) (bytes_eq p.0 magic)
      (λ e. each_some (IsSaved s) (load_position p.1) (λ c l.
        let is =
          on_some (IsLoaded p.1) (load_position p.1) c (load_position-IsLoaded p.1 ip.after) l in
        (
          is.storable,
          (
            is.rest,
            save_to_file-append c is.rest
                ∙ ap (λ t. magic ++ t) is.taken
                ∙ ap (λ m. m ++ p.1) (sym (bytes_eq_lem p.0 magic e))
                ∙ ip.taken,
          ),
        )))
      (λ e. tt))

-- A file of bytes that loads is one that saving the loaded chunk writes, with or without more bytes
-- after it, and the loaded chunk has its vectors at their sizes, so that each index is in range.
pub load_from_file-IsStorable :
    (s : Bytes) (c : Chunk)
    → IsBytes s
    → load_from_file s ≡ some c
    → IsStorable c × ((rest : Bytes) × (save_to_file c ++ rest ≡ s))
load_from_file-IsStorable s c h e =
    on_some (IsSaved s) (load_from_file s) c (load_from_file-IsSaved s h) e
