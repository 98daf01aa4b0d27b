-- ===== src/Level/Generators/Noise.antt =====
-- The noise of src/level/Chunk.cpp. The arithmetic of float is an interface: a type with the
-- operations that the code uses.
use mpmpescore_cpp.Prelude.{ℕ, zero, suc, ◌+◌, ◌*◌, Bool}
use mpmpescore_cpp.Prelude.Int.{ℤ, pos, pos_part, neg_part, ◌+ℤ◌}
use mpmpescore_cpp.Prelude.Bits.{bit_and}
use mpmpescore_cpp.Level.Generators.{hash2}
use mpmpescore_cpp.Prelude.Int.{sub_ℕ}

pub record Floats (F : Type 0) : Type 0 where
  pub of_int : ℤ → F
  -- A literal with its numerator and denominator.
  pub lit : ℕ → ℕ → F
  pub add : F → F → F
  pub sub : F → F → F
  pub mul : F → F → F
  pub div : F → F → F
  pub sqrt : F → F
  pub lt : F → F → Bool
  -- static_cast<int>, and the same after std::floor.
  pub trunc : F → ℤ
  pub floor : F → ℤ

-- k * a.
abbrev pub scale : ℕ → ℤ → ℤ
scale k a = sub_ℕ (k * pos_part a) (k * neg_part a)

-- (chunk << 4) + x.
abbrev pub world : ℤ → ℕ → ℤ
world chunk x = scale 16 chunk +ℤ pos x

module _ {F : Type 0} (fl : Floats F) where
  unfoldable pub value_noise2d : ℤ → ℤ → ℤ → F
  unfolding hash2
  value_noise2d x z seed =
      fl.div (fl.of_int (pos (bit_and (hash2 x z seed) 0xffff))) (fl.lit 65535 1)

  -- u * u * (3 - 2 * u).
  abbrev smoothstep : F → F
  smoothstep u = fl.mul (fl.mul u u) (fl.sub (fl.lit 3 1) (fl.mul (fl.lit 2 1) u))

  -- a + (b - a) * u.
  abbrev between : F → F → F → F
  between a b u = fl.add a (fl.mul (fl.sub b a) u)

  unfoldable pub smooth_noise2d : F → F → ℤ → F
  unfolding value_noise2d
  smooth_noise2d x z seed =
      let x0 = fl.floor x in
      let z0 = fl.floor z in
      let ux = smoothstep (fl.sub x (fl.of_int x0)) in
      let uz = smoothstep (fl.sub z (fl.of_int z0)) in
      let a = value_noise2d x0 z0 seed in
      let b = value_noise2d (x0 +ℤ pos 1) z0 seed in
      let c = value_noise2d x0 (z0 +ℤ pos 1) seed in
      let d = value_noise2d (x0 +ℤ pos 1) (z0 +ℤ pos 1) seed in
      between (between a b ux) (between c d ux) uz

  -- The loop: `left` octaves from the `i`th on.
  unfoldable pub fbm_loop : ℕ → ℕ → F → F → ℤ → F → F → F → F → F
  unfolding smooth_noise2d
  fbm_loop zero i x z seed amp freq sum norm = fl.div sum norm
  fbm_loop (suc left) i x z seed amp freq sum norm =
      fbm_loop left (i + 1) x z seed (fl.mul amp (fl.lit 5 10)) (fl.mul freq (fl.lit 2 1))
        (fl.add sum
          (fl.mul (smooth_noise2d (fl.mul x freq) (fl.mul z freq) (seed +ℤ pos (i * 131))) amp))
        (fl.add norm amp)

  unfoldable pub fbm2d : F → F → ℤ → ℕ → F
  unfolding fbm_loop
  fbm2d x z seed octaves =
      fbm_loop octaves 0 x z seed (fl.lit 1 1) (fl.lit 1 1) (fl.lit 0 1) (fl.lit 0 1)

  -- The noise at a place whose coordinates are multiplied by `step`.
  unfoldable pub noise_at : F → ℤ → ℤ → ℤ → ℕ → F
  unfolding fbm2d
  noise_at step wx wz seed octaves =
      fbm2d (fl.mul (fl.of_int wx) step) (fl.mul (fl.of_int wz) step) seed octaves
