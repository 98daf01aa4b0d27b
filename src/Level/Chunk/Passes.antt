-- ===== src/Level/Chunk/Passes.antt =====
-- The loops over the columns of a chunk in src/level/Chunk.cpp, for a step that changes its own
-- column only.
use mpmpescore_cpp.Prelude.{
  ℕ, zero, suc, ◌<◌, ◌≤◌, ◌≡◌, subst, true, false, Bool, ◌&&◌, ◌||◌, arith, ltb, ◌==◌, Bool-cases,
  inl, inr,
}
use mpmpescore_cpp.Level.Chunk.{Chunk, over_x, over_columns}

module _ (f : ℕ → ℕ → Chunk → Chunk) (I : Chunk → Type 0)
    -- What a column has, after its step (`true`) or before.
    (R : Bool → Chunk → ℕ → ℕ → Type 0)
    (makes : (x z : ℕ) (c : Chunk)
      → x < 16
      → z < 16
      → I c
      → R false c x z
      → I (f x z c) × R true (f x z c) x z)
    (leaves : (b : Bool) (x z i k : ℕ) (c : Chunk)
      → x < 16
      → z < 16
      → i < 16
      → k < 16
      → (x == i && z == k) ≡ false
      → I c
      → R b c i k
      → R b (f x z c) i k) where
  -- The columns before the `n`th of row `z` have had their step.
  abbrev done : ℕ → ℕ → ℕ → ℕ → Bool
  done z n i k = ltb k z || (k == z && ltb i n)

  abbrev State : ℕ → ℕ → Chunk → Type 0
  State z n c = I c × ((i k : ℕ) → i < 16 → k < 16 → R (done z n i k) c i k)

  step-State : (z n : ℕ) (c : Chunk) → z < 16 → n < 16 → State z n c → State z (suc n) (f n z c)
  step-State z n c q l (h, r) =
      let fresh : done z n n z ≡ false = ground arith in
      let own = makes n z c l q h (subst (λ b. R b c n z) fresh (r n z l q)) in
      (
        own.0,
        λ i k p t. elim (Bool-cases (n == i && z == k)) [
          | inl e ↦
              let stepped : true ≡ done z (suc n) n z = ground arith in
              let ex : n ≡ i = ground arith in
              let ez : z ≡ k = ground arith in
              subst (λ m. R (done z (suc n) m k) (f n z c) m k) ex
                (subst (λ m. R (done z (suc n) n m) (f n z c) n m) ez
                  (subst (λ b. R b (f n z c) n z) stepped own.1))
          | inr e ↦
              let same : done z n i k ≡ done z (suc n) i k = ground arith in
              subst (λ b. R b (f n z c) i k) same
                (leaves (done z n i k) n z i k c l q p t e h (r i k p t))
        ],
      )

  over_x-State : (z n : ℕ) (c : Chunk) → z < 16 → n ≤ 16 → State z 0 c → State z n (over_x f z n c)
  unfolding over_x
  over_x-State z zero c q l h = h
  over_x-State z (suc n) c q l h =
      step-State z n (over_x f z n c) q (omega arith) (over_x-State z n c q (omega arith) h)

  next_row : (z : ℕ) (c : Chunk) → State z 16 c → State (suc z) 0 c
  next_row z c (h, r) = (
    h,
    λ i k p t.
        let same : done z 16 i k ≡ done (suc z) 0 i k = ground arith in
        subst (λ b. R b c i k) same (r i k p t),
  )

  over_columns-State : (n : ℕ) (c : Chunk) → n ≤ 16 → State 0 0 c → State n 0 (over_columns f n c)
  unfolding over_columns
  over_columns-State zero c l h = h
  over_columns-State (suc n) c l h = next_row n _ (
      over_x-State n 16 (over_columns f n c) (omega arith) (omega arith)
        (over_columns-State n c (omega arith) h))

  -- All 256 columns have had their step.
  pub over_columns-all :
      (c : Chunk)
      → I c
      → ((i k : ℕ) → i < 16 → k < 16 → R false c i k)
      → I (over_columns f 16 c) × ((i k : ℕ) → i < 16 → k < 16 → R true (over_columns f 16 c) i k)
  over_columns-all c h r =
      let start : State 0 0 c = (
        h,
        λ i k p t.
            let none_yet : false ≡ done 0 0 i k = ground arith in
            subst (λ b. R b c i k) none_yet (r i k p t),
      ) in
      let (h', r') = over_columns-State 16 c (omega arith) start in
      (
        h',
        λ i k p t.
            let all_done : done 16 0 i k ≡ true = ground arith in
            subst (λ b. R b (over_columns f 16 c) i k) all_done (r' i k p t),
      )
