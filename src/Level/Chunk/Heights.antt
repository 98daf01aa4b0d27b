-- ===== src/Level/Chunk/Heights.antt =====
-- The height map of src/level/Chunk.cpp: one more than the height of the highest block of a column.
use mpmpescore_cpp.Prelude.{
  ℕ, zero, suc, ◌+◌, ◌<◌, ◌≤◌, ◌≡◌, sym, ap, ◌∙◌, subst, ◌≢◌, arith, ◌==◌, Bool-cases, if_cases,
  inl, inr,
}
use mpmpescore_cpp.Level.Chunk.{Chunk, id_at, top_below, chunk_height}

-- `h` is the height of a column: air from `h` up, and a block just below `h`.
pub record IsHeight (column : ℕ → ℕ) (h : ℕ) : Type 0 where
  pub above : (y : ℕ) → h ≤ y → y < chunk_height → column y ≡ 0
  pub below : (y : ℕ) → h ≡ suc y → column y ≢ 0
  pub bound : h ≤ chunk_height

unfoldable pub column_of : Chunk → ℕ → ℕ → ℕ → ℕ
unfolding id_at
column_of c x z y = id_at c x y z

-- Air from `n` up.
abbrev pub AirFrom : (ℕ → ℕ) → ℕ → Type 0
AirFrom column n = (y : ℕ) → n ≤ y → y < chunk_height → column y ≡ 0

air_below : (column : ℕ → ℕ) (y : ℕ) → column y ≡ 0 → AirFrom column (suc y) → AirFrom column y
air_below column y e h i g k = elim (Bool-cases (y == i)) [
  | inl q ↦ let same : y ≡ i = ground arith in subst (λ n. column n ≡ 0) same e
  | inr q ↦ h i (ground arith) k
]

-- The loop finds the height; `n` is where it starts.
pub top_below-IsHeight :
    (c : Chunk) (x z n : ℕ)
    → n ≤ chunk_height
    → AirFrom (column_of c x z) n
    → IsHeight (column_of c x z) (top_below c x z n)
unfolding top_below column_of
top_below-IsHeight c x z zero l h = record {
  above = h;
  below = λ y e. absurd (omega arith);
  bound = omega arith;
}
top_below-IsHeight c x z (suc y) l h =
    if_cases (IsHeight (column_of c x z)) (id_at c x y z == 0)
      (λ e.
        top_below-IsHeight c x z y (omega arith) (air_below (column_of c x z) y (ground arith) h))
      (λ e. record {
        above = h;
        below = λ i g k.
            let same : y ≡ i = omega arith in
            let air : id_at c x y z ≡ 0 = subst (λ n. id_at c x n z ≡ 0) (sym same) k in
            ground arith;
        bound = l;
      })

-- A column after one of its blocks is written.
module _ (old new : ℕ → ℕ) (y id : ℕ) (h : ℕ) (at_y : new y ≡ id)
    (others : (j : ℕ) → (y ≡ j → ⊥) → j < chunk_height → new j ≡ old j) (l : y < chunk_height)
    (was : IsHeight old h) where
  at_other : (j : ℕ) → (y ≡ j → ⊥) → j < chunk_height → old j ≡ 0 → new j ≡ 0
  at_other j n k e = others j n k ∙ e

  pub raised-IsHeight : (id ≡ 0 → ⊥) → h < y + 1 → IsHeight new (y + 1)
  raised-IsHeight n k = record {
    above = λ j g m. at_other j (λ e. omega arith) m (was.above j (omega arith) m);
    below = λ j e z. let same : y ≡ j = omega arith in n (sym at_y ∙ ap new same ∙ z);
    bound = omega arith;
  }

  pub kept-IsHeight : (id ≡ 0 → ⊥) → y + 1 ≤ h → IsHeight new h
  kept-IsHeight n k = record {
    above = λ j g m. at_other j (λ e. omega arith) m (was.above j g m);
    below = λ j e z. elim (Bool-cases (y == j)) [
      | inl q ↦ let same : y ≡ j = ground arith in n (sym at_y ∙ ap new same ∙ z)
      | inr q ↦ was.below j e (sym (others j (λ same. ground arith) (omega (arith, was.bound))) ∙ z)
    ];
    bound = was.bound;
  }

  pub cleared-IsHeight : id ≡ 0 → (h ≡ y + 1 → ⊥) → IsHeight new h
  cleared-IsHeight n k = record {
    above = λ j g m. elim (Bool-cases (y == j)) [
      | inl q ↦ let same : y ≡ j = ground arith in ap new (sym same) ∙ at_y ∙ n
      | inr q ↦ at_other j (λ same. ground arith) m (was.above j g m)
    ];
    below = λ j e z.
        was.below j e (sym (others j (λ same. k (omega arith)) (omega (arith, was.bound))) ∙ z);
    bound = was.bound;
  }

pub same-IsHeight :
    (old new : ℕ → ℕ) (h : ℕ)
    → ((j : ℕ) → j < chunk_height → new j ≡ old j)
    → IsHeight old h
    → IsHeight new h
same-IsHeight old new h same was = record {
  above = λ j g m. same j m ∙ was.above j g m;
  below = λ j e z. was.below j e (sym (same j (omega (arith, was.bound))) ∙ z);
  bound = was.bound;
}
