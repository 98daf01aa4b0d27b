-- ===== src/Level/Chunk/HeightMap.antt =====
-- The height map of src/level/Chunk.cpp while blocks are set, and after it is computed anew.
use mpmpescore_cpp.Prelude.{
  ℕ, ◌+◌, ◌<◌, ◌≡◌, refl, sym, ap, ◌∙◌, subst, true, false, not, ◌&&◌, arith, ltb, ◌==◌,
  if◌then◌else◌, length, get_or, get_or-set, Bool-cases, if_both, if_cases, inl, inr,
}
use mpmpescore_cpp.Level.Chunk.{
  Chunk, block_index, id_at, height_at, put_height, put_block, update_height, top_below,
  chunk_height, map_size, column_index,
}
use mpmpescore_cpp.Level.Chunk.Cells.{
  IsSized, Inside, id_at-put_block, update_height-ids, same_place,
}
use mpmpescore_cpp.Level.Chunk.Heights.{
  IsHeight, column_of, top_below-IsHeight, raised-IsHeight, kept-IsHeight, cleared-IsHeight,
  same-IsHeight,
}

-- Each entry of the height map is the height of its column.
unfoldable pub HasHeight : Chunk → ℕ → ℕ → Type 0
unfolding column_of
HasHeight c x z = IsHeight (column_of c x z) (height_at c x z)

pub record HasHeights (c : Chunk) : Type 0 where
  pub column : (x z : ℕ) → x < 16 → z < 16 → HasHeight c x z

pub height_at-put_height :
    (x z h i k : ℕ) (c : Chunk)
    → length c.height_map ≡ map_size
    → x < 16
    → z < 16
    → i < 16
    → height_at (put_height x z h c) i k ≡ (if x == i && z == k then h else height_at c i k)
height_at-put_height x z h i k c l p q r =
    let place : (column_index x z == column_index i k) ≡ (x == i && z == k) = ground arith in
    get_or-set c.height_map (column_index x z) (column_index i k) h 0 (ground arith)
    ∙ ap (λ b. if b then h else height_at c i k) place

height_at-put_self :
    (x z h : ℕ) (c : Chunk)
    → length c.height_map ≡ map_size
    → x < 16
    → z < 16
    → height_at (put_height x z h c) x z ≡ h
height_at-put_self x z h c l p q =
    height_at-put_height x z h x z c l p q p
    ∙ (let e : (x == x && z == z) ≡ true = ground arith in rw e refl)

-- A new height for a column whose blocks have it.
pub put_height-HasHeight :
    (x z h : ℕ) (c : Chunk)
    → length c.height_map ≡ map_size
    → x < 16
    → z < 16
    → IsHeight (column_of c x z) h
    → HasHeight (put_height x z h c) x z
unfolding HasHeight column_of id_at
put_height-HasHeight x z h c l p q g =
    subst (λ n. IsHeight (column_of c x z) n) (sym (height_at-put_self x z h c l p q)) g

module _ (x y z id meta : ℕ) (c : Chunk) (s : IsSized c) (p : Inside x y z)
    (was : HasHeights c) where
  unfoldable pub written : Chunk
  unfolding put_block
  written = put_block x y z id meta c

  others_kept :
      (j : ℕ) → (y ≡ j → ⊥) → j < chunk_height → column_of written x z j ≡ column_of c x z j
  unfolding column_of written
  others_kept j n l =
      let apart : same_place x y z x j z ≡ false = ground arith in
      rw (id_at-put_block x y z x j z id meta c s p (p.0, l, p.2), apart) refl

  at_place : column_of written x z y ≡ id
  unfolding column_of written
  at_place =
      let here : same_place x y z x y z ≡ true = ground arith in
      rw (id_at-put_block x y z x y z id meta c s p p, here) refl

  -- The column that the block stands in.
  own_column : HasHeight (update_height x y z id written) x z
  unfolding update_height written HasHeight column_of
  own_column =
      let old = was.column x z p.0 p.2 in
      let h = height_at c x z in
      if_cases (λ d. HasHeight d x z) (not (id == 0))
        (λ n.
          if_cases (λ d. HasHeight d x z) (ltb h (y + 1))
            (λ k. put_height-HasHeight x z (y + 1) written s.heights_length p.0 p.2 (
              raised-IsHeight _ _ y id h at_place others_kept p.1 old (ground arith)
                (ground arith)))
            (λ k.
              kept-IsHeight _ _ y id h at_place others_kept p.1 old (ground arith) (ground arith)))
        (λ n.
          if_cases (λ d. HasHeight d x z) (h == y + 1)
            (λ k.
              put_height-HasHeight x z (top_below written x z chunk_height) written s.heights_length
                p.0 p.2
                (top_below-IsHeight written x z chunk_height (omega arith)
                  (λ j g m. absurd (omega arith))))
            (λ k.
              cleared-IsHeight _ _ y id h at_place others_kept p.1 old (ground arith)
                (λ e. ground arith)))

  -- A column that the block does not stand in.
  other_height :
      (i k : ℕ)
      → i < 16
      → k < 16
      → (x == i && z == k) ≡ false
      → height_at (update_height x y z id written) i k ≡ height_at c i k
  unfolding update_height written
  other_height i k q r e =
      let put : (h : ℕ) → height_at (put_height x z h written) i k ≡ height_at c i k =
        λ h. height_at-put_height x z h i k written s.heights_length p.0 p.2 q ∙ (rw e refl) in
      let P : Chunk → Type 0 = λ d. height_at d i k ≡ height_at c i k in
      if_both P (not (id == 0)) (if_both P (ltb (height_at c x z) (y + 1)) (put _) refl)
        (if_both P (height_at c x z == y + 1) (put _) refl)

  other_column :
      (i k : ℕ)
      → i < 16
      → k < 16
      → (x == i && z == k) ≡ false
      → HasHeight (update_height x y z id written) i k
  unfolding HasHeight column_of id_at written
  other_column i k q r e =
      subst (λ h. IsHeight (column_of (update_height x y z id written) i k) h)
        (sym (other_height i k q r e))
        (same-IsHeight (column_of c i k) _ _
          (λ j l.
            let apart : same_place x y z i j k ≡ false = ground arith in
            ap (λ b. get_or b (block_index i j k) 0) (update_height-ids x y z id written)
            ∙ rw (id_at-put_block x y z i j k id meta c s p (q, l, r), apart) refl)
          (was.column i k q r))

  pub put_block-HasHeights : HasHeights (update_height x y z id written)
  put_block-HasHeights = record {
    column = λ i k q r. elim (Bool-cases (x == i && z == k)) [
      | inl e ↦
          let ex : x ≡ i = ground arith in
          let ez : z ≡ k = ground arith in
          subst (λ n. HasHeight (update_height x y z id written) n k) ex
            (subst (λ n. HasHeight (update_height x y z id written) x n) ez own_column)
      | inr e ↦ other_column i k q r e
    ];
  }
