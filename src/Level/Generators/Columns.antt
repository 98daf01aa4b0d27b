-- ===== src/Level/Generators/Columns.antt =====
-- Chunks of src/level/Chunk.cpp that are filled column by column from the bottom.
use mpmpescore_cpp.Prelude.{
  ℕ, zero, suc, ◌+◌, ◌<◌, ◌≤◌, ◌≡◌, refl, sym, ap, ◌∙◌, subst, ◌≢◌, true, false, Bool, not, ◌&&◌,
  arith, ltb, ◌==◌, if◌then◌else◌, Bool-cases, if_both, inl, inr,
}
use mpmpescore_cpp.Prelude.Int.{ℤ, pos}
use mpmpescore_cpp.Level.Chunk.{
  Chunk, outside, outside_column, id_at, meta_at, set_block, get_block_id, get_block_meta,
  new_chunk, set_biome, set_height, over_columns, set_generated,
}
use mpmpescore_cpp.Level.Chunk.Cells.{cells, same_position, cells-set_block}
use mpmpescore_cpp.Level.Chunk.Heights.{IsHeight, column_of}
use mpmpescore_cpp.Level.Chunk.Sound.{
  IsSound, set_block-IsSound, set_height-IsSound, set_biome-IsSound, new_chunk-IsSound,
  new_chunk-air, new_chunk-no_meta,
}
use mpmpescore_cpp.Level.Chunk.Cells.{cells-inside}
use mpmpescore_cpp.Level.Chunk.Passes.{over_columns-all}
use mpmpescore_cpp.Level.Generators.{fill}

cells-set_biome :
    (x z : ℤ) (biome rgb : ℕ) (c : Chunk) → cells (set_biome x z biome rgb c) ≡ cells c
unfolding set_biome cells get_block_id get_block_meta id_at meta_at
cells-set_biome x z biome rgb c = if_both (λ d. cells d ≡ cells c) (outside_column x z) refl refl

cells-set_height : (x z : ℤ) (h : ℕ) (c : Chunk) → cells (set_height x z h c) ≡ cells c
unfolding set_height cells get_block_id get_block_meta id_at meta_at
cells-set_height x z h c = if_both (λ d. cells d ≡ cells c) (outside_column x z) refl refl

pub cells-set_generated : (c : Chunk) → cells (set_generated c) ≡ cells c
unfolding cells get_block_id get_block_meta id_at meta_at
cells-set_generated c = refl

-- A block of identifier `id` at a place.
abbrev pub HasBlock : Chunk → ℕ → ℕ → ℕ → ℕ → Type 0
HasBlock c i y k id = cells c (pos i) (pos y) (pos k) ≡ (id, 0)

-- A new chunk is all air.
pub new_chunk-HasBlock :
    (x z : ℤ) (i j k : ℕ) → i < 16 → j < 128 → k < 16 → HasBlock (new_chunk x z) i j k 0
new_chunk-HasBlock x z i j k p q r =
    let inside : outside (pos i) (pos j) (pos k) ≡ false = ground arith in
    cells-inside (pos i) (pos j) (pos k) (new_chunk x z) inside
    ∙ rw (new_chunk-air x z i j k, new_chunk-no_meta x z i j k) refl

-- The test for one more layer, as a block of the new layer or of those below.
next_layer :
    (layer : ℕ → ℕ) (x z n i y k : ℕ) (w : ℕ × ℕ)
    → (if x == i && n == y && z == k
        then (layer n, 0)
        else (if x == i && z == k && ltb y n then (layer y, 0) else w))
      ≡ (if x == i && z == k && ltb y (suc n) then (layer y, 0) else w)
next_layer layer x z n i y k w = elim (Bool-cases (x == i && n == y && z == k)) [
  | inl e ↦
      let same : n ≡ y = ground arith in
      let included : (x == i && z == k && ltb y (suc n)) ≡ true = ground arith in
      rw (e, included) (ap (λ m. (layer m, 0)) same)
  | inr e ↦
      let unchanged : (x == i && z == k && ltb y n) ≡ (x == i && z == k && ltb y (suc n)) =
        ground arith in
      rw e (ap (λ b. if b then (layer y, 0) else w) unchanged)
]

module _ (layer : ℕ → ℕ) (x z : ℕ) (c : Chunk) (s : IsSound c) where
  fill-IsSound : (n : ℕ) → IsSound (fill x z layer 0 n c)
  unfolding fill
  fill-IsSound zero = s
  fill-IsSound (suc n) =
      set_block-IsSound (pos x) (pos (0 + n)) (pos z) (layer (0 + n)) 0 (fill x z layer 0 n c)
        (fill-IsSound n) (omega arith)

  cells-fill :
      (n i y k : ℕ)
      → x < 16
      → z < 16
      → n ≤ 128
      → i < 16
      → y < 128
      → k < 16
      → cells (fill x z layer 0 n c) (pos i) (pos y) (pos k)
        ≡ (if x == i && z == k && ltb y n then (layer y, 0) else cells c (pos i) (pos y) (pos k))
  unfolding fill
  cells-fill zero i y k p q l r g t =
      let w = cells c (pos i) (pos y) (pos k) in
      let none_yet : (x == i && z == k && ltb y 0) ≡ false = ground arith in
      sym (ap (λ b. if b then (layer y, 0) else w) none_yet)
  cells-fill (suc n) i y k p q l r g t =
      let w = cells c (pos i) (pos y) (pos k) in
      let b = cells (fill x z layer 0 n c) (pos i) (pos y) (pos k) in
      let here : (not (outside (pos x) (pos n) (pos z))
            && same_position (pos x) (pos n) (pos z) (pos i) (pos y) (pos k))
          ≡ (x == i && n == y && z == k) =
        ground arith in
      let start : 0 + n ≡ n = omega arith in
      ap
        (λ m.
          cells (set_block (pos x) (pos m) (pos z) (layer m) 0 (fill x z layer 0 n c)) (pos i)
            (pos y) (pos k))
        start
      ∙ ap (λ f. f (pos i) (pos y) (pos k))
          (cells-set_block (pos x) (pos n) (pos z) (layer n) 0 (fill x z layer 0 n c)
            (fill-IsSound n).sized (omega arith))
      ∙ ap (λ t. if t then (layer n, 0) else b) here
      ∙ ap (λ v. if x == i && n == y && z == k then (layer n, 0) else v)
          (cells-fill n i y k p q (omega arith) r g t)
      ∙ next_layer layer x z n i y k w

  -- The column that is filled, when it was air.
  own_layers :
      (n y : ℕ)
      → x < 16
      → z < 16
      → n ≤ 128
      → y < 128
      → HasBlock c x y z 0
      → HasBlock (fill x z layer 0 n c) x y z (if ltb y n then layer y else 0)
  own_layers n y p q l g air =
      cells-fill n x y z p q l p g q
      ∙ ap (λ w. if x == x && z == z && ltb y n then (layer y, 0) else w) air
      ∙ elim (Bool-cases (ltb y n)) [
        | inl e ↦
            let here : (x == x && z == z && ltb y n) ≡ true = ground arith in rw (here, e) refl
        | inr e ↦
            let above : (x == x && z == z && ltb y n) ≡ false = ground arith in rw (above, e) refl
      ]

  own-IsHeight :
      (n : ℕ)
      → x < 16
      → z < 16
      → n < 128
      → layer n ≢ 0
      → ((y : ℕ) → y < 128 → HasBlock c x y z 0)
      → IsHeight (column_of (fill x z layer 0 (suc n) c) x z) (suc n)
  unfolding column_of
  own-IsHeight n p q l top air =
      let d = fill x z layer 0 (suc n) c in
      let at_layer : (y : ℕ) → y < 128 → id_at d x y z ≡ (if ltb y (suc n) then layer y else 0) =
        λ y g.
          let inside : outside (pos x) (pos y) (pos z) ≡ false = ground arith in
          ap (λ v. v.0)
            (sym (cells-inside (pos x) (pos y) (pos z) d inside)
              ∙ own_layers (suc n) y p q (omega arith) g (air y g)) in
      record {
        above = λ y g m.
            let no_layer : ltb y (suc n) ≡ false = ground arith in
            at_layer y m ∙ ap (λ b. if b then layer y else 0) no_layer;
        below = λ y e air_there.
            let same : n ≡ y = omega arith in
            let filled : ltb n (suc n) ≡ true = ground arith in
            top (
              sym (ap (λ b. if b then layer n else 0) filled)
              ∙ sym (at_layer n l)
              ∙ subst (λ m. id_at d x m z ≡ 0) (sym same) air_there);
        bound = omega arith;
      }

-- A chunk that is filled up to `tall`, with a biome and the height set in each column.
abbrev pub column_step :
    (ℕ → ℕ → ℕ) → (ℕ → ℕ → ℕ) → (ℕ → ℕ → ℕ) → (ℕ → ℕ → ℕ → ℕ) → ℕ → ℕ → Chunk → Chunk
column_step biome rgb tall layer x z c =
    set_height (pos x) (pos z) (suc (tall x z))
      (fill x z (layer x z) 0 (suc (tall x z)) (set_biome (pos x) (pos z) (biome x z) (rgb x z) c))

-- The blocks of a column, after its step or before.
abbrev pub Filled : (ℕ → ℕ → ℕ) → (ℕ → ℕ → ℕ → ℕ) → Bool → Chunk → ℕ → ℕ → Type 0
Filled tall layer b c i k =
    (y : ℕ)
    → y < 128
    → HasBlock c i y k (if b then (if ltb y (suc (tall i k)) then layer i k y else 0) else 0)

module _ (biome rgb tall : ℕ → ℕ → ℕ) (layer : ℕ → ℕ → ℕ → ℕ) (bounded : (x z : ℕ) → tall x z < 128)
    (topped : (x z : ℕ) → layer x z (tall x z) ≢ 0) where
  cells-biome_set :
      (x z : ℕ) (c : Chunk) → cells (set_biome (pos x) (pos z) (biome x z) (rgb x z) c) ≡ cells c
  cells-biome_set x z c = cells-set_biome (pos x) (pos z) (biome x z) (rgb x z) c

  step-makes :
      (x z : ℕ) (c : Chunk)
      → x < 16
      → z < 16
      → IsSound c
      → Filled tall layer false c x z
      → IsSound (column_step biome rgb tall layer x z c)
        × Filled tall layer true (column_step biome rgb tall layer x z c) x z
  step-makes x z c p q s air =
      let b = set_biome (pos x) (pos z) (biome x z) (rgb x z) c in
      let sb = set_biome-IsSound (pos x) (pos z) (biome x z) (rgb x z) c s in
      let air_b : (y : ℕ) → y < 128 → HasBlock b x y z 0 =
        λ y g. ap (λ f. f (pos x) (pos y) (pos z)) (cells-biome_set x z c) ∙ air y g in
      let n = suc (tall x z) in
      let d = fill x z (layer x z) 0 n b in
      (
        set_height-IsSound x z n d p q (fill-IsSound (layer x z) x z b sb n)
            (own-IsHeight (layer x z) x z b sb (tall x z) p q (bounded x z) (topped x z) air_b),
        λ y g.
            ap (λ f. f (pos x) (pos y) (pos z)) (cells-set_height (pos x) (pos z) n d)
            ∙ own_layers (layer x z) x z b sb n y p q (omega (arith, bounded x z)) g (air_b y g),
      )

  step-leaves :
      (b : Bool) (x z i k : ℕ) (c : Chunk)
      → x < 16
      → z < 16
      → i < 16
      → k < 16
      → (x == i && z == k) ≡ false
      → IsSound c
      → Filled tall layer b c i k
      → Filled tall layer b (column_step biome rgb tall layer x z c) i k
  step-leaves b x z i k c p q r t e s h = λ y g.
      let w = set_biome (pos x) (pos z) (biome x z) (rgb x z) c in
      let sw = set_biome-IsSound (pos x) (pos z) (biome x z) (rgb x z) c s in
      let n = suc (tall x z) in
      let apart : (x == i && z == k && ltb y n) ≡ false = ground arith in
      ap (λ f. f (pos i) (pos y) (pos k))
        (cells-set_height (pos x) (pos z) n (fill x z (layer x z) 0 n w))
      ∙ cells-fill (layer x z) x z w sw n i y k p q (omega (arith, bounded x z)) r g t
      ∙ ap (λ u. if u then (layer x z y, 0) else cells w (pos i) (pos y) (pos k)) apart
      ∙ ap (λ f. f (pos i) (pos y) (pos k)) (cells-biome_set x z c)
      ∙ h y g

  new_chunk-Filled :
      (x z : ℤ) (i k : ℕ) → i < 16 → k < 16 → Filled tall layer false (new_chunk x z) i k
  new_chunk-Filled x z i k p q = λ y g. new_chunk-HasBlock x z i y k p g q

  -- A loop whose step fills a column so, from a new chunk.
  pub over_columns_lem :
      (f : ℕ → ℕ → Chunk → Chunk) (x z : ℤ)
      → f ≡ column_step biome rgb tall layer
      → IsSound (over_columns f 16 (new_chunk x z))
        × ((i k : ℕ)
            → i < 16
            → k < 16
            → Filled tall layer true (over_columns f 16 (new_chunk x z)) i k)
  over_columns_lem f x z e =
      subst
        (λ g.
          IsSound (over_columns g 16 (new_chunk x z))
          × ((i k : ℕ)
              → i < 16
              → k < 16
              → Filled tall layer true (over_columns g 16 (new_chunk x z)) i k))
        (sym e)
        (over_columns-all (column_step biome rgb tall layer) IsSound (Filled tall layer) step-makes
          step-leaves (new_chunk x z) (new_chunk-IsSound x z) (new_chunk-Filled x z))
