-- ===== src/Block/Rails.antt =====
-- include/mpmpes/block/Rails.hpp: which way a rail turns. The level is reached by three operations
-- only, which are an interface here. A coordinate is an integer that does not overflow.
pub mod Shapes
pub mod Recompute
pub mod Placing
use mpmpescore_cpp.Prelude.{
  ℕ, zero, suc, ◌+◌, ◌-◌, Bool, true, false, not, ◌&&◌, ◌||◌, Option, none, some, List, [], ◌∷◌,
  ◌++◌, ltb, leb, ◌==◌, if◌then◌else◌, is_empty, length, get_or,
}
use mpmpescore_cpp.Prelude.Int.{ℤ, pos, negsuc, ◌+ℤ◌, ◌-ℤ◌, eqℤ}
use mpmpescore_cpp.Prelude.Bits.{bit_and, bit_or}

-- `BLOCK_RAIL` and the rails with power.
abbrev pub block_rail : ℕ
block_rail = 66

abbrev pub is_rail_id : ℕ → Bool
is_rail_id id = id == block_rail || id == 27 || id == 28 || id == 126

abbrev pub is_normal_rail : ℕ → Bool
is_normal_rail id = id == block_rail

-- An offset in x and z.
abbrev pub Offset : Type 0
Offset = ℤ × ℤ

abbrev pub east : Offset
east = (pos 1, pos 0)

abbrev pub south : Offset
south = (pos 0, pos 1)

abbrev pub west : Offset
west = (negsuc 0, pos 0)

abbrev pub north : Offset
north = (pos 0, negsuc 0)

-- The two ends for each of the ten shapes.
abbrev pub rail_conn_table : List (Offset × Offset)
rail_conn_table =
    (south, north)
    ∷ (east, west)
    ∷ (east, west)
    ∷ (east, west)
    ∷ (south, north)
    ∷ (south, north)
    ∷ (east, south)
    ∷ (south, west)
    ∷ (west, north)
    ∷ (north, east)
    ∷ []

abbrev pub ends_of : ℕ → Offset × Offset
ends_of base = get_or rail_conn_table base (south, north)

unfoldable pub rail_base_meta : ℕ → ℕ → ℕ
rail_base_meta id meta = if id == block_rail then bit_and meta 0x0f else bit_and meta 0x7

unfoldable pub rail_pack_meta : ℕ → ℕ → Bool → ℕ
rail_pack_meta id base powered =
    if id == block_rail
    then bit_and base 0x0f
    else bit_or (bit_and base 0x7) (if powered then 0x8 else 0)

-- The heights at which a neighbour is looked for, in this order.
abbrev pub heights : List ℤ
heights = pos 0 ∷ pos 1 ∷ negsuc 0 ∷ []

abbrev pub first_of : (ℤ → Bool) → List ℤ → Option ℤ
first_of test [] = none
first_of test (y ∷ ys) = let rest = first_of test ys in if test y then some y else rest

abbrev pub found : Option ℤ → Bool
found none = false
found (some y) = true

abbrev pub abs : ℤ → ℕ
abs (pos n) = n
abs (negsuc n) = n + 1

abbrev pub is_zero : ℤ → Bool
is_zero z = eqℤ z (pos 0)

-- What the rails use of `level::Level`.
pub record LevelOps (World : Type 0) : Type 0 where
  pub get_block_id : World → ℤ → ℤ → ℤ → ℕ
  pub get_block_meta : World → ℤ → ℤ → ℤ → ℕ
  pub set_block : ℤ → ℤ → ℤ → ℕ → ℕ → World → World

-- A relative position of a connected neighbour.
abbrev pub Relative : Type 0
Relative = ℤ × ℤ × ℤ

-- `v` is the one neighbour.
abbrev pub meta_of_one : Relative → ℕ
meta_of_one v =
    if not (eqℤ v.1 (pos 1))
    then (if is_zero v.0 then 0 else 1)
    else (if is_zero v.2
        then (if eqℤ v.0 (pos 1) then 2 else 3)
        else (if eqℤ v.2 (pos 1) then 5 else 4))

abbrev pub is_curve : Relative → Relative → Bool
is_curve a b = (abs a.0 == abs b.2) && ((abs b.0 == abs a.2) && (is_zero a.1 && is_zero b.1))

abbrev pub curve_of : ℤ → ℤ → ℕ
curve_of sx sz =
    if eqℤ sx (pos 1) then (if eqℤ sz (pos 1) then 6 else 9) else (if eqℤ sz (pos 1) then 7 else 8)

abbrev pub slope_of : Relative → ℕ
slope_of v =
    if is_zero v.0
    then (if eqℤ v.2 (negsuc 0) then 4 else 5)
    else (if eqℤ v.0 (pos 1) then 2 else 3)

abbrev pub meta_of_two : Relative → Relative → Bool → ℕ
meta_of_two a b allow_curve =
    if allow_curve && is_curve a b
    then curve_of (a.0 +ℤ b.0) (a.2 +ℤ b.2)
    else (if eqℤ a.1 (pos 1) || eqℤ b.1 (pos 1)
        then slope_of (if eqℤ a.1 (pos 1) then a else b)
        else (if is_zero a.0 then 0 else 1))

unfoldable pub meta_from_connections : List Relative → Bool → ℕ
meta_from_connections [] allow_curve = 0
meta_from_connections (v ∷ []) allow_curve = meta_of_one v
meta_from_connections (a ∷ b ∷ rels) allow_curve = meta_of_two a b allow_curve

-- The shape of a special rail is one of the first six.
abbrev pub shape : ℕ → ℕ → ℕ
shape id base = if not (id == block_rail) && ltb 5 base then 0 else base

-- The new neighbour stands across the direction.
abbrev pub is_across : Offset → ℤ → ℤ → Bool
is_across e dx dz =
    ((abs dx == abs e.1) && ((abs dz == abs e.0) && (not (is_zero dx) || not (is_zero dz))))
    && ((not (is_zero e.0) && (not (is_zero dz) && is_zero dx))
        || (not (is_zero e.1) && (not (is_zero dx) && is_zero dz)))

abbrev pub is_turned : Option Offset → ℤ → ℤ → Bool
is_turned none dx dz = false
is_turned (some e) dx dz = is_across e dx dz

abbrev pub append_found : Offset → Option ℤ → List Relative → List Relative
append_found d none rels = rels
append_found d (some dy) rels = rels ++ ((d.0, dy, d.1) ∷ [])

abbrev pub sides : List Offset
sides = east ∷ south ∷ west ∷ north ∷ []

-- A special rail takes no curve.
abbrev pub straight : Bool → ℕ → ℕ
straight allow_curve base =
    if not allow_curve && ltb 5 base then (if base == 6 || base == 8 then 1 else 0) else base

module _ {World : Type 0} (ops : LevelOps World) (world : World) where
  abbrev pub rail_at : ℤ → ℤ → ℤ → Bool
  rail_at x y z = is_rail_id (ops.get_block_id world x y z)

  abbrev pub base_at : ℤ → ℤ → ℤ → ℕ
  base_at x y z = rail_base_meta (ops.get_block_id world x y z) (ops.get_block_meta world x y z)

  -- One of the ends of the rail at the position is `e`.
  abbrev pub points_along : ℤ → ℤ → ℤ → ℤ → ℤ → Bool
  points_along x y z ex ez =
      let base = shape (ops.get_block_id world x y z) (base_at x y z) in
      let ends = ends_of base in
      leb base 9 && ((eqℤ ends.0.0 ex && eqℤ ends.0.1 ez) || (eqℤ ends.1.0 ex && eqℤ ends.1.1 ez))

  -- The neighbour at an end, at one of the three heights, that points back.
  abbrev pub claims : ℤ → ℤ → ℤ → Offset → Bool
  claims x y z e = found (
      first_of
        (λ dy.
          rail_at (x +ℤ e.0) (y +ℤ dy) (z +ℤ e.1)
          && points_along (x +ℤ e.0) (y +ℤ dy) (z +ℤ e.1) (pos 0 -ℤ e.0) (pos 0 -ℤ e.1))
        heights)

  unfoldable pub rail_connected_count : ℤ → ℤ → ℤ → ℕ
  rail_connected_count x y z =
      let base = base_at x y z in
      let ends = ends_of (shape (ops.get_block_id world x y z) base) in
      if not (rail_at x y z) || ltb 9 base
      then 0
      else (if claims x y z ends.0 then 1 else 0) + (if claims x y z ends.1 then 1 else 0)

  abbrev pub has_rail : ℤ → ℤ → ℤ → Offset → Bool
  has_rail x y z e = found (first_of (λ dy. rail_at (x +ℤ e.0) (y +ℤ dy) (z +ℤ e.1)) heights)

  -- The direction of a special rail with one neighbour.
  abbrev pub taken_end : ℤ → ℤ → ℤ → Option Offset
  taken_end x y z =
      let ends = ends_of (if ltb 5 (base_at x y z) then 0 else base_at x y z) in
      if has_rail x y z ends.0
      then some ends.0
      else (if has_rail x y z ends.1 then some ends.1 else none)

  unfoldable pub rail_can_accept : ℤ → ℤ → ℤ → ℤ → ℤ → Bool
  rail_can_accept x y z from_x from_z =
      let count = rail_connected_count x y z in
      if not (rail_at x y z) || leb 2 count
      then false
      else (if not (ops.get_block_id world x y z == block_rail) && count == 1
          then not (is_turned (taken_end x y z) (from_x -ℤ x) (from_z -ℤ z))
          else true)

  -- The neighbour at a position is refused: it is full, and does not face us.
  abbrev pub is_connectable : ℤ → ℤ → ℤ → ℤ → ℤ → Bool
  is_connectable nx ny nz x z =
      rail_at nx ny nz
      && (not (not (rail_can_accept nx ny nz x z) && leb 2 (rail_connected_count nx ny nz))
          || points_along nx ny nz (x -ℤ nx) (z -ℤ nz))

  -- The loop over the four sides, which stops at two neighbours.
  abbrev pub connect : List Offset → ℤ → ℤ → ℤ → List Relative → List Relative
  connect [] x y z rels = rels
  connect (d ∷ sides) x y z rels =
      let neighbour = first_of (λ dy. is_connectable (x +ℤ d.0) (y +ℤ dy) (z +ℤ d.1) x z) heights in
      let rels' = append_found d neighbour rels in
      let more = connect sides x y z rels' in if length rels' == 2 then rels' else more

  -- The new metadata, and the level in which it is set.
  unfoldable pub recompute_rail_meta : ℤ → ℤ → ℤ → ℕ × World
  recompute_rail_meta x y z =
      let id = ops.get_block_id world x y z in
      let powered =
        not (id == block_rail) && not (bit_and (ops.get_block_meta world x y z) 0x8 == 0) in
      let allow_curve = is_normal_rail id in
      let base =
        straight allow_curve (meta_from_connections (connect sides x y z []) allow_curve) in
      let meta = rail_pack_meta id base powered in
      if is_rail_id id then (meta, ops.set_block x y z id meta world) else (0, world)
