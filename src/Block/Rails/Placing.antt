-- ===== src/Block/Rails/Placing.antt =====
-- `placeRailAuto` and `updateRailsAround` of include/mpmpes/block/Rails.hpp.
pub mod Updates
use mpmpescore_cpp.Prelude.{
  ℕ, ◌+◌, Bool, true, false, not, ◌&&◌, ◌||◌, Option, none, some, List, [], ◌∷◌, ◌++◌, ltb, leb,
  ◌==◌, if◌then◌else◌,
}
use mpmpescore_cpp.Prelude.Int.{ℤ, pos, negsuc, ◌+ℤ◌, ◌-ℤ◌, eqℤ, ltℤ}
use mpmpescore_cpp.Block.Rails.{
  Offset, LevelOps, is_rail_id, rail_at, first_of, heights, sides, rail_can_accept,
  rail_connected_count, recompute_rail_meta,
}

abbrev pub Position : Type 0
Position = ℤ × ℤ × ℤ

-- A block that has changed.
pub record Update : Type 0 where
  pub at : Position
  pub id : ℕ
  pub meta : ℕ

abbrev pub same_position : Position → Position → Bool
same_position p q = eqℤ p.0 q.0 && (eqℤ p.1 q.1 && eqℤ p.2 q.2)

-- The first entry for the position gets the new values.
unfoldable pub set_update : Update → List Update → List Update
set_update u [] = []
set_update u (v ∷ us) =
    let rest = set_update u us in
    if same_position v.at u.at then record v { id = u.id; meta = u.meta } ∷ us else v ∷ rest

unfoldable pub is_listed : Position → List Update → Bool
is_listed p [] = false
is_listed p (v ∷ us) = same_position v.at p || is_listed p us

unfoldable pub update_or_push : Update → List Update → List Update
update_or_push u us = if is_listed u.at us then set_update u us else us ++ (u ∷ [])

module _ {World : Type 0} (ops : LevelOps World) where
  -- One rail is recomputed: the level, and the entry for the rail.
  unfoldable pub recompute : Position → World → World × Update
  recompute p world =
      let id = ops.get_block_id world p.0 p.1 p.2 in
      let (meta, world') = recompute_rail_meta ops world p.0 p.1 p.2 in
      (world', record { at = p; id = id; meta = meta })

  abbrev pub neighbour : World → Offset → ℤ → ℤ → ℤ → Option ℤ
  neighbour world d x y z =
      first_of (λ dy. rail_at ops world (x +ℤ d.0) (y +ℤ dy) (z +ℤ d.1)) heights

  abbrev pub touch : World → ℤ → ℤ → ℤ → Position → List Position
  touch world x y z n =
      if rail_can_accept ops world n.0 n.1 n.2 x z
        || ltb (rail_connected_count ops world n.0 n.1 n.2) 2
      then n ∷ []
      else []

  -- The neighbours that are recomputed with a new rail.
  unfoldable pub touched_neighbours : List Offset → World → ℤ → ℤ → ℤ → List Position
  touched_neighbours [] world x y z = []
  touched_neighbours (d ∷ ds) world x y z =
      let rest = touched_neighbours ds world x y z in
      elim (neighbour world d x y z) [
        | none ↦ rest
        | some dy ↦ touch world x y z (x +ℤ d.0, y +ℤ dy, z +ℤ d.1) ++ rest
      ]

  unfoldable pub first_pass : List Position → World → List Update → World × List Update
  first_pass [] world us = (world, us)
  first_pass (p ∷ ps) world us =
      let (world', u) = recompute p world in first_pass ps world' (us ++ (u ∷ []))

  unfoldable pub second_pass : List Position → World → List Update → World × List Update
  second_pass [] world us = (world, us)
  second_pass (p ∷ ps) world us =
      let (world', u) = recompute p world in second_pass ps world' (update_or_push u us)

  -- Air at the position, and neither air nor a rail below it.
  abbrev pub has_room : World → ℤ → ℤ → ℤ → Bool
  has_room world x y z =
      let down = ops.get_block_id world x (y -ℤ pos 1) z in
      (ops.get_block_id world x y z == 0) && not (down == 0 || is_rail_id down)

  abbrev pub is_placeable : World → ℤ → ℤ → ℤ → ℕ → Bool
  is_placeable world x y z rail_id =
      is_rail_id rail_id && ((ltℤ (pos 0) y && ltℤ y (pos 128)) && has_room world x y z)

  -- The three passes once the rail is set.
  unfoldable pub settle : ℤ → ℤ → ℤ → World → List Update → World × List Update
  settle x y z world us =
      let neighbours = touched_neighbours sides world x y z in
      let (world1, us1) = first_pass ((x, y, z) ∷ neighbours) world us in
      let (world2, us2) = second_pass neighbours world1 us1 in
      let (world3, u) = recompute (x, y, z) world2 in (world3, set_update u us2)

  -- `none` where it returns false.
  unfoldable pub place_rail_auto :
      ℤ → ℤ → ℤ → ℕ → World → List Update → Option (World × List Update)
  place_rail_auto x y z rail_id world us =
      if is_placeable world x y z rail_id
      then some (settle x y z (ops.set_block x y z rail_id 0 world) us)
      else none

  unfoldable pub update_rails_around :
      List Offset → ℤ → ℤ → ℤ → World → List Update → World × List Update
  update_rails_around [] x y z world us = (world, us)
  update_rails_around (d ∷ ds) x y z world us = elim (neighbour world d x y z) [
    | none ↦ update_rails_around ds x y z world us
    | some dy ↦
        let (world', u) = recompute (x +ℤ d.0, y +ℤ dy, z +ℤ d.1) world in
        update_rails_around ds x y z world' (us ++ (u ∷ []))
  ]
