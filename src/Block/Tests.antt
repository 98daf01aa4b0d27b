-- ===== src/Block/Tests.antt =====
-- Runs of the rails of include/mpmpes/block/Rails.hpp.
use mpmpescore_cpp.Prelude.{◌≡◌, refl, true, take, arith, [], ◌∷◌, ◌++◌, if◌then◌else◌}
use mpmpescore_cpp.Prelude.Int.{ℤ, pos, eqℤ}
use mpmpescore_cpp.Block.Rails.{
  LevelOps, rail_base_meta, meta_from_connections, sides, straight, recompute_rail_meta,
}
use mpmpescore_cpp.Block.Rails.Placing.{touched_neighbours, settle}
use mpmpescore_cpp.Block.Rails.Placing.Updates.{positions, positions-settle}
use mpmpescore_cpp.Block.Rails.Recompute.{neighbours, power_of, recompute_rail_meta-neighbours}
use mpmpescore_cpp.Block.Rails.Shapes.{
  to_east, to_south, level, relative, joins, joins-meta_from_two,
}

joins-meta_from_two_example :
    (joins
        (meta_from_connections (relative to_east level ∷ relative to_south level ∷ []) true)
        to_east
      ≡ true)
    × (joins
          (meta_from_connections (relative to_east level ∷ relative to_south level ∷ []) true)
          to_south
        ≡ true)
joins-meta_from_two_example = joins-meta_from_two to_east to_south level level true refl

-- Plain rails lie along z = 0 at every height, with a gap at the x that the world is.
abbrev rails : LevelOps ℤ
rails = record {
  get_block_id = λ w x y z. if eqℤ z (pos 0) then (if eqℤ x w then 0 else 66) else 0;
  get_block_meta = λ w x y z. 0;
  set_block = λ x y z id meta w. w;
}

recompute_rail_meta-neighbours_example :
    (rail_base_meta 66 (recompute_rail_meta rails (pos 9) (pos 1) (pos 4) (pos 0)).0
      ≡ straight true
          (meta_from_connections (take 2 (neighbours rails (pos 9) (pos 1) (pos 4) (pos 0))) true))
    × (power_of 66 (recompute_rail_meta rails (pos 9) (pos 1) (pos 4) (pos 0)).0 ≡ power_of 66 0)
    × ((recompute_rail_meta rails (pos 9) (pos 1) (pos 4) (pos 0)).1 ≡ pos 9)
recompute_rail_meta-neighbours_example =
    recompute_rail_meta-neighbours rails (pos 9) (pos 1) (pos 4) (pos 0) refl (omega arith)

positions-settle_example :
    positions (settle rails (pos 1) (pos 4) (pos 0) (pos 9) []).1
    ≡ [] ++ ((pos 1, pos 4, pos 0) ∷ touched_neighbours rails sides (pos 9) (pos 1) (pos 4) (pos 0))
positions-settle_example = positions-settle rails (pos 1) (pos 4) (pos 0) (pos 9) []
