-- ===== src/Block/Rails/Recompute.antt =====
-- `recomputeRailMeta` of include/mpmpes/block/Rails.hpp: the neighbours, the power, and the level.
use mpmpescore_cpp.Prelude.{
  ℕ, ◌≡◌, ◌<◌, refl, sym, ap, ◌∙◌, Bool, true, false, not, ◌&&◌, [], ◌∷◌, ◌++◌, ◌==◌, if◌then◌else◌,
  if_both, List, none, some, arith, take, length, append-nil,
}
use mpmpescore_cpp.Prelude.Int.{ℤ, pos, negsuc, ◌+ℤ◌}
use mpmpescore_cpp.Prelude.Bits.{bit_and, bit_or, same_tables, agree_below}
use mpmpescore_cpp.Block.Rails.{
  is_rail_id, is_normal_rail, LevelOps, connect, append_found, first_of, heights, is_connectable,
  sides, straight, recompute_rail_meta, block_rail, Offset, east, south, west, north,
  rail_base_meta, rail_pack_meta, Relative, meta_from_connections,
}
use mpmpescore_cpp.Block.Rails.Shapes.{
  rail_base_meta-rail_pack_meta, straight-bound, meta_from_connections-bound,
}

module _ {World : Type 0} (ops : LevelOps World) (world : World) (x y z : ℤ) where
  abbrev takes : Offset → ℤ → Bool
  takes d dy = is_connectable ops world (x +ℤ d.0) (y +ℤ dy) (z +ℤ d.1) x z

  -- The neighbour on a side, if there is one: it stands level, else one higher, else one lower.
  abbrev pub neighbour_on : Offset → List Relative
  neighbour_on d =
      if takes d (pos 0)
      then (d.0, pos 0, d.1) ∷ []
      else (if takes d (pos 1)
          then (d.0, pos 1, d.1) ∷ []
          else (if takes d (negsuc 0) then (d.0, negsuc 0, d.1) ∷ [] else []))

  -- The neighbours in the order of the sides: east, south, west, north.
  abbrev neighbours_on : List Offset → List Relative
  neighbours_on [] = []
  neighbours_on (d ∷ ds) = neighbour_on d ++ neighbours_on ds

  abbrev pub neighbours : List Relative
  neighbours =
      neighbour_on east ++ (neighbour_on south ++ (neighbour_on west ++ neighbour_on north))

  append_found_lem :
      (d : Offset) (rels : List Relative)
      → append_found d (first_of (takes d) heights) rels ≡ rels ++ neighbour_on d
  append_found_lem d rels = by_height (takes d (pos 0)) (takes d (pos 1)) (takes d (negsuc 0))
    where
      by_height :
          (a b c : Bool)
          → append_found d
              (if a
                then some (pos 0)
                else (if b then some (pos 1) else (if c then some (negsuc 0) else none)))
              rels
            ≡ rels
              ++ (if a
                  then (d.0, pos 0, d.1) ∷ []
                  else (if b
                      then (d.0, pos 1, d.1) ∷ []
                      else (if c then (d.0, negsuc 0, d.1) ∷ [] else [])))
      by_height true b c = refl
      by_height false true c = refl
      by_height false false true = refl
      by_height false false false = sym (append-nil rels)

  -- The neighbour of a side: none, or one.
  by_side :
      (P : List Relative → Type 0) (d : Offset)
      → P []
      → ((r : Relative) → P (r ∷ []))
      → P (neighbour_on d)
  by_side P d empty one =
      if_both P (takes d (pos 0)) (one _)
        (if_both P (takes d (pos 1)) (one _) (if_both P (takes d (negsuc 0)) (one _) empty))

  -- With one neighbour found, one more is looked for.
  connect_one :
      (ds : List Offset) (r : Relative)
      → connect ops world ds x y z (r ∷ []) ≡ take 2 (r ∷ neighbours_on ds)
  connect_one [] r = refl
  connect_one (d ∷ ds) r =
      ap (λ rels. if length rels == 2 then rels else connect ops world ds x y z rels)
        (append_found_lem d (r ∷ []))
      ∙ by_side
          (λ on.
            (if length (r ∷ on) == 2 then r ∷ on else connect ops world ds x y z (r ∷ on))
            ≡ take 2 (r ∷ (on ++ neighbours_on ds)))
          d (connect_one ds r) (λ q. refl)

  connect_lem : (ds : List Offset) → connect ops world ds x y z [] ≡ take 2 (neighbours_on ds)
  connect_lem [] = refl
  connect_lem (d ∷ ds) =
      ap (λ rels. if length rels == 2 then rels else connect ops world ds x y z rels)
        (append_found_lem d [])
      ∙ by_side
          (λ on.
            (if length on == 2 then on else connect ops world ds x y z on)
            ≡ take 2 (on ++ neighbours_on ds))
          d (connect_lem ds) (λ q. connect_one ds q)

  connect-neighbours : connect ops world sides x y z [] ≡ take 2 neighbours
  connect-neighbours =
      connect_lem sides
      ∙ ap
          (λ rest.
            take 2 (neighbour_on east ++ (neighbour_on south ++ (neighbour_on west ++ rest))))
          (append-nil (neighbour_on north))

-- The bit of power, of a rail that has one.
abbrev pub power_of : ℕ → ℕ → ℕ
power_of id meta = if is_normal_rail id then 0 else bit_and meta 0x8

power_of-rail_pack_meta :
    (id base meta : ℕ)
    → base < 10
    → meta < 256
    → power_of id (rail_pack_meta id base (not (id == block_rail) && not (bit_and meta 0x8 == 0)))
      ≡ power_of id meta
unfolding rail_pack_meta same_tables
power_of-rail_pack_meta id base meta b m = kept (id == block_rail)
  where
    packed : Bool → ℕ
    packed powered = bit_and (bit_or (bit_and base 0x7) (if powered then 0x8 else 0)) 0x8

    power : (powered : Bool) → packed powered ≡ (if powered then 8 else 0)
    power true = agree_below 10 (λ k. bit_and (bit_or (bit_and k 0x7) 0x8) 0x8) (λ k. 8) base refl b
    power false = agree_below 10 (λ k. bit_and (bit_or (bit_and k 0x7) 0) 0x8) (λ k. 0) base refl b

    kept :
        (normal : Bool)
        → (if normal
            then 0
            else bit_and
                (if normal
                  then bit_and base 0x0f
                  else bit_or
                      (bit_and base 0x7)
                      (if not normal && not (bit_and meta 0x8 == 0) then 0x8 else 0))
                0x8)
          ≡ (if normal then 0 else bit_and meta 0x8)
    kept true = refl
    kept false =
        power (not (bit_and meta 0x8 == 0))
        ∙ agree_below 256 (λ k. if not (bit_and k 0x8 == 0) then 8 else 0) (λ k. bit_and k 0x8) meta
            refl m

-- A rail that is recomputed gets the shape for its first two neighbours, of those on the four sides in
-- the order east, south, west, north, each the first that can be connected at the same height, one
-- higher or one lower. The shape can be read back from the new metadata, a rail with power keeps its
-- bit of power, and the level has the same rail with that metadata. The metadata before is a byte.
pub recompute_rail_meta-neighbours :
    {World : Type 0} (ops : LevelOps World) (world : World) (x y z : ℤ)
    → is_rail_id (ops.get_block_id world x y z) ≡ true
    → ops.get_block_meta world x y z < 256
    → (rail_base_meta (ops.get_block_id world x y z) (recompute_rail_meta ops world x y z).0
        ≡ straight (is_normal_rail (ops.get_block_id world x y z)) (
            meta_from_connections
              (take 2 (neighbours ops world x y z))
              (is_normal_rail (ops.get_block_id world x y z))))
      × (power_of (ops.get_block_id world x y z) (recompute_rail_meta ops world x y z).0
          ≡ power_of (ops.get_block_id world x y z) (ops.get_block_meta world x y z))
      × ((recompute_rail_meta ops world x y z).1
          ≡ ops.set_block x y z
              (ops.get_block_id world x y z)
              (recompute_rail_meta ops world x y z).0
              world)
unfolding recompute_rail_meta
recompute_rail_meta-neighbours {World} ops world x y z e m = chosen (is_rail_id id) e
  where
    id : ℕ
    id = ops.get_block_id world x y z

    powered : Bool
    powered = not (id == block_rail) && not (bit_and (ops.get_block_meta world x y z) 0x8 == 0)

    scanned : List Relative
    scanned = connect ops world sides x y z []

    base : ℕ
    base = straight (is_normal_rail id) (meta_from_connections scanned (is_normal_rail id))

    bound : base < (if id == block_rail then 10 else 6)
    bound = straight-bound (is_normal_rail id) _ (meta_from_connections-bound _ _)

    outcome : Bool → ℕ × World
    outcome b =
        if b
        then (
          rail_pack_meta id base powered,
          ops.set_block x y z id (rail_pack_meta id base powered) world,
        )
        else (0, world)

    chosen :
        (b : Bool)
        → b ≡ true
        → (rail_base_meta id (outcome b).0
            ≡ straight
                (is_normal_rail id)
                (meta_from_connections (take 2 (neighbours ops world x y z)) (is_normal_rail id)))
          × (power_of id (outcome b).0 ≡ power_of id (ops.get_block_meta world x y z))
          × ((outcome b).1 ≡ ops.set_block x y z id (outcome b).0 world)
    chosen true e = (
      rail_base_meta-rail_pack_meta id base powered bound
          ∙ ap
              (λ rels.
                straight (is_normal_rail id) (meta_from_connections rels (is_normal_rail id)))
              (connect-neighbours ops world x y z),
      power_of-rail_pack_meta id base (ops.get_block_meta world x y z) (ground (arith, bound)) m,
      refl,
    )
    chosen false e = absurd (ground arith)
