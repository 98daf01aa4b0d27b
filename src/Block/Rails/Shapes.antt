-- ===== src/Block/Rails/Shapes.antt =====
-- The shapes of rails in include/mpmpes/block/Rails.hpp fit what they connect.
use mpmpescore_cpp.Prelude.{
  ℕ, ◌≡◌, ◌<◌, refl, Bool, true, false, not, ◌&&◌, ◌||◌, [], ◌∷◌, ◌==◌, if◌then◌else◌, if_both,
  List, arith,
}
use mpmpescore_cpp.Prelude.Int.{ℤ, pos, negsuc, eqℤ, ◌+ℤ◌}
use mpmpescore_cpp.Prelude.Bits.{bit_and, bit_or, same_tables, agree_below}
use mpmpescore_cpp.Block.Rails.{
  is_zero, meta_of_one, is_curve, curve_of, slope_of, straight, block_rail, Offset, east, south,
  west, north, ends_of, rail_base_meta, rail_pack_meta, Relative, meta_from_connections,
}

-- The four sides.
pub data Side : Type 0 where
  to_east to_south to_west to_north : Side

abbrev pub offset : Side → Offset
offset to_east = east
offset to_south = south
offset to_west = west
offset to_north = north

-- How far up the neighbour stands.
pub data Rise : Type 0 where
  level up down : Rise

abbrev pub height : Rise → ℤ
height level = pos 0
height up = pos 1
height down = negsuc 0

abbrev pub relative : Side → Rise → Relative
relative d r = ((offset d).0, height r, (offset d).1)

abbrev pub is_end : Offset → Offset → Bool
is_end e d = eqℤ e.0 d.0 && eqℤ e.1 d.1

-- One of the ends of the shape lies on the side.
abbrev pub joins : ℕ → Side → Bool
joins base d = is_end (ends_of base).0 (offset d) || is_end (ends_of base).1 (offset d)

abbrev all_sides : (Side → Bool) → Bool
all_sides p = (p to_east && p to_south) && (p to_west && p to_north)

abbrev all_rises : (Rise → Bool) → Bool
all_rises p = p level && (p up && p down)

abbrev all_bools : (Bool → Bool) → Bool
all_bools p = p true && p false

both : (a b : Bool) → (a && b) ≡ true → (a ≡ true) × (b ≡ true)
both true b h = (refl, h)
both false b h = (h, absurd (clash h))
  where
    clash : false ≡ true → ⊥
    clash e = ground arith

side : (p : Side → Bool) (d : Side) → all_sides p ≡ true → p d ≡ true
side p to_east h = (both _ _ (both _ _ h).0).0
side p to_south h = (both _ _ (both _ _ h).0).1
side p to_west h = (both _ _ (both _ _ h).1).0
side p to_north h = (both _ _ (both _ _ h).1).1

rise : (p : Rise → Bool) (r : Rise) → all_rises p ≡ true → p r ≡ true
rise p level h = (both _ _ h).0
rise p up h = (both _ _ (both _ _ h).1).0
rise p down h = (both _ _ (both _ _ h).1).1

bool : (p : Bool → Bool) (b : Bool) → all_bools p ≡ true → p b ≡ true
bool p true h = (both _ _ h).0
bool p false h = (both _ _ h).1

-- A rail with one neighbour, on any side and at any of the three heights, has an end on that side.
pub joins-meta_from_one :
    (d : Side) (r : Rise) (allow_curve : Bool)
    → joins (meta_from_connections (relative d r ∷ []) allow_curve) d ≡ true
unfolding meta_from_connections
joins-meta_from_one d r allow_curve =
    bool (λ c. joins (meta_from_connections (relative d r ∷ []) c) d) allow_curve
      (rise (λ q. all_bools (λ c. joins (meta_from_connections (relative d q ∷ []) c) d)) r
        (side
          (λ e.
            all_rises (λ q. all_bools (λ c. joins (meta_from_connections (relative e q ∷ []) c) e)))
          d refl))

abbrev pub is_level : Rise → Bool
is_level level = true
is_level up = false
is_level down = false

abbrev pub opposite : Side → Side
opposite to_east = to_west
opposite to_south = to_north
opposite to_west = to_east
opposite to_north = to_south

abbrev pub is_same : Side → Side → Bool
is_same d e = is_end (offset d) (offset e)

abbrev pub is_opposite : Side → Side → Bool
is_opposite d e = is_same (opposite d) e

-- The pairs of neighbours that one rail can join: opposite ones, and others when both stand level and
-- the rail may be curved.
abbrev pub can_join : Side → Rise → Side → Rise → Bool → Bool
can_join d r e q allow_curve =
    not (is_same d e) && (is_opposite d e || (allow_curve && (is_level r && is_level q)))

abbrev joins_both : Side → Rise → Side → Rise → Bool → Bool
joins_both d r e q allow_curve =
    let base = meta_from_connections (relative d r ∷ relative e q ∷ []) allow_curve in
    not (can_join d r e q allow_curve) || (joins base d && joins base e)

joins_both-all :
    (d : Side) (r : Rise) (e : Side) (q : Rise) (c : Bool) → joins_both d r e q c ≡ true
unfolding meta_from_connections ◌+ℤ◌
joins_both-all d r e q c = bool (joins_both d r e q) c (
    rise (λ q. all_bools (joins_both d r e q)) q
      (side (λ e. all_rises (λ q. all_bools (joins_both d r e q))) e
        (rise (λ r. all_sides (λ e. all_rises (λ q. all_bools (joins_both d r e q)))) r
          (side
            (λ d. all_rises (λ r. all_sides (λ e. all_rises (λ q. all_bools (joins_both d r e q)))))
            d refl))))

-- A rail with two neighbours that one rail can join has an end on the side of each.
pub joins-meta_from_two :
    (d e : Side) (r q : Rise) (allow_curve : Bool)
    → can_join d r e q allow_curve ≡ true
    → (joins (meta_from_connections (relative d r ∷ relative e q ∷ []) allow_curve) d ≡ true)
      × (joins (meta_from_connections (relative d r ∷ relative e q ∷ []) allow_curve) e ≡ true)
joins-meta_from_two d e r q allow_curve h =
    both _ _ (modus (can_join d r e q allow_curve) _ h (joins_both-all d r e q allow_curve))
  where
    modus : (a b : Bool) → a ≡ true → (not a || b) ≡ true → b ≡ true
    modus a b h k = ground arith

-- The shape of a rail is read back from its metadata, with or without power: ten shapes for a plain
-- rail, and six for the others.
pub rail_base_meta-rail_pack_meta :
    (id base : ℕ) (powered : Bool)
    → base < (if id == block_rail then 10 else 6)
    → rail_base_meta id (rail_pack_meta id base powered) ≡ base
unfolding rail_base_meta rail_pack_meta same_tables
rail_base_meta-rail_pack_meta id base powered h = plain (id == block_rail) powered h
  where
    plain :
        (b powered : Bool)
        → base < (if b then 10 else 6)
        → (if b
            then bit_and
                (if b
                  then bit_and base 0x0f
                  else bit_or (bit_and base 0x7) (if powered then 0x8 else 0))
                0x0f
            else bit_and
                (if b
                  then bit_and base 0x0f
                  else bit_or (bit_and base 0x7) (if powered then 0x8 else 0))
                0x7)
          ≡ base
    plain true powered h = agree_below 10 (λ k. bit_and (bit_and k 0x0f) 0x0f) (λ k. k) base refl h
    plain false true h =
        agree_below 6 (λ k. bit_and (bit_or (bit_and k 0x7) 0x8) 0x7) (λ k. k) base refl h
    plain false false h =
        agree_below 6 (λ k. bit_and (bit_or (bit_and k 0x7) 0) 0x7) (λ k. k) base refl h

meta_of_one-bound : (v : Relative) → meta_of_one v < 10
meta_of_one-bound v = ground arith

curve_of-bound : (sx sz : ℤ) → curve_of sx sz < 10
curve_of-bound sx sz = ground arith

slope_of-bound : (v : Relative) → slope_of v < 10
slope_of-bound v = ground arith

pub meta_from_connections-bound :
    (rels : List Relative) (allow_curve : Bool) → meta_from_connections rels allow_curve < 10
unfolding meta_from_connections
meta_from_connections-bound [] allow_curve = omega arith
meta_from_connections-bound (v ∷ []) allow_curve = meta_of_one-bound v
meta_from_connections-bound (a ∷ b ∷ rels) allow_curve =
    if_both (λ n. n < 10) (allow_curve && is_curve a b) (curve_of-bound (a.0 +ℤ b.0) (a.2 +ℤ b.2))
      (if_both (λ n. n < 10) (eqℤ a.1 (pos 1) || eqℤ b.1 (pos 1))
        (slope_of-bound (if eqℤ a.1 (pos 1) then a else b)) (flat (is_zero a.0)))
  where
    flat : (c : Bool) → (if c then 0 else 1) < 10
    flat c = ground arith

pub straight-bound :
    (allow_curve : Bool) (base : ℕ)
    → base < 10
    → straight allow_curve base < (if allow_curve then 10 else 6)
straight-bound allow_curve base h = ground arith
