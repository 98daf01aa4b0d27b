-- ===== src/Protocol/Encode/Recipes.antt =====
-- The recipes of include/mpmpes/protocol/Packets.hpp.
use mpmpescore_cpp.Prelude.{
  ℕ, ◌+◌, zero, suc, replicate, ◌*◌, ◌%◌, ◌^◌, Bool, Option, some, List, [], ◌∷◌, ◌++◌,
  if◌then◌else◌, length, ◌>>=◌, get_or,
}
use mpmpescore_cpp.Prelude.Bits.{bit_xor}
use mpmpescore_cpp.Binary.{Bytes}
use mpmpescore_cpp.Binary.Stream.{BinaryStream, empty}
use mpmpescore_cpp.Binary.Fields.{Field, byte, int, plain, put_fields}
use mpmpescore_cpp.Protocol.{sent}
use mpmpescore_cpp.Item.Slot.{ItemStack, air, of, put_slot}
use mpmpescore_cpp.Prelude.Int.{pos}
use mpmpescore_cpp.Protocol.Info.{craft_entry_shaped, craft_entry_shapeless, crafting_data_packet}

-- The cells of a grid in the order of the loops over z and x: `n` from the `i`th on, air where the
-- list has ended.
unfoldable pub put_grid : ℕ → ℕ → List ItemStack → BinaryStream → BinaryStream
unfolding put_slot
put_grid zero i grid o = o
put_grid (suc n) i grid o = put_grid n (i + 1) grid (put_slot (get_or grid i air) o)

unfoldable pub write_shaped : Bool → ℕ → ℕ → List ItemStack → ItemStack → Bytes → Option Bytes
unfolding put_grid put_slot
write_shaped big width height grid made uuid = sent (do
  o ← put_fields big (int width ∷ int height ∷ []) empty
  o ← put_fields big (int 1 ∷ []) (put_grid (width * height) 0 grid o)
  put_fields big (plain uuid ∷ []) (put_slot made o))

unfoldable pub write_shapeless : Bool → List ItemStack → ItemStack → Bytes → Option Bytes
unfolding put_grid put_slot
write_shapeless big ingredients made uuid = sent (do
  o ← put_fields big (int (length ingredients % 2 ^ 32) ∷ []) empty
  o ← put_fields big (int 1 ∷ []) (put_grid (length ingredients) 0 ingredients o)
  put_fields big (plain uuid ∷ []) (put_slot made o))

abbrev shaped_uuid : ℕ → Bytes
shaped_uuid n = (n ∷ []) ++ replicate 14 0 ++ (bit_xor n 0x5a ∷ [])

abbrev shapeless_uuid : ℕ → Bytes
shapeless_uuid n = n ∷ replicate 15 0

-- A recipe with its type.
unfoldable pub add_shaped : Bool → ℕ → ℕ → List ItemStack → ItemStack → ℕ → Option (ℕ × Bytes)
unfolding write_shaped
add_shaped big w h grid made n = do
  b ← write_shaped big w h grid made (shaped_uuid n)
  some (craft_entry_shaped, b)

unfoldable pub add_shapeless : Bool → List ItemStack → ItemStack → ℕ → Option (ℕ × Bytes)
unfolding write_shapeless
add_shapeless big ingredients made n = do
  b ← write_shapeless big ingredients made (shapeless_uuid n)
  some (craft_entry_shapeless, b)

abbrev item : ℕ → ℕ → ItemStack
item i n = of (pos i) n (pos 0)

-- Planks, sticks, a workbench, torches and sugar.
unfoldable pub stub_recipes : Bool → Option (List (ℕ × Bytes))
unfolding add_shaped add_shapeless
stub_recipes big = do
  planks ← add_shaped big 1 1 (item 17 1 ∷ []) (item 5 4) 1
  sticks ← add_shaped big 1 2 (item 5 1 ∷ item 5 1 ∷ []) (item 280 4) 2
  bench ← add_shaped big 2 2 (item 5 1 ∷ item 5 1 ∷ item 5 1 ∷ item 5 1 ∷ []) (item 58 1) 3
  torches ← add_shaped big 1 2 (item 263 1 ∷ item 280 1 ∷ []) (item 50 4) 4
  sugar ← add_shapeless big (item 338 1 ∷ []) (item 353 1) 7
  some (planks ∷ sticks ∷ bench ∷ torches ∷ sugar ∷ [])

abbrev recipe_fields : List (ℕ × Bytes) → List Field
recipe_fields [] = []
recipe_fields ((kind, b) ∷ recipes) =
    int kind ∷ int (length b % 2 ^ 32) ∷ plain b ∷ recipe_fields recipes

unfoldable pub encode_crafting_data_basic : Bool → Bool → Bool → Option Bytes
unfolding stub_recipes
encode_crafting_data_basic big clean include_stub_recipes =
    let mark = byte (if clean then 1 else 0) in
    if include_stub_recipes
    then (do
      recipes ← stub_recipes big
      sent (
          put_fields big
            ((byte crafting_data_packet ∷ int (length recipes % 2 ^ 32) ∷ [])
              ++ recipe_fields recipes
              ++ (mark ∷ []))
            empty))
    else sent (put_fields big (byte crafting_data_packet ∷ int 0 ∷ mark ∷ []) empty)
