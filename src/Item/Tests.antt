-- ===== src/Item/Tests.antt =====
-- Stacks of items on the wire.
use mpmpescore_cpp.Prelude.{◌≡◌, refl, ◌⊎◌, arith, some, [], ◌∷◌, length, true}
use mpmpescore_cpp.Prelude.Int.{pos, negsuc}
use mpmpescore_cpp.Binary.Stream.{BinaryStream}
use mpmpescore_cpp.Item.Slot.{
  ItemStack, air, of, sanitize_slot, same_type, equals_stack, put_slot, get_slot,
}
use mpmpescore_cpp.Item.Slot.Clean.{IsStack, IsClean}
use mpmpescore_cpp.Item.Slot.RoundTrip.{get_slot-put_slot}

-- A hopper becomes its item, of which 64 are left, and a damage below zero becomes zero.
sanitize_slot-hopper : sanitize_slot (of (pos 154) 200 (negsuc 4)) ≡ of (pos 410) 64 (pos 0)
unfolding sanitize_slot
sanitize_slot-hopper = refl

sanitize_slot-unknown : sanitize_slot (of (pos 512) 1 (pos 0)) ≡ air
unfolding sanitize_slot
sanitize_slot-unknown = refl

equals_stack_self : equals_stack (of (pos 5) 3 (pos 1)) (of (pos 5) 3 (pos 1)) ≡ true
unfolding equals_stack same_type
equals_stack_self = refl

abbrev hoppers : ItemStack
hoppers = of (pos 154) 200 (negsuc 4)

hoppers-IsStack : IsStack hoppers
hoppers-IsStack = record {
  id_fits = omega arith;
  count_fits = omega arith;
  damage_fits = omega arith;
}

-- A stream with one byte.
abbrev begun : BinaryStream
begun = record { buffer = 9 ∷ []; offset = 0 }

get_slot-put_slot_example :
    (get_slot (record (put_slot hoppers begun) { offset = length begun.buffer })
      ≡ some (
        sanitize_slot hoppers,
        record (put_slot hoppers begun) { offset = length (put_slot hoppers begun).buffer },
      ))
    × ((sanitize_slot hoppers ≡ air) ⊎ IsClean (sanitize_slot hoppers))
get_slot-put_slot_example = get_slot-put_slot hoppers begun hoppers-IsStack
