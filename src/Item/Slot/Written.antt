-- ===== src/Item/Slot/Written.antt =====
-- The bytes that include/mpmpes/item/Item.hpp writes for a slot.
use mpmpescore_cpp.Prelude.{
  ◌^◌, ◌%◌, ◌≡◌, refl, sym, ap, ◌∙◌, true, false, [], ◌∷◌, ◌++◌, if◌then◌else◌, length, is_empty,
  if_cases, append_assoc, append-nil,
}
use mpmpescore_cpp.Binary.{Bytes, write_short, write_lshort}
use mpmpescore_cpp.Binary.Stream.{BinaryStream, put_short, put_byte, put_lshort, put}
use mpmpescore_cpp.Item.Slot.{ItemStack, empty_stack, sanitize_slot, from_i16, put_clean, put_slot}

-- The bytes of a slot.
unfoldable pub slot_bytes : ItemStack → Bytes
unfolding empty_stack write_short write_lshort
slot_bytes s =
    if empty_stack s
    then write_short 0
    else write_short (from_i16 s.id)
      ++ ((s.count ∷ [])
          ++ (write_short (from_i16 s.damage) ++ (write_lshort (length s.nbt % 2 ^ 16) ++ s.nbt)))

unfoldable pub full_bytes : ItemStack → Bytes
unfolding write_short write_lshort
full_bytes s =
    write_short (from_i16 s.id)
    ++ ((s.count ∷ [])
        ++ (write_short (from_i16 s.damage) ++ (write_lshort (length s.nbt % 2 ^ 16) ++ s.nbt)))

pub slot_bytes-empty : (s : ItemStack) → empty_stack s ≡ true → slot_bytes s ≡ write_short 0
unfolding slot_bytes full_bytes
slot_bytes-empty s e = ap (λ b. if b then write_short 0 else full_bytes s) e

pub slot_bytes-full : (s : ItemStack) → empty_stack s ≡ false → slot_bytes s ≡ full_bytes s
unfolding slot_bytes full_bytes
slot_bytes-full s e = ap (λ b. if b then write_short 0 else full_bytes s) e

put_tag :
    (b : Bytes) (o : BinaryStream)
    → (if is_empty b then o else put b o) ≡ record o { buffer = o.buffer ++ b }
unfolding put
put_tag [] o = ap (λ c. record o { buffer = c }) (sym (append-nil o.buffer))
put_tag (x ∷ b) o = refl

put_clean-slot_bytes :
    (s : ItemStack) (out : BinaryStream)
    → put_clean s out ≡ record out { buffer = out.buffer ++ slot_bytes s }
unfolding put_clean put_short put_byte put_lshort full_bytes
put_clean-slot_bytes s out =
    if_cases (λ o. o ≡ record out { buffer = out.buffer ++ slot_bytes s }) (empty_stack s)
      (λ e. ap (λ b. record out { buffer = out.buffer ++ b }) (sym (slot_bytes-empty s e)))
      (λ e.
        put_tag s.nbt _
        ∙ ap (λ b. record out { buffer = b }) (simp append_assoc)
        ∙ ap (λ b. record out { buffer = out.buffer ++ b }) (sym (slot_bytes-full s e)))

pub put_slot-slot_bytes :
    (item : ItemStack) (out : BinaryStream)
    → put_slot item out ≡ record out { buffer = out.buffer ++ slot_bytes (sanitize_slot item) }
unfolding put_slot
put_slot-slot_bytes item out = put_clean-slot_bytes (sanitize_slot item) out
