-- ===== src/Item/Slot/Clean.antt =====
-- The stacks that sanitizeSlot of include/mpmpes/item/Item.hpp lets through.
use mpmpescore_cpp.Prelude.{
  ◌^◌, ◌<◌, ◌≡◌, refl, sym, ap, ◌∙◌, ◌⊎◌, inl, inr, false, ◌||◌, ltb, ◌==◌, length, arith, if_cases,
}
use mpmpescore_cpp.Prelude.Int.{pos, ltℤ, leℤ, pos_part}
use mpmpescore_cpp.Binary.{Bytes}
use mpmpescore_cpp.Item.Slot.{ItemStack, air, item_form, sanitize_slot}

-- The ranges of the fields of an item stack.
pub record IsStack (s : ItemStack) : Type 0 where
  pub id_fits : pos_part s.id < 2 ^ 15
  pub count_fits : s.count < 2 ^ 8
  pub damage_fits : pos_part s.damage < 2 ^ 15

-- A stack that a client can show: an identifier from 1 to 511 that is an item, 1 to 64 of it, a
-- damage that is not negative and a tag of at most 1024 bytes.
pub record IsClean (s : ItemStack) : Type 0 where
  pub positive : leℤ s.id (pos 0) ≡ false
  pub small : ltℤ (pos 511) s.id ≡ false
  pub form : item_form s.id ≡ s.id
  pub some_of_it : (s.count == 0) ≡ false
  pub few : ltb 64 s.count ≡ false
  pub damage_positive : ltℤ s.damage (pos 0) ≡ false
  pub damage_fits : pos_part s.damage < 2 ^ 15
  pub short_tag : ltb 1024 (length s.nbt) ≡ false

pub sanitize_slot-clean : (s : ItemStack) → IsClean s → sanitize_slot s ≡ s
unfolding sanitize_slot
sanitize_slot-clean s c =
    rw (c.positive, c.some_of_it, c.small, c.form, c.few, c.damage_positive, c.short_tag) refl

abbrev IsShown : ItemStack → Type 0
IsShown s = (s ≡ air) ⊎ IsClean s

-- What sanitizing leaves is no item at all, or a stack that a client can show, whatever the fields
-- were in their ranges.
pub sanitize_slot-IsClean :
    (s : ItemStack) → IsStack s → (sanitize_slot s ≡ air) ⊎ IsClean (sanitize_slot s)
unfolding sanitize_slot
sanitize_slot-IsClean s h =
    if_cases IsShown (leℤ s.id (pos 0) || (s.count == 0)) (λ e. inl refl)
      (λ e.
        if_cases IsShown (ltℤ (pos 511) s.id) (λ e'. inl refl)
          (λ e'. inr (record {
            positive = ground arith;
            small = ground arith;
            form = ground arith;
            some_of_it = ground arith;
            few = ground arith;
            damage_positive = ground arith;
            damage_fits = ground (arith, h.damage_fits);
            short_tag =
                if_cases (λ (b : Bytes). ltb 1024 (length b) ≡ false) (ltb 1024 (length s.nbt))
                  (λ g. refl) (λ g. g);
          })))

sanitize_slot-air : sanitize_slot air ≡ air
unfolding sanitize_slot
sanitize_slot-air = refl

pub sanitize_slot-idempotent :
    (s : ItemStack) → IsStack s → sanitize_slot (sanitize_slot s) ≡ sanitize_slot s
sanitize_slot-idempotent s h = elim (sanitize_slot-IsClean s h) [
  | inl e ↦ ap sanitize_slot e ∙ sanitize_slot-air ∙ sym e
  | inr c ↦ sanitize_slot-clean (sanitize_slot s) c
]
