-- ===== src/Protocol/Decode/UseItem.antt =====
-- decodeUseItem of include/mpmpes/protocol/Packets.hpp, which keeps what it has read when the stream
-- ends too soon.
use mpmpescore_cpp.Prelude.{
  ℕ, ◌-◌, has_value, ◌^◌, Bool, true, false, not, ◌||◌, Option, none, some, List, [], ◌∷◌,
  if◌then◌else◌, ◌>>=◌, ◌==◌,
}
use mpmpescore_cpp.Binary.{Bytes}
use mpmpescore_cpp.Binary.Stream.{BinaryStream, get_byte, get_int, get_float, feof}
use mpmpescore_cpp.Protocol.{zero_float}
use mpmpescore_cpp.Item.Slot.{ItemStack, air, get_slot}
use mpmpescore_cpp.Protocol.Info.{use_item_packet}

-- The slot is an int32_t pattern; -1 before it is read.
pub record UseItemDecoded : Type 0 where
  pub x : ℕ
  pub y : ℕ
  pub z : ℕ
  pub face : ℕ
  pub fx : Bytes
  pub fy : Bytes
  pub fz : Bytes
  pub pos_x : Bytes
  pub pos_y : Bytes
  pub pos_z : Bytes
  pub slot : ℕ
  pub item : ItemStack
  pub ok : Bool

abbrev pub nothing_used : UseItemDecoded
nothing_used = record {
  x = 0;
  y = 0;
  z = 0;
  face = 0;
  fx = zero_float;
  fy = zero_float;
  fz = zero_float;
  pos_x = zero_float;
  pos_y = zero_float;
  pos_z = zero_float;
  slot = 2 ^ 32 - 1;
  item = air;
  ok = false;
}

-- One assignment from the stream; `none` where the reader throws.
abbrev Step : Type 0
Step = UseItemDecoded → BinaryStream → Option (UseItemDecoded × BinaryStream)

abbrev store :
    {A : Type 0}
    → (BinaryStream → Option (A × BinaryStream))
    → (A → UseItemDecoded → UseItemDecoded)
    → Step
store read put d s = do (v, s') ← read s; some (put v d, s')

-- The steps in order: what they stored, with the stream if all went through.
unfoldable pub run_steps :
    List Step → UseItemDecoded → BinaryStream → UseItemDecoded × Option BinaryStream
run_steps [] d s = (d, some s)
run_steps (step ∷ steps) d s = elim (step d s) as (λ _. UseItemDecoded × Option BinaryStream) [
  | none ↦ (d, none)
  | some r ↦ run_steps steps r.0 r.1
]

unfoldable pub use_item_steps : Bool → List Step
use_item_steps big =
    store get_int (λ v d. record d { x = v })
    ∷ store get_int (λ v d. record d { y = v })
    ∷ store get_int (λ v d. record d { z = v })
    ∷ store get_byte (λ v d. record d { face = v })
    ∷ store (get_float big) (λ v d. record d { fx = v })
    ∷ store (get_float big) (λ v d. record d { fy = v })
    ∷ store (get_float big) (λ v d. record d { fz = v })
    ∷ store (get_float big) (λ v d. record d { pos_x = v })
    ∷ store (get_float big) (λ v d. record d { pos_y = v })
    ∷ store (get_float big) (λ v d. record d { pos_z = v })
    ∷ []

-- What comes from protocol 70 on.
abbrev slot_steps : List Step
slot_steps =
    store get_int (λ v d. record d { slot = v })
    ∷ store get_slot (λ v d. record d { item = v })
    ∷ []

-- What the catch keeps: coordinates or a face that are not zero.
abbrev useful : UseItemDecoded → Bool
useful d = not (d.x == 0) || not (d.y == 0) || not (d.z == 0) || not (d.face == 0)

abbrev finish : UseItemDecoded → Bool → UseItemDecoded
finish d all_read = record d { ok = all_read || useful d }

abbrev read_slot : UseItemDecoded → BinaryStream → UseItemDecoded
unfolding run_steps
read_slot d s =
    if feof s
    then finish d true
    else (let (d', rest) = run_steps slot_steps d s in finish d' (has_value rest))

abbrev read_use : Bool → BinaryStream → UseItemDecoded
unfolding run_steps use_item_steps read_slot
read_use big s =
    let (d, rest) = run_steps (use_item_steps big) nothing_used s in
    elim rest as (λ _. UseItemDecoded) [ none ↦ finish d false | some s' ↦ read_slot d s' ]

unfoldable pub decode_use_item : Bool → Bytes → UseItemDecoded
unfolding read_use
decode_use_item big b =
    elim (get_byte (record { buffer = b; offset = 0 })) as (λ _. UseItemDecoded) [
      | none ↦ nothing_used
      | some r ↦ if r.0 == use_item_packet then read_use big r.1 else nothing_used
    ]
