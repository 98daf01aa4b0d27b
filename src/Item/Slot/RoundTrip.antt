-- ===== src/Item/Slot/RoundTrip.antt =====
-- A slot of include/mpmpes/item/Item.hpp is read as it was written, after it was sanitized.
use mpmpescore_cpp.Prelude.{
  ℕ, ◌^◌, ◌%◌, ◌<◌, ◌≡◌, refl, sym, ap, ◌∙◌, subst, ◌⊎◌, inl, inr, Bool, false, Option, some, [],
  ◌∷◌, ◌++◌, ltb, if◌then◌else◌, length, ◌>>=◌, arith, if_cases, append_assoc, append-nil,
  bind-some,
}
use mpmpescore_cpp.Prelude.Int.{ℤ, pos, ltℤ, leℤ, pos_part}
use mpmpescore_cpp.Binary.{
  Bytes, write_short, write_lshort, read_short, read_lshort, read_signed_short,
}
use mpmpescore_cpp.Binary.Codec.{read_short-write_short, read_lshort-write_lshort}
use mpmpescore_cpp.Binary.At.{at, get-at, get_byte-at, get_as-at}
use mpmpescore_cpp.Binary.Stream.{BinaryStream, get_signed_short, get_short, get_lshort}
use mpmpescore_cpp.Item.Slot.{
  ItemStack, empty_stack, air, sanitize_slot, from_i16, to_i16, put_slot, get_nbt, get_rest,
  get_slot, keep_tag, stack,
}
use mpmpescore_cpp.Item.Slot.Clean.{IsStack, IsClean, sanitize_slot-clean, sanitize_slot-IsClean}
use mpmpescore_cpp.Item.Slot.Written.{
  slot_bytes, full_bytes, slot_bytes-empty, slot_bytes-full, put_slot-slot_bytes,
}

get_short-at :
    (front rest : Bytes) (v : ℕ)
    → v < 2 ^ 16
    → get_short (at front (write_short v ++ rest)) ≡ some (v, at (front ++ write_short v) rest)
unfolding get_short
get_short-at front rest v h =
    get_as-at 2 read_short front (write_short v) rest v (unfold write_short in refl)
      (read_short-write_short v h)

get_signed_short-at :
    (front rest : Bytes) (v : ℕ)
    → v < 2 ^ 16
    → get_signed_short (at front (write_short v ++ rest))
      ≡ some (v, at (front ++ write_short v) rest)
unfolding get_signed_short read_signed_short
get_signed_short-at front rest v h =
    get_as-at 2 read_short front (write_short v) rest v (unfold write_short in refl)
      (read_short-write_short v h)

get_lshort-at :
    (front rest : Bytes) (v : ℕ)
    → v < 2 ^ 16
    → get_lshort (at front (write_lshort v ++ rest)) ≡ some (v, at (front ++ write_lshort v) rest)
unfolding get_lshort
get_lshort-at front rest v h =
    get_as-at 2 read_lshort front (write_lshort v) rest v (unfold write_lshort in refl)
      (read_lshort-write_lshort v h)

nil_of : (b : Bytes) → ltb 0 (length b) ≡ false → b ≡ []
nil_of [] h = refl
nil_of (x ∷ b) h = absurd (ground arith)

get_nbt-at :
    (front b rest : Bytes)
    → ltb 1024 (length b) ≡ false
    → get_nbt (length b) (at front (b ++ rest)) ≡ some (b, at (front ++ b) rest)
unfolding get_nbt
get_nbt-at front b rest h =
    if_cases (λ o. o ≡ some (b, at (front ++ b) rest)) (ltb 0 (length b))
      (λ e.
        bind-some _ (λ p. some (keep_tag (length b) p.0, p.1)) _
          (get-at front b rest (length b) refl)
        ∙ ap (λ t. some (if t then [] else b, at (front ++ b) rest)) h)
      (λ e.
        let none_there = nil_of b e in
        subst
          (λ (c : Bytes).
            ◌≡◌ {A = Option (Bytes × BinaryStream)} (some ([], at front (c ++ rest)))
              (some (c, at (front ++ c) rest)))
          (sym none_there) (ap (λ f. some ([], at f rest)) (sym (append-nil front))))

-- What is left to read after each field.
abbrev last_of : ℤ → ℕ → ℕ → Bytes × BinaryStream → Option (ItemStack × BinaryStream)
unfolding sanitize_slot
last_of i c d p = some (sanitize_slot (stack i c (to_i16 d) p.0), p.1)

abbrev after_damage : ℤ → ℕ → ℕ × BinaryStream → Option (ItemStack × BinaryStream)
unfolding get_lshort get_nbt last_of
after_damage i c q = get_lshort q.1 >>= (λ r. get_nbt r.0 r.1 >>= last_of i c q.0)

abbrev after_count : ℤ → ℕ × BinaryStream → Option (ItemStack × BinaryStream)
unfolding get_short after_damage
after_count i p = get_short p.1 >>= after_damage i p.0

to_i16-from_i16 : (d : ℤ) → ltℤ d (pos 0) ≡ false → pos_part d < 2 ^ 15 → to_i16 (from_i16 d) ≡ d
to_i16-from_i16 d h l = ground arith

get_rest-at :
    (s : ItemStack) (front rest : Bytes)
    → IsClean s
    → get_rest s.id (
        at front (
          (s.count ∷ [])
          ++ (write_short (from_i16 s.damage)
              ++ (write_lshort (length s.nbt % 2 ^ 16) ++ (s.nbt ++ rest)))))
      ≡ some (
        s,
        at
            (front
              ++ (s.count ∷ [])
              ++ write_short (from_i16 s.damage)
              ++ write_lshort (length s.nbt % 2 ^ 16)
              ++ s.nbt)
            rest,
      )
unfolding get_rest last_of after_damage after_count
get_rest-at s front rest c =
    let size : length s.nbt % 2 ^ 16 ≡ length s.nbt = ground (arith, c.short_tag) in
    let damage = write_short (from_i16 s.damage) in
    let tag = write_lshort (length s.nbt % 2 ^ 16) in
    let fits : from_i16 s.damage < 2 ^ 16 = ground (arith, c.damage_positive, c.damage_fits) in
    bind-some _ (after_count s.id) _
      (get_byte-at front (damage ++ (tag ++ (s.nbt ++ rest))) s.count)
    ∙ bind-some _ (after_damage s.id s.count) _
        (get_short-at (front ++ (s.count ∷ [])) (tag ++ (s.nbt ++ rest)) (from_i16 s.damage) fits)
    ∙ bind-some _ (λ r. get_nbt r.0 r.1 >>= last_of s.id s.count (from_i16 s.damage)) _
        (get_lshort-at (front ++ (s.count ∷ []) ++ damage) (s.nbt ++ rest) (length s.nbt % 2 ^ 16)
          (omega arith))
    ∙ ap
        (λ n.
          get_nbt n (at (front ++ (s.count ∷ []) ++ damage ++ tag) (s.nbt ++ rest))
          >>= last_of s.id s.count (from_i16 s.damage))
        size
    ∙ bind-some _ (last_of s.id s.count (from_i16 s.damage)) _
        (get_nbt-at (front ++ (s.count ∷ []) ++ damage ++ tag) s.nbt rest c.short_tag)
    ∙ ap
        (λ d. some (
          sanitize_slot (stack s.id s.count d s.nbt),
          at (front ++ (s.count ∷ []) ++ damage ++ tag ++ s.nbt) rest,
        ))
        (to_i16-from_i16 s.damage c.damage_positive c.damage_fits)
    ∙ ap (λ v. some (v, at (front ++ (s.count ∷ []) ++ damage ++ tag ++ s.nbt) rest))
        (sanitize_slot-clean s c)

abbrev after_sign : Bool → ℤ → BinaryStream → Option (ItemStack × BinaryStream)
unfolding get_rest
after_sign none_there i s = if none_there then some (air, s) else get_rest i s

abbrev after_id : ℕ × BinaryStream → Option (ItemStack × BinaryStream)
unfolding after_sign
after_id p = after_sign (leℤ (to_i16 p.0) (pos 0)) (to_i16 p.0) p.1

clean_slot-at :
    (s : ItemStack) (front rest : Bytes)
    → IsClean s
    → get_slot (at front (slot_bytes s ++ rest)) ≡ some (s, at (front ++ slot_bytes s) rest)
unfolding get_slot full_bytes after_id after_sign
clean_slot-at s front rest c =
    let full : empty_stack s ≡ false =
      unfold empty_stack in ground (arith, c.positive, c.some_of_it) in
    let fits : from_i16 s.id < 2 ^ 16 = ground (arith, c.positive, c.small) in
    let same : to_i16 (from_i16 s.id) ≡ s.id = ground (arith, c.positive, c.small) in
    let first = write_short (from_i16 s.id) in
    let others =
      (s.count ∷ [])
      ++ (write_short (from_i16 s.damage)
          ++ (write_lshort (length s.nbt % 2 ^ 16) ++ (s.nbt ++ rest))) in
    let order : full_bytes s ++ rest ≡ first ++ others = simp append_assoc in
    let whole : front
          ++ first
          ++ (s.count ∷ [])
          ++ write_short (from_i16 s.damage)
          ++ write_lshort (length s.nbt % 2 ^ 16)
          ++ s.nbt
        ≡ front ++ full_bytes s =
      simp append_assoc in
    let next = at (front ++ first) others in
    subst (λ b. get_slot (at front (b ++ rest)) ≡ some (s, at (front ++ b) rest))
      (sym (slot_bytes-full s full))
      (ap (λ b. get_slot (at front b)) order
        ∙ bind-some _ after_id _ (get_signed_short-at front others (from_i16 s.id) fits)
        ∙ ap (λ i. after_sign (leℤ i (pos 0)) i next) same
        ∙ ap (λ b. after_sign b s.id next) c.positive
        ∙ get_rest-at s (front ++ first) rest c
        ∙ ap (λ f. some (s, at f rest)) whole)

air_slot-at :
    (front rest : Bytes)
    → get_slot (at front (slot_bytes air ++ rest)) ≡ some (air, at (front ++ slot_bytes air) rest)
unfolding get_slot after_id after_sign
air_slot-at front rest =
    let bytes : slot_bytes air ≡ write_short 0 =
      slot_bytes-empty air (unfold empty_stack in refl) in
    subst (λ b. get_slot (at front (b ++ rest)) ≡ some (air, at (front ++ b) rest)) (sym bytes)
      (bind-some _ after_id _ (get_signed_short-at front rest 0 (omega arith)))

-- The slot of any item stack in range is read as the sanitized stack, and exactly its bytes are
-- consumed, whatever stands before and after them.
pub get_slot-slot_bytes :
    (item : ItemStack) (front rest : Bytes)
    → IsStack item
    → get_slot (at front (slot_bytes (sanitize_slot item) ++ rest))
      ≡ some (sanitize_slot item, at (front ++ slot_bytes (sanitize_slot item)) rest)
get_slot-slot_bytes item front rest h = elim (sanitize_slot-IsClean item h) [
  | inl e ↦
      subst
        (λ s.
          get_slot (at front (slot_bytes s ++ rest)) ≡ some (s, at (front ++ slot_bytes s) rest))
        (sym e) (air_slot-at front rest)
  | inr c ↦ clean_slot-at (sanitize_slot item) front rest c
]

-- Writing any item stack in range at the end of a stream and reading from there gives the sanitized
-- stack: nothing, or an identifier from 1 to 511, 1 to 64 of it, a damage that is not negative and
-- a tag of at most 1024 bytes. The cursor is then at the end of what was written.
pub get_slot-put_slot :
    (item : ItemStack) (out : BinaryStream)
    → IsStack item
    → (get_slot (record (put_slot item out) { offset = length out.buffer })
        ≡ some (
          sanitize_slot item,
          record (put_slot item out) { offset = length (put_slot item out).buffer },
        ))
      × ((sanitize_slot item ≡ air) ⊎ IsClean (sanitize_slot item))
get_slot-put_slot item out h =
    let b = slot_bytes (sanitize_slot item) in
    let put = sym (put_slot-slot_bytes item out) in
    let written_slot : get_slot (record { buffer = out.buffer ++ b; offset = length out.buffer })
        ≡ some (
          sanitize_slot item,
          record { buffer = out.buffer ++ b; offset = length (out.buffer ++ b) },
        ) =
      ap (λ c. get_slot (record { buffer = out.buffer ++ c; offset = length out.buffer }))
        (sym (append-nil b))
      ∙ get_slot-slot_bytes item out.buffer [] h
      ∙ ap
          (λ c. some (sanitize_slot item, record { buffer = c; offset = length (out.buffer ++ b) }))
          (append-nil (out.buffer ++ b)) in
    (
      subst
          (λ (o : BinaryStream).
            get_slot (record o { offset = length out.buffer })
            ≡ some (sanitize_slot item, record o { offset = length o.buffer }))
          put written_slot,
      sanitize_slot-IsClean item h,
    )
