-- ===== src/Raklib/Session/Splits.antt =====
-- Split packets of src/raklib/Session.cpp: the parts that are sent, and their reassembly.
pub mod Sent
pub mod Parts
use mathlib.Core.Path.{ap₂}
use native.Mathlib.Nat.{mod-lt, mod-add-div'}
use mpmpescore_cpp.Prelude.{
  ℕ, zero, suc, ◌+◌, ◌-◌, ◌*◌, ◌/◌, ◌≤◌, ◌<◌, ◌≡◌, refl, sym, ap, ◌∙◌, true, false, List, [], ◌∷◌,
  ◌++◌, arith, Option, none, some, ltb, ◌==◌, ◌||◌, if_both, if_cases, if◌then◌else◌, length,
  length-take, take, drop, take-append-drop, subst, value_or, ◌>>=◌, is_empty, not, ◌&&◌,
}
use mpmpescore_cpp.Prelude.Int.{pos, ltℤ}
use mpmpescore_cpp.Prelude.Maps.{map_find, map_set, length-map_set, map_find-set}
use mpmpescore_cpp.Binary.{Bytes}
use mpmpescore_cpp.Raklib.Encapsulated.{EncapsulatedPacket, total_length}
use mpmpescore_cpp.Raklib.Session.{Session, max_split_size, max_split_count}
use mpmpescore_cpp.Raklib.Session.Send.{chunk_size, split_part, number_part, has_message_index}
use mpmpescore_cpp.Raklib.Session.Receive.{combine, parts_of, store_split}

drop_nil : (n : ℕ) → drop {A = ℕ} n [] ≡ []
drop_nil zero = refl
drop_nil (suc n) = refl

drop-drop : (m n : ℕ) (xs : Bytes) → drop m (drop n xs) ≡ drop (n + m) xs
drop-drop m zero xs = ground arith
drop-drop m (suc n) [] = drop_nil m ∙ sym (drop_nil (suc n + m))
drop-drop m (suc n) (x ∷ xs) = drop-drop m n xs ∙ ap (λ k. drop k (x ∷ xs)) more
  where
    more : suc (n + m) ≡ suc n + m
    more = omega arith

drop_all : (n : ℕ) (xs : Bytes) → length xs ≤ n → drop n xs ≡ []
drop_all n [] h = drop_nil n
drop_all zero (x ∷ xs) h = ground arith
drop_all (suc n) (x ∷ xs) h = drop_all n xs (omega arith)

-- The bytes of part `i`.
abbrev pub bytes_of : ℕ → List (ℕ × EncapsulatedPacket) → Option Bytes
bytes_of i parts = elim (map_find i parts) [ none ↦ none | some part ↦ some part.buffer ]

-- One step of `combine`.
join :
    (o : Option EncapsulatedPacket) (r : Option Bytes) (b c : Bytes)
    → (elim o [ none ↦ none | some part ↦ some part.buffer ]) ≡ some b
    → r ≡ some c
    → (o >>= λ (part : EncapsulatedPacket). r >>= λ (rest : Bytes). some (part.buffer ++ rest))
      ≡ some (b ++ c)
join none r b c e f = ground arith
join (some part) r b c e f = rw f (ap (λ (o : Option Bytes). some (value_or o [] ++ c)) e)

buffer-split_part :
    (packet : EncapsulatedPacket) (chunk count sid i : ℕ)
    → (split_part packet chunk count sid i).buffer ≡ take chunk (drop (i * chunk) packet.buffer)
unfolding split_part
buffer-split_part packet chunk count sid i =
    if_both (λ (p : EncapsulatedPacket). p.buffer ≡ take chunk (drop (i * chunk) packet.buffer))
      (packet.reliability == 3) refl refl

-- The packet's bytes from part `i` on.
combine-from :
    (packet : EncapsulatedPacket) (chunk count sid : ℕ) (parts : List (ℕ × EncapsulatedPacket))
    (rounds i : ℕ)
    → i + rounds ≡ count
    → length packet.buffer ≤ count * chunk
    → ((j : ℕ) → j < count → bytes_of j parts ≡ some (split_part packet chunk count sid j).buffer)
    → combine rounds i parts ≡ some (drop (i * chunk) packet.buffer)
unfolding combine
combine-from packet chunk count sid parts zero i e h f = ap some (
    sym (
      drop_all (i * chunk) packet.buffer
        (subst (λ (k : ℕ). length packet.buffer ≤ k * chunk) (omega arith) h)))
combine-from packet chunk count sid parts (suc rounds) i e h f =
    join (map_find i parts) (combine rounds (i + 1) parts) _ _ (f i (omega arith))
      (combine-from packet chunk count sid parts rounds (i + 1) (omega arith) h f)
    ∙ ap some (
        ap₂ ◌++◌ (buffer-split_part packet chunk count sid i) (
          ap (λ (k : ℕ). drop k packet.buffer) next
          ∙ sym (drop-drop chunk (i * chunk) packet.buffer))
        ∙ take-append-drop chunk (drop (i * chunk) packet.buffer))
  where
    next : (i + 1) * chunk ≡ i * chunk + chunk
    next = ground arith

-- The number of parts of a packet of `n` bytes.
abbrev parts_for : ℕ → ℕ → ℕ
parts_for n chunk = (n + chunk - 1) / chunk

-- When a receiver holds the bytes of each part that `addEncapsulated` sends for a packet, for any size
-- of datagram, putting them together gives the bytes of the packet.
pub combine-split_part :
    (packet : EncapsulatedPacket) (mtu sid : ℕ) (parts : List (ℕ × EncapsulatedPacket))
    → ((j : ℕ)
        → j < (length packet.buffer + chunk_size mtu - 1) / chunk_size mtu
        → bytes_of j parts
          ≡ some
              (split_part packet
                (chunk_size mtu)
                ((length packet.buffer + chunk_size mtu - 1) / chunk_size mtu)
                sid
                j).buffer)
    → combine ((length packet.buffer + chunk_size mtu - 1) / chunk_size mtu) 0 parts
      ≡ some packet.buffer
combine-split_part packet mtu sid parts f =
    combine-from packet (chunk_size mtu) count sid parts count 0 (omega arith)
      (enough (chunk_size mtu) chunk_pos) f
    ∙ ap some (whole)
  where
    count : ℕ
    count = (length packet.buffer + chunk_size mtu - 1) / chunk_size mtu

    chunk_pos : 1 ≤ chunk_size mtu
    chunk_pos = unfold chunk_size in ground arith

    enough : (c : ℕ) → 1 ≤ c → length packet.buffer ≤ (length packet.buffer + c - 1) / c * c
    enough c h = omega (
      arith,
      mod-lt (length packet.buffer + c - 1) {m = c} (omega arith),
      mod-add-div' (length packet.buffer + c - 1) c,
    )

    whole : drop (0 * chunk_size mtu) packet.buffer ≡ packet.buffer
    whole = ground arith

total_length-bound : (p : EncapsulatedPacket) → total_length p ≤ length p.buffer + 20
unfolding total_length
total_length-bound p = ground arith

buffer-number_part :
    (packet : EncapsulatedPacket) (i : ℕ) (part : EncapsulatedPacket) (s : Session)
    → (number_part packet i part s).0.buffer ≡ part.buffer
unfolding number_part
buffer-number_part packet i part s =
    if_both (λ (r : EncapsulatedPacket × Session). r.0.buffer ≡ part.buffer) (i == 0) refl
      (if_both (λ (r : EncapsulatedPacket × Session). r.0.buffer ≡ part.buffer)
        (has_message_index packet.reliability) refl refl)

-- Each part of a split packet fits into a datagram of its own, when a datagram may have more than 34
-- bytes.
pub total_length-number_part :
    (packet : EncapsulatedPacket) (mtu count sid i : ℕ) (s : Session)
    → 34 < mtu
    → total_length (number_part packet i (split_part packet (chunk_size mtu) count sid i) s).0 + 4
      ≤ mtu
total_length-number_part packet mtu count sid i s h = omega (
  arith,
  total_length-bound (number_part packet i part s).0,
  ap length
      (buffer-number_part packet i part s ∙ buffer-split_part packet (chunk_size mtu) count sid i),
  length-take (chunk_size mtu) (drop (i * chunk_size mtu) packet.buffer),
  chunk,
)
  where
    part : EncapsulatedPacket
    part = split_part packet (chunk_size mtu) count sid i

    chunk : chunk_size mtu ≡ mtu - 34
    chunk = unfold chunk_size in ground arith

-- The refused part leaves an entry without parts.
store_split_refused :
    (packet : EncapsulatedPacket) (count index sid now : ℕ) (s : Session)
    → count < max_split_size
    → index < max_split_size
    → map_find sid s.splits ≡ none
    → max_split_count ≤ length s.splits
    → store_split packet (pos count) (pos index) sid now s
      ≡ record s { splits = map_set sid [] s.splits }
unfolding store_split
store_split_refused packet count index sid now s c d e l =
    let in_range : (not (ltℤ (pos count) (pos max_split_size))
          || (not (ltℤ (pos index) (pos max_split_size)) || ltℤ (pos index) (pos 0)))
        ≡ false =
      ground arith in
    let no_parts : List (ℕ × EncapsulatedPacket) = [] in
    let full : ltb max_split_count (length (map_set sid no_parts s.splits)) ≡ true =
      ground (arith, length-map_set sid no_parts s.splits e) in
    let unknown : parts_of sid s.splits ≡ no_parts =
      ap
        (λ (o : Option (List (ℕ × EncapsulatedPacket))).
          elim o as (λ _. List (ℕ × EncapsulatedPacket)) [ none ↦ [] | some parts ↦ parts ])
        e in
    rw (in_range, unknown, full) refl

-- A part of a new split packet that comes while the table has four entries or more makes the table
-- longer by one entry, although the bound is four: the new entry is for the split packet and holds no
-- part, not even the one that came. The other entries and the rest of the session stay as they were.
pub splits-store_split_refused :
    (packet : EncapsulatedPacket) (count index sid other now : ℕ) (s : Session)
    → count < max_split_size
    → index < max_split_size
    → map_find sid s.splits ≡ none
    → max_split_count ≤ length s.splits
    → (length (store_split packet (pos count) (pos index) sid now s).splits ≡ length s.splits + 1)
      × (map_find other (store_split packet (pos count) (pos index) sid now s).splits
          ≡ (if sid == other then some [] else map_find other s.splits))
      × (record (store_split packet (pos count) (pos index) sid now s) { splits = s.splits } ≡ s)
splits-store_split_refused packet count index sid other now s c d e l =
    subst
      (λ (t : Session).
        (length t.splits ≡ length s.splits + 1)
        × (map_find other t.splits ≡ (if sid == other then some [] else map_find other s.splits))
        × (record t { splits = s.splits } ≡ s))
      (sym (store_split_refused packet count index sid now s c d e l))
      (length-map_set sid _ s.splits e, map_find-set other sid _ s.splits, refl)
