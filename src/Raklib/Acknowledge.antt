-- ===== src/Raklib/Acknowledge.antt =====
-- src/raklib/AcknowledgePacket.cpp and include/mpmpes/raklib/AcknowledgePacket.hpp.
pub mod Runs
pub mod RoundTrip
use mpmpescore_cpp.Prelude.{
  ℕ, zero, suc, ◌+◌, ◌-◌, ◌%◌, ◌^◌, Bool, true, false, ◌||◌, Option, none, some, List, [], ◌∷◌,
  ◌++◌, ltb, leb, ◌==◌, if◌then◌else◌, length, range_from, ◌>>=◌,
}
use mpmpescore_cpp.Binary.{Bytes, write_ltriad}
use mpmpescore_cpp.Binary.Stream.{
  BinaryStream, empty, feof, get_byte, get_short, get_ltriad, put, put_byte, put_short,
}

pub record AcknowledgePacket : Type 0 where
  pub id : ℕ
  pub packets : List ℕ

-- std::sort, by the result that it has on numbers.
abbrev pub insert_sorted : ℕ → List ℕ → List ℕ
insert_sorted x [] = x ∷ []
insert_sorted x (y ∷ ys) = if leb x y then x ∷ y ∷ ys else y ∷ insert_sorted x ys

abbrev pub sort : List ℕ → List ℕ
sort [] = []
sort (x ∷ xs) = insert_sorted x (sort xs)

-- std::unique and erase, behind the element `x` that was kept last.
abbrev pub unique_after : ℕ → List ℕ → List ℕ
unique_after x [] = []
unique_after x (y ∷ ys) = if x == y then unique_after x ys else y ∷ unique_after y ys

abbrev pub unique : List ℕ → List ℕ
unique [] = []
unique (x ∷ xs) = x ∷ unique_after x xs

-- `payload` and `records`.
abbrev pub Output : Type 0
Output = Bytes × ℕ

unfoldable pub flush_single : ℕ → Output → Output
flush_single v (payload, records) = (payload ++ (1 ∷ write_ltriad v), (records + 1) % 2 ^ 16)

unfoldable pub flush_range : ℕ → ℕ → Output → Output
flush_range a b (payload, records) =
    (payload ++ (0 ∷ (write_ltriad a ++ write_ltriad b)), (records + 1) % 2 ^ 16)

unfoldable pub flush : ℕ → ℕ → Output → Output
unfolding flush_single flush_range
flush start last out = if start == last then flush_single start out else flush_range start last out

-- One round of the loop: the new `start` and `last`.
unfoldable pub advance : ℕ → ℕ → ℕ → Output → ℕ × ℕ × Output
unfolding flush
advance start last current out =
    let diff = (current + 2 ^ 32 - last) % 2 ^ 32 in
    if diff == 1
    then (start, current, out)
    else (if ltb 1 diff then (current, current, flush start last out) else (start, last, out))

unfoldable pub encode_loop : ℕ → ℕ → List ℕ → Output → Output
unfolding advance flush
encode_loop start last [] out = flush start last out
encode_loop start last (current ∷ rest) out =
    let (start', last', out') = advance start last current out in encode_loop start' last' rest out'

unfoldable pub encode_sorted : List ℕ → Output
unfolding encode_loop
encode_sorted [] = ([], 0)
encode_sorted (x ∷ xs) = encode_loop x x xs ([], 0)

unfoldable pub encode : AcknowledgePacket → Bytes
unfolding encode_sorted put_byte put_short put
encode p =
    let (payload, records) = encode_sorted (unique (sort p.packets)) in
    (put payload (put_short records (put_byte p.id empty))).buffer

-- A range gives 513 numbers at most.
abbrev pub clamp_end : ℕ → ℕ → ℕ
clamp_end start end = if ltb 512 (end - start) then start + 512 else end

abbrev pub range_record : ℕ → ℕ → BinaryStream → Option (List ℕ × BinaryStream)
range_record start end s =
    if ltb end start then none else some (range_from start (clamp_end start end - start + 1), s)

-- The numbers of one record; `none` is an exception, or an end before the start.
unfoldable pub read_record : BinaryStream → Option (List ℕ × BinaryStream)
read_record s = do
  (flag, s) ← get_byte s
  (start, s) ← get_ltriad s
  let range = get_ltriad s >>= λ (end, s). range_record start end s
  if flag == 0 then range else some (start ∷ [], s)

-- The rounds left, the cursor, `cnt` and `packets`. The flag is the result of `decode`.
unfoldable pub decode_loop : ℕ → BinaryStream → ℕ → List ℕ → List ℕ × Bool
decode_loop zero s cnt packets = (packets, true)
decode_loop (suc rounds) s cnt packets = elim (feof s || leb 4096 cnt) [
  | true ↦ (packets, true)
  | false ↦ elim (read_record s) [
    | none ↦ (packets, false)
    | some (xs, s') ↦ decode_loop rounds s' (cnt + length xs) (packets ++ xs)
  ]
]

unfoldable pub decode : Bytes → AcknowledgePacket → AcknowledgePacket × Bool
unfolding decode_loop
decode buffer p = elim (get_byte (record { buffer = buffer; offset = 0 })) [
  | none ↦ (record p { packets = [] }, false)
  | some (id, s) ↦ elim (get_short s) [
    | none ↦ (record { id = id; packets = [] }, false)
    | some (count, s') ↦
        (record { id = id; packets = (decode_loop count s' 0 []).0 }, (decode_loop count s' 0 []).1)
  ]
]
