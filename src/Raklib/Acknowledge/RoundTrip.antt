-- ===== src/Raklib/Acknowledge/RoundTrip.antt =====
-- `decode` and `encode` of src/raklib/AcknowledgePacket.cpp.
use native.Mathlib.Nat.{zero-add}
use mpmpescore_cpp.Prelude.{
  ℕ, suc, zero, ◌+◌, ◌-◌, ◌%◌, ◌^◌, ◌≤◌, ◌<◌, ◌≡◌, refl, ap, ◌∙◌, true, false, List, [], ◌∷◌, ◌++◌,
  arith, leb, ◌==◌, length, length-append, range_from, append_assoc, append-nil, All, Bool-cases,
  ==_iff, elem, inl, inr, some, le→ltb_false,
}
use mpmpescore_cpp.Binary.{Bytes, write_ltriad, read_ltriad, read_short, write_short}
use mpmpescore_cpp.Binary.Codec.{read_ltriad-write_ltriad, read_short-write_short}
use mpmpescore_cpp.Binary.Stream.{BinaryStream, feof, get_byte, get_short, get_ltriad}
use mpmpescore_cpp.Binary.At.{at, get_byte-at, get_as-at}
use mpmpescore_cpp.Raklib.Acknowledge.{
  AcknowledgePacket, encode, encode_sorted, read_record, decode_loop, decode, sort, unique,
}
use mpmpescore_cpp.Raklib.Acknowledge.Runs.{
  Runs, Asc, runs, numbers, record_bytes, runs_bytes, runs_of, count_after, IsAscending,
  encode_sorted-runs, numbers-runs_of, unique-sort-IsAscending, elem-sort, elem-unique,
}

-- Runs that one record can carry: at most 513 numbers, below 2 ^ 24.
abbrev Fit : Runs → Type 0
Fit [] = Unit {0}
Fit ((a, b) ∷ rs) = (a ≤ b) × (b ≤ a + 512) × (b < 2 ^ 24) × Fit rs

get_ltriad-at :
    (front rest : Bytes) (v : ℕ)
    → v < 2 ^ 24
    → get_ltriad (at front (write_ltriad v ++ rest)) ≡ some (v, at (front ++ write_ltriad v) rest)
unfolding get_ltriad
get_ltriad-at front rest v h =
    get_as-at 3 read_ltriad front (write_ltriad v) rest v (unfold write_ltriad in refl)
      (read_ltriad-write_ltriad v h)

read_record-at :
    (front rest : Bytes) (a b : ℕ)
    → a ≤ b
    → b ≤ a + 512
    → b < 2 ^ 24
    → read_record (at front (record_bytes a b ++ rest))
      ≡ some (range_from a (b - a + 1), at (front ++ record_bytes a b) rest)
unfolding read_record
read_record-at front rest a b h k l = elim (Bool-cases (a == b)) [
  | inl e ↦
      rw
        (
          e,
          get_byte-at front (write_ltriad a ++ rest) 1,
          get_ltriad-at (front ++ (1 ∷ [])) rest a (omega arith),
        )
        (let one : b - a + 1 ≡ 1 = omega (arith, (==_iff a b).0 e) in rw one (simp append_assoc))
  | inr e ↦
      rw
        (
          e,
          append_assoc (write_ltriad a) (write_ltriad b) rest,
          get_byte-at front (write_ltriad a ++ (write_ltriad b ++ rest)) 0,
          get_ltriad-at (front ++ (0 ∷ [])) (write_ltriad b ++ rest) a (omega arith),
          get_ltriad-at ((front ++ (0 ∷ [])) ++ write_ltriad a) rest b l,
          le→ltb_false b a h,
          le→ltb_false 512 (b - a) (omega arith),
        )
        (simp append_assoc)
]

feof-at : (front rest : Bytes) → 0 < length rest → feof (at front rest) ≡ false
unfolding feof
feof-at front rest h = ground (arith, length-append front rest)

length-record_bytes : (a b : ℕ) → 1 ≤ length (record_bytes a b)
length-record_bytes a b = elim (Bool-cases (a == b)) [
  | inl e ↦ rw e (omega arith)
  | inr e ↦ rw e (omega arith)
]

length-range_from : (a n : ℕ) → length (range_from a n) ≡ n
length-range_from a zero = refl
length-range_from a (suc n) = ap suc (length-range_from (a + 1) n)

decode_loop_step :
    (rounds : ℕ) (s : BinaryStream) (cnt : ℕ) (packets xs : List ℕ) (s' : BinaryStream)
    → feof s ≡ false
    → leb 4096 cnt ≡ false
    → read_record s ≡ some (xs, s')
    → decode_loop (suc rounds) s cnt packets
      ≡ decode_loop rounds s' (cnt + length xs) (packets ++ xs)
unfolding decode_loop
decode_loop_step rounds s cnt packets xs s' e k r = ground arith

decode_loop-runs :
    (rs : Runs) (front : Bytes) (cnt : ℕ) (packets : List ℕ)
    → Fit rs
    → cnt + length (numbers rs) ≤ 4096
    → decode_loop (length rs) (at front (runs_bytes rs)) cnt packets ≡ (packets ++ numbers rs, true)
decode_loop-runs [] front cnt packets h k = rw (append-nil packets) (unfold decode_loop in refl)
decode_loop-runs ((a, b) ∷ rs) front cnt packets h k =
    decode_loop_step (length rs) _ cnt packets (range_from a (b - a + 1))
      (at (front ++ record_bytes a b) (runs_bytes rs))
      (feof-at front _
        (omega (arith, length-append (record_bytes a b) (runs_bytes rs), length-record_bytes a b)))
      (ground (arith, parts)) (read_record-at front (runs_bytes rs) a b h.0 h.1 h.2)
    ∙ decode_loop-runs rs (front ++ record_bytes a b) (cnt + length (range_from a (b - a + 1)))
        (packets ++ range_from a (b - a + 1)) h.3 (omega (arith, parts))
    ∙ ap (λ (t : List ℕ). (t, true)) (append_assoc packets (range_from a (b - a + 1)) (numbers rs))
  where
    parts :
        (length (range_from a (b - a + 1) ++ numbers rs)
          ≡ length (range_from a (b - a + 1)) + length (numbers rs))
        × (length (range_from a (b - a + 1)) ≡ b - a + 1)
    parts = (length-append (range_from a (b - a + 1)) (numbers rs), length-range_from a (b - a + 1))

abbrev Ordered : Runs → Type 0
Ordered [] = Unit {0}
Ordered ((a, b) ∷ rs) = (a ≤ b) × (b < 2 ^ 24) × Ordered rs

runs-Ordered :
    (start last : ℕ) (xs : List ℕ)
    → start ≤ last
    → last < 2 ^ 24
    → Asc last (2 ^ 24) xs
    → Ordered (runs start last xs)
unfolding runs
runs-Ordered start last [] h k w = (h, k, tt)
runs-Ordered start last (x ∷ xs) h k w = elim (Bool-cases (x == last + 1)) [
  | inl e ↦ rw e (runs-Ordered start x xs (omega (arith, w.0)) w.1 w.2)
  | inr e ↦ rw e (h, k, runs-Ordered x x xs (omega arith) w.1 w.2)
]

runs_of-Ordered : (xs : List ℕ) → IsAscending (2 ^ 24) xs → Ordered (runs_of xs)
runs_of-Ordered [] h = tt
runs_of-Ordered (x ∷ xs) h = runs-Ordered x x xs (omega arith) h.0 h.1

Ordered-Fit :
    (rs : Runs)
    → Ordered rs
    → length (numbers rs) ≤ 512
    → Fit rs × (length rs ≤ length (numbers rs))
Ordered-Fit [] h k = (tt, omega arith)
Ordered-Fit ((a, b) ∷ rs) h k = go (Ordered-Fit rs h.2 (omega (arith, parts)))
  where
    parts :
        (length (range_from a (b - a + 1) ++ numbers rs)
          ≡ length (range_from a (b - a + 1)) + length (numbers rs))
        × (length (range_from a (b - a + 1)) ≡ b - a + 1)
    parts = (length-append (range_from a (b - a + 1)) (numbers rs), length-range_from a (b - a + 1))

    go :
        Fit rs × (length rs ≤ length (numbers rs))
        → Fit ((a, b) ∷ rs) × (suc (length rs) ≤ length (numbers ((a, b) ∷ rs)))
    go rest = ((h.0, omega (arith, parts), h.1, rest.0), omega (arith, parts, rest.1))

count_after_lem : (n : ℕ) (rs : Runs) → n + length rs < 2 ^ 16 → count_after n rs ≡ n + length rs
count_after_lem n [] h = omega arith
count_after_lem n (r ∷ rs) h =
    let next : (n + 1) % 2 ^ 16 ≡ n + 1 = omega arith in
    rw next (count_after_lem (n + 1) rs (omega arith) ∙ omega arith)

encode-bytes :
    (p : AcknowledgePacket)
    → encode p
      ≡ p.id
        ∷ (write_short (encode_sorted (unique (sort p.packets))).1
            ++ (encode_sorted (unique (sort p.packets))).0)
unfolding encode
encode-bytes p = refl

decode_steps :
    (buffer : Bytes) (q : AcknowledgePacket) (id count : ℕ) (s s' : BinaryStream) (packets : List ℕ)
    → get_byte (record { buffer = buffer; offset = 0 }) ≡ some (id, s)
    → get_short s ≡ some (count, s')
    → decode_loop count s' 0 [] ≡ (packets, true)
    → decode buffer q ≡ (record { id = id; packets = packets }, true)
unfolding decode
decode_steps buffer q id count s s' packets e k r = ground arith

module _ (p q : AcknowledgePacket) (below : All (λ x. x < 2 ^ 24) p.packets)
    (few : length (unique (sort p.packets)) ≤ 512) where
  abbrev distinct : List ℕ
  distinct = unique (sort p.packets)

  ascending : IsAscending (2 ^ 24) distinct
  ascending = unique-sort-IsAscending (2 ^ 24) p.packets below

  all_numbers : numbers (runs_of distinct) ≡ distinct
  all_numbers = numbers-runs_of (2 ^ 24) distinct ascending

  fit : Fit (runs_of distinct) × (length (runs_of distinct) ≤ length (numbers (runs_of distinct)))
  fit = Ordered-Fit (runs_of distinct) (runs_of-Ordered distinct ascending) (rw all_numbers few)

  -- For at most 512 distinct numbers below 2 ^ 24, in any order and with repetitions, `decode`
  -- accepts what `encode` writes and gives the id and each number once, in ascending order.
  pub decode-encode_ack :
      (decode (encode p) q ≡ (record { id = p.id; packets = distinct }, true))
      × IsAscending (2 ^ 24) distinct
      × ((k : ℕ) → elem k distinct ≡ elem k p.packets)
  decode-encode_ack = (
    rw (encode-bytes p, encode_sorted-runs distinct ascending)
        (decode_steps _ q p.id (length rs)
          (at (p.id ∷ []) (write_short (length rs) ++ runs_bytes rs))
          (at (p.id ∷ write_short (length rs)) (runs_bytes rs)) distinct
          (rw (count_after_lem 0 rs (omega (arith, bound)) ∙ zero-add (length rs))
            (get_byte-at [] _ p.id))
          (unfold get_short in
            get_as-at 2 read_short (p.id ∷ []) (write_short (length rs)) (runs_bytes rs) (length rs)
              (unfold write_short in refl)
              (read_short-write_short (length rs) (omega (arith, bound))))
          (decode_loop-runs rs (p.id ∷ write_short (length rs)) 0 [] fit.0
              (rw all_numbers (omega (arith, few)))
            ∙ ap (λ (t : List ℕ). (t, true)) all_numbers)),
    ascending,
    λ k. elem-unique k (sort p.packets) ∙ elem-sort k p.packets,
  )
    where
      rs : Runs
      rs = runs_of distinct

      bound : length rs ≤ 512
      bound = omega (arith, few, fit.1, ap length all_numbers)
