-- ===== src/Raklib/Acknowledge/Runs.antt =====
-- What `encode` of src/raklib/AcknowledgePacket.cpp writes: the runs of an ascending list.
use mpmpescore_cpp.Prelude.{
  ℕ, suc, zero, ◌+◌, ◌-◌, ◌%◌, ◌^◌, ◌≤◌, ◌<◌, ◌≡◌, refl, ap, ◌∙◌, List, [], ◌∷◌, ◌++◌, arith, ◌==◌,
  if◌then◌else◌, range_from, append_assoc, append-nil, All, Bool-cases, ==_iff, elem, ◌||◌, inl,
  inr,
}
use mpmpescore_cpp.Binary.{Bytes, write_ltriad}
use mpmpescore_cpp.Raklib.Acknowledge.{
  flush, advance, encode_loop, encode_sorted, Output, insert_sorted, sort, unique_after, unique,
}

-- Strictly ascending, from above `l` on, and below `n`.
abbrev pub Asc : ℕ → ℕ → List ℕ → Type 0
Asc l n [] = Unit {0}
Asc l n (x ∷ xs) = (l < x) × (x < n) × Asc x n xs

-- Each run is its first and its last number.
abbrev pub Runs : Type 0
Runs = List (ℕ × ℕ)

unfoldable pub runs : ℕ → ℕ → List ℕ → Runs
runs start last [] = (start, last) ∷ []
runs start last (x ∷ xs) =
    let joined = runs start x xs in
    let split = (start, last) ∷ runs x x xs in if x == last + 1 then joined else split

abbrev pub numbers : Runs → List ℕ
numbers [] = []
numbers ((a, b) ∷ rs) = range_from a (b - a + 1) ++ numbers rs

abbrev pub record_bytes : ℕ → ℕ → Bytes
record_bytes a b = if a == b then 1 ∷ write_ltriad a else 0 ∷ (write_ltriad a ++ write_ltriad b)

abbrev pub runs_bytes : Runs → Bytes
runs_bytes [] = []
runs_bytes ((a, b) ∷ rs) = record_bytes a b ++ runs_bytes rs

abbrev pub count_after : ℕ → Runs → ℕ
count_after n [] = n
count_after n (r ∷ rs) = count_after ((n + 1) % 2 ^ 16) rs

flush_lem :
    (start last : ℕ) (out : Output)
    → flush start last out ≡ (out.0 ++ record_bytes start last, (out.1 + 1) % 2 ^ 16)
unfolding flush
flush_lem start last out = elim (Bool-cases (start == last)) [ inl e ↦ rw e | inr e ↦ rw e ]

advance_next :
    (start last : ℕ) (out : Output) (x : ℕ)
    → last < x
    → x < 2 ^ 24
    → advance start last x out
      ≡ (if x == last + 1 then (start, x, out) else (x, x, flush start last out))
unfolding advance
advance_next start last out x h k = ground arith

encode_loop-runs :
    (start last : ℕ) (xs : List ℕ) (out : Output)
    → Asc last (2 ^ 24) xs
    → encode_loop start last xs out
      ≡ (out.0 ++ runs_bytes (runs start last xs), count_after out.1 (runs start last xs))
unfolding encode_loop runs
encode_loop-runs start last [] out h = rw (flush_lem start last out, append-nil)
encode_loop-runs start last (x ∷ xs) out h = elim (Bool-cases (x == last + 1)) [
  | inl e ↦ rw (advance_next start last out x h.0 h.1, e) (encode_loop-runs start x xs out h.2)
  | inr e ↦
      rw (advance_next start last out x h.0 h.1, e)
        (rw (
          encode_loop-runs x x xs (flush start last out) h.2,
          flush_lem start last out,
          append_assoc,
        ))
]

range_from-suc : (a n : ℕ) → range_from a (suc n) ≡ range_from a n ++ ((a + n) ∷ [])
range_from-suc a zero = ap (λ (t : ℕ). t ∷ []) (omega arith)
range_from-suc a (suc n) =
    ap (◌∷◌ a)
      (range_from-suc (a + 1) n ∙ ap (λ (t : ℕ). range_from (a + 1) n ++ (t ∷ [])) (omega arith))

-- The runs hold the numbers that were read, in their order.
pub numbers-runs :
    (n start last : ℕ) (xs : List ℕ)
    → start ≤ last
    → Asc last n xs
    → numbers (runs start last xs) ≡ range_from start (last - start + 1) ++ xs
unfolding runs
numbers-runs n start last [] h k = refl
numbers-runs n start last (x ∷ xs) h k = elim (Bool-cases (x == last + 1)) [
  | inl e ↦ rw e (
      numbers-runs n start x xs (omega (arith, k.0)) k.2
      ∙ longer (omega (arith, (==_iff x (last + 1)).0 e)))
  | inr e ↦ rw e (
      ap (◌++◌ (range_from start (last - start + 1)))
        (numbers-runs n x x xs (omega arith) k.2 ∙ single))
]
  where
    single : range_from x (x - x + 1) ++ xs ≡ x ∷ xs
    single = let one : x - x + 1 ≡ 1 = omega arith in rw one

    longer :
        x ≡ last + 1
        → range_from start (x - start + 1) ++ xs ≡ range_from start (last - start + 1) ++ (x ∷ xs)
    longer q =
        let m : ℕ = last - start + 1 in
        let len : x - start + 1 ≡ suc m = omega arith in
        ap (λ (t : ℕ). range_from start t ++ xs) len
        ∙ ap (λ (t : List ℕ). t ++ xs) (range_from-suc start m)
        ∙ append_assoc (range_from start m) ((start + m) ∷ []) xs
        ∙ ap (λ (t : ℕ). range_from start m ++ (t ∷ xs)) (omega arith)

-- Ascending from `l` on, and below `n`, with repetitions.
abbrev Weak : ℕ → ℕ → List ℕ → Type 0
Weak l n [] = Unit {0}
Weak l n (x ∷ xs) = (l ≤ x) × (x < n) × Weak x n xs

insert_sorted-Weak :
    (l n x : ℕ) (ys : List ℕ) → l ≤ x → x < n → Weak l n ys → Weak l n (insert_sorted x ys)
insert_sorted-Weak l n x [] h k w = (h, k, tt)
insert_sorted-Weak l n x (y ∷ ys) h k w = ground (arith, insert_sorted-Weak y n x ys)

sort-Weak : (n : ℕ) (xs : List ℕ) → All (λ x. x < n) xs → Weak 0 n (sort xs)
sort-Weak n [] h = tt
sort-Weak n (x ∷ xs) h = insert_sorted-Weak 0 n x (sort xs) (omega arith) h.0 (sort-Weak n xs h.1)

Weak-mono : (l k n : ℕ) (ys : List ℕ) → l ≤ k → Weak k n ys → Weak l n ys
Weak-mono l k n [] h w = tt
Weak-mono l k n (y ∷ ys) h w = (omega arith, w.1, w.2)

unique_after-Asc : (n x : ℕ) (ys : List ℕ) → Weak x n ys → Asc x n (unique_after x ys)
unique_after-Asc n x [] w = tt
unique_after-Asc n x (y ∷ ys) w =
    ground (arith, Weak-mono x y n ys w.0, unique_after-Asc n x ys, unique_after-Asc n y ys)

elem-insert_sorted : (k x : ℕ) (ys : List ℕ) → elem k (insert_sorted x ys) ≡ ((x == k) || elem k ys)
elem-insert_sorted k x [] = refl
elem-insert_sorted k x (y ∷ ys) = ground (arith, elem-insert_sorted k x ys)

pub elem-sort : (k : ℕ) (xs : List ℕ) → elem k (sort xs) ≡ elem k xs
elem-sort k [] = refl
elem-sort k (x ∷ xs) = rw (elem-insert_sorted k x (sort xs), elem-sort k xs)

elem-unique_after :
    (k x : ℕ) (ys : List ℕ) → ((x == k) || elem k (unique_after x ys)) ≡ ((x == k) || elem k ys)
elem-unique_after k x [] = refl
elem-unique_after k x (y ∷ ys) = ground (arith, elem-unique_after k x ys, elem-unique_after k y ys)

pub elem-unique : (k : ℕ) (xs : List ℕ) → elem k (unique xs) ≡ elem k xs
elem-unique k [] = refl
elem-unique k (x ∷ xs) = elem-unique_after k x xs

-- What `encode` writes for the sorted numbers without repetitions.
abbrev pub runs_of : List ℕ → Runs
runs_of [] = []
runs_of (x ∷ xs) = runs x x xs

-- Strictly ascending, and below `n`.
abbrev pub IsAscending : ℕ → List ℕ → Type 0
IsAscending n [] = Unit {0}
IsAscending n (x ∷ xs) = (x < n) × Asc x n xs

pub unique-sort-IsAscending :
    (n : ℕ) (xs : List ℕ) → All (λ x. x < n) xs → IsAscending n (unique (sort xs))
unique-sort-IsAscending n xs h = go (sort xs) (sort-Weak n xs h)
  where
    go : (ys : List ℕ) → Weak 0 n ys → IsAscending n (unique ys)
    go [] w = tt
    go (y ∷ ys) w = (w.1, unique_after-Asc n y ys w.2)

pub encode_sorted-runs :
    (xs : List ℕ)
    → IsAscending (2 ^ 24) xs
    → encode_sorted xs ≡ (runs_bytes (runs_of xs), count_after 0 (runs_of xs))
unfolding encode_sorted
encode_sorted-runs [] h = refl
encode_sorted-runs (x ∷ xs) h = encode_loop-runs x x xs ([], 0) h.1

pub numbers-runs_of : (n : ℕ) (xs : List ℕ) → IsAscending n xs → numbers (runs_of xs) ≡ xs
numbers-runs_of n [] h = refl
numbers-runs_of n (x ∷ xs) h =
    let one : x - x + 1 ≡ 1 = omega arith in numbers-runs n x x xs (omega arith) h.1 ∙ rw one
