-- ===== src/Binary/At.antt =====
-- The cursor seen as the bytes before it and the bytes that are still to be read.
use mpmpescore_cpp.Prelude.{
  ℕ, ◌≡◌, refl, ap, true, Option, some, [], ◌∷◌, ◌++◌, arith, length, length-append,
  take-length-append, drop-length-append, append_assoc, get_or, not, le→ltb_false,
}
use mpmpescore_cpp.Binary.{Bytes}
use mpmpescore_cpp.Binary.Stream.{BinaryStream, need, get, get_byte, get_as}

-- The cursor stands between `front` and `rest`.
abbrev pub at : Bytes → Bytes → BinaryStream
at front rest = record { buffer = front ++ rest; offset = length front }

need-at : (front xs rest : Bytes) (n : ℕ) → length xs ≡ n → need n (at front (xs ++ rest)) ≡ true
unfolding need
need-at front xs rest n h =
    ap not
      (le→ltb_false _ _ (omega (arith, length-append front (xs ++ rest), length-append xs rest)))

pub get-at :
    (front xs rest : Bytes) (n : ℕ)
    → length xs ≡ n
    → get n (at front (xs ++ rest)) ≡ some (xs, at (front ++ xs) rest)
unfolding get
get-at front xs rest n h =
    rw (need-at front xs rest n h, ← h) ground
      (
        arith,
        drop-length-append front (xs ++ rest),
        take-length-append xs rest,
        append_assoc front xs rest,
        length-append front xs,
      )

pub get_or-length-append :
    (front : Bytes) (b : ℕ) (rest : Bytes) → get_or (front ++ (b ∷ rest)) (length front) 0 ≡ b
get_or-length-append [] b rest = refl
get_or-length-append (x ∷ front) b rest = get_or-length-append front b rest

pub get_byte-at :
    (front rest : Bytes) (b : ℕ)
    → get_byte (at front (b ∷ rest)) ≡ some (b, at (front ++ (b ∷ [])) rest)
unfolding get_byte
get_byte-at front rest b = ground (
  arith,
  get_or-length-append front b rest,
  length-append front (b ∷ rest),
  length-append front (b ∷ []),
  append_assoc front (b ∷ []) rest,
)

pub get_as-at {ℓ} :
    {A : Type ℓ} (n : ℕ) (read : Bytes → Option A) (front xs rest : Bytes) (v : A)
    → length xs ≡ n
    → read xs ≡ some v
    → get_as n read (at front (xs ++ rest)) ≡ some (v, at (front ++ xs) rest)
unfolding get_as
get_as-at n read front xs rest v h e = rw (get-at front xs rest n h, e)
