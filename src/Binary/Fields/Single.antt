-- ===== src/Binary/Fields/Single.antt =====
-- One field of a message: how each writer and reader of src/binary/BinaryStream.cpp treats it.
use mathlib.Core.List.{reverse-reverse, reverse-cons}
use mpmpescore_cpp.Prelude.{
  ℕ, ◌^◌, ◌<◌, ◌≡◌, refl, ap, ◌∙◌, reverse, Bool, true, false, Option, none, some, [], ◌∷◌, ◌++◌,
  arith, length, length-append, append_assoc, if◌then◌else◌, take_all, le→ltb_false,
}
use mpmpescore_cpp.Binary.{
  Bytes, reverse_bytes, read_short, read_lshort, read_triad, read_ltriad, read_int, read_lint,
  read_long, read_llong, read_float, read_lfloat, write_short, write_lshort, write_triad,
  write_ltriad, write_int, write_lint, write_long, write_llong, write_float, write_lfloat,
}
use mpmpescore_cpp.Binary.Codec.{
  read_short-write_short, read_lshort-write_lshort, read_triad-write_triad,
  read_ltriad-write_ltriad, read_int-write_int, read_lint-write_lint, read_long-write_long,
  read_llong-write_llong,
}
use mpmpescore_cpp.Binary.Stream.{
  BinaryStream, get_as, get_byte, get_bool, get_short, get_lshort, get_triad, get_ltriad, get_int,
  get_lint, get_long, get_llong, get_float, get_lfloat, get_double, get_ldouble, get_string, get,
  put, put_byte, put_bool, put_short, put_lshort, put_triad, put_ltriad, put_int, put_lint,
  put_long, put_llong, put_float, put_lfloat, put_double, put_ldouble, put_string,
}
use mpmpescore_cpp.Binary.At.{at, get-at, get_byte-at, get_as-at}

pub data Field : Type 0 where
  byte short lshort triad ltriad int lint long llong : ℕ → Field
  bool : Bool → Field
  float lfloat double ldouble str plain : Bytes → Field

-- The values that the field's type holds; a string must have a length that fits 16 bits.
abbrev pub Fits : Field → Type 0
Fits (byte v) = v < 2 ^ 8
Fits (short v) = v < 2 ^ 16
Fits (lshort v) = v < 2 ^ 16
Fits (triad v) = v < 2 ^ 24
Fits (ltriad v) = v < 2 ^ 24
Fits (int v) = v < 2 ^ 32
Fits (lint v) = v < 2 ^ 32
Fits (long v) = v < 2 ^ 64
Fits (llong v) = v < 2 ^ 64
Fits (bool b) = Unit {0}
Fits (float raw) = length raw ≡ 4
Fits (lfloat raw) = length raw ≡ 4
Fits (double raw) = length raw ≡ 8
Fits (ldouble raw) = length raw ≡ 8
Fits (str s) = length s < 2 ^ 16
Fits (plain s) = Unit {0}

abbrev pub put_field : Bool → Field → BinaryStream → Option BinaryStream
put_field big (byte v) s = some (put_byte v s)
put_field big (short v) s = some (put_short v s)
put_field big (lshort v) s = some (put_lshort v s)
put_field big (triad v) s = some (put_triad v s)
put_field big (ltriad v) s = some (put_ltriad v s)
put_field big (int v) s = some (put_int v s)
put_field big (lint v) s = some (put_lint v s)
put_field big (long v) s = some (put_long v s)
put_field big (llong v) s = some (put_llong v s)
put_field big (bool b) s = some (put_bool b s)
put_field big (float raw) s = some (put_float big raw s)
put_field big (lfloat raw) s = some (put_lfloat big raw s)
put_field big (double raw) s = some (put_double big raw s)
put_field big (ldouble raw) s = some (put_ldouble big raw s)
put_field big (str t) s = put_string t s
put_field big (plain t) s = some (put t s)

abbrev pub wrap {ℓ} :
    {A : Type ℓ} → (A → Field) → Option (A × BinaryStream) → Option (Field × BinaryStream)
wrap mk none = none
wrap mk (some (v, s)) = some (mk v, s)

-- The value in the field is not read: it only tells the kind, and the length of plain bytes.
abbrev pub get_field : Bool → Field → BinaryStream → Option (Field × BinaryStream)
get_field big (byte v) s = wrap byte (get_byte s)
get_field big (short v) s = wrap short (get_short s)
get_field big (lshort v) s = wrap lshort (get_lshort s)
get_field big (triad v) s = wrap triad (get_triad s)
get_field big (ltriad v) s = wrap ltriad (get_ltriad s)
get_field big (int v) s = wrap int (get_int s)
get_field big (lint v) s = wrap lint (get_lint s)
get_field big (long v) s = wrap long (get_long s)
get_field big (llong v) s = wrap llong (get_llong s)
get_field big (bool b) s = wrap bool (get_bool s)
get_field big (float raw) s = wrap float (get_float big s)
get_field big (lfloat raw) s = wrap lfloat (get_lfloat big s)
get_field big (double raw) s = wrap double (get_double big s)
get_field big (ldouble raw) s = wrap ldouble (get_ldouble big s)
get_field big (str t) s = wrap str (get_string s)
get_field big (plain t) s = wrap plain (get (length t) s)

unfoldable pub bytes_of : Bool → Field → Bytes
unfolding reverse_bytes
bytes_of big (byte v) = v ∷ []
bytes_of big (short v) = write_short v
bytes_of big (lshort v) = write_lshort v
bytes_of big (triad v) = write_triad v
bytes_of big (ltriad v) = write_ltriad v
bytes_of big (int v) = write_int v
bytes_of big (lint v) = write_lint v
bytes_of big (long v) = write_long v
bytes_of big (llong v) = write_llong v
bytes_of big (bool b) = (if b then 1 else 0) ∷ []
bytes_of big (float raw) = write_float big raw
bytes_of big (lfloat raw) = write_lfloat big raw
bytes_of big (double raw) = if big then raw else reverse_bytes raw
bytes_of big (ldouble raw) = if big then reverse_bytes raw else raw
bytes_of big (str t) = write_short (length t) ++ t
bytes_of big (plain t) = t

pub put_field_lem :
    (big : Bool) (f : Field) (s : BinaryStream)
    → Fits f
    → put_field big f s ≡ some (record s { buffer = s.buffer ++ bytes_of big f })
unfolding bytes_of put_byte put_short put_lshort put_triad put_ltriad put_int put_lint put_long
    put_llong put_bool put_float put_lfloat put_double put_ldouble put_string put
put_field_lem big (str t) s h = rw (le→ltb_false 0xFFFF (length t) (omega arith), append_assoc)
put_field_lem big _ s h = refl

length-reverse : (xs : Bytes) → length (reverse_bytes xs) ≡ length xs
unfolding reverse_bytes
length-reverse [] = refl
length-reverse (x ∷ xs) =
    omega
      (arith, ap length (reverse-cons x xs), length-append (reverse xs) (x ∷ []), length-reverse xs)

reverse_twice : (xs : Bytes) → reverse_bytes (reverse_bytes xs) ≡ xs
unfolding reverse_bytes
reverse_twice xs = reverse-reverse xs

length-flip : (big : Bool) (xs : Bytes) → length (if big then xs else reverse_bytes xs) ≡ length xs
length-flip true xs = refl
length-flip false xs = length-reverse xs

length-flip' : (big : Bool) (xs : Bytes) → length (if big then reverse_bytes xs else xs) ≡ length xs
length-flip' true xs = length-reverse xs
length-flip' false xs = refl

read_float-write_float :
    (big : Bool) (raw : Bytes) → length raw ≡ 4 → read_float big (write_float big raw) ≡ some raw
unfolding read_float write_float
read_float-write_float true raw h = rw (h, take_all 4 raw (omega arith))
read_float-write_float false raw h =
    rw (length-reverse raw, h, take_all 4 (reverse_bytes raw) (omega (arith, length-reverse raw)))
      (ap some (reverse_twice raw))

read_lfloat-write_lfloat :
    (big : Bool) (raw : Bytes) → length raw ≡ 4 → read_lfloat big (write_lfloat big raw) ≡ some raw
unfolding read_lfloat write_lfloat
read_lfloat-write_lfloat false raw h = rw (h, take_all 4 raw (omega arith))
read_lfloat-write_lfloat true raw h =
    rw (length-reverse raw, h, take_all 4 (reverse_bytes raw) (omega (arith, length-reverse raw)))
      (ap some (reverse_twice raw))

word-at {ℓ} :
    {A : Type ℓ} (mk : A → Field) (n : ℕ) (read : Bytes → Option A) (front xs rest : Bytes) (v : A)
    → length xs ≡ n
    → read xs ≡ some v
    → wrap mk (get_as n read (at front (xs ++ rest))) ≡ some (mk v, at (front ++ xs) rest)
word-at mk n read front xs rest v h e = rw (get_as-at n read front xs rest v h e)

flip_twice :
    (big : Bool) (raw : Bytes)
    → (if big
        then (if big then raw else reverse_bytes raw)
        else reverse_bytes (if big then raw else reverse_bytes raw))
      ≡ raw
flip_twice true raw = refl
flip_twice false raw = reverse_twice raw

flip_twice' :
    (big : Bool) (raw : Bytes)
    → (if big
        then reverse_bytes (if big then reverse_bytes raw else raw)
        else (if big then reverse_bytes raw else raw))
      ≡ raw
flip_twice' true raw = reverse_twice raw
flip_twice' false raw = refl

get_string-at :
    (t front rest : Bytes)
    → length t < 2 ^ 16
    → get_string (at front ((write_short (length t) ++ t) ++ rest))
      ≡ some (t, at (front ++ (write_short (length t) ++ t)) rest)
unfolding get_string
get_string-at t front rest h =
    rw
      (
        append_assoc (write_short (length t)) t rest,
        get_as-at 2 read_short front (write_short (length t)) (t ++ rest) (length t)
            (unfold write_short in refl) (read_short-write_short (length t) h),
        get-at (front ++ write_short (length t)) t rest (length t) refl,
      )
      (simp append_assoc)

pub get_field-at :
    (big : Bool) (f : Field) (front rest : Bytes)
    → Fits f
    → get_field big f (at front (bytes_of big f ++ rest))
      ≡ some (f, at (front ++ bytes_of big f) rest)
unfolding bytes_of
get_field-at big (byte v) front rest h = rw (get_byte-at front rest v)
get_field-at big (short v) front rest h =
    unfold get_short in
    word-at short 2 read_short front (write_short v) rest v (unfold write_short in refl)
      (read_short-write_short v h)
get_field-at big (lshort v) front rest h =
    unfold get_lshort in
    word-at lshort 2 read_lshort front (write_lshort v) rest v (unfold write_lshort in refl)
      (read_lshort-write_lshort v h)
get_field-at big (triad v) front rest h =
    unfold get_triad in
    word-at triad 3 read_triad front (write_triad v) rest v (unfold write_triad in refl)
      (read_triad-write_triad v h)
get_field-at big (ltriad v) front rest h =
    unfold get_ltriad in
    word-at ltriad 3 read_ltriad front (write_ltriad v) rest v (unfold write_ltriad in refl)
      (read_ltriad-write_ltriad v h)
get_field-at big (int v) front rest h =
    unfold get_int in
    word-at int 4 read_int front (write_int v) rest v (unfold write_int in refl)
      (read_int-write_int v h)
get_field-at big (lint v) front rest h =
    unfold get_lint in
    word-at lint 4 read_lint front (write_lint v) rest v (unfold write_lint in refl)
      (read_lint-write_lint v h)
get_field-at big (long v) front rest h =
    unfold get_long in
    word-at long 8 read_long front (write_long v) rest v (unfold write_long in refl)
      (read_long-write_long v h)
get_field-at big (llong v) front rest h =
    unfold get_llong in
    word-at llong 8 read_llong front (write_llong v) rest v (unfold write_llong in refl)
      (read_llong-write_llong v h)
get_field-at big (bool true) front rest h = unfold get_bool in rw (get_byte-at front rest 1)
get_field-at big (bool false) front rest h = unfold get_bool in rw (get_byte-at front rest 0)
get_field-at big (float raw) front rest h =
    unfold get_float in
    word-at float 4 (read_float big) front (write_float big raw) rest raw
      (unfold write_float in length-flip big raw ∙ h) (read_float-write_float big raw h)
get_field-at big (lfloat raw) front rest h =
    unfold get_lfloat in
    word-at lfloat 4 (read_lfloat big) front (write_lfloat big raw) rest raw
      (unfold write_lfloat in length-flip' big raw ∙ h) (read_lfloat-write_lfloat big raw h)
get_field-at big (double raw) front rest h =
    unfold get_double in rw (get-at front _ rest 8 (length-flip big raw ∙ h), flip_twice big raw)
get_field-at big (ldouble raw) front rest h =
    unfold get_ldouble in rw (get-at front _ rest 8 (length-flip' big raw ∙ h), flip_twice' big raw)
get_field-at big (str t) front rest h = rw (get_string-at t front rest h)
get_field-at big (plain t) front rest h = rw (get-at front t rest (length t) refl)
