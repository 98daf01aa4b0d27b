-- ===== src/Binary/Fields/Reads.antt =====
-- Each reader of src/binary/BinaryStream.cpp at a field of its kind.
use mpmpescore_cpp.Prelude.{
  ℕ, ◌^◌, ◌<◌, ◌≡◌, refl, sym, ap, ◌∙◌, Bool, Option, none, some, [], ◌++◌, length,
}
use mpmpescore_cpp.Binary.{Bytes}
use mpmpescore_cpp.Binary.Stream.{
  BinaryStream, get_byte, get_short, get_int, get_long, get_float, get_string,
}
use mpmpescore_cpp.Binary.At.{at}
use mpmpescore_cpp.Binary.Fields.Single.{
  Field, byte, short, int, long, float, str, plain, bytes_of, get_field-at, wrap,
}

abbrev number_in : Field → ℕ
number_in (byte v) = v
number_in (short v) = v
number_in (int v) = v
number_in (long v) = v
number_in _ = 0

abbrev bytes_in : Field → Bytes
bytes_in (float b) = b
bytes_in (str b) = b
bytes_in (plain b) = b
bytes_in _ = []

module _ {A : Type 0} (un : Field → A) where
  abbrev unwrap : Option (Field × BinaryStream) → Option (A × BinaryStream)
  unwrap none = none
  unwrap (some (f, s)) = some (un f, s)

  unwrap-wrap :
      (mk : A → Field) (o : Option (A × BinaryStream))
      → ((a : A) → un (mk a) ≡ a)
      → unwrap (wrap mk o) ≡ o
  unwrap-wrap mk none h = refl
  unwrap-wrap mk (some (a, s)) h = ap (λ b. some (b, s)) (h a)

  read_as :
      (mk : A → Field) (o : Option (A × BinaryStream)) (v : A) (s : BinaryStream)
      → ((a : A) → un (mk a) ≡ a)
      → wrap mk o ≡ some (mk v, s)
      → o ≡ some (v, s)
  read_as mk o v s h e = sym (unwrap-wrap mk o h) ∙ ap unwrap e ∙ ap (λ b. some (b, s)) (h v)

pub get_byte-field :
    (big : Bool) (front rest : Bytes) (v : ℕ)
    → v < 2 ^ 8
    → get_byte (at front (bytes_of big (byte v) ++ rest))
      ≡ some (v, at (front ++ bytes_of big (byte v)) rest)
get_byte-field big front rest v h =
    read_as number_in byte _ v _ (λ a. refl) (get_field-at big (byte v) front rest h)

pub get_short-field :
    (big : Bool) (front rest : Bytes) (v : ℕ)
    → v < 2 ^ 16
    → get_short (at front (bytes_of big (short v) ++ rest))
      ≡ some (v, at (front ++ bytes_of big (short v)) rest)
get_short-field big front rest v h =
    read_as number_in short _ v _ (λ a. refl) (get_field-at big (short v) front rest h)

pub get_int-field :
    (big : Bool) (front rest : Bytes) (v : ℕ)
    → v < 2 ^ 32
    → get_int (at front (bytes_of big (int v) ++ rest))
      ≡ some (v, at (front ++ bytes_of big (int v)) rest)
get_int-field big front rest v h =
    read_as number_in int _ v _ (λ a. refl) (get_field-at big (int v) front rest h)

pub get_long-field :
    (big : Bool) (front rest : Bytes) (v : ℕ)
    → v < 2 ^ 64
    → get_long (at front (bytes_of big (long v) ++ rest))
      ≡ some (v, at (front ++ bytes_of big (long v)) rest)
get_long-field big front rest v h =
    read_as number_in long _ v _ (λ a. refl) (get_field-at big (long v) front rest h)

pub get_float-field :
    (big : Bool) (front rest v : Bytes)
    → length v ≡ 4
    → get_float big (at front (bytes_of big (float v) ++ rest))
      ≡ some (v, at (front ++ bytes_of big (float v)) rest)
get_float-field big front rest v h =
    read_as bytes_in float _ v _ (λ a. refl) (get_field-at big (float v) front rest h)

pub get_string-field :
    (big : Bool) (front rest v : Bytes)
    → length v < 2 ^ 16
    → get_string (at front (bytes_of big (str v) ++ rest))
      ≡ some (v, at (front ++ bytes_of big (str v)) rest)
get_string-field big front rest v h =
    read_as bytes_in str _ v _ (λ a. refl) (get_field-at big (str v) front rest h)
