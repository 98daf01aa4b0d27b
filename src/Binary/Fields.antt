-- ===== src/Binary/Fields.antt =====
-- Messages as sequences of fields, for the writers and readers of src/binary/BinaryStream.cpp.
mod Single
pub mod Reads
pub use Single.{
  Field, byte, bool, short, lshort, triad, ltriad, int, lint, long, llong, float, lfloat, double,
  ldouble, str, plain, Fits, put_field, get_field, bytes_of,
}
use Single.{put_field_lem, get_field-at}
use mpmpescore_cpp.Prelude.{
  ◌≡◌, refl, Bool, Option, some, List, [], ◌∷◌, ◌++◌, ◌>>=◌, All, append_assoc, append-nil, ◌∙◌, ap,
}
use mpmpescore_cpp.Binary.{Bytes}
use mpmpescore_cpp.Binary.Stream.{BinaryStream, empty, set_buffer}
use mpmpescore_cpp.Binary.At.{at}

-- The fields are written from first to last.
abbrev pub put_fields : Bool → List Field → BinaryStream → Option BinaryStream
put_fields big [] s = some s
put_fields big (f ∷ fs) s = do s' ← put_field big f s; put_fields big fs s'

-- A field of each kind of the list is read.
abbrev pub get_fields : Bool → List Field → BinaryStream → Option (List Field × BinaryStream)
get_fields big [] s = some ([], s)
get_fields big (f ∷ fs) s = do
  (g, s') ← get_field big f s
  (gs, s'') ← get_fields big fs s'
  some (g ∷ gs, s'')

abbrev pub message : Bool → List Field → Bytes
message big [] = []
message big (f ∷ fs) = bytes_of big f ++ message big fs

pub put_fields-message :
    (big : Bool) (fs : List Field) (s : BinaryStream)
    → All Fits fs
    → put_fields big fs s ≡ some (record s { buffer = s.buffer ++ message big fs })
put_fields-message big [] s h = rw append-nil
put_fields-message big (f ∷ fs) s h =
    rw (put_field_lem big f s h.0, put_fields-message big fs _ h.1, append_assoc)

get_fields-at :
    (big : Bool) (fs : List Field) (front rest : Bytes)
    → All Fits fs
    → get_fields big fs (at front (message big fs ++ rest))
      ≡ some (fs, at (front ++ message big fs) rest)
get_fields-at big [] front rest h = rw append-nil
get_fields-at big (f ∷ fs) front rest h =
    rw
      (
        append_assoc (bytes_of big f) (message big fs) rest,
        get_field-at big f front (message big fs ++ rest) h.0,
        get_fields-at big fs (front ++ bytes_of big f) rest h.1,
      )
      (simp append_assoc)

-- On a host of either byte order, a message of fields that fit their types is written without an
-- exception, and reading fields of the same kinds from the start of the buffer gives the fields
-- that were written and leaves the cursor at the end.
pub get_fields-put_fields :
    (big : Bool) (fs : List Field)
    → All Fits fs
    → (s : BinaryStream) × (put_fields big fs empty ≡ some s)
      × (get_fields big fs (set_buffer s.buffer 0 s) ≡ some (fs, at s.buffer []))
unfolding set_buffer
get_fields-put_fields big fs h = (
  record { buffer = message big fs; offset = 0 },
  put_fields-message big fs empty h,
  rw append-nil (rw append-nil at (get_fields-at big fs [] [] h)),
)
