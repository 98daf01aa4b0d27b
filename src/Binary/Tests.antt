-- ===== src/Binary/Tests.antt =====
-- Runs of the readers and writers of src/binary/BinaryStream.cpp.
use mpmpescore_cpp.Prelude.{◌≡◌, true, some, List, [], ◌∷◌, arith}
use mpmpescore_cpp.Binary.Stream.{BinaryStream, empty, set_buffer}
use mpmpescore_cpp.Binary.At.{at}
use mpmpescore_cpp.Binary.Fields.{
  Field, byte, lshort, triad, str, put_fields, get_fields, get_fields-put_fields,
}

abbrev fields : List Field
fields = byte 5 ∷ lshort 258 ∷ triad 70000 ∷ str (b'a' ∷ b'b' ∷ []) ∷ []

get_fields-put_fields_example :
    (s : BinaryStream) × (put_fields true fields empty ≡ some s)
    × (get_fields true fields (set_buffer s.buffer 0 s) ≡ some (fields, at s.buffer []))
get_fields-put_fields_example = get_fields-put_fields true fields (ground arith)
