-- ===== src/Binary/Codec.antt =====
-- Each fixed-width reader of src/binary/BinaryStream.cpp undoes its writer.
use mpmpescore_cpp.Prelude.{ℕ, ◌^◌, ◌<◌, ◌≡◌, ap, some, arith}
use mpmpescore_cpp.Binary.{
  read_short, read_lshort, read_triad, read_ltriad, read_int, read_lint, read_long, read_llong,
  write_short, write_lshort, write_triad, write_ltriad, write_int, write_lint, write_long,
  write_llong,
}

pub read_short-write_short : (v : ℕ) → v < 2 ^ 16 → read_short (write_short v) ≡ some v
unfolding read_short write_short
read_short-write_short v h = ap some (omega arith)

pub read_lshort-write_lshort : (v : ℕ) → v < 2 ^ 16 → read_lshort (write_lshort v) ≡ some v
unfolding read_lshort write_lshort
read_lshort-write_lshort v h = ap some (omega arith)

pub read_triad-write_triad : (v : ℕ) → v < 2 ^ 24 → read_triad (write_triad v) ≡ some v
unfolding read_triad write_triad
read_triad-write_triad v h = ap some (omega arith)

pub read_ltriad-write_ltriad : (v : ℕ) → v < 2 ^ 24 → read_ltriad (write_ltriad v) ≡ some v
unfolding read_ltriad write_ltriad
read_ltriad-write_ltriad v h = ap some (omega arith)

pub read_int-write_int : (v : ℕ) → v < 2 ^ 32 → read_int (write_int v) ≡ some v
unfolding read_int write_int
read_int-write_int v h = ap some (omega arith)

pub read_lint-write_lint : (v : ℕ) → v < 2 ^ 32 → read_lint (write_lint v) ≡ some v
unfolding read_lint write_lint
read_lint-write_lint v h = ap some (omega arith)

pub read_long-write_long : (v : ℕ) → v < 2 ^ 64 → read_long (write_long v) ≡ some v
unfolding read_long write_long
read_long-write_long v h = ap some (omega arith)

pub read_llong-write_llong : (v : ℕ) → v < 2 ^ 64 → read_llong (write_llong v) ≡ some v
unfolding read_llong write_llong
read_llong-write_llong v h = read_long-write_long v h
