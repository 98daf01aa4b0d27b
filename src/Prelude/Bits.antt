-- ===== src/Prelude/Bits.antt =====
-- Masks on bytes as arithmetic: two functions agree below a bound when their tables do.
use Prim.Native.Nat.{ℕ, zero, suc, ◌<◌}
use mathlib.Core.Path.{◌≡◌}
use mathlib.Core.Bool.{Bool, true, ◌&&◌}
use native.Mathlib.Omega.{arith}
use mpmpescore_cpp.Prelude.Tests.{◌==◌}
pub use Prim.Native.Nat.{bit_and, bit_or, bit_xor}

-- The tables of `f` and `g`, from the last entry down.
unfoldable pub same_tables : (ℕ → ℕ) → (ℕ → ℕ) → ℕ → Bool
same_tables f g zero = true
same_tables f g (suc last) = same_tables f g last && (f last == g last)

pub agree_below :
    (bound : ℕ) (f g : ℕ → ℕ) (k : ℕ) → same_tables f g bound ≡ true → k < bound → f k ≡ g k
unfolding same_tables
agree_below zero f g k e l = absurd (omega arith)
agree_below (suc last) f g k e l = ground (arith, agree_below last f g k)
