-- ===== src/Raklib/Session/Window.antt =====
-- The windows of src/raklib/Session.cpp: where they stand, and which datagrams they let in.
pub mod Datagrams
pub mod Messages
pub mod InTurn
use mpmpescore_cpp.Prelude.{
  ℕ, zero, suc, ◌+◌, ◌-◌, ◌^◌, ◌≤◌, ◌<◌, ◌≡◌, refl, true, List, [], ◌∷◌, arith, All, elem, ltb,
  if◌then◌else◌,
}
use mpmpescore_cpp.Prelude.Int.{
  ℤ, pos, negsuc, pos_part, neg_part, ◌+ℤ◌, ◌-ℤ◌, int_laws, eq_of_parts, +ℤ_parts, -ℤ_parts, to_i32,
}
use mpmpescore_cpp.Raklib.Encapsulated.{EncapsulatedPacket}
use mpmpescore_cpp.Raklib.Session.{window_size}
use mpmpescore_cpp.Raklib.Session.Frame.{Receiving}

-- The integer n - 1.
abbrev pub before : ℕ → ℤ
before zero = negsuc 0
before (suc n) = pos n

-- The keys rise, from above `n` on.
abbrev pub Waiting : ℕ → List (ℕ × EncapsulatedPacket) → Type 0
Waiting n [] = Unit {0}
Waiting n ((k, p) ∷ m) = (n < k) × Waiting k m

-- `m` is the lowest datagram number that is still new, and `n` the lowest message index: both windows
-- begin there and reach 2048 further. What was received lies below `m`, up to the newest number, and
-- what waits lies above `n`.
pub record IsWindow (m n : ℕ) (r : Receiving) : Type 0 where
  pub last_seq : r.last_seq ≡ before m
  pub window_start : r.window_start ≡ before m
  pub window_end : r.window_end ≡ pos (m + window_size)
  pub received : All (λ k. k < m) r.received_window
  pub newest : (k : ℕ) → suc k ≡ m → elem k r.received_window ≡ true
  pub reliable_window_start : r.reliable_window_start ≡ pos n
  pub reliable_window_end : r.reliable_window_end ≡ pos (n + window_size)
  pub last_reliable_index : r.last_reliable_index ≡ before n
  pub waiting : Waiting n r.reliable_window

pub before-add_one : (n : ℕ) → before n +ℤ pos 1 ≡ pos n
unfolding ◌+ℤ◌
before-add_one zero = refl
before-add_one (suc n) = ground arith

pub pos-add : (a b : ℕ) → pos a +ℤ pos b ≡ pos (a + b)
unfolding ◌+ℤ◌
pos-add a b = ground arith

pub before-parts : (n : ℕ) → pos_part (before n) + 1 ≡ neg_part (before n) + n
before-parts zero = omega arith
before-parts (suc n) = omega arith

-- The distance of a number from the last one before `m`.
pub pos-sub_before : (k m : ℕ) → m ≤ k → pos k -ℤ before m ≡ pos (k - m + 1)
pos-sub_before k m h = omega (arith, eq_of_parts, -ℤ_parts (pos k) (before m), before-parts m)

pub before-add : (k m : ℕ) → m ≤ k → before m +ℤ pos (k - m + 1) ≡ pos k
before-add k m h = omega (arith, eq_of_parts, +ℤ_parts (before m) (pos (k - m + 1)), before-parts m)

pub to_i32-pos : (k : ℕ) → k < 2 ^ 31 → to_i32 k ≡ pos k
to_i32-pos k h = ground arith
