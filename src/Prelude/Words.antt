-- ===== src/Prelude/Words.antt =====
-- `u64` and a 64-bit `usize`, with the wrap-around of a release build written out.
use Prim.Native.Nat.{ℕ, ◌+◌, ◌-◌, ◌%◌, ◌^◌, ◌<◌, ◌≤◌}
use mathlib.Core.Path.{◌≡◌}
use native.Mathlib.Omega.{arith}

abbrev pub u64_mod : ℕ
u64_mod = 2 ^ 64

-- a += b
unfoldable pub add64 : ℕ → ℕ → ℕ
add64 a b = (a + b) % u64_mod

-- a -= b
unfoldable pub sub64 : ℕ → ℕ → ℕ
sub64 a b = (a + u64_mod - b) % u64_mod

pub add64_exact : (a b : ℕ) → a + b < u64_mod → add64 a b ≡ a + b
unfolding add64
add64_exact a b h = omega arith

pub sub64_exact : (a b : ℕ) → b ≤ a → a < u64_mod → sub64 a b ≡ a - b
unfolding sub64
sub64_exact a b h k = omega arith

pub add64_lt : (a b : ℕ) → add64 a b < u64_mod
unfolding add64
add64_lt a b = omega arith

pub sub64_lt : (a b : ℕ) → sub64 a b < u64_mod
unfolding sub64
sub64_lt a b = omega arith

pub sub64-add64 : (a b : ℕ) → a < u64_mod → b < u64_mod → sub64 (add64 a b) b ≡ a
unfolding add64 sub64
sub64-add64 a b h k = omega arith
