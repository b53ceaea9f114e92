-- ===== src/Base/Words.antt =====
-- Unsigned machine arithmetic of a release build, which wraps around.
use Prim.Native.Nat.{ℕ, ◌+◌, ◌-◌, ◌*◌, ◌%◌, ◌^◌, ◌≤◌}
use mathlib.Core.Path.{◌≡◌}
use native.Mathlib.Omega.{arith}
use telcoin_network.Base.Tests.{leb, if◌then◌else◌}

-- `a + b` on u32 and on u64.
abbrev pub add_u32 : ℕ → ℕ → ℕ
add_u32 a b = (a + b) % 2 ^ 32

abbrev pub add_u64 : ℕ → ℕ → ℕ
add_u64 a b = (a + b) % 2 ^ 64

-- `a - b` on u32 and on u64, for operands in range.
abbrev pub sub_u32 : ℕ → ℕ → ℕ
sub_u32 a b = if leb b a then a - b else a + 2 ^ 32 - b

abbrev pub sub_u64 : ℕ → ℕ → ℕ
sub_u64 a b = if leb b a then a - b else a + 2 ^ 64 - b

abbrev pub mul_u64 : ℕ → ℕ → ℕ
mul_u64 a b = (a * b) % 2 ^ 64

-- `a.saturating_sub(b)`: subtraction on ℕ stops at 0 as well.
abbrev pub saturating_sub : ℕ → ℕ → ℕ
saturating_sub a b = a - b

pub sub_u32-eq : (a b : ℕ) → b ≤ a → sub_u32 a b ≡ a - b
sub_u32-eq a b h = ground arith

pub sub_u64-eq : (a b : ℕ) → b ≤ a → sub_u64 a b ≡ a - b
sub_u64-eq a b h = ground arith
