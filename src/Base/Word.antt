-- ===== src/Base/Word.antt =====
-- Rust's `u64` arithmetic on natural numbers, with the wrap-around of a release build.
use Prim.Native.Nat.{ℕ, ◌+◌, ◌-◌, ◌%◌, ◌^◌, ◌≤◌}
use mathlib.Core.Path.{◌≡◌}
use native.Mathlib.Omega.{arith}
use rock_node.Base.Tests.{ltb, if◌then◌else◌}

-- `u64::MAX`
abbrev pub u64_max : ℕ
u64_max = 18446744073709551615

-- `a + b`
unfoldable pub add64 : ℕ → ℕ → ℕ
add64 a b = (a + b) % 2 ^ 64

-- `a - b`
unfoldable pub sub64 : ℕ → ℕ → ℕ
sub64 a b = (a + 2 ^ 64 - b) % 2 ^ 64

-- `a.saturating_add(b)`
unfoldable pub saturating_add : ℕ → ℕ → ℕ
saturating_add a b = if ltb u64_max (a + b) then u64_max else a + b

-- `a.saturating_sub(b)`: the subtraction of ℕ stops at 0 as well.
unfoldable pub saturating_sub : ℕ → ℕ → ℕ
saturating_sub a b = a - b

unfoldable pub max : ℕ → ℕ → ℕ
max a b = if ltb a b then b else a

pub add64-eq : (a b : ℕ) → a + b ≤ u64_max → add64 a b ≡ a + b
unfolding add64
add64-eq a b h = omega arith

pub sub64-eq : (a b : ℕ) → b ≤ a → a ≤ u64_max → sub64 a b ≡ a - b
unfolding sub64
sub64-eq a b h k = omega arith

pub saturating_add-eq : (a b : ℕ) → a + b ≤ u64_max → saturating_add a b ≡ a + b
unfolding saturating_add
saturating_add-eq a b h = ground arith

pub max_bounds : (a b : ℕ) → (a ≤ max a b) × (b ≤ max a b)
unfolding max
max_bounds a b = ground arith

pub max_cases : (a b m : ℕ) → a ≤ m → b ≤ m → max a b ≤ m
unfolding max
max_cases a b m h k = ground arith
