-- ===== src/Base/Signed.antt =====
-- Rust's `i64`, and the casts between it and `u64`.
use Prim.Native.Nat.{ℕ, ◌-◌, ◌≤◌}
use mathlib.Core.Path.{◌≡◌}
use mathlib.Core.Bool.{Bool, true, false}
use native.Mathlib.Omega.{arith}
use rock_node.Base.Tests.{ltb, ◌==◌, if◌then◌else◌}
use rock_node.Base.Word.{u64_max}

-- `negsuc n` is -(n + 1).
pub data ℤ : Type 0 where
  pos : ℕ → ℤ
  negsuc : ℕ → ℤ

-- `a < b`
abbrev pub lt_i64 : ℤ → ℤ → Bool
lt_i64 (pos a) (pos b) = ltb a b
lt_i64 (pos a) (negsuc b) = false
lt_i64 (negsuc a) (pos b) = true
lt_i64 (negsuc a) (negsuc b) = ltb b a

-- `a == b`
abbrev pub eq_i64 : ℤ → ℤ → Bool
eq_i64 (pos a) (pos b) = a == b
eq_i64 (pos a) (negsuc b) = false
eq_i64 (negsuc a) (pos b) = false
eq_i64 (negsuc a) (negsuc b) = a == b

-- `n as i64`
unfoldable pub as_i64 : ℕ → ℤ
as_i64 n = if ltb n 9223372036854775808 then pos n else negsuc (u64_max - n)

-- `i as u64`
unfoldable pub as_u64 : ℤ → ℕ
as_u64 (pos n) = n
as_u64 (negsuc n) = u64_max - n

pub as_u64-as_i64 : (n : ℕ) → n ≤ u64_max → as_u64 (as_i64 n) ≡ n
unfolding as_u64 as_i64
as_u64-as_i64 n h = ground arith

pub eq_i64→eq : (a b : ℤ) → eq_i64 a b ≡ true → a ≡ b
eq_i64→eq (pos a) (pos b) h = ground arith
eq_i64→eq (pos a) (negsuc b) h = ground arith
eq_i64→eq (negsuc a) (pos b) h = ground arith
eq_i64→eq (negsuc a) (negsuc b) h = ground arith

pub eq_i64_refl : (a : ℤ) → eq_i64 a a ≡ true
eq_i64_refl (pos a) = ground arith
eq_i64_refl (negsuc a) = ground arith
