-- ===== src/Base/BigEndian.antt =====
-- Rust's `to_be` and `from_be`, as the bytes of a number in a file.
use Prim.Native.Nat.{ℕ, zero, suc, ◌+◌, ◌*◌, ◌/◌, ◌%◌, ◌^◌, ◌<◌}
use mathlib.Core.Path.{◌≡◌, refl}
use mathlib.Core.List.{List, [], ◌∷◌, ◌++◌}
use native.Mathlib.Omega.{arith}
use rock_node.Base.Lists.{length, length-append}

-- The `k` low bytes of a number, the highest first.
unfoldable pub to_be : ℕ → ℕ → List ℕ
to_be zero n = []
to_be (suc k) n = to_be k (n / 256) ++ (n % 256 ∷ [])

-- The number that bytes stand for, behind those that stand for `acc`.
unfoldable pub from_be : ℕ → List ℕ → ℕ
from_be acc [] = acc
from_be acc (b ∷ bs) = from_be (acc * 256 + b) bs

pub length-to_be : (k n : ℕ) → length (to_be k n) ≡ k
unfolding to_be
length-to_be zero n = refl
length-to_be (suc k) n =
    omega (arith, length-append {0} (to_be k (n / 256)) (n % 256 ∷ []), length-to_be k (n / 256))

-- Four bytes hold a `u32`, eight a `u64`.
pub from_be-to_be_4 : (n : ℕ) → n < 2 ^ 32 → from_be 0 (to_be 4 n) ≡ n
unfolding from_be to_be
from_be-to_be_4 n h = omega arith

pub from_be-to_be_8 : (n : ℕ) → n < 2 ^ 64 → from_be 0 (to_be 8 n) ≡ n
unfolding from_be to_be
from_be-to_be_8 n h = omega arith
