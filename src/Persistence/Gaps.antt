-- ===== src/Persistence/Gaps.antt =====
-- The gap ranges of state.rs as a set of block numbers.
pub mod Sweep
pub mod Left
pub mod Merge
pub mod Fill
pub mod Ranges
use rock_node.Base.{ℕ, suc, ◌+◌, ◌≤◌, ◌<◌, ◌≡◌, Option, none, some}
use rock_node.Base.Word.{u64_max}

-- The gaps column, read key by key: from the first missing block to the last.
abbrev pub GapView : Type 0
GapView = ℕ → Option ℕ

-- Some recorded gap holds block `b`.
abbrev pub Covered : GapView → ℕ → Type 0
Covered g b = (s : ℕ) × (e : ℕ) × (g s ≡ some e) × (s ≤ b) × (b ≤ e)

-- The gaps are nonempty, no two overlap or touch, and `u64::MAX` is in none.
pub record IsGaps (g : GapView) : Type 0 where
  pub ordered : (s e : ℕ) → g s ≡ some e → s ≤ e
  pub below : (s e : ℕ) → g s ≡ some e → e < u64_max
  pub apart : (s e t f : ℕ) → g s ≡ some e → g t ≡ some f → s < t → e + 1 < t
