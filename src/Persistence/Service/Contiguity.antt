-- ===== src/Persistence/Service/Contiguity.antt =====
-- What the counters of the persistence plugin promise.
use rock_node.Base.{ℕ, ◌≤◌, ◌<◌, ◌≡◌, ◌⊎◌, true, is_some}
use rock_node.Base.Word.{u64_max}
use rock_node.Rocks.{Rocks}
use rock_node.Persistence.Db.{Db}
use rock_node.Persistence.State.{get_highest_contiguous}
use rock_node.Persistence.Gaps.{Covered, IsGaps}
use rock_node.Persistence.Gaps.Ranges.{gap_view}
use rock_node.Persistence.Service.{Config, latest_or_start}

module _ {R : Rocks} where
  -- The block is in the hot tier or in cold storage.
  abbrev pub IsStored : (ℕ → Type 0) → Db R → ℕ → Type 0
  IsStored cold db b = (is_some (R.get db.hot_blocks b) ≡ true) ⊎ cold b

  -- The promise of the counters, for the blocks from `first`: all up to `highest_contiguous` are
  -- stored, and each block from there to the latest is stored or recorded in a gap.
  pub record IsContiguous (cold : ℕ → Type 0) (cfg : Config) (first : ℕ) (db : Db R) : Type 0 where
    pub gaps : IsGaps (gap_view db)
    pub ordered : get_highest_contiguous db ≤ latest_or_start cfg db
    pub below : latest_or_start cfg db < u64_max
    pub stored : (b : ℕ) → first ≤ b → b ≤ get_highest_contiguous db → IsStored cold db b
    pub recorded :
        (b : ℕ)
        → get_highest_contiguous db < b
        → b ≤ latest_or_start cfg db
        → Covered (gap_view db) b ⊎ IsStored cold db b
