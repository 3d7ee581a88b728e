-- ===== src/Persistence/Writes.antt =====
-- Writes and reads of blocks, over the whole of `write_block`.
use rock_node.Base.{
  ℕ, ◌-◌, ◌≤◌, ◌<◌, ◌≡◌, refl, inl, inr, Bool, true, false, List, [], ◌∷◌, Option, none, some,
  arith, ◌==◌, if◌then◌else◌, is_some, All, Option-cases,
}
use rock_node.Base.Word.{u64_max, max, max_bounds, saturating_sub}
use rock_node.Block.{Block, Bytes, Codec, get_block_number}
use rock_node.Rocks.{Rocks}
use rock_node.Persistence.Db.{Db}
use rock_node.Persistence.State.{
  get_highest_contiguous, initialize_highest_contiguous, initialize_true_earliest_persisted,
}
use rock_node.Persistence.Gaps.Ranges.{gap_view}
use rock_node.Persistence.Service.{Config, after_commit, latest_or_start, write_block, read_block}
use rock_node.Persistence.Service.Contiguity.{IsStored, IsContiguous}
use rock_node.Persistence.Service.After.{after_write, get-after_write}
use rock_node.Persistence.Service.Keeps.{write_ops-IsContiguous}
use rock_node.Persistence.Plugin.{initialize, state_after, write_all, fresh}

-- The block's number, where it has one, is not `u64::MAX`.
abbrev pub HasRoom : Block → Type 0
HasRoom block = (n : ℕ) → get_block_number block ≡ some n → n < u64_max

module _ {R : Rocks} (c : Codec) (cfg : Config) where
  committed : (old db : Db R) (n : ℕ) (b : Bool) → state_after old (after_commit cfg db n b) ≡ db
  unfolding state_after after_commit
  committed old db n true = ground arith
  committed old db n false = refl

  -- A block with a number is committed, whatever happens afterwards.
  pub state_after-write_block :
      (db : Db R) (block : Block) (n : ℕ)
      → get_block_number block ≡ some n
      → state_after db (write_block c cfg db block) ≡ after_write c cfg db block n
  unfolding state_after write_block
  state_after-write_block db block n e = rw (e, write_block) (committed db _ n _)

  pub write_malformed :
      (db : Db R) (block : Block)
      → get_block_number block ≡ none
      → state_after db (write_block c cfg db block) ≡ db
  unfolding state_after write_block
  write_malformed db block e = rw (e, write_block, state_after)

  -- Every write, of a block at any place and with any outcome, keeps the promise of the counters:
  -- from block `first` on, all up to `highest_contiguous` are stored, and each block from there to
  -- the latest is stored or recorded in a gap. The block's number is not `u64::MAX`.
  pub write_block-IsContiguous :
      (cold : ℕ → Type 0) (first : ℕ) (db : Db R) (block : Block)
      → HasRoom block
      → IsContiguous cold cfg first db
      → IsContiguous cold cfg first (state_after db (write_block c cfg db block))
  write_block-IsContiguous cold first db block room v =
      elim (Option-cases (get_block_number block)) [
        | inl e ↦ rw (write_malformed db block e) v
        | inr (n, e) ↦
            rw (state_after-write_block db block n e)
              (write_ops-IsContiguous c cfg db block n cold first v (room n e))
      ]

  pub write_all-IsContiguous :
      (cold : ℕ → Type 0) (first : ℕ) (db : Db R) (blocks : List Block)
      → All HasRoom blocks
      → IsContiguous cold cfg first db
      → IsContiguous cold cfg first (write_all c cfg db blocks)
  unfolding write_all
  write_all-IsContiguous cold first db [] room v = v
  write_all-IsContiguous cold first db (block ∷ blocks) room v =
      write_all-IsContiguous cold first (state_after db (write_block c cfg db block)) blocks room.1
        (write_block-IsContiguous cold first db block room.0 v)

-- The first block that the counters of an empty node speak of: they never speak of block 0.
abbrev pub first_block : Config → ℕ
first_block cfg = max cfg.start_block_number 1

module _ (R : Rocks) (cfg : Config) (earliest_cold : Option ℕ) where
  abbrev begun : Db R
  begun = initialize cfg earliest_cold fresh

  begun-gaps : begun.gaps ≡ R.empty
  unfolding initialize initialize_highest_contiguous initialize_true_earliest_persisted
  begun-gaps = ground arith

  begun-latest : begun.metadata.latest_persisted ≡ none
  unfolding initialize initialize_highest_contiguous initialize_true_earliest_persisted
  begun-latest = ground arith

  begun-counter : begun.metadata.highest_contiguous ≡ some (saturating_sub cfg.start_block_number 1)
  unfolding initialize initialize_highest_contiguous initialize_true_earliest_persisted
  begun-counter = ground arith

  begun-covered : (s : ℕ) → gap_view begun s ≡ none
  begun-covered s = rw begun-gaps (R.get-empty s)

  latest-begun : latest_or_start cfg begun ≡ cfg.start_block_number - 1
  unfolding latest_or_start saturating_sub
  latest-begun = rw begun-latest

  highest-begun : get_highest_contiguous begun ≡ cfg.start_block_number - 1
  unfolding get_highest_contiguous saturating_sub
  highest-begun = rw begun-counter

  -- An empty node starts with the promise kept, from any configured start block below `u64::MAX`.
  pub initialize-IsContiguous :
      (cold : ℕ → Type 0)
      → cfg.start_block_number < u64_max
      → IsContiguous cold cfg (first_block cfg) begun
  initialize-IsContiguous cold h = record {
    gaps = record {
      ordered = λ s e p. ground (arith, begun-covered s);
      below = λ s e p. ground (arith, begun-covered s);
      apart = λ s e t f p k l. ground (arith, begun-covered s);
    };
    ordered = omega (arith, latest-begun, highest-begun);
    below = omega (arith, latest-begun);
    stored = λ b l m. absurd (omega (arith, highest-begun, max_bounds cfg.start_block_number 1));
    recorded = λ b l m. absurd (omega (arith, highest-begun, latest-begun));
  }

module _ (R : Rocks) (c : Codec) (cfg : Config) where
  IsStored-readable :
      (cold : ℕ → Option Bytes) (db : Db R) (b : ℕ)
      → IsStored (λ n. is_some (cold n) ≡ true) db b
      → is_some (read_block cold db b) ≡ true
  unfolding read_block
  IsStored-readable cold db b s = ground arith

  -- From an empty node, after any blocks have been written, each block from the configured start
  -- block up to `highest_contiguous` can be read, whatever cold storage holds, block 0 left out: with
  -- start block 0 the counter starts at 0, with that block not stored. The start block and the
  -- blocks' numbers are below `u64::MAX`.
  pub contiguous_readable :
      (blocks : List Block) (cold : ℕ → Option Bytes) (b : ℕ)
      → cfg.start_block_number < u64_max
      → All HasRoom blocks
      → first_block cfg ≤ b
      → b ≤ get_highest_contiguous (write_all c cfg (initialize cfg none (fresh {R = R})) blocks)
      → is_some (read_block cold (write_all c cfg (initialize cfg none (fresh {R = R})) blocks) b)
        ≡ true
  contiguous_readable blocks cold b start room l m =
      IsStored-readable cold (write_all c cfg (initialize cfg none (fresh {R = R})) blocks) b (
        (write_all-IsContiguous c cfg (λ n. is_some (cold n) ≡ true) (first_block cfg) _ blocks room
            (initialize-IsContiguous R cfg none _ start)).stored
          b l m)

  -- Reading after a write of a block that has a number: this number has the block's encoding, and
  -- every other number has what it had.
  pub read-write_block :
      (cold : ℕ → Option Bytes) (db : Db R) (block : Block) (n b : ℕ)
      → get_block_number block ≡ some n
      → read_block cold (state_after db (write_block c cfg db block)) b
        ≡ (if n == b then some (c.encode block) else read_block cold db b)
  unfolding read_block
  read-write_block cold db block n b e =
      rw (state_after-write_block c cfg db block n e)
        (ground (arith, get-after_write c cfg db block n b))
