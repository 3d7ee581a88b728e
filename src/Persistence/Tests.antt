-- ===== src/Persistence/Tests.antt =====
-- Runs of the persistence plugin's model on concrete inputs, and the theorems at such inputs.
use rock_node.Base.{
  ℕ, ◌≤◌, ◌<◌, ◌≡◌, refl, inl, true, [], ◌∷◌, Option, none, some, arith, is_some, All,
  if◌then◌else◌, ◌==◌,
}
use rock_node.Base.Word.{u64_max, add64, sub64, saturating_add, saturating_sub, max}
use rock_node.Block.{Bytes, get_block_number}
use rock_node.Samples.{sample_codec, sample_block}
use rock_node.Rocks.Table.{table_rocks}
use rock_node.Persistence.Db.{Db, commit}
use rock_node.Persistence.State.{
  get_highest_contiguous, find_containing_gap, add_gap_range, fill_gap_block, sweep, expand_left,
  initialize_highest_contiguous, initialize_true_earliest_persisted, set_latest_persisted,
  set_highest_contiguous, set_true_earliest_persisted, set_earliest_hot, initialize_earliest_hot,
}
use rock_node.Persistence.HotTier.{add_block_to_batch, get_earliest_block_number, first_key}
use rock_node.Persistence.Gaps.{Covered}
use rock_node.Persistence.Gaps.Ranges.{
  gap_view, Added, add_gap_range-Added, Removed, fill_gap_block-Removed, Found,
  find_containing_gap-Found,
}
use rock_node.Persistence.Service.{
  Config, walk, contiguous_ops, latest_or_start, write_ops, after_commit, write_block, read_block,
}
use rock_node.Persistence.Service.Contiguity.{IsStored, IsContiguous}
use rock_node.Persistence.Service.Walk.{Walked, walk-Walked}
use rock_node.Persistence.Plugin.{initialize, state_after, write_all, fresh}
use rock_node.Persistence.Writes.{
  HasRoom, write_block-IsContiguous, write_all-IsContiguous, contiguous_readable,
  initialize-IsContiguous, first_block, read-write_block,
}
use rock_node.Persistence.Stale.{latest-write_genesis, Covered-write_block, gaps-write_next}

abbrev pub settings : Config
settings = record { start_block_number = 1; hot_storage_block_count = 3; archive_batch_size = 2 }

abbrev start : Db table_rocks
start = initialize settings none fresh

-- Blocks 1 and 4 have arrived: 2 and 3 are missing.
abbrev pub gapped : Db table_rocks
gapped = write_all sample_codec settings start (sample_block 1 ∷ sample_block 4 ∷ [])

gapped_highest : get_highest_contiguous gapped ≡ 1
unfolding write_all write_block state_after after_commit write_ops contiguous_ops walk
    latest_or_start initialize get_highest_contiguous find_containing_gap add_gap_range
    fill_gap_block sweep expand_left initialize_highest_contiguous
    initialize_true_earliest_persisted set_latest_persisted set_highest_contiguous
    set_true_earliest_persisted set_earliest_hot initialize_earliest_hot add_block_to_batch
    get_earliest_block_number first_key get_block_number add64 sub64 saturating_add saturating_sub
    max
gapped_highest = refl

pub gapped_two : gap_view gapped 2 ≡ some 3
unfolding write_all write_block state_after after_commit write_ops contiguous_ops walk
    latest_or_start initialize get_highest_contiguous find_containing_gap add_gap_range
    fill_gap_block sweep expand_left initialize_highest_contiguous
    initialize_true_earliest_persisted set_latest_persisted set_highest_contiguous
    set_true_earliest_persisted set_earliest_hot initialize_earliest_hot add_block_to_batch
    get_earliest_block_number first_key get_block_number add64 sub64 saturating_add saturating_sub
    max
gapped_two = refl

pub gapped_latest : gapped.metadata.latest_persisted ≡ some 4
unfolding write_all write_block state_after after_commit write_ops contiguous_ops walk
    latest_or_start initialize get_highest_contiguous find_containing_gap add_gap_range
    fill_gap_block sweep expand_left initialize_highest_contiguous
    initialize_true_earliest_persisted set_latest_persisted set_highest_contiguous
    set_true_earliest_persisted set_earliest_hot initialize_earliest_hot add_block_to_batch
    get_earliest_block_number first_key get_block_number add64 sub64 saturating_add saturating_sub
    max
gapped_latest = refl

gapped_four : is_some (table_rocks.get gapped.hot_blocks 4) ≡ true
unfolding write_all write_block state_after after_commit write_ops contiguous_ops walk
    latest_or_start initialize get_highest_contiguous find_containing_gap add_gap_range
    fill_gap_block sweep expand_left initialize_highest_contiguous
    initialize_true_earliest_persisted set_latest_persisted set_highest_contiguous
    set_true_earliest_persisted set_earliest_hot initialize_earliest_hot add_block_to_batch
    get_earliest_block_number first_key get_block_number add64 sub64 saturating_add saturating_sub
    max
gapped_four = refl

abbrev pub NothingCold : ℕ → Type 0
NothingCold n = ⊥

pub room : (n : ℕ) → n < u64_max → HasRoom (sample_block n)
unfolding get_block_number
room n h m e = ground arith

gapped_room : All HasRoom (sample_block 1 ∷ sample_block 4 ∷ [])
gapped_room = (room 1 (ground arith), (room 4 (ground arith), tt))

start_promise : IsContiguous NothingCold settings (first_block settings) start
start_promise = initialize-IsContiguous table_rocks settings none NothingCold (ground arith)

pub gapped_promise : IsContiguous NothingCold settings (first_block settings) gapped
gapped_promise =
    write_all-IsContiguous sample_codec settings NothingCold (first_block settings) start _
      gapped_room start_promise

write_block-IsContiguous_example :
    IsContiguous NothingCold settings
      (first_block settings)
      (state_after gapped (write_block sample_codec settings gapped (sample_block 3)))
write_block-IsContiguous_example =
    write_block-IsContiguous sample_codec settings NothingCold (first_block settings) gapped
      (sample_block 3) (room 3 (ground arith)) gapped_promise

no_cold : ℕ → Option Bytes
no_cold n = none

first_of_settings : first_block settings ≤ 1
unfolding max
first_of_settings = ground arith

contiguous_readable_example : is_some (read_block no_cold gapped 1) ≡ true
contiguous_readable_example =
    contiguous_readable table_rocks sample_codec settings (sample_block 1 ∷ sample_block 4 ∷ [])
      no_cold 1 (ground arith) gapped_room first_of_settings (rw gapped_highest (ground arith))

add_gap_range-Added_example :
    Added (gap_view gapped) (gap_view (commit gapped (add_gap_range gapped 3 6))) 3 6
add_gap_range-Added_example =
    add_gap_range-Added gapped 3 6 gapped_promise.gaps (ground arith) (ground arith)

fill_gap_block-Removed_example :
    Removed (gap_view gapped) (gap_view (commit gapped (fill_gap_block gapped 2))) 2
fill_gap_block-Removed_example = fill_gap_block-Removed gapped 2 gapped_promise.gaps

find_containing_gap-Found_example : Found (gap_view gapped) 3 (find_containing_gap gapped 3)
find_containing_gap-Found_example = find_containing_gap-Found gapped 3 gapped_promise.gaps

number_of : (n : ℕ) → get_block_number (sample_block n) ≡ some n
unfolding get_block_number
number_of n = refl

read-write_block_example :
    read_block no_cold
      (state_after gapped (write_block sample_codec settings gapped (sample_block 3)))
      1
    ≡ (if 3 == 1 then some (sample_codec.encode (sample_block 3)) else read_block no_cold gapped 1)
read-write_block_example =
    read-write_block table_rocks sample_codec settings no_cold gapped (sample_block 3) 3 1
      (number_of 3)

walk-Walked_example : Walked gapped 4 1 (walk gapped 4 4 1)
walk-Walked_example =
    walk-Walked gapped 4 4 1 gapped_promise.gaps (ground arith) (ground arith) (ground arith)

-- Block 4 is stored already when block 6 arrives, and is recorded as missing.
Covered-write_block_example :
    Covered
      (gap_view (state_after gapped (write_block sample_codec settings gapped (sample_block 6))))
      4
    × IsStored NothingCold
        (state_after gapped (write_block sample_codec settings gapped (sample_block 6)))
        4
Covered-write_block_example =
    Covered-write_block sample_codec settings gapped (sample_block 6) NothingCold 6 4 (number_of 6)
      gapped_promise.gaps (rw gapped_highest (ground arith)) (ground arith)
      (rw gapped_highest (ground arith)) (ground arith) (inl gapped_four)

gaps-write_next_example :
    gap_view (state_after gapped (write_block sample_codec settings gapped (sample_block 2)))
    ≡ gap_view gapped
gaps-write_next_example =
    gaps-write_next sample_codec settings gapped (sample_block 2) 2 (number_of 2) (ground arith)
      (rw gapped_highest refl)

latest-write_genesis_example :
    (state_after start
      (write_block sample_codec settings start (sample_block 0))).metadata.latest_persisted
    ≡ start.metadata.latest_persisted
latest-write_genesis_example =
    latest-write_genesis sample_codec settings start (sample_block 0) (number_of 0)
