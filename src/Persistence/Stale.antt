-- ===== src/Persistence/Stale.antt =====
-- Where `write_block` leaves the counters short of what is stored.
use rock_node.Base.{ℕ, ◌+◌, ◌-◌, ◌<◌, ◌≡◌, sym, inr, false, [], none, some, arith, ltb}
use mathlib.Core.Path.{subst}
use rock_node.Base.Word.{u64_max, max}
use rock_node.Block.{Block, Codec, get_block_number}
use rock_node.Rocks.{Rocks}
use rock_node.Persistence.Db.{Db}
use rock_node.Persistence.Db.Batches.{commit-Columns}
use rock_node.Persistence.State.{get_highest_contiguous, add_gap_range}
use rock_node.Persistence.Gaps.{Covered, IsGaps}
use rock_node.Persistence.Gaps.Ranges.{gap_view, add_gap_range-Added, add_gap_range-gaps_only}
use rock_node.Persistence.Service.{Config, latest_or_start, write_block, walk}
use rock_node.Persistence.Service.Contiguity.{IsStored}
use rock_node.Persistence.Service.Cases.{target, ops_far, ops_next, Parts-exist}
use rock_node.Persistence.Service.Effects.{Parts, Parts-gaps, Parts-highest, latest-write_ops}
use rock_node.Persistence.Service.After.{After-Parts, IsStored-old}
use rock_node.Persistence.Plugin.{state_after}
use rock_node.Persistence.Writes.{state_after-write_block}

max-zero : (l : ℕ) → ltb l (max l 0) ≡ false
unfolding max
max-zero l = ground arith

module _ {R : Rocks} (c : Codec) (cfg : Config) (db : Db R) (block : Block) where
  -- Writing block 0 leaves `latest_persisted` as it is: on an empty node it stays unset.
  pub latest-write_genesis :
      get_block_number block ≡ some 0
      → (state_after db (write_block c cfg db block)).metadata.latest_persisted
        ≡ db.metadata.latest_persisted
  latest-write_genesis e = rw (
    state_after-write_block c cfg db block 0 e,
    (commit-Columns R db _).metadata,
    latest-write_ops c cfg db block 0 (Parts-exist cfg db 0).2,
    max-zero (latest_or_start cfg db),
  )

  -- Writing a block past `highest_contiguous + 1` records each stored block between the two as
  -- missing, while it is stored still. The recorded gaps are apart, and the block's number is not
  -- `u64::MAX`.
  pub Covered-write_block :
      (cold : ℕ → Type 0) (n b : ℕ)
      → get_block_number block ≡ some n
      → IsGaps (gap_view db)
      → get_highest_contiguous db + 1 < n
      → n < u64_max
      → get_highest_contiguous db < b
      → b < n
      → IsStored cold db b
      → Covered (gap_view (state_after db (write_block c cfg db block))) b
        × IsStored cold (state_after db (write_block c cfg db block)) b
  Covered-write_block cold n b e v far top l m s =
      let h = get_highest_contiguous db in
      let p : Parts R _ (add_gap_range db (h + 1) (n - 1)) none =
        subst (λ o. Parts R o (add_gap_range db (h + 1) (n - 1)) none)
          (sym (ops_far cfg db n (omega arith) far top))
          (Parts-gaps R _ (add_gap_range-gaps_only db (h + 1) (n - 1))) in
      let a = After-Parts c cfg db block n p in
      rw (state_after-write_block c cfg db block n e) (
        subst (λ g. Covered g b) (sym a.gaps)
            (((add_gap_range-Added db (h + 1) (n - 1) v (omega arith) (omega arith)).covers b).1
              (inr (omega arith, omega arith))),
        IsStored-old c cfg db block n cold a b s,
      )

  -- Writing the block after `highest_contiguous` leaves the recorded gaps as they are, also one
  -- that begins with the block. The block's number is not `u64::MAX`.
  pub gaps-write_next :
      (n : ℕ)
      → get_block_number block ≡ some n
      → n < u64_max
      → n ≡ get_highest_contiguous db + 1
      → gap_view (state_after db (write_block c cfg db block)) ≡ gap_view db
  gaps-write_next n e top next =
      let r = walk db (target cfg db n) (target cfg db n) n in
      rw (state_after-write_block c cfg db block n e)
        (After-Parts c cfg db block n (
          subst (λ o. Parts R o [] (some r)) (sym (ops_next cfg db n (omega arith) next))
            (Parts-highest R [] r tt))).gaps
