-- ===== src/Persistence/Archiver/Historical.antt =====
-- Historical batches, which go to cold storage at once.
use rock_node.Base.{
  ℕ, ◌+◌, ◌^◌, ◌<◌, ◌≡◌, refl, ◌∙◌, List, ◌∷◌, Option, none, some, arith, ltb, if◌then◌else◌,
  length, All,
}
use rock_node.Block.{Block, Codec}
use rock_node.Rocks.{Rocks}
use rock_node.Persistence.State.{update_true_earliest_if_less}
use rock_node.Persistence.Cold.Files.{Zstd}
use rock_node.Persistence.Cold.Reader as Reader
use rock_node.Persistence.Cold.Laid.{Run, Fits}
use rock_node.Persistence.Cold.Chunks.{Apart}
use rock_node.Persistence.Archiver.{Node, after_batch, write_block_batch, read_stored}
use rock_node.Persistence.Archiver.Moves.{either_tier, read_stored-either_tier}
use rock_node.Persistence.Archiver.Stored.{archived_read, read_block-store_archive}

-- The least of a number and the one that is there.
abbrev pub least_of : ℕ → Option ℕ → ℕ
least_of n none = n
least_of n (some m) = if ltb n m then n else m

module _ {R : Rocks} (z : Zstd) (c : Codec) (first : ℕ) (b : Block) (bs : List Block)
    (node : Node R) where
  true_earliest_lem :
      (update_true_earliest_if_less first node.db).metadata.true_earliest
      ≡ some (least_of first node.db.metadata.true_earliest)
  unfolding update_true_earliest_if_less
  true_earliest_lem = ground arith

  hot_stays : (update_true_earliest_if_less first node.db).hot_blocks ≡ node.db.hot_blocks
  unfolding update_true_earliest_if_less
  hot_stays = ground arith

  -- A historical batch of consecutive blocks is archived, wherever it lies among the older archives,
  -- if they hold none of its blocks: each of its blocks that the hot tier does not have is read as it
  -- was encoded, every other block as before, and the true earliest block is the least of the one
  -- before and the batch's first. The numbers have at most ten digits, and the blocks fit.
  pub read_stored-write_block_batch :
      (n : ℕ)
      → Run first (b ∷ bs)
      → Fits z c 0 (b ∷ bs)
      → first + length bs < 10 ^ 10
      → All (Apart first (first + length bs)) node.indices
      → (node' : Node R) × (write_block_batch z c (b ∷ bs) node ≡ some node')
        × (read_stored z node' n
            ≡ either_tier
                (R.get node.db.hot_blocks n)
                (archived_read c first (b ∷ bs) n (Reader.read_block z node.disk node.indices n)))
        × (node'.db.metadata.true_earliest ≡ some (least_of first node.db.metadata.true_earliest))
  unfolding write_block_batch after_batch
  read_stored-write_block_batch n run fits short apart =
      let (disk, indices, s, r) =
        read_block-store_archive z c first b bs node.disk node.indices run fits short apart n in
      let node' : Node R = record {
        db = update_true_earliest_if_less first node.db;
        disk = disk;
        indices = indices;
      } in
      (
        node',
        rw (run.0, write_block_batch) (rw (s, after_batch) refl),
        read_stored-either_tier z node' n ∙ (λ i. either_tier (R.get (hot_stays i) n) (r i)),
        true_earliest_lem,
      )
