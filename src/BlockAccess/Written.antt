-- ===== src/BlockAccess/Written.antt =====
-- Requests for blocks that the persistence plugin has written.
use rock_node.Base.{
  ℕ, ◌≡◌, ◌≢◌, ◌<◌, ◌⊎◌, inl, inr, refl, ap, ◌∙◌, true, false, ◌||◌, [], ◌∷◌, Option, none, some,
  arith, ltb, ◌==◌, if◌then◌else◌, Option-cases,
}
use rock_node.Base.Word.{u64_max, max}
use rock_node.Block.{Block, Bytes, Codec, get_block_number}
use rock_node.BlockReader.{BlockReader, Fallible, err, ok, persistence_reader}
use rock_node.BlockAccess.{
  success, not_found, not_available, block_number, retrieve_latest, get_block,
  get_target_block_number, get_latest_block_number, latest_target, respond_to, respond_with,
  handle_found_block, handle_not_found_block, outside, flatten,
}
use rock_node.Rocks.{Rocks}
use rock_node.Persistence.Db.{Db}
use rock_node.Persistence.Db.Batches.{commit-Columns}
use rock_node.Persistence.Service.{Config, latest_or_start, write_block, read_block}
use rock_node.Persistence.Service.Cases.{Parts-exist}
use rock_node.Persistence.Service.Effects.{latest-write_ops}
use rock_node.Persistence.Plugin.{state_after}
use rock_node.Persistence.Writes.{state_after-write_block, read-write_block}

not_latest : (n : ℕ) → n < u64_max → (n == u64_max) ≡ false
not_latest n h = ground arith

found :
    (c : Codec) (block : Block) (bytes : Bytes)
    → bytes ≢ []
    → c.decode bytes ≡ some block
    → handle_found_block c bytes ≡ (success, some block)
unfolding handle_found_block
found c block [] ne e = absurd (ne refl)
found c block (byte ∷ bytes) ne e = rw (e, handle_found_block)

module _ {R : Rocks} (c : Codec) (cfg : Config) where
  latest-written :
      (db : Db R) (block : Block) (n : ℕ)
      → get_block_number block ≡ some n
      → latest_or_start cfg db < n
      → (state_after db (write_block c cfg db block)).metadata.latest_persisted ≡ some n
  unfolding max
  latest-written db block n e later =
      rw
        (
          state_after-write_block c cfg db block n e,
          (commit-Columns R db _).metadata,
          latest-write_ops c cfg db block n (Parts-exist cfg db n).2,
        )
        (ground arith)

  read_written :
      (cold : ℕ → Option Bytes) (db : Db R) (block : Block) (n : ℕ)
      → get_block_number block ≡ some n
      → read_block cold (state_after db (write_block c cfg db block)) n ≡ some (c.encode block)
  read_written cold db block n e = read-write_block R c cfg cold db block n n e ∙ ground arith

  -- A request for the number of a block that has just been written answers with success and the
  -- block. The number is not `u64::MAX`, which asks for the latest block, and the block's encoding
  -- is not empty.
  pub get_block-write_block :
      (cold : ℕ → Option Bytes) (db : Db R) (block : Block) (n : ℕ)
      → get_block_number block ≡ some n
      → n < u64_max
      → c.encode block ≢ []
      → get_block c
          (persistence_reader cold (state_after db (write_block c cfg db block)))
          (some (block_number n))
        ≡ (success, some block)
  unfolding get_block get_target_block_number respond_to respond_with
  get_block-write_block cold db block n e top ne =
      rw (not_latest n top, read_written cold db block n e)
        (found c block (c.encode block) ne (c.decode-encode block))

  -- A request for the latest block, after a block has been written whose number is above the latest
  -- before it, answers with success and this block. The block's encoding is not empty.
  pub get_block-latest :
      (cold : ℕ → Option Bytes) (db : Db R) (block : Block) (n : ℕ)
      → get_block_number block ≡ some n
      → latest_or_start cfg db < n
      → c.encode block ≢ []
      → get_block c
          (persistence_reader cold (state_after db (write_block c cfg db block)))
          (some (retrieve_latest true))
        ≡ (success, some block)
  unfolding get_block get_target_block_number get_latest_block_number latest_target respond_to
      respond_with read_block
  get_block-latest cold db block n e later ne =
      rw (latest-written db block n e later, read_written cold db block n e)
        (found c block (c.encode block) ne (c.decode-encode block))

-- The block is outside a range that the reader reports.
abbrev pub IsOutside : BlockReader → ℕ → Type 0
IsOutside reader n =
    (earliest : ℕ) × (latest : ℕ) × (reader.get_earliest_persisted_block_number
      ≡ ok (some earliest))
    × (reader.get_latest_persisted_block_number ≡ ok (some latest))
    × ((n < earliest) ⊎ (latest < n))

module _ (c : Codec) (reader : BlockReader) (n : ℕ) where
  outside_of :
      (e l : Fallible (Option ℕ))
      → reader.get_earliest_persisted_block_number ≡ e
      → reader.get_latest_persisted_block_number ≡ l
      → outside n (flatten e) (flatten l) ≡ not_available
      → IsOutside reader n
  unfolding outside
  outside_of err err p q h = cc
  outside_of err (ok none) p q h = cc
  outside_of err (ok (some l)) p q h = cc
  outside_of (ok none) err p q h = cc
  outside_of (ok none) (ok none) p q h = cc
  outside_of (ok none) (ok (some l)) p q h = cc
  outside_of (ok (some e)) err p q h = cc
  outside_of (ok (some e)) (ok none) p q h = cc
  outside_of (ok (some e)) (ok (some l)) p q h = (e, l, p, q, beyond e l h)
    where
      beyond :
          (e l : ℕ)
          → (if ltb n e || ltb l n then not_available else not_found) ≡ not_available
          → (n < e) ⊎ (l < n)
      beyond e l h = ground arith

  not_available_read :
      (o : Fallible (Option Bytes))
      → respond_with c reader n o ≡ (not_available, none)
      → IsOutside reader n
  unfolding respond_with handle_found_block handle_not_found_block
  not_available_read err h = cc
  not_available_read (ok none) h =
      outside_of reader.get_earliest_persisted_block_number reader.get_latest_persisted_block_number
        refl refl (ap (λ r. r.0) h)
  not_available_read (ok (some [])) h = cc
  not_available_read (ok (some (byte ∷ bytes))) h = elim (Option-cases (c.decode (byte ∷ bytes))) [
    | inl e ↦ ground (arith, e)
    | inr (block, e) ↦ ground (arith, e)
  ]

  -- The answer that a block is not available is given only for a number outside the range from the
  -- earliest to the latest block that the reader reports, both of which it has. The number is not
  -- `u64::MAX`, which asks for the latest block.
  pub get_block-not_available :
      n < u64_max
      → get_block c reader (some (block_number n)) ≡ (not_available, none)
      → IsOutside reader n
  unfolding get_block get_target_block_number respond_to
  get_block-not_available top h =
      not_available_read (reader.read_block n) (rw (not_latest n top) at h)
