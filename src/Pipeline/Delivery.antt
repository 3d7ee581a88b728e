-- ===== src/Pipeline/Delivery.antt =====
-- What the pipeline promises of a block that the publisher has put into the cache.
use rock_node.Base.{ℕ, ◌≡◌, ◌≢◌, refl, ◌∙◌, inl, inr, Option, none, some, arith, Option-cases}
use rock_node.Base.Assoc.{lookup-remove}
use rock_node.Block.{Block, Bytes, Codec, get_block_number}
use rock_node.Rocks.{Rocks}
use rock_node.Persistence.Db.{Db}
use rock_node.Persistence.Service.{
  Config, Written, malformed, written, panicked, write_block, after_commit, read_block,
}
use rock_node.Persistence.Writes.{read-write_block}
use rock_node.Pipeline.{
  BlockDataCache, cache_get, mark_for_removal, BlockEvent, verified, passes, verify, report,
  process_event,
}

-- The cache holds, under the event's key, contents that decode to the block.
abbrev pub Holds : Codec → BlockDataCache → BlockEvent → Block → Type 0
Holds c cache event block = passes c (cache_get cache event.cache_key) ≡ some block

cache_get-mark_for_removal :
    (key : ℕ) (c : BlockDataCache) → cache_get (mark_for_removal key c) key ≡ none
unfolding cache_get mark_for_removal
cache_get-mark_for_removal key c = ground (arith, lookup-remove key key c.cache)

module _ {R : Rocks} (c : Codec) (cfg : Config) where
  same_event : (event e : BlockEvent) (r : Written R) → report event r ≡ some e → e ≡ event
  unfolding report
  same_event event e malformed h = cc
  same_event event e (written db notified) h = cc
  same_event event e (panicked db) h = cc

  report-number :
      (db : Db R) (block : Block) (event e : BlockEvent)
      → report event (write_block c cfg db block) ≡ some e
      → (n : ℕ) × (get_block_number block ≡ some n) × (e ≡ event)
  unfolding report write_block
  report-number db block event e h = elim (Option-cases (get_block_number block)) [
    | inl none_there ↦
        let nothing : ◌≡◌ {A = Option BlockEvent} none (some e) =
          rw (none_there, write_block) at h in
        cc
    | inr (n, number) ↦ (n, number, same_event event e (write_block c cfg db block) h)
  ]

  report-written :
      (db : Db R) (block : Block) (event : BlockEvent) (n : ℕ)
      → get_block_number block ≡ some n
      → cfg.archive_batch_size ≢ 0
      → report event (write_block c cfg db block) ≡ some event
  unfolding report write_block after_commit
  report-written db block event n h k = rw (h, write_block) (ground arith)

  -- When the persistence plugin reports a block, it reports the event that it was given, and the
  -- block that the cache holds under the event's key can be read afterwards, under the number in the
  -- block's header.
  pub process_event-persisted :
      (cold : ℕ → Option Bytes) (event e : BlockEvent) (cache : BlockDataCache) (db : Db R)
      → (process_event c cfg event cache db).0 ≡ some e
      → (block : Block) × (n : ℕ) × Holds c cache event block
        × (get_block_number block ≡ some n)
        × (e ≡ event)
        × (read_block cold (process_event c cfg event cache db).1 n ≡ some (c.encode block))
  unfolding process_event
  process_event-persisted cold event e cache db h =
      elim (Option-cases (passes c (cache_get cache event.cache_key))) [
        | inl missing ↦ ground (arith, missing)
        | inr (block, held) ↦
            let (n, number, same) =
              report-number db block event e (rw (held, process_event) at h) in
            (
              block,
              n,
              held,
              number,
              same,
              rw (held, process_event)
                  (read-write_block R c cfg cold db block n n number ∙ ground arith),
            )
      ]

  -- A block with a number whose contents are in the cache and decode passes the verifier, with its
  -- entry kept; the persistence plugin then reports it, it can be read, and its entry is gone at once. The
  -- batch size of the archiver is not 0.
  pub deliver :
      (cold : ℕ → Option Bytes) (event : BlockEvent) (cache : BlockDataCache) (db : Db R)
      (block : Block) (n : ℕ)
      → Holds c cache event block
      → get_block_number block ≡ some n
      → cfg.archive_batch_size ≢ 0
      → (verify c event cache ≡ (verified event, cache))
        × ((process_event c cfg event cache db).0 ≡ some event)
        × (read_block cold (process_event c cfg event cache db).1 n ≡ some (c.encode block))
        × (cache_get (process_event c cfg event cache db).2 event.cache_key ≡ none)
  unfolding process_event verify
  deliver cold event cache db block n held number size = (
    rw (held, verify) refl,
    rw (held, process_event) (report-written db block event n number size),
    rw (held, process_event) (read-write_block R c cfg cold db block n n number ∙ ground arith),
    rw (held, process_event) (cache_get-mark_for_removal event.cache_key cache),
  )
