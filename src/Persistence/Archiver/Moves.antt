-- ===== src/Persistence/Archiver/Moves.antt =====
-- The batch with which `archive_batch` takes blocks from the hot tier, and the reads over both tiers.
use mathlib.Core.Path.{subst}
use native.Mathlib.Decide.{dec_lt}
use rock_node.Base.{
  ℕ, zero, suc, ◌+◌, ◌-◌, ◌≤◌, ◌≡◌, refl, ap, ◌∙◌, inl, inr, true, false, ◌&&◌, List, ◌++◌, Option,
  none, some, arith, ltb, leb, if◌then◌else◌, length, Option-cases, le→leb,
}
use rock_node.Base.Word.{u64_max, add64, add64-eq}
use rock_node.Base.Results.{Fallible, ok}
use rock_node.Block.{Block, Bytes, Codec}
use rock_node.Rocks.{Rocks}
use rock_node.Persistence.Db.{Db, Metadata, commit}
use rock_node.Persistence.Db.Batches.{
  hot_after, hot_after-append, metadata_after, metadata_after-append, commit-Columns,
}
use rock_node.Persistence.State.{set_earliest_hot, remove_skipped_batch}
use rock_node.Persistence.HotTier.{add_delete_to_batch}
use rock_node.Persistence.Cold.Files.{Zstd}
use rock_node.Persistence.Cold.Reader as Reader
use rock_node.Persistence.Cold.Reader.{Indices}
use rock_node.Persistence.Archiver.{Node, deletes_from, archived_ops, read_stored}
use rock_node.Persistence.Archiver.Batch.{IsBatch, get-deletes_from}
use rock_node.Persistence.Archiver.Stored.{archived_read, archived_read-other}

-- The metadata and the hot tier after the batch of `archive_batch`.
pub record Moved (R : Rocks) (start count : ℕ) (old new : Db R) : Type 0 where
  pub earliest : new.metadata.earliest_hot ≡ some (start + count)
  pub latest : new.metadata.latest_persisted ≡ old.metadata.latest_persisted
  pub hot :
      (j : ℕ)
      → R.get new.hot_blocks j
        ≡ (if leb start j && ltb j (start + count) then none else R.get old.hot_blocks j)

-- A read from the hot tier or, where the tier has nothing, from cold storage.
abbrev pub either_tier : Option Bytes → Fallible (Option Bytes) → Fallible (Option Bytes)
either_tier (some bytes) cold = ok (some bytes)
either_tier none cold = cold

metadata-deletes_from :
    (m : Metadata) (start i rounds : ℕ) → metadata_after m (deletes_from start i rounds) ≡ m
unfolding deletes_from add_delete_to_batch
metadata-deletes_from m start i zero = refl
metadata-deletes_from m start i (suc rounds) = metadata-deletes_from m start (suc i) rounds

module _ {R : Rocks} where
  pub commit-Moved :
      (db : Db R) (start count : ℕ)
      → start + count ≤ u64_max
      → Moved R start count db (commit db (archived_ops start count))
  unfolding archived_ops set_earliest_hot remove_skipped_batch
  commit-Moved db start count bound =
      let k = commit-Columns R db (archived_ops start count) in
      let dels = deletes_from start 0 count in
      let tail = set_earliest_hot (add64 start count) ++ remove_skipped_batch start in
      let m =
        k.metadata
        ∙ (metadata_after-append db.metadata dels tail
            ∙ ap (λ m. metadata_after m tail) (metadata-deletes_from db.metadata start 0 count)) in
      let h = k.hot_blocks ∙ hot_after-append R db.hot_blocks dels tail in
      record {
        earliest = ap (λ m. m.earliest_hot) m ∙ ap some (add64-eq start count bound);
        latest = ap (λ m. m.latest_persisted) m;
        hot = λ j.
            ap (λ h. R.get h j) h
            ∙ subst
                (λ s.
                  R.get (hot_after R db.hot_blocks dels) j
                  ≡ (if leb s j && ltb j (s + count) then none else R.get db.hot_blocks j))
                (omega arith) (get-deletes_from R db.hot_blocks start 0 count j (omega arith));
      }

  pub read_stored-either_tier :
      (z : Zstd) (node : Node R) (n : ℕ)
      → read_stored z node n
        ≡ either_tier (R.get node.db.hot_blocks n) (Reader.read_block z node.disk node.indices n)
  unfolding read_stored
  read_stored-either_tier z node n = elim (Option-cases (R.get node.db.hot_blocks n)) [
    | inl h ↦ rw (h, read_stored) refl
    | inr (bytes, h) ↦ rw (h, read_stored) refl
  ]

  module _ (z : Zstd) (c : Codec) (db : Db R) (start : ℕ) (bs : List Block)
      (t : IsBatch z c db start (length bs) bs) where
    -- What is in the archive as well as in the hot tier is found in the hot tier.
    pub either_tier-both :
        (n : ℕ) (cold : Fallible (Option Bytes))
        → either_tier (R.get db.hot_blocks n) (archived_read c start bs n cold)
          ≡ either_tier (R.get db.hot_blocks n) cold
    either_tier-both n cold = elim (dec_lt n start) [
      | yes low ↦ rw (archived_read-other c start bs n cold (inl low)) refl
      | no from ↦ elim (dec_lt n (start + length bs)) [
        | no past ↦ rw (archived_read-other c start bs n cold (inr (omega arith))) refl
        | yes inside ↦
            let (b, e, h) = t.elements (n - start) (omega arith) in
            let k : R.get db.hot_blocks n ≡ some (c.encode b) =
              subst (λ m. R.get db.hot_blocks m ≡ some (c.encode b)) (omega arith) h in
            rw k refl
      ]
    ]

    -- What leaves the hot tier is found in the archive.
    pub either_tier-archived :
        (n : ℕ) (cold : Fallible (Option Bytes))
        → either_tier
            (if leb start n && ltb n (start + length bs) then none else R.get db.hot_blocks n)
            (archived_read c start bs n cold)
          ≡ either_tier (R.get db.hot_blocks n) cold
    either_tier-archived n cold = elim (dec_lt n start) [
      | yes low ↦
          let no : leb start n ≡ false = ground arith in
          rw (archived_read-other c start bs n cold (inl low), no) refl
      | no from ↦ elim (dec_lt n (start + length bs)) [
        | no past ↦
            let no : ltb n (start + length bs) ≡ false = ground arith in
            rw
              (
                archived_read-other c start bs n cold (inr (omega arith)),
                no,
                le→leb start n (omega arith),
              )
              refl
        | yes inside ↦
            let (b, e, h) = t.elements (n - start) (omega arith) in
            let k : R.get db.hot_blocks n ≡ some (c.encode b) =
              subst (λ m. R.get db.hot_blocks m ≡ some (c.encode b)) (omega arith) h in
            let yes_below : ltb n (start + length bs) ≡ true = ground arith in
            rw (k, le→leb start n (omega arith), yes_below, e) refl
      ]
    ]
