-- ===== src/Persistence/Archiver/Reads.antt =====
-- A batch that is archived is read as before: from cold storage, where it was in the hot tier.
use mathlib.Core.Path.{subst}
use rock_node.Base.{
  some_inj, ℕ, ◌+◌, ◌^◌, ◌≤◌, ◌<◌, ◌≡◌, refl, sym, ap, ◌∙◌, true, ◌&&◌, List, [], ◌∷◌, none, some,
  arith, ltb, leb, if◌then◌else◌, length, All,
}
use rock_node.Block.{Block, Bytes, Codec}
use rock_node.Rocks.{Rocks}
use rock_node.Persistence.HotTier.{is_batch_complete, read_batch_from, read_block_batch}
use rock_node.Persistence.Cold.Files.{Zstd, Disk}
use rock_node.Persistence.Cold.Reader as Reader
use rock_node.Persistence.Cold.Reader.{Indices}
use rock_node.Persistence.Cold.Chunks.{Before, Before-Apart}
use rock_node.Persistence.Cold.RoundTrip.{renamed, loaded, read_block-renamed}
use rock_node.Persistence.Archiver.{
  Node, archive_steps, archive_batch, last_state, states_of, read_stored,
}
use rock_node.Persistence.Archiver.Steps.{moved, stages, archive_steps-stored, archive_batch-steps}
use rock_node.Persistence.Archiver.Batch.{Good, IsBatch, read_batch_from-IsBatch, Fits-small}
use rock_node.Persistence.Archiver.Stored.{
  archived_read-all, store_archive-WrittenAs, Before-loaded,
}
use rock_node.Persistence.Archiver.Moves.{
  commit-Moved, either_tier, read_stored-either_tier, either_tier-both, either_tier-archived,
}

-- What the archiver relies on: the blocks of the hot tier are the ones that their keys say, and
-- small; the loaded archives end before the earliest block of the hot tier.
pub record IsArchivable {R : Rocks} (z : Zstd) (c : Codec) (node : Node R) : Type 0 where
  pub good : (n : ℕ) (bytes : Bytes) → R.get node.db.hot_blocks n ≡ some bytes → Good z c n bytes
  pub low : (e : ℕ) → node.db.metadata.earliest_hot ≡ some e → e ≤ 10 ^ 10
  pub before : (e : ℕ) → node.db.metadata.earliest_hot ≡ some e → All (Before e) node.indices

-- Every block is read as from the node `old`.
abbrev pub ReadsAs : {R : Rocks} → Zstd → Node R → Node R → Type 0
ReadsAs z old new = (n : ℕ) → read_stored z new n ≡ read_stored z old n

-- A later state of the node: it serves the same blocks, and can be archived further.
pub record Served {R : Rocks} (z : Zstd) (c : Codec) (old new : Node R) : Type 0 where
  pub archivable : IsArchivable z c new
  pub reads : (n : ℕ) → read_stored z new n ≡ read_stored z old n

module _ {R : Rocks} (z : Zstd) (c : Codec) (node : Node R) (e : ℕ) (inv : IsArchivable z c node)
    (h : node.db.metadata.earliest_hot ≡ some e) where
  moved-IsArchivable :
      (count : ℕ) (disk : Disk) (indices : Indices)
      → e + count ≤ 10 ^ 10
      → All (Before (e + count)) indices
      → IsArchivable z c (moved node e count disk indices)
  moved-IsArchivable count disk indices bound before =
      let m = commit-Moved node.db e count (omega arith) in
      record {
        good = λ n bytes g. inv.good n bytes (stays n bytes (sym (m.hot n) ∙ g));
        low = λ f g. let same : e + count ≡ f = some_inj (sym m.earliest ∙ g) in omega arith;
        before = λ f g. subst (λ k. All (Before k) indices) (some_inj (sym m.earliest ∙ g)) before;
      }
    where
      stays :
          (n : ℕ) (bytes : Bytes)
          → (if leb e n && ltb n (e + count) then none else R.get node.db.hot_blocks n) ≡ some bytes
          → R.get node.db.hot_blocks n ≡ some bytes
      stays n bytes g = ground arith

  -- What the archiving of `count` blocks comes to: each state on the way reads every block as before.
  record OnTheWay (count : ℕ) : Type 0 where
    disk : Disk
    indices : Indices
    stored : archive_steps z c e count node ≡ some (stages node e count disk indices)
    on_the_way : All (ReadsAs z node) (stages node e count disk indices)
    served : Served z c node (moved node e count disk indices)

  -- A batch of at least one block.
  archived-Served :
      (b : Block) (bs : List Block)
      → length (b ∷ bs) < 2 ^ 32
      → read_batch_from c node.db e 0 (length (b ∷ bs)) ≡ some (b ∷ bs)
      → IsBatch z c node.db e (length (b ∷ bs)) (b ∷ bs)
      → OnTheWay (length (b ∷ bs))
  unfolding read_block_batch
  archived-Served b bs small r t =
      let short : e + length bs < 10 ^ 10 = omega (arith, t.short) in
      let fits = Fits-small z c 0 (b ∷ bs) t.small (omega arith) in
      let before = inv.before e h in
      let apart = Before-Apart e (e + length bs) node.indices (omega arith) before in
      let (a, s, w) =
        store_archive-WrittenAs z c e b bs node.disk node.indices t.run fits short apart in
      let disk = renamed e (e + length bs) a node.disk in
      let indices = loaded e (e + length bs) a node.indices in
      let m = commit-Moved node.db e (length (b ∷ bs)) (omega arith) in
      let cold = λ (n : ℕ). Reader.read_block z node.disk node.indices n in
      let found = λ (n : ℕ).
        archived_read-all z c e b bs node.disk node.indices t.run fits short apart a n w in
      let reads : ReadsAs z node (moved node e (length (b ∷ bs)) disk indices) = λ n.
        read_stored-either_tier z (moved node e (length (b ∷ bs)) disk indices) n
        ∙ ((λ i. either_tier (m.hot n i) (found n i))
            ∙ (either_tier-archived z c node.db e (b ∷ bs) t n (cold n)
                ∙ sym (read_stored-either_tier z node n))) in
      let written : ReadsAs z node (record node { disk = disk }) = λ n.
        read_stored-either_tier z (record node { disk = disk }) n
        ∙ (ap (either_tier (R.get node.db.hot_blocks n)) (
              read_block-renamed z e (e + length bs) a node.disk node.indices apart (omega arith)
                short n)
            ∙ sym (read_stored-either_tier z node n)) in
      let with_index : ReadsAs z node (record node { disk = disk; indices = indices }) = λ n.
        read_stored-either_tier z (record node { disk = disk; indices = indices }) n
        ∙ (ap (either_tier (R.get node.db.hot_blocks n)) (found n)
            ∙ (either_tier-both z c node.db e (b ∷ bs) t n (cold n)
                ∙ sym (read_stored-either_tier z node n))) in
      record {
        disk = disk;
        indices = indices;
        stored = archive_steps-stored z c node e (length (b ∷ bs)) b bs disk indices r s;
        on_the_way = (written, (with_index, (reads, tt)));
        served = record {
          archivable = moved-IsArchivable (length (b ∷ bs)) disk indices (omega arith) (
              subst (λ k. All (Before k) indices) (omega arith)
                (Before-loaded e (e + length bs) a node.indices (omega arith) before));
          reads = reads;
        };
      }

  -- A complete batch is archived, and on the way every block is read as before.
  pub archive_batch-Served :
      (count : ℕ)
      → count < 2 ^ 32
      → is_batch_complete node.db e count ≡ true
      → (node' : Node R) × (archive_batch z c e count node ≡ some node')
        × (node'.db.metadata.earliest_hot ≡ some (e + count))
        × (node'.db.metadata.latest_persisted ≡ node.db.metadata.latest_persisted)
        × Served z c node node'
        × All (ReadsAs z node) (states_of (archive_steps z c e count node))
  unfolding is_batch_complete read_block_batch archive_batch archive_steps last_state states_of
  archive_batch-Served count small full =
      let (bs, r, t) =
        read_batch_from-IsBatch z c node.db inv.good e 0 count (omega (arith, inv.low e h)) full in
      let u = subst (λ k. IsBatch z c node.db k count bs) (omega arith) t in archived bs r u
    where
      archived :
          (bs : List Block)
          → read_batch_from c node.db e 0 count ≡ some bs
          → IsBatch z c node.db e count bs
          → (node' : Node R) × (archive_batch z c e count node ≡ some node')
            × (node'.db.metadata.earliest_hot ≡ some (e + count))
            × (node'.db.metadata.latest_persisted ≡ node.db.metadata.latest_persisted)
            × Served z c node node'
            × All (ReadsAs z node) (states_of (archive_steps z c e count node))
      archived [] r t = (
        node,
        rw (r, archive_batch) refl,
        h ∙ ap some (omega (arith, t.count)),
        refl,
        record { archivable = inv; reads = λ n. refl },
        rw (r, archive_steps) tt,
      )
      archived (b ∷ bs) r t =
          let u = subst (λ k. IsBatch z c node.db e k (b ∷ bs)) (sym t.count) t in
          let r' = subst (λ k. read_batch_from c node.db e 0 k ≡ some (b ∷ bs)) (sym t.count) r in
          let a = subst OnTheWay t.count (archived-Served b bs (omega (arith, t.count)) r' u) in
          let m = commit-Moved node.db e count (omega (arith, t.short, t.count)) in
          (
            moved node e count a.disk a.indices,
            archive_batch-steps z c node e count a.disk a.indices a.stored,
            m.earliest,
            m.latest,
            a.served,
            subst (λ o. All (ReadsAs z node) (states_of o)) (sym a.stored) a.on_the_way,
          )
