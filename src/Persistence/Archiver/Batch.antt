-- ===== src/Persistence/Archiver/Batch.antt =====
-- The batch that the archiver reads from the hot tier, and what its deletions leave there.
use mathlib.Core.Path.{subst}
use rock_node.Base.{
  ℕ, zero, suc, ◌+◌, ◌*◌, ◌^◌, ◌≤◌, ◌<◌, ◌≡◌, refl, ap, ◌∙◌, ◌⊎◌, inl, inr, true, false, ◌&&◌, List,
  [], ◌∷◌, none, some, arith, ltb, leb, if◌then◌else◌, length, get_elem?, All, Option-cases,
}
use rock_node.Base.Word.{u64_max, add64-eq}
use rock_node.Block.{Block, Bytes, Codec, get_block_number}
use rock_node.Rocks.{Rocks}
use rock_node.Persistence.Db.{Db}
use rock_node.Persistence.Db.Batches.{hot_after}
use rock_node.Persistence.HotTier.{
  add_delete_to_batch, batch_complete_from, read_batch_from, read_block,
}
use rock_node.Persistence.Cold.Files.{Zstd}
use rock_node.Persistence.Cold.Laid.{Run, Fits, compressed}
use rock_node.Persistence.Archiver.{deletes_from}

-- The bytes are the encoding of a block with number `n`, which is small enough for an archive: it
-- has at most ten digits, and the compressed block a length below 2^32.
pub record Good (z : Zstd) (c : Codec) (n : ℕ) (bytes : Bytes) : Type 0 where
  pub block : Block
  pub encoded : bytes ≡ c.encode block
  pub number : get_block_number block ≡ some n
  pub small : length (compressed z c block) < 2 ^ 32
  pub short : n < 10 ^ 10

module _ {R : Rocks} (z : Zstd) (c : Codec) (db : Db R) where
  -- The blocks that the loop reads, from the number `n` on.
  pub record IsBatch (n rounds : ℕ) (bs : List Block) : Type 0 where
    pub run : Run n bs
    pub count : length bs ≡ rounds
    pub small : All (λ b. length (compressed z c b) < 2 ^ 32) bs
    pub short : (rounds ≡ 0) ⊎ (n + rounds ≤ 10 ^ 10)
    pub elements :
        (j : ℕ)
        → j < rounds
        → (b : Block) × (get_elem? bs j ≡ some b)
          × (R.get db.hot_blocks (n + j) ≡ some (c.encode b))

  module _
      (good : (n : ℕ) (bytes : Bytes) → R.get db.hot_blocks n ≡ some bytes → Good z c n bytes) where
    IsBatch-cons :
        (n rounds : ℕ) (bytes : Bytes) (bs : List Block)
        → (h : R.get db.hot_blocks n ≡ some bytes) → IsBatch (n + 1) rounds bs
        → IsBatch n (suc rounds) ((good n bytes h).block ∷ bs)
    IsBatch-cons n rounds bytes bs h t =
        let g = good n bytes h in
        record {
          run = (g.number, t.run);
          count = omega (arith, t.count);
          small = (g.small, t.small);
          short = inr (ground (arith, t.short, g.short));
          elements = element;
        }
      where
        element :
            (j : ℕ)
            → j < suc rounds
            → (b : Block) × (get_elem? ((good n bytes h).block ∷ bs) j ≡ some b)
              × (R.get db.hot_blocks (n + j) ≡ some (c.encode b))
        element zero l =
            let g = good n bytes h in
            (
              g.block,
              refl,
              subst (λ k. R.get db.hot_blocks k ≡ some (c.encode g.block)) (omega arith)
                  (h ∙ ap some g.encoded),
            )
        element (suc j) l =
            let (b, e, at) = t.elements j (omega arith) in
            (b, e, subst (λ k. R.get db.hot_blocks k ≡ some (c.encode b)) (omega arith) at)

    IsBatch-nil : (n : ℕ) → IsBatch n 0 []
    IsBatch-nil n = record {
      run = tt;
      count = refl;
      small = tt;
      short = inl refl;
      elements = λ j l. absurd (omega arith);
    }

    batch_complete-suc :
        (start i rounds : ℕ)
        → start + i + suc rounds ≤ u64_max
        → batch_complete_from db start i (suc rounds) ≡ true
        → (bytes : Bytes) × (R.get db.hot_blocks (start + i) ≡ some bytes)
          × (batch_complete_from db start (suc i) rounds ≡ true)
    unfolding batch_complete_from
    batch_complete-suc start i rounds bound full =
        elim (Option-cases (R.get db.hot_blocks (start + i))) [
          | inl missing ↦
              let no : false ≡ true = rw (add64-eq start i (omega arith), missing) at full in cc
          | inr (bytes, h) ↦ (bytes, h, rw (add64-eq start i (omega arith), h) at full)
        ]

    read_batch-suc :
        (start i rounds : ℕ) (bytes : Bytes) (bs : List Block)
        → start + i ≤ u64_max
        → (h : R.get db.hot_blocks (start + i) ≡ some bytes)
        → read_batch_from c db start (suc i) rounds ≡ some bs
        → read_batch_from c db start i (suc rounds) ≡ some ((good (start + i) bytes h).block ∷ bs)
    unfolding read_batch_from read_block
    read_batch-suc start i rounds bytes bs bound h rest =
        let g = good (start + i) bytes h in
        rw (add64-eq start i bound, h, read_batch_from)
          (rw (ap c.decode g.encoded ∙ c.decode-encode g.block) (rw rest refl))

    -- A complete batch is read whole.
    pub read_batch_from-IsBatch :
        (start i rounds : ℕ)
        → start + i + rounds ≤ u64_max
        → batch_complete_from db start i rounds ≡ true
        → (bs : List Block) × (read_batch_from c db start i rounds ≡ some bs)
          × IsBatch (start + i) rounds bs
    unfolding read_batch_from
    read_batch_from-IsBatch start i zero bound full = ([], refl, IsBatch-nil (start + i))
    read_batch_from-IsBatch start i (suc rounds) bound full =
        let (bytes, h, more) = batch_complete-suc start i rounds bound full in
        let (bs, e, t) = read_batch_from-IsBatch start (suc i) rounds (omega arith) more in
        (
          (good (start + i) bytes h).block ∷ bs,
          read_batch-suc start i rounds bytes bs (omega arith) h e,
          IsBatch-cons (start + i) rounds bytes bs h
              (subst (λ n. IsBatch n rounds bs) (omega arith) t),
        )

module _ (z : Zstd) (c : Codec) where
  -- Blocks that are small enough each fit into one archive.
  pub Fits-small :
      (offset : ℕ) (bs : List Block)
      → All (λ b. length (compressed z c b) < 2 ^ 32) bs
      → offset + length bs * 2 ^ 32 < 2 ^ 64
      → Fits z c offset bs
  Fits-small offset [] s h = omega arith
  Fits-small offset (b ∷ bs) s h =
      (s.0, Fits-small (offset + length (compressed z c b)) bs s.1 (omega (arith, s.0)))

module _ (R : Rocks) where
  -- The deletions take away the batch and nothing else.
  pub get-deletes_from :
      (h : R.Column Bytes) (start i rounds j : ℕ)
      → start + i + rounds ≤ u64_max
      → R.get (hot_after R h (deletes_from start i rounds)) j
        ≡ (if leb (start + i) j && ltb j (start + i + rounds) then none else R.get h j)
  unfolding deletes_from add_delete_to_batch
  get-deletes_from h start i zero j bound = ground arith
  get-deletes_from h start i (suc rounds) j bound = rw (add64-eq start i (omega arith)) (
      get-deletes_from (R.delete h (start + i)) start (suc i) rounds j (omega arith)
      ∙ ground (arith, R.get-delete h (start + i) j))
