-- ===== src/Persistence/Archiver/Cycles.antt =====
-- The archiver's loop: when it ends, and what its batches leave to be read.
use rock_node.Base.{
  some_inj, ℕ, zero, suc, ◌+◌, ◌-◌, ◌^◌, ◌≤◌, ◌<◌, ◌≡◌, refl, sym, ap, ◌∙◌, ◌⊎◌, inl, inr, false,
  none, some, arith, leb, All, unwrap_or, Bool-cases, Option-cases,
}
use rock_node.Base.Word.{add64, saturating_sub}
use rock_node.Block.{Codec}
use rock_node.Rocks.{Rocks}
use rock_node.Persistence.Db.{Db, commit}
use rock_node.Persistence.State.{add_skipped_batch}
use rock_node.Persistence.HotTier.{is_batch_complete, batch_complete_from, read_block_batch}
use rock_node.Persistence.Service.{Config}
use rock_node.Persistence.Cold.Files.{Zstd}
use rock_node.Persistence.Archiver.{
  Node, returned, running, stop, again, archive_batch, skip_batch, total_blocks, after_archive,
  archive_round, run_archival_cycle, round_moments, archive_steps, last_state, read_stored,
}
use rock_node.Persistence.Archiver.Reads.{IsArchivable, ReadsAs, Served, archive_batch-Served}

-- Nothing is left to archive: the hot tier is not oversized, or its next batch has a hole.
pub record IsSettled {R : Rocks} (cfg : Config) (node : Node R) : Type 0 where
  pub settled :
      (e : ℕ)
      → node.db.metadata.earliest_hot ≡ some e
      → (total_blocks node.db e ≤ cfg.hot_storage_block_count)
        ⊎ (is_batch_complete node.db e cfg.archive_batch_size ≡ false)

module _ {R : Rocks} where
  batch_complete-skipped :
      (db : Db R) (s start i rounds : ℕ)
      → batch_complete_from (commit db (add_skipped_batch s)) start i rounds
        ≡ batch_complete_from db start i rounds
  unfolding batch_complete_from add_skipped_batch
  batch_complete-skipped db s start i zero = refl
  batch_complete-skipped db s start i (suc rounds) =
      rw (batch_complete-skipped db s start (suc i) rounds) refl

  skip_batch-IsSettled :
      (cfg : Config) (node : Node R) (e : ℕ)
      → node.db.metadata.earliest_hot ≡ some e
      → is_batch_complete node.db e cfg.archive_batch_size ≡ false
      → IsSettled cfg (skip_batch e node)
  unfolding skip_batch is_batch_complete add_skipped_batch
  skip_batch-IsSettled cfg node e h hole = record {
    settled = λ f g.
        let same : e ≡ f = some_inj (sym h ∙ g) in
        inr (
          batch_complete-skipped node.db e f 0 cfg.archive_batch_size
          ∙ ((λ i. batch_complete_from node.db (sym same i) 0 cfg.archive_batch_size) ∙ hole));
  }

  Served-refl :
      (z : Zstd) (c : Codec) (node : Node R) → IsArchivable z c node → Served z c node node
  Served-refl z c node inv = record { archivable = inv; reads = λ n. refl }

  Served-trans :
      (z : Zstd) (c : Codec) (a b d : Node R) → Served z c a b → Served z c b d → Served z c a d
  Served-trans z c a b d s t = record {
    archivable = t.archivable;
    reads = λ n. t.reads n ∙ s.reads n;
  }

  skip_batch-Served :
      (z : Zstd) (c : Codec) (node : Node R) (e : ℕ)
      → IsArchivable z c node
      → Served z c node (skip_batch e node)
  unfolding skip_batch add_skipped_batch read_stored
  skip_batch-Served z c node e inv = record {
    archivable = record { good = inv.good; low = inv.low; before = inv.before };
    reads = λ n. refl;
  }

  -- The cases of a round.
  pub data RoundIs (z : Zstd) (c : Codec) (cfg : Config) (node : Node R) : Type 0 where
    ends :
        (node' : Node R)
        → archive_round z c cfg node ≡ stop (returned node')
        → IsSettled cfg node'
        → Served z c node node'
        → All (ReadsAs z node) (round_moments z c cfg node)
        → RoundIs z c cfg node
    goes_on :
        (node' : Node R) (e : ℕ)
        → node.db.metadata.earliest_hot ≡ some e
        → leb (total_blocks node.db e) cfg.hot_storage_block_count ≡ false
        → archive_round z c cfg node ≡ again node'
        → node'.db.metadata.earliest_hot ≡ some (e + cfg.archive_batch_size)
        → node'.db.metadata.latest_persisted ≡ node.db.metadata.latest_persisted
        → Served z c node node'
        → All (ReadsAs z node) (round_moments z c cfg node)
        → RoundIs z c cfg node

  pub round_cases :
      (z : Zstd) (c : Codec) (cfg : Config) (node : Node R)
      → cfg.archive_batch_size < 2 ^ 32
      → IsArchivable z c node
      → RoundIs z c cfg node
  unfolding archive_round round_moments
  round_cases z c cfg node small inv = elim (Option-cases node.db.metadata.earliest_hot) [
    | inl h ↦
        ends node (simp (h, archive_round) refl)
          (record { settled = λ e g. absurd (none_some (sym h ∙ g)) }) (Served-refl z c node inv)
          (simp (h, round_moments) tt)
    | inr (e, h) ↦ elim (Bool-cases (leb (total_blocks node.db e) cfg.hot_storage_block_count)) [
      | inl fits ↦
          ends node (simp (h, archive_round) (rw fits refl))
            (record { settled = λ f g. inl (ground (arith, some_inj (sym h ∙ g))) })
            (Served-refl z c node inv) (simp (h, round_moments) (rw fits tt))
      | inr big ↦ elim (Bool-cases (is_batch_complete node.db e cfg.archive_batch_size)) [
        | inr hole ↦
            ends (skip_batch e node) (simp (h, archive_round) (rw (big, hole) refl))
              (skip_batch-IsSettled cfg node e h hole) (skip_batch-Served z c node e inv)
              (simp (h, round_moments)
                (rw (big, hole) ((skip_batch-Served z c node e inv).reads, tt)))
        | inl full ↦
            let (node', a, earliest, latest, served, on_the_way) =
              archive_batch-Served z c node e inv h cfg.archive_batch_size small full in
            goes_on node' e h big
              (simp (h, archive_round) (rw (big, full) (rw (a, after_archive) refl))) earliest
              latest served (simp (h, round_moments) (rw (big, full) on_the_way))
      ]
    ]
  ]
    where
      none_some : {e : ℕ} → none ≡ some e → ⊥
      none_some h = cc

-- The blocks that the counters place in the hot tier after the earliest one.
abbrev pub blocks_after : {R : Rocks} → Node R → ℕ → ℕ
blocks_after node e = unwrap_or node.db.metadata.latest_persisted 0 - e

module _ {R : Rocks} (z : Zstd) (c : Codec) (cfg : Config) where
  oversized :
      (node : Node R) (e : ℕ)
      → 0 < cfg.hot_storage_block_count
      → leb (total_blocks node.db e) cfg.hot_storage_block_count ≡ false
      → 0 < blocks_after node e
  unfolding total_blocks add64 saturating_sub
  oversized node e some_hot big = ground arith

  -- A cycle ends without an error, after at most one round for each block after the earliest hot one
  -- and one more: the hot tier is then not oversized, or its next batch has a hole. Every block is
  -- read as before the cycle, whether it moved to cold storage or not. The batch size and the hot
  -- tier's size are not 0, the batch size is below 2^32, and the node is archivable: the hot blocks
  -- are small, with numbers below 10^10 that are their keys, and the loaded archives end before the
  -- earliest one.
  pub run_archival_cycle-IsSettled :
      (fuel : ℕ) (node : Node R)
      → 0 < cfg.archive_batch_size
      → cfg.archive_batch_size < 2 ^ 32
      → 0 < cfg.hot_storage_block_count
      → IsArchivable z c node
      → ((e : ℕ) → node.db.metadata.earliest_hot ≡ some e → blocks_after node e < fuel)
      → 0 < fuel
      → (node' : Node R) × (run_archival_cycle z c cfg fuel node ≡ returned node')
        × IsSettled cfg node'
        × ((n : ℕ) → read_stored z node' n ≡ read_stored z node n)
  unfolding run_archival_cycle
  run_archival_cycle-IsSettled zero node size small some_hot inv enough more = absurd (omega arith)
  run_archival_cycle-IsSettled (suc fuel) node size small some_hot inv enough more =
      elim (round_cases z c cfg node small inv) [
        | ends node' r settled served on_the_way ↦
            (node', simp (r, run_archival_cycle) refl, settled, served.reads)
        | goes_on node' e h big r earliest latest served on_the_way ↦
            let left = oversized node e some_hot big in
            let bound = enough e h in
            let (node'', run, settled, reads) =
              run_archival_cycle-IsSettled fuel node' size small some_hot served.archivable
                (λ f g.
                  let same : e + cfg.archive_batch_size ≡ f = some_inj (sym earliest ∙ g) in
                  let latest' = ap (λ o. unwrap_or o 0) latest in omega arith)
                (omega arith) in
            (node'', simp (r, run_archival_cycle) run, settled, λ n. reads n ∙ served.reads n)
      ]

  nothing_archived : (node : Node R) (e : ℕ) → archive_batch z c e 0 node ≡ some node
  unfolding archive_batch archive_steps last_state read_block_batch
  nothing_archived node e = refl

  -- With a batch size of 0, a cycle on an oversized hot tier does not end.
  pub run_archival_cycle-running :
      (fuel : ℕ) (node : Node R) (e : ℕ)
      → cfg.archive_batch_size ≡ 0
      → node.db.metadata.earliest_hot ≡ some e
      → cfg.hot_storage_block_count < total_blocks node.db e
      → run_archival_cycle z c cfg fuel node ≡ running node
  unfolding run_archival_cycle archive_round is_batch_complete
  run_archival_cycle-running zero node e none_each h big = refl
  run_archival_cycle-running (suc fuel) node e none_each h big =
      let over : leb (total_blocks node.db e) cfg.hot_storage_block_count ≡ false = ground arith in
      let round : archive_round z c cfg node ≡ again node =
        simp (h, archive_round)
          (rw over (rw none_each (rw (nothing_archived node e, after_archive) refl))) in
      simp (round, run_archival_cycle) (run_archival_cycle-running fuel node e none_each h big)
