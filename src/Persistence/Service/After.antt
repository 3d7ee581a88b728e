-- ===== src/Persistence/Service/After.antt =====
-- The state that a write leaves: what its three ways have in common.
use rock_node.Base.{
  ℕ, ◌≡◌, refl, sym, ap, ◌∙◌, inl, Option, none, some, arith, ltb, ◌==◌, if◌then◌else◌, unwrap_or,
}
use rock_node.Base.Word.{max}
use rock_node.Block.{Block, Codec}
use rock_node.Rocks.{Rocks}
use rock_node.Persistence.Db.{Db, WriteBatch, commit}
use rock_node.Persistence.Db.Batches.{commit-Columns}
use rock_node.Persistence.State.{get_highest_contiguous}
use rock_node.Persistence.Gaps.Ranges.{gap_view}
use rock_node.Persistence.Service.{Config, contiguous_ops, latest_or_start, write_ops}
use rock_node.Persistence.Service.Effects.{
  with_highest, Parts, gaps-write_ops, hot-write_ops, highest-write_ops, latest-write_ops,
}
use rock_node.Persistence.Service.Contiguity.{IsStored}
use rock_node.Persistence.Service.Cases.{target, Parts-exist}

latest_max :
    (o : Option ℕ) (d n : ℕ)
    → unwrap_or
        (if ltb (unwrap_or o d) (max (unwrap_or o d) n) then some (max (unwrap_or o d) n) else o)
        d
      ≡ max (unwrap_or o d) n
unfolding max
latest_max none d n = ground arith
latest_max (some l) d n = ground arith

module _ {R : Rocks} (c : Codec) (cfg : Config) (db : Db R) (block : Block) (n : ℕ) where
  -- The state after the commit of block `n`.
  abbrev pub after_write : Db R
  after_write = commit db (write_ops c cfg db block n)

  -- What the three cases have in common.
  pub record After (gap_ops : WriteBatch) (highest : Option ℕ) : Type 0 where
    pub hot :
        (b : ℕ)
        → R.get after_write.hot_blocks b
          ≡ (if n == b then some (c.encode block) else R.get db.hot_blocks b)
    pub latest : latest_or_start cfg after_write ≡ target cfg db n
    pub counter :
        get_highest_contiguous after_write
        ≡ unwrap_or (with_highest highest db.metadata).highest_contiguous 0
    pub gaps : gap_view after_write ≡ gap_view (commit db gap_ops)

  pub After-Parts :
      {gap_ops : WriteBatch} {highest : Option ℕ}
      → Parts R (contiguous_ops db n (target cfg db n)) gap_ops highest
      → After gap_ops highest
  unfolding latest_or_start get_highest_contiguous
  After-Parts {gap_ops} p = record {
    hot = λ b.
        rw ((commit-Columns R db _).hot_blocks, hot-write_ops c cfg db block n p)
          (R.get-put db.hot_blocks n b (c.encode block));
    latest =
        rw ((commit-Columns R db _).metadata, latest-write_ops c cfg db block n p)
          (latest_max db.metadata.latest_persisted _ n);
    counter = rw ((commit-Columns R db _).metadata, highest-write_ops c cfg db block n p) refl;
    gaps = ap R.get (
        (commit-Columns R db (write_ops c cfg db block n)).gaps
        ∙ (gaps-write_ops c cfg db block n p ∙ sym (commit-Columns R db gap_ops).gaps));
  }

  module _ (cold : ℕ → Type 0) {gap_ops : WriteBatch} {highest : Option ℕ}
      (a : After gap_ops highest) where
    pub IsStored-new : IsStored cold after_write n
    IsStored-new = inl (ground (arith, a.hot n))

    pub IsStored-old : (b : ℕ) → IsStored cold db b → IsStored cold after_write b
    IsStored-old b s = ground (arith, a.hot b)

  -- The hot tier after the commit, without any condition.
  pub get-after_write :
      (b : ℕ)
      → R.get after_write.hot_blocks b
        ≡ (if n == b then some (c.encode block) else R.get db.hot_blocks b)
  get-after_write = (After-Parts (Parts-exist cfg db n).2).hot
