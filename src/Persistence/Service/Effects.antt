-- ===== src/Persistence/Service/Effects.antt =====
-- What the batch of `write_block` does to each column.
use rock_node.Base.{
  ℕ, ◌≡◌, refl, inl, inr, Bool, true, false, List, [], ◌∷◌, ◌++◌, Option, none, some, arith, ltb,
  if◌then◌else◌, All, Option-cases,
}
use rock_node.Base.Word.{max}
use rock_node.Block.{Block, Codec}
use rock_node.Rocks.{Rocks}
use rock_node.Persistence.Db.{BatchOp, Db, Metadata, WriteBatch}
use rock_node.Persistence.Db.Batches.{
  IsGapOp, metadata_after, metadata_op, metadata_after-append, metadata_after-gap_ops, gaps_after,
  gaps_after-append, hot_after, hot_after-append, hot_after-gap_ops,
}
use rock_node.Persistence.State.{
  set_highest_contiguous, set_latest_persisted, set_earliest_hot, set_true_earliest_persisted,
  initialize_earliest_hot,
}
use rock_node.Persistence.HotTier.{add_block_to_batch}
use rock_node.Persistence.Service.{Config, contiguous_ops, latest_or_start, write_ops}

-- The counters once `highest_contiguous` is set, where it is.
abbrev pub with_highest : Option ℕ → Metadata → Metadata
with_highest none m = m
with_highest (some h) m = record m { highest_contiguous = some h }

module _ (R : Rocks) where
  -- The three cases of `contiguous_ops`: operations on the gaps, then perhaps the counter.
  pub record Parts (ops gap_ops : WriteBatch) (highest : Option ℕ) : Type 0 where
    pub only_gaps : All IsGapOp gap_ops
    pub metadata : (m : Metadata) → metadata_after m ops ≡ with_highest highest m
    pub gaps : (g : R.Column ℕ) → gaps_after R g ops ≡ gaps_after R g gap_ops
    pub hot : (h : R.Column (List ℕ)) → hot_after R h ops ≡ h

  pub Parts-gaps : (ops : WriteBatch) → All IsGapOp ops → Parts ops ops none
  Parts-gaps ops h = record {
    only_gaps = h;
    metadata = λ m. metadata_after-gap_ops m ops h;
    gaps = λ g. refl;
    hot = λ c. hot_after-gap_ops R c ops h;
  }

  pub Parts-highest :
      (ops : WriteBatch) (r : ℕ)
      → All IsGapOp ops
      → Parts (ops ++ set_highest_contiguous r) ops (some r)
  unfolding set_highest_contiguous
  Parts-highest ops r h = record {
    only_gaps = h;
    metadata = λ m. rw (metadata_after-append m ops, metadata_after-gap_ops m ops h);
    gaps = λ g. rw (gaps_after-append R g ops);
    hot = λ c. rw (hot_after-append R c ops, hot_after-gap_ops R c ops h);
  }

metadata_after-if :
    (m : Metadata) (b : Bool) (op : BatchOp) (rest : WriteBatch)
    → metadata_after m ((if b then op ∷ [] else []) ++ rest)
      ≡ metadata_after (if b then metadata_op m op else m) rest
metadata_after-if m true op rest = refl
metadata_after-if m false op rest = refl

metadata_after-unless :
    (m : Metadata) (b : Bool) (op : BatchOp) (rest : WriteBatch)
    → metadata_after m ((if b then [] else op ∷ []) ++ rest)
      ≡ metadata_after (if b then m else metadata_op m op) rest
metadata_after-unless m true op rest = refl
metadata_after-unless m false op rest = refl

module _ {R : Rocks} (c : Codec) (cfg : Config) (db : Db R) (block : Block) (n : ℕ) where
  abbrev pub new_latest : ℕ
  new_latest = max (latest_or_start cfg db) n

  -- A part of the batch that touches neither the gaps nor the hot blocks.
  record Quiet (ops : WriteBatch) : Type 0 where
    gaps : (g : R.Column ℕ) → gaps_after R g ops ≡ g
    hot : (h : R.Column (List ℕ)) → hot_after R h ops ≡ h

  Quiet-latest : (b : Bool) (v : ℕ) → Quiet (if b then set_latest_persisted v else [])
  unfolding set_latest_persisted
  Quiet-latest true v = record { gaps = λ g. refl; hot = λ h. refl }
  Quiet-latest false v = record { gaps = λ g. refl; hot = λ h. refl }

  Quiet-true_earliest : (b : Bool) → Quiet (if b then [] else set_true_earliest_persisted n)
  unfolding set_true_earliest_persisted
  Quiet-true_earliest true = record { gaps = λ g. refl; hot = λ h. refl }
  Quiet-true_earliest false = record { gaps = λ g. refl; hot = λ h. refl }

  Quiet-earliest_hot : Quiet (initialize_earliest_hot n db)
  unfolding initialize_earliest_hot set_earliest_hot
  Quiet-earliest_hot = elim (Option-cases db.metadata.earliest_hot) [
    | inl e ↦ rw e (record { gaps = λ g. refl; hot = λ h. refl })
    | inr (k, e) ↦ rw e (record { gaps = λ g. refl; hot = λ h. refl })
  ]

  counters-earliest_hot :
      (m : Metadata)
      → ((metadata_after m (initialize_earliest_hot n db)).highest_contiguous
          ≡ m.highest_contiguous)
        × ((metadata_after m (initialize_earliest_hot n db)).latest_persisted ≡ m.latest_persisted)
  unfolding initialize_earliest_hot set_earliest_hot
  counters-earliest_hot m = elim (Option-cases db.metadata.earliest_hot) [
    | inl e ↦ rw e (refl, refl)
    | inr (k, e) ↦ rw e (refl, refl)
  ]

  module _ {gap_ops : WriteBatch} {highest : Option ℕ}
      (p : Parts R (contiguous_ops db n new_latest) gap_ops highest) where
    pub gaps-write_ops :
        gaps_after R db.gaps (write_ops c cfg db block n) ≡ gaps_after R db.gaps gap_ops
    unfolding write_ops add_block_to_batch
    gaps-write_ops = simp (
      gaps_after-append,
      (Quiet-latest _ _).gaps,
      (Quiet-true_earliest _).gaps,
      Quiet-earliest_hot.gaps,
      p.gaps,
    )

    pub hot-write_ops :
        hot_after R db.hot_blocks (write_ops c cfg db block n)
        ≡ R.put db.hot_blocks n (c.encode block)
    unfolding write_ops add_block_to_batch
    hot-write_ops = simp (
      hot_after-append,
      (Quiet-latest _ _).hot,
      (Quiet-true_earliest _).hot,
      Quiet-earliest_hot.hot,
      p.hot,
    )

    pub highest-write_ops :
        (metadata_after db.metadata (write_ops c cfg db block n)).highest_contiguous
        ≡ (with_highest highest db.metadata).highest_contiguous
    unfolding write_ops add_block_to_batch set_latest_persisted set_true_earliest_persisted
    highest-write_ops =
        simp (metadata_after-if, metadata_after-unless, metadata_after-append, p.metadata)
          (rw (counters-earliest_hot _).0 (ground arith))

    pub latest-write_ops :
        (metadata_after db.metadata (write_ops c cfg db block n)).latest_persisted ≡ (
          if ltb (latest_or_start cfg db) new_latest
          then some new_latest
          else db.metadata.latest_persisted)
    unfolding write_ops add_block_to_batch set_latest_persisted set_true_earliest_persisted
    latest-write_ops =
        simp (metadata_after-if, metadata_after-unless, metadata_after-append, p.metadata)
          (rw (counters-earliest_hot _).1 (ground arith))
