-- ===== src/Persistence/Db/Batches.antt =====
-- How a write batch acts on each column: a column depends on the operations on it alone.
use rock_node.Base.{ℕ, ◌≡◌, refl, List, [], ◌∷◌, ◌++◌, All}
use rock_node.Rocks.{Rocks}
use rock_node.Persistence.Db.{
  Db, Metadata, BatchOp, WriteBatch, put_metadata, put_gap, delete_gap, put_hot, delete_hot,
  put_skipped, delete_skipped, commit, apply_op, set_metadata,
}

-- The operation touches the gaps column only.
abbrev pub IsGapOp : BatchOp → Type 0
IsGapOp (put_gap s e) = Unit
IsGapOp (delete_gap s) = Unit
IsGapOp (put_metadata k v) = ⊥
IsGapOp (put_hot n b) = ⊥
IsGapOp (delete_hot n) = ⊥
IsGapOp (put_skipped s) = ⊥
IsGapOp (delete_skipped s) = ⊥

abbrev pub metadata_op : Metadata → BatchOp → Metadata
metadata_op m (put_metadata k v) = set_metadata k v m
metadata_op m (put_gap s e) = m
metadata_op m (delete_gap s) = m
metadata_op m (put_hot n b) = m
metadata_op m (delete_hot n) = m
metadata_op m (put_skipped s) = m
metadata_op m (delete_skipped s) = m

abbrev pub metadata_after : Metadata → WriteBatch → Metadata
metadata_after m [] = m
metadata_after m (op ∷ ops) = metadata_after (metadata_op m op) ops

pub metadata_after-append :
    (m : Metadata) (xs ys : WriteBatch)
    → metadata_after m (xs ++ ys) ≡ metadata_after (metadata_after m xs) ys
metadata_after-append m [] ys = refl
metadata_after-append m (x ∷ xs) ys = metadata_after-append (metadata_op m x) xs ys

pub metadata_after-gap_ops :
    (m : Metadata) (ops : WriteBatch) → All IsGapOp ops → metadata_after m ops ≡ m
metadata_after-gap_ops m [] h = refl
metadata_after-gap_ops m (put_gap s e ∷ ops) h = metadata_after-gap_ops m ops h.1
metadata_after-gap_ops m (delete_gap s ∷ ops) h = metadata_after-gap_ops m ops h.1
metadata_after-gap_ops m (put_metadata k v ∷ ops) h = absurd h.0
metadata_after-gap_ops m (put_hot n b ∷ ops) h = absurd h.0
metadata_after-gap_ops m (delete_hot n ∷ ops) h = absurd h.0
metadata_after-gap_ops m (put_skipped s ∷ ops) h = absurd h.0
metadata_after-gap_ops m (delete_skipped s ∷ ops) h = absurd h.0

module _ (R : Rocks) where
  abbrev pub gaps_op : R.Column ℕ → BatchOp → R.Column ℕ
  gaps_op g (put_gap s e) = R.put g s e
  gaps_op g (delete_gap s) = R.delete g s
  gaps_op g (put_metadata k v) = g
  gaps_op g (put_hot n b) = g
  gaps_op g (delete_hot n) = g
  gaps_op g (put_skipped s) = g
  gaps_op g (delete_skipped s) = g

  abbrev pub hot_op : R.Column (List ℕ) → BatchOp → R.Column (List ℕ)
  hot_op h (put_hot n b) = R.put h n b
  hot_op h (delete_hot n) = R.delete h n
  hot_op h (put_metadata k v) = h
  hot_op h (put_gap s e) = h
  hot_op h (delete_gap s) = h
  hot_op h (put_skipped s) = h
  hot_op h (delete_skipped s) = h

  abbrev pub gaps_after : R.Column ℕ → WriteBatch → R.Column ℕ
  gaps_after c [] = c
  gaps_after c (op ∷ ops) = gaps_after (gaps_op c op) ops

  pub gaps_after-append :
      (c : R.Column ℕ) (xs ys : WriteBatch)
      → gaps_after c (xs ++ ys) ≡ gaps_after (gaps_after c xs) ys
  gaps_after-append c [] ys = refl
  gaps_after-append c (x ∷ xs) ys = gaps_after-append (gaps_op c x) xs ys

  abbrev pub hot_after : R.Column (List ℕ) → WriteBatch → R.Column (List ℕ)
  hot_after c [] = c
  hot_after c (op ∷ ops) = hot_after (hot_op c op) ops

  pub hot_after-append :
      (c : R.Column (List ℕ)) (xs ys : WriteBatch)
      → hot_after c (xs ++ ys) ≡ hot_after (hot_after c xs) ys
  hot_after-append c [] ys = refl
  hot_after-append c (x ∷ xs) ys = hot_after-append (hot_op c x) xs ys

  pub hot_after-gap_ops :
      (c : R.Column (List ℕ)) (ops : WriteBatch) → All IsGapOp ops → hot_after c ops ≡ c
  hot_after-gap_ops c [] h = refl
  hot_after-gap_ops c (put_metadata k v ∷ ops) h = absurd h.0
  hot_after-gap_ops c (put_gap s e ∷ ops) h = hot_after-gap_ops c ops h.1
  hot_after-gap_ops c (delete_gap s ∷ ops) h = hot_after-gap_ops c ops h.1
  hot_after-gap_ops c (put_hot n b ∷ ops) h = absurd h.0
  hot_after-gap_ops c (delete_hot n ∷ ops) h = absurd h.0
  hot_after-gap_ops c (put_skipped s ∷ ops) h = absurd h.0
  hot_after-gap_ops c (delete_skipped s ∷ ops) h = absurd h.0

  -- The state after a batch, column by column.
  pub record Columns (old new : Db R) (ops : WriteBatch) : Type 0 where
    pub metadata : new.metadata ≡ metadata_after old.metadata ops
    pub gaps : new.gaps ≡ gaps_after old.gaps ops
    pub hot_blocks : new.hot_blocks ≡ hot_after old.hot_blocks ops

  pub commit-Columns : (db : Db R) (ops : WriteBatch) → Columns db (commit db ops) ops
  commit-Columns db [] = record { metadata = refl; gaps = refl; hot_blocks = refl }
  commit-Columns db (put_metadata k v ∷ ops) =
      let r = commit-Columns (apply_op db (put_metadata k v)) ops in
      record { metadata = r.metadata; gaps = r.gaps; hot_blocks = r.hot_blocks }
  commit-Columns db (put_gap s e ∷ ops) =
      let r = commit-Columns (apply_op db (put_gap s e)) ops in
      record { metadata = r.metadata; gaps = r.gaps; hot_blocks = r.hot_blocks }
  commit-Columns db (delete_gap s ∷ ops) =
      let r = commit-Columns (apply_op db (delete_gap s)) ops in
      record { metadata = r.metadata; gaps = r.gaps; hot_blocks = r.hot_blocks }
  commit-Columns db (put_hot n b ∷ ops) =
      let r = commit-Columns (apply_op db (put_hot n b)) ops in
      record { metadata = r.metadata; gaps = r.gaps; hot_blocks = r.hot_blocks }
  commit-Columns db (delete_hot n ∷ ops) =
      let r = commit-Columns (apply_op db (delete_hot n)) ops in
      record { metadata = r.metadata; gaps = r.gaps; hot_blocks = r.hot_blocks }
  commit-Columns db (put_skipped s ∷ ops) =
      let r = commit-Columns (apply_op db (put_skipped s)) ops in
      record { metadata = r.metadata; gaps = r.gaps; hot_blocks = r.hot_blocks }
  commit-Columns db (delete_skipped s ∷ ops) =
      let r = commit-Columns (apply_op db (delete_skipped s)) ops in
      record { metadata = r.metadata; gaps = r.gaps; hot_blocks = r.hot_blocks }

module _ {R : Rocks} where
  pub commit-append :
      (db : Db R) (xs ys : WriteBatch) → commit db (xs ++ ys) ≡ commit (commit db xs) ys
  commit-append db [] ys = refl
  commit-append db (x ∷ xs) ys = commit-append (apply_op db x) xs ys
