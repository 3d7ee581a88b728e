-- ===== src/Persistence/Archiver/Steps.antt =====
-- `archive_batch` by its steps, and by what `store_archive` leaves.
use rock_node.Base.{ℕ, ◌≡◌, refl, inl, inr, List, ◌∷◌, [], Option, none, some, Option-cases}
use rock_node.Block.{Block, Codec}
use rock_node.Rocks.{Rocks}
use rock_node.Persistence.Db.{commit}
use rock_node.Persistence.HotTier.{read_block_batch}
use rock_node.Persistence.Cold.Files.{Zstd, Disk}
use rock_node.Persistence.Cold.Writer.{write_archive}
use rock_node.Persistence.Cold.Reader.{Indices, load_index_file, or_keep}
use rock_node.Persistence.Archiver.{
  Node, store_archive, archived_ops, steps_after, archive_steps, last_state, archive_batch,
}

-- The node after its `count` blocks from `e` on were archived.
abbrev pub moved : {R : Rocks} → Node R → ℕ → ℕ → Disk → Indices → Node R
moved node e count disk indices = record {
  db = commit node.db (archived_ops e count);
  disk = disk;
  indices = indices;
}

-- The states of the batch: the archive is written, its index is loaded, the batch is committed.
abbrev pub stages : {R : Rocks} → Node R → ℕ → ℕ → Disk → Indices → List (Node R)
stages node e count disk indices =
    record node { disk = disk }
    ∷ record node { disk = disk; indices = indices }
    ∷ moved node e count disk indices
    ∷ []

module _ {R : Rocks} (z : Zstd) (c : Codec) (node : Node R) (e count : ℕ) where
  pub archive_steps-stored :
      (b : Block) (bs : List Block) (disk : Disk) (indices : Indices)
      → read_block_batch c node.db e count ≡ some (b ∷ bs)
      → store_archive z c (b ∷ bs) node.disk node.indices ≡ some (disk, indices)
      → archive_steps z c e count node ≡ some (stages node e count disk indices)
  unfolding archive_steps steps_after store_archive
  archive_steps-stored b bs disk indices r s =
      elim (Option-cases (write_archive z c (b ∷ bs) node.disk)) [
        | inl f ↦
            let nothing : ◌≡◌ {A = Option (Disk × Indices)} none (some (disk, indices)) =
              rw (f, store_archive) at s in
            cc
        | inr ((name, disk'), f) ↦
            let indices' = or_keep node.indices (load_index_file name disk' node.indices) in
            let same : ◌≡◌ {A = Option (Disk × Indices)} (some (disk', indices'))
                (some (disk, indices)) =
              rw (f, store_archive) at s in
            rw (r, archive_steps) (rw (f) (steps_same disk' indices' same))
      ]
    where
      steps_same :
          (disk' : Disk) (indices' : Indices)
          → ◌≡◌ {A = Option (Disk × Indices)} (some (disk', indices')) (some (disk, indices))
          → ◌≡◌ {A = Option (List (Node R))}
              (some (stages node e count disk' indices'))
              (some (stages node e count disk indices))
      steps_same disk' indices' h =
          let d : disk' ≡ disk = cc in
          let i : indices' ≡ indices = cc in λ j. some (stages node e count (d j) (i j))

  pub archive_batch-steps :
      (disk : Disk) (indices : Indices)
      → archive_steps z c e count node ≡ some (stages node e count disk indices)
      → archive_batch z c e count node ≡ some (moved node e count disk indices)
  unfolding archive_batch last_state
  archive_batch-steps disk indices s = rw (s, archive_batch) refl
