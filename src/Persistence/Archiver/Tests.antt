-- ===== src/Persistence/Archiver/Tests.antt =====
-- The archiver on concrete inputs.
use rock_node.Base.{
  some_inj, true, All, ◌≤◌, ℕ, ◌^◌, ◌<◌, ◌≡◌, refl, sym, ◌∙◌, inl, inr, [], ◌∷◌, none, some, arith,
  Bool-cases, ◌==◌,
}
use rock_node.Base.Word.{u64_max, add64, saturating_sub}
use rock_node.Base.Results.{ok}
use rock_node.Block.{Bytes, get_block_number}
use rock_node.Samples.{sample_codec, sample_block}
use rock_node.Rocks.Table.{table_rocks}
use rock_node.Persistence.HotTier.{read_block_batch, read_batch_from, read_block}
use rock_node.Persistence.Service.{Config}
use rock_node.Persistence.Cold.Files.{Archive}
use rock_node.Persistence.Cold.Writer.{write_temp_files, index_record, append_block}
use rock_node.Persistence.Cold.Laid.{Run}
use rock_node.Persistence.Cold.Tests.{plain_zstd, sample_Run, sample_Fits}
use rock_node.Persistence.Archiver.{
  write_block_batch, Node, running, returned, archive_batch, run_archival_cycle, read_stored,
  cycle_moments, node_of, last_state, total_blocks,
}
use rock_node.Persistence.Archiver.Batch.{Good}
use rock_node.Persistence.Archiver.Historical.{read_stored-write_block_batch}
use rock_node.Persistence.Archiver.Moves.{either_tier}
use rock_node.Persistence.Archiver.Reads.{IsArchivable}
use rock_node.Persistence.Archiver.Cycles.{
  IsSettled, run_archival_cycle-IsSettled, run_archival_cycle-running,
}
use rock_node.Persistence.Archiver.Moments.{read_stored-cycle_moments}
use rock_node.Persistence.Archiver.Unloaded.{read_stored-long}

abbrev bytes_of : ℕ → Bytes
bytes_of n = sample_codec.encode (sample_block n)

-- The hot tier holds blocks 1 and 2, and nothing is archived.
abbrev two_hot : Node table_rocks
two_hot = record {
  db = record {
    metadata = record {
      latest_persisted = some 2;
      earliest_hot = some 1;
      highest_contiguous = some 2;
      true_earliest = some 1;
    };
    gaps = table_rocks.empty;
    hot_blocks = table_rocks.put (table_rocks.put table_rocks.empty 1 (bytes_of 1)) 2 (bytes_of 2);
    skipped_batches = table_rocks.empty;
  };
  disk = [];
  indices = [];
}

sample_Good :
    (k n : ℕ) (bytes : Bytes)
    → k < 10 ^ 10
    → k ≡ n
    → bytes_of k ≡ bytes
    → Good plain_zstd sample_codec n bytes
unfolding get_block_number
sample_Good k n bytes small e f = record {
  block = sample_block k;
  encoded = sym f;
  number = λ i. some (e i);
  small = omega arith;
  short = omega arith;
}

hot_cases :
    (n : ℕ) (bytes : Bytes)
    → table_rocks.get two_hot.db.hot_blocks n ≡ some bytes
    → Good plain_zstd sample_codec n bytes
hot_cases n bytes h =
    let h' =
      sym (table_rocks.get-put (table_rocks.put table_rocks.empty 1 (bytes_of 1)) 2 n (bytes_of 2))
      ∙ h in
    elim (Bool-cases (2 == n)) [
      | inl two ↦ sample_Good 2 n bytes (omega arith) (ground arith) (some_inj (rw two at h'))
      | inr not_two ↦
          let h'' =
            sym (table_rocks.get-put table_rocks.empty 1 n (bytes_of 1)) ∙ (rw not_two at h') in
          elim (Bool-cases (1 == n)) [
            | inl one ↦
                sample_Good 1 n bytes (omega arith) (ground arith) (some_inj (rw one at h''))
            | inr not_one ↦
                absurd (no_block n bytes (sym (table_rocks.get-empty n) ∙ (rw not_one at h'')))
          ]
    ]
  where
    no_block : (n : ℕ) (bytes : Bytes) → none ≡ some bytes → ⊥
    no_block n bytes e = cc

two_hot-IsArchivable : IsArchivable plain_zstd sample_codec two_hot
two_hot-IsArchivable = record {
  good = hot_cases;
  low = λ e h. let same : 1 ≡ e = some_inj h in omega arith;
  before = λ e h. tt;
}

abbrev one_by_one : Config
one_by_one = record { start_block_number = 1; hot_storage_block_count = 1; archive_batch_size = 1 }

abbrev by_nothing : Config
by_nothing = record { start_block_number = 1; hot_storage_block_count = 1; archive_batch_size = 0 }

-- Blocks 1 and 2 are in the hot tier; 7 and 8 arrive as a historical batch.
read_stored-write_block_batch_example :
    (node' : Node table_rocks) × (write_block_batch plain_zstd sample_codec
        (sample_block 7 ∷ sample_block 8 ∷ [])
        two_hot
      ≡ some node')
    × (read_stored plain_zstd node' 8
        ≡ either_tier (table_rocks.get two_hot.db.hot_blocks 8) (ok (some (bytes_of 8))))
    × (node'.db.metadata.true_earliest ≡ some 1)
read_stored-write_block_batch_example =
    read_stored-write_block_batch plain_zstd sample_codec 7 (sample_block 7) (sample_block 8 ∷ [])
      two_hot 8 sample_Run sample_Fits (omega arith) tt

run_archival_cycle-IsSettled_example :
    (node' : Node table_rocks) × (run_archival_cycle plain_zstd sample_codec one_by_one 2 two_hot
      ≡ returned node')
    × IsSettled one_by_one node'
    × ((n : ℕ) → read_stored plain_zstd node' n ≡ read_stored plain_zstd two_hot n)
run_archival_cycle-IsSettled_example =
    run_archival_cycle-IsSettled plain_zstd sample_codec one_by_one 2 two_hot (omega arith)
      (omega arith) (omega arith) two_hot-IsArchivable
      (λ e h. let same : 1 ≡ e = some_inj h in omega arith) (omega arith)

read_stored-cycle_moments_example :
    All
      (λ moment. (n : ℕ) → read_stored plain_zstd moment n ≡ read_stored plain_zstd two_hot n)
      (cycle_moments plain_zstd sample_codec one_by_one 2 two_hot)
    × (node_of (run_archival_cycle plain_zstd sample_codec one_by_one 2 two_hot)
        ≡ last_state two_hot (cycle_moments plain_zstd sample_codec one_by_one 2 two_hot))
read_stored-cycle_moments_example =
    read_stored-cycle_moments plain_zstd sample_codec one_by_one 2 two_hot (omega arith)
      two_hot-IsArchivable

oversized : 1 < total_blocks two_hot.db 1
unfolding total_blocks add64 saturating_sub
oversized = omega arith

run_archival_cycle-running_example :
    run_archival_cycle plain_zstd sample_codec by_nothing 1000 two_hot ≡ running two_hot
run_archival_cycle-running_example =
    run_archival_cycle-running plain_zstd sample_codec by_nothing 1000 two_hot 1 refl refl oversized

-- A node that stores one block.
abbrev one_hot : ℕ → Node table_rocks
one_hot n = record {
  db = record {
    metadata = record {
      latest_persisted = some n;
      earliest_hot = some n;
      highest_contiguous = some n;
      true_earliest = some n;
    };
    gaps = table_rocks.empty;
    hot_blocks = table_rocks.put table_rocks.empty n (bytes_of n);
    skipped_batches = table_rocks.empty;
  };
  disk = [];
  indices = [];
}

one_written :
    (n : ℕ)
    → (a : Archive) × (write_temp_files plain_zstd sample_codec 0 (sample_block n ∷ []) ≡ some a)
unfolding write_temp_files index_record append_block get_block_number
one_written n = (_, refl)

one_Run : (n : ℕ) → Run n (sample_block n ∷ [])
unfolding get_block_number
one_Run n = (refl, tt)

add64_zero : (n : ℕ) → n ≤ u64_max → add64 n 0 ≡ n
unfolding add64
add64_zero n bound = omega arith

one_read :
    (n : ℕ)
    → n ≤ u64_max
    → read_block_batch sample_codec (one_hot n).db n 1 ≡ some (sample_block n ∷ [])
unfolding read_block_batch read_batch_from read_block
one_read n bound =
    let same : n == n ≡ true = ground arith in
    let there : table_rocks.get (table_rocks.put table_rocks.empty n (bytes_of n)) n
        ≡ some (bytes_of n) =
      table_rocks.get-put table_rocks.empty n n (bytes_of n) ∙ rw same in
    let from : add64 n 0 ≡ n = add64_zero n bound in rw from (rw there refl)

read_stored-long_example :
    (node' : Node table_rocks) × (archive_batch plain_zstd sample_codec 10000000000 1
        (one_hot 10000000000)
      ≡ some node')
    × (read_stored plain_zstd node' 10000000000 ≡ ok none)
read_stored-long_example =
    read_stored-long plain_zstd sample_codec (one_hot 10000000000) 10000000000
      (sample_block 10000000000) [] (one_written 10000000000).0 (one_Run 10000000000)
      (one_written 10000000000).1 (omega arith) 10000000000 (one_read 10000000000 (omega arith))
      (omega arith) tt (omega arith) (omega arith)
