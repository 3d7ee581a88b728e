-- ===== src/Pipeline/Tests.antt =====
-- The theorems on the pipeline and on requests for blocks at concrete inputs.
use rock_node.Base.{ℕ, ◌≡◌, ◌≢◌, ◌<◌, refl, [], ◌∷◌, Option, none, some, arith}
use rock_node.Base.Word.{saturating_sub}
use rock_node.Block.{Block, Bytes, get_block_number}
use rock_node.Samples.{sample_codec, sample_block, encode}
use rock_node.Rocks.Table.{table_rocks}
use rock_node.Persistence.Db.{Db}
use rock_node.Persistence.Service.{Config, write_block, read_block, latest_or_start}
use rock_node.Persistence.Plugin.{fresh, state_after}
use rock_node.BlockReader.{BlockReader, ok, persistence_reader}
use rock_node.BlockAccess.{
  get_block, get_target_block_number, respond_to, respond_with, handle_not_found_block, outside,
  success, not_available, block_number,
}
use rock_node.BlockAccess.Written.{get_block-write_block, get_block-not_available, IsOutside}
use rock_node.Pipeline.{
  BlockDataCache, BlockEvent, cache_get, verify, verified, process_event, passes,
}
use rock_node.Pipeline.Delivery.{Holds, process_event-persisted, deliver}

abbrev settings : Config
settings = record { start_block_number = 1; hot_storage_block_count = 3; archive_batch_size = 2 }

abbrev empty_db : Db table_rocks
empty_db = fresh

no_cold : ℕ → Option Bytes
no_cold n = none

number_of : (n : ℕ) → get_block_number (sample_block n) ≡ some n
unfolding get_block_number
number_of n = refl

-- Block 1 is in the cache under the key 5, and contents that do not decode under the key 6.
abbrev cache : BlockDataCache
cache = record {
  cache =
      (5, record { block_number = 1; contents = encode (sample_block 1) })
      ∷ (6, record { block_number = 2; contents = 1 ∷ [] })
      ∷ [];
  cleanup_queue = [];
}

abbrev event : BlockEvent
event = record { block_number = 1; cache_key = 5 }

held : Holds sample_codec cache event (sample_block 1)
unfolding passes cache_get
held = refl

two : ◌≢◌ {A = ℕ} 2 0
two e = ground arith

deliver_example :
    (verify sample_codec event cache ≡ (verified event, cache))
    × ((process_event sample_codec settings event cache empty_db).0 ≡ some event)
    × (read_block no_cold (process_event sample_codec settings event cache empty_db).1 1
        ≡ some (sample_codec.encode (sample_block 1)))
    × (cache_get (process_event sample_codec settings event cache empty_db).2 event.cache_key
        ≡ none)
deliver_example =
    deliver sample_codec settings no_cold event cache empty_db (sample_block 1) 1 held (number_of 1)
      two

process_event-persisted_example :
    (block : Block) × (n : ℕ) × Holds sample_codec cache event block
    × (get_block_number block ≡ some n)
    × (event ≡ event)
    × (read_block no_cold (process_event sample_codec settings event cache empty_db).1 n
        ≡ some (sample_codec.encode block))
process_event-persisted_example =
    process_event-persisted sample_codec settings no_cold event event cache empty_db
      deliver_example.1

some_bytes : (n : ℕ) → sample_codec.encode (sample_block n) ≢ []
some_bytes n e = cc

get_block-write_block_example :
    get_block sample_codec
      (persistence_reader no_cold
        (state_after empty_db (write_block sample_codec settings empty_db (sample_block 7))))
      (some (block_number 7))
    ≡ (success, some (sample_block 7))
get_block-write_block_example =
    get_block-write_block sample_codec settings no_cold empty_db (sample_block 7) 7 (number_of 7)
      (ground arith) (some_bytes 7)

before_7 : latest_or_start settings empty_db < 7
unfolding latest_or_start saturating_sub
before_7 = ground arith

-- A reader with the blocks 10 to 20, none of which it finds.
abbrev reader : BlockReader
reader = record {
  get_latest_persisted_block_number = ok (some 20);
  get_earliest_persisted_block_number = ok (some 10);
  read_block = λ n. ok none;
  get_highest_contiguous_block_number = ok 20;
}

refused : get_block sample_codec reader (some (block_number 3)) ≡ (not_available, none)
unfolding get_block get_target_block_number respond_to respond_with handle_not_found_block outside
refused = refl

get_block-not_available_example : IsOutside reader 3
get_block-not_available_example =
    get_block-not_available sample_codec reader 3 (ground arith) refused
