-- ===== src/StateManagement/Replay.antt =====
-- The event loop against the blocks of a chain applied one after the other.
use mathlib.Core.Path.{subst}
use rock_node.Base.{
  ltb, inl, inr, Bool-cases, ◌-◌, ℕ, zero, suc, ◌+◌, ◌≤◌, ◌<◌, ◌≡◌, refl, sym, ap, ◌∙◌, Option,
  none, some, arith, some_inj,
}
use rock_node.Base.Word.{max, u64_max, add64-eq}
use rock_node.Base.Results.{Fallible, ok}
use rock_node.Block.{Bytes}
use rock_node.StateManagement.Changes.{StateColumn, StateBlock}
use rock_node.Pipeline.{BlockData, BlockEvent, cache_get, mark_for_removal}
use rock_node.StateManagement.{
  on, expected_block, apply_state_from_block_event, after_event, on_event, StateDb, Loop,
  apply_state_changes, apply_state_from_storage, catch_up,
}

-- The number of blocks up to the last one.
abbrev pub count_of : Option ℕ → ℕ
count_of none = 0
count_of (some n) = suc n

pub expected-count :
    (last : Option ℕ) → count_of last ≤ u64_max → expected_block last ≡ count_of last
unfolding expected_block
expected-count none h = refl
expected-count (some n) h = add64-eq n 1 (omega arith) ∙ omega arith

module _ {K : StateColumn} (decode : Bytes → Option StateBlock) (chain : ℕ → Bytes) where
  abbrev pub then_apply : ℕ → Option (StateDb K) → Option (StateDb K)
  then_apply n none = none
  then_apply n (some db) = apply_state_changes decode n (chain n) db

  -- The state after the first `count` blocks of the chain, applied in order to an empty one.
  abbrev pub replay : ℕ → Option (StateDb K)
  replay zero = some (record { state_data = K.empty; last_processed = none })
  replay (suc count) = then_apply count (replay count)

  -- The loop has applied just the blocks up to its last one.
  pub record IsInStep (s : Loop K) : Type 0 where
    pub replayed : replay (count_of s.last_processed_block) ≡ some s.db
    pub bound : count_of s.last_processed_block ≤ u64_max

  replay_at : (m n : ℕ) (db : StateDb K) → m ≡ n → replay m ≡ some db → replay n ≡ some db
  replay_at m n db same e = subst (λ k. replay k ≡ some db) same e

  replay-earlier :
      (count : ℕ) (db : StateDb K)
      → replay (suc count) ≡ some db
      → (db' : StateDb K) × (replay count ≡ some db')
        × (apply_state_changes decode count (chain count) db' ≡ some db)
  replay-earlier count db e = before (replay count) refl e
    where
      before :
          (o : Option (StateDb K))
          → replay count ≡ o
          → then_apply count o ≡ some db
          → (db' : StateDb K) × (replay count ≡ some db')
            × (apply_state_changes decode count (chain count) db' ≡ some db)
      before none f e = absurd (no_state e)
        where
          no_state : none ≡ some db → ⊥
          no_state h = cc
      before (some db') f e = (db', f, e)

  -- Every prefix of blocks that can be applied has a state.
  replay-prefix :
      (i count : ℕ) (db : StateDb K)
      → replay (i + count) ≡ some db
      → (db' : StateDb K) × (replay count ≡ some db')
  replay-prefix zero count db e = (db, replay_at (0 + count) count db (omega arith) e)
  replay-prefix (suc i) count db e =
      let (db', f, a) =
        replay-earlier (i + count) db
          (replay_at (suc i + count) (suc (i + count)) db (omega arith) e) in
      replay-prefix i count db' f

  module _ (read : ℕ → Fallible (Option Bytes)) where
    catch_up-replay :
        (b count : ℕ) (db end : StateDb K)
        → ((n : ℕ) → b ≤ n → n < b + count → read n ≡ ok (some (chain n)))
        → replay b ≡ some db
        → replay (b + count) ≡ some end
        → catch_up decode read b count db ≡ end
    unfolding catch_up apply_state_from_storage
    catch_up-replay b zero db end found start finish =
        some_inj (sym start ∙ replay_at (b + 0) b end (omega arith) finish)
    catch_up-replay b (suc count) db end found start finish =
        let (db', f) =
          replay-prefix count (suc b) end
            (replay_at (b + suc count) (count + suc b) end (omega arith) finish) in
        let step : apply_state_changes decode b (chain b) db ≡ some db' =
          sym (ap (then_apply b) start) ∙ f in
        rw (found b (omega arith) (omega arith), catch_up)
          (rw step (
            catch_up-replay (suc b) count db' end (λ n l m. found n (omega arith) (omega arith)) f
              (replay_at (b + suc count) (suc b + count) end (omega arith) finish)))

    apply_event :
        (event : BlockEvent) (item : BlockData) (s : Loop K) (db : StateDb K)
        → cache_get s.cache event.cache_key ≡ some item
        → item.contents ≡ chain event.block_number
        → apply_state_changes decode event.block_number (chain event.block_number) s.db ≡ some db
        → apply_state_from_block_event decode event s
          ≡ some (record s { db = db; cache = mark_for_removal event.cache_key s.cache })
    unfolding apply_state_from_block_event
    apply_event event item s db cached same applied =
        rw (cached, apply_state_from_block_event) (rw (same) (rw applied refl))

    -- An event of the chain keeps the loop in step: an old event changes nothing, and otherwise the
    -- blocks that were missed are read from storage and applied before the event's, each once and in
    -- order. The cache holds the event's block, the reader finds the missed ones, the blocks up to
    -- the event's can be applied, and its number is below `u64::MAX`.
    pub on_event-IsInStep :
        (event : BlockEvent) (item : BlockData) (s : Loop K) (end : StateDb K)
        → IsInStep s
        → event.block_number < u64_max
        → cache_get s.cache event.cache_key ≡ some item
        → item.contents ≡ chain event.block_number
        → ((n : ℕ)
            → count_of s.last_processed_block ≤ n
            → n < event.block_number
            → read n ≡ ok (some (chain n)))
        → replay (suc event.block_number) ≡ some end
        → (s' : Loop K) × (on_event decode read event s ≡ on s')
          × IsInStep s'
          × (count_of s'.last_processed_block
              ≡ max (count_of s.last_processed_block) (suc event.block_number))
    unfolding on_event max
    on_event-IsInStep event item s end step bound cached same found finish =
        let count = count_of s.last_processed_block in
        let expected = expected-count s.last_processed_block step.bound in
        elim (Bool-cases (ltb event.block_number count)) [
          | inl old ↦ (s, simp (expected, on_event) (rw old refl), step, ground arith)
          | inr due ↦
              let (before, upto, applied) = replay-earlier event.block_number end finish in
              let reached : catch_up decode read count (event.block_number - count) s.db ≡ before =
                catch_up-replay count (event.block_number - count) s.db before
                  (λ n l m. found n l (ground arith)) step.replayed
                  (replay_at event.block_number (count + (event.block_number - count)) before
                    (ground arith) upto) in
              let event_applied =
                apply_event event item (record s { db = before }) end cached same applied in
              (
                record {
                  db = end;
                  cache = mark_for_removal event.cache_key s.cache;
                  last_processed_block = some event.block_number;
                },
                simp (expected, on_event)
                    (rw due (rw (reached) (simp (event_applied, after_event) refl))),
                record { replayed = finish; bound = omega arith },
                ground arith,
              )
        ]
