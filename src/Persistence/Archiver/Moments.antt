-- ===== src/Persistence/Archiver/Moments.antt =====
-- The states that a cycle of the archiver takes the node through.
use mathlib.Core.List.{append-nil}
use rock_node.Base.{
  ℕ, zero, suc, ◌^◌, ◌<◌, ◌≡◌, refl, sym, ap, ◌∙◌, inl, inr, List, [], ◌∷◌, ◌++◌, none, some, leb,
  All, All-append, Bool-cases, Option-cases,
}
use rock_node.Block.{Codec}
use rock_node.Rocks.{Rocks}
use rock_node.Persistence.HotTier.{is_batch_complete}
use rock_node.Persistence.Service.{Config}
use rock_node.Persistence.Cold.Files.{Zstd}
use rock_node.Persistence.Archiver.{
  Node, stop, again, archive_steps, archive_batch, last_state, total_blocks, after_archive, Round,
  archive_round, run_archival_cycle, states_of, round_moments, cycle_moments, node_of, read_stored,
}
use rock_node.Persistence.Archiver.Reads.{IsArchivable, ReadsAs}
use rock_node.Persistence.Archiver.Cycles.{ends, goes_on, round_cases}

module _ {R : Rocks} where
  -- States that read as a later one read as the earlier one too.
  ReadsAs-trans :
      (z : Zstd) (old new : Node R)
      → ReadsAs z old new
      → (moments : List (Node R)) → All (ReadsAs z new) moments
      → All (ReadsAs z old) moments
  ReadsAs-trans z old new r [] a = tt
  ReadsAs-trans z old new r (m ∷ moments) a =
      (λ n. a.0 n ∙ r n, ReadsAs-trans z old new r moments a.1)

abbrev round_end : {R : Rocks} → Round R → Node R
round_end (stop result) = node_of result
round_end (again node) = node

module _ {R : Rocks} (z : Zstd) (c : Codec) (cfg : Config) where
  last_state-append :
      (node : Node R) (xs ys : List (Node R))
      → last_state node (xs ++ ys) ≡ last_state (last_state node xs) ys
  unfolding last_state
  last_state-append node [] ys = refl
  last_state-append node (x ∷ xs) ys = last_state-append x xs ys

  -- A round leaves the last of its states, and so does a cycle.
  round_end-last :
      (node : Node R)
      → round_end (archive_round z c cfg node) ≡ last_state node (round_moments z c cfg node)
  unfolding archive_round round_moments archive_batch after_archive states_of last_state node_of
  round_end-last node = elim (Option-cases node.db.metadata.earliest_hot) [
    | inl h ↦ simp (h, archive_round, round_moments) refl
    | inr (e, h) ↦ elim (Bool-cases (leb (total_blocks node.db e) cfg.hot_storage_block_count)) [
      | inl fits ↦ simp (h, archive_round, round_moments) (rw fits refl)
      | inr big ↦ elim (Bool-cases (is_batch_complete node.db e cfg.archive_batch_size)) [
        | inr hole ↦ simp (h, archive_round, round_moments) (rw (big, hole) refl)
        | inl full ↦ elim (Option-cases (archive_steps z c e cfg.archive_batch_size node)) [
          | inl s ↦
              let batch : archive_batch z c e cfg.archive_batch_size node ≡ none =
                rw (s, archive_batch) refl in
              simp (h, archive_round, round_moments) (rw (big, full) (rw (batch, s) refl))
          | inr (steps, s) ↦
              let batch : archive_batch z c e cfg.archive_batch_size node
                  ≡ some (last_state node steps) =
                rw (s, archive_batch) refl in
              simp (h, archive_round, round_moments) (rw (big, full) (rw (batch, s) refl))
        ]
      ]
    ]
  ]

  cycle-last :
      (fuel : ℕ) (node : Node R)
      → node_of (run_archival_cycle z c cfg fuel node)
        ≡ last_state node (cycle_moments z c cfg fuel node)
  unfolding run_archival_cycle cycle_moments node_of last_state
  cycle-last zero node = refl
  cycle-last (suc fuel) node = on_round (archive_round z c cfg node) refl (cycle-last fuel)
    where
      on_round :
          (r : Round R)
          → archive_round z c cfg node ≡ r
          → ((node' : Node R)
              → node_of (run_archival_cycle z c cfg fuel node')
                ≡ last_state node' (cycle_moments z c cfg fuel node'))
          → node_of (run_archival_cycle z c cfg (suc fuel) node)
            ≡ last_state node (cycle_moments z c cfg (suc fuel) node)
      on_round (stop result) e ih =
          let end : node_of result ≡ last_state node (round_moments z c cfg node) =
            rw e at (round_end-last node) in
          rw (e, run_archival_cycle, cycle_moments) (rw append-nil end)
      on_round (again node') e ih =
          let end : node' ≡ last_state node (round_moments z c cfg node) =
            rw e at (round_end-last node) in
          rw (e, run_archival_cycle, cycle_moments)
            (ih node'
              ∙ (ap (λ m. last_state m (cycle_moments z c cfg fuel node')) end
                  ∙ sym (last_state-append node (round_moments z c cfg node) _)))

  cycle_moments-ReadsAs :
      (fuel : ℕ) (node : Node R)
      → cfg.archive_batch_size < 2 ^ 32
      → IsArchivable z c node
      → All (ReadsAs z node) (cycle_moments z c cfg fuel node)
  unfolding cycle_moments
  cycle_moments-ReadsAs zero node small inv = tt
  cycle_moments-ReadsAs (suc fuel) node small inv = elim (round_cases z c cfg node small inv) [
    | ends node' r settled served on_the_way ↦
        All-append (ReadsAs z node) (round_moments z c cfg node) _ on_the_way (rw r tt)
    | goes_on node' e h big r earliest latest served on_the_way ↦
        All-append (ReadsAs z node) (round_moments z c cfg node) _ on_the_way (
          rw r (
            ReadsAs-trans z node node' served.reads (cycle_moments z c cfg fuel node')
              (cycle_moments-ReadsAs fuel node' small served.archivable)))
  ]

  -- In every state that a cycle on an archivable node takes it through, in however many rounds, every
  -- block is read as before the cycle: when an archive has been written, when its index has been
  -- loaded, and when the blocks have been deleted from the hot tier. The cycle leaves the last of
  -- these states. The batch size is below 2^32.
  pub read_stored-cycle_moments :
      (fuel : ℕ) (node : Node R)
      → cfg.archive_batch_size < 2 ^ 32
      → IsArchivable z c node
      → All
          (λ moment. (n : ℕ) → read_stored z moment n ≡ read_stored z node n)
          (cycle_moments z c cfg fuel node)
        × (node_of (run_archival_cycle z c cfg fuel node)
            ≡ last_state node (cycle_moments z c cfg fuel node))
  read_stored-cycle_moments fuel node small inv =
      (cycle_moments-ReadsAs fuel node small inv, cycle-last fuel node)
