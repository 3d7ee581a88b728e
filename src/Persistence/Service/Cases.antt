-- ===== src/Persistence/Service/Cases.antt =====
-- The three ways of `write_block` to keep `highest_contiguous` and the gaps.
use rock_node.Base.{
  ℕ, ◌+◌, ◌-◌, ◌≤◌, ◌<◌, ◌≡◌, inl, inr, [], ◌++◌, Option, none, some, arith, ltb, ◌==◌, Bool-cases,
}
use rock_node.Base.Word.{u64_max, add64, add64-eq, sub64-eq, max}
use rock_node.Rocks.{Rocks}
use rock_node.Persistence.Db.{Db, WriteBatch}
use rock_node.Persistence.State.{
  set_highest_contiguous, get_highest_contiguous, add_gap_range, fill_gap_block,
}
use rock_node.Persistence.Gaps.Ranges.{add_gap_range-gaps_only, fill_gap_block-gaps_only}
use rock_node.Persistence.Service.{Config, walk, contiguous_ops, latest_or_start}
use rock_node.Persistence.Service.Effects.{Parts, Parts-gaps, Parts-highest}

-- The cases of `contiguous_ops`, with the counter's new value.
module _ {R : Rocks} (cfg : Config) (db : Db R) (n : ℕ) where
  abbrev pub target : ℕ
  target = max (latest_or_start cfg db) n

  pub ops_far :
      get_highest_contiguous db < u64_max
      → get_highest_contiguous db + 1 < n
      → n < u64_max
      → contiguous_ops db n target ≡ add_gap_range db (get_highest_contiguous db + 1) (n - 1)
  unfolding contiguous_ops
  ops_far top far h = ground (arith, add64-eq (get_highest_contiguous db) 1, sub64-eq n 1)

  pub ops_next :
      get_highest_contiguous db < u64_max
      → n ≡ get_highest_contiguous db + 1
      → contiguous_ops db n target ≡ set_highest_contiguous (walk db target target n)
  unfolding contiguous_ops
  ops_next top next = ground (arith, add64-eq (get_highest_contiguous db) 1)

  pub ops_old :
      get_highest_contiguous db < u64_max
      → n ≤ get_highest_contiguous db
      → contiguous_ops db n target
        ≡ fill_gap_block db n
          ++ set_highest_contiguous (walk db target target (get_highest_contiguous db))
  unfolding contiguous_ops
  ops_old top old = ground (arith, add64-eq (get_highest_contiguous db) 1)

  pub Parts-exist :
      (gap_ops : WriteBatch) × (highest : Option ℕ) × Parts R
        (contiguous_ops db n target)
        gap_ops
        highest
  unfolding contiguous_ops
  Parts-exist =
      let far = ltb (add64 (get_highest_contiguous db) 1) n in
      let next = n == add64 (get_highest_contiguous db) 1 in
      elim (Bool-cases far) [
        | inl f ↦ rw f (_, none, Parts-gaps R _ (add_gap_range-gaps_only db _ _))
        | inr f ↦ elim (Bool-cases next) [
          | inl e ↦ rw (f, e) ([], some _, Parts-highest R [] _ tt)
          | inr e ↦ rw (f, e) (_, some _, Parts-highest R _ _ (fill_gap_block-gaps_only db n))
        ]
      ]
