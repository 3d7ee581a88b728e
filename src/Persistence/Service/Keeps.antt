-- ===== src/Persistence/Service/Keeps.antt =====
-- `write_block` keeps the promise of the counters.
use mathlib.Core.Path.{subst}
use native.Mathlib.Decide.{dec_lt, dec_le, ℕ_discrete}
use rock_node.Base.{ℕ, ◌+◌, ◌-◌, ◌≤◌, ◌<◌, ◌≡◌, sym, ◌⊎◌, inl, inr, [], Option, none, some, arith}
use rock_node.Base.Word.{u64_max, max, max_bounds, max_cases}
use rock_node.Block.{Block, Codec}
use rock_node.Rocks.{Rocks}
use rock_node.Persistence.Db.{Db, WriteBatch, commit}
use rock_node.Persistence.State.{get_highest_contiguous, add_gap_range, fill_gap_block}
use rock_node.Persistence.Gaps.{Covered, IsGaps}
use rock_node.Persistence.Gaps.Ranges.{
  gap_view, Added, Removed, add_gap_range-Added, add_gap_range-gaps_only, fill_gap_block-Removed,
  fill_gap_block-gaps_only,
}
use rock_node.Persistence.Service.{Config, walk, latest_or_start}
use rock_node.Persistence.Service.Walk.{Walked, walk-Walked}
use rock_node.Persistence.Service.Effects.{Parts, Parts-gaps, Parts-highest}
use rock_node.Persistence.Service.Contiguity.{IsStored, IsContiguous}
use rock_node.Persistence.Service.Cases.{target, ops_far, ops_next, ops_old}
use rock_node.Persistence.Service.After.{
  After, after_write, After-Parts, IsStored-new, IsStored-old,
}

module _ {R : Rocks} (c : Codec) (cfg : Config) (db : Db R) (block : Block) (n : ℕ) where
  module _ (cold : ℕ → Type 0) (first : ℕ) (v : IsContiguous cold cfg first db)
      (h : n < u64_max) where
    abbrev after : Db R
    after = after_write c cfg db block n

    top : get_highest_contiguous db < u64_max
    top = omega (arith, v.ordered, v.below)

    target_below : target cfg db n < u64_max
    target_below = omega (arith, max_cases (latest_or_start cfg db) n (u64_max - 1), v.below)

    target_old : (b : ℕ) → n < b → b ≤ target cfg db n → b ≤ latest_or_start cfg db
    unfolding max
    target_old b l m = ground arith

    counter_same :
        {gap_ops : WriteBatch} (a : After c cfg db block n gap_ops none)
        → get_highest_contiguous after ≡ get_highest_contiguous db
    unfolding get_highest_contiguous
    counter_same a = a.counter

    counter_set :
        {gap_ops : WriteBatch} {r : ℕ} (a : After c cfg db block n gap_ops (some r))
        → get_highest_contiguous after ≡ r
    unfolding get_highest_contiguous
    counter_set a = a.counter

    now-Covered :
        {gap_ops : WriteBatch} {highest : Option ℕ} (a : After c cfg db block n gap_ops highest)
        (b : ℕ)
        → Covered (gap_view (commit db gap_ops)) b
        → Covered (gap_view after) b
    now-Covered a b = subst (λ g. Covered g b) (sym a.gaps)

    -- A block past `highest_contiguous + 1`: what lies between is recorded as missing.
    far_recorded :
        {ops : WriteBatch} (a : After c cfg db block n ops none)
        → get_highest_contiguous db + 1 < n
        → Added (gap_view db) (gap_view (commit db ops)) (get_highest_contiguous db + 1) (n - 1)
        → (b : ℕ) → get_highest_contiguous db < b
        → b ≤ target cfg db n
        → Covered (gap_view after) b ⊎ IsStored cold after b
    far_recorded a far added b l m = elim (dec_lt b n) [
      | yes before ↦ inl (now-Covered a b ((added.covers b).1 (inr (omega arith, omega arith))))
      | no other ↦ elim (ℕ_discrete n b) [
        | yes same ↦ inr (subst (IsStored cold after) same (IsStored-new c cfg db block n cold a))
        | no differ ↦ elim (v.recorded b l (target_old b (omega arith) m)) [
          | inl gap ↦ inl (now-Covered a b ((added.covers b).1 (inl gap)))
          | inr s ↦ inr (IsStored-old c cfg db block n cold a b s)
        ]
      ]
    ]

    keep_far :
        {ops : WriteBatch} (a : After c cfg db block n ops none)
        → get_highest_contiguous db + 1 < n
        → Added (gap_view db) (gap_view (commit db ops)) (get_highest_contiguous db + 1) (n - 1)
        → IsContiguous cold cfg first after
    keep_far a far added = record {
      gaps = subst IsGaps (sym a.gaps) added.valid;
      ordered =
          omega (arith, counter_same a, a.latest, v.ordered, max_bounds (latest_or_start cfg db) n);
      below = omega (arith, a.latest, target_below);
      stored = λ b l m.
          IsStored-old c cfg db block n cold a b (v.stored b l (omega (arith, counter_same a)));
      recorded = λ b l m.
          far_recorded a far added b (omega (arith, counter_same a)) (omega (arith, a.latest));
    }

    -- The next block: the counter moves to the end of the walk, and the gaps stay.
    next-IsStored :
        {r : ℕ} (a : After c cfg db block n [] (some r))
        → n ≡ get_highest_contiguous db + 1
        → Walked db (target cfg db n) n r
        → (b : ℕ) → first ≤ b
        → b ≤ r
        → IsStored cold after b
    next-IsStored a next w b l m = elim (dec_lt b n) [
      | yes before ↦ IsStored-old c cfg db block n cold a b (v.stored b l (omega arith))
      | no other ↦ elim (ℕ_discrete n b) [
        | yes same ↦ subst (IsStored cold after) same (IsStored-new c cfg db block n cold a)
        | no differ ↦
            elim (v.recorded b (omega arith)
              (target_old b (omega arith) (omega (arith, w.within)))) [
                | inl gap ↦ absurd (w.passed b (omega arith) m gap)
                | inr s ↦ IsStored-old c cfg db block n cold a b s
              ]
      ]
    ]

    next_recorded :
        {r : ℕ} (a : After c cfg db block n [] (some r))
        → n ≡ get_highest_contiguous db + 1
        → (b : ℕ) → n < b
        → b ≤ target cfg db n
        → Covered (gap_view after) b ⊎ IsStored cold after b
    next_recorded a next b l m = elim (v.recorded b (omega arith) (target_old b l m)) [
      | inl gap ↦ inl (now-Covered a b gap)
      | inr s ↦ inr (IsStored-old c cfg db block n cold a b s)
    ]

    keep_next :
        {r : ℕ} (a : After c cfg db block n [] (some r))
        → n ≡ get_highest_contiguous db + 1
        → Walked db (target cfg db n) n r
        → IsContiguous cold cfg first after
    keep_next a next w = record {
      gaps = subst IsGaps (sym a.gaps) v.gaps;
      ordered = omega (arith, counter_set a, a.latest, w.within);
      below = omega (arith, a.latest, target_below);
      stored = λ b l m. next-IsStored a next w b l (omega (arith, counter_set a));
      recorded = λ b l m.
          next_recorded a next b (omega (arith, counter_set a, w.grows)) (omega (arith, a.latest));
    }

    -- A block at or below the counter: it leaves the gaps, and the counter walks on.
    old-IsStored :
        {ops : WriteBatch} {r : ℕ} (a : After c cfg db block n ops (some r))
        → Walked db (target cfg db n) (get_highest_contiguous db) r
        → n ≤ get_highest_contiguous db
        → (b : ℕ) → first ≤ b
        → b ≤ r
        → IsStored cold after b
    old-IsStored a w old b l m = elim (dec_le b (get_highest_contiguous db)) [
      | yes before ↦ IsStored-old c cfg db block n cold a b (v.stored b l before)
      | no past ↦
          elim (v.recorded b (omega arith) (target_old b (omega arith) (omega (arith, w.within)))) [
            | inl gap ↦ absurd (w.passed b (omega arith) m gap)
            | inr s ↦ IsStored-old c cfg db block n cold a b s
          ]
    ]

    old_recorded :
        {ops : WriteBatch} {r : ℕ} (a : After c cfg db block n ops (some r))
        → Removed (gap_view db) (gap_view (commit db ops)) n
        → n ≤ get_highest_contiguous db
        → (b : ℕ) → get_highest_contiguous db < b
        → b ≤ target cfg db n
        → Covered (gap_view after) b ⊎ IsStored cold after b
    old_recorded a removed old b l m = elim (v.recorded b l (target_old b (omega arith) m)) [
      | inl gap ↦ inl (now-Covered a b ((removed.covers b).1 (gap, omega arith)))
      | inr s ↦ inr (IsStored-old c cfg db block n cold a b s)
    ]

    keep_old :
        {ops : WriteBatch} {r : ℕ} (a : After c cfg db block n ops (some r))
        → Removed (gap_view db) (gap_view (commit db ops)) n
        → Walked db (target cfg db n) (get_highest_contiguous db) r
        → n ≤ get_highest_contiguous db
        → IsContiguous cold cfg first after
    keep_old a removed w old = record {
      gaps = subst IsGaps (sym a.gaps) removed.valid;
      ordered = omega (arith, counter_set a, a.latest, w.within);
      below = omega (arith, a.latest, target_below);
      stored = λ b l m. old-IsStored a w old b l (omega (arith, counter_set a));
      recorded = λ b l m.
          old_recorded a removed old b (omega (arith, counter_set a, w.grows))
            (omega (arith, a.latest));
    }

    far_case : get_highest_contiguous db + 1 < n → IsContiguous cold cfg first after
    far_case far =
        let gap_end = get_highest_contiguous db + 1 in
        keep_far
          (After-Parts c cfg db block n (
            subst (λ o. Parts R o (add_gap_range db gap_end (n - 1)) none)
              (sym (ops_far cfg db n top far h))
              (Parts-gaps R _ (add_gap_range-gaps_only db gap_end (n - 1)))))
          far (add_gap_range-Added db gap_end (n - 1) v.gaps (omega arith) (omega arith))

    next_case : n ≡ get_highest_contiguous db + 1 → IsContiguous cold cfg first after
    next_case next =
        let r = walk db (target cfg db n) (target cfg db n) n in
        keep_next
          (After-Parts c cfg db block n (
            subst (λ o. Parts R o [] (some r)) (sym (ops_next cfg db n top next))
              (Parts-highest R [] r tt)))
          next
          (walk-Walked db _ _ n v.gaps target_below
            (omega (arith, max_bounds (latest_or_start cfg db) n)) (omega arith))

    old_case : n ≤ get_highest_contiguous db → IsContiguous cold cfg first after
    old_case old =
        let r = walk db (target cfg db n) (target cfg db n) (get_highest_contiguous db) in
        keep_old
          (After-Parts c cfg db block n (
            subst (λ o. Parts R o (fill_gap_block db n) (some r)) (sym (ops_old cfg db n top old))
              (Parts-highest R _ r (fill_gap_block-gaps_only db n))))
          (fill_gap_block-Removed db n v.gaps)
          (walk-Walked db _ _ _ v.gaps target_below
            (omega (arith, max_bounds (latest_or_start cfg db) n, v.ordered)) (omega arith))
          old

    -- Whatever the block's number, the write keeps the promise of the counters.
    pub write_ops-IsContiguous : IsContiguous cold cfg first after
    write_ops-IsContiguous = elim (dec_lt (get_highest_contiguous db + 1) n) [
      | yes far ↦ far_case far
      | no near ↦ elim (ℕ_discrete n (get_highest_contiguous db + 1)) [
        | yes next ↦ next_case next
        | no other ↦ old_case (omega arith)
      ]
    ]
