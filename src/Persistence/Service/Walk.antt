-- ===== src/Persistence/Service/Walk.antt =====
-- The loop of `write_block` that advances `highest_contiguous`.
use rock_node.Base.{
  ℕ, zero, suc, ◌+◌, ◌≤◌, ◌<◌, ◌≡◌, refl, ◌⊎◌, inl, inr, Option, none, some, arith, le→leb,
}
use rock_node.Base.Word.{u64_max, add64-eq}
use mathlib.Core.Path.{subst}
use native.Mathlib.Decide.{dec_lt, ℕ_discrete}
use rock_node.Rocks.{Rocks}
use rock_node.Persistence.Db.{Db}
use rock_node.Persistence.State.{find_containing_gap}
use rock_node.Persistence.Gaps.{Covered, IsGaps}
use rock_node.Persistence.Gaps.Ranges.{gap_view, find_containing_gap-Found, Found}
use rock_node.Persistence.Service.{walk}

module _ {R : Rocks} where
  -- The walk from `highest` ended at `r` by its own test: at the latest block or before a gap. It
  -- passed no block that is in a gap.
  pub record Walked (db : Db R) (latest highest r : ℕ) : Type 0 where
    pub grows : highest ≤ r
    pub within : r ≤ latest
    pub passed : (b : ℕ) → highest < b → b ≤ r → ¬ Covered (gap_view db) b
    pub ended : (r ≡ latest) ⊎ Covered (gap_view db) (r + 1)

  abbrev AtEnd : Db R → ℕ → ℕ → Type 0
  AtEnd db latest h = (h ≡ latest) ⊎ Covered (gap_view db) (h + 1)

  Walked-stay : (db : Db R) (latest h : ℕ) → h ≤ latest → AtEnd db latest h → Walked db latest h h
  Walked-stay db latest h l e = record {
    grows = omega arith;
    within = l;
    passed = λ b p q. absurd (omega arith);
    ended = e;
  }

  Walked-next :
      (db : Db R) (latest h r : ℕ)
      → ¬ Covered (gap_view db) (h + 1)
      → Walked db latest (h + 1) r
      → Walked db latest h r
  Walked-next db latest h r free w = record {
    grows = omega (arith, w.grows);
    within = w.within;
    passed = λ b p q. elim (ℕ_discrete b (h + 1)) [
      | yes e ↦ λ c. free (subst (Covered (gap_view db)) e c)
      | no other ↦ w.passed b (omega arith) q
    ];
    ended = w.ended;
  }

  -- One round, with what the lookup in the gaps returns.
  walk_step :
      (db : Db R) (latest fuel h : ℕ) (o : Option (ℕ × ℕ))
      → latest < u64_max
      → h < latest
      → find_containing_gap db (h + 1) ≡ o
      → Found (gap_view db) (h + 1) o
      → Walked db latest (h + 1) (walk db latest fuel (h + 1))
      → Walked db latest h (walk db latest (suc fuel) h)
  unfolding walk
  walk_step db latest fuel h none top l e f ih =
      rw (add64-eq h 1 (omega arith), le→leb (h + 1) latest (omega arith), e)
        (Walked-next db latest h _ f ih)
  walk_step db latest fuel h (some (s, t)) top l e (at, p, q) ih =
      rw (add64-eq h 1 (omega arith), le→leb (h + 1) latest (omega arith), e)
        (Walked-stay db latest h (omega arith) (inr (s, t, at, p, q)))

  walk_end :
      (db : Db R) (latest fuel h : ℕ) → h < u64_max → latest ≤ h → walk db latest (suc fuel) h ≡ h
  unfolding walk
  walk_end db latest fuel h top l = ground (arith, add64-eq h 1)

  -- The loop that advances `highest_contiguous`: with as many rounds as there are blocks to the
  -- latest one it ends by its own test, at the latest block or before a gap, and has passed no block
  -- that is in a gap. It starts at most at the latest block, which is not `u64::MAX`.
  pub walk-Walked :
      (db : Db R) (latest fuel h : ℕ)
      → IsGaps (gap_view db)
      → latest < u64_max
      → h ≤ latest
      → latest ≤ h + fuel
      → Walked db latest h (walk db latest fuel h)
  walk-Walked db latest zero h v top l enough =
      unfold walk in Walked-stay db latest h l (inl (omega arith))
  walk-Walked db latest (suc fuel) h v top l enough = elim (dec_lt h latest) [
    | no done ↦
        rw (walk_end db latest fuel h (omega arith) (omega arith))
          (Walked-stay db latest h l (inl (omega arith)))
    | yes more ↦
        walk_step db latest fuel h _ top more refl (find_containing_gap-Found db (h + 1) v)
          (walk-Walked db latest fuel (h + 1) v top (omega arith) (omega arith))
  ]
