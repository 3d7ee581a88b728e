-- ===== src/Persistence/Gaps/Left.antt =====
-- The look to the left of `add_gap_range`: the range is joined with the gap that ends at or after
-- the block before it.
use native.Mathlib.Decide.{dec_le}
use rock_node.Base.{
  ℕ, ◌+◌, ◌-◌, ◌≤◌, ◌<◌, ◌≡◌, inl, inr, Option, none, some, arith, ltb, leb, if◌then◌else◌,
  Bool-cases,
}
use rock_node.Base.Word.{u64_max, max, max_bounds, max_cases, saturating_add, saturating_add-eq}
use rock_node.Rocks.{Greatest}
use rock_node.Persistence.State.{expand_left}
use rock_node.Persistence.Gaps.{GapView, Covered, IsGaps}

-- The bounds `r` that the look to the left gives for the range from `start` to `end`.
pub record Expanded (g : GapView) (start end : ℕ) (r : ℕ × ℕ) : Type 0 where
  pub start_le : r.0 ≤ start
  pub end_le : end ≤ r.1
  pub below : r.1 < u64_max
  pub before : (k w : ℕ) → g k ≡ some w → k < r.0 → w + 1 < r.0
  pub left_filled : (b : ℕ) → r.0 ≤ b → b < start → Covered g b
  pub right_filled : (b : ℕ) → end < b → b ≤ r.1 → Covered g b

module _ {g : GapView} (v : IsGaps g) (start end : ℕ) (le : start ≤ end) (h : end < u64_max) where
  -- With no gap that reaches the range, the range stays as it is.
  Expanded-same :
      ((k w : ℕ) → g k ≡ some w → k < start → w + 1 < start) → Expanded g start end (start, end)
  Expanded-same before = record {
    start_le = omega arith;
    end_le = omega arith;
    below = h;
    before = before;
    left_filled = λ b l m. absurd (omega arith);
    right_filled = λ b l m. absurd (omega arith);
  }

  Expanded-join :
      (i w : ℕ) → i ≤ start → g i ≡ some w → start ≤ w + 1 → Expanded g start end (i, max end w)
  Expanded-join i w l e t = record {
    start_le = l;
    end_le = omega (arith, max_bounds end w);
    below = omega (arith, max_cases end w (u64_max - 1), v.below i w e);
    before = λ k u q m. omega (arith, v.apart k u i w q e m);
    left_filled = λ b p q. (i, w, e, p, omega arith);
    right_filled = λ b p q. (
      i,
      w,
      e,
      omega arith,
      elim (dec_le b w) as (λ _. b ≤ w) [
        | yes s ↦ s
        | no s ↦ absurd (omega (arith, max_cases end w (b - 1)))
      ],
    );
  }

  pub expand_left_lem :
      (o : Option (ℕ × ℕ)) → Greatest g start o → Expanded g start end (expand_left start end o)
  unfolding expand_left
  expand_left_lem none none_there =
      Expanded-same (λ k w e l. ground (arith, none_there k (omega arith)))
  expand_left_lem (some (i, w)) (l, e, gap) = elim (Bool-cases (leb start (saturating_add w 1))) [
    | inl joined ↦ rw joined (
        rw (same i l)
          (Expanded-join i w l e (ground (arith, saturating_add-eq w 1, v.below i w e, joined))))
    | inr apart ↦ rw apart (
        Expanded-same (λ k u q m.
          ground (arith, gap k, v.apart k u i w q e, v.below i w e, saturating_add-eq w 1, apart)))
  ]
    where
      same : (i : ℕ) → i ≤ start → (if ltb i start then i else start) ≡ i
      same i l = ground arith
