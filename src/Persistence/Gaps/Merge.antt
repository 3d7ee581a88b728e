-- ===== src/Persistence/Gaps/Merge.antt =====
-- `add_gap_range` on the gaps, key by key.
use rock_node.Base.{
  ℕ, ◌+◌, ◌≤◌, ◌<◌, ◌≡◌, ◌⊎◌, inl, inr, false, List, none, some, arith, ◌==◌, if◌then◌else◌,
}
use native.Mathlib.Decide.{dec_le, dec_lt}
use rock_node.Persistence.Gaps.{GapView, Covered, IsGaps}
use rock_node.Persistence.Gaps.Left.{Expanded}
use rock_node.Persistence.Gaps.Sweep.{memb, Swept}

-- The gaps once the keys `ds` are deleted and the range from `fs` to `fe` is written.
abbrev pub merged : GapView → ℕ → ℕ → List ℕ → GapView
merged g fs fe ds j = if fs == j then some fe else if memb j ds then none else g j

module _ {g : GapView} (v : IsGaps g) (start end : ℕ) (le : start ≤ end) {r : ℕ × ℕ}
    (x : Expanded g start end r) {q : ℕ × List ℕ} (s : Swept g r.0 r.1 q) where
  -- A gap of the result is the merged range, or an old gap well outside it.
  abbrev From : ℕ → ℕ → Type 0
  From j w = ((j ≡ r.0) × (w ≡ q.0)) ⊎ ((g j ≡ some w) × ((w + 1 < r.0) ⊎ (q.0 + 1 < j)))

  merged-From : (j w : ℕ) → merged g r.0 q.0 q.1 j ≡ some w → From j w
  merged-From j w e = ground (arith, s.removed j w, x.before j w)

  pub merged-IsGaps : IsGaps (merged g r.0 q.0 q.1)
  merged-IsGaps = record {
    ordered =
        λ j w e. ground (arith, merged-From j w e, v.ordered j w, x.start_le, x.end_le, s.grows);
    below = λ j w e. ground (arith, merged-From j w e, v.below j w, s.below);
    apart = λ j w k u e f l. ground (
      arith,
      merged-From j w e,
      merged-From k u f,
      v.apart j w k u,
      v.ordered j w,
      v.ordered k u,
      x.start_le,
      x.end_le,
      s.grows,
    );
  }

  merged_self : merged g r.0 q.0 q.1 r.0 ≡ some q.0
  merged_self = ground arith

  merged_before : (j w : ℕ) → g j ≡ some w → j < r.0 → merged g r.0 q.0 q.1 j ≡ some w
  merged_before j w e l = ground (arith, s.fresh j)

  merged_kept :
      (j w : ℕ) → g j ≡ some w → memb j q.1 ≡ false → q.0 + 1 < j → merged g r.0 q.0 q.1 j ≡ some w
  merged_kept j w e k l = ground (arith, x.start_le, x.end_le, s.grows)

  -- Nothing that was recorded is lost, and the whole range is recorded.
  pub Covered-after :
      (b : ℕ) → Covered g b ⊎ ((start ≤ b) × (b ≤ end)) → Covered (merged g r.0 q.0 q.1) b
  Covered-after b (inr (l, m)) =
      (r.0, q.0, merged_self, omega (arith, x.start_le), omega (arith, x.end_le, s.grows))
  Covered-after b (inl (j, w, e, l, m)) = elim (dec_lt j r.0) [
    | yes lower ↦ (j, w, merged_before j w e lower, l, m)
    | no upper ↦ elim (s.removed j w (omega arith) e) [
      | inl (gone, within) ↦ (r.0, q.0, merged_self, omega arith, omega arith)
      | inr (kept, far) ↦ (j, w, merged_kept j w e kept far, l, m)
    ]
  ]

  within_merged : (b : ℕ) → r.0 ≤ b → b ≤ q.0 → Covered g b ⊎ ((start ≤ b) × (b ≤ end))
  within_merged b l m = elim (dec_lt b start) [
    | yes left ↦ inl (x.left_filled b l left)
    | no past_left ↦ elim (dec_le b end) [
      | yes inside ↦ inr (omega arith, inside)
      | no past_end ↦ elim (dec_le b r.1) [
        | yes right ↦ inl (x.right_filled b (omega arith) right)
        | no past_right ↦ inl (s.filled b (omega arith) m)
      ]
    ]
  ]

  -- Nothing else is recorded.
  pub Covered-before :
      (b : ℕ) → Covered (merged g r.0 q.0 q.1) b → Covered g b ⊎ ((start ≤ b) × (b ≤ end))
  Covered-before b (j, w, e, l, m) = elim (merged-From j w e) [
    | inl (p, o) ↦ within_merged b (omega arith) (omega arith)
    | inr (old, _) ↦ inl (j, w, old, l, m)
  ]
