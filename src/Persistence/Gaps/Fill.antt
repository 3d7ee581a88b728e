-- ===== src/Persistence/Gaps/Fill.antt =====
-- `fill_gap_block` on the gaps, key by key.
use rock_node.Base.{
  ℕ, ◌+◌, ◌-◌, ◌≤◌, ◌<◌, ◌≡◌, ◌≢◌, ◌⊎◌, inl, inr, none, some, arith, ◌==◌, if◌then◌else◌, ltb, ◌&&◌,
}
use native.Mathlib.Decide.{dec_lt, ℕ_discrete}
use rock_node.Persistence.Gaps.{GapView, Covered, IsGaps}

-- The gaps once block `b` is cut out of the gap from `s` to `e`.
abbrev pub cut : GapView → ℕ → ℕ → ℕ → GapView
cut g s e b j =
    if ltb b e && (b + 1 == j)
    then some e
    else if ltb s b && (s == j)
    then some (b - 1)
    else if s == j
    then none
    else g j

module _ {g : GapView} (v : IsGaps g) (s e b : ℕ) (at : g s ≡ some e) (l : s ≤ b) (m : b ≤ e) where
  -- A gap of the result is the right or the left remainder, or another gap.
  abbrev From : ℕ → ℕ → Type 0
  From j w =
      ((j ≡ b + 1) × (w ≡ e) × (b < e))
      ⊎ ((j ≡ s) × (w ≡ b - 1) × (s < b))
      ⊎ ((g j ≡ some w) × (j ≢ s))

  cut-From : (j w : ℕ) → cut g s e b j ≡ some w → From j w
  cut-From j w f = ground arith

  pub cut-IsGaps : IsGaps (cut g s e b)
  cut-IsGaps = record {
    ordered = λ j w f. ground (arith, cut-From j w f, v.ordered j w);
    below = λ j w f. ground (arith, cut-From j w f, v.below j w, v.below s e at);
    apart = λ j w k u f h t. ground (
      arith,
      cut-From j w f,
      cut-From k u h,
      v.apart j w k u,
      v.apart j w s e,
      v.apart s e k u,
      v.apart s e j w,
    );
  }

  cut_right : b < e → cut g s e b (b + 1) ≡ some e
  cut_right h = ground arith

  cut_left : s < b → cut g s e b s ≡ some (b - 1)
  cut_left h = ground arith

  cut_other : (j w : ℕ) → g j ≡ some w → j ≢ s → cut g s e b j ≡ some w
  cut_other j w f h = ground (arith, v.apart s e j w, v.apart j w s e)

  -- The block leaves the gaps, and no other block does.
  pub Covered-cut : (c : ℕ) → Covered g c → c ≢ b → Covered (cut g s e b) c
  Covered-cut c (j, w, f, p, q) h = elim (ℕ_discrete j s) [
    | no other ↦ (j, w, cut_other j w f other, p, q)
    | yes same ↦
        let w_eq : w ≡ e = ground arith in
        elim (dec_lt c b) [
          | yes left ↦ (s, b - 1, cut_left (omega arith), omega arith, omega arith)
          | no right ↦ (b + 1, e, cut_right (omega arith), omega arith, omega arith)
        ]
  ]

  pub Covered-uncut : (c : ℕ) → Covered (cut g s e b) c → Covered g c × (c ≢ b)
  Covered-uncut c (j, w, f, p, q) = elim (cut-From j w f) [
    | inl (je, we, h) ↦ ((s, e, at, omega arith, omega arith), omega arith)
    | inr (inl (je, we, h)) ↦ ((s, e, at, omega arith, omega arith), omega arith)
    | inr (inr (old, ne)) ↦ ((j, w, old, p, q), ground (arith, v.apart s e j w, v.apart j w s e))
  ]
