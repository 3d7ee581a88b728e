-- ===== src/Persistence/Gaps/Sweep.antt =====
-- The forward sweep of `add_gap_range`.
use rock_node.Base.{
  ℕ, suc, ◌+◌, ◌-◌, ◌≤◌, ◌<◌, ◌≡◌, ◌⊎◌, inl, inr, Bool, true, false, ◌||◌, List, [], ◌∷◌, some,
  arith, ltb, ◌==◌, Bool-cases,
}
use rock_node.Base.Word.{u64_max, max, max_bounds, max_cases, saturating_add, saturating_add-eq}
use native.Mathlib.Decide.{dec_le}
use rock_node.Rocks.{Scan}
use rock_node.Persistence.State.{sweep}
use rock_node.Persistence.Gaps.{GapView, Covered, IsGaps}

-- The key is one of those removed.
abbrev pub memb : ℕ → List ℕ → Bool
memb j [] = false
memb j (k ∷ ks) = (k == j) || memb j ks

-- What the sweep from `lo` with end `fe` has done, with the result `r`.
pub record Swept (g : GapView) (lo fe : ℕ) (r : ℕ × List ℕ) : Type 0 where
  pub grows : fe ≤ r.0
  pub below : r.0 < u64_max
  pub fresh : (k : ℕ) → memb k r.1 ≡ true → lo ≤ k
  pub removed :
      (k v : ℕ)
      → lo ≤ k
      → g k ≡ some v
      → ((memb k r.1 ≡ true) × (v ≤ r.0)) ⊎ ((memb k r.1 ≡ false) × (r.0 + 1 < k))
  pub filled : (b : ℕ) → fe < b → b ≤ r.0 → Covered g b

after_end : (fe k : ℕ) → fe < u64_max → ltb (saturating_add fe 1) k ≡ true → fe + 1 < k
after_end fe k h t = ground (arith, saturating_add-eq fe 1)

within_end : (fe k : ℕ) → fe < u64_max → ltb (saturating_add fe 1) k ≡ false → k ≤ fe + 1
within_end fe k h t = ground (arith, saturating_add-eq fe 1)

module _ {g : GapView} (v : IsGaps g) where
  Swept-nil : (lo fe : ℕ) → fe < u64_max → Scan g lo [] → Swept g lo fe (fe, [])
  Swept-nil lo fe h s = record {
    grows = omega arith;
    below = h;
    fresh = λ k m. cc;
    removed = λ k w l e. ground (arith, s k l);
    filled = λ b l m. absurd (omega arith);
  }

  Swept-stop :
      (lo fe k w : ℕ) (xs : List (ℕ × ℕ))
      → fe < u64_max
      → Scan g lo ((k, w) ∷ xs)
      → fe + 1 < k
      → Swept g lo fe (fe, [])
  Swept-stop lo fe k w xs h s t = record {
    grows = omega arith;
    below = h;
    fresh = λ j m. cc;
    removed = λ j u l e. ground (arith, s.2 j l);
    filled = λ b l m. absurd (omega arith);
  }

  Swept-cons :
      (lo fe k w : ℕ) (xs : List (ℕ × ℕ)) (r : ℕ × List ℕ)
      → fe < u64_max
      → Scan g lo ((k, w) ∷ xs)
      → k ≤ fe + 1
      → Swept g (suc k) (max fe w) r
      → Swept g lo fe (r.0, k ∷ r.1)
  Swept-cons lo fe k w xs r h s t ih = record {
    grows = omega (arith, max_bounds fe w, ih.grows);
    below = ih.below;
    fresh = λ j m. ground (arith, ih.fresh j, s.0);
    removed = λ j u l e.
        ground (arith, s.2 j l, s.1, ih.removed j u, ih.fresh j, max_bounds fe w, ih.grows);
    filled = λ b l m. elim (dec_le b w) [
      | yes q ↦ (k, w, s.1, omega arith, q)
      | no q ↦ ih.filled b (omega (arith, max_cases fe w (b - 1))) m
    ];
  }

  pub sweep_lem :
      (lo fe : ℕ) (xs : List (ℕ × ℕ)) → fe < u64_max → Scan g lo xs → Swept g lo fe (sweep fe xs)
  unfolding sweep
  sweep_lem lo fe [] h s = Swept-nil lo fe h s
  sweep_lem lo fe ((k, w) ∷ xs) h s = elim (Bool-cases (ltb (saturating_add fe 1) k)) [
    | inl stop ↦ rw stop (Swept-stop lo fe k w xs h s (after_end fe k h stop))
    | inr go ↦ rw go (
        Swept-cons lo fe k w xs (sweep (max fe w) xs) h s (within_end fe k h go) (
          sweep_lem (suc k) (max fe w) xs
            (omega (arith, max_cases fe w (u64_max - 1), v.below k w s.1)) s.3))
  ]
