-- ===== src/Persistence/Gaps/Ranges.antt =====
-- The gap operations of state.rs, over the store.
use mathlib.Core.Path.{subst, fun_ext}
use rock_node.Base.{
  ℕ, ◌≤◌, ◌<◌, ◌≡◌, ◌≢◌, ◌↔◌, refl, ◌∙◌, ◌⊎◌, inl, inr, List, [], ◌∷◌, ◌++◌, map, Option, none,
  some, arith, if◌then◌else◌, ltb, leb, All, All-append, Bool-cases, le→leb, leb→le, leb→gt,
  Option-cases,
}
use rock_node.Base.Word.{u64_max, add64, sub64, add64-eq, sub64-eq}
use rock_node.Rocks.{Rocks, Greatest}
use rock_node.Persistence.Db.{Db, WriteBatch, put_gap, delete_gap, apply_op, commit}
use rock_node.Persistence.Db.Batches.{IsGapOp, commit-append}
use rock_node.Persistence.State.{
  sweep, expand_left, find_containing_gap, add_gap_range, fill_gap_block,
}
use rock_node.Persistence.Gaps.{GapView, Covered, IsGaps}
use rock_node.Persistence.Gaps.Sweep.{memb, sweep_lem}
use rock_node.Persistence.Gaps.Left.{expand_left_lem}
use rock_node.Persistence.Gaps.Merge.{merged, merged-IsGaps, Covered-after, Covered-before}
use rock_node.Persistence.Gaps.Fill.{cut, cut-IsGaps, Covered-cut, Covered-uncut}

-- What a lookup in the gaps has found out about block `b`.
abbrev pub Found : GapView → ℕ → Option (ℕ × ℕ) → Type 0
Found g b none = ¬ Covered g b
Found g b (some (s, e)) = (g s ≡ some e) × (s ≤ b) × (b ≤ e)

-- `h` records the range besides what `g` records, and nothing else.
pub record Added (g h : GapView) (start end : ℕ) : Type 0 where
  pub valid : IsGaps h
  pub covers : (b : ℕ) → Covered h b ↔ (Covered g b ⊎ ((start ≤ b) × (b ≤ end)))

-- `h` records the blocks of `g` but for block `b`.
pub record Removed (g h : GapView) (b : ℕ) : Type 0 where
  pub valid : IsGaps h
  pub covers : (c : ℕ) → Covered h c ↔ (Covered g c × (c ≢ b))

abbrev cut_ops : ℕ → ℕ → ℕ → WriteBatch
cut_ops s e b =
    delete_gap s
    ∷ ((if ltb s b then put_gap s (sub64 b 1) ∷ [] else [])
        ++ (if ltb b e then put_gap (add64 b 1) e ∷ [] else []))

cut_ops-gaps_only : (s e b : ℕ) → All IsGapOp (cut_ops s e b)
cut_ops-gaps_only s e b = elim (Bool-cases (ltb s b)) [
  | inl l ↦ elim (Bool-cases (ltb b e)) [
    | inl r ↦ rw (l, r) (tt, (tt, (tt, tt)))
    | inr r ↦ rw (l, r) (tt, (tt, tt))
  ]
  | inr l ↦ elim (Bool-cases (ltb b e)) [
    | inl r ↦ rw (l, r) (tt, (tt, tt))
    | inr r ↦ rw (l, r) (tt, tt)
  ]
]

deletes_gaps_only : (ds : List ℕ) → All IsGapOp (map delete_gap ds)
deletes_gaps_only [] = tt
deletes_gaps_only (d ∷ ds) = (tt, deletes_gaps_only ds)

module _ {R : Rocks} where
  -- The recorded gaps of a store.
  abbrev pub gap_view : Db R → GapView
  gap_view db = R.get db.gaps

  Found-by_seek :
      (db : Db R) (b : ℕ) (o : Option (ℕ × ℕ))
      → IsGaps (gap_view db)
      → R.seek_reverse db.gaps b ≡ o
      → Greatest (gap_view db) b o
      → Found (gap_view db) b (find_containing_gap db b)
  unfolding find_containing_gap
  Found-by_seek db b none v e h = rw e (λ (s, f, p, l, m). ground (arith, h s l))
  Found-by_seek db b (some (i, w)) v e (l, at, gap) = elim (Bool-cases (leb b w)) [
    | inl inside ↦ rw (e, le→leb i b l, inside) (at, l, leb→le b w inside)
    | inr past ↦
        rw (e, le→leb i b l, past)
          (λ (s, f, p, lo, hi). ground (arith, leb→gt b w past, v.apart s f i w, gap s))
  ]

  -- The lookup finds the gap that holds the block, and nothing when no recorded gap does. The
  -- recorded gaps do not overlap.
  pub find_containing_gap-Found :
      (db : Db R) (b : ℕ) → IsGaps (gap_view db) → Found (gap_view db) b (find_containing_gap db b)
  find_containing_gap-Found db b v =
      Found-by_seek db b (R.seek_reverse db.gaps b) v refl (R.seek_reverse-Greatest db.gaps b)

  gap_view-delete :
      (db : Db R) (ds : List ℕ) (j : ℕ)
      → gap_view (commit db (map delete_gap ds)) j ≡ (if memb j ds then none else gap_view db j)
  gap_view-delete db [] j = refl
  gap_view-delete db (d ∷ ds) j =
      gap_view-delete (apply_op db (delete_gap d)) ds j ∙ ground (arith, R.get-delete db.gaps d j)

  gap_view-merged :
      (db : Db R) (ds : List ℕ) (s e : ℕ)
      → gap_view (commit db (map delete_gap ds ++ put_gap s e ∷ [])) ≡ merged (gap_view db) s e ds
  gap_view-merged db ds s e = fun_ext λ j.
      rw (commit-append db (map delete_gap ds) (put_gap s e ∷ []))
        (rw (R.get-put, gap_view-delete db ds j))

  -- The batch of `add_gap_range` on a range that is not empty.
  add_gap_range-eq :
      (db : Db R) (start end : ℕ)
      → start ≤ end
      → add_gap_range db start end ≡ (
          let (s, e) = expand_left start end (R.seek_reverse db.gaps start) in
          let (f, ds) = sweep e (R.iter_from db.gaps s) in map delete_gap ds ++ put_gap s f ∷ [])
  unfolding add_gap_range
  add_gap_range-eq db start end h = ground arith

  -- Once the batch of `add_gap_range` is committed, the recorded gaps are apart again and hold the
  -- blocks that they held and those of the range, and no other. The range is not empty, and
  -- `u64::MAX` is not in it.
  pub add_gap_range-Added :
      (db : Db R) (start end : ℕ)
      → IsGaps (gap_view db)
      → start ≤ end
      → end < u64_max
      → Added (gap_view db) (gap_view (commit db (add_gap_range db start end))) start end
  add_gap_range-Added db start end v l h =
      let r = expand_left start end (R.seek_reverse db.gaps start) in
      let x = expand_left_lem v start end l h _ (R.seek_reverse-Greatest db.gaps start) in
      let q = sweep r.1 (R.iter_from db.gaps r.0) in
      let s = sweep_lem v r.0 r.1 _ x.below (R.iter_from-Scan db.gaps r.0) in
      rw (add_gap_range-eq db start end l, gap_view-merged db q.1 r.0 q.0)
        (record {
          valid = merged-IsGaps v start end l x s;
          covers = λ b. (Covered-before v start end l x s b, Covered-after v start end l x s b);
        })

  pub add_gap_range-gaps_only :
      (db : Db R) (start end : ℕ) → All IsGapOp (add_gap_range db start end)
  unfolding add_gap_range
  add_gap_range-gaps_only db start end = elim (Bool-cases (ltb end start)) [
    | inl empty ↦ rw empty tt
    | inr some_range ↦
        let r = expand_left start end (R.seek_reverse db.gaps start) in
        let q = sweep r.1 (R.iter_from db.gaps r.0) in
        rw some_range (All-append IsGapOp (map delete_gap q.1) _ (deletes_gaps_only q.1) (tt, tt))
  ]

  -- The batch that cuts block `b` out of a gap.
  gap_view-cut :
      (db : Db R) (s e b : ℕ)
      → s ≤ b
      → b ≤ e
      → e < u64_max
      → gap_view (commit db (cut_ops s e b)) ≡ cut (gap_view db) s e b
  gap_view-cut db s e b l m h = fun_ext λ j. elim (Bool-cases (ltb s b)) [
    | inl left ↦ elim (Bool-cases (ltb b e)) [
      | inl right ↦
          rw (left, right)
            (simp (R.get-put, R.get-delete) (ground (arith, add64-eq b 1, sub64-eq b 1)))
      | inr end ↦ rw (left, end) (simp (R.get-put, R.get-delete) (ground (arith, sub64-eq b 1)))
    ]
    | inr start ↦ elim (Bool-cases (ltb b e)) [
      | inl right ↦
          rw (start, right) (simp (R.get-put, R.get-delete) (ground (arith, add64-eq b 1)))
      | inr end ↦ rw (start, end) (simp R.get-delete (ground arith))
    ]
  ]

  fill_gap_block-none :
      (db : Db R) (b : ℕ) → find_containing_gap db b ≡ none → fill_gap_block db b ≡ []
  unfolding fill_gap_block
  fill_gap_block-none db b h = rw h

  fill_gap_block-some :
      (db : Db R) (b s e : ℕ)
      → find_containing_gap db b ≡ some (s, e)
      → fill_gap_block db b ≡ cut_ops s e b
  unfolding fill_gap_block
  fill_gap_block-some db b s e h = rw h

  fill-Found :
      (db : Db R) (b : ℕ) (o : Option (ℕ × ℕ))
      → IsGaps (gap_view db)
      → find_containing_gap db b ≡ o
      → Found (gap_view db) b o
      → Removed (gap_view db) (gap_view (commit db (fill_gap_block db b))) b
  fill-Found db b none v h f = rw (fill_gap_block-none db b h) (record {
    valid = v;
    covers = λ c. (λ p. (p, λ e. f (subst (Covered (gap_view db)) e p)), λ p. p.0);
  })
  fill-Found db b (some (s, e)) v h (at, l, m) =
      rw (fill_gap_block-some db b s e h, gap_view-cut db s e b l m (v.below s e at))
        (record {
          valid = cut-IsGaps v s e b at l m;
          covers = λ c. (Covered-uncut v s e b at l m c, λ p. Covered-cut v s e b at l m c p.0 p.1);
        })

  -- Once the batch of `fill_gap_block` is committed, the recorded gaps are apart and hold the blocks
  -- that they held, without the one block.
  pub fill_gap_block-Removed :
      (db : Db R) (b : ℕ)
      → IsGaps (gap_view db)
      → Removed (gap_view db) (gap_view (commit db (fill_gap_block db b))) b
  fill_gap_block-Removed db b v =
      fill-Found db b (find_containing_gap db b) v refl (find_containing_gap-Found db b v)

  pub fill_gap_block-gaps_only : (db : Db R) (b : ℕ) → All IsGapOp (fill_gap_block db b)
  fill_gap_block-gaps_only db b = elim (Option-cases (find_containing_gap db b)) [
    | inl e ↦ rw (fill_gap_block-none db b e) tt
    | inr ((s, f), e) ↦ rw (fill_gap_block-some db b s f e) (cut_ops-gaps_only s f b)
  ]
