-- ===== src/Publish/Sessions/Safety.antt =====
-- What holds in every state that the sessions of a node can reach.
use mathlib.Core.Path.{subst}
use rock_node.Base.{ℕ, ◌≡◌, ◌≢◌, ◌≤◌, refl, sym, ◌∙◌, inl, inr, none, some, some_inj}
use rock_node.Base.Word.{max, max_bounds}
use rock_node.Publish.Plugin.{clean_up_before, start_state}
use rock_node.Publish.Winners.{Wins}
use rock_node.Publish.Sessions.{
  absent, idle, leaving, Node, Step, connect, request, go_on, disconnect, leave, clean, Run,
  started, then_step, resume, start_request,
}
use rock_node.Publish.Sessions.Spares.{TakesIn, Holds, Spares, Moved, same_winners, quiet}
use rock_node.Publish.Sessions.Moves.{start_request-Moved, resume-Moved}
use rock_node.Publish.Sessions.Invariant.{
  Fine, Inv, move-Inv, Moved-Inv, close_session-Spares, closed, register-Moved, clean_up_unique,
  clean_up-Fine, later_cut, task_of,
}

-- The first block that a step's clean-up spares.
abbrev pub cut_of : {max_items threshold : ℕ} {t t' : Node} → Step max_items threshold t t' → ℕ
cut_of (connect i e) = 0
cut_of (request i w r s e) = 0
cut_of (go_on i w) = 0
cut_of (disconnect i s e) = 0
cut_of (leave i s e) = 0
cut_of {threshold} {t} clean = clean_up_before threshold t.shared

-- The first block that all the clean-ups of a run have spared.
abbrev pub cleaned_before : {max_items threshold : ℕ} {t : Node} → Run max_items threshold t → ℕ
cleaned_before (started reader) = 0
cleaned_before (then_step run step) = max (cleaned_before run) (cut_of step)

Step-Inv :
    {max_items threshold : ℕ} (cut : ℕ) {t t' : Node}
    → (step : Step max_items threshold t t') → cut_of step ≤ cut
    → Inv cut t
    → Inv cut t'
unfolding resume
Step-Inv {max_items} cut {t} (connect i e) le inv =
    Moved-Inv cut i t _ inv (register-Moved cut i max_items t.shared)
Step-Inv cut {t} (request i w r s e) le inv = Moved-Inv cut i t _ inv moved
  where
    fine : Fine cut i (idle s) t.shared
    fine = subst (λ p. Fine cut i p t.shared) e (inv.fine i)

    own : s.id ≡ i
    own = task_of i (t.phase i) (idle s) (inv.fine i).task e (λ q. cc)

    moved : Moved cut i t.shared (start_request w r s t.shared)
    moved =
        subst (λ j. Moved cut j t.shared (start_request w r s t.shared)) own
          (start_request-Moved cut w r s t.shared
            (subst (λ j. Holds cut j (idle s) t.shared) (sym own) fine.held))
Step-Inv cut {t} (go_on i w) le inv = elim (inv.fine i).task [
  | inr task ↦
      Moved-Inv cut i t _ inv (resume-Moved cut i w (t.phase i) t.shared task (inv.fine i).held)
  | inl none_there ↦
      move-Inv cut i t _ inv
        (subst (λ p. Fine cut i (resume w p t.shared).0 (resume w p t.shared).1) (sym none_there)
          (subst (λ p. Fine cut i p t.shared) none_there (inv.fine i)))
        (subst (λ p. Spares cut i t.shared (resume w p t.shared).1) (sym none_there)
          (same_winners cut i t.shared t.shared refl))
]
Step-Inv cut {t} (disconnect i s e) le inv = Moved-Inv cut i t _ inv (
    quiet cut i t.shared (leaving s, t.shared)
      (task_of i (t.phase i) (idle s) (inv.fine i).task e (λ q. cc)) (λ n d. d) refl)
Step-Inv cut {t} (leave i s e) le inv =
    move-Inv cut i t _ inv (closed cut i t.shared) (close_session-Spares cut i t.shared inv.unique)
Step-Inv {threshold} cut {t} clean le inv = record {
  unique = clean_up_unique threshold t.shared inv.unique;
  fine = λ i. clean_up-Fine threshold cut i (t.phase i) t.shared le (inv.fine i);
}

module _ {max_items threshold : ℕ} where
  Run-Inv : {t : Node} → (run : Run max_items threshold t) → Inv (cleaned_before run) t
  unfolding start_state
  Run-Inv (started reader) = record {
    unique = tt;
    fine = λ i. record {
      task = inl refl;
      present = λ b h. absurd (nobody h);
      held = λ n le d. absurd d;
    };
  }
    where
      nobody : {i : ℕ} → none ≡ some i → ⊥
      nobody h = cc
  Run-Inv (then_step {t} {t'} run step) =
      let (earlier, now) = max_bounds (cleaned_before run) (cut_of step) in
      Step-Inv _ step now (later_cut _ _ t earlier (Run-Inv run))

  -- Whatever the sessions do, and in whichever order: two sessions never take in the items of the
  -- same block, or wait for its outcome, at a time, if the block is not before one up to which a round
  -- of the clean-up task has removed winners.
  pub one_session :
      {t : Node}
      → (run : Run max_items threshold t) → (i j n : ℕ) → cleaned_before run ≤ n
      → TakesIn n (t.phase i)
      → TakesIn n (t.phase j)
      → i ≡ j
  one_session run i j n le a b =
      let inv = Run-Inv run in some_inj (sym ((inv.fine i).held n le a) ∙ (inv.fine j).held n le b)

  -- Whatever the sessions do, and in whichever order: a session that is entered as the winner of a
  -- block has a task that has not yet cleaned up, so no block stays with a session that has gone.
  pub winners_present :
      {t : Node} → Run max_items threshold t → (i b : ℕ) → Wins i b t.shared → t.phase i ≢ absent
  winners_present run i b h = ((Run-Inv run).fine i).present b h
