-- ===== src/Publish/Sessions/Invariant.antt =====
-- The invariant of the sessions of a node, and what keeps it.
use mathlib.Core.Path.{subst}
use mathlib.Core.Logic.{ite}
use rock_node.Base.{
  ℕ, ◌≡◌, ◌≢◌, ◌≤◌, refl, sym, ◌∙◌, inl, inr, ◌⊎◌, none, arith, leb, Bool-cases, if◌then◌else◌, ◌-◌,
}
use native.Mathlib.Decide.{ℕ_discrete}
use rock_node.Base.Signed.{as_u64}
use rock_node.Base.Assoc.{lookup}
use rock_node.Publish.State.{SharedState}
use rock_node.Publish.Session.{new_session}
use rock_node.Publish.Handler.{close_session, won_by}
use rock_node.Publish.Plugin.{clean_up_due, clean_up, clean_up_before}
use rock_node.Publish.Winners.{Wins}
use rock_node.Publish.Closing.{memb, give_up-lookup, won_by-all, won_by-won, HasUniqueKeys}
use rock_node.Publish.Sessions.Keys.{
  give_up-HasUniqueKeys, retain_from-lookup, retain_from-HasUniqueKeys,
}
use rock_node.Publish.Sessions.{Phase, absent, idle, Progress, register, update, Node, move}
use rock_node.Publish.Sessions.Spares.{IsTaskOf, Holds, Spares, Moved, quiet}

-- A task is its session's, a session that has won a block has a task, and one that takes in a block
-- from `cut` on has won it.
pub record Fine (cut i : ℕ) (p : Phase) (shared : SharedState) : Type 0 where
  pub task : (p ≡ absent) ⊎ IsTaskOf i p
  pub present : (b : ℕ) → Wins i b shared → p ≢ absent
  pub held : Holds cut i p shared

pub record Inv (cut : ℕ) (t : Node) : Type 0 where
  pub unique : HasUniqueKeys t.shared.block_winners
  pub fine : (i : ℕ) → Fine cut i (t.phase i) t.shared

not_absent : (i : ℕ) (p : Phase) → IsTaskOf i p → p ≢ absent
not_absent i p task e = subst (IsTaskOf i) e task

Moved-Fine :
    (cut i : ℕ) (shared : SharedState) (p : Progress) → Moved cut i shared p → Fine cut i p.0 p.1
Moved-Fine cut i shared p m = record {
  task = inr m.task;
  present = λ b h. not_absent i p.0 m.task;
  held = m.holds;
}

-- A change that session `i` makes leaves the other sessions as they were.
Fine-Spares :
    (cut i j : ℕ) (p : Phase) (shared after : SharedState)
    → Spares cut i shared after
    → j ≢ i
    → Fine cut j p shared
    → Fine cut j p after
Fine-Spares cut i j p shared after f ne fine = record {
  task = fine.task;
  present = λ b h. fine.present b (f.fresh j b ne h);
  held = λ n le d. f.keeps j n ne le (fine.held n le d);
}

update-all {ℓ} :
    {A : Type ℓ} (Q : ℕ → A → Type 0) (f : ℕ → A) (i : ℕ) (a : A)
    → Q i a
    → ((j : ℕ) → j ≢ i → Q j (f j))
    → (j : ℕ) → Q j (update f i a j)
update-all Q f i a here there j = elim (ℕ_discrete i j) as (λ d. Q j (ite d a (f j))) [
  | yes e ↦ subst (λ k. Q k a) e here
  | no ne ↦ there j (λ e. ne (sym e))
]

pub move-Inv :
    (cut i : ℕ) (t : Node) (p : Progress)
    → Inv cut t
    → Fine cut i p.0 p.1
    → Spares cut i t.shared p.1
    → Inv cut (move t i p)
unfolding move
move-Inv cut i t (p, shared) inv fine spares = record {
  unique = spares.unique inv.unique;
  fine =
      update-all (λ j q. Fine cut j q shared) t.phase i p fine
        (λ j ne. Fine-Spares cut i j (t.phase j) t.shared shared spares ne (inv.fine j));
}

pub Moved-Inv :
    (cut i : ℕ) (t : Node) (p : Progress)
    → Inv cut t
    → Moved cut i t.shared p
    → Inv cut (move t i p)
Moved-Inv cut i t p inv m = move-Inv cut i t p inv (Moved-Fine cut i t.shared p m) m.spares

-- The clean-up of a task gives up all that the session has won, and nothing else.
close_session-lookup :
    (i b : ℕ) (shared : SharedState)
    → lookup b (close_session i shared).block_winners
      ≡ (if memb b (won_by i shared.block_winners) then none else lookup b shared.block_winners)
unfolding close_session
close_session-lookup i b shared = give_up-lookup i (won_by i shared.block_winners) shared b

pub close_session-Spares :
    (cut i : ℕ) (shared : SharedState)
    → HasUniqueKeys shared.block_winners
    → Spares cut i shared (close_session i shared)
unfolding close_session
close_session-Spares cut i shared u = record {
  keeps = λ o b ne le h.
      close_session-lookup i b shared
      ∙ ground (arith, won_by-won i shared.block_winners shared.block_winners b u);
  fresh = λ o b ne h. ground (arith, sym (close_session-lookup i b shared) ∙ h);
  unique = give_up-HasUniqueKeys i (won_by i shared.block_winners) shared;
}

pub closed : (cut i : ℕ) (shared : SharedState) → Fine cut i absent (close_session i shared)
closed cut i shared = record {
  task = inl refl;
  present = λ b h. absurd (
      ground
        (arith, sym (close_session-lookup i b shared) ∙ h, won_by-all i shared.block_winners b));
  held = λ n le d. absurd d;
}

pub register-Moved :
    (cut i max_items : ℕ) (shared : SharedState)
    → Moved cut i shared (idle (new_session i max_items), register i shared)
unfolding new_session register
register-Moved cut i max_items shared = quiet cut i shared _ refl (λ n (t, e). cc) refl

clean_up-lookup :
    (threshold b : ℕ) (shared : SharedState)
    → lookup b (clean_up threshold shared).block_winners
      ≡ (if leb (clean_up_before threshold shared) b then lookup b shared.block_winners else none)
unfolding clean_up clean_up_before
clean_up-lookup threshold b shared = ground (
  arith,
  retain_from-lookup (as_u64 shared.latest_persisted_block - threshold) b shared.block_winners,
)

pub clean_up_unique :
    (threshold : ℕ) (shared : SharedState)
    → HasUniqueKeys shared.block_winners
    → HasUniqueKeys (clean_up threshold shared).block_winners
unfolding clean_up
clean_up_unique threshold shared u = elim (Bool-cases (clean_up_due threshold shared)) [
  | inl due ↦ rw (due, clean_up) (retain_from-HasUniqueKeys _ shared.block_winners u)
  | inr early ↦ rw (early, clean_up) u
]

pub clean_up-Fine :
    (threshold cut i : ℕ) (p : Phase) (shared : SharedState)
    → clean_up_before threshold shared ≤ cut
    → Fine cut i p shared
    → Fine cut i p (clean_up threshold shared)
clean_up-Fine threshold cut i p shared le fine = record {
  task = fine.task;
  present = λ b h. fine.present b (ground (arith, sym (clean_up-lookup threshold b shared) ∙ h));
  held = λ n le' d. clean_up-lookup threshold n shared ∙ ground (arith, fine.held n le' d);
}

pub later_cut : (cut cut' : ℕ) (t : Node) → cut ≤ cut' → Inv cut t → Inv cut' t
later_cut cut cut' t le inv = record {
  unique = inv.unique;
  fine = λ i. record {
    task = (inv.fine i).task;
    present = (inv.fine i).present;
    held = λ n le' d. (inv.fine i).held n (omega arith) d;
  };
}

pub task_of :
    (i : ℕ) (p q : Phase) → (p ≡ absent) ⊎ IsTaskOf i p → p ≡ q → q ≢ absent → IsTaskOf i q
task_of i p q (inl e) same ne = absurd (ne (sym same ∙ e))
task_of i p q (inr task) same ne = subst (IsTaskOf i) same task
