-- ===== src/Task/Finish.antt =====
-- The actions by which the transition function takes each status to completed.
use carryctx.Base.{
  ℕ, suc, true, false, ◌&&◌, Option, none, some, List, [], ◌∷◌, length, ◌≤◌, ◌≡◌, refl, arith,
}
use carryctx.Task.{
  TaskStatus, planned, ready, in_progress, blocked, review, completed, cancelled, TransitionAction,
  start, unblock, complete, reopen, TransitionFacts, allowed, denied, evaluate_transition,
}

-- The status after actions, each with the facts of its moment, or none if one is refused.
unfoldable pub carry_out :
    (ℕ → TransitionFacts) → List TransitionAction → TaskStatus → Option TaskStatus
unfolding evaluate_transition
carry_out facts [] s = some s
carry_out facts (a ∷ actions) s = elim (evaluate_transition s a (facts 0)) [
  | allowed t _ _ ↦ carry_out (λ n. facts (suc n)) actions t
  | denied _ ↦ none
]

abbrev pub way_to_completed : TaskStatus → List TransitionAction
way_to_completed planned = start ∷ complete ∷ []
way_to_completed ready = start ∷ complete ∷ []
way_to_completed in_progress = complete ∷ []
way_to_completed blocked = unblock ∷ start ∷ complete ∷ []
way_to_completed review = complete ∷ []
way_to_completed completed = []
way_to_completed cancelled = reopen ∷ start ∷ complete ∷ []

-- Strong prerequisites are settled, and no open progress item stands in the way.
abbrev pub IsClear : TransitionFacts → Type 0
IsClear facts =
    (facts.strong_dependencies_complete ≡ true)
    × ((facts.has_open_progress && facts.strict_completion) ≡ false)

completes :
    (facts : ℕ → TransitionFacts) (s : TaskStatus)
    → ((n : ℕ) → IsClear (facts n))
    → carry_out facts (way_to_completed s) s ≡ some completed
unfolding carry_out
completes facts planned clear = ground (arith, clear 0, clear 1)
completes facts ready clear = ground (arith, clear 0, clear 1)
completes facts in_progress clear = ground (arith, clear 0)
completes facts blocked clear = ground (arith, clear 0, clear 1, clear 2)
completes facts review clear = ground (arith, clear 0)
completes facts completed clear = refl
completes facts cancelled clear = ground (arith, clear 0, clear 1, clear 2)

at_most_three : (s : TaskStatus) → length (way_to_completed s) ≤ 3
at_most_three planned = omega arith
at_most_three ready = omega arith
at_most_three in_progress = omega arith
at_most_three blocked = omega arith
at_most_three review = omega arith
at_most_three completed = omega arith
at_most_three cancelled = omega arith

-- From every status the transition function takes a task to completed by at most three actions, if at the moment of
-- each its strong prerequisites are settled and it has no open progress item that strict completion asks to close,
-- and whatever its other facts are: the owner, the session, the reason and the actor.
pub way_to_completed-completes :
    (facts : ℕ → TransitionFacts) (s : TaskStatus)
    → ((n : ℕ) → IsClear (facts n))
    → (carry_out facts (way_to_completed s) s ≡ some completed) × (length (way_to_completed s) ≤ 3)
way_to_completed-completes facts s clear = (completes facts s clear, at_most_three s)
