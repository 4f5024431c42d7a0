-- ===== src/Session.antt =====
-- crates/carryctx-core/src/domain/session.rs: the session state machine.
use carryctx.Base.{
  String, Bool, true, false, ◌≡◌, ◌≢◌, ◌⊎◌, ◌↔◌, arith, Result, ok, err, if◌then◌else◌, inl, inr,
  refl, Bool-cases,
}
use carryctx.Error.{CarryCtxError, invalid_task_transition}

pub data SessionState : Type 0 where
  active paused ended stale abandoned : SessionState

unfoldable pub is_terminal : SessionState → Bool
is_terminal ended = true
is_terminal abandoned = true
is_terminal _ = false

unfoldable pub can_transition_to : SessionState → SessionState → Bool
can_transition_to active paused = true
can_transition_to active ended = true
can_transition_to active stale = true
can_transition_to active abandoned = true
can_transition_to paused active = true
can_transition_to paused ended = true
can_transition_to paused abandoned = true
can_transition_to stale active = true
can_transition_to stale ended = true
can_transition_to stale abandoned = true
can_transition_to _ _ = false

debug_state : SessionState → String
debug_state active = "Active"
debug_state paused = "Paused"
debug_state ended = "Ended"
debug_state stale = "Stale"
debug_state abandoned = "Abandoned"

unfoldable pub evaluate_session_transition :
    SessionState → SessionState → Result CarryCtxError (Unit {0})
unfolding can_transition_to debug_state
evaluate_session_transition current target =
    if can_transition_to current target
    then ok tt
    else err (invalid_task_transition (debug_state current) (debug_state target))

-- The states that accepted transitions lead to.
pub data Leads (s : SessionState) : SessionState → Type 0 where
  here : Leads s s
  then_to : {t u : SessionState} → Leads s t → evaluate_session_transition t u ≡ ok tt → Leads s u

terminal_stays :
    (t u : SessionState) → is_terminal t ≡ true → evaluate_session_transition t u ≢ ok tt
unfolding evaluate_session_transition is_terminal
terminal_stays t u h = ground arith

Leads-of_terminal : {s t : SessionState} → is_terminal s ≡ true → Leads s t → t ≡ s
Leads-of_terminal h here = refl
Leads-of_terminal {s} h (then_to {t} {u} p e) =
    let same = Leads-of_terminal h p in absurd (terminal_stays t u (ground (arith, same)) e)

via :
    (s t u : SessionState)
    → evaluate_session_transition s t ≡ ok tt
    → evaluate_session_transition t u ≡ ok tt
    → Leads s u
via s t u p q = then_to (then_to here p) q

open-Leads : (s t : SessionState) → is_terminal s ≡ false → Leads s t
unfolding evaluate_session_transition is_terminal
open-Leads active active h = here
open-Leads active stale h = then_to here refl
open-Leads active paused h = then_to here refl
open-Leads active ended h = then_to here refl
open-Leads active abandoned h = then_to here refl
open-Leads paused active h = then_to here refl
open-Leads paused paused h = here
open-Leads paused stale h = via _ active _ refl refl
open-Leads paused ended h = then_to here refl
open-Leads paused abandoned h = then_to here refl
open-Leads stale active h = then_to here refl
open-Leads stale paused h = via _ active _ refl refl
open-Leads stale stale h = here
open-Leads stale ended h = then_to here refl
open-Leads stale abandoned h = then_to here refl
open-Leads ended t h = cc
open-Leads abandoned t h = cc

-- A session leads to another state exactly when it is not ended or abandoned: from a terminal state
-- nothing but the state itself is reached, from any other state every state is.
pub Leads-iff : (s t : SessionState) → Leads s t ↔ ((is_terminal s ≡ false) ⊎ (t ≡ s))
Leads-iff s t = (
  λ p. elim (Bool-cases (is_terminal s)) [
    | inl done ↦ inr (Leads-of_terminal done p)
    | inr alive ↦ inl alive
  ],
  λ h. elim h [ inl alive ↦ open-Leads s t alive | inr same ↦ rw same here ],
)
