-- ===== src/Cleanup/RoundTrip.antt =====
-- What cleanup requests store as text is read back.
use Prim.Native.String.{[], ◌∷◌}
use Prim.Native.Char.{Char, code}
use text.Mathlib.TextEquality.{Char-path}
use carryctx.Base.{
  String, Option, none, some, ◌≡◌, ◌≢◌, ◌⊎◌, ◌↔◌, inl, inr, refl, sym, ap, ◌∙◌, arith, ok, ◌==◌,
  eq_iff, nat_eq, Bool-cases,
}
use carryctx.Cleanup.{
  CleanupState, pending, running, blocked, completed, failed, cancelled, as_str, state_from_str,
  CleanupBlocker, active_session, dirty_worktree, current_working_directory, missing_git_metadata,
  worktree_locked, jj_colocation, to_db_string, from_db_string, display, strip_prefix, concat,
  unit_blocker,
}

state_round_trip : (s : CleanupState) → state_from_str (as_str s) ≡ ok s
unfolding state_from_str as_str
state_round_trip pending = refl
state_round_trip running = refl
state_round_trip blocked = refl
state_round_trip completed = refl
state_round_trip failed = refl
state_round_trip cancelled = refl

from_db_string-to_db_string : (b : CleanupBlocker) → from_db_string (to_db_string b) ≡ some b
unfolding from_db_string to_db_string
from_db_string-to_db_string (active_session session_id) = refl
from_db_string-to_db_string dirty_worktree = refl
from_db_string-to_db_string current_working_directory = refl
from_db_string-to_db_string missing_git_metadata = refl
from_db_string-to_db_string worktree_locked = refl
from_db_string-to_db_string jj_colocation = refl

from_db_string-display : (b : CleanupBlocker) → from_db_string (display b) ≡ some b
unfolding from_db_string display to_db_string
from_db_string-display (active_session session_id) = elim (Bool-cases (session_id == "")) [
  | inl nothing ↦
      rw nothing (ap (λ x. some (active_session x)) (sym ((eq_iff session_id "").0 nothing)))
  | inr something ↦ rw something refl
]
from_db_string-display dirty_worktree = refl
from_db_string-display current_working_directory = refl
from_db_string-display missing_git_metadata = refl
from_db_string-display worktree_locked = refl
from_db_string-display jj_colocation = refl

ap_cons : {c d : Char} {s t : String} → c ≡ d → s ≡ t → Path String (c ∷ s) (d ∷ t)
ap_cons p q i = p i ∷ q i

concat-strip_prefix : (p s rest : String) → strip_prefix p s ≡ some rest → s ≡ concat p rest
unfolding strip_prefix concat
concat-strip_prefix [] s rest h = cc h
concat-strip_prefix (p ∷ ps) [] rest h = cc h
concat-strip_prefix (p ∷ ps) (c ∷ s) rest h = elim (Bool-cases (nat_eq (code p) (code c))) [
  | inl same ↦
      ap_cons (Char-path c p (ground (arith, same)))
        (concat-strip_prefix ps s rest (ground (arith, same, h)))
  | inr other ↦ ground (arith, other, h)
]

unnamed :
    (s session_id : String)
    → s ≡ "active_session"
    → session_id ≡ ""
    → s ≡ display (active_session session_id)
unfolding display
unnamed s session_id e n = e ∙ rw ((eq_iff session_id "").1 n) refl

unit_blocker-text :
    (s : String) (b : CleanupBlocker)
    → unit_blocker s ≡ some b
    → (s ≡ to_db_string b) ⊎ (s ≡ display b)
unfolding unit_blocker display to_db_string
unit_blocker-text s dirty_worktree h = inl (ground (arith, h, eq_iff s "dirty_worktree"))
unit_blocker-text s current_working_directory h =
    inl (ground (arith, h, eq_iff s "current_working_directory"))
unit_blocker-text s missing_git_metadata h =
    inl (ground (arith, h, eq_iff s "missing_git_metadata"))
unit_blocker-text s worktree_locked h = inl (ground (arith, h, eq_iff s "worktree_locked"))
unit_blocker-text s jj_colocation h = inl (ground (arith, h, eq_iff s "jj_colocation"))
unit_blocker-text s (active_session session_id) h = inr (
    unnamed s session_id (ground (arith, h, eq_iff s "active_session"))
      (ground (arith, h, eq_iff session_id "")))

read_as :
    (s : String) (b : CleanupBlocker) (found : Option String)
    → strip_prefix "active_session:" s ≡ found
    → from_db_string s ≡ some b
    → elim found [ some rest ↦ some (active_session rest) | none ↦ unit_blocker s ] ≡ some b
unfolding from_db_string
read_as s b found e h = rw (sym e) h

written :
    (s : String) (b : CleanupBlocker) (found : Option String)
    → strip_prefix "active_session:" s ≡ found
    → from_db_string s ≡ some b
    → (s ≡ to_db_string b) ⊎ (s ≡ display b)
unfolding to_db_string
written s b none e h = unit_blocker-text s b (read_as s b none e h)
written s b (some rest) e h = inl (
    concat-strip_prefix "active_session:" s rest e
    ∙ ap to_db_string (some_session rest b (read_as s b (some rest) e h)))
  where
    some_session :
        (r : String) (b : CleanupBlocker) → some (active_session r) ≡ some b → active_session r ≡ b
    some_session r b h = ground (arith, h)

longer : (session_id : String) → concat "active_session:" session_id ≢ "active_session"
unfolding concat
longer session_id h = cc

texts_differ : (b : CleanupBlocker) → (to_db_string b ≢ display b) ↔ (b ≡ active_session "")
unfolding to_db_string display concat
texts_differ (active_session session_id) = elim (Bool-cases (session_id == "")) [
  | inl nothing ↦ (
    λ h. ap active_session ((eq_iff session_id "").0 nothing),
    λ e h. longer session_id (rw nothing at h),
  )
  | inr something ↦ (
    λ h. absurd (h (rw something refl)),
    λ e. absurd (ground (arith, e, something, eq_iff session_id "")),
  )
]
texts_differ dirty_worktree = (λ h. absurd (h refl), λ e. cc)
texts_differ current_working_directory = (λ h. absurd (h refl), λ e. cc)
texts_differ missing_git_metadata = (λ h. absurd (h refl), λ e. cc)
texts_differ worktree_locked = (λ h. absurd (h refl), λ e. cc)
texts_differ jj_colocation = (λ h. absurd (h refl), λ e. cc)

-- A stored text is read as a blocker exactly when it is the text that is written for it or the one that is shown for
-- it, and the two texts of a blocker differ exactly when it is a session without an id.
pub from_db_string_iff :
    (s : String) (b : CleanupBlocker)
    → ((from_db_string s ≡ some b) ↔ ((s ≡ to_db_string b) ⊎ (s ≡ display b)))
      × ((to_db_string b ≢ display b) ↔ (b ≡ active_session ""))
from_db_string_iff s b = (
  (
    written s b (strip_prefix "active_session:" s) refl,
    λ h. elim h [
      | inl stored ↦ ap from_db_string stored ∙ from_db_string-to_db_string b
      | inr shown ↦ ap from_db_string shown ∙ from_db_string-display b
    ],
  ),
  texts_differ b,
)
