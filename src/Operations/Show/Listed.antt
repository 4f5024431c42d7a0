-- ===== src/Operations/Show/Listed.antt =====
-- `list_tasks` against a description of the filter and against the exact counts.
use carryctx.Base.{
  ℕ, zero, suc, ◌≤◌, ◌<◌, String, Bool, true, false, not, ◌&&◌, ◌||◌, Option, none, some, List, [],
  ◌∷◌, map, keep, length, ◌≡◌, ◌⊎◌, ◌↔◌, inl, inr, refl, sym, ap, ◌∙◌, subst, arith, opt_eq,
  opt_eq_iff, In, In-keep, ok,
}
use carryctx.Task
use mathlib.Core.Bool.{decide_iff}
use carryctx.Task.{TaskStatus-discrete, TaskStatus, planned, blocked}
use carryctx.Store.{Store, TaskRecord, status_eq, take}
use carryctx.Store.Counts.{count_by_status, list_display_ids_by_status}
use carryctx.Operations.Show.{
  TaskFilter, if_some, passes, list_capped, or_default, max_i64, list_tasks,
}

-- What a filter asks of a task.
abbrev pub Passes : TaskFilter → TaskRecord → Type 0
Passes filter t =
    ((status : TaskStatus) → filter.status ≡ some status → t.status ≡ status)
    × ((owner : String) → filter.owner_agent_id ≡ some owner → t.owner_agent_id ≡ some owner)
    × (filter.ready ≡ true → (t.status ≡ planned) ⊎ (t.status ≡ Task.ready))
    × (filter.blocked ≡ true → t.status ≡ blocked)
    × ((mine : String) → filter.mine ≡ some mine → t.owner_agent_id ≡ some mine)

if_some_iff :
    {A : Type 0} (p : A → Bool) (Q : A → Type 0) (x : Option A)
    → ((a : A) → (p a ≡ true) ↔ Q a)
    → (if_some p x ≡ true) ↔ ((a : A) → x ≡ some a → Q a)
if_some_iff p Q none e = (λ h a n. cc, λ h. refl)
if_some_iff p Q (some b) e =
    (λ h a n. (e a).0 (ap p (sym (some_inj b a n)) ∙ h), λ h. (e b).1 (h b refl))
  where
    some_inj : {A : Type 0} (b a : A) → some b ≡ some a → b ≡ a
    some_inj b a n = cc

all_five :
    (a b c d e : Bool)
    → ((a && b && c && d && e) ≡ true)
      ↔ ((a ≡ true) × (b ≡ true) × (c ≡ true) × (d ≡ true) × (e ≡ true))
all_five a b c d e = ground arith

status_asked : (a b : TaskStatus) → (status_eq a b ≡ true) ↔ (a ≡ b)
status_asked a b = decide_iff (TaskStatus-discrete a b)

ready_asked :
    (ready : Bool) (a : TaskStatus)
    → ((not ready || status_eq a planned || status_eq a Task.ready) ≡ true)
      ↔ (ready ≡ true → (a ≡ planned) ⊎ (a ≡ Task.ready))
ready_asked ready a = ground (arith, status_asked a planned, status_asked a Task.ready)

blocked_asked :
    (asked : Bool) (a : TaskStatus)
    → ((not asked || status_eq a blocked) ≡ true) ↔ (asked ≡ true → a ≡ blocked)
blocked_asked asked a = ground (arith, status_asked a blocked)

passes_iff : (filter : TaskFilter) (t : TaskRecord) → (passes filter t ≡ true) ↔ Passes filter t
unfolding passes
passes_iff filter t =
    let (split, join) =
      all_five (if_some (status_eq t.status) filter.status)
        (if_some (λ owner. opt_eq t.owner_agent_id (some owner)) filter.owner_agent_id)
        (not filter.ready || status_eq t.status planned || status_eq t.status Task.ready)
        (not filter.blocked || status_eq t.status blocked)
        (if_some (λ mine. opt_eq t.owner_agent_id (some mine)) filter.mine) in
    let by_status =
      if_some_iff (status_eq t.status) (λ status. t.status ≡ status) filter.status
        (status_asked t.status) in
    let by_owner =
      if_some_iff (λ owner. opt_eq t.owner_agent_id (some owner))
        (λ owner. t.owner_agent_id ≡ some owner) filter.owner_agent_id
        (λ owner. opt_eq_iff t.owner_agent_id (some owner)) in
    let by_mine =
      if_some_iff (λ mine. opt_eq t.owner_agent_id (some mine))
        (λ mine. t.owner_agent_id ≡ some mine) filter.mine
        (λ mine. opt_eq_iff t.owner_agent_id (some mine)) in
    (
      λ h.
          let (a, b, c, d, e) = split h in
          (
            by_status.0 a,
            by_owner.0 b,
            (ready_asked filter.ready t.status).0 c,
            (blocked_asked filter.blocked t.status).0 d,
            by_mine.0 e,
          ),
      λ h.
          let (a, b, c, d, e) = h in
          join (
            by_status.1 a,
            by_owner.1 b,
            (ready_asked filter.ready t.status).1 c,
            (blocked_asked filter.blocked t.status).1 d,
            by_mine.1 e,
          ),
    )

In-take : (n : ℕ) (t : TaskRecord) (tasks : List TaskRecord) → In t (take n tasks) → In t tasks
In-take zero t tasks m = absurd m
In-take (suc n) t [] m = absurd m
In-take (suc n) t (x ∷ tasks) m = elim m [
  | inl here ↦ inl here
  | inr later ↦ inr (In-take n t tasks later)
]

length-take : (n : ℕ) (tasks : List TaskRecord) → length (take n tasks) ≤ n
length-take zero tasks = omega arith
length-take (suc n) [] = omega arith
length-take (suc n) (x ∷ tasks) = omega (arith, length-take n tasks)

take_all : (n : ℕ) (tasks : List TaskRecord) → length (take n tasks) < n → take n tasks ≡ tasks
take_all zero tasks h = absurd (omega (arith, h))
take_all (suc n) [] h = refl
take_all (suc n) (x ∷ tasks) h = ap (λ l. x ∷ l) (take_all n tasks (omega (arith, h)))

map-take :
    (n : ℕ) (tasks : List TaskRecord)
    → map (λ t. t.display_id) (take n tasks) ≡ take n (map (λ t. t.display_id) tasks)
map-take zero tasks = refl
map-take (suc n) [] = refl
map-take (suc n) (x ∷ tasks) = ap (λ l. x.display_id ∷ l) (map-take n tasks)

length-take_iff :
    (n : ℕ) (tasks : List TaskRecord) → (length (take n tasks) ≡ length tasks) ↔ (length tasks ≤ n)
length-take_iff zero [] = (λ h. omega arith, λ h. refl)
length-take_iff zero (x ∷ tasks) = (λ h. omega (arith, h), λ h. omega (arith, h))
length-take_iff (suc n) [] = (λ h. omega arith, λ h. refl)
length-take_iff (suc n) (x ∷ tasks) =
    let (to, from) = length-take_iff n tasks in
    (λ h. omega (arith, to (omega (arith, h))), λ h. omega (arith, from (omega (arith, h))))

listed :
    (filter : TaskFilter) (limit : Option ℕ) (s : Store) (found : List TaskRecord)
    → list_tasks filter limit s ≡ ok found
    → found ≡ take (or_default limit) (keep (passes filter) s.tasks)
unfolding list_tasks list_capped
listed filter limit s found h = ground (arith, h)

abbrev pub IsListing : TaskFilter → ℕ → List TaskRecord → List TaskRecord → Type 0
IsListing filter n tasks found =
    ((t : TaskRecord) → In t found → In t tasks × Passes filter t)
    × (length found ≤ n)
    × (length found < n → (t : TaskRecord) → In t tasks → Passes filter t → In t found)

taken-IsListing :
    (filter : TaskFilter) (n : ℕ) (tasks : List TaskRecord)
    → IsListing filter n tasks (take n (keep (passes filter) tasks))
taken-IsListing filter n tasks =
    let kept = keep (passes filter) tasks in
    (
      λ t m.
          let (there, good) = (In-keep (passes filter) t tasks).0 (In-take n t kept m) in
          (there, (passes_iff filter t).0 good),
      length-take n kept,
      λ few t there good.
          subst (In t) (sym (take_all n kept few))
            ((In-keep (passes filter) t tasks).1 (there, (passes_iff filter t).1 good)),
    )

-- A listing whose limit is a signed 64-bit number succeeds, and has only tasks that the filter asks for, no more of
-- them than the limit, and, where it has fewer than the limit, every such task.
pub list_tasks-IsListing :
    (filter : TaskFilter) (limit : Option ℕ) (s : Store)
    → or_default limit ≤ max_i64
    → (found : List TaskRecord) × (list_tasks filter limit s ≡ ok found)
      × IsListing filter (or_default limit) s.tasks found
unfolding list_tasks list_capped
list_tasks-IsListing filter limit s fits = (
  take (or_default limit) (keep (passes filter) s.tasks),
  ground (arith, fits),
  taken-IsListing filter (or_default limit) s.tasks,
)

abbrev pub by_status : TaskStatus → TaskFilter
by_status status = record {
  status = some status;
  owner_agent_id = none;
  ready = false;
  blocked = false;
  mine = none;
}

keep_same :
    (p q : TaskRecord → Bool) (tasks : List TaskRecord)
    → ((t : TaskRecord) → p t ≡ q t)
    → keep p tasks ≡ keep q tasks
keep_same p q [] e = refl
keep_same p q (t ∷ tasks) e = ground (arith, e t, keep_same p q tasks e)

-- A listing of the tasks of a status that succeeds shows the first of the display ids of that status, up to the
-- limit, and has as many tasks as are counted exactly when the count is within the limit.
pub list_tasks-count_by_status :
    (status : TaskStatus) (limit : Option ℕ) (s : Store) (found : List TaskRecord)
    → list_tasks (by_status status) limit s ≡ ok found
    → (map (λ t. t.display_id) found
        ≡ take (or_default limit) (list_display_ids_by_status s status))
      × ((length found ≡ count_by_status s status) ↔ (count_by_status s status ≤ or_default limit))
unfolding count_by_status list_display_ids_by_status passes
list_tasks-count_by_status status limit s found h =
    let kept = keep (λ t. status_eq t.status status) s.tasks in
    let is : found ≡ take (or_default limit) kept =
      listed (by_status status) limit s found h
      ∙ ap (take (or_default limit)) (
          keep_same (passes (by_status status)) (λ t. status_eq t.status status) s.tasks
            (λ t. ground arith)) in
    (
      ap (map (λ t. t.display_id)) is ∙ map-take (or_default limit) kept,
      subst (λ l. (length l ≡ length kept) ↔ (length kept ≤ or_default limit)) (sym is)
          (length-take_iff (or_default limit) kept),
    )
