-- ===== src/Operations/Claim/Exclusive.antt =====
-- A claim succeeds only on a ready, unowned task with settled prerequisites, and then holds it.
use carryctx.Base.{
  String, Bool, true, not, Option, none, some, List, [], ◌∷◌, ◌≡◌, ◌≢◌, refl, sym, ap, arith, ◌∙◌,
  ◌==◌, eq_refl, find, ok, is_some, is_empty, ◌&&◌, any, Bool-cases, Option-cases, In, inl, inr,
}
use mathlib.Core.Bool.{decide_iff}
use carryctx.Task.{TaskStatus-discrete, ready, in_progress}
use carryctx.Agent.{Agent}
use carryctx.Store.{
  Store, Event, lost_claim, TaskRecord, gets, ◌>>=◌, return, require, find_by_id,
  find_by_display_id, claimable, claimed_row, update_where, list_incomplete_strong_dependencies,
  update_status_if_ready_unowned, append_event, status_eq,
}
use carryctx.Store.Rows.{
  tasks-append_event, found_row, ids, Unique, In-find, find_by_id-Unique, find_by_id-update_where,
}
use carryctx.Store.Steps.{
  >>=-eq-ok, require-eq-ok, return-eq-ok, gets-eq-ok, Steps-require, Steps-gets,
}
use carryctx.Store.Same.{Same-IsOrder, skip}
use carryctx.Operations.Reads.{
  resolve_task-Same, resolve_agent_id-Same, or_no_agent-Same, check_role-Same, check_single-Same,
}
use carryctx.Operations.{Env, resolve_task, resolve_agent_id}
use carryctx.Operations.Claim.{
  PolicyConfig, check_role, check_single, claim_steps, or_no_agent, claim_task,
}

is_claimable :
    (id : String) (t : TaskRecord)
    → t.id ≡ id
    → t.status ≡ ready
    → t.owner_agent_id ≡ none
    → claimable id t ≡ true
unfolding claimable
is_claimable id t i r f =
    rw (i, f, (decide_iff (TaskStatus-discrete t.status ready)).1 r) (rw (eq_refl id) refl)

lost_claim_fails :
    (id : String) (found : Option TaskRecord) (s : Store) (updated : TaskRecord) (t : Store)
    → lost_claim id found s ≢ ok (updated, t)
unfolding lost_claim ◌>>=◌
lost_claim_fails id none s updated t h = cc
lost_claim_fails id (some r) s updated t h = elim (Option-cases r.owner_agent_id) [
  | inl n ↦ ground (arith, h, n)
  | inr (o, e) ↦ ground (arith, h, e)
]

reserve :
    (id actor now : String) (s : Store) (updated : TaskRecord) (t : Store)
    → update_status_if_ready_unowned id actor now s ≡ ok (updated, t)
    → (find_by_id (update_where (claimable id) (claimed_row actor now) s.tasks) id ≡ some updated)
      × (t.tasks ≡ update_where (claimable id) (claimed_row actor now) s.tasks)
unfolding update_status_if_ready_unowned
reserve id actor now s updated t h =
    let written = update_where (claimable id) (claimed_row actor now) s.tasks in
    elim (Bool-cases (any (claimable id) s.tasks)) [
      | inl hit ↦
          let (a, b) =
            found_row id (find_by_id written id) (record s { tasks = written }) updated t
              (rw hit at h) in
          (a, ap (λ x. x.tasks) (sym b))
      | inr miss ↦ absurd (lost_claim_fails id (find_by_id s.tasks id) s updated t (rw miss at h))
    ]

won :
    (id actor now : String) (s : Store) (existing updated : TaskRecord) (t : Store)
    → find_by_id s.tasks id ≡ some existing
    → claimable id existing ≡ true
    → update_status_if_ready_unowned id actor now s ≡ ok (updated, t)
    → (updated ≡ claimed_row actor now existing) × (find_by_id t.tasks id ≡ some updated)
unfolding claimed_row
won id actor now s existing updated t f c h =
    let (a, b) = reserve id actor now s updated t h in
    let e = find_by_id-update_where (claimable id) (claimed_row actor now) s.tasks id (λ r. refl) in
    (ground (arith, a, e, f, c), rw b a)

pub resolve_task-In :
    (ref : String) (s : Store) (existing : TaskRecord) (t : Store)
    → resolve_task ref s ≡ ok (existing, t)
    → In existing s.tasks
unfolding resolve_task find_by_id find_by_display_id
resolve_task-In ref s existing t h = elim (Option-cases (find (λ r. r.display_id == ref) s.tasks)) [
  | inl n ↦ elim (Option-cases (find (λ r. r.id == ref) s.tasks)) [
    | inl m ↦ ground (arith, h, n, m)
    | inr (x, m) ↦ In-find (λ r. r.id == ref) s.tasks existing (ground (arith, h, n, m))
  ]
  | inr (x, n) ↦ In-find (λ r. r.display_id == ref) s.tasks existing (ground (arith, h, n))
]

-- What a successful claim found, and what it left.
pub record Claimed (actor : String) (existing : TaskRecord) (s : Store) (updated : TaskRecord)
    (t : Store) : Type 0 where
  pub was_ready : existing.status ≡ ready
  pub was_free : existing.owner_agent_id ≡ none
  pub settled : list_incomplete_strong_dependencies s existing.id ≡ []
  pub now_working : updated.status ≡ in_progress
  pub now_owned : updated.owner_agent_id ≡ some actor
  pub stored : find_by_id t.tasks existing.id ≡ some updated

written :
    (existing : TaskRecord) (actor : String) (e : Event) (env : Env) (s t : Store)
    (updated : TaskRecord)
    → Unique (ids s.tasks)
    → In existing s.tasks
    → existing.status ≡ ready
    → existing.owner_agent_id ≡ none
    → list_incomplete_strong_dependencies s existing.id ≡ []
    → (update_status_if_ready_unowned existing.id actor env.now >>= λ row.
          append_event e >>= λ _. return row)
        s
      ≡ ok (updated, t)
    → Claimed actor existing s updated t
unfolding claimed_row
written existing actor e env s t updated u m r f d h =
    let (row, s1, h1, rest) =
      >>=-eq-ok (update_status_if_ready_unowned existing.id actor env.now) _ s updated t h in
    let (x, s2, h2, last) = >>=-eq-ok (append_event e) (λ _. return row) s1 updated t rest in
    let (same, end) = return-eq-ok row updated s2 t last in
    let (a, b) =
      won existing.id actor env.now s existing row s1 (find_by_id-Unique s.tasks existing u m)
        (is_claimable existing.id existing refl r f) h1 in
    let row_is = sym same ∙ a in
    record {
      was_ready = r;
      was_free = f;
      settled = d;
      now_working = ap (λ y. y.status) row_is;
      now_owned = ap (λ y. y.owner_agent_id) row_is;
      stored = rw (sym end, sym (tasks-append_event e s1 x s2 h2)) (b ∙ ap some same);
    }

no_owner :
    (status : Bool) (o : Option String)
    → (status && not (is_some o)) ≡ true
    → (status ≡ true) × (o ≡ none)
no_owner status o h = ground (arith, h)

no_rows : {A : Type 0} (xs : List A) → is_empty xs ≡ true → xs ≡ []
no_rows [] h = refl
no_rows (x ∷ xs) h = cc

claim_steps-Claimed :
    (policy : PolicyConfig) (actor : String) (existing : TaskRecord) (agent : Agent) (env : Env)
    (s t : Store) (updated : TaskRecord)
    → Unique (ids s.tasks)
    → In existing s.tasks
    → claim_steps policy actor existing agent env s ≡ ok (updated, t)
    → Claimed actor existing s updated t
unfolding claim_steps
claim_steps-Claimed policy actor existing agent env s t updated u m h =
    let (_, _, h1) =
      skip (check_role policy existing.required_role agent) _ s updated t
        (check_role-Same policy existing.required_role agent) h in
    let (_, _, h2) =
      skip (check_single policy actor agent.name existing) _ s updated t
        (check_single-Same policy actor agent.name existing) h1 in
    let (_, free, h3) = skip (require _ _) _ s updated t (Steps-require Same-IsOrder _ _) h2 in
    let (rows, got, h4) = skip (gets _) _ s updated t (Steps-gets Same-IsOrder _) h3 in
    let (_, done, h5) = skip (require _ _) _ s updated t (Steps-require Same-IsOrder _ _) h4 in
    let (is_ready, free) =
      no_owner (status_eq existing.status ready) existing.owner_agent_id
        (require-eq-ok _ _ s _ s free).0 in
    written existing actor _ env s t updated u m
      ((decide_iff (TaskStatus-discrete existing.status ready)).0 is_ready) free
      (gets-eq-ok (λ x. list_incomplete_strong_dependencies x existing.id) rows s s got
        ∙ no_rows rows (require-eq-ok _ _ s _ s done).0)
      h5

-- A claim that succeeds, where no two tasks share an id, resolved its references without changing a
-- row, found the task ready, without an owner and with every strong prerequisite settled, and returns
-- the row that the database now holds for the task: in progress, and owned by the agent resolved.
pub claim_task-Claimed :
    (ref agent_ref : String) (policy : PolicyConfig) (env : Env) (s t : Store)
    (updated : TaskRecord)
    → Unique (ids s.tasks)
    → claim_task ref agent_ref policy env s ≡ ok (updated, t)
    → (actor : String) × (existing : TaskRecord) × (resolve_agent_id agent_ref s ≡ ok (actor, s))
      × (resolve_task ref s ≡ ok (existing, s))
      × Claimed actor existing s updated t
unfolding claim_task
claim_task-Claimed ref agent_ref policy env s t updated u h =
    let (actor, as_actor, h1) =
      skip (resolve_agent_id agent_ref) _ s updated t (resolve_agent_id-Same agent_ref) h in
    let (existing, as_task, h2) =
      skip (resolve_task ref) _ s updated t (resolve_task-Same ref) h1 in
    let (found, _, h3) = skip (gets _) _ s updated t (Steps-gets Same-IsOrder _) h2 in
    let (agent, _, h4) =
      skip (or_no_agent actor found) _ s updated t (or_no_agent-Same actor found) h3 in
    (
      actor,
      existing,
      as_actor,
      as_task,
      claim_steps-Claimed policy actor existing agent env s t updated u
          (resolve_task-In ref s existing s as_task) h4,
    )
