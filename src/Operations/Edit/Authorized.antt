-- ===== src/Operations/Edit/Authorized.antt =====
-- Who may edit which task, and what an edit leaves.
use carryctx.Base.{
  ◌++◌, ◌∷◌, [], if◌then◌else◌, String, Bool, true, false, not, ◌||◌, Option, none, some, ◌≡◌, ◌⊎◌,
  inl, inr, refl, sym, ap, ◌∙◌, arith, ok, Bool-cases, ◌==◌, eq_iff,
}
use carryctx.Task.{is_terminal, TaskPriority}
use carryctx.Store.{
  Event, edited, append_event, Store, TaskRecord, ◌>>=◌, find_by_id, update_where, edited_row,
  edit_row,
}
use carryctx.Store.Rows.{
  ids, Unique, find_by_id-Unique, found_row, find_by_id-update_where, id-find_by_id,
}
use carryctx.Store.Steps.{
  Steps, >>=-eq-ok, require-eq-ok, return-eq-ok, gets-eq-ok, Steps-lift, Steps-gets, Steps-require,
}
use carryctx.Store.Same.{Same, Same-IsOrder, same_rules, skip}
use carryctx.Operations.{Env, resolve_task}
use carryctx.Operations.Reads.{resolve_task-Same}
use carryctx.Operations.Claim.Exclusive.{resolve_task-In}
use carryctx.Operations.Create.{or_default, map_trim}
use carryctx.Operations.Edit.{
  Edit, apply_optional, may_correct, or_no_actor, correct_as, authorize, write_edit, edit_existing,
  edit_task,
}

or_no_actor-Same : (actor : Option String) → Steps Same (or_no_actor actor)
unfolding or_no_actor
or_no_actor-Same none = search same_rules
or_no_actor-Same (some a) = search same_rules

correct_as-Same :
    (existing : TaskRecord) (actor : Option String) → Steps Same (correct_as existing actor)
unfolding correct_as
correct_as-Same existing actor = search (same_rules, or_no_actor-Same) depth 16

pub authorize-Same :
    (existing : TaskRecord) (actor : Option String) → Steps Same (authorize existing actor)
unfolding authorize
authorize-Same existing actor = search (same_rules, correct_as-Same) depth 6

corrected :
    (existing : TaskRecord) (actor by : Option String) (s t : Store)
    → correct_as existing actor s ≡ ok (by, t)
    → (a : String) × (by ≡ some a) × (may_correct s existing a ≡ true)
unfolding correct_as
corrected existing actor by s t h =
    let (ref, _, h1) = skip _ _ s by t (or_no_actor-Same actor) h in
    let (found, _, h2) = skip _ _ s by t (Steps-gets Same-IsOrder _) h1 in
    let (a, _, h3) = skip _ _ s by t (Steps-lift Same-IsOrder found) h2 in
    let (b, asked, h4) =
      skip _ _ s by t (Steps-gets Same-IsOrder (λ x. may_correct x existing a)) h3 in
    let (u, granted, h5) = skip _ _ s by t (Steps-require Same-IsOrder b _) h4 in
    (
      a,
      sym (return-eq-ok (some a) by s t h5).0,
      gets-eq-ok (λ x. may_correct x existing a) b s s asked ∙ (require-eq-ok b _ s u s granted).0,
    )

-- A task that is not terminal, or an actor that may correct it.
abbrev pub Allowed : Store → TaskRecord → Option String → Type 0
Allowed s existing by =
    (is_terminal existing.status ≡ false)
    ⊎ ((a : String) × (by ≡ some a) × (may_correct s existing a ≡ true))

authorized :
    (existing : TaskRecord) (actor by : Option String) (s t : Store)
    → authorize existing actor s ≡ ok (by, t)
    → Allowed s existing by
unfolding authorize ◌>>=◌
authorized existing actor by s t h = elim (Bool-cases (is_terminal existing.status)) [
  | inl terminal ↦ inr (corrected existing actor by s t (rw terminal at h))
  | inr running ↦ inl running
]

-- The row that an edit returns is the row as edited, and the log is as it was.
edit_row-eq-ok :
    (id title : String) (priority : TaskPriority) (description required_role : Option String)
    (now : String) (s : Store) (existing updated : TaskRecord) (t : Store)
    → find_by_id s.tasks id ≡ some existing
    → edit_row id title priority description required_role now s ≡ ok (updated, t)
    → (updated ≡ edited_row title priority description required_role now existing)
      × (t.events ≡ s.events)
unfolding edit_row edited_row
edit_row-eq-ok id title priority description required_role now s existing updated t m h =
    let write = edited_row title priority description required_role now in
    let (found, rows) =
      found_row id (find_by_id (update_where (λ r. r.id == id) write s.tasks) id) _ updated t h in
    let e = find_by_id-update_where (λ r. r.id == id) write s.tasks id (λ r. refl) in
    let here = id-find_by_id s.tasks id existing m in
    (ground (arith, e, m, found, eq_iff existing.id id, here), ap (λ x. x.events) (sym rows))

append_event-eq-ok :
    (e : Event) (s : Store) (u : Unit {0}) (t : Store)
    → append_event e s ≡ ok (u, t)
    → t.events ≡ s.events ++ e ∷ []
unfolding append_event
append_event-eq-ok e s u t h =
    let logged : (record s { events = s.events ++ e ∷ [] }) ≡ t = ground (arith, h) in
    ap (λ x. x.events) (sym logged)

-- The task with what an edit gives in place of what it had.
abbrev pub revised : Edit → Env → TaskRecord → TaskRecord
revised edit env existing = record existing {
  title = or_default existing.title (map_trim edit.title);
  priority = or_default existing.priority edit.priority;
  description = apply_optional edit.description existing.description;
  required_role = apply_optional edit.required_role existing.required_role;
  updated_at = env.now;
}

-- The event of an edit by an actor.
abbrev pub edit_event : Edit → Env → TaskRecord → Option String → Event
edit_event edit env existing by = record {
  event_type = if is_terminal existing.status then "task.corrected" else "task.edited";
  actor_agent_id = by;
  task_id = existing.id;
  payload = edited existing (revised edit env existing) (is_terminal existing.status);
  occurred_at = env.now;
}

-- What an edit that succeeds was allowed to do, and what it leaves.
pub record Edited (edit : Edit) (env : Env) (existing updated : TaskRecord) (s t : Store)
    : Type 0 where
  pub forced : edit.force ≡ is_terminal existing.status
  pub row : updated ≡ revised edit env existing
  pub recorded :
      (by : Option String) × Allowed s existing by
      × (t.events ≡ s.events ++ edit_event edit env existing by ∷ [])

write_edit-eq-ok :
    (edit : Edit) (env : Env) (existing : TaskRecord) (actor : Option String) (s : Store)
    (updated : TaskRecord) (t : Store)
    → find_by_id s.tasks existing.id ≡ some existing
    → write_edit edit env existing actor s ≡ ok (updated, t)
    → (updated ≡ revised edit env existing)
      × (t.events ≡ s.events ++ edit_event edit env existing actor ∷ [])
unfolding write_edit edited_row
write_edit-eq-ok edit env existing actor s updated t m h =
    let (row, s1, put, h1) = >>=-eq-ok _ _ s updated t h in
    let (u, s2, log, h2) = >>=-eq-ok _ _ s1 updated t h1 in
    let (same, rows) = return-eq-ok row updated s2 t h2 in
    let (r, events) = edit_row-eq-ok _ _ _ _ _ _ s existing row s1 m put in
    (
      sym same ∙ r,
      ap (λ x. x.events) (sym rows)
          ∙ append_event-eq-ok _ s1 u s2 log
          ∙ ap
              (λ l.
                l
                ++ record (edit_event edit env existing actor) {
                  payload = edited existing row (is_terminal existing.status);
                }
                  ∷ [])
              events
          ∙ ap
              (λ x.
                s.events
                ++ record (edit_event edit env existing actor) {
                  payload = edited existing x (is_terminal existing.status);
                }
                  ∷ [])
              r,
    )

edit_existing-Edited :
    (edit : Edit) (env : Env) (actor : Option String) (existing : TaskRecord) (s : Store)
    (updated : TaskRecord) (t : Store)
    → find_by_id s.tasks existing.id ≡ some existing
    → edit_existing edit env actor existing s ≡ ok (updated, t)
    → Edited edit env existing updated s t
unfolding edit_existing
edit_existing-Edited edit env actor existing s updated t m h =
    let (_, first, h1) = skip _ _ s updated t (Steps-require Same-IsOrder _ _) h in
    let (_, second, h2) = skip _ _ s updated t (Steps-require Same-IsOrder _ _) h1 in
    let (by, granted, h3) = skip _ _ s updated t (authorize-Same existing actor) h2 in
    let (row, events) = write_edit-eq-ok edit env existing by s updated t m h3 in
    let p = (require-eq-ok _ _ s _ s first).0 in
    let q = (require-eq-ok _ _ s _ s second).0 in
    record {
      forced = agree edit.force (is_terminal existing.status) p q;
      row = row;
      recorded = (by, authorized existing actor by s s granted, events);
    }
  where
    agree : (f t : Bool) → (not f || t) ≡ true → (not t || f) ≡ true → f ≡ t
    agree f t p q = ground (arith, p, q)

-- An edit that succeeds, where no two tasks share an id, resolved its task without changing a row, was
-- forced exactly when the task is terminal, returns the task with only what the edit gives and the time
-- changed, and appends one event with the row before and after, whose actor may correct the task if it
-- is terminal.
pub edit_task-Edited :
    (ref : String) (edit : Edit) (actor_ref : Option String) (env : Env) (s t : Store)
    (updated : TaskRecord)
    → Unique (ids s.tasks)
    → edit_task ref edit actor_ref env s ≡ ok (updated, t)
    → (existing : TaskRecord) × (resolve_task ref s ≡ ok (existing, s))
      × Edited edit env existing updated s t
unfolding edit_task
edit_task-Edited ref edit actor_ref env s t updated u h =
    let (_, _, h1) = skip _ _ s updated t (Steps-lift Same-IsOrder _) h in
    let (_, _, h2) = skip _ _ s updated t (Steps-lift Same-IsOrder _) h1 in
    let (actor, _, h3) = skip _ _ s updated t (Steps-gets Same-IsOrder _) h2 in
    let (existing, found, h4) = skip _ _ s updated t (resolve_task-Same ref) h3 in
    (
      existing,
      found,
      edit_existing-Edited edit env actor existing s updated t
          (find_by_id-Unique s.tasks existing u (resolve_task-In ref s existing s found)) h4,
    )
