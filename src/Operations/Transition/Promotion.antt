-- ===== src/Operations/Transition/Promotion.antt =====
-- The promotion of dependents moves a task from planned to ready or leaves it.
use carryctx.Base.{
  String, true, Option, none, some, List, [], ◌∷◌, ◌≡◌, refl, sym, ap, subst, ◌∙◌, arith, ok,
  Result, inl, inr, Bool-cases, Text-cases, ◌==◌, eq_refl,
}
use carryctx.Task.{TaskStatus-discrete, planned, ready}
use carryctx.Error.{CarryCtxError}
use carryctx.Store.{Store, TaskRecord, gets, find_by_id, update_status, status_eq, with_status}
use carryctx.Store.Rows.{
  tasks-update_status, find_by_id-update_status, find_by_id-update_where, id-find_by_id,
  id-with_status,
}
use carryctx.Store.Same.{Same-IsOrder, skip}
use carryctx.Operations.{Env}
use carryctx.Operations.Transition.{
  promotable, promote_one, promote_found, promote_id, promote_all, unblock_dependent,
}
use carryctx.Store.Steps.{gets-eq-ok, Steps, >>=-eq-ok, Steps-bind, Steps-return, Steps-gets}
use mathlib.Core.Bool.{decide_iff}
use carryctx.Operations.Transition.Relation.{Promoted, Others, Others-IsOrder, append_event-Others}

ok_same :
    (s t : Store) (u : Unit {0})
    → ◌≡◌ {A = Result CarryCtxError (Unit {0} × Store)} (ok (tt, s)) (ok (u, t))
    → s ≡ t
ok_same s t u h = ground (arith, h)

module _ (but : String) where
  Promoted-at :
      (now : String) (d : TaskRecord) (s : Store) (updated : TaskRecord) (t : Store)
      → find_by_id s.tasks d.id ≡ some d
      → d.status ≡ planned
      → d.owner_agent_id ≡ none
      → update_status d.id ready none now s ≡ ok (updated, t)
      → Promoted (find_by_id s.tasks d.id) (find_by_id t.tasks d.id)
  unfolding with_status
  Promoted-at now d s updated t f p o h =
      let e =
        find_by_id-update_where (λ r. r.id == d.id) (with_status ready none now) s.tasks d.id
          (id-with_status ready none now) in
      record {
        old = d;
        new = with_status ready none now d;
        was = f;
        is_now =
            ap (λ l. find_by_id l d.id) (tasks-update_status d.id ready none now s updated t h)
            ∙ ground (arith, e, f, eq_refl d.id);
        was_planned = p;
        was_free = o;
        now_ready = refl;
        now_free = refl;
      }

  update-promoted :
      (now : String) (d : TaskRecord) (s : Store) (updated : TaskRecord) (t : Store)
      → find_by_id s.tasks d.id ≡ some d
      → d.status ≡ planned
      → d.owner_agent_id ≡ none
      → update_status d.id ready none now s ≡ ok (updated, t)
      → Others but s t
  update-promoted now d s updated t f p o h = record {
    task = λ id ne. elim (Text-cases id d.id) [
      | inl same ↦ inr (
          subst (λ x. Promoted (find_by_id s.tasks x) (find_by_id t.tasks x)) (sym same)
            (Promoted-at now d s updated t f p o h))
      | inr differ ↦ inl (
          sym (
            ap (λ l. find_by_id l id) (tasks-update_status d.id ready none now s updated t h)
            ∙ find_by_id-update_status d.id id ready none now s.tasks differ))
    ];
  }

  promotable_facts :
      (s : Store) (d : TaskRecord)
      → promotable s d ≡ true
      → (d.status ≡ planned) × (d.owner_agent_id ≡ none)
  unfolding promotable
  promotable_facts s d h =
      let b : (status_eq d.status planned ≡ true) × (d.owner_agent_id ≡ none) = ground (arith, h) in
      ((decide_iff (TaskStatus-discrete d.status planned)).0 b.0, b.1)

  promote_one-Others :
      (env : Env) (actor : Option String) (by : String) (d : TaskRecord) (s : Store) (u : Unit {0})
      (t : Store)
      → find_by_id s.tasks d.id ≡ some d
      → promote_one env actor by d s ≡ ok (u, t)
      → Others but s t
  unfolding promote_one unblock_dependent
  promote_one-Others env actor by d s u t f h = elim (Bool-cases (promotable s d)) [
    | inl able ↦
        let (p, o) = promotable_facts s d able in
        let (row, s1, wrote, rest) =
          >>=-eq-ok (update_status d.id ready none env.now) _ s u t (rw able at h) in
        (Others-IsOrder but).trans_at s s1 t (update-promoted env.now d s row s1 f p o wrote)
          ((append_event-Others but _).at s1 u t rest)
    | inr unable ↦
        subst (Others but s) (ok_same s t u (rw unable at h)) ((Others-IsOrder but).refl_at s)
  ]

  promote_found-Others :
      (env : Env) (actor : Option String) (by id : String) (found : Option TaskRecord) (s : Store)
      (u : Unit {0}) (t : Store)
      → find_by_id s.tasks id ≡ found
      → promote_found env actor by found s ≡ ok (u, t)
      → Others but s t
  unfolding promote_found
  promote_found-Others env actor by id none s u t f h =
      (Steps-return (Others-IsOrder but) tt).at s u t h
  promote_found-Others env actor by id (some d) s u t f h =
      promote_one-Others env actor by d s u t
        (subst (λ x. find_by_id s.tasks x ≡ some d) (sym (id-find_by_id s.tasks id d f)) f) h

  promote_id-Others :
      (env : Env) (actor : Option String) (by id : String)
      → Steps (Others but) (promote_id env actor by id)
  unfolding promote_id
  promote_id-Others env actor by id = record {
    at = λ s u t h.
        let (found, got, rest) =
          skip (gets (λ x. find_by_id x.tasks id)) (promote_found env actor by) s u t
            (Steps-gets Same-IsOrder _) h in
        promote_found-Others env actor by id found s u t
          (gets-eq-ok (λ x. find_by_id x.tasks id) found s s got) rest;
  }

  pub promote_all-Others :
      (env : Env) (actor : Option String) (by : String) (ids : List String)
      → Steps (Others but) (promote_all env actor by ids)
  unfolding promote_all
  promote_all-Others env actor by [] = Steps-return (Others-IsOrder but) tt
  promote_all-Others env actor by (id ∷ ids) =
      Steps-bind (Others-IsOrder but) (promote_id env actor by id)
        (λ _. promote_all env actor by ids) (promote_id-Others env actor by id)
        (λ _. promote_all-Others env actor by ids)
