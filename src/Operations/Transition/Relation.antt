-- ===== src/Operations/Transition/Relation.antt =====
-- How a transition may move the tasks beside the one that it is about, and the statements that move none.
use carryctx.Base.{
  String, Option, none, some, ◌≡◌, ◌≢◌, ◌⊎◌, refl, sym, ap, subst, ◌∙◌, arith, inl, inr,
}
use carryctx.Task.{TaskStatus, planned, ready}
use carryctx.Cleanup.{CleanupRequest}
use carryctx.Store.{
  Store, TaskRecord, Event, find_by_id, update_status, append_event, create_cleanup,
}
use carryctx.Store.Rows.{
  tasks-append_event, tasks-create_cleanup, tasks-update_status, find_by_id-update_status,
}
use carryctx.Store.Steps.{Steps, IsOrder}

-- A task that went from planned to ready, without an owner before and after.
pub record Promoted (before after : Option TaskRecord) : Type 0 where
  pub old : TaskRecord
  pub new : TaskRecord
  pub was : before ≡ some old
  pub is_now : after ≡ some new
  pub was_planned : old.status ≡ planned
  pub was_free : old.owner_agent_id ≡ none
  pub now_ready : new.status ≡ ready
  pub now_free : new.owner_agent_id ≡ none

-- Every task but one is as it was, or was promoted.
pub record Others (but : String) (s t : Store) : Type 0 where
  pub task :
      (id : String)
      → id ≢ but
      → (find_by_id s.tasks id ≡ find_by_id t.tasks id)
        ⊎ Promoted (find_by_id s.tasks id) (find_by_id t.tasks id)

once : (a b c : Option TaskRecord) → Promoted a b → Promoted b c → ⊥
once a b c p q = ground (arith, p.is_now, q.was, p.now_ready, q.was_planned)

pub Others-IsOrder : (but : String) → IsOrder (Others but)
Others-IsOrder but = record {
  refl_at = λ s. record { task = λ id ne. inl refl };
  trans_at = λ s t u p q. record {
    task = λ id ne. elim (p.task id ne) [
      | inl a ↦ elim (q.task id ne) [
        | inl b ↦ inl (a ∙ b)
        | inr b ↦ inr (subst (λ x. Promoted x (find_by_id u.tasks id)) (sym a) b)
      ]
      | inr a ↦ elim (q.task id ne) [
        | inl b ↦ inr (subst (Promoted (find_by_id s.tasks id)) b a)
        | inr b ↦
            absurd
              (once (find_by_id s.tasks id) (find_by_id t.tasks id) (find_by_id u.tasks id) a b)
      ]
    ];
  };
}

module _ (but : String) where
  pub same_tasks : (s t : Store) → s.tasks ≡ t.tasks → Others but s t
  same_tasks s t e = record { task = λ id ne. inl (ap (λ l. find_by_id l id) e) }

  pub append_event-Others : (e : Event) → Steps (Others but) (append_event e)
  append_event-Others e = record { at = λ s u t h. same_tasks s t (tasks-append_event e s u t h) }

  pub create_cleanup-Others : (r : CleanupRequest) → Steps (Others but) (create_cleanup r)
  create_cleanup-Others r = record {
    at = λ s u t h. same_tasks s t (tasks-create_cleanup r s u t h);
  }

  pub update_status-Others :
      (status : TaskStatus) (owner : Option String) (now : String)
      → Steps (Others but) (update_status but status owner now)
  update_status-Others status owner now = record {
    at = λ s a t h. record {
      task = λ id ne. inl (
          sym (
            ap (λ l. find_by_id l id) (tasks-update_status but status owner now s a t h)
            ∙ find_by_id-update_status but id status owner now s.tasks ne));
    };
  }
