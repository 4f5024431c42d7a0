-- ===== src/Operations/Create/Born.antt =====
-- The row that `create_task` answers, and the edges it starts with.
use carryctx.Base.{
  ℕ, String, Bool, true, false, not, ◌||◌, Option, none, some, List, [], ◌∷◌, ◌++◌, map, All, ◌≡◌,
  ◌⊎◌, inl, inr, refl, sym, ap, ◌∙◌, subst, arith, ok, any, ◌==◌, Bool-cases,
}
use carryctx.Task.{
  TaskStatus, planned, ready, prerequisite_settled, initial_status, TaskStatus-discrete,
}
use carryctx.Dependency.{DependencyEdge, strong}
use carryctx.Store.{
  Store, TaskRecord, Event, insert_task, append_event, add_edge, allocate_display_id,
  list_all_for_project,
}
use carryctx.Store.Steps.{
  >>=-eq-ok, return-eq-ok, require-eq-ok, Steps-require, Steps-lift, Steps-gets,
}
use carryctx.Store.Same.{Same-IsOrder, skip}
use carryctx.Operations.{Env}
use carryctx.Operations.Create.{
  Creation, resolve_all, prepare, link_new, link_all, write_task, finish_create, create_task, born,
  or_default, all_settled, is_status, can_be_born,
}
use carryctx.Operations.Create.Grows.{
  resolve_team-Same, resolve_optional-Same, resolve_all-Same, check_edges-Same,
}
use mathlib.Core.List.{append-nil, append_assoc, map-append}

-- The edges of a new task.
abbrev pub edges_to : String → List TaskRecord → List DependencyEdge
edges_to task ps = map (λ p. record { task_id = task; prerequisite_id = p.id; kind = strong }) ps

logged :
    (e : Event) (s : Store) (u : Unit {0}) (t : Store)
    → append_event e s ≡ ok (u, t)
    → (t.tasks ≡ s.tasks) × (list_all_for_project t ≡ list_all_for_project s)
unfolding append_event list_all_for_project
logged e s u t h =
    let q : (record s { events = s.events ++ e ∷ [] }) ≡ t = ground (arith, h) in
    (ap (λ x. x.tasks) (sym q), ap list_all_for_project (sym q))

added :
    (id : String) (e : DependencyEdge) (s : Store) (u : Unit {0}) (t : Store)
    → add_edge id e s ≡ ok (u, t)
    → (t.tasks ≡ s.tasks) × (list_all_for_project t ≡ list_all_for_project s ++ e ∷ [])
unfolding add_edge list_all_for_project
added id e s u t h =
    let q : (record s { dependencies = s.dependencies ++ record { id = id; edge = e } ∷ [] }) ≡ t =
      ground (arith, h) in
    (
      ap (λ x. x.tasks) (sym q),
      ap list_all_for_project (sym q)
          ∙ map-append (λ r. r.edge) s.dependencies (record { id = id; edge = e } ∷ []),
    )

module _ (input : Creation) (env : Env) (edge_id : String → String) where
  link_all-eq-ok :
      (actor : Option String) (task : TaskRecord) (ps : List TaskRecord) (s : Store) (u : Unit {0})
      (t : Store)
      → link_all input env edge_id actor task ps s ≡ ok (u, t)
      → (t.tasks ≡ s.tasks)
        × (list_all_for_project t ≡ list_all_for_project s ++ edges_to task.id ps)
  unfolding link_all link_new
  link_all-eq-ok actor task [] s u t h =
      let e = (return-eq-ok tt u s t h).1 in
      (
        ap (λ x. x.tasks) (sym e),
        ap list_all_for_project (sym e) ∙ sym (append-nil (list_all_for_project s)),
      )
  link_all-eq-ok actor task (p ∷ ps) s u t h =
      let (_, s2, one, rest) = >>=-eq-ok _ _ s u t h in
      let (_, s1, edge, log) = >>=-eq-ok _ _ s _ s2 one in
      let (a, b) = added _ _ s _ s1 edge in
      let (c, d) = logged _ s1 _ s2 log in
      let (f, g) = link_all-eq-ok actor task ps s2 u t rest in
      (
        f ∙ c ∙ a,
        g
            ∙ ap (λ l. l ++ edges_to task.id ps) (d ∙ b)
            ∙ append_assoc (list_all_for_project s)
                (record { task_id = task.id; prerequisite_id = p.id; kind = strong } ∷ [])
                (edges_to task.id ps),
      )

  insert_task-eq-ok :
      (r : TaskRecord) (s : Store) (a : TaskRecord) (t : Store)
      → insert_task r s ≡ ok (a, t)
      → (any (λ x. x.id == r.id || x.display_id == r.display_id) s.tasks ≡ false)
        × (r ≡ a)
        × (t.tasks ≡ r ∷ s.tasks)
        × (list_all_for_project t ≡ list_all_for_project s)
  unfolding insert_task list_all_for_project
  insert_task-eq-ok r s a t h =
      elim (Bool-cases (any (λ x. x.id == r.id || x.display_id == r.display_id) s.tasks)) [
        | inl taken ↦ ground (arith, taken, h)
        | inr free ↦
            let q : (record s { tasks = r ∷ s.tasks }) ≡ t = ground (arith, free, h) in
            (
              free,
              ground (arith, free, h),
              ap (λ x. x.tasks) (sym q),
              ap list_all_for_project (sym q),
            )
      ]

-- A task in a status that the code lets it be born in, which is ready only if no prerequisite is open.
all_settled-All :
    (ps : List TaskRecord)
    → all_settled ps ≡ true
    → All (λ p. prerequisite_settled p.status ≡ true) ps
all_settled-All [] h = tt
all_settled-All (p ∷ ps) h = elim (Bool-cases (prerequisite_settled p.status)) [
  | inl settled ↦ (settled, all_settled-All ps (rw settled at h))
  | inr pending ↦ absurd (ground (arith, pending, h))
]

or_false : (a : Bool) → (a || false) ≡ true → a ≡ true
or_false a h = ground (arith, h)

born_status :
    (given : Option TaskStatus) (ps : List TaskRecord)
    → (all_settled ps || not (is_status ready given)) ≡ true
    → can_be_born given ≡ true
    → ((or_default (initial_status (all_settled ps) false) given ≡ planned)
        ⊎ (or_default (initial_status (all_settled ps) false) given ≡ ready))
      × (or_default (initial_status (all_settled ps) false) given ≡ ready
          → All (λ p. prerequisite_settled p.status ≡ true) ps)
unfolding initial_status TaskStatus-discrete mathlib.Core.Bool.decide
born_status none ps p q = elim (Bool-cases (all_settled ps)) [
  | inl y ↦ (inr (ground (arith, y)), λ _. all_settled-All ps y)
  | inr n ↦ (inl (ground (arith, n)), λ e. ground (arith, n, e))
]
born_status (some planned) ps p q = (inl refl, λ e. ground (arith, e))
born_status (some ready) ps p q = (inr refl, λ _. all_settled-All ps (or_false (all_settled ps) p))
born_status (some _) ps p q = ground (arith, q)

-- What a creation answers and leaves.
pub record Born (input : Creation) (env : Env) (ps : List TaskRecord) (task : TaskRecord)
    (s t : Store) : Type 0 where
  pub id : task.id ≡ env.new_id
  pub unused : any (λ x. x.id == task.id || x.display_id == task.display_id) s.tasks ≡ false
  pub status : (task.status ≡ planned) ⊎ (task.status ≡ ready)
  pub gate : task.status ≡ ready → All (λ p. prerequisite_settled p.status ≡ true) ps
  pub row : t.tasks ≡ task ∷ s.tasks
  pub edges : list_all_for_project t ≡ list_all_for_project s ++ edges_to task.id ps

allocated :
    (prefix : String) (s : Store) (n : ℕ) (t : Store)
    → allocate_display_id prefix s ≡ ok (n, t)
    → (t.tasks ≡ s.tasks) × (list_all_for_project t ≡ list_all_for_project s)
unfolding allocate_display_id list_all_for_project
allocated prefix s n t h =
    let q : (record s { sequences = t.sequences }) ≡ t = ground (arith, h) in
    (ap (λ x. x.tasks) (sym q), ap list_all_for_project (sym q))

module _ (input : Creation) (env : Env) (edge_id : String → String) where
  write_task-eq-ok :
      (display_id : String) (settled : Bool) (owner actor team : Option String) (s : Store)
      (task : TaskRecord) (t : Store)
      → write_task input env edge_id display_id settled owner actor team s ≡ ok (task, t)
      → (any (λ x. x.id == task.id || x.display_id == task.display_id) s.tasks ≡ false)
        × (born input env display_id settled owner team ≡ task)
        × (t.tasks ≡ task ∷ s.tasks)
        × (list_all_for_project t ≡ list_all_for_project s)
  unfolding write_task
  write_task-eq-ok display_id settled owner actor team s task t h =
      let r = born input env display_id settled owner team in
      let (a, s1, put, h1) = >>=-eq-ok _ _ s task t h in
      let (u, s2, log, h2) = >>=-eq-ok _ _ s1 task t h1 in
      let (same, rows) = return-eq-ok a task s2 t h2 in
      let (free, is, tasks, edges) = insert_task-eq-ok input env edge_id r s a s1 put in
      let (c, d) = logged _ s1 u s2 log in
      let row = is ∙ same in
      (
        subst
            (λ (x : TaskRecord).
              any (λ y. y.id == x.id || y.display_id == x.display_id) s.tasks ≡ false)
            row free,
        row,
        ap (λ x. x.tasks) (sym rows) ∙ c ∙ tasks ∙ ap (λ x. x ∷ s.tasks) row,
        ap list_all_for_project (sym rows) ∙ d ∙ edges,
      )

  finish_create-Born :
      (ps : List TaskRecord) (s : Store) (task : TaskRecord) (t : Store)
      → finish_create input env edge_id ps s ≡ ok (task, t)
      → Born input env ps task s t
  unfolding finish_create
  finish_create-Born ps s task t h =
      let (_, gate, h1) = skip _ _ s task t (Steps-require Same-IsOrder _ _) h in
      let (_, valid, h2) = skip _ _ s task t (Steps-require Same-IsOrder _ _) h1 in
      let (n, s1, number, h3) = >>=-eq-ok _ _ s task t h2 in
      let (owner, _, h4) = skip _ _ s1 task t (resolve_optional-Same input.owner_agent_id) h3 in
      let (actor, _, h5) = skip _ _ s1 task t (resolve_optional-Same input.actor_agent_id) h4 in
      let (team, _, h6) = skip _ _ s1 task t (resolve_team-Same input.team_id) h5 in
      let (new, s2, put, h7) = >>=-eq-ok _ _ s1 task t h6 in
      let (u, s3, links, h8) = >>=-eq-ok _ _ s2 task t h7 in
      let (same, rows) = return-eq-ok new task s3 t h8 in
      let (a, b) = allocated _ s n s1 number in
      let (free, row, tasks, edges) = write_task-eq-ok _ _ owner actor team s1 new s2 put in
      let (c, d) = link_all-eq-ok input env edge_id actor new ps s2 u s3 links in
      let (status, settled) =
        born_status input.status ps (require-eq-ok _ _ s _ s gate).0
          (require-eq-ok _ _ s _ s valid).0 in
      let made = row ∙ same in
      record {
        id = ap (λ x. x.id) (sym made);
        unused =
            subst (λ l. any (λ y. y.id == task.id || y.display_id == task.display_id) l ≡ false) a
              (subst
                (λ (x : TaskRecord).
                  any (λ y. y.id == x.id || y.display_id == x.display_id) s1.tasks ≡ false)
                same free);
        status = subst (λ (x : TaskRecord). (x.status ≡ planned) ⊎ (x.status ≡ ready)) made status;
        gate =
            subst
              (λ (x : TaskRecord).
                x.status ≡ ready → All (λ p. prerequisite_settled p.status ≡ true) ps)
              made settled;
        row =
            ap (λ x. x.tasks) (sym rows)
            ∙ c
            ∙ tasks
            ∙ ap (λ x. x ∷ s1.tasks) same
            ∙ ap (λ l. task ∷ l) a;
        edges =
            ap list_all_for_project (sym rows)
            ∙ d
            ∙ ap (λ l. l ++ edges_to new.id ps) (edges ∙ b)
            ∙ ap (λ (x : TaskRecord). list_all_for_project s ++ edges_to x.id ps) same;
      }

resolved :
    (input : Creation) (task : String) (s : Store) (ps : List TaskRecord) (t : Store)
    → prepare input task s ≡ ok (ps, t)
    → (resolve_all input.depends_on s ≡ ok (ps, s)) × (s ≡ t)
unfolding prepare
resolved input task s ps t h =
    let (_, _, h1) = skip _ _ s ps t (Steps-require Same-IsOrder _ _) h in
    let (_, _, h2) = skip _ _ s ps t (Steps-lift Same-IsOrder _) h1 in
    let (_, _, h3) = skip _ _ s ps t (Steps-lift Same-IsOrder _) h2 in
    let (found, answer, h4) = skip _ _ s ps t (resolve_all-Same input.depends_on) h3 in
    let (edges, _, h5) = skip _ _ s ps t (Steps-gets Same-IsOrder list_all_for_project) h4 in
    let (u, _, h6) = skip _ _ s ps t (check_edges-Same edges task found) h5 in
    let (same, rows) = return-eq-ok found ps s t h6 in
    (subst (λ x. resolve_all input.depends_on s ≡ ok (x, s)) same answer, rows)

-- A creation that succeeds resolved every prerequisite without changing a row, and answers a task with
-- the new id, whose id and display id no earlier task has, planned or ready, and ready only if every
-- prerequisite is settled; the tasks are that one before the earlier ones, and the edges are the earlier
-- ones and then one from the task to each prerequisite.
pub create_task-Born :
    (input : Creation) (env : Env) (edge_id : String → String) (s : Store) (task : TaskRecord)
    (t : Store)
    → create_task input env edge_id s ≡ ok (task, t)
    → (ps : List TaskRecord) × (resolve_all input.depends_on s ≡ ok (ps, s))
      × Born input env ps task s t
unfolding create_task
create_task-Born input env edge_id s task t h =
    let (ps, s1, prepared, rest) = >>=-eq-ok _ _ s task t h in
    let (found, same) = resolved input env.new_id s ps s1 prepared in
    (
      ps,
      found,
      finish_create-Born input env edge_id ps s task t
          (subst (λ x. finish_create input env edge_id ps x ≡ ok (task, t)) (sym same) rest),
    )
