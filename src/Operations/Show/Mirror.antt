-- ===== src/Operations/Show/Mirror.antt =====
-- `show_task` in both directions.
use carryctx.Base.{
  String, some, List, [], ◌∷◌, keep, ◌≡◌, ◌↔◌, inl, inr, refl, sym, ap, ◌∙◌, subst, arith, ◌==◌,
  eq_iff, Option-cases, In, In-keep, ok,
}
use carryctx.Dependency.{DependencyKind, DependencyEdge}
use carryctx.Store.Same.{skip}
use carryctx.Store.{Store, TaskRecord, ◌>>=◌, gets, find_by_id, list_all_for_project}
use carryctx.Store.Rows.{ids, Unique, id-find_by_id, find_by_id-Unique}
use carryctx.Operations.{resolve_task}
use carryctx.Operations.Claim.Exclusive.{resolve_task-In}
use carryctx.Operations.Reads.{resolve_task-Same}
use carryctx.Operations.Show.{
  DependencySummaryEntry, entry_of, related, list_for_task, TaskWithDependencies, summary,
  show_task,
}

-- An edge whose end is a task that is there.
abbrev Leads :
    (DependencyEdge → String)
    → List TaskRecord
    → List DependencyEdge
    → DependencySummaryEntry
    → Type 0
Leads end tasks edges entry =
    (e : DependencyEdge) × (t : TaskRecord) × In e edges
    × (find_by_id tasks (end e) ≡ some t)
    × (entry ≡ entry_of e.kind t)

related-Leads :
    (end : DependencyEdge → String) (tasks : List TaskRecord) (edges : List DependencyEdge)
    (entry : DependencySummaryEntry)
    → In entry (related end tasks edges)
    → Leads end tasks edges entry
unfolding related
related-Leads end tasks [] entry m = absurd m
related-Leads end tasks (e ∷ edges) entry m = elim (Option-cases (find_by_id tasks (end e))) [
  | inl gone ↦
      let (f, t, there, found, same) = related-Leads end tasks edges entry (rw gone at m) in
      (f, t, inr there, found, same)
  | inr (t, found) ↦ elim (rw found at m) [
    | inl here ↦ (e, t, inl refl, found, here)
    | inr later ↦
        let (f, u, there, found', same) = related-Leads end tasks edges entry later in
        (f, u, inr there, found', same)
  ]
]

Leads-related :
    (end : DependencyEdge → String) (tasks : List TaskRecord) (edges : List DependencyEdge)
    (e : DependencyEdge) (t : TaskRecord)
    → In e edges
    → find_by_id tasks (end e) ≡ some t
    → In (entry_of e.kind t) (related end tasks edges)
unfolding related
Leads-related end tasks [] e t m found = absurd m
Leads-related end tasks (f ∷ edges) e t m found = elim m [
  | inl here ↦ rw (sym here) (rw found (inl refl))
  | inr later ↦ elim (Option-cases (find_by_id tasks (end f))) [
    | inl gone ↦ rw gone (Leads-related end tasks edges e t later found)
    | inr (u, there) ↦ rw there (inr (Leads-related end tasks edges e t later found))
  ]
]

module _ (s : Store) (unique : Unique (ids s.tasks)) (a b : TaskRecord) (a_there : In a s.tasks)
    (b_there : In b s.tasks) (kind : DependencyKind) where
  -- From one end of an edge to the other.
  across :
      (near far : DependencyEdge → String)
      → In
          (entry_of kind b)
          (related far s.tasks (keep (λ e. near e == a.id) (list_all_for_project s)))
      → In
          (entry_of kind a)
          (related near s.tasks (keep (λ e. far e == b.id) (list_all_for_project s)))
  across near far m =
      let (e, t, kept, found, same) =
        related-Leads far s.tasks (keep (λ e. near e == a.id) (list_all_for_project s))
          (entry_of kind b) m in
      let (there, at) = (In-keep (λ e. near e == a.id) e (list_all_for_project s)).0 kept in
      let near_a : near e ≡ a.id = (eq_iff (near e) a.id).0 at in
      let far_b : far e ≡ b.id =
        sym (id-find_by_id s.tasks (far e) t found)
        ∙ ap (λ (x : DependencySummaryEntry). x.id) (sym same) in
      subst
        (λ k.
          In (entry_of k a)
            (related near s.tasks (keep (λ e. far e == b.id) (list_all_for_project s))))
        (ap (λ (x : DependencySummaryEntry). x.kind) (sym same))
        (Leads-related near s.tasks (keep (λ e. far e == b.id) (list_all_for_project s)) e a
          ((In-keep (λ e. far e == b.id) e (list_all_for_project s)).1
            (there, (eq_iff (far e) b.id).1 far_b))
          (ap (find_by_id s.tasks) near_a ∙ find_by_id-Unique s.tasks a unique a_there))

shown :
    (ref : String) (s t : Store) (view : TaskWithDependencies)
    → show_task ref s ≡ ok (view, t)
    → (task : TaskRecord) × In task s.tasks × (view ≡ summary task s)
unfolding show_task ◌>>=◌
shown ref s t view h =
    let (task, found, rest) =
      skip (resolve_task ref) (λ task. gets (summary task)) s view t (resolve_task-Same ref) h in
    (task, resolve_task-In ref s task s found, ground (arith, rest))

-- Of two tasks that are shown, where no two tasks share an id, the first depends on the second by a kind of edge
-- exactly when the second blocks the first by that kind, each with the other's id, display id, title and status.
pub show_task-mirror :
    (s t u : Store) (ref other : String) (a b : TaskWithDependencies) (kind : DependencyKind)
    → Unique (ids s.tasks)
    → show_task ref s ≡ ok (a, t)
    → show_task other s ≡ ok (b, u)
    → In (entry_of kind b.task) a.depends_on ↔ In (entry_of kind a.task) b.blocks
unfolding list_for_task
show_task-mirror s t u ref other a b kind unique h k =
    let (x, x_there, a_is) = shown ref s t a h in
    let (y, y_there, b_is) = shown other s u b k in
    subst
      (λ (v : TaskWithDependencies).
        In (entry_of kind b.task) v.depends_on ↔ In (entry_of kind v.task) b.blocks)
      (sym a_is)
      (subst
        (λ (v : TaskWithDependencies).
          In (entry_of kind v.task) (summary x s).depends_on ↔ In (entry_of kind x) v.blocks)
        (sym b_is)
        (
          across s unique x y x_there y_there kind (λ e. e.task_id) (λ e. e.prerequisite_id),
          across s unique y x y_there x_there kind (λ e. e.prerequisite_id) (λ e. e.task_id),
        ))
