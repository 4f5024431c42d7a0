-- ===== src/Store/Rows.antt =====
-- How the statements change the rows: which task a write reaches, and what a search finds after it.
use carryctx.Base.{
  ◌≢◌, ◌∙◌, sym, In, contains, String, Bool, true, false, Option, none, some, List, [], ◌∷◌, map,
  ◌≡◌, refl, ap, arith, ◌==◌, eq_iff, eq_refl, find, if◌then◌else◌, Bool-cases, Option-cases, ok,
  inl, inr,
}
use carryctx.Task.{TaskStatus}
use carryctx.Cleanup.{CleanupRequest}
use carryctx.Store.{
  Event, append_event, create_cleanup, Store, ◌>>=◌, or_not_found, update_status, TaskRecord,
  find_by_id, update_where, with_status,
}

-- The ids of the tasks, in the order of the rows.
abbrev pub ids : List TaskRecord → List String
ids tasks = map (λ t. t.id) tasks

pub ids-update_where :
    (p : TaskRecord → Bool) (f : TaskRecord → TaskRecord) (tasks : List TaskRecord)
    → ((t : TaskRecord) → (f t).id ≡ t.id)
    → ids (update_where p f tasks) ≡ ids tasks
unfolding update_where
ids-update_where p f [] h = refl
ids-update_where p f (t ∷ tasks) h = ground (arith, h t, ids-update_where p f tasks h)

-- After an update that keeps ids, a search by id finds the old row or the updated one.
pub find_by_id-update_where :
    (p : TaskRecord → Bool) (f : TaskRecord → TaskRecord) (tasks : List TaskRecord) (id : String)
    → ((t : TaskRecord) → (f t).id ≡ t.id)
    → find_by_id (update_where p f tasks) id
      ≡ elim (find_by_id tasks id) [ none ↦ none | some t ↦ some (if p t then f t else t) ]
unfolding update_where find_by_id
find_by_id-update_where p f [] id h = refl
find_by_id-update_where p f (t ∷ tasks) id h = elim (Bool-cases (p t)) [
  | inl hit ↦ ground (arith, h t, find_by_id-update_where p f tasks id h)
  | inr miss ↦ ground (arith, find_by_id-update_where p f tasks id h)
]

pub id-find_by_id :
    (tasks : List TaskRecord) (id : String) (t : TaskRecord)
    → find_by_id tasks id ≡ some t
    → t.id ≡ id
unfolding find_by_id
id-find_by_id [] id t h = cc
id-find_by_id (x ∷ tasks) id t h = ground (arith, eq_iff x.id id, id-find_by_id tasks id t)

pub id-with_status :
    (status : TaskStatus) (owner : Option String) (now : String) (t : TaskRecord)
    → (with_status status owner now t).id ≡ t.id
unfolding with_status
id-with_status status owner now t = refl

-- No id occurs twice, as the primary key has it.
abbrev pub Unique : List String → Type 0
Unique [] = Unit
Unique (x ∷ xs) = (contains xs x ≡ false) × Unique xs

pub In-find :
    (p : TaskRecord → Bool) (tasks : List TaskRecord) (t : TaskRecord)
    → find p tasks ≡ some t
    → In t tasks
In-find p [] t h = cc
In-find p (x ∷ tasks) t h = ground (arith, h, In-find p tasks t)

In-contains :
    (tasks : List TaskRecord) (t : TaskRecord) → In t tasks → contains (ids tasks) t.id ≡ true
In-contains [] t h = absurd h
In-contains (x ∷ tasks) t (inl e) = rw (sym (ap (λ r. r.id) e)) (rw (eq_refl t.id) refl)
In-contains (x ∷ tasks) t (inr m) = ground (arith, In-contains tasks t m)

pub find_by_id-Unique :
    (tasks : List TaskRecord) (t : TaskRecord)
    → Unique (ids tasks)
    → In t tasks
    → find_by_id tasks t.id ≡ some t
unfolding find_by_id
find_by_id-Unique [] t u h = absurd h
find_by_id-Unique (x ∷ tasks) t u (inl e) = rw (sym e) (rw (eq_refl t.id) refl)
find_by_id-Unique (x ∷ tasks) t (fresh, u) (inr m) = elim (Bool-cases (x.id == t.id)) [
  | inl hit ↦ ground (arith, In-contains tasks t m, fresh, (eq_iff x.id t.id).0 hit)
  | inr miss ↦ rw miss (find_by_id-Unique tasks t u m)
]

pub found_row :
    (id : String) (found : Option TaskRecord) (s : Store) (updated : TaskRecord) (t : Store)
    → or_not_found id found s ≡ ok (updated, t)
    → (found ≡ some updated) × (s ≡ t)
unfolding or_not_found ◌>>=◌
found_row id none s updated t h = cc
found_row id (some r) s updated t h = ground (arith, h)

-- The row that the unguarded update returns.
pub update_status-eq-ok :
    (id : String) (status : TaskStatus) (owner : Option String) (now : String) (s : Store)
    (updated : TaskRecord) (t : Store)
    → update_status id status owner now s ≡ ok (updated, t)
    → (updated.id ≡ id) × (updated.status ≡ status) × (updated.owner_agent_id ≡ owner)
unfolding update_status with_status
update_status-eq-ok id status owner now s updated t h =
    let write = with_status status owner now in
    let (found, _) =
      found_row id (find_by_id (update_where (λ r. r.id == id) write s.tasks) id) _ updated t h in
    let e =
      find_by_id-update_where (λ r. r.id == id) write s.tasks id
        (id-with_status status owner now) in
    elim (Option-cases (find_by_id s.tasks id)) [
      | inl n ↦ ground (arith, e, n, found)
      | inr (x, m) ↦
          let here = id-find_by_id s.tasks id x m in
          let row : write x ≡ updated = ground (arith, e, m, found, eq_iff x.id id, here) in
          (
            ap (λ r. r.id) (sym row) ∙ here,
            ap (λ r. r.status) (sym row),
            ap (λ r. r.owner_agent_id) (sym row),
          )
    ]

pub tasks-append_event :
    (e : Event) (s : Store) (u : Unit {0}) (t : Store)
    → append_event e s ≡ ok (u, t)
    → s.tasks ≡ t.tasks
unfolding append_event
tasks-append_event e s u t h = ground (arith, h)

pub tasks-create_cleanup :
    (r : CleanupRequest) (s : Store) (u : Unit {0}) (t : Store)
    → create_cleanup r s ≡ ok (u, t)
    → s.tasks ≡ t.tasks
unfolding create_cleanup
tasks-create_cleanup r s u t h = ground (arith, h)

pub tasks-update_status :
    (id : String) (status : TaskStatus) (owner : Option String) (now : String) (s : Store)
    (updated : TaskRecord) (t : Store)
    → update_status id status owner now s ≡ ok (updated, t)
    → t.tasks ≡ update_where (λ r. r.id == id) (with_status status owner now) s.tasks
unfolding update_status
tasks-update_status id status owner now s updated t h =
    let written = update_where (λ r. r.id == id) (with_status status owner now) s.tasks in
    ap (λ x. x.tasks) (sym (found_row id (find_by_id written id) _ updated t h).1)

-- A write to another task leaves what a search finds.
pub find_by_id-update_status :
    (id other : String) (status : TaskStatus) (owner : Option String) (now : String)
    (tasks : List TaskRecord)
    → other ≢ id
    → find_by_id (update_where (λ r. r.id == id) (with_status status owner now) tasks) other
      ≡ find_by_id tasks other
find_by_id-update_status id other status owner now tasks ne =
    let e =
      find_by_id-update_where (λ r. r.id == id) (with_status status owner now) tasks other
        (id-with_status status owner now) in
    elim (Option-cases (find_by_id tasks other)) [
      | inl n ↦ ground (arith, e, n)
      | inr (x, m) ↦ ground (arith, e, m, id-find_by_id tasks other x m, ne, eq_iff x.id id)
    ]
