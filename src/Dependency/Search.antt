-- ===== src/Dependency/Search.antt =====
-- The breadth-first search of dependency.rs ends, and finds exactly the walks.
use carryctx.Base.{
  ℕ, zero, suc, ◌+◌, ◌≤◌, String, Bool, true, false, not, ◌&&◌, ◌||◌, some, List, [], ◌∷◌, ◌++◌,
  ◌≡◌, ◌≢◌, ◌↔◌, ◌⊎◌, inl, inr, refl, sym, ap, ◌∙◌, Text-cases, subst, arith, eq_iff, ◌==◌, length,
  length-append, length-keep, keep, contains, contains-append, contains-keep, Bool-cases,
  if◌then◌else◌, ok,
}
use carryctx.Dependency.{
  DependencyEdge, neighbors, search, would_create_cycle, validate_dependency_edge,
}
use carryctx.Dependency.Walk.{Needs, Reach, here, step, Needs-of_neighbors, neighbors_of_Needs}

-- The edges whose task the search has not expanded.
abbrev pending : List DependencyEdge → List String → ℕ
pending [] visited = 0
pending (e ∷ edges) visited =
    let rest = pending edges visited in if contains visited e.task_id then rest else suc rest

pending-nil : (edges : List DependencyEdge) → pending edges [] ≡ length edges
pending-nil [] = refl
pending-nil (e ∷ edges) = ap suc (pending-nil edges)

-- Expanding a node takes its edges off the count.
pending-expand :
    (edges : List DependencyEdge) (node : String) (visited : List String)
    → contains visited node ≡ false
    → pending edges (node ∷ visited) + length (neighbors edges node) ≡ pending edges visited
pending-expand [] node visited h = refl
pending-expand (e ∷ edges) node visited h =
    ground
      (arith, pending-expand edges node visited h, eq_iff node e.task_id, eq_iff e.task_id node)

module _ (edges : List DependencyEdge) (task : String) where
  search_returns :
      (fuel : ℕ) (queue visited : List String)
      → pending edges visited + length queue ≤ fuel
      → (b : Bool) × (search edges task fuel queue visited ≡ some b)
  unfolding search
  search_returns zero [] visited h = (false, refl)
  search_returns (suc fuel) [] visited h = (false, refl)
  search_returns zero (node ∷ queue) visited h = absurd (omega arith)
  search_returns (suc fuel) (node ∷ queue) visited h = elim (Bool-cases (node == task)) [
    | inl found ↦ (true, rw found)
    | inr other ↦ elim (Bool-cases (contains visited node)) [
      | inl old ↦
          let (b, e) = search_returns fuel queue visited (omega arith) in (b, rw (other, old) e)
      | inr new ↦
          let next = keep (λ v. not (contains (node ∷ visited) v)) (neighbors edges node) in
          let (b, e) = search_returns fuel (queue ++ next) (node ∷ visited) (
            omega (
              arith,
              length-append queue next,
              pending-expand edges node visited new,
              length-keep (λ v. not (contains (node ∷ visited) v)) (neighbors edges node),
            )) in
          (b, rw (other, new) e)
    ]
  ]

  -- What the loop puts into the queue when it expands a node.
  abbrev fresh : String → List String → List String
  fresh node visited = keep (λ v. not (contains (node ∷ visited) v)) (neighbors edges node)

  contains-fresh :
      (node v : String) (visited : List String)
      → contains (fresh node visited) v
        ≡ (contains (neighbors edges node) v && not (contains (node ∷ visited) v))
  contains-fresh node v visited =
      contains-keep (λ v. not (contains (node ∷ visited) v)) (neighbors edges node) v

  queued_cases :
      (node v : String) (queue visited : List String)
      → contains (queue ++ fresh node visited) v ≡ true
      → (contains queue v ≡ true) ⊎ (contains (neighbors edges node) v ≡ true)
  queued_cases node v queue visited h =
      ground (arith, contains-append queue (fresh node visited) v, contains-fresh node v visited)

  search_sound :
      (from : String) (fuel : ℕ) (queue visited : List String)
      → ((v : String) → contains queue v ≡ true → Reach edges from v)
      → search edges task fuel queue visited ≡ some true
      → Reach edges from task
  unfolding search
  search_sound from fuel [] visited h e = cc
  search_sound from zero (node ∷ queue) visited h e = cc
  search_sound from (suc fuel) (node ∷ queue) visited h e = elim (Bool-cases (node == task)) [
    | inl found ↦
        subst (Reach edges from) ((eq_iff node task).0 found)
          (h node (ground (arith, eq_iff node node)))
    | inr other ↦ elim (Bool-cases (contains visited node)) [
      | inl old ↦
          search_sound from fuel queue visited (λ v m. h v (ground (arith, m)))
            (rw (other, old) at e)
      | inr new ↦
          search_sound from fuel (queue ++ fresh node visited) (node ∷ visited)
            (λ v m. elim (queued_cases node v queue visited m) [
              | inl waiting ↦ h v (ground arith)
              | inr near ↦
                  step (h node (ground (arith, eq_iff node node)))
                    (Needs-of_neighbors edges node v near)
            ])
            (rw (other, new) at e)
    ]
  ]

  record IsClosed (from : String) (queue visited : List String) : Type 0 where
    source : (contains visited from || contains queue from) ≡ true
    missed : contains visited task ≡ false
    closed :
        (u v : String)
        → contains visited u ≡ true
        → Needs edges u v
        → (contains visited v || contains queue v) ≡ true

  IsClosed-skip :
      (from node : String) (queue visited : List String)
      → contains visited node ≡ true
      → IsClosed from (node ∷ queue) visited
      → IsClosed from queue visited
  IsClosed-skip from node queue visited old c = record {
    source = ground (arith, c.source, eq_iff node from);
    missed = c.missed;
    closed = λ u v m n. ground (arith, c.closed u v m n, eq_iff node v);
  }

  IsClosed-expand :
      (from node : String) (queue visited : List String)
      → (node == task) ≡ false
      → IsClosed from (node ∷ queue) visited
      → IsClosed from (queue ++ fresh node visited) (node ∷ visited)
  IsClosed-expand from node queue visited other c = record {
    source = ground (arith, c.source, contains-append queue (fresh node visited) from);
    missed = ground (arith, c.missed);
    closed = λ u v m n. ground (
      arith,
      contains-append queue (fresh node visited) v,
      contains-fresh node v visited,
      eq_iff node u,
      neighbors_of_Needs edges node v,
      neighbors_of_Needs edges u v n,
      c.closed u v,
    );
  }

  contains_of_Reach :
      (from : String) (visited : List String) {v : String}
      → IsClosed from [] visited
      → Reach edges from v
      → contains visited v ≡ true
  contains_of_Reach from visited c here = ground (arith, c.source)
  contains_of_Reach from visited c (step {v} {w} r n) =
      ground (arith, c.closed v w (contains_of_Reach from visited c r) n)

  search_complete :
      (from : String) (fuel : ℕ) (queue visited : List String)
      → IsClosed from queue visited
      → search edges task fuel queue visited ≡ some false
      → ¬ Reach edges from task
  unfolding search
  search_complete from fuel [] visited c e r = cc (contains_of_Reach from visited c r, c.missed)
  search_complete from zero (node ∷ queue) visited c e r = cc
  search_complete from (suc fuel) (node ∷ queue) visited c e r = elim (Bool-cases (node == task)) [
    | inl found ↦ cc (rw found at e)
    | inr other ↦ elim (Bool-cases (contains visited node)) [
      | inl old ↦
          search_complete from fuel queue visited (IsClosed-skip from node queue visited old c)
            (rw (other, old) at e) r
      | inr new ↦
          search_complete from fuel (queue ++ fresh node visited) (node ∷ visited)
            (IsClosed-expand from node queue visited other c) (rw (other, new) at e) r
    ]
  ]

  would_create_cycle_cases :
      (p : String)
      → task ≢ p
      → (b : Bool) × (search edges task (length edges + 1) (p ∷ []) [] ≡ some b)
        × (would_create_cycle edges task p ≡ b)
  unfolding would_create_cycle
  would_create_cycle_cases p ne =
      let (b, e) =
        search_returns (length edges + 1) (p ∷ []) [] (omega (arith, pending-nil edges)) in
      (b, e, ground (arith, eq_iff task p))

  IsClosed-start : (p : String) → IsClosed p (p ∷ []) []
  IsClosed-start p = record {
    source = ground (arith, eq_iff p p);
    missed = refl;
    closed = λ u v m n. cc;
  }

  found_self : (p : String) → task ≡ p → would_create_cycle edges task p ≡ true
  unfolding would_create_cycle
  found_self p e = ground (arith, eq_iff task p)

  start_queue : (p v : String) → contains (p ∷ []) v ≡ true → Reach edges p v
  start_queue p v m = subst (Reach edges p) ((eq_iff p v).0 (ground arith)) here

  cycle_sound : (p : String) → would_create_cycle edges task p ≡ true → Reach edges p task
  cycle_sound p h = elim (Text-cases task p) [
    | inl same ↦ subst (Reach edges p) (sym same) here
    | inr ne ↦
        let (b, e, answer) = would_create_cycle_cases p ne in
        search_sound p (length edges + 1) (p ∷ []) [] (start_queue p) (e ∙ ap some (sym answer ∙ h))
  ]

  cycle_complete : (p : String) → Reach edges p task → would_create_cycle edges task p ≡ true
  cycle_complete p r = elim (Text-cases task p) [
    | inl same ↦ found_self p same
    | inr ne ↦ elim (Bool-cases (would_create_cycle edges task p)) [
      | inl yes_b ↦ yes_b
      | inr no_b ↦
          let (b, e, answer) = would_create_cycle_cases p ne in
          absurd (
            search_complete p (length edges + 1) (p ∷ []) [] (IsClosed-start p)
              (e ∙ ap some (sym answer ∙ no_b)) r)
    ]
  ]

-- The search for the task from the prerequisite ends within the fuel of the cycle test, and the test is true exactly
-- when the prerequisite is the task itself or leads to it along edges of any kind.
pub would_create_cycle_iff :
    (edges : List DependencyEdge) (task p : String)
    → ((b : Bool) × (search edges task (length edges + 1) (p ∷ []) [] ≡ some b))
      × ((would_create_cycle edges task p ≡ true) ↔ Reach edges p task)
would_create_cycle_iff edges task p = (
  search_returns edges task (length edges + 1) (p ∷ []) [] (omega (arith, pending-nil edges)),
  (cycle_sound edges task p, cycle_complete edges task p),
)

pub validate_dependency_edge_iff :
    (edges : List DependencyEdge) (task p : String)
    → (validate_dependency_edge edges task p ≡ ok tt) ↔ (¬ Reach edges p task)
unfolding validate_dependency_edge
validate_dependency_edge_iff edges task p = (
  λ h r. ground (arith, cycle_complete edges task p r),
  λ h. elim (Bool-cases (would_create_cycle edges task p)) [
    | inl yes_b ↦ absurd (h (cycle_sound edges task p yes_b))
    | inr no_b ↦ ground (arith, found_self edges task p, eq_iff task p)
  ],
)
