-- ===== src/Runtime/Graph/Cycles/Linking.antt =====
-- `add_dependency`: its answer on every branch, and the graphs that it leaves behind.
use smorx.Prelude.{
  ◌≡◌, refl, sym, subst, ◌∙◌, ap, String, ◌⊎◌, inl, inr, true, false, Option, some, List, [], ◌∷◌,
  ◌++◌, arith, if◌then◌else◌, ◌==◌, contains, string_eq, ==-cases, Option-cases, Bool-cases,
  contains-append, Result, ok, err,
}
use smorx.Runtime.Graph.{
  TaskSpec, TaskGraph, TaskGraphError, unknown_task, cycle, find, has_task, put, link,
  creates_cycle, add_dependency,
}
use smorx.Runtime.Graph.Cycles.Paths.{
  edges, Edge, Depends, direct, through, IsAcyclic, Reaches, Depends-Reaches, Reaches-trans,
}
use smorx.Runtime.Graph.Cycles.Search.{creates_cycle-Depends}

pub find-put :
    (task : TaskSpec) (g : TaskGraph) (x : String)
    → find x (put task g) ≡ (if task.id == x then some task else find x g)
unfolding find put
find-put task [] x = refl
find-put task (t ∷ g) x = elim (==-cases t.id task.id) [
  | inl (eq, same) ↦ rw eq (ground (arith, ap (λ i. i == x) same))
  | inr (ne, differs) ↦ elim (==-cases task.id x) [
    | inl (hit, same) ↦
        let elsewhere = subst (λ i. (t.id == i) ≡ false) same ne in
        rw ne (rw elsewhere (ground (arith, find-put task g x)))
    | inr (miss, _) ↦ ground (arith, find-put task g x)
  ]
]

find_id :
    (task_id : String) (g : TaskGraph) {task : TaskSpec}
    → find task_id g ≡ some task
    → task.id ≡ task_id
unfolding find
find_id task_id [] h = cc
find_id task_id (t ∷ g) {task} h = elim (==-cases t.id task_id) [
  | inl (eq, same) ↦
      let hit : some t ≡ some task = rw eq at h in
      let entry : task ≡ t = cc in ap (λ u. u.id) entry ∙ same
  | inr (ne, _) ↦ find_id task_id g (rw ne at h)
]

-- The dependencies after a task was given others: those, and what they were elsewhere.
edges-put :
    (task : TaskSpec) (deps : List String) (g : TaskGraph) (x : String)
    → edges (put (record task { depends_on = deps }) g) x
      ≡ (if task.id == x then deps else edges g x)
unfolding edges
edges-put task deps g x = ground (arith, find-put (record task { depends_on = deps }) g x)

-- `g'` is `g` with the one edge from `a` to `b` added.
abbrev pub IsExtended : TaskGraph → String → String → TaskGraph → Type 0
IsExtended g a b g' =
    (x : String) → edges g' x ≡ (if a == x then edges g x ++ b ∷ [] else edges g x)

module _ (g g' : TaskGraph) (a b : String) (extended : IsExtended g a b g') where
  Edge-extended : (x y : String) → Edge g' x y → Edge g x y ⊎ ((a ≡ x) × (b ≡ y))
  unfolding contains
  Edge-extended x y e = elim (==-cases a x) [
    | inr (ne, differs) ↦ inl (rw (extended x, ne) at e)
    | inl (eq, same) ↦
        let e' = rw (extended x, eq, contains-append (edges g x) (b ∷ []) y) at e in
        elim (==-cases b y) [
          | inl (hit, is_b) ↦ inr (same, is_b)
          | inr (miss, _) ↦ inl (ground arith)
        ]
  ]

  -- A path of the new graph is one of the old, or goes over the new edge.
  Depends-extended :
      {x y : String} → Depends g' x y → Depends g x y ⊎ (Reaches g x a × Reaches g b y)
  Depends-extended (direct {a = x} {b = y} e) = elim (Edge-extended x y e) [
    | inl old ↦ inl (direct old)
    | inr (is_a, is_b) ↦ inr (inl (sym is_a), inl is_b)
  ]
  Depends-extended (through {a = x} {b = y} {c = z} e p) = elim (Edge-extended x y e) [
    | inl old ↦ elim (Depends-extended p) [
      | inl rest ↦ inl (through old rest)
      | inr (to_a, from_b) ↦ inr (inr (Depends-Reaches (direct old) to_a), from_b)
    ]
    | inr (is_a, is_b) ↦ elim (Depends-extended p) [
      | inl rest ↦ inr (inl (sym is_a), inr (subst (λ w. Depends g w z) (sym is_b) rest))
      | inr (to_a, from_b) ↦ inr (inl (sym is_a), from_b)
    ]
  ]

  -- An edge closes no cycle if its end does not lead back to its start.
  extended-IsAcyclic : IsAcyclic g → ¬ Reaches g b a → IsAcyclic g'
  extended-IsAcyclic acyclic clear x loop = elim (Depends-extended loop) [
    | inl old ↦ acyclic x old
    | inr (to_a, from_b) ↦ clear (Reaches-trans from_b to_a)
  ]

-- What `add_dependency` may answer.
pub data Linked (task_id dependency_id : String) (g : TaskGraph)
    : Option (Result TaskGraphError TaskGraph) → Type 0 where
  no_task :
      has_task task_id g ≡ false
      → Linked task_id dependency_id g (some (err (unknown_task task_id)))
  no_dependency :
      has_task task_id g ≡ true
      → has_task dependency_id g ≡ false
      → Linked task_id dependency_id g (some (err (unknown_task dependency_id)))
  present :
      has_task task_id g ≡ true
      → has_task dependency_id g ≡ true
      → Edge g task_id dependency_id
      → Linked task_id dependency_id g (some (ok g))
  refused :
      has_task task_id g ≡ true
      → has_task dependency_id g ≡ true
      → Reaches g dependency_id task_id
      → Linked task_id dependency_id g (some (err (cycle task_id dependency_id)))
  linked :
      (g' : TaskGraph)
      → has_task task_id g ≡ true
      → has_task dependency_id g ≡ true
      → ¬ Reaches g dependency_id task_id
      → IsExtended g task_id dependency_id g'
      → Linked task_id dependency_id g (some (ok g'))

-- The tests of `add_dependency` for two tasks that are there.
add_dependency_known :
    (a b : String) (g : TaskGraph) (task : TaskSpec)
    → find a g ≡ some task
    → has_task b g ≡ true
    → add_dependency a b g
      ≡ (if contains task.depends_on b then some (ok g) else link a b task g (creates_cycle a b g))
unfolding add_dependency
add_dependency_known a b g task known there = ground arith

linked_graph : TaskSpec → String → TaskGraph → TaskGraph
linked_graph task b g = put (record task { depends_on = task.depends_on ++ b ∷ [] }) g

pub edges-find :
    (a : String) (g : TaskGraph) {task : TaskSpec}
    → find a g ≡ some task
    → edges g a ≡ task.depends_on
unfolding edges
edges-find a g known = ground arith

linked_graph-IsExtended :
    (a b : String) (g : TaskGraph) (task : TaskSpec)
    → find a g ≡ some task
    → IsExtended g a b (linked_graph task b g)
unfolding linked_graph
linked_graph-IsExtended a b g task known x =
    let named = ap (λ k. k == x) (find_id a g known) in
    elim (==-cases a x) [
      | inl (eq, same) ↦
          let own = subst (λ y. edges g y ≡ task.depends_on) same (edges-find a g known) in
          ground (arith, named, own, edges-put task (task.depends_on ++ b ∷ []) g x)
      | inr (ne, _) ↦ ground (arith, named, edges-put task (task.depends_on ++ b ∷ []) g x)
    ]

add_dependency-Linked_known :
    (a b : String) (g : TaskGraph) (task : TaskSpec)
    → find a g ≡ some task
    → has_task a g ≡ true
    → has_task b g ≡ true
    → Linked a b g (add_dependency a b g)
unfolding linked_graph
add_dependency-Linked_known a b g task known has_a has_b =
    rw (add_dependency_known a b g task known has_b)
      (elim (Bool-cases (contains task.depends_on b)) [
        | inl there ↦ rw there (
            present has_a has_b
              (subst (λ deps. contains deps b ≡ true) (sym (edges-find a g known)) there))
        | inr absent ↦ rw absent (elim (creates_cycle-Depends a b g) [
          | inl (yes_cycle, reaches) ↦ rw yes_cycle (refused has_a has_b reaches)
          | inr (no_cycle, clear) ↦ rw no_cycle (
              linked (linked_graph task b g) has_a has_b clear
                (linked_graph-IsExtended a b g task known))
        ])
      ])

-- `add_dependency` always answers. It rejects unknown names, leaves an edge that is there alone,
-- rejects a new edge exactly when the dependency is the task or depends on it, and otherwise adds
-- the one edge and changes no other task's dependencies.
pub add_dependency-Linked :
    (task_id dependency_id : String) (g : TaskGraph)
    → Linked task_id dependency_id g (add_dependency task_id dependency_id g)
unfolding add_dependency has_task
add_dependency-Linked a b g = elim (Option-cases (find a g)) [
  | inl unknown ↦
      let e : add_dependency a b g ≡ some (err (unknown_task a)) = ground arith in
      subst (Linked a b g) (sym e) (no_task (ground arith))
  | inr (task, known) ↦ elim (Bool-cases (has_task b g)) [
    | inl there ↦ add_dependency-Linked_known a b g task known (ground arith) there
    | inr missing ↦
        let e : add_dependency a b g ≡ some (err (unknown_task b)) = ground arith in
        subst (Linked a b g) (sym e) (no_dependency (ground arith) missing)
  ]
]

Linked-IsAcyclic :
    (a b : String) (g g' : TaskGraph) {r : Option (Result TaskGraphError TaskGraph)}
    → Linked a b g r
    → r ≡ some (ok g')
    → IsAcyclic g
    → IsAcyclic g'
Linked-IsAcyclic a b g g' (no_task _) e acyclic = cc
Linked-IsAcyclic a b g g' (no_dependency _ _) e acyclic = cc
Linked-IsAcyclic a b g g' (refused _ _ _) e acyclic = cc
Linked-IsAcyclic a b g g' (present _ _ _) e acyclic =
    let same : g ≡ g' = cc in subst IsAcyclic same acyclic
Linked-IsAcyclic a b g g' (linked h _ _ clear extended) e acyclic =
    let same : h ≡ g' = cc in
    subst IsAcyclic same (extended-IsAcyclic g h a b extended acyclic clear)

-- A dependency that `add_dependency` accepts leaves an acyclic graph acyclic.
pub add_dependency-IsAcyclic :
    (task_id dependency_id : String) (g g' : TaskGraph)
    → add_dependency task_id dependency_id g ≡ some (ok g')
    → IsAcyclic g
    → IsAcyclic g'
add_dependency-IsAcyclic a b g g' = Linked-IsAcyclic a b g g' (add_dependency-Linked a b g)
