-- ===== src/Runtime/Graph/Cycles/Search.antt =====
-- The `while stack` loop: it ends within its fuel, and its answer is right.
use smorx.Prelude.{
  ℕ, zero, suc, ◌+◌, ◌<◌, ◌≡◌, refl, sym, subst, String, ◌≢◌, ◌⊎◌, inl, inr, Bool, true, false, not,
  Option, none, some, List, [], ◌∷◌, arith, length, contains, string_eq, ==-cases, Option-cases,
  contains-append, contains-cons_self, contains-cons_of_contains, contains-cons_cases,
  length-filterb-le,
}
use smorx.Runtime.Graph.{
  TaskGraph, find, Scan, found, pending, scan, search_from, all_deps, creates_cycle,
}
use smorx.Runtime.Graph.Cycles.Paths.{edges, Edge, Depends, direct, through, Reaches, Reaches-Edge}
use smorx.Runtime.Graph.Cycles.Scanning.{
  missing, Scanned, scan-Scanned, scan_measure, scan_found, Scan-cases, contains-cons_eq,
}

not_in_nil : (c : String) → ¬ (contains [] c ≡ true)
unfolding contains
not_in_nil c h = cc

abbrev resume : ℕ → String → TaskGraph → Scan → Option Bool
resume fuel task_id g found = some true
resume fuel task_id g (pending seen stack) = search_from fuel task_id g seen stack

-- One round, with an unknown task as a task with no dependencies.
search_from_round :
    (fuel : ℕ) (task_id : String) (g : TaskGraph) (seen : List String) (c : String)
    (stack : List String)
    → search_from (suc fuel) task_id g seen (c ∷ stack)
      ≡ resume fuel task_id g (scan task_id (edges g c) seen stack)
unfolding search_from edges scan
search_from_round fuel task_id g seen c stack = elim (Option-cases (find c g)) [
  | inl unknown ↦ ground arith
  | inr (task, known) ↦ ground arith
]

search_from-zero :
    (task_id : String) (g : TaskGraph) (seen stack : List String)
    → search_from zero task_id g seen stack ≡ none
unfolding search_from
search_from-zero task_id g seen stack = refl

search_from_empty :
    (fuel : ℕ) (task_id : String) (g : TaskGraph) (seen : List String)
    → search_from (suc fuel) task_id g seen [] ≡ some false
unfolding search_from
search_from_empty fuel task_id g seen = refl

edges-all_deps : (g : TaskGraph) (c x : String) → Edge g c x → contains (all_deps g) x ≡ true
unfolding edges all_deps find
edges-all_deps [] c x e = cc
edges-all_deps (task ∷ g) c x e =
    ground (arith, contains-append task.depends_on (all_deps g) x, edges-all_deps g c x)

-- Enough fuel for what is missing and what waits gives an answer.
search_from_total :
    (fuel : ℕ) (task_id : String) (g : TaskGraph) (seen stack : List String)
    → missing (all_deps g) seen + length stack < fuel
    → (search_from fuel task_id g seen stack ≡ some true)
      ⊎ (search_from fuel task_id g seen stack ≡ some false)
search_from_total zero task_id g seen stack h = absurd (omega arith)
search_from_total (suc fuel) task_id g seen [] h = inr (search_from_empty fuel task_id g seen)
search_from_total (suc fuel) task_id g seen (c ∷ stack) h =
    elim (Scan-cases (scan task_id (edges g c) seen stack)) [
      | inl hit ↦ inl (rw (search_from_round fuel task_id g seen c stack, hit))
      | inr (s, k, e) ↦
          rw (search_from_round fuel task_id g seen c stack, e)
            (search_from_total fuel task_id g s k (
              omega (
                arith,
                scan_measure task_id (all_deps g) (edges g c) seen stack (edges-all_deps g c) e,
              )))
    ]

-- A hit closes a path from the root, if all that waits is reached from it.
search_from_sound :
    (fuel : ℕ) (task_id root : String) (g : TaskGraph) (seen stack : List String)
    → ((c : String) → contains stack c ≡ true → Reaches g root c)
    → search_from fuel task_id g seen stack ≡ some true
    → Depends g root task_id
search_from_sound zero task_id root g seen stack reached h =
    cc (search_from-zero task_id g seen stack)
search_from_sound (suc fuel) task_id root g seen [] reached h =
    cc (search_from_empty fuel task_id g seen)
search_from_sound (suc fuel) task_id root g seen (c ∷ stack) reached h =
    elim (Scan-cases (scan task_id (edges g c) seen stack)) [
      | inl hit ↦
          Reaches-Edge task_id (reached c (contains-cons_self c stack))
            (scan_found task_id (edges g c) seen stack hit)
      | inr (s, k, e) ↦
          search_from_sound fuel task_id root g s k
            (λ x m. elim ((scan-Scanned task_id (edges g c) seen stack e).pushed x m) [
              | inl waiting ↦ reached x (contains-cons_of_contains c stack x waiting)
              | inr listed ↦ inr (Reaches-Edge x (reached c (contains-cons_self c stack)) listed)
            ])
            (rw (search_from_round fuel task_id g seen c stack, e) at h)
    ]

-- The root or a task that was seen.
abbrev Known : String → List String → String → Type 0
Known root seen c = (root ≡ c) ⊎ (contains seen c ≡ true)

-- All dependencies of `c` were seen, and none is the task that is looked for.
abbrev IsClosed : String → TaskGraph → List String → String → Type 0
IsClosed task_id g seen c = (x : String) → Edge g c x → (contains seen x ≡ true) × (task_id ≢ x)

-- What is known waits or is closed.
abbrev IsExplored : String → String → TaskGraph → List String → List String → Type 0
IsExplored task_id root g seen stack =
    (c : String) → Known root seen c → (contains stack c ≡ true) ⊎ IsClosed task_id g seen c

IsExplored-scan :
    (task_id root : String) (g : TaskGraph) (c : String) (seen stack : List String)
    {s k : List String}
    → Scanned task_id (edges g c) seen stack s k
    → IsExplored task_id root g seen (c ∷ stack)
    → IsExplored task_id root g s k
IsExplored-scan task_id root g c seen stack {s} {k} r explored x known = elim (old x known) [
  | inr waits ↦ inl waits
  | inl before ↦ elim (explored x before) [
    | inr closed ↦ inr (λ y e. (r.keeps_seen y (closed y e).0, (closed y e).1))
    | inl waiting ↦ elim (contains-cons_cases c stack x waiting) [
      | inl same ↦ inr (subst (IsClosed task_id g s) same r.marks)
      | inr later ↦ inl (r.keeps_stack x later)
    ]
  ]
]
  where
    old : (x : String) → Known root s x → Known root seen x ⊎ (contains k x ≡ true)
    old x (inl same) = inl (inl same)
    old x (inr m) = elim (r.only_new x m) [ inl h ↦ inl (inr h) | inr h ↦ inr h ]

-- Nothing known depends on the task, once all that is known is closed.
closed_no_path :
    (task_id root : String) (g : TaskGraph) (seen : List String)
    → ((c : String) → Known root seen c → IsClosed task_id g seen c)
    → {a b : String} → Depends g a b
    → Known root seen a
    → task_id ≢ b
closed_no_path task_id root g seen closed (direct e) known = (closed _ known _ e).1
closed_no_path task_id root g seen closed (through e p) known =
    closed_no_path task_id root g seen closed p (inr (closed _ known _ e).0)

search_from_complete :
    (fuel : ℕ) (task_id root : String) (g : TaskGraph) (seen stack : List String)
    → IsExplored task_id root g seen stack
    → search_from fuel task_id g seen stack ≡ some false
    → ¬ Depends g root task_id
search_from_complete zero task_id root g seen stack explored h =
    cc (search_from-zero task_id g seen stack)
search_from_complete (suc fuel) task_id root g seen [] explored h = λ path.
    closed_no_path task_id root g seen
      (λ c known. elim (explored c known) [
        | inl waiting ↦ absurd (not_in_nil c waiting)
        | inr closed ↦ closed
      ])
      path (inl refl) refl
search_from_complete (suc fuel) task_id root g seen (c ∷ stack) explored h =
    let step = rw (search_from_round fuel task_id g seen c stack) at h in
    elim (Scan-cases (scan task_id (edges g c) seen stack)) [
      | inl hit ↦ cc (rw hit at step)
      | inr (s, k, e) ↦
          search_from_complete fuel task_id root g s k
            (IsExplored-scan task_id root g c seen stack
              (scan-Scanned task_id (edges g c) seen stack e) explored)
            (rw e at step)
    ]

-- The search for a cycle always ends. It answers yes exactly when the dependency is the task
-- itself or depends on it, directly or through other tasks.
pub creates_cycle-Depends :
    (task_id dependency_id : String) (g : TaskGraph)
    → (creates_cycle task_id dependency_id g ≡ some true) × Reaches g dependency_id task_id
      ⊎ (creates_cycle task_id dependency_id g ≡ some false) × ¬ Reaches g dependency_id task_id
unfolding creates_cycle
creates_cycle-Depends task_id dependency_id g = elim (==-cases task_id dependency_id) [
  | inl (eq, same) ↦ inl (rw eq, inl (sym same))
  | inr (ne, differs) ↦
      let fuel : ℕ = suc (suc (length (all_deps g))) in
      elim (search_from_total fuel task_id g [] (dependency_id ∷ [])
        (omega (arith, length-filterb-le (λ d. not (contains [] d)) (all_deps g)))) [
          | inl found_it ↦ inl (
            rw (ne, found_it),
            inr (
                search_from_sound fuel task_id dependency_id g [] (dependency_id ∷ []) start
                  found_it),
          )
          | inr clear ↦ inr (
            rw (ne, clear),
            elim [
              | inl same ↦ differs (sym same)
              | inr path ↦
                  search_from_complete fuel task_id dependency_id g [] (dependency_id ∷ [])
                    open_root clear path
            ],
          )
        ]
]
  where
    start : (c : String) → contains (dependency_id ∷ []) c ≡ true → Reaches g dependency_id c
    start c m = elim (contains-cons_cases dependency_id [] c m) [
      | inl same ↦ inl same
      | inr none_left ↦ absurd (not_in_nil c none_left)
    ]

    open_root : IsExplored task_id dependency_id g [] (dependency_id ∷ [])
    open_root c (inl same) = inl (contains-cons_eq [] same)
    open_root c (inr none_seen) = absurd (not_in_nil c none_seen)
