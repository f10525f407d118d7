-- ===== src/Runtime/Graph/Samples.antt =====
-- Tests and examples of the task graph: two tasks that are linked, and a plan of five.
use smorx.Prelude.{
  ◌≡◌, refl, ◌⊎◌, String, true, false, arith, some, List, [], ◌∷◌, ◌++◌, contains, string_eq, ok,
  err,
}
use smorx.Runtime.Graph.{
  TaskSpec, TaskGraph, TaskGraphError, TaskKind, independent, dependent, reconciler, serialized,
  coding, find, add, has_task, creates_cycle, add_dependency,
}
use smorx.Runtime.Graph.Cycles.Paths.{edges, Edge, direct, through, IsAcyclic, Reaches}
use smorx.Runtime.Graph.Cycles.Search.{creates_cycle-Depends}
use smorx.Runtime.Graph.Cycles.Linking.{Linked, add_dependency-Linked, add_dependency-IsAcyclic}
use smorx.Runtime.Graph.Waves.{waves}
use smorx.Runtime.Graph.Waves.Unique.{IsUnique}
use smorx.Runtime.Graph.Waves.Plan.{IsPlan, waves-IsPlan}
use smorx.Runtime.Graph.Waves.Progress.{IsSupplied}
use smorx.Runtime.Graph.Waves.Answers.{Answers, waves-Answers, waves_acyclic}
use smorx.Runtime.Graph.Registry.{add_cases}

abbrev task : String → TaskKind → List String → TaskSpec
task id kind deps = record {
  id = id;
  capability = coding;
  kind = kind;
  description = "";
  depends_on = deps;
}

abbrev loose : TaskGraph
loose = task "b" dependent [] ∷ task "a" independent [] ∷ []

abbrev linked : TaskGraph
linked = task "b" dependent ("a" ∷ []) ∷ task "a" independent [] ∷ []

linked_is : add_dependency "b" "a" loose ≡ some (ok linked)
unfolding add_dependency
linked_is = refl

no-Edge : (a b : String) → ¬ Edge loose a b
unfolding edges find contains
no-Edge a b e = ground arith

loose-IsAcyclic : IsAcyclic loose
loose-IsAcyclic a (direct e) = no-Edge a a e
loose-IsAcyclic a (through {b = b} e p) = no-Edge a b e

add_dependency-IsAcyclic_example : IsAcyclic linked
add_dependency-IsAcyclic_example =
    add_dependency-IsAcyclic "b" "a" loose linked linked_is loose-IsAcyclic

add_dependency-Linked_example : Linked "b" "a" loose (add_dependency "b" "a" loose)
add_dependency-Linked_example = add_dependency-Linked "b" "a" loose

creates_cycle-Depends_example :
    (creates_cycle "a" "b" linked ≡ some true) × Reaches linked "b" "a"
    ⊎ (creates_cycle "a" "b" linked ≡ some false) × ¬ Reaches linked "b" "a"
creates_cycle-Depends_example = creates_cycle-Depends "a" "b" linked

linked-IsUnique : IsUnique linked
unfolding contains
linked-IsUnique = (refl, (refl, tt))

linked-IsSupplied : IsSupplied [] linked
unfolding edges find contains
linked-IsSupplied a b e = ground arith

waves_acyclic_example : (plan : List (List TaskSpec)) × (waves [] (some 2) linked ≡ some (ok plan))
unfolding waves
waves_acyclic_example =
    waves_acyclic [] (some 2) linked refl linked-IsUnique add_dependency-IsAcyclic_example
      linked-IsSupplied

waves-Answers_example : Answers [] linked (waves [] (some 2) linked)
waves-Answers_example = waves-Answers [] (some 2) linked refl linked-IsUnique

abbrev g : TaskGraph
g =
    task "b" independent []
    ∷ task "a" independent []
    ∷ task "r" reconciler ("a" ∷ "b" ∷ [])
    ∷ task "s" serialized []
    ∷ task "c" independent []
    ∷ []

-- The serialized task first and alone, then two at a time.
abbrev plan_of_g : List (List TaskSpec)
plan_of_g =
    (task "s" serialized [] ∷ [])
    ∷ (task "a" independent [] ∷ task "b" independent [] ∷ [])
    ∷ (task "c" independent [] ∷ [])
    ∷ (task "r" reconciler ("a" ∷ "b" ∷ []) ∷ [])
    ∷ []

waves-g : waves [] (some 2) g ≡ some (ok plan_of_g)
unfolding waves
waves-g = refl

g-IsUnique : IsUnique g
unfolding contains
g-IsUnique = (refl, (refl, (refl, (refl, (refl, tt)))))

waves-IsPlan_example : IsPlan [] (some 2) g plan_of_g
waves-IsPlan_example = waves-IsPlan [] (some 2) g plan_of_g g-IsUnique waves-g

added :
    (has_task "a" linked ≡ true)
      × (add (task "a" independent []) linked ≡ err (TaskGraphError.duplicate_task "a"))
    ⊎ (has_task "a" linked ≡ false)
      × (add (task "a" independent []) linked ≡ ok (linked ++ task "a" independent [] ∷ []))
      × IsUnique (linked ++ task "a" independent [] ∷ [])
added = add_cases (task "a" independent []) linked linked-IsUnique
