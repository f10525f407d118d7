-- ===== src/Runtime/Graph.antt =====
-- packages/agent-runtime/src/smorx_runtime/graph.py: the registry of tasks and its dependency
-- check. The dict of tasks is the list of its values in insertion order, under their ids; a set
-- of ids is a list that only `contains` reads. `timeout_seconds` and `inputs` of a task, which the
-- graph stores and never reads, are left out.
pub mod Cycles
pub mod Waves
pub mod Registry
mod Samples
use smorx.Prelude.{
  ℕ, zero, suc, String, Bool, true, false, not, Option, none, some, List, [], ◌∷◌, ◌++◌, map,
  if◌then◌else◌, length, ◌==◌, contains, string_eq, Result, ok, err,
}

pub data SpecialistCapability : Type 0 where
  archaeology knowledge intent impact coding verification evidence repair certification :
      SpecialistCapability

pub data TaskKind : Type 0 where
  independent dependent reconciler serialized : TaskKind

pub record TaskSpec : Type 0 where
  pub id : String
  pub capability : SpecialistCapability
  pub kind : TaskKind
  pub description : String
  pub depends_on : List String

pub data TaskGraphError : Type 0 where
  duplicate_task : String → TaskGraphError
  unknown_task : String → TaskGraphError
  cycle : String → String → TaskGraphError
  bad_parallelism : ℕ → TaskGraphError
  none_ready : TaskGraphError

abbrev pub TaskGraph : Type 0
TaskGraph = List TaskSpec

-- self._tasks.get(task_id)
unfoldable pub find : String → TaskGraph → Option TaskSpec
find task_id [] = none
find task_id (task ∷ g) = if task.id == task_id then some task else find task_id g

-- task_id in self._tasks
unfoldable pub has_task : String → TaskGraph → Bool
unfolding find
has_task task_id g = elim (find task_id g) [ none ↦ false | some task ↦ true ]

-- self._tasks[task.id] = task: a key that is there keeps its place.
unfoldable pub put : TaskSpec → TaskGraph → TaskGraph
put task [] = task ∷ []
put task (t ∷ g) = if t.id == task.id then task ∷ g else t ∷ put task g

unfoldable pub add : TaskSpec → TaskGraph → Result TaskGraphError TaskGraph
unfolding has_task put
add task g = if has_task task.id g then err (duplicate_task task.id) else ok (put task g)

unfoldable pub dependencies_of : String → TaskGraph → Result TaskGraphError (List String)
unfolding find
dependencies_of task_id g = elim (find task_id g) [
  | none ↦ err (unknown_task task_id)
  | some task ↦ ok task.depends_on
]

-- The inner loop of `_creates_cycle` over the dependencies of one task: it meets `task_id`, or
-- leaves `seen` and `stack` behind. The top of the stack is its head.
pub data Scan : Type 0 where
  found : Scan
  pending : List String → List String → Scan

unfoldable pub scan : String → List String → List String → List String → Scan
unfolding contains
scan task_id [] seen stack = pending seen stack
scan task_id (dep ∷ deps) seen stack =
    let skip = scan task_id deps seen stack in
    let push = scan task_id deps (dep ∷ seen) (dep ∷ stack) in
    if dep == task_id then found else if contains seen dep then skip else push

-- The `while stack` loop of `_creates_cycle`; `none` means that the fuel ran out.
unfoldable pub search_from : ℕ → String → TaskGraph → List String → List String → Option Bool
unfolding find scan
search_from zero task_id g seen stack = none
search_from (suc fuel) task_id g seen [] = some false
search_from (suc fuel) task_id g seen (current ∷ stack) = elim (find current g) [
  | none ↦ search_from fuel task_id g seen stack
  | some task ↦ elim (scan task_id task.depends_on seen stack) [
    | found ↦ some true
    | pending seen' stack' ↦ search_from fuel task_id g seen' stack'
  ]
]

-- Every dependency that some task names.
unfoldable pub all_deps : TaskGraph → List String
all_deps [] = []
all_deps (task ∷ g) = task.depends_on ++ all_deps g

-- Each pop but the first is of a dependency that was pushed once.
unfoldable pub creates_cycle : String → String → TaskGraph → Option Bool
unfolding search_from all_deps
creates_cycle task_id dependency_id g =
    if task_id == dependency_id
    then some true
    else search_from (suc (suc (length (all_deps g)))) task_id g [] (dependency_id ∷ [])

abbrev pub link :
    String → String → TaskSpec → TaskGraph → Option Bool → Option (Result TaskGraphError TaskGraph)
link task_id dependency_id task g none = none
link task_id dependency_id task g (some true) = some (err (cycle task_id dependency_id))
link task_id dependency_id task g (some false) =
    some (ok (put (record task { depends_on = task.depends_on ++ dependency_id ∷ [] }) g))

-- `none` means that the search for a cycle ran out of fuel.
unfoldable pub add_dependency :
    String → String → TaskGraph → Option (Result TaskGraphError TaskGraph)
unfolding find has_task creates_cycle contains put
add_dependency task_id dependency_id g = elim (find task_id g) [
  | none ↦ some (err (unknown_task task_id))
  | some task ↦
      if not (has_task dependency_id g)
      then some (err (unknown_task dependency_id))
      else if contains task.depends_on dependency_id
      then some (ok g)
      else link task_id dependency_id task g (creates_cycle task_id dependency_id g)
]
