-- ===== src/Runtime/Graph/Waves.antt =====
-- The wave plan of graph.py: `ready`, `remaining` and `waves`. The sort is an insertion sort by
-- the key of the source, with the order of Python's strings. `max_parallelism` is a natural
-- number, so that 0 stands for every bound below 1.
mod Sorting
mod Marking
mod Round
pub mod Ordering
pub mod Unique
mod Choice
pub mod Plan
pub mod Progress
pub mod Answers
use Prim.Native.String.{compare}
use text.Mathlib.Text.{is_lt}
use smorx.Prelude.{
  ℕ, zero, suc, String, Bool, true, false, not, ◌&&◌, ◌||◌, Option, none, some, List, [], ◌∷◌, ◌++◌,
  map, if◌then◌else◌, length, filterb, allb, is_empty, take, drop, ltb, nat_beq, ◌==◌, contains,
  string_eq, Result, ok, err,
}
use smorx.Runtime.Graph.{
  TaskKind, independent, dependent, reconciler, serialized, TaskSpec, TaskGraph, TaskGraphError,
  bad_parallelism, none_ready,
}

abbrev pub ids : List TaskSpec → List String
ids tasks = map (λ task. task.id) tasks

-- Every dependency is in `done`.
unfoldable pub deps_done : List String → TaskSpec → Bool
unfolding contains
deps_done done task = allb (contains done) task.depends_on

unfoldable pub is_open : List String → TaskSpec → Bool
unfolding contains
is_open done task = not (contains done task.id)

unfoldable pub ready : List String → TaskGraph → List TaskSpec
unfolding deps_done is_open
ready completed g = filterb (λ task. is_open completed task && deps_done completed task) g

unfoldable pub remaining : List String → TaskGraph → List TaskSpec
unfolding is_open
remaining completed g = filterb (is_open completed) g

-- _TASK_KIND_PRIORITY
abbrev pub priority : TaskKind → ℕ
priority independent = 0
priority dependent = 1
priority reconciler = 2
priority serialized = 3

abbrev pub is_serialized : TaskSpec → Bool
is_serialized task = nat_beq (priority task.kind) (priority serialized)

-- The order of the sort's keys, `(priority, id)`.
unfoldable pub key_lt : TaskSpec → TaskSpec → Bool
key_lt a b =
    ltb (priority a.kind) (priority b.kind)
    || nat_beq (priority a.kind) (priority b.kind) && is_lt (compare a.id b.id)

unfoldable pub insert_task : TaskSpec → List TaskSpec → List TaskSpec
unfolding key_lt
insert_task task [] = task ∷ []
insert_task task (t ∷ ts) = if key_lt t task then t ∷ insert_task task ts else task ∷ t ∷ ts

-- candidates.sort(key=...)
unfoldable pub sort_tasks : List TaskSpec → List TaskSpec
unfolding insert_task
sort_tasks [] = []
sort_tasks (task ∷ tasks) = insert_task task (sort_tasks tasks)

-- The slices `xs[index : index + capacity]` for `index` in `range(0, len(xs), capacity)`.
unfoldable pub slices : ℕ → ℕ → List TaskSpec → List (List TaskSpec)
slices zero capacity xs = []
slices (suc fuel) capacity [] = []
slices (suc fuel) capacity (x ∷ xs) =
    take capacity (x ∷ xs) ∷ slices fuel capacity (drop capacity (x ∷ xs))

-- The state of the planning loop.
pub record Planning : Type 0 where
  pub done : List String
  pub unscheduled : List String
  pub plan : List (List TaskSpec)

unfoldable pub discard : String → List String → List String
discard id xs = filterb (λ x. not (x == id)) xs

unfoldable pub mark : List TaskSpec → Planning → Planning
unfolding discard
mark [] s = s
mark (task ∷ wave) s =
    mark wave (record s { done = task.id ∷ s.done; unscheduled = discard task.id s.unscheduled })

-- plan.append(wave), and every task of the wave is done.
unfoldable pub emit : List TaskSpec → Planning → Planning
unfolding mark
emit wave s = mark wave (record s { plan = s.plan ++ wave ∷ [] })

unfoldable pub emit_all : List (List TaskSpec) → Planning → Planning
unfolding emit
emit_all [] s = s
emit_all (wave ∷ waves) s = emit_all waves (emit wave s)

unfoldable pub candidates : Planning → TaskGraph → List TaskSpec
unfolding deps_done contains
candidates s g = filterb (λ task. contains s.unscheduled task.id && deps_done s.done task) g

abbrev pub capacity_for : Option ℕ → List TaskSpec → ℕ
capacity_for none tasks = length tasks
capacity_for (some n) tasks = n

-- The waves of one round: each serialized candidate alone, or else the others in slices.
unfoldable pub batch : Option ℕ → List TaskSpec → List (List TaskSpec)
unfolding slices
batch max_parallelism tasks =
    let alone = filterb is_serialized tasks in
    let others = filterb (λ task. not (is_serialized task)) tasks in
    if is_empty alone
    then slices (length others) (capacity_for max_parallelism others) others
    else map (λ task. task ∷ []) alone

-- The `while unscheduled` loop; `none` means that the fuel ran out.
unfoldable pub waves_from :
    ℕ → Option ℕ → TaskGraph → Planning → Option (Result TaskGraphError (List (List TaskSpec)))
unfolding candidates sort_tasks batch emit_all
waves_from zero max_parallelism g s = none
waves_from (suc fuel) max_parallelism g s =
    let tasks = sort_tasks (candidates s g) in
    let rest = waves_from fuel max_parallelism g (emit_all (batch max_parallelism tasks) s) in
    if is_empty s.unscheduled
    then some (ok s.plan)
    else if is_empty tasks
    then some (err none_ready)
    else rest

abbrev pub is_bad : Option ℕ → Bool
is_bad none = false
is_bad (some n) = ltb n 1

unfoldable pub start : List String → TaskGraph → Planning
unfolding contains
start completed g = record {
  done = completed;
  unscheduled = filterb (λ id. not (contains completed id)) (ids g);
  plan = [];
}

abbrev pub bound_of : Option ℕ → ℕ
bound_of none = 0
bound_of (some n) = n

-- Each round schedules a task at least.
unfoldable pub waves :
    List String → Option ℕ → TaskGraph → Option (Result TaskGraphError (List (List TaskSpec)))
unfolding waves_from start
waves completed max_parallelism g =
    if is_bad max_parallelism
    then some (err (bad_parallelism (bound_of max_parallelism)))
    else waves_from (suc (length g)) max_parallelism g (start completed g)
