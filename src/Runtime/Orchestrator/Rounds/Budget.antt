-- ===== src/Runtime/Orchestrator/Rounds/Budget.antt =====
-- How often the tasks of a plan can still run: a number that issuing a wave and reacting to its
-- failures use up.
use smorx.Prelude.{
  ℕ, suc, ◌+◌, ◌-◌, ◌*◌, ◌≤◌, ◌≡◌, refl, sym, ap, subst, ◌∙◌, String, true, inl, inr, List, [], ◌∷◌,
  arith, if◌then◌else◌, leb, leb→le, Bool-cases, length, contains, ◌==◌, string_eq, ==-cases,
  lookup, insert, lookup-insert, All,
}
use smorx.Runtime.Graph.{TaskSpec}
use smorx.Runtime.Orchestrator.{TaskRuns, runs_of, start_run}
use smorx.Runtime.Orchestrator.Rounds.Phasing.{start_all}

abbrev pub TaskDict : Type 0
TaskDict = List (String × TaskRuns)

pub runs_of-insert :
    (id u : String) (t : TaskRuns) (tasks : TaskDict)
    → runs_of u (insert id t tasks) ≡ (if id == u then t else runs_of u tasks)
runs_of-insert id u t tasks = rw (lookup-insert id u t tasks, runs_of) (ground arith)

module _ (max_retries : ℕ) where
  -- How often one task can still run.
  unfoldable pub left : TaskRuns → ℕ
  left t = suc max_retries - t.runs + (if t.replaced then 0 else 1)

  -- The same for all tasks of a plan.
  pub total : List String → TaskDict → ℕ
  unfolding left
  total [] tasks = 0
  total (u ∷ us) tasks = left (runs_of u tasks) + total us tasks

  pub total-insert_le :
      (us : List String) (id : String) (t : TaskRuns) (tasks : TaskDict)
      → left t ≤ left (runs_of id tasks)
      → total us (insert id t tasks) ≤ total us tasks
  unfolding total
  total-insert_le [] id t tasks h = omega arith
  total-insert_le (u ∷ us) id t tasks h = elim (==-cases id u) [
    | inl (same, eq) ↦
        let own = subst (λ x. left t ≤ left (runs_of x tasks)) eq h in
        rw (runs_of-insert id u t tasks, same) (omega (arith, own, total-insert_le us id t tasks h))
    | inr (differs, _) ↦
        rw (runs_of-insert id u t tasks, differs) (omega (arith, total-insert_le us id t tasks h))
  ]

  -- A task of the plan that can run less often lowers the total.
  pub total-insert_lt :
      (us : List String) (id : String) (t : TaskRuns) (tasks : TaskDict)
      → contains us id ≡ true
      → left t + 1 ≤ left (runs_of id tasks)
      → total us (insert id t tasks) + 1 ≤ total us tasks
  unfolding total contains
  total-insert_lt [] id t tasks member h = cc
  total-insert_lt (u ∷ us) id t tasks member h = elim (==-cases u id) [
    | inl (_, eq) ↦
        let own = subst (λ x. left t + 1 ≤ left (runs_of x tasks)) (sym eq) h in
        let same = (string_eq.decides id u).1 (sym eq) in
        rw (runs_of-insert id u t tasks, same)
          (omega (arith, own, total-insert_le us id t tasks (omega (arith, h))))
    | inr (differs, ne) ↦
        let rest = total-insert_lt us id t tasks (rw differs at member) h in
        elim (==-cases id u) [
          | inl (_, eq) ↦ absurd (ne (sym eq))
          | inr (other, _) ↦ rw (runs_of-insert id u t tasks, other) (omega (arith, rest))
        ]
  ]

  -- How many tasks of the wave have a retry left.
  unfoldable pub retriable : List TaskSpec → TaskDict → ℕ
  retriable [] tasks = 0
  retriable (task ∷ wave) tasks =
      (if leb (runs_of task.id tasks).runs max_retries then 1 else 0) + retriable wave tasks

  left-start_run_le : (t : TaskRuns) → left (start_run t) ≤ left t
  unfolding left start_run
  left-start_run_le t = omega arith

  left-start_run_lt : (t : TaskRuns) → t.runs + 1 ≤ max_retries → left (start_run t) + 1 ≤ left t
  unfolding left start_run
  left-start_run_lt t h = omega (arith, h)

-- Issuing a wave never lowers the count of a task.
runs-start_all_le :
    (wave : List TaskSpec) (id : String) (tasks : TaskDict)
    → (runs_of id tasks).runs ≤ (runs_of id (start_all wave tasks)).runs
unfolding start_all start_run
runs-start_all_le [] id tasks = omega arith
runs-start_all_le (task ∷ wave) id tasks =
    let t = start_run (runs_of task.id tasks) in
    let rest = runs-start_all_le wave id (insert task.id t tasks) in
    elim (==-cases task.id id) [
      | inl (same, eq) ↦
          let e : runs_of id (insert task.id t tasks) ≡ start_run (runs_of id tasks) =
            runs_of-insert task.id id t tasks ∙ rw (same, eq) refl in
          omega (arith, rest, ap (λ x. x.runs) e)
      | inr (differs, _) ↦
          let e : runs_of id (insert task.id t tasks) ≡ runs_of id tasks =
            runs_of-insert task.id id t tasks ∙ rw differs refl in
          omega (arith, rest, ap (λ x. x.runs) e)
    ]

-- The tasks of the wave are of the plan.
abbrev pub Known : List String → List TaskSpec → Type 0
Known us wave = All (λ t. contains us t.id ≡ true) wave

-- Each task that has a retry left when it is issued has used one up.
pub total-start_all :
    (max_retries : ℕ) (us : List String) (wave : List TaskSpec) (tasks : TaskDict)
    → Known us wave
    → retriable max_retries wave (start_all wave tasks)
        + total max_retries us (start_all wave tasks)
      ≤ total max_retries us tasks
unfolding start_all retriable
total-start_all max_retries us [] tasks known = omega arith
total-start_all max_retries us (task ∷ wave) tasks known =
    let before = runs_of task.id tasks in
    let tasks' = insert task.id (start_run before) tasks in
    let rest = total-start_all max_retries us wave tasks' known.1 in
    elim (Bool-cases (leb (runs_of task.id (start_all wave tasks')).runs max_retries)) [
      | inl within ↦
          let grown = runs-start_all_le wave task.id tasks' in
          let own : runs_of task.id tasks' ≡ start_run before =
            runs_of-insert task.id task.id (start_run before) tasks
            ∙ rw ((string_eq.decides task.id task.id).1 refl) refl in
          let bound = leb→le _ _ within in
          let first : (start_run before).runs ≤ max_retries =
            omega (arith, grown, bound, ap (λ x. x.runs) own) in
          let less =
            total-insert_lt max_retries us task.id (start_run before) tasks known.0
              (left-start_run_lt max_retries before (unfold start_run in first)) in
          rw within (omega (arith, rest, less))
      | inr over ↦
          let le =
            total-insert_le max_retries us task.id (start_run before) tasks
              (left-start_run_le max_retries before) in
          rw over (omega (arith, rest, le))
    ]

-- A task that has not run can run once, again for each retry, and once replaced.
pub total_at_start :
    (max_retries : ℕ) (us : List String) → total max_retries us [] ≡ length us * (max_retries + 2)
unfolding total left lookup
total_at_start max_retries [] = omega arith
total_at_start max_retries (u ∷ us) =
    let rest = total_at_start max_retries us in grind (arith, rest)
