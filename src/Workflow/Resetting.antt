-- ===== src/Workflow/Resetting.antt =====
-- What a reset of a run removes, and what it keeps.
use smorx.Prelude.{
  ℕ, ◌≡◌, refl, ◌∙◌, ap, String, ◌⊎◌, inl, inr, Bool, true, false, not, ◌&&◌, Option, none, some,
  List, [], ◌∷◌, ◌++◌, map, arith, Bool-cases, filterb, ◌==◌, string_eq, Result, ok, err, length,
  lookup, lookup-insert, ==-refl, ==-cases,
}
use smorx.Workflow.Events.{flag, Event, Run, Store, Codec, of_run}
use smorx.Workflow.Reliability.{
  ReliabilityReport, find_run, set_run, requeue, delete_run_rows, reset_workflow, bound_to,
  executes,
}

module _ {A : Type 0} (p : A → Bool) where
  filterb-dropped : (xs : List A) → filterb p (filterb (λ x. not (p x)) xs) ≡ []
  filterb-dropped [] = refl
  filterb-dropped (x ∷ xs) = ground (arith, filterb-dropped xs)

  filterb_twice : (xs : List A) → filterb p (filterb p xs) ≡ filterb p xs
  filterb_twice [] = refl
  filterb_twice (x ∷ xs) = elim (Bool-cases (p x)) [
    | inl kept ↦ rw kept (ground (arith, kept, filterb_twice xs))
    | inr dropped ↦ rw dropped (filterb_twice xs)
  ]

-- Of a table's rows the ones of the run are gone, and the others are kept.
abbrev pub Cleared : {A : Type 0} → (A → Bool) → List A → List A → Type 0
Cleared own before after =
    (filterb own after ≡ [])
    × (filterb (λ x. not (own x)) after ≡ filterb (λ x. not (own x)) before)

filterb-Cleared :
    {A : Type 0} (own : A → Bool) (rows : List A)
    → Cleared own rows (filterb (λ x. not (own x)) rows)
filterb-Cleared own rows = (filterb-dropped own rows, filterb_twice (λ x. not (own x)) rows)

-- Where the run has a row, the row is queued again.
abbrev pub IsQueued : Option Run → Option Run → Type 0
IsQueued none none = Unit
IsQueued (some old) (some new) =
    (new.status ≡ "QUEUED")
    × (new.finished_at ≡ none)
    × (lookup "demo_reset" new.environment ≡ some (flag true))
IsQueued _ _ = ⊥

find_run-miss :
    (id : String) (r : Run) (rs : List Run)
    → (r.id == id) ≡ false
    → find_run id (r ∷ rs) ≡ find_run id rs
unfolding find_run
find_run-miss id r rs h = rw h refl

find_run-hit :
    (id : String) (r : Run) (rs : List Run) → (r.id == id) ≡ true → find_run id (r ∷ rs) ≡ some r
unfolding find_run
find_run-hit id r rs h = rw h refl

set_run-miss :
    (run r : Run) (rs : List Run)
    → (r.id == run.id) ≡ false
    → set_run (requeue run) (r ∷ rs) ≡ r ∷ set_run (requeue run) rs
unfolding set_run requeue
set_run-miss run r rs h = rw h refl

set_run-hit :
    (run r : Run) (rs : List Run)
    → (r.id == run.id) ≡ true
    → set_run (requeue run) (r ∷ rs) ≡ requeue run ∷ rs
unfolding set_run requeue
set_run-hit run r rs h = rw h refl

find_run-set_run_nil :
    (run : Run) → IsQueued (find_run run.id []) (find_run run.id (set_run (requeue run) []))
unfolding find_run set_run
find_run-set_run_nil run = tt

find_run-set_run :
    (run : Run) (runs : List Run)
    → IsQueued (find_run run.id runs) (find_run run.id (set_run (requeue run) runs))
unfolding requeue
find_run-set_run run [] = find_run-set_run_nil run
find_run-set_run run (r ∷ rs) = elim (Bool-cases (r.id == run.id)) [
  | inl here ↦
      rw
        (
          find_run-hit run.id r rs here,
          set_run-hit run r rs here,
          find_run-hit run.id (requeue run) rs (==-refl run.id),
        )
        (refl, refl, lookup-insert "demo_reset" "demo_reset" (flag true) run.environment)
  | inr elsewhere ↦
      rw
        (
          find_run-miss run.id r rs elsewhere,
          set_run-miss run r rs elsewhere,
          find_run-miss run.id r (set_run (requeue run) rs) elsewhere,
        )
        (find_run-set_run run rs)
]

find_run-set_run_other :
    (run : Run) (other : String) (runs : List Run)
    → (run.id == other) ≡ false
    → find_run other (set_run (requeue run) runs) ≡ find_run other runs
unfolding find_run set_run requeue
find_run-set_run_other run other [] differs = refl
find_run-set_run_other run other (r ∷ rs) differs = elim (==-cases r.id run.id) [
  | inl (e, same) ↦
      let left : (r.id == other) ≡ false = ap (λ x. x == other) same ∙ differs in
      rw (e, left, differs) refl
  | inr (e, _) ↦ ground (arith, e, find_run-set_run_other run other rs differs)
]

-- A reset that is not allowed changes nothing. One that is: of the four tables the rows of the run are
-- gone and all the others are kept, but for one new event of the task that belongs to no run; the run
-- is queued again and the other runs stay; the report has the events that were removed, and the number
-- of rows that were removed from each table.
abbrev pub Reset :
    Run → String → Bool → ℕ → Store → Result String (Store × ReliabilityReport) → Type 0
Reset run other allowed id s (err e) = ⊥
Reset run other allowed id s (ok (s', report)) =
    (allowed ≡ false) × (report.applied ≡ false) × (report.cleaned ≡ []) × (s' ≡ s)
    ⊎ (allowed ≡ true)
      × (report.applied ≡ true)
      × ((left : List Event) × (event : Event) × (s'.events ≡ left ++ event ∷ [])
          × Cleared (of_run run.id) s.events left
          × (event.id ≡ id)
          × (event.run_id ≡ none)
          × (event.task_id ≡ some run.task_id))
      × Cleared (bound_to run.id) s.evidence s'.evidence
      × Cleared (bound_to run.id) s.failures s'.failures
      × Cleared (executes run.id) s.executions s'.executions
      × IsQueued (find_run run.id s.runs) (find_run run.id s'.runs)
      × (find_run other s'.runs ≡ find_run other s.runs)
      × (report.removed_event_ids ≡ map (λ (e : Event). e.id) (filterb (of_run run.id) s.events))
      × (report.cleaned
          ≡ ("events", length (filterb (of_run run.id) s.events))
            ∷ ("evidence", length (filterb (bound_to run.id) s.evidence))
            ∷ ("failures", length (filterb (bound_to run.id) s.failures))
            ∷ ("executions", length (filterb (executes run.id) s.executions))
            ∷ [])

-- For every other run: a reset is refused and changes nothing, unless it is allowed and of the demo
-- only. Then of the events, the evidence, the failures and the executions those of the run are gone and
-- all the others are kept, but for one new event of the task that belongs to no run; where the run has
-- a row it is QUEUED, without an end and marked as reset; the other run's row stays; the report names
-- the events that were removed and counts the rows of each table.
pub reset_workflow-Reset :
    (codec : Codec) (run : Run) (other : String) (allow demo : Bool) (id now : ℕ) (s : Store)
    → (run.id == other) ≡ false
    → Reset run other (allow && demo) id s (reset_workflow codec run allow demo id now s)
unfolding reset_workflow delete_run_rows
reset_workflow-Reset codec run other false demo id now s differs = inl (refl, refl, refl, refl)
reset_workflow-Reset codec run other true false id now s differs = inl (refl, refl, refl, refl)
reset_workflow-Reset codec run other true true id now s differs = inr (
  refl,
  refl,
  (_, _, refl, filterb-Cleared (of_run run.id) s.events, refl, refl, refl),
  filterb-Cleared (bound_to run.id) s.evidence,
  filterb-Cleared (bound_to run.id) s.failures,
  filterb-Cleared (executes run.id) s.executions,
  find_run-set_run run s.runs,
  find_run-set_run_other run other s.runs differs,
  refl,
  refl,
)
