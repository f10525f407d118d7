-- ===== src/Runtime/LoopControls/Samples.antt =====
-- Tests and examples of the loop controls.
use smorx.Prelude.{◌≤◌, ◌≡◌, refl, ◌↔◌, true, [], ◌∷◌, arith, none, some, ok}
use smorx.Runtime.LoopControls.{
  strict, validate, for_env, NoProgressDetector, new_detector, observe, IterationBudget, new_budget,
  record_iteration, record_command, within_bounds,
}
use smorx.Runtime.LoopControls.Bounds.{IsValid, Tighter, validate-IsValid, for_env-IsValid}
use smorx.Runtime.LoopControls.Detector.{start, next, are_last, observe-are_last}
use smorx.Runtime.LoopControls.Budget.{
  IsWithin, within_bounds-IsWithin, Run, done, step, iteration, command, caps, run_bounded,
}

accepted_controls : (validate strict ≡ ok strict) ↔ IsValid strict × (strict ≡ strict)
accepted_controls = validate-IsValid strict strict

controls_hold :
    IsValid (for_env "production") × Tighter (for_env "production") (for_env "development")
controls_hold = for_env-IsValid "production"

abbrev fresh : NoProgressDetector
fresh = record { threshold = 2; signature = none; consecutive = 0 }

fresh_is : new_detector 2 ≡ some fresh
unfolding new_detector
fresh_is = refl

observe-are_last_example :
    (observe "E1" (observe "E1" fresh).0).1 ≡ are_last 2 "E1" ("E1" ∷ "E1" ∷ [])
observe-are_last_example =
    observe-are_last 2 ("E1" ∷ []) (observe "E1" fresh).0 "E1" (next "E1" (start fresh fresh_is))

bounds_hold : (within_bounds 7 (new_budget 5 strict) ≡ true) ↔ IsWithin 7 (new_budget 5 strict)
bounds_hold = within_bounds-IsWithin 7 (new_budget 5 strict)

abbrev two_steps : IterationBudget
two_steps = record_command (record_iteration (new_budget 5 strict))

two_steps_run : Run 7 2 (new_budget 5 strict) two_steps
unfolding within_bounds new_budget record_iteration
two_steps_run =
    step {now = 6} {later = 7}
      (step {now = 5} {later = 6} (done 5 (new_budget 5 strict)) (omega arith) refl (iteration _))
      (omega arith) refl (command _)

run_bounded_example : (2 ≤ caps strict) × (two_steps.iterations ≤ strict.max_iterations)
run_bounded_example = run_bounded 5 strict two_steps_run
