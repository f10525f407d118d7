-- ===== src/Runtime/LoopControls/Budget.antt =====
-- The budget: what blocks it, and that nothing unblocks it.
use smorx.Prelude.{ℕ, suc, ◌+◌, ◌-◌, ◌≤◌, ◌<◌, ◌≡◌, ◌↔◌, true, arith}
use smorx.Runtime.LoopControls.{
  LoopControls, IterationBudget, new_budget, record_iteration, record_command, record_repair,
  within_bounds,
}

-- What the caps allow.
pub record IsWithin (now : ℕ) (b : IterationBudget) : Type 0 where
  pub iterations_lt : b.iterations < b.controls.max_iterations
  pub commands_lt : b.commands < b.controls.max_command_count
  pub repairs_lt : b.repairs < b.controls.max_repair_attempts
  pub runtime_lt : now - b.started_at < b.controls.max_runtime
  pub phase_lt : now - b.started_at < b.controls.total_phase_timeout

-- The budget is within bounds exactly when every counter and the elapsed time are below their caps.
pub within_bounds-IsWithin :
    (now : ℕ) (b : IterationBudget) → (within_bounds now b ≡ true) ↔ IsWithin now b
unfolding within_bounds
within_bounds-IsWithin now b = (λ h. ground arith, λ h. ground arith)

-- What a loop records as it goes on.
pub data Step : IterationBudget → IterationBudget → Type 0 where
  iteration : (b : IterationBudget) → Step b (record_iteration b)
  command : (b : IterationBudget) → Step b (record_command b)
  repair : (b : IterationBudget) → Step b (record_repair b)

-- A run that checks the budget before each thing that it records; it counts the iterations.
pub data Run : ℕ → ℕ → IterationBudget → IterationBudget → Type 0 where
  done : (now : ℕ) (b : IterationBudget) → Run now 0 b b
  step :
      {now later n : ℕ} {b c d : IterationBudget}
      → Run now n b c
      → now ≤ later
      → within_bounds later c ≡ true
      → Step c d
      → Run later (suc n) b d

abbrev used : IterationBudget → ℕ
used b = b.iterations + b.commands + b.repairs

abbrev pub caps : LoopControls → ℕ
caps c = c.max_iterations + c.max_command_count + c.max_repair_attempts

record Bounded (n : ℕ) (b d : IterationBudget) : Type 0 where
  same_controls : d.controls ≡ b.controls
  counted : used d ≡ used b + n
  iterations_le : d.iterations ≤ b.controls.max_iterations
  commands_le : d.commands ≤ b.controls.max_command_count
  repairs_le : d.repairs ≤ b.controls.max_repair_attempts

Step-Bounded :
    (now n : ℕ) (b c d : IterationBudget)
    → Bounded n b c
    → IsWithin now c
    → Step c d
    → Bounded (suc n) b d
unfolding record_iteration record_command record_repair
Step-Bounded now n b c d h w (iteration _) = ground arith
Step-Bounded now n b c d h w (command _) = ground arith
Step-Bounded now n b c d h w (repair _) = ground arith

Run-Bounded :
    {now n : ℕ} {b d : IterationBudget}
    → b.iterations ≤ b.controls.max_iterations
    → b.commands ≤ b.controls.max_command_count
    → b.repairs ≤ b.controls.max_repair_attempts
    → Run now n b d
    → Bounded n b d
Run-Bounded i k r (done _ _) = ground arith
Run-Bounded i k r (step {later = later} {n = n} {b = b} {c = c} {d = d} run _ ok_now st) =
    Step-Bounded later n b c d (Run-Bounded i k r run) ((within_bounds-IsWithin later c).0 ok_now)
      st

-- A loop that checks the budget before whatever it records records at most as much as the
-- three caps allow together, and at most `max_iterations` iterations, whatever the clock does.
pub run_bounded :
    (start : ℕ) (c : LoopControls) {now n : ℕ} {d : IterationBudget}
    → Run now n (new_budget start c) d
    → (n ≤ caps c) × (d.iterations ≤ c.max_iterations)
unfolding new_budget
run_bounded start c run =
    let h = Run-Bounded (omega arith) (omega arith) (omega arith) run in (omega arith, omega arith)
