-- ===== src/Runtime/LoopControls/Bounds.antt =====
-- What the validation of the bounds guarantees.
use smorx.Prelude.{
  ◌≤◌, ◌<◌, ◌≡◌, sym, ◌∙◌, ap, ◌↔◌, String, inl, inr, true, arith, Bool-cases, allb, ltb, ok, ◌==◌,
  string_eq,
}
use smorx.Runtime.LoopControls.{LoopControls, validate, for_env}

-- The invariants that the class states.
pub record IsValid (c : LoopControls) : Type 0 where
  pub iterations_pos : 1 ≤ c.max_iterations
  pub runtime_pos : 0 < c.max_runtime
  pub commands_pos : 1 ≤ c.max_command_count
  pub threshold_two : 2 ≤ c.no_progress_threshold
  pub repairs_within : c.max_repair_attempts ≤ c.max_iterations
  pub threshold_within : c.no_progress_threshold ≤ c.max_iterations
  pub agent_pos : 0 < c.per_agent_timeout
  pub agent_within : c.per_agent_timeout ≤ c.total_phase_timeout
  pub timeouts_pos : allb (λ t. ltb 0 t.1) c.tool_timeouts ≡ true

validate_of_IsValid : (c : LoopControls) → IsValid c → validate c ≡ ok c
unfolding validate
validate_of_IsValid c v = ground arith

IsValid-of_validate : (c c' : LoopControls) → validate c ≡ ok c' → IsValid c
unfolding validate
IsValid-of_validate c c' h = ground arith

-- Validation accepts exactly the controls that meet the invariants of the class, and leaves them
-- unchanged.
pub validate-IsValid : (c c' : LoopControls) → (validate c ≡ ok c') ↔ IsValid c × (c' ≡ c)
validate-IsValid c c' = (
  λ h.
      let v = IsValid-of_validate c c' h in
      let unchanged = validate_of_IsValid c v in (v, cc (h, unchanged)),
  λ (v, same). validate_of_IsValid c v ∙ ap ok (sym same),
)

-- The strict profile bounds every loop at least as tightly as the other.
pub record Tighter (c d : LoopControls) : Type 0 where
  pub iterations_le : c.max_iterations ≤ d.max_iterations
  pub runtime_le : c.max_runtime ≤ d.max_runtime
  pub commands_le : c.max_command_count ≤ d.max_command_count
  pub repairs_le : c.max_repair_attempts ≤ d.max_repair_attempts
  pub threshold_le : c.no_progress_threshold ≤ d.no_progress_threshold
  pub agent_le : c.per_agent_timeout ≤ d.per_agent_timeout
  pub phase_le : c.total_phase_timeout ≤ d.total_phase_timeout

-- Every app environment gets controls that meet the invariants, and none gets looser bounds than
-- development.
pub for_env-IsValid :
    (app_env : String)
    → IsValid (for_env app_env) × Tighter (for_env app_env) (for_env "development")
unfolding for_env
for_env-IsValid app_env = elim (Bool-cases (app_env == "development")) [
  | inl dev ↦ rw dev (ground arith)
  | inr other ↦ rw other (ground arith)
]
