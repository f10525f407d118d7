-- ===== src/Runtime/LoopControls.antt =====
-- packages/agent-runtime/src/smorx_runtime/loop_controls.py: the validated bounds, the detector of
-- repeated failures and the iteration budget. Seconds are whole microseconds, and a bound below
-- zero, which the validation rejects as it rejects zero where it must be positive, has no value
-- here. The clock's reading is an argument. Overrides from the environment are left out.
pub mod Bounds
pub mod Detector
pub mod Budget
mod Samples
use smorx.Prelude.{
  ℕ, zero, suc, ◌+◌, ◌-◌, String, Bool, true, false, not, ◌&&◌, Option, none, some, List, [], ◌∷◌,
  ◌++◌, if◌then◌else◌, ltb, leb, nat_beq, allb, is_empty, ◌==◌, string_eq, Result, ok, err,
}

pub record LoopControls : Type 0 where
  pub max_iterations : ℕ
  pub max_runtime : ℕ
  pub max_command_count : ℕ
  pub max_repair_attempts : ℕ
  pub no_progress_threshold : ℕ
  pub tool_timeouts : List (String × ℕ)
  pub per_agent_timeout : ℕ
  pub total_phase_timeout : ℕ

-- LoopControls()
abbrev pub defaults : LoopControls
defaults = record {
  max_iterations = 25;
  max_runtime = 7200000000;
  max_command_count = 200;
  max_repair_attempts = 5;
  no_progress_threshold = 3;
  tool_timeouts = ("*", 120000000) ∷ [];
  per_agent_timeout = 1800000000;
  total_phase_timeout = 14400000000;
}

abbrev pub strict : LoopControls
strict = record {
  max_iterations = 8;
  max_runtime = 1800000000;
  max_command_count = 60;
  max_repair_attempts = 2;
  no_progress_threshold = 2;
  tool_timeouts = ("*", 60000000) ∷ [];
  per_agent_timeout = 600000000;
  total_phase_timeout = 3600000000;
}

-- The constraints of the fields: `ge=1`, `gt=0`, `ge=2` and the timeouts' validator.
unfoldable pub fields_hold : LoopControls → Bool
fields_hold c =
    leb 1 c.max_iterations
    && ltb 0 c.max_runtime
    && leb 1 c.max_command_count
    && leb 2 c.no_progress_threshold
    && allb (λ t. ltb 0 t.1) c.tool_timeouts
    && ltb 0 c.per_agent_timeout
    && ltb 0 c.total_phase_timeout

pub data ControlsError : Type 0 where
  bad_field repairs_above_iterations threshold_above_iterations agent_above_phase : ControlsError

-- LoopControls(...): the fields' constraints first, then `_check_bound_ordering`.
unfoldable pub validate : LoopControls → Result ControlsError LoopControls
unfolding fields_hold
validate c =
    if not (fields_hold c)
    then err bad_field
    else if ltb c.max_iterations c.max_repair_attempts
    then err repairs_above_iterations
    else if ltb c.max_iterations c.no_progress_threshold
    then err threshold_above_iterations
    else if ltb c.total_phase_timeout c.per_agent_timeout
    then err agent_above_phase
    else ok c

unfoldable pub get_timeout : String → List (String × ℕ) → Option ℕ
get_timeout tool [] = none
get_timeout tool ((name, seconds) ∷ rest) =
    if name == tool then some seconds else get_timeout tool rest

unfoldable pub tool_timeout_seconds : LoopControls → String → ℕ
unfolding get_timeout
tool_timeout_seconds c tool = elim (get_timeout tool c.tool_timeouts) [
  | some timeout ↦ timeout
  | none ↦ elim (get_timeout "*" c.tool_timeouts) [ some timeout ↦ timeout | none ↦ 120000000 ]
]

unfoldable pub for_env : String → LoopControls
for_env app_env = if app_env == "development" then defaults else strict

pub record NoProgressDetector : Type 0 where
  pub threshold : ℕ
  pub signature : Option String
  pub consecutive : ℕ

-- NoProgressDetector(threshold); `none` stands for the ValueError.
unfoldable pub new_detector : ℕ → Option NoProgressDetector
new_detector threshold =
    if ltb threshold 2
    then none
    else some (record { threshold = threshold; signature = none; consecutive = 0 })

abbrev pub is_signature : String → Option String → Bool
is_signature s none = false
is_signature s (some t) = t == s

unfoldable pub observe : String → NoProgressDetector → NoProgressDetector × Bool
observe signature d =
    let d' =
      if is_signature signature d.signature
      then record d { consecutive = d.consecutive + 1 }
      else record d { signature = some signature; consecutive = 1 } in
    (d', leb d'.threshold d'.consecutive)

unfoldable pub reset : NoProgressDetector → NoProgressDetector
reset d = record d { signature = none; consecutive = 0 }

pub record IterationBudget : Type 0 where
  pub controls : LoopControls
  pub iterations : ℕ
  pub commands : ℕ
  pub repairs : ℕ
  pub started_at : ℕ

unfoldable pub new_budget : ℕ → LoopControls → IterationBudget
new_budget now controls = record {
  controls = controls;
  iterations = 0;
  commands = 0;
  repairs = 0;
  started_at = now;
}

unfoldable pub record_iteration : IterationBudget → IterationBudget
record_iteration b = record b { iterations = b.iterations + 1 }

unfoldable pub record_command : IterationBudget → IterationBudget
record_command b = record b { commands = b.commands + 1 }

unfoldable pub record_repair : IterationBudget → IterationBudget
record_repair b = record b { repairs = b.repairs + 1 }

abbrev pub elapsed : ℕ → IterationBudget → ℕ
elapsed now b = now - b.started_at

pub data Reason : Type 0 where
  iterations_exceeded commands_exceeded repairs_exceeded runtime_exceeded phase_timeout_exceeded :
      Reason

abbrev pub reason_if : Bool → Reason → List Reason
reason_if true r = r ∷ []
reason_if false r = []

unfoldable pub blocked_reasons : ℕ → IterationBudget → List Reason
blocked_reasons now b =
    reason_if (leb b.controls.max_iterations b.iterations) iterations_exceeded
    ++ (reason_if (leb b.controls.max_command_count b.commands) commands_exceeded
        ++ (reason_if (leb b.controls.max_repair_attempts b.repairs) repairs_exceeded
            ++ (reason_if (leb b.controls.max_runtime (elapsed now b)) runtime_exceeded
                ++ reason_if (leb b.controls.total_phase_timeout (elapsed now b))
                    phase_timeout_exceeded)))

unfoldable pub within_bounds : ℕ → IterationBudget → Bool
unfolding blocked_reasons
within_bounds now b = is_empty (blocked_reasons now b)
