-- ===== src/Develop/Bounds.antt =====
-- packages/develop/src/smorx_develop/bounds.py: the budget of a loop and its controller. The
-- clock's reading, in microseconds, is an argument; a budget below zero has no value here.
use smorx.Prelude.{
  ℕ, ◌+◌, ◌-◌, ◌*◌, max, String, Bool, true, false, ◌&&◌, Option, none, some, List, [], ◌∷◌, ◌++◌,
  if◌then◌else◌, leb, length, drop, allb, ◌==◌, string_eq,
}

pub record LoopBounds : Type 0 where
  pub max_iterations : ℕ
  pub max_runtime_seconds : ℕ
  pub max_commands : ℕ
  pub max_repair_attempts : ℕ
  pub no_progress_threshold : ℕ
  pub per_tool_timeout_seconds : ℕ
  pub per_agent_timeout_seconds : ℕ

-- LoopBounds()
abbrev pub default_bounds : LoopBounds
default_bounds = record {
  max_iterations = 5;
  max_runtime_seconds = 600;
  max_commands = 40;
  max_repair_attempts = 3;
  no_progress_threshold = 2;
  per_tool_timeout_seconds = 60;
  per_agent_timeout_seconds = 300;
}

-- The bound that a BoundsExhaustedError names.
pub data Bound : Type 0 where
  iterations_bound runtime_bound commands_bound repairs_bound : Bound

-- LoopBoundsController with its _MutableState.
pub record LoopBoundsController : Type 0 where
  pub bounds : LoopBounds
  pub iteration : ℕ
  pub commands : ℕ
  pub repairs : ℕ
  pub started_at : ℕ
  pub recent_signatures : List String

-- LoopBoundsController(bounds)
unfoldable pub new_controller : ℕ → LoopBounds → LoopBoundsController
new_controller now bounds = record {
  bounds = bounds;
  iteration = 0;
  commands = 0;
  repairs = 0;
  started_at = now;
  recent_signatures = [];
}

-- The bound that is exhausted, if one is; the code raises then.
unfoldable pub check : ℕ → LoopBoundsController → Option Bound
check now c =
    if leb c.bounds.max_iterations c.iteration
    then some iterations_bound
    else if leb (c.bounds.max_runtime_seconds * 1000000) (now - c.started_at)
    then some runtime_bound
    else if leb c.bounds.max_commands c.commands
    then some commands_bound
    else if leb c.bounds.max_repair_attempts c.repairs
    then some repairs_bound
    else none

unfoldable pub record_iteration : LoopBoundsController → LoopBoundsController × ℕ
record_iteration c = (record c { iteration = c.iteration + 1 }, c.iteration + 1)

unfoldable pub record_command : LoopBoundsController → LoopBoundsController × ℕ
record_command c = (record c { commands = c.commands + 1 }, c.commands + 1)

unfoldable pub record_repair : LoopBoundsController → LoopBoundsController × ℕ
record_repair c = (record c { repairs = c.repairs + 1 }, c.repairs + 1)

-- len(set(recent)) == 1
abbrev pub is_single : List String → Bool
is_single [] = false
is_single (s ∷ recent) = allb (λ t. t == s) recent

abbrev pub threshold_of : LoopBounds → ℕ
threshold_of bounds = max 1 bounds.no_progress_threshold

unfoldable pub record_execution_signature :
    String → LoopBoundsController → LoopBoundsController × Bool
record_execution_signature signature c =
    let recent = c.recent_signatures ++ signature ∷ [] in
    let threshold = threshold_of c.bounds in
    if leb threshold (length recent) && is_single (drop (length recent - threshold) recent)
    then (record c { recent_signatures = [] }, true)
    else (record c { recent_signatures = recent }, false)
