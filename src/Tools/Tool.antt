-- ===== src/Tools/Tool.antt =====
-- packages/tools/src/smorx_tools/tool.py. A value of a mapping is a text, a number, an exit code, a
-- list of texts or anything else, which stands as its text. Times are microseconds, and timeouts whole
-- seconds. A handler, which runs under `asyncio.wait_for`, is what it does on a request. The creation
-- time of a request and the provenance of a result are left out.
pub mod Registry
use smorx.Prelude.{
  ℕ, String, Bool, true, false, ◌||◌, Option, none, some, List, [], ◌∷◌, ◌++◌, map, if◌then◌else◌,
  nat_beq, filterb, ◌==◌, string_eq, Result, ok, err,
}
use smorx.Verification.Contracts.{ExitCode}

pub data Value : Type 0 where
  plain : String → Value
  number : ℕ → Value
  exit : ExitCode → Value
  texts : List String → Value
  other : String → Value

abbrev pub Mapping : Type 0
Mapping = List (String × Value)

pub data ToolKind : Type 0 where
  repository file command test sandbox verification model policy control : ToolKind

pub data ToolResultStatus : Type 0 where
  succeeded failed timeout error denied blocked pending_review unavailable : ToolResultStatus

unfoldable pub is_success : ToolResultStatus → Bool
is_success succeeded = true
is_success _ = false

pub record ToolRequest : Type 0 where
  pub request_id : String
  pub action_id : String
  pub agent_id : String
  pub task_id : String
  pub tool_name : String
  pub arguments : Mapping
  pub assignment_capabilities : List String
  pub allowed_tools : List String
  pub phase : String
  pub environment : String
  pub timeout_seconds : ℕ
  pub sandbox_id : String

pub record ToolExecutionResult : Type 0 where
  pub invocation_id : String
  pub tool_name : String
  pub request_id : String
  pub status : ToolResultStatus
  pub started_at : ℕ
  pub finished_at : ℕ
  pub duration_seconds : ℕ
  pub exit_code : Option ExitCode
  pub stdout : String
  pub stderr : String
  pub artifacts : Mapping
  pub error_classification : String
  pub timeout_seconds : ℕ
  pub sandbox_id : String
  pub message : String

-- How the handler's run ends: a result, the timeout, or another exception, which stands as its type's
-- name and its text.
pub data HandlerRun : Type 0 where
  returned : ToolExecutionResult → HandlerRun
  timed_out : HandlerRun
  raised : String → HandlerRun

pub record ToolSpec : Type 0 where
  pub name : String
  pub kind : ToolKind
  pub description : String
  pub capability : String
  pub risk : String
  pub timeout_seconds : ℕ
  pub requires_sandbox : Bool
  pub mutates : Bool
  pub requires_approval : Bool
  pub handler : Option (ToolRequest → HandlerRun)

-- The list of specs and the dict by name.
pub record ToolRegistry : Type 0 where
  pub specs : List ToolSpec
  pub by_name : List (String × ToolSpec)

abbrev pub empty_registry : ToolRegistry
empty_registry = record { specs = []; by_name = [] }

-- self._by_name.get(name)
unfoldable pub get_from : String → List (String × ToolSpec) → Option ToolSpec
get_from name [] = none
get_from name ((n, spec) ∷ by_name) = if n == name then some spec else get_from name by_name

unfoldable pub get : ToolRegistry → String → Option ToolSpec
unfolding get_from
get registry name = get_from name registry.by_name

abbrev pub is_known : Option ToolSpec → Bool
is_known none = false
is_known (some spec) = true

-- `err` is the ValueError with the name; a new key of the dict goes to its end.
unfoldable pub register : ToolSpec → ToolRegistry → Result String ToolRegistry
unfolding get
register spec registry =
    if is_known (get registry spec.name)
    then err spec.name
    else ok (record {
      specs = registry.specs ++ spec ∷ [];
      by_name = registry.by_name ++ (spec.name, spec) ∷ [];
    })

unfoldable pub names : ToolRegistry → List String
names registry = map (λ spec. spec.name) registry.specs

unfoldable pub tools_for_capability : String → ToolRegistry → List ToolSpec
tools_for_capability capability registry =
    filterb (λ spec. spec.capability == "*" || spec.capability == capability) registry.specs
