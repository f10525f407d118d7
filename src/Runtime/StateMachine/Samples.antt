-- ===== src/Runtime/StateMachine/Samples.antt =====
-- Tests and examples of the state machine: a run that is verified after one iteration.
use smorx.Prelude.{ℕ, ◌≤◌, ◌+◌, ◌≡◌, refl, ◌⊎◌, true, none, List, [], ◌∷◌, length}
use smorx.Runtime.StateMachine.{
  AgentState, created, inspected, planned, executing, observed, iterating, verified, blocked, is,
  AgentStateMachine, new, make_record, transition, execution_cycles, is_terminal, Request, run,
}
use smorx.Runtime.StateMachine.History.{
  IsWellFormed, Moved, Refused, transition_cases, run-IsWellFormed,
}
use smorx.Runtime.StateMachine.Terminal.{run_blocked, run-is_terminal, terminal_needs_moves}
use smorx.Runtime.StateMachine.Cycles.{one_if, iterations_of, execution_cycles-iterations}

-- The clock stands still for the first calls, and goes back for the last ones.
abbrev ask : ℕ → AgentState → Request ℕ
ask now target = record { now = now; target = target; reason = ""; metadata = none }

-- One of the requests is not in the table.
abbrev requests : List (Request ℕ)
requests =
    ask 10 inspected
    ∷ ask 10 planned
    ∷ ask 10 verified
    ∷ ask 12 executing
    ∷ ask 13 observed
    ∷ ask 9 iterating
    ∷ ask 9 executing
    ∷ ask 8 observed
    ∷ ask 8 verified
    ∷ []

abbrev ended : AgentStateMachine ℕ
ended = run requests (new created)

ended-is_terminal : is_terminal ended ≡ true
unfolding run is_terminal transition
ended-is_terminal = refl

cycles_of_ended : execution_cycles ended ≡ 1
unfolding run execution_cycles transition make_record
cycles_of_ended = refl

abbrev stuck : AgentStateMachine ℕ
stuck = record { state = blocked; history = [] }

run-IsWellFormed_example : IsWellFormed created ended
run-IsWellFormed_example = run-IsWellFormed created requests

transition_cases_example :
    Moved 3 blocked "no way on" none ended ⊎ Refused 3 blocked "no way on" none ended
transition_cases_example = transition_cases 3 blocked "no way on" none ended

blocked_stays : run requests stuck ≡ stuck
blocked_stays = run_blocked requests stuck refl

ended_stays : is_terminal (run requests ended) ≡ true
ended_stays = run-is_terminal requests ended ended-is_terminal

moves_of_ended : 5 ≤ length ended.history
moves_of_ended = terminal_needs_moves requests ended-is_terminal

cycles_counted :
    iterations_of ended.history ≡ execution_cycles ended + one_if (is ended.state iterating)
cycles_counted = execution_cycles-iterations requests
