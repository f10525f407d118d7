-- ===== src/Runtime/StateMachine.antt =====
-- packages/agent-runtime/src/smorx_runtime/state.py. Timestamps are microseconds; the clock's
-- reading is an argument of `transition`. A metadata value is any object, so its type is a
-- parameter. A call that raises returns the machine as it is beside the exception.
pub mod History
pub mod Terminal
pub mod Cycles
mod Samples
use smorx.Prelude.{
  ℕ, zero, suc, ◌+◌, String, Bool, true, false, not, ◌&&◌, Option, none, some, List, [], ◌∷◌, ◌++◌,
  leb, nat_beq, if◌then◌else◌, last?, Result, ok, err,
}

pub data AgentState : Type 0 where
  created inspected planned executing observed failed iterating verified blocked : AgentState

-- The position of the member in the enum: the identity that `is` and `in` compare.
abbrev pub ordinal : AgentState → ℕ
ordinal created = 0
ordinal inspected = 1
ordinal planned = 2
ordinal executing = 3
ordinal observed = 4
ordinal failed = 5
ordinal iterating = 6
ordinal verified = 7
ordinal blocked = 8

abbrev pub is : AgentState → AgentState → Bool
is s t = nat_beq (ordinal s) (ordinal t)

-- TRANSITIONS
abbrev pub transitions : AgentState → List AgentState
transitions created = inspected ∷ []
transitions inspected = planned ∷ []
transitions planned = executing ∷ []
transitions executing = observed ∷ failed ∷ []
transitions observed = iterating ∷ verified ∷ []
transitions failed = iterating ∷ blocked ∷ []
transitions iterating = executing ∷ []
transitions verified = blocked ∷ []
transitions blocked = []

abbrev pub is_in : AgentState → List AgentState → Bool
is_in t [] = false
is_in t (s ∷ ss) = if is s t then true else is_in t ss

pub record InvalidTransitionError : Type 0 where
  pub current : AgentState
  pub attempted : AgentState

pub record TransitionRecord (Object : Type 0) : Type 0 where
  pub from_state : AgentState
  pub to_state : AgentState
  pub at : ℕ
  pub reason : String
  pub metadata : List (String × Object)

pub record AgentStateMachine (Object : Type 0) : Type 0 where
  pub state : AgentState
  pub history : List (TransitionRecord Object)

module _ {Object : Type 0} where
  -- AgentStateMachine(start)
  abbrev pub new : AgentState → AgentStateMachine Object
  new start = record { state = start; history = [] }

  unfoldable pub can_transition : AgentStateMachine Object → AgentState → Bool
  can_transition m target = is_in target (transitions m.state)

  unfoldable pub next_timestamp : ℕ → List (TransitionRecord Object) → ℕ
  next_timestamp now history = elim (last? history) [
    | none ↦ now
    | some last ↦ if leb now last.at then last.at + 1 else now
  ]

  abbrev pub refuse :
      AgentState
      → AgentStateMachine Object
      → AgentStateMachine Object × Result InvalidTransitionError (TransitionRecord Object)
  refuse target m = (m, err (record { current = m.state; attempted = target }))

  unfoldable pub make_record :
      ℕ
      → AgentState
      → String
      → Option (List (String × Object))
      → AgentStateMachine Object
      → TransitionRecord Object
  unfolding next_timestamp
  make_record now target reason metadata m = record {
    from_state = m.state;
    to_state = target;
    at = next_timestamp now m.history;
    reason = reason;
    metadata = elim metadata [ none ↦ [] | some given ↦ given ];
  }

  unfoldable pub transition :
      ℕ
      → AgentState
      → String
      → Option (List (String × Object))
      → AgentStateMachine Object
      → AgentStateMachine Object × Result InvalidTransitionError (TransitionRecord Object)
  transition now target reason metadata m =
      if is m.state blocked
      then refuse target m
      else if is m.state verified && not (is target blocked)
      then refuse target m
      else if not (is_in target (transitions m.state))
      then refuse target m
      else let r = make_record now target reason metadata m in
        (record { state = target; history = m.history ++ r ∷ [] }, ok r)

  unfoldable pub reset : AgentStateMachine Object → AgentStateMachine Object
  reset m = record { state = created; history = [] }

  unfoldable pub is_terminal : AgentStateMachine Object → Bool
  is_terminal m = is_in m.state (verified ∷ blocked ∷ [])

  abbrev pub cycles_of : List (TransitionRecord Object) → ℕ
  cycles_of [] = 0
  cycles_of (r ∷ rs) =
      let rest = cycles_of rs in
      if is r.from_state iterating && is r.to_state executing then suc rest else rest

  unfoldable pub execution_cycles : AgentStateMachine Object → ℕ
  execution_cycles m = cycles_of m.history

-- One call of `transition`: what the caller asks for, and the clock's reading at that moment.
pub record Request (Object : Type 0) : Type 0 where
  pub now : ℕ
  pub target : AgentState
  pub reason : String
  pub metadata : Option (List (String × Object))

module _ {Object : Type 0} where
  abbrev pub answer : Request Object → AgentStateMachine Object → AgentStateMachine Object
  answer q m = (transition q.now q.target q.reason q.metadata m).0

  -- Any calls, one after another; the caller catches the exceptions.
  unfoldable pub run : List (Request Object) → AgentStateMachine Object → AgentStateMachine Object
  run [] m = m
  run (q ∷ qs) m = run qs (answer q m)
