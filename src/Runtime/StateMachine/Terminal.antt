-- ===== src/Runtime/StateMachine/Terminal.antt =====
-- VERIFIED and BLOCKED, and what a run has to do to reach VERIFIED.
use smorx.Prelude.{
  ℕ, suc, ◌≤◌, ◌≡◌, refl, sym, subst, inl, inr, true, List, [], ◌∷◌, arith, length, length-append,
}
use smorx.Runtime.StateMachine.{
  AgentState, created, inspected, planned, executing, observed, failed, iterating, verified,
  blocked, AgentStateMachine, new, make_record, transition, is_terminal, Request, answer, run,
}
use smorx.Runtime.StateMachine.History.{IsAllowed, answer_cases}

-- The least number of moves from CREATED.
abbrev depth : AgentState → ℕ
depth created = 0
depth inspected = 1
depth planned = 2
depth executing = 3
depth observed = 4
depth failed = 4
depth iterating = 5
depth verified = 5
depth blocked = 5

depth-IsAllowed : (s t : AgentState) → IsAllowed s t → depth t ≤ suc (depth s)
depth-IsAllowed s t h = ground arith

module _ {Object : Type 0} where
  answer_blocked :
      (q : Request Object) (m : AgentStateMachine Object) → m.state ≡ blocked → answer q m ≡ m
  unfolding transition
  answer_blocked q m h = ground arith

  -- BLOCKED absorbs: no calls change a blocked machine, its history included.
  pub run_blocked :
      (qs : List (Request Object)) (m : AgentStateMachine Object) → m.state ≡ blocked → run qs m ≡ m
  unfolding run
  run_blocked [] m h = refl
  run_blocked (q ∷ qs) m h = rw (answer_blocked q m h) (run_blocked qs m h)

  answer_terminal :
      (q : Request Object) (m : AgentStateMachine Object)
      → is_terminal m ≡ true
      → is_terminal (answer q m) ≡ true
  unfolding transition is_terminal
  answer_terminal q m h = ground arith

  -- A machine that is VERIFIED or BLOCKED stays so, whatever is asked of it.
  pub run-is_terminal :
      (qs : List (Request Object)) (m : AgentStateMachine Object)
      → is_terminal m ≡ true
      → is_terminal (run qs m) ≡ true
  unfolding run
  run-is_terminal [] m h = h
  run-is_terminal (q ∷ qs) m h = run-is_terminal qs (answer q m) (answer_terminal q m h)

  abbrev IsDeep : AgentStateMachine Object → Type 0
  IsDeep m = depth m.state ≤ length m.history

  answer-depth :
      (q : Request Object) (m : AgentStateMachine Object) → IsDeep m → IsDeep (answer q m)
  answer-depth q m h = elim (answer_cases q m) [
    | inl (allowed, after) ↦
        let r = make_record q.now q.target q.reason q.metadata m in
        subst IsDeep (sym after) (
          omega (arith, length-append m.history (r ∷ []), depth-IsAllowed m.state q.target allowed))
    | inr after ↦ subst IsDeep (sym after) h
  ]

  run-depth :
      (qs : List (Request Object)) (m : AgentStateMachine Object) → IsDeep m → IsDeep (run qs m)
  unfolding run
  run-depth [] m h = h
  run-depth (q ∷ qs) m h = run-depth qs (answer q m) (answer-depth q m h)

  -- No run from CREATED is VERIFIED, or BLOCKED, before five recorded moves.
  pub terminal_needs_moves :
      (qs : List (Request Object))
      → is_terminal (run qs (new created)) ≡ true
      → 5 ≤ length (run qs (new created)).history
  unfolding is_terminal
  terminal_needs_moves qs h = ground (arith, run-depth qs (new created) (omega arith))
