-- ===== src/Runtime/StateMachine/Cycles.antt =====
-- The iteration metric.
use smorx.Prelude.{
  ℕ, suc, ◌+◌, ◌≡◌, sym, subst, Bool, List, [], ◌∷◌, ◌++◌, arith, if◌then◌else◌, inl, inr,
}
use smorx.Runtime.StateMachine.{
  created, iterating, is, TransitionRecord, AgentStateMachine, new, make_record, execution_cycles,
  cycles_of, Request, answer, run,
}
use smorx.Runtime.StateMachine.History.{answer_cases}

abbrev pub one_if : Bool → ℕ
one_if b = if b then 1 else 0

module _ {Object : Type 0} where
  -- How many records enter ITERATING.
  abbrev pub iterations_of : List (TransitionRecord Object) → ℕ
  iterations_of [] = 0
  iterations_of (r ∷ rs) =
      let rest = iterations_of rs in if is r.to_state iterating then suc rest else rest

  cycles_of-snoc :
      (rs : List (TransitionRecord Object)) (r : TransitionRecord Object)
      → cycles_of (rs ++ r ∷ []) ≡ cycles_of rs + cycles_of (r ∷ [])
  cycles_of-snoc [] r = omega arith
  cycles_of-snoc (q ∷ rs) r = ground (arith, cycles_of-snoc rs r)

  iterations_of-snoc :
      (rs : List (TransitionRecord Object)) (r : TransitionRecord Object)
      → iterations_of (rs ++ r ∷ []) ≡ iterations_of rs + iterations_of (r ∷ [])
  iterations_of-snoc [] r = omega arith
  iterations_of-snoc (q ∷ rs) r = ground (arith, iterations_of-snoc rs r)

  abbrev pub IsCounted : AgentStateMachine Object → Type 0
  IsCounted m = iterations_of m.history ≡ cycles_of m.history + one_if (is m.state iterating)

  answer-IsCounted :
      (q : Request Object) (m : AgentStateMachine Object) → IsCounted m → IsCounted (answer q m)
  unfolding make_record
  answer-IsCounted q m h = elim (answer_cases q m) [
    | inl (allowed, after) ↦
        let r = make_record q.now q.target q.reason q.metadata m in
        subst IsCounted (sym after)
          (ground (arith, h, allowed, cycles_of-snoc m.history r, iterations_of-snoc m.history r))
    | inr after ↦ subst IsCounted (sym after) h
  ]

  run-IsCounted :
      (qs : List (Request Object)) (m : AgentStateMachine Object)
      → IsCounted m
      → IsCounted (run qs m)
  unfolding run
  run-IsCounted [] m h = h
  run-IsCounted (q ∷ qs) m h = run-IsCounted qs (answer q m) (answer-IsCounted q m h)

  -- On a run from CREATED, `execution_cycles` is the number of times that the agent entered
  -- ITERATING, less one while it is still there.
  pub execution_cycles-iterations :
      (qs : List (Request Object))
      → let m = run qs (new created) in
        iterations_of m.history ≡ execution_cycles m + one_if (is m.state iterating)
  unfolding execution_cycles
  execution_cycles-iterations qs = run-IsCounted qs (new created) (omega arith)
