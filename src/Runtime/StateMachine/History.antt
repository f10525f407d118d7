-- ===== src/Runtime/StateMachine/History.antt =====
-- The append-only history of the machine.
use smorx.Prelude.{
  ℕ, ◌+◌, ◌≤◌, String, ◌≡◌, refl, sym, ap, subst, ◌⊎◌, inl, inr, true, false, Option, List, [], ◌∷◌,
  ◌++◌, arith, ok, err, Bool-cases,
}
use smorx.Runtime.StateMachine.{
  AgentState, transitions, is_in, TransitionRecord, AgentStateMachine, new, can_transition,
  next_timestamp, make_record, transition, Request, answer, run,
}

-- The transition table allows a move from `s` to `t`.
abbrev pub IsAllowed : AgentState → AgentState → Type 0
IsAllowed s t = is_in t (transitions s) ≡ true

module _ {Object : Type 0} where
  -- The records lead from one state to the other, each by a move of the table.
  abbrev pub IsChain : AgentState → List (TransitionRecord Object) → AgentState → Type 0
  IsChain s [] t = s ≡ t
  IsChain s (r ∷ rs) t =
      (r.from_state ≡ s) × IsAllowed r.from_state r.to_state × IsChain r.to_state rs t

  -- Each timestamp is at least the bound and above the one before it.
  abbrev pub IsIncreasing : ℕ → List (TransitionRecord Object) → Type 0
  IsIncreasing low [] = Unit
  IsIncreasing low (r ∷ rs) = (low ≤ r.at) × IsIncreasing (r.at + 1) rs

  abbrev floor : ℕ → List (TransitionRecord Object) → ℕ
  floor low [] = low
  floor low (r ∷ rs) = floor (r.at + 1) rs

  IsChain-snoc :
      (s : AgentState) (rs : List (TransitionRecord Object)) (r : TransitionRecord Object)
      → IsChain s rs r.from_state
      → IsAllowed r.from_state r.to_state
      → IsChain s (rs ++ r ∷ []) r.to_state
  IsChain-snoc s [] r h a = (sym h, a, refl)
  IsChain-snoc s (q ∷ rs) r h a = (h.0, h.1, IsChain-snoc q.to_state rs r h.2 a)

  IsIncreasing-snoc :
      (low : ℕ) (rs : List (TransitionRecord Object)) (r : TransitionRecord Object)
      → IsIncreasing low rs
      → floor low rs ≤ r.at
      → IsIncreasing low (rs ++ r ∷ [])
  IsIncreasing-snoc low [] r h b = (b, tt)
  IsIncreasing-snoc low (q ∷ rs) r h b = (h.0, IsIncreasing-snoc (q.at + 1) rs r h.1 b)

  -- Whatever the clock reads, the next timestamp is above the last one.
  floor-next_timestamp :
      (low now : ℕ) (q : TransitionRecord Object) (rs : List (TransitionRecord Object))
      → floor low (q ∷ rs) ≤ next_timestamp now (q ∷ rs)
  unfolding next_timestamp
  floor-next_timestamp low now q [] = ground arith
  floor-next_timestamp low now q (r ∷ rs) = floor-next_timestamp (q.at + 1) now r rs

  floor_zero : (now : ℕ) (rs : List (TransitionRecord Object)) → floor 0 rs ≤ next_timestamp now rs
  unfolding next_timestamp
  floor_zero now [] = omega arith
  floor_zero now (q ∷ rs) = unfold next_timestamp in floor-next_timestamp 0 now q rs

  -- What `transition` does, on every branch.
  pub record Moved (now : ℕ) (target : AgentState) (reason : String)
      (metadata : Option (List (String × Object))) (m : AgentStateMachine Object) : Type 0 where
    pub allowed : IsAllowed m.state target
    pub after : transition now target reason metadata m ≡ (
      record {
        state = target;
        history = m.history ++ make_record now target reason metadata m ∷ [];
      },
      ok (make_record now target reason metadata m),
    )

  pub record Refused (now : ℕ) (target : AgentState) (reason : String)
      (metadata : Option (List (String × Object))) (m : AgentStateMachine Object) : Type 0 where
    pub not_allowed : can_transition m target ≡ false
    pub after :
        transition now target reason metadata m
        ≡ (m, err (record { current = m.state; attempted = target }))

  -- The guards before the table test forbid nothing that the table allows: a call moves along the
  -- table and appends its record, or leaves the machine alone and raises.
  pub transition_cases :
      (now : ℕ) (target : AgentState) (reason : String) (metadata : Option (List (String × Object)))
      (m : AgentStateMachine Object)
      → Moved now target reason metadata m ⊎ Refused now target reason metadata m
  unfolding transition can_transition
  transition_cases now target reason metadata m = elim (Bool-cases (can_transition m target)) [
    | inl h ↦ inl (record { allowed = h; after = ground arith })
    | inr h ↦ inr (record { not_allowed = h; after = ground arith })
  ]

  -- The history leads from `start` to the present state, with increasing timestamps.
  pub record IsWellFormed (start : AgentState) (m : AgentStateMachine Object) : Type 0 where
    pub chained : IsChain start m.history m.state
    pub increasing : IsIncreasing 0 m.history

  -- The same of the machine alone, for one call of a run.
  pub answer_cases :
      (q : Request Object) (m : AgentStateMachine Object)
      → IsAllowed m.state q.target
          × (answer q m ≡ record {
            state = q.target;
            history = m.history ++ make_record q.now q.target q.reason q.metadata m ∷ [];
          })
        ⊎ (answer q m ≡ m)
  answer_cases q m = elim (transition_cases q.now q.target q.reason q.metadata m) [
    | inl moved ↦ inl (moved.allowed, ap (λ t. t.0) moved.after)
    | inr refused ↦ inr (ap (λ t. t.0) refused.after)
  ]

  answer-IsWellFormed :
      (start : AgentState) (q : Request Object) (m : AgentStateMachine Object)
      → IsWellFormed start m
      → IsWellFormed start (answer q m)
  unfolding make_record
  answer-IsWellFormed start q m h = elim (answer_cases q m) [
    | inl (allowed, after) ↦
        let r = make_record q.now q.target q.reason q.metadata m in
        subst (IsWellFormed start) (sym after) (record {
          chained = IsChain-snoc start m.history r h.chained allowed;
          increasing = IsIncreasing-snoc 0 m.history r h.increasing (floor_zero q.now m.history);
        })
    | inr after ↦ subst (IsWellFormed start) (sym after) h
  ]

  run_from-IsWellFormed :
      (start : AgentState) (qs : List (Request Object)) (m : AgentStateMachine Object)
      → IsWellFormed start m
      → IsWellFormed start (run qs m)
  unfolding run
  run_from-IsWellFormed start [] m h = h
  run_from-IsWellFormed start (q ∷ qs) m h =
      run_from-IsWellFormed start qs (answer q m) (answer-IsWellFormed start q m h)

  -- After any calls on a new machine, at any clock readings, the history is a chain of moves of the
  -- table from the start to the present state, and its timestamps strictly increase.
  pub run-IsWellFormed :
      (start : AgentState) (qs : List (Request Object)) → IsWellFormed start (run qs (new start))
  run-IsWellFormed start qs =
      run_from-IsWellFormed start qs (new start) (record { chained = refl; increasing = tt })
