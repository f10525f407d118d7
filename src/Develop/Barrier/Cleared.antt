-- ===== src/Develop/Barrier/Cleared.antt =====
-- The contexts that the barrier lets pass.
use smorx.Prelude.{
  ℕ, ◌≤◌, ◌≡◌, ◌↔◌, refl, ap, String, All, contains, ◌⊎◌, inl, inr, Bool, true, false, not, ◌&&◌,
  Option, none, some, List, [], ◌∷◌, ◌++◌, arith, ltb, Bool-cases, Option-cases, List-cases,
  is_empty, string_eq, ==-cases, ok, err, and-true_inv,
}
use smorx.Precode.Rows.{LedgerRow, PlanRow, ImpactRow, Store, get_ledger, get_plan, impacts_of}
use smorx.Develop.Barrier.{
  PreCodingContext, Subject, ledger, plan, HandoffError, wrong_lock_state, ledger_successor,
  plan_successor, check_object, check_ledger, is_of_task, check_plan, record_of, pre_coding_handoff,
  conditions, ledger_conditions, impact_conditions, plan_conditions, evaluate, require_pass,
  Condition, failed_if, no_constitution, not_authorized, handoff_invalid, pass, blocked,
}

-- The ledger that the context names: locked, of its version, and no ledger names it as its parent.
abbrev pub LedgerHolds : PreCodingContext → Store → Option LedgerRow → Type 0
LedgerHolds c s none = ⊥
LedgerHolds c s (some row) =
    (row.locked ≡ true)
    × (row.version ≡ c.intent_version)
    × All (λ (other : LedgerRow). contains other.parents row.id ≡ false) s.ledgers

abbrev pub PlanHolds : PreCodingContext → Store → Option PlanRow → Type 0
PlanHolds c s none = ⊥
PlanHolds c s (some row) =
    (row.locked ≡ true)
    × (row.version ≡ c.verification_plan_version)
    × All (λ (other : PlanRow). contains other.parents row.id ≡ false) s.plans
    × ((row.task_id ≡ none) ⊎ (row.task_id ≡ some c.task_id))

-- The first map of the task.
abbrev pub ImpactHolds : PreCodingContext → List ImpactRow → Type 0
ImpactHolds c [] = ⊥
ImpactHolds c (row ∷ rows) = (row.locked ≡ true) × (row.version ≡ c.impact_map_version)

abbrev pub IsCleared : PreCodingContext → Bool → Store → Type 0
IsCleared c authorized s =
    (c.lock_state ≡ "LOCKED")
    × LedgerHolds c s (get_ledger c.intent_ledger_id s.ledgers)
    × PlanHolds c s (get_plan c.verification_plan_id s.plans)
    × (1 ≤ c.constitution_version)
    × ImpactHolds c (impacts_of c.task_id s)
    × (authorized ≡ true)

check_object-none :
    (subject : Subject) (id : String) (expected : ℕ) (locked : Bool) (version : ℕ)
    (successor : Option String)
    → (check_object subject id expected locked version successor ≡ none)
      ↔ (locked ≡ true) × (version ≡ expected) × (successor ≡ none)
unfolding check_object
check_object-none subject id expected locked version none = ground arith
check_object-none subject id expected locked version (some x) = ground arith

ledger_successor-none :
    (id : String) (rows : List LedgerRow)
    → (ledger_successor id rows ≡ none)
      ↔ All (λ (other : LedgerRow). contains other.parents id ≡ false) rows
unfolding ledger_successor
ledger_successor-none id [] = (λ h. tt, λ h. refl)
ledger_successor-none id (r ∷ rs) =
    let rest = ledger_successor-none id rs in
    elim (Bool-cases (contains r.parents id)) [
      | inl names ↦ rw names ((λ h. cc), (λ h. cc h.0))
      | inr other ↦ rw other ((λ h. (refl, rest.0 h)), (λ h. rest.1 h.1))
    ]

plan_successor-none :
    (id : String) (rows : List PlanRow)
    → (plan_successor id rows ≡ none)
      ↔ All (λ (other : PlanRow). contains other.parents id ≡ false) rows
unfolding plan_successor
plan_successor-none id [] = (λ h. tt, λ h. refl)
plan_successor-none id (r ∷ rs) =
    let rest = plan_successor-none id rs in
    elim (Bool-cases (contains r.parents id)) [
      | inl names ↦ rw names ((λ h. cc), (λ h. cc h.0))
      | inr other ↦ rw other ((λ h. (refl, rest.0 h)), (λ h. rest.1 h.1))
    ]

is_of_task_iff :
    (task_id : String) (bound : Option String)
    → (is_of_task task_id bound ≡ true) ↔ ((bound ≡ none) ⊎ (bound ≡ some task_id))
is_of_task_iff task_id none = (λ h. inl refl, λ h. refl)
is_of_task_iff task_id (some t) = elim (==-cases t task_id) [
  | inl (e, same) ↦ rw e ((λ h. inr (ap some same)), (λ h. refl))
  | inr (e, differs) ↦
      rw e ((λ h. cc), (λ h. elim h [ inl e1 ↦ cc | inr e2 ↦ absurd (differs cc) ]))
]

-- The ledger and the plan pass their checks exactly when they hold.
check_ledger-LedgerHolds :
    (c : PreCodingContext) (s : Store)
    → (check_ledger c s ≡ none) ↔ LedgerHolds c s (get_ledger c.intent_ledger_id s.ledgers)
unfolding check_ledger
check_ledger-LedgerHolds c s = elim (Option-cases (get_ledger c.intent_ledger_id s.ledgers)) [
  | inl absent ↦ rw (absent, check_ledger) ((λ h. cc), (λ h. absurd h))
  | inr (row, there) ↦
      rw (there, check_ledger)
        (let checked =
            check_object-none ledger c.intent_ledger_id c.intent_version row.locked row.version
              (ledger_successor row.id s.ledgers) in
          let last = ledger_successor-none row.id s.ledgers in
          (
            (λ h. ((checked.0 h).0, (checked.0 h).1, last.0 (checked.0 h).2)),
            (λ h. checked.1 (h.0, h.1, last.1 h.2)),
          ))
]

check_plan-PlanHolds :
    (c : PreCodingContext) (s : Store)
    → (check_plan c s ≡ none) ↔ PlanHolds c s (get_plan c.verification_plan_id s.plans)
unfolding check_plan
check_plan-PlanHolds c s = elim (Option-cases (get_plan c.verification_plan_id s.plans)) [
  | inl absent ↦ rw (absent, check_plan) ((λ h. cc), (λ h. absurd h))
  | inr (row, there) ↦
      let checked =
        check_object-none plan c.verification_plan_id c.verification_plan_version row.locked
          row.version (plan_successor row.id s.plans) in
      let last = plan_successor-none row.id s.plans in
      let bound = is_of_task_iff c.task_id row.task_id in
      rw (there, check_plan)
        (elim (Option-cases (
          check_object plan c.verification_plan_id c.verification_plan_version row.locked
            row.version (plan_successor row.id s.plans))) [
              | inr (e, bad) ↦ rw bad ((λ h. cc), (λ h. cc (bad, checked.1 (h.0, h.1, last.1 h.2))))
              | inl good ↦
                  let (locked, versioned, latest) = checked.0 good in
                  elim (Bool-cases (is_of_task c.task_id row.task_id)) [
                    | inl mine ↦
                        rw (good, mine)
                          ((λ h. (locked, versioned, last.0 latest, bound.0 mine)), (λ h. refl))
                    | inr other ↦ rw (good, other) ((λ h. cc), (λ h. cc (other, bound.1 h.3)))
                  ]
            ])
]

-- What the handoff tests.
abbrev IsCurrent : PreCodingContext → Store → Type 0
IsCurrent c s =
    (c.lock_state ≡ "LOCKED")
    × LedgerHolds c s (get_ledger c.intent_ledger_id s.ledgers)
    × PlanHolds c s (get_plan c.verification_plan_id s.plans)

is_empty-failed :
    (old : Bool) (impact : List Condition) (authorized : Bool)
    → is_empty (
        failed_if old no_constitution
        ++ (impact ++ ([] ++ failed_if (not authorized) not_authorized)))
      ≡ (not old && is_empty impact && authorized)
is_empty-failed true impact authorized = refl
is_empty-failed false [] true = refl
is_empty-failed false [] false = refl
is_empty-failed false (x ∷ xs) authorized = refl

module _ (id : String) (now : ℕ) (c : PreCodingContext) (s : Store) where
  pre_coding_handoff-cases :
      (pre_coding_handoff id now c "LOCKED" s ≡ ok (record_of id now c)) × IsCurrent c s
      ⊎ ((e : HandoffError) × (pre_coding_handoff id now c "LOCKED" s ≡ err e) × (¬ IsCurrent c s))
  unfolding pre_coding_handoff
  pre_coding_handoff-cases = elim (==-cases c.lock_state "LOCKED") [
    | inr (differs, ne) ↦
        inr (wrong_lock_state c.lock_state, rw (differs, pre_coding_handoff) refl, λ h. ne h.0)
    | inl (same, eq) ↦ elim (Option-cases (check_ledger c s)) [
      | inr (e, bad) ↦ inr (
        e,
        rw (same, bad, pre_coding_handoff) refl,
        λ h. cc (bad, (check_ledger-LedgerHolds c s).1 h.1),
      )
      | inl good ↦ elim (Option-cases (check_plan c s)) [
        | inr (e, bad) ↦ inr (
          e,
          rw (same, good, bad, pre_coding_handoff) refl,
          λ h. cc (bad, (check_plan-PlanHolds c s).1 h.2),
        )
        | inl fine ↦ inl (
          rw (same, good, fine, pre_coding_handoff) refl,
          (eq, (check_ledger-LedgerHolds c s).0 good, (check_plan-PlanHolds c s).0 fine),
        )
      ]
    ]
  ]

  ledger_conditions-nil :
      LedgerHolds c s (get_ledger c.intent_ledger_id s.ledgers)
      → ledger_conditions (record_of id now c) s ≡ []
  unfolding ledger_conditions
  ledger_conditions-nil h = elim (Option-cases (get_ledger c.intent_ledger_id s.ledgers)) [
    | inl absent ↦ absurd (rw absent at h)
    | inr (row, there) ↦ let held = rw there at h in rw (there, ledger_conditions) (rw held.0 refl)
  ]

  plan_conditions-nil :
      PlanHolds c s (get_plan c.verification_plan_id s.plans)
      → plan_conditions (record_of id now c) s ≡ []
  unfolding plan_conditions
  plan_conditions-nil h = elim (Option-cases (get_plan c.verification_plan_id s.plans)) [
    | inl absent ↦ absurd (rw absent at h)
    | inr (row, there) ↦
        let held = rw there at h in rw (there, plan_conditions) (ground (arith, held.0, held.1))
  ]

  impact_conditions-ImpactHolds :
      (is_empty (impact_conditions (record_of id now c) s) ≡ true)
      ↔ ImpactHolds c (impacts_of c.task_id s)
  unfolding impact_conditions
  impact_conditions-ImpactHolds = elim (List-cases (impacts_of c.task_id s)) [
    | inl nothing ↦ rw (nothing, impact_conditions) ((λ h. cc), (λ h. absurd h))
    | inr (row, rest, there) ↦ rw (there, impact_conditions) (ground arith)
  ]

  -- With the handoff valid, what is left to fail.
  conditions-is_empty :
      (authorized : Bool)
      → IsCurrent c s
      → (is_empty (conditions (record_of id now c) authorized s) ≡ true)
        ↔ (1 ≤ c.constitution_version)
          × ImpactHolds c (impacts_of c.task_id s)
          × (authorized ≡ true)
  unfolding conditions
  conditions-is_empty authorized (locked, led, planned) =
      let impact = impact_conditions-ImpactHolds in
      let no_plan_ = plan_conditions-nil planned in
      let split : is_empty (conditions (record_of id now c) authorized s) ≡ (
          not (ltb c.constitution_version 1)
          && is_empty (impact_conditions (record_of id now c) s)
          && authorized) =
        rw (ledger_conditions-nil led, no_plan_)
          (is_empty-failed (ltb c.constitution_version 1) (impact_conditions (record_of id now c) s)
            authorized) in
      rw split (
        (λ h.
            let (early, all) =
              and-true_inv
                (not (ltb c.constitution_version 1)
                  && is_empty (impact_conditions (record_of id now c) s))
                authorized h in
            let (versioned, mapped) = and-true_inv (not (ltb c.constitution_version 1)) _ early in
            (ground (arith, versioned), impact.0 mapped, all)),
        (λ h.
            let (versioned, mapped, all) = h in
            let empty_ = impact.1 mapped in ground (arith, versioned, empty_, all)),
      )

module _ (id : String) (now : ℕ) (c : PreCodingContext) (authorized : Bool) (s : Store) where
  evaluate-invalid :
      (e : HandoffError)
      → pre_coding_handoff id now c "LOCKED" s ≡ err e
      → evaluate id now c authorized s
        ≡ record { state = blocked; handoff = none; failed_conditions = handoff_invalid e ∷ [] }
  unfolding evaluate
  evaluate-invalid e bad = rw (bad, evaluate) refl

  evaluate-blocked :
      pre_coding_handoff id now c "LOCKED" s ≡ ok (record_of id now c)
      → is_empty (conditions (record_of id now c) authorized s) ≡ false
      → evaluate id now c authorized s ≡ record {
        state = blocked;
        handoff = some (record_of id now c);
        failed_conditions = conditions (record_of id now c) authorized s;
      }
  unfolding evaluate
  evaluate-blocked good failed = rw (good, failed, evaluate) refl

  evaluate-pass :
      pre_coding_handoff id now c "LOCKED" s ≡ ok (record_of id now c)
      → is_empty (conditions (record_of id now c) authorized s) ≡ true
      → evaluate id now c authorized s
        ≡ record { state = pass; handoff = some (record_of id now c); failed_conditions = [] }
  unfolding evaluate
  evaluate-pass good nothing = rw (good, nothing, evaluate) refl

-- `require_pass` returns the handoff of the context exactly when the context is LOCKED, the ledger and
-- the plan that it names exist, are locked and of its versions and no other row names them as its
-- parent, the plan is of its task or of none, its constitution version is 1 at least, the first map of
-- the task is locked and of its version, and the execution is authorized.
pub require_pass-IsCleared :
    (id : String) (now : ℕ) (c : PreCodingContext) (authorized : Bool) (s : Store)
    → (require_pass id now c authorized s ≡ ok (record_of id now c)) ↔ IsCleared c authorized s
unfolding require_pass
require_pass-IsCleared id now c authorized s = elim (pre_coding_handoff-cases id now c s) [
  | inr (e, bad, stale) ↦
      rw (evaluate-invalid id now c authorized s e bad, require_pass)
        ((λ h. cc), (λ h. absurd (stale (h.0, h.1, h.2))))
  | inl (good, current) ↦
      let iff = conditions-is_empty id now c s authorized current in
      elim (Bool-cases (is_empty (conditions (record_of id now c) authorized s))) [
        | inl nothing ↦
            let rest = iff.0 nothing in
            rw (evaluate-pass id now c authorized s good nothing, require_pass)
              ((λ h. (current.0, current.1, current.2, rest.0, rest.1, rest.2)), (λ h. refl))
        | inr failed ↦
            rw (evaluate-blocked id now c authorized s good failed, require_pass)
              ((λ h. cc), (λ h. cc (failed, iff.1 (h.3, h.4, h.5))))
      ]
]
