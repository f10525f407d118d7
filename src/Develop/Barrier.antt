-- ===== src/Develop/Barrier.antt =====
-- packages/develop/src/smorx_develop/handoff.py and barrier.py. The id and the time of a handoff are
-- arguments; a context is its identities, versions and lock state.
pub mod Cleared
mod Samples
use smorx.Prelude.{
  ℕ, String, Bool, true, false, not, ◌&&◌, ◌||◌, Option, none, some, List, [], ◌∷◌, ◌++◌,
  if◌then◌else◌, ltb, nat_beq, is_empty, contains, ◌==◌, string_eq, Result, ok, err,
}
use smorx.Precode.Rows.{LedgerRow, PlanRow, ImpactRow, Store, get_ledger, get_plan, impacts_of}

pub record PreCodingContext : Type 0 where
  pub context_id : String
  pub task_id : String
  pub change_id : String
  pub intent_ledger_id : String
  pub constitution_id : String
  pub semantic_impact_id : String
  pub verification_plan_id : String
  pub intent_version : ℕ
  pub constitution_version : ℕ
  pub impact_map_version : ℕ
  pub verification_plan_version : ℕ
  pub lock_state : String

pub record HandoffRecord : Type 0 where
  pub handoff_id : String
  pub context_id : String
  pub task_id : String
  pub change_id : String
  pub intent_ledger_id : String
  pub verification_plan_id : String
  pub intent_version : ℕ
  pub constitution_version : ℕ
  pub impact_map_version : ℕ
  pub verification_plan_version : ℕ
  pub lock_state : String
  pub received_at : ℕ
  pub context : PreCodingContext

-- Whether the ledger or the plan is meant.
pub data Subject : Type 0 where
  ledger plan : Subject

pub data HandoffError : Type 0 where
  wrong_lock_state : String → HandoffError
  missing unlocked : Subject → String → HandoffError
  moved : Subject → ℕ → ℕ → HandoffError
  superseded : Subject → String → HandoffError
  task_mismatch : String → HandoffError

-- `_successor_id`: the first row whose parent reference names the id.
unfoldable pub ledger_successor : String → List LedgerRow → Option String
unfolding contains
ledger_successor id [] = none
ledger_successor id (r ∷ rs) = if contains r.parents id then some r.id else ledger_successor id rs

unfoldable pub plan_successor : String → List PlanRow → Option String
unfolding contains
plan_successor id [] = none
plan_successor id (r ∷ rs) = if contains r.parents id then some r.id else plan_successor id rs

-- The four tests of a persisted object, where it is found.
unfoldable pub check_object : Subject → String → ℕ → Bool → ℕ → Option String → Option HandoffError
check_object subject id expected locked version successor =
    if not locked
    then some (unlocked subject id)
    else if not (nat_beq version expected)
    then some (moved subject expected version)
    else elim successor [ none ↦ none | some other ↦ some (superseded subject other) ]

unfoldable pub check_ledger : PreCodingContext → Store → Option HandoffError
unfolding get_ledger ledger_successor check_object
check_ledger c s = elim (get_ledger c.intent_ledger_id s.ledgers) [
  | none ↦ some (missing ledger c.intent_ledger_id)
  | some row ↦
      check_object ledger c.intent_ledger_id c.intent_version row.locked row.version
        (ledger_successor row.id s.ledgers)
]

abbrev pub is_of_task : String → Option String → Bool
is_of_task task_id none = true
is_of_task task_id (some t) = t == task_id

unfoldable pub check_plan : PreCodingContext → Store → Option HandoffError
unfolding get_plan plan_successor check_object
check_plan c s = elim (get_plan c.verification_plan_id s.plans) [
  | none ↦ some (missing plan c.verification_plan_id)
  | some row ↦
      elim (check_object plan c.verification_plan_id c.verification_plan_version row.locked
        row.version (plan_successor row.id s.plans)) [
          | some e ↦ some e
          | none ↦ if is_of_task c.task_id row.task_id then none else some (task_mismatch c.task_id)
        ]
]

abbrev pub record_of : String → ℕ → PreCodingContext → HandoffRecord
record_of id now c = record {
  handoff_id = id;
  context_id = c.context_id;
  task_id = c.task_id;
  change_id = c.change_id;
  intent_ledger_id = c.intent_ledger_id;
  verification_plan_id = c.verification_plan_id;
  intent_version = c.intent_version;
  constitution_version = c.constitution_version;
  impact_map_version = c.impact_map_version;
  verification_plan_version = c.verification_plan_version;
  lock_state = c.lock_state;
  received_at = now;
  context = c;
}

unfoldable pub pre_coding_handoff :
    String → ℕ → PreCodingContext → String → Store → Result HandoffError HandoffRecord
unfolding check_ledger check_plan
pre_coding_handoff id now c expected s =
    if not (c.lock_state == expected)
    then err (wrong_lock_state c.lock_state)
    else elim (check_ledger c s) [
      | some e ↦ err e
      | none ↦ elim (check_plan c s) [ some e ↦ err e | none ↦ ok (record_of id now c) ]
    ]

pub data Condition : Type 0 where
  handoff_invalid : HandoffError → Condition
  no_ledger ledger_unlocked no_constitution : Condition
  no_impact impact_unlocked impact_mismatch : Condition
  no_plan plan_unlocked plan_mismatch not_authorized : Condition

pub data BarrierState : Type 0 where
  pass blocked : BarrierState

pub record BarrierVerdict : Type 0 where
  pub state : BarrierState
  pub handoff : Option HandoffRecord
  pub failed_conditions : List Condition

abbrev pub failed_if : Bool → Condition → List Condition
failed_if true c = c ∷ []
failed_if false c = []

unfoldable pub ledger_conditions : HandoffRecord → Store → List Condition
unfolding get_ledger
ledger_conditions h s = elim (get_ledger h.intent_ledger_id s.ledgers) [
  | none ↦ no_ledger ∷ []
  | some row ↦ failed_if (not row.locked) ledger_unlocked
]

unfoldable pub impact_conditions : HandoffRecord → Store → List Condition
impact_conditions h s = elim (impacts_of h.task_id s) [
  | [] ↦ no_impact ∷ []
  | row ∷ rows ↦
      if not row.locked
      then impact_unlocked ∷ []
      else failed_if (not (nat_beq row.version h.impact_map_version)) impact_mismatch
]

unfoldable pub plan_conditions : HandoffRecord → Store → List Condition
unfolding get_plan
plan_conditions h s = elim (get_plan h.verification_plan_id s.plans) [
  | none ↦ no_plan ∷ []
  | some row ↦
      if not row.locked
      then plan_unlocked ∷ []
      else failed_if (not (nat_beq row.version h.verification_plan_version)) plan_mismatch
]

-- What `evaluate` records, in its order.
unfoldable pub conditions : HandoffRecord → Bool → Store → List Condition
unfolding ledger_conditions impact_conditions plan_conditions
conditions h authorized s =
    ledger_conditions h s
    ++ (failed_if (ltb h.constitution_version 1) no_constitution
        ++ (impact_conditions h s
            ++ (plan_conditions h s ++ failed_if (not authorized) not_authorized)))

unfoldable pub evaluate : String → ℕ → PreCodingContext → Bool → Store → BarrierVerdict
unfolding pre_coding_handoff conditions
evaluate id now c authorized s = elim (pre_coding_handoff id now c "LOCKED" s) [
  | err e ↦ record { state = blocked; handoff = none; failed_conditions = handoff_invalid e ∷ [] }
  | ok h ↦
      let failed = conditions h authorized s in
      if not (is_empty failed)
      then record { state = blocked; handoff = some h; failed_conditions = failed }
      else record { state = pass; handoff = some h; failed_conditions = [] }
]

abbrev pub is_pass : BarrierState → Bool
is_pass pass = true
is_pass blocked = false

-- The BarrierError has the failed conditions.
unfoldable pub require_pass :
    String → ℕ → PreCodingContext → Bool → Store → Result (List Condition) HandoffRecord
unfolding evaluate
require_pass id now c authorized s =
    let verdict = evaluate id now c authorized s in
    if not (is_pass verdict.state)
    then err verdict.failed_conditions
    else elim verdict.handoff [ none ↦ err verdict.failed_conditions | some h ↦ ok h ]
