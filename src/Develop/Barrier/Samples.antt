-- ===== src/Develop/Barrier/Samples.antt =====
-- A context that passes the barrier, and what stops others.
use smorx.Prelude.{◌≡◌, ◌↔◌, refl, true, false, none, some, [], ◌∷◌, contains, string_eq, ok, err}
use smorx.Precode.Rows.{LedgerRow, Store}
use smorx.Develop.Barrier.{
  PreCodingContext, Subject, HandoffError, Condition, record_of, require_pass,
}
use smorx.Develop.Barrier.Cleared.{IsCleared, require_pass-IsCleared}

abbrev ledger_row : LedgerRow
ledger_row = record { id = "l"; version = 1; locked = true; parents = [] }

abbrev store : Store
store = record {
  ledgers = ledger_row ∷ [];
  plans = record { id = "p"; task_id = some "t"; version = 2; locked = true; parents = [] } ∷ [];
  impacts =
      record {
        id = "m";
        task_id = "t";
        intent_item_id = none;
        description = none;
        scope_nodes = [];
        scope_relationships = [];
        impacted_behaviors = [];
        impacted_artifacts = [];
        status = "LOCKED";
        version = 1;
        locked = true;
      }
      ∷ [];
}

abbrev context : PreCodingContext
context = record {
  context_id = "c";
  task_id = "t";
  change_id = "change";
  intent_ledger_id = "l";
  constitution_id = "constitution";
  semantic_impact_id = "m";
  verification_plan_id = "p";
  intent_version = 1;
  constitution_version = 1;
  impact_map_version = 1;
  verification_plan_version = 2;
  lock_state = "LOCKED";
}

-- A second ledger that names the first as its parent.
abbrev bumped : Store
bumped = record store {
  ledgers = ledger_row ∷ record { id = "l2"; version = 2; locked = true; parents = "l" ∷ [] } ∷ [];
}

barrier_tests :
    (require_pass "h" 7 context true store ≡ ok (record_of "h" 7 context))
    × (require_pass "h" 7 context false store ≡ err (Condition.not_authorized ∷ []))
    × (require_pass "h" 7
          (record context { impact_map_version = 2; constitution_version = 0 })
          true
          store
        ≡ err (Condition.no_constitution ∷ Condition.impact_mismatch ∷ []))
    × (require_pass "h" 7 context true bumped
        ≡ err (Condition.handoff_invalid (HandoffError.superseded Subject.ledger "l2") ∷ []))
unfolding require_pass contains
barrier_tests = (refl, refl, refl, refl)

require_pass-IsCleared_example :
    (require_pass "h" 7 context true store ≡ ok (record_of "h" 7 context))
    ↔ IsCleared context true store
require_pass-IsCleared_example = require_pass-IsCleared "h" 7 context true store
