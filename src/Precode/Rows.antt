-- ===== src/Precode/Rows.antt =====
-- The rows that the pre-coding modules read and write, from
-- packages/behavior/src/smorx_behavior/models/entities.py by the columns that they use, in the order
-- of their primary keys. The parents of a row are the ids that its parent references name.
use smorx.Prelude.{
  ℕ, String, Bool, Option, none, some, List, [], ◌∷◌, if◌then◌else◌, filterb, ◌==◌, string_eq,
}

pub record LedgerRow : Type 0 where
  pub id : String
  pub version : ℕ
  pub locked : Bool
  pub parents : List String

pub record PlanRow : Type 0 where
  pub id : String
  pub task_id : Option String
  pub version : ℕ
  pub locked : Bool
  pub parents : List String

-- The value under a key of a node or a relationship.
pub data Scalar : Type 0 where
  text : String → Scalar
  flag : Bool → Scalar

abbrev pub Fields : Type 0
Fields = List (String × Scalar)

pub record ImpactRow : Type 0 where
  pub id : String
  pub task_id : String
  pub intent_item_id : Option String
  pub description : Option String
  pub scope_nodes : List Fields
  pub scope_relationships : List Fields
  pub impacted_behaviors : List String
  pub impacted_artifacts : List String
  pub status : String
  pub version : ℕ
  pub locked : Bool

pub record Store : Type 0 where
  pub ledgers : List LedgerRow
  pub plans : List PlanRow
  pub impacts : List ImpactRow

-- session.get(IntentLedger, id)
unfoldable pub get_ledger : String → List LedgerRow → Option LedgerRow
get_ledger id [] = none
get_ledger id (r ∷ rs) = if r.id == id then some r else get_ledger id rs

unfoldable pub get_plan : String → List PlanRow → Option PlanRow
get_plan id [] = none
get_plan id (r ∷ rs) = if r.id == id then some r else get_plan id rs

-- list_(session, SemanticImpact, task_id=task_id)
abbrev pub impacts_of : String → Store → List ImpactRow
impacts_of task_id s = filterb (λ row. row.task_id == task_id) s.impacts
