-- ===== src/Certification/Rows.antt =====
-- The rows that packages/certification/src/smorx_certification/merge_gate.py reads and writes, from
-- packages/behavior/src/smorx_behavior/models/entities.py, by the columns that it uses.
use smorx.Prelude.{ℕ, String, Option, List}
use smorx.Certification.Alignment.{ItemRow, AlignmentRow}

pub record CertificateRow : Type 0 where
  pub id : String
  pub certificate_key : String
  pub status : String
  pub task_id : Option String

pub record CandidatePatch : Type 0 where
  pub id : String
  pub status : String
  pub task_id : String
  pub change_id : String

pub record TaskRow : Type 0 where
  pub id : String
  pub status : String

pub record ChangeRow : Type 0 where
  pub id : String
  pub status : String

-- A ConsequentialEvent of the gate, and of the others what the count reads.
pub record Event : Type 0 where
  pub entity_id : String
  pub event_type : String
  pub occurred_at : ℕ
  pub actor : String
  pub certificate_key : String
  pub change_id : String
  pub change_status : String
  pub task_id : Option String
  pub sequence : ℕ

pub record Store : Type 0 where
  pub tasks : List TaskRow
  pub changes : List ChangeRow
  pub items : List ItemRow
  pub alignments : List AlignmentRow
  pub events : List Event
