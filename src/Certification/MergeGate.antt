-- ===== src/Certification/MergeGate.antt =====
-- packages/certification/src/smorx_certification/merge_gate.py. A row is found by its id; statuses are
-- the texts of their columns. The verifier that the gate imports by name, and calls with whichever
-- arguments fit, is a parameter: None where the import fails, and else how each of the three calls
-- ends. The references of the protected behaviors are the texts that `_id_str` makes.
pub mod Authorized
pub mod Merged
pub mod Merging
use smorx.Prelude.{
  ℕ, String, Bool, true, false, not, ◌&&◌, ◌||◌, Option, none, some, List, [], ◌∷◌, ◌++◌, map,
  if◌then◌else◌, filterb, anyb, allb, contains, length, is_empty, ◌==◌, string_eq, ◌<>◌, joined,
  Result, ok, err,
}
use smorx.Certification.Alignment.{
  ItemRow, AlignmentRow, AlignmentVerdict, CertifiableStatus, certifiable, is_of_task,
}
use smorx.Certification.Rows.{CandidatePatch, CertificateRow, ChangeRow, Event, Store, TaskRow}

pub record Checks : Type 0 where
  pub certificate_certified : Bool
  pub alignment_certifiable : Bool
  pub candidate_verified : Bool
  pub integrity_intact : Bool
  pub protected_authorized : Bool

pub record MergeGateVerdict : Type 0 where
  pub allowed : Bool
  pub reason : String
  pub checks : Checks

pub data MergeGateError : Type 0 where
  not_linked : MergeGateError

-- What a verifier returns: a bool, a dict with its `valid`, or an object with its `valid`.
pub data Returned : Type 0 where
  plain keyed attribute : Bool → Returned
  other : Returned

pub data Attempt : Type 0 where
  returned : Returned → Attempt
  type_error raised : Attempt

pub data Call : Type 0 where
  by_keywords by_keywords_swapped by_position : Call

abbrev pub Verifier : Type 0
Verifier = Store → CertificateRow → Call → Attempt

unfoldable pub as_bool : Returned → Bool
as_bool (plain b) = b
as_bool (keyed valid) = valid
as_bool (attribute valid) = valid
as_bool other = false

unfoldable pub first_attempt : (Call → Attempt) → List Call → Option Bool
unfolding as_bool
first_attempt attempt [] = none
first_attempt attempt (call ∷ calls) =
    let rest = first_attempt attempt calls in
    elim (attempt call) [ returned r ↦ some (as_bool r) | type_error ↦ rest | raised ↦ some false ]

unfoldable pub integrity_result : Option Verifier → Store → CertificateRow → Option Bool
unfolding first_attempt
integrity_result none store certificate = none
integrity_result (some verifier) store certificate =
    first_attempt (verifier store certificate)
      (by_keywords ∷ by_keywords_swapped ∷ by_position ∷ [])

abbrev pub is_authorized_item : List ItemRow → String → Bool
is_authorized_item items id = anyb (λ i. i.id == id && i.authorized) items

-- The join of the alignments and the items.
unfoldable pub authorized_alignment_exists : Store → CertificateRow → Bool
authorized_alignment_exists store certificate = elim certificate.task_id [
  | none ↦ false
  | some task_id ↦
      anyb
        (λ row.
          is_of_task task_id row.task_id
          && row.status == "ALIGNED"
          && is_authorized_item store.items row.intent_item_id)
        store.alignments
]

unfoldable pub all_authorized : List String → Bool → List String → Bool
all_authorized coverage exists [] = true
all_authorized coverage exists (behavior_id ∷ behaviors) =
    let rest = all_authorized coverage exists behaviors in
    if not (is_empty coverage) && not (contains coverage behavior_id)
    then false
    else if not exists
    then false
    else rest

unfoldable pub protected_behaviors_authorized :
    Store → CertificateRow → AlignmentVerdict → List String → Bool
unfolding all_authorized authorized_alignment_exists
protected_behaviors_authorized store certificate verdict requested =
    let covered = verdict.protected_behaviors in
    let behaviors = if is_empty requested then covered else requested in
    if is_empty behaviors
    then true
    else all_authorized covered (authorized_alignment_exists store certificate) behaviors

unfoldable pub merge_event : ℕ → Store → String → CertificateRow → String → Event
merge_event now store task_id certificate change_id = record {
  entity_id = task_id;
  event_type = "MERGE";
  occurred_at = now;
  actor = "merge-gate";
  certificate_key = certificate.certificate_key;
  change_id = change_id;
  change_status = "MERGED";
  task_id = some task_id;
  sequence = length (filterb (λ e. is_of_task task_id e.task_id) store.events);
}

abbrev pub named_if : Bool → String → List String
named_if true name = []
named_if false name = name ∷ []

unfoldable pub failed_checks : Checks → List String
failed_checks c =
    named_if c.certificate_certified "certificate_certified"
    ++ (named_if c.alignment_certifiable "alignment_certifiable"
        ++ (named_if c.candidate_verified "candidate_verified"
            ++ (named_if c.integrity_intact "integrity_intact"
                ++ named_if c.protected_authorized "protected_authorized")))

unfoldable pub deny_reason : Checks → String
unfolding failed_checks joined
deny_reason c =
    let failed = joined ", " (failed_checks c) in
    if failed == "" then "merge gate blocked" else "merge gate blocked: " <> failed <> " failed"

-- all(checks.values())
unfoldable pub all_pass : Checks → Bool
all_pass c =
    c.certificate_certified && c.alignment_certifiable && c.candidate_verified && c.integrity_intact
    && c.protected_authorized

abbrev pub no_checks : Checks
no_checks = record {
  certificate_certified = false;
  alignment_certifiable = false;
  candidate_verified = false;
  integrity_intact = false;
  protected_authorized = false;
}

abbrev pub denied : String → Checks → MergeGateVerdict
denied reason checks = record { allowed = false; reason = reason; checks = checks }

abbrev pub is_certifiable : CertifiableStatus → Bool
is_certifiable certifiable = true
is_certifiable _ = false

-- The checks before the integrity is asked.
unfoldable pub first_checks : CertificateRow → AlignmentVerdict → CandidatePatch → Checks
first_checks certificate verdict patch = record no_checks {
  certificate_certified = certificate.status == "CERTIFIED";
  alignment_certifiable = verdict.aligned && is_certifiable verdict.status;
  candidate_verified = patch.status == "VERIFIED";
}

unfoldable pub all_checks :
    Store → CertificateRow → AlignmentVerdict → CandidatePatch → List String → Bool → Checks
unfolding first_checks protected_behaviors_authorized
all_checks store certificate verdict patch requested integrity =
    record (first_checks certificate verdict patch) {
      integrity_intact = integrity;
      protected_authorized = protected_behaviors_authorized store certificate verdict requested;
    }

unfoldable pub merge_task : String → List TaskRow → List TaskRow
merge_task id [] = []
merge_task id (t ∷ ts) =
    (if t.id == id then record t { status = "MERGED" } else t) ∷ merge_task id ts

unfoldable pub merge_change : String → List ChangeRow → List ChangeRow
merge_change id [] = []
merge_change id (c ∷ cs) =
    (if c.id == id then record c { status = "MERGED" } else c) ∷ merge_change id cs

-- The relationships of the patch, which may be missing.
abbrev pub is_linked : Store → CandidatePatch → Bool
is_linked store patch =
    anyb (λ t. t.id == patch.task_id) store.tasks
    && anyb (λ c. c.id == patch.change_id) store.changes

abbrev pub pass_reason : String
pass_reason =
    "certificate CERTIFIED, intent alignment CERTIFIABLE, candidate re-verified, integrity intact, protected behaviors authorized"

-- The transition after the checks.
unfoldable pub merged : ℕ → Store → CertificateRow → CandidatePatch → Store
unfolding merge_task merge_change merge_event
merged now store certificate patch = record store {
  tasks = merge_task patch.task_id store.tasks;
  changes = merge_change patch.change_id store.changes;
  events = store.events ++ merge_event now store patch.task_id certificate patch.change_id ∷ [];
}

unfoldable pub pass_gate :
    ℕ
    → Store
    → CertificateRow
    → CandidatePatch
    → Checks
    → Result MergeGateError MergeGateVerdict × Store
unfolding all_pass deny_reason merged
pass_gate now store certificate patch checks =
    if not (all_pass checks)
    then (ok (denied (deny_reason checks) checks), store)
    else if not (is_linked store patch)
    then (err not_linked, store)
    else (
      ok (record { allowed = true; reason = pass_reason; checks = checks }),
      merged now store certificate patch,
    )

unfoldable pub evaluate_merge_gate :
    Option Verifier
    → ℕ
    → Store
    → Option CertificateRow
    → AlignmentVerdict
    → Option CandidatePatch
    → List String
    → Result MergeGateError MergeGateVerdict × Store
unfolding integrity_result first_checks all_checks pass_gate
evaluate_merge_gate verifier now store none verdict patch requested =
    (ok (denied "no certificate" no_checks), store)
evaluate_merge_gate verifier now store (some certificate) verdict none requested =
    (ok (denied "no candidate patch" no_checks), store)
evaluate_merge_gate verifier now store (some certificate) verdict (some patch) requested =
    elim (integrity_result verifier store certificate) [
      | none ↦ (
        ok (denied "certification modules unavailable" (first_checks certificate verdict patch)),
        store,
      )
      | some integrity ↦
          pass_gate now store certificate patch
            (all_checks store certificate verdict patch requested integrity)
    ]
