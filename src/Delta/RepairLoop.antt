-- ===== src/Delta/RepairLoop.antt =====
-- packages/delta/src/smorx_delta/repair_loop.py. What a pass reads from outside (the clock, a fresh
-- id) is a `Moment`, given for each pass. It is the loop without a session: the rows that one would
-- persist, and the errors of an id that is no UUID, are left out, and so are the notes of an iteration,
-- which its outcome determines.
pub mod Affected
mod Signatures
pub mod Iterations
pub mod Bounded
mod Samples
use smorx.Prelude.{
  ℕ, zero, suc, ◌+◌, String, Bool, true, false, not, ◌&&◌, ◌||◌, Option, none, some, List, [], ◌∷◌,
  ◌++◌, map, if◌then◌else◌, is_empty, length, filterb, ◌==◌, string_eq, lookup, Result, ok, err,
  ◌<>◌, joined, str,
}
use smorx.Verification.Contracts.{ClaimAssessment, contradicting, Contradiction, VerificationResult}
use smorx.Develop.Bounds.{
  LoopBounds, Bound, LoopBoundsController, new_controller, check, record_repair, record_iteration,
  record_execution_signature,
}
use smorx.Delta.Deltas.{AlignmentStatus, BehavioralDeltaRecord}
use smorx.Delta.Intent.{IntentAlignmentRecord}
use smorx.Delta.Decision.{DecisionCode, repair_required, CertificationDecision}
use smorx.Delta.Repair.{RepairPlanError, RepairPackageRecord, build_repair_package}

pub record RepairIteration : Type 0 where
  pub iteration : ℕ
  pub repair : RepairPackageRecord
  pub candidate_index : ℕ
  pub status : String
  pub started_at : String
  pub finished_at : String
  pub outcome : String

pub data BlockedReason : Type 0 where
  no_reason : BlockedReason
  not_required : BlockedReason
  bound_exhausted : Bound → BlockedReason
  nothing_to_repair : BlockedReason
  no_evidence : String → BlockedReason
  no_progress_at : ℕ → BlockedReason

pub record RepairLoopResult : Type 0 where
  pub decision_code : DecisionCode
  pub candidate_patch_id : String
  pub iterations : List RepairIteration
  pub allow_continue : Bool
  pub blocked_reason : BlockedReason

-- delta_by_claim.get(claim_id): the first delta of a claim counts.
unfoldable pub first_delta : String → List BehavioralDeltaRecord → Option BehavioralDeltaRecord
first_delta claim_id [] = none
first_delta claim_id (d ∷ ds) = if d.claim_id == claim_id then some d else first_delta claim_id ds

unfoldable pub first_alignment : String → List IntentAlignmentRecord → Option IntentAlignmentRecord
first_alignment claim_id [] = none
first_alignment claim_id (a ∷ as_) =
    if a.claim_id == claim_id then some a else first_alignment claim_id as_

-- dict.fromkeys: each key once, in the order of the first of its places.
unfoldable pub keys_of : List String → List String
keys_of [] = []
keys_of (k ∷ ks) = k ∷ filterb (λ j. not (j == k)) (keys_of ks)

abbrev pub is_pending : AlignmentStatus → Bool
is_pending AlignmentStatus.pending = true
is_pending _ = false

abbrev pub delta_needs : Option BehavioralDeltaRecord → Bool
delta_needs none = false
delta_needs (some d) =
    elim d.authorized [ some false ↦ true | _ ↦ false ] || is_pending d.intent_alignment

abbrev pub alignment_needs : Option IntentAlignmentRecord → Bool
alignment_needs none = false
alignment_needs (some a) = is_pending a.status

abbrev pub claim_needs : Option ClaimAssessment → Bool
claim_needs (some contradicting) = true
claim_needs _ = false

unfoldable pub needs_repair :
    List BehavioralDeltaRecord
    → List IntentAlignmentRecord
    → List (String × ClaimAssessment)
    → String
    → Bool
unfolding first_delta first_alignment lookup
needs_repair deltas alignments claims claim_id =
    delta_needs (first_delta claim_id deltas)
    || alignment_needs (first_alignment claim_id alignments)
    || claim_needs (lookup claim_id claims)

unfoldable pub first_that : (String → Bool) → List String → Option String
first_that p [] = none
first_that p (k ∷ ks) = if p k then some k else first_that p ks

unfoldable pub find_affected_claim :
    List BehavioralDeltaRecord
    → List IntentAlignmentRecord
    → List (String × ClaimAssessment)
    → Option String
unfolding keys_of needs_repair first_that
find_affected_claim deltas alignments claims =
    first_that (needs_repair deltas alignments claims) (
      keys_of
        (keys_of (map (λ d. d.claim_id) deltas) ++ keys_of (map (λ a. a.claim_id) alignments)))

unfoldable pub gather_evidence_ids : VerificationResult → String → List String
gather_evidence_ids result affected_claim_id =
    map (λ r. r.evidence_id) (filterb (λ r. r.claim_id == affected_claim_id) result.evidence)

abbrev pub default_texts : String × String
default_texts =
    ("protected behavior must be preserved", "verification detected contradicting evidence")

abbrev pub expected_text : String → Contradiction → String
expected_text claim_id c =
    if is_empty c.supporting
    then "protected behavior must be preserved"
    else "expected behavior must satisfy claim "
      <> claim_id
      <> "; supporting types: "
      <> joined ", " c.supporting

abbrev pub observed_parts : Contradiction → List String
observed_parts c =
    (if is_empty c.contradicting
      then []
      else ("contradicting types: " <> joined ", " c.contradicting) ∷ [])
    ++ (if c.detail == "" then [] else c.detail ∷ [])

abbrev pub observed_text : String → Contradiction → String
observed_text claim_id c =
    if is_empty (observed_parts c)
    then "verification detected contradicting evidence"
    else "claim " <> claim_id <> " — " <> joined "; " (observed_parts c)

-- The first contradiction about the claim counts.
unfoldable pub derive_repair_text : String → List Contradiction → String × String
unfolding joined
derive_repair_text claim_id [] = default_texts
derive_repair_text claim_id (c ∷ cs) =
    if c.claim_id == claim_id
    then (expected_text claim_id c, observed_text claim_id c)
    else derive_repair_text claim_id cs

pub record Moment : Type 0 where
  pub now : ℕ
  pub id : String
  pub started : String
  pub created : String
  pub finished : String

-- The local variables of the loop.
pub record Looping : Type 0 where
  pub controller : LoopBoundsController
  pub iterations : List RepairIteration
  pub allow_continue : Bool
  pub blocked_reason : BlockedReason

-- A pass goes on to the next one, or breaks.
pub data Pass : Type 0 where
  next : Looping → Pass
  break : Looping → Pass

abbrev pub stop : BlockedReason → Looping → Pass
stop reason s = break (record s { blocked_reason = reason })

module _ (result : VerificationResult) (deltas : List BehavioralDeltaRecord)
    (alignments : List IntentAlignmentRecord) where
  -- The end of a pass, with the package built.
  unfoldable pub record_pass : Moment → String → RepairPackageRecord → Looping → Pass
  unfolding record_repair record_execution_signature record_iteration str
  record_pass m signature repair s =
      let c1 = (record_repair s.controller).0 in
      let (c2, no_progress) = record_execution_signature signature c1 in
      let (c3, iteration_num) = record_iteration c2 in
      let s' : Looping = record {
        controller = c3;
        iterations =
            s.iterations
            ++ record {
              iteration = iteration_num;
              repair = repair;
              candidate_index = iteration_num + 1;
              status = "CREATED";
              started_at = m.started;
              finished_at = m.finished;
              outcome = if no_progress then "NO_PROGRESS" else "PROCEED";
            }
              ∷ [];
        allow_continue = true;
        blocked_reason = s.blocked_reason;
      } in
      if no_progress then stop (no_progress_at iteration_num) s' else next s'

  abbrev pub required_outcome : String
  required_outcome =
      "candidate patches must be re-verified; no repeat of the observed divergence is acceptable"

  abbrev pub signature_of : String → String
  signature_of claim_id =
      claim_id
      <> ":"
      <> str (length (gather_evidence_ids result claim_id))
      <> ":"
      <> (derive_repair_text claim_id result.contradictions).1

  unfoldable pub repair_claim : Moment → String → Looping → Result RepairPlanError Pass
  unfolding gather_evidence_ids derive_repair_text build_repair_package record_pass
  repair_claim m claim_id s =
      let evidence_ids = gather_evidence_ids result claim_id in
      let (expected, observed) = derive_repair_text claim_id result.contradictions in
      if is_empty evidence_ids
      then ok (stop (no_evidence claim_id) s)
      else elim (build_repair_package m.id m.created ("F-" <> claim_id) claim_id expected observed
          evidence_ids required_outcome) [
            | err e ↦ err e
            | ok repair ↦ ok (record_pass m (signature_of claim_id) repair s)
          ]

  unfoldable pub pass : Moment → Looping → Result RepairPlanError Pass
  pass m s = elim (check m.now s.controller) [
    | some bound ↦ ok (stop (bound_exhausted bound) s)
    | none ↦ elim (find_affected_claim deltas alignments result.claims) [
      | none ↦ ok (stop nothing_to_repair s)
      | some claim_id ↦ repair_claim m claim_id s
    ]
  ]

  -- The passes that are left of `range(1, max_iterations + 1)`, from the one with that number.
  unfoldable pub passes : ℕ → ℕ → (ℕ → Moment) → Looping → Result RepairPlanError Looping
  unfolding pass
  passes zero i moments s = ok s
  passes (suc left) i moments s = elim (pass (moments i) s) [
    | err e ↦ err e
    | ok (break s') ↦ ok s'
    | ok (next s') ↦ passes left (suc i) moments s'
  ]

  unfoldable pub run_repair_loop :
      ℕ
      → (ℕ → Moment)
      → LoopBounds
      → String
      → CertificationDecision
      → Result RepairPlanError RepairLoopResult
  unfolding passes new_controller
  run_repair_loop start moments bounds candidate_patch_id decision = elim decision.code [
    | repair_required ↦
        elim (passes bounds.max_iterations 1 moments (record {
          controller = new_controller start bounds;
          iterations = [];
          allow_continue = false;
          blocked_reason = no_reason;
        })) [
          | err e ↦ err e
          | ok s ↦ ok (record {
            decision_code = repair_required;
            candidate_patch_id = candidate_patch_id;
            iterations = s.iterations;
            allow_continue = s.allow_continue;
            blocked_reason = s.blocked_reason;
          })
        ]
    | code ↦ ok (record {
      decision_code = code;
      candidate_patch_id = candidate_patch_id;
      iterations = [];
      allow_continue = false;
      blocked_reason = not_required;
    })
  ]
