-- ===== src/Verification/Fusion.antt =====
-- packages/verification/src/smorx_verification/fusion.py. Authorities and confidences are tenths.
pub mod Verdicts
pub mod Contradictions
mod Samples
use smorx.Prelude.{
  ℕ, zero, suc, ◌+◌, String, Bool, true, false, not, ◌&&◌, ◌||◌, Option, none, some, List, [], ◌∷◌,
  ◌++◌, map, if◌then◌else◌, min, length, filterb, allb, nat_beq, concat, ◌==◌, string_eq, contains,
  lookup, insert,
}
use smorx.Verification.Contracts.{
  EvidenceRecord, ClaimAssessment, Contradiction, ModuleOutcome, ModuleStatus, passed, skipped,
  ExitCode, is_failure, classify_claim,
}

abbrev pub authorities : List (String × ℕ)
authorities =
    ("STATIC_ANALYSIS", 4)
    ∷ ("DIFFERENTIAL_EXECUTION", 9)
    ∷ ("HISTORICAL_GHOST_REPLAY", 10)
    ∷ ("METAMORPHIC_CHECK", 7)
    ∷ ("ADVERSARIAL_SCENARIO", 10)
    ∷ ("MUTATION_TEST", 5)
    ∷ []

-- _AUTHORITY.get(evidence_type, 0.5)
unfoldable pub authority_of : String → ℕ
unfolding lookup
authority_of evidence_type = elim (lookup evidence_type authorities) [ none ↦ 5 | some a ↦ a ]

-- severity in _HIGH_SEVERITIES
unfoldable pub is_high : String → Bool
is_high severity = severity == "HIGH" || severity == "CRITICAL"

pub record AddressedEvidence : Type 0 where
  pub evidence_id : String
  pub claim_id : String
  pub evidence_type : String
  pub authority : ℕ
  pub supports : Bool
  pub confidence : ℕ
  pub provenance : String
  pub source : String
  pub severity : String
  pub exit_code : ExitCode

unfoldable pub classify_signal : EvidenceRecord → Bool × ℕ
unfolding is_high authority_of
classify_signal r =
    if r.module_status == "INELIGIBLE:NO_CLAIM_BINDING"
    then (false, 0)
    else if is_failure r.exit_code || is_high r.severity
    then (false, authority_of r.evidence_type)
    else (
      true,
      min 10 (authority_of r.evidence_type + (if r.module_status == "ELIGIBLE" then 1 else 0)),
    )

unfoldable pub address : EvidenceRecord → AddressedEvidence
unfolding classify_signal authority_of
address r = record {
  evidence_id = r.evidence_id;
  claim_id = r.claim_id;
  evidence_type = r.evidence_type;
  authority = authority_of r.evidence_type;
  supports = (classify_signal r).0;
  confidence = (classify_signal r).1;
  provenance = r.provenance;
  source = r.source;
  severity = r.severity;
  exit_code = r.exit_code;
}

abbrev pub Clubs : Type 0
Clubs = List (String × List AddressedEvidence)

abbrev pub club_of : Option (List AddressedEvidence) → List AddressedEvidence
club_of none = []
club_of (some club) = club

-- clubs.setdefault(record.claim_id, _ClaimFusion()).addressed.append(...)
unfoldable pub join : Clubs → EvidenceRecord → Clubs
unfolding lookup insert address
join clubs r = insert r.claim_id (club_of (lookup r.claim_id clubs) ++ address r ∷ []) clubs

unfoldable pub join_all : Clubs → List EvidenceRecord → Clubs
unfolding join
join_all clubs [] = clubs
join_all clubs (r ∷ rs) = join_all (join clubs r) rs

-- {claim_id: _ClaimFusion() for claim_id in claim_ids}
unfoldable pub open_clubs : Clubs → List String → Clubs
unfolding insert
open_clubs clubs [] = clubs
open_clubs clubs (c ∷ cs) = open_clubs (insert c [] clubs) cs

unfoldable pub supporting_count : List AddressedEvidence → ℕ
supporting_count club = length (filterb (λ e. e.supports) club)

unfoldable pub contradicting_count : List AddressedEvidence → ℕ
contradicting_count club = length (filterb (λ e. not e.supports) club)

unfoldable pub verdict_of : List AddressedEvidence → ClaimAssessment
unfolding supporting_count contradicting_count classify_claim
verdict_of club = classify_claim (supporting_count club) (contradicting_count club) 0

unfoldable pub verdicts_of : Clubs → List (String × ClaimAssessment)
unfolding insert verdict_of
verdicts_of [] = []
verdicts_of ((c, club) ∷ clubs) = (c, verdict_of club) ∷ verdicts_of clubs

unfoldable pub contradictions_of : Clubs → List Contradiction
unfolding supporting_count contradicting_count
contradictions_of [] = []
contradictions_of ((c, club) ∷ clubs) =
    let rest = contradictions_of clubs in
    if not (nat_beq (supporting_count club) 0) && not (nat_beq (contradicting_count club) 0)
    then record {
      claim_id = c;
      supporting = map (λ e. e.evidence_type) (filterb (λ e. e.supports) club);
      contradicting = map (λ e. e.evidence_type) (filterb (λ e. not e.supports) club);
      detail = "claim received both supporting and contradicting evidence";
    }
      ∷ rest
    else rest

pub record Fused : Type 0 where
  pub verdicts : List (String × ClaimAssessment)
  pub addressed : List AddressedEvidence
  pub contradictions : List Contradiction

unfoldable pub fuse_claim_evidence : List EvidenceRecord → List String → Fused
unfolding join_all open_clubs verdicts_of contradictions_of
fuse_claim_evidence records claim_ids =
    let clubs = join_all (open_clubs [] claim_ids) records in
    record {
      verdicts = verdicts_of clubs;
      addressed = concat (map (λ entry. entry.1) clubs);
      contradictions = contradictions_of clubs;
    }

abbrev pub is_clean : ModuleStatus → Bool
is_clean passed = true
is_clean skipped = true
is_clean _ = false

unfoldable pub modules_passed : List ModuleOutcome → Bool
modules_passed modules = allb (λ m. is_clean m.status) modules
