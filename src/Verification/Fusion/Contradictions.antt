-- ===== src/Verification/Fusion/Contradictions.antt =====
-- The contradictions beside the verdicts.
use smorx.Prelude.{
  ℕ, ◌≡◌, refl, String, Bool, true, false, not, ◌&&◌, List, [], ◌∷◌, map, arith, if◌then◌else◌,
  nat_beq, Bool-cases, inl, inr, ap,
}
use smorx.Verification.Contracts.{EvidenceRecord, ClaimAssessment, conflicting, classify_claim}
use smorx.Verification.Fusion.{
  Clubs, join_all, open_clubs, supporting_count, contradicting_count, verdict_of, verdicts_of,
  contradictions_of, fuse_claim_evidence,
}

abbrev pub is_conflicting : ClaimAssessment → Bool
is_conflicting conflicting = true
is_conflicting _ = false

-- The claims with the verdict CONFLICTING.
abbrev pub conflicting_claims : List (String × ClaimAssessment) → List String
conflicting_claims [] = []
conflicting_claims ((c, a) ∷ verdicts) =
    let rest = conflicting_claims verdicts in if is_conflicting a then c ∷ rest else rest

is_conflicting-classify_claim :
    (s o : ℕ) → is_conflicting (classify_claim s o 0) ≡ (not (nat_beq s 0) && not (nat_beq o 0))
unfolding classify_claim
is_conflicting-classify_claim s o = ground arith

contradictions_of-conflicting :
    (clubs : Clubs)
    → map (λ k. k.claim_id) (contradictions_of clubs) ≡ conflicting_claims (verdicts_of clubs)
unfolding contradictions_of verdicts_of verdict_of
contradictions_of-conflicting [] = refl
contradictions_of-conflicting ((c, club) ∷ clubs) =
    let here = is_conflicting-classify_claim (supporting_count club) (contradicting_count club) in
    elim (Bool-cases
      (not (nat_beq (supporting_count club) 0) && not (nat_beq (contradicting_count club) 0))) [
        | inl both ↦ rw (here, both) (ap (λ cs. c ∷ cs) (contradictions_of-conflicting clubs))
        | inr one ↦ rw (here, one) (contradictions_of-conflicting clubs)
      ]

-- `fuse_claim_evidence` reports a contradiction for exactly the claims whose verdict is CONFLICTING,
-- in the order of the verdicts.
pub fuse_claim_evidence-conflicting_claims :
    (records : List EvidenceRecord) (claim_ids : List String)
    → let fused = fuse_claim_evidence records claim_ids in
      map (λ k. k.claim_id) fused.contradictions ≡ conflicting_claims fused.verdicts
unfolding fuse_claim_evidence
fuse_claim_evidence-conflicting_claims records claim_ids =
    contradictions_of-conflicting (join_all (open_clubs [] claim_ids) records)
