-- ===== src/Certification/MergeGate/Merging.antt =====
-- When the gate merges, and what it changes.
use smorx.Prelude.{
  ℕ, ◌≡◌, refl, ◌∙◌, ap, String, ◌⊎◌, inl, inr, ◌↔◌, Bool, true, false, Option, none, some, List,
  arith, Bool-cases, Option-cases, ◌==◌, string_eq, Result, ok, err,
}
use smorx.Certification.Alignment.{AlignmentVerdict, CertifiableStatus, certifiable}
use smorx.Certification.MergeGate.{
  MergeGateVerdict, MergeGateError, Verifier, integrity_result, all_checks, all_pass,
  is_certifiable, is_linked, pass_gate, evaluate_merge_gate,
}
use smorx.Certification.MergeGate.Authorized.{
  IsAuthorized, protected_behaviors_authorized-IsAuthorized,
}
use smorx.Certification.MergeGate.Merged.{IsMerged, merged-IsMerged}
use smorx.Certification.Rows.{CertificateRow, CandidatePatch, Store}

-- Every check of the gate.
pub record Passes (verifier : Option Verifier) (store : Store) (certificate : CertificateRow)
    (verdict : AlignmentVerdict) (patch : CandidatePatch) (requested : List String) : Type 0 where
  pub certified : (certificate.status == "CERTIFIED") ≡ true
  pub aligned : verdict.aligned ≡ true
  pub is_certifiable : verdict.status ≡ certifiable
  pub verified : (patch.status == "VERIFIED") ≡ true
  pub intact : integrity_result verifier store certificate ≡ some true
  pub authorized : IsAuthorized store certificate verdict requested

-- How the gate ends: a missing row denies; otherwise the patch is merged exactly when every check
-- passes and it is linked, an unlinked one raises, and but for the merge the store stays.
abbrev pub Gated :
    Option Verifier
    → ℕ
    → Store
    → Option CertificateRow
    → AlignmentVerdict
    → Option CandidatePatch
    → List String
    → Result MergeGateError MergeGateVerdict × Store
    → Type 0
Gated verifier now store (some certificate) verdict (some patch) requested (ok v, store') =
    (v.allowed ≡ true)
      × Passes verifier store certificate verdict patch requested
      × (is_linked store patch ≡ true)
      × IsMerged now certificate patch store store'
    ⊎ (v.allowed ≡ false)
      × ¬ Passes verifier store certificate verdict patch requested
      × (store' ≡ store)
Gated verifier now store (some certificate) verdict (some patch) requested (err e, store') =
    Passes verifier store certificate verdict patch requested
    × (is_linked store patch ≡ false)
    × (store' ≡ store)
Gated verifier now store _ verdict _ requested (ok v, store') =
    (v.allowed ≡ false) × (store' ≡ store)
Gated verifier now store _ verdict _ requested (err e, store') = ⊥

is_certifiable_iff : (s : CertifiableStatus) → (is_certifiable s ≡ true) ↔ (s ≡ certifiable)
is_certifiable_iff s = (λ h. ground arith, λ h. ground arith)

module _ (verifier : Option Verifier) (store : Store) (certificate : CertificateRow)
    (verdict : AlignmentVerdict) (patch : CandidatePatch) (requested : List String) where
  all_pass-Passes :
      (integrity : Bool)
      → integrity_result verifier store certificate ≡ some integrity
      → (all_pass (all_checks store certificate verdict patch requested integrity) ≡ true)
        ↔ Passes verifier store certificate verdict patch requested
  unfolding all_pass all_checks
  all_pass-Passes integrity e =
      let authorized_iff =
        protected_behaviors_authorized-IsAuthorized store certificate verdict requested in
      let status_iff = is_certifiable_iff verdict.status in
      (
        λ h. record {
          certified = ground (arith, h);
          aligned = ground (arith, h);
          is_certifiable = status_iff.0 (ground (arith, h));
          verified = ground (arith, h);
          intact = e ∙ ap some (ground (arith, h));
          authorized = authorized_iff.0 (ground (arith, h));
        },
        λ p.
            let certifies = status_iff.1 p.is_certifiable in
            let holds : integrity ≡ true = cc (e, p.intact) in
            rw (p.certified, p.aligned, certifies, p.verified, holds)
              (authorized_iff.1 p.authorized),
      )

  pass_gate-Gated :
      (now : ℕ) (integrity : Bool)
      → integrity_result verifier store certificate ≡ some integrity
      → Gated verifier now store (some certificate) verdict (some patch) requested (
          pass_gate now store certificate patch
            (all_checks store certificate verdict patch requested integrity))
  unfolding pass_gate
  pass_gate-Gated now integrity e =
      let passes = all_pass-Passes integrity e in
      elim (Bool-cases
        (all_pass (all_checks store certificate verdict patch requested integrity))) [
          | inr fails ↦ rw fails (inr (refl, (λ p. cc (fails, passes.1 p)), refl))
          | inl holds ↦ elim (Bool-cases (is_linked store patch)) [
            | inr unlinked ↦ rw (holds, unlinked) (passes.0 holds, unlinked, refl)
            | inl linked ↦
                rw (holds, linked)
                  (inl (refl, passes.0 holds, linked, merged-IsMerged now store certificate patch))
          ]
        ]

-- The gate merges exactly when the certificate is CERTIFIED, the verdict is aligned and CERTIFIABLE,
-- the patch is VERIFIED, the integrity is intact, the patch is linked, and of the behaviors that are
-- asked for, or else of the verdict's, there is none, or each is among the verdict's, if that has any,
-- and the certificate's task has one ALIGNED alignment whose intent item is authorized. A merge makes
-- the task and the change of the patch MERGED and adds one MERGE event about them, and nothing else
-- changes. Without a link the gate raises, and whenever it does not merge the store stays as it is.
pub evaluate_merge_gate-Gated :
    (verifier : Option Verifier) (now : ℕ) (store : Store) (certificate : Option CertificateRow)
    (verdict : AlignmentVerdict) (patch : Option CandidatePatch) (requested : List String)
    → Gated verifier now store certificate verdict patch requested
        (evaluate_merge_gate verifier now store certificate verdict patch requested)
unfolding evaluate_merge_gate
evaluate_merge_gate-Gated verifier now store none verdict none requested = (refl, refl)
evaluate_merge_gate-Gated verifier now store none verdict (some patch) requested = (refl, refl)
evaluate_merge_gate-Gated verifier now store (some certificate) verdict none requested =
    (refl, refl)
evaluate_merge_gate-Gated verifier now store (some certificate) verdict (some patch) requested =
    elim (Option-cases (integrity_result verifier store certificate)) [
      | inl unavailable ↦
          rw (unavailable, evaluate_merge_gate, Gated)
            (inr (refl, (λ p. cc (unavailable, p.intact)), refl))
      | inr (integrity, e) ↦
          rw (e, evaluate_merge_gate, Gated)
            (pass_gate-Gated verifier store certificate verdict patch requested now integrity e)
    ]
