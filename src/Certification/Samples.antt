-- ===== src/Certification/Samples.antt =====
-- A task with one delta, and the witnesses of the alignment and of the gate.
use smorx.Prelude.{◌≡◌, refl, ◌↔◌, String, true, none, some, [], ◌∷◌, ◌==◌, string_eq, ok, contains}
use smorx.Certification.Alignment.{
  DeltaRow, ItemRow, certifiable, AlignmentVerdict, words, evaluate_alignment,
}
use smorx.Certification.Alignment.Coverage.{AllCovered, evaluate_alignment-AllCovered}
use smorx.Certification.MergeGate.{
  MergeGateVerdict, Verifier, integrity_result, Attempt, Returned, Call, Checks, pass_reason,
  merged, evaluate_merge_gate,
}
use smorx.Certification.Rows.{CertificateRow, CandidatePatch, Store}
use smorx.Certification.MergeGate.Merged.{IsMerged}
use smorx.Certification.MergeGate.Merging.{Gated, evaluate_merge_gate-Gated}
use smorx.Certification.Explained.{rows_of, AllExplained, gate, gate-AllExplained}

abbrev same : String → String
same s = s

words_tests :
    (words "login_rate-limit now" ≡ "login" ∷ "rate" ∷ "limit" ∷ "now" ∷ []) × (words " _" ≡ [])
unfolding words
words_tests = (refl, refl)

abbrev delta : String → DeltaRow
delta metric = record {
  id = "delta";
  task_id = some "task";
  metric = some metric;
  category = "PERFORMANCE";
  observed = true;
  behavior = none;
}

abbrev item : ItemRow
item = record {
  id = "item";
  task_id = some "task";
  statement = "limit the login rate";
  authorized = true;
}

abbrev store : Store
store = record {
  tasks = record { id = "task"; status = "VERIFIED" } ∷ [];
  changes = record { id = "change"; status = "OPEN" } ∷ [];
  items = item ∷ [];
  alignments = [];
  events = [];
}

abbrev certificate : CertificateRow
certificate = record {
  id = "certificate";
  certificate_key = "key";
  status = "CERTIFIED";
  task_id = some "task";
}

abbrev patch : CandidatePatch
patch = record { id = "patch"; status = "VERIFIED"; task_id = "task"; change_id = "change" }

abbrev verifier : Verifier
verifier _ _ Call.by_position = Attempt.type_error
verifier _ _ _ = Attempt.returned (Returned.plain true)

-- A token of the metric is in the statement; without one the change of a secret is critical.
evaluate_alignment_tests :
    ((evaluate_alignment same same
        (rows_of store (delta "login_ms" ∷ []))
        (some "task")
        none
        none).aligned
      ≡ true)
    × ((evaluate_alignment same same
          (rows_of store (delta "secret_age" ∷ []))
          (some "task")
          none
          none).critical_unauthorized_changes
        ≡ 1)
unfolding evaluate_alignment contains
evaluate_alignment_tests = (refl, refl)

abbrev passing : Checks
passing = record {
  certificate_certified = true;
  alignment_certifiable = true;
  candidate_verified = true;
  integrity_intact = true;
  protected_authorized = true;
}

aligned_covered :
    (((evaluate_alignment same same
          (rows_of store (delta "login_ms" ∷ []))
          (some "task")
          none
          none).aligned
        ≡ true)
      ↔ AllCovered same same (rows_of store (delta "login_ms" ∷ [])) "task" none none)
    × (((evaluate_alignment same same
            (rows_of store (delta "login_ms" ∷ []))
            (some "task")
            none
            none).status
          ≡ certifiable)
        ↔ AllCovered same same (rows_of store (delta "login_ms" ∷ [])) "task" none none)
aligned_covered =
    evaluate_alignment-AllCovered same same (rows_of store (delta "login_ms" ∷ [])) "task" none none

abbrev verdict : MergeGateVerdict
verdict = record { allowed = true; reason = pass_reason; checks = passing }

gate_passes :
    gate same same
      (some verifier)
      7
      store
      certificate
      patch
      []
      (delta "login_ms" ∷ [])
      "task"
      none
      none
    ≡ (ok verdict, merged 7 store certificate patch)
unfolding gate
gate_passes = refl

gate-AllExplained_example :
    AllExplained same same "task" (delta "login_ms" ∷ []) none store.items none
    × ((certificate.status == "CERTIFIED") ≡ true)
    × ((patch.status == "VERIFIED") ≡ true)
    × (integrity_result (some verifier) store certificate ≡ some true)
    × IsMerged 7 certificate patch store (merged 7 store certificate patch)
gate-AllExplained_example =
    gate-AllExplained same same (some verifier) 7 store certificate patch [] (delta "login_ms" ∷ [])
      "task" none none verdict (merged 7 store certificate patch) gate_passes refl

abbrev given : AlignmentVerdict
unfolding evaluate_alignment
given = evaluate_alignment same same (rows_of store (delta "login_ms" ∷ [])) (some "task") none none

evaluate_merge_gate-Gated_example :
    Gated (some verifier) 7 store (some certificate) given (some patch) ("behavior" ∷ []) (
      evaluate_merge_gate
        (some verifier)
        7
        store
        (some certificate)
        given
        (some patch)
        ("behavior" ∷ []))
evaluate_merge_gate-Gated_example =
    evaluate_merge_gate-Gated (some verifier) 7 store (some certificate) given (some patch)
      ("behavior" ∷ [])
