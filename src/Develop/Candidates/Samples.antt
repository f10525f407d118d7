-- ===== src/Develop/Candidates/Samples.antt =====
-- Three candidates, and the witness of the comparison.
use smorx.Prelude.{ℕ, ◌≡◌, refl, String, false, some, List, [], ◌∷◌}
use smorx.Verification.Contracts.{ExitCode, exited, signalled}
use smorx.Develop.Candidates.{
  ExecutionRecord, CandidatePatchRecord, all_failed, no_candidates, compare_candidates,
}
use smorx.Develop.Candidates.Best.{Compared, compare_candidates-Compared}

abbrev execution : ExitCode → ℕ → ExecutionRecord
execution code duration = record { duration = duration; exit_code = code; timed_out = false }

abbrev candidate : String → ℕ → String → List ExecutionRecord → CandidatePatchRecord
candidate id index state executions = record {
  candidate_id = id;
  candidate_index = index;
  label = id;
  final_state = state;
  executions = executions;
}

abbrev candidates : List CandidatePatchRecord
candidates =
    candidate "failed" 1 "CANDIDATE_FAILED" (execution (exited 0) 1 ∷ [])
    ∷ candidate "slow" 2 "CANDIDATE_PASSED" (execution (exited 0) 9 ∷ [])
    ∷ candidate "fast" 3 "CANDIDATE_PASSED" (execution (exited 0) 4 ∷ [])
    ∷ []

-- A candidate is selected by its final state, also if one of its executions failed.
compare_candidates_tests :
    ((compare_candidates candidates).selected_candidate_id ≡ some "fast")
    × ((compare_candidates []).outcome ≡ no_candidates)
    × ((compare_candidates (candidate "killed" 1 "BLOCKED" [] ∷ [])).outcome ≡ all_failed)
    × ((compare_candidates (
          candidate "patched" 1 "CANDIDATE_PASSED" (execution (signalled 9) 1 ∷ [])
          ∷ [])).selected_candidate_id
        ≡ some "patched")
unfolding compare_candidates
compare_candidates_tests = (refl, refl, refl, refl)

compare_candidates-Compared_example : Compared candidates (compare_candidates candidates)
compare_candidates-Compared_example = compare_candidates-Compared candidates
