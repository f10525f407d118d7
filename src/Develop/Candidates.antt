-- ===== src/Develop/Candidates.antt =====
-- packages/develop/src/smorx_develop/candidates.py, with ExecutionStats of
-- packages/develop/src/smorx_develop/execution.py. Durations are microseconds. Of an execution and of
-- a loop's result the fields that the comparison reads are kept; the details for a reader and the
-- dicts of the ranked candidates are left out.
pub mod Best
mod Samples
use smorx.Prelude.{
  ℕ, ◌+◌, ◌-◌, String, Bool, true, false, not, ◌&&◌, ◌||◌, Option, none, some, List, [], ◌∷◌, map,
  if◌then◌else◌, ltb, nat_beq, length, filterb, ◌==◌, string_eq,
}
use smorx.Verification.Contracts.{ExitCode, exited, signalled}

pub record ExecutionRecord : Type 0 where
  pub duration : ℕ
  pub exit_code : ExitCode
  pub timed_out : Bool

abbrev pub is_zero : ExitCode → Bool
is_zero (exited n) = nat_beq n 0
is_zero (signalled n) = false

abbrev pub execution_passed : ExecutionRecord → Bool
execution_passed r = is_zero r.exit_code && not r.timed_out

unfoldable pub total : List ExecutionRecord → ℕ
total records = length records

unfoldable pub passed_count : List ExecutionRecord → ℕ
passed_count records = length (filterb execution_passed records)

unfoldable pub failed_count : List ExecutionRecord → ℕ
unfolding total passed_count
failed_count records = total records - passed_count records

unfoldable pub total_duration : List ExecutionRecord → ℕ
total_duration [] = 0
total_duration (r ∷ rs) = r.duration + total_duration rs

pub record CandidatePatchRecord : Type 0 where
  pub candidate_id : String
  pub candidate_index : ℕ
  pub label : String
  pub final_state : String
  pub executions : List ExecutionRecord

unfoldable pub passed : CandidatePatchRecord → Bool
passed c = c.final_state == "CANDIDATE_PASSED"

-- The tuple of `_rank_key`; its fourth entry is the negative of `passes`.
pub record Key : Type 0 where
  pub fails : Bool
  pub failed : ℕ
  pub duration : ℕ
  pub passes : ℕ
  pub index : ℕ

unfoldable pub rank_key : CandidatePatchRecord → Key
unfolding passed failed_count total_duration passed_count
rank_key c = record {
  fails = not (passed c);
  failed = failed_count c.executions;
  duration = total_duration c.executions;
  passes = passed_count c.executions;
  index = c.candidate_index;
}

abbrev pub same : ℕ → ℕ → Bool
same a b = not (ltb a b) && not (ltb b a)

-- The order of tuples.
unfoldable pub key_lt : Key → Key → Bool
key_lt a b =
    not a.fails && b.fails
    || not (not b.fails && a.fails)
      && (ltb a.failed b.failed
          || same a.failed b.failed
            && (ltb a.duration b.duration
                || same a.duration b.duration
                  && (ltb b.passes a.passes || same a.passes b.passes && ltb a.index b.index)))

unfoldable pub insert_candidate :
    CandidatePatchRecord → List CandidatePatchRecord → List CandidatePatchRecord
unfolding key_lt rank_key
insert_candidate c [] = c ∷ []
insert_candidate c (d ∷ ds) =
    if key_lt (rank_key d) (rank_key c) then d ∷ insert_candidate c ds else c ∷ d ∷ ds

-- sorted(candidates, key=_rank_key), which keeps the order of equal keys.
unfoldable pub ranked : List CandidatePatchRecord → List CandidatePatchRecord
unfolding insert_candidate
ranked [] = []
ranked (c ∷ cs) = insert_candidate c (ranked cs)

pub data Outcome : Type 0 where
  selected all_failed no_candidates : Outcome

pub record CandidateComparison : Type 0 where
  pub selected_candidate_id : Option String
  pub outcome : Outcome
  pub ranked : List CandidatePatchRecord

abbrev pub comparison_of : List CandidatePatchRecord → CandidateComparison
unfolding passed
comparison_of [] = record { selected_candidate_id = none; outcome = no_candidates; ranked = [] }
comparison_of (best ∷ rest) =
    if not (passed best)
    then record { selected_candidate_id = none; outcome = all_failed; ranked = best ∷ rest }
    else record {
      selected_candidate_id = some best.candidate_id;
      outcome = selected;
      ranked = best ∷ rest;
    }

unfoldable pub compare_candidates : List CandidatePatchRecord → CandidateComparison
unfolding ranked comparison_of
compare_candidates candidates = comparison_of (ranked candidates)
