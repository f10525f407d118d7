-- ===== src/Develop/Candidates/Best.antt =====
-- The candidate that the comparison selects.
use smorx.Prelude.{
  ℕ, ◌+◌, ◌<◌, ◌≡◌, refl, ap, ◌⊎◌, inl, inr, true, false, not, length, filterb, none, some, List,
  [], ◌∷◌, ◌++◌, arith, All, Bool-cases,
}
use smorx.Develop.Candidates.{
  ExecutionRecord, execution_passed, total, passed_count, failed_count, total_duration,
  CandidatePatchRecord, Key, passed, rank_key, key_lt, insert_candidate, ranked, selected,
  all_failed, no_candidates, CandidateComparison, comparison_of, compare_candidates,
}

abbrev NotBelow : CandidatePatchRecord → CandidatePatchRecord → Type 0
NotBelow best d = key_lt (rank_key d) (rank_key best) ≡ false

key_lt_trans : (a b c : Key) → key_lt a b ≡ false → key_lt b c ≡ false → key_lt a c ≡ false
unfolding key_lt
key_lt_trans a b c h k = ground arith

key_lt_asym : (a b : Key) → key_lt a b ≡ true → key_lt b a ≡ false
unfolding key_lt
key_lt_asym a b h = ground arith

key_lt_irrefl : (a : Key) → key_lt a a ≡ false
unfolding key_lt
key_lt_irrefl a = ground arith

-- A candidate of the list, such that no candidate of the list has a lower key.
pub record IsBest (cs : List CandidatePatchRecord) (best : CandidatePatchRecord) : Type 0 where
  pub before : List CandidatePatchRecord
  pub after : List CandidatePatchRecord
  pub split : cs ≡ before ++ best ∷ after
  pub least : All (NotBelow best) cs

All-NotBelow :
    (b c : CandidatePatchRecord) (cs : List CandidatePatchRecord)
    → key_lt (rank_key b) (rank_key c) ≡ false
    → All (NotBelow b) cs
    → All (NotBelow c) cs
All-NotBelow b c [] h k = tt
All-NotBelow b c (d ∷ ds) h k =
    (key_lt_trans (rank_key d) (rank_key b) (rank_key c) k.0 h, All-NotBelow b c ds h k.1)

ranked-IsBest :
    (c : CandidatePatchRecord) (cs : List CandidatePatchRecord)
    → (best : CandidatePatchRecord) × (rest : List CandidatePatchRecord) × (ranked (c ∷ cs)
        ≡ best ∷ rest)
      × IsBest (c ∷ cs) best
unfolding ranked insert_candidate
ranked-IsBest c [] = (
  c,
  [],
  refl,
  record { before = []; after = []; split = refl; least = (key_lt_irrefl (rank_key c), tt) },
)
ranked-IsBest c (d ∷ ds) =
    let (b, rest, e, best) = ranked-IsBest d ds in
    elim (Bool-cases (key_lt (rank_key b) (rank_key c))) [
      | inl lower ↦ (
        b,
        insert_candidate c rest,
        rw (e, lower, ranked) refl,
        record {
          before = c ∷ best.before;
          after = best.after;
          split = ap (λ xs. c ∷ xs) best.split;
          least = (key_lt_asym (rank_key b) (rank_key c) lower, best.least);
        },
      )
      | inr higher ↦ (
        c,
        b ∷ rest,
        rw (e, higher, ranked) refl,
        record {
          before = [];
          after = d ∷ ds;
          split = refl;
          least = (key_lt_irrefl (rank_key c), All-NotBelow b c (d ∷ ds) higher best.least);
        },
      )
    ]

-- The executions of a candidate that did not exit with zero in time.
abbrev pub failures_of : CandidatePatchRecord → ℕ
failures_of c = length (filterb (λ x. not (execution_passed x)) c.executions)

abbrev pub passes_of : CandidatePatchRecord → ℕ
passes_of c = length (filterb execution_passed c.executions)

-- A candidate that comes before another: it passed where the other did not, or else it has fewer
-- failed executions, or of as many a shorter duration, or of one duration more passed executions, or
-- of as many the lower index.
abbrev pub ComesBefore : CandidatePatchRecord → CandidatePatchRecord → Type 0
ComesBefore a b =
    ((passed a ≡ true) × (passed b ≡ false))
    ⊎ (passed a ≡ passed b)
      × ((failures_of a < failures_of b)
          ⊎ (failures_of a ≡ failures_of b)
            × ((total_duration a.executions < total_duration b.executions)
                ⊎ (total_duration a.executions ≡ total_duration b.executions)
                  × ((passes_of b < passes_of a)
                      ⊎ (passes_of a ≡ passes_of b) × (a.candidate_index < b.candidate_index))))

failures-passes :
    (xs : List ExecutionRecord)
    → length (filterb (λ x. not (execution_passed x)) xs) + length (filterb execution_passed xs)
      ≡ length xs
failures-passes [] = refl
failures-passes (x ∷ xs) = elim (Bool-cases (execution_passed x)) [
  | inl good ↦ rw good (omega (arith, failures-passes xs))
  | inr bad ↦ rw bad (omega (arith, failures-passes xs))
]

failed_count-failures : (c : CandidatePatchRecord) → failed_count c.executions ≡ failures_of c
unfolding failed_count total passed_count
failed_count-failures c = omega (arith, failures-passes c.executions)

NotBelow-ComesBefore : (best d : CandidatePatchRecord) → NotBelow best d → ¬ ComesBefore d best
unfolding key_lt rank_key passed_count
NotBelow-ComesBefore best d h before =
    let fd = failed_count-failures d in
    let fb = failed_count-failures best in ground (arith, h, before, fd, fb)

All-ComesBefore :
    (best : CandidatePatchRecord) (cs : List CandidatePatchRecord)
    → All (NotBelow best) cs
    → All (λ d. ¬ ComesBefore d best) cs
All-ComesBefore best [] h = tt
All-ComesBefore best (c ∷ cs) h = (NotBelow-ComesBefore best c h.0, All-ComesBefore best cs h.1)

-- What each outcome of a comparison says of the candidates.
abbrev pub Compared : List CandidatePatchRecord → CandidateComparison → Type 0
Compared cs comparison = elim comparison.outcome [
  | selected ↦
      (best : CandidatePatchRecord) × (before : List CandidatePatchRecord) × (after : List
        CandidatePatchRecord)
      × (cs ≡ before ++ best ∷ after)
      × All (λ d. ¬ ComesBefore d best) cs
      × (passed best ≡ true)
      × (comparison.selected_candidate_id ≡ some best.candidate_id)
  | all_failed ↦ All (λ c. passed c ≡ false) cs × (comparison.selected_candidate_id ≡ none)
  | no_candidates ↦ (cs ≡ []) × (comparison.selected_candidate_id ≡ none)
]

NotBelow-passed :
    (best d : CandidatePatchRecord) → passed best ≡ false → NotBelow best d → passed d ≡ false
unfolding key_lt rank_key
NotBelow-passed best d h k = ground arith

All-passed :
    (best : CandidatePatchRecord) (cs : List CandidatePatchRecord)
    → passed best ≡ false
    → All (NotBelow best) cs
    → All (λ c. passed c ≡ false) cs
All-passed best [] h k = tt
All-passed best (c ∷ cs) h k = (NotBelow-passed best c h k.0, All-passed best cs h k.1)

-- The comparison selects a candidate whose final state is CANDIDATE_PASSED, such that no candidate
-- comes before it: none that passed too has fewer failed executions, or of as many a shorter duration,
-- or of one duration more passed executions, or of as many a lower index. Or all the candidates failed,
-- or there are none, and it selects nothing.
pub compare_candidates-Compared :
    (cs : List CandidatePatchRecord) → Compared cs (compare_candidates cs)
unfolding compare_candidates comparison_of
compare_candidates-Compared [] = (refl, refl)
compare_candidates-Compared (c ∷ cs) =
    let (best, rest, e, is_best) = ranked-IsBest c cs in
    elim (Bool-cases (passed best)) [
      | inl good ↦
          rw (e, good)
            (
              best,
              is_best.before,
              is_best.after,
              is_best.split,
              All-ComesBefore best (c ∷ cs) is_best.least,
              good,
              refl,
            )
      | inr bad ↦ rw (e, bad) (All-passed best (c ∷ cs) bad is_best.least, refl)
    ]
