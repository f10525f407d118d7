-- ===== src/Runtime/Orchestrator/Bounded.antt =====
-- A task cannot fail for ever.
use smorx.Prelude.{
  ℕ, ◌+◌, ◌≤◌, ◌<◌, ◌≡◌, refl, sym, subst, ◌⊎◌, inl, inr, Bool, true, false, not, ◌&&◌, Option,
  some, List, [], ◌∷◌, arith, if◌then◌else◌, leb, leb→le, not-leb→lt, Bool-cases, length,
}
use smorx.Runtime.Orchestrator.{
  retry, replace_agent, blocks, no_progress_block, human_review_block, exhausted, RetryPolicy,
  TaskRuns, no_runs, Failure, BlockKind, start_run, count_signature, react, fail_all,
}

abbrev pub IsBlocked : Option (BlockKind × Bool) → Type 0
IsBlocked block = (kind : BlockKind) × (mismatch : Bool) × (block ≡ some (kind, mismatch))

module _ (policy : RetryPolicy) (f : Failure) (t : TaskRuns) where
  -- The three reactions, with what each one says of the task.
  unfoldable pub Cases : Type 0
  unfolding react count_signature
  Cases =
      ((kind : BlockKind) × (mismatch : Bool) × (t' : TaskRuns) × (react policy f t
          ≡ (blocks kind mismatch, t')))
      ⊎ (t.runs ≤ policy.max_retries_per_task)
        × (react policy f t ≡ (retry (t.runs + 1), count_signature f.signature t))
      ⊎ (t.replaced ≡ false)
        × (policy.max_retries_per_task < t.runs)
        × (react policy f t
            ≡ (replace_agent, record (count_signature f.signature t) { replaced = true }))

  pub react-cases : Cases
  unfolding Cases react count_signature
  react-cases =
      let counted = count_signature f.signature t in
      elim (Bool-cases (leb policy.no_progress_threshold counted.consecutive)) [
        | inl stuck ↦ inl (no_progress_block, f.is_mismatch, counted, rw (stuck, react) refl)
        | inr moving ↦ elim (Bool-cases (leb t.runs policy.max_retries_per_task)) [
          | inl left ↦
              inr (
                inl (leb→le t.runs policy.max_retries_per_task left, rw (moving, left, react) refl))
          | inr spent ↦ elim (Bool-cases (policy.allow_replacement && not t.replaced)) [
            | inl new ↦ inr (
                inr (
                  ground (arith, new),
                  not-leb→lt t.runs policy.max_retries_per_task spent,
                  rw (moving, spent, new, react) refl,
                ))
            | inr old ↦ inl (
              if f.is_mismatch then human_review_block else exhausted,
              f.is_mismatch,
              counted,
              rw (moving, spent, old, react) refl,
            )
          ]
        ]
      ]

module _ (policy : RetryPolicy) where
  -- A run that is not blocked leads to the runs after it.
  IsBlocked-retry :
      (t t' : TaskRuns) (f : Failure) (fs : List Failure) (n : ℕ)
      → react policy f (start_run t) ≡ (retry n, t')
      → IsBlocked (fail_all policy t' fs)
      → IsBlocked (fail_all policy t (f ∷ fs))
  unfolding fail_all
  IsBlocked-retry t t' f fs n e h =
      subst
        (λ r.
          IsBlocked (elim r.0 [
            | blocks kind mismatch ↦ some (kind, mismatch)
            | _ ↦ fail_all policy r.1 fs
          ]))
        (sym e) h

  IsBlocked-replace :
      (t t' : TaskRuns) (f : Failure) (fs : List Failure)
      → react policy f (start_run t) ≡ (replace_agent, t')
      → IsBlocked (fail_all policy t' fs)
      → IsBlocked (fail_all policy t (f ∷ fs))
  unfolding fail_all
  IsBlocked-replace t t' f fs e h =
      subst
        (λ r.
          IsBlocked (elim r.0 [
            | blocks kind mismatch ↦ some (kind, mismatch)
            | _ ↦ fail_all policy r.1 fs
          ]))
        (sym e) h

  -- After the replacement the next failure blocks.
  fail_all-replaced :
      (t : TaskRuns) (f : Failure) (fs : List Failure)
      → t.replaced ≡ true
      → policy.max_retries_per_task < t.runs + 1
      → IsBlocked (fail_all policy t (f ∷ fs))
  unfolding fail_all Cases start_run
  fail_all-replaced t f fs replaced spent = elim (react-cases policy f (start_run t)) [
    | inl (kind, mismatch, t', e) ↦ rw (e, fail_all) (kind, mismatch, refl)
    | inr (inl (left, e)) ↦ absurd (omega (arith, left, spent))
    | inr (inr (fresh, over, e)) ↦ absurd (ground (arith, fresh, replaced))
  ]

  fail_all-budget :
      (t : TaskRuns) (fs : List Failure)
      → t.runs ≤ policy.max_retries_per_task
      → policy.max_retries_per_task + 2 ≤ length fs + t.runs
      → IsBlocked (fail_all policy t fs)
  unfolding fail_all Cases start_run count_signature
  fail_all-budget t [] left enough = absurd (omega (arith, left, enough))
  fail_all-budget t (f ∷ []) left enough = elim (react-cases policy f (start_run t)) [
    | inl (kind, mismatch, t', e) ↦ rw (e, fail_all) (kind, mismatch, refl)
    | inr (inl (within, e)) ↦ absurd (omega (arith, within, enough))
    | inr (inr (fresh, spent, e)) ↦ absurd (omega (arith, left, enough))
  ]
  fail_all-budget t (f ∷ g ∷ fs) left enough = elim (react-cases policy f (start_run t)) [
    | inl (kind, mismatch, t', e) ↦ rw (e, fail_all) (kind, mismatch, refl)
    | inr (inl (within, e)) ↦
        IsBlocked-retry t (count_signature f.signature (start_run t)) f (g ∷ fs) (t.runs + 1 + 1) e
          (fail_all-budget (count_signature f.signature (start_run t)) (g ∷ fs) within
            (omega (arith, enough)))
    | inr (inr (fresh, spent, e)) ↦
        let t' = record (count_signature f.signature (start_run t)) { replaced = true } in
        IsBlocked-replace t t' f (g ∷ fs) e (fail_all-replaced t' g fs refl (omega (arith, spent)))
  ]

-- Whatever signatures its failures have, a task that fails at every run is blocked within two runs
-- more than its retries: the first run, the retries and the replacement.
pub fail_all-IsBlocked :
    (policy : RetryPolicy) (failures : List Failure)
    → policy.max_retries_per_task + 2 ≤ length failures
    → IsBlocked (fail_all policy no_runs failures)
fail_all-IsBlocked policy failures enough =
    fail_all-budget policy no_runs failures (omega arith) (omega (arith, enough))
