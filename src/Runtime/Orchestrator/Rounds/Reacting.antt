-- ===== src/Runtime/Orchestrator/Rounds/Reacting.antt =====
-- The reactions to the failures of a wave stay within what its tasks can still run.
use smorx.Prelude.{
  ℕ, ◌+◌, ◌≤◌, ◌≡◌, refl, ap, subst, ◌∙◌, String, Bool, true, ◌⊎◌, inl, inr, none, some, List, [],
  ◌∷◌, ◌++◌, arith, le→leb, Option-cases, length, length-append, contains, string_eq, ==-cases,
  lookup, insert, All-append,
}
use smorx.Runtime.Graph.{TaskSpec}
use smorx.Runtime.Orchestrator.{
  Reaction, retry, replace_agent, blocks, RetryPolicy, TaskRuns, Failure, BlockKind, runs_of,
  count_signature, react, Reactions, react_all,
}
use smorx.Runtime.Orchestrator.Bounded.{Cases, react-cases}
use smorx.Runtime.Orchestrator.Rounds.Budget.{
  TaskDict, runs_of-insert, left, total, total-insert_le, total-insert_lt, retriable, Known,
}

retriable-insert :
    (max_retries : ℕ) (wave : List TaskSpec) (id : String) (t : TaskRuns) (tasks : TaskDict)
    → t.runs ≡ (runs_of id tasks).runs
    → retriable max_retries wave (insert id t tasks) ≡ retriable max_retries wave tasks
unfolding retriable
retriable-insert max_retries [] id t tasks h = refl
retriable-insert max_retries (task ∷ wave) id t tasks h =
    let rest = retriable-insert max_retries wave id t tasks h in
    elim (==-cases id task.id) [
      | inl (same, eq) ↦
          let own : t.runs ≡ (runs_of task.id tasks).runs =
            subst (λ x. t.runs ≡ (runs_of x tasks).runs) eq h in
          rw (runs_of-insert id task.id t tasks, same, rest, own) refl
      | inr (differs, _) ↦ rw (runs_of-insert id task.id t tasks, differs, rest) refl
    ]

pub Reaction-cases :
    (r : Reaction)
    → ((kind : BlockKind) × (mismatch : Bool) × (r ≡ blocks kind mismatch))
      ⊎ ((n : ℕ) × (r ≡ retry n))
      ⊎ (r ≡ replace_agent)
Reaction-cases (blocks kind mismatch) = inl (kind, mismatch, refl)
Reaction-cases (retry n) = inr (inl (n, refl))
Reaction-cases replace_agent = inr (inr refl)

module _ (policy : RetryPolicy) (failures : List (String × Failure)) where
  -- What the loop does after one reaction.
  unfoldable pub after_reaction :
      TaskSpec → List TaskSpec → TaskDict → List TaskSpec → Reaction × TaskRuns → Reactions
  after_reaction task wave tasks staged (blocks kind mismatch, t) = record {
    tasks = insert task.id t tasks;
    staged = staged;
    block = some (kind, mismatch);
  }
  after_reaction task wave tasks staged (retry n, t) =
      react_all policy failures wave (insert task.id t tasks) (staged ++ task ∷ [])
  after_reaction task wave tasks staged (replace_agent, t) =
      react_all policy failures wave (insert task.id t tasks) (staged ++ task ∷ [])

  pub react_all-after_reaction :
      (task : TaskSpec) (wave : List TaskSpec) (tasks : TaskDict) (staged : List TaskSpec)
      (f : Failure) (r : Reaction × TaskRuns)
      → lookup task.id failures ≡ some f
      → react policy f (runs_of task.id tasks) ≡ r
      → react_all policy failures (task ∷ wave) tasks staged
        ≡ after_reaction task wave tasks staged r
  unfolding react_all after_reaction
  react_all-after_reaction task wave tasks staged f r e same =
      let done : react_all policy failures (task ∷ wave) tasks staged
          ≡ after_reaction task wave tasks staged (react policy f (runs_of task.id tasks)) =
        elim (Reaction-cases (react policy f (runs_of task.id tasks)).0) [
          | inl (kind, mismatch, k) ↦ rw (e, k, react_all, after_reaction) refl
          | inr (inl (n, k)) ↦ rw (e, k, react_all, after_reaction) refl
          | inr (inr k) ↦ rw (e, k, react_all, after_reaction) refl
        ] in
      done ∙ ap (after_reaction task wave tasks staged) same

  pub react_all-fine :
      (task : TaskSpec) (wave : List TaskSpec) (tasks : TaskDict) (staged : List TaskSpec)
      → lookup task.id failures ≡ none
      → react_all policy failures (task ∷ wave) tasks staged
        ≡ react_all policy failures wave tasks staged
  unfolding react_all
  react_all-fine task wave tasks staged e = rw (e, react_all) refl

module _ (policy : RetryPolicy) (us : List String) (failures : List (String × Failure)) where
  -- Of a run that is not blocked.
  abbrev pub Spent : ℕ → Reactions → Type 0
  Spent bound r =
      r.block ≡ none → length r.staged + total policy.max_retries_per_task us r.tasks ≤ bound

  -- A task that is staged has a retry left, or is now replaced.
  pub react_all-Spent :
      (wave : List TaskSpec) (tasks : TaskDict) (staged : List TaskSpec) (bound : ℕ)
      → Known us wave
      → length staged
          + retriable policy.max_retries_per_task wave tasks
          + total policy.max_retries_per_task us tasks
        ≤ bound
      → Spent bound (react_all policy failures wave tasks staged)
  unfolding react_all after_reaction retriable Cases count_signature left
  react_all-Spent [] tasks staged bound known h = λ open_. omega (arith, h)
  react_all-Spent (task ∷ wave) tasks staged bound known h =
      elim (Option-cases (lookup task.id failures)) [
        | inl fine ↦
            rw (react_all-fine policy failures task wave tasks staged fine)
              (react_all-Spent wave tasks staged bound known.1 (omega (arith, h)))
        | inr (f, e) ↦
            let t = runs_of task.id tasks in
            elim (react-cases policy f t) [
              | inl (kind, mismatch, t', r) ↦
                  rw (react_all-after_reaction policy failures task wave tasks staged f _ e r)
                    (λ open_. cc)
              | inr (inl (within, r)) ↦
                  let t' = count_signature f.signature t in
                  let same =
                    retriable-insert policy.max_retries_per_task wave task.id t' tasks refl in
                  let le =
                    total-insert_le policy.max_retries_per_task us task.id t' tasks (omega arith) in
                  let counted = le→leb _ _ within in
                  rw (react_all-after_reaction policy failures task wave tasks staged f _ e r) (
                    react_all-Spent wave (insert task.id t' tasks) (staged ++ task ∷ []) bound
                      known.1
                      (omega (arith, same, le, length-append staged (task ∷ []), rw counted at h)))
              | inr (inr (fresh, over, r)) ↦
                  let t' = record (count_signature f.signature t) { replaced = true } in
                  let same =
                    retriable-insert policy.max_retries_per_task wave task.id t' tasks refl in
                  let lt =
                    total-insert_lt policy.max_retries_per_task us task.id t' tasks known.0
                      (rw fresh (omega arith)) in
                  rw (react_all-after_reaction policy failures task wave tasks staged f _ e r) (
                    react_all-Spent wave (insert task.id t' tasks) (staged ++ task ∷ []) bound
                      known.1 (omega (arith, same, lt, h, length-append staged (task ∷ []))))
            ]
      ]

  -- What is staged is of the plan.
  pub react_all-Known :
      (wave : List TaskSpec) (tasks : TaskDict) (staged : List TaskSpec)
      → Known us wave
      → Known us staged
      → Known us (react_all policy failures wave tasks staged).staged
  unfolding react_all
  react_all-Known [] tasks staged known so_far = so_far
  react_all-Known (task ∷ wave) tasks staged known so_far =
      elim (Option-cases (lookup task.id failures)) [
        | inl fine ↦ rw (fine, react_all) (react_all-Known wave tasks staged known.1 so_far)
        | inr (f, e) ↦
            let t = runs_of task.id tasks in
            let more =
              All-append (λ t. contains us t.id ≡ true) staged (task ∷ []) so_far (known.0, tt) in
            let next =
              react_all-Known wave (insert task.id (react policy f t).1 tasks) (staged ++ task ∷ [])
                known.1 more in
            elim (Reaction-cases (react policy f t).0) [
              | inl (kind, mismatch, r) ↦ rw (e, r, react_all) so_far
              | inr (inl (n, r)) ↦ rw (e, r, react_all) next
              | inr (inr r) ↦ rw (e, r, react_all) next
            ]
      ]
