-- ===== src/Runtime/Orchestrator/Collecting/Earned.antt =====
-- No success without evidence: what a task that SUCCEEDED has.
use smorx.Prelude.{
  ◌==◌, not, ◌||◌, arith, ℕ, ◌≡◌, refl, sym, ◌∙◌, subst, String, ◌⊎◌, inl, inr, Bool, true, false,
  Option, some, List, [], ◌∷◌, Bool-cases, Option-cases, List-cases, string_eq, ==-cases, lookup,
  insert, lookup-insert,
}
use smorx.Runtime.Agents.{AgentAssignment, AgentFailure, AgentResult, validate_result}
use smorx.Runtime.Agents.Discipline.{IsDisciplined, validate_result-IsDisciplined}
use smorx.Runtime.WaveEngine.{WaveResult}
use smorx.Runtime.Orchestrator.Collecting.{
  TaskStatus, succeeded, failed, cancelled, mark_failed, mark_succeeded, Ledger, Judgement, settled,
  fails, stale, invalid, succeeds, Collected, collected_of, is_stale, is_open, has_succeeded,
  judge_result, judge, settle, collect_tasks, collect_wave, remove,
}

-- A result of the wave for the task, of the assignment that was issued for it, that says SUCCEEDED
-- and keeps the discipline.
pub record IsEarned (c : Collected) (id : String) : Type 0 where
  pub result : AgentResult
  pub obtained : lookup id c.obtained ≡ some result
  pub assignment : AgentAssignment
  pub issued : lookup id c.issued ≡ some assignment
  pub same_task : (result.task_id == id) ≡ true
  pub same_assignment : (result.assignment_id == assignment.id) ≡ true
  pub says : has_succeeded result.status ≡ true
  pub disciplined : IsDisciplined result

is_stale-issued :
    (c : Collected) (id : String) (result : AgentResult)
    → is_stale c id result ≡ false
    → (assignment : AgentAssignment) × (lookup id c.issued ≡ some assignment)
      × ((result.task_id == id) ≡ true)
      × ((result.assignment_id == assignment.id) ≡ true)
is_stale-issued c id result h = elim (Option-cases (lookup id c.issued)) [
  | inl absent ↦ cc (rw (absent, is_stale) at h)
  | inr (assignment, e) ↦
      let current : (not (result.task_id == id) || not (result.assignment_id == assignment.id))
          ≡ false =
        rw (e, is_stale) at h in
      (assignment, e, ground (arith, current), ground (arith, current))
]

-- What a judgement must rest on.
abbrev Grounds : Type 0 → Judgement → Type 0
Grounds P (succeeds r) = P
Grounds P _ = Unit

Grounds-map : {P Q : Type 0} (j : Judgement) → (P → Q) → Grounds P j → Grounds Q j
Grounds-map settled f g = tt
Grounds-map (fails x) f g = tt
Grounds-map (stale x) f g = tt
Grounds-map (invalid x y) f g = tt
Grounds-map (succeeds r) f g = f g

module _ (fresh_id : String → String) (now : ℕ) (c : Collected) where
  judge_result-Grounds :
      (id : String) (result : AgentResult)
      → Grounds
          ((has_succeeded result.status ≡ true) × IsDisciplined result)
          (judge_result fresh_id now id result)
  unfolding judge_result
  judge_result-Grounds id result = elim (Bool-cases (has_succeeded result.status)) [
    | inr not_yet ↦ elim (List-cases result.failures) [
      | inl none_there ↦ rw (not_yet, none_there) tt
      | inr (f, fs, e) ↦ rw (not_yet, e) tt
    ]
    | inl says ↦ elim (List-cases (validate_result result)) [
      | inl clean ↦
          rw (says, clean) (refl, (validate_result-IsDisciplined result).0 (rw clean refl))
      | inr (issue, issues, e) ↦ rw (says, e) tt
    ]
  ]

  judge-Grounds :
      (id : String) (status : Option TaskStatus)
      → Grounds (IsEarned c id) (judge fresh_id now c id status)
  unfolding judge
  judge-Grounds id status = elim (Bool-cases (is_open status)) [
    | inr closed ↦ rw closed tt
    | inl open_ ↦ elim (Bool-cases c.timed_out) [
      | inl late ↦ rw (open_, late) tt
      | inr in_time ↦ elim (Option-cases (lookup id c.obtained)) [
        | inl absent ↦ elim (Option-cases (lookup id c.engine_failures)) [
          | inl silent ↦ rw (open_, in_time, absent, silent) tt
          | inr (f, e) ↦ rw (open_, in_time, absent, e) tt
        ]
        | inr (result, e) ↦ elim (Bool-cases (is_stale c id result)) [
          | inl old ↦ rw (open_, in_time, e, old) tt
          | inr current ↦
              rw (open_, in_time, e, current)
                (Grounds-map (judge_result fresh_id now id result)
                  (λ g.
                    let (assignment, issued, same_task, same_assignment) =
                      is_stale-issued c id result current in
                    record {
                      result = result;
                      obtained = e;
                      assignment = assignment;
                      issued = issued;
                      same_task = same_task;
                      same_assignment = same_assignment;
                      says = g.0;
                      disciplined = g.1;
                    })
                  (judge_result-Grounds id result))
        ]
      ]
    ]
  ]

  abbrev Succeeded : List (String × TaskStatus) → String → Type 0
  Succeeded statuses id = lookup id statuses ≡ some succeeded

  -- A status that is set to another one earns nothing.
  Succeeded-insert :
      (k id : String) (s : TaskStatus) (statuses : List (String × TaskStatus)) (P : Type 0)
      → (s ≡ succeeded → P)
      → Succeeded (insert id s statuses) k
      → Succeeded statuses k ⊎ (id ≡ k) × P
  Succeeded-insert k id s statuses P own h = elim (==-cases id k) [
    | inl (hit, same) ↦
        let e : some s ≡ some succeeded = sym (lookup-insert id k s statuses ∙ rw hit refl) ∙ h in
        inr (same, own (cc e))
    | inr (miss, _) ↦ inl (sym (lookup-insert id k s statuses ∙ rw miss refl) ∙ h)
  ]

  settle-Succeeded :
      (k id : String) (j : Judgement) (l : Ledger) (failures : List (String × AgentFailure))
      → Grounds (IsEarned c id) j
      → Succeeded (settle fresh_id now c id j (l, failures)).0.task_statuses k
      → Succeeded l.task_statuses k ⊎ (id ≡ k) × IsEarned c id
  unfolding settle mark_failed mark_succeeded
  settle-Succeeded k id settled l failures g h = inl h
  settle-Succeeded k id (fails f) l failures g h =
      Succeeded-insert k id failed l.task_statuses (IsEarned c id) (λ e. cc) h
  settle-Succeeded k id (stale x) l failures g h =
      Succeeded-insert k id cancelled l.task_statuses (IsEarned c id) (λ e. cc) h
  settle-Succeeded k id (invalid x f) l failures g h =
      Succeeded-insert k id failed l.task_statuses (IsEarned c id) (λ e. cc) h
  settle-Succeeded k id (succeeds r) l failures g h =
      Succeeded-insert k id succeeded l.task_statuses (IsEarned c id) (λ e. g) h

  collect_tasks-Succeeded :
      (ids : List String) (l : Ledger) (failures : List (String × AgentFailure)) (k : String)
      → Succeeded (collect_tasks fresh_id now c ids (l, failures)).0.task_statuses k
      → Succeeded l.task_statuses k ⊎ IsEarned c k
  unfolding collect_tasks
  collect_tasks-Succeeded [] l failures k h = inl h
  collect_tasks-Succeeded (id ∷ ids) l failures k h =
      let l' = record l { pending_tasks = remove id l.pending_tasks } in
      let j = judge fresh_id now c id (lookup id l.task_statuses) in
      let s = settle fresh_id now c id j (l', failures) in
      elim (collect_tasks-Succeeded ids s.0 s.1 k h) [
        | inr earned ↦ inr earned
        | inl before ↦
            elim (settle-Succeeded k id j l' failures (judge-Grounds id (lookup id l.task_statuses))
              before) [
                | inl earlier ↦ inl earlier
                | inr (same, earned) ↦ inr (subst (IsEarned c) same earned)
              ]
      ]

-- A task that is SUCCEEDED after the collection of a wave, and was not before, has a result of that
-- wave for it, of the assignment that was issued for it, that says SUCCEEDED and keeps the
-- discipline: no success without evidence.
pub collect_wave-IsEarned :
    (fresh_id : String → String) (now : ℕ) (output : Option WaveResult) (timed_out : Bool)
    (issued : List (String × AgentAssignment)) (ids : List String) (l : Ledger) (id : String)
    → lookup id (collect_wave fresh_id now output timed_out issued ids l).0.task_statuses
      ≡ some succeeded
    → (lookup id l.task_statuses ≡ some succeeded)
      ⊎ IsEarned (collected_of output timed_out issued) id
unfolding collect_wave
collect_wave-IsEarned fresh_id now output timed_out issued ids l id h =
    collect_tasks-Succeeded fresh_id now (collected_of output timed_out issued) ids l [] id h
