-- ===== src/Runtime/Orchestrator/Rounds/Settling.antt =====
-- After the collection each task of the wave has SUCCEEDED, was CANCELLED, or has its failure.
use smorx.Prelude.{
  ◌≡◌, ◌≢◌, refl, sym, ◌∙◌, subst, ℕ, String, true, false, ◌⊎◌, inl, inr, Option, some, List, [],
  ◌∷◌, arith, Bool-cases, contains, ◌==◌, string_eq, ==-refl, ==-cases, lookup, insert,
  lookup-insert,
}
use smorx.Runtime.Graph.{TaskSpec}
use smorx.Runtime.Graph.Waves.{ids}
use smorx.Runtime.Agents.{AgentFailure, AgentResult}
use smorx.Runtime.Orchestrator.Collecting.{
  TaskStatus, running, succeeded, failed, cancelled, Ledger, Judgement, settled, fails, stale,
  invalid, succeeds, Collected, judge, judge_result, settle, collect_tasks, remove, mark_failed,
  mark_succeeded,
}
use smorx.Runtime.Orchestrator.Rounds.Phasing.{run_all}

abbrev StatusDict : Type 0
StatusDict = List (String × TaskStatus)

abbrev pub IsDone : StatusDict → String → Type 0
IsDone statuses id = (lookup id statuses ≡ some succeeded) ⊎ (lookup id statuses ≡ some cancelled)

abbrev pub HasFailure {ℓ} : {A : Type ℓ} → List (String × A) → String → Type ℓ
HasFailure {A = A} failures id = (f : A) × (lookup id failures ≡ some f)

abbrev pub IsEnded : Ledger × List (String × AgentFailure) → String → Type 0
IsEnded (l, failures) id = IsDone l.task_statuses id ⊎ HasFailure failures id

lookup-insert_self {ℓ} :
    {V : Type ℓ} (k : String) (v : V) (d : List (String × V)) → lookup k (insert k v d) ≡ some v
lookup-insert_self k v d = lookup-insert k k v d ∙ rw (==-refl k) refl

lookup-insert_other {ℓ} :
    {V : Type ℓ} (k j : String) (v : V) (d : List (String × V))
    → (k == j) ≡ false
    → lookup j (insert k v d) ≡ lookup j d
lookup-insert_other k j v d h = lookup-insert k j v d ∙ rw h refl

HasFailure-insert :
    (k j : String) (v : AgentFailure) (d : List (String × AgentFailure))
    → HasFailure d j
    → HasFailure (insert k v d) j
HasFailure-insert k j v d (f, h) = elim (Bool-cases (k == j)) [
  | inl same ↦ (v, lookup-insert k j v d ∙ rw same refl)
  | inr differs ↦ (f, lookup-insert_other k j v d differs ∙ h)
]

run_all-keeps :
    (wave : List TaskSpec) (statuses : StatusDict) (id : String)
    → lookup id statuses ≡ some running
    → lookup id (run_all wave statuses) ≡ some running
unfolding run_all
run_all-keeps [] statuses id h = h
run_all-keeps (task ∷ wave) statuses id h =
    run_all-keeps wave (insert task.id running statuses) id (elim (Bool-cases (task.id == id)) [
      | inl same ↦ lookup-insert task.id id running statuses ∙ rw same refl
      | inr differs ↦ lookup-insert_other task.id id running statuses differs ∙ h
    ])

-- Every task of an issued wave is RUNNING, and the others keep their status.
pub run_all-running :
    (wave : List TaskSpec) (statuses : StatusDict) (id : String)
    → contains (ids wave) id ≡ true
    → lookup id (run_all wave statuses) ≡ some running
unfolding run_all contains
run_all-running [] statuses id h = cc
run_all-running (task ∷ wave) statuses id h = elim (==-cases task.id id) [
  | inl (same, _) ↦
      run_all-keeps wave (insert task.id running statuses) id
        (lookup-insert task.id id running statuses ∙ rw same refl)
  | inr (differs, _) ↦ run_all-running wave (insert task.id running statuses) id (rw differs at h)
]

pub run_all-other :
    (wave : List TaskSpec) (statuses : StatusDict) (id : String)
    → contains (ids wave) id ≡ false
    → lookup id (run_all wave statuses) ≡ lookup id statuses
unfolding run_all contains
run_all-other [] statuses id h = refl
run_all-other (task ∷ wave) statuses id h =
    run_all-other wave (insert task.id running statuses) id (ground arith)
    ∙ lookup-insert_other task.id id running statuses (ground arith)

module _ (fresh_id : String → String) (now : ℕ) (c : Collected) where
  -- A judgement ends its task, unless it was settled before.
  settle-own :
      (id : String) (j : Judgement) (l : Ledger) (failures : List (String × AgentFailure))
      → (j ≡ settled) ⊎ IsEnded (settle fresh_id now c id j (l, failures)) id
  unfolding settle mark_failed mark_succeeded
  settle-own id settled l failures = inl refl
  settle-own id (fails f) l failures = inr (inr (f, lookup-insert_self id f failures))
  settle-own id (stale conflict) l failures =
      inr (inl (inr (lookup-insert_self id cancelled l.task_statuses)))
  settle-own id (invalid conflict f) l failures = inr (inr (f, lookup-insert_self id f failures))
  settle-own id (succeeds result) l failures =
      inr (inl (inl (lookup-insert_self id succeeded l.task_statuses)))

  -- It leaves the status of the others, and every failure.
  settle-other :
      (id other : String) (j : Judgement) (l : Ledger) (failures : List (String × AgentFailure))
      → (id == other) ≡ false
      → lookup other (settle fresh_id now c id j (l, failures)).0.task_statuses
        ≡ lookup other l.task_statuses
  unfolding settle mark_failed mark_succeeded
  settle-other id other settled l failures h = refl
  settle-other id other (fails f) l failures h =
      lookup-insert_other id other failed l.task_statuses h
  settle-other id other (stale conflict) l failures h =
      lookup-insert_other id other cancelled l.task_statuses h
  settle-other id other (invalid conflict f) l failures h =
      lookup-insert_other id other failed l.task_statuses h
  settle-other id other (succeeds result) l failures h =
      lookup-insert_other id other succeeded l.task_statuses h

  settle-HasFailure :
      (id other : String) (j : Judgement) (l : Ledger) (failures : List (String × AgentFailure))
      → HasFailure failures other
      → HasFailure (settle fresh_id now c id j (l, failures)).1 other
  unfolding settle
  settle-HasFailure id other settled l failures h = h
  settle-HasFailure id other (fails f) l failures h = HasFailure-insert id other f failures h
  settle-HasFailure id other (stale conflict) l failures h = h
  settle-HasFailure id other (invalid conflict f) l failures h =
      HasFailure-insert id other f failures h
  settle-HasFailure id other (succeeds result) l failures h = h

  IsEnded-settle :
      (id other : String) (j : Judgement) (l : Ledger) (failures : List (String × AgentFailure))
      → IsEnded (l, failures) other
      → IsEnded (settle fresh_id now c id j (l, failures)) other
  unfolding settle
  IsEnded-settle id other j l failures (inr h) = inr (settle-HasFailure id other j l failures h)
  IsEnded-settle id other j l failures (inl h) = elim (==-cases id other) [
    | inr (differs, _) ↦
        let e = settle-other id other j l failures differs in
        inl (elim h [ inl a ↦ inl (e ∙ a) | inr b ↦ inr (e ∙ b) ])
    | inl (_, eq) ↦ elim (settle-own id j l failures) [
      | inl same ↦ rw same (inl h)
      | inr ended ↦ subst (IsEnded (settle fresh_id now c id j (l, failures))) eq ended
    ]
  ]

  judge_result-settles :
      (id : String) (result : AgentResult) → judge_result fresh_id now id result ≢ settled
  unfolding judge_result
  judge_result-settles id result e = ground arith

  judge-ne-settled :
      (id : String) (status : Option TaskStatus)
      → status ≡ some running
      → judge fresh_id now c id status ≢ settled
  unfolding judge
  judge-ne-settled id status h e = ground (arith, judge_result-settles id)

  pub collect_tasks-IsEnded :
      (todo : List String) (l : Ledger) (failures : List (String × AgentFailure)) (id : String)
      → (lookup id l.task_statuses ≡ some running) × (contains todo id ≡ true)
        ⊎ IsEnded (l, failures) id
      → IsEnded (collect_tasks fresh_id now c todo (l, failures)) id
  unfolding collect_tasks contains
  collect_tasks-IsEnded [] l failures id (inl (h, member)) = cc
  collect_tasks-IsEnded [] l failures id (inr h) = h
  collect_tasks-IsEnded (x ∷ todo) l failures id h =
      let l' = record l { pending_tasks = remove x l.pending_tasks } in
      let j = judge fresh_id now c x (lookup x l.task_statuses) in
      let (l'', failures') = settle fresh_id now c x j (l', failures) in
      collect_tasks-IsEnded todo l'' failures' id (elim h [
        | inr ended ↦ inr (IsEnded-settle x id j l' failures ended)
        | inl (runs, member) ↦ elim (==-cases x id) [
          | inr (differs, _) ↦
              inl (settle-other x id j l' failures differs ∙ runs, rw differs at member)
          | inl (_, eq) ↦ elim (settle-own x j l' failures) [
            | inl same ↦ absurd (
                judge-ne-settled x (lookup x l.task_statuses)
                  (subst (λ y. lookup y l.task_statuses ≡ some running) (sym eq) runs) same)
            | inr ended ↦ inr (subst (IsEnded (settle fresh_id now c x j (l', failures))) eq ended)
          ]
        ]
      ])

  pub collect_tasks-other :
      (todo : List String) (l : Ledger) (failures : List (String × AgentFailure)) (id : String)
      → contains todo id ≡ false
      → lookup id (collect_tasks fresh_id now c todo (l, failures)).0.task_statuses
        ≡ lookup id l.task_statuses
  unfolding collect_tasks contains
  collect_tasks-other [] l failures id h = refl
  collect_tasks-other (x ∷ todo) l failures id h =
      let l' = record l { pending_tasks = remove x l.pending_tasks } in
      let j = judge fresh_id now c x (lookup x l.task_statuses) in
      let (l'', failures') = settle fresh_id now c x j (l', failures) in
      collect_tasks-other todo l'' failures' id (ground arith)
      ∙ settle-other x id j l' failures (ground arith)
