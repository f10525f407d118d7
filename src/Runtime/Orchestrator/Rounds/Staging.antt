-- ===== src/Runtime/Orchestrator/Rounds/Staging.antt =====
-- A task that failed runs again, unless the run is blocked.
use smorx.Prelude.{
  ◌≡◌, refl, subst, String, true, ◌⊎◌, inl, inr, none, List, [], ◌∷◌, ◌++◌, ◌||◌, map, arith,
  Bool-cases, Option-cases, contains, contains-append, ◌==◌, string_eq, ==-cases, lookup, insert,
}
use smorx.Runtime.Graph.{TaskSpec}
use smorx.Runtime.Graph.Waves.{ids}
use smorx.Runtime.Agents.{AgentFailure}
use smorx.Runtime.Orchestrator.{
  RetryPolicy, TaskRuns, Failure, runs_of, react, Reactions, react_all,
}
use smorx.Runtime.Orchestrator.Rounds.Reacting.{
  Reaction-cases, after_reaction, react_all-after_reaction, react_all-fine,
}
use smorx.Runtime.Orchestrator.Rounds.Settling.{HasFailure}

ids-append : (xs ys : List TaskSpec) → ids (xs ++ ys) ≡ ids xs ++ ids ys
ids-append [] ys = refl
ids-append (x ∷ xs) ys = rw (ids-append xs ys) refl

pub contains-ids_append :
    (xs ys : List TaskSpec) (id : String)
    → contains (ids (xs ++ ys)) id ≡ (contains (ids xs) id || contains (ids ys) id)
contains-ids_append xs ys id = rw (ids-append xs ys) (contains-append (ids xs) (ids ys) id)

pub lookup-map_values :
    (f : AgentFailure → Failure) (d : List (String × AgentFailure)) (id : String)
    → HasFailure d id
    → HasFailure (map (λ x. (x.0, f x.1)) d) id
unfolding lookup
lookup-map_values f [] id (v, h) = cc
lookup-map_values f ((k, w) ∷ d) id (v, h) = elim (Bool-cases (k == id)) [
  | inl same ↦ (f w, rw same refl)
  | inr differs ↦ let (u, e) = lookup-map_values f d id (v, rw differs at h) in (u, rw differs e)
]

module _ (policy : RetryPolicy) (failures : List (String × Failure)) where
  -- Of a run that is not blocked.
  abbrev pub Stages : String → Reactions → Type 0
  Stages id r = r.block ≡ none → contains (ids r.staged) id ≡ true

  pub react_all-staged :
      (wave : List TaskSpec) (tasks : List (String × TaskRuns)) (staged : List TaskSpec)
      (id : String)
      → (contains (ids staged) id ≡ true) ⊎ (contains (ids wave) id ≡ true) × HasFailure failures id
      → Stages id (react_all policy failures wave tasks staged)
  unfolding react_all after_reaction contains
  react_all-staged [] tasks staged id (inl h) = λ open_. h
  react_all-staged [] tasks staged id (inr (h, f)) = cc
  react_all-staged (task ∷ wave) tasks staged id h = elim (Option-cases (lookup task.id failures)) [
    | inl fine ↦ rw (react_all-fine policy failures task wave tasks staged fine) (
        react_all-staged wave tasks staged id (elim h [
          | inl so_far ↦ inl so_far
          | inr (member, (f, e)) ↦ elim (==-cases task.id id) [
            | inl (_, eq) ↦ cc (e, subst (λ x. lookup x failures ≡ none) eq fine)
            | inr (differs, _) ↦ inr (rw differs at member, (f, e))
          ]
        ]))
    | inr (f, e) ↦
        let r = react policy f (runs_of task.id tasks) in
        let next =
          react_all-staged wave (insert task.id r.1 tasks) (staged ++ task ∷ []) id (elim h [
            | inl so_far ↦
                inl (rw (contains-ids_append staged (task ∷ []) id) (ground (arith, so_far)))
            | inr (member, has) ↦ elim (Bool-cases (task.id == id)) [
              | inl same ↦
                  inl (rw (contains-ids_append staged (task ∷ []) id) (ground (arith, same)))
              | inr differs ↦ inr (rw differs at member, has)
            ]
          ]) in
        rw (react_all-after_reaction policy failures task wave tasks staged f r e refl)
          (elim (Reaction-cases r.0) [
            | inl (kind, mismatch, k) ↦ rw (k, after_reaction) (λ open_. cc)
            | inr (inl (n, k)) ↦ rw (k, after_reaction) next
            | inr (inr k) ↦ rw (k, after_reaction) next
          ])
  ]
