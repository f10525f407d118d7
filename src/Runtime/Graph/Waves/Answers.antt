-- ===== src/Runtime/Graph/Waves/Answers.antt =====
-- `waves` always answers, and an acyclic graph gets a plan.
use mathlib.Core.List.{Perm, Permᴰ}
use mathlib.Core.Logic.{∥∥₁_elim}
use native.Mathlib.Nat.{ℕ_set}
use smorx.Prelude.{
  ℕ, zero, suc, ◌<◌, ◌≡◌, refl, sym, ◌∙◌, ap, subst, String, ◌⊎◌, inl, inr, true, false, not,
  Option, some, List, [], ◌∷◌, arith, Bool-cases, filterb, length, length-append, length-filterb-le,
  is_empty, concat, contains, contains-cons_self, contains-cons_of_contains, string_eq, Result, ok,
  err,
}
use smorx.Runtime.Graph.{TaskSpec, TaskGraph, TaskGraphError, none_ready}
use smorx.Runtime.Graph.Cycles.Paths.{IsAcyclic}
use smorx.Runtime.Graph.Waves.{
  ids, Planning, is_serialized, is_bad, ready, remaining, is_open, waves_from, start, waves,
}
use smorx.Runtime.Graph.Waves.Sorting.{is_empty-sort_tasks}
use smorx.Runtime.Graph.Waves.Marking.{done_after_all, done-emit_all}
use smorx.Runtime.Graph.Waves.Round.{pick_if, pick, concat-batch}
use smorx.Runtime.Graph.Waves.Ordering.{Subset, done_after-Subset, done_after_all-concat}
use smorx.Runtime.Graph.Waves.Unique.{IsUnique}
use smorx.Runtime.Graph.Waves.Choice.{tasks, round, round-perm}
use smorx.Runtime.Graph.Waves.Plan.{Inv, step, step-Inv, start-Inv, waves_from_round}
use smorx.Runtime.Graph.Waves.Progress.{IsSupplied, none-Open}

length-Permᴰ {ℓ} : {A : Type ℓ} {xs ys : List A} → Permᴰ xs ys → length xs ≡ length ys
length-Permᴰ Permᴰ.nil = refl
length-Permᴰ (Permᴰ.cons _ p) = ap suc (length-Permᴰ p)
length-Permᴰ (Permᴰ.swap {l = l} _ _) = refl
length-Permᴰ (Permᴰ.trans p q) = length-Permᴰ p ∙ length-Permᴰ q

length-Perm {ℓ} : {A : Type ℓ} {xs ys : List A} → Perm xs ys → length xs ≡ length ys
length-Perm p = ∥∥₁_elim p (ℕ_set _ _) length-Permᴰ

pos_of_not_empty {ℓ} : {A : Type ℓ} (xs : List A) → is_empty xs ≡ false → 0 < length xs
pos_of_not_empty [] h = cc
pos_of_not_empty (x ∷ xs) h = omega arith

unpicked_head :
    (t : TaskSpec) (ts : List TaskSpec)
    → is_empty (filterb is_serialized (t ∷ ts)) ≡ true
    → is_empty (filterb (λ u. not (is_serialized u)) (t ∷ ts)) ≡ false
unpicked_head t ts h = elim (Bool-cases (is_serialized t)) [
  | inl alone ↦ cc (rw alone at h)
  | inr shared ↦ rw shared
]

is_empty-pick : (ts : List TaskSpec) → is_empty ts ≡ false → 0 < length (filterb (pick ts) ts)
is_empty-pick [] h = cc
is_empty-pick (t ∷ ts) h = elim (Bool-cases (is_empty (filterb is_serialized (t ∷ ts)))) [
  | inl none_alone ↦
      subst (λ b. 0 < length (filterb (pick_if b) (t ∷ ts))) (sym none_alone)
        (pos_of_not_empty _ (unpicked_head t ts none_alone))
  | inr some_alone ↦
      subst (λ b. 0 < length (filterb (pick_if b) (t ∷ ts))) (sym some_alone)
        (pos_of_not_empty (filterb is_serialized (t ∷ ts)) some_alone)
]

-- A round with a ready task schedules a task.
round_progress :
    (mp : Option ℕ) (g : TaskGraph) (done : List String)
    → is_bad mp ≡ false
    → IsUnique g
    → is_empty (ready done g) ≡ false
    → length (remaining (done_after_all (round mp g done) done) g) < length (remaining done g)
round_progress mp g done good unique some_ready = omega (
  arith,
  length-Perm (round-perm mp g done good unique),
  length-append (concat (round mp g done)) (remaining (done_after_all (round mp g done) done) g),
  ap length (concat-batch mp (tasks g done) good),
  is_empty-pick (tasks g done) (is_empty-sort_tasks (ready done g) ∙ some_ready),
)

-- Tasks remain, and none is ready, when at least the completed ones are done.
pub record IsStuck (completed : List String) (g : TaskGraph) : Type 0 where
  pub done : List String
  pub includes : Subset completed done
  pub idle : is_empty (ready done g) ≡ true
  pub unfinished : is_empty (remaining done g) ≡ false

-- A plan, or the error with the reason for it.
abbrev pub Answers :
    List String → TaskGraph → Option (Result TaskGraphError (List (List TaskSpec))) → Type 0
Answers completed g r =
    ((plan : List (List TaskSpec)) × (r ≡ some (ok plan)))
    ⊎ (r ≡ some (err none_ready)) × IsStuck completed g

waves_from-Answers :
    (fuel : ℕ) (completed : List String) (mp : Option ℕ) (g : TaskGraph) (s : Planning)
    → is_bad mp ≡ false
    → IsUnique g
    → Inv completed mp g s
    → length (remaining s.done g) < fuel
    → Answers completed g (waves_from fuel mp g s)
waves_from-Answers zero completed mp g s good unique h enough = absurd (omega arith)
waves_from-Answers (suc fuel) completed mp g s good unique h enough =
    subst (Answers completed g) (sym (waves_from_round fuel mp g s h.tracked))
      (elim (Bool-cases (is_empty (remaining s.done g))) [
        | inl all_done ↦ rw all_done (inl (s.plan, refl))
        | inr more ↦ elim (Bool-cases (is_empty (ready s.done g))) [
          | inl stuck ↦
              rw (more, stuck)
                (inr (
                  refl,
                  record {
                    done = s.done;
                    includes = λ i m.
                        rw (h.done_is, done_after_all-concat s.plan completed)
                          (done_after-Subset (concat s.plan) completed i m);
                    idle = stuck;
                    unfinished = more;
                  },
                ))
          | inr some_ready ↦
              rw (more, some_ready)
                (waves_from-Answers fuel completed mp g (step mp g s) good unique
                  (step-Inv completed mp g s good unique h)
                  (omega (
                    arith,
                    round_progress mp g s.done good unique some_ready,
                    ap (λ d. length (remaining d g)) (done-emit_all (round mp g s.done) s),
                  )))
        ]
      ])

-- With a positive bound and one task to an id, `waves` ends with a plan, or with the error that no
-- task is ready; and then some tasks are left of which none can be scheduled.
pub waves-Answers :
    (completed : List String) (mp : Option ℕ) (g : TaskGraph)
    → is_bad mp ≡ false
    → IsUnique g
    → Answers completed g (waves completed mp g)
unfolding waves start remaining
waves-Answers completed mp g good unique = rw good (
    waves_from-Answers (suc (length g)) completed mp g (start completed g) good unique
      (start-Inv completed mp g) (omega (arith, length-filterb-le (is_open completed) g)))

some_remaining :
    (done : List String) (g : TaskGraph)
    → is_empty (remaining done g) ≡ false
    → (i : String) × (contains (ids g) i ≡ true) × (contains done i ≡ false)
unfolding remaining
some_remaining done [] h = cc
some_remaining done (t ∷ g) h = elim (Bool-cases (contains done t.id)) [
  | inr absent ↦ (t.id, contains-cons_self t.id (ids g), absent)
  | inl there ↦
      let (i, named, absent) = some_remaining done g (ground arith) in
      (i, contains-cons_of_contains t.id (ids g) i named, absent)
]

-- With a positive bound and one task to an id, an acyclic graph whose dependencies are all tasks or
-- completed gets a plan from `waves`.
pub waves_acyclic :
    (completed : List String) (mp : Option ℕ) (g : TaskGraph)
    → is_bad mp ≡ false
    → IsUnique g
    → IsAcyclic g
    → IsSupplied completed g
    → (plan : List (List TaskSpec)) × (waves completed mp g ≡ some (ok plan))
waves_acyclic completed mp g good unique acyclic supplied =
    elim (waves-Answers completed mp g good unique) [
      | inl planned ↦ planned
      | inr (_, stuck) ↦
          let (i, named, absent) = some_remaining stuck.done g stuck.unfinished in
          absurd (none-Open g stuck.done acyclic (more stuck) stuck.idle i (named, absent))
    ]
  where
    more : (stuck : IsStuck completed g) → IsSupplied stuck.done g
    more stuck a b e = elim (supplied a b e) [
      | inl named ↦ inl named
      | inr there ↦ inr (stuck.includes b there)
    ]
