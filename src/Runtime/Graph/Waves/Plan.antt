-- ===== src/Runtime/Graph/Waves/Plan.antt =====
-- A plan holds every task that is not completed, once, behind its dependencies.
use mathlib.Core.List.Perm
use mathlib.Core.List.{Perm, append_assoc, append-nil}
use smorx.Runtime.Graph.Waves.Choice.{tasks, round, round-perm, round_ready}
use smorx.Prelude.{
  ℕ, zero, suc, ◌≡◌, refl, ◌∙◌, ap, subst, String, inl, inr, false, not, Option, none, some, List,
  [], ◌∷◌, ◌++◌, arith, if◌then◌else◌, Bool-cases, filterb, All, All-append, length, is_empty,
  nil_of_is_empty, concat, concat-append, contains, string_eq, ok, err,
}
use smorx.Runtime.Graph.{TaskSpec, TaskGraph, none_ready}
use smorx.Runtime.Graph.Waves.{
  ids, Planning, emit_all, is_bad, ready, remaining, waves_from, start, waves,
}
use smorx.Runtime.Graph.Waves.Sorting.{is_empty-sort_tasks}
use smorx.Runtime.Graph.Waves.Marking.{
  done_after_all, done-emit_all, plan-emit_all, IsTracked, emit_all-IsTracked, candidates-ready,
}
use smorx.Runtime.Graph.Waves.Round.{FitsWave, batch-FitsWave}
use smorx.Runtime.Graph.Waves.Ordering.{
  IsOrdered, IsOrdered-of_All, IsOrdered-append, done_after_all-append,
}
use smorx.Runtime.Graph.Waves.Unique.{IsUnique}

pub record IsPlan (completed : List String) (mp : Option ℕ) (g : TaskGraph)
    (plan : List (List TaskSpec)) : Type 0 where
  pub complete : Perm (concat plan) (remaining completed g)
  pub ordered : IsOrdered completed plan
  pub fits : All (FitsWave mp) plan

-- What holds of the planning state between two rounds.
pub record Inv (completed : List String) (mp : Option ℕ) (g : TaskGraph) (s : Planning)
    : Type 0 where
  pub tracked : IsTracked g s
  pub done_is : s.done ≡ done_after_all s.plan completed
  complete : Perm (concat s.plan ++ remaining s.done g) (remaining completed g)
  ordered : IsOrdered completed s.plan
  fits : All (FitsWave mp) s.plan

abbrev pub step : Option ℕ → TaskGraph → Planning → Planning
step mp g s = emit_all (round mp g s.done) s

pub step-Inv :
    (completed : List String) (mp : Option ℕ) (g : TaskGraph) (s : Planning)
    → is_bad mp ≡ false
    → IsUnique g
    → Inv completed mp g s
    → Inv completed mp g (step mp g s)
step-Inv completed mp g s good unique h =
    let ws = round mp g s.done in
    let done_now : (emit_all ws s).done ≡ done_after_all ws s.done = done-emit_all ws s in
    record {
      tracked = emit_all-IsTracked ws g s h.tracked;
      done_is =
          rw (done_now, plan-emit_all ws s, done_after_all-append s.plan ws completed)
            (ap (done_after_all ws) h.done_is);
      complete =
          rw (done_now, plan-emit_all ws s, concat-append s.plan ws)
            (rw append_assoc (
              Perm.trans (Perm.append_left (concat s.plan) (round-perm mp g s.done good unique))
                h.complete));
      ordered = rw (plan-emit_all ws s) (
          IsOrdered-append s.plan ws completed h.ordered (
            rw (← h.done_is)
              (IsOrdered-of_All ws s.done s.done (λ i m. m) (round_ready mp g s.done good))));
      fits =
          rw (plan-emit_all ws s)
            (All-append (FitsWave mp) s.plan ws h.fits (batch-FitsWave mp (tasks g s.done) good));
    }

is_empty-remaining :
    (done : List String) (g : TaskGraph)
    → is_empty (filterb (λ i. not (contains done i)) (ids g)) ≡ is_empty (remaining done g)
unfolding remaining
is_empty-remaining done [] = refl
is_empty-remaining done (t ∷ g) = ground (arith, is_empty-remaining done g)

-- One round of the loop, with the candidates as the ready tasks.
pub waves_from_round :
    (fuel : ℕ) (mp : Option ℕ) (g : TaskGraph) (s : Planning)
    → IsTracked g s
    → waves_from (suc fuel) mp g s ≡ (
        if is_empty (remaining s.done g)
        then some (ok s.plan)
        else if is_empty (ready s.done g)
        then some (err none_ready)
        else waves_from fuel mp g (step mp g s))
unfolding waves_from
waves_from_round fuel mp g s h =
    rw (candidates-ready g s h, is_empty-sort_tasks (ready s.done g))
      (rw (ap is_empty h ∙ is_empty-remaining s.done g))

pub waves_from-zero : (mp : Option ℕ) (g : TaskGraph) (s : Planning) → waves_from zero mp g s ≡ none
unfolding waves_from
waves_from-zero mp g s = refl

waves_from-IsPlan :
    (fuel : ℕ) (completed : List String) (mp : Option ℕ) (g : TaskGraph) (s : Planning)
    (plan : List (List TaskSpec))
    → is_bad mp ≡ false
    → IsUnique g
    → Inv completed mp g s
    → waves_from fuel mp g s ≡ some (ok plan)
    → IsPlan completed mp g plan
waves_from-IsPlan zero completed mp g s plan good unique h e = cc (waves_from-zero mp g s)
waves_from-IsPlan (suc fuel) completed mp g s plan good unique h e =
    let e' = rw (waves_from_round fuel mp g s h.tracked) at e in
    elim (Bool-cases (is_empty (remaining s.done g))) [
      | inl all_done ↦
          let e2 = rw all_done at e' in
          let same : s.plan ≡ plan = cc in
          subst (IsPlan completed mp g) same (record {
            complete = rw (nil_of_is_empty (remaining s.done g) all_done, append-nil) at h.complete;
            ordered = h.ordered;
            fits = h.fits;
          })
      | inr more ↦ elim (Bool-cases (is_empty (ready s.done g))) [
        | inl stuck ↦ cc (rw (more, stuck) at e')
        | inr some_ready ↦
            waves_from-IsPlan fuel completed mp g (step mp g s) plan good unique
              (step-Inv completed mp g s good unique h) (rw (more, some_ready) at e')
      ]
    ]

pub start-Inv :
    (completed : List String) (mp : Option ℕ) (g : TaskGraph)
    → Inv completed mp g (start completed g)
unfolding start
start-Inv completed mp g = record {
  tracked = refl;
  done_is = refl;
  complete = Perm.refl _;
  ordered = tt;
  fits = tt;
}

-- If no two tasks share an id and `waves` returns a plan, then the plan holds each task that is not
-- completed exactly once, every task's dependencies are completed or in earlier waves, and every
-- wave is non-empty, within the bound, and holds a serialized task only alone.
pub waves-IsPlan :
    (completed : List String) (mp : Option ℕ) (g : TaskGraph) (plan : List (List TaskSpec))
    → IsUnique g
    → waves completed mp g ≡ some (ok plan)
    → IsPlan completed mp g plan
unfolding waves
waves-IsPlan completed mp g plan unique e = elim (Bool-cases (is_bad mp)) [
  | inl bad ↦ cc (rw bad at e)
  | inr good ↦
      waves_from-IsPlan (suc (length g)) completed mp g (start completed g) plan good unique
        (start-Inv completed mp g) (rw good at e)
]
