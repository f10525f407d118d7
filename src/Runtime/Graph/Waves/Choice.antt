-- ===== src/Runtime/Graph/Waves/Choice.antt =====
-- One round of the planning loop: which tasks it takes, and what remains.
use mathlib.Core.List.Perm
use mathlib.Core.List.{Perm}
use smorx.Prelude.{
  ℕ, ◌≡◌, ◌∙◌, ap, subst, String, Bool, true, false, not, ◌&&◌, ◌||◌, Option, List, [], ◌∷◌, ◌++◌,
  arith, filterb, filterb_congr, filterb-filterb, All, All-imp, All-concat, All-filterb, concat,
  contains, string_eq,
}
use smorx.Runtime.Graph.{TaskSpec, TaskGraph}
use smorx.Runtime.Graph.Waves.{ids, sort_tasks, batch, is_bad, deps_done, is_open, ready, remaining}
use smorx.Runtime.Graph.Waves.Sorting.{filterb-sort_tasks, contains-sort_tasks, All-sort_tasks}
use smorx.Runtime.Graph.Waves.Marking.{done_after_all, contains-done_after}
use smorx.Runtime.Graph.Waves.Round.{pick, concat-batch}
use smorx.Runtime.Graph.Waves.Ordering.{done_after_all-concat}
use smorx.Runtime.Graph.Waves.Unique.{IsUnique, All-chosen, filterb_split}

not_or : (c d : Bool) → not (c || d) ≡ (not d && not c)
not_or c d = ground arith

-- The candidates of a round, sorted, and its waves.
abbrev pub tasks : TaskGraph → List String → List TaskSpec
tasks g done = sort_tasks (ready done g)

abbrev pub round : Option ℕ → TaskGraph → List String → List (List TaskSpec)
round mp g done = batch mp (tasks g done)

module _ (mp : Option ℕ) (g : TaskGraph) (done : List String) (good : is_bad mp ≡ false) where
  abbrev chosen : TaskSpec → Bool
  chosen t = is_open done t && deps_done done t && pick (tasks g done) t

  chosen-ready : filterb (pick (tasks g done)) (ready done g) ≡ filterb chosen g
  unfolding ready
  chosen-ready = filterb-filterb (λ t. is_open done t && deps_done done t) (pick (tasks g done)) g

  -- The (tasks g done) of the round are the chosen ones.
  round-chosen : Perm (concat (round mp g done)) (filterb chosen g)
  round-chosen = rw (concat-batch mp (tasks g done) good) (
      subst (Perm (filterb (pick (tasks g done)) (tasks g done))) chosen-ready
        (filterb-sort_tasks (pick (tasks g done)) (ready done g)))

  contains-round :
      (i : String)
      → contains (ids (concat (round mp g done))) i ≡ contains (ids (filterb chosen g)) i
  contains-round i =
      ap (λ ts. contains (ids ts) i) (concat-batch mp (tasks g done) good)
      ∙ contains-sort_tasks (pick (tasks g done)) (ready done g) i
      ∙ ap (λ ts. contains (ids ts) i) chosen-ready

  -- What remains after the round is what was open and was not chosen.
  remaining-round :
      IsUnique g
      → remaining (done_after_all (round mp g done) done) g
        ≡ filterb (λ t. is_open done t && not (chosen t)) g
  unfolding remaining
  remaining-round unique = filterb_congr _ _ g (
      All-imp _ _
        (λ t picked.
          ap not (
            ap (λ d. contains d t.id) (done_after_all-concat (round mp g done) done)
            ∙ contains-done_after (concat (round mp g done)) done t.id
            ∙ ap (λ b. b || contains done t.id) (contains-round t.id ∙ picked))
          ∙ not_or (chosen t) (contains done t.id))
        g (All-chosen chosen g unique))

  pub round-perm :
      IsUnique g
      → Perm
          (concat (round mp g done) ++ remaining (done_after_all (round mp g done) done) g)
          (remaining done g)
  unfolding remaining
  round-perm unique = rw (remaining-round unique) (
      Perm.trans (Perm.append_right _ round-chosen)
        (filterb_split (is_open done) chosen g (λ t h. ground arith)))

  -- Every task of the round was ready.
  pub round_ready : All (All (λ t. deps_done done t ≡ true)) (round mp g done)
  unfolding ready
  round_ready = All-concat _ (round mp g done) (
      rw (concat-batch mp (tasks g done) good) (
        All-filterb _ (pick (tasks g done)) (tasks g done)
          (All-sort_tasks _ (ready done g) (each g))))
    where
      each : (h : TaskGraph) → All (λ t. deps_done done t ≡ true) (ready done h)
      each [] = tt
      each (t ∷ h) = ground (arith, each h)
