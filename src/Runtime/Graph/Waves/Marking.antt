-- ===== src/Runtime/Graph/Waves/Marking.antt =====
-- What emitting waves does to the three fields of the planning state.
use mathlib.Core.List.{append-nil, append_assoc}
use smorx.Prelude.{
  ◌≡◌, refl, sym, ◌∙◌, ap, String, Bool, inl, inr, true, not, ◌&&◌, ◌||◌, List, [], ◌∷◌, ◌++◌,
  arith, filterb, All, All-imp, contains-cons_self, contains-cons_of_contains, contains, string_eq,
  ==-cases, ==-comm, filterb_congr,
}
use smorx.Runtime.Graph.{TaskSpec, TaskGraph}
use smorx.Runtime.Graph.Waves.{ids, Planning, discard, mark, emit_all, candidates, ready}

-- The ids that are done after the tasks of a wave.
abbrev pub done_after : List TaskSpec → List String → List String
done_after [] done = done
done_after (task ∷ wave) done = done_after wave (task.id ∷ done)

abbrev pub done_after_all : List (List TaskSpec) → List String → List String
done_after_all [] done = done
done_after_all (wave ∷ waves) done = done_after_all waves (done_after wave done)

done-mark : (w : List TaskSpec) (s : Planning) → (mark w s).done ≡ done_after w s.done
unfolding mark
done-mark [] s = refl
done-mark (t ∷ w) s = done-mark w _

plan-mark : (w : List TaskSpec) (s : Planning) → (mark w s).plan ≡ s.plan
unfolding mark
plan-mark [] s = refl
plan-mark (t ∷ w) s = plan-mark w _

pub done-emit_all :
    (ws : List (List TaskSpec)) (s : Planning) → (emit_all ws s).done ≡ done_after_all ws s.done
unfolding emit_all
done-emit_all [] s = refl
done-emit_all (w ∷ ws) s = done-emit_all ws _ ∙ ap (done_after_all ws) (done-mark w _)

pub plan-emit_all : (ws : List (List TaskSpec)) (s : Planning) → (emit_all ws s).plan ≡ s.plan ++ ws
unfolding emit_all
plan-emit_all [] s = sym (append-nil s.plan)
plan-emit_all (w ∷ ws) s =
    plan-emit_all ws _ ∙ ap (λ p. p ++ ws) (plan-mark w _) ∙ append_assoc s.plan (w ∷ []) ws

pub contains-done_after :
    (w : List TaskSpec) (done : List String) (i : String)
    → contains (done_after w done) i ≡ (contains (ids w) i || contains done i)
unfolding contains
contains-done_after [] done i = refl
contains-done_after (t ∷ w) done i = ground (arith, contains-done_after w (t.id ∷ done) i)

-- The tasks of a graph that are not done, as the loop keeps them.
abbrev pub IsTracked : TaskGraph → Planning → Type 0
IsTracked g s = s.unscheduled ≡ filterb (λ i. not (contains s.done i)) (ids g)

discard-filterb :
    (x : String) (done xs : List String)
    → discard x (filterb (λ i. not (contains done i)) xs)
      ≡ filterb (λ i. not (contains (x ∷ done) i)) xs
unfolding discard contains
discard-filterb x done [] = refl
discard-filterb x done (y ∷ xs) = ground (arith, ==-comm x y, discard-filterb x done xs)

mark-IsTracked :
    (w : List TaskSpec) (g : TaskGraph) (s : Planning) → IsTracked g s → IsTracked g (mark w s)
unfolding mark
mark-IsTracked [] g s h = h
mark-IsTracked (t ∷ w) g s h =
    mark-IsTracked w g _ (ap (discard t.id) h ∙ discard-filterb t.id s.done (ids g))

pub emit_all-IsTracked :
    (ws : List (List TaskSpec)) (g : TaskGraph) (s : Planning)
    → IsTracked g s
    → IsTracked g (emit_all ws s)
unfolding emit_all
emit_all-IsTracked [] g s h = h
emit_all-IsTracked (w ∷ ws) g s h = emit_all-IsTracked ws g _ (mark-IsTracked w g _ h)

pub contains-filterb :
    (p : String → Bool) (xs : List String) (a : String)
    → contains (filterb p xs) a ≡ (contains xs a && p a)
unfolding contains
contains-filterb p [] a = refl
contains-filterb p (x ∷ xs) a = elim (==-cases x a) [
  | inl (eq, same) ↦ ground (arith, eq, ap p same, contains-filterb p xs a)
  | inr (ne, _) ↦ ground (arith, ne, contains-filterb p xs a)
]

-- Every task's id is one of the ids.
pub All-named : (g : TaskGraph) → All (λ t. contains (ids g) t.id ≡ true) g
All-named g = within g (ids g) (λ i m. m)
  where
    within :
        (h : TaskGraph) (names : List String)
        → ((i : String) → contains (ids h) i ≡ true → contains names i ≡ true)
        → All (λ t. contains names t.id ≡ true) h
    within [] names sub = tt
    within (t ∷ h) names sub = (
      sub t.id (contains-cons_self t.id (ids h)),
      within h names (λ i m. sub i (contains-cons_of_contains t.id (ids h) i m)),
    )

-- The candidates of a round are the ready tasks.
pub candidates-ready :
    (g : TaskGraph) (s : Planning) → IsTracked g s → candidates s g ≡ ready s.done g
unfolding candidates ready
candidates-ready g s h = filterb_congr _ _ g (
    All-imp _ _
      (λ t named. ground (
        arith,
        named,
        ap (λ u. contains u t.id) h,
        contains-filterb (λ i. not (contains s.done i)) (ids g) t.id,
      ))
      g (All-named g))
