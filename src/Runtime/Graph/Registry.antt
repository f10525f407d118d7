-- ===== src/Runtime/Graph/Registry.antt =====
-- The registry keeps one task to an id, in the order of insertion.
use smorx.Prelude.{
  ◌≡◌, refl, sym, ◌∙◌, ap, String, ◌⊎◌, inl, inr, true, false, ◌||◌, [], ◌∷◌, ◌++◌, arith,
  Bool-cases, contains, string_eq, ok, err, ◌==◌, ==-comm, ==-cases,
}
use smorx.Runtime.Graph.{TaskSpec, TaskGraph, duplicate_task, has_task, put, add}
use smorx.Runtime.Graph.Waves.{ids}
use smorx.Runtime.Graph.Waves.Unique.{IsUnique}

has_task-ids : (i : String) (g : TaskGraph) → has_task i g ≡ contains (ids g) i
unfolding has_task contains
has_task-ids i [] = refl
has_task-ids i (t ∷ g) = ground (arith, has_task-ids i g)

-- A new key goes to the end.
put_new : (t : TaskSpec) (g : TaskGraph) → contains (ids g) t.id ≡ false → put t g ≡ g ++ t ∷ []
unfolding put contains
put_new t [] h = refl
put_new t (u ∷ g) h = ground (arith, put_new t g)

-- A known key keeps its place.
ids-put : (t : TaskSpec) (g : TaskGraph) → contains (ids g) t.id ≡ true → ids (put t g) ≡ ids g
unfolding put contains
ids-put t [] h = cc
ids-put t (u ∷ g) h = elim (==-cases u.id t.id) [
  | inl (eq, same) ↦ rw eq (ap (λ i. i ∷ ids g) (sym same))
  | inr (ne, _) ↦ rw ne (ap (λ is. u.id ∷ is) (ids-put t g (rw ne at h)))
]

contains_snoc :
    (g : TaskGraph) (t : TaskSpec) (i : String)
    → contains (ids (g ++ t ∷ [])) i ≡ (contains (ids g) i || t.id == i)
unfolding contains
contains_snoc [] t i = ground arith
contains_snoc (u ∷ g) t i = ground (arith, contains_snoc g t i)

IsUnique-snoc :
    (g : TaskGraph) (t : TaskSpec)
    → IsUnique g
    → contains (ids g) t.id ≡ false
    → IsUnique (g ++ t ∷ [])
unfolding contains
IsUnique-snoc [] t u h = (refl, tt)
IsUnique-snoc (x ∷ g) t u h = (
  ground (arith, contains_snoc g t x.id, ==-comm x.id t.id, u.0),
  IsUnique-snoc g t u.1 (ground arith),
)

-- `add` rejects exactly the ids that are registered; else the task stands behind the others, which
-- are as they were, and there is still one task to an id.
pub add_cases :
    (t : TaskSpec) (g : TaskGraph)
    → IsUnique g
    → (has_task t.id g ≡ true) × (add t g ≡ err (duplicate_task t.id))
      ⊎ (has_task t.id g ≡ false) × (add t g ≡ ok (g ++ t ∷ [])) × IsUnique (g ++ t ∷ [])
unfolding add
add_cases t g unique = elim (Bool-cases (has_task t.id g)) [
  | inl there ↦ inl (there, rw there)
  | inr absent ↦
      let named = sym (has_task-ids t.id g) ∙ absent in
      inr (absent, rw absent (ap ok (put_new t g named)), IsUnique-snoc g t unique named)
]
