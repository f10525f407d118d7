-- ===== src/Runtime/Graph/Waves/Unique.antt =====
-- With one task to an id, a choice of tasks and the rest make up the whole.
use mathlib.Core.List.Perm
use mathlib.Core.List.{Perm, perm_middle}
use smorx.Prelude.{
  ◌≡◌, refl, String, Bool, inl, inr, true, false, not, ◌&&◌, List, [], ◌∷◌, ◌++◌, arith, Bool-cases,
  filterb, All, contains, string_eq, ◌==◌, ==-comm, ==-refl,
}
use smorx.Runtime.Graph.{TaskSpec}
use smorx.Runtime.Graph.Waves.{ids}

-- No two tasks of the list have one id.
abbrev pub IsUnique : List TaskSpec → Type 0
IsUnique [] = Unit
IsUnique (t ∷ ts) = (contains (ids ts) t.id ≡ false) × IsUnique ts

contains-filterb_le :
    (a : TaskSpec → Bool) (ts : List TaskSpec) (i : String)
    → contains (ids ts) i ≡ false
    → contains (ids (filterb a ts)) i ≡ false
unfolding contains
contains-filterb_le a [] i h = refl
contains-filterb_le a (t ∷ ts) i h = ground (arith, contains-filterb_le a ts i)

-- A name that no task has differs from every task's.
All-other :
    (i : String) (ts : List TaskSpec)
    → contains (ids ts) i ≡ false
    → All (λ u. (i == u.id) ≡ false) ts
unfolding contains
All-other i [] h = tt
All-other i (t ∷ ts) h = (ground (arith, ==-comm i t.id), All-other i ts (ground arith))

-- The names of the chosen tasks tell which tasks were chosen.
pub All-chosen :
    (a : TaskSpec → Bool) (ts : List TaskSpec)
    → IsUnique ts
    → All (λ t. contains (ids (filterb a ts)) t.id ≡ a t) ts
unfolding contains
All-chosen a [] h = tt
All-chosen a (t ∷ ts) h = (
  ground (arith, ==-refl t.id, contains-filterb_le a ts t.id),
  later ts (All-chosen a ts h.1) (All-other t.id ts h.0),
)
  where
    later :
        (us : List TaskSpec)
        → All (λ u. contains (ids (filterb a ts)) u.id ≡ a u) us
        → All (λ u. (t.id == u.id) ≡ false) us
        → All (λ u. contains (ids (filterb a (t ∷ ts))) u.id ≡ a u) us
    later [] k o = tt
    later (u ∷ us) k o = (ground (arith, k.0, o.0), later us k.1 o.1)

-- A choice and what is left over are the whole.
pub filterb_split :
    (o a : TaskSpec → Bool) (ts : List TaskSpec)
    → ((t : TaskSpec) → a t ≡ true → o t ≡ true)
    → Perm (filterb a ts ++ filterb (λ t. o t && not (a t)) ts) (filterb o ts)
filterb_split o a [] sub = Perm.refl _
filterb_split o a (t ∷ ts) sub = elim (Bool-cases (a t)) [
  | inl chosen ↦ rw (chosen, sub t chosen) (Perm.cons t (filterb_split o a ts sub))
  | inr left_out ↦ elim (Bool-cases (o t)) [
    | inl kept ↦
        rw (left_out, kept)
          (Perm.trans (perm_middle (filterb a ts) (filterb (λ u. o u && not (a u)) ts))
            (Perm.cons t (filterb_split o a ts sub)))
    | inr dropped ↦ rw (left_out, dropped) (filterb_split o a ts sub)
  ]
]
