-- ===== src/Runtime/Graph/Cycles/Paths.antt =====
-- Dependency paths: the specification that `_creates_cycle` is compared with.
use smorx.Prelude.{
  ◌≡◌, sym, subst, String, ◌⊎◌, inl, inr, true, none, some, List, [], contains, string_eq,
}
use smorx.Runtime.Graph.{TaskGraph, find}

-- The dependencies of a task; a name that is no task has none.
unfoldable pub edges : TaskGraph → String → List String
edges g a = elim (find a g) [ none ↦ [] | some task ↦ task.depends_on ]

abbrev pub Edge : TaskGraph → String → String → Type 0
Edge g a b = contains (edges g a) b ≡ true

-- `a` depends on `b`, through one task or more.
pub data Depends (g : TaskGraph) : String → String → Type 0 where
  direct : {a b : String} → Edge g a b → Depends g a b
  through : {a b c : String} → Edge g a b → Depends g b c → Depends g a c

abbrev pub IsAcyclic : TaskGraph → Type 0
IsAcyclic g = (a : String) → ¬ Depends g a a

pub Depends-trans : {g : TaskGraph} {a b c : String} → Depends g a b → Depends g b c → Depends g a c
Depends-trans (direct e) q = through e q
Depends-trans (through e p) q = through e (Depends-trans p q)

-- `b` is `a`, or `a` depends on it.
abbrev pub Reaches : TaskGraph → String → String → Type 0
Reaches g a b = (a ≡ b) ⊎ Depends g a b

pub Reaches-Edge :
    {g : TaskGraph} {a b : String} (c : String) → Reaches g a b → Edge g b c → Depends g a c
Reaches-Edge {g} c (inl same) e = direct (subst (λ x. Edge g x c) (sym same) e)
Reaches-Edge c (inr p) e = Depends-trans p (direct e)

pub Reaches-Depends :
    {g : TaskGraph} {a b c : String} → Reaches g a b → Depends g b c → Depends g a c
Reaches-Depends {g} {c} (inl same) p = subst (λ x. Depends g x c) (sym same) p
Reaches-Depends (inr q) p = Depends-trans q p

pub Depends-Reaches :
    {g : TaskGraph} {a b c : String} → Depends g a b → Reaches g b c → Depends g a c
Depends-Reaches {g} {a} p (inl same) = subst (Depends g a) same p
Depends-Reaches p (inr q) = Depends-trans p q

pub Reaches-trans : {g : TaskGraph} {a b c : String} → Reaches g a b → Reaches g b c → Reaches g a c
Reaches-trans {g} {c} (inl same) q = subst (λ x. Reaches g x c) (sym same) q
Reaches-trans (inr p) q = inr (Depends-Reaches p q)
