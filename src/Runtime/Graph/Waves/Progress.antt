-- ===== src/Runtime/Graph/Waves/Progress.antt =====
-- An acyclic graph that names only its own tasks and completed ones always has a ready task.
use smorx.Prelude.{
  ℕ, zero, suc, ◌≤◌, ◌<◌, ◌≡◌, refl, sym, ap, subst, String, ◌⊎◌, inl, inr, true, false, not, some,
  List, [], ◌∷◌, arith, Bool-cases, All, All-imp, length, is_empty, contains, string_eq, allb, ◌==◌,
  ==-cases, length-filterb-le, contains-cons_self, contains-cons_of_contains, or-false_inv,
}
use smorx.Runtime.Graph.{TaskSpec, TaskGraph, find}
use smorx.Runtime.Graph.Cycles.Paths.{Edge, Depends, direct, IsAcyclic, Depends-trans}
use smorx.Runtime.Graph.Cycles.Linking.{edges-find}
use smorx.Runtime.Graph.Waves.{ids, discard, deps_done, is_open, ready}
use smorx.Runtime.Graph.Waves.Marking.{contains-filterb}

abbrev Distinct : List String → Type 0
Distinct [] = Unit
Distinct (x ∷ xs) = (contains xs x ≡ false) × Distinct xs

length-discard :
    (x : String) (ys : List String) → contains ys x ≡ true → length (discard x ys) < length ys
unfolding discard contains
length-discard x [] h = cc
length-discard x (y ∷ ys) h =
    ground (arith, length-discard x ys, length-filterb-le (λ z. not (z == x)) ys)

contains-discard :
    (x y : String) (ys : List String)
    → contains ys y ≡ true
    → (y == x) ≡ false
    → contains (discard x ys) y ≡ true
unfolding discard
contains-discard x y ys h ne = rw (contains-filterb (λ z. not (z == x)) ys y) (rw (h, ne))

-- Distinct names among `ys` are no more than `ys` has.
pigeonhole :
    (xs ys : List String) → Distinct xs → All (λ y. contains ys y ≡ true) xs → length xs ≤ length ys
pigeonhole [] ys d h = omega arith
pigeonhole (x ∷ xs) ys d h =
    omega (arith, length-discard x ys h.0, pigeonhole xs (discard x ys) d.1 (without xs d.0 h.1))
  where
    without :
        (zs : List String)
        → contains zs x ≡ false
        → All (λ y. contains ys y ≡ true) zs
        → All (λ y. contains (discard x ys) y ≡ true) zs
    without [] absent k = tt
    without (z ∷ zs) absent k =
        let (differs, later) = or-false_inv (z == x) (contains zs x) (unfold contains in absent) in
        (contains-discard x z ys k.0 differs, without zs later k.1)

-- Every dependency is a task of the graph or completed.
abbrev pub IsSupplied : List String → TaskGraph → Type 0
IsSupplied completed g =
    (a b : String) → Edge g a b → (contains (ids g) b ≡ true) ⊎ (contains completed b ≡ true)

find_of_named :
    (g : TaskGraph) (i : String)
    → contains (ids g) i ≡ true
    → (task : TaskSpec) × (find i g ≡ some task)
unfolding find contains
find_of_named [] i h = cc
find_of_named (t ∷ g) i h = elim (Bool-cases (t.id == i)) [
  | inl eq ↦ (t, rw eq)
  | inr ne ↦ rw ne (find_of_named g i (rw ne at h))
]

-- An open task that is not ready misses a dependency.
not_done_of_stuck :
    (done : List String) (g : TaskGraph) (i : String) {task : TaskSpec}
    → is_empty (ready done g) ≡ true
    → find i g ≡ some task
    → contains done i ≡ false
    → deps_done done task ≡ false
unfolding ready find is_open
not_done_of_stuck done [] i stuck known absent = cc
not_done_of_stuck done (t ∷ g) i {task} stuck known absent = elim (==-cases t.id i) [
  | inl (eq, same) ↦
      let hit : some t ≡ some task = rw eq at known in
      let entry : t ≡ task = cc in
      let not_done = subst (λ j. contains done j ≡ false) (sym same) absent in
      subst (λ u. deps_done done u ≡ false) entry (ground (arith, not_done, stuck))
  | inr (ne, _) ↦ not_done_of_stuck done g i (ground (arith, stuck)) (rw ne at known) absent
]

missing_of_allb :
    (done xs : List String)
    → allb (contains done) xs ≡ false
    → (x : String) × (contains xs x ≡ true) × (contains done x ≡ false)
unfolding contains
missing_of_allb done [] h = cc
missing_of_allb done (x ∷ xs) h = elim (Bool-cases (contains done x)) [
  | inr absent ↦ (x, contains-cons_self x xs, absent)
  | inl there ↦
      let (y, listed, absent) = missing_of_allb done xs (rw there at h) in
      (y, contains-cons_of_contains x xs y listed, absent)
]

module _ (g : TaskGraph) (done : List String) (acyclic : IsAcyclic g) (supplied : IsSupplied done g)
    (stuck : is_empty (ready done g) ≡ true) where
  abbrev Open : String → Type 0
  Open i = (contains (ids g) i ≡ true) × (contains done i ≡ false)

  -- An open task has an open dependency.
  next : (i : String) → Open i → (j : String) × Edge g i j × Open j
  unfolding deps_done
  next i open_i =
      let (task, known) = find_of_named g i open_i.0 in
      let late = not_done_of_stuck done g i stuck known open_i.1 in
      let (x, listed, absent) = missing_of_allb done task.depends_on late in
      let e : Edge g i x =
        subst (λ deps. contains deps x ≡ true) (sym (edges-find i g known)) listed in
      elim (supplied i x e) [ inl named ↦ (x, e, (named, absent)) | inr there ↦ cc ]

  -- Open tasks, each depending on `here`, and no two the same.
  record Walk (k : ℕ) : Type 0 where
    here : String
    here_open : Open here
    past : List String
    long : length past ≡ k
    below : All (λ y. Depends g y here) past
    past_open : All Open past
    distinct : Distinct past

  fresh :
      (here : String) (past : List String)
      → All (λ y. Depends g y here) past
      → contains past here ≡ false
  unfolding contains
  fresh here [] h = refl
  fresh here (y ∷ past) h = elim (==-cases y here) [
    | inl (_, same) ↦ absurd (acyclic here (subst (λ z. Depends g z here) same h.0))
    | inr (ne, _) ↦ rw ne (fresh here past h.1)
  ]

  walk : (i : String) → Open i → (k : ℕ) → Walk k
  walk i open_i zero = record {
    here = i;
    here_open = open_i;
    past = [];
    long = refl;
    below = tt;
    past_open = tt;
    distinct = tt;
  }
  walk i open_i (suc k) =
      let w = walk i open_i k in
      let (j, e, open_j) = next w.here w.here_open in
      record {
        here = j;
        here_open = open_j;
        past = w.here ∷ w.past;
        long = ap suc w.long;
        below = (direct e, All-imp _ _ (λ y p. Depends-trans p (direct e)) w.past w.below);
        past_open = (w.here_open, w.past_open);
        distinct = (fresh w.here w.past w.below, w.distinct);
      }

  pub none-Open : (i : String) → ¬ Open i
  none-Open i open_i =
      let w = walk i open_i (suc (length (ids g))) in
      absurd (
        omega (
          arith,
          w.long,
          pigeonhole w.past (ids g) w.distinct (All-imp _ _ (λ y o. o.0) w.past w.past_open),
        ))
