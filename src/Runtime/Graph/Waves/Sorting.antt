-- ===== src/Runtime/Graph/Waves/Sorting.antt =====
-- The sort of the candidates neither adds nor drops a task.
use mathlib.Core.List.Perm
use mathlib.Core.List.{Perm}
use smorx.Prelude.{
  ◌≡◌, refl, ◌∙◌, String, Bool, inl, inr, false, List, [], ◌∷◌, arith, Bool-cases, is_empty,
  filterb, All, contains, string_eq, ◌||◌, ◌&&◌, ◌==◌,
}
use smorx.Runtime.Graph.{TaskSpec}
use smorx.Runtime.Graph.Waves.{ids, key_lt, insert_task, sort_tasks}

insert_task-perm : (task : TaskSpec) (ts : List TaskSpec) → Perm (insert_task task ts) (task ∷ ts)
unfolding insert_task
insert_task-perm task [] = Perm.refl _
insert_task-perm task (t ∷ ts) = elim (Bool-cases (key_lt t task)) [
  | inl h ↦ rw h (Perm.trans (Perm.cons t (insert_task-perm task ts)) (Perm.swap task t ts))
  | inr h ↦ rw h (Perm.refl _)
]

pub sort_tasks-perm : (ts : List TaskSpec) → Perm (sort_tasks ts) ts
unfolding sort_tasks
sort_tasks-perm [] = Perm.refl _
sort_tasks-perm (t ∷ ts) =
    Perm.trans (insert_task-perm t (sort_tasks ts)) (Perm.cons t (sort_tasks-perm ts))

Perm-filterb_cons :
    (q : TaskSpec → Bool) (t : TaskSpec) (xs ys : List TaskSpec)
    → Perm (filterb q xs) (filterb q ys)
    → Perm (filterb q (t ∷ xs)) (filterb q (t ∷ ys))
Perm-filterb_cons q t xs ys h = elim (Bool-cases (q t)) [
  | inl kept ↦ rw kept (Perm.cons t h)
  | inr dropped ↦ rw dropped h
]

filterb_swap :
    (q : TaskSpec → Bool) (a b : TaskSpec) (ts : List TaskSpec)
    → Perm (filterb q (a ∷ b ∷ ts)) (filterb q (b ∷ a ∷ ts))
filterb_swap q a b ts = elim (Bool-cases (q a)) [
  | inl ka ↦ elim (Bool-cases (q b)) [
    | inl kb ↦ rw (ka, kb) (Perm.swap b a (filterb q ts))
    | inr kb ↦ rw (ka, kb) (Perm.refl _)
  ]
  | inr ka ↦ rw ka (Perm.refl _)
]

filterb-insert_task :
    (q : TaskSpec → Bool) (task : TaskSpec) (ts : List TaskSpec)
    → Perm (filterb q (insert_task task ts)) (filterb q (task ∷ ts))
unfolding insert_task
filterb-insert_task q task [] = Perm.refl _
filterb-insert_task q task (t ∷ ts) = elim (Bool-cases (key_lt t task)) [
  | inl h ↦ rw h (
      Perm.trans
        (Perm-filterb_cons q t (insert_task task ts) (task ∷ ts) (filterb-insert_task q task ts))
        (filterb_swap q t task ts))
  | inr h ↦ rw h (Perm.refl _)
]

-- A choice from the sorted tasks is the choice from the tasks, in another order.
pub filterb-sort_tasks :
    (q : TaskSpec → Bool) (ts : List TaskSpec) → Perm (filterb q (sort_tasks ts)) (filterb q ts)
unfolding sort_tasks
filterb-sort_tasks q [] = Perm.refl _
filterb-sort_tasks q (t ∷ ts) =
    Perm.trans (filterb-insert_task q t (sort_tasks ts))
      (Perm-filterb_cons q t (sort_tasks ts) ts (filterb-sort_tasks q ts))

contains-filterb_cons :
    (q : TaskSpec → Bool) (t : TaskSpec) (ts : List TaskSpec) (i : String)
    → contains (ids (filterb q (t ∷ ts))) i ≡ (q t && t.id == i || contains (ids (filterb q ts)) i)
unfolding contains
contains-filterb_cons q t ts i = elim (Bool-cases (q t)) [ inl h ↦ rw h | inr h ↦ rw h ]

or_swap : (a b c : Bool) → (a || (b || c)) ≡ (b || (a || c))
or_swap a b c = ground arith

contains-insert_task :
    (q : TaskSpec → Bool) (task : TaskSpec) (ts : List TaskSpec) (i : String)
    → contains (ids (filterb q (insert_task task ts))) i ≡ contains (ids (filterb q (task ∷ ts))) i
unfolding insert_task
contains-insert_task q task [] i = refl
contains-insert_task q task (t ∷ ts) i = elim (Bool-cases (key_lt t task)) [
  | inl h ↦ rw h (
      cc (
        contains-filterb_cons q t (insert_task task ts) i,
        contains-insert_task q task ts i,
        contains-filterb_cons q task ts i,
        contains-filterb_cons q task (t ∷ ts) i,
        contains-filterb_cons q t ts i,
        or_swap (q t && t.id == i) (q task && task.id == i) (contains (ids (filterb q ts)) i),
      ))
  | inr h ↦ rw h
]

pub contains-sort_tasks :
    (q : TaskSpec → Bool) (ts : List TaskSpec) (i : String)
    → contains (ids (filterb q (sort_tasks ts))) i ≡ contains (ids (filterb q ts)) i
unfolding sort_tasks
contains-sort_tasks q [] i = refl
contains-sort_tasks q (t ∷ ts) i =
    contains-insert_task q t (sort_tasks ts) i
    ∙ cc (
      contains-filterb_cons q t (sort_tasks ts) i,
      contains-filterb_cons q t ts i,
      contains-sort_tasks q ts i,
    )

All-insert_task {ℓ} :
    (P : TaskSpec → Type ℓ) (task : TaskSpec) (ts : List TaskSpec)
    → P task
    → All P ts
    → All P (insert_task task ts)
unfolding insert_task
All-insert_task P task [] h hs = (h, tt)
All-insert_task P task (t ∷ ts) h hs = elim (Bool-cases (key_lt t task)) [
  | inl e ↦ rw e (hs.0, All-insert_task P task ts h hs.1)
  | inr e ↦ rw e (h, hs)
]

pub All-sort_tasks {ℓ} :
    (P : TaskSpec → Type ℓ) (ts : List TaskSpec) → All P ts → All P (sort_tasks ts)
unfolding sort_tasks
All-sort_tasks P [] h = tt
All-sort_tasks P (t ∷ ts) h = All-insert_task P t (sort_tasks ts) h.0 (All-sort_tasks P ts h.1)

pub is_empty-sort_tasks : (ts : List TaskSpec) → is_empty (sort_tasks ts) ≡ is_empty ts
unfolding sort_tasks
is_empty-sort_tasks [] = refl
is_empty-sort_tasks (t ∷ ts) = is_empty-insert_task t (sort_tasks ts)
  where
    is_empty-insert_task :
        (task : TaskSpec) (xs : List TaskSpec) → is_empty (insert_task task xs) ≡ false
    is_empty-insert_task task [] = unfold insert_task in refl
    is_empty-insert_task task (x ∷ xs) = unfold insert_task in ground arith
