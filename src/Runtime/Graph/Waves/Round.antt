-- ===== src/Runtime/Graph/Waves/Round.antt =====
-- The waves of one round: what they hold, and their shape.
use smorx.Prelude.{
  ℕ, zero, suc, ◌≤◌, ◌≡◌, refl, ap, Bool, inl, inr, true, false, not, Option, none, some, List, [],
  ◌∷◌, map, arith, Bool-cases, filterb, All, All-imp, All-take, length, take, drop, is_empty,
  concat, take-append-drop, length-take_le, length-drop_le, string_eq,
}
use smorx.Runtime.Graph.{TaskSpec}
use smorx.Runtime.Graph.Waves.{is_serialized, slices, capacity_for, batch, is_bad}

abbrev pub pick_if : Bool → TaskSpec → Bool
pick_if true task = not (is_serialized task)
pick_if false task = is_serialized task

-- Which candidates a round takes: the serialized ones, if there are any.
abbrev pub pick : List TaskSpec → TaskSpec → Bool
pick tasks = pick_if (is_empty (filterb is_serialized tasks))

concat-slices :
    (fuel capacity : ℕ) (xs : List TaskSpec)
    → 1 ≤ capacity
    → length xs ≤ fuel
    → concat (slices fuel capacity xs) ≡ xs
unfolding slices
concat-slices zero capacity [] c h = refl
concat-slices zero capacity (x ∷ xs) c h = absurd (omega arith)
concat-slices (suc fuel) capacity [] c h = refl
concat-slices (suc fuel) zero (x ∷ xs) c h = absurd (omega arith)
concat-slices (suc fuel) (suc n) (x ∷ xs) c h =
    rw (concat-slices fuel (suc n) (drop n xs) c (omega (arith, length-drop_le n xs)))
      (ap (λ ys. x ∷ ys) (take-append-drop n xs))

concat_singletons : (xs : List TaskSpec) → concat (map (λ t. t ∷ []) xs) ≡ xs
concat_singletons [] = refl
concat_singletons (x ∷ xs) = rw (concat_singletons xs)

-- The capacity of a slice is positive, where there is something to slice.
capacity_pos :
    (mp : Option ℕ) (xs : List TaskSpec)
    → is_bad mp ≡ false
    → is_empty xs ≡ false
    → 1 ≤ capacity_for mp xs
capacity_pos none [] good h = cc
capacity_pos none (x ∷ xs) good h = omega arith
capacity_pos (some n) xs good h = ground arith

slices_nil : (capacity : ℕ) → slices 0 capacity [] ≡ []
unfolding slices
slices_nil capacity = refl

concat_others :
    (mp : Option ℕ) (xs : List TaskSpec)
    → is_bad mp ≡ false
    → concat (slices (length xs) (capacity_for mp xs) xs) ≡ xs
concat_others mp [] good = rw (slices_nil (capacity_for mp []))
concat_others mp (x ∷ xs) good =
    concat-slices (length (x ∷ xs)) (capacity_for mp (x ∷ xs)) (x ∷ xs)
      (capacity_pos mp (x ∷ xs) good refl) (omega arith)

pub concat-batch :
    (mp : Option ℕ) (tasks : List TaskSpec)
    → is_bad mp ≡ false
    → concat (batch mp tasks) ≡ filterb (pick tasks) tasks
unfolding batch
concat-batch mp tasks good = elim (Bool-cases (is_empty (filterb is_serialized tasks))) [
  | inl h ↦ rw h (concat_others mp (filterb (λ t. not (is_serialized t)) tasks) good)
  | inr h ↦ rw h (concat_singletons (filterb is_serialized tasks))
]

abbrev pub IsWithin : Option ℕ → ℕ → Type 0
IsWithin none n = Unit
IsWithin (some m) n = n ≤ m

-- A wave is not empty, is within the bound, and holds a serialized task only alone.
pub record FitsWave (mp : Option ℕ) (w : List TaskSpec) : Type 0 where
  pub not_empty : is_empty w ≡ false
  pub within : IsWithin mp (length w)
  pub alone : All (λ t. is_serialized t ≡ true → length w ≡ 1) w

singletons-FitsWave :
    (mp : Option ℕ) (xs : List TaskSpec)
    → is_bad mp ≡ false
    → All (FitsWave mp) (map (λ t. t ∷ []) xs)
singletons-FitsWave mp [] good = tt
singletons-FitsWave mp (x ∷ xs) good = (
  record { not_empty = refl; within = one mp good; alone = (λ _. refl, tt) },
  singletons-FitsWave mp xs good,
)
  where
    one : (m : Option ℕ) → is_bad m ≡ false → IsWithin m 1
    one none h = tt
    one (some n) h = ground arith

All-drop {ℓ} : (P : TaskSpec → Type ℓ) (n : ℕ) (xs : List TaskSpec) → All P xs → All P (drop n xs)
All-drop P zero xs h = h
All-drop P (suc n) [] h = tt
All-drop P (suc n) (x ∷ xs) h = All-drop P n xs h.1

abbrev IsShared : TaskSpec → Type 0
IsShared t = is_serialized t ≡ false

slices-FitsWave :
    (mp : Option ℕ) (fuel capacity : ℕ) (xs : List TaskSpec)
    → 1 ≤ capacity
    → ((n : ℕ) → n ≤ capacity → IsWithin mp n)
    → All IsShared xs
    → All (FitsWave mp) (slices fuel capacity xs)
unfolding slices
slices-FitsWave mp zero capacity xs c within shared = tt
slices-FitsWave mp (suc fuel) capacity [] c within shared = tt
slices-FitsWave mp (suc fuel) zero (x ∷ xs) c within shared = absurd (omega arith)
slices-FitsWave mp (suc fuel) (suc n) (x ∷ xs) c within shared = (
  record {
    not_empty = refl;
    within = within _ (omega (arith, length-take_le n xs));
    alone =
        All-imp IsShared _ (λ t plain s. cc) (take (suc n) (x ∷ xs))
          (All-take IsShared (suc n) (x ∷ xs) shared);
  },
  slices-FitsWave mp fuel (suc n) (drop n xs) c within (All-drop IsShared n xs shared.1),
)

All-others : (xs : List TaskSpec) → All IsShared (filterb (λ t. not (is_serialized t)) xs)
All-others [] = tt
All-others (x ∷ xs) = elim (Bool-cases (is_serialized x)) [
  | inl h ↦ rw h (All-others xs)
  | inr h ↦ rw h (h, All-others xs)
]

others-FitsWave :
    (mp : Option ℕ) (xs : List TaskSpec)
    → is_bad mp ≡ false
    → All IsShared xs
    → All (FitsWave mp) (slices (length xs) (capacity_for mp xs) xs)
others-FitsWave mp [] good shared = rw (slices_nil (capacity_for mp [])) tt
others-FitsWave mp (x ∷ xs) good shared =
    slices-FitsWave mp (length (x ∷ xs)) (capacity_for mp (x ∷ xs)) (x ∷ xs)
      (capacity_pos mp (x ∷ xs) good refl) (bounded mp) shared
  where
    bounded : (m : Option ℕ) (n : ℕ) → n ≤ capacity_for m (x ∷ xs) → IsWithin m n
    bounded none n h = tt
    bounded (some k) n h = h

pub batch-FitsWave :
    (mp : Option ℕ) (tasks : List TaskSpec) → is_bad mp ≡ false → All (FitsWave mp) (batch mp tasks)
unfolding batch
batch-FitsWave mp tasks good = elim (Bool-cases (is_empty (filterb is_serialized tasks))) [
  | inl h ↦
      rw h (others-FitsWave mp (filterb (λ t. not (is_serialized t)) tasks) good (All-others tasks))
  | inr h ↦ rw h (singletons-FitsWave mp (filterb is_serialized tasks) good)
]
