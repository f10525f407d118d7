-- ===== src/Delta/RepairLoop/Iterations.antt =====
-- The list of iterations that the loop appends to.
use smorx.Prelude.{
  ℕ, zero, suc, ◌+◌, ◌-◌, ◌*◌, ◌≤◌, ◌<◌, ◌≡◌, refl, ◌∙◌, Bool, true, false, not, List, [], ◌∷◌,
  ◌++◌, arith, is_empty, length, length-append, string_eq,
}
use smorx.Develop.Bounds.{LoopBounds, threshold_of}
use smorx.Delta.RepairLoop.{Moment, RepairIteration}

-- The iterations count from `n`, each proposes the candidate after its number and rests on
-- evidence.
abbrev pub IsNumbered : ℕ → List RepairIteration → Type 0
IsNumbered n [] = Unit
IsNumbered n (i ∷ is) =
    (i.iteration ≡ n)
    × (i.candidate_index ≡ n + 1)
    × (is_empty i.repair.evidence_ids ≡ false)
    × IsNumbered (n + 1) is

IsNumbered-snoc :
    (n : ℕ) (is : List RepairIteration) (i : RepairIteration)
    → IsNumbered n is
    → i.iteration ≡ n + length is
    → i.candidate_index ≡ n + length is + 1
    → is_empty i.repair.evidence_ids ≡ false
    → IsNumbered n (is ++ i ∷ [])
IsNumbered-snoc n [] i h number index evidence = (omega arith, omega arith, evidence, tt)
IsNumbered-snoc n (j ∷ is) i h number index evidence =
    (h.0, h.1, h.2, IsNumbered-snoc (n + 1) is i h.3 (omega arith) (omega arith) evidence)

-- The passes of so many iterations began when less than the budget of seconds had gone since the
-- start, and the budget of commands, of which the loop spends none, was not zero.
abbrev pub IsTimely : LoopBounds → ℕ → (ℕ → Moment) → ℕ → Type 0
IsTimely bounds start moments zero = Unit
IsTimely bounds start moments (suc n) =
    ((moments (suc n)).now - start < bounds.max_runtime_seconds * 1000000)
    × (0 < bounds.max_commands)
    × IsTimely bounds start moments n

-- What the loop leaves under its bounds.
pub record IsRepaired (bounds : LoopBounds) (start : ℕ) (moments : ℕ → Moment)
    (iterations : List RepairIteration) (allow_continue : Bool) : Type 0 where
  pub numbered : IsNumbered 1 iterations
  pub iterations_le : length iterations ≤ bounds.max_iterations
  pub repairs_le : length iterations ≤ bounds.max_repair_attempts
  pub threshold_le : length iterations ≤ threshold_of bounds
  pub timely : IsTimely bounds start moments (length iterations)
  pub continues : allow_continue ≡ not (is_empty iterations)

pub length-snoc :
    (is : List RepairIteration) (i : RepairIteration) → length (is ++ i ∷ []) ≡ suc (length is)
length-snoc is i = length-append is (i ∷ []) ∙ omega arith

is_empty-snoc : (is : List RepairIteration) (i : RepairIteration) → is_empty (is ++ i ∷ []) ≡ false
is_empty-snoc [] i = refl
is_empty-snoc (j ∷ is) i = refl

-- The list after a pass.
pub IsRepaired-snoc :
    (bounds : LoopBounds) (start : ℕ) (moments : ℕ → Moment) (is : List RepairIteration) (b : Bool)
    (i : RepairIteration)
    → IsRepaired bounds start moments is b
    → ((moments (suc (length is))).now - start < bounds.max_runtime_seconds * 1000000)
    → 0 < bounds.max_commands
    → length is < bounds.max_iterations
    → length is < bounds.max_repair_attempts
    → length is < threshold_of bounds
    → i.iteration ≡ length is + 1
    → i.candidate_index ≡ length is + 2
    → is_empty i.repair.evidence_ids ≡ false
    → IsRepaired bounds start moments (is ++ i ∷ []) true
IsRepaired-snoc bounds start moments is b i good time cmds its reps below number index evidence =
    let len = length-snoc is i in
    record {
      numbered = IsNumbered-snoc 1 is i good.numbered (omega arith) (omega arith) evidence;
      iterations_le = omega arith;
      repairs_le = omega arith;
      threshold_le = rw len below;
      timely = rw len (time, cmds, good.timely);
      continues = rw (is_empty-snoc is i);
    }
