-- ===== src/Delta/RepairLoop/Signatures.antt =====
-- Equal signatures under the no-progress test of the bounds controller.
use smorx.Prelude.{
  ℕ, zero, suc, ◌-◌, ◌<◌, ◌≡◌, refl, ◌∙◌, ap, String, ◌⊎◌, inl, inr, true, false, List, [], ◌∷◌,
  ◌++◌, arith, leb, Bool-cases, length, allb, ◌==◌, string_eq, ==-refl,
}
use smorx.Develop.Bounds.{LoopBoundsController, threshold_of, record_execution_signature}

abbrev pub copies : ℕ → String → List String
copies zero s = []
copies (suc n) s = s ∷ copies n s

copies-snoc : (n : ℕ) (s : String) → copies n s ++ s ∷ [] ≡ copies (suc n) s
copies-snoc zero s = refl
copies-snoc (suc n) s = ap (λ ss. s ∷ ss) (copies-snoc n s)

length-copies : (n : ℕ) (s : String) → length (copies n s) ≡ n
length-copies zero s = refl
length-copies (suc n) s = ap suc (length-copies n s)

allb-copies : (n : ℕ) (s : String) → allb (λ t. t == s) (copies n s) ≡ true
allb-copies zero s = refl
allb-copies (suc n) s = rw (==-refl s) (allb-copies n s)

-- Below the threshold, one more equal signature reaches it or stays below.
pub record_execution_signature-copies :
    (c : LoopBoundsController) (s : String) (n : ℕ)
    → c.recent_signatures ≡ copies n s
    → n < threshold_of c.bounds
    → (record_execution_signature s c ≡ (record c { recent_signatures = [] }, true))
        × (suc n ≡ threshold_of c.bounds)
      ⊎ (record_execution_signature s c
          ≡ (record c { recent_signatures = copies (suc n) s }, false))
        × (suc n < threshold_of c.bounds)
unfolding record_execution_signature
record_execution_signature-copies c s n recent below =
    let all : c.recent_signatures ++ s ∷ [] ≡ copies (suc n) s =
      ap (λ r. r ++ s ∷ []) recent ∙ copies-snoc n s in
    elim (Bool-cases (leb (threshold_of c.bounds) (suc n))) [
      | inl reached ↦
          let exact : suc n - threshold_of c.bounds ≡ 0 = ground arith in
          inl (rw (all, length-copies n s, reached, exact, allb-copies n s), ground arith)
      | inr short ↦ inr (rw (all, length-copies n s, short), ground arith)
    ]
