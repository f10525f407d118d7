-- ===== src/Runtime/LoopControls/Detector.antt =====
-- The detector reports exactly the runs of equal signatures that are long enough.
use smorx.Prelude.{
  ℕ, zero, suc, ◌≡◌, refl, sym, ap, ◌∙◌, String, inl, inr, Bool, ◌&&◌, Option, none, some, List, [],
  ◌∷◌, arith, if◌then◌else◌, allb, take, length, leb, ◌==◌, string_eq, ==-cases, ==-refl,
}
use smorx.Runtime.LoopControls.{NoProgressDetector, new_detector, observe}

-- How many of the first entries are `s`.
abbrev lead : String → List String → ℕ
lead s [] = 0
lead s (x ∷ xs) = let rest = lead s xs in if x == s then suc rest else 0

-- `past` holds what was observed since the start, the newest first.
pub data Observed (threshold : ℕ) : List String → NoProgressDetector → Type 0 where
  start : (d : NoProgressDetector) → new_detector threshold ≡ some d → Observed threshold [] d
  next :
      {past : List String} {d : NoProgressDetector} (s : String)
      → Observed threshold past d
      → Observed threshold (s ∷ past) (observe s d).0

abbrev newest : List String → Option String
newest [] = none
newest (x ∷ xs) = some x

abbrev streak : List String → ℕ
streak [] = 0
streak (x ∷ xs) = suc (lead x xs)

record Tracks (threshold : ℕ) (past : List String) (d : NoProgressDetector) : Type 0 where
  limit : d.threshold ≡ threshold
  last : d.signature ≡ newest past
  count : d.consecutive ≡ streak past

observe-Tracks :
    (threshold : ℕ) (past : List String) (d : NoProgressDetector) (s : String)
    → Tracks threshold past d
    → Tracks threshold (s ∷ past) (observe s d).0
unfolding observe
observe-Tracks threshold [] d s h = ground (arith, h.last, h.count)
observe-Tracks threshold (x ∷ past) d s h = elim (==-cases x s) [
  | inl (eq, same) ↦ ground (arith, eq, same, h.last, h.count, ap (λ y. lead y past) same)
  | inr (ne, _) ↦ ground (arith, ne, h.last, h.count)
]

Observed-Tracks :
    (threshold : ℕ) {past : List String} {d : NoProgressDetector}
    → Observed threshold past d
    → Tracks threshold past d
unfolding new_detector
Observed-Tracks threshold (start d h) = ground arith
Observed-Tracks threshold (next {past} {d} s o) =
    observe-Tracks threshold past d s (Observed-Tracks threshold o)

-- The `n` newest entries are there and are all `s`.
abbrev pub are_last : ℕ → String → List String → Bool
are_last n s past = leb n (length past) && allb (λ x. x == s) (take n past)

leb-lead : (n : ℕ) (s : String) (xs : List String) → leb n (lead s xs) ≡ are_last n s xs
leb-lead zero s xs = ground arith
leb-lead (suc n) s [] = ground arith
leb-lead (suc n) s (x ∷ xs) = ground (arith, leb-lead n s xs)

observe-leb :
    (d : NoProgressDetector) (s : String)
    → (observe s d).1 ≡ leb (observe s d).0.threshold (observe s d).0.consecutive
unfolding observe
observe-leb d s = refl

lead_self : (s : String) (xs : List String) → lead s (s ∷ xs) ≡ suc (lead s xs)
lead_self s xs = rw (==-refl s)

-- An observation is reported as no progress exactly when the last `threshold` observations, itself
-- included, are there and are all the same, whatever was observed before.
pub observe-are_last :
    (threshold : ℕ) (past : List String) (d : NoProgressDetector) (s : String)
    → Observed threshold past d
    → (observe s d).1 ≡ are_last threshold s (s ∷ past)
observe-are_last threshold past d s o =
    let h = observe-Tracks threshold past d s (Observed-Tracks threshold o) in
    observe-leb d s
    ∙ rw (h.limit, h.count)
        (ap (leb threshold) (sym (lead_self s past)) ∙ leb-lead threshold s (s ∷ past))
