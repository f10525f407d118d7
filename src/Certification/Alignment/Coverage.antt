-- ===== src/Certification/Alignment/Coverage.antt =====
-- What an aligned verdict says of the deltas.
use smorx.Prelude.{
  ◌≡◌, refl, ◌↔◌, String, inl, inr, Bool, true, false, ◌&&◌, Option, some, List, [], ◌∷◌, arith,
  if◌then◌else◌, nat_beq, Bool-cases, All,
}
use smorx.Certification.Alignment.{
  DeltaRow, ItemRow, Rows, Tally, empty_tally, certifiable, non_certifiable, observed_deltas,
  authorized_items, statements_of, is_covered, count, count_all, evaluate_alignment,
}

-- Both counters at zero.
abbrev Clean : Tally → Type 0
Clean t = (t.unexplained ≡ 0) × (t.critical_unauthorized ≡ 0)

abbrev is_clean : Tally → Bool
is_clean t = nat_beq t.unexplained 0 && nat_beq t.critical_unauthorized 0

is_clean_iff : (t : Tally) → (is_clean t ≡ true) ↔ Clean t
is_clean_iff t = (λ h. ground arith, λ h. ground arith)

is_certifiable_iff :
    (b : Bool) → ((if b then certifiable else non_certifiable) ≡ certifiable) ↔ (b ≡ true)
is_certifiable_iff true = (λ h. refl, λ h. refl)
is_certifiable_iff false = (λ h. cc, λ h. cc)

module _ (lower upper : String → String) where
  module _ (statements : List String) where
    count-Clean :
        (t : Tally) (delta : DeltaRow)
        → Clean (count lower upper statements t delta)
          ↔ Clean t × (is_covered lower upper statements delta ≡ true)
    unfolding count
    count-Clean t delta = elim (Bool-cases (is_covered lower upper statements delta)) [
      | inl covered ↦ rw covered (ground arith)
      | inr uncovered ↦ rw uncovered (ground arith)
    ]

    count_all-Clean :
        (t : Tally) (deltas : List DeltaRow)
        → Clean (count_all lower upper statements t deltas)
          ↔ Clean t × All (λ d. is_covered lower upper statements d ≡ true) deltas
    unfolding count_all
    count_all-Clean t [] = (λ h. (h, tt), λ h. h.0)
    count_all-Clean t (delta ∷ deltas) =
        let rest = count_all-Clean (count lower upper statements t delta) deltas in
        let one = count-Clean t delta in
        (
          λ h.
              let (now, later) = rest.0 h in
              let (before, covered) = one.0 now in (before, (covered, later)),
          λ h. rest.1 (one.1 (h.0, h.1.0), h.1.1),
        )

  -- Every observed delta of the task is covered by a statement of an authorized item.
  abbrev pub AllCovered : Rows → String → Option (List DeltaRow) → Option (List ItemRow) → Type 0
  AllCovered rows task_id deltas items =
      All
        (λ d. is_covered lower upper (statements_of (authorized_items rows task_id items)) d ≡ true)
        (observed_deltas rows task_id deltas)

  -- With a task, `evaluate_alignment` answers aligned exactly when every observed delta is covered by
  -- the statement of an authorized item, security-critical or not; its status is CERTIFIABLE exactly
  -- then too.
  pub evaluate_alignment-AllCovered :
      (rows : Rows) (task_id : String) (deltas : Option (List DeltaRow))
      (items : Option (List ItemRow))
      → (((evaluate_alignment lower upper rows (some task_id) deltas items).aligned ≡ true)
          ↔ AllCovered rows task_id deltas items)
        × (((evaluate_alignment lower upper rows (some task_id) deltas items).status ≡ certifiable)
            ↔ AllCovered rows task_id deltas items)
  unfolding evaluate_alignment
  evaluate_alignment-AllCovered rows task_id deltas items =
      let statements = statements_of (authorized_items rows task_id items) in
      let found = observed_deltas rows task_id deltas in
      let clean = count_all-Clean statements empty_tally found in
      let t = count_all lower upper statements empty_tally found in
      let zero_iff = is_clean_iff t in
      let certified = is_certifiable_iff (is_clean t) in
      let covered : is_clean t ≡ true → AllCovered rows task_id deltas items =
        λ h. (clean.0 (zero_iff.0 h)).1 in
      let aligned : AllCovered rows task_id deltas items → is_clean t ≡ true =
        λ h. zero_iff.1 (clean.1 ((refl, refl), h)) in
      (
        (λ h. covered h, λ h. aligned h),
        (λ h. covered (certified.0 h), λ h. certified.1 (aligned h)),
      )
