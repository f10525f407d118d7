-- ===== src/Delta/Pipeline.antt =====
-- The deltas, the alignments and the decision one after another, as the certification flow calls
-- them.
use smorx.Prelude.{
  ◌≡◌, refl, ◌∙◌, ap, subst, String, ◌⊎◌, inl, inr, Bool, true, false, ◌||◌, Option, none, some,
  List, [], ◌∷◌, arith, if◌then◌else◌, map, is_empty, allb, ◌==◌, string_eq, ==-cases, contains,
  sort, insert_sorted,
}
use smorx.Verification.Contracts.{VerificationResult}
use smorx.Delta.Deltas.{
  Classification, claim_evidence, classify_delta, BehavioralDeltaRecord, delta_record,
  compute_behavioral_deltas,
}
use smorx.Delta.Intent.{
  IntentItem, Verdict, IntentAlignmentRecord, first_matching_intent_item, align_matched, align_as,
  make_alignment, align_delta, evaluate_intent_alignment,
}
use smorx.Delta.Decision.{
  is_unexplained, is_changed, is_authorized, alignment_for, is_cleared, decide_certification,
}
use smorx.Delta.Decision.Clearance.{allow_merge-IsClear}

allb_at :
    (p : BehavioralDeltaRecord → Bool) (f : String → BehavioralDeltaRecord) (cs : List String)
    (c : String)
    → allb p (map f cs) ≡ true
    → contains cs c ≡ true
    → p (f c) ≡ true
unfolding contains
allb_at p f [] c h m = cc
allb_at p f (x ∷ cs) c h m = elim (==-cases x c) [
  | inl (eq, same) ↦ subst (λ y. p (f y) ≡ true) same (ground arith)
  | inr (ne, _) ↦ allb_at p f cs c (ground arith) (rw ne at m)
]

contains-insert_sorted :
    (x : String) (xs : List String) (c : String)
    → contains (insert_sorted x xs) c ≡ (x == c || contains xs c)
unfolding contains insert_sorted
contains-insert_sorted x [] c = ground arith
contains-insert_sorted x (y ∷ xs) c = ground (arith, contains-insert_sorted x xs c)

contains-sort : (xs : List String) (c : String) → contains (sort xs) c ≡ contains xs c
unfolding contains sort
contains-sort [] c = refl
contains-sort (x ∷ xs) c = ground (arith, contains-insert_sorted x (sort xs) c, contains-sort xs c)

-- Of several alignments of a claim, the last one is found; they are the same.
alignment_for-map :
    (g : String → IntentAlignmentRecord)
    → ((x : String) → (g x).claim_id ≡ x)
    → (c : String) (cs : List String)
    → alignment_for c (map g cs) ≡ (if contains cs c then some (g c) else none)
unfolding alignment_for contains
alignment_for-map g named c [] = refl
alignment_for-map g named c (x ∷ cs) = elim (==-cases x c) [
  | inl (eq, same) ↦ ground (arith, alignment_for-map g named c cs, named x, eq, ap g same)
  | inr (ne, _) ↦ ground (arith, alignment_for-map g named c cs, named x, ne)
]

map-map :
    (f : BehavioralDeltaRecord → IntentAlignmentRecord) (g : String → BehavioralDeltaRecord)
    (cs : List String)
    → map f (map g cs) ≡ map (λ c. f (g c)) cs
map-map f g [] = refl
map-map f g (c ∷ cs) = ap (λ rest. f (g c) ∷ rest) (map-map f g cs)

abbrev is_known : Classification → Bool
is_known (Classification.other k) = false
is_known _ = true

of_known :
    {P : Type 0} (k : Classification)
    → is_known k ≡ true
    → is_unexplained k ≡ false
    → (is_changed k ≡ true → (k ≡ Classification.unchanged) ⊎ P)
    → (k ≡ Classification.unchanged) ⊎ P
of_known Classification.unexplained known explained by_change = cc
of_known Classification.altered known explained by_change = by_change refl
of_known Classification.added known explained by_change = by_change refl
of_known Classification.removed known explained by_change = by_change refl
of_known Classification.unchanged known explained by_change = inl refl
of_known (Classification.other k) known explained by_change = cc

module _ (lower : String → String) (alignment_id : String → String → Verdict → String) where
  align_matched-claim_id :
      (d : BehavioralDeltaRecord) (found : Option IntentItem)
      → (align_matched lower alignment_id d found).claim_id ≡ d.claim_id
  unfolding align_matched make_alignment
  align_matched-claim_id d found = ground arith

  align_as-claim_id :
      (k : Classification) (d : BehavioralDeltaRecord) (items : List IntentItem)
      → (align_as lower alignment_id k d items).claim_id ≡ d.claim_id
  unfolding align_as make_alignment
  align_as-claim_id Classification.unexplained d items = refl
  align_as-claim_id Classification.unchanged d items = refl
  align_as-claim_id (Classification.other k) d items = refl
  align_as-claim_id Classification.altered d items = align_matched-claim_id d _
  align_as-claim_id Classification.added d items = align_matched-claim_id d _
  align_as-claim_id Classification.removed d items = align_matched-claim_id d _

  align_matched-authorized :
      (d : BehavioralDeltaRecord) (found : Option IntentItem)
      → is_authorized (some (align_matched lower alignment_id d found)) ≡ true
      → (item : IntentItem) × (found ≡ some item)
  unfolding align_matched make_alignment
  align_matched-authorized d none h = cc
  align_matched-authorized d (some item) h = (item, refl)

  -- An alignment authorizes a delta only if nothing changed, or an item speaks of its claim.
  align_as-authorized :
      (k : Classification) (d : BehavioralDeltaRecord) (items : List IntentItem)
      → is_authorized (some (align_as lower alignment_id k d items)) ≡ true
      → (k ≡ Classification.unchanged)
        ⊎ (item : IntentItem) × (first_matching_intent_item lower d.claim_id items ≡ some item)
  unfolding align_as make_alignment
  align_as-authorized Classification.unexplained d items h = cc
  align_as-authorized Classification.unchanged d items h = inl refl
  align_as-authorized (Classification.other k) d items h = cc
  align_as-authorized Classification.altered d items h = inr (align_matched-authorized d _ h)
  align_as-authorized Classification.added d items h = inr (align_matched-authorized d _ h)
  align_as-authorized Classification.removed d items h = inr (align_matched-authorized d _ h)

  align_delta-authorized :
      (d : BehavioralDeltaRecord) (items : List IntentItem)
      → is_authorized (some (align_delta lower alignment_id d items)) ≡ true
      → (d.classification ≡ Classification.unchanged)
        ⊎ (item : IntentItem) × (first_matching_intent_item lower d.claim_id items ≡ some item)
  unfolding align_delta
  align_delta-authorized d items h = align_as-authorized d.classification d items h

is_cleared-parts :
    (alignments : List IntentAlignmentRecord) (d : BehavioralDeltaRecord)
    (a : IntentAlignmentRecord)
    → alignment_for d.claim_id alignments ≡ some a
    → is_cleared alignments d ≡ true
    → (is_unexplained d.classification ≡ false)
      × (is_changed d.classification ≡ true → is_authorized (some a) ≡ true)
unfolding is_cleared
is_cleared-parts alignments d a found h = (ground arith, λ changed. ground arith)

module _ (upper lower : String → String)
    (record_id : String → String → String → Classification → String)
    (alignment_id : String → String → Verdict → String) (at change_id candidate_patch_id : String)
    (result : VerificationResult) (baseline candidates : List String)
    (items : List IntentItem) where
  abbrev delta_of : String → BehavioralDeltaRecord
  delta_of = delta_record upper record_id at change_id candidate_patch_id result baseline candidates

  abbrev alignment_of : String → IntentAlignmentRecord
  alignment_of c = align_delta lower alignment_id (delta_of c) items

  abbrev deltas_of : List String → List BehavioralDeltaRecord
  deltas_of = λ cs.
      compute_behavioral_deltas upper record_id at change_id candidate_patch_id cs result baseline
        candidates

  abbrev classification_of : String → Classification
  classification_of c = (classify_delta upper c result baseline candidates).0

  delta_of-claim_id : (c : String) → (delta_of c).claim_id ≡ c
  unfolding delta_record
  delta_of-claim_id c = refl

  delta_of-classification : (c : String) → (delta_of c).classification ≡ classification_of c
  unfolding delta_record
  delta_of-classification c = refl

  alignment_of-claim_id : (c : String) → (alignment_of c).claim_id ≡ c
  unfolding align_delta
  alignment_of-claim_id c =
      align_as-claim_id lower alignment_id (delta_of c).classification (delta_of c) items
      ∙ delta_of-claim_id c

  classify_delta-explained :
      (c : String)
      → is_unexplained (classification_of c) ≡ false
      → is_empty (claim_evidence result c) ≡ false
  unfolding classify_delta
  classify_delta-explained c h = ground arith

  classify_delta-known : (c : String) → is_known (classification_of c) ≡ true
  unfolding classify_delta
  classify_delta-known c = ground arith

  -- A claim that the candidate may be merged with: there is evidence about it, and it is
  -- unchanged or an intent item speaks of it.
  pub record IsAccounted (c : String) : Type 0 where
    pub evidenced : is_empty (claim_evidence result c) ≡ false
    pub intended :
        (classification_of c ≡ Classification.unchanged)
        ⊎ (item : IntentItem) × (first_matching_intent_item lower c items ≡ some item)

  abbrev Mentioned : String → Type 0
  Mentioned c = (item : IntentItem) × (first_matching_intent_item lower c items ≡ some item)

  of_delta :
      (c : String)
      → ((delta_of c).classification ≡ Classification.unchanged) ⊎ Mentioned (delta_of c).claim_id
      → (classification_of c ≡ Classification.unchanged) ⊎ Mentioned c
  unfolding delta_record
  of_delta c h = h

  cleared-IsAccounted :
      (c : String) (alignments : List IntentAlignmentRecord)
      → alignment_for c alignments ≡ some (alignment_of c)
      → is_cleared alignments (delta_of c) ≡ true
      → IsAccounted c
  cleared-IsAccounted c alignments found h =
      let (explained, authorized_change) =
        is_cleared-parts alignments (delta_of c) (alignment_of c)
          (ap (λ x. alignment_for x alignments) (delta_of-claim_id c) ∙ found) h in
      record {
        evidenced = classify_delta-explained c (rw (delta_of-classification c) at explained);
        intended =
            of_known (classification_of c) (classify_delta-known c)
              (rw (delta_of-classification c) at explained)
              (λ changed. of_delta c (
                align_delta-authorized lower alignment_id (delta_of c) items
                  (authorized_change (rw (delta_of-classification c) changed))));
      }

  -- `decide_certification` allows a merge on the deltas and the alignments that the two stages
  -- before it compute only if every claim that was asked for has evidence, and is unchanged or
  -- mentioned by an intent item.
  pub allow_merge-IsAccounted :
      (claim_ids : List String) (c : String)
      → contains claim_ids c ≡ true
      → let deltas = deltas_of claim_ids in
        (decide_certification result deltas
            (evaluate_intent_alignment lower alignment_id deltas items)).allow_merge
          ≡ true
        → IsAccounted c
  unfolding compute_behavioral_deltas evaluate_intent_alignment
  allow_merge-IsAccounted claim_ids c asked h =
      let sorted = sort claim_ids in
      let there = contains-sort claim_ids c ∙ asked in
      let alignments = map (λ d. align_delta lower alignment_id d items) (map delta_of sorted) in
      cleared-IsAccounted c alignments
        (rw (map-map (λ d. align_delta lower alignment_id d items) delta_of sorted)
          (rw (alignment_for-map alignment_of alignment_of-claim_id c sorted, there)))
        (allb_at (is_cleared alignments) delta_of sorted c
          ((allow_merge-IsClear result (map delta_of sorted) alignments).0 h).deltas_cleared there)
