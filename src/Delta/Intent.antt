-- ===== src/Delta/Intent.antt =====
-- packages/delta/src/smorx_delta/intent.py. `str.lower` and `uuid.uuid5` are parameters; scores are
-- tenths. An item's attribute may be missing, a text, a sequence whose entries may be texts, or
-- another value.
use text.Mathlib.Text.{find?}
use smorx.Prelude.{
  ℕ, String, Bool, true, false, not, ◌&&◌, Option, none, some, List, [], ◌∷◌, ◌++◌, map,
  if◌then◌else◌, anyb, ◌==◌, string_eq,
}
use smorx.Delta.Deltas.{Classification, AlignmentStatus, BehavioralDeltaRecord}

pub data Attribute : Type 0 where
  absent : Attribute
  single : String → Attribute
  entries : List (Option String) → Attribute

pub data IntentKind : Type 0 where
  requirement constraint acceptance_criterion : IntentKind
  another : String → IntentKind

pub record IntentItem : Type 0 where
  pub id : String
  pub kind : IntentKind
  pub statement : Attribute
  pub behaviors : Attribute
  pub targets : Attribute
  pub behavior : Attribute
  pub target : Attribute

pub data Verdict : Type 0 where
  authorized unauthorized unexplained pending : Verdict
  other : String → Verdict

pub data Rationale : Type 0 where
  not_covered nothing_changed no_evidence unexpected : Rationale
  covered_by_constraint : IntentItem → Rationale
  covered_by_requirement : IntentItem → Rationale

pub record IntentAlignmentRecord : Type 0 where
  pub id : String
  pub intent_item_id : String
  pub claim_id : String
  pub status : AlignmentStatus
  pub verdict : Verdict
  pub rationale : Rationale
  pub score : ℕ
  pub evidence_ids : List String

unfoldable pub texts_of : List (Option String) → List String
texts_of [] = []
texts_of (none ∷ es) = texts_of es
texts_of (some t ∷ es) = t ∷ texts_of es

unfoldable pub attribute_texts : Attribute → List String
unfolding texts_of
attribute_texts absent = []
attribute_texts (single t) = t ∷ []
attribute_texts (entries es) = texts_of es

unfoldable pub scope_texts : IntentItem → List String
unfolding attribute_texts
scope_texts item =
    attribute_texts item.statement
    ++ (attribute_texts item.behaviors
        ++ (attribute_texts item.targets
            ++ (attribute_texts item.behavior ++ attribute_texts item.target)))

-- needle in text
abbrev pub is_found : Option ℕ → Bool
is_found none = false
is_found (some i) = true

unfoldable pub is_known_kind : IntentKind → Bool
is_known_kind (another k) = false
is_known_kind _ = true

abbrev pub is_constraint : IntentKind → Bool
is_constraint constraint = true
is_constraint _ = false

module _ (lower : String → String) where
  unfoldable pub mentions_claim : IntentItem → String → Bool
  unfolding scope_texts
  mentions_claim item claim_id =
      let needle = lower claim_id in
      if needle == ""
      then false
      else anyb (λ t. not (t == "") && is_found (find? (lower t) needle)) (scope_texts item)

  unfoldable pub first_matching_intent_item : String → List IntentItem → Option IntentItem
  unfolding is_known_kind mentions_claim
  first_matching_intent_item claim_id [] = none
  first_matching_intent_item claim_id (item ∷ items) =
      if is_known_kind item.kind && mentions_claim item claim_id
      then some item
      else first_matching_intent_item claim_id items

  module _ (alignment_id : String → String → Verdict → String) where
    unfoldable pub make_alignment :
        BehavioralDeltaRecord
        → String
        → AlignmentStatus
        → Verdict
        → Rationale
        → ℕ
        → IntentAlignmentRecord
    make_alignment delta intent_item_id status verdict rationale score = record {
      id = alignment_id delta.claim_id intent_item_id verdict;
      intent_item_id = intent_item_id;
      claim_id = delta.claim_id;
      status = status;
      verdict = verdict;
      rationale = rationale;
      score = score;
      evidence_ids = delta.evidence_ids;
    }

    unfoldable pub align_matched : BehavioralDeltaRecord → Option IntentItem → IntentAlignmentRecord
    unfolding make_alignment
    align_matched delta none =
        make_alignment delta "" AlignmentStatus.misaligned unauthorized not_covered 0
    align_matched delta (some item) =
        if is_constraint item.kind
        then make_alignment delta item.id AlignmentStatus.aligned authorized
            (covered_by_constraint item) 9
        else make_alignment delta item.id AlignmentStatus.aligned authorized
            (covered_by_requirement item) 8

    unfoldable pub align_as :
        Classification → BehavioralDeltaRecord → List IntentItem → IntentAlignmentRecord
    unfolding make_alignment align_matched first_matching_intent_item
    align_as Classification.unchanged delta items =
        make_alignment delta "" AlignmentStatus.aligned authorized nothing_changed 10
    align_as Classification.unexplained delta items =
        make_alignment delta "" AlignmentStatus.pending unexplained no_evidence 0
    align_as (Classification.other c) delta items =
        make_alignment delta "" AlignmentStatus.pending unexplained unexpected 0
    align_as _ delta items = align_matched delta (first_matching_intent_item delta.claim_id items)

    unfoldable pub align_delta : BehavioralDeltaRecord → List IntentItem → IntentAlignmentRecord
    unfolding align_as
    align_delta delta items = align_as delta.classification delta items

    unfoldable pub evaluate_intent_alignment :
        List BehavioralDeltaRecord → List IntentItem → List IntentAlignmentRecord
    unfolding align_delta
    evaluate_intent_alignment deltas items = map (λ delta. align_delta delta items) deltas
