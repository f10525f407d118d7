-- ===== src/Certification/Alignment.antt =====
-- packages/certification/src/smorx_certification/alignment.py. `str.lower` and `str.upper` are
-- parameters. The rows of a session are lists; a statement or a category that is None is the empty
-- text, as the code reads it, and a set of statements is the list of them.
pub mod Coverage
use text.Mathlib.Text.{find?}
use Prim.Native.Char.{Char, code}
use smorx.Prelude.{
  ℕ, ◌+◌, String, Bool, true, false, not, ◌&&◌, ◌||◌, Option, none, some, List, [], ◌∷◌, ◌++◌, map,
  if◌then◌else◌, nat_beq, leb, filterb, anyb, contains, is_empty, ◌==◌, string_eq, ◌<>◌,
}

pub record Behavior : Type 0 where
  pub id : String
  pub protected : Bool

pub record DeltaRow : Type 0 where
  pub id : String
  pub task_id : Option String
  pub metric : Option String
  pub category : String
  pub observed : Bool
  pub behavior : Option Behavior

pub record ItemRow : Type 0 where
  pub id : String
  pub task_id : Option String
  pub statement : String
  pub authorized : Bool

pub record AlignmentRow : Type 0 where
  pub task_id : Option String
  pub intent_item_id : String
  pub status : String

pub data CertifiableStatus : Type 0 where
  certifiable non_certifiable : CertifiableStatus

pub data Reason : Type 0 where
  no_task : Reason
  uncovered security_critical : String → Option String → Reason
  existing_alignment : Reason

pub record AlignmentVerdict : Type 0 where
  pub aligned : Bool
  pub status : CertifiableStatus
  pub unexplained_changes : ℕ
  pub critical_unauthorized_changes : ℕ
  pub protected_behaviors : List String
  pub reasons : List Reason

abbrev pub security_categories : List String
security_categories =
    "SECURITY" ∷ "AUTHORIZATION" ∷ "AUTH" ∷ "IDENTITY" ∷ "PRIVACY" ∷ "INTEGRITY" ∷ []

abbrev pub security_tokens : List String
security_tokens =
    "token" ∷ "auth" ∷ "tenant" ∷ "permission" ∷ "password" ∷ "secret" ∷ "signing" ∷ "signature"
    ∷ "rotation" ∷ "forged" ∷ "refresh" ∷ "session" ∷ "credential" ∷ []

-- value or ""
abbrev pub or_empty : Option String → String
or_empty none = ""
or_empty (some s) = s

-- str.isspace of a character's code.
abbrev pub is_space : ℕ → Bool
is_space c =
    leb 9 c && leb c 13
    || leb 28 c && leb c 32
    || nat_beq c 133
    || nat_beq c 160
    || nat_beq c 5760
    || leb 8192 c && leb c 8202
    || nat_beq c 8232
    || nat_beq c 8233
    || nat_beq c 8239
    || nat_beq c 8287
    || nat_beq c 12288

-- A space after `_` and `-` are replaced by one.
abbrev pub is_break : ℕ → Bool
is_break c = is_space c || nat_beq c 95 || nat_beq c 45

abbrev pub word_then : String → List String → List String
word_then word rest = if word == "" then rest else word ∷ rest

unfoldable pub words_from : String → String → List String
words_from word String.[] = word_then word []
words_from word (String.◌∷◌ c s) =
    if is_break (code c)
    then word_then word (words_from "" s)
    else words_from (word <> String.◌∷◌ c String.[]) s

-- text.replace("_", " ").replace("-", " ").split()
unfoldable pub words : String → List String
unfolding words_from
words s = words_from "" s

-- len(text) >= 3
abbrev pub is_long : String → Bool
is_long (String.◌∷◌ a (String.◌∷◌ b (String.◌∷◌ c s))) = true
is_long _ = false

-- needle in text
abbrev pub is_in : String → String → Bool
is_in needle text = elim (find? text needle) [ none ↦ false | some i ↦ true ]

-- row.task_id == task_id, which SQL answers with no for NULL.
abbrev pub is_of_task : String → Option String → Bool
is_of_task task_id none = false
is_of_task task_id (some t) = t == task_id

unfoldable pub aligned_exists : String → List AlignmentRow → Bool
aligned_exists task_id rows =
    anyb (λ row. is_of_task task_id row.task_id && row.status == "ALIGNED") rows

abbrev pub is_protected : DeltaRow → Bool
is_protected delta = elim delta.behavior [ none ↦ false | some b ↦ b.protected ]

abbrev pub behavior_id : DeltaRow → String
behavior_id delta = elim delta.behavior [ none ↦ "" | some b ↦ b.id ]

-- The rows of the session that a missing argument is read from.
pub record Rows : Type 0 where
  pub deltas : List DeltaRow
  pub items : List ItemRow
  pub alignments : List AlignmentRow

unfoldable pub observed_deltas : Rows → String → Option (List DeltaRow) → List DeltaRow
observed_deltas rows task_id none =
    filterb (λ d. is_of_task task_id d.task_id && d.observed) rows.deltas
observed_deltas rows task_id (some given) = filterb (λ d. d.observed) given

unfoldable pub authorized_items : Rows → String → Option (List ItemRow) → List ItemRow
authorized_items rows task_id none =
    filterb (λ i. is_of_task task_id i.task_id && i.authorized) rows.items
authorized_items rows task_id (some given) = filterb (λ i. i.authorized) given

unfoldable pub statements_of : List ItemRow → List String
statements_of items = filterb (λ t. not (t == "")) (map (λ i. i.statement) items)

-- The counters and the lists of the loop over the deltas.
pub record Tally : Type 0 where
  pub unexplained : ℕ
  pub critical_unauthorized : ℕ
  pub protected_ids : List String
  pub reasons : List Reason

abbrev pub empty_tally : Tally
empty_tally = record {
  unexplained = 0;
  critical_unauthorized = 0;
  protected_ids = [];
  reasons = [];
}

abbrev pub when : Bool → Reason → List Reason
when true r = r ∷ []
when false r = []

abbrev pub one_if : Bool → ℕ
one_if true = 1
one_if false = 0

module _ (lower upper : String → String) where
  unfoldable pub metric_tokens : String → List String
  unfolding words
  metric_tokens metric = map lower (filterb is_long (words metric))

  unfoldable pub is_security_relevant : DeltaRow → Bool → Bool
  unfolding metric_tokens
  is_security_relevant delta behavior_protected =
      contains security_categories (upper delta.category)
      || behavior_protected
      || anyb (contains security_tokens) (metric_tokens (or_empty delta.metric))

  -- One statement of the loop.
  unfoldable pub covers : String → String → Bool
  unfolding words
  covers metric_lower statement =
      let statement_lower = lower statement in
      is_long metric_lower && is_in metric_lower statement_lower
      || anyb (λ token. is_long token && is_in token statement_lower) (words metric_lower)

  unfoldable pub delta_explained_by_intent : List String → String → Bool
  unfolding covers
  delta_explained_by_intent statements metric_lower = anyb (covers metric_lower) statements

  unfoldable pub is_covered : List String → DeltaRow → Bool
  unfolding delta_explained_by_intent
  is_covered statements delta = delta_explained_by_intent statements (lower (or_empty delta.metric))

  -- One round of the loop.
  unfoldable pub count : List String → Tally → DeltaRow → Tally
  unfolding is_covered is_security_relevant
  count statements t delta =
      let covered = is_covered statements delta in
      let protected = is_protected delta in
      let critical = not covered && is_security_relevant delta protected in
      record {
        unexplained = t.unexplained + one_if (not covered);
        critical_unauthorized = t.critical_unauthorized + one_if critical;
        protected_ids = t.protected_ids ++ (if protected then behavior_id delta ∷ [] else []);
        reasons =
            t.reasons
            ++ (when (not covered) (uncovered delta.id delta.metric)
                ++ when critical (security_critical delta.id delta.metric));
      }

  unfoldable pub count_all : List String → Tally → List DeltaRow → Tally
  unfolding count
  count_all statements t [] = t
  count_all statements t (delta ∷ deltas) = count_all statements (count statements t delta) deltas

  abbrev pub verdict_of : Tally → List Reason → AlignmentVerdict
  verdict_of t found =
      let aligned = nat_beq t.unexplained 0 && nat_beq t.critical_unauthorized 0 in
      record {
        aligned = aligned;
        status = if aligned then certifiable else non_certifiable;
        unexplained_changes = t.unexplained;
        critical_unauthorized_changes = t.critical_unauthorized;
        protected_behaviors = t.protected_ids;
        reasons = t.reasons ++ found;
      }

  -- A task is its id.
  unfoldable pub evaluate_alignment :
      Rows → Option String → Option (List DeltaRow) → Option (List ItemRow) → AlignmentVerdict
  unfolding count_all observed_deltas authorized_items statements_of aligned_exists
  evaluate_alignment rows none deltas items = record {
    aligned = false;
    status = non_certifiable;
    unexplained_changes = 0;
    critical_unauthorized_changes = 0;
    protected_behaviors = [];
    reasons = no_task ∷ [];
  }
  evaluate_alignment rows (some task_id) deltas items =
      let statements = statements_of (authorized_items rows task_id items) in
      verdict_of (count_all statements empty_tally (observed_deltas rows task_id deltas))
        (when (aligned_exists task_id rows.alignments) existing_alignment)
