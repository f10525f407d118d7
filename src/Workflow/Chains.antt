-- ===== src/Workflow/Chains.antt =====
-- The events that the workflow records make chains that validate.
use mathlib.Core.List.{append-nil}
use smorx.Prelude.{
  ℕ, suc, ◌+◌, ◌<◌, ◌≡◌, refl, sym, ◌∙◌, ap, subst, String, inl, inr, Bool, true, false, not,
  Option, none, some, List, [], ◌∷◌, ◌++◌, arith, ltb, Bool-cases, Option-cases, length, filterb,
  filterb-append, ◌==◌, string_eq, ==-refl, ==-cases, Result, ok, err, Returns,
}
use smorx.Workflow.Events.{
  Event, Run, Store, Codec, is_id, of_run, of_task, event_digest, Draft, row_of, add_event,
}
use smorx.Workflow.Replay.{
  by_sequence, insert_event, order_by, ordered_events, is_chained, is_out_of_order, stored_hash,
  check_chain,
}
use smorx.Workflow.Reliability.{
  ReliabilityReport, record_event, validate_run_scoped_chain, delete_run_rows, reset_workflow,
  reset_draft, set_run, requeue,
}

-- What is done to the store: an event is recorded, or a run is reset.
pub data Operation : Type 0 where
  records : Draft → Operation
  resets : Run → Bool → Bool → ℕ → ℕ → Operation

abbrev pub empty_store : Store
empty_store = record { events = []; runs = []; evidence = []; failures = []; executions = [] }

pub of_run-dropped :
    (r : String) (es : List Event) → filterb (of_run r) (filterb (λ e. not (of_run r e)) es) ≡ []
of_run-dropped r [] = refl
of_run-dropped r (e ∷ es) = elim (Bool-cases (of_run r e)) [
  | inl own ↦ rw own (of_run-dropped r es)
  | inr other ↦ rw (other, other) (of_run-dropped r es)
]

is_id-other :
    (a b : String) (o : Option String) → (b == a) ≡ false → is_id a o ≡ true → is_id b o ≡ false
is_id-other a b none h k = refl
is_id-other a b (some x) h k = elim (==-cases x b) [
  | inl (_, eq) ↦ cc (h, subst (λ y. (y == a) ≡ true) eq k)
  | inr (differs, _) ↦ differs
]

pub of_run-kept :
    (run_id other : String) (es : List Event)
    → (other == run_id) ≡ false
    → filterb (of_run run_id) (filterb (λ e. not (of_run other e)) es) ≡ filterb (of_run run_id) es
of_run-kept run_id other [] h = refl
of_run-kept run_id other (e ∷ es) h = elim (Bool-cases (of_run run_id e)) [
  | inl own ↦
      rw (is_id-other run_id other e.run_id h own, own)
        (ap (λ xs. e ∷ xs) (of_run-kept run_id other es h))
  | inr not_own ↦ ground (arith, not_own, of_run-kept run_id other es h)
]

-- A call that raises leaves the store.
abbrev pub kept_of : Store → Result String Store → Store
kept_of s (ok s') = s'
kept_of s (err e) = s

abbrev pub store_of : Result String (Store × ReliabilityReport) → Result String Store
store_of (ok (s, report)) = ok s
store_of (err e) = err e

module _ (codec : Codec) where
  -- The events of a run: numbered from `n` on, each with its digest.
  abbrev pub IsChain : ℕ → List Event → Type 0
  IsChain n [] = Unit
  IsChain n (e ∷ es) =
      (e.sequence ≡ n) × (e.hash ≡ some (event_digest codec e)) × IsChain (suc n) es

  IsChain-append :
      (n : ℕ) (es : List Event) (e : Event)
      → IsChain n es
      → e.sequence ≡ length es + n
      → e.hash ≡ some (event_digest codec e)
      → IsChain n (es ++ e ∷ [])
  IsChain-append n [] e h numbered hashed = (omega (arith, numbered), hashed, tt)
  IsChain-append n (x ∷ xs) e (a, b, rest) numbered hashed =
      (a, b, IsChain-append (suc n) xs e rest (omega (arith, numbered)) hashed)

  -- The order of the query is the order of the rows.
  insert_event-first :
      (n : ℕ) (e : Event) (es : List Event)
      → e.sequence < n
      → IsChain n es
      → insert_event by_sequence e es ≡ e ∷ es
  unfolding insert_event by_sequence
  insert_event-first n e [] h chain = refl
  insert_event-first n e (x ∷ xs) h (a, b, rest) = ground (arith, a, h)

  order_by-IsChain : (n : ℕ) (es : List Event) → IsChain n es → order_by by_sequence es ≡ es
  unfolding order_by
  order_by-IsChain n [] chain = refl
  order_by-IsChain n (e ∷ es) (a, b, rest) =
      rw (order_by-IsChain (suc n) es rest)
        (insert_event-first (suc n) e es (omega (arith, a)) rest)

  filterb-is_chained : (n : ℕ) (es : List Event) → IsChain (suc n) es → filterb is_chained es ≡ es
  filterb-is_chained n [] chain = refl
  filterb-is_chained n (e ∷ es) (a, b, rest) =
      let later = filterb-is_chained (suc n) es rest in
      let positive : ltb 0 e.sequence ≡ true = ground (arith, a) in rw (positive, later) refl

  -- SHA-256 never gives the empty text.
  abbrev pub IsFilled : Type 0
  IsFilled = (x : String) → (codec.sha256 x == "") ≡ false

  abbrev Below : Option ℕ → ℕ → Type 0
  Below none n = Unit
  Below (some p) n = p < n

  event_digest-filled : IsFilled → (e : Event) → (event_digest codec e == "") ≡ false
  unfolding event_digest
  event_digest-filled filled e = filled _

  stored_hash-digest :
      IsFilled
      → (e : Event) → e.hash ≡ some (event_digest codec e)
      → stored_hash e.hash ≡ some (event_digest codec e)
  stored_hash-digest filled e hashed =
      ap stored_hash hashed ∙ rw (event_digest-filled filled e) refl

  in_order : (prev : Option ℕ) (n m : ℕ) → Below prev n → m ≡ n → is_out_of_order prev m ≡ false
  in_order none n m below same = refl
  in_order (some p) n m below same = ground (arith, below, same)

  check_chain-IsChain :
      (filled : IsFilled) (n : ℕ) (prev : Option ℕ) (es : List Event)
      → Below prev n
      → IsChain n es
      → check_chain codec prev es ≡ none
  unfolding check_chain
  check_chain-IsChain filled n prev [] below chain = refl
  check_chain-IsChain filled n prev (e ∷ es) below (a, b, rest) =
      rw
        (
          stored_hash-digest filled e b,
          ==-refl (event_digest codec e),
          in_order prev n e.sequence below a,
          check_chain,
        )
        (check_chain-IsChain filled (suc n) (some e.sequence) es (omega (arith, a)) rest)

  -- Every run of the store has its chain.
  abbrev Chained : String → Store → Type 0
  Chained run_id s = IsChain 1 (filterb (of_run run_id) s.events)

  validate-Chained :
      (filled : IsFilled) (run_id : String) (s : Store)
      → Chained run_id s
      → validate_run_scoped_chain codec run_id s ≡ none
  unfolding validate_run_scoped_chain ordered_events
  validate-Chained filled run_id s chain =
      rw (order_by-IsChain 1 _ chain, filterb-is_chained 0 _ chain)
        (check_chain-IsChain filled 1 none _ tt chain)

  -- The digest does not read the stored hash.
  event_digest-hash :
      (e : Event) (h : Option String)
      → event_digest codec e ≡ event_digest codec (record e { hash = h })
  unfolding event_digest
  event_digest-hash e h = refl

  abbrev recorded : Draft → ℕ → Event
  recorded d n = record (row_of d n) { hash = some (event_digest codec (row_of d n)) }

  record_event-some :
      (d : Draft) (s : Store) (r : String)
      → d.run_id ≡ some r
      → record_event codec d s
        ≡ ok (add_event (recorded d (length (filterb (of_run r) s.events) + 1)) s)
  unfolding record_event
  record_event-some d s r e = rw (e, record_event) refl

  record_event-none :
      (d : Draft) (s : Store)
      → d.run_id ≡ none
      → record_event codec d s
        ≡ ok (add_event (recorded d (length (filterb (of_task d.task_id) s.events) + 1)) s)
  unfolding record_event
  record_event-none d s e = rw (e, record_event) refl

  Chained-other :
      (run_id : String) (e : Event) (s : Store)
      → of_run run_id e ≡ false
      → Chained run_id s
      → Chained run_id (add_event e s)
  Chained-other run_id e s other chain =
      let same : filterb (of_run run_id) (s.events ++ e ∷ []) ≡ filterb (of_run run_id) s.events =
        filterb-append (of_run run_id) s.events (e ∷ []) ∙ rw other (append-nil _) in
      subst (IsChain 1) (sym same) chain

  -- A recorded event is the next one of its run.
  Chained-record_event :
      (run_id : String) (d : Draft) (s : Store)
      → Chained run_id s
      → Returns (Chained run_id) (record_event codec d s)
  Chained-record_event run_id d s chain = elim (Option-cases d.run_id) [
    | inl none_ ↦ rw (record_event-none d s none_) (
        Chained-other run_id (recorded d (length (filterb (of_task d.task_id) s.events) + 1)) s
          (ap (is_id run_id) none_) chain)
    | inr (r, some_) ↦ elim (==-cases r run_id) [
      | inr (differs, _) ↦ rw (record_event-some d s r some_) (
          Chained-other run_id (recorded d (length (filterb (of_run r) s.events) + 1)) s
            (ap (is_id run_id) some_ ∙ differs) chain)
      | inl (same, eq) ↦
          let e = recorded d (length (filterb (of_run r) s.events) + 1) in
          let own : of_run run_id e ≡ true = ap (is_id run_id) some_ ∙ same in
          let longer : filterb (of_run run_id) (s.events ++ e ∷ [])
              ≡ filterb (of_run run_id) s.events ++ e ∷ [] =
            filterb-append (of_run run_id) s.events (e ∷ []) ∙ rw own refl in
          rw (record_event-some d s r some_) (
            subst (IsChain 1) (sym longer) (
              IsChain-append 1 (filterb (of_run run_id) s.events) e chain
                (ap (λ x. length (filterb (of_run x) s.events) + 1) eq)
                (ap some (
                  event_digest-hash (row_of d (length (filterb (of_run r) s.events) + 1)) e.hash))))
    ]
  ]

  -- A reset leaves no event of its run, and those of the others.
  Chained-delete :
      (run_id other : String) (s : Store)
      → Chained run_id s
      → Chained run_id (delete_run_rows other s)
  unfolding delete_run_rows
  Chained-delete run_id other s chain = elim (==-cases other run_id) [
    | inl (_, eq) ↦
        subst (λ r. IsChain 1 (filterb (of_run r) (filterb (λ e. not (of_run other e)) s.events)))
          eq (subst (IsChain 1) (sym (of_run-dropped other s.events)) tt)
    | inr (differs, _) ↦ subst (IsChain 1) (sym (of_run-kept run_id other s.events differs)) chain
  ]

  Chained-reset :
      (run_id : String) (run : Run) (allow demo : Bool) (id now : ℕ) (s : Store)
      → Chained run_id s
      → Returns (λ r. Chained run_id r.0) (reset_workflow codec run allow demo id now s)
  unfolding reset_workflow
  Chained-reset run_id run false demo id now s chain = chain
  Chained-reset run_id run true false id now s chain = chain
  Chained-reset run_id run true true id now s chain =
      let emptied = delete_run_rows run.id s in
      let queued = record emptied { runs = set_run (requeue run) emptied.runs } in
      Chained-other run_id
        (recorded (reset_draft run id now)
          (length (filterb (of_task run.task_id) queued.events) + 1))
        queued refl (Chained-delete run_id run.id s chain)

  -- The operations one after another; a call that raises leaves the store.
  unfoldable pub run_operations : List Operation → Store → Store
  unfolding record_event reset_workflow
  run_operations [] s = s
  run_operations (records d ∷ ops) s = run_operations ops (kept_of s (record_event codec d s))
  run_operations (resets run allow demo id now ∷ ops) s =
      run_operations ops (kept_of s (store_of (reset_workflow codec run allow demo id now s)))

  Chained-kept_of :
      (run_id : String) (s : Store) (r : Result String Store)
      → Returns (Chained run_id) r
      → Chained run_id (kept_of s r)
  Chained-kept_of run_id s (ok s') h = h
  Chained-kept_of run_id s (err e) h = absurd h

  Chained-store_of :
      (run_id : String) (s : Store) (r : Result String (Store × ReliabilityReport))
      → Returns (λ x. Chained run_id x.0) r
      → Chained run_id (kept_of s (store_of r))
  Chained-store_of run_id s (ok (s', report)) h = h
  Chained-store_of run_id s (err e) h = absurd h

  Chained-run_operations :
      (run_id : String) (ops : List Operation) (s : Store)
      → Chained run_id s
      → Chained run_id (run_operations ops s)
  unfolding run_operations
  Chained-run_operations run_id [] s chain = chain
  Chained-run_operations run_id (records d ∷ ops) s chain =
      Chained-run_operations run_id ops _
        (Chained-kept_of run_id s (record_event codec d s) (Chained-record_event run_id d s chain))
  Chained-run_operations run_id (resets run allow demo id now ∷ ops) s chain =
      Chained-run_operations run_id ops _ (
        Chained-store_of run_id s (reset_workflow codec run allow demo id now s)
          (Chained-reset run_id run allow demo id now s chain))

-- Where SHA-256 never gives the empty text: whatever events are recorded and whatever runs are reset,
-- in any order, from the empty store on, the chain of every run validates.
pub validate-run_operations :
    (codec : Codec) (ops : List Operation) (run_id : String)
    → IsFilled codec
    → validate_run_scoped_chain codec run_id (run_operations codec ops empty_store) ≡ none
validate-run_operations codec ops run_id filled =
    validate-Chained codec filled run_id (run_operations codec ops empty_store)
      (Chained-run_operations codec run_id ops empty_store tt)
