-- ===== src/Workflow/Resuming.antt =====
-- Where a run resumes, by what its events record.
use smorx.Prelude.{
  ◌≡◌, refl, ◌∙◌, ap, String, inl, inr, Bool, true, false, ◌&&◌, Option, none, some, List, [], ◌∷◌,
  ◌++◌, arith, Bool-cases, filterb, All, contains, ◌==◌, string_eq, lookup, sym, ◌||◌,
  if◌then◌else◌, anyb, All-imp, All-of_allb, ==-cases, Result, Result-cases, ok, err,
}
use smorx.Workflow.Events.{null, flag, num, text, compound, Value, Payload, Event, Store, of_run}
use smorx.Workflow.Replay.{
  default_phases, unhashable, ordered_events, phase_of, insert_event, order_by, by_sequence,
}
use smorx.Workflow.Reliability.{
  with_recorded, completed_phases, first_missing, resume_point, names_phase,
}

-- Whether an event of the run has the phase under the key "phase" of its payload.
abbrev pub is_recorded : String → Store → String → Bool
is_recorded run_id s phase =
    anyb (λ e. of_run run_id e && names_phase phase (lookup "phase" e.payload)) s.events

-- The first phase that is not recorded, behind phases that are.
abbrev pub IsFirstMissing : (String → Bool) → List String → Option String → Type 0
IsFirstMissing recorded phases none = All (λ p. recorded p ≡ true) phases
IsFirstMissing recorded phases (some phase) =
    (before : List String) × (after : List String) × (phases ≡ before ++ phase ∷ after)
    × All (λ p. recorded p ≡ true) before
    × (recorded phase ≡ false)

IsFirstMissing-cons :
    (recorded : String → Bool) (p : String) (ps : List String) (o : Option String)
    → recorded p ≡ true
    → IsFirstMissing recorded ps o
    → IsFirstMissing recorded (p ∷ ps) o
IsFirstMissing-cons recorded p ps none there h = (there, h)
IsFirstMissing-cons recorded p ps (some q) there (before, after, e, all, missing) =
    (p ∷ before, after, ap (λ xs. p ∷ xs) e, (there, all), missing)

first_missing-IsFirstMissing :
    (recorded : String → Bool) (completed phases : List String)
    → All (λ p. contains completed p ≡ recorded p) phases
    → IsFirstMissing recorded phases (first_missing completed phases)
unfolding first_missing
first_missing-IsFirstMissing recorded completed [] h = tt
first_missing-IsFirstMissing recorded completed (p ∷ ps) h =
    elim (Bool-cases (contains completed p)) [
      | inr missing ↦ rw (missing, first_missing) ([], ps, refl, tt, sym h.0 ∙ missing)
      | inl there ↦
          rw (there, first_missing)
            (IsFirstMissing-cons recorded p ps (first_missing completed ps) (sym h.0 ∙ there)
              (first_missing-IsFirstMissing recorded completed ps h.1))
    ]

module _ (q : Event → Bool) where
  anyb-insert_event :
      (le : Event → Event → Bool) (e : Event) (es : List Event)
      → anyb q (insert_event le e es) ≡ (q e || anyb q es)
  unfolding insert_event
  anyb-insert_event le e [] = refl
  anyb-insert_event le e (x ∷ xs) = ground (arith, anyb-insert_event le e xs)

  anyb-order_by :
      (le : Event → Event → Bool) (es : List Event) → anyb q (order_by le es) ≡ anyb q es
  unfolding order_by
  anyb-order_by le [] = refl
  anyb-order_by le (e ∷ es) =
      anyb-insert_event le e (order_by le es) ∙ ap (λ b. q e || b) (anyb-order_by le es)

  anyb-filterb :
      (p : Event → Bool) (es : List Event) → anyb q (filterb p es) ≡ anyb (λ e. p e && q e) es
  anyb-filterb p [] = refl
  anyb-filterb p (e ∷ es) = elim (Bool-cases (p e)) [
    | inl kept ↦ rw kept (ap (λ b. q e || b) (anyb-filterb p es))
    | inr dropped ↦ rw dropped (anyb-filterb p es)
  ]

-- Whether an event of the run has a list or a dict under the key "phase" of its payload.
abbrev pub is_compound : Option Value → Bool
is_compound (some (compound c)) = true
is_compound _ = false

abbrev pub has_compound : String → Store → Bool
has_compound run_id s =
    anyb (λ e. of_run run_id e && is_compound (lookup "phase" e.payload)) s.events

abbrev matches : String → Option String → Bool
matches phase none = false
matches phase (some t) = t == phase

-- What `phase_of` makes of a payload: it raises on a list or a dict, and else finds a known phase
-- exactly when the payload names it.
abbrev Found : Option Value → Result String (Option String) → Type 0
Found v (err e) = (is_compound v ≡ true) × (e ≡ unhashable)
Found v (ok o) =
    (is_compound v ≡ false)
    × ((phase : String)
        → contains default_phases phase ≡ true
        → matches phase o ≡ names_phase phase v)

text-Found :
    (t : String) → Found (some (text t)) (ok (if contains default_phases t then some t else none))
text-Found t = (
  refl,
  λ phase known. elim (Bool-cases (contains default_phases t)) [
    | inl yes_ ↦ rw yes_ refl
    | inr unknown ↦ elim (==-cases t phase) [
      | inl (_, same) ↦ cc (ap (contains default_phases) same, known)
      | inr (differs, _) ↦ rw unknown (sym differs)
    ]
  ],
)

phase_of-lookup :
    (payload : Payload) (v : Option Value) → lookup "phase" payload ≡ v → Found v (phase_of payload)
unfolding phase_of
phase_of-lookup payload none h = rw (h, phase_of) (refl, λ phase known. refl)
phase_of-lookup payload (some null) h = rw (h, phase_of) (refl, λ phase known. refl)
phase_of-lookup payload (some (flag b)) h = rw (h, phase_of) (refl, λ phase known. refl)
phase_of-lookup payload (some (num n)) h = rw (h, phase_of) (refl, λ phase known. refl)
phase_of-lookup payload (some (text t)) h = rw (h, phase_of) (text-Found t)
phase_of-lookup payload (some (compound c)) h = rw (h, phase_of) (refl, refl)

phase_of-Found : (payload : Payload) → Found (lookup "phase" payload) (phase_of payload)
phase_of-Found payload = phase_of-lookup payload (lookup "phase" payload) refl

-- The phases of the events, or the exception.
abbrev Collected : List Event → Result String (List String) → Type 0
Collected es (err e) =
    (anyb (λ x. is_compound (lookup "phase" x.payload)) es ≡ true) × (e ≡ unhashable)
Collected es (ok ps) =
    (anyb (λ x. is_compound (lookup "phase" x.payload)) es ≡ false)
    × ((phase : String)
        → contains default_phases phase ≡ true
        → contains ps phase ≡ anyb (λ x. names_phase phase (lookup "phase" x.payload)) es)

contains-with_recorded :
    (phase : String) (o : Option String) (ps : List String)
    → contains (with_recorded o ps) phase ≡ (matches phase o || contains ps phase)
unfolding contains
contains-with_recorded phase none ps = refl
contains-with_recorded phase (some t) ps = refl

completed_phases-Collected : (es : List Event) → Collected es (completed_phases es)
unfolding completed_phases contains
completed_phases-Collected [] = (refl, λ phase known. refl)
completed_phases-Collected (e ∷ es) =
    let here = phase_of-Found e.payload in
    let rest = completed_phases-Collected es in
    elim (Result-cases (phase_of e.payload)) [
      | inr (x, raised) ↦
          let (bad, same) = rw raised at here in rw (raised, completed_phases) (rw bad (refl, same))
      | inl (o, read) ↦
          let (plain, names) = rw read at here in
          elim (Result-cases (completed_phases es)) [
            | inr (x, raised) ↦
                let (bad, same) = rw raised at rest in
                rw (read, raised, completed_phases) (rw (plain, bad) (refl, same))
            | inl (ps, all) ↦
                let (fine, found) = rw all at rest in
                rw (read, all, completed_phases)
                  (
                    rw (plain, fine) refl,
                    λ phase known.
                        contains-with_recorded phase o ps
                        ∙ ap (λ b. b || contains ps phase) (names phase known)
                        ∙ ap (λ b. names_phase phase (lookup "phase" e.payload) || b)
                            (found phase known),
                  )
          ]
    ]

phases_known : All (λ p. contains default_phases p ≡ true) default_phases
unfolding contains
phases_known =
    All-of_allb (λ p. contains default_phases p ≡ true) (λ p. contains default_phases p)
      default_phases (λ p h. h) refl

module _ (run_id : String) (s : Store) where
  -- The exception, and else the phase.
  abbrev pub Resumes : Result String (Option String) → Type 0
  Resumes (err e) = (has_compound run_id s ≡ true) × (e ≡ unhashable)
  Resumes (ok o) =
      (has_compound run_id s ≡ false) × IsFirstMissing (is_recorded run_id s) default_phases o

  anyb-ordered_events :
      (q : Event → Bool)
      → anyb q (ordered_events run_id s) ≡ anyb (λ e. of_run run_id e && q e) s.events
  unfolding ordered_events
  anyb-ordered_events q =
      anyb-order_by q by_sequence (filterb (of_run run_id) s.events)
      ∙ anyb-filterb q (of_run run_id) s.events

  -- Where an event of the run has a list or a dict under "phase" in its payload, `resume_point` raises.
  -- Else a run resumes at the first of the twelve phases that no event of the run names there, behind
  -- phases that events of it name; and nowhere if all of them are named.
  pub resume_point-IsFirstMissing : Resumes (resume_point run_id s)
  unfolding resume_point
  resume_point-IsFirstMissing =
      let found = completed_phases-Collected (ordered_events run_id s) in
      let compounds = anyb-ordered_events (λ e. is_compound (lookup "phase" e.payload)) in
      elim (Result-cases (completed_phases (ordered_events run_id s))) [
        | inr (x, raised) ↦
            let (bad, same) = rw raised at found in
            rw (raised, resume_point) (sym compounds ∙ bad, same)
        | inl (ps, read) ↦
            let (plain, names) = rw read at found in
            rw (read, resume_point)
              (
                sym compounds ∙ plain,
                first_missing-IsFirstMissing (is_recorded run_id s) ps default_phases (
                    All-imp (λ p. contains default_phases p ≡ true)
                      (λ p. contains ps p ≡ is_recorded run_id s p)
                      (λ p known.
                        names p known
                        ∙ anyb-ordered_events (λ e. names_phase p (lookup "phase" e.payload)))
                      default_phases phases_known),
              )
      ]
