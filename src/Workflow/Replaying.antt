-- ===== src/Workflow/Replaying.antt =====
-- When a run can be replayed.
use smorx.Prelude.{
  ℕ, ◌<◌, ◌≡◌, ◌↔◌, refl, sym, ◌∙◌, ap, String, inl, inr, Bool, true, false, Option, none, some,
  List, [], ◌∷◌, arith, Bool-cases, Option-cases, filterb, is_empty, All, All-imp, string_eq,
  ==-refl, ==-cases, Result, ok, err, not-leb→lt,
}
use smorx.Workflow.Events.{Event, Run, Store, Codec, is_id, Bound, event_digest}
use smorx.Workflow.Replay.{
  is_chained, is_out_of_order, stored_hash, check_chain, ordered_events, meets, evidence_hashes,
  ReplayResult,
}

-- Each event has a lower number than all that follow it.
abbrev pub Increasing : List Event → Type 0
Increasing [] = Unit
Increasing (e ∷ es) = All (λ f. e.sequence < f.sequence) es × Increasing es

module _ (codec : Codec) where
  -- The stored hash is there, and it is the digest of the event.
  abbrev pub IsHashed : Event → Type 0
  IsHashed e = stored_hash e.hash ≡ some (event_digest codec e)

  abbrev pub IsIntact : List Event → Type 0
  IsIntact es = All IsHashed es × Increasing es

  abbrev After : Option ℕ → Event → Type 0
  After none e = Unit
  After (some p) e = p < e.sequence

  After-out_of_order :
      (prev : Option ℕ) (e : Event) → is_out_of_order prev e.sequence ≡ false → After prev e
  After-out_of_order none e h = tt
  After-out_of_order (some p) e h = not-leb→lt e.sequence p h

  out_of_order-After :
      (prev : Option ℕ) (e : Event) → After prev e → is_out_of_order prev e.sequence ≡ false
  out_of_order-After none e h = refl
  out_of_order-After (some p) e h = ground (arith, h)

  After-trans :
      (prev : Option ℕ) (e f : Event) → After prev e → e.sequence < f.sequence → After prev f
  After-trans none e f h k = tt
  After-trans (some p) e f h k = omega (arith, h, k)

  -- What the loop establishes of an event.
  check_chain-cons :
      (prev : Option ℕ) (e : Event) (es : List Event)
      → check_chain codec prev (e ∷ es) ≡ none
      → IsHashed e
        × (is_out_of_order prev e.sequence ≡ false)
        × (check_chain codec (some e.sequence) es ≡ none)
  unfolding check_chain
  check_chain-cons prev e es h = elim (Option-cases (stored_hash e.hash)) [
    | inl absent ↦ cc (rw (absent, check_chain) at h)
    | inr (x, there) ↦ elim (==-cases (event_digest codec e) x) [
      | inr (differs, _) ↦ cc (rw (there, differs, check_chain) at h)
      | inl (same, eq) ↦ elim (Bool-cases (is_out_of_order prev e.sequence)) [
        | inl bad ↦ cc (rw (there, same, bad, check_chain) at h)
        | inr good ↦ (there ∙ ap some (sym eq), good, rw (there, same, good, check_chain) at h)
      ]
    ]
  ]

  check_chain_sound :
      (prev : Option ℕ) (es : List Event)
      → check_chain codec prev es ≡ none
      → IsIntact es × All (After prev) es
  check_chain_sound prev [] h = ((tt, tt), tt)
  check_chain_sound prev (e ∷ es) h =
      let (hashed, ordered, rest) = check_chain-cons prev e es h in
      let ((all_hashed, increasing), later) = check_chain_sound (some e.sequence) es rest in
      let first = After-out_of_order prev e ordered in
      (
        ((hashed, all_hashed), (later, increasing)),
        (
          first,
          All-imp (λ f. e.sequence < f.sequence) (After prev) (λ f k. After-trans prev e f first k)
              es later,
        ),
      )

  check_chain_complete :
      (prev : Option ℕ) (es : List Event)
      → IsIntact es
      → All (After prev) es
      → check_chain codec prev es ≡ none
  unfolding check_chain
  check_chain_complete prev [] h k = refl
  check_chain_complete prev (e ∷ es) ((hashed, all_hashed), (later, increasing)) (first, k) =
      rw (hashed, ==-refl (event_digest codec e), out_of_order-After prev e first, check_chain)
        (check_chain_complete (some e.sequence) es (all_hashed, increasing) later)

  All-After-none : (es : List Event) → All (After none) es
  All-After-none [] = tt
  All-After-none (e ∷ es) = (tt, All-After-none es)

  -- The loop finds no issue exactly when the chain is intact.
  pub check_chain-IsIntact : (es : List Event) → (check_chain codec none es ≡ none) ↔ IsIntact es
  check_chain-IsIntact es = (
    λ h. (check_chain_sound none es h).0,
    λ h. check_chain_complete none es h (All-After-none es),
  )

  -- The chain of the run, with what was expected of the task's evidence.
  abbrev pub IsReplayable : Run → Option (List String) → Store → Type 0
  IsReplayable run expected s =
      IsIntact (filterb is_chained (ordered_events run.id s))
      × (is_empty (filterb is_chained (ordered_events run.id s)) ≡ false)
      × (meets expected
            (evidence_hashes (filterb (λ (row : Bound). is_id run.task_id row.task_id) s.evidence))
          ≡ true)

-- What a replay of a chain answers, where it does not raise.
abbrev Answers : Bool → Result String ReplayResult → Type 0
Answers replayable (ok r) = r.replayable ≡ replayable
Answers replayable (err e) = Unit

module _ (codec : Codec) (task_id : String) (shown : List Event) (expected : Option (List String))
    (s : Store) where
  abbrev is_met : Bool
  is_met =
      meets expected
        (evidence_hashes (filterb (λ (row : Bound). is_id task_id row.task_id) s.evidence))
