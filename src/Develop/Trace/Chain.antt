-- ===== src/Develop/Trace/Chain.antt =====
-- A trace that is built verifies, and an altered payload under its hash is a collision.
use text.Mathlib.TextLemmas.{append_cancel_left}
use smorx.Prelude.{
  ℕ, ◌+◌, ◌≡◌, refl, sym, ap, subst, ◌∙◌, String, ◌⊎◌, inl, inr, true, List, [], ◌∷◌, map, arith,
  length, string_eq, ==-refl, ==-cases, str,
}
use smorx.Develop.Trace.{
  EntryKind, TraceEntry, ExecutionTrace, LoopRun, intact, is_intact, hash_payload, append_all,
  events_of, build_trace, verify_from, verify_trace_integrity,
}

module _ {Payload : Type 0} (sha256 : String → String) (canonical : Payload → String) where
  verify_from-append_all :
      (total sequence : ℕ) (previous : String) (events : List (EntryKind × Payload))
      → verify_from sha256 canonical total previous
          (append_all sha256 canonical sequence previous events)
        ≡ intact total
  unfolding verify_from append_all
  verify_from-append_all total sequence previous [] = refl
  verify_from-append_all total sequence previous ((kind, payload) ∷ events) =
      rw (==-refl (hash_payload sha256 canonical (sequence + 1) previous payload), ==-refl previous)
        (verify_from-append_all total (sequence + 1)
          (hash_payload sha256 canonical (sequence + 1) previous payload) events)

  -- A trace that `build_trace` assembles passes `verify_trace_integrity`, over all its entries.
  pub verify_trace_integrity-build_trace :
      (r : LoopRun Payload)
      → verify_trace_integrity sha256 canonical (build_trace sha256 canonical r)
        ≡ intact (length (build_trace sha256 canonical r).entries)
  unfolding verify_trace_integrity build_trace
  verify_trace_integrity-build_trace r =
      verify_from-append_all (length (append_all sha256 canonical 0 "GENESIS" (events_of r))) 0
        "GENESIS" (events_of r)

  -- The texts that were hashed.
  abbrev pub canonicals : List (TraceEntry Payload) → List String
  canonicals es = map (λ e. canonical e.payload) es

  -- The entries' numbers and hashes, which a record of the trace keeps.
  abbrev pub seals : List (TraceEntry Payload) → List (ℕ × String)
  seals es = map (λ e. (e.sequence, e.entry_hash)) es

  verify_from-head :
      (total : ℕ) (previous : String) (e : TraceEntry Payload) (es : List (TraceEntry Payload))
      → is_intact (verify_from sha256 canonical total previous (e ∷ es)) ≡ true
      → (e.entry_hash ≡ hash_payload sha256 canonical e.sequence previous e.payload)
        × (is_intact (verify_from sha256 canonical total e.entry_hash es) ≡ true)
  unfolding verify_from
  verify_from-head total previous e es h =
      elim (==-cases e.entry_hash (hash_payload sha256 canonical e.sequence previous e.payload)) [
        | inl (eq, same) ↦ (same, ground arith)
        | inr (ne, _) ↦ cc (rw ne at h)
      ]

  -- Two texts with one digest.
  abbrev pub Collision : Type 0
  Collision = (s : String) × (t : String) × (¬ (s ≡ t)) × (sha256 s ≡ sha256 t)

  digest-Collision : (s t : String) → sha256 s ≡ sha256 t → (s ≡ t) ⊎ Collision
  digest-Collision s t h = elim (==-cases s t) [
    | inl (_, same) ↦ inl same
    | inr (_, ne) ↦ inr (s, t, ne, h)
  ]

  hash_payload-cases :
      (n : ℕ) (previous : String) (p q : Payload)
      → hash_payload sha256 canonical n previous p ≡ hash_payload sha256 canonical n previous q
      → (canonical p ≡ canonical q) ⊎ Collision
  unfolding hash_payload
  hash_payload-cases n previous p q h = elim (digest-Collision _ _ h) [
    | inr collision ↦ inr collision
    | inl same ↦ inl (
        append_cancel_left "|" _ _ (
          append_cancel_left previous _ _
            (append_cancel_left "|" _ _ (append_cancel_left (str n) _ _ same))))
  ]

  verify_from-canonicals :
      (m n : ℕ) (previous : String) (es fs : List (TraceEntry Payload))
      → is_intact (verify_from sha256 canonical m previous es) ≡ true
      → is_intact (verify_from sha256 canonical n previous fs) ≡ true
      → seals es ≡ seals fs
      → (canonicals es ≡ canonicals fs) ⊎ Collision
  verify_from-canonicals m n previous [] [] a b same = inl refl
  verify_from-canonicals m n previous [] (f ∷ fs) a b same = cc
  verify_from-canonicals m n previous (e ∷ es) [] a b same = cc
  verify_from-canonicals m n previous (e ∷ es) (f ∷ fs) a b same =
      let (ea, rest_a) = verify_from-head m previous e es a in
      let (fb, rest_b) = verify_from-head n previous f fs b in
      let number : e.sequence ≡ f.sequence = cc in
      let hash : e.entry_hash ≡ f.entry_hash = cc in
      let seals_rest : seals es ≡ seals fs = cc in
      let head = hash_payload-cases e.sequence previous e.payload f.payload (
        sym ea
        ∙ hash
        ∙ fb
        ∙ ap (λ k. hash_payload sha256 canonical k previous f.payload) (sym number)) in
      let tail =
        verify_from-canonicals m n e.entry_hash es fs rest_a
          (subst (λ x. is_intact (verify_from sha256 canonical n x fs) ≡ true) (sym hash) rest_b)
          seals_rest in
      elim head [
        | inr collision ↦ inr collision
        | inl equal ↦ elim tail [
          | inr collision ↦ inr collision
          | inl rest ↦
              inl (ap (λ c. c ∷ canonicals es) equal ∙ ap (λ cs. canonical f.payload ∷ cs) rest)
        ]
      ]

  -- Two traces that both pass `verify_trace_integrity` and have the same numbers and hashes have the
  -- same canonical texts of their payloads, entry by entry; or there are two different texts with one
  -- digest. Payloads with one canonical text are not told apart.
  pub verify_trace_integrity-canonicals :
      (t u : ExecutionTrace Payload)
      → is_intact (verify_trace_integrity sha256 canonical t) ≡ true
      → is_intact (verify_trace_integrity sha256 canonical u) ≡ true
      → seals t.entries ≡ seals u.entries
      → (canonicals t.entries ≡ canonicals u.entries) ⊎ Collision
  unfolding verify_trace_integrity
  verify_trace_integrity-canonicals t u a b same =
      verify_from-canonicals (length t.entries) (length u.entries) "GENESIS" t.entries u.entries a b
        same
