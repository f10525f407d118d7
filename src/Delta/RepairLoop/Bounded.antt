-- ===== src/Delta/RepairLoop/Bounded.antt =====
-- How far the loop goes, and what it leaves.
use smorx.Prelude.{
  ℕ, zero, suc, ◌-◌, ◌*◌, ◌<◌, ◌≡◌, refl, ◌∙◌, ap, subst, String, ◌⊎◌, inl, inr, false, Option,
  none, some, List, [], arith, Bool-cases, Option-cases, is_empty, length, string_eq, ==-cases,
  Result, Result-cases, ok, err,
}
use smorx.Verification.Contracts.{VerificationResult}
use smorx.Develop.Bounds.{
  LoopBounds, Bound, LoopBoundsController, new_controller, check, record_repair, record_iteration,
  threshold_of,
}
use smorx.Delta.Deltas.{BehavioralDeltaRecord}
use smorx.Delta.Intent.{IntentAlignmentRecord}
use smorx.Delta.Decision.{
  DecisionCode, blocked, eligible_to_continue, insufficient_evidence, repair_required,
  CertificationDecision,
}
use smorx.Delta.Repair.{RepairPlanError, no_affected_claim_id, RepairPackageRecord}
use smorx.Delta.RepairLoop.{
  RepairLoopResult, find_affected_claim, gather_evidence_ids, Moment, Looping, Pass, stop,
  bound_exhausted, nothing_to_repair, no_reason, signature_of, record_pass, repair_claim, pass,
  passes, run_repair_loop,
}
use smorx.Delta.RepairLoop.Signatures.{copies, record_execution_signature-copies}
use smorx.Delta.RepairLoop.Iterations.{IsRepaired, length-snoc, IsRepaired-snoc}

-- Before a pass: the counters agree with the list, and the equal signatures are below the
-- threshold.
record Inv (bounds : LoopBounds) (start : ℕ) (moments : ℕ → Moment) (signature : String) (i : ℕ)
    (s : Looping) : Type 0 where
  indexed : i ≡ suc (length s.iterations)
  begun : s.controller.started_at ≡ start
  unspent : s.controller.commands ≡ 0
  kept : s.controller.bounds ≡ bounds
  counted : s.controller.iteration ≡ length s.iterations
  repaired : s.controller.repairs ≡ length s.iterations
  recent : s.controller.recent_signatures ≡ copies (length s.iterations) signature
  below : length s.iterations < threshold_of bounds
  good : IsRepaired bounds start moments s.iterations s.allow_continue

abbrev Kept : LoopBounds → ℕ → (ℕ → Moment) → String → ℕ → Pass → Type 0
Kept bounds start moments signature i (Pass.next s) = Inv bounds start moments signature (suc i) s
Kept bounds start moments signature i (Pass.break s) =
    IsRepaired bounds start moments s.iterations s.allow_continue

module _ (result : VerificationResult) (deltas : List BehavioralDeltaRecord)
    (alignments : List IntentAlignmentRecord) (bounds : LoopBounds) (start : ℕ)
    (moments : ℕ → Moment) where
  record_pass-Kept :
      (i : ℕ) (m : Moment) (signature : String) (repair : RepairPackageRecord) (s : Looping)
      → Inv bounds start moments signature i s
      → ((moments (suc (length s.iterations))).now - start < bounds.max_runtime_seconds * 1000000)
      → 0 < bounds.max_commands
      → length s.iterations < bounds.max_iterations
      → length s.iterations < bounds.max_repair_attempts
      → is_empty repair.evidence_ids ≡ false
      → Kept bounds start moments signature i
          (record_pass result deltas alignments m signature repair s)
  unfolding record_pass record_repair record_iteration
  record_pass-Kept i m signature repair s h time cmds its reps evidence =
      elim (record_execution_signature-copies (record_repair s.controller).0 signature
        (length s.iterations) h.recent (rw h.kept h.below)) [
          | inl (e, _) ↦ rw e (
              IsRepaired-snoc bounds start moments s.iterations s.allow_continue _ h.good time cmds
                its reps h.below (omega (arith, h.counted)) (omega (arith, h.counted)) evidence)
          | inr (e, short) ↦ rw e (record {
            indexed = omega (arith, h.indexed, length-snoc s.iterations _);
            begun = h.begun;
            unspent = h.unspent;
            kept = h.kept;
            counted = omega (arith, h.counted, length-snoc s.iterations _);
            repaired = omega (arith, h.repaired, length-snoc s.iterations _);
            recent = rw (length-snoc s.iterations _);
            below = rw (length-snoc s.iterations _, ← h.kept) short;
            good =
                IsRepaired-snoc bounds start moments s.iterations s.allow_continue _ h.good time
                  cmds its reps h.below (omega (arith, h.counted)) (omega (arith, h.counted))
                  evidence;
          })
        ]

pass_cases :
    (r : Result RepairPlanError Pass)
    → ((e : RepairPlanError) × (r ≡ err e))
      ⊎ ((s : Looping) × (r ≡ ok (Pass.break s)))
      ⊎ ((s : Looping) × (r ≡ ok (Pass.next s)))
pass_cases (err e) = inl (e, refl)
pass_cases (ok (Pass.break s)) = inr (inl (s, refl))
pass_cases (ok (Pass.next s)) = inr (inr (s, refl))

abbrev started : ℕ → LoopBounds → Looping
started start bounds = record {
  controller = new_controller start bounds;
  iterations = [];
  allow_continue = false;
  blocked_reason = no_reason;
}

Inv-start :
    (start : ℕ) (moments : ℕ → Moment) (bounds : LoopBounds) (signature : String)
    → Inv bounds start moments signature 1 (started start bounds)
unfolding new_controller
Inv-start start moments bounds signature = record {
  indexed = refl;
  begun = refl;
  unspent = refl;
  kept = refl;
  counted = refl;
  repaired = refl;
  recent = refl;
  below = omega arith;
  good = record {
    numbered = tt;
    iterations_le = omega arith;
    repairs_le = omega arith;
    threshold_le = omega arith;
    timely = tt;
    continues = refl;
  };
}

check-none :
    (now : ℕ) (c : LoopBoundsController)
    → check now c ≡ none
    → (c.iteration < c.bounds.max_iterations)
      × (c.repairs < c.bounds.max_repair_attempts)
      × (now - c.started_at < c.bounds.max_runtime_seconds * 1000000)
      × (c.commands < c.bounds.max_commands)
unfolding check
check-none now c h = (ground arith, ground arith, ground arith, ground arith)

module _ (result : VerificationResult) (deltas : List BehavioralDeltaRecord)
    (alignments : List IntentAlignmentRecord) (bounds : LoopBounds) (start : ℕ)
    (moments : ℕ → Moment) where
  abbrev pub affected : Option String
  affected = find_affected_claim deltas alignments result.claims

  abbrev Outcome : String → ℕ → Result RepairPlanError Pass → Type 0
  Outcome signature i (ok p) = Kept bounds start moments signature i p
  Outcome signature i (err e) = (affected ≡ some "") × (e ≡ no_affected_claim_id)

  repair_claim-Outcome :
      (i : ℕ) (m : Moment) (c : String) (s : Looping)
      → affected ≡ some c
      → Inv bounds start moments (signature_of result deltas alignments c) i s
      → ((moments (suc (length s.iterations))).now - start < bounds.max_runtime_seconds * 1000000)
      → 0 < bounds.max_commands
      → length s.iterations < bounds.max_iterations
      → length s.iterations < bounds.max_repair_attempts
      → Outcome
          (signature_of result deltas alignments c)
          i
          (repair_claim result deltas alignments m c s)
  unfolding repair_claim
  repair_claim-Outcome i m c s is_c h time cmds its reps =
      elim (Bool-cases (is_empty (gather_evidence_ids result c))) [
        | inl without ↦ rw without h.good
        | inr given ↦ elim (==-cases c "") [
          | inl (eq, empty) ↦ rw (given, eq) (is_c ∙ ap some empty, refl)
          | inr (ne, _) ↦
              rw (given, ne)
                (record_pass-Kept result deltas alignments bounds start moments i m
                  (signature_of result deltas alignments c) _ s h time cmds its reps given)
        ]
      ]

  -- The signature is the same in each pass, since the claim is.
  abbrev signature : String
  signature = elim affected [ none ↦ "" | some c ↦ signature_of result deltas alignments c ]

  pass_nothing :
      (m : Moment) (s : Looping)
      → check m.now s.controller ≡ none
      → affected ≡ none
      → pass result deltas alignments m s ≡ ok (stop nothing_to_repair s)
  unfolding pass
  pass_nothing m s free nothing = rw (free, nothing, pass)

  pass_claim :
      (m : Moment) (s : Looping) (c : String)
      → check m.now s.controller ≡ none
      → affected ≡ some c
      → pass result deltas alignments m s ≡ repair_claim result deltas alignments m c s
  unfolding pass
  pass_claim m s c free is_c = rw (free, is_c, pass)

  pass_spent :
      (m : Moment) (s : Looping) (b : Bound)
      → check m.now s.controller ≡ some b
      → pass result deltas alignments m s ≡ ok (stop (bound_exhausted b) s)
  unfolding pass
  pass_spent m s b spent = rw (spent, pass)

  pass-Outcome :
      (i : ℕ) (s : Looping)
      → Inv bounds start moments signature i s
      → Outcome signature i (pass result deltas alignments (moments i) s)
  pass-Outcome i s h =
      let m = moments i in
      elim (Option-cases (check m.now s.controller)) [
        | inr (b, spent) ↦ rw (pass_spent m s b spent) h.good
        | inl free ↦
            let (its, reps, time, cmds) = check-none m.now s.controller free in
            let timed : ((moments (suc (length s.iterations))).now - start
                < bounds.max_runtime_seconds * 1000000) =
              subst (λ k. (moments k).now - start < bounds.max_runtime_seconds * 1000000) h.indexed
                (rw (h.begun, h.kept) at time) in
            let spends : 0 < bounds.max_commands = rw (h.unspent, h.kept) at cmds in
            elim (Option-cases affected) [
              | inl nothing ↦ rw (pass_nothing m s free nothing) h.good
              | inr (c, is_c) ↦
                  let same : signature ≡ signature_of result deltas alignments c =
                    rw (is_c, signature) in
                  rw (pass_claim m s c free is_c, same)
                    (repair_claim-Outcome i m c s is_c
                      (subst (λ x. Inv bounds start moments x i s) same h) timed spends
                      (rw (h.counted, h.kept) at its) (rw (h.repaired, h.kept) at reps))
            ]
      ]

  abbrev Done : Result RepairPlanError Looping → Type 0
  Done (ok s) = IsRepaired bounds start moments s.iterations s.allow_continue
  Done (err e) = (affected ≡ some "") × (e ≡ no_affected_claim_id)

  passes-Done :
      (left i : ℕ) (s : Looping)
      → Inv bounds start moments signature i s
      → Done (passes result deltas alignments left i moments s)
  unfolding passes
  passes-Done zero i s h = h.good
  passes-Done (suc left) i s h =
      let outcome = pass-Outcome i s h in
      elim (pass_cases (pass result deltas alignments (moments i) s)) [
        | inl (e, failed) ↦ rw (failed, passes) (rw failed at outcome)
        | inr (inl (s', broken)) ↦ rw (broken, passes) (rw broken at outcome)
        | inr (inr (s', going)) ↦
            rw (going, passes) (passes-Done left (suc i) s' (rw going at outcome))
      ]

  abbrev pub Finished : Result RepairPlanError RepairLoopResult → Type 0
  Finished run =
      ((r : RepairLoopResult) × (run ≡ ok r)
        × IsRepaired bounds start moments r.iterations r.allow_continue)
      ⊎ (affected ≡ some "") × (run ≡ err no_affected_claim_id)

  nothing-IsRepaired : IsRepaired bounds start moments [] false
  nothing-IsRepaired = (Inv-start start moments bounds "").good

  run_repair_loop-Finished_code :
      (candidate_patch_id : String) (decision : CertificationDecision) (code : DecisionCode)
      → decision.code ≡ code
      → Finished (
          run_repair_loop result deltas alignments start moments bounds candidate_patch_id decision)
  unfolding run_repair_loop
  run_repair_loop-Finished_code patch decision blocked e =
      rw (e, run_repair_loop) (inl (_, refl, nothing-IsRepaired))
  run_repair_loop-Finished_code patch decision eligible_to_continue e =
      rw (e, run_repair_loop) (inl (_, refl, nothing-IsRepaired))
  run_repair_loop-Finished_code patch decision insufficient_evidence e =
      rw (e, run_repair_loop) (inl (_, refl, nothing-IsRepaired))
  run_repair_loop-Finished_code patch decision repair_required e =
      let done =
        passes-Done bounds.max_iterations 1 (started start bounds)
          (Inv-start start moments bounds signature) in
      elim (Result-cases
        (passes result deltas alignments bounds.max_iterations 1 moments (started start bounds))) [
          | inl (s, ended) ↦ rw (e, run_repair_loop, ended) (inl (_, refl, rw ended at done))
          | inr (x, raised) ↦
              let failed = rw raised at done in
              rw (e, run_repair_loop, raised) (inr (failed.0, ap err failed.1))
        ]

  -- Without a session, `run_repair_loop` always ends. It raises only if the affected claim's id is
  -- empty. Else its iterations are numbered from 1, each proposes the candidate after its number and
  -- rests on evidence; there are at most as many as the iterations, the repairs and the no-progress
  -- threshold allow, each began when less than the budget of seconds had gone, and there is none where
  -- no commands are allowed; and `allow_continue` is set exactly when there is an iteration.
  pub run_repair_loop-Finished :
      (candidate_patch_id : String) (decision : CertificationDecision)
      → Finished (
          run_repair_loop result deltas alignments start moments bounds candidate_patch_id decision)
  run_repair_loop-Finished candidate_patch_id decision =
      run_repair_loop-Finished_code candidate_patch_id decision decision.code refl
