-- ===== src/Tools/Human/Lifecycle/Grown.antt =====
-- How the requests of a plane change.
use smorx.Prelude.{
  ℕ, ◌≡◌, refl, ◌∙◌, String, inl, inr, Bool, true, false, ◌&&◌, some, List, [], ◌∷◌, ◌++◌, map,
  arith, Bool-cases, ◌==◌, string_eq, Result, Result-cases, ok, err,
}
use smorx.Tools.Human.{
  ApprovalStatus, pending, approved, denied, expired, ApprovalError, ApprovalRequest,
  HumanControlPlane, is_active, is_past, prune_request, pause, resume, is_pending_status, decide_in,
  decide, Call, after_call, perform, run,
}

abbrev pub leads_to : ApprovalStatus → ApprovalStatus → Bool
leads_to pending s = true
leads_to approved approved = true
leads_to approved expired = true
leads_to denied denied = true
leads_to expired expired = true
leads_to _ _ = false

-- A later version of the same request.
pub record Later (r s : ApprovalRequest) : Type 0 where
  pub same_id : s.approval_id ≡ r.approval_id
  pub same_time : s.requested_at ≡ r.requested_at
  pub same_action : s.action_id ≡ r.action_id
  pub same_tool : s.tool_name ≡ r.tool_name
  pub same_expiry : s.expires_at ≡ r.expires_at
  pub same_reason : s.reason ≡ r.reason
  pub moved : leads_to r.status s.status ≡ true
  pub decision_kept : is_pending_status r.status ≡ false → s.decided_by ≡ r.decided_by
  pub time_kept : is_pending_status r.status ≡ false → s.decided_at ≡ r.decided_at

Later-refl : (r : ApprovalRequest) → Later r r
Later-refl r = record {
  same_id = refl;
  same_time = refl;
  same_action = refl;
  same_tool = refl;
  same_expiry = refl;
  same_reason = refl;
  moved = ground arith;
  decision_kept = λ h. refl;
  time_kept = λ h. refl;
}

leads_to-pending :
    (a b : ApprovalStatus)
    → leads_to a b ≡ true
    → is_pending_status a ≡ false
    → is_pending_status b ≡ false
leads_to-pending a b h k = ground arith

leads_to_trans :
    (a b c : ApprovalStatus) → leads_to a b ≡ true → leads_to b c ≡ true → leads_to a c ≡ true
leads_to_trans a b c h k = ground arith

Later-trans : (r s t : ApprovalRequest) → Later r s → Later s t → Later r t
Later-trans r s t h k = record {
  same_id = k.same_id ∙ h.same_id;
  same_time = k.same_time ∙ h.same_time;
  same_action = k.same_action ∙ h.same_action;
  same_tool = k.same_tool ∙ h.same_tool;
  same_expiry = k.same_expiry ∙ h.same_expiry;
  same_reason = k.same_reason ∙ h.same_reason;
  moved = leads_to_trans r.status s.status t.status h.moved k.moved;
  decision_kept = λ decided.
      k.decision_kept (leads_to-pending r.status s.status h.moved decided)
      ∙ h.decision_kept decided;
  time_kept = λ decided.
      k.time_kept (leads_to-pending r.status s.status h.moved decided) ∙ h.time_kept decided;
}

-- Each request is still there, in its place, as a later version.
abbrev pub Grown : List ApprovalRequest → List ApprovalRequest → Type 0
Grown [] ss = Unit
Grown (r ∷ rs) [] = ⊥
Grown (r ∷ rs) (s ∷ ss) = Later r s × Grown rs ss

Grown-refl : (rs : List ApprovalRequest) → Grown rs rs
Grown-refl [] = tt
Grown-refl (r ∷ rs) = (Later-refl r, Grown-refl rs)

Grown-trans : (rs ss ts : List ApprovalRequest) → Grown rs ss → Grown ss ts → Grown rs ts
Grown-trans [] ss ts h k = tt
Grown-trans (r ∷ rs) [] ts h k = absurd h
Grown-trans (r ∷ rs) (s ∷ ss) [] h k = absurd k
Grown-trans (r ∷ rs) (s ∷ ss) (t ∷ ts) h k =
    (Later-trans r s t h.0 k.0, Grown-trans rs ss ts h.1 k.1)

Grown-append : (rs ss : List ApprovalRequest) → Grown rs (rs ++ ss)
Grown-append [] ss = tt
Grown-append (r ∷ rs) ss = (Later-refl r, Grown-append rs ss)

prune_request-Later : (now : ℕ) (r : ApprovalRequest) → Later r (prune_request now r)
unfolding prune_request
prune_request-Later now r = elim (Bool-cases (is_active r.status && is_past now r.expires_at)) [
  | inl spent ↦ rw spent (record {
    same_id = refl;
    same_time = refl;
    same_action = refl;
    same_tool = refl;
    same_expiry = refl;
    same_reason = refl;
    moved = ground arith;
    decision_kept = λ h. refl;
    time_kept = λ h. refl;
  })
  | inr kept ↦ rw kept (Later-refl r)
]

Grown-map_prune : (now : ℕ) (rs : List ApprovalRequest) → Grown rs (map (prune_request now) rs)
Grown-map_prune now [] = tt
Grown-map_prune now (r ∷ rs) = (prune_request-Later now r, Grown-map_prune now rs)

decided-Later :
    (now : ℕ) (status : ApprovalStatus) (by : String) (r : ApprovalRequest)
    → is_pending_status r.status ≡ true
    → Later r (record r { status = status; decided_at = some now; decided_by = by })
decided-Later now status by r open_ = record {
  same_id = refl;
  same_time = refl;
  same_action = refl;
  same_tool = refl;
  same_expiry = refl;
  same_reason = refl;
  moved = ground arith;
  decision_kept = λ closed. cc (open_, closed);
  time_kept = λ closed. cc (open_, closed);
}

abbrev Decided : List ApprovalRequest → Result ApprovalError (List ApprovalRequest) → Type 0
Decided rs (ok ss) = Grown rs ss
Decided rs (err e) = Unit

-- Where the request is decided, the others are left alone.
decide_in-Decided :
    (now : ℕ) (id : String) (status : ApprovalStatus) (by : String) (rs : List ApprovalRequest)
    → Decided rs (decide_in now id status by rs)
unfolding decide_in
decide_in-Decided now id status by [] = tt
decide_in-Decided now id status by (r ∷ rs) =
    let rest = decide_in-Decided now id status by rs in
    elim (Bool-cases (r.approval_id == id)) [
      | inr other ↦ elim (Result-cases (decide_in now id status by rs)) [
        | inl (ss, e) ↦ rw (other, e) (Later-refl r, rw e at rest)
        | inr (x, e) ↦ rw (other, e) tt
      ]
      | inl here ↦ elim (Bool-cases (is_pending_status r.status)) [
        | inr decided ↦ rw (here, decided) tt
        | inl open_ ↦ rw (here, open_) (decided-Later now status by r open_, Grown-refl rs)
      ]
    ]

after_decide-Grown :
    (now : ℕ) (id : String) (status : ApprovalStatus) (by : String) (p : HumanControlPlane)
    → Grown p.requests (after_call (decide now id status by p) p).requests
unfolding decide
after_decide-Grown now id status by p =
    let decided = decide_in-Decided now id status by p.requests in
    elim (Result-cases (decide_in now id status by p.requests)) [
      | inl (ss, e) ↦ rw (e, after_call) (rw e at decided)
      | inr (x, e) ↦ rw (e, after_call) (Grown-refl p.requests)
    ]

pause-requests : (p : HumanControlPlane) → (after_call (pause p) p).requests ≡ p.requests
unfolding pause
pause-requests p = ground arith

resume-requests : (p : HumanControlPlane) → (after_call (resume p) p).requests ≡ p.requests
unfolding resume
resume-requests p = ground arith

perform-Grown :
    (now : ℕ) (call : Call) (p : HumanControlPlane) → Grown p.requests (perform now call p).requests
unfolding perform
perform-Grown now Call.pauses p = rw (pause-requests p) (Grown-refl p.requests)
perform-Grown now Call.resumes p = rw (resume-requests p) (Grown-refl p.requests)
perform-Grown now Call.aborts p = Grown-refl p.requests
perform-Grown now (Call.requests id a t r ttl) p = Grown-append p.requests _
perform-Grown now (Call.asks a t) p = Grown-map_prune now p.requests
perform-Grown now Call.lists p = Grown-map_prune now p.requests
perform-Grown now (Call.approves id by) p = after_decide-Grown now id approved by p
perform-Grown now (Call.denies id by) p = after_decide-Grown now id denied by p

-- Whatever is called, at any clock readings, no request disappears or changes its id, its time, its
-- action, its tool, its reason or its expiry;
-- its status only goes from PENDING to a decision or to EXPIRED, and from APPROVED to EXPIRED, and
-- who decided it and when stay.
pub run-Grown :
    (calls : List (ℕ × Call)) (p : HumanControlPlane) → Grown p.requests (run calls p).requests
unfolding run
run-Grown [] p = Grown-refl p.requests
run-Grown ((now, call) ∷ calls) p =
    let p' = perform now call p in
    Grown-trans p.requests p'.requests (run calls p').requests (perform-Grown now call p)
      (run-Grown calls p')
