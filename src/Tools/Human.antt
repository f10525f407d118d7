-- ===== src/Tools/Human.antt =====
-- packages/tools/src/smorx_tools/human.py. Times are microseconds; the clock's reading and a fresh id
-- are arguments, and a time to live below zero has no value here. A method that raises leaves the
-- plane as it is.
pub mod Lifecycle
mod Samples
use smorx.Prelude.{
  ℕ, ◌+◌, ◌*◌, String, Bool, true, false, not, ◌&&◌, ◌||◌, Option, none, some, List, [], ◌∷◌, ◌++◌,
  map, if◌then◌else◌, leb, nat_beq, filterb, last?, ◌==◌, string_eq, Result, ok, err,
}

pub data ControlState : Type 0 where
  running paused approval_required aborted completed : ControlState

pub data ApprovalStatus : Type 0 where
  pending approved denied expired : ApprovalStatus

pub data ApprovalError : Type 0 where
  cannot_pause cannot_resume : ApprovalError
  not_pending : String → ApprovalStatus → ApprovalError
  no_request : String → ApprovalError

pub record ApprovalRequest : Type 0 where
  pub approval_id : String
  pub requested_at : ℕ
  pub action_id : String
  pub tool_name : String
  pub reason : String
  pub status : ApprovalStatus
  pub expires_at : Option ℕ
  pub decided_at : Option ℕ
  pub decided_by : String

pub record HumanControlPlane : Type 0 where
  pub default_expiry_seconds : ℕ
  pub state : ControlState
  pub requests : List ApprovalRequest

abbrev pub new_plane : ℕ → HumanControlPlane
new_plane expiry = record { default_expiry_seconds = expiry; state = running; requests = [] }

abbrev pub is_aborted : ControlState → Bool
is_aborted aborted = true
is_aborted _ = false

abbrev pub is_paused_state : ControlState → Bool
is_paused_state paused = true
is_paused_state _ = false

abbrev pub is_running_state : ControlState → Bool
is_running_state running = true
is_running_state _ = false

abbrev pub is_pending_status : ApprovalStatus → Bool
is_pending_status pending = true
is_pending_status _ = false

abbrev pub is_approved_status : ApprovalStatus → Bool
is_approved_status approved = true
is_approved_status _ = false

unfoldable pub pause : HumanControlPlane → Result ApprovalError HumanControlPlane
pause p = if is_aborted p.state then err cannot_pause else ok (record p { state = paused })

unfoldable pub resume : HumanControlPlane → Result ApprovalError HumanControlPlane
resume p =
    if is_aborted p.state
    then err cannot_resume
    else if not (is_paused_state p.state)
    then ok p
    else ok (record p { state = running })

unfoldable pub abort : HumanControlPlane → HumanControlPlane
abort p = record p { state = aborted }

unfoldable pub is_paused : HumanControlPlane → Bool
is_paused p = is_paused_state p.state

unfoldable pub can_execute : HumanControlPlane → Bool
can_execute p = is_running_state p.state

unfoldable pub new_request :
    ℕ → String → String → String → String → Option ℕ → HumanControlPlane → ApprovalRequest
new_request now id action_id tool_name reason ttl_seconds p = record {
  approval_id = id;
  requested_at = now;
  action_id = action_id;
  tool_name = tool_name;
  reason = reason;
  status = pending;
  expires_at =
      some
        (now + (elim ttl_seconds [ none ↦ p.default_expiry_seconds | some ttl ↦ ttl ]) * 1000000);
  decided_at = none;
  decided_by = "";
}

unfoldable pub request_approval :
    ℕ
    → String
    → String
    → String
    → String
    → Option ℕ
    → HumanControlPlane
    → HumanControlPlane × ApprovalRequest
unfolding new_request
request_approval now id action_id tool_name reason ttl_seconds p =
    let request = new_request now id action_id tool_name reason ttl_seconds p in
    (record p { requests = p.requests ++ request ∷ [] }, request)

abbrev pub is_active : ApprovalStatus → Bool
is_active s = is_pending_status s || is_approved_status s

abbrev pub is_past : ℕ → Option ℕ → Bool
is_past now none = false
is_past now (some expiry) = leb expiry now

unfoldable pub prune_request : ℕ → ApprovalRequest → ApprovalRequest
prune_request now r =
    if is_active r.status && is_past now r.expires_at then record r { status = expired } else r

unfoldable pub prune : ℕ → HumanControlPlane → HumanControlPlane
unfolding prune_request
prune now p = record p { requests = map (prune_request now) p.requests }

abbrev pub is_for : String → String → ApprovalRequest → Bool
is_for action_id tool_name r = r.action_id == action_id && r.tool_name == tool_name

unfoldable pub approval_for :
    ℕ → String → String → HumanControlPlane → HumanControlPlane × Option ApprovalRequest
unfolding prune
approval_for now action_id tool_name p =
    let pruned = prune now p in
    (pruned, last? (filterb (is_for action_id tool_name) pruned.requests))

unfoldable pub pending_approvals : ℕ → HumanControlPlane → HumanControlPlane × List ApprovalRequest
unfolding prune
pending_approvals now p =
    let pruned = prune now p in (pruned, filterb (λ r. is_pending_status r.status) pruned.requests)

-- The loop of `_decide`: the list with the decided request, or the exception.
unfoldable pub decide_in :
    ℕ
    → String
    → ApprovalStatus
    → String
    → List ApprovalRequest
    → Result ApprovalError (List ApprovalRequest)
decide_in now id status by [] = err (no_request id)
decide_in now id status by (r ∷ rs) =
    let rest = decide_in now id status by rs in
    if not (r.approval_id == id)
    then elim rest [ err e ↦ err e | ok rs' ↦ ok (r ∷ rs') ]
    else if not (is_pending_status r.status)
    then err (not_pending id r.status)
    else ok (record r { status = status; decided_at = some now; decided_by = by } ∷ rs)

unfoldable pub decide :
    ℕ
    → String
    → ApprovalStatus
    → String
    → HumanControlPlane
    → Result ApprovalError HumanControlPlane
unfolding decide_in
decide now id status by p = elim (decide_in now id status by p.requests) [
  | err e ↦ err e
  | ok rs ↦ ok (record p { requests = rs })
]

unfoldable pub approve :
    ℕ → String → String → HumanControlPlane → Result ApprovalError HumanControlPlane
unfolding decide
approve now id by p = decide now id approved by p

unfoldable pub deny :
    ℕ → String → String → HumanControlPlane → Result ApprovalError HumanControlPlane
unfolding decide
deny now id by p = decide now id denied by p

unfoldable pub is_approved_for : ℕ → String → String → HumanControlPlane → HumanControlPlane × Bool
unfolding approval_for
is_approved_for now action_id tool_name p =
    let (p', found) = approval_for now action_id tool_name p in
    (p', elim found [ none ↦ false | some r ↦ is_approved_status r.status ])

-- The calls that change the plane.
pub data Call : Type 0 where
  pauses resumes aborts : Call
  requests : String → String → String → String → Option ℕ → Call
  asks : String → String → Call
  lists : Call
  approves denies : String → String → Call

-- The plane after a call; an exception leaves it as it is.
abbrev pub after_call :
    Result ApprovalError HumanControlPlane → HumanControlPlane → HumanControlPlane
after_call (ok p') p = p'
after_call (err e) p = p

unfoldable pub perform : ℕ → Call → HumanControlPlane → HumanControlPlane
unfolding pause resume abort request_approval approval_for pending_approvals approve deny
perform now pauses p = after_call (pause p) p
perform now resumes p = after_call (resume p) p
perform now aborts p = abort p
perform now (requests id action_id tool_name reason ttl) p =
    (request_approval now id action_id tool_name reason ttl p).0
perform now (asks action_id tool_name) p = (approval_for now action_id tool_name p).0
perform now lists p = (pending_approvals now p).0
perform now (approves id by) p = after_call (approve now id by p) p
perform now (denies id by) p = after_call (deny now id by p) p

unfoldable pub run : List (ℕ × Call) → HumanControlPlane → HumanControlPlane
unfolding perform
run [] p = p
run ((now, call) ∷ calls) p = run calls (perform now call p)
