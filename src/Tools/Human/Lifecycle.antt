-- ===== src/Tools/Human/Lifecycle.antt =====
-- The life of a request: it never disappears, keeps what it was made of, and its status only goes
-- from PENDING to a decision or to EXPIRED, and from APPROVED to EXPIRED.
pub mod Grown
use smorx.Prelude.{
  ℕ, ◌≤◌, ◌<◌, ◌≡◌, refl, sym, ◌∙◌, ap, subst, String, ◌⊎◌, inl, inr, Bool, true, false, not, ◌&&◌,
  ◌||◌, Option, none, some, List, [], ◌∷◌, ◌++◌, map, arith, Bool-cases, Option-cases,
  if◌then◌else◌, filterb, last?, All, leb, ◌==◌, string_eq, Result, ok, err,
}
use smorx.Tools.Human.{
  ControlState, running, aborted, ApprovalStatus, pending, approved, denied, expired,
  ApprovalRequest, HumanControlPlane, is_aborted, is_approved_status, is_active, is_past, is_for,
  prune_request, prune, approval_for, is_approved_for, can_execute, pause, resume, abort,
  request_approval, pending_approvals, decide, approve, deny, Call, after_call, perform, run,
}

-- An entry of a list with none after it that the test accepts.
pub record IsLast (q : ApprovalRequest → Bool) (rs : List ApprovalRequest) (r : ApprovalRequest)
    : Type 0 where
  pub before : List ApprovalRequest
  pub after : List ApprovalRequest
  pub split : rs ≡ before ++ r ∷ after
  pub accepted : q r ≡ true
  pub none_after : All (λ s. q s ≡ false) after

last?-none : (rs : List ApprovalRequest) → last? rs ≡ none → rs ≡ []
last?-none [] h = refl
last?-none (r ∷ []) h = cc
last?-none (r ∷ s ∷ rs) h = cc (last?-none (s ∷ rs) h)

last?-cons :
    (x : ApprovalRequest) (rs : List ApprovalRequest) (r : ApprovalRequest)
    → last? rs ≡ some r
    → last? (x ∷ rs) ≡ some r
last?-cons x [] r h = cc
last?-cons x (s ∷ rs) r h = h

-- The last accepted entry of a mapped list is the image of the last accepted one.
last?-map :
    (q : ApprovalRequest → Bool) (f : ApprovalRequest → ApprovalRequest)
    → ((r : ApprovalRequest) → q (f r) ≡ q r)
    → (rs : List ApprovalRequest)
    → (last? (filterb q (map f rs)) ≡ none) × All (λ s. q s ≡ false) rs
      ⊎ (r : ApprovalRequest) × IsLast q rs r × (last? (filterb q (map f rs)) ≡ some (f r))
last?-map q f kept [] = inl (refl, tt)
last?-map q f kept (x ∷ xs) = elim (last?-map q f kept xs) [
  | inr (r, l, e) ↦
      let l' : IsLast q (x ∷ xs) r = record {
        before = x ∷ l.before;
        after = l.after;
        split = ap (λ ys. x ∷ ys) l.split;
        accepted = l.accepted;
        none_after = l.none_after;
      } in
      inr (
        r,
        l',
        elim (Bool-cases (q (f x))) [
          | inl hit ↦ rw hit (last?-cons (f x) (filterb q (map f xs)) (f r) e)
          | inr miss ↦ rw miss e
        ],
      )
  | inl (e, none_left) ↦ elim (Bool-cases (q x)) [
    | inl hit ↦
        let l' : IsLast q (x ∷ xs) x = record {
          before = [];
          after = xs;
          split = refl;
          accepted = hit;
          none_after = none_left;
        } in
        inr (x, l', rw (kept x, hit, last?-none (filterb q (map f xs)) e))
    | inr miss ↦ inl (rw (kept x, miss) e, (miss, none_left))
  ]
]

is_for-prune_request :
    (now : ℕ) (a t : String) (r : ApprovalRequest) → is_for a t (prune_request now r) ≡ is_for a t r
unfolding prune_request
is_for-prune_request now a t r = ground arith

prune_request-approved :
    (now : ℕ) (r : ApprovalRequest)
    → is_approved_status (prune_request now r).status ≡ true
    → (is_approved_status r.status ≡ true) × (is_past now r.expires_at ≡ false)
unfolding prune_request
prune_request-approved now r h = ground arith

-- `is_approved_for` says yes only if the last request for the action and the tool is APPROVED and
-- its time is not over.
pub is_approved_for-IsLast :
    (now : ℕ) (action_id tool_name : String) (p : HumanControlPlane)
    → (is_approved_for now action_id tool_name p).1 ≡ true
    → (r : ApprovalRequest) × IsLast (is_for action_id tool_name) p.requests r
      × (is_approved_status r.status ≡ true)
      × (is_past now r.expires_at ≡ false)
unfolding is_approved_for
is_approved_for-IsLast now a t p h =
    elim (last?-map (is_for a t) (prune_request now) (is_for-prune_request now a t) p.requests) [
      | inl (e, _) ↦ cc (rw (e, is_approved_for) at h)
      | inr (r, l, e) ↦
          let (is_approved, alive) = prune_request-approved now r (rw (e, is_approved_for) at h) in
          (r, l, is_approved, alive)
    ]
