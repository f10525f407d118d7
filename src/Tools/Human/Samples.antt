-- ===== src/Tools/Human/Samples.antt =====
-- A plane with two requests, and the witnesses of the human gate.
use smorx.Prelude.{ℕ, ◌≡◌, refl, true, false, none, List, [], ◌∷◌}
use smorx.Tools.Human.{
  ApprovalRequest, HumanControlPlane, new_plane, is_for, is_approved_status, is_past,
  is_approved_for, Call, requests, asks, approves, denies, run,
}
use smorx.Tools.Human.Lifecycle.{IsLast, is_approved_for-IsLast}
use smorx.Tools.Human.Lifecycle.Grown.{Grown, run-Grown}

abbrev calls : List (ℕ × Call)
calls =
    (0, requests "one" "a" "repo.write" "" none)
    ∷ (1, requests "two" "a" "repo.write" "" none)
    ∷ (2, approves "two" "me")
    ∷ (3, approves "two" "you")
    ∷ (4, denies "none" "me")
    ∷ []

abbrev plane : HumanControlPlane
unfolding run
plane = run calls (new_plane 10)

-- The approval holds until ten seconds after the request.
is_approved_for_tests :
    ((is_approved_for 10000000 "a" "repo.write" plane).1 ≡ true)
    × ((is_approved_for 10000001 "a" "repo.write" plane).1 ≡ false)
unfolding plane is_approved_for
is_approved_for_tests = (refl, refl)

run-Grown_example :
    Grown plane.requests (run ((10000001, asks "a" "repo.write") ∷ []) plane).requests
run-Grown_example = run-Grown ((10000001, asks "a" "repo.write") ∷ []) plane

is_approved_for-IsLast_example :
    (r : ApprovalRequest) × IsLast (is_for "a" "repo.write") plane.requests r
    × (is_approved_status r.status ≡ true)
    × (is_past 10000000 r.expires_at ≡ false)
is_approved_for-IsLast_example =
    is_approved_for-IsLast 10000000 "a" "repo.write" plane is_approved_for_tests.0
