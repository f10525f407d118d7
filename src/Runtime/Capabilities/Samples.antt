-- ===== src/Runtime/Capabilities/Samples.antt =====
-- The specialists of a phase.
use smorx.Prelude.{◌≡◌, refl, [], ◌∷◌, string_eq}
use smorx.Runtime.Graph.{knowledge, evidence, verification, certification, archaeology}
use smorx.Runtime.Capabilities.{capabilities_for_phase}

for_phase_tests :
    (capabilities_for_phase "11" ≡ knowledge ∷ verification ∷ evidence ∷ certification ∷ [])
    × (capabilities_for_phase "9" ≡ archaeology ∷ knowledge ∷ verification ∷ evidence ∷ [])
unfolding capabilities_for_phase
for_phase_tests = (refl, refl)
