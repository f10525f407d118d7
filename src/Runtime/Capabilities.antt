-- ===== src/Runtime/Capabilities.antt =====
-- packages/agent-runtime/src/smorx_runtime/capabilities.py: the catalog of the specialists. The
-- descriptions, which nothing reads, are left out; a dict lookup cannot fail, since every capability
-- has its entry.
mod Samples
use smorx.Prelude.{String, Bool, ◌||◌, List, [], ◌∷◌, map, is_empty, filterb, contains, string_eq}
use smorx.Runtime.Graph.{
  SpecialistCapability, archaeology, knowledge, intent, impact, coding, verification, evidence,
  repair, certification,
}

pub record AgentCapability : Type 0 where
  pub capability : SpecialistCapability
  pub allowed_tool_prefixes : List String
  pub required_for_phase : List String

abbrev entry : SpecialistCapability → List String → List String → AgentCapability
entry capability prefixes phases = record {
  capability = capability;
  allowed_tool_prefixes = prefixes;
  required_for_phase = phases;
}

-- CAPABILITY_CATALOG[name]
unfoldable pub capability_for : SpecialistCapability → AgentCapability
capability_for archaeology =
    entry archaeology ("evidence." ∷ "file.read" ∷ "repository.inspect" ∷ "command.run" ∷ [])
      ("6" ∷ "9" ∷ "10" ∷ [])
capability_for knowledge =
    entry knowledge ("file.read" ∷ "repository.inspect" ∷ "web." ∷ "contracts." ∷ []) []
capability_for intent =
    entry intent ("file.read" ∷ "repository.inspect" ∷ "contracts." ∷ "evidence." ∷ []) ("10" ∷ [])
capability_for impact =
    entry impact ("file.read" ∷ "repository.inspect" ∷ "evidence." ∷ "graph." ∷ []) ("7" ∷ [])
capability_for coding =
    entry coding ("file." ∷ "command.run" ∷ "test.run" ∷ "sandbox." ∷ []) ("8" ∷ [])
capability_for verification =
    entry verification ("test.run" ∷ "command.run" ∷ "evidence." ∷ "verify." ∷ []) ("9" ∷ "11" ∷ [])
capability_for evidence = entry evidence ("evidence." ∷ "file.read" ∷ []) []
capability_for repair =
    entry repair ("file." ∷ "command.run" ∷ "test.run" ∷ "sandbox." ∷ []) ("10" ∷ [])
capability_for certification =
    entry certification ("evidence." ∷ "certificate." ∷ "repository.inspect" ∷ "contracts." ∷ [])
      ("11" ∷ [])

-- CAPABILITY_CATALOG.values()
unfoldable pub capability_catalog : List AgentCapability
unfolding capability_for
capability_catalog = map capability_for (
    archaeology ∷ knowledge ∷ intent ∷ impact ∷ coding ∷ verification ∷ evidence ∷ repair
    ∷ certification ∷ [])

abbrev is_for_phase : String → AgentCapability → Bool
is_for_phase phase e = is_empty e.required_for_phase || contains e.required_for_phase phase

unfoldable pub capabilities_for_phase : String → List SpecialistCapability
unfolding capability_catalog contains
capabilities_for_phase phase =
    map (λ e. e.capability) (filterb (is_for_phase phase) capability_catalog)
