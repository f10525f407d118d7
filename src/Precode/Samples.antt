-- ===== src/Precode/Samples.antt =====
-- A map of a behavior and a file: what is rejected, what is stored, and its lock.
use smorx.Prelude.{
  ◌≡◌, ◌↔◌, refl, String, true, false, none, some, List, [], ◌∷◌, contains, lookup, string_eq, ok,
  err,
}
use smorx.Precode.Rows.{Store}
use smorx.Precode.Impact.{
  ImpactNode, ImpactRelationship, SemanticImpactMap, ImpactError, new_row, build_semantic_impact,
  get_semantic_impact, lock_semantic_impact, impacted_refs, protected_refs,
}
use smorx.Precode.Mapped.{IsAccepted, IsMap, build_semantic_impact-IsMap, build_semantic_impact-get}
use smorx.Precode.Locked.{Sealed, lock_semantic_impact-get}

abbrev node : String → String → ImpactNode
node kind ref = record { kind = kind; ref = ref; protected = false; note = "" }

abbrev nodes : List ImpactNode
nodes =
    record { kind = "BEHAVIOR"; ref = "refund"; protected = true; note = "" }
    ∷ node "FILE" "pay.py"
    ∷ []

abbrev relationship : String → String → ImpactRelationship
relationship source target = record {
  source_ref = source;
  relation = "IMPACTS";
  target_ref = target;
  rationale = "";
}

abbrev relationships : List ImpactRelationship
relationships = relationship "pay.py" "refund" ∷ []

abbrev no_rows : Store
no_rows = record { ledgers = []; plans = []; impacts = [] }

abbrev impact_map : SemanticImpactMap
impact_map = record {
  task_id = "t";
  semantic_impact_id = "m";
  version = 1;
  locked = false;
  status = "DRAFT";
  nodes = nodes;
  relationships = relationships;
}

abbrev with_map : Store
with_map = record no_rows { impacts = new_row "m" "t" none nodes relationships none ∷ [] }

built :
    build_semantic_impact "m" "t" none nodes relationships none no_rows ≡ ok (with_map, impact_map)
unfolding build_semantic_impact contains
built = refl

rejected_tests :
    (build_semantic_impact "m" "t" none (node "FILE" "a" ∷ []) [] none no_rows
      ≡ err ImpactError.no_behavior)
    × (build_semantic_impact "m" "t" none (node "BEHAVIOR" " " ∷ []) [] none no_rows
        ≡ err ImpactError.empty_ref)
    × (build_semantic_impact "m" "t" none
          (node "FILE" "a" ∷ node "RISK_ZONE" "a" ∷ [])
          []
          none
          no_rows
        ≡ err (ImpactError.duplicate_ref "a"))
    × (build_semantic_impact "m" "t" none nodes (relationship "refund" "x" ∷ []) none no_rows
        ≡ err (ImpactError.unknown_endpoint "refund" "x"))
unfolding build_semantic_impact contains
rejected_tests = (refl, refl, refl, refl)

refs_tests :
    (impacted_refs (some ("FILE" ∷ "COMPONENT" ∷ [])) impact_map ≡ "pay.py" ∷ [])
    × (protected_refs impact_map ≡ "refund" ∷ [])
unfolding impacted_refs protected_refs contains
refs_tests = (refl, refl)

build_semantic_impact-IsMap_example :
    IsAccepted (build_semantic_impact "m" "t" none nodes relationships none no_rows)
    ↔ IsMap nodes relationships
build_semantic_impact-IsMap_example =
    build_semantic_impact-IsMap "m" "t" none nodes relationships none no_rows

build_semantic_impact-get_example :
    (get_semantic_impact "t" with_map ≡ ok impact_map)
    × (impact_map.locked ≡ false)
    × (impact_map.version ≡ 1)
build_semantic_impact-get_example =
    build_semantic_impact-get "m" "t" none nodes relationships none no_rows with_map impact_map refl
      built

abbrev locked_map : SemanticImpactMap
locked_map = record impact_map { locked = true; status = "LOCKED" }

abbrev with_locked : Store
with_locked = record no_rows {
  impacts =
      record (new_row "m" "t" none nodes relationships none) { locked = true; status = "LOCKED" }
      ∷ [];
}

locks : lock_semantic_impact "t" with_map ≡ ok (with_locked, locked_map)
unfolding lock_semantic_impact lookup
locks = refl

-- The store with the map of another task.
abbrev with_two : Store
with_two = record no_rows {
  impacts = new_row "m" "t" none nodes relationships none ∷ new_row "n" "u" none nodes [] none ∷ [];
}

reads : get_semantic_impact "t" with_two ≡ ok impact_map
unfolding get_semantic_impact lookup
reads = refl

lock_semantic_impact-get_example : Sealed "t" "u" with_two impact_map
lock_semantic_impact-get_example = lock_semantic_impact-get "t" "u" with_two impact_map refl reads
