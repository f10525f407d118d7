-- ===== src/Precode/Mapped.antt =====
-- Which maps are accepted, and that what is stored is read back.
use smorx.Prelude.{
  ◌≡◌, ◌↔◌, refl, sym, subst, String, ◌⊎◌, inl, inr, true, false, Option, List, [], ◌∷◌, map, arith,
  Bool-cases, anyb, filterb, All, contains, ◌==◌, string_eq, Result, ok, err, lookup, Returns,
  ==-refl,
}
use smorx.Precode.Rows.{ImpactRow, Store, impacts_of}
use smorx.Precode.Impact.{
  ImpactNode, ImpactRelationship, SemanticImpactMap, ImpactError, node_kinds, relations, is_blank,
  validate_nodes, validate_relationships, node_fields, relationship_fields, is_behavior,
  build_semantic_impact, new_row, save_row, nodes_of, relationships_of, map_from_row,
  get_semantic_impact,
}

-- No two nodes have one ref, and none has one of the others.
abbrev pub AreDistinct : List String → List ImpactNode → Type 0
AreDistinct seen [] = Unit
AreDistinct seen (n ∷ ns) = (contains seen n.ref ≡ false) × AreDistinct (n.ref ∷ seen) ns

abbrev pub IsNode : ImpactNode → Type 0
IsNode n = (contains node_kinds n.kind ≡ true) × (is_blank n.ref ≡ false)

abbrev pub refs_of : List ImpactNode → List String
refs_of nodes = map (λ n. n.ref) nodes

abbrev pub Links : List String → ImpactRelationship → Type 0
Links refs r =
    (contains relations r.relation ≡ true)
    × (contains refs r.source_ref ≡ true)
    × (contains refs r.target_ref ≡ true)

-- A map: nodes of the known kinds with distinct refs, relationships between them, and a behavior.
abbrev pub IsMap : List ImpactNode → List ImpactRelationship → Type 0
IsMap nodes relationships =
    All IsNode nodes
    × AreDistinct [] nodes
    × All (Links (refs_of nodes)) relationships
    × (anyb is_behavior nodes ≡ true)

abbrev pub IsAccepted : {A : Type 0} → Result ImpactError A → Type 0
IsAccepted r = Returns (λ a. Unit {0}) r

validate_nodes_sound :
    (seen : List String) (nodes : List ImpactNode)
    → validate_nodes seen nodes ≡ ok tt
    → All IsNode nodes × AreDistinct seen nodes
unfolding validate_nodes
validate_nodes_sound seen [] h = (tt, tt)
validate_nodes_sound seen (n ∷ ns) h = elim (Bool-cases (contains node_kinds n.kind)) [
  | inr unknown ↦ cc (rw unknown at h)
  | inl known ↦ elim (Bool-cases (is_blank n.ref)) [
    | inl blank ↦ cc (rw (known, blank) at h)
    | inr filled ↦ elim (Bool-cases (contains seen n.ref)) [
      | inl twice ↦ cc (rw (known, filled, twice) at h)
      | inr fresh ↦
          let (all, distinct) =
            validate_nodes_sound (n.ref ∷ seen) ns (rw (known, filled, fresh) at h) in
          (((known, filled), all), (fresh, distinct))
    ]
  ]
]

validate_nodes_complete :
    (seen : List String) (nodes : List ImpactNode)
    → All IsNode nodes
    → AreDistinct seen nodes
    → validate_nodes seen nodes ≡ ok tt
unfolding validate_nodes
validate_nodes_complete seen [] all distinct = refl
validate_nodes_complete seen (n ∷ ns) ((known, filled), all) (fresh, distinct) =
    rw (known, filled, fresh) (validate_nodes_complete (n.ref ∷ seen) ns all distinct)

validate_relationships_sound :
    (refs : List String) (rels : List ImpactRelationship)
    → validate_relationships refs rels ≡ ok tt
    → All (Links refs) rels
unfolding validate_relationships
validate_relationships_sound refs [] h = tt
validate_relationships_sound refs (r ∷ rs) h = elim (Bool-cases (contains relations r.relation)) [
  | inr unknown ↦ cc (rw unknown at h)
  | inl known ↦ elim (Bool-cases (contains refs r.source_ref)) [
    | inr lost ↦ cc (rw (known, lost) at h)
    | inl source ↦ elim (Bool-cases (contains refs r.target_ref)) [
      | inr lost ↦ cc (rw (known, source, lost) at h)
      | inl target ↦ (
        (known, source, target),
        validate_relationships_sound refs rs (rw (known, source, target) at h),
      )
    ]
  ]
]

validate_relationships_complete :
    (refs : List String) (rels : List ImpactRelationship)
    → All (Links refs) rels
    → validate_relationships refs rels ≡ ok tt
unfolding validate_relationships
validate_relationships_complete refs [] h = refl
validate_relationships_complete refs (r ∷ rs) ((known, source, target), h) =
    rw (known, source, target) (validate_relationships_complete refs rs h)

Unit-ok : (r : Result ImpactError (Unit {0})) → (r ≡ ok tt) ⊎ ((e : ImpactError) × (r ≡ err e))
Unit-ok (ok tt) = inl refl
Unit-ok (err e) = inr (e, refl)

-- `build_semantic_impact` accepts exactly the maps: every node has a known kind and a ref that is not
-- blank, no ref occurs twice, every relationship has a known relation and joins two of the nodes, and
-- there is a BEHAVIOR node.
pub build_semantic_impact-IsMap :
    (id task_id : String) (items : Option (List String)) (nodes : List ImpactNode)
    (rels : List ImpactRelationship) (description : Option String) (s : Store)
    → IsAccepted (build_semantic_impact id task_id items nodes rels description s)
      ↔ IsMap nodes rels
unfolding build_semantic_impact
build_semantic_impact-IsMap id task_id items nodes rels description s = (
  λ h. elim (Unit-ok (validate_nodes [] nodes)) [
    | inr (e, bad) ↦ absurd (rw bad at h)
    | inl good ↦ elim (Unit-ok (validate_relationships (refs_of nodes) rels)) [
      | inr (e, bad) ↦ absurd (rw (good, bad) at h)
      | inl linked ↦ elim (Bool-cases (anyb is_behavior nodes)) [
        | inr lacks ↦ absurd (rw (good, linked, lacks) at h)
        | inl behaves ↦
            let (all, distinct) = validate_nodes_sound [] nodes good in
            (all, distinct, validate_relationships_sound (refs_of nodes) rels linked, behaves)
      ]
    ]
  ],
  λ m.
      let (all, distinct, links, behaves) = m in
      rw
        (
          validate_nodes_complete [] nodes all distinct,
          validate_relationships_complete (refs_of nodes) rels links,
          behaves,
        )
        tt,
)

nodes_of-node_fields : (ns : List ImpactNode) → nodes_of (map node_fields ns) ≡ ok ns
unfolding nodes_of lookup
nodes_of-node_fields [] = refl
nodes_of-node_fields (n ∷ ns) = rw (nodes_of-node_fields ns) refl

relationships_of-relationship_fields :
    (rs : List ImpactRelationship) → relationships_of (map relationship_fields rs) ≡ ok rs
unfolding relationships_of lookup
relationships_of-relationship_fields [] = refl
relationships_of-relationship_fields (r ∷ rs) = rw (relationships_of-relationship_fields rs) refl

impacts_of-save_row :
    (row : ImpactRow) (rows : List ImpactRow)
    → filterb (λ r. r.task_id == row.task_id) rows ≡ []
    → filterb (λ r. r.task_id == row.task_id) (save_row row rows) ≡ row ∷ []
unfolding save_row
impacts_of-save_row row [] h = rw (==-refl row.task_id) refl
impacts_of-save_row row (r ∷ rs) h = elim (Bool-cases (r.task_id == row.task_id)) [
  | inl same ↦ cc (rw same at h)
  | inr differs ↦
      let rest = rw differs at h in
      ground (arith, differs, ==-refl row.task_id, rest, impacts_of-save_row row rs rest)
]

abbrev Reads : String → Store × SemanticImpactMap → Type 0
Reads task_id (s', m) =
    (get_semantic_impact task_id s' ≡ ok m) × (m.locked ≡ false) × (m.version ≡ 1)

built-Reads :
    (id task_id : String) (items : Option (List String)) (nodes : List ImpactNode)
    (rels : List ImpactRelationship) (description : Option String) (s : Store)
    → impacts_of task_id s ≡ []
    → IsMap nodes rels
    → Returns (Reads task_id) (build_semantic_impact id task_id items nodes rels description s)
unfolding build_semantic_impact get_semantic_impact map_from_row
built-Reads id task_id items nodes rels description s none_yet (all, distinct, links, behaves) =
    let row = new_row id task_id items nodes rels description in
    let saved : impacts_of task_id (record s { impacts = save_row row s.impacts }) ≡ row ∷ [] =
      impacts_of-save_row row s.impacts none_yet in
    rw
      (
        validate_nodes_complete [] nodes all distinct,
        validate_relationships_complete (refs_of nodes) rels links,
        behaves,
      )
      (
        rw (saved, get_semantic_impact)
            (rw (nodes_of-node_fields nodes, relationships_of-relationship_fields rels) refl),
        refl,
        refl,
      )

-- On a task that has no map yet, what `build_semantic_impact` returns is what
-- `get_semantic_impact` then reads back, unlocked and of version 1.
pub build_semantic_impact-get :
    (id task_id : String) (items : Option (List String)) (nodes : List ImpactNode)
    (rels : List ImpactRelationship) (description : Option String) (s s' : Store)
    (m : SemanticImpactMap)
    → impacts_of task_id s ≡ []
    → build_semantic_impact id task_id items nodes rels description s ≡ ok (s', m)
    → (get_semantic_impact task_id s' ≡ ok m) × (m.locked ≡ false) × (m.version ≡ 1)
build_semantic_impact-get id task_id items nodes rels description s s' m none_yet e =
    let accepted = subst IsAccepted (sym e) tt in
    let is_map =
      (build_semantic_impact-IsMap id task_id items nodes rels description s).0 accepted in
    subst (Returns (Reads task_id)) e
      (built-Reads id task_id items nodes rels description s none_yet is_map)
