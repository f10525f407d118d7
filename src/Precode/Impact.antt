-- ===== src/Precode/Impact.antt =====
-- packages/precode/src/smorx_precode/impact.py. The id of a new row is an argument; a table is kept in
-- the order of its primary keys, and a call that raises is rolled back. The
-- tasks and the intent items that a row refers to are taken to be there.
use Prim.Native.Char.{code}
use Prim.Native.String.{compare}
use package.text.Mathlib.Text.{is_le}
use smorx.Prelude.{
  ℕ, String, Bool, true, false, not, ◌&&◌, ◌||◌, Option, none, some, List, [], ◌∷◌, map,
  if◌then◌else◌, anyb, filterb, contains, ◌==◌, string_eq, lookup, Result, ok, err, ◌>>=◌, ◌>>◌,
  guard,
}
use smorx.Certification.Alignment.{is_space}
use smorx.Precode.Rows.{Scalar, text, flag, Fields, ImpactRow, Store, impacts_of}

pub record ImpactNode : Type 0 where
  pub kind : String
  pub ref : String
  pub protected : Bool
  pub note : String

pub record ImpactRelationship : Type 0 where
  pub source_ref : String
  pub relation : String
  pub target_ref : String
  pub rationale : String

pub record SemanticImpactMap : Type 0 where
  pub task_id : String
  pub semantic_impact_id : String
  pub version : ℕ
  pub locked : Bool
  pub status : String
  pub nodes : List ImpactNode
  pub relationships : List ImpactRelationship

abbrev pub in_kinds : Option (List String) → ImpactNode → Bool
in_kinds none node = true
in_kinds (some kinds) node = contains kinds node.kind

unfoldable pub impacted_refs : Option (List String) → SemanticImpactMap → List String
unfolding contains
impacted_refs kinds m = map (λ n. n.ref) (filterb (in_kinds kinds) m.nodes)

unfoldable pub protected_refs : SemanticImpactMap → List String
protected_refs m = map (λ n. n.ref) (filterb (λ n. n.protected) m.nodes)

abbrev pub node_kinds : List String
node_kinds =
    "BEHAVIOR" ∷ "COMPONENT" ∷ "FILE" ∷ "DEPENDENCY" ∷ "DATA_FLOW" ∷ "RISK_ZONE" ∷ "GHOST" ∷ []

abbrev pub relations : List String
relations = "IMPACTS" ∷ "DEPENDS_ON" ∷ "FLOWS_INTO" ∷ "PROTECTS" ∷ "HISTORY_FOR" ∷ []

pub data ImpactError : Type 0 where
  unknown_kind : String → ImpactError
  empty_ref : ImpactError
  duplicate_ref : String → ImpactError
  unknown_relation : String → ImpactError
  unknown_endpoint : String → String → ImpactError
  no_behavior : ImpactError
  no_map : String → ImpactError
  missing_key : String → ImpactError

-- not s.strip()
unfoldable pub is_blank : String → Bool
is_blank String.[] = true
is_blank (String.◌∷◌ c s) = is_space (code c) && is_blank s

-- The loop over the nodes, from the refs that were seen.
unfoldable pub validate_nodes : List String → List ImpactNode → Result ImpactError (Unit {0})
unfolding is_blank contains
validate_nodes seen [] = ok tt
validate_nodes seen (node ∷ nodes) =
    let rest = validate_nodes (node.ref ∷ seen) nodes in
    if not (contains node_kinds node.kind)
    then err (unknown_kind node.kind)
    else if is_blank node.ref
    then err empty_ref
    else if contains seen node.ref
    then err (duplicate_ref node.ref)
    else rest

unfoldable pub validate_relationships :
    List String → List ImpactRelationship → Result ImpactError (Unit {0})
unfolding contains
validate_relationships refs [] = ok tt
validate_relationships refs (rel ∷ rels) =
    let rest = validate_relationships refs rels in
    if not (contains relations rel.relation)
    then err (unknown_relation rel.relation)
    else if not (contains refs rel.source_ref) || not (contains refs rel.target_ref)
    then err (unknown_endpoint rel.source_ref rel.target_ref)
    else rest

-- as_dict
abbrev pub node_fields : ImpactNode → Fields
node_fields n =
    ("kind", text n.kind)
    ∷ ("ref", text n.ref)
    ∷ ("protected", flag n.protected)
    ∷ ("note", text n.note)
    ∷ []

abbrev pub relationship_fields : ImpactRelationship → Fields
relationship_fields r =
    ("source_ref", text r.source_ref)
    ∷ ("relation", text r.relation)
    ∷ ("target_ref", text r.target_ref)
    ∷ ("rationale", text r.rationale)
    ∷ []

abbrev pub is_behavior : ImpactNode → Bool
is_behavior n = n.kind == "BEHAVIOR"

abbrev pub is_artifact : ImpactNode → Bool
is_artifact n = n.kind == "FILE" || n.kind == "COMPONENT"

abbrev pub first_item : Option (List String) → Option String
first_item none = none
first_item (some []) = none
first_item (some (id ∷ ids)) = some id

-- A new row, at its place among the primary keys.
unfoldable pub save_row : ImpactRow → List ImpactRow → List ImpactRow
save_row row [] = row ∷ []
save_row row (r ∷ rs) = if is_le (compare row.id r.id) then row ∷ r ∷ rs else r ∷ save_row row rs

abbrev pub new_row :
    String
    → String
    → Option (List String)
    → List ImpactNode
    → List ImpactRelationship
    → Option String
    → ImpactRow
new_row id task_id intent_items nodes relationships description = record {
  id = id;
  task_id = task_id;
  intent_item_id = first_item intent_items;
  description = description;
  scope_nodes = map node_fields nodes;
  scope_relationships = map relationship_fields relationships;
  impacted_behaviors = map (λ n. n.ref) (filterb is_behavior nodes);
  impacted_artifacts = map (λ n. n.ref) (filterb is_artifact nodes);
  status = "DRAFT";
  version = 1;
  locked = false;
}

unfoldable pub build_semantic_impact :
    String
    → String
    → Option (List String)
    → List ImpactNode
    → List ImpactRelationship
    → Option String
    → Store
    → Result ImpactError (Store × SemanticImpactMap)
unfolding validate_nodes validate_relationships save_row
build_semantic_impact id task_id intent_items nodes relationships description s = do
  validate_nodes [] nodes
  validate_relationships (map (λ n. n.ref) nodes) relationships
  guard (anyb is_behavior nodes) no_behavior
  ok (
    record s {
      impacts =
          save_row (new_row id task_id intent_items nodes relationships description) s.impacts;
    },
    record {
      task_id = task_id;
      semantic_impact_id = id;
      version = 1;
      locked = false;
      status = "DRAFT";
      nodes = nodes;
      relationships = relationships;
    },
  )

-- str(d[key]), where the value is a text.
abbrev pub required : String → Option Scalar → Result ImpactError String
required key (some (text t)) = ok t
required key (some (flag true)) = ok "True"
required key (some (flag false)) = ok "False"
required key none = err (missing_key key)

-- str(d.get(key, ""))
abbrev pub optional : Option Scalar → String
optional (some (text t)) = t
optional (some (flag true)) = "True"
optional (some (flag false)) = "False"
optional none = ""

-- bool(d.get(key, False))
abbrev pub is_true : Option Scalar → Bool
is_true (some (flag b)) = b
is_true (some (text t)) = not (t == "")
is_true none = false

unfoldable pub node_of : Fields → Result ImpactError ImpactNode
unfolding lookup
node_of d = do
  kind ← required "kind" (lookup "kind" d)
  ref ← required "ref" (lookup "ref" d)
  ok (record {
    kind = kind;
    ref = ref;
    protected = is_true (lookup "protected" d);
    note = optional (lookup "note" d);
  })

unfoldable pub relationship_of : Fields → Result ImpactError ImpactRelationship
unfolding lookup
relationship_of d = do
  source ← required "source_ref" (lookup "source_ref" d)
  relation ← required "relation" (lookup "relation" d)
  target ← required "target_ref" (lookup "target_ref" d)
  ok (record {
    source_ref = source;
    relation = relation;
    target_ref = target;
    rationale = optional (lookup "rationale" d);
  })

unfoldable pub nodes_of : List Fields → Result ImpactError (List ImpactNode)
unfolding node_of
nodes_of [] = ok []
nodes_of (d ∷ ds) = node_of d >>= λ n. nodes_of ds >>= λ ns. ok (n ∷ ns)

unfoldable pub relationships_of : List Fields → Result ImpactError (List ImpactRelationship)
unfolding relationship_of
relationships_of [] = ok []
relationships_of (d ∷ ds) = relationship_of d >>= λ r. relationships_of ds >>= λ rs. ok (r ∷ rs)

unfoldable pub map_from_row : ImpactRow → Result ImpactError SemanticImpactMap
unfolding nodes_of relationships_of
map_from_row row = do
  nodes ← nodes_of row.scope_nodes
  relationships ← relationships_of row.scope_relationships
  ok (record {
    task_id = row.task_id;
    semantic_impact_id = row.id;
    version = row.version;
    locked = row.locked;
    status = row.status;
    nodes = nodes;
    relationships = relationships;
  })

unfoldable pub get_semantic_impact : String → Store → Result ImpactError SemanticImpactMap
unfolding map_from_row
get_semantic_impact task_id s = elim (impacts_of task_id s) [
  | [] ↦ err (no_map task_id)
  | row ∷ rows ↦ map_from_row row
]

-- versioning_lock, with the status of the map.
abbrev pub locked_row : ImpactRow → ImpactRow
locked_row row = if row.locked then row else record row { locked = true; status = "LOCKED" }

-- The first row of the task is the one that is locked.
unfoldable pub lock_first : String → List ImpactRow → List ImpactRow
lock_first task_id [] = []
lock_first task_id (row ∷ rows) =
    if row.task_id == task_id then locked_row row ∷ rows else row ∷ lock_first task_id rows

unfoldable pub lock_semantic_impact :
    String → Store → Result ImpactError (Store × SemanticImpactMap)
unfolding map_from_row lock_first
lock_semantic_impact task_id s = elim (impacts_of task_id s) [
  | [] ↦ err (no_map task_id)
  | row ∷ rows ↦ map_from_row (locked_row row) >>= λ m.
      ok (record s { impacts = lock_first task_id s.impacts }, m)
]
