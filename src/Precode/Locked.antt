-- ===== src/Precode/Locked.antt =====
-- What the lock of an impact map keeps.
use smorx.Prelude.{
  ◌≡◌, refl, sym, ◌∙◌, ap, String, inl, inr, Bool, true, false, List, [], ◌∷◌, arith, Bool-cases,
  filterb, ◌==◌, string_eq, ok, ==-cases, if◌then◌else◌, List-cases, Result-cases,
}
use smorx.Precode.Rows.{ImpactRow, Store, impacts_of}
use smorx.Precode.Impact.{
  ImpactNode, ImpactRelationship, SemanticImpactMap, nodes_of, relationships_of, map_from_row,
  get_semantic_impact, locked_row, lock_first, lock_semantic_impact,
}

filterb-hit {ℓ} :
    {A : Type ℓ} (p : A → Bool) (x : A) (xs : List A)
    → p x ≡ true
    → filterb p (x ∷ xs) ≡ x ∷ filterb p xs
filterb-hit p x xs h = rw h refl

filterb-miss {ℓ} :
    {A : Type ℓ} (p : A → Bool) (x : A) (xs : List A)
    → p x ≡ false
    → filterb p (x ∷ xs) ≡ filterb p xs
filterb-miss p x xs h = rw h refl

lock_first-hit :
    (task_id : String) (r : ImpactRow) (rs : List ImpactRow)
    → (r.task_id == task_id) ≡ true
    → lock_first task_id (r ∷ rs) ≡ locked_row r ∷ rs
unfolding lock_first
lock_first-hit task_id r rs h = ground (arith, h)

locked_row-locked : (row : ImpactRow) → (locked_row row).locked ≡ true
locked_row-locked row = elim (Bool-cases row.locked) [
  | inl already ↦ ground (arith, already)
  | inr open_ ↦ ground (arith, open_)
]

locked_row-locked_row : (row : ImpactRow) → locked_row (locked_row row) ≡ locked_row row
locked_row-locked_row row = ground (arith, locked_row-locked row)

locked_row-task : (row : ImpactRow) → (locked_row row).task_id ≡ row.task_id
locked_row-task row = ground arith

-- The first row of the task is locked, and then stays as it is.
impacts_of-lock_first :
    (task_id : String) (rows : List ImpactRow) (row : ImpactRow) (rest : List ImpactRow)
    → filterb (λ r. r.task_id == task_id) rows ≡ row ∷ rest
    → filterb (λ r. r.task_id == task_id) (lock_first task_id rows) ≡ locked_row row ∷ rest
unfolding lock_first
impacts_of-lock_first task_id [] row rest h = cc
impacts_of-lock_first task_id (r ∷ rs) row rest h = elim (Bool-cases (r.task_id == task_id)) [
  | inr differs ↦
      rw (differs, differs) (impacts_of-lock_first task_id rs row rest (rw differs at h))
  | inl same ↦
      let whole : r ∷ filterb (λ x. x.task_id == task_id) rs ≡ row ∷ rest = rw same at h in
      let head : r ≡ row = cc in
      let tail : filterb (λ x. x.task_id == task_id) rs ≡ rest = cc in
      let kept = ap (λ x. x == task_id) (locked_row-task r) ∙ same in
      rw same (
        filterb-hit (λ x. x.task_id == task_id) (locked_row r) rs kept
        ∙ ap (λ x. locked_row x ∷ filterb (λ y. y.task_id == task_id) rs) head
        ∙ ap (λ xs. locked_row row ∷ xs) tail)
]

lock_first_twice :
    (task_id : String) (rows : List ImpactRow)
    → lock_first task_id (lock_first task_id rows) ≡ lock_first task_id rows
unfolding lock_first
lock_first_twice task_id [] = refl
lock_first_twice task_id (r ∷ rs) = elim (Bool-cases (r.task_id == task_id)) [
  | inr differs ↦ rw (differs, differs) (ap (λ xs. r ∷ xs) (lock_first_twice task_id rs))
  | inl same ↦
      let kept = ap (λ x. x == task_id) (locked_row-task r) ∙ same in
      rw same
        (lock_first-hit task_id (locked_row r) rs kept ∙ ap (λ x. x ∷ rs) (locked_row-locked_row r))
]

-- A map as its lock leaves it: only the lock and the status change.
abbrev pub sealed : SemanticImpactMap → SemanticImpactMap
sealed m = if m.locked then m else record m { locked = true; status = "LOCKED" }

abbrev map_of : ImpactRow → List ImpactNode → List ImpactRelationship → SemanticImpactMap
map_of row ns rs = record {
  task_id = row.task_id;
  semantic_impact_id = row.id;
  version = row.version;
  locked = row.locked;
  status = row.status;
  nodes = ns;
  relationships = rs;
}

map_from_row-map_of :
    (row : ImpactRow) (ns : List ImpactNode) (rs : List ImpactRelationship)
    → nodes_of row.scope_nodes ≡ ok ns
    → relationships_of row.scope_relationships ≡ ok rs
    → map_from_row row ≡ ok (map_of row ns rs)
unfolding map_from_row
map_from_row-map_of row ns rs read joined = rw (read, joined, map_from_row) refl

map_of-locked_row :
    (row : ImpactRow) (ns : List ImpactNode) (rs : List ImpactRelationship)
    → map_of (locked_row row) ns rs ≡ sealed (map_of row ns rs)
map_of-locked_row row ns rs = ground arith

locked_row-scope :
    (row : ImpactRow)
    → ((locked_row row).scope_nodes ≡ row.scope_nodes)
      × ((locked_row row).scope_relationships ≡ row.scope_relationships)
locked_row-scope row = (ground arith, ground arith)

map_from_row-locked_row :
    (row : ImpactRow) (m : SemanticImpactMap)
    → map_from_row row ≡ ok m
    → map_from_row (locked_row row) ≡ ok (sealed m)
unfolding map_from_row
map_from_row-locked_row row m e = elim (Result-cases (nodes_of row.scope_nodes)) [
  | inr (x, bad) ↦ cc (rw (bad, map_from_row) at e)
  | inl (ns, read) ↦ elim (Result-cases (relationships_of row.scope_relationships)) [
    | inr (x, bad) ↦ cc (rw (read, bad, map_from_row) at e)
    | inl (rs, joined) ↦
        let from : map_of row ns rs ≡ m = cc (map_from_row-map_of row ns rs read joined, e) in
        let (nodes, links) = locked_row-scope row in
        map_from_row-map_of (locked_row row) ns rs (ap nodes_of nodes ∙ read)
          (ap relationships_of links ∙ joined)
        ∙ ap ok (map_of-locked_row row ns rs ∙ ap sealed from)
  ]
]

-- The maps of the other tasks.
impacts_of-lock_first_other :
    (task_id other : String) (rows : List ImpactRow)
    → (task_id == other) ≡ false
    → filterb (λ r. r.task_id == other) (lock_first task_id rows)
      ≡ filterb (λ r. r.task_id == other) rows
unfolding lock_first
impacts_of-lock_first_other task_id other [] h = refl
impacts_of-lock_first_other task_id other (r ∷ rs) h = elim (==-cases r.task_id task_id) [
  | inr (e, _) ↦ rw e (ground (arith, impacts_of-lock_first_other task_id other rs h))
  | inl (e, eq) ↦
      let left : (r.task_id == other) ≡ false = ap (λ x. x == other) eq ∙ h in
      let kept : ((locked_row r).task_id == other) ≡ false =
        ap (λ x. x == other) (locked_row-task r) ∙ left in
      rw e (
        filterb-miss (λ x. x.task_id == other) (locked_row r) rs kept
        ∙ sym (filterb-miss (λ x. x.task_id == other) r rs left))
]

abbrev pub Sealed : String → String → Store → SemanticImpactMap → Type 0
Sealed task_id other s m =
    (s' : Store) × (lock_semantic_impact task_id s ≡ ok (s', sealed m))
    × (get_semantic_impact task_id s' ≡ ok (sealed m))
    × (lock_semantic_impact task_id s' ≡ ok (s', sealed m))
    × (get_semantic_impact other s' ≡ get_semantic_impact other s)

get_semantic_impact-of :
    (task_id : String) (s : Store) (row : ImpactRow) (rest : List ImpactRow)
    → impacts_of task_id s ≡ row ∷ rest
    → get_semantic_impact task_id s ≡ map_from_row row
unfolding get_semantic_impact
get_semantic_impact-of task_id s row rest there = rw (there, get_semantic_impact) refl

lock_semantic_impact-of :
    (task_id : String) (s : Store) (row : ImpactRow) (rest : List ImpactRow) (m : SemanticImpactMap)
    → impacts_of task_id s ≡ row ∷ rest
    → map_from_row (locked_row row) ≡ ok m
    → lock_semantic_impact task_id s ≡ ok (record s { impacts = lock_first task_id s.impacts }, m)
unfolding lock_semantic_impact
lock_semantic_impact-of task_id s row rest m there good =
    rw (there, good, lock_semantic_impact) refl

-- Where the map of a task can be read, `lock_semantic_impact` returns that map with its lock set and
-- its status LOCKED, or as it is if it was locked; reading the task's map then gives the same, locking
-- it again changes neither the store nor the map, and what is read for any other task stays.
pub lock_semantic_impact-get :
    (task_id other : String) (s : Store) (m : SemanticImpactMap)
    → (task_id == other) ≡ false
    → get_semantic_impact task_id s ≡ ok m
    → Sealed task_id other s m
unfolding get_semantic_impact
lock_semantic_impact-get task_id other s m differs e = elim (List-cases (impacts_of task_id s)) [
  | inl nothing ↦ cc (rw (nothing, get_semantic_impact) at e)
  | inr (row, rest, there) ↦
      let s' : Store = record s { impacts = lock_first task_id s.impacts } in
      let sealed_row =
        map_from_row-locked_row row m (sym (get_semantic_impact-of task_id s row rest there) ∙ e) in
      let first : impacts_of task_id s' ≡ locked_row row ∷ rest =
        impacts_of-lock_first task_id s.impacts row rest there in
      let others : impacts_of other s' ≡ impacts_of other s =
        impacts_of-lock_first_other task_id other s.impacts differs in
      (
        s',
        lock_semantic_impact-of task_id s row rest (sealed m) there sealed_row,
        get_semantic_impact-of task_id s' (locked_row row) rest first ∙ sealed_row,
        lock_semantic_impact-of task_id s' (locked_row row) rest (sealed m) first
              (ap map_from_row (locked_row-locked_row row) ∙ sealed_row)
            ∙ ap (λ xs. ok (record s { impacts = xs }, sealed m))
                (lock_first_twice task_id s.impacts),
        rw (others, get_semantic_impact) refl,
      )
]
