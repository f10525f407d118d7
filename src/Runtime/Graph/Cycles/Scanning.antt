-- ===== src/Runtime/Graph/Cycles/Scanning.antt =====
-- The inner loop of the search, over the dependencies of one task.
use smorx.Prelude.{
  ℕ, ◌+◌, ◌≤◌, ◌<◌, ◌≡◌, refl, sym, subst, ap, ◌∙◌, String, ◌≢◌, ◌⊎◌, inl, inr, true, false, not,
  List, [], ◌∷◌, arith, length, filterb, contains, string_eq, ==-cases, ==-refl, Bool-cases,
  contains-cons_self, contains-cons_of_contains, contains-cons_cases,
}
use smorx.Runtime.Graph.{Scan, found, pending, scan}

-- How many of `xs` are not in `seen`.
abbrev pub missing : List String → List String → ℕ
missing xs seen = length (filterb (λ d. not (contains seen d)) xs)

pub missing-cons_le : (xs seen : List String) (d : String) → missing xs (d ∷ seen) ≤ missing xs seen
unfolding contains
missing-cons_le [] seen d = omega arith
missing-cons_le (x ∷ xs) seen d = ground (arith, missing-cons_le xs seen d)

missing-cons_lt :
    (xs seen : List String) (d : String)
    → contains xs d ≡ true
    → contains seen d ≡ false
    → missing xs (d ∷ seen) < missing xs seen
unfolding contains
missing-cons_lt [] seen d h fresh = cc
missing-cons_lt (x ∷ xs) seen d h fresh = elim (==-cases x d) [
  | inl (eq, same) ↦ ground (arith, ==-refl x, ==-refl d, missing-cons_le xs seen d)
  | inr (ne, differs) ↦ ground (arith, missing-cons_lt xs seen d)
]

-- What the scan of one task's dependencies leaves behind when it does not meet `task_id`.
pub record Scanned (task_id : String) (deps seen stack seen' stack' : List String) : Type 0 where
  pub keeps_seen : (x : String) → contains seen x ≡ true → contains seen' x ≡ true
  pub keeps_stack : (x : String) → contains stack x ≡ true → contains stack' x ≡ true
  pub marks : (x : String) → contains deps x ≡ true → (contains seen' x ≡ true) × (task_id ≢ x)
  pub only_new :
      (x : String) → contains seen' x ≡ true → (contains seen x ≡ true) ⊎ (contains stack' x ≡ true)
  pub pushed :
      (x : String) → contains stack' x ≡ true → (contains stack x ≡ true) ⊎ (contains deps x ≡ true)

pub contains-cons_eq : {d x : String} (xs : List String) → d ≡ x → contains (d ∷ xs) x ≡ true
contains-cons_eq {d} xs same =
    subst (λ y. contains (d ∷ xs) y ≡ true) same (contains-cons_self d xs)

Scanned-skip :
    (task_id : String) (dep : String) (deps seen stack : List String) {seen' stack' : List String}
    → dep ≢ task_id
    → contains seen dep ≡ true
    → Scanned task_id deps seen stack seen' stack'
    → Scanned task_id (dep ∷ deps) seen stack seen' stack'
Scanned-skip task_id dep deps seen stack {seen'} differs old ih = record {
  keeps_seen = ih.keeps_seen;
  keeps_stack = ih.keeps_stack;
  marks = λ x m. elim (contains-cons_cases dep deps x m) [
    | inl same ↦ (
      subst (λ y. contains seen' y ≡ true) same (ih.keeps_seen dep old),
      λ e. differs (same ∙ sym e),
    )
    | inr later ↦ ih.marks x later
  ];
  only_new = ih.only_new;
  pushed = λ x m. elim (ih.pushed x m) [
    | inl waiting ↦ inl waiting
    | inr listed ↦ inr (contains-cons_of_contains dep deps x listed)
  ];
}

Scanned-push :
    (task_id : String) (dep : String) (deps seen stack : List String) {seen' stack' : List String}
    → dep ≢ task_id
    → Scanned task_id deps (dep ∷ seen) (dep ∷ stack) seen' stack'
    → Scanned task_id (dep ∷ deps) seen stack seen' stack'
Scanned-push task_id dep deps seen stack differs ih = record {
  keeps_seen = λ x m. ih.keeps_seen x (contains-cons_of_contains dep seen x m);
  keeps_stack = λ x m. ih.keeps_stack x (contains-cons_of_contains dep stack x m);
  marks = λ x m. elim (contains-cons_cases dep deps x m) [
    | inl same ↦ (ih.keeps_seen x (contains-cons_eq seen same), λ e. differs (same ∙ sym e))
    | inr later ↦ ih.marks x later
  ];
  only_new = λ x m. elim (ih.only_new x m) [
    | inr waits ↦ inr waits
    | inl known ↦ elim (contains-cons_cases dep seen x known) [
      | inl same ↦ inr (ih.keeps_stack x (contains-cons_eq stack same))
      | inr before ↦ inl before
    ]
  ];
  pushed = λ x m. elim (ih.pushed x m) [
    | inr listed ↦ inr (contains-cons_of_contains dep deps x listed)
    | inl waiting ↦ elim (contains-cons_cases dep stack x waiting) [
      | inl same ↦ inr (contains-cons_eq deps same)
      | inr before ↦ inl before
    ]
  ];
}

pub scan-Scanned :
    (task_id : String) (deps seen stack : List String) {seen' stack' : List String}
    → scan task_id deps seen stack ≡ pending seen' stack'
    → Scanned task_id deps seen stack seen' stack'
unfolding scan contains
scan-Scanned task_id [] seen stack h = record {
  keeps_seen = λ x m. cc;
  keeps_stack = λ x m. cc;
  marks = λ x m. cc;
  only_new = λ x m. inl (cc);
  pushed = λ x m. inl (cc);
}
scan-Scanned task_id (dep ∷ deps) seen stack h = elim (==-cases dep task_id) [
  | inl (eq, same) ↦ cc (rw eq at h)
  | inr (ne, differs) ↦ elim (Bool-cases (contains seen dep)) [
    | inl old ↦
        Scanned-skip task_id dep deps seen stack differs old
          (scan-Scanned task_id deps seen stack (rw (ne, old) at h))
    | inr new ↦
        Scanned-push task_id dep deps seen stack differs
          (scan-Scanned task_id deps (dep ∷ seen) (dep ∷ stack) (rw (ne, new) at h))
  ]
]

-- A dependency that is pushed was missing, so what is missing and what waits fall together.
pub scan_measure :
    (task_id : String) (all deps seen stack : List String) {seen' stack' : List String}
    → ((x : String) → contains deps x ≡ true → contains all x ≡ true)
    → scan task_id deps seen stack ≡ pending seen' stack'
    → missing all seen' + length stack' ≤ missing all seen + length stack
unfolding scan
scan_measure task_id all [] seen stack {seen'} {stack'} within h =
    let known : seen ≡ seen' = cc in
    let waiting : stack ≡ stack' = cc in omega (arith, ap (missing all) known, ap length waiting)
scan_measure task_id all (dep ∷ deps) seen stack within h = elim (==-cases dep task_id) [
  | inl (eq, same) ↦ cc (rw eq at h)
  | inr (ne, differs) ↦ elim (Bool-cases (contains seen dep)) [
    | inl old ↦ scan_measure task_id all deps seen stack later (rw (ne, old) at h)
    | inr new ↦ omega (
      arith,
      missing-cons_lt all seen dep (within dep (contains-cons_self dep deps)) new,
      scan_measure task_id all deps (dep ∷ seen) (dep ∷ stack) later (rw (ne, new) at h),
    )
  ]
]
  where
    later : (x : String) → contains deps x ≡ true → contains all x ≡ true
    later x m = within x (contains-cons_of_contains dep deps x m)

-- `found` means that `task_id` is one of the dependencies.
pub scan_found :
    (task_id : String) (deps seen stack : List String)
    → scan task_id deps seen stack ≡ found
    → contains deps task_id ≡ true
unfolding scan contains
scan_found task_id [] seen stack h = cc
scan_found task_id (dep ∷ deps) seen stack h =
    ground (
      arith,
      scan_found task_id deps seen stack,
      scan_found task_id deps (dep ∷ seen) (dep ∷ stack),
    )

pub Scan-cases :
    (r : Scan) → (r ≡ found) ⊎ ((s : List String) × (k : List String) × (r ≡ pending s k))
Scan-cases found = inl refl
Scan-cases (pending s k) = inr (s, k, refl)
