-- ===== src/Tools/Tool/Registry.antt =====
-- What a registration does to the registry.
use smorx.Prelude.{
  ◌≡◌, refl, sym, ◌∙◌, ap, String, true, false, none, some, List, [], ◌∷◌, ◌++◌, map, if◌then◌else◌,
  contains, inl, inr, Bool-cases, Option-cases, ◌==◌, string_eq, ==-refl, Result, ok, err,
}
use smorx.Tools.Tool.{ToolSpec, ToolRegistry, get_from, get, is_known, register, names}

abbrev pub entry : ToolSpec → String × ToolSpec
entry spec = (spec.name, spec)

-- The dict has an entry for each spec of the list, in its order.
abbrev pub IsIndexed : ToolRegistry → Type 0
IsIndexed registry = registry.by_name ≡ map entry registry.specs

get_from-append :
    (name : String) (by_name : List (String × ToolSpec)) (spec : ToolSpec)
    → get_from name (by_name ++ (spec.name, spec) ∷ []) ≡ (
        if is_known (get_from name by_name)
        then get_from name by_name
        else if spec.name == name
        then some spec
        else none)
unfolding get_from
get_from-append name [] spec = refl
get_from-append name ((n, s) ∷ by_name) spec = elim (Bool-cases (n == name)) [
  | inl here ↦ rw here refl
  | inr there ↦ rw there (get_from-append name by_name spec)
]

map-entry-append :
    (specs : List ToolSpec) (spec : ToolSpec)
    → map entry (specs ++ spec ∷ []) ≡ map entry specs ++ (spec.name, spec) ∷ []
map-entry-append [] spec = refl
map-entry-append (s ∷ specs) spec = ap (λ rest. entry s ∷ rest) (map-entry-append specs spec)

is_known-contains :
    (name : String) (specs : List ToolSpec)
    → is_known (get_from name (map entry specs)) ≡ contains (map (λ s. s.name) specs) name
unfolding get_from contains
is_known-contains name [] = refl
is_known-contains name (s ∷ specs) = elim (Bool-cases (s.name == name)) [
  | inl here ↦ rw here refl
  | inr there ↦ rw there (is_known-contains name specs)
]

-- The registry after a registration: the list has the tool at its end, the dict still has the list's
-- entries, the tool's name finds it, and every other name finds what it found.
pub record IsRegistered (spec : ToolSpec) (before after : ToolRegistry) : Type 0 where
  pub listed : after.specs ≡ before.specs ++ spec ∷ []
  pub indexed : IsIndexed after
  pub found : get after spec.name ≡ some spec
  pub others_kept : (name : String) → (spec.name == name) ≡ false → get after name ≡ get before name

abbrev pub Registers : ToolSpec → ToolRegistry → Result String ToolRegistry → Type 0
Registers spec registry (err name) =
    (contains (names registry) spec.name ≡ true) × (name ≡ spec.name)
Registers spec registry (ok after) =
    (contains (names registry) spec.name ≡ false) × IsRegistered spec registry after

get_from-other :
    (name : String) (by_name : List (String × ToolSpec)) (spec : ToolSpec)
    → (spec.name == name) ≡ false
    → get_from name (by_name ++ (spec.name, spec) ∷ []) ≡ get_from name by_name
get_from-other name by_name spec other =
    get_from-append name by_name spec ∙ (elim (Option-cases (get_from name by_name)) [
      | inl absent ↦ rw (absent, other) refl
      | inr (s, present) ↦ rw present refl
    ])

get_from-own :
    (by_name : List (String × ToolSpec)) (spec : ToolSpec)
    → is_known (get_from spec.name by_name) ≡ false
    → get_from spec.name (by_name ++ (spec.name, spec) ∷ []) ≡ some spec
get_from-own by_name spec fresh =
    get_from-append spec.name by_name spec ∙ rw (fresh, ==-refl spec.name)

-- `register` raises exactly on a name that the registry has, and then with that name; otherwise the
-- tool is at the end of the list and under its name, and every other name finds what it found.
pub register-Registers :
    (spec : ToolSpec) (registry : ToolRegistry)
    → IsIndexed registry
    → Registers spec registry (register spec registry)
unfolding register get names
register-Registers spec registry indexed =
    let same : is_known (get_from spec.name registry.by_name)
        ≡ contains (names registry) spec.name =
      rw indexed (is_known-contains spec.name registry.specs) in
    elim (Bool-cases (is_known (get_from spec.name registry.by_name))) [
      | inl known ↦ rw known (sym same ∙ known, refl)
      | inr fresh ↦ rw fresh (
        sym same ∙ fresh,
        record {
          listed = refl;
          indexed =
              ap (λ entries. entries ++ (spec.name, spec) ∷ []) indexed
              ∙ sym (map-entry-append registry.specs spec);
          found = get_from-own registry.by_name spec fresh;
          others_kept = λ name other. get_from-other name registry.by_name spec other;
        },
      )
    ]
