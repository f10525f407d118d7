-- ===== src/Prelude/Dict.antt =====
-- Python's dict as the list of its items in insertion order, and the order of its strings.
use Prim.Native.String.{String, compare}
use text.Mathlib.Text.{is_le}
use mathlib.Core.Path.{◌≡◌, refl, ap, subst}
use mathlib.Core.Bool.{false}
use mathlib.Core.Option.{Option, none, some}
use mathlib.Core.List.{List, [], ◌∷◌}
use mathlib.Core.Logic.{inl, inr}
use native.Mathlib.Omega.{arith}
use smorx.Prelude.Tests.{if◌then◌else◌}
use smorx.Prelude.Equality.{◌==◌, string_eq, ==-cases}

module _ {ℓ} {V : Type ℓ} where
  -- d.get(k)
  unfoldable pub lookup : String → List (String × V) → Option V
  lookup k [] = none
  lookup k ((j, v) ∷ d) = if j == k then some v else lookup k d

  -- d[k] = v: a key that is there keeps its place.
  unfoldable pub insert : String → V → List (String × V) → List (String × V)
  insert k v [] = (k, v) ∷ []
  insert k v ((j, w) ∷ d) = if j == k then (j, v) ∷ d else (j, w) ∷ insert k v d

  pub lookup-insert :
      (k j : String) (v : V) (d : List (String × V))
      → lookup j (insert k v d) ≡ (if k == j then some v else lookup j d)
  unfolding lookup insert
  lookup-insert k j v [] = refl
  lookup-insert k j v ((i, w) ∷ d) = elim (==-cases i k) [
    | inl (eq, same) ↦ rw eq (ground (arith, ap (λ x. x == j) same))
    | inr (ne, differs) ↦ elim (==-cases k j) [
      | inl (hit, is_j) ↦
          let elsewhere = subst (λ x. (i == x) ≡ false) is_j ne in
          rw (ne, elsewhere) (lookup-insert k j v d)
      | inr (miss, _) ↦ ground (arith, ne, lookup-insert k j v d)
    ]
  ]

-- sorted(xs) of strings
unfoldable pub insert_sorted : String → List String → List String
insert_sorted x [] = x ∷ []
insert_sorted x (y ∷ ys) = if is_le (compare x y) then x ∷ y ∷ ys else y ∷ insert_sorted x ys

unfoldable pub sort : List String → List String
unfolding insert_sorted
sort [] = []
sort (x ∷ xs) = insert_sorted x (sort xs)
