-- ===== src/Prelude/Equality.antt =====
-- Python's `==` and `in`: an interface for decided equality, and membership in a sequence or set.
use Prim.Native.Nat.{ℕ}
use Prim.Native.String.{String}
use text.Mathlib.Text.{◌==◌ as str_eq}
use text.Mathlib.TextEquality.{eq_iff}
use mathlib.Core.Path.{◌≡◌, refl, sym}
use mathlib.Core.Logic.{◌≢◌, ◌↔◌, ◌⊎◌, inl, inr}
use mathlib.Core.Bool.{Bool, true, false, ◌||◌}
use mathlib.Core.List.{List, [], ◌∷◌, ◌++◌}
use native.Mathlib.Omega.{arith}
use smorx.Prelude.Tests.{nat_beq, nat_beq_iff, Bool-cases}

pub record Eq {ℓ} (A : Type ℓ) : Type ℓ where
  pub test : A → A → Bool
  pub decides : (a b : A) → (test a b ≡ true) ↔ (a ≡ b)

infix 50 ◌==◌
abbrev pub ◌==◌ {ℓ} : {A : Type ℓ} ⦃e : Eq A⦄ → A → A → Bool
◌==◌ ⦃e⦄ = e.test

instance abbrev pub nat_eq : Eq ℕ
nat_eq = record { test = nat_beq; decides = nat_beq_iff }

instance abbrev pub string_eq : Eq String
string_eq = record { test = str_eq; decides = eq_iff }

module _ {ℓ} {A : Type ℓ} ⦃e : Eq A⦄ where
  pub ==-refl : (a : A) → (a == a) ≡ true
  ==-refl a = (e.decides a a).1 refl

  pub eq_of_beq : (a b : A) → (a == b) ≡ true → a ≡ b
  eq_of_beq a b h = (e.decides a b).0 h

  pub ne_of_beq : (a b : A) → (a == b) ≡ false → a ≢ b
  ne_of_beq a b h same = cc ((e.decides a b).1 same)

  -- To split on a comparison and keep what it says of the values.
  pub ==-cases : (a b : A) → ((a == b) ≡ true) × (a ≡ b) ⊎ ((a == b) ≡ false) × (a ≢ b)
  ==-cases a b = elim (Bool-cases (a == b)) [
    | inl h ↦ inl (h, eq_of_beq a b h)
    | inr h ↦ inr (h, ne_of_beq a b h)
  ]

  pub ==-comm : (a b : A) → (a == b) ≡ (b == a)
  ==-comm a b = elim (==-cases a b) [
    | inl (h, same) ↦ rw (h, (e.decides b a).1 (sym same))
    | inr (h, differs) ↦ elim (==-cases b a) [
      | inl (_, same) ↦ absurd (differs (sym same))
      | inr (k, _) ↦ rw (h, k)
    ]
  ]

  -- `a in xs`
  unfoldable pub contains : List A → A → Bool
  contains [] a = false
  contains (x ∷ xs) a = x == a || contains xs a

  pub contains-append :
      (xs ys : List A) (a : A) → contains (xs ++ ys) a ≡ (contains xs a || contains ys a)
  unfolding contains
  contains-append [] ys a = refl
  contains-append (x ∷ xs) ys a = ground (arith, contains-append xs ys a)

  pub contains-cons_self : (a : A) (xs : List A) → contains (a ∷ xs) a ≡ true
  unfolding contains
  contains-cons_self a xs = rw (==-refl a)

  pub contains-cons_of_contains :
      (x : A) (xs : List A) (a : A) → contains xs a ≡ true → contains (x ∷ xs) a ≡ true
  unfolding contains
  contains-cons_of_contains x xs a h = ground arith

  pub contains-cons_cases :
      (x : A) (xs : List A) (a : A) → contains (x ∷ xs) a ≡ true → (x ≡ a) ⊎ (contains xs a ≡ true)
  unfolding contains
  contains-cons_cases x xs a h = elim (==-cases x a) [
    | inl (_, same) ↦ inl same
    | inr (differs, _) ↦ inr (rw differs at h)
  ]
