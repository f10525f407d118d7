-- ===== src/Prelude/Texts.antt =====
-- What the code does to make texts: joining with a separator, and `str` of an int.
use Prim.Native.Nat.{ℕ, zero, suc, ◌+◌, ◌-◌, ◌/◌, ◌%◌}
use Prim.Native.String.{String, ◌++◌, slice, len}
use text.Mathlib.Text.{starts_with, ◌==◌}
use mathlib.Core.Bool.{Bool}
use mathlib.Core.List.{List, [], ◌∷◌}
use mathlib.Core.Path.{◌≡◌, refl}
use smorx.Prelude.Tests.{if◌then◌else◌, ltb}

infixr 65 ◌<>◌
abbrev pub ◌<>◌ : String → String → String
s <> t = s ++ t

-- sep.join(texts)
unfoldable pub joined : String → List String → String
joined sep [] = ""
joined sep (t ∷ []) = t
joined sep (t ∷ u ∷ ts) = t <> sep <> joined sep (u ∷ ts)

abbrev digit : ℕ → String
digit n = slice "0123456789" n (n + 1)

-- A number below 2 ^ n has at most n digits, so as many steps as it is large are enough.
unfoldable digits : ℕ → ℕ → String
digits zero n = ""
digits (suc fuel) n =
    let front = digits fuel (n / 10) in if ltb n 10 then digit n else front <> digit (n % 10)

-- str(n)
unfoldable pub str : ℕ → String
unfolding digits
str n = digits (suc n) n

str_of_120 : str 120 ≡ "120"
unfolding str
str_of_120 = refl

-- s.startswith(t)
abbrev pub has_prefix : String → String → Bool
has_prefix s t = starts_with s t

-- s.endswith(t): where `t` is longer than `s`, the slice is `s`.
abbrev pub has_suffix : String → String → Bool
has_suffix s t = slice s (len s - len t) (len s) == t

-- s[:n]
unfoldable pub first_chars : ℕ → String → String
first_chars zero s = ""
first_chars (suc n) String.[] = ""
first_chars (suc n) (String.◌∷◌ c s) = String.◌∷◌ c (first_chars n s)

suffix_tests : has_suffix "file." "." ≡ Bool.true
suffix_tests = refl
