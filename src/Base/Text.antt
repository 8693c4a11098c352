-- ===== src/Base/Text.antt =====
-- Go strings as sequences of bytes.
use Prim.Native.Nat.{ℕ}
use Prim.Native.Char.{code}
use Prim.Native.String.{String}
use mathlib.Core.Path.{◌≡◌, refl, ap}
use mathlib.Core.Logic.{◌↔◌, inl, inr}
use mathlib.Core.Bool.{Bool, true, false, ◌&&◌, ◌||◌}
use mathlib.Core.List.{List, [], ◌∷◌, ◌++◌}
use native.Mathlib.Omega.{arith}
use shoebox.Base.Tests.{◌==◌, ltb, if◌then◌else◌, Bool-cases}

abbrev pub Str : Type 0
Str = List ℕ

-- A string literal of the source, which is ASCII.
abbrev pub bytes : String → Str
bytes String.[] = []
bytes (String.◌∷◌ c s) = code c ∷ bytes s

-- `a == b` on strings.
unfoldable pub str_eq : Str → Str → Bool
str_eq [] [] = true
str_eq [] (y ∷ ys) = false
str_eq (x ∷ xs) [] = false
str_eq (x ∷ xs) (y ∷ ys) = x == y && str_eq xs ys

pub str_eq_iff : (a b : Str) → (str_eq a b ≡ true) ↔ (a ≡ b)
unfolding str_eq
str_eq_iff [] [] = ground arith
str_eq_iff [] (y ∷ ys) = ground arith
str_eq_iff (x ∷ xs) [] = ground arith
str_eq_iff (x ∷ xs) (y ∷ ys) = ground (arith, str_eq_iff xs ys)

pub str_eq_refl : (a : Str) → str_eq a a ≡ true
str_eq_refl a = (str_eq_iff a a).1 refl

pub str_eq_comm : (a b : Str) → str_eq a b ≡ str_eq b a
str_eq_comm a b = ground (arith, str_eq_iff a b, str_eq_iff b a)

-- `strings.HasPrefix(s, prefix)`.
unfoldable pub has_prefix : Str → Str → Bool
has_prefix s [] = true
has_prefix [] (p ∷ ps) = false
has_prefix (c ∷ s) (p ∷ ps) = c == p && has_prefix s ps

-- `strings.HasSuffix(s, suffix)`: the suffix stands at the end of s, or of a tail of s.
unfoldable pub has_suffix : Str → Str → Bool
has_suffix [] t = str_eq [] t
has_suffix (c ∷ s) t = if str_eq (c ∷ s) t then true else has_suffix s t

pub has_suffix-append : (s t : Str) → has_suffix (s ++ t) t ≡ true
unfolding has_suffix
has_suffix-append [] [] = (str_eq_iff [] []).1 refl
has_suffix-append [] (c ∷ t) = ground (arith, str_eq_iff (c ∷ t) (c ∷ t))
has_suffix-append (c ∷ s) t = ground (arith, has_suffix-append s t)

pub has_prefix-append : (s t : Str) → has_prefix (s ++ t) s ≡ true
unfolding has_prefix
has_prefix-append [] [] = refl
has_prefix-append [] (c ∷ t) = refl
has_prefix-append (c ∷ s) t = ground (arith, has_prefix-append s t)

-- A suffix is the end of the string.
pub has_suffix-split : (s t : Str) → has_suffix s t ≡ true → (p : Str) × (s ≡ p ++ t)
unfolding has_suffix
has_suffix-split [] t h = ([], (str_eq_iff [] t).0 h)
has_suffix-split (c ∷ s) t h = elim (Bool-cases (str_eq (c ∷ s) t)) [
  | inl e ↦ ([], (str_eq_iff (c ∷ s) t).0 e)
  | inr e ↦ let rest = has_suffix-split s t (ground arith) in (c ∷ rest.0, ap (λ l. c ∷ l) rest.1)
]

-- `<` on strings, byte by byte.
unfoldable pub str_ltb : Str → Str → Bool
str_ltb a [] = false
str_ltb [] (y ∷ ys) = true
str_ltb (x ∷ xs) (y ∷ ys) = ltb x y || x == y && str_ltb xs ys
