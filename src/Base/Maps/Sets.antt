-- ===== src/Base/Maps/Sets.antt =====
-- Sets of strings, kept as lists without repetitions, up to order.
use mathlib.Core.List.{Mem, Nodup, mem-cons, Nodup-cons}
use mathlib.Core.List.Perm
use mathlib.Core.Logic.Or
use mathlib.Core.Path.{◌≡◌, refl, sym, subst}
use mathlib.Core.Logic.{inl, inr}
use mathlib.Core.Bool.{true, false}
use mathlib.Core.List.{List, [], ◌∷◌, Perm}
use native.Mathlib.Omega.{arith}
use shoebox.Base.Tests.{Bool-cases}
use shoebox.Base.Text.{Str, str_eq, str_eq_iff}
use shoebox.Base.Maps.{contains, add_key, discard}

pub contains-Mem : (k : Str) (xs : List Str) → contains k xs ≡ true → Mem k xs
unfolding contains
contains-Mem k [] h = cc
contains-Mem k (x ∷ xs) h = elim (Bool-cases (str_eq k x)) [
  | inl e ↦ mem-cons.1 (Or.inl ((str_eq_iff k x).0 e))
  | inr e ↦ mem-cons.1 (Or.inr (contains-Mem k xs (ground arith)))
]

pub contains_of_not-Mem : (k : Str) (xs : List Str) → ¬ Mem k xs → contains k xs ≡ false
contains_of_not-Mem k xs h = elim (Bool-cases (contains k xs)) [
  | inl e ↦ absurd (h (contains-Mem k xs e))
  | inr e ↦ e
]

pub discard_absent : (k : Str) (xs : List Str) → contains k xs ≡ false → discard k xs ≡ xs
unfolding discard contains
discard_absent k [] h = refl
discard_absent k (x ∷ xs) h = ground (arith, discard_absent k xs)

pub add_key_absent : (k : Str) (xs : List Str) → contains k xs ≡ false → add_key k xs ≡ k ∷ xs
unfolding add_key
add_key_absent k xs h = rw h

-- Removing a member takes out that one and nothing else.
pub discard-perm :
    (k : Str) (xs : List Str) → Nodup xs → contains k xs ≡ true → Perm xs (k ∷ discard k xs)
unfolding discard contains
discard-perm k [] n h = cc
discard-perm k (x ∷ xs) n h = elim (Bool-cases (str_eq k x)) [
  | inl e ↦
      let same : k ≡ x = (str_eq_iff k x).0 e in
      let gone : contains k xs ≡ false =
        contains_of_not-Mem k xs (subst (λ t. ¬ Mem t xs) (sym same) (Nodup-cons.0 n).0) in
      rw e (rw (discard_absent k xs gone, same) (Perm.refl _))
  | inr e ↦ rw e (
      Perm.trans (Perm.cons x (discard-perm k xs (Nodup-cons.0 n).1 (ground arith)))
        (Perm.swap k x (discard k xs)))
]

pub contains-discard : (k : Str) (xs : List Str) → contains k (discard k xs) ≡ false
unfolding discard contains
contains-discard k [] = refl
contains-discard k (x ∷ xs) = ground (arith, contains-discard k xs)
