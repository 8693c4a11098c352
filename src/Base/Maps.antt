-- ===== src/Base/Maps.antt =====
-- Go maps keyed by strings whose missing keys read as a zero value, and sets of strings.
pub mod Sets
use Prim.Native.Nat.{ℕ, suc, ◌+◌, ◌≤◌}
use mathlib.Core.Path.{◌≡◌, refl, ap}
use mathlib.Core.Logic.{◌⊎◌, inl, inr}
use mathlib.Core.Bool.{Bool, true, false, ◌||◌}
use mathlib.Core.List.{List, [], ◌∷◌, ◌++◌}
use native.Mathlib.Omega.{arith}
use shoebox.Base.Tests.{if◌then◌else◌}
use shoebox.Base.Text.{Str, str_eq, str_eq_iff, str_eq_refl}

-- `m[k] = v`, where a missing key reads as the value that the map was made with.
unfoldable pub put {ℓ} : {A : Type ℓ} → (Str → A) → Str → A → Str → A
put f k v j = if str_eq k j then v else f j

pub put_self {ℓ} : {A : Type ℓ} (f : Str → A) (k : Str) (v : A) → put f k v k ≡ v
unfolding put
put_self f k v = rw (str_eq_refl k)

pub put-ne {ℓ} :
    {A : Type ℓ} (f : Str → A) (k j : Str) (v : A) → str_eq k j ≡ false → put f k v j ≡ f j
unfolding put
put-ne f k j v h = rw h

-- A `map[string]struct{}`: the keys, each once.
unfoldable pub contains : Str → List Str → Bool
contains k [] = false
contains k (x ∷ xs) = str_eq k x || contains k xs

-- `set[k] = struct{}{}`.
unfoldable pub add_key : Str → List Str → List Str
unfolding contains
add_key k xs = if contains k xs then xs else k ∷ xs

-- `delete(set, k)`.
unfoldable pub discard : Str → List Str → List Str
discard k [] = []
discard k (x ∷ xs) = if str_eq k x then discard k xs else x ∷ discard k xs
