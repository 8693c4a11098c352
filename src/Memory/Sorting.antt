-- ===== src/Memory/Sorting.antt =====
-- The order of delivery of memory.go, and `sort.SliceStable` by that order.
pub mod Laws
use shoebox.Base.{ℕ, ◌≡◌, Bool, List, [], ◌∷◌, ltb, if◌then◌else◌}
use shoebox.Base.Int.{ltb_ℤ, eq_ℤ}
use shoebox.Storage.{Message}

-- The `less` of `Dequeue`: higher priority first, then earlier creation.
unfoldable pub before : Message → Message → Bool
before a b =
    if eq_ℤ a.priority b.priority
    then ltb a.created_at b.created_at
    else ltb_ℤ b.priority a.priority

-- Puts a message behind those that precede it.
unfoldable pub insert : Message → List Message → List Message
unfolding before
insert a [] = a ∷ []
insert a (b ∷ bs) = if before b a then b ∷ insert a bs else a ∷ b ∷ bs

-- A stable sort: insertion from the right leaves equal messages in their order.
unfoldable pub sort : List Message → List Message
unfolding insert
sort [] = []
sort (a ∷ as') = insert a (sort as')
