-- ===== src/Memory/Sorting/Laws.antt =====
-- internal/storage/memory.go: the sort of `Dequeue` and the order of delivery.
use mathlib.Core.List.Perm
use shoebox.Base.{
  ◌≡◌, refl, Bool, true, false, not, ◌&&◌, List, [], ◌∷◌, Perm, arith, inl, inr, Bool-cases,
  if◌then◌else◌,
}
use shoebox.Storage.{Message}
use shoebox.Memory.Sorting.{before, insert, sort}

-- Nothing in the list precedes the message.
abbrev pub Ahead : Message → List Message → Type 0
Ahead a [] = Unit {0}
Ahead a (b ∷ bs) = (before b a ≡ false) × Ahead a bs

abbrev pub IsSorted : List Message → Type 0
IsSorted [] = Unit {0}
IsSorted (a ∷ as') = Ahead a as' × IsSorted as'

pub before_asym : (a b : Message) → before a b ≡ true → before b a ≡ false
unfolding before
before_asym a b h = ground arith

pub before_trans : (a b c : Message) → before b a ≡ false → before c b ≡ false → before c a ≡ false
unfolding before
before_trans a b c h k = ground arith

pub Ahead-trans : (a b : Message) (l : List Message) → before b a ≡ false → Ahead b l → Ahead a l
Ahead-trans a b [] h k = tt
Ahead-trans a b (c ∷ l) h k = (before_trans a b c h k.0, Ahead-trans a b l h k.1)

Ahead-insert :
    (a b : Message) (l : List Message) → before b a ≡ false → Ahead a l → Ahead a (insert b l)
unfolding insert
Ahead-insert a b [] h k = (h, tt)
Ahead-insert a b (c ∷ l) h k = ground (arith, Ahead-insert a b l h k.1)

insert-IsSorted : (a : Message) (l : List Message) → IsSorted l → IsSorted (insert a l)
unfolding insert
insert-IsSorted a [] s = (tt, tt)
insert-IsSorted a (b ∷ l) s = elim (Bool-cases (before b a)) [
  | inl e ↦ rw e (Ahead-insert b a l (before_asym b a e) s.0, insert-IsSorted a l s.1)
  | inr e ↦ rw e ((e, Ahead-trans a b l e s.0), s)
]

pub sort-IsSorted : (l : List Message) → IsSorted (sort l)
unfolding sort
sort-IsSorted [] = tt
sort-IsSorted (a ∷ l) = insert-IsSorted a (sort l) (sort-IsSorted l)

insert-perm : (a : Message) (l : List Message) → Perm (insert a l) (a ∷ l)
unfolding insert
insert-perm a [] = Perm.refl _
insert-perm a (b ∷ l) = elim (Bool-cases (before b a)) [
  | inl e ↦ rw e (Perm.trans (Perm.cons b (insert-perm a l)) (Perm.swap a b l))
  | inr e ↦ rw e (Perm.refl _)
]

pub sort-perm : (l : List Message) → Perm (sort l) l
unfolding sort
sort-perm [] = Perm.refl []
sort-perm (a ∷ l) = Perm.trans (insert-perm a (sort l)) (Perm.cons a (sort-perm l))

-- Sorting a sorted list changes nothing.
pub sort_of_IsSorted : (l : List Message) → IsSorted l → sort l ≡ l
unfolding sort insert
sort_of_IsSorted [] s = refl
sort_of_IsSorted (a ∷ []) s = refl
sort_of_IsSorted (a ∷ b ∷ l) s = rw (sort_of_IsSorted (b ∷ l) s.1) (ground arith)

-- Neither precedes the other.
abbrev level : Message → Message → Bool
level a b = not (before a b) && not (before b a)

-- The messages of the rank of `a`, in their order.
unfoldable peers : Message → List Message → List Message
peers a [] = []
peers a (b ∷ l) = if level a b then b ∷ peers a l else peers a l

peers-insert : (a b : Message) (l : List Message) → peers a (insert b l) ≡ peers a (b ∷ l)
unfolding peers insert
peers-insert a b [] = refl
peers-insert a b (c ∷ l) = ground (
  arith,
  peers-insert a b l,
  before_trans a b c,
  before_trans b a c,
  before_trans c b a,
  before_trans c a b,
  before_asym b c,
  before_asym c b,
)

-- Messages of one rank keep their order.
peers-sort : (a : Message) (l : List Message) → peers a (sort l) ≡ peers a l
unfolding sort peers
peers-sort a [] = refl
peers-sort a (b ∷ l) = rw (peers-insert a b (sort l)) (rw (peers-sort a l))
