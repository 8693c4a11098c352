-- ===== src/Memory/Pulling.antt =====
-- internal/storage/memory.go: the search of `Replay` through a dead-letter queue.
use mathlib.Core.List.{perm_middle}
use shoebox.Base.{
  ◌≡◌, refl, ap, subst, false, List, [], ◌∷◌, ◌++◌, Perm, inl, inr, Bool-cases, Option, none, some,
  All,
}
use shoebox.Base.Text.{Str, str_eq, str_eq_iff}
use shoebox.Storage.{Message}
use shoebox.Memory.Settle.{pull}
use shoebox.Memory.Sorting.Laws.{IsSorted, Ahead}

-- `found` is the first message with the identifier, and `others` are the rest in their order.
pub record Pulls (id : Str) (l others : List Message) (found : Message) : Type 0 where
  pub pre : List Message
  pub post : List Message
  pub split : l ≡ pre ++ found ∷ post
  pub joined : others ≡ pre ++ post
  pub matches : found.id ≡ id
  pub first : All (λ a. str_eq a.id id ≡ false) pre

abbrev pub Missing : Str → List Message → Type 0
Missing id = All λ a. str_eq a.id id ≡ false

Pulls-cons :
    (id : Str) (a : Message) (l others : List Message) (found : Message)
    → str_eq a.id id ≡ false
    → Pulls id l others found
    → Pulls id (a ∷ l) (a ∷ others) found
Pulls-cons id a l others found e p = record {
  pre = a ∷ p.pre;
  post = p.post;
  split = ap (λ t. a ∷ t) p.split;
  joined = ap (λ t. a ∷ t) p.joined;
  matches = p.matches;
  first = (e, p.first);
}

abbrev pub Pulled : Str → List Message → Option (Message × List Message) → Type 0
Pulled id l none = Missing id l
Pulled id l (some (found, others)) = Pulls id l others found

Pulled-cons :
    (id : Str) (a : Message) (l : List Message) (r : Option (Message × List Message))
    → str_eq a.id id ≡ false
    → Pulled id l r
    → Pulled id (a ∷ l) (elim r [ none ↦ none | some (found, others) ↦ some (found, a ∷ others) ])
Pulled-cons id a l none e p = (e, p)
Pulled-cons id a l (some (found, others)) e p = Pulls-cons id a l others found e p

-- The search finds the first message with the identifier, or there is none.
pub pull-Pulled : (id : Str) (l : List Message) → Pulled id l (pull id l)
unfolding pull
pull-Pulled id [] = tt
pull-Pulled id (a ∷ l) = elim (Bool-cases (str_eq a.id id)) [
  | inl e ↦ rw e (record {
    pre = [];
    post = l;
    split = refl;
    joined = refl;
    matches = (str_eq_iff a.id id).0 e;
    first = tt;
  })
  | inr e ↦ rw e (Pulled-cons id a l (pull id l) e (pull-Pulled id l))
]

Ahead-middle :
    (a b : Message) (pre post : List Message) → Ahead a (pre ++ b ∷ post) → Ahead a (pre ++ post)
Ahead-middle a b [] post h = h.1
Ahead-middle a b (c ∷ pre) post h = (h.0, Ahead-middle a b pre post h.1)

IsSorted-middle :
    (b : Message) (pre post : List Message) → IsSorted (pre ++ b ∷ post) → IsSorted (pre ++ post)
IsSorted-middle b [] post s = s.1
IsSorted-middle b (c ∷ pre) post s = (Ahead-middle c b pre post s.0, IsSorted-middle b pre post s.1)

pub Pulls-IsSorted :
    {id : Str} {l others : List Message} {found : Message}
    → Pulls id l others found
    → IsSorted l
    → IsSorted others
Pulls-IsSorted {found} p s =
    rw p.joined (IsSorted-middle found p.pre p.post (subst IsSorted p.split s))

pub Pulls-perm :
    {id : Str} {l others : List Message} {found : Message}
    → Pulls id l others found
    → Perm l (found ∷ others)
Pulls-perm {found} p = rw p.split (rw p.joined (perm_middle p.pre p.post))
