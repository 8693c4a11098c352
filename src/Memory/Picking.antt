-- ===== src/Memory/Picking.antt =====
-- internal/storage/memory.go: the scan of `Dequeue` against the plain recursion that it computes.
use mathlib.Core.List.{perm_middle}
use mathlib.Core.List.Perm
use shoebox.Base.{
  ℕ, suc, ◌+◌, ◌-◌, ◌≤◌, ◌<◌, ◌≡◌, refl, true, false, ◌||◌, List, [], ◌∷◌, ◌++◌, Perm, arith, inl,
  inr, Bool-cases, if◌then◌else◌, ltb, leb, ◌==◌, length, length-append, append_assoc, append-nil,
  All, ap, subst,
}
use shoebox.Storage.{Time, Message}
use shoebox.Memory.{scan}
use shoebox.Memory.Sorting.{before}
use shoebox.Memory.Sorting.Laws.{Ahead, IsSorted}

-- With `room` places left: the messages that are taken, and those that stay.
pub pick : ℕ → Time → List Message → List Message × List Message
pick room now [] = ([], [])
pick room now (a ∷ l) =
    let stays = room == 0 || ltb now a.scheduled_at in
    let rest = pick (if stays then room else room - 1) now l in
    if stays then (rest.0, a ∷ rest.1) else (a ∷ rest.0, rest.1)

no_room : (limit n : ℕ) → (limit - n == 0) ≡ leb limit n
no_room limit n = ground arith

less_room : (limit n : ℕ) → limit - (n + 1) ≡ limit - n - 1
less_room limit n = omega arith

room_for :
    (limit : ℕ) (out : List Message) (a : Message)
    → length out ≤ limit
    → leb limit (length out) ≡ false
    → length (out ++ a ∷ []) ≤ limit
room_for limit out a h k = ground (arith, length-append out (a ∷ []))

pub scan-pick :
    (limit : ℕ) (now : Time) (l out kept : List Message)
    → length out ≤ limit
    → scan limit now l out kept
      ≡ (out ++ (pick (limit - length out) now l).0, kept ++ (pick (limit - length out) now l).1)
unfolding scan pick
scan-pick limit now [] out kept h = simp append-nil
scan-pick limit now (a ∷ l) out kept h =
    rw (no_room limit (length out))
      (elim (Bool-cases (leb limit (length out) || ltb now a.scheduled_at)) [
        | inl stays ↦
            rw stays
              (rw (scan-pick limit now l out (kept ++ a ∷ []) h) (rw (append_assoc kept (a ∷ []))))
        | inr taken ↦ rw taken (
            rw (scan-pick limit now l (out ++ a ∷ []) kept (room_for limit out a h (ground arith)))
              (rw (
                append_assoc out (a ∷ []),
                length-append out (a ∷ []),
                less_room limit (length out),
              )))
      ])

pub length-pick : (room : ℕ) (now : Time) (l : List Message) → length (pick room now l).0 ≤ room
unfolding pick
length-pick room now [] = omega arith
length-pick room now (a ∷ l) = ground (arith, length-pick room now l, length-pick (room - 1) now l)

pub pick_due :
    (room : ℕ) (now : Time) (l : List Message) → All (λ a. a.scheduled_at ≤ now) (pick room now l).0
unfolding pick
pick_due room now [] = tt
pick_due room now (a ∷ l) = ground (arith, pick_due room now l, pick_due (room - 1) now l)

pub pick-perm :
    (room : ℕ) (now : Time) (l : List Message) → Perm ((pick room now l).0 ++ (pick room now l).1) l
unfolding pick
pick-perm room now [] = Perm.refl []
pick-perm room now (a ∷ l) = elim (Bool-cases (room == 0 || ltb now a.scheduled_at)) [
  | inl stays ↦ rw stays (
      Perm.trans (perm_middle (pick room now l).0 (pick room now l).1)
        (Perm.cons a (pick-perm room now l)))
  | inr taken ↦ rw taken (Perm.cons a (pick-perm (room - 1) now l))
]

Ahead-pick :
    (a : Message) (room : ℕ) (now : Time) (l : List Message)
    → Ahead a l
    → Ahead a (pick room now l).0 × Ahead a (pick room now l).1
unfolding pick
Ahead-pick a room now [] h = (tt, tt)
Ahead-pick a room now (b ∷ l) h =
    ground (arith, Ahead-pick a room now l h.1, Ahead-pick a (room - 1) now l h.1)

pub pick-IsSorted :
    (room : ℕ) (now : Time) (l : List Message)
    → IsSorted l
    → IsSorted (pick room now l).0 × IsSorted (pick room now l).1
unfolding pick
pick-IsSorted room now [] s = (tt, tt)
pick-IsSorted room now (a ∷ l) s = ground (
  arith,
  pick-IsSorted room now l s.1,
  pick-IsSorted (room - 1) now l s.1,
  Ahead-pick a room now l s.0,
  Ahead-pick a (room - 1) now l s.0,
)

-- Nothing in the list is preceded by the message.
abbrev pub Behind : Message → List Message → Type 0
Behind k = All λ o. before k o ≡ false

-- A due message stays only where all places are taken, by messages that it does not precede.
abbrev pub Outranked : ℕ → Time → List Message → Message → Type 0
Outranked room now out k = k.scheduled_at ≤ now → (length out ≡ room) × Behind k out

Behind-Ahead :
    (a : Message) (now room : ℕ) (out kept : List Message)
    → Ahead a kept
    → All (Outranked room now out) kept
    → All (Outranked (suc room) now (a ∷ out)) kept
Behind-Ahead a now room out [] h o = tt
Behind-Ahead a now room out (k ∷ kept) h o =
    (λ due. (ap suc (o.0 due).0, (h.0, (o.0 due).1)), Behind-Ahead a now room out kept h.1 o.1)

pick-zero : (now : Time) (l : List Message) → (pick 0 now l).0 ≡ []
unfolding pick
pick-zero now [] = refl
pick-zero now (a ∷ l) = pick-zero now l

Outranked-stays :
    (room : ℕ) (now : Time) (a : Message) (l : List Message)
    → (room == 0 || ltb now a.scheduled_at) ≡ true
    → Outranked room now (pick room now l).0 a
Outranked-stays room now a l h due =
    let none_left : room ≡ 0 = ground arith in rw (none_left, pick-zero now l) (refl, tt)

pub pick-Outranked :
    (room : ℕ) (now : Time) (l : List Message)
    → IsSorted l
    → All (Outranked room now (pick room now l).0) (pick room now l).1
unfolding pick
pick-Outranked room now [] s = tt
pick-Outranked room now (a ∷ l) s = elim (Bool-cases (room == 0 || ltb now a.scheduled_at)) [
  | inl stays ↦ rw stays (Outranked-stays room now a l stays, pick-Outranked room now l s.1)
  | inr taken ↦
      let some_room : suc (room - 1) ≡ room = ground arith in
      rw taken (
        subst (λ r. All (Outranked r now (a ∷ (pick (room - 1) now l).0)) (pick (room - 1) now l).1)
          some_room
          (Behind-Ahead a now (room - 1) (pick (room - 1) now l).0 (pick (room - 1) now l).1
            (Ahead-pick a (room - 1) now l s.0).1 (pick-Outranked (room - 1) now l s.1)))
]

-- With places left, nothing is taken only if nothing is due.
pub pick_nothing :
    (room : ℕ) (now : Time) (l : List Message)
    → (pick (suc room) now l).0 ≡ []
    → ((pick (suc room) now l).1 ≡ l) × All (λ a. now < a.scheduled_at) l
unfolding pick
pick_nothing room now [] h = (refl, tt)
pick_nothing room now (a ∷ l) h = ground (arith, pick_nothing room now l)
