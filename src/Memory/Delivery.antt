-- ===== src/Memory/Delivery.antt =====
-- internal/storage/memory.go: what one `Dequeue` delivers, and the flag that spares a sort.
use mathlib.Core.List.Perm
use shoebox.Base.{
  is_nil, ℕ, suc, ◌-◌, ◌≤◌, ◌<◌, ◌≡◌, refl, true, false, List, [], ◌∷◌, ◌++◌, Perm, arith, inl, inr,
  Bool-cases, if◌then◌else◌, length, All, subst, ◌∙◌,
}
use shoebox.Base.Text.{Str}
use shoebox.Base.Maps.{put, put_self}
use shoebox.Storage.{Time, Message, ok, err, empty}
use shoebox.Memory.{Memory, dequeue, deliver, sort_dirty}
use shoebox.Memory.Sorting.{sort}
use shoebox.Memory.Sorting.Laws.{IsSorted, sort-IsSorted, sort-perm}
use shoebox.Memory.Picking.{
  pick, scan-pick, length-pick, pick_due, pick-perm, pick-IsSorted, pick-Outranked, pick_nothing,
  Outranked,
}

-- A queue whose flag is down is sorted.
abbrev pub Ordered : Memory → Type 0
Ordered m = (q : Str) → m.dirty q ≡ false → IsSorted (m.queues q)

pub sort_dirty-IsSorted : (m : Memory) (q : Str) → Ordered m → IsSorted ((sort_dirty m q).queues q)
unfolding sort_dirty
sort_dirty-IsSorted m q o = elim (Bool-cases (m.dirty q)) [
  | inl e ↦ rw e (rw (put_self m.queues q (sort (m.queues q))) (sort-IsSorted (m.queues q)))
  | inr e ↦ rw e (o q e)
]

pub sort_dirty-perm : (m : Memory) (q : Str) → Perm ((sort_dirty m q).queues q) (m.queues q)
unfolding sort_dirty
sort_dirty-perm m q = elim (Bool-cases (m.dirty q)) [
  | inl e ↦ rw e (rw (put_self m.queues q (sort (m.queues q))) (sort-perm (m.queues q)))
  | inr e ↦ rw e (Perm.refl _)
]

pub sort_dirty-Ordered : (m : Memory) (q : Str) → Ordered m → Ordered (sort_dirty m q)
unfolding sort_dirty put
sort_dirty-Ordered m q o j h = ground (arith, o j, sort-IsSorted (m.queues q))

-- What a caller of `Dequeue` is told: `out` was delivered, and `kept` waits.
pub record Delivers (pending kept out : List Message) (limit : ℕ) (now : Time) : Type 0 where
  pub some_message : 0 < length out
  pub bounded : length out ≤ limit
  pub due : All (λ a. a.scheduled_at ≤ now) out
  pub in_order : IsSorted out
  pub conserved : Perm (out ++ kept) pending
  pub outranked : All (Outranked limit now out) kept

-- `Dequeue` with its scan replaced by the plain recursion.
pub dequeue-pick :
    (m : Memory) (q : Str) (limit : ℕ) (now : Time)
    → let (out, kept) = pick limit now ((sort_dirty m q).queues q) in
      dequeue m q limit now
      ≡ (if is_nil (m.queues q) then (m, err empty) else deliver (sort_dirty m q) q out kept)
unfolding dequeue
dequeue-pick m q limit now =
    rw (scan-pick limit now ((sort_dirty m q).queues q) [] [] (omega arith))
      (let all_free : limit - 0 ≡ limit = omega arith in rw all_free)

pub deliver_queues :
    (m : Memory) (q : Str) (out kept : List Message) → (deliver m q out kept).0.queues q ≡ kept
unfolding deliver
deliver_queues m q [] kept = put_self m.queues q kept
deliver_queues m q (a ∷ out) kept = put_self m.queues q kept

deliver_ok :
    (m : Memory) (q : Str) (out kept got : List Message)
    → (deliver m q out kept).1 ≡ ok got
    → (got ≡ out) × (0 < length got)
unfolding deliver
deliver_ok m q [] kept got h = cc
deliver_ok m q (a ∷ out) kept got h = ground arith

Delivers-pick :
    (limit : ℕ) (now : Time) (sorted pending : List Message)
    → IsSorted sorted
    → Perm sorted pending
    → 0 < length (pick limit now sorted).0
    → Delivers pending (pick limit now sorted).1 (pick limit now sorted).0 limit now
Delivers-pick limit now sorted pending s p h = record {
  some_message = h;
  bounded = length-pick limit now sorted;
  due = pick_due limit now sorted;
  in_order = (pick-IsSorted limit now sorted s).0;
  conserved = Perm.trans (pick-perm limit now sorted) p;
  outranked = pick-Outranked limit now sorted s;
}

Delivers-deliver :
    (m : Memory) (q : Str) (limit : ℕ) (now : Time) (pending got : List Message)
    → let (out, kept) = pick limit now (m.queues q) in
      IsSorted (m.queues q)
      → Perm (m.queues q) pending
      → (deliver m q out kept).1 ≡ ok got
      → Delivers pending ((deliver m q out kept).0.queues q) got limit now
Delivers-deliver m q limit now pending got s p h =
    let sure =
      deliver_ok m q (pick limit now (m.queues q)).0 (pick limit now (m.queues q)).1 got h in
    rw (deliver_queues, sure.0)
      (Delivers-pick limit now (m.queues q) pending s p (subst (λ l. 0 < length l) sure.0 sure.1))

pub dequeue-nil :
    (m : Memory) (q : Str) (limit : ℕ) (now : Time)
    → is_nil (m.queues q) ≡ true
    → dequeue m q limit now ≡ (m, err empty)
dequeue-nil m q limit now e = rw dequeue-pick (rw e)

pub dequeue-deliver :
    (m : Memory) (q : Str) (limit : ℕ) (now : Time)
    → is_nil (m.queues q) ≡ false
    → let (out, kept) = pick limit now ((sort_dirty m q).queues q) in
      dequeue m q limit now ≡ deliver (sort_dirty m q) q out kept
dequeue-deliver m q limit now e = rw dequeue-pick (rw e)

-- From an ordered state, a `Dequeue` that delivers `out` delivers at least one and at most `limit`
-- messages, all of them due, highest priority and then oldest first; what it delivers and what
-- stays are together the messages that were pending; and a message that stays though it is due
-- precedes none that is delivered, and stays only because `limit` messages are.
pub dequeue-Delivers :
    (m : Memory) (q : Str) (limit : ℕ) (now : Time) (out : List Message)
    → Ordered m
    → (dequeue m q limit now).1 ≡ ok out
    → Delivers (m.queues q) ((dequeue m q limit now).0.queues q) out limit now
dequeue-Delivers m q limit now out o h = elim (Bool-cases (is_nil (m.queues q))) [
  | inl e ↦ let refused : err empty ≡ ok out = rw (dequeue-nil m q limit now e) at h in cc
  | inr e ↦
      let sure = dequeue-deliver m q limit now e in
      rw sure (
        Delivers-deliver (sort_dirty m q) q limit now (m.queues q) out (sort_dirty-IsSorted m q o)
          (sort_dirty-perm m q) (rw sure at h))
]

deliver_err :
    (m : Memory) (q : Str) (out kept : List Message)
    → (deliver m q out kept).1 ≡ err empty
    → (out ≡ []) × ((deliver m q out kept).0.inflight ≡ m.inflight)
unfolding deliver
deliver_err m q [] kept h = (refl, refl)
deliver_err m q (a ∷ out) kept h = cc

pub sort_dirty-inflight : (m : Memory) (q : Str) → (sort_dirty m q).inflight ≡ m.inflight
unfolding sort_dirty
sort_dirty-inflight m q = ground arith

-- The state after a `Dequeue` that found nothing.
pub record Waits (m m' : Memory) (q : Str) (now : Time) : Type 0 where
  pub conserved : Perm (m'.queues q) (m.queues q)
  pub none_due : All (λ a. now < a.scheduled_at) (m'.queues q)
  pub no_lease : m'.inflight ≡ m.inflight

Waits-deliver :
    (m : Memory) (q : Str) (limit : ℕ) (now : Time)
    → let (out, kept) = pick (suc limit) now ((sort_dirty m q).queues q) in
      (deliver (sort_dirty m q) q out kept).1 ≡ err empty
      → Waits m (deliver (sort_dirty m q) q out kept).0 q now
Waits-deliver m q limit now h =
    let sorted = (sort_dirty m q).queues q in
    let nothing =
      deliver_err (sort_dirty m q) q (pick (suc limit) now sorted).0 (pick (suc limit) now sorted).1
        h in
    let stays = pick_nothing limit now sorted nothing.0 in
    record {
      conserved = rw deliver_queues (rw stays.0 (sort_dirty-perm m q));
      none_due = rw deliver_queues (rw stays.0 stays.1);
      no_lease = nothing.1 ∙ sort_dirty-inflight m q;
    }

none_due_of_nil :
    (l : List Message) (now : Time) → is_nil l ≡ true → All (λ a. now < a.scheduled_at) l
none_due_of_nil [] now e = tt
none_due_of_nil (a ∷ l) now e = cc

-- A `Dequeue` with a positive limit that reports an empty queue leaves the same messages pending,
-- none of which is due, and lends none.
dequeue-Waits :
    (m : Memory) (q : Str) (limit : ℕ) (now : Time)
    → (dequeue m q (suc limit) now).1 ≡ err empty
    → Waits m (dequeue m q (suc limit) now).0 q now
dequeue-Waits m q limit now h = elim (Bool-cases (is_nil (m.queues q))) [
  | inl e ↦ rw (dequeue-nil m q (suc limit) now e) (record {
    conserved = Perm.refl _;
    none_due = none_due_of_nil (m.queues q) now e;
    no_lease = refl;
  })
  | inr e ↦
      let sure = dequeue-deliver m q (suc limit) now e in
      rw sure (Waits-deliver m q limit now (rw sure at h))
]
