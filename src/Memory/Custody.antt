-- ===== src/Memory/Custody.antt =====
-- internal/storage/memory.go: which message a queue holds, pending or lent out.
use mathlib.Core.List.{Nodup, Nodup-cons, mem-append, perm_middle}
use mathlib.Core.List.Perm
use mathlib.Core.List.Nodup.{of_append_right}
use mathlib.Core.Logic.Or
use shoebox.Base.{
  is_nil, ℕ, ◌+◌, ◌≡◌, sym, ◌∙◌, ap, subst, true, false, List, [], ◌∷◌, ◌++◌, map, Perm, arith, inl,
  inr, Bool-cases, Option, length, length-append,
}
use shoebox.Base.Int.{u64}
use shoebox.Base.Text.{Str, str_eq, str_eq_iff, str_eq_refl, str_eq_comm, bytes}
use shoebox.Base.Maps.{put, put_self, put-ne, contains, discard}
use shoebox.Base.Maps.Sets.{contains_of_not-Mem, add_key_absent, discard-perm, contains-discard}
use shoebox.Storage.{Time, Message, dlq_name, dead_letter_message}
use shoebox.Memory.{Memory, enqueue, dequeue, deliver, mark, sort_dirty, append_pending, stamp}
use shoebox.Memory.Picking.{pick, pick-perm}
use shoebox.Memory.Delivery.{dequeue-nil, dequeue-deliver, sort_dirty-perm, sort_dirty-inflight}
use shoebox.Memory.Settle.{ack, retry, dead_letter, release, add_processed}

abbrev pub ids : List Message → List Str
ids = map λ a. a.id

-- The identifiers that a queue answers for: those of the pending messages, and those lent out.
abbrev pub held : Memory → Str → List Str
held m q = ids (m.queues q) ++ m.inflight q

mark-perm :
    (out : List Message) (lent : List Str)
    → Nodup (ids out ++ lent)
    → Perm (mark out lent) (ids out ++ lent)
unfolding mark
mark-perm [] lent n = Perm.refl lent
mark-perm (a ∷ out) lent n =
    let absent : contains a.id lent ≡ false =
      contains_of_not-Mem a.id lent (λ h. (Nodup-cons.0 n).0 (mem-append.1 (Or.inr h))) in
    let moved = perm_middle (ids out) lent in
    rw (add_key_absent a.id lent absent)
      (Perm.trans (mark-perm out (a.id ∷ lent) (Perm.nodup (Perm.symm moved) n)) moved)

regroup :
    (out kept : List Message) (lent : List Str)
    → Perm (ids kept ++ (ids out ++ lent)) (ids (out ++ kept) ++ lent)
regroup [] kept lent = Perm.refl _
regroup (a ∷ out) kept lent =
    Perm.trans (perm_middle (ids kept) (ids out ++ lent)) (Perm.cons a.id (regroup out kept lent))

deliver-held :
    (m : Memory) (q : Str) (out kept : List Message)
    → Nodup (ids (out ++ kept) ++ m.inflight q)
    → Perm (held (deliver m q out kept).0 q) (ids (out ++ kept) ++ m.inflight q)
unfolding deliver
deliver-held m q [] kept n = rw (put_self m.queues q kept) (Perm.refl _)
deliver-held m q (a ∷ out) kept n =
    let lent = m.inflight q in
    let apart : Nodup (ids (a ∷ out) ++ lent) =
      of_append_right (ids kept) (Perm.nodup (Perm.symm (regroup (a ∷ out) kept lent)) n) in
    rw (put_self m.queues q kept) (
      rw (put_self m.inflight q (mark (a ∷ out) lent)) (
        Perm.trans (Perm.append_left (ids kept) (mark-perm (a ∷ out) lent apart))
          (regroup (a ∷ out) kept lent)))

pick-held :
    (m : Memory) (q : Str) (limit : ℕ) (now : Time)
    → Perm
        (ids (
            (pick limit now ((sort_dirty m q).queues q)).0
            ++ (pick limit now ((sort_dirty m q).queues q)).1)
          ++ m.inflight q)
        (held m q)
pick-held m q limit now = Perm.append_right (m.inflight q) (
    Perm.map _ (Perm.trans (pick-perm limit now ((sort_dirty m q).queues q)) (sort_dirty-perm m q)))

-- If the identifiers of a queue are distinct, a `Dequeue` moves messages from pending to lent out:
-- it loses none and makes none up.
dequeue-held :
    (m : Memory) (q : Str) (limit : ℕ) (now : Time)
    → Nodup (held m q)
    → Perm (held (dequeue m q limit now).0 q) (held m q)
dequeue-held m q limit now n = elim (Bool-cases (is_nil (m.queues q))) [
  | inl e ↦ rw (dequeue-nil m q limit now e) (Perm.refl _)
  | inr e ↦
      let s = sort_dirty m q in
      let (out, kept) = pick limit now (s.queues q) in
      let whole =
        subst (λ f. Perm (ids (out ++ kept) ++ f q) (held m q)) (sym (sort_dirty-inflight m q))
          (pick-held m q limit now) in
      rw (dequeue-deliver m q limit now e)
        (Perm.trans (deliver-held s q out kept (Perm.nodup (Perm.symm whole) n)) whole)
]

-- A second settlement of a message changes nothing: it is no longer lent out.
pub ack_absent : (m : Memory) (q id : Str) → contains id (m.inflight q) ≡ false → ack m q id ≡ m
unfolding ack
ack_absent m q id h = rw h

ack_present :
    (m : Memory) (q id : Str)
    → contains id (m.inflight q) ≡ true
    → ack m q id ≡ add_processed (release m q id) q 1
unfolding ack
ack_present m q id h = rw h

-- Taking a message off the in-flight set of its queue.
release-held :
    (m : Memory) (q id : Str)
    → Nodup (held m q)
    → contains id (m.inflight q) ≡ true
    → Perm (held m q) (id ∷ held (release m q id) q)
unfolding release
release-held m q id n h = rw (put_self m.inflight q (discard id (m.inflight q))) (
    Perm.trans
      (Perm.append_left (ids (m.queues q))
        (discard-perm id (m.inflight q) (of_append_right (ids (m.queues q)) n) h))
      (perm_middle (ids (m.queues q)) (discard id (m.inflight q))))

-- If the identifiers of a queue are distinct, acknowledging a message that is lent out removes it
-- from the queue and removes no other, counts it as processed, and leaves it no longer lent out.
pub ack-held :
    (m : Memory) (q id : Str)
    → Nodup (held m q)
    → contains id (m.inflight q) ≡ true
    → Perm (held m q) (id ∷ held (ack m q id) q)
      × (((ack m q id).counters q).processed ≡ u64 ((m.counters q).processed + 1))
      × (contains id ((ack m q id).inflight q) ≡ false)
unfolding add_processed release
ack-held m q id n h = rw (ack_present m q id h) (
  release-held m q id n h,
  unfold put in ground (arith, str_eq_refl q),
  unfold put in ground (arith, str_eq_refl q, contains-discard id (m.inflight q)),
)

ids-append :
    (l : List Message) (a : Message) (lent : List Str)
    → Perm (ids (l ++ a ∷ []) ++ lent) (a.id ∷ (ids l ++ lent))
ids-append l a lent = Perm.trans (Perm.symm (regroup l (a ∷ []) lent)) (Perm.refl _)

append_pending-held :
    (m : Memory) (q : Str) (a : Message) → Perm (held (append_pending m q a) q) (a.id ∷ held m q)
unfolding append_pending
append_pending-held m q a =
    rw (put_self m.queues q (m.queues q ++ a ∷ [])) (ids-append (m.queues q) a (m.inflight q))

-- Enqueueing a message adds that message and nothing else.
enqueue-held :
    (m : Memory) (q : Str) (a : Message) (now : Time)
    → Perm (held (enqueue m q a now) q) (a.id ∷ held m q)
unfolding enqueue stamp
enqueue-held m q a now = append_pending-held m q (stamp now a)

-- If the identifiers of a queue are distinct, retrying a message that is lent out puts it back
-- among the pending: the queue holds what it held, and the failure is counted as an error and as
-- a retry.
retry-held :
    (m : Memory) (q : Str) (a : Message)
    → Nodup (held m q)
    → contains a.id (m.inflight q) ≡ true
    → Perm (held (retry m q a) q) (held m q)
      × (((retry m q a).counters q).errors ≡ u64 ((m.counters q).errors + 1))
      × (((retry m q a).counters q).retries ≡ u64 ((m.counters q).retries + 1))
unfolding retry
retry-held m q a n h = (
  Perm.trans (append_pending-held (release m q a.id) q (record a { queue = q }))
      (Perm.symm (release-held m q a.id n h)),
  unfold append_pending release put in ground (arith, str_eq_refl q),
  unfold append_pending release put in ground (arith, str_eq_refl q),
)

-- A queue is not its own dead-letter queue.
pub dlq_name-ne : (q : Str) → str_eq (dlq_name q) q ≡ false
unfolding dlq_name
dlq_name-ne q = elim (Bool-cases (str_eq (q ++ bytes ".dlq") q)) [
  | inl e ↦ absurd (
      omega
        (arith, ap length ((str_eq_iff (q ++ bytes ".dlq") q).0 e), length-append q (bytes ".dlq")))
  | inr e ↦ e
]

append_pending-other :
    (m : Memory) (q j : Str) (a : Message)
    → str_eq q j ≡ false
    → held (append_pending m q a) j ≡ held m j
unfolding append_pending
append_pending-other m q j a h = rw (put-ne m.queues q j (m.queues q ++ a ∷ []) h)

release-other :
    (m : Memory) (q id j : Str) → str_eq q j ≡ false → held (release m q id) j ≡ held m j
unfolding release
release-other m q id j h = rw (put-ne m.inflight q j (discard id (m.inflight q)) h)

-- If the identifiers of a queue are distinct, dead-lettering a message that is lent out takes it,
-- and no other, out of its queue, adds one message under the fresh identifier to the dead-letter
-- queue, and counts it as dead.
pub dead_letter-held :
    (m : Memory) (q : Str) (a : Message) (e : Option Str) (now : Time) (id : Str)
    → Nodup (held m q)
    → contains a.id (m.inflight q) ≡ true
    → Perm (held m q) (a.id ∷ held (dead_letter m q a e now id) q)
      × Perm (held (dead_letter m q a e now id) (dlq_name q)) (id ∷ held m (dlq_name q))
      × (((dead_letter m q a e now id).counters q).dead ≡ u64 ((m.counters q).dead + 1))
unfolding dead_letter dead_letter_message
dead_letter-held m q a e now id n h =
    let dead = dead_letter_message q a e now id in
    let freed = release m q a.id in
    let apart : str_eq q (dlq_name q) ≡ false = str_eq_comm q (dlq_name q) ∙ dlq_name-ne q in
    (
      subst (λ l. Perm (held m q) (a.id ∷ l))
          (sym (append_pending-other freed (dlq_name q) q dead (dlq_name-ne q)))
          (release-held m q a.id n h),
      subst (λ l. Perm (held (append_pending freed (dlq_name q) dead) (dlq_name q)) (id ∷ l))
          (release-other m q a.id (dlq_name q) apart) (append_pending-held freed (dlq_name q) dead),
      unfold append_pending release put in ground (arith, str_eq_refl q),
    )
