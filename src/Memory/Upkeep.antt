-- ===== src/Memory/Upkeep.antt =====
-- internal/storage/memory.go: the flag of `Dequeue` over a history of calls.
use shoebox.Base.{
  is_nil, ℕ, suc, ◌≡◌, refl, false, List, [], ◌∷◌, arith, inl, inr, Bool-cases, Option-cases,
  Option, if◌then◌else◌, ltb, ◌+◌, sym, ◌∙◌, subst,
}
use shoebox.Base.Text.{Str, str_eq, str_eq_iff}
use shoebox.Base.Maps.{put, put_self, contains}
use shoebox.Storage.{
  Time, Message, dlq_name, dead_letter_message, replay_message, periodic_message, Schedule,
}
use shoebox.Memory.{
  Memory, new_memory, enqueue, enqueue_each, enqueue_batch, dequeue, deliver, sort_dirty,
  append_pending, stamp, stamp_batch,
}
use shoebox.Memory.Sorting.Laws.{IsSorted}
use shoebox.Memory.Picking.{pick-IsSorted}
use shoebox.Memory.Delivery.{Ordered, sort_dirty-Ordered, sort_dirty-IsSorted, dequeue-pick}
use shoebox.Memory.Settle.{
  ack, ack_each, ack_batch, retry, dead_letter, replay, release, add_processed, pull,
}
use shoebox.Memory.Periodic.{
  find_schedule, refuses, create_schedule, update_schedule, delete_schedule, run_schedule,
}
use shoebox.Memory.Pulling.{Pulls, Pulled, pull-Pulled, Pulls-IsSorted}
use shoebox.Base.Int.{u64}
use shoebox.Memory.Steps.{
  Call, enqueues, enqueues_batch, dequeues, acks, acks_batch, retries, dead_letters, replays,
  creates, updates, deletes, runs, step, run,
}

new_memory-Ordered : Ordered new_memory
unfolding new_memory
new_memory-Ordered q h = tt

append_pending-Ordered :
    (m : Memory) (q : Str) (msg : Message) → Ordered m → Ordered (append_pending m q msg)
unfolding append_pending put
append_pending-Ordered m q msg o j h = ground (arith, o j)

-- A call that leaves the queues and the flags alone.
Ordered-same : (m m' : Memory) → m'.queues ≡ m.queues → m'.dirty ≡ m.dirty → Ordered m → Ordered m'
Ordered-same m m' e f o q h = rw e (o q (rw f at h))

enqueue_each-Ordered :
    (m : Memory) (q : Str) (msgs : List Message) (now : Time) (i : ℕ)
    → Ordered m
    → Ordered (enqueue_each m q msgs now i)
unfolding enqueue_each
enqueue_each-Ordered m q [] now i o = o
enqueue_each-Ordered m q (msg ∷ msgs) now i o =
    enqueue_each-Ordered (append_pending m q (stamp_batch now i msg)) q msgs now (suc i)
      (append_pending-Ordered m q (stamp_batch now i msg) o)

sort_dirty_flag : (m : Memory) (q : Str) → (sort_dirty m q).dirty q ≡ false
unfolding sort_dirty
sort_dirty_flag m q = ground (arith, put_self m.dirty q false)

deliver-Ordered :
    (m : Memory) (q : Str) (out kept : List Message)
    → Ordered m
    → IsSorted kept
    → Ordered (deliver m q out kept).0
unfolding deliver put
deliver-Ordered m q [] kept o s j h = ground (arith, o j)
deliver-Ordered m q (a ∷ out) kept o s j h = ground (arith, o j)

dequeue-Ordered :
    (m : Memory) (q : Str) (limit : ℕ) (now : Time) → Ordered m → Ordered (dequeue m q limit now).0
dequeue-Ordered m q limit now o = rw dequeue-pick (elim (Bool-cases (is_nil (m.queues q))) [
  | inl e ↦ rw e o
  | inr e ↦ rw e (
      deliver-Ordered (sort_dirty m q) q _ _ (sort_dirty-Ordered m q o)
        (pick-IsSorted limit now _ (sort_dirty-IsSorted m q o)).1)
])

ack_each_keeps :
    (m : Memory) (q : Str) (ids : List Str) (n : ℕ)
    → ((ack_each m q ids n).0.queues ≡ m.queues) × ((ack_each m q ids n).0.dirty ≡ m.dirty)
unfolding ack_each release
ack_each_keeps m q [] n = (refl, refl)
ack_each_keeps m q (id ∷ ids) n =
    let held = contains id (m.inflight q) in
    let m' = if held then release m q id else m in
    let keeps = ack_each_keeps m' q ids (if held then u64 (n + 1) else n) in
    (keeps.0 ∙ ground arith, keeps.1 ∙ ground arith)

ack_batch-Ordered :
    (m : Memory) (q : Str) (ids : List Str) → Ordered m → Ordered (ack_batch m q ids)
unfolding ack_batch add_processed
ack_batch-Ordered m q ids o =
    let keeps = ack_each_keeps m q ids 0 in
    let after = Ordered-same m (ack_each m q ids 0).0 keeps.0 keeps.1 o in
    elim (Bool-cases (ltb 0 (ack_each m q ids 0).1)) [ inl e ↦ rw e after | inr e ↦ rw e after ]

ack-Ordered : (m : Memory) (q id : Str) → Ordered m → Ordered (ack m q id)
unfolding ack release add_processed
ack-Ordered m q id o = elim (Bool-cases (contains id (m.inflight q))) [
  | inl e ↦ rw e o
  | inr e ↦ rw e o
]

retry-Ordered : (m : Memory) (q : Str) (msg : Message) → Ordered m → Ordered (retry m q msg)
unfolding retry release
retry-Ordered m q msg o = append_pending-Ordered (release m q msg.id) q (record msg { queue = q }) o

dead_letter-Ordered :
    (m : Memory) (q : Str) (msg : Message) (e : Option Str) (now : Time) (id : Str)
    → Ordered m
    → Ordered (dead_letter m q msg e now id)
unfolding dead_letter release
dead_letter-Ordered m q msg e now id o =
    append_pending-Ordered (release m q msg.id) _ (dead_letter_message q msg e now id) o

-- The dead-letter queue keeps its order when a message is pulled out of it.
Ordered-put :
    (m : Memory) (q : Str) (l : List Message)
    → Ordered m
    → (m.dirty q ≡ false → IsSorted l)
    → Ordered (record m { queues = put m.queues q l })
unfolding put
Ordered-put m q l o s j h = elim (Bool-cases (str_eq q j)) [
  | inl e ↦ rw e (s (rw (sym ((str_eq_iff q j).0 e)) at h))
  | inr e ↦ rw e (o j h)
]

pulled-IsSorted :
    (m : Memory) (q j id : Str) (msg : Message) (others : List Message) (found : Message)
    → Ordered m
    → Pulls id (m.queues j) others found
    → (append_pending m q msg).dirty j ≡ false
    → IsSorted others
unfolding append_pending put
pulled-IsSorted m q j id msg others found o p h = Pulls-IsSorted p (o j (ground arith))

replay-Ordered : (m : Memory) (q id : Str) (now : Time) → Ordered m → Ordered (replay m q id now).0
unfolding replay add_processed append_pending
replay-Ordered m q id now o = elim (Option-cases (pull id (m.queues (dlq_name q)))) [
  | inl e ↦ rw (e, replay) o
  | inr ((found, others), e) ↦
      let msg = replay_message q found now in
      let m' = append_pending m q msg in
      let pulls : Pulls id (m.queues (dlq_name q)) others found =
        subst (Pulled id (m.queues (dlq_name q))) e (pull-Pulled id (m.queues (dlq_name q))) in
      rw (e, replay)
        (Ordered-put m' (dlq_name q) others (append_pending-Ordered m q msg o)
          (pulled-IsSorted m q (dlq_name q) id msg others found o pulls))
]

run_schedule-Ordered :
    (m : Memory) (s : Schedule) (now next clock : Time) (id : Str)
    → Ordered m
    → Ordered (run_schedule m s now next clock id).0
unfolding run_schedule
run_schedule-Ordered m s now next clock id o =
    elim (Option-cases (find_schedule s.id m.schedules)) [
      | inl e ↦ rw (e, run_schedule) o
      | inr (current, e) ↦ elim (Bool-cases (refuses current s now)) [
        | inl stale ↦ rw (e, run_schedule) (rw stale o)
        | inr fresh ↦
            rw (e, run_schedule)
              (rw fresh (append_pending-Ordered m s.queue (periodic_message s now id) o))
      ]
    ]

create_schedule-Ordered : (m : Memory) (s : Schedule) → Ordered m → Ordered (create_schedule m s).0
unfolding create_schedule
create_schedule-Ordered m s o = elim (Option-cases (find_schedule s.id m.schedules)) [
  | inl e ↦ rw (e, create_schedule) o
  | inr (t, e) ↦ rw (e, create_schedule) o
]

update_schedule-Ordered : (m : Memory) (s : Schedule) → Ordered m → Ordered (update_schedule m s).0
unfolding update_schedule
update_schedule-Ordered m s o = elim (Option-cases (find_schedule s.id m.schedules)) [
  | inl e ↦ rw (e, update_schedule) o
  | inr (t, e) ↦ rw (e, update_schedule) o
]

-- Every call keeps each queue either flagged as written or sorted in the order of delivery.
pub step-Ordered : (m : Memory) (c : Call) → Ordered m → Ordered (step m c)
unfolding step
step-Ordered m (enqueues q msg now) o =
    unfold enqueue in append_pending-Ordered m q (stamp now msg) o
step-Ordered m (enqueues_batch q msgs now) o =
    unfold enqueue_batch in enqueue_each-Ordered m q msgs now 0 o
step-Ordered m (dequeues q limit now) o = dequeue-Ordered m q limit now o
step-Ordered m (acks q id) o = ack-Ordered m q id o
step-Ordered m (acks_batch q ids) o = ack_batch-Ordered m q ids o
step-Ordered m (retries q msg) o = retry-Ordered m q msg o
step-Ordered m (dead_letters q msg e now id) o = dead_letter-Ordered m q msg e now id o
step-Ordered m (replays q id now) o = replay-Ordered m q id now o
step-Ordered m (creates s) o = create_schedule-Ordered m s o
step-Ordered m (updates s) o = update_schedule-Ordered m s o
step-Ordered m (deletes id) o = unfold delete_schedule in o
step-Ordered m (runs s now next clock id) o = run_schedule-Ordered m s now next clock id o

run-Ordered_from : (m : Memory) (cs : List Call) → Ordered m → Ordered (run m cs)
unfolding run
run-Ordered_from m [] o = o
run-Ordered_from m (c ∷ cs) o = run-Ordered_from (step m c) cs (step-Ordered m c o)

-- After any history of calls on a new backend, each queue whose flag is down is sorted.
pub run-Ordered : (cs : List Call) → Ordered (run new_memory cs)
run-Ordered cs = run-Ordered_from new_memory cs new_memory-Ordered
