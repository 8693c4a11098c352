-- ===== src/Tests/Storing.antt =====
-- Applications of the theorems on the storage and on the dead-letter queues.
use mathlib.Core.List.{Nodup, Nodup-cons, Nodup-nil, Mem, mem-cons, not-mem-nil}
use mathlib.Core.Logic.Or
use shoebox.Base.{
  ℕ, suc, ◌+◌, ◌≤◌, ◌<◌, ◌≡◌, ◌≢◌, refl, true, false, List, [], ◌∷◌, ◌++◌, none, some, Perm, arith,
  ◌⊎◌, ◌*◌,
}
use shoebox.Base.Text.{Str, bytes, str_eq, str_eq_iff}
use shoebox.Base.Int.{u64, pos}
use shoebox.Base.Maps.{put, contains}
use shoebox.Storage.{dlq_name}
use shoebox.Memory.{dequeue, deliver, scan, sort_dirty, new_memory}
use shoebox.Memory.Sorting.{before, insert, sort}
use shoebox.Memory.Delivery.{Delivers, dequeue-Delivers}
use shoebox.Memory.Custody.{held, ack-held, dead_letter-held}
use shoebox.Memory.Settle.{ack, dead_letter}
use shoebox.Memory.Steps.{enqueues, dequeues, run}
use shoebox.Memory.Delivery.{Ordered}
use shoebox.Memory.Upkeep.{run-Ordered}
use shoebox.Memory.Backend.{memory_store}
use shoebox.Storage.Interface.{Moment}
use shoebox.Broker.Cadence.{next_run}
use shoebox.Broker.Cadence.Once.{next_run_least}
use shoebox.Dlq.{replay_dead}
use shoebox.Dlq.Journey.{replay-dead_letter}
use shoebox.Tests.{mails, low, high, lent, office}

dequeue-Delivers_example :
    Delivers (office.queues mails) ((dequeue office mails 1 10).0.queues mails) (high ∷ []) 1 10
unfolding dequeue sort insert before put str_eq deliver scan sort_dirty
dequeue-Delivers_example = dequeue-Delivers office mails 1 10 (high ∷ []) (λ q h. cc) refl

pub not-Mem : (k : Str) (xs : List Str) → contains k xs ≡ false → ¬ Mem k xs
unfolding contains
not-Mem k [] h m = not-mem-nil m
not-Mem k (x ∷ xs) h m =
    Or.elim (λ x y. absurd x) (mem-cons.0 m) (λ e. differ e) (not-Mem k xs (ground arith))
  where
    differ : k ≢ x
    differ e = let same : str_eq k x ≡ true = (str_eq_iff k x).1 e in ground arith

office_distinct : Nodup (held office mails)
unfolding put str_eq contains
office_distinct =
    Nodup-cons.1 (
      not-Mem _ _ refl,
      Nodup-cons.1 (not-Mem _ _ refl, Nodup-cons.1 (not-Mem _ _ refl, Nodup-nil)),
    )

lent_out : contains (bytes "c") (office.inflight mails) ≡ true
unfolding contains put str_eq
lent_out = refl

ack-held_example :
    Perm (held office mails) (bytes "c" ∷ held (ack office mails (bytes "c")) mails)
    × (((ack office mails (bytes "c")).counters mails).processed
        ≡ u64 ((office.counters mails).processed + 1))
    × (contains (bytes "c") ((ack office mails (bytes "c")).inflight mails) ≡ false)
ack-held_example = ack-held office mails (bytes "c") office_distinct lent_out

dead_letter-held_example :
    let after = dead_letter office mails lent (some (bytes "no")) 9 (bytes "d") in
    Perm (held office mails) (bytes "c" ∷ held after mails)
    × Perm (held after (dlq_name mails)) (bytes "d" ∷ held office (dlq_name mails))
    × ((after.counters mails).dead ≡ u64 ((office.counters mails).dead + 1))
dead_letter-held_example =
    dead_letter-held office mails lent (some (bytes "no")) 9 (bytes "d") office_distinct lent_out

run-Ordered_example : Ordered (run new_memory (enqueues mails low 3 ∷ dequeues mails 1 4 ∷ []))
run-Ordered_example = run-Ordered (enqueues mails low 3 ∷ dequeues mails 1 4 ∷ [])

abbrev first_moment : Moment
first_moment = record { now = 20; fresh = bytes "d" }

abbrev second_moment : Moment
second_moment = record { now = 30; fresh = bytes "e" }

replay-dead_letter_example :
    let m' = (memory_store.dead_letter first_moment office mails lent (some (bytes "no"))).0 in
    let (m'', failure) = replay_dead memory_store second_moment m' mails (bytes "d") in
    (failure ≡ none)
    × (m''.queues mails
        ≡ office.queues mails
          ++ record lent {
            id = bytes "d";
            queue = mails;
            scheduled_at = 30;
            error = [];
            dead_at = 0;
          }
            ∷ [])
    × (m''.queues (dlq_name mails) ≡ office.queues (dlq_name mails))
unfolding put str_eq dlq_name
replay-dead_letter_example =
    replay-dead_letter office mails lent (some (bytes "no")) first_moment second_moment tt

next_run_least_example :
    (k : ℕ) × (next_run (pos 60) 100 330 ≡ some (100 + suc k * 60))
    × (330 < 100 + suc k * 60)
    × ((k ≡ 0) ⊎ (100 + k * 60 ≤ 330))
next_run_least_example = next_run_least 59 100 330
