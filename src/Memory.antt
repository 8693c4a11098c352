-- ===== src/Memory.antt =====
-- internal/storage/memory.go: the in-process backend. The mutex makes each method one transition;
-- the clock, the identifiers of `NewMessageID` and the order in which Go walks a map are arguments.
pub mod Sorting
mod Picking
pub mod Steps
pub mod Delivery
mod Pulling
pub mod Upkeep
pub mod Custody
pub mod Backend
pub mod Settle
pub mod Periodic
use shoebox.Base.{
  ℕ, zero, suc, ◌+◌, ◌*◌, ◌≡◌, Bool, true, false, not, ◌&&◌, ◌||◌, List, [], ◌∷◌, ◌++◌, map, Option,
  none, some, ltb, leb, ◌==◌, if◌then◌else◌, length, is_nil,
}
use shoebox.Base.Int.{u64}
use shoebox.Base.Text.{Str, str_eq, bytes}
use shoebox.Base.Maps.{put, contains, add_key, discard}
use shoebox.Storage.{
  Time, Message, Schedule, QueueStats, Error, empty, schedule_exists, Result, ok, err, dlq_name,
  dead_letter_message, replay_message, periodic_message,
}
use Sorting.{sort}

pub record Memory : Type 0 where
  pub queues : Str → List Message
  pub counters : Str → QueueStats
  pub inflight : Str → List Str
  pub dirty : Str → Bool
  pub schedules : List Schedule

unfoldable pub new_memory : Memory
new_memory = record {
  queues = λ _. [];
  counters = λ q. record { queue = q; depth = 0; processed = 0; errors = 0; retries = 0; dead = 0 };
  inflight = λ _. [];
  dirty = λ _. false;
  schedules = [];
}

-- `m.queues[queue] = append(m.queues[queue], msg); m.dirty[queue] = true`.
unfoldable pub append_pending : Memory → Str → Message → Memory
append_pending m queue msg = record m {
  queues = put m.queues queue (m.queues queue ++ msg ∷ []);
  dirty = put m.dirty queue true;
}

abbrev pub default_time : Time → Time → Time
default_time t fallback = if t == 0 then fallback else t

-- The message with the times that `Enqueue` fills in.
unfoldable pub stamp : Time → Message → Message
stamp now msg =
    let created = default_time msg.created_at now in
    record msg { created_at = created; scheduled_at = default_time msg.scheduled_at created }

unfoldable pub enqueue : Memory → Str → Message → Time → Memory
enqueue m queue msg now = append_pending m queue (stamp now msg)

-- One round of the loop of `EnqueueBatch`: a message with no creation time is dated i µs after now.
unfoldable pub stamp_batch : Time → ℕ → Message → Message
stamp_batch now i msg = record msg {
  created_at = default_time msg.created_at (now + i * 1000);
  scheduled_at =
      default_time msg.scheduled_at (if msg.created_at == 0 then now else msg.created_at);
}

unfoldable pub enqueue_each : Memory → Str → List Message → Time → ℕ → Memory
enqueue_each m queue [] now i = m
enqueue_each m queue (msg ∷ msgs) now i =
    enqueue_each (append_pending m queue (stamp_batch now i msg)) queue msgs now (suc i)

unfoldable pub enqueue_batch : Memory → Str → List Message → Time → Memory
enqueue_batch m queue msgs now = enqueue_each m queue msgs now 0

-- The scan of `Dequeue`: `out` and `kept` are the two slices that it fills.
unfoldable pub scan :
    ℕ → Time → List Message → List Message → List Message → List Message × List Message
scan limit now [] out kept = (out, kept)
scan limit now (msg ∷ pending) out kept =
    let full = leb limit (length out) || ltb now msg.scheduled_at in
    scan limit now pending (if full then out else out ++ msg ∷ [])
      (if full then kept ++ msg ∷ [] else kept)

-- `for _, msg := range out { m.inflight[queue][msg.ID] = struct{}{} }`.
unfoldable pub mark : List Message → List Str → List Str
mark [] ids = ids
mark (msg ∷ out) ids = mark out (add_key msg.id ids)

-- What `Dequeue` returns and records once it has scanned the queue.
unfoldable pub deliver : Memory → Str → List Message → List Message → Memory × Result (List Message)
deliver m queue [] kept = (record m { queues = put m.queues queue kept }, err empty)
deliver m queue (msg ∷ out) kept = (
  record m {
    queues = put m.queues queue kept;
    inflight = put m.inflight queue (mark (msg ∷ out) (m.inflight queue));
  },
  ok (msg ∷ out),
)

-- `Dequeue` sorts only a queue that was written since the last sort.
unfoldable pub sort_dirty : Memory → Str → Memory
sort_dirty m queue =
    if m.dirty queue
    then record m {
      queues = put m.queues queue (sort (m.queues queue));
      dirty = put m.dirty queue false;
    }
    else m

unfoldable pub dequeue : Memory → Str → ℕ → Time → Memory × Result (List Message)
dequeue m queue limit now =
    let sorted = sort_dirty m queue in
    let (out, kept) = scan limit now (sorted.queues queue) [] [] in
    if is_nil (m.queues queue) then (m, err empty) else deliver sorted queue out kept
