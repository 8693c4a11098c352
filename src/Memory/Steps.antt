-- ===== src/Memory/Steps.antt =====
-- internal/storage/memory.go: a history of calls, each one transition under the mutex.
use shoebox.Base.{ℕ, List, [], ◌∷◌, Option}
use shoebox.Base.Text.{Str}
use shoebox.Storage.{Time, Message, Schedule}
use shoebox.Memory.{Memory, enqueue, enqueue_batch, dequeue}
use shoebox.Memory.Settle.{ack, ack_batch, retry, dead_letter, replay}
use shoebox.Memory.Periodic.{create_schedule, update_schedule, delete_schedule, run_schedule}

-- Every call that can change the state, with what it reads of the clock and of the random source.
pub data Call : Type 0 where
  enqueues : Str → Message → Time → Call
  enqueues_batch : Str → List Message → Time → Call
  dequeues : Str → ℕ → Time → Call
  acks : Str → Str → Call
  acks_batch : Str → List Str → Call
  retries : Str → Message → Call
  dead_letters : Str → Message → Option Str → Time → Str → Call
  replays : Str → Str → Time → Call
  creates updates : Schedule → Call
  deletes : Str → Call
  runs : Schedule → Time → Time → Time → Str → Call

unfoldable pub step : Memory → Call → Memory
step m (enqueues q msg now) = enqueue m q msg now
step m (enqueues_batch q msgs now) = enqueue_batch m q msgs now
step m (dequeues q limit now) = (dequeue m q limit now).0
step m (acks q id) = ack m q id
step m (acks_batch q ids) = ack_batch m q ids
step m (retries q msg) = retry m q msg
step m (dead_letters q msg e now id) = dead_letter m q msg e now id
step m (replays q id now) = (replay m q id now).0
step m (creates s) = (create_schedule m s).0
step m (updates s) = (update_schedule m s).0
step m (deletes id) = delete_schedule m id
step m (runs s now next clock id) = (run_schedule m s now next clock id).0

unfoldable pub run : Memory → List Call → Memory
unfolding step
run m [] = m
run m (c ∷ cs) = run (step m c) cs
