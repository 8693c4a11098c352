-- ===== src/Memory/Settle.antt =====
-- internal/storage/memory.go: acknowledgement, retry, dead letters, replay and inspection.
use shoebox.Base.{
  is_nil, ℕ, ◌+◌, List, [], ◌∷◌, Option, none, some, ltb, if◌then◌else◌, length, take,
}
use shoebox.Base.Int.{u64}
use shoebox.Base.Text.{Str, str_eq}
use shoebox.Base.Maps.{put, contains, discard}
use shoebox.Storage.{
  Time, Message, QueueStats, empty, Result, ok, err, dlq_name, dead_letter_message, replay_message,
}
use shoebox.Memory.{Memory, append_pending}

-- `delete(m.inflight[queue], id)`.
unfoldable pub release : Memory → Str → Str → Memory
release m queue id = record m { inflight = put m.inflight queue (discard id (m.inflight queue)) }

-- `s.Processed += n` on the counters of the queue; so for the others.
unfoldable pub add_processed : Memory → Str → ℕ → Memory
add_processed m queue n =
    let s = m.counters queue in
    record m { counters = put m.counters queue (record s { processed = u64 (s.processed + n) }) }

unfoldable pub ack : Memory → Str → Str → Memory
ack m queue id =
    if contains id (m.inflight queue) then add_processed (release m queue id) queue 1 else m

-- The loop of `AckBatch`, with the number of messages that it has removed.
unfoldable pub ack_each : Memory → Str → List Str → ℕ → Memory × ℕ
ack_each m queue [] processed = (m, processed)
ack_each m queue (id ∷ ids) processed =
    let held = contains id (m.inflight queue) in
    ack_each (if held then release m queue id else m) queue ids
      (if held then u64 (processed + 1) else processed)

unfoldable pub ack_batch : Memory → Str → List Str → Memory
ack_batch m queue ids =
    let (m', processed) = ack_each m queue ids 0 in
    if ltb 0 processed then add_processed m' queue processed else m'

unfoldable pub retry : Memory → Str → Message → Memory
retry m queue msg =
    let m' = append_pending (release m queue msg.id) queue (record msg { queue = queue }) in
    let s = m'.counters queue in
    record m' {
      counters =
          put m'.counters queue
            (record s { errors = u64 (s.errors + 1); retries = u64 (s.retries + 1) });
    }

unfoldable pub dead_letter : Memory → Str → Message → Option Str → Time → Str → Memory
dead_letter m queue msg e now id =
    let dead = dead_letter_message queue msg e now id in
    let m' = append_pending (release m queue msg.id) dead.queue dead in
    let s = m'.counters queue in
    record m' { counters = put m'.counters queue (record s { dead = u64 (s.dead + 1) }) }

-- The first message with the identifier, and the others: `append(pending[:i], pending[i+1:]...)`.
unfoldable pub pull : Str → List Message → Option (Message × List Message)
pull id [] = none
pull id (msg ∷ pending) =
    let rest = pull id pending in
    if str_eq msg.id id
    then some (msg, pending)
    else elim rest [ none ↦ none | some (found, others) ↦ some (found, msg ∷ others) ]

unfoldable pub replay : Memory → Str → Str → Time → Memory × Result (Unit {0})
replay m queue id now = elim (pull id (m.queues (dlq_name queue))) [
  | none ↦ (m, err empty)
  | some (msg, others) ↦
      let m' = append_pending m queue (replay_message queue msg now) in
      let m'' = add_processed m' (dlq_name queue) 1 in
      (record m'' { queues = put m''.queues (dlq_name queue) others }, ok tt)
]

unfoldable pub stats : Memory → Str → QueueStats
stats m queue = record (m.counters queue) { depth = length (m.queues queue) }

unfoldable pub list : Memory → Str → ℕ → Result (List Message)
list m queue limit =
    let pending = m.queues queue in
    if is_nil pending
    then err empty
    else ok (take (if ltb (length pending) limit then length pending else limit) pending)
