-- ===== src/Broker/Enqueueing.antt =====
-- internal/broker/broker.go: from a payload and its options to a stored message, or to a duplicate
-- that is dropped. Waking the dispatcher and the metrics change no state that is modelled.
pub mod Duplicates
use shoebox.Base.{
  ℕ, suc, ◌+◌, ◌*◌, Bool, true, false, not, ◌&&◌, ◌||◌, List, [], ◌∷◌, ◌++◌, Option, none, some,
  ltb, ◌==◌, if◌then◌else◌, length, is_nil,
}
use shoebox.Base.Int.{ℤ, pos, ltb_ℤ}
use shoebox.Base.Text.{Str, bytes}
use shoebox.Storage.{Time, Message, Error}
use shoebox.Storage.Interface.{Moment, Store}
use shoebox.Dedupe.{DedupeStore, seen_or_add, delete_key, dedupe_ttl}
use shoebox.Broker.{Broker, add_duration}

pub record EnqueueOpts : Type 0 where
  pub delay : ℤ
  pub schedule : Time
  pub priority : ℤ
  pub dedupe_key : Str
  pub metadata : List (Str × Str)

-- `queue + ":" + opts.DedupeKey`.
unfoldable pub full_key : Str → Str → Str
full_key queue key = queue ++ (bytes ":" ++ key)

-- An absolute schedule wins over a delay.
unfoldable pub visible_at : EnqueueOpts → Time → Time
unfolding add_duration
visible_at opts t =
    if not (opts.schedule == 0)
    then opts.schedule
    else if ltb_ℤ (pos 0) opts.delay
    then add_duration t opts.delay
    else t

unfoldable pub new_message : Str → Str → EnqueueOpts → Time → Time → Str → Message
unfolding visible_at
new_message queue payload opts created scheduled id = record {
  id = id;
  queue = queue;
  payload = payload;
  attempts = 0;
  max_retries = pos 0;
  created_at = created;
  scheduled_at = visible_at opts scheduled;
  dedupe_key = opts.dedupe_key;
  metadata = opts.metadata;
  priority = opts.priority;
  error = [];
  dead_at = 0;
}

-- `enqueueMessage`: `none` for a duplicate, and otherwise the message with the key that was added,
-- which is empty if none was. `clock` is what the dedupe store reads.
unfoldable pub enqueue_message :
    Bool
    → DedupeStore
    → Str
    → Str
    → EnqueueOpts
    → Time
    → Time
    → Time
    → Str
    → DedupeStore × Option (Message × Str)
unfolding full_key new_message
enqueue_message durable d queue payload opts created scheduled clock id =
    let key = full_key queue opts.dedupe_key in
    let (d', seen) = seen_or_add d key dedupe_ttl clock in
    let msg = new_message queue payload opts created scheduled id in
    if durable || is_nil opts.dedupe_key
    then (d, some (msg, []))
    else if seen
    then (d', none)
    else (d', some (msg, key))

unfoldable pub rollback_dedupe : DedupeStore → List Str → DedupeStore
rollback_dedupe d [] = d
rollback_dedupe d (key ∷ keys) = rollback_dedupe (if is_nil key then d else delete_key d key) keys

-- The loop of `EnqueueBatch`: a message is dated as many µs after now as messages precede it.
unfoldable pub batch_messages :
    Bool
    → DedupeStore
    → Str
    → List (Str × EnqueueOpts)
    → Time
    → (ℕ → Str)
    → List Message
    → List Str
    → DedupeStore × (List Message × List Str)
batch_messages durable d queue [] now ids messages keys = (d, (messages, keys))
batch_messages durable d queue ((payload, opts) ∷ items) now ids messages keys =
    let n = length messages in
    let (d', r) = enqueue_message durable d queue payload opts (now + n * 1000) now now (ids n) in
    batch_messages durable d' queue items now ids
      (elim r [ none ↦ messages | some (msg, key) ↦ messages ++ msg ∷ [] ])
      (elim r [ none ↦ keys | some (msg, key) ↦ if is_nil key then keys else keys ++ key ∷ [] ])

module _ {S : Type 0} (st : Store S) where
  -- The rest of `Enqueue`, on what `enqueueMessage` returned: a key whose message could not be
  -- stored is forgotten.
  unfoldable pub store_message :
      Moment → Broker S → Str → DedupeStore → Option (Message × Str) → Broker S × Option Error
  unfolding rollback_dedupe
  store_message w b queue d none = (record b { dedupe = d }, none)
  store_message w b queue d (some (msg, key)) =
      let (s, e) = st.enqueue w b.store queue msg in
      let b' = record b { store = s; dedupe = d } in
      elim e [
        | none ↦ (b', none)
        | some x ↦ (record b' { dedupe = rollback_dedupe d (key ∷ []) }, some x)
      ]

  unfoldable pub enqueue : Moment → Broker S → Str → Str → EnqueueOpts → Broker S × Option Error
  enqueue w b queue payload opts =
      let now = w.now in
      let r = enqueue_message b.durable_dedupe b.dedupe queue payload opts now now now w.fresh in
      store_message w b queue r.0 r.1

  unfoldable pub enqueue_batch :
      Moment → (ℕ → Str) → Broker S → Str → List (Str × EnqueueOpts) → Broker S × Option Error
  enqueue_batch w ids b queue items =
      let (d, (messages, keys)) =
        batch_messages b.durable_dedupe b.dedupe queue items w.now ids [] [] in
      let (s, e) = st.enqueue_batch w b.store queue messages in
      if is_nil messages then (record b { dedupe = d }, none) else elim e [
        | none ↦ (record b { store = s; dedupe = d }, none)
        | some x ↦ (record b { store = s; dedupe = rollback_dedupe d keys }, some x)
      ]
