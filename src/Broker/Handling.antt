-- ===== src/Broker/Handling.antt =====
-- internal/broker/broker.go: what becomes of one delivered message, and the batching of
-- acknowledgements.
pub mod Budget
pub mod Lives
pub mod Batching
pub mod Flushing
pub mod Draining
pub mod Replaying
use shoebox.Base.{
  is_nil, ℕ, suc, ◌+◌, Bool, true, false, not, ◌&&◌, ◌||◌, List, [], ◌∷◌, ◌++◌, Option, none, some,
  ltb, leb, if◌then◌else◌, length,
}
use shoebox.Base.Int.{ℤ, pos, ltb_ℤ, ◌≤ℤ◌}
use shoebox.Base.Text.{Str, bytes}
use shoebox.Base.Maps.{put}
use shoebox.Storage.{Time, Message, Error}
use shoebox.Storage.Interface.{Moment, Store}
use shoebox.Broker.{Broker, Handler, add_duration}

-- `delete(b.pendingAcks, queue)`.
unfoldable pub take_acks : {S : Type 0} → Broker S → Str → Broker S
take_acks b queue = record b { pending_acks = put b.pending_acks queue [] }

-- `b.pendingAcks[queue] = append(ids, b.pendingAcks[queue]...)`.
unfoldable pub restore_acks : {S : Type 0} → Broker S → Str → List Str → Broker S
restore_acks b queue ids = record b {
  pending_acks = put b.pending_acks queue (ids ++ b.pending_acks queue);
}

-- `b.pendingAcks[queue] = append(b.pendingAcks[queue], msgID)`.
unfoldable pub buffer_ack : {S : Type 0} → Broker S → Str → Str → Broker S
buffer_ack b queue id = record b {
  pending_acks = put b.pending_acks queue (b.pending_acks queue ++ id ∷ []);
}

abbrev pub with_store : {S : Type 0} → Broker S → S → Broker S
with_store b s = record b { store = s }

abbrev pub max_retries_exceeded : Option Str
max_retries_exceeded = some (bytes "max retries exceeded")

module _ {S : Type 0} (st : Store S) where
  -- `flushAcks`: the buffer is emptied under the lock, the storage is called outside it, and on an
  -- error what was taken is put back in front of what came in between.
  unfoldable pub flush_acks : Moment → Broker S → Str → Broker S × Option Error
  flush_acks w b queue =
      let ids = b.pending_acks queue in
      let b' = take_acks b queue in
      let (s, e) = st.ack_batch w b'.store queue ids in
      let b'' = with_store b' s in
      if is_nil ids
      then (b', none)
      else elim e [ none ↦ (b'', none) | some x ↦ (restore_acks b'' queue ids, some x) ]

  -- `flushAllAcks` over the queues in the order of the walk of the map; it reports the first error.
  unfoldable pub flush_all_acks :
      Moment → Broker S → List Str → Option Error → Broker S × Option Error
  flush_all_acks w b [] first = (b, first)
  flush_all_acks w b (queue ∷ queues) first =
      let (b', e) = flush_acks w b queue in
      flush_all_acks w b' queues (elim first [ none ↦ e | some x ↦ some x ])

  unfoldable pub ack : Moment → Broker S → Str → Str → Broker S × Option Error
  ack w b queue id =
      let (s, e) = st.ack w b.store queue id in
      let b' = buffer_ack b queue id in
      if not (ltb_ℤ (pos 0) b.ack_batch_size) || not b.ack_loop
      then (with_store b s, e)
      else if not (ltb_ℤ (pos (length (b'.pending_acks queue))) b.ack_batch_size)
      then flush_acks w b' queue
      else (b', none)

  unfoldable pub to_dead_letter : Moment → Broker S → Str → Message → Option Str → Broker S
  to_dead_letter w b queue msg e = with_store b (st.dead_letter w b.store queue msg e).0

  -- A handler's error: the attempt is counted, and the message is retried after the backoff, or
  -- dead-lettered once it has been attempted more than `MaxRetries` times.
  unfoldable pub failed : Moment → Broker S → Handler S → Str → Message → Str → Broker S
  failed w b h queue msg e =
      let msg' = record msg { attempts = msg.attempts + 1 } in
      let delay = h.backoff (pos msg'.attempts) in
      let again = record msg' { scheduled_at = add_duration w.now delay } in
      if ltb_ℤ h.max_retries (pos msg'.attempts)
      then to_dead_letter w b queue msg' (some e)
      else with_store b (st.retry w b.store queue again (some e)).0

  -- `handleOne` with the handler that it found.
  unfoldable pub handle_with : Moment → Broker S → Handler S → Str → Message → Broker S
  handle_with w b h queue msg =
      let (s, e) = h.chain b.store msg in
      if ltb_ℤ (pos 0) h.max_retries && ltb_ℤ h.max_retries (pos msg.attempts)
      then to_dead_letter w b queue msg max_retries_exceeded
      else elim e [
        | none ↦ (ack w (with_store b s) queue msg.id).0
        | some text ↦ failed w (with_store b s) h queue msg text
      ]

  -- Without a handler the message goes back for a tenth of a second.
  unfoldable pub handle_one : Moment → Broker S → Str → Message → Broker S
  handle_one w b queue msg = elim (b.handlers queue) [
    | none ↦
        with_store b
          (st.enqueue w b.store queue (record msg { scheduled_at = w.now + 100000000 })).0
    | some h ↦ handle_with w b h queue msg
  ]
