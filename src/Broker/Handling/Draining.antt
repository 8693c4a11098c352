-- ===== src/Broker/Handling/Draining.antt =====
-- internal/broker/broker.go: `drainComplete`, and when it holds over the memory backend.
use shoebox.Base.{
  ◌≡◌, refl, ◌∙◌, ap, ℕ, Bool, true, false, not, ◌==◌, ltb, List, [], ◌∷◌, Option, none, some,
  if◌then◌else◌, if_elim, is_nil, length, Bool-cases, inl, inr, arith,
}
use shoebox.Base.Text.{Str}
use shoebox.Base.Maps.{put, contains}
use shoebox.Storage.{QueueStats, Error, ok, err}
use shoebox.Storage.Interface.{Moment, Store}
use shoebox.Broker.{Broker}
use shoebox.Broker.Handling.{flush_acks, take_acks, with_store}
use shoebox.Broker.Handling.Batching.{flush_empty, flush_taken}
use shoebox.Memory.{Memory}
use shoebox.Memory.Settle.{release, ack_each, ack_batch, add_processed, stats}
use shoebox.Memory.Backend.{memory_store}

module _ {S : Type 0} (st : Store S) where
  -- `drainComplete`, where `workers` of the queue are in flight.
  unfoldable pub drain_complete : Moment → Broker S → Str → ℕ → Broker S × Bool
  drain_complete w b queue workers =
      let (b', e) = flush_acks st w b queue in
      if not (workers == 0) then (b, false) else (
        b',
        elim e [
          | some x ↦ false
          | none ↦ elim (st.stats b'.store queue) [
            | ok counted ↦ counted.depth == 0
            | err x ↦ false
          ]
        ],
      )

  drain_decided :
      (w : Moment) (b b' : Broker S) (queue : Str) (workers : ℕ) (counted : QueueStats)
      → (workers == 0) ≡ true
      → flush_acks st w b queue ≡ (b', none)
      → st.stats b'.store queue ≡ ok counted
      → drain_complete w b queue workers ≡ (b', counted.depth == 0)
  unfolding drain_complete
  drain_decided w b b' queue workers counted z f h =
      rw (z, drain_complete)
        (ap
            (λ (r : Broker S × Option Error). (
              r.0,
              elim r.1 [
                | some x ↦ false
                | none ↦ elim (st.stats r.0.store queue) [
                  | ok counted ↦ counted.depth == 0
                  | err x ↦ false
                ]
              ],
            ))
            f
          ∙ rw h refl)

release-queues :
    (t : Bool) (m : Memory) (queue id : Str)
    → (if t then release m queue id else m).queues ≡ m.queues
unfolding release
release-queues t m queue id = ground arith

ack_each-queues :
    (ids : List Str) (m : Memory) (queue : Str) (n : ℕ)
    → (ack_each m queue ids n).0.queues ≡ m.queues
unfolding ack_each
ack_each-queues [] m queue n = refl
ack_each-queues (id ∷ ids) m queue n =
    ack_each-queues ids _ queue _ ∙ release-queues (contains id (m.inflight queue)) m queue id

-- Acknowledging takes no message out of those that wait.
ack_batch-queues :
    (ids : List Str) (m : Memory) (queue : Str) → (ack_batch m queue ids).queues ≡ m.queues
unfolding ack_batch add_processed
ack_batch-queues ids m queue =
    if_elim (λ (r : Memory). r.queues ≡ m.queues) (ltb 0 (ack_each m queue ids 0).1) _ _
      (λ t. ack_each-queues ids m queue 0) (λ t. ack_each-queues ids m queue 0)

length_zero : {A : Type 0} → (xs : List A) → (length xs == 0) ≡ is_nil xs
length_zero [] = refl
length_zero (x ∷ xs) = ground arith

module _ (w : Moment) (b : Broker Memory) (queue : Str) (workers : ℕ) where
  told : Memory
  told =
      if is_nil (b.pending_acks queue)
      then b.store
      else ack_batch b.store queue (b.pending_acks queue)

  flush_tells : flush_acks memory_store w b queue ≡ (with_store (take_acks b queue) told, none)
  unfolding told take_acks
  flush_tells = elim (Bool-cases (is_nil (b.pending_acks queue))) [
    | inl n ↦ flush_empty memory_store w b queue n ∙ rw n refl
    | inr n ↦ flush_taken memory_store w b queue n refl ∙ rw n refl
  ]

  told-queues : told.queues ≡ b.store.queues
  unfolding told
  told-queues =
      if_elim (λ (m : Memory). m.queues ≡ b.store.queues) (is_nil (b.pending_acks queue)) _ _
        (λ n. refl) (λ n. ack_batch-queues (b.pending_acks queue) b.store queue)

  -- Over the memory backend `drainComplete` is the test that no worker of the queue is in flight and that
  -- no message waits in it, due or not. Where no worker is, the acknowledgements that were buffered for
  -- the queue have been told to the backend in one batch and none is left; otherwise nothing changes.
  pub drain_complete-memory : drain_complete memory_store w b queue workers ≡ (
      if workers == 0
      then (
        record b {
          store =
              if is_nil (b.pending_acks queue)
              then b.store
              else ack_batch b.store queue (b.pending_acks queue);
          pending_acks = put b.pending_acks queue [];
        },
        is_nil (b.store.queues queue),
      )
      else (b, false))
  unfolding drain_complete stats take_acks told
  drain_complete-memory = elim (Bool-cases (workers == 0)) [
    | inl z ↦ rw (drain_decided memory_store w b _ queue workers _ z flush_tells refl) (
        rw z (
          ap (λ (t : Bool). (with_store (take_acks b queue) told, t))
            (length_zero (told.queues queue) ∙ ap (λ f. is_nil (f queue)) told-queues)))
    | inr z ↦ rw z refl
  ]
