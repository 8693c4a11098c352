-- ===== src/Broker/Handling/Batching.antt =====
-- internal/broker/broker.go: buffered acknowledgements.
use shoebox.Base.{
  ◌≡◌, refl, ◌∙◌, ap, true, false, List, [], ◌++◌, Option, none, some, if◌then◌else◌, ◌⊎◌, inl, inr,
  Bool-cases, Option-cases, is_nil, append-nil,
}
use shoebox.Base.Text.{Str}
use shoebox.Base.Maps.{put, put_self}
use shoebox.Storage.{Error}
use shoebox.Storage.Interface.{Moment, Store}
use shoebox.Broker.{Broker}
use shoebox.Broker.Handling.{flush_acks, take_acks, restore_acks, with_store}

module _ {S : Type 0} (st : Store S) (w : Moment) (b : Broker S) (queue : Str) where
  -- What the storage answers to the batch.
  abbrev pub answer : S × Option Error
  answer = st.ack_batch w b.store queue (b.pending_acks queue)

  pub flush_empty :
      is_nil (b.pending_acks queue) ≡ true → flush_acks st w b queue ≡ (take_acks b queue, none)
  unfolding flush_acks
  flush_empty e = rw e refl

  pub flush_taken :
      is_nil (b.pending_acks queue) ≡ false
      → answer.1 ≡ none
      → flush_acks st w b queue ≡ (with_store (take_acks b queue) answer.0, none)
  unfolding flush_acks take_acks
  flush_taken e f = rw (e, f, flush_acks) refl

  pub flush_refused :
      (x : Error)
      → is_nil (b.pending_acks queue) ≡ false
      → answer.1 ≡ some x
      → flush_acks st w b queue ≡ (
        restore_acks (with_store (take_acks b queue) answer.0) queue (b.pending_acks queue),
        some x,
      )
  unfolding flush_acks take_acks restore_acks
  flush_refused x e f = rw (e, f, flush_acks) refl

-- A flush loses no acknowledgement: it either reports no error, with an empty buffer and with every
-- buffered identifier, if there was one, told to the storage in one batch, or it reports the
-- storage's error and the buffer holds the identifiers that it held, in their order.
flush_acks-all_or_none :
    {S : Type 0} (st : Store S) (w : Moment) (b : Broker S) (queue : Str)
    → let told = st.ack_batch w b.store queue (b.pending_acks queue) in
      let (b', e) = flush_acks st w b queue in
      ((e ≡ none)
        × (b'.pending_acks queue ≡ [])
        × (b'.store ≡ (if is_nil (b.pending_acks queue) then b.store else told.0)))
      ⊎ ((e ≡ told.1) × (b'.store ≡ told.0) × (b'.pending_acks queue ≡ b.pending_acks queue))
unfolding take_acks restore_acks
flush_acks-all_or_none st w b queue = elim (Bool-cases (is_nil (b.pending_acks queue))) [
  | inl n ↦
      rw (flush_empty st w b queue n) (inl (refl, put_self b.pending_acks queue [], rw n refl))
  | inr n ↦ elim (Option-cases (answer st w b queue).1) [
    | inl e ↦
        rw (flush_taken st w b queue n e) (inl (refl, put_self b.pending_acks queue [], rw n refl))
    | inr (x, e) ↦
        rw (flush_refused st w b queue x n e) (inr (rw e refl, refl, restored b.pending_acks))
  ]
]
  where
    restored :
        (f : Str → List Str)
        → put (put f queue []) queue (f queue ++ put f queue [] queue) queue ≡ f queue
    restored f =
        put_self (put f queue []) queue _
        ∙ ap (λ l. f queue ++ l) (put_self f queue [])
        ∙ append-nil (f queue)
