-- ===== src/Broker/Handling/Flushing.antt =====
-- internal/broker/broker.go: the flush of every queue, as Shutdown and the flush loop make it.
use shoebox.Base.{
  ◌≡◌, ◌≢◌, refl, sym, subst, ◌∙◌, ap, List, [], ◌∷◌, Option, none, some, arith, All, inl, inr,
  Bool-cases, Option-cases, is_nil,
}
use shoebox.Base.Text.{Str}
use shoebox.Base.Maps.{put, put_self}
use shoebox.Storage.{Error}
use shoebox.Storage.Interface.{Moment, Store}
use shoebox.Broker.{Broker}
use shoebox.Broker.Handling.{flush_acks, flush_all_acks, take_acks}
use shoebox.Broker.Handling.Batching.{answer, flush_empty, flush_taken, flush_refused}

put_empty : (f : Str → List Str) (q j : Str) → f j ≡ [] → put f q [] j ≡ []
unfolding put
put_empty f q j h = ground arith

module _ {S : Type 0} (st : Store S) (w : Moment) where
  flush_ok_pending :
      (b : Broker S) (queue : Str)
      → (flush_acks st w b queue).1 ≡ none
      → (flush_acks st w b queue).0.pending_acks ≡ put b.pending_acks queue []
  unfolding take_acks
  flush_ok_pending b queue h = elim (Bool-cases (is_nil (b.pending_acks queue))) [
    | inl n ↦ rw (flush_empty st w b queue n) refl
    | inr n ↦ elim (Option-cases (answer st w b queue).1) [
      | inl e ↦ rw (flush_taken st w b queue n e) refl
      | inr (x, e) ↦ let bad : some x ≡ none = rw (flush_refused st w b queue x n e) at h in cc
    ]
  ]

  flush_all_failed :
      (queues : List Str) (b : Broker S) (x : Error)
      → (flush_all_acks st w b queues (some x)).1 ≡ some x
  unfolding flush_all_acks
  flush_all_failed [] b x = refl
  flush_all_failed (q ∷ queues) b x = flush_all_failed queues (flush_acks st w b q).0 x

  -- Without an error at the end there was none on the way.
  flush_all_head :
      (q : Str) (queues : List Str) (b : Broker S)
      → (flush_all_acks st w b (q ∷ queues) none).1 ≡ none
      → ((flush_acks st w b q).1 ≡ none)
        × (flush_all_acks st w b (q ∷ queues) none
            ≡ flush_all_acks st w (flush_acks st w b q).0 queues none)
  unfolding flush_all_acks
  flush_all_head q queues b h = elim (Option-cases (flush_acks st w b q).1) [
    | inl e ↦ (e, ap (λ (o : Option Error). flush_all_acks st w (flush_acks st w b q).0 queues o) e)
    | inr (x, e) ↦
        let failed_there = flush_all_failed queues (flush_acks st w b q).0 x in
        let same =
          ap (λ (o : Option Error). (flush_all_acks st w (flush_acks st w b q).0 queues o).1) e in
        absurd (some_none x (sym (same ∙ failed_there) ∙ h))
  ]
    where
      some_none : (x : Error) → some x ≢ none
      some_none x = ground arith

  flush_all_keeps :
      (queues : List Str) (b : Broker S) (j : Str)
      → (flush_all_acks st w b queues none).1 ≡ none
      → b.pending_acks j ≡ []
      → (flush_all_acks st w b queues none).0.pending_acks j ≡ []
  unfolding flush_all_acks
  flush_all_keeps [] b j h e = e
  flush_all_keeps (q ∷ queues) b j h e =
      let (fine, step) = flush_all_head q queues b h in
      let after = flush_acks st w b q in
      let rest_fine : (flush_all_acks st w after.0 queues none).1 ≡ none =
        sym (ap (λ r. r.1) step) ∙ h in
      ap (λ r. r.0.pending_acks j) step
      ∙ flush_all_keeps queues after.0 j rest_fine
          (ap (λ f. f j) (flush_ok_pending b q fine) ∙ put_empty b.pending_acks q j e)

-- A flush of all queues that reports no error leaves no acknowledgement buffered for any of them,
-- in whatever order they are flushed.
flush_all_acks-empties :
    {S : Type 0} (st : Store S) (w : Moment) (queues : List Str) (b : Broker S)
    → (flush_all_acks st w b queues none).1 ≡ none
    → All (λ q. (flush_all_acks st w b queues none).0.pending_acks q ≡ []) queues
flush_all_acks-empties st w [] b h = tt
flush_all_acks-empties st w (q ∷ queues) b h =
    let (fine, step) = flush_all_head st w q queues b h in
    let after = flush_acks st w b q in
    let rest_fine : (flush_all_acks st w after.0 queues none).1 ≡ none =
      sym (ap (λ r. r.1) step) ∙ h in
    subst (λ r. All (λ j. r.0.pending_acks j ≡ []) (q ∷ queues)) (sym step)
      (
        flush_all_keeps st w queues after.0 q rest_fine
            (ap (λ f. f q) (flush_ok_pending st w b q fine) ∙ put_self b.pending_acks q []),
        flush_all_acks-empties st w queues after.0 rest_fine,
      )
