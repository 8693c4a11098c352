-- ===== src/Broker/Handling/Budget.antt =====
-- internal/broker/broker.go: how one delivery of a message ends.
use shoebox.Base.{
  ◌+◌, ◌≡◌, Bool, false, ◌&&◌, Option, none, some, if◌then◌else◌, inl, inr, Bool-cases,
}
use shoebox.Base.Int.{pos, ltb_ℤ}
use shoebox.Base.Text.{Str}
use shoebox.Storage.{Time, Message}
use shoebox.Storage.Interface.{Moment, Store}
use shoebox.Broker.{Broker, Handler, add_duration}
use shoebox.Broker.Handling.{
  handle_with, failed, to_dead_letter, max_retries_exceeded, with_store, ack,
}

-- How one delivery of a message ends.
pub data Verdict : Type 0 where
  acknowledge : Verdict
  try_again : Message → Verdict
  bury : Message → Option Str → Verdict

-- A message that has used up its attempts is not handed to its handler.
abbrev pub exhausted : {S : Type 0} → Handler S → Message → Bool
exhausted h msg = ltb_ℤ (pos 0) h.max_retries && ltb_ℤ h.max_retries (pos msg.attempts)

abbrev pub attempted : Message → Message
attempted msg = record msg { attempts = msg.attempts + 1 }

-- The verdict on a message, given what its handler returns and the time of the failure.
unfoldable pub verdict : {S : Type 0} → Handler S → Message → Option Str → Time → Verdict
verdict h msg result now = if exhausted h msg then bury msg max_retries_exceeded else elim result [
  | none ↦ acknowledge
  | some e ↦
      if ltb_ℤ h.max_retries (pos (msg.attempts + 1))
      then bury (attempted msg) (some e)
      else try_again (record (attempted msg) {
        scheduled_at = add_duration now (h.backoff (pos (msg.attempts + 1)));
      })
]

-- Carries a verdict out: one call of the storage, or one more buffered acknowledgement.
pub settle :
    {S : Type 0} → Store S → Moment → Broker S → Str → Message → Option Str → Verdict → Broker S
settle st w b queue msg result acknowledge = (ack st w b queue msg.id).0
settle st w b queue msg result (try_again msg') =
    with_store b (st.retry w b.store queue msg' result).0
settle st w b queue msg result (bury msg' e) = to_dead_letter st w b queue msg' e

-- The state in which the verdict is carried out: that which the handler leaves, if it runs.
abbrev pub after_handler : {S : Type 0} → Broker S → Handler S → Message → Broker S
after_handler b h msg = if exhausted h msg then b else with_store b (h.chain b.store msg).0

settle_run :
    {S : Type 0} (st : Store S) (w : Moment) (b : Broker S) (h : Handler S) (queue : Str)
    (msg : Message) (r : Option Str)
    → exhausted h msg ≡ false
    → (elim r [ none ↦ (ack st w b queue msg.id).0 | some text ↦ failed st w b h queue msg text ])
      ≡ settle st w b queue msg r (verdict h msg r w.now)
unfolding settle verdict failed
settle_run st w b h queue msg none x = rw x
settle_run st w b h queue msg (some e) x =
    elim (Bool-cases (ltb_ℤ h.max_retries (pos (msg.attempts + 1)))) [
      | inl over ↦ rw x (rw over)
      | inr more ↦ rw x (rw more)
    ]

-- Handling a delivered message settles it by one verdict, on what the handler returned: exactly one
-- acknowledgement, retry or dead letter is carried out, in the state that the handler left. A
-- message that has used up a positive number of retries is buried, and its handler does not run.
pub handle_with-settle :
    {S : Type 0} (st : Store S) (w : Moment) (b : Broker S) (h : Handler S) (queue : Str)
    (msg : Message)
    → handle_with st w b h queue msg
      ≡ settle st w
          (after_handler b h msg)
          queue
          msg
          (h.chain b.store msg).1
          (verdict h msg (h.chain b.store msg).1 w.now)
unfolding handle_with
handle_with-settle st w b h queue msg = elim (Bool-cases (exhausted h msg)) [
  | inl e ↦ rw e (unfold settle verdict in rw e)
  | inr e ↦
      rw e (
        settle_run st w (with_store b (h.chain b.store msg).0) h queue msg (h.chain b.store msg).1
          e)
]
