-- ===== src/Storage/Interface.antt =====
-- internal/storage/storage.go: the `Storage` interface, over the state S of a backend. An operation
-- returns the new state with its error, `none` for nil; what it reads of the clock and of the random
-- source is its `Moment`.
use shoebox.Base.{ℕ, List, Option}
use shoebox.Base.Text.{Str}
use shoebox.Storage.{Time, Message, QueueStats, Error, Result}

pub record Moment : Type 0 where
  pub now : Time
  pub fresh : Str

pub record Store (S : Type 0) : Type 0 where
  pub enqueue : Moment → S → Str → Message → S × Option Error
  pub enqueue_batch : Moment → S → Str → List Message → S × Option Error
  pub dequeue : Moment → S → Str → ℕ → S × Result (List Message)
  pub ack : Moment → S → Str → Str → S × Option Error
  pub ack_batch : Moment → S → Str → List Str → S × Option Error
  pub retry : Moment → S → Str → Message → Option Str → S × Option Error
  pub dead_letter : Moment → S → Str → Message → Option Str → S × Option Error
  pub replay : Moment → S → Str → Str → S × Option Error
  pub stats : S → Str → Result QueueStats
  pub list : S → Str → ℕ → Result (List Message)
