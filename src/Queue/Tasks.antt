-- ===== src/Queue/Tasks.antt =====
-- task.go: typed tasks. A codec is an argument, `none` for a nil one.
use shoebox.Base.{List, Option, none, some}
use shoebox.Base.Text.{Str}
use shoebox.Storage.Interface.{Moment, Store}
use shoebox.Broker.{Broker, HandlerFunc, HandlerOptions}
use shoebox.Queue.{EnqueueOpt, Failure, enqueue_payload, handle}

-- A result with an error text.
pub data Coded (A : Type 0) : Type 0 where
  coded : A → Coded A
  refused : Str → Coded A

pub record TaskCodec (T : Type 0) : Type 0 where
  pub marshal : T → Coded Str
  pub unmarshal : Str → Coded T

pub data TaskFailure : Type 0 where
  nil_codec : TaskFailure
  not_marshalled : Str → TaskFailure
  not_enqueued : Failure → TaskFailure

abbrev pub task_failure : Option Failure → Option TaskFailure
task_failure none = none
task_failure (some e) = some (not_enqueued e)

module _ {S T : Type 0} where
  unfoldable pub enqueue_task :
      Store S
      → Moment
      → Broker S
      → Str
      → T
      → Option (TaskCodec T)
      → List EnqueueOpt
      → Broker S × Option TaskFailure
  enqueue_task st w b queue task none opts = (b, some nil_codec)
  enqueue_task st w b queue task (some codec) opts = elim (codec.marshal task) [
    | refused e ↦ (b, some (not_marshalled e))
    | coded payload ↦ let r = enqueue_payload st w b queue payload opts in (r.0, task_failure r.1)
  ]

  -- The handler that `HandleTaskWithCodec` registers; `nil_text` is the text of its nil-codec error.
  unfoldable pub task_handler :
      Option (TaskCodec T) → Str → (S → T → S × Option Str) → HandlerFunc S
  task_handler none nil_text handler s msg = (s, some nil_text)
  task_handler (some codec) nil_text handler s msg = elim (codec.unmarshal msg.payload) [
    | refused e ↦ (s, some e)
    | coded task ↦ handler s task
  ]

  unfoldable pub handle_task :
      Broker S
      → Str
      → Option (TaskCodec T)
      → Str
      → (S → T → S × Option Str)
      → Option HandlerOptions
      → Broker S
  unfolding task_handler
  handle_task b queue codec nil_text handler ho =
      handle b queue (task_handler codec nil_text handler) ho
