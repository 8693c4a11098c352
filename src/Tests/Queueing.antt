-- ===== src/Tests/Queueing.antt =====
-- Applications of the theorems on the public queue.
use shoebox.Base.{◌≡◌, refl, true, false, [], ◌∷◌, ◌++◌, Option, none, some}
use shoebox.Base.Int.{pos}
use shoebox.Base.Text.{Str, bytes, str_eq}
use shoebox.Storage.{Message}
use shoebox.Storage.Interface.{Moment}
use shoebox.Memory.{Memory}
use shoebox.Memory.Backend.{memory_store}
use shoebox.Naming.{valid_queue_name}
use shoebox.Broker.{Broker}
use shoebox.Dedupe.{ttl_store}
use shoebox.Queue.{PeriodicJob, apply_enqueue_options}
use shoebox.Queue.Tasks.{TaskCodec, coded, enqueue_task, task_handler}
use shoebox.Queue.TaskJourney.{task_arrives}
use shoebox.Tests.{mails, office}

abbrev counter : Broker Memory
counter = record {
  store = office;
  middleware = [];
  handlers = λ _. none;
  pending_acks = λ _. [];
  ack_batch_size = pos 0;
  ack_loop = false;
  dedupe = ttl_store [];
  durable_dedupe = false;
}

abbrev daily : PeriodicJob
daily = record {
  id = bytes "d";
  queue = mails;
  payload = [];
  every = pos 1440;
  start_at = 0;
  enabled = true;
}

-- A task is its own text.
abbrev plain : TaskCodec Str
plain = record { marshal = λ t. coded t; unmarshal = λ p. coded p }

abbrev dusk : Moment
dusk = record { now = 70; fresh = bytes "u" }

task_arrives_example :
    let (b', failure) = enqueue_task memory_store dusk counter mails (bytes "t") (some plain) [] in
    (failure ≡ none)
    × (msg : Message) × (b'.store.queues mails ≡ office.queues mails ++ msg ∷ [])
    × ((s : Memory) (handler : Memory → Str → Memory × Option Str)
        → task_handler (some plain) (bytes "nil") handler s msg ≡ handler s (bytes "t"))
unfolding valid_queue_name str_eq apply_enqueue_options
task_arrives_example =
    task_arrives dusk counter mails (bytes "t") (bytes "nil") (bytes "t") plain [] refl refl refl
      refl
