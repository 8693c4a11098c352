-- ===== src/Queue/TaskJourney.antt =====
-- task.go over internal/broker and internal/storage/memory.go: a task from its sender to its handler.
use shoebox.Base.{
  ◌≡◌, refl, ap, Bool, true, ◌||◌, List, [], ◌∷◌, ◌++◌, Option, none, some, arith, is_nil,
}
use shoebox.Base.Text.{Str}
use shoebox.Base.Maps.{put_self}
use shoebox.Storage.{Time, Message}
use shoebox.Storage.Interface.{Moment}
use shoebox.Memory.{Memory, append_pending, stamp}
use shoebox.Memory.Backend.{memory_store}
use shoebox.Dedupe.{DedupeStore}
use shoebox.Naming.{valid_queue_name}
use shoebox.Broker.{Broker}
use shoebox.Broker.Enqueueing.{EnqueueOpts, enqueue, enqueue_message, new_message, store_message}
use shoebox.Queue.{EnqueueOpt, enqueue_payload, apply_enqueue_options, broker_opts}
use shoebox.Queue.Tasks.{TaskCodec, coded, enqueue_task, task_handler, task_failure}
use shoebox.Memory as Mem

enqueue_message_unkeyed :
    (durable : Bool) (d : DedupeStore) (queue payload : Str) (opts : EnqueueOpts)
    (created scheduled clock : Time) (id : Str)
    → is_nil opts.dedupe_key ≡ true
    → enqueue_message durable d queue payload opts created scheduled clock id
      ≡ (d, some (new_message queue payload opts created scheduled id, []))
unfolding enqueue_message
enqueue_message_unkeyed durable d queue payload opts created scheduled clock id k =
    rw k (rw (or_true durable) refl)
  where
    or_true : (x : Bool) → (x || true) ≡ true
    or_true x = ground arith

enqueue_unkeyed :
    (w : Moment) (b : Broker Memory) (queue payload : Str) (opts : EnqueueOpts)
    → is_nil opts.dedupe_key ≡ true
    → enqueue memory_store w b queue payload opts ≡ (
      record b {
        store =
            Mem.enqueue b.store queue (new_message queue payload opts w.now w.now w.fresh) w.now;
      },
      none,
    )
unfolding enqueue store_message
enqueue_unkeyed w b queue payload opts k =
    ap (λ r. store_message memory_store w b queue r.0 r.1)
      (enqueue_message_unkeyed b.durable_dedupe b.dedupe queue payload opts w.now w.now w.now
        w.fresh k)

enqueue_payload_unkeyed :
    (w : Moment) (b : Broker Memory) (queue payload : Str) (opts : List EnqueueOpt)
    → valid_queue_name queue ≡ true
    → is_nil (apply_enqueue_options opts).dedupe_key ≡ true
    → enqueue_payload memory_store w b queue payload opts ≡ (
      record b {
        store =
            Mem.enqueue b.store queue
              (new_message queue payload
                (broker_opts (apply_enqueue_options opts))
                w.now
                w.now
                w.fresh)
              w.now;
      },
      none,
    )
unfolding enqueue_payload broker_opts
enqueue_payload_unkeyed w b queue payload opts v k =
    rw v (rw (enqueue_unkeyed w b queue payload (broker_opts (apply_enqueue_options opts)) k) refl)

enqueue_task_marshalled :
    {T : Type 0} (w : Moment) (b : Broker Memory) (queue payload : Str) (task : T)
    (codec : TaskCodec T) (opts : List EnqueueOpt)
    → codec.marshal task ≡ coded payload
    → enqueue_task memory_store w b queue task (some codec) opts
      ≡ (let r = enqueue_payload memory_store w b queue payload opts in (r.0, task_failure r.1))
unfolding enqueue_task
enqueue_task_marshalled w b queue payload task codec opts m = rw (m, enqueue_task) refl

task_handler_unmarshalled :
    {T : Type 0} (codec : TaskCodec T) (nil_text : Str) (task : T) (msg : Message) (s : Memory)
    (handler : Memory → T → Memory × Option Str)
    → codec.unmarshal msg.payload ≡ coded task
    → task_handler (some codec) nil_text handler s msg ≡ handler s task
unfolding task_handler
task_handler_unmarshalled codec nil_text task msg s handler u = rw (u, task_handler) refl

-- A task whose codec reads back what it wrote, enqueued under a valid queue name and without a dedupe
-- key, is accepted by a queue over the memory backend, and its one new message, at the end of the
-- queue, makes any handler of that codec run on that very task.
pub task_arrives :
    {T : Type 0} (w : Moment) (b : Broker Memory) (queue payload nil_text : Str) (task : T)
    (codec : TaskCodec T) (opts : List EnqueueOpt)
    → valid_queue_name queue ≡ true
    → is_nil (apply_enqueue_options opts).dedupe_key ≡ true
    → codec.marshal task ≡ coded payload
    → codec.unmarshal payload ≡ coded task
    → let (b', failure) = enqueue_task memory_store w b queue task (some codec) opts in
      (failure ≡ none)
      × (msg : Message) × (b'.store.queues queue ≡ b.store.queues queue ++ msg ∷ [])
      × ((s : Memory) (handler : Memory → T → Memory × Option Str)
          → task_handler (some codec) nil_text handler s msg ≡ handler s task)
unfolding Mem.enqueue stamp append_pending new_message
task_arrives w b queue payload nil_text task codec opts v k m u =
    let msg =
      new_message queue payload (broker_opts (apply_enqueue_options opts)) w.now w.now w.fresh in
    rw (enqueue_task_marshalled w b queue payload task codec opts m) (
      rw (enqueue_payload_unkeyed w b queue payload opts v k) (
        refl,
        stamp w.now msg,
        put_self b.store.queues queue _,
        λ s handler. task_handler_unmarshalled codec nil_text task (stamp w.now msg) s handler u,
      ))
