-- ===== src/Queue.antt =====
-- shoebox.go and options.go: the public queue, over a broker on the memory backend; its state is that
-- of the broker. What the caller gives is checked and handed on. The enqueue options are functions,
-- as in the source; the variadic handler options are given or not. Payloads and metadata are values,
-- so that copying them leaves no trace.
pub mod Tasks
pub mod Periodic
pub mod Opening
pub mod Building
pub mod TaskJourney
use shoebox.Base.{
  ℕ, Bool, true, false, not, ◌||◌, List, [], ◌∷◌, map, Option, none, some, ◌==◌, if◌then◌else◌,
  is_nil, ◌⊎◌, inl, inr,
}
use shoebox.Base.Int.{ℤ, pos, ltb_ℤ}
use shoebox.Base.Text.{Str, str_eq, bytes}
use shoebox.Storage.{Time, Schedule, Error, schedule_exists, Result, ok, err}
use shoebox.Storage.Interface.{Moment, Store}
use shoebox.Memory.{Memory, new_memory}
use shoebox.Memory.Periodic.{create_schedule, delete_schedule, list_schedules}
use shoebox.Memory.Backend.{memory_store, error_of}
use shoebox.Naming.{valid_queue_name}
use shoebox.Broker.{
  Broker, HandlerFunc, HandlerOptions, clamp_retries, default_backoff, register, new_broker,
}
use shoebox.Broker.Enqueueing.{EnqueueOpts, enqueue, enqueue_batch}

pub record EnqueueOptions : Type 0 where
  pub delay : ℤ
  pub schedule : Time
  pub dedupe_key : Str
  pub priority : ℤ
  pub metadata : List (Str × Str)

abbrev pub EnqueueOpt : Type 0
EnqueueOpt = EnqueueOptions → EnqueueOptions

unfoldable pub delay_by : ℤ → EnqueueOpt
delay_by d o = record o { delay = d }

unfoldable pub schedule_at : Time → EnqueueOpt
schedule_at t o = record o { schedule = t }

unfoldable pub with_dedupe_key : Str → EnqueueOpt
with_dedupe_key k o = record o { dedupe_key = k }

unfoldable pub with_metadata : List (Str × Str) → EnqueueOpt
with_metadata m o = record o { metadata = m }

unfoldable pub with_priority : ℤ → EnqueueOpt
with_priority p o = record o { priority = p }

-- The loop over the options, from `EnqueueOptions{}`.
unfoldable pub apply_each : List EnqueueOpt → EnqueueOptions → EnqueueOptions
apply_each [] eo = eo
apply_each (opt ∷ opts) eo = apply_each opts (opt eo)

unfoldable pub apply_enqueue_options : List EnqueueOpt → EnqueueOptions
unfolding apply_each
apply_enqueue_options opts =
    apply_each opts
      (record { delay = pos 0; schedule = 0; dedupe_key = []; priority = pos 0; metadata = [] })

unfoldable pub broker_opts : EnqueueOptions → EnqueueOpts
broker_opts eo = record {
  delay = eo.delay;
  schedule = eo.schedule;
  priority = eo.priority;
  dedupe_key = eo.dedupe_key;
  metadata = eo.metadata;
}

-- The errors of the public calls; `broker_error` is one that comes from below.
pub data Failure : Type 0 where
  invalid_queue_name id_required interval_not_positive : Failure
  unsupported_policy durable_needs_postgres : Failure
  broker_error : Error → Failure

abbrev pub failure_of : Option Error → Option Failure
failure_of none = none
failure_of (some e) = some (broker_error e)

-- The size and the interval of acknowledgement batches: their defaults where they are not positive,
-- and 0 where batching is off.
unfoldable pub batch_option : Bool → ℤ → ℤ → ℤ
batch_option enabled fallback n =
    if enabled then (if ltb_ℤ (pos 0) n then n else fallback) else pos 0

unfoldable pub known_policy : Str → Bool
known_policy policy =
    str_eq policy []
    || str_eq policy (bytes "unbounded_ttl")
    || str_eq policy (bytes "bounded_lru")
    || str_eq policy (bytes "durable")

-- `New` with the memory backend.
unfoldable pub new_memory_queue : Str → ℤ → Bool → ℤ → ℤ → Broker Memory ⊎ Failure
unfolding known_policy
new_memory_queue policy capacity enabled size interval =
    if not (known_policy policy)
    then inr unsupported_policy
    else if str_eq policy (bytes "durable")
    then inr durable_needs_postgres
    else inl (
        new_broker new_memory policy capacity (str_eq policy (bytes "durable"))
          (batch_option enabled (pos 50) size) (batch_option enabled (pos 10000000) interval))

-- The options of `Handle`: 5 retries where none are given.
unfoldable pub handler_options : Option HandlerOptions → HandlerOptions
handler_options none = record {
  max_retries = pos 5;
  backoff = some (default_backoff none);
  timeout = pos 0;
}
handler_options (some ho) = record ho {
  max_retries = clamp_retries ho.max_retries;
  backoff = some (default_backoff ho.backoff);
}

unfoldable pub handle :
    {S : Type 0} → Broker S → Str → HandlerFunc S → Option HandlerOptions → Broker S
unfolding handler_options
handle b queue h ho = register b queue h (handler_options ho)

module _ {S : Type 0} (st : Store S) where
  unfoldable pub enqueue_payload :
      Moment → Broker S → Str → Str → List EnqueueOpt → Broker S × Option Failure
  unfolding broker_opts apply_enqueue_options
  enqueue_payload w b queue payload opts =
      let r = enqueue st w b queue payload (broker_opts (apply_enqueue_options opts)) in
      if not (valid_queue_name queue) then (b, some invalid_queue_name) else (r.0, failure_of r.1)

  unfoldable pub enqueue_items :
      Moment → (ℕ → Str) → Broker S → Str → List (Str × List EnqueueOpt) → Broker S × Option Failure
  unfolding broker_opts apply_enqueue_options
  enqueue_items w ids b queue items =
      let batch =
        map (λ (i : Str × List EnqueueOpt). (i.0, broker_opts (apply_enqueue_options i.1))) items in
      let r = enqueue_batch st w ids b queue batch in
      if not (valid_queue_name queue)
      then (b, some invalid_queue_name)
      else if is_nil items
      then (b, none)
      else (r.0, failure_of r.1)

pub record PeriodicJob : Type 0 where
  pub id : Str
  pub queue : Str
  pub payload : Str
  pub every : ℤ
  pub start_at : Time
  pub enabled : Bool

-- The schedule that a job is stored as, at the time `now` of its registration.
unfoldable pub job_schedule : PeriodicJob → Time → Schedule
job_schedule job now = record {
  id = job.id;
  queue = job.queue;
  payload = job.payload;
  enqueue_options = [];
  interval = job.every;
  next_run_at = if job.start_at == 0 then now else job.start_at;
  enabled = job.enabled;
  created_at = now;
  updated_at = now;
}

-- `existing.ID == job.ID` for one of them.
unfoldable pub any_id : Str → List Schedule → Bool
any_id id [] = false
any_id id (s ∷ ss) = str_eq s.id id || any_id id ss

-- `walk` is the list of all schedules, in the order in which the map is walked.
unfoldable pub register_periodic :
    Broker Memory → List Schedule → PeriodicJob → Time → Broker Memory × Option Failure
unfolding any_id
register_periodic b walk job now =
    let r = create_schedule b.store (job_schedule job now) in
    if is_nil job.id
    then (b, some id_required)
    else if not (valid_queue_name job.queue)
    then (b, some invalid_queue_name)
    else if not (ltb_ℤ (pos 0) job.every)
    then (b, some interval_not_positive)
    else if any_id job.id (list_schedules walk [])
    then (b, some (broker_error schedule_exists))
    else (record b { store = r.0 }, failure_of (error_of r.1))

unfoldable pub remove_periodic : Broker Memory → Str → Broker Memory × Option Failure
remove_periodic b id =
    if is_nil id
    then (b, some id_required)
    else (record b { store = delete_schedule b.store id }, none)

unfoldable pub periodic_job : Schedule → PeriodicJob
periodic_job s = record {
  id = s.id;
  queue = s.queue;
  payload = s.payload;
  every = s.interval;
  start_at = s.next_run_at;
  enabled = s.enabled;
}

unfoldable pub periodic_jobs : List Schedule → List PeriodicJob
unfolding periodic_job
periodic_jobs walk = map periodic_job (list_schedules walk [])
