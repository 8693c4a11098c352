-- ===== src/Postgres/Schedules.antt =====
-- internal/storage/postgres.go: periodic jobs in PostgreSQL. The options of a job are stored as JSONB,
-- which a text that is not JSON does not become.
use shoebox.Base.{
  ℕ, Bool, true, false, not, ◌&&◌, ◌||◌, List, map, Option, none, some, ltb, leb, ◌==◌,
  if◌then◌else◌, take, is_nil,
}
use shoebox.Base.Text.{Str, str_eq, str_ltb}
use shoebox.Storage.{Time, Schedule, Result, ok, err, periodic_message}
use shoebox.Sql.{ScheduleRow, Tx, done, exec, ◌>>=◌, ◌>>◌, autocommit, transact}
use shoebox.Sql.Jobs.{insert_schedule_row, where_jobs, update_schedule_rows}
use shoebox.Postgres.{Engine, Database, invalid_json, enqueue_row, enqueue_atomic, require_inserted}

abbrev pub Job : Type 0
Job = ScheduleRow Time

-- A statement that needs the options as JSONB.
unfoldable pub with_options :
    {A : Type 0}
    → Option Str
    → (Str → Database → Result (A × Database))
    → Database
    → Result (A × Database)
with_options none statement db = err invalid_json
with_options (some options) statement db = statement options db

module _ (g : Engine) where
  unfoldable pub schedule_row : Schedule → Str → Job
  schedule_row s options = record {
    id = s.id;
    queue = s.queue;
    payload = s.payload;
    enqueue_options = options;
    interval = s.interval;
    next_run_at = g.round s.next_run_at;
    enabled = s.enabled;
    created_at = g.round s.created_at;
    updated_at = g.round s.updated_at;
  }

  unfoldable pub create_schedule : List Bool → Database → Schedule → Database × Result (Unit {0})
  unfolding with_options insert_schedule_row schedule_row
  create_schedule faults db s =
      autocommit
        (exec (
          with_options (g.jsonb s.enqueue_options)
            (λ options. insert_schedule_row (schedule_row s options))))
        faults db

  -- The creation time is not among the columns that are set.
  unfoldable pub update_schedule : List Bool → Database → Schedule → Database × Result ℕ
  unfolding with_options update_schedule_rows schedule_row
  update_schedule faults db s =
      autocommit
        (exec (
          with_options (g.jsonb s.enqueue_options) (λ options.
            update_schedule_rows (λ r. str_eq r.id s.id)
              (λ r. record (schedule_row s options) { created_at = r.created_at; id = r.id }))))
        faults db

  unfoldable pub delete_schedule : List Bool → Database → Str → Database × Result (Unit {0})
  unfolding where_jobs
  delete_schedule faults db id =
      autocommit
        (exec (λ d.
          ok (tt, record d { schedules = where_jobs (λ r. not (str_eq r.id id)) d.schedules })))
        faults db

  -- `id=$2 AND enabled AND next_run_at=$3 AND next_run_at <= $4`.
  unfoldable pub occurs : Schedule → Time → Job → Bool
  occurs s now r =
      str_eq r.id s.id
      && r.enabled
      && (r.next_run_at == g.round s.next_run_at)
      && leb r.next_run_at (g.round now)

  unfoldable pub finish_run : Schedule → Time → Time → Str → ℕ → Tx Time Bool
  unfolding enqueue_row require_inserted
  finish_run s now clock id n =
      if n == 1
      then (do enqueue_atomic g s.queue (periodic_message s now id) clock; done true)
      else done false

  -- Without a row that matches, the transaction is rolled back; it has written nothing. `server` is the
  -- `now()` of the database.
  unfoldable pub run_schedule :
      List Bool → Database → Schedule → Time → Time → Time → Time → Str → Database × Result Bool
  unfolding occurs update_schedule_rows finish_run
  run_schedule faults db s now next clock server id =
      transact
        (do
          n ← exec (
              update_schedule_rows (occurs s now)
                (λ r. record r { next_run_at = g.round next; updated_at = g.round server }))
          finish_run s now clock id n)
        faults db

-- `scanPostgresSchedule`: the columns as they are.
unfoldable pub scan_schedule : Job → Schedule
scan_schedule r = record {
  id = r.id;
  queue = r.queue;
  payload = r.payload;
  enqueue_options = r.enqueue_options;
  interval = r.interval;
  next_run_at = r.next_run_at;
  enabled = r.enabled;
  created_at = r.created_at;
  updated_at = r.updated_at;
}

-- `arrange` is the ORDER BY of a query.
module _ (g : Engine) (arrange : (Job → Job → Bool) → List Job → List Job) where
  unfoldable pub list_schedules : Database → Str → List Schedule
  unfolding where_jobs scan_schedule
  list_schedules db queue = map scan_schedule (
      arrange (λ a b. str_ltb a.id b.id)
        (where_jobs (λ r. is_nil queue || str_eq r.queue queue) db.schedules))

  unfoldable pub due_schedules : Database → Time → ℕ → List Schedule
  unfolding where_jobs scan_schedule
  due_schedules db now limit = map scan_schedule (
      take limit (
        arrange (λ a b. ltb a.next_run_at b.next_run_at)
          (where_jobs (λ r. r.enabled && leb r.next_run_at (g.round now)) db.schedules)))
