-- ===== src/Sqlite/Schedules.antt =====
-- internal/storage/sqlite.go: periodic jobs in SQLite. The times are formatted in UTC.
use shoebox.Base.{
  ℕ, Bool, true, false, not, ◌&&◌, ◌||◌, List, map, Option, none, some, ◌==◌, if◌then◌else◌, take,
  is_nil,
}
use shoebox.Base.Text.{Str, str_eq, str_ltb}
use shoebox.Storage.{Time, Schedule, Result, ok, periodic_message}
use shoebox.Sql.{ScheduleRow, Tx, done, exec, ◌>>=◌, ◌>>◌, autocommit, transact}
use shoebox.Sql.Jobs.{insert_schedule_row, where_jobs, update_schedule_rows}
use shoebox.Sqlite.{Engine, Database, text_leb, enqueue_row}

abbrev pub Job : Type 0
Job = ScheduleRow Str

-- A time that does not parse is read as the zero time: the errors are dropped.
abbrev pub or_zero : Option Time → Time
or_zero none = 0
or_zero (some t) = t

module _ (g : Engine) where
  unfoldable pub schedule_row : Schedule → Job
  schedule_row s = record {
    id = s.id;
    queue = s.queue;
    payload = s.payload;
    enqueue_options = s.enqueue_options;
    interval = s.interval;
    next_run_at = g.format s.next_run_at;
    enabled = s.enabled;
    created_at = g.format s.created_at;
    updated_at = g.format s.updated_at;
  }

  unfoldable pub scan_schedule : Job → Schedule
  scan_schedule r = record {
    id = r.id;
    queue = r.queue;
    payload = r.payload;
    enqueue_options = r.enqueue_options;
    interval = r.interval;
    next_run_at = or_zero (g.parse r.next_run_at);
    enabled = r.enabled;
    created_at = or_zero (g.parse r.created_at);
    updated_at = or_zero (g.parse r.updated_at);
  }

  unfoldable pub create_schedule : List Bool → Database → Schedule → Database × Result (Unit {0})
  unfolding insert_schedule_row schedule_row
  create_schedule faults db s = autocommit (exec (insert_schedule_row (schedule_row s))) faults db

  -- The creation time is not among the columns that are set.
  unfoldable pub update_schedule : List Bool → Database → Schedule → Database × Result ℕ
  unfolding update_schedule_rows schedule_row
  update_schedule faults db s =
      autocommit
        (exec (
          update_schedule_rows (λ r. str_eq r.id s.id)
            (λ r. record (schedule_row s) { created_at = r.created_at; id = r.id })))
        faults db

  unfoldable pub delete_schedule : List Bool → Database → Str → Database × Result (Unit {0})
  unfolding where_jobs
  delete_schedule faults db id =
      autocommit
        (exec (λ d.
          ok (tt, record d { schedules = where_jobs (λ r. not (str_eq r.id id)) d.schedules })))
        faults db

  -- `id=? AND enabled=1 AND next_run_at=? AND next_run_at <= ?`.
  unfoldable pub occurs : Schedule → Time → Job → Bool
  occurs s now r =
      str_eq r.id s.id
      && r.enabled
      && str_eq r.next_run_at (g.format s.next_run_at)
      && text_leb r.next_run_at (g.format now)

  unfoldable pub finish_run : Schedule → Time → Time → Str → ℕ → Tx Str Bool
  finish_run s now clock id n =
      if n == 1
      then (do enqueue_row g s.queue (periodic_message s now id) clock; done true)
      else done false

  -- Without a row that matches, the transaction is rolled back; it has written nothing.
  unfoldable pub run_schedule :
      List Bool → Database → Schedule → Time → Time → Time → Str → Database × Result Bool
  unfolding occurs update_schedule_rows finish_run
  run_schedule faults db s now next clock id =
      transact
        (do
          n ← exec (
              update_schedule_rows (occurs s now)
                (λ r. record r { next_run_at = g.format next; updated_at = g.format clock }))
          finish_run s now clock id n)
        faults db

-- `arrange` is the ORDER BY of a query.
module _ (g : Engine) (arrange : (Job → Job → Bool) → List Job → List Job) where
  unfoldable pub list_schedules : Database → Str → List Schedule
  unfolding where_jobs scan_schedule
  list_schedules db queue = map (scan_schedule g) (
      arrange (λ a b. str_ltb a.id b.id)
        (where_jobs (λ r. is_nil queue || str_eq r.queue queue) db.schedules))

  unfoldable pub due_schedules : Database → Time → ℕ → List Schedule
  unfolding where_jobs scan_schedule
  due_schedules db now limit = map (scan_schedule g) (
      take limit (
        arrange (λ a b. str_ltb a.next_run_at b.next_run_at)
          (where_jobs (λ r. r.enabled && text_leb r.next_run_at (g.format now)) db.schedules)))
