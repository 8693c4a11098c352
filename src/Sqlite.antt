-- ===== src/Sqlite.antt =====
-- internal/storage/sqlite.go: messages and statistics in SQLite. What the code uses of the database and
-- of Go's library is an `Engine`: time.RFC3339Nano both ways, JSON both ways, and the ORDER BY of a
-- query. `now` is the reading of the clock, `faults` tells which statements are interrupted.
pub mod Schedules
pub mod Opening
pub mod Calls
pub mod Backend
pub mod Claiming
pub mod Delivering
pub mod Texts
pub mod Journey
pub mod Settle
pub mod Outcomes
use shoebox.Base.{
  ℕ, suc, ◌+◌, ◌*◌, Bool, true, false, not, ◌&&◌, ◌||◌, List, [], ◌∷◌, ◌++◌, Option, none, some,
  ltb, ◌==◌, if◌then◌else◌, length, take, is_nil,
}
use shoebox.Base.Int.{ℤ, ltb_ℤ, eq_ℤ}
use shoebox.Base.Text.{Str, str_eq, str_ltb, bytes, has_suffix}
use shoebox.Storage.{
  Time, Message, QueueStats, Error, backend, empty, Result, ok, err, dlq_name, dead_letter_message,
  replay_message,
}
use shoebox.Memory.{stamp_batch}
use shoebox.Sql.{
  Status, pending, processing, dead, status_eq, Row, Counters, Db, Tx, done, fail, statement, exec,
  ◌>>=◌, ◌>>◌, autocommit, transact, insert_row, where_rows, update_where, delete_where,
  upsert_counters, row_is,
}

pub record Engine : Type 0 where
  pub format : Time → Str
  pub parse : Str → Option Time
  pub marshal : List (Str × Str) → Str
  pub unmarshal : Str → Option (List (Str × Str))
  pub arrange : (Row Str → Row Str → Bool) → List (Row Str) → List (Row Str)

abbrev pub Database : Type 0
Database = Db Str

abbrev pub unreadable : Error
unreadable = backend (bytes "scan")

-- `<=` on two TEXT columns.
abbrev pub text_leb : Str → Str → Bool
text_leb a b = not (str_ltb b a)

-- `priority DESC, created_at ASC`, and `dead_at DESC`.
unfoldable pub ranks_before : Row Str → Row Str → Bool
ranks_before a b =
    if eq_ℤ a.priority b.priority
    then str_ltb a.created_at b.created_at
    else ltb_ℤ b.priority a.priority

unfoldable pub died_after : Row Str → Row Str → Bool
died_after a b = str_ltb b.dead_at a.dead_at

-- `queue = ? AND status = 'pending' AND scheduled_at <= ?`.
unfoldable pub row_due : Str → Str → Row Str → Bool
row_due queue now r =
    str_eq r.queue queue && status_eq r.status pending && text_leb r.scheduled_at now

abbrev pub one_processed : Counters
one_processed = record { processed = 1; errors = 0; retries = 0; dead = 0 }

module _ (g : Engine) where
  unfoldable pub ts_or_empty : Time → Str
  ts_or_empty t = if t == 0 then [] else g.format t

  -- `sqliteEnqueueArgs`: the row of a message.
  unfoldable pub message_row : Str → Message → Time → Row Str
  unfolding ts_or_empty
  message_row queue msg now = record {
    id = msg.id;
    queue = queue;
    payload = msg.payload;
    attempts = msg.attempts;
    max_retries = msg.max_retries;
    created_at = g.format (if msg.created_at == 0 then now else msg.created_at);
    scheduled_at = g.format (if msg.scheduled_at == 0 then now else msg.scheduled_at);
    priority = msg.priority;
    dedupe_key = msg.dedupe_key;
    metadata = g.marshal msg.metadata;
    error = msg.error;
    dead_at = ts_or_empty msg.dead_at;
    status = if has_suffix queue (bytes ".dlq") then dead else pending;
  }

  -- `scanMessage`, with the queue that its caller sets. The metadata are parsed unless they are
  -- missing or empty, and so is the time of death.
  unfoldable pub read_metadata : Str → Option (List (Str × Str))
  read_metadata text = if is_nil text || str_eq text (bytes "{}") then some [] else g.unmarshal text

  unfoldable pub read_dead_at : Str → Option Time
  read_dead_at text = if is_nil text then some 0 else g.parse text

  unfoldable pub message_of :
      Str
      → Row Str
      → Option Time
      → Option Time
      → Option (List (Str × Str))
      → Option Time
      → Result Message
  message_of queue r (some created) (some scheduled) (some metadata) (some dead_at) = ok (record {
    id = r.id;
    queue = queue;
    payload = r.payload;
    attempts = r.attempts;
    max_retries = r.max_retries;
    created_at = created;
    scheduled_at = scheduled;
    dedupe_key = r.dedupe_key;
    metadata = metadata;
    priority = r.priority;
    error = r.error;
    dead_at = dead_at;
  })
  message_of queue r _ _ _ _ = err unreadable

  unfoldable pub scan_message : Str → Row Str → Result Message
  unfolding message_of read_metadata read_dead_at
  scan_message queue r =
      message_of queue r (g.parse r.created_at) (g.parse r.scheduled_at) (read_metadata r.metadata)
        (read_dead_at r.dead_at)

  -- The loop over the rows of a query.
  unfoldable pub scan_rows : Str → List (Row Str) → Result (List Message)
  scan_rows queue [] = ok []
  scan_rows queue (r ∷ rows) =
      let rest = scan_rows queue rows in
      elim (scan_message queue r) [
        | err e ↦ err e
        | ok m ↦ elim rest [ err e ↦ err e | ok ms ↦ ok (m ∷ ms) ]
      ]

  abbrev pub enqueue_row : Str → Message → Time → Tx Str (Unit {0})
  enqueue_row queue msg now = exec (insert_row (message_row queue msg now))

  unfoldable pub enqueue :
      List Bool → Database → Str → Message → Time → Database × Result (Unit {0})
  enqueue faults db queue msg now = autocommit (enqueue_row queue msg now) faults db

  -- The loop of `EnqueueBatch`; it dates the messages as the memory backend does.
  unfoldable pub enqueue_each : Str → List Message → Time → ℕ → Tx Str (Unit {0})
  enqueue_each queue [] now i = done tt
  enqueue_each queue (msg ∷ msgs) now i = do
    enqueue_row queue (stamp_batch now i msg) now
    enqueue_each queue msgs now (suc i)

  unfoldable pub enqueue_batch :
      List Bool → Database → Str → List Message → Time → Database × Result (Unit {0})
  unfolding enqueue_each
  enqueue_batch faults db queue [] now = (db, ok tt)
  enqueue_batch faults db queue (msg ∷ msgs) now =
      transact (enqueue_each queue (msg ∷ msgs) now 0) faults db

  -- The query of `Dequeue`, and its rows as messages.
  unfoldable pub due_messages : Str → Str → ℕ → Database → Result (List Message × Database)
  unfolding scan_rows
  due_messages queue now limit db =
      let chosen = take limit (g.arrange ranks_before (where_rows (row_due queue now) db.rows)) in
      elim (scan_rows queue chosen) [ err e ↦ err e | ok msgs ↦ ok (msgs, db) ]

-- `UPDATE … SET status = 'processing' WHERE id = ? AND queue = ?` for each message.
unfoldable pub mark_each : Str → List Message → Tx Str (Unit {0})
mark_each queue [] = done tt
mark_each queue (msg ∷ msgs) = do
  exec (
      update_where (λ r. str_eq r.id msg.id && str_eq r.queue queue)
        (λ r. record r { status = processing }))
  mark_each queue msgs

unfoldable pub claim : Str → List Message → Tx Str (List Message)
unfolding mark_each
claim queue [] = fail empty
claim queue (msg ∷ msgs) = do mark_each queue (msg ∷ msgs); done (msg ∷ msgs)

module _ (g : Engine) where
  unfoldable pub dequeue : List Bool → Database → Str → ℕ → Time → Database × Result (List Message)
  unfolding due_messages claim
  dequeue faults db queue limit now =
      transact (do msgs ← exec (due_messages g queue (g.format now) limit); claim queue msgs) faults
        db
