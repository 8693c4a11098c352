-- ===== src/Postgres.antt =====
-- internal/storage/postgres.go: messages in PostgreSQL. The tables are those of the schema
-- (migrations/*.postgres.up.sql); a column of type TIMESTAMPTZ holds an instant, and 0 stands for the
-- NULL of dead_at. What the code uses of the database and of Go's library is an `Engine`: the precision
-- of a TIMESTAMPTZ, JSON both ways, what JSONB makes of a text, and ORDER BY. `now` is the clock of the
-- process, `clock` that of the server, and `locked` has the identifiers of the rows that other
-- transactions hold locked.
pub mod Settle
pub mod Schedules
pub mod Quoting
pub mod Calls
pub mod Unique
pub mod Claiming
pub mod Running
pub mod InFlight
pub mod Outcomes
pub mod Consumers
pub mod Opening
pub mod Reading
pub mod Scanning
pub mod Delivering
use shoebox.Base.{
  ℕ, suc, ◌+◌, Bool, true, false, not, ◌&&◌, ◌||◌, List, [], ◌∷◌, ◌++◌, Option, none, some, ltb,
  leb, ◌==◌, if◌then◌else◌, take, is_nil,
}
use shoebox.Base.Int.{ltb_ℤ, eq_ℤ}
use shoebox.Base.Text.{Str, str_eq, bytes, has_suffix}
use shoebox.Base.Maps.{contains}
use shoebox.Storage.{Time, Message, Error, backend, empty, Result, ok, err}
use shoebox.Postgres.Scanning.{new_pgx, column, scan_val, time_of}
use shoebox.Memory.{stamp_batch}
use shoebox.Sql.{
  pending, processing, dead, status_eq, Row, Db, Tx, done, fail, exec, ◌>>=◌, ◌>>◌, autocommit,
  transact, insert_row, where_rows, update_where,
}

pub record Engine : Type 0 where
  pub round : Time → Time
  pub marshal : List (Str × Str) → Str
  pub unmarshal : Str → Option (List (Str × Str))
  pub jsonb : Str → Option Str
  pub arrange : (Row Time → Row Time → Bool) → List (Row Time) → List (Row Time)

abbrev pub Database : Type 0
Database = Db Time

abbrev pub unreadable : Error
unreadable = backend (bytes "parse metadata")

abbrev pub invalid_json : Error
invalid_json = backend (bytes "invalid input syntax for type json")

abbrev pub skipped : Error
skipped = backend (bytes "enqueue skipped by conflict")

-- `priority DESC, created_at ASC`, and `dead_at DESC`, which puts NULL first.
unfoldable pub ranks_before : Row Time → Row Time → Bool
ranks_before a b =
    if eq_ℤ a.priority b.priority
    then ltb a.created_at b.created_at
    else ltb_ℤ b.priority a.priority

unfoldable pub died_after : Row Time → Row Time → Bool
died_after a b = not (b.dead_at == 0) && ((a.dead_at == 0) || ltb b.dead_at a.dead_at)

-- `queue = $1 AND status = 'pending' AND scheduled_at <= now()`.
unfoldable pub row_due : Str → Time → Row Time → Bool
row_due queue clock r =
    str_eq r.queue queue && status_eq r.status pending && leb r.scheduled_at clock

-- `dedupe_key <> '' AND status IN ('pending', 'processing')`: the rows of the index
-- idx_shoebox_durable_dedupe.
unfoldable pub indexed : Row Time → Bool
indexed r = not (is_nil r.dedupe_key) && not (status_eq r.status dead)

-- The rows that stand in the index under the key of another.
unfoldable pub clashes : Row Time → Row Time → Bool
unfolding indexed
clashes r s = indexed s && str_eq s.queue r.queue && str_eq s.dedupe_key r.dedupe_key

unfoldable pub has_clash : Row Time → List (Row Time) → Bool
has_clash r [] = false
has_clash r (s ∷ rows) = clashes r s || has_clash r rows

-- `postgresInsertStatement`, or with a key `postgresDedupeInsertStatement`, which inserts nothing where
-- the index has the key; with the number of rows.
unfoldable pub insert_message : Row Time → Database → Result (ℕ × Database)
unfolding has_clash indexed
insert_message r db =
    if indexed r && has_clash r db.rows
    then ok (0, db)
    else elim (insert_row r db) [ err e ↦ err e | ok (u, d) ↦ ok (1, d) ]

unfoldable pub insert_json : Option Str → Row Time → Database → Result (ℕ × Database)
unfolding insert_message
insert_json none r db = err invalid_json
insert_json (some text) r db = insert_message (record r { metadata = text }) db

unfoldable pub require_inserted : Bool → Tx Time (Unit {0})
require_inserted inserted = if inserted then done tt else fail skipped

module _ (g : Engine) where
  -- `postgresEnqueueArgs`; the metadata are still to be stored as JSONB.
  unfoldable pub message_row : Str → Message → Time → Row Time
  message_row queue msg now = record {
    id = msg.id;
    queue = queue;
    payload = msg.payload;
    attempts = msg.attempts;
    max_retries = msg.max_retries;
    created_at = g.round (if msg.created_at == 0 then now else msg.created_at);
    scheduled_at = g.round (if msg.scheduled_at == 0 then now else msg.scheduled_at);
    priority = msg.priority;
    dedupe_key = msg.dedupe_key;
    metadata = g.marshal msg.metadata;
    error = msg.error;
    dead_at = if msg.dead_at == 0 then 0 else g.round msg.dead_at;
    status = if has_suffix queue (bytes ".dlq") then dead else pending;
  }

  -- `enqueuePostgresRow`: whether a row was inserted.
  unfoldable pub enqueue_row : Str → Message → Time → Tx Time Bool
  unfolding message_row insert_json
  enqueue_row queue msg now =
      let r = message_row queue msg now in
      do n ← exec (insert_json (g.jsonb r.metadata) r); done (n == 1)

  -- `enqueuePostgres` drops it, `enqueuePostgresAtomic` insists on it.
  abbrev pub enqueue_dropping : Str → Message → Time → Tx Time (Unit {0})
  enqueue_dropping queue msg now = do enqueue_row queue msg now; done tt

  abbrev pub enqueue_atomic : Str → Message → Time → Tx Time (Unit {0})
  enqueue_atomic queue msg now = do inserted ← enqueue_row queue msg now; require_inserted inserted

  unfoldable pub enqueue :
      List Bool → Database → Str → Message → Time → Database × Result (Unit {0})
  unfolding enqueue_row
  enqueue faults db queue msg now = autocommit (enqueue_dropping queue msg now) faults db

  -- The loop of `EnqueueBatch`; it dates the messages as the memory backend does.
  unfoldable pub enqueue_each : Str → List Message → Time → ℕ → Tx Time (Unit {0})
  unfolding enqueue_row
  enqueue_each queue [] now i = done tt
  enqueue_each queue (msg ∷ msgs) now i = do
    enqueue_dropping queue (stamp_batch now i msg) now
    enqueue_each queue msgs now (suc i)

  unfoldable pub enqueue_batch :
      List Bool → Database → Str → List Message → Time → Database × Result (Unit {0})
  unfolding enqueue_each
  enqueue_batch faults db queue [] now = (db, ok tt)
  enqueue_batch faults db queue (msg ∷ msgs) now =
      transact (enqueue_each queue (msg ∷ msgs) now 0) faults db

  -- `scanPostgresMessage`, with the queue that its caller sets. The column dead_at is scanned into the
  -- field `val` of the wrapper.
  unfoldable pub read_metadata : Str → Option (List (Str × Str))
  read_metadata text = if is_nil text || str_eq text (bytes "{}") then some [] else g.unmarshal text

  unfoldable pub message_of : Str → Row Time → Option (List (Str × Str)) → Result Message
  unfolding time_of scan_val column
  message_of queue r none = err unreadable
  message_of queue r (some metadata) = ok (record {
    id = r.id;
    queue = queue;
    payload = r.payload;
    attempts = r.attempts;
    max_retries = r.max_retries;
    created_at = r.created_at;
    scheduled_at = r.scheduled_at;
    dedupe_key = r.dedupe_key;
    metadata = metadata;
    priority = r.priority;
    error = r.error;
    dead_at = time_of (scan_val new_pgx (column r.dead_at));
  })

  unfoldable pub scan_message : Str → Row Time → Result Message
  unfolding message_of read_metadata
  scan_message queue r = message_of queue r (read_metadata r.metadata)

  -- The loop over the rows of a query.
  unfoldable pub scan_rows : Str → List (Row Time) → Result (List Message)
  unfolding scan_message
  scan_rows queue [] = ok []
  scan_rows queue (r ∷ rows) =
      let rest = scan_rows queue rows in
      elim (scan_message queue r) [
        | err e ↦ err e
        | ok m ↦ elim rest [ err e ↦ err e | ok ms ↦ ok (m ∷ ms) ]
      ]

  -- The rows that the query of `Dequeue` locks: SKIP LOCKED passes over those of the others.
  unfoldable pub choose : Str → Time → ℕ → List Str → Database → List (Row Time)
  unfolding row_due where_rows
  choose queue clock limit locked db = take limit (
      g.arrange ranks_before
        (where_rows (λ r. row_due queue clock r && not (contains r.id locked)) db.rows))

  unfoldable pub due_messages :
      Str → Time → ℕ → List Str → Database → Result (List Message × Database)
  unfolding scan_rows choose
  due_messages queue clock limit locked db =
      elim (scan_rows queue (choose queue clock limit locked db)) [
        | err e ↦ err e
        | ok msgs ↦ ok (msgs, db)
      ]

-- `UPDATE … SET status = 'processing' WHERE id = $1 AND queue = $2` for each message.
unfoldable pub mark_each : Str → List Message → Tx Time (Unit {0})
mark_each queue [] = done tt
mark_each queue (msg ∷ msgs) = do
  exec (
      update_where (λ r. str_eq r.id msg.id && str_eq r.queue queue)
        (λ r. record r { status = processing }))
  mark_each queue msgs

unfoldable pub claim : Str → List Message → Tx Time (List Message)
unfolding mark_each
claim queue [] = fail empty
claim queue (msg ∷ msgs) = do mark_each queue (msg ∷ msgs); done (msg ∷ msgs)

module _ (g : Engine) where
  unfoldable pub dequeue :
      List Bool → Database → Str → ℕ → List Str → Time → Database × Result (List Message)
  unfolding due_messages claim
  dequeue faults db queue limit locked clock =
      transact (do msgs ← exec (due_messages g queue clock limit locked); claim queue msgs) faults
        db
