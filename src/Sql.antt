-- ===== src/Sql.antt =====
-- internal/storage/sqlite.go: the tables of the schema (migrations/*.sqlite.up.sql), the meaning of
-- the SQL statements on them, and transactions. T is the type of a column that holds a time. A
-- transaction is a tree of statements, each chosen by the answers to those before it; every statement,
-- and the begin and the commit too, may be interrupted, which a list of faults tells. An interrupted
-- or failed transaction is rolled back.
pub mod Atomic
pub mod Keys
pub mod Single
pub mod Posts
pub mod Jobs
pub mod Claims
use shoebox.Base.{
  ℕ, suc, ◌+◌, Bool, true, false, not, ◌&&◌, ◌||◌, List, [], ◌∷◌, ◌++◌, Option, none, some, ◌==◌,
  if◌then◌else◌, length,
}
use shoebox.Base.Int.{ℤ}
use shoebox.Base.Text.{Str, str_eq, bytes}
use shoebox.Base.Maps.{put}
use shoebox.Storage.{Error, backend, Result, ok, err}

pub data Status : Type 0 where
  pending processing dead : Status

abbrev pub status_eq : Status → Status → Bool
status_eq pending pending = true
status_eq processing processing = true
status_eq dead dead = true
status_eq _ _ = false

-- `shoebox_messages`.
pub record Row (T : Type 0) : Type 0 where
  pub id : Str
  pub queue : Str
  pub payload : Str
  pub attempts : ℕ
  pub max_retries : ℤ
  pub created_at : T
  pub scheduled_at : T
  pub priority : ℤ
  pub dedupe_key : Str
  pub metadata : Str
  pub error : Str
  pub dead_at : T
  pub status : Status

-- `shoebox_schedules`.
pub record ScheduleRow (T : Type 0) : Type 0 where
  pub id : Str
  pub queue : Str
  pub payload : Str
  pub enqueue_options : Str
  pub interval : ℤ
  pub next_run_at : T
  pub enabled : Bool
  pub created_at : T
  pub updated_at : T

-- `shoebox_stats`; a queue without a row reads as zeros.
pub record Counters : Type 0 where
  pub processed : ℕ
  pub errors : ℕ
  pub retries : ℕ
  pub dead : ℕ

pub record Db (T : Type 0) : Type 0 where
  pub rows : List (Row T)
  pub counters : Str → Counters
  pub schedules : List (ScheduleRow T)

-- What the driver reports when a statement is interrupted, and when a primary key is taken.
abbrev pub interrupted : Error
interrupted = backend (bytes "interrupted")

abbrev pub key_taken : Error
key_taken = backend (bytes "UNIQUE constraint failed")

pub data Tx (T A : Type 0) : Type 1 where
  done : A → Tx T A
  fail : Error → Tx T A
  statement : {B : Type 0} → (Db T → Result (B × Db T)) → (B → Tx T A) → Tx T A

infixl 5 ◌>>=◌ ◌>>◌
abbrev pub ◌>>=◌ : {T A B : Type 0} → Tx T A → (A → Tx T B) → Tx T B
done a >>= k = k a
fail e >>= k = fail e
statement f j >>= k = statement f (λ b. j b >>= k)

abbrev pub ◌>>◌ : {T A B : Type 0} → Tx T A → Tx T B → Tx T B
m >> k = m >>= λ _. k

unfoldable pub run : {T A : Type 0} → Tx T A → List Bool → Db T → Result (A × Db T)
run (done a) faults db = ok (a, db)
run (fail e) faults db = err e
run (statement f k) [] db = elim (f db) [ err e ↦ err e | ok (b, db') ↦ run (k b) [] db' ]
run (statement f k) (true ∷ faults) db = err interrupted
run (statement f k) (false ∷ faults) db = elim (f db) [
  | err e ↦ err e
  | ok (b, db') ↦ run (k b) faults db'
]

module _ {T : Type 0} where
  abbrev pub exec : {B : Type 0} → (Db T → Result (B × Db T)) → Tx T B
  exec f = statement f (λ b. done b)

  -- `BEGIN` and `COMMIT` change nothing by themselves.
  abbrev pub boundary : Tx T (Unit {0})
  boundary = exec (λ db. ok (tt, db))

  -- Statements outside a transaction: each commits by itself, so that an error leaves what those before it
  -- have written.
  unfoldable pub autocommit : {A : Type 0} → Tx T A → List Bool → Db T → Db T × Result A
  autocommit (done a) faults db = (db, ok a)
  autocommit (fail e) faults db = (db, err e)
  autocommit (statement f k) [] db = elim (f db) [
    | err e ↦ (db, err e)
    | ok (b, db') ↦ autocommit (k b) [] db'
  ]
  autocommit (statement f k) (true ∷ faults) db = (db, err interrupted)
  autocommit (statement f k) (false ∷ faults) db = elim (f db) [
    | err e ↦ (db, err e)
    | ok (b, db') ↦ autocommit (k b) faults db'
  ]

  -- Statements of a transaction up to its commit: on an error all of them are rolled back.
  unfoldable pub all_or_nothing : {A : Type 0} → Tx T A → List Bool → Db T → Db T × Result A
  unfolding run
  all_or_nothing m faults db = elim (run m faults db) [
    | err e ↦ (db, err e)
    | ok (a, db') ↦ (db', ok a)
  ]

  -- `BeginTx`, the body, and `Commit`, or the deferred `Rollback`.
  unfoldable pub transact : {A : Type 0} → Tx T A → List Bool → Db T → Db T × Result A
  unfolding all_or_nothing
  transact m faults db = all_or_nothing (do boundary; a ← m; boundary; done a) faults db

  unfoldable pub has_id : Str → List (Row T) → Bool
  has_id id [] = false
  has_id id (r ∷ rows) = str_eq r.id id || has_id id rows

  -- `INSERT INTO shoebox_messages`: the primary key is `id`.
  unfoldable pub insert_row : Row T → Db T → Result (Unit {0} × Db T)
  unfolding has_id
  insert_row r db =
      if has_id r.id db.rows then err key_taken else ok (tt, record db { rows = db.rows ++ r ∷ [] })

  -- `SELECT … WHERE`.
  unfoldable pub where_rows : (Row T → Bool) → List (Row T) → List (Row T)
  where_rows p [] = []
  where_rows p (r ∷ rows) = let rest = where_rows p rows in if p r then r ∷ rest else rest

  -- `UPDATE … SET … WHERE`, with the number of rows.
  unfoldable pub update_rows : (Row T → Bool) → (Row T → Row T) → List (Row T) → List (Row T)
  update_rows p f [] = []
  update_rows p f (r ∷ rows) =
      let rest = update_rows p f rows in if p r then f r ∷ rest else r ∷ rest

  unfoldable pub update_where : (Row T → Bool) → (Row T → Row T) → Db T → Result (ℕ × Db T)
  update_where p f db =
      ok (length (where_rows p db.rows), record db { rows = update_rows p f db.rows })

  -- `DELETE FROM … WHERE`, with the number of rows.
  unfoldable pub delete_where : (Row T → Bool) → Db T → Result (ℕ × Db T)
  delete_where p db =
      ok (length (where_rows p db.rows), record db { rows = where_rows (λ r. not (p r)) db.rows })

  -- `INSERT INTO shoebox_stats … ON CONFLICT(queue) DO UPDATE`.
  unfoldable pub upsert_counters : Str → Counters → Db T → Result (Unit {0} × Db T)
  upsert_counters queue c db =
      let old = db.counters queue in
      ok (
        tt,
        record db {
          counters = put db.counters queue (record {
            processed = old.processed + c.processed;
            errors = old.errors + c.errors;
            retries = old.retries + c.retries;
            dead = old.dead + c.dead;
          });
        },
      )

  -- `id = ? AND queue = ? AND status = …`.
  abbrev pub row_is : Str → Str → Status → Row T → Bool
  row_is id queue s r = str_eq r.id id && str_eq r.queue queue && status_eq r.status s
