-- ===== src/Postgres/Settle.antt =====
-- internal/storage/postgres.go: acknowledgement, retry, dead letters, replay, and the queries.
use shoebox.Base.{
  ℕ, Bool, ◌&&◌, List, [], ◌∷◌, Option, ltb, ◌==◌, if◌then◌else◌, length, take, is_nil,
}
use shoebox.Base.Text.{Str, str_eq}
use shoebox.Base.Maps.{contains}
use shoebox.Storage.{
  Time, Message, QueueStats, empty, Result, ok, err, dlq_name, dead_letter_message, replay_message,
}
use shoebox.Sql.{
  pending, processing, dead, status_eq, Row, Tx, done, fail, exec, ◌>>=◌, ◌>>◌, autocommit,
  transact, where_rows, update_where, delete_where, upsert_counters, row_is,
}
use shoebox.Postgres.{
  Engine, Database, scan_message, scan_rows, enqueue_row, enqueue_atomic, require_inserted,
  died_after,
}

-- `INSERT INTO shoebox_stats … ON CONFLICT(queue) DO UPDATE`, for so many processed messages.
unfoldable pub count_processed : Str → ℕ → Tx Time (Unit {0})
count_processed queue n =
    exec (upsert_counters queue (record { processed = n; errors = 0; retries = 0; dead = 0 }))

-- `RowsAffected` decides whether the message is counted.
unfoldable pub count_acked : Str → ℕ → Tx Time (Unit {0})
unfolding count_processed
count_acked queue rows = if rows == 0 then done tt else count_processed queue 1

unfoldable pub ack : List Bool → Database → Str → Str → Database × Result (Unit {0})
unfolding count_acked
ack faults db queue id =
    transact (do rows ← exec (delete_where (row_is id queue processing)); count_acked queue rows)
      faults db

-- `queue = $1 AND status = 'processing' AND id = ANY($2)`.
unfoldable pub row_among : List Str → Str → Row Time → Bool
row_among ids queue r = str_eq r.queue queue && status_eq r.status processing && contains r.id ids

unfoldable pub count_batch : Str → ℕ → Tx Time (Unit {0})
unfolding count_processed
count_batch queue n = if ltb 0 n then count_processed queue n else done tt

unfoldable pub ack_batch : List Bool → Database → Str → List Str → Database × Result (Unit {0})
unfolding count_batch row_among
ack_batch faults db queue [] = (db, ok tt)
ack_batch faults db queue (id ∷ ids) =
    transact (do n ← exec (delete_where (row_among (id ∷ ids) queue)); count_batch queue n) faults
      db

-- `RowsAffected() != 1` returns ErrEmpty.
abbrev pub exactly_one : ℕ → Tx Time (Unit {0})
exactly_one n = if n == 1 then done tt else fail empty

module _ (g : Engine) where
  unfoldable pub retry : List Bool → Database → Str → Message → Time → Database × Result (Unit {0})
  unfolding enqueue_row require_inserted
  retry faults db queue msg now =
      transact
        (do
          n ← exec (delete_where (row_is msg.id queue processing))
          exactly_one n
          enqueue_atomic g queue msg now
          exec
              (upsert_counters queue (record { processed = 0; errors = 1; retries = 1; dead = 0 })))
        faults db

  -- The row of the message stays, with the status 'dead', beside the one in the dead-letter queue.
  unfoldable pub dead_letter :
      List Bool → Database → Str → Message → Option Str → Time → Str → Database × Result (Unit {0})
  unfolding enqueue_row require_inserted
  dead_letter faults db queue msg e now id =
      let dead_msg = dead_letter_message queue msg e now id in
      transact
        (do
          enqueue_atomic g dead_msg.queue dead_msg now
          n ← exec (
              update_where (row_is msg.id queue processing) (λ r. record r {
                status = dead;
                error = dead_msg.error;
                dead_at = g.round dead_msg.dead_at;
              }))
          exactly_one n
          exec
              (upsert_counters queue (record { processed = 0; errors = 0; retries = 0; dead = 1 })))
        faults db

  -- The one row of a query, or ErrEmpty for `pgx.ErrNoRows`.
  unfoldable pub first_message : Str → List (Row Time) → Result Message
  unfolding scan_message
  first_message queue [] = err empty
  first_message queue (r ∷ rows) = scan_message g queue r

  unfoldable pub find_dead : Str → Str → Database → Result (Message × Database)
  unfolding first_message
  find_dead id dlq db = elim (first_message dlq (where_rows (row_is id dlq dead) db.rows)) [
    | err e ↦ err e
    | ok m ↦ ok (m, db)
  ]

  unfoldable pub replay : List Bool → Database → Str → Str → Time → Database × Result (Unit {0})
  unfolding find_dead enqueue_row require_inserted count_processed
  replay faults db queue id now =
      transact
        (do
          msg ← exec (find_dead id (dlq_name queue))
          n ← exec (delete_where (row_is id (dlq_name queue) dead))
          exactly_one n
          enqueue_atomic g queue (replay_message queue msg now) now
          count_processed (dlq_name queue) 1)
        faults db

  unfoldable pub list : Database → Str → ℕ → Result (List Message)
  unfolding scan_rows
  list db queue limit =
      let dead_rows = where_rows (λ r. str_eq r.queue queue && status_eq r.status dead) db.rows in
      elim (scan_rows g queue (take limit (g.arrange died_after dead_rows))) [
        | err e ↦ err e
        | ok msgs ↦ if is_nil msgs then err empty else ok msgs
      ]

unfoldable pub reclaim : List Bool → Database → Str → Database × Result ℕ
reclaim faults db queue =
    autocommit
      (exec (
        update_where (λ r. str_eq r.queue queue && status_eq r.status processing)
          (λ r. record r { status = pending })))
      faults db

unfoldable pub stats : Database → Str → QueueStats
stats db queue =
    let c = db.counters queue in
    record {
      queue = queue;
      depth = length (where_rows (λ r. str_eq r.queue queue && status_eq r.status pending) db.rows);
      processed = c.processed;
      errors = c.errors;
      retries = c.retries;
      dead = c.dead;
    }
