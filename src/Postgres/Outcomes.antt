-- ===== src/Postgres/Outcomes.antt =====
-- internal/storage/postgres.go: what settling a message does when nothing is interrupted.
use shoebox.Base.{
  ◌≡◌, refl, sym, ap, ◌∙◌, true, false, not, ◌&&◌, List, [], ◌∷◌, ◌++◌, inl, inr, Bool-cases, some,
  subst, ◌+◌, if◌then◌else◌, is_nil,
}
use shoebox.Base.Text.{Str}
use shoebox.Base.Maps.{put}
use shoebox.Storage.{Time, Message, empty, Result, ok, err, dlq_name, replay_message}
use shoebox.Sql.{
  Row, Counters, Tx, exec, ◌>>=◌, ◌>>◌, processing, dead, row_is, where_rows, delete_where,
  upsert_counters, run, all_or_nothing, transact, has_id,
}
use shoebox.Sql.Keys.{DistinctIds}
use shoebox.Sql.Single.{stands, one-stands, freed}
use shoebox.Postgres.{Engine, Database, message_row, enqueue_atomic, indexed, has_clash, skipped}
use shoebox.Postgres.Settle.{retry, replay, exactly_one, find_dead, first_message, count_processed}
use shoebox.Postgres.Unique.{UniqueKeys}
use shoebox.Postgres.Running.{proceeds, guarded, stored_row, enqueued, refused}
use shoebox.Postgres.InFlight.{InFlightKeyed, others-Unclashed}

-- The counters of a queue, increased.
abbrev pub counted : Database → Str → Counters → Str → Counters
counted db queue c =
    let old = db.counters queue in
    put db.counters queue (record {
      processed = old.processed + c.processed;
      errors = old.errors + c.errors;
      retries = old.retries + c.retries;
      dead = old.dead + c.dead;
    })

-- The rows that are left when the one that is processing under an identifier is deleted.
abbrev pub others : Database → Str → Str → List (Row Time)
others db queue id = where_rows (λ r. not (row_is id queue processing r)) db.rows

module _ (g : Engine) where
  -- On tables with distinct identifiers and keys, where the rows that are processing in the queue under the
  -- identifier of the message have its key and the metadata are stored as JSON, a Retry that nothing
  -- interrupts deletes that row, adds the row of the message, counts an error and a retry, and succeeds: the
  -- index never refuses it. Where there is no such row it reports ErrEmpty and changes nothing.
  pub retry_outcome :
      (db : Database) (queue : Str) (msg : Message) (now : Time) (text : Str)
      → UniqueKeys db
      → InFlightKeyed msg.id queue msg.dedupe_key db.rows
      → g.jsonb (g.marshal msg.metadata) ≡ some text
      → retry g [] db queue msg now ≡ (
          if stands msg.id queue processing db.rows
          then (
            record db {
              rows = others db queue msg.id ++ stored_row g queue msg now text ∷ [];
              counters =
                  counted db queue (record { processed = 0; errors = 1; retries = 1; dead = 0 });
            },
            ok tt,
          )
          else (db, err empty))
  unfolding retry run all_or_nothing transact delete_where upsert_counters message_row
  retry_outcome db queue msg now text (n, u) keyed stored =
      guarded _ _
        (do
          enqueue_atomic g queue msg now
          exec
              (upsert_counters queue (record { processed = 0; errors = 1; retries = 1; dead = 0 })))
        db _ (one-stands msg.id queue processing db.rows n)
      ∙ elim (Bool-cases (stands msg.id queue processing db.rows)) [
        | inl e ↦
            let free : has_id msg.id (others db queue msg.id) ≡ false =
              freed msg.id queue processing db.rows n e in
            rw e (
              enqueued g queue msg now text stored
                (exec (
                  upsert_counters queue
                    (record { processed = 0; errors = 1; retries = 1; dead = 0 })))
                db (record db { rows = others db queue msg.id })
                (elim (Bool-cases (indexed (stored_row g queue msg now text))) [
                  | inl i ↦ rw i (
                      others-Unclashed msg.id (stored_row g queue msg now text) i db.rows u keyed e)
                  | inr i ↦ rw i refl
                ])
                free)
        | inr e ↦ rw e refl
      ]

  found :
      (db : Database) (id dlq : Str) (m : Message)
      → first_message g dlq (where_rows (row_is id dlq dead) db.rows) ≡ ok m
      → find_dead g id dlq db ≡ ok (m, db)
  unfolding find_dead
  found db id dlq m e = ap answer e
    where
      answer : Result Message → Result (Message × Database)
      answer r = elim r [ err e ↦ err e | ok m ↦ ok (m, db) ]

  found_stands :
      (id dlq : Str) (rows : List (Row Time)) (m : Message)
      → first_message g dlq (where_rows (row_is id dlq dead) rows) ≡ ok m
      → stands id dlq dead rows ≡ true
  unfolding stands first_message
  found_stands id dlq rows m h =
      (elim (where_rows (row_is id dlq dead) rows)
          as (λ l. first_message g dlq l ≡ ok m → not (is_nil l) ≡ true) [
            | [] ↦ λ e. cc
            | r ∷ l ↦ λ e. refl
          ])
        h

  -- The rows that are left when a dead letter is deleted.
  abbrev pub letters_left : Database → Str → Str → List (Row Time)
  letters_left db dlq id = where_rows (λ r. not (row_is id dlq dead r)) db.rows

  -- On tables with distinct identifiers, where the dead letter under the identifier is read and its metadata
  -- are stored as JSON, a Replay that nothing interrupts moves it: it deletes the dead letter, adds a row for
  -- the message to the queue, counts a processed message of the dead-letter queue, and succeeds. Where
  -- a message of the queue that waits or is in flight has the same deduplication key it reports that the
  -- insertion was skipped by a conflict and changes nothing, so that the dead letter stays.
  pub replay_outcome :
      (db : Database) (queue id : Str) (now : Time) (letter : Message) (text : Str)
      → DistinctIds db
      → first_message g (dlq_name queue) (where_rows (row_is id (dlq_name queue) dead) db.rows)
        ≡ ok letter
      → letter.id ≡ id
      → g.jsonb (g.marshal letter.metadata) ≡ some text
      → replay g [] db queue id now ≡ (
          let r = stored_row g queue (replay_message queue letter now) now text in
          let left = letters_left db (dlq_name queue) id in
          if indexed r && has_clash r left then (db, err skipped) else (
            record db {
              rows = left ++ r ∷ [];
              counters =
                  counted db
                    (dlq_name queue)
                    (record { processed = 1; errors = 0; retries = 0; dead = 0 });
            },
            ok tt,
          ))
  unfolding replay run all_or_nothing transact delete_where upsert_counters count_processed
      replay_message
  replay_outcome db queue id now letter text n h same stored =
      let there = found_stands id (dlq_name queue) db.rows letter h in
      let after : Database = record db { rows = letters_left db (dlq_name queue) id } in
      let new = stored_row g queue (replay_message queue letter now) now text in
      proceeds (find_dead g id (dlq_name queue)) moving db db letter db
        (found db id (dlq_name queue) letter h)
      ∙ guarded _ true (inserting letter) db after
          (one-stands id (dlq_name queue) dead db.rows n ∙ there)
      ∙ elim (Bool-cases (indexed new && has_clash new after.rows)) [
        | inl e ↦ rw e (
            refused g queue (replay_message queue letter now) now text stored
              (count_processed (dlq_name queue) 1) db after e)
        | inr e ↦ rw e (
            enqueued g queue (replay_message queue letter now) now text stored
              (count_processed (dlq_name queue) 1) db after e
              (subst (λ t. has_id t after.rows ≡ false) (sym same)
                (freed id (dlq_name queue) dead db.rows n there)))
      ]
    where
      inserting : Message → Tx Time (Unit {0})
      inserting msg = do
        enqueue_atomic g queue (replay_message queue msg now) now
        count_processed (dlq_name queue) 1

      moving : Message → Tx Time (Unit {0})
      moving msg = do
        k ← exec (delete_where (row_is id (dlq_name queue) dead))
        exactly_one k
        inserting msg
