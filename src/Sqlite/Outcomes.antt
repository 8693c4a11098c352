-- ===== src/Sqlite/Outcomes.antt =====
-- internal/storage/sqlite.go: what settling a message does when nothing is interrupted.
use shoebox.Base.{
  ◌≡◌, refl, sym, ◌∙◌, Bool, true, false, not, List, [], ◌∷◌, ◌++◌, arith, inl, inr, Bool-cases,
  Option, ℕ, subst, ◌==◌, ◌+◌, length, if◌then◌else◌,
}
use shoebox.Base.Text.{Str, bytes, has_suffix-append}
use shoebox.Base.Maps.{put}
use shoebox.Storage.{Time, Message, empty, Result, ok, err, dlq_name, dead_letter_message}
use shoebox.Sql.{
  Row, Counters, Tx, done, fail, exec, ◌>>=◌, ◌>>◌, boundary, processing, dead, row_is, where_rows,
  update_rows, update_where, delete_where, insert_row, upsert_counters, run, all_or_nothing,
  transact, has_id, key_taken,
}
use shoebox.Sql.Keys.{DistinctIds}
use shoebox.Sql.Single.{stands, one-stands, freed, where-other, update-other}
use shoebox.Sqlite.{Engine, Database, message_row, enqueue_row}
use shoebox.Sqlite.Settle.{retry, dead_letter, exactly_one}

-- The rows of a queue that are processing under an identifier, and those that are left.
abbrev pub lent : Database → Str → Str → Bool
lent db queue id = stands id queue processing db.rows

abbrev pub others : Database → Str → Str → List (Row Str)
others db queue id = where_rows (λ r. not (row_is id queue processing r)) db.rows

abbrev pub one_retry : Counters
one_retry = record { processed = 0; errors = 1; retries = 1; dead = 0 }

abbrev pub one_dead : Counters
one_dead = record { processed = 0; errors = 0; retries = 0; dead = 1 }

-- The counters of a queue, increased.
abbrev pub counted : Database → Str → Counters → Str → Counters
counted db queue c =
    let old = db.counters queue in
    put db.counters queue (record {
      processed = old.processed + c.processed;
      errors = old.errors + c.errors;
      retries = old.retries + c.retries;
      dead = old.dead + c.dead;
    })

-- The end of a transaction, after the statements that it has run.
abbrev pub ending : {A : Type 0} → Database → Tx Str A → Database → Database × Result A
ending before m db = elim (run (do a ← m; boundary; done a) [] db) [
  | err e ↦ (before, err e)
  | ok (a, db') ↦ (db', ok a)
]

-- Where the count is not one, the transaction is rolled back.
guarded :
    (n : ℕ) (t : Bool) (rest : Tx Str (Unit {0})) (before db : Database)
    → (n == 1) ≡ t
    → ending before (do exactly_one n; rest) db
      ≡ (if t then ending before rest db else (before, err empty))
unfolding run
guarded n t rest before db h =
    subst
      (λ b.
        ending before (do exactly_one n; rest) db
        ≡ (if b then ending before rest db else (before, err empty)))
      h
      (elim (n == 1)
        as (λ b.
          ending before (do (if b then done tt else fail empty); rest) db
          ≡ (if b then ending before rest db else (before, err empty))) [
            | true ↦ refl
            | false ↦ refl
          ])

-- Where the primary key is free, the row is added.
inserted :
    (r : Row Str) (rest : Tx Str (Unit {0})) (before db : Database)
    → has_id r.id db.rows ≡ false
    → ending before (do exec (insert_row r); rest) db
      ≡ ending before rest (record db { rows = db.rows ++ r ∷ [] })
unfolding run insert_row
inserted r rest before db h =
    subst
      (λ t.
        settle (if t then err key_taken else ok (tt, record db { rows = db.rows ++ r ∷ [] }))
        ≡ ending before rest (record db { rows = db.rows ++ r ∷ [] }))
      (sym h) refl
  where
    settle : Result (Unit {0} × Database) → Database × Result (Unit {0})
    settle x =
        let answer : Result (Unit {0} × Database) = elim x [
          | err e ↦ err e
          | ok (u, d) ↦ run (do a ← rest; boundary; done a) [] d
        ] in
        elim answer [ err e ↦ (before, err e) | ok (a, d) ↦ (d, ok a) ]

module _ (g : Engine) where
  -- On tables with distinct identifiers, a Retry that nothing interrupts deletes the row that is processing
  -- under the identifier of the message in the queue, adds the row of the message at the end, counts an
  -- error and a retry, and succeeds; where there is no such row it reports ErrEmpty and changes nothing.
  retry_outcome :
      (db : Database) (queue : Str) (msg : Message) (now : Time)
      → DistinctIds db
      → retry g [] db queue msg now ≡ (
          if lent db queue msg.id
          then (
            record db {
              rows = others db queue msg.id ++ message_row g queue msg now ∷ [];
              counters = counted db queue one_retry;
            },
            ok tt,
          )
          else (db, err empty))
  unfolding retry run all_or_nothing transact delete_where insert_row upsert_counters message_row
  retry_outcome db queue msg now n =
      guarded _ _ (do enqueue_row g queue msg now; exec (upsert_counters queue one_retry)) db _
        (one-stands msg.id queue processing db.rows n)
      ∙ elim (Bool-cases (lent db queue msg.id)) [
        | inl e ↦
            let free : has_id msg.id (others db queue msg.id) ≡ false =
              freed msg.id queue processing db.rows n e in
            rw e (
              inserted (message_row g queue msg now) (exec (upsert_counters queue one_retry)) db
                (record db { rows = others db queue msg.id }) free)
        | inr e ↦ rw e refl
      ]

  -- On tables with distinct identifiers and for a fresh one, a DeadLetter that nothing interrupts keeps
  -- the row that is processing under the identifier of the message in the queue, as dead with the error
  -- and the time, adds a row for the dead letter in the dead-letter queue, counts a dead message, and
  -- succeeds; where no row is processing so it reports ErrEmpty and changes nothing.
  pub dead_letter_outcome :
      (db : Database) (queue : Str) (msg : Message) (e : Option Str) (now : Time) (id : Str)
      → DistinctIds db
      → has_id id db.rows ≡ false
      → dead_letter g [] db queue msg e now id ≡ (
          if lent db queue msg.id
          then (
            record db {
              rows =
                  update_rows
                    (row_is msg.id queue processing)
                    (λ r. record r {
                      status = dead;
                      error = (dead_letter_message queue msg e now id).error;
                      dead_at = g.format now;
                    })
                    db.rows
                  ++ message_row g (dlq_name queue) (dead_letter_message queue msg e now id) now
                    ∷ [];
              counters = counted db queue one_dead;
            },
            ok tt,
          )
          else (db, err empty))
  unfolding dead_letter run all_or_nothing transact update_where insert_row upsert_counters
      dead_letter_message message_row dlq_name
  dead_letter_outcome db queue msg e now id n fresh =
      let d = message_row g (dlq_name queue) (dead_letter_message queue msg e now id) now in
      let apart : row_is msg.id queue processing d ≡ false =
        rw (has_suffix-append queue (bytes ".dlq")) (ground arith) in
      let one : (length (where_rows (row_is msg.id queue processing) (db.rows ++ d ∷ [])) == 1)
          ≡ lent db queue msg.id =
        rw (where-other msg.id queue processing db.rows d apart)
          (one-stands msg.id queue processing db.rows n) in
      inserted d
        (do
          k ← exec (
              update_where (row_is msg.id queue processing) (λ r. record r {
                status = dead;
                error = (dead_letter_message queue msg e now id).error;
                dead_at = g.format now;
              }))
          exactly_one k
          exec (upsert_counters queue one_dead))
        db db fresh
      ∙ guarded _ _ (exec (upsert_counters queue one_dead)) db _ one
      ∙ elim (Bool-cases (lent db queue msg.id)) [
        | inl h ↦ rw (h, update-other msg.id queue processing _ db.rows d apart) refl
        | inr h ↦ rw h refl
      ]
