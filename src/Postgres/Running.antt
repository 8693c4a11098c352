-- ===== src/Postgres/Running.antt =====
-- internal/storage/postgres.go: the statements of a transaction that nothing interrupts, one by one.
use shoebox.Base.{
  ◌≡◌, refl, ap, ◌∙◌, Bool, true, false, ◌&&◌, [], ◌∷◌, ◌++◌, some, ℕ, subst, ◌==◌, if◌then◌else◌,
}
use shoebox.Base.Text.{Str}
use shoebox.Storage.{Time, Message, empty, Result, ok, err, Error}
use shoebox.Sql.{Row, Tx, done, fail, exec, ◌>>=◌, ◌>>◌, boundary, insert_row, run, has_id}
use shoebox.Postgres.{
  Engine, Database, message_row, enqueue_row, enqueue_atomic, require_inserted, insert_json,
  insert_message, indexed, has_clash, skipped,
}
use shoebox.Postgres.Settle.{exactly_one}

-- The end of a transaction, after the statements that it has run.
abbrev pub ending : {A : Type 0} → Database → Tx Time A → Database → Database × Result A
ending before m db = elim (run (do a ← m; boundary; done a) [] db) [
  | err e ↦ (before, err e)
  | ok (a, db') ↦ (db', ok a)
]

module _ {A B : Type 0} (f : Database → Result (B × Database)) (k : B → Tx Time A)
    (before db : Database) where
  answered : Result (B × Database) → Database × Result A
  answered r =
      let answer : Result (A × Database) = elim r [
        | err e ↦ err e
        | ok (b, d) ↦ run (do a ← k b; boundary; done a) [] d
      ] in
      elim answer [ err e ↦ (before, err e) | ok (a, d) ↦ (d, ok a) ]

  -- A statement that succeeds, and one that fails.
  pub proceeds :
      (b : B) (db' : Database)
      → f db ≡ ok (b, db')
      → ending before (do b ← exec f; k b) db ≡ ending before (k b) db'
  unfolding run answered
  proceeds b db' e = ap answered e

  stops : (e : Error) → f db ≡ err e → ending before (do b ← exec f; k b) db ≡ (before, err e)
  unfolding run answered
  stops e h = ap answered h

-- Where the count is one the transaction goes on, else it is rolled back.
pub guarded :
    (n : ℕ) (t : Bool) (rest : Tx Time (Unit {0})) (before db : Database)
    → (n == 1) ≡ t
    → ending before (do exactly_one n; rest) db
      ≡ (if t then ending before rest db else (before, err empty))
unfolding run
guarded n t rest before db h =
    subst
      (λ b.
        ending before (do exactly_one n; rest) db
        ≡ (if b then ending before rest db else (before, err empty)))
      h
      (elim (n == 1)
        as (λ b.
          ending before (do (if b then done tt else fail empty); rest) db
          ≡ (if b then ending before rest db else (before, err empty))) [
            | true ↦ refl
            | false ↦ refl
          ])

-- The row that a message is stored as.
abbrev pub stored_row : Engine → Str → Message → Time → Str → Row Time
stored_row g queue msg now text = record (message_row g queue msg now) { metadata = text }

insert_fits :
    (text : Str) (r : Row Time) (db : Database)
    → (indexed (record r { metadata = text }) && has_clash (record r { metadata = text }) db.rows)
      ≡ false
    → has_id r.id db.rows ≡ false
    → insert_json (some text) r db
      ≡ ok (1, record db { rows = db.rows ++ record r { metadata = text } ∷ [] })
unfolding insert_json insert_message insert_row
insert_fits text r db clash free = rw (clash, free) refl

insert_skips :
    (text : Str) (r : Row Time) (db : Database)
    → (indexed (record r { metadata = text }) && has_clash (record r { metadata = text }) db.rows)
      ≡ true
    → insert_json (some text) r db ≡ ok (0, db)
unfolding insert_json insert_message
insert_skips text r db clash = rw clash refl

module _ (g : Engine) (queue : Str) (msg : Message) (now : Time) (text : Str)
    (stored : g.jsonb (g.marshal msg.metadata) ≡ some text) (rest : Tx Time (Unit {0}))
    (before db : Database) where
  -- `enqueuePostgresAtomic`, where the key and the identifier are free, and where the key is taken.
  pub enqueued :
      (indexed (stored_row g queue msg now text)
          && has_clash (stored_row g queue msg now text) db.rows)
        ≡ false
      → has_id msg.id db.rows ≡ false
      → ending before (do enqueue_atomic g queue msg now; rest) db
        ≡ ending before rest (record db { rows = db.rows ++ stored_row g queue msg now text ∷ [] })
  unfolding enqueue_row require_inserted message_row
  enqueued clash free = proceeds _ _ before db 1 _ (
      ap (λ t. insert_json t (message_row g queue msg now) db) stored
      ∙ insert_fits text (message_row g queue msg now) db clash free)

  pub refused :
      (indexed (stored_row g queue msg now text)
          && has_clash (stored_row g queue msg now text) db.rows)
        ≡ true
      → ending before (do enqueue_atomic g queue msg now; rest) db ≡ (before, err skipped)
  unfolding enqueue_row require_inserted message_row run
  refused clash =
      proceeds (insert_json (g.jsonb (g.marshal msg.metadata)) (message_row g queue msg now))
        (λ n. do require_inserted (n == 1); rest) before db 0 db
        (ap (λ t. insert_json t (message_row g queue msg now) db) stored
          ∙ insert_skips text (message_row g queue msg now) db clash)
