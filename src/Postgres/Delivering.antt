-- ===== src/Postgres/Delivering.antt =====
-- internal/storage/postgres.go: a dequeue that nothing interrupts, against a single pass over the rows.
use shoebox.Base.{ℕ, ◌≡◌, refl, ap, sym, ◌∙◌, not, ◌&&◌, List, [], ◌∷◌, take}
use shoebox.Base.Text.{Str, str_eq}
use shoebox.Base.Maps.{contains}
use shoebox.Storage.{Time, Message, empty, Result, ok, err}
use shoebox.Sql.{
  Row, Tx, done, ◌>>=◌, ◌>>◌, boundary, processing, where_rows, update_rows, update_where, run,
  all_or_nothing, transact,
}
use shoebox.Sql.Claims.{message_ids, marked, marked-nil, marked-update}
use shoebox.Postgres.{
  Engine, Database, row_due, ranks_before, scan_rows, choose, due_messages, mark_each, claim,
  dequeue,
}

-- What a dequeue makes of the messages that its query has read.
abbrev pub offered : Database → Str → Result (List Message) → Database × Result (List Message)
offered db q (err e) = (db, err e)
offered db q (ok []) = (db, err empty)
offered db q (ok (m ∷ ms)) =
    (record db { rows = marked q (message_ids (m ∷ ms)) db.rows }, ok (m ∷ ms))

-- The loop of updates never fails.
run-mark_each :
    {A B : Type 0} (q : Str) (ms : List Message) (k : Unit {0} → Tx Time A) (l : A → Tx Time B)
    (db : Database)
    → run (mark_each q ms >>= k >>= l) [] db
      ≡ run (k tt >>= l) [] (record db { rows = marked q (message_ids ms) db.rows })
unfolding run mark_each update_where
run-mark_each q [] k l db =
    ap (λ rows. run (k tt >>= l) [] (record db { rows = rows })) (sym (marked-nil q db.rows))
run-mark_each q (m ∷ ms) k l db =
    run-mark_each q ms k l (record db {
      rows =
          update_rows (λ r. str_eq r.id m.id && str_eq r.queue q)
            (λ r. record r { status = processing }) db.rows;
    })
    ∙ ap (λ rows. run (k tt >>= l) [] (record db { rows = rows }))
        (marked-update q m.id (message_ids ms) db.rows)

module _ (g : Engine) where
  -- The rows of the queue that are pending and due at the time of the server and that no other transaction has
  -- locked, in the order of the query and up to its limit.
  abbrev pub selected : Database → Str → ℕ → List Str → Time → List (Row Time)
  selected db q limit locked clock = take limit (
      g.arrange ranks_before
        (where_rows (λ r. row_due q clock r && not (contains r.id locked)) db.rows))

  -- A Dequeue that nothing interrupts, with the rows that are due, unlocked and within its limit: where one of
  -- them cannot be read it reports that, where there is none ErrEmpty, and changes nothing; otherwise it
  -- returns all of them as messages in the order of the query, and in one pass the rows of the queue with
  -- their identifiers become processing, and nothing else changes.
  pub dequeue_claims :
      (db : Database) (q : Str) (limit : ℕ) (locked : List Str) (clock : Time)
      → dequeue g [] db q limit locked clock
        ≡ offered db q (scan_rows g q (selected db q limit locked clock))
  unfolding dequeue transact all_or_nothing run due_messages claim choose
  dequeue_claims db q limit locked clock =
      answered (scan_rows g q (selected db q limit locked clock))
    where
      query : Result (List Message) → Result (List Message × Database)
      query x = elim x [ err e ↦ err e | ok msgs ↦ ok (msgs, db) ]

      body : Result (List Message × Database) → Result (List Message × Database)
      body x = elim x [
        | err e ↦ err e
        | ok (msgs, d) ↦ run (do a ← claim q msgs; boundary; done a) [] d
      ]

      settle : Result (List Message × Database) → Database × Result (List Message)
      settle x = elim x [ err e ↦ (db, err e) | ok (a, d) ↦ (d, ok a) ]

      answered : (x : Result (List Message)) → settle (body (query x)) ≡ offered db q x
      answered (err e) = refl
      answered (ok []) = refl
      answered (ok (m ∷ ms)) =
          ap settle (run-mark_each q (m ∷ ms) (λ u. done (m ∷ ms)) (λ a. do boundary; done a) db)
