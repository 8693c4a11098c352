-- ===== src/Sqlite/Delivering.antt =====
-- internal/storage/sqlite.go: a dequeue that nothing interrupts, against a single pass over the rows, and
-- the way of a message into its row and back.
use shoebox.Base.{
  ℕ, ◌≡◌, refl, ap, sym, ◌∙◌, false, ◌&&◌, List, [], ◌∷◌, some, arith, inl, inr, Bool-cases, take,
  is_nil, if◌then◌else◌, ◌==◌,
}
use shoebox.Base.Text.{Str, str_eq}
use shoebox.Storage.{Time, Message, empty, Result, ok, err}
use shoebox.Sql.{
  Row, Tx, done, ◌>>=◌, ◌>>◌, boundary, processing, where_rows, update_rows, update_where, run,
  all_or_nothing, transact,
}
use shoebox.Sqlite.{
  Engine, Database, row_due, ranks_before, scan_rows, due_messages, mark_each, claim, dequeue,
  message_row, scan_message, message_of, read_metadata, read_dead_at, ts_or_empty,
}
use shoebox.Sql.Claims.{message_ids, marked, marked-nil, marked-update}

-- What a dequeue makes of the messages that its query has read.
abbrev pub offered : Database → Str → Result (List Message) → Database × Result (List Message)
offered db q (err e) = (db, err e)
offered db q (ok []) = (db, err empty)
offered db q (ok (m ∷ ms)) =
    (record db { rows = marked q (message_ids (m ∷ ms)) db.rows }, ok (m ∷ ms))

-- The loop of updates never fails.
run-mark_each :
    {A B : Type 0} (q : Str) (ms : List Message) (k : Unit {0} → Tx Str A) (l : A → Tx Str B)
    (db : Database)
    → run (mark_each q ms >>= k >>= l) [] db
      ≡ run (k tt >>= l) [] (record db { rows = marked q (message_ids ms) db.rows })
unfolding run mark_each update_where
run-mark_each q [] k l db =
    ap (λ rows. run (k tt >>= l) [] (record db { rows = rows })) (sym (marked-nil q db.rows))
run-mark_each q (m ∷ ms) k l db =
    run-mark_each q ms k l (record db {
      rows =
          update_rows (λ r. str_eq r.id m.id && str_eq r.queue q)
            (λ r. record r { status = processing }) db.rows;
    })
    ∙ ap (λ rows. run (k tt >>= l) [] (record db { rows = rows }))
        (marked-update q m.id (message_ids ms) db.rows)

module _ (g : Engine) where
  -- The rows that the query of a dequeue selects, in its order and up to its limit.
  abbrev pub selected : Database → Str → ℕ → Time → List (Row Str)
  selected db q limit now =
      take limit (g.arrange ranks_before (where_rows (row_due q (g.format now)) db.rows))

  -- A Dequeue that nothing interrupts, with the rows that its query selects: where one of them cannot be read
  -- it reports that, where there is none ErrEmpty, and changes nothing; otherwise it returns all of them as
  -- messages in the order of the query, and in one pass the rows of the queue with their identifiers
  -- become processing, and nothing else changes.
  pub dequeue_outcome :
      (db : Database) (q : Str) (limit : ℕ) (now : Time)
      → dequeue g [] db q limit now ≡ offered db q (scan_rows g q (selected db q limit now))
  unfolding dequeue transact all_or_nothing run due_messages claim
  dequeue_outcome db q limit now = answered (scan_rows g q (selected db q limit now))
    where
      query : Result (List Message) → Result (List Message × Database)
      query x = elim x [ err e ↦ err e | ok msgs ↦ ok (msgs, db) ]

      body : Result (List Message × Database) → Result (List Message × Database)
      body x = elim x [
        | err e ↦ err e
        | ok (msgs, d) ↦ run (do a ← claim q msgs; boundary; done a) [] d
      ]

      settle : Result (List Message × Database) → Database × Result (List Message)
      settle x = elim x [ err e ↦ (db, err e) | ok (a, d) ↦ (d, ok a) ]

      answered : (x : Result (List Message)) → settle (body (query x)) ≡ offered db q x
      answered (err e) = refl
      answered (ok []) = refl
      answered (ok (m ∷ ms)) =
          ap settle (run-mark_each q (m ∷ ms) (λ u. done (m ∷ ms)) (λ a. do boundary; done a) db)

  dead_at-back :
      (t : Time)
      → g.parse (g.format t) ≡ some t
      → is_nil (g.format t) ≡ false
      → read_dead_at g (ts_or_empty g t) ≡ some t
  unfolding read_dead_at ts_or_empty
  dead_at-back t law full = elim (Bool-cases (t == 0)) [
    | inl e ↦ let zero : t ≡ 0 = ground (arith, e) in rw (e, zero) refl
    | inr e ↦ rw (e, full) law
  ]

  -- If the formats of times and metadata are read back and no time is formatted as the empty text, the row
  -- that is made of a message reads back as the message in that queue, with the present for a time of
  -- creation or of delivery that is zero.
  pub scan_message-message_row :
      (queue : Str) (msg : Message) (now : Time)
      → ((t : Time) → g.parse (g.format t) ≡ some t)
      → ((t : Time) → is_nil (g.format t) ≡ false)
      → read_metadata g (g.marshal msg.metadata) ≡ some msg.metadata
      → scan_message g queue (message_row g queue msg now)
        ≡ ok (record msg {
          queue = queue;
          created_at = if msg.created_at == 0 then now else msg.created_at;
          scheduled_at = if msg.scheduled_at == 0 then now else msg.scheduled_at;
        })
  unfolding scan_message message_row message_of
  scan_message-message_row queue msg now law full meta =
      let row = message_row g queue msg now in
      λ i.
        message_of g queue row (law (if msg.created_at == 0 then now else msg.created_at) i)
          (law (if msg.scheduled_at == 0 then now else msg.scheduled_at) i) (meta i)
          (dead_at-back msg.dead_at (law msg.dead_at) (full msg.dead_at) i)
