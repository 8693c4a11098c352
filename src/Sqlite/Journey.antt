-- ===== src/Sqlite/Journey.antt =====
-- internal/storage/sqlite.go: a message from its enqueueing to its delivery.
use shoebox.Base.{
  ℕ, zero, suc, ◌≡◌, refl, ap, ◌∙◌, Bool, true, false, List, [], ◌∷◌, ◌++◌, some, arith, take,
  is_nil, if◌then◌else◌, ◌==◌,
}
use shoebox.Base.Text.{Str, str_eq_refl, has_suffix, bytes}
use shoebox.Storage.{Time, Message, Result, ok, err}
use shoebox.Sql.{Row, has_id, where_rows, insert_row, autocommit}
use shoebox.Sqlite.{
  Engine, Database, enqueue, dequeue, message_row, row_due, ranks_before, text_leb, scan_rows,
  scan_message, read_metadata,
}
use shoebox.Sqlite.Delivering.{offered, selected, dequeue_outcome, scan_message-message_row}

where_rows-append :
    (p : Row Str → Bool) (rows : List (Row Str)) (r : Row Str)
    → p r ≡ true
    → where_rows p (rows ++ r ∷ []) ≡ where_rows p rows ++ r ∷ []
unfolding where_rows
where_rows-append p [] r h = ground (arith, h)
where_rows-append p (x ∷ rows) r h = ground (arith, where_rows-append p rows r h)

-- The message as it is delivered.
abbrev pub arrived : Str → Message → Time → Message
arrived queue msg now = record msg {
  queue = queue;
  created_at = if msg.created_at == 0 then now else msg.created_at;
  scheduled_at = if msg.scheduled_at == 0 then now else msg.scheduled_at;
}

free :
    (r : Row Str) (db : Database)
    → has_id r.id db.rows ≡ false
    → insert_row r db ≡ ok (tt, record db { rows = db.rows ++ r ∷ [] })
unfolding insert_row
free r db h = rw h refl

take_one : (limit : ℕ) (r : Row Str) → take (suc limit) (r ∷ []) ≡ r ∷ []
take_one zero r = refl
take_one (suc limit) r = refl

module _ (g : Engine) where
  stored :
      (db : Database) (queue : Str) (msg : Message) (now : Time)
      → has_id msg.id db.rows ≡ false
      → (enqueue g [] db queue msg now).0
        ≡ record db { rows = db.rows ++ message_row g queue msg now ∷ [] }
  unfolding enqueue autocommit
  stored db queue msg now h =
      ap settle (free (message_row g queue msg now) db (unfold message_row in h))
    where
      settle : Result (Unit {0} × Database) → Database
      settle x =
          (elim x as (λ y. Database × Result (Unit {0})) [
            | err e ↦ (db, err e)
            | ok (a, d) ↦ (d, ok a)
          ]).0

  due_now :
      (queue : Str) (msg : Message) (now later : Time)
      → has_suffix queue (bytes ".dlq") ≡ false
      → text_leb (g.format (arrived queue msg now).scheduled_at) (g.format later) ≡ true
      → row_due queue (g.format later) (message_row g queue msg now) ≡ true
  unfolding row_due message_row
  due_now queue msg now later s d = rw (str_eq_refl queue, s) d

  scanned :
      (queue : Str) (r : Row Str) (m : Message)
      → scan_message g queue r ≡ ok m
      → scan_rows g queue (r ∷ []) ≡ ok (m ∷ [])
  unfolding scan_rows
  scanned queue r m e = ap one e
    where
      one : Result Message → Result (List Message)
      one x = elim x [ err e ↦ err e | ok m ↦ ok (m ∷ []) ]

  -- A message under a fresh identifier, enqueued in a queue that is no dead-letter queue and where nothing
  -- else is due, is what the next Dequeue returns, once the text of its time is not after that of the
  -- present: the same message in that queue, with the time of its enqueueing for a time that is zero. This
  -- takes that times and metadata are read back, that no time is formatted as the empty text, and that
  -- ORDER BY leaves a single row as it is.
  pub dequeue-enqueue :
      (db : Database) (queue : Str) (msg : Message) (now later : Time) (limit : ℕ)
      → ((t : Time) → g.parse (g.format t) ≡ some t)
      → ((t : Time) → is_nil (g.format t) ≡ false)
      → read_metadata g (g.marshal msg.metadata) ≡ some msg.metadata
      → ((r : Row Str) → g.arrange ranks_before (r ∷ []) ≡ r ∷ [])
      → has_id msg.id db.rows ≡ false
      → has_suffix queue (bytes ".dlq") ≡ false
      → where_rows (row_due queue (g.format later)) db.rows ≡ []
      → text_leb (g.format (arrived queue msg now).scheduled_at) (g.format later) ≡ true
      → (dequeue g [] (enqueue g [] db queue msg now).0 queue (suc limit) later).1
        ≡ ok (arrived queue msg now ∷ [])
  dequeue-enqueue db queue msg now later limit law full meta single fresh plain none_due due =
      let row = message_row g queue msg now in
      let db' : Database = record db { rows = db.rows ++ row ∷ [] } in
      let found : where_rows (row_due queue (g.format later)) db'.rows ≡ row ∷ [] =
        where_rows-append (row_due queue (g.format later)) db.rows row
          (due_now queue msg now later plain due)
        ∙ ap (λ l. l ++ row ∷ []) none_due in
      let chosen : selected g db' queue (suc limit) later ≡ row ∷ [] =
        ap (λ l. take (suc limit) (g.arrange ranks_before l)) found
        ∙ ap (λ l. take (suc limit) l) (single row)
        ∙ take_one limit row in
      let read : scan_rows g queue (selected g db' queue (suc limit) later)
          ≡ ok (arrived queue msg now ∷ []) =
        ap (λ l. scan_rows g queue l) chosen
        ∙ scanned queue row (arrived queue msg now)
            (scan_message-message_row g queue msg now law full meta) in
      ap (λ d. (dequeue g [] d queue (suc limit) later).1) (stored db queue msg now fresh)
      ∙ ap (λ x. x.1) (dequeue_outcome g db' queue (suc limit) later)
      ∙ ap (λ x. (offered db' queue x).1) read
