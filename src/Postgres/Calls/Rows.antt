-- ===== src/Postgres/Calls/Rows.antt =====
-- internal/storage/postgres.go: the row of a message, when rows are inserted, updated and deleted.
use shoebox.Base.{
  ◌≢◌, arith, ℕ, ◌≡◌, Bool, true, false, not, ◌&&◌, List, [], ◌∷◌, inl, inr, Option, none, some,
  Bool-cases, ◌==◌, if_elim,
}
use shoebox.Base.Text.{Str, str_eq, str_eq_iff}
use shoebox.Storage.{Time, Message, empty, Result, ok, err}
use shoebox.Sql.{
  Row, Counters, Tx, done, fail, exec, ◌>>◌, has_id, update_where, delete_where, upsert_counters,
  insert_row, where_rows,
}
use shoebox.Sql.Posts.{
  After, After-mono, Post, Holds, insert_row-Holds, insert_row-establishes, update_where-Holds,
}
use shoebox.Sql.Keys.{Answers}
use shoebox.Postgres.{
  Engine, Database, insert_message, insert_json, indexed, has_clash, message_row, enqueue_row,
  enqueue_atomic, require_inserted, skipped,
}
use shoebox.Postgres.Settle.{exactly_one}
use shoebox.Postgres.Calls.Keeping.{Calm, Rules}

pub differs : {id : Str} (other : Str) → str_eq other id ≡ false → other ≢ id
differs {id} other e =
    λ same. let yes' : str_eq other id ≡ true = (str_eq_iff other id).1 same in cc

one_row : Result (Unit {0} × Database) → Result (ℕ × Database)
one_row x = elim x [ err e ↦ err e | ok (u, d) ↦ ok (1, d) ]

module _ (id : Str) where
  aside : (db db' : Database) → db.rows ≡ db'.rows → Holds id db → Holds id db'
  aside db db' e h = rw⁻¹ e h

  insert : (r : Row Time) (db : Database) → Holds id db → Answers (Holds id) (insert_message r db)
  unfolding insert_message one_row
  insert r db h = elim (Bool-cases (indexed r && has_clash r db.rows)) [
    | inl e ↦ rw e h
    | inr e ↦ rw e (
        (elim (insert_row r db) as (λ x. Answers (Holds id) x → Answers (Holds id) (one_row x)) [
          | err e ↦ λ k. tt
          | ok (u, d) ↦ λ k. k
        ])
          (insert_row-Holds id r db h))
  ]

  update :
      (p : Row Time → Bool) (f : Row Time → Row Time)
      → Calm p f
      → (db : Database) → Holds id db
      → Answers (Holds id) (update_where p f db)
  update p f c db h = update_where-Holds id p f c.same_id db h

  pub keep_row : Rules (Holds id)
  keep_row = record { insert = insert; update = update; aside = aside }

  -- Deleting rows of other messages.
  deleted_rows :
      (p : Row Time → Bool) (rows : List (Row Time))
      → ((r : Row Time) → str_eq r.id id ≡ true → p r ≡ false)
      → has_id id rows ≡ true
      → has_id id (where_rows (λ r. not (p r)) rows) ≡ true
  unfolding where_rows has_id
  deleted_rows p [] w h = h
  deleted_rows p (r ∷ rows) w h =
      if_elim (λ l. has_id id l ≡ true) (not (p r)) (r ∷ where_rows (λ r. not (p r)) rows)
        (where_rows (λ r. not (p r)) rows) (λ e. ground (arith, h, deleted_rows p rows w))
        (λ e. elim (Bool-cases (str_eq r.id id)) [
          | inl same ↦ let bad : p r ≡ false = w r same in ground (arith, bad, e)
          | inr d ↦ deleted_rows p rows w (ground (arith, h, d))
        ])

  pub deleting_Holds :
      (p : Row Time → Bool)
      → ((r : Row Time) → str_eq r.id id ≡ true → p r ≡ false)
      → (db : Database) → Holds id db
      → Answers (Holds id) (delete_where p db)
  unfolding delete_where
  deleting_Holds p w db h = deleted_rows p db.rows w h

  -- A row that is inserted is there.
  inserted_After :
      (text : Option Str) (r : Row Time) (db : Database)
      → r.id ≡ id
      → After (λ n d. (n == 1) ≡ true → Holds id d) (insert_json text r db)
  unfolding insert_json insert_message one_row
  inserted_After none r db same = tt
  inserted_After (some text) r db same =
      let new : Row Time = record r { metadata = text } in
      elim (Bool-cases (indexed new && has_clash new db.rows)) [
        | inl e ↦ rw e (λ one. cc)
        | inr e ↦ rw e (
            (elim (insert_row new db)
                as (λ x.
                  Answers (Holds id) x → After (λ n d. (n == 1) ≡ true → Holds id d) (one_row x)) [
                    | err e ↦ λ k. tt
                    | ok (u, d) ↦ λ k one. k
                  ])
              (insert_row-establishes id new db same))
      ]

  required :
      (n : ℕ) (q : Str) (c : Counters) (d : Database)
      → ((n == 1) ≡ true → Holds id d)
      → Post (λ u. Holds id) (do require_inserted (n == 1); exec (upsert_counters q c)) d
  unfolding require_inserted upsert_counters
  required n q c d h =
      if_elim {A = Tx Time (Unit {0})}
        (λ m. Post (λ u. Holds id) (do m; exec (upsert_counters q c)) d) (n == 1) (done tt)
        (fail skipped) (λ e. h e) (λ e. tt)

  -- A row that has been deleted comes back.
  pub reinserted :
      (g : Engine) (n : ℕ) (queue : Str) (msg : Message) (now : Time) (q : Str) (c : Counters)
      (db : Database)
      → msg.id ≡ id
      → Post
          (λ u. Holds id)
          (do exactly_one n; enqueue_atomic g queue msg now; exec (upsert_counters q c))
          db
  unfolding enqueue_row message_row
  reinserted g n queue msg now q c db same =
      if_elim {A = Tx Time (Unit {0})}
        (λ m.
          Post (λ u. Holds id) (do m; enqueue_atomic g queue msg now; exec (upsert_counters q c))
            db)
        (n == 1) (done tt) (fail empty)
        (λ e.
          After-mono _ _ (λ k d h. required k q c d h) _
            (inserted_After (g.jsonb (g.marshal msg.metadata)) (message_row g queue msg now) db
              same))
        (λ e. tt)
