-- ===== src/Sqlite/Calls/Custody.antt =====
-- internal/storage/sqlite.go: what a call does to a message that it does not acknowledge.
use shoebox.Base.{
  ◌≢◌, All, subst, ◌∙◌, arith, ℕ, ◌≡◌, refl, Bool, true, false, List, [], ◌∷◌, inl, inr, Option,
  none, some, Bool-cases, ◌==◌, if_elim,
}
use shoebox.Base.Text.{Str, str_eq, str_eq_iff}
use shoebox.Storage.{Time, Message, empty, Result, ok, err, dlq_name, replay_message}
use shoebox.Sql.{
  Row, Counters, Tx, done, fail, exec, ◌>>◌, has_id, update_where, delete_where, Status, row_is,
  processing, dead, upsert_counters, insert_row, where_rows,
}
use shoebox.Sql.Posts.{
  After, After-mono, Post, transact-Post, Holds, insert_row-Holds, insert_row-establishes,
  update_where-Holds, delete_where-Holds,
}
use shoebox.Sql.Keys.{Answers}
use shoebox.Sqlite.Calls.Keeping.{Mild, step-Keeps, retrying-Mild, replaying-Mild}
use shoebox.Sqlite.{scan_message, message_of, Engine, Database, message_row}
use shoebox.Sqlite.Settle.{retry, replay, exactly_one, find_dead, first_message}
use shoebox.Sqlite.Calls.{
  Call, enqueuing, batching, dequeuing, acking, acking_batch, retrying, burying, replaying,
  reclaiming, creating, updating, deleting, running, report, step, history,
}

-- The call does not acknowledge the message.
abbrev pub Spares : Str → Call → Type 0
Spares id (acking q other) = other ≢ id
Spares id (acking_batch q l) = All (λ other. other ≢ id) l
Spares id _ = Unit

-- What is read, if something is.
abbrev pub Reads : {A : Type 0} → (A → Type 0) → Result A → Type 0
Reads P (err e) = Unit
Reads P (ok a) = P a

module _ (g : Engine) where
  pub message_of-id :
      (q : Str) (r : Row Str) (a b : Option Time) (c : Option (List (Str × Str))) (d : Option Time)
      → Reads (λ m. m.id ≡ r.id) (message_of g q r a b c d)
  unfolding message_of
  message_of-id q r (some a) (some b) (some c) (some d) = refl
  message_of-id q r none b c d = tt
  message_of-id q r (some a) none c d = tt
  message_of-id q r (some a) (some b) none d = tt
  message_of-id q r (some a) (some b) (some c) none = tt

  first-id :
      (id q : Str) (s : Status) (rows : List (Row Str))
      → Reads (λ m. m.id ≡ id) (first_message g q (where_rows (row_is id q s) rows))
  unfolding first_message where_rows scan_message
  first-id id q s [] = tt
  first-id id q s (r ∷ rows) = elim (Bool-cases (row_is id q s r)) [
    | inl e ↦
        let same : r.id ≡ id = (str_eq_iff r.id id).0 (ground (arith, e)) in
        rw e
          (subst (λ t. Reads (λ m. m.id ≡ t) (scan_message g q r)) same (message_of-id q r _ _ _ _))
    | inr e ↦ rw e (first-id id q s rows)
  ]

  find_dead-id : (id q : Str) (db : Database) → After (λ m d. m.id ≡ id) (find_dead g id q db)
  unfolding find_dead
  find_dead-id id q db =
      (elim (first_message g q (where_rows (row_is id q dead) db.rows))
          as (λ r.
            Reads (λ m. m.id ≡ id) r
            → After (λ m d. m.id ≡ id) (elim r [ err e ↦ err e | ok m ↦ ok (m, db) ])) [
              | err e ↦ λ h. tt
              | ok m ↦ λ h. h
            ])
        (first-id id q dead db.rows)

module _ (id : Str) where
  aside : (db db' : Database) → db.rows ≡ db'.rows → Holds id db → Holds id db'
  aside db db' e h = rw⁻¹ e h

  update :
      (p : Row Str → Bool) (f : Row Str → Row Str)
      → ((r : Row Str) → (f r).id ≡ r.id)
      → (db : Database) → Holds id db
      → Answers (Holds id) (update_where p f db)
  update p f same db h = update_where-Holds id p f same db h

  -- A row that has been deleted comes back.
  reinserted :
      (n : ℕ) (r : Row Str) (q : Str) (c : Counters) (db : Database)
      → r.id ≡ id
      → Post (λ u. Holds id) (do exactly_one n; exec (insert_row r); exec (upsert_counters q c)) db
  unfolding upsert_counters
  reinserted n r q c db same =
      if_elim {A = Tx Str (Unit {0})}
        (λ m. Post (λ u. Holds id) (do m; exec (insert_row r); exec (upsert_counters q c)) db)
        (n == 1) (done tt) (fail empty) (λ e. insert_row-establishes id r db same) (λ e. tt)

differs : {id : Str} (other : Str) → str_eq other id ≡ false → other ≢ id
differs {id} other e =
    λ same. let yes' : str_eq other id ≡ true = (str_eq_iff other id).1 same in cc

module _ (g : Engine) (id : Str) where
  reported_Holds : {A : Type 0} (x : Database × Result A) → Holds id x.0 → Holds id (report x).0
  unfolding report
  reported_Holds (db, ok a) h = h
  reported_Holds (db, err e) h = h

  retrying-back :
      (q : Str) (msg : Message) (now : Time) (faults : List Bool) (db : Database)
      → msg.id ≡ id
      → Holds id db
      → Holds id (report (retry g faults db q msg now)).0
  unfolding retry delete_where message_row
  retrying-back q msg now faults db same h = reported_Holds _ (
      transact-Post (Holds id) _ faults db (reinserted id _ (message_row g q msg now) q _ _ same) h)

  replaying-back :
      (q other : Str) (now : Time) (faults : List Bool) (db : Database)
      → other ≡ id
      → Holds id db
      → Holds id (report (replay g faults db q other now)).0
  unfolding replay delete_where message_row replay_message
  replaying-back q other now faults db same h = reported_Holds _ (
      transact-Post (Holds id) _ faults db
        (After-mono _ _
          (λ m d e. reinserted id _ (message_row g q (replay_message q m now) now) _ _ _ (e ∙ same))
          (find_dead g other (dlq_name q) db) (find_dead-id g other (dlq_name q) db))
        h)

  spared_Mild :
      (c : Call) → Spares id c → Mild g (Holds id) (insert_row-Holds id) (update id) (aside id) c
  spared_Mild (enqueuing q msg now) h = tt
  spared_Mild (batching q msgs now) h = tt
  spared_Mild (dequeuing q limit now) h = tt
  spared_Mild (acking q other) h = delete_where-Holds id other q processing h
  spared_Mild (acking_batch q []) h = tt
  spared_Mild (acking_batch q (other ∷ l)) h =
      (delete_where-Holds id other q processing h.0, spared_Mild (acking_batch q l) h.1)
  spared_Mild (retrying q msg now) h = elim (Bool-cases (str_eq msg.id id)) [
    | inl e ↦ λ faults db. retrying-back q msg now faults db ((str_eq_iff msg.id id).0 e)
    | inr e ↦
        retrying-Mild g (Holds id) (insert_row-Holds id) (update id) (aside id) q msg now
          (delete_where-Holds id msg.id q processing (differs msg.id e))
  ]
  spared_Mild (burying q msg e now fresh) h = tt
  spared_Mild (replaying q other now) h = elim (Bool-cases (str_eq other id)) [
    | inl e ↦ λ faults db. replaying-back q other now faults db ((str_eq_iff other id).0 e)
    | inr e ↦
        replaying-Mild g (Holds id) (insert_row-Holds id) (update id) (aside id) q other now
          (delete_where-Holds id other (dlq_name q) dead (differs other e))
  ]
  spared_Mild (reclaiming q) h = tt
  spared_Mild (creating s) h = tt
  spared_Mild (updating s) h = tt
  spared_Mild (deleting other) h = tt
  spared_Mild (running s now next clock fresh) h = tt

  -- The message stays in the tables through calls that do not acknowledge it, each interrupted by any
  -- faults: neither a crash, a retry, a dead letter, a replay nor the settlement of another message
  -- loses it.
  pub history-Holds :
      (db : Database) (calls : List (Call × List Bool))
      → All (λ c. Spares id c.0) calls
      → has_id id db.rows ≡ true
      → has_id id (history g db calls).rows ≡ true
  unfolding history
  history-Holds db [] a h = h
  history-Holds db ((c, faults) ∷ calls) a h = history-Holds (step g faults db c).0 calls a.1 (
      step-Keeps g (Holds id) (insert_row-Holds id) (update id) (aside id) faults db c
        (spared_Mild c a.0) h)
