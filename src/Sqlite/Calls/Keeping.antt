-- ===== src/Sqlite/Calls/Keeping.antt =====
-- internal/storage/sqlite.go: what inserting and updating rows keeps, every call keeps whose deletions do.
use shoebox.Base.{
  All, ℕ, ◌≡◌, refl, Bool, List, [], ◌∷◌, inl, inr, Bool-cases, ◌==◌, if_elim, ltb, suc, ◌+◌,
}
use shoebox.Base.Text.{Str}
use shoebox.Storage.{Time, Message, Schedule, Result, ok, err, dlq_name}
use shoebox.Sql.{
  Row, update_where, delete_where, Tx, autocommit, transact, row_is, processing, dead,
  upsert_counters, insert_row,
}
use shoebox.Sql.Keys.{Keeps, Answers, Keeps-bind, autocommit-Keeps, transact-Keeps}
use shoebox.Sqlite.{
  Engine, Database, enqueue, enqueue_batch, dequeue, message_row, enqueue_row, enqueue_each,
  due_messages, scan_rows, mark_each, claim,
}
use shoebox.Sqlite.Settle.{
  ack, ack_batch, retry, dead_letter, replay, reclaim, count_acked, ack_each, exactly_one,
  find_dead, first_message,
}
use shoebox.Sql.Jobs.{has_schedule, insert_schedule_row, update_schedule_rows}
use shoebox.Sqlite.Schedules.{
  Job, create_schedule, update_schedule, delete_schedule, run_schedule, schedule_row, finish_run,
}
use shoebox.Sqlite.Calls.{
  Call, enqueuing, batching, dequeuing, acking, acking_batch, retrying, burying, replaying,
  reclaiming, creating, updating, deleting, running, report, step,
}

module _ (g : Engine) (I : Database → Type 0)
    (insert : (r : Row Str) (db : Database) → I db → Answers I (insert_row r db))
    (update : (p : Row Str → Bool) (f : Row Str → Row Str)
      → ((r : Row Str) → (f r).id ≡ r.id)
      → (db : Database) → I db
      → Answers I (update_where p f db))
    (aside : (db db' : Database) → db.rows ≡ db'.rows → I db → I db') where
  -- Deleting the rows keeps I.
  abbrev pub Spared : (Row Str → Bool) → Type 0
  Spared p = (db : Database) → I db → Answers I (delete_where p db)

  -- What a call that deletes rows must do besides.
  abbrev pub Mild : Call → Type 0
  Mild (acking q id) = Spared (row_is id q processing)
  Mild (acking_batch q l) = All (λ id. Spared (row_is id q processing)) l
  Mild (retrying q msg now) =
      (faults : List Bool) (db : Database) → I db → I (report (retry g faults db q msg now)).0
  Mild (replaying q id now) =
      (faults : List Bool) (db : Database) → I db → I (report (replay g faults db q id now)).0
  Mild _ = Unit

  report_fst : {A : Type 0} (x : Database × Result A) → I x.0 → I (report x).0
  unfolding report
  report_fst (db, ok a) n = n
  report_fst (db, err e) n = n

  -- The statements keep the identifiers distinct.
  insert_Keeps : (q : Str) (msg : Message) (now : Time) → Keeps I (enqueue_row g q msg now)
  insert_Keeps q msg now = (insert (message_row g q msg now), λ u. tt)

  insert_each-Keeps :
      (q : Str) (msgs : List Message) (now : Time) (i : ℕ) → Keeps I (enqueue_each g q msgs now i)
  unfolding enqueue_each
  insert_each-Keeps q [] now i = tt
  insert_each-Keeps q (m ∷ ms) now i = (insert _, λ u. insert_each-Keeps q ms now (suc i))

  mark_each-Keeps : (q : Str) (msgs : List Message) → Keeps I (mark_each q msgs)
  unfolding mark_each
  mark_each-Keeps q [] = tt
  mark_each-Keeps q (m ∷ ms) = (update _ _ (λ r. refl), λ n. mark_each-Keeps q ms)

  claim-Keeps : (q : Str) (msgs : List Message) → Keeps I (claim q msgs)
  unfolding claim
  claim-Keeps q [] = tt
  claim-Keeps q (m ∷ ms) =
      Keeps-bind I (mark_each q (m ∷ ms)) _ (mark_each-Keeps q (m ∷ ms)) (λ u. tt)

  due_messages-Answers :
      (q : Str) (now : Str) (limit : ℕ) (db : Database)
      → I db
      → Answers I (due_messages g q now limit db)
  unfolding due_messages
  due_messages-Answers q now limit db n =
      elim (scan_rows g q _)
        as (λ r. Answers I (elim r [ err e ↦ err e | ok msgs ↦ ok (msgs, db) ])) [
          | err e ↦ tt
          | ok msgs ↦ n
        ]

  find_dead-Answers : (id q : Str) (db : Database) → I db → Answers I (find_dead g id q db)
  unfolding find_dead
  find_dead-Answers id q db n =
      elim (first_message g q _)
        as (λ r. Answers I (elim r [ err e ↦ err e | ok m ↦ ok (m, db) ])) [ err e ↦ tt | ok m ↦ n ]

  ack_each-Keeps :
      (q : Str) (l : List Str) (n : ℕ)
      → All (λ id. Spared (row_is id q processing)) l
      → Keeps I (ack_each q l n)
  unfolding ack_each
  ack_each-Keeps q [] n h = tt
  ack_each-Keeps q (id ∷ l) n h = (h.0, λ k. ack_each-Keeps q l (n + k) h.1)

  exactly_one-Keeps : (n : ℕ) → Keeps I (exactly_one n)
  exactly_one-Keeps n = if_elim (Keeps I) (n == 1) _ _ (λ e. tt) (λ e. tt)

  count_acked-Keeps : (q : Str) (n : ℕ) → Keeps I (count_acked q n)
  unfolding count_acked upsert_counters
  count_acked-Keeps q n =
      if_elim (Keeps I) (n == 0) _ _ (λ e. tt) (λ e. ((λ d j. aside d _ refl j), λ u. tt))

  finish_run-Keeps :
      (s : Schedule) (now clock : Time) (id : Str) (n : ℕ) → Keeps I (finish_run g s now clock id n)
  unfolding finish_run
  finish_run-Keeps s now clock id n =
      if_elim (Keeps I) (n == 1) _ _ (λ e. (insert _, λ u. tt)) (λ e. tt)

  insert_schedule_row-Answers :
      (s : Job) (db : Database) → I db → Answers I (insert_schedule_row s db)
  unfolding insert_schedule_row
  insert_schedule_row-Answers s db n = elim (Bool-cases (has_schedule s.id db.schedules)) [
    | inl e ↦ rw e tt
    | inr e ↦ rw e (aside db _ refl n)
  ]

  transacted :
      {A : Type 0} (m : Tx Str A) (faults : List Bool) (db : Database)
      → Keeps I m
      → I db
      → I (report (transact m faults db)).0
  transacted m faults db k n = report_fst (transact m faults db) (transact-Keeps I m faults db k n)

  committed :
      {A : Type 0} (m : Tx Str A) (faults : List Bool) (db : Database)
      → Keeps I m
      → I db
      → I (report (autocommit m faults db)).0
  committed m faults db k n =
      report_fst (autocommit m faults db) (autocommit-Keeps I m faults db k n)

  pub retrying-Mild :
      (q : Str) (msg : Message) (now : Time)
      → Spared (row_is msg.id q processing)
      → Mild (retrying q msg now)
  unfolding retry upsert_counters report
  retrying-Mild q msg now h faults db n =
      transacted _ faults db
        (
          h,
          λ k.
              Keeps-bind I (exactly_one k) _ (exactly_one-Keeps k)
                (λ u. (insert _, λ v. ((λ d j. aside d _ refl j), λ w. tt))),
        )
        n

  pub replaying-Mild :
      (q id : Str) (now : Time) → Spared (row_is id (dlq_name q) dead) → Mild (replaying q id now)
  unfolding replay upsert_counters report
  replaying-Mild q id now h faults db n =
      transacted _ faults db
        (
          find_dead-Answers id (dlq_name q),
          λ msg. (
            h,
            λ k.
                Keeps-bind I (exactly_one k) _ (exactly_one-Keeps k)
                  (λ u. (insert _, λ v. ((λ d j. aside d _ refl j), λ w. tt))),
          ),
        )
        n

  -- Every call keeps I if inserting a row and updating rows do, and the deletions of that call.
  pub step-Keeps :
      (faults : List Bool) (db : Database) (c : Call) → Mild c → I db → I (step g faults db c).0
  unfolding step enqueue enqueue_batch dequeue ack ack_batch retry dead_letter replay reclaim
      create_schedule update_schedule delete_schedule run_schedule upsert_counters
      update_schedule_rows report
  step-Keeps faults db (enqueuing q msg now) h n = committed _ faults db (insert_Keeps q msg now) n
  step-Keeps faults db (batching q [] now) h n = n
  step-Keeps faults db (batching q (m ∷ ms) now) h n =
      transacted _ faults db (insert_each-Keeps q (m ∷ ms) now 0) n
  step-Keeps faults db (dequeuing q limit now) h n =
      transacted _ faults db (due_messages-Answers q (g.format now) limit, claim-Keeps q) n
  step-Keeps faults db (acking q id) h n = transacted _ faults db (h, count_acked-Keeps q) n
  step-Keeps faults db (acking_batch q []) h n = n
  step-Keeps faults db (acking_batch q (id ∷ l)) h n =
      transacted _ faults db
        (Keeps-bind I (ack_each q (id ∷ l) 0) _ (ack_each-Keeps q (id ∷ l) 0 h) (λ k.
          if_elim (Keeps I) (ltb 0 k) _ _ (λ e. ((λ d j. aside d _ refl j), λ u. tt)) (λ e. tt)))
        n
  step-Keeps faults db (retrying q msg now) h n = h faults db n
  step-Keeps faults db (burying q msg e now id) h n =
      transacted _ faults db
        (
          insert _,
          λ u. (
            update _ _ (λ r. refl),
            λ k.
                Keeps-bind I (exactly_one k) _ (exactly_one-Keeps k)
                  (λ v. ((λ d j. aside d _ refl j), λ w. tt)),
          ),
        )
        n
  step-Keeps faults db (replaying q id now) h n = h faults db n
  step-Keeps faults db (reclaiming q) h n =
      committed _ faults db (update _ _ (λ r. refl), λ k. tt) n
  step-Keeps faults db (creating s) h n =
      committed _ faults db (insert_schedule_row-Answers (schedule_row g s), λ u. tt) n
  step-Keeps faults db (updating s) h n =
      committed _ faults db ((λ d j. aside d _ refl j), λ u. tt) n
  step-Keeps faults db (deleting id) h n =
      committed _ faults db ((λ d j. aside d _ refl j), λ u. tt) n
  step-Keeps faults db (running s now next clock id) h n =
      transacted _ faults db ((λ d j. aside d _ refl j), finish_run-Keeps s now clock id) n
