-- ===== src/Postgres/Calls/Keeping.antt =====
-- internal/storage/postgres.go: what the statements keep, the calls keep.
use shoebox.Base.{
  ℕ, ◌≡◌, refl, Bool, true, false, List, [], ◌∷◌, inl, inr, Bool-cases, ◌==◌, if_elim, ltb, suc,
  Option, none, some, arith,
}
use shoebox.Base.Text.{Str}
use shoebox.Storage.{
  Time, Message, Schedule, Result, ok, err, periodic_message, dead_letter_message,
}
use shoebox.Memory.{stamp_batch}
use shoebox.Sql.{
  Row, Status, pending, processing, dead, status_eq, update_where, delete_where, Tx, autocommit,
  transact, row_is, upsert_counters, ScheduleRow, Counters,
}
use shoebox.Sql.Jobs.{has_schedule, insert_schedule_row, update_schedule_rows}
use shoebox.Sql.Keys.{Keeps, Answers, Keeps-bind, autocommit-Keeps, transact-Keeps}
use shoebox.Postgres.{
  Engine, Database, insert_json, insert_message, enqueue, enqueue_batch, enqueue_row, enqueue_each,
  enqueue_atomic, enqueue_dropping, require_inserted, message_row,
}
use shoebox.Postgres.Settle.{
  ack, ack_batch, dead_letter, reclaim, count_acked, count_processed, count_batch, row_among,
  exactly_one,
}
use shoebox.Postgres.Schedules.{
  create_schedule, update_schedule, delete_schedule, run_schedule, schedule_row, finish_run,
  with_options,
}
use shoebox.Postgres.Calls.{
  Call, enqueuing, batching, dequeuing, acking, acking_batch, retrying, burying, replaying,
  reclaiming, creating, updating, deleting, running, report, step,
}

-- An update that leaves the row where it stands in the index, or takes it out.
pub record Calm (p : Row Time → Bool) (f : Row Time → Row Time) : Type 0 where
  pub same_id : (r : Row Time) → (f r).id ≡ r.id
  pub same_queue : (r : Row Time) → (f r).queue ≡ r.queue
  pub same_key : (r : Row Time) → (f r).dedupe_key ≡ r.dedupe_key
  pub no_revival :
      (r : Row Time)
      → p r ≡ true
      → status_eq r.status dead ≡ true
      → status_eq (f r).status dead ≡ true

pub in_flight_not_dead :
    {A : Type 0} (s : Status) → status_eq s processing ≡ true → status_eq s dead ≡ true → A
in_flight_not_dead pending p d = cc
in_flight_not_dead processing p d = cc
in_flight_not_dead dead p d = cc

-- What keeps I: insertions, calm updates, and whatever leaves the messages as they are.
pub record Rules (I : Database → Type 0) : Type 0 where
  pub insert : (r : Row Time) (db : Database) → I db → Answers I (insert_message r db)
  pub update :
      (p : Row Time → Bool) (f : Row Time → Row Time)
      → Calm p f
      → (db : Database) → I db
      → Answers I (update_where p f db)
  pub aside : (db db' : Database) → db.rows ≡ db'.rows → I db → I db'

module _ (g : Engine) (I : Database → Type 0) (rules : Rules I) where
  -- Deleting the rows keeps I.
  abbrev pub Spared : (Row Time → Bool) → Type 0
  Spared p = (db : Database) → I db → Answers I (delete_where p db)

  -- What a call that deletes rows, or claims them, must do besides.
  abbrev pub Mild : Call → Type 0
  Mild (dequeuing q limit locked clock) =
      (faults : List Bool) (db : Database)
      → I db
      → I (step g faults db (dequeuing q limit locked clock)).0
  Mild (acking q id) = Spared (row_is id q processing)
  Mild (acking_batch q l) = Spared (row_among l q)
  Mild (retrying q msg now) =
      (faults : List Bool) (db : Database) → I db → I (step g faults db (retrying q msg now)).0
  Mild (replaying q id now) =
      (faults : List Bool) (db : Database) → I db → I (step g faults db (replaying q id now)).0
  Mild _ = Unit

  pub report_fst : {A : Type 0} (x : Database × Result A) → I x.0 → I (report x).0
  unfolding report
  report_fst (db, ok a) n = n
  report_fst (db, err e) n = n

  pub transacted :
      {A : Type 0} (m : Tx Time A) (faults : List Bool) (db : Database)
      → Keeps I m
      → I db
      → I (report (transact m faults db)).0
  transacted m faults db k n = report_fst (transact m faults db) (transact-Keeps I m faults db k n)

  committed :
      {A : Type 0} (m : Tx Time A) (faults : List Bool) (db : Database)
      → Keeps I m
      → I db
      → I (report (autocommit m faults db)).0
  committed m faults db k n =
      report_fst (autocommit m faults db) (autocommit-Keeps I m faults db k n)

  insert_json-Answers :
      (text : Option Str) (r : Row Time) (db : Database) → I db → Answers I (insert_json text r db)
  unfolding insert_json
  insert_json-Answers none r db i = tt
  insert_json-Answers (some text) r db i = rules.insert _ db i

  stored :
      (q : Str) (msg : Message) (now : Time) (db : Database)
      → I db
      → Answers I
          (insert_json (g.jsonb (message_row g q msg now).metadata) (message_row g q msg now) db)
  stored q msg now db i = insert_json-Answers _ _ db i

  dropping_Keeps : (q : Str) (msg : Message) (now : Time) → Keeps I (enqueue_dropping g q msg now)
  unfolding enqueue_row
  dropping_Keeps q msg now = (stored q msg now, λ n. tt)

  require_inserted-Keeps : (b : Bool) → Keeps I (require_inserted b)
  unfolding require_inserted
  require_inserted-Keeps true = tt
  require_inserted-Keeps false = tt

  pub enqueue_atomic-Keeps :
      (q : Str) (msg : Message) (now : Time) → Keeps I (enqueue_atomic g q msg now)
  unfolding enqueue_row
  enqueue_atomic-Keeps q msg now = (stored q msg now, λ n. require_inserted-Keeps (n == 1))

  enqueue_each-Keeps :
      (q : Str) (msgs : List Message) (now : Time) (i : ℕ) → Keeps I (enqueue_each g q msgs now i)
  unfolding enqueue_each
  enqueue_each-Keeps q [] now i = tt
  enqueue_each-Keeps q (m ∷ ms) now i =
      (stored q (stamp_batch now i m) now, λ n. enqueue_each-Keeps q ms now (suc i))

  pub exactly_one-Keeps : (n : ℕ) → Keeps I (exactly_one n)
  exactly_one-Keeps n = if_elim (Keeps I) (n == 1) _ _ (λ e. tt) (λ e. tt)

  pub upsert-Answers :
      (q : Str) (c : Counters) (db : Database) → I db → Answers I (upsert_counters q c db)
  unfolding upsert_counters
  upsert-Answers q c db i = rules.aside db _ refl i

  pub count_processed-Keeps : (q : Str) (n : ℕ) → Keeps I (count_processed q n)
  unfolding count_processed
  count_processed-Keeps q n = (upsert-Answers q _, λ u. tt)

  count_acked-Keeps : (q : Str) (n : ℕ) → Keeps I (count_acked q n)
  unfolding count_acked
  count_acked-Keeps q n = if_elim (Keeps I) (n == 0) _ _ (λ e. tt) (λ e. count_processed-Keeps q 1)

  count_batch-Keeps : (q : Str) (n : ℕ) → Keeps I (count_batch q n)
  unfolding count_batch
  count_batch-Keeps q n = if_elim (Keeps I) (ltb 0 n) _ _ (λ e. count_processed-Keeps q n) (λ e. tt)

  finish_run-Keeps :
      (s : Schedule) (now clock : Time) (id : Str) (n : ℕ) → Keeps I (finish_run g s now clock id n)
  unfolding finish_run
  finish_run-Keeps s now clock id n =
      if_elim (Keeps I) (n == 1) _ _
        (λ e.
          let msg = periodic_message s now id in
          Keeps-bind I (enqueue_atomic g s.queue msg clock) _
            (enqueue_atomic-Keeps s.queue msg clock) (λ u. tt))
        (λ e. tt)

  insert_schedule_row-Answers :
      (s : ScheduleRow Time) (db : Database) → I db → Answers I (insert_schedule_row s db)
  unfolding insert_schedule_row
  insert_schedule_row-Answers s db n = elim (Bool-cases (has_schedule s.id db.schedules)) [
    | inl e ↦ rw e tt
    | inr e ↦ rw e (rules.aside db _ refl n)
  ]

  creating_Answers :
      (options : Option Str) (s : Schedule) (db : Database)
      → I db
      → Answers I (with_options options (λ o. insert_schedule_row (schedule_row g s o)) db)
  unfolding with_options
  creating_Answers none s db i = tt
  creating_Answers (some o) s db i = insert_schedule_row-Answers (schedule_row g s o) db i

  updating_Answers :
      (options : Option Str) (p : ScheduleRow Time → Bool)
      (f : Str → ScheduleRow Time → ScheduleRow Time) (db : Database)
      → I db
      → Answers I (with_options options (λ o. update_schedule_rows p (f o)) db)
  unfolding with_options update_schedule_rows
  updating_Answers none p f db i = tt
  updating_Answers (some o) p f db i = rules.aside db _ refl i

  -- Every call keeps I if inserting a row and calm updates do, and what that call does besides.
  pub step-Keeps :
      (faults : List Bool) (db : Database) (c : Call) → Mild c → I db → I (step g faults db c).0
  unfolding step enqueue enqueue_batch ack ack_batch dead_letter reclaim create_schedule
      update_schedule delete_schedule run_schedule upsert_counters update_schedule_rows report
  step-Keeps faults db (enqueuing q msg now) h n =
      committed _ faults db (dropping_Keeps q msg now) n
  step-Keeps faults db (batching q [] now) h n = n
  step-Keeps faults db (batching q (m ∷ ms) now) h n =
      transacted _ faults db (enqueue_each-Keeps q (m ∷ ms) now 0) n
  step-Keeps faults db (dequeuing q limit locked clock) h n = h faults db n
  step-Keeps faults db (acking q id) h n = transacted _ faults db (h, count_acked-Keeps q) n
  step-Keeps faults db (acking_batch q []) h n = n
  step-Keeps faults db (acking_batch q (id ∷ l)) h n =
      transacted _ faults db (h, count_batch-Keeps q) n
  step-Keeps faults db (retrying q msg now) h n = h faults db n
  step-Keeps faults db (burying q msg e now id) h n =
      let dead_msg = dead_letter_message q msg e now id in
      transacted _ faults db
        (Keeps-bind I (enqueue_atomic g dead_msg.queue dead_msg now) _
          (enqueue_atomic-Keeps dead_msg.queue dead_msg now)
          (λ u. (
            rules.update _ _ (record {
              same_id = λ r. refl;
              same_queue = λ r. refl;
              same_key = λ r. refl;
              no_revival = λ r p d. refl;
            }),
            λ k.
                Keeps-bind I (exactly_one k) _ (exactly_one-Keeps k)
                  (λ v. ((λ d j. rules.aside d _ refl j), λ w. tt)),
          )))
        n
  step-Keeps faults db (replaying q id now) h n = h faults db n
  step-Keeps faults db (reclaiming q) h n =
      committed _ faults db
        (
          rules.update _ _ (record {
            same_id = λ r. refl;
            same_queue = λ r. refl;
            same_key = λ r. refl;
            no_revival = λ r p d. in_flight_not_dead r.status (ground (arith, p)) d;
          }),
          λ k. tt,
        )
        n
  step-Keeps faults db (creating s) h n =
      committed _ faults db (creating_Answers (g.jsonb s.enqueue_options) s, λ u. tt) n
  step-Keeps faults db (updating s) h n =
      committed _ faults db (updating_Answers (g.jsonb s.enqueue_options) _ _, λ u. tt) n
  step-Keeps faults db (deleting id) h n =
      committed _ faults db ((λ d j. rules.aside d _ refl j), λ u. tt) n
  step-Keeps faults db (running s now next clock server id) h n =
      transacted _ faults db ((λ d j. rules.aside d _ refl j), finish_run-Keeps s now clock id) n
