-- ===== src/Sqlite/Calls.antt =====
-- internal/storage/sqlite.go: the calls of the backend that write, under any faults.
pub mod Keeping
pub mod Distinct
pub mod Custody
use shoebox.Base.{
  ℕ, ◌≡◌, refl, ◌∙◌, Bool, true, false, List, [], ◌∷◌, ◌⊎◌, inl, inr, ap, Option, none, some,
  Bool-cases, ◌==◌, if_elim, if◌then◌else◌, ltb, suc, ◌+◌,
}
use shoebox.Base.Text.{Str}
use shoebox.Storage.{
  Time, Message, Schedule, Error, Result, ok, err, dead_letter_message, dlq_name, replay_message,
}
use shoebox.Sql.{
  Db, Tx, done, fail, statement, exec, ◌>>=◌, ◌>>◌, interrupted, autocommit, transact, row_is,
  processing, dead, upsert_counters, insert_row, where_rows,
}
use shoebox.Sql.Atomic.{autocommit_atomic, transact_atomic}
use shoebox.Sql.Keys.{
  Keeps, Answers, Keeps-bind, autocommit-Keeps, transact-Keeps, DistinctIds, insert_row-DistinctIds,
  update_where-DistinctIds, delete_where-DistinctIds,
}
use shoebox.Sqlite.{
  Engine, Database, enqueue, enqueue_batch, dequeue, message_row, enqueue_row, enqueue_each,
  due_messages, scan_rows, mark_each, claim,
}
use shoebox.Sqlite.Settle.{
  ack, ack_batch, retry, dead_letter, replay, reclaim, count_acked, ack_each, exactly_one,
  find_dead, first_message,
}
use shoebox.Sql.Jobs.{has_schedule, insert_schedule_row, update_schedule_rows}
use shoebox.Sqlite.Schedules.{
  Job, create_schedule, update_schedule, delete_schedule, run_schedule, schedule_row, finish_run,
  occurs,
}

pub data Call : Type 0 where
  enqueuing : Str → Message → Time → Call
  batching : Str → List Message → Time → Call
  dequeuing : Str → ℕ → Time → Call
  acking : Str → Str → Call
  acking_batch : Str → List Str → Call
  retrying : Str → Message → Time → Call
  burying : Str → Message → Option Str → Time → Str → Call
  replaying : Str → Str → Time → Call
  reclaiming : Str → Call
  creating updating : Schedule → Call
  deleting : Str → Call
  running : Schedule → Time → Time → Time → Str → Call

unfoldable pub report : {A : Type 0} → Database × Result A → Database × Option Error
report (db, ok a) = (db, none)
report (db, err e) = (db, some e)

module _ (g : Engine) where
  -- The tables after a call, and its error.
  unfoldable pub step : List Bool → Database → Call → Database × Option Error
  unfolding report
  step faults db (enqueuing q msg now) = report (enqueue g faults db q msg now)
  step faults db (batching q msgs now) = report (enqueue_batch g faults db q msgs now)
  step faults db (dequeuing q limit now) = report (dequeue g faults db q limit now)
  step faults db (acking q id) = report (ack faults db q id)
  step faults db (acking_batch q l) = report (ack_batch faults db q l)
  step faults db (retrying q msg now) = report (retry g faults db q msg now)
  step faults db (burying q msg e now id) = report (dead_letter g faults db q msg e now id)
  step faults db (replaying q id now) = report (replay g faults db q id now)
  step faults db (reclaiming q) = report (reclaim faults db q)
  step faults db (creating s) = report (create_schedule g faults db s)
  step faults db (updating s) = report (update_schedule g faults db s)
  step faults db (deleting id) = report (delete_schedule g faults db id)
  step faults db (running s now next clock id) =
      report (run_schedule g faults db s now next clock id)

  -- The tables after calls that are each interrupted in their own way.
  unfoldable pub history : Database → List (Call × List Bool) → Database
  unfolding step
  history db [] = db
  history db ((c, faults) ∷ calls) = history (step faults db c).0 calls

  reported :
      {A : Type 0} (x y : Database × Result A) (db : Database)
      → (x ≡ (db, err interrupted)) ⊎ (x ≡ y)
      → (report x ≡ (db, some interrupted)) ⊎ (report x ≡ report y)
  unfolding report
  reported x y db (inl e) = inl (ap report e)
  reported x y db (inr e) = inr (ap report e)

  -- A call of the backend whose statements may be interrupted anywhere, the commit included, either
  -- leaves the tables as they were and reports the interruption, or has the tables and the error of the
  -- call that nothing interrupts.
  pub step_atomic :
      (faults : List Bool) (db : Database) (c : Call)
      → (step faults db c ≡ (db, some interrupted)) ⊎ (step faults db c ≡ step [] db c)
  unfolding step enqueue enqueue_batch dequeue ack ack_batch retry dead_letter replay reclaim
      create_schedule update_schedule delete_schedule run_schedule
  step_atomic faults db (enqueuing q msg now) =
      reported _ _ db (autocommit_atomic _ faults db (λ b. tt))
  step_atomic faults db (batching q [] now) = inr refl
  step_atomic faults db (batching q (m ∷ ms) now) = reported _ _ db (transact_atomic _ faults db)
  step_atomic faults db (dequeuing q limit now) = reported _ _ db (transact_atomic _ faults db)
  step_atomic faults db (acking q id) = reported _ _ db (transact_atomic _ faults db)
  step_atomic faults db (acking_batch q []) = inr refl
  step_atomic faults db (acking_batch q (id ∷ l)) = reported _ _ db (transact_atomic _ faults db)
  step_atomic faults db (retrying q msg now) = reported _ _ db (transact_atomic _ faults db)
  step_atomic faults db (burying q msg e now id) = reported _ _ db (transact_atomic _ faults db)
  step_atomic faults db (replaying q id now) = reported _ _ db (transact_atomic _ faults db)
  step_atomic faults db (reclaiming q) = reported _ _ db (autocommit_atomic _ faults db (λ b. tt))
  step_atomic faults db (creating s) = reported _ _ db (autocommit_atomic _ faults db (λ b. tt))
  step_atomic faults db (updating s) = reported _ _ db (autocommit_atomic _ faults db (λ b. tt))
  step_atomic faults db (deleting id) = reported _ _ db (autocommit_atomic _ faults db (λ b. tt))
  step_atomic faults db (running s now next clock id) =
      reported _ _ db (transact_atomic _ faults db)

-- The calls of a history that happened, in their order: each of them left the tables and reported the error
-- that it does undisturbed, and each of the others changed nothing and reported the interruption.
pub data Part (g : Engine) : Database → List Call → List (Call × List Bool) → Type 0 where
  over : {db : Database} → Part g db [] []
  happens :
      {db : Database} {kept : List Call} {calls : List (Call × List Bool)} (c : Call)
      (faults : List Bool)
      → step g faults db c ≡ step g [] db c
      → Part g (step g [] db c).0 kept calls
      → Part g db (c ∷ kept) ((c, faults) ∷ calls)
  vanishes :
      {db : Database} {kept : List Call} {calls : List (Call × List Bool)} (c : Call)
      (faults : List Bool)
      → step g faults db c ≡ (db, some interrupted)
      → Part g db kept calls
      → Part g db kept ((c, faults) ∷ calls)

abbrev pub undisturbed : List Call → List (Call × List Bool)
undisturbed [] = []
undisturbed (c ∷ kept) = (c, []) ∷ undisturbed kept

module _ (g : Engine) where
  -- Whatever interrupts the statements of the calls in a history, their commits included, the tables after it
  -- are those after some of the calls, in their order and none of them interrupted. Each call happens as a
  -- whole, with the error that it reports undisturbed, or not at all, and then it reports the interruption:
  -- no call that was answered is lost, and none leaves a part of its writes.
  pub history_serial :
      (db : Database) (calls : List (Call × List Bool))
      → (kept : List Call) × Part g db kept calls
        × (history g db calls ≡ history g db (undisturbed kept))
  unfolding history
  history_serial db [] = ([], over, refl)
  history_serial db ((c, faults) ∷ calls) = elim (step_atomic g faults db c) [
    | inl e ↦
        let (others, less, still) = history_serial db calls in
        (others, vanishes c faults e less, ap (λ x. history g x.0 calls) e ∙ still)
    | inr e ↦
        let (kept, part, same) = history_serial (step g [] db c).0 calls in
        (c ∷ kept, happens c faults e part, ap (λ x. history g x.0 calls) e ∙ same)
  ]
