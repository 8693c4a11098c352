-- ===== src/Postgres/Calls.antt =====
-- internal/storage/postgres.go: the calls of the backend that write, under any faults.
pub mod Keeping
pub mod Keys
pub mod Rows
pub mod Custody
use shoebox.Base.{
  ℕ, ◌≡◌, refl, Bool, true, false, List, [], ◌∷◌, ◌⊎◌, inl, inr, ap, Option, none, some,
}
use shoebox.Base.Text.{Str}
use shoebox.Storage.{Time, Message, Schedule, Error, Result, ok, err}
use shoebox.Sql.{interrupted}
use shoebox.Sql.Atomic.{all_or_nothing_atomic, transact_atomic}
use shoebox.Postgres.{Engine, Database, enqueue, enqueue_batch, dequeue}
use shoebox.Postgres.Settle.{ack, ack_batch, retry, dead_letter, replay, reclaim}
use shoebox.Postgres.Schedules.{create_schedule, update_schedule, delete_schedule, run_schedule}

pub data Call : Type 0 where
  enqueuing : Str → Message → Time → Call
  batching : Str → List Message → Time → Call
  dequeuing : Str → ℕ → List Str → Time → Call
  acking : Str → Str → Call
  acking_batch : Str → List Str → Call
  retrying : Str → Message → Time → Call
  burying : Str → Message → Option Str → Time → Str → Call
  replaying : Str → Str → Time → Call
  reclaiming : Str → Call
  creating updating : Schedule → Call
  deleting : Str → Call
  running : Schedule → Time → Time → Time → Time → Str → Call

unfoldable pub report : {A : Type 0} → Database × Result A → Database × Option Error
report (db, ok a) = (db, none)
report (db, err e) = (db, some e)

module _ (g : Engine) where
  -- The tables after a call, and its error.
  unfoldable pub step : List Bool → Database → Call → Database × Option Error
  unfolding report
  step faults db (enqueuing q msg now) = report (enqueue g faults db q msg now)
  step faults db (batching q msgs now) = report (enqueue_batch g faults db q msgs now)
  step faults db (dequeuing q limit locked clock) =
      report (dequeue g faults db q limit locked clock)
  step faults db (acking q id) = report (ack faults db q id)
  step faults db (acking_batch q l) = report (ack_batch faults db q l)
  step faults db (retrying q msg now) = report (retry g faults db q msg now)
  step faults db (burying q msg e now id) = report (dead_letter g faults db q msg e now id)
  step faults db (replaying q id now) = report (replay g faults db q id now)
  step faults db (reclaiming q) = report (reclaim faults db q)
  step faults db (creating s) = report (create_schedule g faults db s)
  step faults db (updating s) = report (update_schedule g faults db s)
  step faults db (deleting id) = report (delete_schedule g faults db id)
  step faults db (running s now next clock server id) =
      report (run_schedule g faults db s now next clock server id)

  -- The tables after calls that are each interrupted in their own way.
  unfoldable pub history : Database → List (Call × List Bool) → Database
  unfolding step
  history db [] = db
  history db ((c, faults) ∷ calls) = history (step faults db c).0 calls
