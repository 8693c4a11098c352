-- ===== src/Postgres/Calls/Keys.antt =====
-- internal/storage/postgres.go: identifiers and deduplication keys after any calls.
use shoebox.Base.{subst, Bool, List, [], ◌∷◌}
use shoebox.Base.Text.{Str}
use shoebox.Storage.{Time, Message, ok, err, dlq_name, replay_message}
use shoebox.Sql.Keys.{Answers, Keeps-bind, ids}
use mathlib.Core.List.{Nodup}
use shoebox.Postgres.{Engine, Database, enqueue_atomic}
use shoebox.Postgres.Settle.{retry, replay, exactly_one, find_dead, first_message}
use shoebox.Postgres.Unique.{
  UniqueKeys, Unclashed, insert_message-UniqueKeys, update_where-UniqueKeys,
  delete_where-UniqueKeys,
}
use shoebox.Postgres.Claiming.{Arranges, dequeue-UniqueKeys}
use shoebox.Postgres.Calls.{
  Call, enqueuing, batching, dequeuing, acking, acking_batch, retrying, burying, replaying,
  reclaiming, creating, updating, deleting, running, step, history,
}
use shoebox.Postgres.Calls.Keeping.{
  Rules, Mild, step-Keeps, transacted, enqueue_atomic-Keeps, exactly_one-Keeps,
  count_processed-Keeps, report_fst, upsert-Answers,
}

keep_keys : Rules UniqueKeys
keep_keys = record {
  insert = insert_message-UniqueKeys;
  update = update_where-UniqueKeys;
  aside = λ db db' e u. (subst (λ rows. Nodup (ids rows)) e u.0, subst Unclashed e u.1);
}

module _ (g : Engine) where
  find_dead-Answers :
      (I : Database → Type 0) (id q : Str) (db : Database) → I db → Answers I (find_dead g id q db)
  unfolding find_dead
  find_dead-Answers I id q db n =
      elim (first_message g q _)
        as (λ r. Answers I (elim r [ err e ↦ err e | ok m ↦ ok (m, db) ])) [ err e ↦ tt | ok m ↦ n ]

  retry_Mild :
      (q : Str) (msg : Message) (now : Time) → Mild g UniqueKeys keep_keys (retrying q msg now)
  unfolding step retry
  retry_Mild q msg now faults db n =
      transacted g UniqueKeys keep_keys _ faults db
        (
          delete_where-UniqueKeys _,
          λ k.
              Keeps-bind UniqueKeys (exactly_one k) _ (exactly_one-Keeps g UniqueKeys keep_keys k)
                (λ u.
                  Keeps-bind UniqueKeys (enqueue_atomic g q msg now) _
                    (enqueue_atomic-Keeps g UniqueKeys keep_keys q msg now)
                    (λ v. (upsert-Answers g UniqueKeys keep_keys q _, λ w. tt))),
        )
        n

  replay_Mild : (q id : Str) (now : Time) → Mild g UniqueKeys keep_keys (replaying q id now)
  unfolding step replay
  replay_Mild q id now faults db n =
      transacted g UniqueKeys keep_keys _ faults db
        (
          find_dead-Answers UniqueKeys id (dlq_name q),
          λ msg. (
            delete_where-UniqueKeys _,
            λ k.
                Keeps-bind UniqueKeys (exactly_one k) _ (exactly_one-Keeps g UniqueKeys keep_keys k)
                  (λ u.
                    Keeps-bind UniqueKeys (enqueue_atomic g q (replay_message q msg now) now) _
                      (enqueue_atomic-Keeps g UniqueKeys keep_keys q (replay_message q msg now) now)
                      (λ v. count_processed-Keeps g UniqueKeys keep_keys (dlq_name q) 1)),
          ),
        )
        n

  module _ (law : Arranges g) where
    every_Mild : (c : Call) → Mild g UniqueKeys keep_keys c
    unfolding step
    every_Mild (enqueuing q msg now) = tt
    every_Mild (batching q msgs now) = tt
    every_Mild (dequeuing q limit locked clock) = λ faults db n.
        report_fst g UniqueKeys keep_keys _
          (dequeue-UniqueKeys g law faults db q limit locked clock n)
    every_Mild (acking q id) = delete_where-UniqueKeys _
    every_Mild (acking_batch q l) = delete_where-UniqueKeys _
    every_Mild (retrying q msg now) = retry_Mild q msg now
    every_Mild (burying q msg e now id) = tt
    every_Mild (replaying q id now) = replay_Mild q id now
    every_Mild (reclaiming q) = tt
    every_Mild (creating s) = tt
    every_Mild (updating s) = tt
    every_Mild (deleting id) = tt
    every_Mild (running s now next clock server id) = tt

    -- If ORDER BY returns the selected rows in some order, and on some tables no two messages have the
    -- same identifier, and no two that wait or are in flight the same queue and the same non-empty
    -- deduplication key, then so it is after any calls of the backend that write, however their
    -- statements are interrupted and whichever rows others hold locked.
    pub history-UniqueKeys :
        (db : Database) (calls : List (Call × List Bool))
        → UniqueKeys db
        → UniqueKeys (history g db calls)
    unfolding history
    history-UniqueKeys db [] n = n
    history-UniqueKeys db ((c, faults) ∷ calls) n =
        history-UniqueKeys (step g faults db c).0 calls
          (step-Keeps g UniqueKeys keep_keys faults db c (every_Mild c) n)
