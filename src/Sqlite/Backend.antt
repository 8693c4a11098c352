-- ===== src/Sqlite/Backend.antt =====
-- internal/storage/sqlite.go as an implementation of the `Storage` interface; every statement of a call
-- meets the same faults.
use shoebox.Base.{Bool, List, Option}
use shoebox.Storage.{Error, Result, ok}
use shoebox.Storage.Interface.{Store}
use shoebox.Memory.Backend.{error_of}
use shoebox.Sqlite.{Engine, Database, enqueue, enqueue_batch, dequeue}
use shoebox.Sqlite.Settle.{ack, ack_batch, retry, dead_letter, replay, stats, list}

abbrev settled : {A : Type 0} → Database × Result A → Database × Option Error
settled x = (x.0, error_of x.1)

abbrev pub sqlite_store : Engine → List Bool → Store Database
sqlite_store g faults = record {
  enqueue = λ w db q msg. settled (enqueue g faults db q msg w.now);
  enqueue_batch = λ w db q msgs. settled (enqueue_batch g faults db q msgs w.now);
  dequeue = λ w db q limit. dequeue g faults db q limit w.now;
  ack = λ w db q id. settled (ack faults db q id);
  ack_batch = λ w db q ids. settled (ack_batch faults db q ids);
  retry = λ w db q msg e. settled (retry g faults db q msg w.now);
  dead_letter = λ w db q msg e. settled (dead_letter g faults db q msg e w.now w.fresh);
  replay = λ w db q id. settled (replay g faults db q id w.now);
  stats = λ db q. ok (stats db q);
  list = λ db q limit. list g db q limit;
}
