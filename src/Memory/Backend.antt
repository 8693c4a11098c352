-- ===== src/Memory/Backend.antt =====
-- internal/storage/memory.go as an implementation of the `Storage` interface.
use shoebox.Base.{Option, none, some}
use shoebox.Storage.{Error, Result, ok, err}
use shoebox.Storage.Interface.{Store}
use shoebox.Memory.{Memory, enqueue, enqueue_batch, dequeue}
use shoebox.Memory.Settle.{ack, ack_batch, retry, dead_letter, replay, stats, list}

abbrev pub error_of {ℓ} : {A : Type ℓ} → Result A → Option Error
error_of (ok a) = none
error_of (err e) = some e

abbrev pub memory_store : Store Memory
memory_store = record {
  enqueue = λ w m q msg. (enqueue m q msg w.now, none);
  enqueue_batch = λ w m q msgs. (enqueue_batch m q msgs w.now, none);
  dequeue = λ w m q limit. dequeue m q limit w.now;
  ack = λ w m q id. (ack m q id, none);
  ack_batch = λ w m q ids. (ack_batch m q ids, none);
  retry = λ w m q msg e. (retry m q msg, none);
  dead_letter = λ w m q msg e. (dead_letter m q msg e w.now w.fresh, none);
  replay = λ w m q id. let r = replay m q id w.now in (r.0, error_of r.1);
  stats = λ m q. ok (stats m q);
  list = list;
}
