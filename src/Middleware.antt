-- ===== src/Middleware.antt =====
-- middleware.go: recovery and metrics around a handler, which may panic. The logging middleware returns what
-- the handler returns and only writes a log; the timeout middleware gives the handler a context with a
-- deadline, and contexts are left out.
use shoebox.Base.{ℕ, suc, ◌≡◌, ◌+◌, Option, none, some, arith}
use shoebox.Base.Text.{Str, bytes}
use shoebox.Base.Maps.{put, put_self}
use shoebox.Storage.{Message}
use shoebox.Broker.{HandlerFunc}

pub data Ending : Type 0 where
  returned : Option Str → Ending
  panicked : Ending

-- A handler that may panic, in a program with the state S.
abbrev pub Wild : Type 0 → Type 0
Wild S = S → Message → S × Ending

abbrev pub error_of : Ending → Option Str
error_of (returned e) = e
error_of panicked = some (bytes "shoebox: handler panicked")

unfoldable pub recovery : {S : Type 0} → Wild S → HandlerFunc S
recovery next s m = let x = next s m in (x.0, error_of x.1)

-- The counters of `Metrics` by queue.
pub record Metrics : Type 0 where
  pub processed : Str → ℕ
  pub errors : Str → ℕ

abbrev pub counted : Metrics → Str → Ending → Metrics
counted c queue (returned none) = record c {
  processed = put c.processed queue (suc (c.processed queue));
}
counted c queue (returned (some e)) = record c {
  errors = put c.errors queue (suc (c.errors queue));
}
counted c queue panicked = c

-- `MetricsMiddleware` with its metrics; a panic passes the counters by.
unfoldable pub metrics : {S : Type 0} → Wild S → Wild (S × Metrics)
metrics next (s, c) m = let x = next s m in ((x.0, counted c m.queue x.1), x.1)

abbrev pub calm : {S : Type 0} → HandlerFunc S → Wild S
calm h s m = let x = h s m in (x.0, returned x.1)

counted_once :
    (c : Metrics) (queue : Str) (e : Option Str)
    → (counted c queue (returned e)).processed queue + (counted c queue (returned e)).errors queue
      ≡ suc (c.processed queue + c.errors queue)
counted_once c queue none = rw (put_self c.processed queue (suc (c.processed queue))) (omega arith)
counted_once c queue (some e) = rw (put_self c.errors queue (suc (c.errors queue))) (omega arith)

-- With the recovery inside the metrics, every delivery of a queue is counted exactly once, as processed or
-- as an error, also where the handler panics.
metrics-recovery :
    {S : Type 0} (next : Wild S) (s : S) (c : Metrics) (m : Message)
    → (metrics (calm (recovery next)) (s, c) m).0.1.processed m.queue
        + (metrics (calm (recovery next)) (s, c) m).0.1.errors m.queue
      ≡ suc (c.processed m.queue + c.errors m.queue)
unfolding metrics recovery
metrics-recovery next s c m = counted_once c m.queue (error_of (next s m).1)
