-- ===== src/Tests.antt =====
-- Sample messages, stores and brokers on which the theorems are applied.
mod Storing
mod Brokering
mod Choosing
mod Queueing
mod Databases
mod Serving
mod Consuming
use shoebox.Base.{ℕ, Bool, true, false, List, [], ◌∷◌, Option, none, some}
use shoebox.Base.Int.{ℤ, pos}
use shoebox.Base.Text.{Str, bytes}
use shoebox.Base.Maps.{put}
use shoebox.Storage.{Time, Message, Schedule, QueueStats}
use shoebox.Memory.{Memory}

abbrev pub mails : Str
mails = bytes "mails"

abbrev pub mail : Str → ℤ → Time → Message
mail id priority created = record {
  id = id;
  queue = mails;
  payload = [];
  attempts = 0;
  max_retries = pos 0;
  created_at = created;
  scheduled_at = created;
  dedupe_key = [];
  metadata = [];
  priority = priority;
  error = [];
  dead_at = 0;
}

abbrev pub low : Message
low = mail (bytes "a") (pos 0) 1

abbrev pub high : Message
high = mail (bytes "b") (pos 5) 2

abbrev pub lent : Message
lent = mail (bytes "c") (pos 0) 1

abbrev pub hourly : Schedule
hourly = record {
  id = bytes "h";
  queue = mails;
  payload = [];
  enqueue_options = [];
  interval = pos 60;
  next_run_at = 100;
  enabled = true;
  created_at = 0;
  updated_at = 0;
}

-- Two messages wait, and a third is lent out.
abbrev pub office : Memory
office = record {
  queues = put (λ _. []) mails (low ∷ high ∷ []);
  counters = λ q. record { queue = q; depth = 0; processed = 0; errors = 0; retries = 0; dead = 0 };
  inflight = put (λ _. []) mails (bytes "c" ∷ []);
  dirty = λ _. true;
  schedules = hourly ∷ [];
}
