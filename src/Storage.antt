-- ===== src/Storage.antt =====
-- internal/storage/storage.go: messages, schedules, statistics and the transitions that every
-- backend shares. An instant is the number of nanoseconds since Go's zero time, which is 0.
pub mod Interface
use shoebox.Base.{ℕ, suc, ◌+◌, ◌*◌, ◌++◌, List, [], Bool, Option, none, some}
use shoebox.Base.Int.{ℤ, pos, negsuc}
use shoebox.Base.Text.{Str, bytes}

abbrev pub Time : Type 0
Time = ℕ

pub record Message : Type 0 where
  pub id : Str
  pub queue : Str
  pub payload : Str
  pub attempts : ℕ
  pub max_retries : ℤ
  pub created_at : Time
  pub scheduled_at : Time
  pub dedupe_key : Str
  pub metadata : List (Str × Str)
  pub priority : ℤ
  pub error : Str
  pub dead_at : Time

pub record Schedule : Type 0 where
  pub id : Str
  pub queue : Str
  pub payload : Str
  pub enqueue_options : Str
  pub interval : ℤ
  pub next_run_at : Time
  pub enabled : Bool
  pub created_at : Time
  pub updated_at : Time

-- The counters are uint64.
pub record QueueStats : Type 0 where
  pub queue : Str
  pub depth : ℕ
  pub processed : ℕ
  pub errors : ℕ
  pub retries : ℕ
  pub dead : ℕ

-- `ErrEmpty`, `ErrScheduleExists`, and whatever else a backend reports.
pub data Error : Type 0 where
  empty schedule_exists : Error
  backend : Str → Error

pub data Result {ℓ} (A : Type ℓ) : Type ℓ where
  ok : A → Result A
  err : Error → Result A

-- `queue + ".dlq"`.
unfoldable pub dlq_name : Str → Str
dlq_name queue = queue ++ bytes ".dlq"

-- The text of a handler's error, if there is one.
abbrev pub error_text : Option Str → Str
error_text none = []
error_text (some e) = e

-- `id` is the fresh identifier that `NewMessageID` returns.
unfoldable pub dead_letter_message : Str → Message → Option Str → Time → Str → Message
dead_letter_message queue msg e now id = record msg {
  queue = dlq_name queue;
  id = id;
  scheduled_at = now;
  dead_at = now;
  error = error_text e;
}

unfoldable pub replay_message : Str → Message → Time → Message
replay_message queue msg now = record msg {
  queue = queue;
  scheduled_at = now;
  error = [];
  dead_at = 0;
}

unfoldable pub periodic_message : Schedule → Time → Str → Message
periodic_message schedule now id = record {
  id = id;
  queue = schedule.queue;
  payload = schedule.payload;
  attempts = 0;
  max_retries = pos 0;
  created_at = now;
  scheduled_at = now;
  dedupe_key = [];
  metadata = [];
  priority = pos 0;
  error = [];
  dead_at = 0;
}
