-- ===== src/Broker.antt =====
-- internal/broker: the dispatch engine over a `Storage` whose state is S. A handler sees and may
-- change that state, as one that enqueues follow-up jobs does; `none` is its nil error. Contexts,
-- logging and metrics are left out.
pub mod Handling
pub mod Enqueueing
pub mod Lifecycle
pub mod Cadence
use shoebox.Base.{ℕ, ◌+◌, ◌-◌, ◌*◌, Bool, ◌&&◌, List, [], ◌∷◌, ◌++◌, Option, none, some}
use shoebox.Base.Int.{ℤ, pos, negsuc, pos_part, neg_part, ltb_ℤ}
use shoebox.Base.Text.{Str}
use shoebox.Base.Maps.{put}
use shoebox.Storage.{Time, Message}
use shoebox.Dedupe.{DedupeStore, ttl_store, new_dedupe_store}
use shoebox.Retry.{Backoff, exponential}

abbrev pub HandlerFunc : Type 0 → Type 0
HandlerFunc S = S → Message → S × Option Str

abbrev pub Middleware : Type 0 → Type 0
Middleware S = HandlerFunc S → HandlerFunc S

-- The options of a handler; `none` is a nil backoff.
pub record HandlerOptions : Type 0 where
  pub max_retries : ℤ
  pub backoff : Option Backoff
  pub timeout : ℤ

-- A registered handler: its limits, its backoff and the composed chain.
pub record Handler (S : Type 0) : Type 0 where
  pub max_retries : ℤ
  pub backoff : Backoff
  pub timeout : ℤ
  pub chain : HandlerFunc S

pub record Broker (S : Type 0) : Type 0 where
  pub store : S
  pub middleware : List (Middleware S)
  pub handlers : Str → Option (Handler S)
  pub pending_acks : Str → List Str
  pub ack_batch_size : ℤ
  pub ack_loop : Bool
  pub dedupe : DedupeStore
  pub durable_dedupe : Bool

-- `New`, with the policy and capacity of the dedupe store, the size of a batch of acknowledgements
-- and the interval at which batches are flushed. An unsupported policy falls back to the TTL store.
unfoldable pub new_broker : {S : Type 0} → S → Str → ℤ → Bool → ℤ → ℤ → Broker S
new_broker store policy capacity durable batch interval = record {
  store = store;
  middleware = [];
  handlers = λ _. none;
  pending_acks = λ _. [];
  ack_batch_size = batch;
  ack_loop = ltb_ℤ (pos 0) batch && ltb_ℤ (pos 0) interval;
  dedupe = elim (new_dedupe_store policy capacity) [ none ↦ ttl_store [] | some d ↦ d ];
  durable_dedupe = durable;
}

-- The loop of `chain` runs from the last middleware to the first.
unfoldable pub chain : {S : Type 0} → List (Middleware S) → HandlerFunc S → HandlerFunc S
chain [] h = h
chain (mw ∷ rest) h = mw (chain rest h)

unfoldable pub use_middleware : {S : Type 0} → Broker S → List (Middleware S) → Broker S
use_middleware b mw = record b { middleware = b.middleware ++ mw }

abbrev pub second : ℕ
second = 1000000000

-- The backoff of a handler that configures none: 1 s doubling up to 60 s.
abbrev pub default_backoff : Option Backoff → Backoff
default_backoff none = exponential (pos second) (pos (60 * second))
default_backoff (some b) = b

abbrev pub clamp_retries : ℤ → ℤ
clamp_retries (pos n) = pos n
clamp_retries (negsuc n) = pos 0

-- The handler that `Register` stores.
unfoldable pub make_handler :
    {S : Type 0} → List (Middleware S) → HandlerFunc S → HandlerOptions → Handler S
make_handler mw fn opts = record {
  max_retries = clamp_retries opts.max_retries;
  backoff = default_backoff opts.backoff;
  timeout = opts.timeout;
  chain = chain mw fn;
}

unfoldable pub register : {S : Type 0} → Broker S → Str → HandlerFunc S → HandlerOptions → Broker S
register b queue fn opts = record b {
  handlers = put b.handlers queue (some (make_handler b.middleware fn opts));
}

-- `t.Add(d)`. Every instant that is used lies more than 2^63 ns after the zero time, so that no
-- duration leads below it.
unfoldable pub add_duration : Time → ℤ → Time
add_duration t d = t + pos_part d - neg_part d
