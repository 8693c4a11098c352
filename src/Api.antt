-- ===== src/Api.antt =====
-- internal/api/handler.go: the HTTP endpoints over a `Storage` whose state is S. A response is its status
-- and what is encoded as its body; the decoding of the request is a parameter: `decode` reads a JSON
-- request from a body that is cut off at a limit.
pub mod Guards
pub mod Behaviour
use shoebox.Base.{
  ℕ, ◌+◌, Bool, true, false, not, List, [], ◌∷◌, Option, none, some, if◌then◌else◌, is_nil, ltb,
  length,
}
use shoebox.Base.Int.{ℤ, pos, ltb_ℤ, pos_part}
use shoebox.Base.Text.{Str, bytes}
use shoebox.Naming.{valid_queue_name}
use shoebox.Storage.{
  Time, Message, QueueStats, Error, empty, schedule_exists, backend, Result, ok, err,
}
use shoebox.Storage.Interface.{Moment, Store}
use shoebox.Dlq.{Record, list_dead, replay_dead}

pub record EnqueueRequest : Type 0 where
  pub payload : Str
  pub delay : Str
  pub metadata : List (Str × Str)

pub data Body : Type 0 where
  problem : Str → Body
  enqueued : Str → Body
  delivered : Message → Body
  statistics : QueueStats → Body
  records : List Record → Body
  status_text : Str → Body
  nothing : Body

pub record Response : Type 0 where
  pub status : ℕ
  pub body : Body

pub record Decoding : Type 0 where
  pub decode : ℕ → Str → Option EnqueueRequest
  pub parse_duration : Str → Option ℤ
  pub atoi : Str → Option ℤ

abbrev pub max_payload_size : ℕ
max_payload_size = 1048576

abbrev pub max_dlq_limit : ℤ
max_dlq_limit = pos 1000

abbrev pub write_error : ℕ → Str → Response
write_error status text = record { status = status; body = problem text }

abbrev pub write_json : ℕ → Body → Response
write_json status body = record { status = status; body = body }

abbrev pub unavailable : Str → Error → Response
unavailable text empty = write_error 404 text
unavailable text schedule_exists = write_error 500 text
unavailable text (backend e) = write_error 500 text

-- The time that a delay asks for; none where it does not parse.
unfoldable pub delayed_until : (Str → Option ℤ) → Time → Str → Option Time
delayed_until parse_duration now delay =
    if is_nil delay then some 0 else elim (parse_duration delay) [
      | none ↦ none
      | some d ↦ some (if ltb_ℤ (pos 0) d then now + pos_part d else 0)
    ]

-- The message that a request asks for.
unfoldable pub request_message : Str → Str → EnqueueRequest → Time → Message
request_message id queue req scheduled_at = record {
  id = id;
  queue = queue;
  payload = req.payload;
  attempts = 0;
  max_retries = pos 0;
  created_at = 0;
  scheduled_at = scheduled_at;
  dedupe_key = [];
  metadata = req.metadata;
  priority = pos 0;
  error = [];
  dead_at = 0;
}

-- What `enqueue` makes of a request before it calls the store.
unfoldable pub accepted : Decoding → Moment → Str → Str → Result Message
unfolding delayed_until request_message
accepted x w queue body =
    if not (valid_queue_name queue)
    then err (backend (bytes "invalid queue name"))
    else elim (x.decode max_payload_size body) [
      | none ↦ err (backend (bytes "invalid JSON body"))
      | some req ↦
          if is_nil req.payload
          then err (backend (bytes "payload is required"))
          else elim (delayed_until x.parse_duration w.now req.delay) [
            | none ↦ err (backend (bytes "invalid delay"))
            | some t ↦ ok (request_message w.fresh queue req t)
          ]
    ]

abbrev pub text_of : Error → Str
text_of empty = []
text_of schedule_exists = []
text_of (backend e) = e

-- 50, or the `limit` of the query where it is a positive number, and at most 1000.
unfoldable pub list_limit : (Str → Option ℤ) → Str → ℤ
list_limit atoi text = if is_nil text then pos 50 else elim (atoi text) [
  | none ↦ pos 50
  | some n ↦
      if ltb_ℤ (pos 0) n then (if ltb_ℤ max_dlq_limit n then max_dlq_limit else n) else pos 50
]

abbrev pub answer : Str → Body → Option Error → Response
answer text body none = write_json 200 body
answer text body (some e) = write_error 500 text

module _ {S : Type 0} (store : Store S) (x : Decoding) where
  unfoldable pub enqueue : Moment → S → Str → Str → S × Response
  unfolding accepted
  enqueue w s queue body = elim (accepted x w queue body) [
    | err e ↦ (s, write_error 400 (text_of e))
    | ok msg ↦
        let r = store.enqueue w s queue msg in
        (
          r.0,
          elim r.1 [
            | none ↦ write_json 201 (enqueued msg.id)
            | some e ↦ write_error 500 (bytes "enqueue failed")
          ],
        )
  ]

  unfoldable pub list_dlq : S → Str → Str → Response
  unfolding list_limit
  list_dlq s queue limit = elim (list_dead store s queue (list_limit x.atoi limit)) [
    | ok rs ↦ write_json 200 (records rs)
    | err empty ↦ write_json 200 (records [])
    | err schedule_exists ↦ write_error 500 (bytes "dlq list failed")
    | err (backend e) ↦ write_error 500 (bytes "dlq list failed")
  ]

-- `msgs[0]` panics on an empty list, which is none.
abbrev pub first_delivered : List Message → Option Response
first_delivered [] = none
first_delivered (msg ∷ msgs) = some (write_json 200 (delivered msg))

module _ {S : Type 0} (store : Store S) where
  unfoldable pub consume : Moment → S → Str → S × Option Response
  consume w s queue =
      let r = store.dequeue w s queue 1 in
      (
        r.0,
        elim r.1 [
          | ok msgs ↦ first_delivered msgs
          | err e ↦ some (unavailable (bytes "no messages available") e)
        ],
      )

  unfoldable pub stats : S → Str → Response
  stats s queue = elim (store.stats s queue) [
    | ok st ↦ write_json 200 (statistics st)
    | err e ↦ write_error 500 (bytes "stats failed")
  ]

  unfoldable pub replay_dlq : Moment → S → Str → Str → S × Response
  replay_dlq w s queue id =
      let r = replay_dead store w s queue id in
      (
        r.0,
        elim r.1 [
          | none ↦ write_json 200 (status_text (bytes "replayed"))
          | some e ↦ unavailable (bytes "dlq message not found") e
        ],
      )

  unfoldable pub ack : Moment → S → Str → Str → S × Response
  ack w s queue id =
      let r = store.ack w s queue id in
      (r.0, answer (bytes "ack failed") (status_text (bytes "acked")) r.1)
