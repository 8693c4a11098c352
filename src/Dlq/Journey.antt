-- ===== src/Dlq/Journey.antt =====
-- internal/dlq/dlq.go over internal/storage/memory.go: a message into its dead-letter queue and back.
use shoebox.Base.{
  ℕ, zero, suc, ◌≤◌, ◌<◌, ◌≡◌, refl, ap, ◌∙◌, true, false, List, [], ◌∷◌, ◌++◌, Option, some, none,
  arith, ltb, if◌then◌else◌, is_nil, length, length-append, take, All,
}
use shoebox.Base.Text.{Str, str_eq, str_eq_refl}
use shoebox.Base.Maps.{put_self, put-ne}
use shoebox.Storage.{Time, Message, ok, dlq_name, dead_letter_message, replay_message, error_text}
use shoebox.Storage.Interface.{Moment}
use shoebox.Memory.{Memory, append_pending}
use shoebox.Memory.Settle.{dead_letter, replay, pull, list, release, add_processed}
use shoebox.Memory.Backend.{memory_store, error_of}
use shoebox.Memory.Custody.{dlq_name-ne}
use shoebox.Dlq.{to_record, find_record, inspect, replay_dead, dlq_queue}

-- No message of the list has the identifier.
abbrev NoId : Str → List Message → Type 0
NoId id = All λ msg. str_eq msg.id id ≡ false

pull-append :
    (id : Str) (xs : List Message) (msg : Message)
    → NoId id xs
    → str_eq msg.id id ≡ true
    → pull id (xs ++ msg ∷ []) ≡ some (msg, xs)
unfolding pull
pull-append id [] msg n e = rw (e, pull) refl
pull-append id (x ∷ xs) msg (h, n) e = rw (h, pull) (rw (pull-append id xs msg n e) refl)

find_record-append :
    (q id : Str) (xs : List Message) (msg : Message)
    → NoId id xs
    → str_eq msg.id id ≡ true
    → find_record q id (xs ++ msg ∷ []) ≡ ok (to_record msg q)
unfolding find_record
find_record-append q id [] msg n e = rw (e, find_record) refl
find_record-append q id (x ∷ xs) msg (h, n) e =
    rw (h, find_record) (find_record-append q id xs msg n e)

dead_letter-dlq :
    (m : Memory) (q : Str) (msg : Message) (e : Option Str) (now : Time) (id : Str)
    → (dead_letter m q msg e now id).queues (dlq_name q)
      ≡ m.queues (dlq_name q) ++ dead_letter_message q msg e now id ∷ []
unfolding dead_letter append_pending release dead_letter_message
dead_letter-dlq m q msg e now id = put_self m.queues (dlq_name q) _

dead_letter-queue :
    (m : Memory) (q : Str) (msg : Message) (e : Option Str) (now : Time) (id : Str)
    → (dead_letter m q msg e now id).queues q ≡ m.queues q
unfolding dead_letter append_pending release dead_letter_message
dead_letter-queue m q msg e now id = put-ne m.queues (dlq_name q) q _ (dlq_name-ne q)

take_all : {A : Type 0} (n : ℕ) (xs : List A) → length xs ≤ n → take n xs ≡ xs
take_all zero [] h = refl
take_all (suc n) [] h = refl
take_all zero (x ∷ xs) h = elim h [ ]
take_all (suc n) (x ∷ xs) h = ap (λ t. x ∷ t) (take_all n xs (omega (arith, h)))

list_append :
    (m : Memory) (q : Str) (limit : ℕ) (xs : List Message) (msg : Message)
    → m.queues q ≡ xs ++ msg ∷ []
    → length xs < limit
    → list m q limit ≡ ok (xs ++ msg ∷ [])
unfolding list
list_append m q limit xs msg e l =
    rw (e, list) (rw (nonempty xs, short) (ap ok (take_all _ (xs ++ msg ∷ []) (omega arith))))
  where
    nonempty : (xs : List Message) → is_nil (xs ++ msg ∷ []) ≡ false
    nonempty [] = refl
    nonempty (x ∷ xs) = refl

    short :
        (if ltb (length (xs ++ msg ∷ [])) limit then length (xs ++ msg ∷ []) else limit)
        ≡ length (xs ++ msg ∷ [])
    short = ground (arith, length-append xs (msg ∷ []), l)

inspect_listed :
    (m : Memory) (q id : Str) (msgs : List Message)
    → list m (dlq_queue q) 1000 ≡ ok msgs
    → inspect memory_store m q id ≡ find_record q id msgs
unfolding inspect
inspect_listed m q id msgs e = rw (e, inspect) refl

replay_found :
    (m : Memory) (q id : Str) (now : Time) (msg : Message) (others : List Message)
    → pull id (m.queues (dlq_name q)) ≡ some (msg, others)
    → ((replay m q id now).1 ≡ ok tt)
      × ((replay m q id now).0.queues q ≡ m.queues q ++ replay_message q msg now ∷ [])
      × ((replay m q id now).0.queues (dlq_name q) ≡ others)
unfolding replay append_pending add_processed
replay_found m q id now msg others e =
    rw (e, replay)
      (
        refl,
        put-ne _ (dlq_name q) q others (dlq_name-ne q) ∙ put_self m.queues q _,
        put_self _ (dlq_name q) others,
      )

-- If no message of a dead-letter queue has the fresh identifier and the queue is shorter than 1000,
-- a message that is dead-lettered over the memory backend can be inspected under that identifier,
-- with its queue of origin, the text of its error and the time.
inspect-dead_letter :
    (m : Memory) (q : Str) (msg : Message) (e : Option Str) (w : Moment)
    → NoId w.fresh (m.queues (dlq_name q))
    → length (m.queues (dlq_name q)) < 1000
    → inspect memory_store (memory_store.dead_letter w m q msg e).0 q w.fresh
      ≡ ok (record {
        message = dead_letter_message q msg e w.now w.fresh;
        original_queue = q;
        error_message = error_text e;
        dead_at = w.now;
      })
unfolding dlq_queue dlq_name dead_letter_message to_record
inspect-dead_letter m q msg e w n l =
    let dead = dead_letter_message q msg e w.now w.fresh in
    let m' = dead_letter m q msg e w.now w.fresh in
    inspect_listed m' q w.fresh _ (
      list_append m' (dlq_name q) 1000 (m.queues (dlq_name q)) dead
        (dead_letter-dlq m q msg e w.now w.fresh) l)
    ∙ find_record-append q w.fresh (m.queues (dlq_name q)) dead n (str_eq_refl w.fresh)

-- If no message of a dead-letter queue has the fresh identifier, dead-lettering a message over the
-- memory backend and replaying it succeeds, puts it at the end of its queue, due at the time of the
-- replay, with its attempts, payload, priority and metadata but under the fresh identifier, and
-- leaves the dead-letter queue as it was.
pub replay-dead_letter :
    (m : Memory) (q : Str) (msg : Message) (e : Option Str) (w w' : Moment)
    → NoId w.fresh (m.queues (dlq_name q))
    → let m' = (memory_store.dead_letter w m q msg e).0 in
      let (m'', failure) = replay_dead memory_store w' m' q w.fresh in
      (failure ≡ none)
      × (m''.queues q
          ≡ m.queues q
            ++ record msg {
              id = w.fresh;
              queue = q;
              scheduled_at = w'.now;
              error = [];
              dead_at = 0;
            }
              ∷ [])
      × (m''.queues (dlq_name q) ≡ m.queues (dlq_name q))
unfolding replay_dead dead_letter_message replay_message
replay-dead_letter m q msg e w w' n =
    let dead = dead_letter_message q msg e w.now w.fresh in
    let m' = dead_letter m q msg e w.now w.fresh in
    let there : pull w.fresh (m'.queues (dlq_name q)) ≡ some (dead, m.queues (dlq_name q)) =
      rw (dead_letter-dlq m q msg e w.now w.fresh)
        (pull-append w.fresh (m.queues (dlq_name q)) dead n (str_eq_refl w.fresh)) in
    let (done, back, others) =
      replay_found m' q w.fresh w'.now dead (m.queues (dlq_name q)) there in
    (
      ap error_of done,
      back
          ∙ ap (λ l. l ++ replay_message q dead w'.now ∷ [])
              (dead_letter-queue m q msg e w.now w.fresh),
      others,
    )
