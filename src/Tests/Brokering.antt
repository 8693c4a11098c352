-- ===== src/Tests/Brokering.antt =====
-- Applications of the theorems on the broker.
use shoebox.Base.{◌≡◌, refl, true, false, [], ◌∷◌, none, some, arith}
use shoebox.Base.Int.{pos}
use shoebox.Base.Text.{bytes, str_eq}
use shoebox.Storage.{Message, backend}
use shoebox.Storage.Interface.{Moment, Store}
use shoebox.Memory.{Memory}
use shoebox.Memory.Settle.{ack_batch, ack_each}
use shoebox.Memory.Backend.{memory_store}
use shoebox.Dedupe.{ttl_store, seen_or_add, find}
use shoebox.Retry.{constant}
use shoebox.Broker.{Broker, Handler, HandlerFunc}
use shoebox.Broker.Handling.{handle_with, max_retries_exceeded}
use shoebox.Broker.Handling.Budget.{settle, verdict, after_handler, handle_with-settle, bury}
use shoebox.Broker.Handling.Draining.{drain_complete, drain_complete-memory}
use shoebox.Broker.Handling.Replaying.{revived, replay_is_in_vain}
use shoebox.Broker.Handling.Lives.{life, Buried, always_failing_is_Buried}
use shoebox.Broker.Enqueueing.{EnqueueOpts, full_key, enqueue, enqueue_message, store_message}
use shoebox.Broker.Enqueueing.Duplicates.{refused_enqueue_is_forgotten, duplicate_is_dropped}
use shoebox.Broker.Lifecycle.{
  Dispatcher, new_dispatcher, registers, pauses, drains, polls, resumes, step, run,
}
use shoebox.Broker.Lifecycle.Drains.{Safe, careful_drains_never_panic}
use shoebox.Broker.Lifecycle.Endings.{Running, register_after_drain_panics}
use shoebox.Broker.Lifecycle.Idling.{drain_of_stopped_waits}
use shoebox.Base.Maps.{put}
use shoebox.Tests.{mails, lent, office}

abbrev failing : HandlerFunc Memory
failing m msg = (m, some (bytes "no"))

abbrev twice : Handler Memory
twice = record { max_retries = pos 2; backoff = constant (pos 5); timeout = pos 0; chain = failing }

abbrev desk : Broker Memory
desk = record {
  store = office;
  middleware = [];
  handlers = λ _. some twice;
  pending_acks = λ _. [];
  ack_batch_size = pos 1;
  ack_loop = false;
  dedupe = ttl_store [];
  durable_dedupe = false;
}

abbrev noon : Moment
noon = record { now = 50; fresh = bytes "n" }

handle_with-settle_example :
    handle_with memory_store noon desk twice mails lent
    ≡ settle memory_store noon
        (after_handler desk twice lent)
        mails
        lent
        (some (bytes "no"))
        (verdict twice lent (some (bytes "no")) 50)
handle_with-settle_example = handle_with-settle memory_store noon desk twice mails lent

always_failing_is_Buried_example :
    Buried lent 2 3 (λ _. bytes "no") (life 3 twice (λ _. some (bytes "no")) (λ a. a) lent)
always_failing_is_Buried_example =
    always_failing_is_Buried twice (λ _. bytes "no") (λ a. a) 2 lent refl refl

replay_is_in_vain_example :
    (last : Message) × (life 3 twice (λ _. some (bytes "no")) (λ a. a) lent
      ≡ (3, some (bury last (some (bytes "no")))))
    × (life 1 twice (λ _. none) (λ a. a) (revived mails last (some (bytes "no")) 60 (bytes "d") 70)
        ≡ (
          0,
          some (
              bury (revived mails last (some (bytes "no")) 60 (bytes "d") 70) max_retries_exceeded),
        ))
replay_is_in_vain_example =
    replay_is_in_vain twice (λ _. bytes "no") (λ a. a) 1 lent mails 60 70 (bytes "d") (λ _. none)
      refl refl

abbrev once : EnqueueOpts
once = record {
  delay = pos 0;
  schedule = 0;
  priority = pos 0;
  dedupe_key = bytes "k";
  metadata = [];
}

abbrev later : Moment
later = record { now = 60; fresh = bytes "o" }

duplicate_is_dropped_example :
    let b' = (enqueue memory_store noon desk mails [] once).0 in
    ((enqueue memory_store later b' mails [] once).1 ≡ none)
    × ((enqueue memory_store later b' mails [] once).0.store ≡ b'.store)
unfolding find enqueue enqueue_message store_message seen_or_add
duplicate_is_dropped_example =
    duplicate_is_dropped memory_store noon later desk mails [] [] once once [] refl refl refl refl
      refl refl (omega arith)

-- A storage that takes no message.
abbrev broken : Store Memory
broken = record memory_store { enqueue = λ w m q msg. (m, some (backend (bytes "full"))) }

refused_enqueue_is_forgotten_example :
    (seen_or_add
      (enqueue broken noon desk mails [] once).0.dedupe
      (full_key mails (bytes "k"))
      9
      51).1
    ≡ false
unfolding find enqueue enqueue_message store_message seen_or_add
refused_enqueue_is_forgotten_example =
    refused_enqueue_is_forgotten broken noon desk mails [] once refl refl (backend (bytes "full")) 9
      51 refl

careful_drains_never_panic_example :
    (run new_dispatcher
      (registers ∷ drains ∷ polls true true ∷ resumes ∷ polls true true ∷ [])).crashed
    ≡ false
unfolding step new_dispatcher
careful_drains_never_panic_example =
    careful_drains_never_panic
      (registers ∷ drains ∷ polls true true ∷ resumes ∷ polls true true ∷ [])
      ((λ h. cc), (tt, (tt, (tt, (tt, tt)))))

abbrev busy : Dispatcher
busy = record new_dispatcher { handled = true; dispatching = true }

busy-Safe : Safe busy
unfolding new_dispatcher
busy-Safe = record {
  alive = refl;
  unmade = λ c h. refl;
  made = λ c h. cc;
  open_channel = λ c h g e. refl;
}

busy-Running : Running busy
unfolding new_dispatcher
busy-Running = record {
  live = refl;
  has_handler = refl;
  runs = refl;
  unpaused = refl;
  kept = refl;
  unaborted = refl;
}

register_after_drain_panics_example :
    (run busy (drains ∷ polls true true ∷ registers ∷ polls false true ∷ [])).crashed ≡ true
register_after_drain_panics_example =
    register_after_drain_panics busy true false busy-Safe busy-Running

abbrev idle : Dispatcher
idle = record new_dispatcher { handled = true }

idle-Safe : Safe idle
unfolding new_dispatcher
idle-Safe = record {
  alive = refl;
  unmade = λ c h. refl;
  made = λ c h. cc;
  open_channel = λ c h g e. refl;
}

drain_of_stopped_waits_example :
    ((step idle drains).drain_done ≡ some idle.channels)
    × ((run idle (drains ∷ polls true true ∷ pauses ∷ [])).closed idle.channels ≡ false)
unfolding new_dispatcher
drain_of_stopped_waits_example =
    drain_of_stopped_waits idle (polls true true ∷ pauses ∷ []) idle-Safe refl refl (tt, (tt, tt))

abbrev buffering : Broker Memory
buffering = record desk { pending_acks = put (λ _. []) mails (bytes "c" ∷ bytes "z" ∷ []) }

drain_complete-memory_example : drain_complete memory_store noon buffering mails 0 ≡ (
  record buffering {
    store = ack_batch office mails (bytes "c" ∷ bytes "z" ∷ []);
    pending_acks = put buffering.pending_acks mails [];
  },
  false,
)
unfolding put ack_batch ack_each str_eq
drain_complete-memory_example = drain_complete-memory noon buffering mails 0
