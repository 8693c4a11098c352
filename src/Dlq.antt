-- ===== src/Dlq.antt =====
-- internal/dlq/dlq.go: the manager of the dead-letter queues, over a `Storage` whose state is S. The
-- text that it wraps around an error is left out: `errors.Is` sees the error inside.
pub mod Journey
use shoebox.Base.{ℕ, ◌++◌, List, [], ◌∷◌, map, Option, if◌then◌else◌, ltb}
use shoebox.Base.Int.{ℤ, pos, negsuc, ltb_ℤ, pos_part}
use shoebox.Base.Text.{Str, bytes, str_eq}
use shoebox.Storage.{Time, Message, Error, empty, Result, ok, err}
use shoebox.Storage.Interface.{Moment, Store}

pub record Record : Type 0 where
  pub message : Message
  pub original_queue : Str
  pub error_message : Str
  pub dead_at : Time

abbrev pub max_list_limit : ℕ
max_list_limit = 1000

unfoldable pub dlq_queue : Str → Str
dlq_queue queue = queue ++ bytes ".dlq"

unfoldable pub to_record : Message → Str → Record
to_record msg original_queue = record {
  message = msg;
  original_queue = original_queue;
  error_message = msg.error;
  dead_at = msg.dead_at;
}

-- The two tests on the limit: 50 where it is not positive, and at most 1000.
unfoldable pub clamp_limit : ℤ → ℕ
clamp_limit limit =
    let n = if ltb_ℤ (pos 0) limit then pos_part limit else 50 in
    if ltb max_list_limit n then max_list_limit else n

abbrev records_of : Str → Result (List Message) → Result (List Record)
records_of queue (ok msgs) = ok (map (λ msg. to_record msg queue) msgs)
records_of queue (err e) = err e

unfoldable pub find_record : Str → Str → List Message → Result Record
unfolding to_record
find_record queue id [] = err empty
find_record queue id (msg ∷ msgs) =
    let rest = find_record queue id msgs in
    if str_eq msg.id id then ok (to_record msg queue) else rest

module _ {S : Type 0} (store : Store S) where
  unfoldable pub list_dead : S → Str → ℤ → Result (List Record)
  unfolding dlq_queue clamp_limit to_record
  list_dead s queue limit = records_of queue (store.list s (dlq_queue queue) (clamp_limit limit))

  unfoldable pub inspect : S → Str → Str → Result Record
  unfolding dlq_queue find_record
  inspect s queue id = elim (store.list s (dlq_queue queue) max_list_limit) [
    | err e ↦ err e
    | ok msgs ↦ find_record queue id msgs
  ]

  unfoldable pub replay_dead : Moment → S → Str → Str → S × Option Error
  replay_dead w s queue id = store.replay w s queue id
