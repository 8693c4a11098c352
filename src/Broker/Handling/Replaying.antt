-- ===== src/Broker/Handling/Replaying.antt =====
-- internal/broker/broker.go with the dead letters and the replay of internal/storage: what a replay is worth
-- to a message that its handler failed.
use shoebox.Base.{ℕ, suc, ◌+◌, ◌≡◌, Option, some, arith}
use shoebox.Base.Int.{pos}
use shoebox.Base.Text.{Str}
use shoebox.Storage.{Time, Message, dead_letter_message, replay_message}
use shoebox.Broker.{Handler}
use shoebox.Broker.Handling.{max_retries_exceeded}
use shoebox.Broker.Handling.Budget.{bury}
use shoebox.Broker.Handling.Lives.{life, always_failing_is_Buried, life_spent}

-- The message that a replay puts back, of the dead letter that is made of `last`.
abbrev pub revived : Str → Message → Option Str → Time → Str → Time → Message
revived queue last e died id now =
    replay_message queue (dead_letter_message queue last e died id) now

-- A message that was never attempted and whose handler always fails, under a positive limit of n + 1 retries,
-- is dead-lettered after n + 2 runs of its handler. Dead-lettered under any identifier and replayed at any
-- time, its next delivery dead-letters it again as "max retries exceeded" without a run of the handler,
-- even if the handler would succeed now.
pub replay_is_in_vain :
    {S : Type 0} (h : Handler S) (errors : ℕ → Str) (clock : ℕ → Time) (n : ℕ) (msg : Message)
    (queue : Str) (died now : Time) (id : Str) (results : ℕ → Option Str)
    → h.max_retries ≡ pos (suc n)
    → msg.attempts ≡ 0
    → (last : Message) × (life (suc (suc n)) h (λ a. some (errors a)) clock msg
        ≡ (suc n + 1, some (bury last (some (errors (suc n))))))
      × (life 1 h results clock (revived queue last (some (errors (suc n))) died id now) ≡ (
        0,
        some (bury (revived queue last (some (errors (suc n))) died id now) max_retries_exceeded),
      ))
unfolding dead_letter_message replay_message
replay_is_in_vain h errors clock n msg queue died now id results limit a =
    let b = always_failing_is_Buried h errors clock (suc n) msg limit a in
    (
      b.last,
      λ i. (b.ran i, b.outcome i),
      life_spent h results clock 0 (revived queue b.last (some (errors (suc n))) died id now)
          (rw limit (ground (arith, b.spent))),
    )
