-- ===== src/Broker/Lifecycle.antt =====
-- internal/broker/broker.go: the dispatcher of one queue under Register, Pause, Resume, Drain and
-- Shutdown. Every method and every round of the dispatch loop is one step on the flags of the
-- queue; a history is a list of steps, in any order. A channel is the number under which it was
-- made. `drains` is the first part of Drain, up to its wait; `cancels` is its return when its
-- context runs out first. `polls` is a round of the loop whose dequeue found nothing, with the answers
-- of `drainComplete`; a round that finds messages changes none of these flags.
pub mod Drains
pub mod Endings
pub mod Idling
use shoebox.Base.{
  ℕ, suc, Bool, true, false, not, ◌&&◌, ◌||◌, List, [], ◌∷◌, Option, none, some, ◌==◌,
  if◌then◌else◌,
}

pub record Dispatcher : Type 0 where
  pub handled : Bool
  pub dispatching : Bool
  pub paused : Bool
  pub draining : Bool
  pub drain_done : Option ℕ
  pub channels : ℕ
  pub closed : ℕ → Bool
  pub shut : Bool
  pub stopping : Bool
  pub aborting : Bool
  pub crashed : Bool

unfoldable pub new_dispatcher : Dispatcher
new_dispatcher = record {
  handled = false;
  dispatching = false;
  paused = false;
  draining = false;
  drain_done = none;
  channels = 0;
  closed = λ _. false;
  shut = false;
  stopping = false;
  aborting = false;
  crashed = false;
}

-- The flags of `Register`: a dispatcher is started if none runs.
unfoldable pub register : Dispatcher → Dispatcher
register d = record d { handled = true; dispatching = true }

unfoldable pub pause : Dispatcher → Dispatcher
pause d = record d { paused = true }

unfoldable pub resume : Dispatcher → Dispatcher
resume d = record d {
  paused = false;
  draining = false;
  dispatching = d.dispatching || d.handled && not d.shut;
}

-- Up to the wait of `Drain`: a new channel replaces the one of an earlier drain.
unfoldable pub start_drain : Dispatcher → Dispatcher
start_drain d =
    if d.handled
    then record d { draining = true; drain_done = some d.channels; channels = suc d.channels }
    else d

unfoldable pub cancel_drain : Dispatcher → Dispatcher
cancel_drain d = record d { draining = false }

-- `close(ch)`, which panics if the channel is closed.
unfoldable pub close_channel : Dispatcher → ℕ → Dispatcher
close_channel d c =
    if d.closed c
    then record d { crashed = true }
    else record d { closed = λ k. if c == k then true else d.closed k }

unfoldable pub signal_drain_done : Dispatcher → Dispatcher
unfolding close_channel
signal_drain_done d = elim d.drain_done [ none ↦ d | some c ↦ close_channel d c ]

-- The end of `dispatch`: its deferred function.
unfoldable pub exit : Dispatcher → Dispatcher
exit d = record d { dispatching = false }

-- A round of the loop of `dispatch` that finds no message, with the answers of the two calls of
-- `drainComplete` it may make.
unfoldable pub poll : Dispatcher → Bool → Bool → Dispatcher
unfolding signal_drain_done exit
poll d all_complete queue_complete =
    if not d.dispatching
    then d
    else if d.aborting
    then exit d
    else if d.paused
    then d
    else if d.stopping && all_complete
    then exit d
    else if d.draining && queue_complete
    then exit (signal_drain_done d)
    else d

-- `Shutdown` up to its wait; a second call returns an error.
unfoldable pub shut_down : Dispatcher → Dispatcher
shut_down d = record d { shut = true; stopping = true }

unfoldable pub abort : Dispatcher → Dispatcher
abort d = record d { aborting = true }

pub data Event : Type 0 where
  registers pauses resumes drains cancels shuts aborts : Event
  polls : Bool → Bool → Event

unfoldable pub act : Dispatcher → Event → Dispatcher
unfolding register pause resume start_drain cancel_drain shut_down abort poll
act d registers = register d
act d pauses = pause d
act d resumes = resume d
act d drains = start_drain d
act d cancels = cancel_drain d
act d shuts = shut_down d
act d aborts = abort d
act d (polls all_complete queue_complete) = poll d all_complete queue_complete

-- After a panic nothing runs.
unfoldable pub step : Dispatcher → Event → Dispatcher
unfolding act
step d e = if d.crashed then d else act d e

unfoldable pub run : Dispatcher → List Event → Dispatcher
unfolding step
run d [] = d
run d (e ∷ es) = run (step d e) es
