-- ===== src/Broker/Lifecycle/Endings.antt =====
-- internal/broker/broker.go: how a Drain ends, and what follows it.
use shoebox.Base.{
  ℕ, suc, ◌≡◌, refl, Bool, true, false, [], ◌∷◌, some, none, arith, if◌then◌else◌, ◌==◌, ap,
}
use shoebox.Broker.Lifecycle.{
  Dispatcher, registers, drains, polls, act, exit, step, run, close_channel, signal_drain_done,
  start_drain, poll, register,
}
use shoebox.Broker.Lifecycle.Drains.{Safe, step_alive}

-- A dispatcher that runs: it is not paused, and no shutdown has begun.
pub record Running (d : Dispatcher) : Type 0 where
  pub live : d.crashed ≡ false
  pub has_handler : d.handled ≡ true
  pub runs : d.dispatching ≡ true
  pub unpaused : d.paused ≡ false
  pub kept : d.stopping ≡ false
  pub unaborted : d.aborting ≡ false

poll_signals :
    (d : Dispatcher) (p : Bool)
    → d.dispatching ≡ true
    → d.aborting ≡ false
    → d.paused ≡ false
    → d.stopping ≡ false
    → d.draining ≡ true
    → poll d p true ≡ exit (signal_drain_done d)
unfolding poll
poll_signals d p g a u k r = simp (g, a, u, k, r)

pub start_drain_handled :
    (d : Dispatcher)
    → d.handled ≡ true
    → start_drain d
      ≡ record d { draining = true; drain_done = some d.channels; channels = suc d.channels }
unfolding start_drain
start_drain_handled d h = simp h

close_channel_open :
    (d : Dispatcher) (c : ℕ)
    → d.closed c ≡ false
    → close_channel d c ≡ record d { closed = λ k. if c == k then true else d.closed k }
unfolding close_channel
close_channel_open d c h = simp h

close_channel_closed :
    (d : Dispatcher) (c : ℕ) → d.closed c ≡ true → close_channel d c ≡ record d { crashed = true }
unfolding close_channel
close_channel_closed d c h = simp h

-- The dispatcher between the call of Drain and the round that ends it.
abbrev pub draining_state : Dispatcher → Dispatcher
draining_state d = record d {
  draining = true;
  drain_done = some d.channels;
  channels = suc d.channels;
}

-- The dispatcher after that round.
abbrev pub drained_state : Dispatcher → Dispatcher
drained_state d = record (draining_state d) {
  dispatching = false;
  closed = λ k. if d.channels == k then true else d.closed k;
}

step-drains : (d : Dispatcher) → Running d → step d drains ≡ draining_state d
unfolding act
step-drains d r = rw (step_alive d drains r.live) (start_drain_handled d r.has_handler)

signal_drain_done-some :
    (d : Dispatcher) (c : ℕ) → d.drain_done ≡ some c → signal_drain_done d ≡ close_channel d c
unfolding signal_drain_done
signal_drain_done-some d c e = ap (λ o. elim o [ none ↦ d | some k ↦ close_channel d k ]) e

step-polls :
    (d : Dispatcher) (p : Bool) (c : ℕ)
    → Running d
    → d.draining ≡ true
    → d.drain_done ≡ some c
    → step d (polls p true) ≡ exit (close_channel d c)
unfolding act
step-polls d p c r g e =
    rw
      (
        step_alive d (polls p true) r.live,
        poll_signals d p r.runs r.unaborted r.unpaused r.kept g,
        signal_drain_done-some d c e,
      )
      refl

draining_state-Running : (d : Dispatcher) → Running d → Running (draining_state d)
draining_state-Running d r = record {
  live = r.live;
  has_handler = r.has_handler;
  runs = r.runs;
  unpaused = r.unpaused;
  kept = r.kept;
  unaborted = r.unaborted;
}

-- The dispatcher that a new Register starts from there.
abbrev pub registered_state : Dispatcher → Dispatcher
registered_state d = record (drained_state d) { handled = true; dispatching = true }

registered_state-Running : (d : Dispatcher) → Running d → Running (registered_state d)
registered_state-Running d r = record {
  live = r.live;
  has_handler = refl;
  runs = refl;
  unpaused = r.unpaused;
  kept = r.kept;
  unaborted = r.unaborted;
}

drained :
    (d : Dispatcher) (p : Bool)
    → Running d
    → d.closed d.channels ≡ false
    → step (step d drains) (polls p true) ≡ drained_state d
unfolding exit
drained d p r u =
    rw
      (
        step-drains d r,
        step-polls (draining_state d) p d.channels (draining_state-Running d r) refl refl,
        close_channel_open (draining_state d) d.channels u,
      )
      refl

step-registers :
    (d : Dispatcher) → Running d → step (drained_state d) registers ≡ registered_state d
unfolding act register
step-registers d r = step_alive (drained_state d) registers r.live

if_same : (c : ℕ) (t : Bool) → (if c == c then true else t) ≡ true
if_same c t = ground arith

if_kept : (b t : Bool) → t ≡ true → (if b then true else t) ≡ true
if_kept b t h = ground arith

-- From a safe state (no panic so far, every channel not made yet open, and an open one to close
-- where a drain may end), a Drain of a queue whose dispatcher runs, unpaused and with no
-- shutdown, ends at the first round that finds the queue complete: its own channel is closed, the
-- dispatcher has stopped, nothing panics, and the channels closed before stay closed.
drain_ends :
    (d : Dispatcher) (p : Bool)
    → Safe d
    → Running d
    → let d' = run d (drains ∷ polls p true ∷ []) in
      (d'.closed d.channels ≡ true × d'.dispatching ≡ false × d'.crashed ≡ false)
      × ((c : ℕ) → d.closed c ≡ true → d'.closed c ≡ true)
unfolding run
drain_ends d p s r =
    rw (drained d p r (s.unmade d.channels (omega arith)))
      ((if_same d.channels _, refl, r.live), λ c h. if_kept _ _ h)

-- From a safe state, if a queue whose dispatcher runs, unpaused and with no shutdown, is drained
-- until a round finds it complete, a second Register starts a dispatcher whose first round that
-- finds the queue complete closes the closed channel again, and panics.
pub register_after_drain_panics :
    (d : Dispatcher) (p q : Bool)
    → Safe d
    → Running d
    → (run d (drains ∷ polls p true ∷ registers ∷ polls q true ∷ [])).crashed ≡ true
unfolding run exit
register_after_drain_panics d p q s r =
    rw
      (
        drained d p r (s.unmade d.channels (omega arith)),
        step-registers d r,
        step-polls (registered_state d) q d.channels (registered_state-Running d r) refl refl,
        close_channel_closed (registered_state d) d.channels (if_same d.channels _),
      )
      refl
