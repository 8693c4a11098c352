-- ===== src/Broker/Lifecycle/Drains.antt =====
-- internal/broker/broker.go: the channels of Drain.
use shoebox.Base.{
  ℕ, suc, ◌≤◌, ◌<◌, ◌≡◌, refl, Bool, true, false, not, ◌&&◌, List, [], ◌∷◌, some, arith,
  if◌then◌else◌, if_elim, un_not, inl, inr, Option-cases,
}
use shoebox.Broker.Lifecycle.{
  Dispatcher, new_dispatcher, Event, registers, pauses, resumes, drains, cancels, shuts, aborts,
  polls, act, exit, step, run, close_channel, signal_drain_done, start_drain, poll,
}

-- A dispatcher that may signal the end of a drain has an open channel to close; channels not made
-- yet are open.
pub record Safe (d : Dispatcher) : Type 0 where
  pub alive : d.crashed ≡ false
  pub unmade : (c : ℕ) → d.channels ≤ c → d.closed c ≡ false
  pub made : (c : ℕ) → d.drain_done ≡ some c → c < d.channels
  pub open_channel :
      (c : ℕ)
      → d.dispatching ≡ true
      → d.draining ≡ true
      → d.drain_done ≡ some c
      → d.closed c ≡ false

pub new_dispatcher-Safe : Safe new_dispatcher
unfolding new_dispatcher
new_dispatcher-Safe = record {
  alive = refl;
  unmade = λ c h. refl;
  made = λ c h. cc;
  open_channel = λ c h k e. refl;
}

-- Registering again is harmless unless the last drain has ended and no Resume came since.
abbrev pub Careful : Dispatcher → Event → Type 0
Careful d registers = (d.draining ≡ true) → (d.dispatching ≡ true)
Careful d pauses = Unit {0}
Careful d resumes = Unit {0}
Careful d drains = Unit {0}
Careful d cancels = Unit {0}
Careful d shuts = Unit {0}
Careful d aborts = Unit {0}
Careful d (polls p q) = Unit {0}

pub step_alive : (d : Dispatcher) (e : Event) → d.crashed ≡ false → step d e ≡ act d e
unfolding step
step_alive d e h = if_false d.crashed d (act d e) h
  where
    if_false : (t : Bool) (x y : Dispatcher) → t ≡ false → (if t then x else y) ≡ y
    if_false t x y e = rw e

close_channel-alive :
    (d : Dispatcher) (c : ℕ) → d.closed c ≡ false → (close_channel d c).crashed ≡ d.crashed
unfolding close_channel
close_channel-alive d c h = ground arith

Safe-exit : (d : Dispatcher) → Safe d → Safe (exit d)
unfolding exit
Safe-exit d s = record {
  alive = s.alive;
  unmade = s.unmade;
  made = s.made;
  open_channel = λ c h g e. cc;
}

Safe-exit_signal :
    (d : Dispatcher)
    → d.dispatching ≡ true
    → d.draining ≡ true
    → Safe d
    → Safe (exit (signal_drain_done d))
unfolding signal_drain_done close_channel exit
Safe-exit_signal d g r s = elim (Option-cases d.drain_done) [
  | inl none_made ↦
      rw (none_made, signal_drain_done)
        (record { alive = s.alive; unmade = s.unmade; made = s.made; open_channel = λ c h. cc })
  | inr (c, e) ↦
      let fresh : d.closed c ≡ false = s.open_channel c g r e in
      rw (e, signal_drain_done)
        (rw (fresh, close_channel)
          (record {
            alive = s.alive;
            unmade = λ k h. ground (arith, s.made c e, s.unmade k h);
            made = s.made;
            open_channel = λ k h. cc;
          }))
]

Safe-poll : (d : Dispatcher) (p q : Bool) → Safe d → Safe (poll d p q)
unfolding poll
Safe-poll d p q s =
    if_elim Safe (not d.dispatching) _ _ (λ n. s)
      λ n.
        if_elim Safe d.aborting _ _ (λ a. Safe-exit d s)
          λ a.
            if_elim Safe d.paused _ _ (λ r. s)
              λ r.
                if_elim Safe (d.stopping && p) _ _ (λ t. Safe-exit d s)
                  λ t.
                    if_elim Safe (d.draining && q) _ _
                      (λ t. Safe-exit_signal d (un_not _ n) (both_left _ _ t) s) λ t. s
  where
    both_left : (x y : Bool) → (x && y) ≡ true → x ≡ true
    both_left x y h = ground arith

Safe-start_drain : (d : Dispatcher) → Safe d → Safe (start_drain d)
unfolding start_drain
Safe-start_drain d s = if_elim Safe d.handled _ _ (λ h. drained) (λ h. s)
  where
    drained :
        Safe (record d { draining = true; drain_done = some d.channels; channels = suc d.channels })
    drained = record {
      alive = s.alive;
      unmade = λ c k. s.unmade c (omega arith);
      made = λ c e. ground arith;
      open_channel = λ c k g e. s.unmade c (ground arith);
    }

act-Safe : (d : Dispatcher) (e : Event) → Careful d e → Safe d → Safe (act d e)
unfolding act
act-Safe d registers k s = record {
  alive = s.alive;
  unmade = s.unmade;
  made = s.made;
  open_channel = λ c h g e. s.open_channel c (k g) g e;
}
act-Safe d pauses k s = record {
  alive = s.alive;
  unmade = s.unmade;
  made = s.made;
  open_channel = s.open_channel;
}
act-Safe d resumes k s = record {
  alive = s.alive;
  unmade = s.unmade;
  made = s.made;
  open_channel = λ c h g e. cc;
}
act-Safe d drains k s = Safe-start_drain d s
act-Safe d cancels k s = record {
  alive = s.alive;
  unmade = s.unmade;
  made = s.made;
  open_channel = λ c h g e. cc;
}
act-Safe d shuts k s = record {
  alive = s.alive;
  unmade = s.unmade;
  made = s.made;
  open_channel = s.open_channel;
}
act-Safe d aborts k s = record {
  alive = s.alive;
  unmade = s.unmade;
  made = s.made;
  open_channel = s.open_channel;
}
act-Safe d (polls p q) k s = Safe-poll d p q s

-- Every event of a history is careful where it happens.
abbrev pub CarefulRun : Dispatcher → List Event → Type 0
CarefulRun d [] = Unit {0}
CarefulRun d (e ∷ es) = Careful d e × CarefulRun (step d e) es

step-Safe : (d : Dispatcher) (e : Event) → Careful d e → Safe d → Safe (step d e)
step-Safe d e k s = rw (step_alive d e s.alive) (act-Safe d e k s)

pub run-Safe : (es : List Event) (d : Dispatcher) → Safe d → CarefulRun d es → Safe (run d es)
unfolding run
run-Safe [] d s k = s
run-Safe (e ∷ es) d s (k, rest) = run-Safe es (step d e) (step-Safe d e k s) rest

-- From a new broker, no history of calls and rounds closes a drain's channel twice, provided that
-- Register is called on a queue that drains only while its dispatcher runs: a queue whose drain has
-- ended is registered again only after a Resume, or after the drain was given up.
pub careful_drains_never_panic :
    (es : List Event) → CarefulRun new_dispatcher es → (run new_dispatcher es).crashed ≡ false
careful_drains_never_panic es k = (run-Safe es new_dispatcher new_dispatcher-Safe k).alive
