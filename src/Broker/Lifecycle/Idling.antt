-- ===== src/Broker/Lifecycle/Idling.antt =====
-- internal/broker/broker.go: a Drain of a queue whose dispatcher has stopped.
use shoebox.Base.{
  ℕ, ◌≡◌, refl, Bool, true, false, not, List, [], ◌∷◌, some, arith, if_elim, ap, ◌∙◌, All,
}
use shoebox.Broker.Lifecycle.{
  Dispatcher, Event, registers, pauses, resumes, drains, cancels, shuts, aborts, polls, act, step,
  run, start_drain, poll,
}
use shoebox.Broker.Lifecycle.Drains.{Safe, step_alive}
use shoebox.Broker.Lifecycle.Endings.{start_drain_handled}

-- The events that start no dispatcher: all but Register and Resume.
abbrev pub StartsNone : Event → Type 0
StartsNone registers = ⊥
StartsNone pauses = Unit {0}
StartsNone resumes = ⊥
StartsNone drains = Unit {0}
StartsNone cancels = Unit {0}
StartsNone shuts = Unit {0}
StartsNone aborts = Unit {0}
StartsNone (polls p q) = Unit {0}

abbrev Stopped : Dispatcher → (ℕ → Bool) → Type 0
Stopped d closed = d.dispatching ≡ false × d.closed ≡ closed

not_both : (t : Bool) → not t ≡ false → t ≡ false → ⊥
not_both t h k = ground arith

act-Stopped :
    (d : Dispatcher) (f : ℕ → Bool) (e : Event) → StartsNone e → Stopped d f → Stopped (act d e) f
unfolding act start_drain poll
act-Stopped d f registers k h = elim k [ ]
act-Stopped d f pauses k h = h
act-Stopped d f resumes k h = elim k [ ]
act-Stopped d f drains k h = if_elim (λ x. Stopped x f) d.handled _ _ (λ n. h) (λ n. h)
act-Stopped d f cancels k h = h
act-Stopped d f shuts k h = h
act-Stopped d f aborts k h = h
act-Stopped d f (polls p q) k (n, e) =
    if_elim (λ x. Stopped x f) (not d.dispatching) d _ (λ m. (n, e))
      (λ m. elim (not_both _ m n) [ ])

step-Stopped :
    (d : Dispatcher) (f : ℕ → Bool) (e : Event) → StartsNone e → Stopped d f → Stopped (step d e) f
unfolding step
step-Stopped d f e k h =
    if_elim (λ x. Stopped x f) d.crashed d _ (λ n. h) (λ n. act-Stopped d f e k h)

run-Stopped :
    (es : List Event) (d : Dispatcher) (f : ℕ → Bool)
    → All StartsNone es
    → Stopped d f
    → Stopped (run d es) f
unfolding run
run-Stopped [] d f k h = h
run-Stopped (e ∷ es) d f (k, ks) h = run-Stopped es (step d e) f ks (step-Stopped d f e k h)

-- From a safe state, a Drain of a queue that has a handler but no running dispatcher makes a
-- channel that no later event closes, as long as neither Register nor Resume is called: Drain
-- waits for its context.
pub drain_of_stopped_waits :
    (d : Dispatcher) (es : List Event)
    → Safe d
    → d.handled ≡ true
    → d.dispatching ≡ false
    → All StartsNone es
    → (step d drains).drain_done ≡ some d.channels × (run d (drains ∷ es)).closed d.channels ≡ false
unfolding act
drain_of_stopped_waits d es s h n k = (
  ap (λ x. x.drain_done) (step_alive d drains s.alive ∙ start_drain_handled d h),
  still_open (run-Stopped (drains ∷ es) d d.closed (tt, k) (n, refl)),
)
  where
    still_open :
        Stopped (run d (drains ∷ es)) d.closed → (run d (drains ∷ es)).closed d.channels ≡ false
    still_open (m, e) = ap (λ f. f d.channels) e ∙ s.unmade d.channels (omega arith)
