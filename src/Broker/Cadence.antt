-- ===== src/Broker/Cadence.antt =====
-- internal/broker/broker.go: the loop that moves a periodic job to its next instant, and a round of
-- `scheduleLoop` over the memory backend. Instants do not overflow here.
pub mod Once
use shoebox.Base.{ℕ, zero, suc, ◌+◌, List, [], ◌∷◌, Option, none, some, ltb, if◌then◌else◌}
use shoebox.Base.Int.{ℤ, pos, negsuc}
use shoebox.Base.Text.{Str}
use shoebox.Storage.{Time, Schedule}
use shoebox.Memory.{Memory}
use shoebox.Memory.Periodic.{due_schedules, run_schedule}

-- `for !next.After(now) { next = next.Add(s.Interval) }`, on fuel.
unfoldable pub advance : ℕ → ℕ → Time → Time → Option Time
advance zero interval now next = none
advance (suc fuel) interval now next =
    let rest = advance fuel interval now (next + interval) in
    if ltb now next then some next else rest

-- `none` where the interval is not positive, and the job is passed over.
unfoldable pub next_run : ℤ → Time → Time → Option Time
unfolding advance
next_run (pos zero) from now = none
next_run (pos (suc i)) from now = advance (suc now) (suc i) now (from + suc i)
next_run (negsuc n) from now = none

-- The inner loop of a round; `readings` are the time and the fresh identifier that each call reads.
unfoldable pub run_each : Memory → List Schedule → Time → (Str → Time × Str) → Memory
unfolding next_run
run_each m [] now readings = m
run_each m (s ∷ ss) now readings =
    run_each
      (elim (next_run s.interval s.next_run_at now) [
        | none ↦ m
        | some next ↦ (run_schedule m s now next (readings s.id).0 (readings s.id).1).0
      ])
      ss now readings

unfoldable pub schedule_round : Memory → List Schedule → Time → (Str → Time × Str) → Memory
unfolding run_each
schedule_round m walk now readings = run_each m (due_schedules walk now 100 []) now readings
