-- ===== src/Broker/Cadence/Once.antt =====
-- internal/broker/broker.go and internal/storage/memory.go: an occurrence of a periodic job.
use shoebox.Base.{
  ℕ, zero, suc, ◌+◌, ◌*◌, ◌≤◌, ◌<◌, ◌≡◌, ◌⊎◌, inl, inr, refl, true, false, List, [], ◌∷◌, Option,
  none, some, arith, ltb, ltb→lt, lt→ltb, sym, ap, ◌∙◌, Bool-cases, Option-cases,
}
use shoebox.Base.Int.{pos}
use shoebox.Base.Text.{Str, str_eq, str_eq_iff, str_eq_refl}
use shoebox.Storage.{Time, Schedule, periodic_message}
use shoebox.Memory.{Memory, append_pending}
use shoebox.Memory.Periodic.{find_schedule, set_schedule, refuses, run_schedule}
use shoebox.Broker.Cadence.{advance, next_run}

-- The instants after `next` in steps of the interval, up to the first that is later than `now`.
abbrev pub FirstLater : ℕ → Time → Time → Option Time → ℕ → Type 0
FirstLater i now next found k =
    (found ≡ some (next + k * suc i))
    × (now < next + k * suc i)
    × ((k ≡ 0) ⊎ (next + k * suc i ≤ now + suc i))

FirstLater-zero :
    (i : ℕ) (now next : Time) (found : Option Time)
    → found ≡ some next
    → now < next
    → FirstLater i now next found 0
FirstLater-zero i now next found e l = (e ∙ ap some (sym plus_zero), rw plus_zero l, inl refl)
  where
    plus_zero : next + 0 * suc i ≡ next
    plus_zero = omega arith

FirstLater-suc :
    (i : ℕ) (now next : Time) (found : Option Time) (k : ℕ)
    → next ≤ now
    → FirstLater i now (next + suc i) found k
    → FirstLater i now next found (suc k)
FirstLater-suc i now next found k h (e, l, b) =
    (e ∙ ap some (total k), rw⁻¹ (total k) l, inr (bound b))
  where
    total : (k : ℕ) → next + suc i + k * suc i ≡ next + suc k * suc i
    total k = omega arith

    bound :
        ((k ≡ 0) ⊎ (next + suc i + k * suc i ≤ now + suc i)) → next + suc k * suc i ≤ now + suc i
    bound (inl z) = rw z (omega (arith, h))
    bound (inr c) = rw⁻¹ (total k) c

advance_skip :
    (fuel i : ℕ) (now next : Time)
    → ltb now next ≡ false
    → advance (suc fuel) i now next ≡ advance fuel i now (next + i)
unfolding advance
advance_skip fuel i now next e = rw (e, advance) refl

advance_least :
    (fuel i : ℕ) (now next : Time)
    → now < next + fuel
    → (k : ℕ) × FirstLater i now next (advance (suc fuel) (suc i) now next) k
unfolding advance
advance_least zero i now next h =
    let e : ltb now next ≡ true = lt→ltb now next (omega (arith, h)) in
    (0, FirstLater-zero i now next _ (rw (e, advance) refl) (omega (arith, h)))
advance_least (suc fuel) i now next h = elim (Bool-cases (ltb now next)) [
  | inl e ↦ (0, FirstLater-zero i now next _ (rw (e, advance) refl) (ltb→lt now next e))
  | inr e ↦
      let (k, later) = advance_least fuel i now (next + suc i) (omega (arith, h)) in
      (
        suc k,
        FirstLater-suc i now next _ k (ground (arith, e))
            (rw (advance_skip (suc fuel) (suc i) now next e) later),
      )
]

-- With a positive interval the loop finds the next instant of a periodic job: it is a positive number
-- of intervals after the last one, it is later than now, and unless it is the very next one, the
-- instant an interval before it is not later than now.
pub next_run_least :
    (i : ℕ) (from now : Time)
    → (k : ℕ) × (next_run (pos (suc i)) from now ≡ some (from + suc k * suc i))
      × (now < from + suc k * suc i)
      × ((k ≡ 0) ⊎ (from + k * suc i ≤ now))
unfolding next_run
next_run_least i from now = shifted (advance_least now i now (from + suc i) (omega arith))
  where
    shifted :
        ((k : ℕ) × FirstLater i now (from + suc i) (advance (suc now) (suc i) now (from + suc i)) k)
        → (k : ℕ) × (next_run (pos (suc i)) from now ≡ some (from + suc k * suc i))
          × (now < from + suc k * suc i)
          × ((k ≡ 0) ⊎ (from + k * suc i ≤ now))
    shifted (k, (e, l, b)) = (k, e ∙ ap some (total k), rw⁻¹ (total k) l, back b)
      where
        total : (k : ℕ) → from + suc i + k * suc i ≡ from + suc k * suc i
        total k = omega arith

        back :
            ((k ≡ 0) ⊎ (from + suc i + k * suc i ≤ now + suc i))
            → (k ≡ 0) ⊎ (from + k * suc i ≤ now)
        back (inl z) = inl z
        back (inr c) = inr (omega (arith, c))

find-set :
    (s : Schedule) (id : Str) (ss : List Schedule)
    → s.id ≡ id
    → find_schedule id (set_schedule s ss) ≡ some s
unfolding find_schedule set_schedule
find-set s id [] h = rw (h, str_eq_refl id) refl
find-set s id (t ∷ ts) h = elim (Bool-cases (str_eq t.id s.id)) [
  | inl e ↦ rw (e, h, str_eq_refl id, find_schedule) refl
  | inr e ↦
      let later : str_eq t.id id ≡ false = rw⁻¹ h e in
      rw (e, find_schedule, later) (find-set s id ts h)
]

find_id : (id : Str) (ss : List Schedule) (s : Schedule) → find_schedule id ss ≡ some s → s.id ≡ id
unfolding find_schedule
find_id id [] s h = cc
find_id id (t ∷ ts) s h = elim (Bool-cases (str_eq t.id id)) [
  | inl e ↦ let k : some t ≡ some s = rw e at h in ap id_of (sym k) ∙ (str_eq_iff t.id id).0 e
  | inr e ↦ (let k : find_schedule id ts ≡ some s = rw e at h in find_id id ts s k)
]
  where
    id_of : Option Schedule → Str
    id_of none = []
    id_of (some x) = x.id

run_schedule_missing :
    (m : Memory) (s : Schedule) (now next clock : Time) (id : Str)
    → find_schedule s.id m.schedules ≡ none
    → run_schedule m s now next clock id ≡ (m, false)
unfolding run_schedule
run_schedule_missing m s now next clock id e = rw (e, run_schedule) refl

run_schedule_refused :
    (m : Memory) (s : Schedule) (now next clock : Time) (id : Str) (current : Schedule)
    → find_schedule s.id m.schedules ≡ some current
    → refuses current s now ≡ true
    → run_schedule m s now next clock id ≡ (m, false)
unfolding run_schedule
run_schedule_refused m s now next clock id current e r = rw (e, r, run_schedule) refl

abbrev moved : Schedule → Time → Time → Schedule
moved current next clock = record current { next_run_at = next; updated_at = clock }

run_schedule_runs :
    (m : Memory) (s : Schedule) (now next clock : Time) (id : Str) (current : Schedule)
    → find_schedule s.id m.schedules ≡ some current
    → refuses current s now ≡ false
    → run_schedule m s now next clock id ≡ (
      record (append_pending m s.queue (periodic_message s now id)) {
        schedules = set_schedule (moved current next clock) m.schedules;
      },
      true,
    )
unfolding run_schedule
run_schedule_runs m s now next clock id current e r = rw (e, r, run_schedule) refl

refuses-moved :
    (current s : Schedule) (next clock now : Time)
    → s.next_run_at < next
    → refuses (moved current next clock) s now ≡ true
unfolding refuses
refuses-moved current s next clock now l = ground (arith, l)

-- An occurrence of a periodic job that ran, and whose next instant is later, appended its one
-- message, and cannot run again: every later `RunSchedule` with the same snapshot of the job, at any
-- time, changes nothing and reports that it did not run.
run_schedule_once :
    (m : Memory) (s : Schedule) (now next clock : Time) (id : Str)
    → (run_schedule m s now next clock id).1 ≡ true
    → s.next_run_at < next
    → let m' = (run_schedule m s now next clock id).0 in
      (m'.queues ≡ (append_pending m s.queue (periodic_message s now id)).queues)
      × ((now' next' clock' : Time) (id' : Str)
          → run_schedule m' s now' next' clock' id' ≡ (m', false))
run_schedule_once m s now next clock id h l = elim (Option-cases (find_schedule s.id m.schedules)) [
  | inl e ↦ let bad : false ≡ true = rw (run_schedule_missing m s now next clock id e) at h in cc
  | inr (current, e) ↦ elim (Bool-cases (refuses current s now)) [
    | inl r ↦
        let bad : false ≡ true = rw (run_schedule_refused m s now next clock id current e r) at h in
        cc
    | inr r ↦ rw (run_schedule_runs m s now next clock id current e r) (
      refl,
      λ now' next' clock' id'.
          run_schedule_refused _ s now' next' clock' id' (moved current next clock)
            (find-set (moved current next clock) s.id m.schedules
              (find_id s.id m.schedules current e))
            (refuses-moved current s next clock now' l),
    )
  ]
]
