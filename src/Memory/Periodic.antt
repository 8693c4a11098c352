-- ===== src/Memory/Periodic.antt =====
-- internal/storage/memory.go: the schedules of periodic jobs. The map of schedules is a list with
-- one entry for each identifier; where Go walks the map, the order of the walk is an argument.
use shoebox.Base.{
  ℕ, Bool, true, false, not, ◌&&◌, ◌||◌, List, [], ◌∷◌, ◌++◌, Option, none, some, ltb, ◌==◌,
  if◌then◌else◌, length,
}
use shoebox.Base.Text.{Str, str_eq, str_ltb}
use shoebox.Storage.{Time, Schedule, empty, schedule_exists, Result, ok, err, periodic_message}
use shoebox.Memory.{Memory, append_pending}

unfoldable pub find_schedule : Str → List Schedule → Option Schedule
find_schedule id [] = none
find_schedule id (s ∷ ss) = if str_eq s.id id then some s else find_schedule id ss

-- `schedules[s.ID] = s`.
unfoldable pub set_schedule : Schedule → List Schedule → List Schedule
set_schedule s [] = s ∷ []
set_schedule s (t ∷ ts) = if str_eq t.id s.id then s ∷ ts else t ∷ set_schedule s ts

-- `delete(schedules, id)`.
unfoldable pub drop_schedule : Str → List Schedule → List Schedule
drop_schedule id [] = []
drop_schedule id (s ∷ ss) =
    let rest = drop_schedule id ss in if str_eq s.id id then rest else s ∷ rest

unfoldable pub create_schedule : Memory → Schedule → Memory × Result (Unit {0})
unfolding find_schedule set_schedule
create_schedule m s = elim (find_schedule s.id m.schedules) [
  | some t ↦ (m, err schedule_exists)
  | none ↦ (record m { schedules = set_schedule s m.schedules }, ok tt)
]

unfoldable pub update_schedule : Memory → Schedule → Memory × Result (Unit {0})
unfolding find_schedule set_schedule
update_schedule m s = elim (find_schedule s.id m.schedules) [
  | none ↦ (m, err empty)
  | some t ↦ (record m { schedules = set_schedule s m.schedules }, ok tt)
]

unfoldable pub delete_schedule : Memory → Str → Memory
unfolding drop_schedule
delete_schedule m id = record m { schedules = drop_schedule id m.schedules }

-- `s.Enabled && !s.NextRunAt.After(now)`.
unfoldable pub is_due : Time → Schedule → Bool
is_due now s = s.enabled && not (ltb now s.next_run_at)

-- The loop of `DueSchedules` over the schedules in the order of the walk: it stops once `out`
-- holds `limit` of them.
unfoldable pub due_schedules : List Schedule → Time → ℕ → List Schedule → List Schedule
unfolding is_due
due_schedules [] now limit out = out
due_schedules (s ∷ walk) now limit out =
    let due = is_due now s in
    let rest = due_schedules walk now limit (if due then out ++ s ∷ [] else out) in
    if due && length (out ++ s ∷ []) == limit then out ++ s ∷ [] else rest

unfoldable pub insert_schedule : Schedule → List Schedule → List Schedule
unfolding str_ltb
insert_schedule s [] = s ∷ []
insert_schedule s (t ∷ ts) = if str_ltb t.id s.id then t ∷ insert_schedule s ts else s ∷ t ∷ ts

-- The loop of `ListSchedules`, and its sort by identifier; the empty name stands for every queue.
unfoldable pub list_schedules : List Schedule → Str → List Schedule
unfolding insert_schedule
list_schedules [] queue = []
list_schedules (s ∷ walk) queue =
    let rest = list_schedules walk queue in
    if str_eq queue [] || str_eq s.queue queue then insert_schedule s rest else rest

-- `!current.Enabled || current.NextRunAt.After(now) || !current.NextRunAt.Equal(…)`.
unfoldable pub refuses : Schedule → Schedule → Time → Bool
refuses current schedule now =
    not current.enabled
    || ltb now current.next_run_at
    || not (current.next_run_at == schedule.next_run_at)

-- `clock` is the second reading of the time, for `UpdatedAt`.
unfoldable pub run_schedule : Memory → Schedule → Time → Time → Time → Str → Memory × Bool
run_schedule m schedule now next clock id = elim (find_schedule schedule.id m.schedules) [
  | none ↦ (m, false)
  | some current ↦
      let m' = append_pending m schedule.queue (periodic_message schedule now id) in
      let current' = record current { next_run_at = next; updated_at = clock } in
      if refuses current schedule now
      then (m, false)
      else (record m' { schedules = set_schedule current' m.schedules }, true)
]
