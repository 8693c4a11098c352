-- ===== src/Sql/Jobs.antt =====
-- internal/storage/sqlite.go and internal/storage/postgres.go: statements on the table of periodic jobs.
use shoebox.Base.{ℕ, Bool, false, ◌||◌, List, [], ◌∷◌, ◌++◌, if◌then◌else◌, length}
use shoebox.Base.Text.{Str, str_eq}
use shoebox.Storage.{Result, ok, err}
use shoebox.Sql.{ScheduleRow, Db, key_taken}

module _ {T : Type 0} where
  unfoldable pub has_schedule : Str → List (ScheduleRow T) → Bool
  has_schedule id [] = false
  has_schedule id (s ∷ ss) = str_eq s.id id || has_schedule id ss

  unfoldable pub insert_schedule_row : ScheduleRow T → Db T → Result (Unit {0} × Db T)
  unfolding has_schedule
  insert_schedule_row s db =
      if has_schedule s.id db.schedules
      then err key_taken
      else ok (tt, record db { schedules = db.schedules ++ s ∷ [] })

  unfoldable pub where_jobs : (ScheduleRow T → Bool) → List (ScheduleRow T) → List (ScheduleRow T)
  where_jobs p [] = []
  where_jobs p (s ∷ ss) = let rest = where_jobs p ss in if p s then s ∷ rest else rest

  unfoldable pub update_jobs :
      (ScheduleRow T → Bool)
      → (ScheduleRow T → ScheduleRow T)
      → List (ScheduleRow T)
      → List (ScheduleRow T)
  update_jobs p f [] = []
  update_jobs p f (s ∷ ss) = let rest = update_jobs p f ss in if p s then f s ∷ rest else s ∷ rest

  unfoldable pub update_schedule_rows :
      (ScheduleRow T → Bool) → (ScheduleRow T → ScheduleRow T) → Db T → Result (ℕ × Db T)
  unfolding where_jobs update_jobs
  update_schedule_rows p f db =
      ok
        (length (where_jobs p db.schedules), record db { schedules = update_jobs p f db.schedules })
