-- ===== src/Queue/Periodic.antt =====
-- shoebox.go: the registration of periodic jobs.
use shoebox.Base.{
  ◌≡◌, ◌≢◌, refl, ap, true, false, not, List, [], ◌∷◌, ◌++◌, Option, none, some, arith, if_elim,
  un_not, ◌⊎◌, inl, inr, Bool-cases, Option-cases, is_nil,
}
use shoebox.Base.Int.{pos, ltb_ℤ}
use shoebox.Base.Text.{str_eq}
use shoebox.Storage.{Time, Schedule, schedule_exists, ok, err}
use shoebox.Memory.{Memory}
use shoebox.Memory.Periodic.{find_schedule, set_schedule, create_schedule, list_schedules}
use shoebox.Memory.Backend.{error_of}
use shoebox.Naming.{valid_queue_name}
use shoebox.Broker.{Broker}
use shoebox.Queue.{
  PeriodicJob, Failure, broker_error, failure_of, job_schedule, any_id, register_periodic,
}

-- A schedule that the schedule loop does not pass over, for a queue that users may write.
pub record Runnable (s : Schedule) : Type 0 where
  pub named : is_nil s.id ≡ false
  pub user_queue : valid_queue_name s.queue ≡ true
  pub advances : ltb_ℤ (pos 0) s.interval ≡ true

-- The two outcomes of a registration: the job is the one new schedule, under an identifier that was
-- free, or nothing has changed and an error is reported.
pub Outcome : Broker Memory → PeriodicJob → Time → Broker Memory × Option Failure → Type 0
Outcome b job now (b', failure) =
    ((failure ≡ none)
      × Runnable (job_schedule job now)
      × (find_schedule job.id b.store.schedules ≡ none)
      × (b'.store.schedules ≡ b.store.schedules ++ job_schedule job now ∷ []))
    ⊎ ((failure ≢ none) × (b' ≡ b))

set_schedule_absent :
    (s : Schedule) (ss : List Schedule)
    → find_schedule s.id ss ≡ none
    → set_schedule s ss ≡ ss ++ s ∷ []
unfolding find_schedule set_schedule
set_schedule_absent s [] h = refl
set_schedule_absent s (t ∷ ts) h = elim (Bool-cases (str_eq t.id s.id)) [
  | inl e ↦ let found : some t ≡ none = rw e at h in cc
  | inr e ↦
      let later : find_schedule s.id ts ≡ none = rw e at h in
      rw e (ap (λ l. t ∷ l) (set_schedule_absent s ts later))
]

create_schedule_taken :
    (m : Memory) (s t : Schedule)
    → find_schedule s.id m.schedules ≡ some t
    → create_schedule m s ≡ (m, err schedule_exists)
unfolding create_schedule
create_schedule_taken m s t e = rw (e, create_schedule) refl

create_schedule_free :
    (m : Memory) (s : Schedule)
    → find_schedule s.id m.schedules ≡ none
    → create_schedule m s ≡ (record m { schedules = set_schedule s m.schedules }, ok tt)
unfolding create_schedule
create_schedule_free m s e = rw (e, create_schedule) refl

rejected :
    (b : Broker Memory) (job : PeriodicJob) (now : Time) (f : Failure)
    → Outcome b job now (b, some f)
unfolding Outcome
rejected b job now f = inr (ground arith, refl)

Outcome-create :
    (b : Broker Memory) (job : PeriodicJob) (now : Time)
    → Runnable (job_schedule job now)
    → let r = create_schedule b.store (job_schedule job now) in
      Outcome b job now (record b { store = r.0 }, failure_of (error_of r.1))
unfolding Outcome job_schedule
Outcome-create b job now ok_job = elim (Option-cases (find_schedule job.id b.store.schedules)) [
  | inr (t, e) ↦
      rw (create_schedule_taken b.store (job_schedule job now) t e)
        (rejected b job now (broker_error schedule_exists))
  | inl e ↦
      rw (create_schedule_free b.store (job_schedule job now) e)
        (inl (refl, ok_job, e, set_schedule_absent (job_schedule job now) b.store.schedules e))
]

-- Whatever job is registered, and in whatever order the schedules are walked: either no error is
-- reported and the job is stored as the one new schedule, behind the others, with a name, a valid
-- queue, a positive interval and an identifier that was free; or an error is reported and the broker
-- is as it was.
register_periodic-Outcome :
    (b : Broker Memory) (walk : List Schedule) (job : PeriodicJob) (now : Time)
    → Outcome b job now (register_periodic b walk job now)
unfolding register_periodic
register_periodic-Outcome b walk job now =
    if_elim (Outcome b job now) (is_nil job.id) _ _ (λ n. rejected b job now _)
      λ n.
        if_elim (Outcome b job now) (not (valid_queue_name job.queue)) _ _
          (λ v. rejected b job now _)
          λ v.
            if_elim (Outcome b job now) (not (ltb_ℤ (pos 0) job.every)) _ _
              (λ p. rejected b job now _)
              λ p.
                if_elim (Outcome b job now) (any_id job.id (list_schedules walk [])) _ _
                  (λ t. rejected b job now _) λ t. Outcome-create b job now (runnable n v p)
  where
    runnable :
        is_nil job.id ≡ false
        → not (valid_queue_name job.queue) ≡ false
        → not (ltb_ℤ (pos 0) job.every) ≡ false
        → Runnable (job_schedule job now)
    runnable n v p =
        unfold job_schedule in record { named = n; user_queue = un_not _ v; advances = un_not _ p }
