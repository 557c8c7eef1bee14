-- ===== src/Jobs/Steps.antt =====
-- The steps of `JobService` that leave the jobs of the repository as they are.
use oneiroi.Prelude.{
  ◌≡◌, subst, sym, refl, ℕ, String, Bool, true, false, Option, none, some, string_eq, arith,
}
use oneiroi.Prelude.Dict.{Dict}
use oneiroi.Prelude.Effects.{
  Exec, pure, modify, ◌>>=◌, Keeps, Keeps-bind, Keeps-raise, Keeps-modify, Keeps-pure, Keeps-gets,
  keeps_rules,
}
use oneiroi.Failure.{Failure}
use oneiroi.Scheduler.{JobScheduler, SlotReservation}
use oneiroi.Studio.{StoredJob, JobAttemptRecord}
use oneiroi.Studio.Repository.{StudioRepository, add_event, add_attempt, update_attempt, get_job}
use oneiroi.Jobs.{
  JobService, Execution, World, in_repository, in_scheduler, event, end_attempt, ended_attempt,
  Ending, finish_attempt, InputPaths,
}
use oneiroi.Jobs.Dispatch.{after_dispatch, start_if}

add_event_jobs :
    (now : ℕ) (owner_id job_id event_type payload : String) (r : StudioRepository)
    → (add_event now owner_id job_id event_type payload r).1.jobs ≡ r.jobs
unfolding add_event get_job ◌>>=◌
add_event_jobs now owner_id job_id event_type payload r = ground arith

update_attempt_jobs :
    (item : JobAttemptRecord) (r : StudioRepository) → (update_attempt item r).1.jobs ≡ r.jobs
unfolding update_attempt ◌>>=◌
update_attempt_jobs item r = ground arith

-- What holds of the repository is kept by the scheduler, and by methods that keep it.
pub Keeps-in_scheduler :
    {A : Type 0} (P : StudioRepository → Type 0) (m : Exec Failure JobScheduler A)
    → Keeps (λ s. P s.repository) (in_scheduler m)
unfolding in_scheduler
Keeps-in_scheduler P m = record { after = λ s h. h }

pub Keeps-in_repository :
    {A : Type 0} (P : StudioRepository → Type 0) (m : Exec Failure StudioRepository A)
    → Keeps P m
    → Keeps (λ s. P s.repository) (in_repository m)
unfolding in_repository
Keeps-in_repository P m k = record { after = λ s h. k.after s.repository h }

-- What holds of the jobs is kept by every step that writes none.
module _ (P : Dict String StoredJob → Type 0) where
  abbrev pub Holds : JobService → Type 0
  Holds s = P s.repository.jobs

  pub event_jobs :
      (w : World) (job : StoredJob) (event_type : String) → Keeps Holds (event w job event_type)
  unfolding event in_repository ◌>>=◌
  event_jobs w job event_type = record {
    after = λ s h. ground (
      arith,
      h,
      add_event_jobs w.now job.owner_id job.response.id event_type (w.dump job.response)
          s.repository,
    );
  }

  pub attempt_jobs : (item : JobAttemptRecord) → Keeps Holds (in_repository (add_attempt item))
  unfolding in_repository add_attempt modify
  attempt_jobs item = record { after = λ s h. h }

  pub end_attempt_jobs :
      (found : Option JobAttemptRecord) (ending : Ending) (now : ℕ)
      → Keeps Holds (end_attempt found ending now)
  unfolding end_attempt in_repository pure
  end_attempt_jobs none ending now = record { after = λ s h. h }
  end_attempt_jobs (some item) ending now = record {
    after =
        λ s h. ground (arith, h, update_attempt_jobs (ended_attempt item ending now) s.repository);
  }

  pub finish_attempt_jobs :
      (w : World) (job : StoredJob) (ending : Ending) → Keeps Holds (finish_attempt w job ending)
  unfolding finish_attempt
  finish_attempt_jobs w job ending = search (keeps_rules, end_attempt_jobs) depth 8

  pub modify_jobs :
      (f : JobService → JobService)
      → ((s : JobService) → (f s).repository ≡ s.repository)
      → Keeps Holds (modify {E = Failure} f)
  modify_jobs f q = Keeps-modify f (λ s h. subst (λ r. P r.jobs) (sym (q s)) h)

  pub start_if_jobs : (runs : Bool) (execution : Execution) → Keeps Holds (start_if runs execution)
  start_if_jobs true execution = modify_jobs _ λ s. refl
  start_if_jobs false execution = Keeps-pure tt

  pub after_dispatch_jobs :
      (w : World) (job : StoredJob) (reservation : SlotReservation) (paths : InputPaths)
      (answer : Option Failure)
      → Keeps Holds (after_dispatch w job reservation paths answer)
  unfolding after_dispatch
  after_dispatch_jobs w job reservation paths none =
      Keeps-bind _ _ (Keeps-gets _) λ runs. start_if_jobs runs _
  after_dispatch_jobs w job reservation paths (some failure) =
      Keeps-bind _ _ (modify_jobs _ λ s. refl)
        λ u. Keeps-bind _ _ (Keeps-in_scheduler _ _) λ v. Keeps-raise failure
