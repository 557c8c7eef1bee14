-- ===== src/Jobs/Endings.antt =====
-- The end of a task gives back what the job held.
use oneiroi.Prelude.{
  ◌≡◌, refl, ◌∙◌, ℕ, String, Bool, true, false, not, ◌&&◌, Option, none, some, ◌==◌, string_eq,
  arith, elem, if◌then◌else◌,
}
use oneiroi.Prelude.Dict.{pop}
use oneiroi.Prelude.Effects.{Exec, Result, ok, err, pure, ◌>>=◌, Keeps, Keeps-pure, keeps_rules}
use oneiroi.Failure.{Failure}
use oneiroi.Scheduler.Slots.{IsKeyed, slot_in, made_ready, slot_in-release, elem-release}
use oneiroi.Studio.{StoredJob, JobStatus, JobAttemptRecord}
use oneiroi.Studio.Repository.{StudioRepository}
use oneiroi.Jobs.{
  World, JobService, Execution, Ending, in_repository, in_scheduler, event, write, update,
  end_attempt, finish_attempt,
}
use oneiroi.Jobs.Tasks.{
  Registration, Outcome, returned, raised, cancelled, JobExecutionResult, succeed, fail,
  write_cancelled, end_cancelled, on_failure, settle, give_back, give_back_if, end_execution,
  without_task,
}

-- The state beside the repository.
abbrev pub SameRest : JobService → JobService → Type 0
SameRest s t =
    (t.reservations ≡ s.reservations)
    × (t.tasks ≡ s.tasks)
    × (t.shutting_down ≡ s.shutting_down)
    × (t.scheduler ≡ s.scheduler)

module _ (s0 : JobService) where
  abbrev pub Same : JobService → Type 0
  Same t = SameRest s0 t

  in_repository-Same :
      {A : Type 0} (m : Exec Failure StudioRepository A) → Keeps Same (in_repository m)
  unfolding in_repository
  in_repository-Same m = record { after = λ s h. h }

  end_attempt-Same :
      (found : Option JobAttemptRecord) (ending : Ending) (now : ℕ)
      → Keeps Same (end_attempt found ending now)
  unfolding end_attempt
  end_attempt-Same none ending now = Keeps-pure tt
  end_attempt-Same (some item) ending now = in_repository-Same _

  pub finish_attempt-Same :
      (w : World) (job : StoredJob) (ending : Ending) → Keeps Same (finish_attempt w job ending)
  unfolding finish_attempt
  finish_attempt-Same w job ending = search (keeps_rules, end_attempt-Same) depth 8

  pub write-Same : (job : StoredJob) → Keeps Same (write job)
  unfolding write
  write-Same job = search (keeps_rules, in_repository-Same) depth 8

  pub event-Same :
      (w : World) (job : StoredJob) (event_type : String) → Keeps Same (event w job event_type)
  unfolding event
  event-Same w job event_type = search (keeps_rules, in_repository-Same) depth 8

  update-Same :
      (w : World) (job : StoredJob) (stage : JobStatus) (progress : ℕ)
      → Keeps Same (update w job stage progress)
  unfolding update
  update-Same w job stage progress = search (keeps_rules, write-Same) depth 8

  ruleset same_rules =
      (keeps_rules, in_repository-Same, write-Same, event-Same, update-Same, finish_attempt-Same)

  fail-Same : (w : World) (job : StoredJob) (exc : Failure) → Keeps Same (fail w job exc)
  unfolding fail
  fail-Same w job exc = search same_rules depth 12

  succeed-Same :
      (w : World) (register : Registration) (job : StoredJob) (result : JobExecutionResult)
      → Keeps Same (succeed w register job result)
  unfolding succeed
  succeed-Same w register job result = search same_rules depth 14

  write_cancelled-Same :
      (closing : Bool) (w : World) (job : StoredJob) → Keeps Same (write_cancelled closing w job)
  unfolding write_cancelled
  write_cancelled-Same true w job = Keeps-pure tt
  write_cancelled-Same false w job = search same_rules depth 14

  settle-Same :
      (w : World) (register : Registration) (job : StoredJob) (outcome : Outcome)
      → Keeps Same (settle w register job outcome)
  unfolding settle end_cancelled pure
  settle-Same w register job (returned result) = record {
    after = λ s h.
        go (succeed w register job result s).0 (succeed w register job result s).1
          ((succeed-Same w register job result).after s h);
  }
    where
      go : (r : Result Failure Unit) (s : JobService) → Same s → Same (on_failure w job r s).1
      go (ok u) s h = h
      go (err exc) s h = (fail-Same w job exc).after s h
  settle-Same w register job (raised exc) = record {
    after = λ s h. (fail-Same w job exc).after s h;
  }
  settle-Same w register job cancelled = record {
    after = λ s h. (write_cancelled-Same s.shutting_down w job).after s h;
  }

-- What the task held is given back.
abbrev pub IsGivenBack : Execution → JobService → JobService → Type 0
IsGivenBack execution s t =
    let r = execution.reservation in
    (t.reservations ≡ pop execution.job_id s.reservations)
    × ((j : String)
        → elem j t.scheduler.busy_slots ≡ (elem j s.scheduler.busy_slots && not (r.slot_id == j)))
    × ((session_id j : String)
        → slot_in session_id j t.scheduler ≡ (
            if r.session_id == session_id && r.slot_id == j
            then made_ready (slot_in session_id j s.scheduler)
            else slot_in session_id j s.scheduler))
    × (t.tasks ≡ without_task execution s.tasks)

give_back-IsGivenBack :
    (w : World) (execution : Execution) (s t : JobService)
    → IsKeyed execution.reservation.session_id s.scheduler
    → t.shutting_down ≡ false
    → SameRest s t
    → IsGivenBack execution s (record (give_back w execution t).1 {
      tasks = without_task execution (give_back w execution t).1.tasks;
    })
unfolding give_back give_back_if in_scheduler ◌>>=◌
give_back-IsGivenBack w execution s t k o h = (
  ground (arith, o, h.0),
  λ j. ground (arith, o, h.3, elem-release w.clock execution.reservation j t.scheduler),
  λ session_id j.
      ground
        (arith, o, h.3, slot_in-release w.clock execution.reservation session_id j s.scheduler k),
  ground (arith, o, h.1),
)

-- Let the service have no shutdown, and let the session of the task's reservation be stored under
-- its own identifier, if it is stored. However the executor ended, and whatever the writes of its
-- end raised, the end of the task removes the reservation of its job and no other, takes its slot
-- and no other out of the busy ones, makes this slot READY if it was BUSY and leaves every other
-- slot as it was, and discards the task.
pub end_execution-IsGivenBack :
    (w : World) (register : Registration) (job : StoredJob) (execution : Execution)
    (outcome : Outcome) (s : JobService)
    → s.shutting_down ≡ false
    → IsKeyed execution.reservation.session_id s.scheduler
    → IsGivenBack execution s (end_execution w register job execution outcome s).1
unfolding end_execution
end_execution-IsGivenBack w register job execution outcome s o k =
    give_back-IsGivenBack w execution s t k (h.2 ∙ o) h
  where
    t : JobService
    t = (settle w register job outcome s).1

    h : SameRest s t
    h = (settle-Same s w register job outcome).after s (refl, refl, refl, refl)
