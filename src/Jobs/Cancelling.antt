-- ===== src/Jobs/Cancelling.antt =====
-- `JobService.cancel` and `retry`: which jobs they take, and what they change.
use oneiroi.Prelude.{◌≡◌, refl, ap, ◌∙◌, ℕ, String, true, false, some, ◌==◌, string_eq, arith, elem}
use oneiroi.Prelude.Dict.{get, put, get-put, get-put_self}
use oneiroi.Prelude.Effects.{ok, ◌>>=◌}
use oneiroi.Studio.{StoredJob, JobStatus, is_terminal}
use oneiroi.Studio.Repository.{get_job, update_job, add_event}
use oneiroi.Jobs.{World, JobService, in_repository, event, write, update, staged}
use oneiroi.Jobs.Requests.{cancel, cancel_open, request_cancel}
use oneiroi.Jobs.Tasks.{Details, execution_event, reported}

-- A stored job of the owner.
abbrev pub IsStored : StoredJob → JobService → Type 0
IsStored job s = get job.response.id s.repository.jobs ≡ some job

-- A job that has ended is returned as it is, and nothing changes.
pub cancel_ended :
    (w : World) (job : StoredJob) (s : JobService)
    → IsStored job s
    → is_terminal job.response.stage ≡ true
    → cancel w job.owner_id job.response.id s ≡ (ok job.response, s)
unfolding cancel cancel_open in_repository get_job ◌>>=◌
cancel_ended w job s h e = ground (arith, h, e, string_eq.beq_iff job.owner_id job.owner_id)

abbrev pub IsRequested : StoredJob → StoredJob → JobService → JobService → Type 0
IsRequested job asked s t =
    IsStored asked t
    × (elem job.response.id t.cancel_requested ≡ true)
    × (t.reservations ≡ s.reservations)
    × (t.scheduler ≡ s.scheduler)
    × ((j : String)
        → (job.response.id == j) ≡ false
        → get j t.repository.jobs ≡ get j s.repository.jobs)

abbrev pub asked : World → StoredJob → StoredJob
asked w job = staged job JobStatus.cancel_requested job.response.progress w.now

pub cancel_running :
    (w : World) (job : StoredJob) (s : JobService)
    → IsStored job s
    → is_terminal job.response.stage ≡ false
    → s.has_executor ≡ true
    → ((cancel w job.owner_id job.response.id s).0 ≡ ok (asked w job).response)
      × IsRequested job (asked w job) s (cancel w job.owner_id job.response.id s).1
unfolding cancel cancel_open request_cancel update write event in_repository get_job update_job
    add_event ◌>>=◌
cancel_running w job s h e x = (
  run.0,
  (
    run.1,
    run.2,
    run.3,
    run.4,
    λ j n. ground (
      arith,
      h,
      e,
      x,
      own,
      put_self,
      n,
      get-put job.response.id j (asked w job) s.repository.jobs,
    ),
  ),
)
  where
    own : (job.owner_id == job.owner_id) ≡ true
    own = (string_eq.beq_iff job.owner_id job.owner_id).1 refl

    put_self :
        get job.response.id (put job.response.id (asked w job) s.repository.jobs)
        ≡ some (asked w job)
    put_self = get-put_self job.response.id (asked w job) s.repository.jobs

    t : JobService
    t = (cancel w job.owner_id job.response.id s).1

    run :
        ((cancel w job.owner_id job.response.id s).0 ≡ ok (asked w job).response)
        × IsStored (asked w job) t
        × (elem job.response.id t.cancel_requested ≡ true)
        × (t.reservations ≡ s.reservations)
        × (t.scheduler ≡ s.scheduler)
    run = ground (arith, h, e, x, own, put_self, string_eq.beq_iff job.response.id job.response.id)

-- a report reaches the stored object, whatever the task holds
reported_lem :
    (v : World) (job : StoredJob) (s : JobService) (phase : String) (progress : ℕ)
    (details : Details) (found : StoredJob)
    → get job.response.id s.repository.jobs ≡ some found
    → found.response.id ≡ job.response.id
    → let t = (execution_event v job phase progress details s).1 in
      (get job.response.id t.repository.jobs ≡ some (reported found phase progress details v.now))
      × (t.cancel_requested ≡ s.cancel_requested)
unfolding execution_event write event in_repository get_job update_job add_event ◌>>=◌
reported_lem v job s phase progress details found h q = ground (
  arith,
  h,
  q,
  get-put_self job.response.id (reported found phase progress details v.now) s.repository.jobs,
)

-- While an executor runs, let a stored job that has not ended be cancelled, and a progress report
-- follow: the job is then stored with the stage of the reported phase in place of CANCEL_REQUESTED,
-- and the request stays recorded in memory.
pub cancel-reported :
    (w v : World) (job : StoredJob) (s : JobService) (phase : String) (progress : ℕ)
    (details : Details)
    → IsStored job s
    → is_terminal job.response.stage ≡ false
    → s.has_executor ≡ true
    → let t =
        (execution_event v job phase progress details
          (cancel w job.owner_id job.response.id s).1).1 in
      IsStored (reported (asked w job) phase progress details v.now) t
      × (elem job.response.id t.cancel_requested ≡ true)
cancel-reported w v job s phase progress details h e x =
    (r.0, ap (elem job.response.id) r.1 ∙ asked_lem.1.1)
  where
    asked_lem :
        ((cancel w job.owner_id job.response.id s).0 ≡ ok (asked w job).response)
        × IsRequested job (asked w job) s (cancel w job.owner_id job.response.id s).1
    asked_lem = cancel_running w job s h e x

    t : JobService
    t = (cancel w job.owner_id job.response.id s).1

    r :
        (get job.response.id (execution_event v job phase progress details t).1.repository.jobs
          ≡ some (reported (asked w job) phase progress details v.now))
        × ((execution_event v job phase progress details t).1.cancel_requested ≡ t.cancel_requested)
    r = reported_lem v job t phase progress details (asked w job) asked_lem.1.0 refl
