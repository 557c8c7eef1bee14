-- ===== src/Jobs/Retrying.antt =====
-- `JobService.retry`: which jobs it takes, and the order of its writes.
use oneiroi.Prelude.{◌≡◌, ◌+◌, String, true, false, none, some, string_eq, arith, length}
use oneiroi.Prelude.Dict.{get, get-put_self}
use oneiroi.Prelude.Effects.{err, ◌>>=◌}
use oneiroi.Failure.{value_error, key_error}
use oneiroi.Studio.{StoredJob}
use oneiroi.Studio.Repository.{get_job, update_job, add_event, get_asset, list_attempts}
use oneiroi.Jobs.{
  World, JobService, in_repository, event, write, input_path, input_paths_from_draft,
}
use oneiroi.Jobs.Requests.{retry, is_retryable, requeued}
use oneiroi.Jobs.Cancelling.{IsStored}

-- Only a job that failed or was cancelled is run again: for another one the call raises
-- JOB_NOT_RETRYABLE and changes nothing.
pub retry_refused :
    (w : World) (job : StoredJob) (s : JobService)
    → IsStored job s
    → is_retryable job.response.stage ≡ false
    → retry w job.owner_id job.response.id s ≡ (err (value_error "JOB_NOT_RETRYABLE"), s)
unfolding retry in_repository get_job ◌>>=◌
retry_refused w job s h e = ground (arith, h, e, string_eq.beq_iff job.owner_id job.owner_id)

abbrev pub again : World → StoredJob → JobService → StoredJob
again w job s = requeued job (length (list_attempts job.response.id s.repository) + 1) w.now

-- The first frame of the draft is an asset that is gone.
abbrev pub LacksFrame : StoredJob → String → JobService → Type 0
LacksFrame job asset_id s =
    (job.response.draft.first_frame_asset_id ≡ some asset_id)
    × (get asset_id s.repository.assets ≡ none)

-- If the first frame of a stored job that failed or was cancelled is gone, a retry raises the error
-- of the lookup after it stored the job with the stage QUEUED and a new attempt number; no task was
-- started for it, and the tasks, the reservations and the scheduler are as before.
pub retry_stranded :
    (w : World) (job : StoredJob) (asset_id : String) (s : JobService)
    → IsStored job s
    → is_retryable job.response.stage ≡ true
    → LacksFrame job asset_id s
    → let r = retry w job.owner_id job.response.id s in
      (r.0 ≡ err (key_error asset_id))
      × IsStored (again w job s) r.1
      × (r.1.tasks ≡ s.tasks)
      × (r.1.reservations ≡ s.reservations)
      × (r.1.scheduler ≡ s.scheduler)
unfolding retry in_repository get_job write event update_job add_event input_paths_from_draft
    input_path get_asset ◌>>=◌
retry_stranded w job asset_id s h e l = ground (
  arith,
  h,
  e,
  l,
  string_eq.beq_iff job.owner_id job.owner_id,
  get-put_self job.response.id (again w job s) s.repository.jobs,
)
