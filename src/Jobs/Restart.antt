-- ===== src/Jobs/Restart.antt =====
-- `JobService.restore_inflight`: after a restart, the jobs that had not ended run again.
use oneiroi.Prelude.{String, Bool, true, false, List, [], ◌∷◌, ◌++◌, ◌==◌, string_eq, find}
use oneiroi.Prelude.Effects.{pure, require, gets, recover, ◌>>=◌, ◌>>◌}
use oneiroi.Failure.{runtime_error}
use oneiroi.Compute.{ComputeSlot}
use oneiroi.Sessions.{get_session, fencing_token}
use oneiroi.Scheduler.{SlotReservation, restore, within}
use oneiroi.Studio.{JobStatus, StoredJob, cancel_requested}
use oneiroi.Studio.Repository.{list_incomplete_jobs}
use oneiroi.Jobs.{Action, World, in_scheduler, input_paths_from_draft}
use oneiroi.Jobs.Dispatch.{hold, start_task, mark_dispatch_failed}
use oneiroi.Jobs.Requests.{add_cancel}

abbrev pub is_cancel_requested : JobStatus → Bool
is_cancel_requested cancel_requested = true
is_cancel_requested _ = false

abbrev pub again_if : Bool → String → Action Unit
again_if true job_id = add_cancel job_id
again_if false job_id = pure tt

-- `next(...)` without a default raises `StopIteration`, whose text is empty
unfoldable pub restore_job : StoredJob → Action Unit
restore_job stored = do
  session ← in_scheduler (within (get_session stored.owner_id stored.response.compute_session_id))
  gpu ← require stored.response.gpu (runtime_error "JOB_HAS_NO_GPU_ASSIGNMENT")
  slot ←
      require (find (λ (item : ComputeSlot). item.gpu_id == gpu.id) session.slots)
        (runtime_error "")
  token ← in_scheduler (within (fencing_token slot.id))
  let reservation : SlotReservation = record {
    session_id = session.id;
    slot_id = slot.id;
    gpu_id = slot.gpu_id;
    physical_index = slot.physical_index;
    profile = stored.response.draft.profile;
    fencing_token = token;
  }
  in_scheduler (restore reservation)
  hold stored.response.id reservation
  again_if (is_cancel_requested stored.response.stage) stored.response.id
  input_paths ← input_paths_from_draft stored.owner_id stored.response.draft
  start_task
      (record { job_id = stored.response.id; reservation = reservation; input_paths = input_paths })

-- a job that cannot be restored is failed, and the others go on
unfoldable pub restore_or_fail : World → StoredJob → Action (List String)
unfolding restore_job
restore_or_fail w stored =
    recover (do restore_job stored; pure (stored.response.id ∷ []))
      (λ exc. do mark_dispatch_failed w stored exc; pure [])

unfoldable pub restore_jobs : World → List StoredJob → Action (List String)
unfolding restore_or_fail
restore_jobs w [] = pure []
restore_jobs w (stored ∷ rest) = do
  first ← restore_or_fail w stored
  others ← restore_jobs w rest
  pure (first ++ others)

abbrev restore_if : Bool → World → Action (List String)
restore_if false w = pure []
restore_if true w = do jobs ← gets (λ s. list_incomplete_jobs s.repository); restore_jobs w jobs

unfoldable pub restore_inflight : World → Action (List String)
unfolding restore_jobs
restore_inflight w = do runs ← gets (λ s. s.has_executor); restore_if runs w
