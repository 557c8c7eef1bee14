-- ===== src/Jobs/Requests.antt =====
-- `JobService.create`, `cancel`, `retry`, `list` and `get`.
use Prim.Native.String.{◌++◌ as str_append}
use oneiroi.Prelude.{
  ℕ, ◌+◌, String, Bool, true, false, not, ◌&&◌, Option, none, some, List, ◌∷◌, ◌==◌, string_eq,
  nat_eq, elem, filter, length, decimal, ltb, leb, if◌then◌else◌,
}
use oneiroi.Prelude.Dict.{get}
use oneiroi.Prelude.Effects.{pure, raise_if, lift, gets, modify, ◌>>=◌, ◌>>◌}
use oneiroi.Failure.{Failure, ErrorCode, oneiroi_error, value_error}
use oneiroi.Compute.{ProfileTier, fast, hq}
use oneiroi.Compute.Capabilities.{require_profile, fast_profile_id, hq_profile_id}
use oneiroi.Sessions.{get_session}
use oneiroi.Scheduler.{SlotReservation, release, within}
use oneiroi.Studio.{
  JobResponse, JobStatus, StoredJob, GenerationDraft, is_terminal, queued, assigned, failed,
  cancelled,
}
use oneiroi.Studio.Repository.{
  get_conversation, count_active_jobs, create_job, get_job, list_jobs, list_attempts,
}
use oneiroi.Jobs.{
  Action, World, JobService, in_repository, in_scheduler, event, write, update, finish_attempt,
  plain_ending, current, input_paths_from_draft,
}
use oneiroi.Jobs.Dispatch.{dispatch_or_fail, let_go}

pub record JobCreate : Type 0 where
  pub conversation_id : String
  pub compute_session_id : String
  pub draft : GenerationDraft

abbrev pub profile_id_of : ProfileTier → String
profile_id_of hq = hq_profile_id
profile_id_of fast = fast_profile_id

abbrev pub queued_job : World → String → JobCreate → StoredJob
queued_job w owner_id payload = record {
  owner_id = owner_id;
  response = record {
    id = w.job_id;
    conversation_id = payload.conversation_id;
    compute_session_id = payload.compute_session_id;
    created_at = w.now;
    updated_at = w.now;
    stage = JobStatus.queued;
    progress = 10;
    draft = payload.draft;
    queue_position = none;
    profile_id = some (profile_id_of payload.draft.profile);
    gpu = none;
    attempt = 1;
    warm_start = none;
    phase = none;
    current_step = none;
    total_steps = none;
    output = none;
    failure = none;
  };
  manifest_path = none;
  output_path = none;
}

abbrev pub busy_failure : Failure
busy_failure = oneiroi_error ErrorCode.conversation_busy "当前会话已有任务在生成，请等待完成后重试"

abbrev pub limit_failure : ℕ → Failure
limit_failure limit =
    oneiroi_error ErrorCode.concurrency_limit
      (str_append "账户并发任务已达上限（" (str_append (decimal limit) " 个），请等待任一任务完成后重试"))

-- the two limits on active jobs
unfoldable pub check_limits : String → String → Action Unit
check_limits owner_id conversation_id = do
  in_conversation ← gets (λ s. count_active_jobs owner_id (some conversation_id) s.repository)
  raise_if (ltb 0 in_conversation) busy_failure
  active_total ← gets (λ s. count_active_jobs owner_id none s.repository)
  limit ← gets (λ s. s.max_active_per_owner)
  raise_if (leb limit active_total) (limit_failure limit)

-- everything that is checked before the job exists
unfoldable pub admit : String → JobCreate → Action (Option String × Option String)
unfolding check_limits
admit owner_id payload = do
  in_repository (get_conversation owner_id payload.conversation_id)
  check_limits owner_id payload.conversation_id
  session ← in_scheduler (within (get_session owner_id payload.compute_session_id))
  capabilities ← gets (λ s. s.capabilities)
  lift (require_profile capabilities session payload.draft.profile)
  input_paths_from_draft owner_id payload.draft

unfoldable pub create : World → String → JobCreate → Action JobResponse
unfolding admit
create w owner_id payload = do
  input_paths ← admit owner_id payload
  let stored = queued_job w owner_id payload
  in_repository (create_job stored)
  event w stored "job.queued"
  dispatch_or_fail w stored input_paths
  created ← gets (current stored)
  pure created.response

abbrev pub is_immediate : JobStatus → Bool
is_immediate queued = true
is_immediate assigned = true
is_immediate _ = false

unfoldable pub release_held : World → Option SlotReservation → Action Unit
release_held w none = pure tt
release_held w (some reservation) = in_scheduler (release w.clock reservation)

unfoldable pub cancel_now : World → StoredJob → Action Unit
unfolding release_held
cancel_now w stored = do
  updated ← update w stored JobStatus.cancelled stored.response.progress
  event w updated "job.cancelled"
  finish_attempt w updated (plain_ending "cancelled" none)
  held ← gets (λ s. get stored.response.id s.reservations)
  let_go stored.response.id
  release_held w held

unfoldable pub request_cancel : World → StoredJob → Action Unit
request_cancel w stored = do
  updated ← update w stored JobStatus.cancel_requested stored.response.progress
  event w updated "job.cancel_requested"

abbrev cancel_by : Bool → World → StoredJob → Action Unit
cancel_by true w stored = cancel_now w stored
cancel_by false w stored = request_cancel w stored

abbrev pub add_cancel : String → Action Unit
add_cancel job_id = modify λ s. record s {
  cancel_requested =
      if elem job_id s.cancel_requested then s.cancel_requested else job_id ∷ s.cancel_requested;
}

-- a job that has ended is returned as it is
unfoldable pub cancel_open : World → StoredJob → Bool → Action JobResponse
unfolding cancel_now request_cancel
cancel_open w stored true = pure stored.response
cancel_open w stored false = do
  add_cancel stored.response.id
  runs ← gets (λ s. s.has_executor)
  cancel_by (is_immediate stored.response.stage && not runs) w stored
  ended ← gets (current stored)
  pure ended.response

unfoldable pub cancel : World → String → String → Action JobResponse
unfolding cancel_open
cancel w owner_id job_id = do
  stored ← in_repository (get_job owner_id job_id)
  cancel_open w stored (is_terminal stored.response.stage)

abbrev pub is_retryable : JobStatus → Bool
is_retryable failed = true
is_retryable cancelled = true
is_retryable _ = false

abbrev pub requeued : StoredJob → ℕ → ℕ → StoredJob
requeued stored attempt now = record stored {
  response = record stored.response {
    stage = JobStatus.queued;
    progress = 10;
    attempt = attempt;
    updated_at = now;
    failure = none;
    output = none;
    gpu = none;
  };
  output_path = none;
  manifest_path = none;
}

unfoldable pub retry : World → String → String → Action JobResponse
retry w owner_id job_id = do
  stored ← in_repository (get_job owner_id job_id)
  raise_if (not (is_retryable stored.response.stage)) (value_error "JOB_NOT_RETRYABLE")
  attempts ← gets (λ s. list_attempts job_id s.repository)
  modify (λ s. record s { cancel_requested = filter (λ id. not (id == job_id)) s.cancel_requested })
  let again = requeued stored (length attempts + 1) w.now
  write again
  event w again "job.retry_queued"
  input_paths ← input_paths_from_draft owner_id again.response.draft
  dispatch_or_fail w again input_paths
  ended ← gets (current again)
  pure ended.response

unfoldable pub list : String → JobService → List JobResponse
list owner_id s = list_jobs owner_id s.repository
