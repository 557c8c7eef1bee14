-- ===== src/Jobs/Tasks.antt =====
-- `JobService._execute`: what the task of a job does when the executor reports progress, returns,
-- raises, or is cancelled. The executor itself and the artifact store are outside.
use Prim.Native.String
use oneiroi.Prelude.{
  ℕ, String, Bool, true, false, not, ◌&&◌, Option, none, some, List, [], ◌∷◌, ◌==◌, string_eq,
  or_else, truthy, if◌then◌else◌,
}
use oneiroi.Prelude.Dict.{Dict, get}
use oneiroi.Prelude.Effects.{Exec, Result, ok, err, pure, gets, modify, ◌>>=◌, ◌>>◌}
use oneiroi.Failure.{Failure}
use oneiroi.Scheduler.{release}
use oneiroi.Studio.{JobStatus, StoredJob, AssetResponse}
use oneiroi.Studio.Repository.{StudioRepository}
use oneiroi.Jobs.{
  Action, World, Execution, Ending, in_repository, in_scheduler, event, write, update,
  finish_attempt, plain_ending, current, message_of,
}
use oneiroi.Jobs.Dispatch.{let_go}

-- the stage that a phase of the executor stands for
abbrev pub stages : Dict String JobStatus
stages =
    ("preparing", JobStatus.preparing)
    ∷ ("model-loading", JobStatus.loading_model)
    ∷ ("prompt_encoding", JobStatus.preparing)
    ∷ ("prompt-encoding", JobStatus.preparing)
    ∷ ("conditioning", JobStatus.preparing)
    ∷ ("diffusion", JobStatus.generating)
    ∷ ("stage-1", JobStatus.generating)
    ∷ ("upsampling", JobStatus.generating)
    ∷ ("stage-2", JobStatus.generating)
    ∷ ("decoding", JobStatus.encoding)
    ∷ ("encoding", JobStatus.encoding)
    ∷ ("uploading", JobStatus.encoding)
    ∷ []

unfoldable pub stage_of : String → JobStatus
stage_of phase = or_else (get phase stages) JobStatus.generating

pub record Details : Type 0 where
  pub current_step : Option ℕ
  pub total_steps : Option ℕ

abbrev pub reported : StoredJob → String → ℕ → Details → ℕ → StoredJob
reported stored phase progress details now = record stored {
  response = record stored.response {
    stage = stage_of phase;
    phase = some phase;
    progress = progress;
    current_step = details.current_step;
    total_steps = details.total_steps;
    updated_at = now;
  };
}

-- `_execution_event`
unfoldable pub execution_event : World → StoredJob → String → ℕ → Details → Action Unit
execution_event w job phase progress details = do
  stored ← gets (current job)
  let updated = reported stored phase progress details w.now
  write updated
  event w updated "job.updated"

-- `JobExecutionResult`, with the metrics that `_succeed` reads
pub record JobExecutionResult : Type 0 where
  pub output_path : String
  pub manifest_path : String
  pub warm_start : Bool
  pub worker_pid : Option ℕ
  pub peak_vram_mib : Option ℕ
  pub elapsed_seconds : Option String

abbrev pub file_url : String → String
file_url id = String.◌++◌ (String.◌++◌ "/v1/jobs/" id) "/file"

abbrev pub manifest_url : String → String
manifest_url id = String.◌++◌ (String.◌++◌ "/v1/jobs/" id) "/manifest"

abbrev pub succeeded_job : StoredJob → JobExecutionResult → AssetResponse → ℕ → StoredJob
succeeded_job stored result asset now = record stored {
  output_path = some result.output_path;
  manifest_path = some result.manifest_path;
  response = record stored.response {
    stage = JobStatus.succeeded;
    progress = 100;
    phase = some "completed";
    updated_at = now;
    warm_start = some result.warm_start;
    output = some (record {
      asset_id = asset.id;
      file_url = file_url stored.response.id;
      manifest_url = manifest_url stored.response.id;
      media_type = "video/mp4";
      size_bytes = asset.size_bytes;
    });
    failure = none;
  };
}

abbrev pub success_ending : JobExecutionResult → Ending
success_ending result = record {
  status = "succeeded";
  error_code = none;
  warm_start = some result.warm_start;
  worker_pid = result.worker_pid;
  peak_vram_mib = result.peak_vram_mib;
  generation_seconds = result.elapsed_seconds;
}

-- What `register_video` does: the asset that it made in the repository, or an exception.
abbrev pub Registration : Type 0
Registration = String → String → String → Exec Failure StudioRepository AssetResponse

-- `_succeed`
unfoldable pub succeed : World → Registration → StoredJob → JobExecutionResult → Action Unit
succeed w register job result = do
  asset ← in_repository (register job.owner_id job.response.id result.output_path)
  stored ← gets (current job)
  let updated = succeeded_job stored result asset w.now
  write updated
  event w updated "job.succeeded"
  finish_attempt w updated (success_ending result)

-- `str(exc).split(":", 1)[0]`
unfoldable pub before_colon : String → String
before_colon String.[] = String.[]
before_colon (String.◌∷◌ c s) =
    let rest = before_colon s in
    if String.◌∷◌ c String.[] == ":" then String.[] else String.◌∷◌ c rest

-- `... or "INFERENCE_FAILED"`
unfoldable pub error_code_of : String → String
unfolding before_colon
error_code_of message = or_else (truthy (some (before_colon message))) "INFERENCE_FAILED"

abbrev pub failed_job : StoredJob → String → ℕ → StoredJob
failed_job stored message now = record stored {
  response = record stored.response {
    stage = JobStatus.failed;
    updated_at = now;
    failure = some (record { code = error_code_of message; message = message; retryable = true });
  };
}

-- `except Exception as exc`
unfoldable pub fail : World → StoredJob → Failure → Action Unit
fail w job exc = do
  stored ← gets (current job)
  let updated = failed_job stored (message_of exc) w.now
  write updated
  event w updated "job.failed"
  finish_attempt w updated (plain_ending "failed" (some (error_code_of (message_of exc))))

-- `except asyncio.CancelledError`: a shutdown leaves the job as it is, for the restart
unfoldable pub write_cancelled : Bool → World → StoredJob → Action Unit
write_cancelled true w job = pure tt
write_cancelled false w job = do
  stored ← gets (current job)
  updated ← update w stored JobStatus.cancelled stored.response.progress
  event w updated "job.cancelled"
  finish_attempt w updated (plain_ending "cancelled" none)

unfoldable pub end_cancelled : World → StoredJob → Action Unit
unfolding write_cancelled
end_cancelled w job s = write_cancelled s.shutting_down w job s

-- How the executor ends.
pub data Outcome : Type 0 where
  returned : JobExecutionResult → Outcome
  raised : Failure → Outcome
  cancelled : Outcome

abbrev pub on_failure : World → StoredJob → Result Failure Unit → Action Unit
on_failure w job (ok u) = pure tt
on_failure w job (err exc) = fail w job exc

-- an exception of `_succeed` is handled like one of the executor
unfoldable pub settle : World → Registration → StoredJob → Outcome → Action Unit
unfolding succeed fail end_cancelled
settle w register job (returned result) s =
    let r = succeed w register job result s in on_failure w job r.0 r.1
settle w register job (raised exc) s = fail w job exc s
settle w register job cancelled s = end_cancelled w job s

-- Whether it is this task: it has this job and this reservation.
abbrev pub is_task : Execution → Execution → Bool
is_task execution e =
    e.job_id == execution.job_id
    && e.reservation.session_id == execution.reservation.session_id
    && e.reservation.slot_id == execution.reservation.slot_id
    && e.reservation.fencing_token == execution.reservation.fencing_token

-- `self._tasks.discard` of the one task that ended
abbrev pub without_task : Execution → List Execution → List Execution
without_task execution [] = []
without_task execution (e ∷ tasks) =
    let rest = without_task execution tasks in if is_task execution e then tasks else e ∷ rest

-- `finally`: outside a shutdown the slot goes back, whatever happened before
unfoldable pub give_back_if : Bool → World → Execution → Action Unit
give_back_if false w execution = pure tt
give_back_if true w execution = do
  let_go execution.job_id
  in_scheduler (release w.clock execution.reservation)

unfoldable pub give_back : World → Execution → Action Unit
unfolding give_back_if
give_back w execution s = give_back_if (not s.shutting_down) w execution s

abbrev after : {A : Type 0} → Result Failure A → Result Failure Unit → Result Failure A
after r (ok u) = r
after r (err exc) = err exc

-- the end of the task, whose callback forgets it
unfoldable pub end_execution : World → Registration → StoredJob → Execution → Outcome → Action Unit
unfolding settle give_back
end_execution w register job execution outcome s =
    let r = settle w register job outcome s in
    let t = give_back w execution r.1 in
    (after r.0 t.0, record t.1 { tasks = without_task execution t.1.tasks })

-- `close` raises the flag and cancels the tasks, which then end one by one by `end_execution`.
unfoldable pub start_close : Action Unit
start_close = modify λ s. record s { shutting_down = true }
