-- ===== src/Jobs.antt =====
-- services/gateway/src/oneiroi_gateway/services/job_service.py, `JobService`: its state, and the
-- helpers that every method uses. A stored job is one object, which the repository's dictionary, the
-- callers and the running task share; its one copy is the entry of the dictionary.
pub mod Dispatch
pub mod Requests
pub mod Tasks
pub mod Restart
pub mod Restarted
pub mod Executor
pub mod Steps
pub mod Failing
pub mod Undoing
pub mod Retrying
pub mod Cancelling
pub mod Endings
pub mod Room
pub mod Bounds
pub mod Limits
use Prim.Native.String
use Prim.Native.String.{◌++◌ as str_append}
use oneiroi.Prelude.{
  ℕ, String, Bool, true, false, not, Option, none, some, List, [], ◌∷◌, ◌==◌, string_eq, nat_eq,
  elem, filter, find, or_else, if◌then◌else◌,
}
use oneiroi.Prelude.Dict.{Dict, get, put, pop}
use oneiroi.Prelude.Effects.{Exec, Result, pure, raise, raise_if, gets, modify, ◌>>=◌, ◌>>◌}
use oneiroi.Failure.{Failure, value_error, runtime_error, key_error, oneiroi_error}
use oneiroi.Compute.Capabilities.{CapabilityService}
use oneiroi.Sessions.{Clock}
use oneiroi.Scheduler.{JobScheduler, SlotReservation}
use oneiroi.Studio.{
  JobResponse, JobStatus, StoredJob, JobAttemptRecord, GenerationDraft, AssetKind, AssetResponse,
  image, video, template,
}
use oneiroi.Studio.Repository.{
  StudioRepository, update_job, add_event, list_attempts, update_attempt, get_asset,
}

-- The two optional frames of a job.
abbrev pub InputPaths : Type 0
InputPaths = Option String × Option String

-- A task that runs `_execute`.
pub record Execution : Type 0 where
  pub job_id : String
  pub reservation : SlotReservation
  pub input_paths : InputPaths

pub record JobService : Type 0 where
  pub repository : StudioRepository
  pub capabilities : CapabilityService
  pub scheduler : JobScheduler
  pub has_executor : Bool
  pub max_active_per_owner : ℕ
  pub cancel_requested : List String
  pub reservations : Dict String SlotReservation
  pub tasks : List Execution
  pub shutting_down : Bool

-- What a step meets outside: the time, the clocks of the session service, the values that `uuid4`
-- draws, the dump of a job as JSON, and whether the dispatcher delivers an assignment.
pub record World : Type 0 where
  pub now : ℕ
  pub clock : Clock
  pub job_id : String
  pub attempt_id : String
  pub dump : JobResponse → String
  pub undelivered : SlotReservation → JobResponse → InputPaths → Option Failure

abbrev pub Action : Type 0 → Type 0
Action = Exec Failure JobService

-- a method of the repository, and one of the scheduler
unfoldable pub in_repository : {A : Type 0} → Exec Failure StudioRepository A → Action A
in_repository method s = let r = method s.repository in (r.0, record s { repository = r.1 })

unfoldable pub in_scheduler : {A : Type 0} → Exec Failure JobScheduler A → Action A
in_scheduler method s = let r = method s.scheduler in (r.0, record s { scheduler = r.1 })

-- the state of the shared object; it is not in the dictionary only after its job was deleted
abbrev pub current : StoredJob → JobService → StoredJob
current stored s = or_else (get stored.response.id s.repository.jobs) stored

-- `str(exc)`; that of a `KeyError` is in quotes
abbrev pub message_of : Failure → String
message_of (value_error m) = m
message_of (runtime_error m) = m
message_of (key_error m) = str_append "'" (str_append m "'")
message_of (oneiroi_error code m) = m

-- `_event`
unfoldable pub event : World → StoredJob → String → Action Unit
event w stored event_type = do
  in_repository
      (add_event w.now stored.owner_id stored.response.id event_type (w.dump stored.response))
  pure tt

-- the write of the object, `self.repository.update_job(stored)`
unfoldable pub write : StoredJob → Action Unit
write stored = do in_repository (update_job stored); pure tt

abbrev pub staged : StoredJob → JobStatus → ℕ → ℕ → StoredJob
staged stored stage progress now = record stored {
  response = record stored.response { stage = stage; progress = progress; updated_at = now };
}

-- `_update`
unfoldable pub update : World → StoredJob → JobStatus → ℕ → Action StoredJob
unfolding write
update w stored stage progress = do
  let updated = staged stored stage progress w.now
  write updated
  pure updated

-- What `_finish_attempt` records.
pub record Ending : Type 0 where
  pub status : String
  pub error_code : Option String
  pub warm_start : Option Bool
  pub worker_pid : Option ℕ
  pub peak_vram_mib : Option ℕ
  pub generation_seconds : Option String

abbrev pub plain_ending : String → Option String → Ending
plain_ending status error_code = record {
  status = status;
  error_code = error_code;
  warm_start = none;
  worker_pid = none;
  peak_vram_mib = none;
  generation_seconds = none;
}

abbrev pub ended_attempt : JobAttemptRecord → Ending → ℕ → JobAttemptRecord
ended_attempt item ending now = record item {
  status = ending.status;
  error_code = ending.error_code;
  warm_start = ending.warm_start;
  worker_pid = ending.worker_pid;
  peak_vram_mib = ending.peak_vram_mib;
  generation_seconds = ending.generation_seconds;
  finished_at = some now;
}

unfoldable pub end_attempt : Option JobAttemptRecord → Ending → ℕ → Action Unit
end_attempt none ending now = pure tt
end_attempt (some item) ending now = in_repository (update_attempt (ended_attempt item ending now))

unfoldable pub finish_attempt : World → StoredJob → Ending → Action Unit
unfolding end_attempt
finish_attempt w stored ending = do
  attempts ← gets (λ s. list_attempts stored.response.id s.repository)
  end_attempt (find (λ item. item.attempt == stored.response.attempt) attempts) ending w.now

-- one frame: the path of an image of the owner
abbrev pub is_image : AssetKind → Bool
is_image image = true
is_image video = false
is_image template = false

unfoldable pub input_path : String → Option String → Action (Option String)
input_path owner_id none = pure none
input_path owner_id (some asset_id) = do
  asset ← in_repository (get_asset owner_id asset_id)
  raise_if (not (is_image asset.response.kind)) (value_error "INVALID_ASSET")
  pure (some asset.storage_path)

-- `_input_paths_from_draft`
unfoldable pub input_paths_from_draft : String → GenerationDraft → Action InputPaths
unfolding input_path
input_paths_from_draft owner_id draft = do
  first ← input_path owner_id draft.first_frame_asset_id
  last ← input_path owner_id draft.last_frame_asset_id
  pure (first, last)
