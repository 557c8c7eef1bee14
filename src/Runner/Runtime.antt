-- ===== src/Runner/Runtime.antt =====
-- workers/runner/src/oneiroi_runner/redis_runtime.py, `RedisRunnerRuntime`: how a command is
-- answered. The streams and keys of Redis are outside: what the runner publishes is a list, and the
-- results that it stores, with a lifetime of a day, are a dictionary.
use oneiroi.Prelude.{
  String, Bool, true, false, ◌&&◌, Option, none, some, List, [], ◌∷◌, ◌++◌, ◌==◌, string_eq,
  option_eq,
}
use oneiroi.Prelude.Dict.{Dict, put}
use oneiroi.Runner.{Raised, exception, cancelled_error, PipelineSpec}
use oneiroi.Runner.Supervisor.{Supervisor, WorkerReady, ReleaseReport}
use oneiroi.Runner.Work.{GenerationResult}

pub data RunnerCommandType : Type 0 where
  load_profile unload run_job cancel_job heartbeat : RunnerCommandType

-- The fields of a command's payload that the runner reads.
pub record CommandPayload : Type 0 where
  pub gpu_id : Option String
  pub session_id : Option String
  pub fencing_token : Option String

pub record RunnerCommand : Type 0 where
  pub command_id : String
  pub command_type : RunnerCommandType
  pub slot_id : String
  pub pipeline_spec : Option PipelineSpec
  pub job_id : Option String
  pub payload : CommandPayload

pub data ResultPayload : Type 0 where
  empty : ResultPayload
  loaded : WorkerReady → ResultPayload
  released : ReleaseReport → ResultPayload

pub record RunnerCommandResult : Type 0 where
  pub command_id : String
  pub succeeded : Bool
  pub payload : ResultPayload
  pub error : Option String

-- What `_publish_job_event` adds to the stream of a job.
pub data JobEvent : Type 0 where
  progressed : String → JobEvent
  succeeded : GenerationResult → JobEvent
  cancelled : JobEvent
  failed : (code message : String) → JobEvent

-- `slot_tasks` is the slot whose two loops run; `job_loop` tells whether that of the jobs still does.
pub record Runner : Type 0 where
  pub gpu_id : String
  pub supervisor : Supervisor
  pub current_slot_id : Option String
  pub current_session_id : Option String
  pub current_fencing_token : Option String
  pub slot_tasks : Option String
  pub job_loop : Bool
  pub results : Dict String RunnerCommandResult
  pub published : List RunnerCommandResult
  pub job_events : List (String × JobEvent)

-- `_publish_result`
abbrev pub publish_result : RunnerCommandResult → Runner → Runner
publish_result result s = record s { published = s.published ++ result ∷ [] }

-- `_result`; the stored result is kept, as it is in Redis for a day
abbrev pub answer : RunnerCommandResult → Runner → Runner
answer result s =
    publish_result result (record s { results = put result.command_id result s.results })

abbrev pub result_of : RunnerCommand → Bool → ResultPayload → Option String → RunnerCommandResult
result_of command is_success payload error = record {
  command_id = command.command_id;
  succeeded = is_success;
  payload = payload;
  error = error;
}

abbrev pub refused : RunnerCommand → String → RunnerCommandResult
refused command error = result_of command false empty (some error)

-- `str(exc)`
abbrev pub message_of : Raised → String
message_of (exception kind message) = message
message_of cancelled_error = ""

-- `_valid_fencing`
unfoldable pub valid_fencing : CommandPayload → Runner → Bool
valid_fencing payload s =
    payload.gpu_id == some s.gpu_id
    && payload.session_id == s.current_session_id
    && payload.fencing_token == s.current_fencing_token

-- the value at the lease's key, if it is there and is JSON
pub record LeaseValue : Type 0 where
  pub session_id : Option String
  pub fencing_token : Option String

-- `_lease_matches`
unfoldable pub lease_matches : CommandPayload → Option LeaseValue → Runner → Bool
lease_matches payload none s = false
lease_matches payload (some lease) s =
    payload.gpu_id == some s.gpu_id
    && payload.session_id == lease.session_id
    && payload.fencing_token == lease.fencing_token

-- `_start_slot_tasks`
abbrev pub start_slot_tasks : String → Runner → Runner
start_slot_tasks slot_id s = record s { slot_tasks = some slot_id; job_loop = true }
