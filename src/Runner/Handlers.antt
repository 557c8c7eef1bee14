-- ===== src/Runner/Handlers.antt =====
-- How `RedisRunnerRuntime` of redis_runtime.py handles the commands of its two streams.
use oneiroi.Prelude.{
  ℕ, String, Bool, true, false, not, Option, none, some, List, ◌==◌, string_eq, option_eq, or_else,
  if◌then◌else◌,
}
use oneiroi.Prelude.Dict.{get}
use oneiroi.Prelude.Effects.{Result, ok, err}
use oneiroi.Runner.{Raised, PipelineSpec}
use oneiroi.Runner.Supervisor.{
  Supervisor, Liveness, LoadMessage, WorkerReady, ReleaseReport, load, release,
}
use oneiroi.Runner.Supervisor.{succeeded as release_succeeded}
use oneiroi.Runner.Runtime.{
  RunnerCommandType, RunnerCommand, RunnerCommandResult, Runner, publish_result, answer, result_of,
  refused, message_of, valid_fencing, LeaseValue, lease_matches, start_slot_tasks, empty, loaded,
  released, load_profile, unload, cancel_job,
}

-- What a command meets outside: the worker's process before and after a load, the memory of the GPU, the process that a load
-- starts and what it says, the lease before and after a load, and what the cancel file raises.
pub record Outside : Type 0 where
  pub alive : Liveness
  pub alive_after : Liveness
  pub memory_released : Result Raised Bool
  pub stuck : Bool
  pub pid : ℕ
  pub messages : List LoadMessage
  pub lease_before : Option LeaseValue
  pub lease_after : Option LeaseValue
  pub cancel_raises : Option Raised

abbrev pub with_supervisor : Supervisor → Runner → Runner
with_supervisor supervisor s = record s { supervisor = supervisor }

-- the runner takes the slot
abbrev pub bound : RunnerCommand → Runner → Runner
bound command s = start_slot_tasks command.slot_id (record s {
  current_slot_id = some command.slot_id;
  current_session_id = some (or_else command.payload.session_id "");
  current_fencing_token = some (or_else command.payload.fencing_token "");
})

-- the lease was lost during the load
abbrev pub give_up : RunnerCommand → Result Raised ReleaseReport × Supervisor → Runner → Runner
give_up command (ok report, supervisor) s =
    answer (refused command "FENCING_TOKEN_MISMATCH") (with_supervisor supervisor s)
give_up command (err raised, supervisor) s =
    answer (refused command (message_of raised)) (with_supervisor supervisor s)

-- after the load: the lease is read again
unfoldable pub after_load : Outside → RunnerCommand → Result Raised WorkerReady → Runner → Runner
after_load o command (err raised) s = answer (refused command (message_of raised)) s
after_load o command (ok ready) s =
    if not (lease_matches command.payload o.lease_after s)
    then give_up command (release o.alive_after o.memory_released s.supervisor) s
    else answer (result_of command true (loaded ready) none) (bound command s)

unfoldable pub load_and_answer : Outside → RunnerCommand → PipelineSpec → Runner → Runner
unfolding after_load
load_and_answer o command spec s =
    let r = load o.alive o.memory_released o.stuck o.pid o.messages spec s.supervisor in
    after_load o command r.0 (record s { supervisor = r.1 })

abbrev pub repeat_or : Option RunnerCommandResult → Runner → Runner → Runner
repeat_or (some cached) again s = publish_result cached s
repeat_or none again s = again

abbrev pub is_load_profile : RunnerCommandType → Bool
is_load_profile load_profile = true
is_load_profile _ = false

abbrev pub bootstrap_with : Outside → RunnerCommand → Option PipelineSpec → Runner → Runner
bootstrap_with o command none s = answer (refused command "PIPELINE_SPEC_REQUIRED") s
bootstrap_with o command (some spec) s =
    let again = load_and_answer o command spec s in
    if not (lease_matches command.payload o.lease_before s)
    then answer (refused command "FENCING_TOKEN_MISMATCH") s
    else repeat_or (get command.command_id s.results) again s

-- `_handle_bootstrap`
unfoldable pub handle_bootstrap : Outside → RunnerCommand → Runner → Runner
unfolding load_and_answer
handle_bootstrap o command s =
    if not (is_load_profile command.command_type)
    then answer (refused command "INVALID_BOOTSTRAP_COMMAND") s
    else if not (command.payload.gpu_id == some s.gpu_id)
    then answer (refused command "GPU_ID_MISMATCH") s
    else bootstrap_with o command command.pipeline_spec s

-- the commands of a slot
abbrev pub after_cancel : RunnerCommand → Option Raised → Runner → Runner
after_cancel command none s = answer (result_of command true empty none) s
after_cancel command (some raised) s = answer (refused command (message_of raised)) s

-- `not command.job_id`
abbrev pub cancel_with : Outside → RunnerCommand → Option String → Runner → Runner
cancel_with o command none s = answer (refused command "JOB_ID_REQUIRED") s
cancel_with o command (some job_id) s =
    if job_id == ""
    then answer (refused command "JOB_ID_REQUIRED") s
    else after_cancel command o.cancel_raises s

abbrev pub unbound : Runner → Runner
unbound s = record s {
  current_slot_id = none;
  current_session_id = none;
  current_fencing_token = none;
}

abbrev pub report_release :
    RunnerCommand → Result Raised ReleaseReport × Supervisor → Runner → Runner
report_release command (ok report, supervisor) s =
    let error = if release_succeeded report then none else some "GPU_MEMORY_NOT_RELEASED" in
    let answered =
      answer (result_of command (release_succeeded report) (released report) error)
        (with_supervisor supervisor s) in
    if release_succeeded report then unbound answered else answered
report_release command (err raised, supervisor) s =
    answer (refused command (message_of raised)) (with_supervisor supervisor s)

unfoldable pub unload_and_answer : Outside → RunnerCommand → Runner → Runner
unload_and_answer o command s =
    report_release command (release o.alive o.memory_released s.supervisor) s

abbrev pub run_slot_command : Outside → RunnerCommand → RunnerCommandType → Runner → Runner
run_slot_command o command cancel_job s = cancel_with o command command.job_id s
run_slot_command o command unload s = unload_and_answer o command s
run_slot_command o command _ s = answer (refused command "INVALID_SLOT_COMMAND") s

-- `_handle_slot_command`
unfoldable pub handle_slot_command : Outside → RunnerCommand → Runner → Runner
unfolding valid_fencing unload_and_answer
handle_slot_command o command s =
    let fresh =
      if not (valid_fencing command.payload s)
      then answer (refused command "FENCING_TOKEN_MISMATCH") s
      else run_slot_command o command command.command_type s in
    repeat_or (get command.command_id s.results) fresh s

-- The two streams of commands: that of the GPU, and that of the slot.
pub data Stream : Type 0 where
  gpu_stream slot_stream : Stream

unfoldable pub handle_command : Stream → Outside → RunnerCommand → Runner → Runner
unfolding handle_bootstrap handle_slot_command
handle_command gpu_stream o command s = handle_bootstrap o command s
handle_command slot_stream o command s = handle_slot_command o command s
