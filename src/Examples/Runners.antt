-- ===== src/Examples/Runners.antt =====
-- A runner, its worker and its commands at concrete values.
use oneiroi.Prelude.{
  ◌≡◌, ◌*◌, ◌+◌, refl, String, true, false, string_eq, none, some, List, [], ◌∷◌, ◌++◌,
  if◌then◌else◌, arith,
}
use oneiroi.Prelude.Dict.{get}
use oneiroi.Prelude.Effects.{ok}
use oneiroi.Compute.{GpuState}
use oneiroi.Runner.{PipelineSpec}
use oneiroi.Compute.{ProfileTier}
use oneiroi.Runner.Frames.{
  dimensions, num_frames, is_valid_dimension, is_valid_frames, frames_valid,
}
use oneiroi.Runner.Supervisor.{Supervisor, Signal, Liveness, LoadMessage, load, release}
use oneiroi.Runner.Release.{IsConsistent, report_of, release_escalates, load-IsConsistent}
use oneiroi.Runner.Work.{JobMessage, await_end}
use oneiroi.Runner.Runtime.{
  Runner, RunnerCommand, RunnerCommandResult, RunnerCommandType, publish_result, valid_fencing,
}
use oneiroi.Runner.Handlers.{Outside, Stream, handle_command, handle_slot_command}
use oneiroi.Runner.Commands.{SameSlot, command_fenced, handle_again}
use oneiroi.Runner.Slot.{JobEntry, handle_entry, handle_entries}
use oneiroi.Runner.Finality.{IsCancelled, cancelled_stops}

frames_valid_example :
    (is_valid_dimension (dimensions "1080p" "9:16").0 ≡ true)
    × (is_valid_dimension (dimensions "1080p" "9:16").1 ≡ true)
    × (is_valid_frames (num_frames 5) ≡ true)
    × (num_frames 5 ≡ 24 * 5 + 1)
frames_valid_example = frames_valid "1080p" "9:16" 5

abbrev spec : PipelineSpec
spec = record {
  profile_id = "fast";
  tier = ProfileTier.fast;
  ltx_git_commit = "";
  checkpoint_path = "/c";
  checkpoint_sha256 = "";
  upsampler_path = "/u";
  upsampler_sha256 = "";
  gemma_root = "/g";
  gemma_revision = "";
  lora_paths_and_scales = [];
  lora_sha256s = [];
  quantization = "none";
  offload = "none";
  dtype = "bfloat16";
  attention_backend = "sdpa";
  compile_mode = "disabled";
  runtime_policy_version = "oneiroi-v1";
}

abbrev supervisor : Supervisor
supervisor = record {
  state = GpuState.ready;
  current_spec = some spec;
  worker_pid = some 41;
  adapter_load_count = 1;
  jobs_completed = 0;
  process = some 41;
  connection = true;
}

supervisor-IsConsistent : IsConsistent supervisor
supervisor-IsConsistent = (refl, refl, refl)

-- a worker that only a kill ends
abbrev is_alive : Liveness
is_alive [] = true
is_alive (Signal.kill ∷ rest) = false
is_alive (_ ∷ rest) = is_alive rest

killed_lem : (sent : List Signal) → is_alive (sent ++ Signal.kill ∷ []) ≡ false
killed_lem [] = refl
killed_lem (Signal.kill ∷ rest) = refl
killed_lem (Signal.shutdown ∷ rest) = killed_lem rest
killed_lem (Signal.terminate ∷ rest) = killed_lem rest

dead_lem :
    (sent : List Signal) (signal : Signal)
    → is_alive sent ≡ false
    → is_alive (sent ++ signal ∷ []) ≡ false
dead_lem [] signal h = ground (arith, h)
dead_lem (Signal.kill ∷ rest) signal h = refl
dead_lem (Signal.shutdown ∷ rest) signal h = dead_lem rest signal h
dead_lem (Signal.terminate ∷ rest) signal h = dead_lem rest signal h

release_escalates_example :
    let r = release is_alive (ok true) supervisor in
    (r.0 ≡ ok (report_of is_alive true supervisor))
    × (r.1.state ≡ (if true then GpuState.empty else GpuState.error))
    × (r.1.process ≡ none)
    × IsConsistent r.1
release_escalates_example =
    release_escalates is_alive true supervisor supervisor-IsConsistent (killed_lem, dead_lem)

load-IsConsistent_example :
    IsConsistent
      (load is_alive
        (ok true)
        false
        42
        (LoadMessage.other ∷ LoadMessage.load_failed "oom" ∷ [])
        spec
        supervisor).1
load-IsConsistent_example =
    load-IsConsistent is_alive (ok true) false 42
      (LoadMessage.other ∷ LoadMessage.load_failed "oom" ∷ []) spec supervisor
      supervisor-IsConsistent

abbrev runner : Runner
runner = record {
  gpu_id = "gpu";
  supervisor = supervisor;
  current_slot_id = some "slot";
  current_session_id = some "session";
  current_fencing_token = some "token";
  slot_tasks = some "slot";
  job_loop = true;
  results = [];
  published = [];
  job_events = [];
}

abbrev outside : Outside
outside = record {
  alive = is_alive;
  alive_after = is_alive;
  memory_released = ok true;
  stuck = false;
  pid = 42;
  messages = [];
  lease_before = none;
  lease_after = none;
  cancel_raises = none;
}

abbrev unload_with : String → RunnerCommand
unload_with token = record {
  command_id = "command";
  command_type = RunnerCommandType.unload;
  slot_id = "slot";
  pipeline_spec = none;
  job_id = none;
  payload = record { gpu_id = some "gpu"; session_id = some "session"; fencing_token = some token };
}

stale-token : valid_fencing (unload_with "old").payload runner ≡ false
unfolding valid_fencing
stale-token = refl

command_fenced_example :
    SameSlot runner (handle_command Stream.slot_stream outside (unload_with "old") runner)
command_fenced_example =
    command_fenced Stream.slot_stream outside (unload_with "old") runner stale-token

handle_again_example :
    let t = handle_slot_command outside (unload_with "token") runner in
    (result : RunnerCommandResult) × (get "command" t.results ≡ some result)
    × (handle_slot_command outside (unload_with "token") t ≡ publish_result result t)
handle_again_example = handle_again outside outside (unload_with "token") runner

abbrev entry : JobEntry
entry = record {
  job_id = "job";
  fencing_token = some "token";
  request_raises = none;
  send_raises = none;
  messages = JobMessage.progress "p" ∷ JobMessage.cancelled ∷ [];
  alive = true;
  escaped = λ result. none;
  published = 0;
  last_raises = none;
}

entry-IsCancelled : IsCancelled entry runner
unfolding await_end
entry-IsCancelled = (refl, refl, refl, refl, refl, refl, refl)

cancelled_stops_example :
    let t = handle_entry entry runner in
    (t.supervisor.state ≡ GpuState.ready) × (handle_entries (entry ∷ entry ∷ []) t ≡ t)
cancelled_stops_example = cancelled_stops entry (entry ∷ entry ∷ []) runner entry-IsCancelled
