-- ===== src/Runner/Work.antt =====
-- `ModelWorkerSupervisor.run_job`: one job on the worker, under the lock of the jobs.
use Prim.Native.String.{◌++◌ as str_append}
use oneiroi.Prelude.{
  ℕ, ◌+◌, String, Bool, not, ◌&&◌, ◌||◌, Option, none, some, List, [], ◌∷◌, ◌==◌, is_some,
  if◌then◌else◌,
}
use oneiroi.Prelude.Effects.{Result, ok, err}
use oneiroi.Compute.{GpuState, gpu_state_eq}
use oneiroi.Runner.{Raised, exception, cancelled_error}
use oneiroi.Runner.Supervisor.{Supervisor, timed_out}

-- `GenerationResult` of packages/python/common/src/oneiroi_common/generation.py
pub record GenerationResult : Type 0 where
  pub job_id : String
  pub output_path : String
  pub manifest_path : String
  pub elapsed_seconds : String
  pub peak_vram_mib : ℕ
  pub worker_pid : ℕ
  pub warm_start : Bool

-- What the worker says during a job. At the end of the list nothing came in time.
pub data JobMessage : Type 0 where
  progress : String → JobMessage
  succeeded : GenerationResult → JobMessage
  cancelled : JobMessage
  failed : (code message : String) → JobMessage
  pipe_raises : (kind message : String) → JobMessage
  other : JobMessage

-- What a job gives: the progress that it reported, and how it ended.
pub record JobRun : Type 0 where
  pub reports : List String
  pub result : Result Raised GenerationResult

abbrev pub ended : Result Raised GenerationResult → JobRun
ended result = record { reports = []; result = result }

abbrev pub reported : String → JobRun → JobRun
reported message run = record run { reports = message ∷ run.reports }

abbrev pub generation_failed : String → String → Raised
generation_failed code message =
    exception "RuntimeError"
      (str_append "generation failed: " (str_append code (str_append ": " message)))

-- the validation of the result: an artifact outside the storage root raises
abbrev pub checked : Option Raised → GenerationResult → Result Raised GenerationResult
checked none result = ok result
checked (some raised) result = err raised

-- The loop. `escaped` is what the validation of a result raises.
unfoldable pub await_end : (GenerationResult → Option Raised) → List JobMessage → JobRun
await_end escaped [] = ended (err timed_out)
await_end escaped (progress message ∷ messages) = reported message (await_end escaped messages)
await_end escaped (succeeded result ∷ messages) = ended (checked (escaped result) result)
await_end escaped (cancelled ∷ messages) = ended (err cancelled_error)
await_end escaped (failed code message ∷ messages) = ended (err (generation_failed code message))
await_end escaped (pipe_raises kind message ∷ messages) = ended (err (exception kind message))
await_end escaped (other ∷ messages) = await_end escaped messages

abbrev pub count_completed : Result Raised GenerationResult → ℕ → ℕ
count_completed (ok result) n = n + 1
count_completed (err raised) n = n

-- `finally`
abbrev pub state_after : Bool → Option ℕ → GpuState
state_after alive process = if is_some process && alive then GpuState.ready else GpuState.error

abbrev pub not_ready : Raised
not_ready = exception "RuntimeError" "model worker is not ready"

abbrev pub finished : Bool → JobRun → Supervisor → Supervisor
finished alive run s = record s {
  jobs_completed = count_completed run.result s.jobs_completed;
  state = state_after alive s.process;
}

-- the request is sent before the `try`: if that raises, the state stays BUSY
abbrev pub send_and_wait : Option Raised → Bool → JobRun → Supervisor → JobRun × Supervisor
send_and_wait (some raised) alive run s = (ended (err raised), record s { state = GpuState.busy })
send_and_wait none alive run s = (run, finished alive run s)

-- `alive` tells whether the process is alive when the job ends
unfoldable pub run_job :
    (GenerationResult → Option Raised)
    → (send_raises : Option Raised) → (alive : Bool) → List JobMessage
    → Supervisor
    → JobRun × Supervisor
unfolding await_end
run_job escaped send_raises alive messages s =
    let answered = send_and_wait send_raises alive (await_end escaped messages) s in
    if not (s.state == GpuState.ready) || not s.connection
    then (ended (err not_ready), s)
    else answered
