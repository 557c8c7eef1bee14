-- ===== src/Runner/Supervisor.antt =====
-- workers/runner/src/oneiroi_runner/supervisor.py, `ModelWorkerSupervisor`: the state, `load` and
-- `release`. The worker process, its pipe and the memory of the GPU are outside.
use oneiroi.Prelude.{
  ℕ, String, Bool, true, false, not, ◌&&◌, ◌||◌, Option, none, some, List, [], ◌∷◌, ◌++◌, ◌==◌,
  is_some, or_else, nat_eq, if◌then◌else◌,
}
use Prim.Native.String.{◌++◌ as str_append}
use oneiroi.Prelude.Effects.{Result, ok, err}
use oneiroi.Compute.{GpuState}
use oneiroi.Runner.{Raised, exception, PipelineSpec, same_spec}

-- The worker's process is known by its pid.
pub record Supervisor : Type 0 where
  pub state : GpuState
  pub current_spec : Option PipelineSpec
  pub worker_pid : Option ℕ
  pub adapter_load_count : ℕ
  pub jobs_completed : ℕ
  pub process : Option ℕ
  pub connection : Bool

-- What the process was told, and joined after.
pub data Signal : Type 0 where
  shutdown terminate kill : Signal

-- Whether the process is alive after these signals, in their order.
abbrev pub Liveness : Type 0
Liveness = List Signal → Bool

pub record WorkerReady : Type 0 where
  pub worker_pid : ℕ
  pub load_seconds : String
  pub adapter_load_count : ℕ
  pub reused : Bool

pub record ReleaseReport : Type 0 where
  pub child_exited : Bool
  pub memory_released : Bool
  pub escalated_to_terminate : Bool
  pub escalated_to_kill : Bool

unfoldable pub succeeded : ReleaseReport → Bool
succeeded report = report.child_exited && report.memory_released

-- the ladder of `release`: each step only if the one before left the process alive
unfoldable pub signals : Liveness → Bool → List Signal
signals alive false = []
signals alive true =
    let a = Signal.shutdown ∷ [] in
    let b = if alive a then a ++ Signal.terminate ∷ [] else a in
    if alive b then b ++ Signal.kill ∷ [] else b

abbrev pub is_terminate : Signal → Bool
is_terminate terminate = true
is_terminate _ = false

abbrev pub is_kill : Signal → Bool
is_kill kill = true
is_kill _ = false

abbrev pub has_signal : (Signal → Bool) → List Signal → Bool
has_signal p [] = false
has_signal p (x ∷ xs) = p x || has_signal p xs

abbrev pub emptied : GpuState → Supervisor → Supervisor
emptied state s = record s {
  state = state;
  current_spec = none;
  worker_pid = none;
  process = none;
  connection = false;
}

-- `process.close()` on a process that still runs
abbrev pub still_running : Raised
still_running =
    exception "ValueError"
      "Cannot close a process while it is still running. You should first call join() or terminate()."

-- A process that outlives the ladder is not let go: closing it raises. Before that the check of the
-- GPU's memory may raise. Either way the slot stays UNLOADING.
unfoldable pub release :
    Liveness
    → (memory_released : Result Raised Bool) → Supervisor
    → Result Raised ReleaseReport × Supervisor
unfolding signals succeeded
release alive (err raised) s = (err raised, record s { state = GpuState.unloading })
release alive (ok memory_released) s =
    let sent = signals alive (is_some s.process && alive [] && s.connection) in
    let child_exited = not (is_some s.process) || not (alive sent) in
    let report : ReleaseReport = record {
      child_exited = child_exited;
      memory_released = memory_released;
      escalated_to_terminate = has_signal is_terminate sent;
      escalated_to_kill = has_signal is_kill sent;
    } in
    if child_exited
    then (ok report, emptied (if succeeded report then GpuState.empty else GpuState.error) s)
    else (err still_running, record s { state = GpuState.unloading })

-- What the worker says while it loads. At the end of the list nothing came in time.
pub data LoadMessage : Type 0 where
  ready : (worker_pid : ℕ) → (load_seconds : String) → (adapter_load_count : ℕ) → LoadMessage
  load_failed : String → LoadMessage
  pipe_raises : (kind message : String) → LoadMessage
  other : LoadMessage

abbrev pub timed_out : Raised
timed_out = exception "TimeoutError" "model worker response timed out"

-- `_stop_failed_process`, and what is raised after it; a process that outlives the termination, which
-- is `stuck`, is not let go
abbrev pub stop_failed_process : Bool → Raised → Supervisor → Raised × Supervisor
stop_failed_process true raised s = (still_running, s)
stop_failed_process false raised s = (raised, record s { process = none; connection = false })

abbrev pub load_failure : String → Raised
load_failure message = exception "RuntimeError" (str_append "model load failed: " message)

abbrev pub loaded : PipelineSpec → ℕ → ℕ → Supervisor → Supervisor
loaded spec pid count s = record s {
  current_spec = some spec;
  worker_pid = some pid;
  adapter_load_count = count;
  state = GpuState.ready;
}

-- the loop of `load`
unfoldable pub await_ready :
    (stuck : Bool)
    → PipelineSpec
    → List LoadMessage
    → Supervisor
    → Result Raised WorkerReady × Supervisor
await_ready stuck spec [] s = (err timed_out, s)
await_ready stuck spec (ready pid seconds count ∷ messages) s = (
  ok (record {
    worker_pid = pid;
    load_seconds = seconds;
    adapter_load_count = count;
    reused = false;
  }),
  loaded spec pid count s,
)
await_ready stuck spec (load_failed message ∷ messages) s =
    let r =
      stop_failed_process stuck (load_failure message) (record s { state = GpuState.error }) in
    (err r.0, r.1)
await_ready stuck spec (pipe_raises kind message ∷ messages) s = (err (exception kind message), s)
await_ready stuck spec (other ∷ messages) s = await_ready stuck spec messages s

-- `self.current_spec == spec`
abbrev pub is_current : PipelineSpec → Option PipelineSpec → Bool
is_current spec none = false
is_current spec (some current) = same_spec current spec

-- Python's `or` on numbers
abbrev pub nonzero : Option ℕ → Option ℕ
nonzero none = none
nonzero (some n) = if n == 0 then none else some n

abbrev pub reused_ready : Supervisor → WorkerReady
reused_ready s = record {
  worker_pid = or_else (nonzero s.worker_pid) (or_else (nonzero s.process) 0);
  load_seconds = "0";
  adapter_load_count = s.adapter_load_count;
  reused = true;
}

abbrev pub spawned : ℕ → Supervisor → Supervisor
spawned pid s = record s { state = GpuState.loading; process = some pid; connection = true }

-- the end of the process before, if there is one
abbrev pub clear : Liveness → Result Raised Bool → Supervisor → Result Raised Unit × Supervisor
clear alive memory_released s =
    let r = release alive memory_released s in
    if is_some s.process then (cleared r.0, r.1) else (ok tt, s)
  where
    cleared : Result Raised ReleaseReport → Result Raised Unit
    cleared (ok report) = ok tt
    cleared (err raised) = err raised

abbrev pub start :
    Bool
    → ℕ
    → List LoadMessage
    → PipelineSpec
    → Result Raised Unit × Supervisor
    → Result Raised WorkerReady × Supervisor
start stuck pid messages spec (ok u, s) = await_ready stuck spec messages (spawned pid s)
start stuck pid messages spec (err raised, s) = (err raised, s)

-- `pid` is that of the process that it starts, `messages` is what that process says, and `stuck` is
-- whether it would outlive a termination
unfoldable pub load :
    Liveness
    → (memory_released : Result Raised Bool) → (stuck : Bool) → (pid : ℕ) → List LoadMessage
    → PipelineSpec
    → Supervisor
    → Result Raised WorkerReady × Supervisor
unfolding release await_ready
load alive memory_released stuck pid messages spec s =
    let started = start stuck pid messages spec (clear alive memory_released s) in
    if is_some s.process && alive [] && is_current spec s.current_spec
    then (ok (reused_ready s), s)
    else started
