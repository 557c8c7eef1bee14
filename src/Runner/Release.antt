-- ===== src/Runner/Release.antt =====
-- What the supervisor keeps true, and how it gives the GPU back.
use oneiroi.Prelude.{
  ◌≡◌, refl, ap, ℕ, Bool, true, false, not, ◌&&◌, ◌||◌, Option, none, List, [], ◌∷◌, ◌++◌, ◌==◌,
  is_some, is_none, if◌then◌else◌, arith,
}
use oneiroi.Prelude.Effects.{Result, ok, err}
use oneiroi.Compute.{GpuState, gpu_state_eq}
use oneiroi.Runner.{Raised, PipelineSpec}
use oneiroi.Runner.Supervisor.{
  ReleaseReport, clear, start, pipe_raises, Supervisor, Signal, Liveness, WorkerReady, LoadMessage,
  ready, load_failed, other, succeeded, signals, release, await_ready, load, spawned, reused_ready,
  shutdown, terminate, kill, is_current,
}
use oneiroi.Runner.Work.{GenerationResult, JobMessage, run_job}

-- A pipe and a pid only with a process, and READY only with one.
abbrev pub IsConsistent : Supervisor → Type 0
IsConsistent s =
    (s.connection ≡ is_some s.process)
    × ((not (s.state == GpuState.ready) || is_some s.process) ≡ true)
    × ((is_none s.worker_pid || is_some s.process) ≡ true)

-- A process that was killed is dead, and a dead one stays dead.
abbrev pub IsMortal : Liveness → Type 0
IsMortal alive =
    ((sent : List Signal) → alive (sent ++ kill ∷ []) ≡ false)
    × ((sent : List Signal) (signal : Signal)
        → alive sent ≡ false
        → alive (sent ++ signal ∷ []) ≡ false)

-- what the process was told
abbrev pub survived : Liveness → Supervisor → List Signal → Bool
survived alive s sent = is_some s.process && alive [] && alive sent

abbrev pub report_of : Liveness → Bool → Supervisor → ReleaseReport
report_of alive memory_released s = record {
  child_exited = true;
  memory_released = memory_released;
  escalated_to_terminate = survived alive s (shutdown ∷ []);
  escalated_to_kill = survived alive s (shutdown ∷ terminate ∷ []);
}

-- A release of a consistent supervisor whose process dies when it is killed, and stays dead once it
-- is, with a check of the memory that answers: a live process is told to terminate exactly if it survived the shutdown, and is killed exactly
-- if it survived both; then it has exited, the slot is EMPTY if the memory was released and else in
-- ERROR, no process is left, and the supervisor is consistent.
pub release_escalates :
    (alive : Liveness) (memory_released : Bool) (s : Supervisor)
    → IsConsistent s
    → IsMortal alive
    → let r = release alive (ok memory_released) s in
      (r.0 ≡ ok (report_of alive memory_released s))
      × (r.1.state ≡ (if memory_released then GpuState.empty else GpuState.error))
      × (r.1.process ≡ none)
      × IsConsistent r.1
unfolding release signals succeeded
release_escalates alive memory_released s c m = ground (
  arith,
  c,
  m.0 [],
  m.0 (shutdown ∷ []),
  m.0 (shutdown ∷ terminate ∷ []),
  m.1 [] shutdown,
  m.1 (shutdown ∷ []) terminate,
)

release-IsConsistent :
    (alive : Liveness) (memory_released : Result Raised Bool) (s : Supervisor)
    → IsConsistent s
    → IsConsistent (release alive memory_released s).1
unfolding release
release-IsConsistent alive (ok memory_released) s c = ground (arith, c)
release-IsConsistent alive (err raised) s c = ground (arith, c)

await_ready-IsConsistent :
    (stuck : Bool) (spec : PipelineSpec) (messages : List LoadMessage) (s : Supervisor)
    → IsConsistent s
    → is_some s.process ≡ true
    → s.worker_pid ≡ none
    → IsConsistent (await_ready stuck spec messages s).1
unfolding await_ready
await_ready-IsConsistent stuck spec [] s c p w = c
await_ready-IsConsistent stuck spec (ready pid seconds count ∷ messages) s c p w =
    ground (arith, c, p, w)
await_ready-IsConsistent true spec (load_failed message ∷ messages) s c p w =
    ground (arith, c, p, w)
await_ready-IsConsistent false spec (load_failed message ∷ messages) s c p w =
    ground (arith, c, p, w)
await_ready-IsConsistent stuck spec (pipe_raises kind message ∷ messages) s c p w = c
await_ready-IsConsistent stuck spec (other ∷ messages) s c p w =
    await_ready-IsConsistent stuck spec messages s c p w

-- what is left before the new process: no pid, unless the old process could not be closed
abbrev IsCleared : Result Raised Unit × Supervisor → Type 0
IsCleared (ok u, s) = s.worker_pid ≡ none
IsCleared (err raised, s) = Unit

clear_lem :
    (alive : Liveness) (memory_released : Result Raised Bool) (s : Supervisor)
    → IsConsistent s
    → IsCleared (clear alive memory_released s) × IsConsistent (clear alive memory_released s).1
unfolding release
clear_lem alive (ok memory_released) s c = ground (arith, c)
clear_lem alive (err raised) s c = ground (arith, c)

-- A load keeps the supervisor consistent, whatever the old process does and the new worker says or
-- fails to say: a pipe exactly with a process, and a recorded pid or the state READY only with one.
pub load-IsConsistent :
    (alive : Liveness) (memory_released : Result Raised Bool) (stuck : Bool) (pid : ℕ)
    (messages : List LoadMessage) (spec : PipelineSpec) (s : Supervisor)
    → IsConsistent s
    → IsConsistent (load alive memory_released stuck pid messages spec s).1
unfolding load
load-IsConsistent alive memory_released stuck pid messages spec s c =
    go (is_some s.process && alive [] && is_current spec s.current_spec)
  where
    started :
        (r : Result Raised Unit × Supervisor)
        → IsCleared r
        → IsConsistent r.1
        → IsConsistent (start stuck pid messages spec r).1
    started (ok u, t) w d =
        await_ready-IsConsistent stuck spec messages (spawned pid t)
          (refl, refl, ap (λ o. is_none o || true) w) refl w
    started (err raised, t) w d = d

    go :
        (reused : Bool)
        → IsConsistent (
            let x : Result Raised WorkerReady × Supervisor =
              if reused
              then (ok (reused_ready s), s)
              else start stuck pid messages spec (clear alive memory_released s) in
            x.1)
    go true = c
    go false =
        started (clear alive memory_released s) (clear_lem alive memory_released s c).0
          (clear_lem alive memory_released s c).1

-- Whatever the worker says or fails to say, a job keeps the supervisor consistent.
pub run_job-IsConsistent :
    (escaped : GenerationResult → Option Raised) (send_raises : Option Raised) (alive : Bool)
    (messages : List JobMessage) (s : Supervisor)
    → IsConsistent s
    → IsConsistent (run_job escaped send_raises alive messages s).1
unfolding run_job
run_job-IsConsistent escaped send_raises alive messages s c = ground (arith, c)
