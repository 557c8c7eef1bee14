-- ===== src/Jobs/Dispatch.antt =====
-- `JobService._assign_and_dispatch` and `_mark_dispatch_failed`.
use oneiroi.Prelude.{ℕ, String, Bool, true, false, Option, none, some, [], ◌∷◌, ◌++◌, string_eq}
use oneiroi.Prelude.Dict.{put, pop}
use oneiroi.Prelude.Effects.{pure, raise, gets, modify, recover, ◌>>=◌, ◌>>◌}
use oneiroi.Failure.{Failure}
use oneiroi.Scheduler.{SlotReservation, reserve, release}
use oneiroi.Studio.{JobStatus, StoredJob, JobAttemptRecord, is_terminal}
use oneiroi.Studio.Repository.{add_attempt}
use oneiroi.Jobs.{
  Action, World, InputPaths, Execution, in_repository, in_scheduler, event, write, finish_attempt,
  plain_ending, current, message_of,
}

abbrev pub assigned : StoredJob → SlotReservation → ℕ → StoredJob
assigned stored reservation now = record stored {
  response = record stored.response {
    stage = JobStatus.assigned;
    progress = 18;
    updated_at = now;
    gpu = some (record { id = reservation.gpu_id; physical_index = reservation.physical_index });
  };
}

abbrev pub new_attempt : World → StoredJob → SlotReservation → JobAttemptRecord
new_attempt w stored reservation = record {
  id = w.attempt_id;
  job_id = stored.response.id;
  attempt = stored.response.attempt;
  slot_id = reservation.slot_id;
  gpu_id = reservation.gpu_id;
  runner_id = none;
  worker_pid = none;
  warm_start = none;
  status = "assigned";
  error_code = none;
  created_at = w.now;
  finished_at = none;
  peak_vram_mib = none;
  load_seconds = none;
  generation_seconds = none;
  encoding_seconds = none;
}

-- `self._reservations[job_id] = reservation` and `self._reservations.pop(job_id, None)`
abbrev pub hold : String → SlotReservation → Action Unit
hold job_id reservation =
    modify λ s. record s { reservations = put job_id reservation s.reservations }

abbrev pub let_go : String → Action Unit
let_go job_id = modify λ s. record s { reservations = pop job_id s.reservations }

-- `asyncio.create_task(self._execute(...))`
abbrev pub start_task : Execution → Action Unit
start_task execution = modify λ s. record s { tasks = s.tasks ++ execution ∷ [] }

abbrev pub start_if : Bool → Execution → Action Unit
start_if true execution = start_task execution
start_if false execution = pure tt

-- after the call of the dispatcher: the slot goes back if it raised
unfoldable pub after_dispatch :
    World → StoredJob → SlotReservation → InputPaths → Option Failure → Action Unit
after_dispatch w stored reservation input_paths none = do
  runs ← gets (λ s. s.has_executor)
  start_if runs
      (record { job_id = stored.response.id; reservation = reservation; input_paths = input_paths })
after_dispatch w stored reservation input_paths (some failure) = do
  let_go stored.response.id
  in_scheduler (release w.clock reservation)
  raise failure

-- `_assign_and_dispatch`
unfoldable pub assign_and_dispatch : World → StoredJob → InputPaths → Action Unit
unfolding after_dispatch
assign_and_dispatch w queued input_paths = do
  reservation ← in_scheduler (
      reserve w.clock queued.owner_id queued.response.compute_session_id
        queued.response.draft.profile)
  hold queued.response.id reservation
  let stored = assigned queued reservation w.now
  write stored
  in_repository (add_attempt (new_attempt w stored reservation))
  event w stored "job.assigned"
  after_dispatch w stored reservation input_paths
      (w.undelivered reservation stored.response input_paths)

abbrev pub dispatch_failed : StoredJob → String → ℕ → StoredJob
dispatch_failed stored message now = record stored {
  response = record stored.response {
    stage = JobStatus.failed;
    updated_at = now;
    failure = some (record { code = "DISPATCH_FAILED"; message = message; retryable = true });
  };
}

-- a job that has ended is left as it is
unfoldable pub mark_failed : World → StoredJob → String → Bool → Action Unit
mark_failed w stored message true = pure tt
mark_failed w stored message false = do
  let failed = dispatch_failed stored message w.now
  write failed
  event w failed "job.failed"
  finish_attempt w failed (plain_ending "failed" (some "DISPATCH_FAILED"))

-- `_mark_dispatch_failed`, on the shared object
unfoldable pub mark_dispatch_failed : World → StoredJob → Failure → Action Unit
unfolding mark_failed
mark_dispatch_failed w job exc = do
  stored ← gets (current job)
  mark_failed w stored (message_of exc) (is_terminal stored.response.stage)

-- `try: await self._assign_and_dispatch(...) except Exception as exc: ...; raise`
unfoldable pub dispatch_or_fail : World → StoredJob → InputPaths → Action Unit
unfolding assign_and_dispatch mark_dispatch_failed
dispatch_or_fail w stored input_paths =
    recover (assign_and_dispatch w stored input_paths)
      (λ exc. do mark_dispatch_failed w stored exc; raise exc)
