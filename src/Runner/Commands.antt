-- ===== src/Runner/Commands.antt =====
-- Commands are fenced, and a command that is delivered again is not run again.
use oneiroi.Prelude.{
  ◌≡◌, refl, String, Bool, true, false, not, Option, none, some, string_eq, option_eq,
  if◌then◌else◌, arith,
}
use oneiroi.Prelude.Dict.{get, get-put_self}
use oneiroi.Runner.{Raised}
use oneiroi.Prelude.Effects.{Result, ok, err}
use oneiroi.Runner.Supervisor.{Supervisor, ReleaseReport, release}
use oneiroi.Runner.Runtime.{
  Runner, RunnerCommand, RunnerCommandResult, RunnerCommandType, answer, publish_result,
  valid_fencing, lease_matches, ResultPayload, result_of, refused, load_profile, unload, run_job,
  cancel_job, heartbeat,
}
use oneiroi.Runner.Handlers.{
  Outside, handle_bootstrap, handle_slot_command, unload_and_answer, handle_command, Stream,
  gpu_stream, slot_stream, cancel_with, after_cancel, run_slot_command, repeat_or, report_release,
  with_supervisor,
}

-- What a command may not touch without the right token: the model and the slot of the runner.
abbrev pub SameSlot : Runner → Runner → Type 0
SameSlot s t =
    (t.supervisor ≡ s.supervisor)
    × (t.current_slot_id ≡ s.current_slot_id)
    × (t.current_session_id ≡ s.current_session_id)
    × (t.current_fencing_token ≡ s.current_fencing_token)
    × (t.slot_tasks ≡ s.slot_tasks)

-- the token that a stream asks for
abbrev pub is_fenced : Stream → Outside → RunnerCommand → Runner → Bool
is_fenced gpu_stream o command s = lease_matches command.payload o.lease_before s
is_fenced slot_stream o command s = valid_fencing command.payload s

-- A command from the slot's stream with another GPU, session or token than the runner's leaves the
-- model and the slot of the runner as they are; so does a command from the GPU's stream whose GPU,
-- session and token are not those of the lease when it is read before the load.
pub command_fenced :
    (stream : Stream) (o : Outside) (command : RunnerCommand) (s : Runner)
    → is_fenced stream o command s ≡ false
    → SameSlot s (handle_command stream o command s)
unfolding handle_command handle_slot_command handle_bootstrap
command_fenced gpu_stream o command s h = ground (arith, h)
command_fenced slot_stream o command s h = ground (arith, h)

-- a result is stored for the command
abbrev IsAnswered : RunnerCommand → Runner → Type 0
IsAnswered command t =
    (result : RunnerCommandResult) × (get command.command_id t.results ≡ some result)

by_if : (P : Runner → Type 0) (b : Bool) (x y : Runner) → P x → P y → P (if b then x else y)
by_if P true x y p q = p
by_if P false x y p q = q

answer_lem :
    (command : RunnerCommand) (is_success : Bool) (payload : ResultPayload) (error : Option String)
    (s : Runner)
    → IsAnswered command (answer (result_of command is_success payload error) s)
answer_lem command is_success payload error s = (
  result_of command is_success payload error,
  get-put_self command.command_id (result_of command is_success payload error) s.results,
)

cancel-IsAnswered :
    (o : Outside) (command : RunnerCommand) (job_id : Option String) (s : Runner)
    → IsAnswered command (cancel_with o command job_id s)
cancel-IsAnswered o command none s = answer_lem command _ _ _ s
cancel-IsAnswered o command (some job_id) s =
    by_if (IsAnswered command) _ _ _ (answer_lem command _ _ _ s) (go o.cancel_raises)
  where
    go : (raised : Option Raised) → IsAnswered command (after_cancel command raised s)
    go none = answer_lem command _ _ _ s
    go (some raised) = answer_lem command _ _ _ s

slot-IsAnswered :
    (o : Outside) (command : RunnerCommand) (kind : RunnerCommandType) (s : Runner)
    → IsAnswered command (run_slot_command o command kind s)
unfolding unload_and_answer
slot-IsAnswered o command cancel_job s = cancel-IsAnswered o command command.job_id s
slot-IsAnswered o command unload s = go (release o.alive o.memory_released s.supervisor)
  where
    go :
        (r : Result Raised ReleaseReport × Supervisor)
        → IsAnswered command (report_release command r s)
    go (ok report, supervisor) =
        by_if (IsAnswered command) _ _ _ (answer_lem command _ _ _ (with_supervisor supervisor s))
          (answer_lem command _ _ _ (with_supervisor supervisor s))
    go (err raised, supervisor) = answer_lem command _ _ _ (with_supervisor supervisor s)
slot-IsAnswered o command load_profile s = answer_lem command _ _ _ s
slot-IsAnswered o command run_job s = answer_lem command _ _ _ s
slot-IsAnswered o command heartbeat s = answer_lem command _ _ _ s

answered :
    (o : Outside) (command : RunnerCommand) (s : Runner)
    → IsAnswered command (handle_slot_command o command s)
unfolding handle_slot_command
answered o command s = go (get command.command_id s.results) refl
  where
    go :
        (found : Option RunnerCommandResult)
        → get command.command_id s.results ≡ found
        → IsAnswered command (
            repeat_or found
              (if not (valid_fencing command.payload s)
                then answer (refused command "FENCING_TOKEN_MISMATCH") s
                else run_slot_command o command command.command_type s)
              s)
    go (some result) q = (result, q)
    go none q =
        by_if (IsAnswered command) _ _ _ (answer_lem command _ _ _ s)
          (slot-IsAnswered o command command.command_type s)

-- A command of the slot that is delivered again, whatever happens outside then, only publishes
-- again the result that was stored for it: nothing else changes.
pub handle_again :
    (o again : Outside) (command : RunnerCommand) (s : Runner)
    → let t = handle_slot_command o command s in
      (result : RunnerCommandResult) × (get command.command_id t.results ≡ some result)
      × (handle_slot_command again command t ≡ publish_result result t)
unfolding handle_slot_command
handle_again o again command s = (a.0, a.1, ground (arith, a.1))
  where
    a : IsAnswered command (handle_slot_command o command s)
    a = answered o command s
