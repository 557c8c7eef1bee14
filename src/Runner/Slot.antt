-- ===== src/Runner/Slot.antt =====
-- `_job_loop` and `_run_job` of redis_runtime.py: the jobs of a slot, one after the other.
use oneiroi.Prelude.{
  String, Bool, true, false, not, Option, none, some, List, [], ◌∷◌, ◌++◌, ◌==◌, string_eq,
  option_eq, map, or_else, truthy, if◌then◌else◌, ℕ, take, drop,
}
use oneiroi.Prelude.Effects.{Result, ok, err}
use oneiroi.Jobs.Tasks.{before_colon}
use oneiroi.Runner.{Raised, exception, cancelled_error}
use oneiroi.Runner.Work.{GenerationResult, JobMessage, JobRun, run_job}
use oneiroi.Runner.Runtime.{Runner, JobEvent, progressed, succeeded, cancelled, failed}

-- An entry of the slot's stream, and what its job meets outside: the token of its payload, what the
-- building of the request raises (the type's name and the message), what sending it raises, what the
-- worker says, whether its process is alive at the end, what the validation of a result raises, how
-- many of the reports of progress are on the stream when a job that does not succeed publishes its
-- last event, and what this publication raises. That of a report, and that of the event which tells
-- of an exception, are taken not to raise.
pub record JobEntry : Type 0 where
  pub job_id : String
  pub fencing_token : Option String
  pub request_raises : Option (String × String)
  pub send_raises : Option Raised
  pub messages : List JobMessage
  pub alive : Bool
  pub escaped : GenerationResult → Option Raised
  pub published : ℕ
  pub last_raises : Option (String × String)

abbrev pub publish_all : String → List JobEvent → Runner → Runner
publish_all job_id [] s = s
publish_all job_id (event ∷ events) s =
    publish_all job_id events (record s { job_events = s.job_events ++ (job_id, event) ∷ [] })

-- `message.split(":", 1)[0] or type(exc).__name__`
unfoldable pub code_of : String → String → String
code_of kind message = or_else (truthy (some (before_colon message))) kind

-- the last event of a job, and whether the loop goes on
abbrev pub final_event : Result Raised GenerationResult → JobEvent
final_event (ok result) = succeeded result
final_event (err cancelled_error) = cancelled
final_event (err (exception kind message)) = failed (code_of kind message) message

abbrev pub goes_on : Result Raised GenerationResult → Bool
goes_on (err cancelled_error) = false
goes_on _ = true

-- If its publication raises, the job is reported as failed instead: by `_run_job` if it succeeded,
-- and otherwise by the loop, which has caught this exception and not the cancellation.
abbrev pub last_event : Option (String × String) → Result Raised GenerationResult → JobEvent
last_event none result = final_event result
last_event (some (kind, message)) (ok result) = failed (code_of kind message) message
last_event (some (kind, message)) (err raised) = failed kind message

abbrev pub loop_goes_on : Option (String × String) → Result Raised GenerationResult → Bool
loop_goes_on none result = goes_on result
loop_goes_on (some raises) result = true

-- The reports of progress are published by tasks of their own. They are awaited before the last event
-- of a job that succeeds; otherwise those that are late follow it.
abbrev pub all_events : JobEntry → JobRun → List JobEvent
all_events entry run = in_order run.result
  where
    reports : List JobEvent
    reports = map progressed run.reports

    in_order : Result Raised GenerationResult → List JobEvent
    in_order (ok result) = reports ++ last_event entry.last_raises (ok result) ∷ []
    in_order (err raised) =
        take entry.published reports
        ++ last_event entry.last_raises (err raised) ∷ drop entry.published reports

-- after the job: a cancellation is raised again, and ends the task of the loop
unfoldable pub conclude : JobEntry → JobRun → Runner → Runner
unfolding code_of
conclude entry run s =
    publish_all entry.job_id (all_events entry run)
      (record s { job_loop = loop_goes_on entry.last_raises run.result })

-- `_run_job`
unfoldable pub run_entry_job : JobEntry → Runner → Runner
unfolding conclude
run_entry_job entry s =
    let r = run_job entry.escaped entry.send_raises entry.alive entry.messages s.supervisor in
    conclude entry r.0 (record s { supervisor = r.1 })

-- an exception before the job: its type's name is the error
abbrev pub reject : JobEntry → String → String → Runner → Runner
reject entry kind message s = publish_all entry.job_id (failed kind message ∷ []) s

abbrev pub run_or_reject : JobEntry → Option (String × String) → Runner → Runner
run_or_reject entry none s = run_entry_job entry s
run_or_reject entry (some (kind, message)) s = reject entry kind message s

-- one round of `_job_loop`; an ended loop reads nothing
unfoldable pub handle_entry : JobEntry → Runner → Runner
unfolding run_entry_job
handle_entry entry s =
    if not s.job_loop
    then s
    else if not (entry.fencing_token == s.current_fencing_token)
    then reject entry "RuntimeError" "FENCING_TOKEN_MISMATCH" s
    else run_or_reject entry entry.request_raises s

unfoldable pub handle_entries : List JobEntry → Runner → Runner
unfolding handle_entry
handle_entries [] s = s
handle_entries (entry ∷ entries) s = handle_entries entries (handle_entry entry s)
