-- ===== src/Examples/Runs.antt =====
-- An agent run that an executor holds, and one that waits for a decision, at concrete values.
use oneiroi.Prelude.{
  ℕ, ◌≡◌, ◌<◌, refl, true, false, none, some, List, [], ◌∷◌, string_eq, strings_differ, arith,
  if◌then◌else◌,
}
use oneiroi.Prelude.Dict.{get, put}
use oneiroi.Prelude.Effects.{Result, ok, err, ◌>>=◌}
use oneiroi.Agent.{
  AgentRunStatus, AgentRunResponse, AgentMessageContent, AgentThreadStatus, AgentToolRisk,
  AgentToolCallStatus, AgentApprovalStatus, given,
}
use oneiroi.Agent.State.{
  AgentRepository, AgentError, StoredAgentRun, StoredAgentThread, StoredAgentToolCall,
  StoredAgentApproval, AgentToolDecision, initial, value_error,
}
use oneiroi.Agent.Runs.{create_run}
use oneiroi.Agent.Approvals.{decide_approval, decide, find_subject, Subject}
use oneiroi.Agent.Calls.{Call, step, run, finishes, claims, opens_thread, appends}
use oneiroi.Agent.Fencing.{IsHeldByOther, stale_changes_nothing}
use oneiroi.Agent.Elsewhere.{status_at}
use oneiroi.Agent.Lifecycle.{terminal_kept}
use oneiroi.Agent.Trace.{IsTraced}
use oneiroi.Agent.Numbering.{run-IsTraced}
use oneiroi.Agent.Creation.{IsAdmitted, create_run-IsAdmitted, create_run_again}
use oneiroi.Agent.Subjects.{IsSubject}
use oneiroi.Agent.Decisions.{claimed_cases, decided_once}

abbrev response : AgentRunStatus → AgentRunResponse
response status = record {
  id = "run";
  thread_id = "thread";
  conversation_id = "conversation";
  status = status;
  model = "m";
  provider = "p";
  transport = "sse";
  reasoning_effort = "low";
  prompt_version = "1";
  toolset_version = "1";
  input_snapshot = "{}";
  usage = record { input_tokens = 0; output_tokens = 0; total_tokens = 0; provider_requests = 0 };
  provider_response_id = none;
  error_code = none;
  error_message = none;
  output_message_id = none;
  created_at = 0;
  started_at = none;
  finished_at = none;
}

-- a run of this status, held by executor x until 100
abbrev held_run : AgentRunStatus → StoredAgentRun
held_run status = record {
  owner_id = "owner";
  response = response status;
  idempotency_key = "key";
  request_hash = "hash";
  executor_id = some "x";
  execution_lease_expires_at = some 100;
  active_duration_seconds = 0;
  provider_event_count = 0;
}

abbrev holding : AgentRunStatus → AgentRepository
holding status = record initial { runs = ("run", held_run status) ∷ [] }

held_by_x : IsHeldByOther 50 (held_run AgentRunStatus.streaming) "y"
held_by_x = record {
  holder = "x";
  expires = 100;
  held = refl;
  leased = refl;
  fresh = omega arith;
  other = strings_differ "x" "y" refl;
}

abbrev content : AgentMessageContent
content = record { text = "done"; draft_proposal = none; rationale = []; warnings = [] }

abbrev streaming_run : StoredAgentRun
streaming_run = held_run AgentRunStatus.streaming

abbrev busy : AgentRepository
busy = holding AgentRunStatus.streaming

busy-run : get "run" busy.runs ≡ some streaming_run
unfolding get
busy-run = refl

-- executor y appends an event to a run that x holds
abbrev stale_append : Call
stale_append = appends "owner" "run" "e" (given "{}") none (some "y")

stale_changes_nothing_example : step 50 stale_append busy ≡ busy
stale_changes_nothing_example =
    stale_changes_nothing 50 stale_append busy "run" "y" streaming_run busy-run held_by_x
      (refl, refl)

-- a run that is completed cannot be finished again
abbrev done : AgentRepository
done = holding AgentRunStatus.completed

abbrev finish_again : Call
finish_again =
    finishes (held_run AgentRunStatus.failed) content "agent.failed" (given "{}")
      (AgentRunStatus.streaming ∷ []) (some "x") "message"

done-status : status_at "run" done ≡ some AgentRunStatus.completed
unfolding get
done-status = refl

terminal_kept_example : status_at "run" (step 50 finish_again done) ≡ some AgentRunStatus.completed
terminal_kept_example =
    terminal_kept 50 finish_again done "run" AgentRunStatus.completed (refl, tt) done-status refl

initial-IsTraced : IsTraced initial
unfolding get
initial-IsTraced = (omega arith, λ k items h. ground (arith, h))

abbrev history : List (ℕ × Call)
history =
    (1, opens_thread "owner" "conversation" "1" "thread") ∷ (2, claims "owner" "run" "x" 50) ∷ []

run-IsTraced_example : IsTraced (run history initial)
run-IsTraced_example = run-IsTraced history initial initial-IsTraced

-- a thread in which a run is created
abbrev thread : StoredAgentThread
thread = record {
  owner_id = "owner";
  response = record {
    id = "thread";
    conversation_id = "conversation";
    status = AgentThreadStatus.active;
    summary_text = none;
    summary_cursor = 0;
    prompt_version = "1";
    created_at = 0;
    updated_at = 0;
  };
}

abbrev with_thread : AgentRepository
with_thread = record initial { threads = ("thread", thread) ∷ [] }

abbrev queued_run : StoredAgentRun
queued_run = record (held_run AgentRunStatus.queued) {
  executor_id = none;
  execution_lease_expires_at = none;
}

abbrev created : AgentRepository
created = (create_run queued_run content "message" 5 with_thread).1

create_run-created :
    create_run queued_run content "message" 5 with_thread ≡ (ok (queued_run, true), created)
unfolding create_run get put ◌>>=◌
create_run-created = refl

create_run-IsAdmitted_example : IsAdmitted with_thread created queued_run
create_run-IsAdmitted_example =
    create_run-IsAdmitted queued_run queued_run content "message" 5 with_thread created
      create_run-created

create_run_again_example : create_run queued_run content "other" 6 created ≡ (
    if string_eq.beq "hash" "hash"
    then (ok (queued_run, false), created)
    else (err (value_error "IDEMPOTENCY_KEY_REUSED"), created))
create_run_again_example =
    create_run_again queued_run queued_run queued_run content content "message" "other" 5 6
      with_thread created create_run-created (strings_differ "run" "" refl) refl refl

-- a tool call that waits for the decision of its owner until 80
abbrev tool_call : StoredAgentToolCall
tool_call = record {
  owner_id = "owner";
  provider_call_id = "provider";
  response = record {
    id = "call";
    run_id = "run";
    tool_name = "tool";
    tool_version = "1";
    risk = AgentToolRisk.costly;
    arguments = "{}";
    arguments_hash = "h";
    status = AgentToolCallStatus.waiting_approval;
    result = none;
    resource_type = none;
    resource_id = none;
    error_code = none;
    error_message = none;
    created_at = 0;
    started_at = none;
    finished_at = none;
  };
}

abbrev approval : StoredAgentApproval
approval = record {
  owner_id = "owner";
  response = record {
    id = "approval";
    run_id = "run";
    tool_call_id = "call";
    arguments_hash = "h";
    status = AgentApprovalStatus.pending;
    estimated_cost = none;
    expires_at = 80;
    decided_at = none;
    consumed_at = none;
  };
  decision_metadata = "{}";
}

abbrev waiting : AgentRepository
waiting = record (holding AgentRunStatus.waiting_approval) {
  tool_calls = ("call", tool_call) ∷ [];
  approvals = ("approval", approval) ∷ [];
  approval_by_tool_call = ("call", "approval") ∷ [];
}

abbrev undecided : AgentToolDecision
undecided = record {
  tool_call = tool_call;
  approval = approval;
  run = held_run AgentRunStatus.waiting_approval;
  claimed = false;
  approved = false;
}

abbrev decision_of : Result AgentError AgentToolDecision → AgentToolDecision
decision_of (ok r) = r
decision_of (err e) = undecided

abbrev approved : AgentRepository
approved = (decide_approval "owner" "call" true "{}" "x" 90 50 waiting).1

abbrev approval_decision : AgentToolDecision
approval_decision = decision_of (decide_approval "owner" "call" true "{}" "x" 90 50 waiting).0

decide_approval-approved :
    decide_approval "owner" "call" true "{}" "x" 90 50 waiting ≡ (ok approval_decision, approved)
unfolding decide_approval get put ◌>>=◌ find_subject
decide_approval-approved = refl

decision-claimed : approval_decision.claimed ≡ true
unfolding decide_approval get put ◌>>=◌ find_subject
decision-claimed = refl

claimed_cases_example :
    (u : Subject) × IsSubject waiting "owner" "call" u
    × (u.approval.response.status ≡ AgentApprovalStatus.pending)
    × (50 < u.approval.response.expires_at)
    × (u.run.response.status ≡ AgentRunStatus.waiting_approval)
    × (decide "owner" "call" u true "{}" "x" 90 50 waiting ≡ (ok approval_decision, approved))
claimed_cases_example =
    claimed_cases waiting approved "owner" "call" true "{}" "x" 90 50 approval_decision
      decide_approval-approved decision-claimed

decided_once_example :
    (r' : AgentToolDecision) × (decide_approval "owner" "call" false "{}" "y" 99 60 approved
      ≡ (ok r', approved))
    × (r'.claimed ≡ false)
    × (r'.approved ≡ true)
    × (r'.approval ≡ approval_decision.approval)
    × (r'.tool_call ≡ approval_decision.tool_call)
decided_once_example =
    decided_once waiting approved "owner" "call" true "{}" "x" 90 50 approval_decision
      decide_approval-approved decision-claimed false "{}" "y" 99 60
