-- ===== src/Agent/Tools.antt =====
-- repositories/agent.py, `InMemoryAgentRepository`: tool calls, from proposal to result.
use oneiroi.Prelude.{
  ℕ, String, Bool, true, false, not, ◌&&◌, ◌||◌, Option, none, some, List, [], ◌∷◌, ◌==◌, string_eq,
  pair_eq, ltb, elem, filter, sort_by, truthy, if◌then◌else◌,
}
use oneiroi.Prelude.Dict.{get, put, values}
use oneiroi.Prelude.Effects.{require, raise_if, pure, gets, modify, ◌>>=◌, ◌>>◌}
use oneiroi.Agent.{
  AgentRunStatus, AgentToolCallStatus, Json, Payload, run_status_eq, tool_status_eq,
}
use oneiroi.Agent.State.{
  Action, StoredAgentRun, StoredAgentToolCall, StoredAgentApproval, key_error, value_error,
  state_conflict, find_run, put_run, assert_execution_owned, append_event_locked,
}
use oneiroi.Agent.Runs.{get_run}

-- `self.tool_calls.get(id)`, with the check of the owner
unfoldable pub find_tool_call : String → String → Action StoredAgentToolCall
find_tool_call owner_id tool_call_id = do
  found ← gets (λ s. get tool_call_id s.tool_calls)
  stored ← require found (key_error tool_call_id)
  raise_if (not (stored.owner_id == owner_id)) (key_error tool_call_id)
  pure stored

abbrev pub put_tool_call : String → StoredAgentToolCall → Action Unit
put_tool_call id call = modify λ s. record s { tool_calls = put id call s.tool_calls }

-- `self.runs[call.response.run_id]`
abbrev pub run_of : StoredAgentToolCall → Action StoredAgentRun
run_of call = do
  found ← gets (λ s. get call.response.run_id s.runs)
  require found (key_error call.response.run_id)

abbrev pub with_response : StoredAgentRun → StoredAgentRun → StoredAgentRun
with_response existing run = record existing { response = run.response }

abbrev Proposal : Type 0
Proposal = StoredAgentToolCall × Option StoredAgentApproval × Bool

-- `self.approvals[approval_id]`, if the tool call has one
unfoldable pub approval_of : Option String → Action (Option StoredAgentApproval)
approval_of none = pure none
approval_of (some approval_id) = do
  found ← gets (λ s. get approval_id s.approvals)
  approval ← require found (key_error approval_id)
  pure (some approval)

-- a proposal that repeats a call of the provider
unfoldable pub repeated_proposal :
    StoredAgentRun → StoredAgentRun → StoredAgentToolCall → String → Action Proposal
unfolding approval_of
repeated_proposal run existing_run tool_call existing_id = do
  found ← gets (λ s. get existing_id s.tool_calls)
  existing ← require found (key_error existing_id)
  raise_if
      (not (existing.response.tool_name == tool_call.response.tool_name)
        || not (existing.response.arguments_hash == tool_call.response.arguments_hash))
      (value_error "AGENT_TOOL_CALL_REUSED")
  raise_if (not (existing_run.response.status == AgentRunStatus.streaming))
      (state_conflict existing_run)
  put_run run.response.id (with_response existing_run run)
  linked ← gets (λ s. get existing_id s.approval_by_tool_call)
  approval ← approval_of linked
  pure (existing, approval, false)

-- asks for the approval of a new call
unfoldable pub require_approval :
    StoredAgentRun
    → StoredAgentRun
    → StoredAgentToolCall
    → Option StoredAgentApproval
    → ℕ
    → Action Unit
unfolding append_event_locked
require_approval run updated tool_call none now = pure tt
require_approval run updated tool_call (some approval) now = do
  let waiting = record updated {
    response = record updated.response { status = AgentRunStatus.waiting_approval };
  }
  modify (λ s. record s {
    approvals = put approval.response.id approval s.approvals;
    approval_by_tool_call = put tool_call.response.id approval.response.id s.approval_by_tool_call;
  })
  put_run run.response.id waiting
  append_event_locked run.owner_id waiting.response "agent.approval.required"
      (Payload.tool_call_approval tool_call.response approval.response) now
  append_event_locked run.owner_id waiting.response "agent.run.waiting_approval"
      (Payload.status AgentRunStatus.waiting_approval) now
  pure tt

unfoldable pub new_proposal :
    StoredAgentRun
    → StoredAgentRun
    → StoredAgentToolCall
    → Option StoredAgentApproval
    → ℕ
    → Action Proposal
unfolding append_event_locked require_approval
new_proposal run existing_run tool_call approval now = do
  raise_if (not (existing_run.response.status == AgentRunStatus.streaming))
      (state_conflict existing_run)
  let updated = with_response existing_run run
  put_run run.response.id updated
  put_tool_call tool_call.response.id tool_call
  modify (λ s. record s {
    tool_call_by_provider =
        put (run.response.id, tool_call.provider_call_id) tool_call.response.id
          s.tool_call_by_provider;
  })
  append_event_locked run.owner_id updated.response "agent.tool.proposed"
      (Payload.tool_call tool_call.response) now
  require_approval run updated tool_call approval now
  pure (tool_call, approval, true)

-- a new call or a repeated one, by what the provider's id already names
unfoldable pub propose_for :
    StoredAgentRun
    → StoredAgentRun
    → StoredAgentToolCall
    → Option StoredAgentApproval
    → ℕ
    → Option String
    → Action Proposal
unfolding repeated_proposal new_proposal
propose_for run existing_run tool_call approval now none =
    new_proposal run existing_run tool_call approval now
propose_for run existing_run tool_call approval now (some existing_id) =
    repeated_proposal run existing_run tool_call existing_id

unfoldable pub propose_tool_call :
    StoredAgentRun
    → StoredAgentToolCall
    → Option StoredAgentApproval
    → Option String
    → ℕ
    → Action Proposal
unfolding propose_for
propose_tool_call run tool_call approval executor_id now = do
  existing_run ← find_run run.owner_id run.response.id
  assert_execution_owned now existing_run executor_id
  known ← gets (λ s. get (run.response.id, tool_call.provider_call_id) s.tool_call_by_provider)
  propose_for run existing_run tool_call approval now (truthy known)

unfoldable pub get_tool_call : String → String → Action StoredAgentToolCall
get_tool_call owner_id tool_call_id = find_tool_call owner_id tool_call_id

unfoldable pub list_tool_calls : String → String → Action (List StoredAgentToolCall)
unfolding get_run
list_tool_calls owner_id run_id = do
  get_run owner_id run_id
  gets (λ s.
      sort_by (λ a b. ltb a.response.created_at b.response.created_at)
        (filter (λ call. call.owner_id == owner_id && call.response.run_id == run_id)
          (values s.tool_calls)))

unfoldable pub start_tool :
    String
    → String
    → List AgentRunStatus
    → List AgentToolCallStatus
    → Option String
    → ℕ
    → Action StoredAgentToolCall
unfolding append_event_locked
start_tool owner_id tool_call_id expected_run_statuses expected_tool_statuses executor_id now = do
  stored ← find_tool_call owner_id tool_call_id
  run ← run_of stored
  assert_execution_owned now run executor_id
  raise_if (not (elem run.response.status expected_run_statuses)) (state_conflict run)
  raise_if (not (elem stored.response.status expected_tool_statuses))
      (value_error "AGENT_TOOL_STATE_CONFLICT")
  let started = record stored {
    response = record stored.response {
      status = AgentToolCallStatus.running;
      started_at = some now;
    };
  }
  put_tool_call tool_call_id started
  append_event_locked owner_id run.response "agent.tool.started"
      (Payload.tool_call started.response) now
  pure started

-- the write at the end of `finish_tool`
unfoldable pub close_tool :
    String
    → String
    → StoredAgentToolCall
    → StoredAgentRun
    → AgentToolCallStatus
    → Option Json
    → Option String
    → Option String
    → ℕ
    → Action StoredAgentToolCall
unfolding append_event_locked
close_tool owner_id tool_call_id stored run status result error_code error_message now = do
  let finished = record stored {
    response = record stored.response {
      status = status;
      result = result;
      error_code = error_code;
      error_message = error_message;
      finished_at = some now;
    };
  }
  put_tool_call tool_call_id finished
  append_event_locked owner_id run.response
      (if status == AgentToolCallStatus.succeeded
        then "agent.tool.completed"
        else "agent.tool.failed")
      (Payload.tool_call finished.response) now
  pure finished

abbrev pub is_final : AgentToolCallStatus → Bool
is_final status = elem status (AgentToolCallStatus.succeeded ∷ AgentToolCallStatus.failed ∷ [])

unfoldable pub finish_tool :
    String
    → String
    → AgentToolCallStatus
    → Option Json
    → Option String
    → Option String
    → Option String
    → ℕ
    → Action StoredAgentToolCall
unfolding close_tool
finish_tool owner_id tool_call_id status result error_code error_message executor_id now = do
  raise_if (not (is_final status)) (value_error "AGENT_TOOL_STATE_CONFLICT")
  stored ← find_tool_call owner_id tool_call_id
  run ← run_of stored
  assert_execution_owned now run executor_id
  let running = stored.response.status == AgentToolCallStatus.running
  let same = not running && stored.response.status == status
  let approved_failure =
      status == AgentToolCallStatus.failed && stored.response.status == AgentToolCallStatus.approved
  let close = close_tool owner_id tool_call_id stored run status result error_code error_message now
  raise_if (not running && not same && not approved_failure)
      (value_error "AGENT_TOOL_STATE_CONFLICT")
  if same then pure stored else close
