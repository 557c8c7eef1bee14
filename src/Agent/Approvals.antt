-- ===== src/Agent/Approvals.antt =====
-- repositories/agent.py, `InMemoryAgentRepository`: the approval of a tool call, decided once.
use oneiroi.Prelude.{
  ℕ, String, Bool, true, false, not, ◌||◌, some, List, ◌==◌, string_eq, leb, filter, if◌then◌else◌,
}
use oneiroi.Prelude.Dict.{get, put, values}
use oneiroi.Prelude.Effects.{require, raise_if, pure, gets, modify, ◌>>=◌, ◌>>◌}
use oneiroi.Agent.{
  AgentRunStatus, AgentToolCallStatus, AgentApprovalStatus, Json, Payload, is_terminal,
  run_status_eq, approval_status_eq,
}
use oneiroi.Agent.State.{
  Action, StoredAgentRun, StoredAgentToolCall, StoredAgentApproval, AgentToolDecision, key_error,
  state_conflict, put_run, append_event_locked,
}
use oneiroi.Agent.Tools.{put_tool_call, run_of}

abbrev pub put_approval : String → StoredAgentApproval → Action Unit
put_approval id approval = modify λ s. record s { approvals = put id approval s.approvals }

unfoldable pub get_approval_by_tool_call : String → String → Action StoredAgentApproval
get_approval_by_tool_call owner_id tool_call_id = do
  known ← gets (λ s. get tool_call_id s.approval_by_tool_call)
  approval_id ← require known (key_error tool_call_id)
  found ← gets (λ s. get approval_id s.approvals)
  approval ← require found (key_error approval_id)
  raise_if (not (approval.owner_id == owner_id)) (key_error tool_call_id)
  pure approval

unfoldable pub list_pending_approvals : Action (List StoredAgentApproval)
list_pending_approvals =
    gets (λ s. filter (λ a. a.response.status == AgentApprovalStatus.pending) (values s.approvals))

-- What a decision is about: the approval with its id, its tool call and its run.
pub record Subject : Type 0 where
  pub approval_id : String
  pub approval : StoredAgentApproval
  pub tool_call : StoredAgentToolCall
  pub run : StoredAgentRun

-- the lookups that `decide_approval` and `expire_approval` begin with
unfoldable pub find_subject : String → String → Action Subject
find_subject owner_id tool_call_id = do
  known ← gets (λ s. get tool_call_id s.approval_by_tool_call)
  approval_id ← require known (key_error tool_call_id)
  found_approval ← gets (λ s. get approval_id s.approvals)
  approval ← require found_approval (key_error approval_id)
  found_call ← gets (λ s. get tool_call_id s.tool_calls)
  tool_call ← require found_call (key_error tool_call_id)
  raise_if (not (approval.owner_id == owner_id) || not (tool_call.owner_id == owner_id))
      (key_error tool_call_id)
  run ← run_of tool_call
  pure (record { approval_id = approval_id; approval = approval; tool_call = tool_call; run = run })

abbrev pub decision :
    StoredAgentToolCall → StoredAgentApproval → StoredAgentRun → Bool → Bool → AgentToolDecision
decision tool_call approval run claimed approved = record {
  tool_call = tool_call;
  approval = approval;
  run = run;
  claimed = claimed;
  approved = approved;
}

-- whether an expiry ends the run
abbrev pub is_waiting : StoredAgentRun → Bool
is_waiting run = run.response.status == AgentRunStatus.waiting_approval

unfoldable pub expired_run : ℕ → StoredAgentRun → StoredAgentRun
expired_run now run =
    if is_waiting run
    then record run {
      response = record run.response { status = AgentRunStatus.expired; finished_at = some now };
    }
    else run

-- the last event of an expiry, if the run waited
unfoldable pub expire_run : Bool → StoredAgentRun → ℕ → Action Unit
unfolding append_event_locked
expire_run false run now = pure tt
expire_run true run now = do
  append_event_locked run.owner_id run.response "agent.run.expired"
      (Payload.status AgentRunStatus.expired) now
  pure tt

-- `_expire_approval_locked`
unfoldable pub expire_approval_locked : String → Subject → ℕ → Action AgentToolDecision
unfolding append_event_locked expire_run
expire_approval_locked tool_call_id subject now = do
  let approval = record subject.approval {
    response = record subject.approval.response {
      status = AgentApprovalStatus.expired;
      decided_at = some now;
    };
  }
  let tool_call = record subject.tool_call {
    response = record subject.tool_call.response {
      status = AgentToolCallStatus.expired;
      finished_at = some now;
    };
  }
  let run = expired_run now subject.run
  put_approval subject.approval_id approval
  put_tool_call tool_call_id tool_call
  put_run tool_call.response.run_id run
  append_event_locked run.owner_id run.response "agent.approval.expired"
      (Payload.approval approval.response) now
  expire_run (is_waiting subject.run) run now
  pure (decision tool_call approval run false false)

abbrev pub decided : Bool → StoredAgentApproval → Json → ℕ → StoredAgentApproval
decided true approval metadata now = record approval {
  decision_metadata = metadata;
  response = record approval.response {
    status = AgentApprovalStatus.consumed;
    decided_at = some now;
    consumed_at = some now;
  };
}
decided false approval metadata now = record approval {
  decision_metadata = metadata;
  response = record approval.response {
    status = AgentApprovalStatus.rejected;
    decided_at = some now;
  };
}

abbrev pub judged : Bool → StoredAgentToolCall → ℕ → StoredAgentToolCall
judged true tool_call now = record tool_call {
  response = record tool_call.response { status = AgentToolCallStatus.approved };
}
judged false tool_call now = record tool_call {
  response = record tool_call.response {
    status = AgentToolCallStatus.rejected;
    finished_at = some now;
    result = some "{\"ok\": false, \"error\": {\"code\": \"AGENT_TOOL_REJECTED\"}}";
  };
}

-- the branch of `decide_approval` that decides
unfoldable pub decide :
    String → String → Subject → Bool → Json → String → (expires now : ℕ) → Action AgentToolDecision
unfolding append_event_locked
decide owner_id tool_call_id subject approve metadata executor_id lease_expires_at now = do
  let approval = decided approve subject.approval metadata now
  let tool_call = judged approve subject.tool_call now
  let run = record subject.run {
    response = record subject.run.response { status = AgentRunStatus.executing_tool };
    executor_id = some executor_id;
    execution_lease_expires_at = some lease_expires_at;
  }
  put_approval subject.approval_id approval
  put_tool_call tool_call_id tool_call
  put_run tool_call.response.run_id run
  append_event_locked owner_id run.response
      (if approve then "agent.approval.approved" else "agent.approval.rejected")
      (Payload.approval approval.response) now
  append_event_locked owner_id run.response
      (if approve then "agent.tool.approved" else "agent.tool.rejected")
      (Payload.tool_call tool_call.response) now
  pure (decision tool_call approval run true approve)

unfoldable pub decide_approval :
    String
    → String
    → (approve : Bool) → Json
    → String
    → (expires now : ℕ) → Action AgentToolDecision
unfolding expire_approval_locked decide
decide_approval owner_id tool_call_id approve metadata executor_id lease_expires_at now = do
  subject ← find_subject owner_id tool_call_id
  let open_status = subject.approval.response.status
  let known = pure (
      decision subject.tool_call subject.approval subject.run false
        (open_status == AgentApprovalStatus.consumed))
  let late = expire_approval_locked tool_call_id subject now
  let conflict =
      raise_if (not (subject.run.response.status == AgentRunStatus.waiting_approval))
        (state_conflict subject.run)
  let settle =
      decide owner_id tool_call_id subject approve metadata executor_id lease_expires_at now
  if not (open_status == AgentApprovalStatus.pending)
      then known
      else if leb subject.approval.response.expires_at now
          || is_terminal subject.run.response.status
      then late
      else conflict >> settle

unfoldable pub expire_approval : String → String → ℕ → Action AgentToolDecision
unfolding expire_approval_locked
expire_approval owner_id tool_call_id now = do
  subject ← find_subject owner_id tool_call_id
  let known = pure (decision subject.tool_call subject.approval subject.run false false)
  let late = expire_approval_locked tool_call_id subject now
  if not (subject.approval.response.status == AgentApprovalStatus.pending) then known else late
