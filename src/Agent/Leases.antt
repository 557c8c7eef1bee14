-- ===== src/Agent/Leases.antt =====
-- repositories/agent.py, `InMemoryAgentRepository`: the execution lease of a run, and the writes
-- that an executor makes to it.
use oneiroi.Prelude.{
  ℕ, ◌+◌, String, Bool, false, not, ◌&&◌, ◌||◌, Option, none, some, List, ◌==◌, string_eq,
  option_eq, leb, is_none, elem, if◌then◌else◌,
}
use oneiroi.Prelude.Int.{ℤ, pos_part}
use oneiroi.Prelude.Effects.{raise_if, pure, ◌>>=◌, ◌>>◌}
use oneiroi.Agent.{
  AgentMessageContent, AgentMessageResponse, AgentMessageRole, AgentRunStatus, AgentEventResponse,
  Payload, run_status_eq,
}
use oneiroi.Agent.State.{
  Action, StoredAgentRun, value_error, execution_owned, state_conflict, find_run, put_run,
  assert_execution_owned, append_event_locked, is_lapsed,
}
use oneiroi.Agent.Runs.{add_message}

unfoldable pub claim_run_execution :
    String → String → String → (expires now : ℕ) → Action StoredAgentRun
claim_run_execution owner_id run_id executor_id lease_expires_at now = do
  run ← find_run owner_id run_id
  raise_if
      (not (is_none run.executor_id)
        && not (run.executor_id == some executor_id)
        && not (is_lapsed now run.execution_lease_expires_at))
      (execution_owned run)
  let claimed = record run {
    executor_id = some executor_id;
    execution_lease_expires_at = some lease_expires_at;
  }
  put_run run_id claimed
  pure claimed

unfoldable pub renew_run_execution :
    String → String → String → (expires now : ℕ) → Action StoredAgentRun
renew_run_execution owner_id run_id executor_id lease_expires_at now = do
  run ← find_run owner_id run_id
  raise_if
      (not (run.executor_id == some executor_id) || is_lapsed now run.execution_lease_expires_at)
      (execution_owned run)
  let renewed = record run { execution_lease_expires_at = some lease_expires_at }
  put_run run_id renewed
  pure renewed

-- the run without its lease, if the executor holds it
unfoldable pub released : String → StoredAgentRun → StoredAgentRun
released executor_id run =
    if run.executor_id == some executor_id
    then record run { executor_id = none; execution_lease_expires_at = none }
    else run

unfoldable pub release_run_execution : String → String → String → Action StoredAgentRun
release_run_execution owner_id run_id executor_id = do
  run ← find_run owner_id run_id
  put_run run_id (released executor_id run)
  pure (released executor_id run)

unfoldable pub record_active_seconds : String → String → String → ℤ → ℕ → Action StoredAgentRun
record_active_seconds owner_id run_id executor_id seconds now = do
  run ← find_run owner_id run_id
  assert_execution_owned now run (some executor_id)
  let counted = record run {
    active_duration_seconds = run.active_duration_seconds + pos_part seconds;
  }
  put_run run_id counted
  pure counted

unfoldable pub consume_provider_event :
    String → String → String → (maximum now : ℕ) → Action StoredAgentRun
consume_provider_event owner_id run_id executor_id maximum now = do
  run ← find_run owner_id run_id
  assert_execution_owned now run (some executor_id)
  raise_if (leb maximum run.provider_event_count) (value_error "AGENT_EVENT_LIMIT_EXCEEDED")
  let consumed = record run { provider_event_count = run.provider_event_count + 1 }
  put_run run_id consumed
  pure consumed

-- The caller's copy of a run, with the fields that only the repository writes.
abbrev pub merged : StoredAgentRun → StoredAgentRun → StoredAgentRun
merged existing run = record run {
  executor_id = existing.executor_id;
  execution_lease_expires_at = existing.execution_lease_expires_at;
  active_duration_seconds = existing.active_duration_seconds;
  provider_event_count = existing.provider_event_count;
}

unfoldable pub transition_run :
    StoredAgentRun
    → String
    → Payload
    → List AgentRunStatus
    → Option String
    → ℕ
    → Action AgentEventResponse
unfolding append_event_locked
transition_run run event_type payload expected_statuses executor_id now = do
  existing ← find_run run.owner_id run.response.id
  assert_execution_owned now existing executor_id
  raise_if (not (elem existing.response.status expected_statuses)) (state_conflict existing)
  put_run run.response.id (merged existing run)
  append_event_locked run.owner_id run.response event_type payload now

-- `expected_statuses is not None and status not in expected_statuses`
abbrev pub is_unexpected : AgentRunStatus → Option (List AgentRunStatus) → Bool
is_unexpected status none = false
is_unexpected status (some expected) = not (elem status expected)

unfoldable pub append_event :
    String
    → String
    → String
    → Payload
    → Option (List AgentRunStatus)
    → Option String
    → ℕ
    → Action AgentEventResponse
unfolding append_event_locked
append_event owner_id run_id event_type payload expected_statuses executor_id now = do
  run ← find_run owner_id run_id
  assert_execution_owned now run executor_id
  raise_if (is_unexpected run.response.status expected_statuses) (state_conflict run)
  append_event_locked owner_id run.response event_type payload now

-- The second part of the result is the caller's `run`, which the method updates in place.
unfoldable pub finish_run :
    StoredAgentRun
    → AgentMessageContent
    → String
    → Payload
    → List AgentRunStatus
    → Option String
    → String
    → ℕ
    → Action (AgentMessageResponse × StoredAgentRun)
unfolding append_event_locked add_message
finish_run run assistant_content event_type payload expected_statuses executor_id fresh now = do
  existing ← find_run run.owner_id run.response.id
  assert_execution_owned now existing executor_id
  raise_if (not (elem existing.response.status expected_statuses)) (state_conflict existing)
  let finished = record run { response = record run.response { output_message_id = some fresh } }
  put_run run.response.id (merged existing finished)
  message ← add_message finished AgentMessageRole.assistant assistant_content fresh now
  append_event_locked finished.owner_id finished.response event_type payload now
  pure (message, finished)
