-- ===== src/Agent/State.antt =====
-- services/gateway/src/oneiroi_gateway/repositories/agent.py, `InMemoryAgentRepository`: the
-- stored records, the dictionaries, and the helpers that every method uses. A method runs under
-- the repository's lock, so it is one step; `now` is its reading of the clock.
use oneiroi.Prelude.{
  ℕ, ◌+◌, String, Bool, true, not, ◌||◌, Option, none, some, List, [], ◌∷◌, ◌++◌, ◌==◌, string_eq,
  option_eq, leb, or_else, length,
}
use oneiroi.Prelude.Dict.{Dict, get, put}
use oneiroi.Prelude.Effects.{Exec, gets, require, raise_if, pure, modify, ◌>>=◌, ◌>>◌}
use oneiroi.Agent.{
  Json, AgentRunResponse, AgentThreadResponse, AgentMessageResponse, AgentToolCallResponse,
  AgentApprovalResponse, AgentEventResponse, Payload,
}

pub record StoredAgentThread : Type 0 where
  pub owner_id : String
  pub response : AgentThreadResponse

-- `active_duration_seconds` counts in the clock's ticks.
pub record StoredAgentRun : Type 0 where
  pub owner_id : String
  pub response : AgentRunResponse
  pub idempotency_key : String
  pub request_hash : String
  pub executor_id : Option String
  pub execution_lease_expires_at : Option ℕ
  pub active_duration_seconds : ℕ
  pub provider_event_count : ℕ

pub record StoredAgentToolCall : Type 0 where
  pub owner_id : String
  pub provider_call_id : String
  pub response : AgentToolCallResponse

pub record StoredAgentApproval : Type 0 where
  pub owner_id : String
  pub response : AgentApprovalResponse
  pub decision_metadata : Json

pub record AgentToolDecision : Type 0 where
  pub tool_call : StoredAgentToolCall
  pub approval : StoredAgentApproval
  pub run : StoredAgentRun
  pub claimed : Bool
  pub approved : Bool

pub data AgentError : Type 0 where
  key_error value_error runtime_error : String → AgentError
  execution_owned state_conflict : StoredAgentRun → AgentError

pub record AgentRepository : Type 0 where
  pub threads : Dict String StoredAgentThread
  pub thread_by_conversation : Dict String String
  pub messages : Dict String (List (String × AgentMessageResponse))
  pub runs : Dict String StoredAgentRun
  pub idempotency : Dict (String × String) String
  pub events : Dict String (List (String × AgentEventResponse))
  pub tool_calls : Dict String StoredAgentToolCall
  pub tool_call_by_provider : Dict (String × String) String
  pub approvals : Dict String StoredAgentApproval
  pub approval_by_tool_call : Dict String String
  pub event_id : ℕ

abbrev pub Action : Type 0 → Type 0
Action = Exec AgentError AgentRepository

abbrev pub initial : AgentRepository
initial = record {
  threads = [];
  thread_by_conversation = [];
  messages = [];
  runs = [];
  idempotency = [];
  events = [];
  tool_calls = [];
  tool_call_by_provider = [];
  approvals = [];
  approval_by_tool_call = [];
  event_id = 1;
}

-- Python's `expires is None or expires <= now`.
abbrev pub is_lapsed : ℕ → Option ℕ → Bool
is_lapsed now none = true
is_lapsed now (some expires) = leb expires now

-- Whether an executor may write to a run; a caller that names none is not checked.
abbrev pub is_owned : ℕ → StoredAgentRun → Option String → Bool
is_owned now run none = true
is_owned now run (some executor_id) =
    not (not (run.executor_id == some executor_id) || is_lapsed now run.execution_lease_expires_at)

abbrev pub assert_execution_owned : ℕ → StoredAgentRun → Option String → Action Unit
assert_execution_owned now run executor_id =
    raise_if (not (is_owned now run executor_id)) (execution_owned run)

-- `run = self.runs.get(run_id)`, with the check of the owner
unfoldable pub find_run : String → String → Action StoredAgentRun
find_run owner_id run_id = do
  found ← gets (λ s. get run_id s.runs)
  run ← require found (key_error run_id)
  raise_if (not (run.owner_id == owner_id)) (key_error run_id)
  pure run

abbrev pub put_run : String → StoredAgentRun → Action Unit
put_run run_id run = modify λ s. record s { runs = put run_id run s.runs }

abbrev pub new_event :
    AgentRunResponse
    → String
    → Payload
    → ℕ
    → List (String × AgentEventResponse)
    → ℕ
    → AgentEventResponse
new_event run event_type payload now items event_id = record {
  id = event_id;
  run_id = run.id;
  thread_id = run.thread_id;
  event_type = event_type;
  sequence = length items + 1;
  payload = payload;
  created_at = now;
}

-- `_append_event_locked`
unfoldable pub append_event_locked :
    String → AgentRunResponse → String → Payload → ℕ → Action AgentEventResponse
append_event_locked owner_id run event_type payload now = do
  items ← gets (λ s. or_else (get run.id s.events) [])
  event_id ← gets (λ s. s.event_id)
  let event = new_event run event_type payload now items event_id
  modify (λ s. record s {
    event_id = event_id + 1;
    events = put run.id (items ++ (owner_id, event) ∷ []) s.events;
  })
  pure event
