-- ===== src/Agent/Calls.antt =====
-- One call of `InMemoryAgentRepository` that may change it, and what a call leaves behind.
use oneiroi.Prelude.{ℕ, String, Bool, Option, List, [], ◌∷◌}
use oneiroi.Prelude.Int.{ℤ}
use oneiroi.Agent.{AgentMessageContent, AgentRunStatus, AgentToolCallStatus, Json, Payload}
use oneiroi.Agent.State.{AgentRepository, StoredAgentRun, StoredAgentToolCall, StoredAgentApproval}
use oneiroi.Agent.Runs.{get_or_create_thread, create_run}
use oneiroi.Agent.Leases.{
  claim_run_execution, renew_run_execution, release_run_execution, record_active_seconds,
  consume_provider_event, transition_run, append_event, finish_run,
}
use oneiroi.Agent.Tools.{propose_tool_call, start_tool, finish_tool}
use oneiroi.Agent.Approvals.{decide_approval, expire_approval}

pub data Call : Type 0 where
  opens_thread : String → String → String → String → Call
  creates_run : StoredAgentRun → AgentMessageContent → String → Call
  claims : String → String → String → ℕ → Call
  renews : String → String → String → ℕ → Call
  releases : String → String → String → Call
  records_seconds : String → String → String → ℤ → Call
  consumes_event : String → String → String → ℕ → Call
  transitions : StoredAgentRun → String → Payload → List AgentRunStatus → Option String → Call
  appends : String → String → String → Payload → Option (List AgentRunStatus) → Option String → Call
  finishes :
      StoredAgentRun
      → AgentMessageContent
      → String
      → Payload
      → List AgentRunStatus
      → Option String
      → String
      → Call
  proposes :
      StoredAgentRun → StoredAgentToolCall → Option StoredAgentApproval → Option String → Call
  starts_tool :
      String → String → List AgentRunStatus → List AgentToolCallStatus → Option String → Call
  finishes_tool :
      String
      → String
      → AgentToolCallStatus
      → Option Json
      → Option String
      → Option String
      → Option String
      → Call
  decides : String → String → Bool → Json → String → ℕ → Call
  expires : String → String → Call

-- The repository after a call, whether the call returned or raised.
unfoldable pub step : ℕ → Call → AgentRepository → AgentRepository
step now (opens_thread o c v f) s = (get_or_create_thread o c v f now s).1
step now (creates_run r c f) s = (create_run r c f now s).1
step now (claims o r x t) s = (claim_run_execution o r x t now s).1
step now (renews o r x t) s = (renew_run_execution o r x t now s).1
step now (releases o r x) s = (release_run_execution o r x s).1
step now (records_seconds o r x n) s = (record_active_seconds o r x n now s).1
step now (consumes_event o r x m) s = (consume_provider_event o r x m now s).1
step now (transitions r e p ss x) s = (transition_run r e p ss x now s).1
step now (appends o r e p ss x) s = (append_event o r e p ss x now s).1
step now (finishes r c e p ss x f) s = (finish_run r c e p ss x f now s).1
step now (proposes r c a x) s = (propose_tool_call r c a x now s).1
step now (starts_tool o c rs ts x) s = (start_tool o c rs ts x now s).1
step now (finishes_tool o c t v e m x) s = (finish_tool o c t v e m x now s).1
step now (decides o c a m x t) s = (decide_approval o c a m x t now s).1
step now (expires o c) s = (expire_approval o c now s).1

-- A history: the calls in order, each with its reading of the clock.
unfoldable pub run : List (ℕ × Call) → AgentRepository → AgentRepository
run [] s = s
run ((now, c) ∷ cs) s = run cs (step now c s)
