-- ===== src/Agent/Elsewhere.antt =====
-- A proposal for one run leaves the status of every other run alone.
use oneiroi.Prelude.{ℕ, ◌≡◌, false, Option, none, some, String, ◌==◌, string_eq, arith}
use oneiroi.Prelude.Dict.{get, get-put}
use oneiroi.Prelude.Effects.{Keeps, Keeps-modify, keeps_rules}
use oneiroi.Agent.{AgentToolCallStatus, Json, AgentRunStatus, AgentRunResponse, Payload}
use oneiroi.Agent.State.{
  AgentRepository, StoredAgentRun, StoredAgentToolCall, StoredAgentApproval, put_run,
  append_event_locked,
}
use oneiroi.Agent.Tools.{
  finish_tool, find_tool_call, close_tool, propose_for, new_proposal, repeated_proposal,
  require_approval, approval_of,
}

abbrev pub run_status : Option StoredAgentRun → Option AgentRunStatus
run_status none = none
run_status (some run) = some run.response.status

-- The status of a run in the repository.
abbrev pub status_at : String → AgentRepository → Option AgentRunStatus
status_at run_id s = run_status (get run_id s.runs)

module _ (id : String) (t : AgentRunStatus) where
  abbrev pub IsKept : AgentRepository → Type 0
  IsKept s = status_at id s ≡ some t

  append_event_locked-IsKept :
      (o : String) (r : AgentRunResponse) (e : String) (p : Payload) (now : ℕ)
      → Keeps IsKept (append_event_locked o r e p now)
  unfolding append_event_locked
  append_event_locked-IsKept o r e p now = search (keeps_rules, Keeps-modify) depth 12

  put_run-IsKept :
      (key : String) (v : StoredAgentRun) → (key == id) ≡ false → Keeps IsKept (put_run key v)
  put_run-IsKept key v n = Keeps-modify _ (λ s h. ground (arith, get-put key id v s.runs))

  approval_of-IsKept : (k : Option String) → Keeps IsKept (approval_of k)
  unfolding approval_of
  approval_of-IsKept none = search keeps_rules
  approval_of-IsKept (some k) = search keeps_rules depth 12

  module _ (r u : StoredAgentRun) (n : (r.response.id == id) ≡ false) where
    require_approval-IsKept :
        (v : StoredAgentRun) (c : StoredAgentToolCall) (a : Option StoredAgentApproval) (now : ℕ)
        → Keeps IsKept (require_approval r v c a now)
    unfolding require_approval
    require_approval-IsKept v c none now = search keeps_rules
    require_approval-IsKept v c (some a) now =
        search (keeps_rules, put_run-IsKept, append_event_locked-IsKept, Keeps-modify) depth 16

    pub propose_for-IsKept :
        (c : StoredAgentToolCall) (a : Option StoredAgentApproval) (now : ℕ) (k : Option String)
        → Keeps IsKept (propose_for r u c a now k)
    unfolding propose_for new_proposal repeated_proposal
    propose_for-IsKept c a now none =
        search
          (
            keeps_rules, put_run-IsKept, append_event_locked-IsKept, require_approval-IsKept,
            Keeps-modify,
          )
          depth 16
    propose_for-IsKept c a now (some k) =
        search (keeps_rules, put_run-IsKept, approval_of-IsKept) depth 16

  pub finish_tool-IsKept :
      (o c : String) (v : AgentToolCallStatus) (e : Option Json) (m n x : Option String) (now : ℕ)
      → Keeps IsKept (finish_tool o c v e m n x now)
  unfolding finish_tool find_tool_call close_tool
  finish_tool-IsKept o c v e m n x now =
      search (keeps_rules, append_event_locked-IsKept, Keeps-modify) depth 24
