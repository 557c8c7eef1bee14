-- ===== src/Agent/Numbering.antt =====
-- Every method of the agent repository keeps its event log numbered.
use oneiroi.Prelude.{ℕ, Bool, true, false, Option, none, some, List, [], ◌∷◌, String}
use oneiroi.Prelude.Effects.{Keeps}
use oneiroi.Agent.{AgentMessageContent, AgentToolCallStatus, Json}
use oneiroi.Agent.State.{
  StoredAgentRun, StoredAgentToolCall, StoredAgentApproval, AgentRepository, find_run,
}
use oneiroi.Agent.Runs.{
  get_or_create_thread, create_run, add_thread, visible_thread, thread_for, run_for, add_run,
  repeated_run,
}
use oneiroi.Agent.Leases.{
  claim_run_execution, renew_run_execution, release_run_execution, record_active_seconds,
  consume_provider_event, transition_run, append_event, finish_run,
}
use oneiroi.Agent.Tools.{
  propose_tool_call, propose_for, repeated_proposal, new_proposal, require_approval, approval_of,
  find_tool_call, start_tool, finish_tool, close_tool,
}
use oneiroi.Agent.Approvals.{
  decide_approval, expire_approval, find_subject, expire_approval_locked, expire_run, decide,
  Subject,
}
use oneiroi.Agent.Trace.{IsTraced, trace_rules, add_message-IsTraced}
use oneiroi.Agent.Calls.{
  Call, step, run, opens_thread, creates_run, claims, renews, releases, records_seconds,
  consumes_event, transitions, appends, finishes, proposes, starts_tool, finishes_tool, decides,
  expires,
}

find_run-IsTraced : (o r : String) → Keeps IsTraced (find_run o r)
unfolding find_run
find_run-IsTraced o r = search trace_rules depth 9

find_tool_call-IsTraced : (o r : String) → Keeps IsTraced (find_tool_call o r)
unfolding find_tool_call
find_tool_call-IsTraced o r = search trace_rules depth 9

ruleset methods = (trace_rules, add_message-IsTraced, find_run-IsTraced, find_tool_call-IsTraced)

thread_for-IsTraced :
    (o c v f : String) (now : ℕ) (k : Option String) → Keeps IsTraced (thread_for o c v f now k)
unfolding thread_for add_thread visible_thread
thread_for-IsTraced o c v f now none = search methods depth 9
thread_for-IsTraced o c v f now (some t) = search methods depth 9

run_for-IsTraced :
    (r : StoredAgentRun) (c : AgentMessageContent) (f : String) (now : ℕ) (k : Option String)
    → Keeps IsTraced (run_for r c f now k)
unfolding run_for add_run repeated_run
run_for-IsTraced r c f now none = search methods depth 16
run_for-IsTraced r c f now (some t) = search methods depth 9

approval_of-IsTraced : (o : Option String) → Keeps IsTraced (approval_of o)
unfolding approval_of
approval_of-IsTraced none = search methods
approval_of-IsTraced (some i) = search methods depth 9

require_approval-IsTraced :
    (r u : StoredAgentRun) (c : StoredAgentToolCall) (a : Option StoredAgentApproval) (now : ℕ)
    → Keeps IsTraced (require_approval r u c a now)
unfolding require_approval
require_approval-IsTraced r u c none now = search methods
require_approval-IsTraced r u c (some a) now = search methods depth 12

propose_for-IsTraced :
    (r u : StoredAgentRun) (c : StoredAgentToolCall) (a : Option StoredAgentApproval) (now : ℕ)
    (k : Option String)
    → Keeps IsTraced (propose_for r u c a now k)
unfolding propose_for new_proposal repeated_proposal
propose_for-IsTraced r u c a now none = search (methods, require_approval-IsTraced) depth 14
propose_for-IsTraced r u c a now (some k) = search (methods, approval_of-IsTraced) depth 14

close_tool-IsTraced :
    (o k : String) (c : StoredAgentToolCall) (r : StoredAgentRun) (t : AgentToolCallStatus)
    (v : Option Json) (e m : Option String) (now : ℕ)
    → Keeps IsTraced (close_tool o k c r t v e m now)
unfolding close_tool
close_tool-IsTraced o k c r t v e m now = search methods depth 9

find_subject-IsTraced : (o k : String) → Keeps IsTraced (find_subject o k)
unfolding find_subject
find_subject-IsTraced o k = search methods depth 20

expire_run-IsTraced :
    (b : Bool) (r : StoredAgentRun) (now : ℕ) → Keeps IsTraced (expire_run b r now)
unfolding expire_run
expire_run-IsTraced true r now = search methods
expire_run-IsTraced false r now = search methods

expire_approval_locked-IsTraced :
    (k : String) (u : Subject) (now : ℕ) → Keeps IsTraced (expire_approval_locked k u now)
unfolding expire_approval_locked
expire_approval_locked-IsTraced k u now = search (methods, expire_run-IsTraced) depth 12

decide-IsTraced :
    (o k : String) (u : Subject) (b : Bool) (m : Json) (x : String) (t now : ℕ)
    → Keeps IsTraced (decide o k u b m x t now)
unfolding decide
decide-IsTraced o k u b m x t now = search methods depth 12

ruleset all_methods = (
  methods, thread_for-IsTraced, run_for-IsTraced, propose_for-IsTraced, close_tool-IsTraced,
  find_subject-IsTraced, expire_approval_locked-IsTraced, decide-IsTraced,
)

-- Whatever a call does, and whether it returns or raises, the log stays numbered: each run's events
-- have the sequence 1, 2, 3, …, with growing ids below the next one.
pub step-IsTraced :
    (now : ℕ) (c : Call) (s : AgentRepository) → IsTraced s → IsTraced (step now c s)
unfolding step get_or_create_thread create_run claim_run_execution renew_run_execution
    release_run_execution record_active_seconds consume_provider_event transition_run append_event
    finish_run propose_tool_call start_tool finish_tool decide_approval expire_approval
step-IsTraced now (opens_thread o c v f) s h =
    let k : Keeps IsTraced (get_or_create_thread o c v f now) = search all_methods depth 14 in
    k.after s h
step-IsTraced now (creates_run r c f) s h =
    let k : Keeps IsTraced (create_run r c f now) = search all_methods depth 14 in k.after s h
step-IsTraced now (claims o r x t) s h =
    let k : Keeps IsTraced (claim_run_execution o r x t now) = search all_methods depth 14 in
    k.after s h
step-IsTraced now (renews o r x t) s h =
    let k : Keeps IsTraced (renew_run_execution o r x t now) = search all_methods depth 14 in
    k.after s h
step-IsTraced now (releases o r x) s h =
    let k : Keeps IsTraced (release_run_execution o r x) = search all_methods depth 14 in
    k.after s h
step-IsTraced now (records_seconds o r x n) s h =
    let k : Keeps IsTraced (record_active_seconds o r x n now) = search all_methods depth 14 in
    k.after s h
step-IsTraced now (consumes_event o r x m) s h =
    let k : Keeps IsTraced (consume_provider_event o r x m now) = search all_methods depth 14 in
    k.after s h
step-IsTraced now (transitions r e p ss x) s h =
    let k : Keeps IsTraced (transition_run r e p ss x now) = search all_methods depth 14 in
    k.after s h
step-IsTraced now (appends o r e p ss x) s h =
    let k : Keeps IsTraced (append_event o r e p ss x now) = search all_methods depth 14 in
    k.after s h
step-IsTraced now (finishes r c e p ss x f) s h =
    let k : Keeps IsTraced (finish_run r c e p ss x f now) = search all_methods depth 14 in
    k.after s h
step-IsTraced now (proposes r c a x) s h =
    let k : Keeps IsTraced (propose_tool_call r c a x now) = search all_methods depth 14 in
    k.after s h
step-IsTraced now (starts_tool o c rs ts x) s h =
    let k : Keeps IsTraced (start_tool o c rs ts x now) = search all_methods depth 14 in k.after s h
step-IsTraced now (finishes_tool o c t v e m x) s h =
    let k : Keeps IsTraced (finish_tool o c t v e m x now) = search all_methods depth 14 in
    k.after s h
step-IsTraced now (decides o c a m x t) s h =
    let k : Keeps IsTraced (decide_approval o c a m x t now) = search all_methods depth 14 in
    k.after s h
step-IsTraced now (expires o c) s h =
    let k : Keeps IsTraced (expire_approval o c now) = search all_methods depth 14 in k.after s h

-- Every history of calls keeps the numbering of the events: those of each run are its own, their
-- sequence numbers count from 1 without gaps, and their ids grow and lie below the next id.
pub run-IsTraced : (cs : List (ℕ × Call)) (s : AgentRepository) → IsTraced s → IsTraced (run cs s)
unfolding run
run-IsTraced [] s h = h
run-IsTraced ((now, c) ∷ cs) s h = run-IsTraced cs (step now c s) (step-IsTraced now c s h)
