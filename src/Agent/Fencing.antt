-- ===== src/Agent/Fencing.antt =====
-- The execution lease of a run: who may take it, and what a stale executor can do.
use oneiroi.Prelude.{ℕ, ◌<◌, ◌≡◌, ◌≢◌, String, some, string_eq, option_eq, arith}
use oneiroi.Prelude.Dict.{get, put-get}
use oneiroi.Prelude.Effects.{◌>>=◌}
use oneiroi.Agent.Calls.{
  Call, step, claims, renews, releases, records_seconds, consumes_event, transitions, appends,
  finishes, proposes, starts_tool, finishes_tool,
}
use oneiroi.Agent.Tools.{find_tool_call, propose_tool_call, start_tool, finish_tool}
use oneiroi.Agent.State.{StoredAgentToolCall, AgentRepository, StoredAgentRun, find_run}
use oneiroi.Agent.Leases.{
  claim_run_execution, renew_run_execution, release_run_execution, released, record_active_seconds,
  consume_provider_event, transition_run, append_event, finish_run,
}

-- Another executor holds the run, and its lease has not expired.
pub record IsHeldByOther (now : ℕ) (run : StoredAgentRun) (executor_id : String) : Type 0 where
  pub holder : String
  pub expires : ℕ
  pub held : run.executor_id ≡ some holder
  pub leased : run.execution_lease_expires_at ≡ some expires
  pub fresh : now < expires
  pub other : holder ≢ executor_id

-- The run that a call writes to, and the executor that it names, for the calls that name one, the
-- decision of an approval (which is not refused by a lease) apart.
abbrev pub ActsOn : AgentRepository → Call → String → String → Type 0
ActsOn s (claims o r x t) run_id ex = (r ≡ run_id) × (x ≡ ex)
ActsOn s (renews o r x t) run_id ex = (r ≡ run_id) × (x ≡ ex)
ActsOn s (releases o r x) run_id ex = (r ≡ run_id) × (x ≡ ex)
ActsOn s (records_seconds o r x n) run_id ex = (r ≡ run_id) × (x ≡ ex)
ActsOn s (consumes_event o r x m) run_id ex = (r ≡ run_id) × (x ≡ ex)
ActsOn s (transitions r e p ss x) run_id ex = (r.response.id ≡ run_id) × (x ≡ some ex)
ActsOn s (appends o r e p ss x) run_id ex = (r ≡ run_id) × (x ≡ some ex)
ActsOn s (finishes r c e p ss x f) run_id ex = (r.response.id ≡ run_id) × (x ≡ some ex)
ActsOn s (proposes r c a x) run_id ex = (r.response.id ≡ run_id) × (x ≡ some ex)
ActsOn s (starts_tool o c rs ts x) run_id ex =
    (call : StoredAgentToolCall) × (get c s.tool_calls ≡ some call)
    × (call.response.run_id ≡ run_id)
    × (x ≡ some ex)
ActsOn s (finishes_tool o c t v e m x) run_id ex =
    (call : StoredAgentToolCall) × (get c s.tool_calls ≡ some call)
    × (call.response.run_id ≡ run_id)
    × (x ≡ some ex)
ActsOn s _ run_id ex = ⊥

-- While another executor's lease on a run is unexpired, these calls leave the whole repository as it
-- was if they name this executor: a claim, a renewal or a release of the run's lease, a count of
-- seconds or of a provider event, a transition, an event or the end of the run, and the proposal,
-- the start or the end of a tool call of the run. The decision of an approval is not among them.
pub stale_changes_nothing :
    (now : ℕ) (c : Call) (s : AgentRepository) (run_id ex : String) (run : StoredAgentRun)
    → get run_id s.runs ≡ some run
    → IsHeldByOther now run ex
    → ActsOn s c run_id ex
    → step now c s ≡ s
unfolding step claim_run_execution renew_run_execution record_active_seconds consume_provider_event
    release_run_execution released transition_run append_event finish_run propose_tool_call
    start_tool finish_tool find_run find_tool_call ◌>>=◌
stale_changes_nothing now (claims o r x t) s run_id ex run e h a =
    ground (arith, string_eq.beq_iff h.holder ex)
stale_changes_nothing now (renews o r x t) s run_id ex run e h a =
    ground (arith, string_eq.beq_iff h.holder ex)
stale_changes_nothing now (releases o r x) s run_id ex run e h a =
    ground (arith, string_eq.beq_iff h.holder ex, put-get run_id run s.runs e)
stale_changes_nothing now (records_seconds o r x t) s run_id ex run e h a =
    ground (arith, string_eq.beq_iff h.holder ex)
stale_changes_nothing now (consumes_event o r x t) s run_id ex run e h a =
    ground (arith, string_eq.beq_iff h.holder ex)
stale_changes_nothing now (transitions r v p ss x) s run_id ex run e h a =
    ground (arith, string_eq.beq_iff h.holder ex)
stale_changes_nothing now (appends o r v p ss x) s run_id ex run e h a =
    ground (arith, string_eq.beq_iff h.holder ex)
stale_changes_nothing now (finishes r c v p ss x f) s run_id ex run e h a =
    ground (arith, string_eq.beq_iff h.holder ex)
stale_changes_nothing now (proposes r c v x) s run_id ex run e h a =
    ground (arith, string_eq.beq_iff h.holder ex)
stale_changes_nothing now (starts_tool o c rs ts x) s run_id ex run e h a =
    ground (arith, string_eq.beq_iff h.holder ex)
stale_changes_nothing now (finishes_tool o c t v m n x) s run_id ex run e h a =
    ground (arith, string_eq.beq_iff h.holder ex)
stale_changes_nothing now c s run_id ex run e h a = absurd a
