-- ===== src/Agent/Lifecycle.antt =====
-- The statuses of a run: a terminal status is never left.
use oneiroi.Prelude.{ℕ, ◌≡◌, true, some, String, string_eq, option_eq, pair_eq}
use oneiroi.Agent.{AgentRunStatus, is_terminal, run_status_eq}
use oneiroi.Agent.State.{AgentRepository}
use oneiroi.Agent.Elsewhere.{status_at}
use oneiroi.Agent.Calls.{
  Call, step, opens_thread, creates_run, claims, renews, releases, records_seconds, consumes_event,
  transitions, appends, finishes, proposes, starts_tool, finishes_tool, decides, expires,
}
use oneiroi.Agent.Statuses.{
  IsOrdinary, claims-status, renews-status, releases-status, records-status, consumes-status,
  appends-status, opens-status, starts-status, closes-status, transitions-status, finishes-status,
  expires-status, decides-status, proposes-status, creates-status,
}

-- A run whose status is terminal keeps that status through every call of the repository, if a call
-- that creates a run brings a fresh id and one that writes a run over expects no terminal status.
pub terminal_kept :
    (now : ℕ) (c : Call) (s : AgentRepository) (id : String) (t : AgentRunStatus)
    → IsOrdinary s c
    → status_at id s ≡ some t
    → is_terminal t ≡ true
    → status_at id (step now c s) ≡ some t
unfolding step
terminal_kept now (opens_thread o c v f) s id t i h k = opens-status now s id t h o c v f
terminal_kept now (creates_run r c f) s id t i h k = creates-status now s id t h k r c f i
terminal_kept now (claims o r x d) s id t i h k = claims-status now s id t h o r x d
terminal_kept now (renews o r x d) s id t i h k = renews-status now s id t h o r x d
terminal_kept now (releases o r x) s id t i h k = releases-status now s id t h o r x
terminal_kept now (records_seconds o r x n) s id t i h k = records-status now s id t h o r x n
terminal_kept now (consumes_event o r x m) s id t i h k = consumes-status now s id t h o r x m
terminal_kept now (transitions r e p ss x) s id t i h k =
    transitions-status now s id t h k r e p ss x i
terminal_kept now (appends o r e p ss x) s id t i h k = appends-status now s id t h o r e p ss x
terminal_kept now (finishes r c e p ss x f) s id t i h k =
    finishes-status now s id t h k r c e p ss x f i
terminal_kept now (proposes r c a x) s id t i h k = proposes-status now s id t h k r c a x
terminal_kept now (starts_tool o c rs ts x) s id t i h k = starts-status now s id t h o c rs ts x
terminal_kept now (finishes_tool o c v e m n x) s id t i h k =
    closes-status now s id t h o c v e m n x
terminal_kept now (decides o c a m x d) s id t i h k = decides-status now s id t h k o c a m x d
terminal_kept now (expires o c) s id t i h k = expires-status now s id t h k o c
