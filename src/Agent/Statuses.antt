-- ===== src/Agent/Statuses.antt =====
-- What each call of the agent repository does to the status of a run.
use oneiroi.Prelude.{
  ℕ, ◌≡◌, ◌≢◌, refl, Bool, true, false, Option, none, some, List, [], ◌∷◌, String, ◌==◌, string_eq,
  option_eq, inl, inr, Bool-cases, truthy, pair_eq, ◌+◌, elem, All, arith,
}
use oneiroi.Prelude.Dict.{get, put, get-put}
use oneiroi.Prelude.Effects.{◌>>=◌}
use oneiroi.Agent.{
  AgentMessageContent, Json, Payload, AgentRunStatus, AgentToolCallStatus, is_terminal,
  run_status_eq,
}
use oneiroi.Agent.State.{
  AgentRepository, StoredAgentRun, StoredAgentToolCall, StoredAgentApproval, find_run,
}
use oneiroi.Agent.Runs.{get_or_create_thread, create_run}
use oneiroi.Agent.Leases.{
  claim_run_execution, renew_run_execution, released, release_run_execution, record_active_seconds,
  consume_provider_event, transition_run, append_event, finish_run, merged,
}
use oneiroi.Agent.Tools.{
  find_tool_call, propose_for, new_proposal, repeated_proposal, propose_tool_call, start_tool,
  finish_tool,
}
use oneiroi.Agent.Approvals.{
  Subject, decide, expired_run, expire_approval_locked, decide_approval, expire_approval,
}
use oneiroi.Agent.Elsewhere.{run_status, status_at, propose_for-IsKept, finish_tool-IsKept}
use oneiroi.Agent.Subjects.{IsSubject, find_run_cases, find_subject_cases}
use oneiroi.Prelude.Int.{ℤ, pos_part}
use oneiroi.Agent.Calls.{Call, creates_run, transitions, finishes}

-- A set of expected statuses names no terminal one.
abbrev pub IsOpen : List AgentRunStatus → Type 0
IsOpen = All (λ t. is_terminal t ≡ false)

not-elem_terminal :
    (t : AgentRunStatus) (ss : List AgentRunStatus)
    → IsOpen ss
    → is_terminal t ≡ true
    → elem t ss ≡ false
not-elem_terminal t [] h k = refl
not-elem_terminal t (x ∷ xs) h k =
    ground (arith, not-elem_terminal t xs h.1, run_status_eq.beq_iff x t)

-- Calls that expect no terminal status; a created run has a fresh id.
abbrev pub IsOrdinary : AgentRepository → Call → Type 0
IsOrdinary s (creates_run r c f) = get r.response.id s.runs ≡ none
IsOrdinary s (transitions r e p ss x) = IsOpen ss
IsOrdinary s (finishes r c e p ss x f) = IsOpen ss
IsOrdinary s _ = Unit

-- A write of a run that keeps its status, or that replaces one of another status, keeps `t` at `id`.
put_run-status :
    (s : AgentRepository) (key id : String) (old new : StoredAgentRun) (t : AgentRunStatus)
    → get key s.runs ≡ some old
    → (old.response.status ≡ t → new.response.status ≡ t)
    → status_at id s ≡ some t
    → run_status (get id (put key new s.runs)) ≡ some t
put_run-status s key id old new t e f h =
    ground (arith, get-put key id new s.runs, string_eq.beq_iff key id)

released-response : (x : String) (v : StoredAgentRun) → (released x v).response ≡ v.response
unfolding released
released-response x v = ground arith

expired_run-terminal :
    (now : ℕ) (v : StoredAgentRun) → is_terminal v.response.status ≡ true → expired_run now v ≡ v
unfolding expired_run
expired_run-terminal now v k = ground arith

module _ (now : ℕ) (s : AgentRepository) (id : String) (t : AgentRunStatus)
    (h : status_at id s ≡ some t) where
  pub claims-status :
      (o r x : String) (d : ℕ) → status_at id (claim_run_execution o r x d now s).1 ≡ some t
  unfolding claim_run_execution ◌>>=◌
  claims-status o r x d = elim (find_run_cases s o r) [
    | inl (e, q) ↦ ground arith
    | inr (v, q, g, _) ↦ ground (
      arith,
      put_run-status s r id v
          (record v { executor_id = some x; execution_lease_expires_at = some d }) t g,
    )
  ]

  pub renews-status :
      (o r x : String) (d : ℕ) → status_at id (renew_run_execution o r x d now s).1 ≡ some t
  unfolding renew_run_execution ◌>>=◌
  renews-status o r x d = elim (find_run_cases s o r) [
    | inl (e, q) ↦ ground arith
    | inr (v, q, g, _) ↦
        ground
          (arith, put_run-status s r id v (record v { execution_lease_expires_at = some d }) t g)
  ]

  pub releases-status : (o r x : String) → status_at id (release_run_execution o r x s).1 ≡ some t
  unfolding release_run_execution ◌>>=◌
  releases-status o r x = elim (find_run_cases s o r) [
    | inl (e, q) ↦ ground arith
    | inr (v, q, g, _) ↦
        ground (arith, put_run-status s r id v (released x v) t g, released-response x v)
  ]

  pub records-status :
      (o r x : String) (n : ℤ) → status_at id (record_active_seconds o r x n now s).1 ≡ some t
  unfolding record_active_seconds ◌>>=◌
  records-status o r x n = elim (find_run_cases s o r) [
    | inl (e, q) ↦ ground arith
    | inr (v, q, g, _) ↦ ground (
      arith,
      put_run-status s r id v
          (record v { active_duration_seconds = v.active_duration_seconds + pos_part n }) t g,
    )
  ]

  pub consumes-status :
      (o r x : String) (m : ℕ) → status_at id (consume_provider_event o r x m now s).1 ≡ some t
  unfolding consume_provider_event ◌>>=◌
  consumes-status o r x m = elim (find_run_cases s o r) [
    | inl (e, q) ↦ ground arith
    | inr (v, q, g, _) ↦ ground (
      arith,
      put_run-status s r id v (record v { provider_event_count = v.provider_event_count + 1 }) t g,
    )
  ]

  pub appends-status :
      (o r e : String) (p : Payload) (ss : Option (List AgentRunStatus)) (x : Option String)
      → status_at id (append_event o r e p ss x now s).1 ≡ some t
  unfolding append_event find_run ◌>>=◌
  appends-status o r e p ss x = ground arith

  pub opens-status :
      (o c v f : String) → status_at id (get_or_create_thread o c v f now s).1 ≡ some t
  unfolding get_or_create_thread ◌>>=◌
  opens-status o c v f = ground arith

  pub starts-status :
      (o c : String) (rs : List AgentRunStatus) (ts : List AgentToolCallStatus) (x : Option String)
      → status_at id (start_tool o c rs ts x now s).1 ≡ some t
  unfolding start_tool find_tool_call ◌>>=◌
  starts-status o c rs ts x = ground arith

  pub closes-status :
      (o c : String) (v : AgentToolCallStatus) (e : Option Json) (m n x : Option String)
      → status_at id (finish_tool o c v e m n x now s).1 ≡ some t
  closes-status o c v e m n x = (finish_tool-IsKept id t o c v e m n x now).after s h

  module _ (k : is_terminal t ≡ true) where
    pub transitions-status :
        (r : StoredAgentRun) (e : String) (p : Payload) (ss : List AgentRunStatus)
        (x : Option String)
        → IsOpen ss
        → status_at id (transition_run r e p ss x now s).1 ≡ some t
    unfolding transition_run ◌>>=◌
    transitions-status r e p ss x i = elim (find_run_cases s r.owner_id r.response.id) [
      | inl (e, q) ↦ ground arith
      | inr (v, q, g, _) ↦
          ground (
            arith,
            put_run-status s r.response.id id v (merged v r) t g,
            not-elem_terminal t ss i k,
          )
    ]

    pub finishes-status :
        (r : StoredAgentRun) (c : AgentMessageContent) (e : String) (p : Payload)
        (ss : List AgentRunStatus) (x : Option String) (f : String)
        → IsOpen ss
        → status_at id (finish_run r c e p ss x f now s).1 ≡ some t
    unfolding finish_run ◌>>=◌
    finishes-status r c e p ss x f i = elim (find_run_cases s r.owner_id r.response.id) [
      | inl (e, q) ↦ ground arith
      | inr (v, q, g, _) ↦ ground (
        arith,
        put_run-status s r.response.id id v
            (merged v (record r { response = record r.response { output_message_id = some f } })) t
            g,
        not-elem_terminal t ss i k,
      )
    ]

    expired-status :
        (o c : String) (u : Subject)
        → IsSubject s o c u
        → status_at id (expire_approval_locked c u now s).1 ≡ some t
    unfolding expire_approval_locked ◌>>=◌
    expired-status o c u f = ground (
      arith,
      put_run-status s u.tool_call.response.run_id id u.run (expired_run now u.run) t f.run_at,
      expired_run-terminal now u.run,
    )

    pub expires-status : (o c : String) → status_at id (expire_approval o c now s).1 ≡ some t
    unfolding expire_approval ◌>>=◌
    expires-status o c = elim (find_subject_cases s o c) [
      | inl (e, q) ↦ rw (q, expire_approval) h
      | inr (u, q, f) ↦ ground (arith, expired-status o c u f)
    ]

    settled-status :
        (o c : String) (u : Subject) (b : Bool) (m : Json) (x : String) (d : ℕ)
        → IsSubject s o c u
        → u.run.response.status ≢ t
        → status_at id (decide o c u b m x d now s).1 ≡ some t
    unfolding decide ◌>>=◌
    settled-status o c u b m x d f n = ground (
      arith,
      put_run-status s u.tool_call.response.run_id id u.run
          (record u.run {
            response = record u.run.response { status = AgentRunStatus.executing_tool };
            executor_id = some x;
            execution_lease_expires_at = some d;
          })
          t f.run_at,
    )

    pub decides-status :
        (o c : String) (b : Bool) (m : Json) (x : String) (d : ℕ)
        → status_at id (decide_approval o c b m x d now s).1 ≡ some t
    unfolding decide_approval ◌>>=◌
    decides-status o c b m x d = elim (find_subject_cases s o c) [
      | inl (e, q) ↦ rw (q, decide_approval) h
      | inr (u, q, f) ↦ ground (arith, expired-status o c u f, settled-status o c u b m x d f)
    ]

    -- A proposal for the run itself is refused.
    refused-status :
        (r v : StoredAgentRun) (c : StoredAgentToolCall) (a : Option StoredAgentApproval)
        (o : Option String)
        → v.response.status ≡ t
        → status_at id (propose_for r v c a now o s).1 ≡ some t
    unfolding propose_for new_proposal repeated_proposal ◌>>=◌
    refused-status r v c a none e = ground arith
    refused-status r v c a (some i) e = ground arith

    pub proposes-status :
        (r : StoredAgentRun) (c : StoredAgentToolCall) (a : Option StoredAgentApproval)
        (x : Option String)
        → status_at id (propose_tool_call r c a x now s).1 ≡ some t
    unfolding propose_tool_call ◌>>=◌
    proposes-status r c a x = elim (find_run_cases s r.owner_id r.response.id) [
      | inl (e, q) ↦ ground arith
      | inr (v, q, g, _) ↦ elim (Bool-cases (r.response.id == id)) [
        | inl same ↦
            ground (arith, refused-status r v c a known, string_eq.beq_iff r.response.id id)
        | inr other ↦ ground (arith, (propose_for-IsKept id t r v other c a now known).after s h)
      ]
    ]
      where
        known : Option String
        known = truthy (get (r.response.id, c.provider_call_id) s.tool_call_by_provider)

    pub creates-status :
        (r : StoredAgentRun) (c : AgentMessageContent) (f : String)
        → get r.response.id s.runs ≡ none
        → status_at id (create_run r c f now s).1 ≡ some t
    unfolding create_run ◌>>=◌
    creates-status r c f g =
        ground (arith, get-put r.response.id id r s.runs, string_eq.beq_iff r.response.id id)
