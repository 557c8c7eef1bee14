-- ===== src/Agent/Decisions.antt =====
-- An approval is decided at most once, and a repeated decision reports the first.
use oneiroi.Prelude.{
  ℕ, ◌<◌, ◌≡◌, ◌≢◌, refl, ap, Bool, true, false, some, String, ◌==◌, string_eq, arith, inl, inr,
}
use oneiroi.Prelude.Dict.{get-put_self}
use oneiroi.Prelude.Effects.{Result, ok, ◌>>=◌}
use oneiroi.Agent.{Json, AgentApprovalStatus, AgentRunStatus, run_status_eq, approval_status_eq}
use oneiroi.Agent.State.{
  AgentRepository, AgentError, StoredAgentRun, AgentToolDecision, append_event_locked,
}
use oneiroi.Agent.Approvals.{
  Subject, find_subject, decide, decide_approval, decision, decided, judged, expire_approval_locked,
  expire_run,
}
use oneiroi.Agent.Subjects.{IsSubject, find_subject_cases}

find_subject_at :
    (s : AgentRepository) (o k : String) (u : Subject)
    → IsSubject s o k u
    → find_subject o k s ≡ (ok u, s)
unfolding find_subject ◌>>=◌
find_subject_at s o k u f =
    rw (f.linked, f.approval_at, f.call_at)
      (ground (
        arith,
        f.run_at,
        string_eq.beq_iff u.approval.owner_id o,
        string_eq.beq_iff u.tool_call.owner_id o,
      ))

abbrev decided_run : Subject → String → ℕ → StoredAgentRun
decided_run u x d = record u.run {
  response = record u.run.response { status = AgentRunStatus.executing_tool };
  executor_id = some x;
  execution_lease_expires_at = some d;
}

abbrev decided_subject : Subject → Bool → Json → String → ℕ → ℕ → Subject
decided_subject u b m x d now = record {
  approval_id = u.approval_id;
  approval = decided b u.approval m now;
  tool_call = judged b u.tool_call now;
  run = decided_run u x d;
}

module _ (o c : String) (u : Subject) (m : Json) (x : String) (d now : ℕ) (s : AgentRepository)
    (f : IsSubject s o c u) where
  decide-IsSubject :
      (b : Bool) → IsSubject (decide o c u b m x d now s).1 o c (decided_subject u b m x d now)
  unfolding decide append_event_locked ◌>>=◌
  decide-IsSubject true = record {
    linked = f.linked;
    approval_at = get-put_self u.approval_id (decided true u.approval m now) s.approvals;
    call_at = get-put_self c (judged true u.tool_call now) s.tool_calls;
    run_at = get-put_self u.tool_call.response.run_id (decided_run u x d) s.runs;
    approval_owner = f.approval_owner;
    call_owner = f.call_owner;
  }
  decide-IsSubject false = record {
    linked = f.linked;
    approval_at = get-put_self u.approval_id (decided false u.approval m now) s.approvals;
    call_at = get-put_self c (judged false u.tool_call now) s.tool_calls;
    run_at = get-put_self u.tool_call.response.run_id (decided_run u x d) s.runs;
    approval_owner = f.approval_owner;
    call_owner = f.call_owner;
  }

-- A decision on a subject that is no longer pending reports it and writes nothing.
settled_decide :
    (s : AgentRepository) (o c : String) (u : Subject) (b : Bool) (m : Json) (x : String)
    (d now : ℕ)
    → IsSubject s o c u
    → u.approval.response.status ≢ AgentApprovalStatus.pending
    → decide_approval o c b m x d now s ≡ (
      ok (
          decision u.tool_call u.approval u.run false
            (u.approval.response.status == AgentApprovalStatus.consumed)),
      s,
    )
unfolding decide_approval ◌>>=◌
settled_decide s o c u b m x d now f n =
    rw (find_subject_at s o c u f, ◌>>=◌)
      (ground
        (arith, approval_status_eq.beq_iff u.approval.response.status AgentApprovalStatus.pending))

late_unclaimed :
    (s : AgentRepository) (c : String) (u : Subject) (now : ℕ) (r : AgentToolDecision)
    → (expire_approval_locked c u now s).0 ≡ ok r
    → r.claimed ≡ false
unfolding expire_approval_locked expire_run append_event_locked ◌>>=◌
late_unclaimed s c u now r e = ground arith

-- A decision is claimed only on a pending approval that has not run out, of a run that waits for
-- it; the state is then the one that `decide` leaves.
pub claimed_cases :
    (s s' : AgentRepository) (o c : String) (b : Bool) (m : Json) (x : String) (d now : ℕ)
    (r : AgentToolDecision)
    → decide_approval o c b m x d now s ≡ (ok r, s')
    → r.claimed ≡ true
    → (u : Subject) × IsSubject s o c u
      × (u.approval.response.status ≡ AgentApprovalStatus.pending)
      × (now < u.approval.response.expires_at)
      × (u.run.response.status ≡ AgentRunStatus.waiting_approval)
      × (decide o c u b m x d now s ≡ (ok r, s'))
unfolding decide_approval ◌>>=◌
claimed_cases s s' o c b m x d now r e k = elim (find_subject_cases s o c) [
  | inl (v, q) ↦ absurd (ground arith)
  | inr (u, q, f) ↦
      let late = late_unclaimed s c u now r in
      (
        u,
        f,
        ground (
          arith,
          late,
          approval_status_eq.beq_iff u.approval.response.status AgentApprovalStatus.pending,
        ),
        ground (arith, late),
        ground (
          arith,
          late,
          run_status_eq.beq_iff u.run.response.status AgentRunStatus.waiting_approval,
        ),
        ground (arith, late),
      )
]

decided-status :
    (b : Bool) (u : Subject) (m : Json) (x : String) (d now : ℕ)
    → ((decided_subject u b m x d now).approval.response.status ≢ AgentApprovalStatus.pending)
      × (((decided_subject u b m x d now).approval.response.status == AgentApprovalStatus.consumed)
          ≡ b)
decided-status true u m x d now = (ground arith, refl)
decided-status false u m x d now = (ground arith, refl)

decide-result :
    (s : AgentRepository) (o c : String) (u : Subject) (b : Bool) (m : Json) (x : String)
    (d now : ℕ)
    → (decide o c u b m x d now s).0
      ≡ ok (
          decision
            (judged b u.tool_call now)
            (decided b u.approval m now)
            (decided_run u x d)
            true
            b)
unfolding decide append_event_locked ◌>>=◌
decide-result s o c u b m x d now = refl

-- Once a call has decided an approval, every later decision on the same tool call, whatever it
-- says, changes nothing, is told that it did not claim it, and reports the first decision.
pub decided_once :
    (s s' : AgentRepository) (o c : String) (b : Bool) (m : Json) (x : String) (d now : ℕ)
    (r : AgentToolDecision)
    → decide_approval o c b m x d now s ≡ (ok r, s')
    → r.claimed ≡ true
    → (b' : Bool) (m' : Json) (x' : String) (d' later : ℕ)
    → (r' : AgentToolDecision) × (decide_approval o c b' m' x' d' later s' ≡ (ok r', s'))
      × (r'.claimed ≡ false)
      × (r'.approved ≡ b)
      × (r'.approval ≡ r.approval)
      × (r'.tool_call ≡ r.tool_call)
decided_once s s' o c b m x d now r e k b' m' x' d' later =
    let found = claimed_cases s s' o c b m x d now r e k in
    let u = found.0 in
    let v = decided_subject u b m x d now in
    let after : (decide o c u b m x d now s).1 ≡ s' =
      ap (λ (p : Result AgentError AgentToolDecision × AgentRepository). p.1) found.5 in
    let result = decide-result s o c u b m x d now in
    let status = decided-status b u m x d now in
    let g : IsSubject s' o c v = rw after at (decide-IsSubject o c u m x d now s found.1 b) in
    (
      decision v.tool_call v.approval v.run false
          (v.approval.response.status == AgentApprovalStatus.consumed),
      settled_decide s' o c v b' m' x' d' later g status.0,
      refl,
      status.1,
      ground (arith, found.5, result),
      ground (arith, found.5, result),
    )
