-- ===== src/Agent/Creation.antt =====
-- The creation of a run: one active run for each owner, and idempotency keys.
use oneiroi.Prelude.{
  ℕ, ◌≡◌, ◌≢◌, true, false, some, String, ◌==◌, string_eq, pair_eq, arith, Option-cases, inl, inr,
  any, truthy, if◌then◌else◌,
}
use oneiroi.Prelude.Dict.{get, values, get-put_self}
use oneiroi.Prelude.Effects.{ok, err, ◌>>=◌}
use oneiroi.Agent.{AgentMessageContent}
use oneiroi.Agent.State.{
  AgentRepository, StoredAgentRun, StoredAgentThread, value_error, append_event_locked,
}
use oneiroi.Agent.Runs.{create_run, run_for, add_run, repeated_run, add_message, is_active_of}

-- What a repository shows after it has admitted a run.
pub record IsAdmitted (s s' : AgentRepository) (r : StoredAgentRun) : Type 0 where
  pub thread : StoredAgentThread
  pub thread_at : get r.response.thread_id s.threads ≡ some thread
  pub thread_owner : thread.owner_id ≡ r.owner_id
  pub none_active : any (is_active_of r.owner_id) (values s.runs) ≡ false
  pub stored : get r.response.id s'.runs ≡ some r
  pub keyed : get (r.owner_id, r.idempotency_key) s'.idempotency ≡ some r.response.id

add_run-IsAdmitted :
    (r q : StoredAgentRun) (c : AgentMessageContent) (f : String) (now : ℕ) (s s' : AgentRepository)
    → add_run r c f now s ≡ (ok (q, true), s')
    → IsAdmitted s s' r
unfolding add_run add_message append_event_locked ◌>>=◌
add_run-IsAdmitted r q c f now s s' e = elim (Option-cases (get r.response.thread_id s.threads)) [
  | inl n ↦ absurd (ground arith)
  | inr (t, at) ↦ record {
    thread = t;
    thread_at = at;
    thread_owner = ground (arith, string_eq.beq_iff t.owner_id r.owner_id);
    none_active = ground arith;
    stored = ground (arith, get-put_self r.response.id r s.runs);
    keyed = ground (arith, get-put_self key r.response.id s.idempotency);
  }
]
  where
    key : String × String
    key = (r.owner_id, r.idempotency_key)

repeated_run-old :
    (r q : StoredAgentRun) (i : String) (s s' : AgentRepository)
    → repeated_run r i s ≢ (ok (q, true), s')
unfolding repeated_run ◌>>=◌
repeated_run-old r q i s s' e = ground arith

-- A run is created only in a thread of its owner who has no run that is still active; it is then
-- stored under its id, and the idempotency key names it.
pub create_run-IsAdmitted :
    (r q : StoredAgentRun) (c : AgentMessageContent) (f : String) (now : ℕ) (s s' : AgentRepository)
    → create_run r c f now s ≡ (ok (q, true), s')
    → IsAdmitted s s' r
unfolding create_run run_for ◌>>=◌
create_run-IsAdmitted r q c f now s s' e =
    elim (Option-cases (truthy (get (r.owner_id, r.idempotency_key) s.idempotency))) [
      | inl n ↦ add_run-IsAdmitted r q c f now s s' (ground arith)
      | inr (i, h) ↦ absurd (repeated_run-old r q i s s' (ground arith))
    ]

-- A request that repeats the idempotency key of a created run writes nothing: with the same hash it
-- gets the run that was created, and with another hash it is refused.
pub create_run_again :
    (r q again : StoredAgentRun) (c c' : AgentMessageContent) (f f' : String) (now later : ℕ)
    (s s' : AgentRepository)
    → create_run r c f now s ≡ (ok (q, true), s')
    → r.response.id ≢ ""
    → again.owner_id ≡ r.owner_id
    → again.idempotency_key ≡ r.idempotency_key
    → create_run again c' f' later s' ≡ (
        if r.request_hash == again.request_hash
        then (ok (r, false), s')
        else (err (value_error "IDEMPOTENCY_KEY_REUSED"), s'))
unfolding create_run run_for repeated_run ◌>>=◌
create_run_again r q again c c' f f' now later s s' e n o k =
    let a = create_run-IsAdmitted r q c f now s s' e in
    rw (o, k, a.keyed) (ground (arith, a.stored, string_eq.beq_iff r.response.id ""))
