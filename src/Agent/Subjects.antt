-- ===== src/Agent/Subjects.antt =====
-- What the lookups of `decide_approval` and `expire_approval` find.
use oneiroi.Prelude.{
  ◌≡◌, false, some, String, ◌==◌, string_eq, arith, ◌⊎◌, inl, inr, Option-cases, Bool-cases, not,
  ◌||◌,
}
use oneiroi.Prelude.Dict.{get}
use oneiroi.Prelude.Effects.{ok, err, ◌>>=◌}
use oneiroi.Agent.State.{
  AgentRepository, AgentError, key_error, StoredAgentRun, StoredAgentToolCall, StoredAgentApproval,
  find_run,
}
use oneiroi.Agent.Tools.{find_tool_call}
use oneiroi.Agent.Approvals.{Subject, find_subject}

-- A subject as the repository holds it.
pub record IsSubject (s : AgentRepository) (owner_id tool_call_id : String) (u : Subject)
    : Type 0 where
  pub linked : get tool_call_id s.approval_by_tool_call ≡ some u.approval_id
  pub approval_at : get u.approval_id s.approvals ≡ some u.approval
  pub call_at : get tool_call_id s.tool_calls ≡ some u.tool_call
  pub run_at : get u.tool_call.response.run_id s.runs ≡ some u.run
  pub approval_owner : u.approval.owner_id ≡ owner_id
  pub call_owner : u.tool_call.owner_id ≡ owner_id

abbrev pub Finds : AgentRepository → String → String → Type 0
Finds s o k =
    ((e : AgentError) × (find_subject o k s ≡ (err e, s)))
    ⊎ ((u : Subject) × (find_subject o k s ≡ (ok u, s)) × IsSubject s o k u)

module _ (s : AgentRepository) (o k : String) where
  with_run :
      (i : String) (a : StoredAgentApproval) (c : StoredAgentToolCall)
      → get k s.approval_by_tool_call ≡ some i
      → get i s.approvals ≡ some a
      → get k s.tool_calls ≡ some c
      → (not (a.owner_id == o) || not (c.owner_id == o)) ≡ false
      → Finds s o k
  unfolding find_subject ◌>>=◌
  with_run i a c x y z w = elim (Option-cases (get c.response.run_id s.runs)) [
    | inl e ↦ inl (key_error c.response.run_id, rw (x, y, z, w, e))
    | inr (r, e) ↦ inr (
      record { approval_id = i; approval = a; tool_call = c; run = r },
      rw (x, y, z, w, e),
      record {
        linked = x;
        approval_at = y;
        call_at = z;
        run_at = e;
        approval_owner = ground (arith, string_eq.beq_iff a.owner_id o);
        call_owner = ground (arith, string_eq.beq_iff c.owner_id o);
      },
    )
  ]

  with_call :
      (i : String) (a : StoredAgentApproval) (c : StoredAgentToolCall)
      → get k s.approval_by_tool_call ≡ some i
      → get i s.approvals ≡ some a
      → get k s.tool_calls ≡ some c
      → Finds s o k
  unfolding find_subject ◌>>=◌
  with_call i a c x y z = elim (Bool-cases (not (a.owner_id == o) || not (c.owner_id == o))) [
    | inl w ↦ inl (key_error k, rw (x, y, z, w))
    | inr w ↦ with_run i a c x y z w
  ]

  pub find_subject_cases : Finds s o k
  find_subject_cases = elim (Option-cases (get k s.approval_by_tool_call)) [
    | inl x ↦ inl (key_error k, unfold find_subject ◌>>=◌ in rw x)
    | inr (i, x) ↦ elim (Option-cases (get i s.approvals)) [
      | inl y ↦ inl (key_error i, unfold find_subject ◌>>=◌ in rw (x, y))
      | inr (a, y) ↦ elim (Option-cases (get k s.tool_calls)) [
        | inl z ↦ inl (key_error k, unfold find_subject ◌>>=◌ in rw (x, y, z))
        | inr (c, z) ↦ with_call i a c x y z
      ]
    ]
  ]

  abbrev pub FindsRun : Type 0
  FindsRun =
      ((e : AgentError) × (find_run o k s ≡ (err e, s)))
      ⊎ ((r : StoredAgentRun) × (find_run o k s ≡ (ok r, s))
          × (get k s.runs ≡ some r)
          × (r.owner_id ≡ o))

  pub find_run_cases : FindsRun
  unfolding find_run ◌>>=◌
  find_run_cases = elim (Option-cases (get k s.runs)) [
    | inl x ↦ inl (key_error k, rw x)
    | inr (r, x) ↦ elim (Bool-cases (not (r.owner_id == o))) [
      | inl w ↦ inl (key_error k, rw (x, w))
      | inr w ↦ inr (r, rw (x, w), x, ground (arith, string_eq.beq_iff r.owner_id o))
    ]
  ]

  abbrev pub FindsCall : Type 0
  FindsCall =
      ((e : AgentError) × (find_tool_call o k s ≡ (err e, s)))
      ⊎ ((c : StoredAgentToolCall) × (find_tool_call o k s ≡ (ok c, s))
          × (get k s.tool_calls ≡ some c)
          × (c.owner_id ≡ o))

  pub find_tool_call_cases : FindsCall
  unfolding find_tool_call ◌>>=◌
  find_tool_call_cases = elim (Option-cases (get k s.tool_calls)) [
    | inl x ↦ inl (key_error k, rw x)
    | inr (r, x) ↦ elim (Bool-cases (not (r.owner_id == o))) [
      | inl w ↦ inl (key_error k, rw (x, w))
      | inr w ↦ inr (r, rw (x, w), x, ground (arith, string_eq.beq_iff r.owner_id o))
    ]
  ]
