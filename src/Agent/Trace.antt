-- ===== src/Agent/Trace.antt =====
-- The event log of the agent repository: every run's events are numbered without gaps, and the
-- event ids grow.
use oneiroi.Prelude.{
  ℕ, ◌+◌, ◌≤◌, ◌≡◌, refl, sym, ◌∙◌, String, some, List, [], ◌∷◌, ◌++◌, ◌==◌, string_eq, arith,
  or_else, length, Option-cases, Bool-cases, if◌then◌else◌, inl, inr,
}
use oneiroi.Prelude.Dict.{get, get-put}
use oneiroi.Prelude.Effects.{◌>>=◌, Keeps, Keeps-modify, keeps_rules}
use oneiroi.Agent.{
  AgentMessageRole, AgentMessageContent, AgentRunResponse, AgentEventResponse, Payload,
}
use oneiroi.Agent.State.{AgentRepository, StoredAgentRun, new_event, append_event_locked}
use oneiroi.Agent.Runs.{add_message}

-- The events of run `k` from place `n` on, their ids from `lo` and below `hi`.
abbrev pub IsTrace : String → ℕ → ℕ → ℕ → List (String × AgentEventResponse) → Type 0
IsTrace k n lo hi [] = lo ≤ hi
IsTrace k n lo hi (e ∷ es) =
    (e.1.run_id ≡ k) × (e.1.sequence ≡ n + 1) × (lo ≤ e.1.id) × IsTrace k (n + 1) (e.1.id + 1) hi es

abbrev pub IsTraced : AgentRepository → Type 0
IsTraced s =
    (1 ≤ s.event_id)
    × ((k : String) (items : List (String × AgentEventResponse))
        → get k s.events ≡ some items
        → IsTrace k 0 1 s.event_id items)

IsTrace-mono :
    (k : String) (n lo hi : ℕ) (items : List (String × AgentEventResponse))
    → IsTrace k n lo hi items
    → IsTrace k n lo (hi + 1) items
IsTrace-mono k n lo hi [] h = omega arith
IsTrace-mono k n lo hi (e ∷ es) h = (h.0, h.1, h.2, IsTrace-mono k (n + 1) (e.1.id + 1) hi es h.3)

IsTrace-append :
    (k : String) (n lo hi : ℕ) (items : List (String × AgentEventResponse)) (o : String)
    (e : AgentEventResponse)
    → IsTrace k n lo hi items
    → e.run_id ≡ k
    → e.sequence ≡ n + length items + 1
    → e.id ≡ hi
    → IsTrace k n lo (hi + 1) (items ++ (o, e) ∷ [])
IsTrace-append k n lo hi [] o e h r q i = (r, omega arith, omega arith, omega arith)
IsTrace-append k n lo hi (x ∷ xs) o e h r q i =
    (h.0, h.1, h.2, IsTrace-append k (n + 1) (x.1.id + 1) hi xs o e h.3 r (omega arith) i)

module _ (o : String) (r : AgentRunResponse) (t : String) (p : Payload) (now : ℕ) where
  abbrev old_items : AgentRepository → List (String × AgentEventResponse)
  old_items s = or_else (get r.id s.events) []

  abbrev event : AgentRepository → AgentEventResponse
  event s = new_event r t p now (old_items s) s.event_id

  abbrev appended : AgentRepository → List (String × AgentEventResponse)
  appended s = old_items s ++ (o, event s) ∷ []

  old_items-IsTrace : (s : AgentRepository) → IsTraced s → IsTrace r.id 0 1 s.event_id (old_items s)
  old_items-IsTrace s h = elim (Option-cases (get r.id s.events)) [
    | inl e ↦ rw e h.0
    | inr (items, e) ↦ rw e (h.1 r.id items e)
  ]

  get-events :
      (s : AgentRepository) (k : String)
      → get k (append_event_locked o r t p now s).1.events
        ≡ (if r.id == k then some (appended s) else get k s.events)
  unfolding append_event_locked ◌>>=◌
  get-events s k = get-put r.id k (appended s) s.events

  traced :
      (s : AgentRepository) (k : String) (items : List (String × AgentEventResponse))
      → IsTraced s
      → (if r.id == k then some (appended s) else get k s.events) ≡ some items
      → IsTrace k 0 1 (s.event_id + 1) items
  traced s k items h e = elim (Bool-cases (r.id == k)) [
    | inl same ↦
        let at_run : r.id ≡ k = (string_eq.beq_iff r.id k).0 same in
        let whole : appended s ≡ items = ground arith in
        rw (← at_run, ← whole)
          (IsTrace-append r.id 0 1 s.event_id (old_items s) o (event s) (old_items-IsTrace s h) refl
            (omega arith) refl)
    | inr other ↦ IsTrace-mono k 0 1 s.event_id items (h.1 k items (ground arith))
  ]

  pub append_event_locked-IsTraced : Keeps IsTraced (append_event_locked o r t p now)
  unfolding append_event_locked ◌>>=◌
  append_event_locked-IsTraced = record {
    after = λ s h. (omega (arith, h.0), λ k items e. traced s k items h (sym (get-events s k) ∙ e));
  }

pub ruleset trace_rules = (keeps_rules, Keeps-modify, append_event_locked-IsTraced)

pub add_message-IsTraced :
    (r : StoredAgentRun) (role : AgentMessageRole) (c : AgentMessageContent) (f : String) (now : ℕ)
    → Keeps IsTraced (add_message r role c f now)
unfolding add_message
add_message-IsTraced r role c f now = search trace_rules
