-- ===== src/Agent/Runs.antt =====
-- repositories/agent.py, `InMemoryAgentRepository`: threads, messages and the creation of runs.
use oneiroi.Prelude.{
  ℕ, ◌+◌, String, Bool, true, false, not, ◌&&◌, Option, none, some, List, [], ◌∷◌, ◌++◌, ◌==◌,
  string_eq, pair_eq, ltb, is_none, ◌||◌, or_else, length, take, filter, any, map, truthy,
}
use oneiroi.Prelude.Dict.{get, put, values}
use oneiroi.Prelude.Effects.{require, raise_if, pure, gets, modify, ◌>>=◌, ◌>>◌}
use oneiroi.Agent.{
  AgentThreadResponse, AgentMessageResponse, AgentMessageRole, AgentMessageStatus,
  AgentMessageContent, AgentRunResponse, AgentEventResponse, AgentThreadStatus, Payload,
  is_terminal,
}
use oneiroi.Agent.State.{
  Action, StoredAgentThread, StoredAgentRun, key_error, value_error, runtime_error, find_run,
  append_event_locked, is_lapsed,
}

abbrev new_thread : String → String → String → ℕ → AgentThreadResponse
new_thread conversation_id prompt_version fresh now = record {
  id = fresh;
  conversation_id = conversation_id;
  status = AgentThreadStatus.active;
  summary_text = none;
  summary_cursor = 0;
  prompt_version = prompt_version;
  created_at = now;
  updated_at = now;
}

unfoldable pub add_thread : String → AgentThreadResponse → Action AgentThreadResponse
add_thread owner_id response = do
  modify (λ s. record s {
    threads = put response.id (record { owner_id = owner_id; response = response }) s.threads;
    thread_by_conversation = put response.conversation_id response.id s.thread_by_conversation;
  })
  pure response

-- `self.threads[thread_id]`, with the check of the owner; `key` is what the error names
unfoldable pub visible_thread :
    String → String → Option StoredAgentThread → Action AgentThreadResponse
visible_thread owner_id key stored = do
  thread ← require stored (key_error key)
  raise_if (not (thread.owner_id == owner_id)) (key_error key)
  pure thread.response

-- the thread that the conversation already has, or a new one
unfoldable pub thread_for :
    String → String → String → String → ℕ → Option String → Action AgentThreadResponse
unfolding add_thread visible_thread
thread_for owner_id conversation_id prompt_version fresh now none =
    add_thread owner_id (new_thread conversation_id prompt_version fresh now)
thread_for owner_id conversation_id prompt_version fresh now (some thread_id) = do
  found ← gets (λ s. get thread_id s.threads)
  visible_thread owner_id conversation_id found

-- `fresh` is the id that `uuid4` draws for a new thread
unfoldable pub get_or_create_thread :
    String → String → String → String → ℕ → Action AgentThreadResponse
unfolding thread_for
get_or_create_thread owner_id conversation_id prompt_version fresh now = do
  known ← gets (λ s. get conversation_id s.thread_by_conversation)
  thread_for owner_id conversation_id prompt_version fresh now (truthy known)

unfoldable pub get_thread : String → String → Action AgentThreadResponse
unfolding visible_thread
get_thread owner_id thread_id = do
  found ← gets (λ s. get thread_id s.threads)
  visible_thread owner_id thread_id found

unfoldable pub get_thread_by_conversation : String → String → Action AgentThreadResponse
unfolding get_thread
get_thread_by_conversation owner_id conversation_id = do
  found ← gets (λ s. get conversation_id s.thread_by_conversation)
  thread_id ← require found (key_error conversation_id)
  get_thread owner_id thread_id

unfoldable pub list_messages :
    String → String → (after_sequence limit : ℕ) → Action (List AgentMessageResponse)
unfolding get_thread
list_messages owner_id thread_id after_sequence limit = do
  get_thread owner_id thread_id
  gets (λ s. take limit (
      map (λ m. m.1)
        (filter (λ m. m.0 == owner_id && ltb after_sequence m.1.sequence)
          (or_else (get thread_id s.messages) []))))

abbrev pub new_message :
    AgentRunResponse
    → AgentMessageRole
    → AgentMessageContent
    → String
    → ℕ
    → ℕ
    → AgentMessageResponse
new_message run role content fresh sequence now = record {
  id = fresh;
  thread_id = run.thread_id;
  run_id = some run.id;
  sequence = sequence;
  role = role;
  content = content;
  status = AgentMessageStatus.completed;
  provider_item_id = none;
  created_at = now;
  completed_at = some now;
}

-- appends a message to the thread of the run
unfoldable pub add_message :
    StoredAgentRun
    → AgentMessageRole
    → AgentMessageContent
    → String
    → ℕ
    → Action AgentMessageResponse
add_message run role content fresh now = do
  items ← gets (λ s. or_else (get run.response.thread_id s.messages) [])
  let message = new_message run.response role content fresh (length items + 1) now
  modify (λ s. record s {
    messages = put run.response.thread_id (items ++ (run.owner_id, message) ∷ []) s.messages;
  })
  pure message

-- a run that stands in the way of a new one of this owner
abbrev pub is_active_of : String → StoredAgentRun → Bool
is_active_of owner_id existing =
    existing.owner_id == owner_id && not (is_terminal existing.response.status)

unfoldable pub add_run :
    StoredAgentRun → AgentMessageContent → String → ℕ → Action (StoredAgentRun × Bool)
unfolding add_message append_event_locked
add_run run user_content fresh now = do
  limit ← gets (λ s. any (is_active_of run.owner_id) (values s.runs))
  raise_if limit (runtime_error "AGENT_RUN_CONCURRENCY_LIMIT")
  found ← gets (λ s. get run.response.thread_id s.threads)
  thread ← require found (key_error run.response.thread_id)
  raise_if (not (thread.owner_id == run.owner_id)) (key_error run.response.thread_id)
  modify (λ s. record s {
    runs = put run.response.id run s.runs;
    idempotency = put (run.owner_id, run.idempotency_key) run.response.id s.idempotency;
  })
  add_message run AgentMessageRole.user user_content fresh now
  append_event_locked run.owner_id run.response "agent.run.queued"
      (Payload.status run.response.status) now
  modify (λ s. record s {
    threads =
        put run.response.thread_id
          (record thread { response = record thread.response { updated_at = now } }) s.threads;
  })
  pure (run, true)

-- the run that an idempotency key already names
unfoldable pub repeated_run : StoredAgentRun → String → Action (StoredAgentRun × Bool)
repeated_run run run_id = do
  found ← gets (λ s. get run_id s.runs)
  existing ← require found (key_error run_id)
  raise_if (not (existing.request_hash == run.request_hash)) (value_error "IDEMPOTENCY_KEY_REUSED")
  pure (existing, false)

-- the run that the key already names, or a new one
unfoldable pub run_for :
    StoredAgentRun
    → AgentMessageContent
    → String
    → ℕ
    → Option String
    → Action (StoredAgentRun × Bool)
unfolding add_run repeated_run
run_for run user_content fresh now none = add_run run user_content fresh now
run_for run user_content fresh now (some run_id) = repeated_run run run_id

unfoldable pub create_run :
    StoredAgentRun → AgentMessageContent → String → ℕ → Action (StoredAgentRun × Bool)
unfolding run_for
create_run run user_content fresh now = do
  known ← gets (λ s. get (run.owner_id, run.idempotency_key) s.idempotency)
  run_for run user_content fresh now (truthy known)

unfoldable pub get_run : String → String → Action StoredAgentRun
unfolding find_run
get_run owner_id run_id = find_run owner_id run_id

unfoldable pub list_incomplete_runs : Action (List StoredAgentRun)
list_incomplete_runs =
    gets (λ s. filter (λ run. not (is_terminal run.response.status)) (values s.runs))

unfoldable pub list_recoverable_runs : ℕ → Action (List StoredAgentRun)
list_recoverable_runs now = gets (λ s.
    filter
      (λ run.
        not (is_terminal run.response.status)
        && (is_none run.executor_id || is_lapsed now run.execution_lease_expires_at))
      (values s.runs))

unfoldable pub list_events :
    String → String → (after_id limit : ℕ) → Action (List AgentEventResponse)
unfolding get_run
list_events owner_id run_id after_id limit = do
  get_run owner_id run_id
  gets (λ s. take limit (
      map (λ e. e.1)
        (filter (λ e. e.0 == owner_id && ltb after_id e.1.id) (or_else (get run_id s.events) []))))
