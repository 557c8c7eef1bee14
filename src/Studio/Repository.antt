-- ===== src/Studio/Repository.antt =====
-- services/gateway/src/oneiroi_gateway/repositories/studio.py, `InMemoryStudioRepository`. A deep
-- copy is the value itself; `now` is what `utc_now` reads and `id` what `uuid4` draws.
use oneiroi.Prelude.{
  ℕ, ◌+◌, String, Bool, true, not, ◌&&◌, Option, none, some, List, [], ◌∷◌, ◌++◌, ◌==◌, string_eq,
  ltb, filter, map, sort_by, count, or_else, if◌then◌else◌,
}
use oneiroi.Prelude.Dict.{Dict, get, put, pop, values, keys_where}
use oneiroi.Prelude.Effects.{Exec, pure, gets, require, raise_if, modify, ◌>>=◌, ◌>>◌}
use oneiroi.Failure.{Failure, key_error}
use oneiroi.Studio.{
  ConversationResponse, AssetResponse, JobResponse, JobEventResponse, StoredAsset, StoredJob,
  JobAttemptRecord, is_terminal,
}

pub record StudioRepository : Type 0 where
  pub conversations : Dict String (String × ConversationResponse)
  pub assets : Dict String StoredAsset
  pub jobs : Dict String StoredJob
  pub attempts : Dict String (List JobAttemptRecord)
  pub events : Dict String (List JobEventResponse)
  pub event_id : ℕ

abbrev pub Action : Type 0 → Type 0
Action = Exec Failure StudioRepository

unfoldable pub create_conversation : String → ℕ → String → String → Action ConversationResponse
create_conversation id now owner_id title = do
  let response : ConversationResponse = record {
    id = id;
    title = title;
    created_at = now;
    updated_at = now;
  }
  modify (λ s. record s { conversations = put response.id (owner_id, response) s.conversations })
  pure response

unfoldable pub list_conversations : String → StudioRepository → List ConversationResponse
list_conversations owner_id s =
    sort_by (λ a b. ltb b.updated_at a.updated_at)
      (map (λ e. e.1) (filter (λ e. e.0 == owner_id) (values s.conversations)))

unfoldable pub get_conversation : String → String → Action ConversationResponse
get_conversation owner_id conversation_id = do
  found ← gets (λ s. get conversation_id s.conversations)
  stored ← require found (key_error conversation_id)
  raise_if (not (stored.0 == owner_id)) (key_error conversation_id)
  pure stored.1

unfoldable pub put_conversation : ℕ → String → String → String → Action ConversationResponse
put_conversation now owner_id conversation_id title = do
  stored ← get_conversation owner_id conversation_id
  let updated : ConversationResponse = record stored { title = title; updated_at = now }
  modify (λ s. record s { conversations = put conversation_id (owner_id, updated) s.conversations })
  pure updated

abbrev pub in_conversation : String → String → StoredJob → Bool
in_conversation owner_id conversation_id job =
    job.owner_id == owner_id && job.response.conversation_id == conversation_id

-- the loop over the jobs of the conversation
abbrev pub forget_jobs : List String → StudioRepository → StudioRepository
forget_jobs [] s = s
forget_jobs (job_id ∷ job_ids) s = forget_jobs job_ids (record s {
  jobs = pop job_id s.jobs;
  attempts = pop job_id s.attempts;
  events = pop job_id s.events;
})

unfoldable pub delete_conversation : String → String → Action Unit
unfolding get_conversation
delete_conversation owner_id conversation_id = do
  get_conversation owner_id conversation_id
  modify (λ s. forget_jobs (keys_where (in_conversation owner_id conversation_id) s.jobs) s)
  modify (λ s. record s { conversations = pop conversation_id s.conversations })

unfoldable pub list_jobs_for_conversation : String → String → StudioRepository → List StoredJob
list_jobs_for_conversation owner_id conversation_id s =
    filter (in_conversation owner_id conversation_id) (values s.jobs)

unfoldable pub create_asset : StoredAsset → Action AssetResponse
create_asset asset = do
  modify (λ s. record s { assets = put asset.response.id asset s.assets })
  pure asset.response

unfoldable pub list_assets : String → StudioRepository → List AssetResponse
list_assets owner_id s =
    sort_by (λ a b. ltb b.created_at a.created_at)
      (map (λ (a : StoredAsset). a.response)
        (filter (λ a. a.owner_id == owner_id) (values s.assets)))

unfoldable pub get_asset : String → String → Action StoredAsset
get_asset owner_id asset_id = do
  found ← gets (λ s. get asset_id s.assets)
  asset ← require found (key_error asset_id)
  raise_if (not (asset.owner_id == owner_id)) (key_error asset_id)
  pure asset

unfoldable pub delete_asset : String → String → Action Unit
delete_asset owner_id asset_id = do
  get_asset owner_id asset_id
  modify (λ s. record s { assets = pop asset_id s.assets })

-- `create_job` and `update_job` write the job alike
unfoldable pub create_job : StoredJob → Action JobResponse
create_job job = do
  modify (λ s. record s { jobs = put job.response.id job s.jobs })
  pure job.response

unfoldable pub update_job : StoredJob → Action JobResponse
update_job job = do
  modify (λ s. record s { jobs = put job.response.id job s.jobs })
  pure job.response

unfoldable pub list_jobs : String → StudioRepository → List JobResponse
list_jobs owner_id s =
    sort_by (λ a b. ltb b.created_at a.created_at)
      (map (λ (j : StoredJob). j.response) (filter (λ j. j.owner_id == owner_id) (values s.jobs)))

unfoldable pub list_incomplete_jobs : StudioRepository → List StoredJob
list_incomplete_jobs s = filter (λ job. not (is_terminal job.response.stage)) (values s.jobs)

-- `conversation_id is None or job.response.conversation_id == conversation_id`
abbrev pub in_scope : Option String → StoredJob → Bool
in_scope none job = true
in_scope (some conversation_id) job = job.response.conversation_id == conversation_id

abbrev pub is_active_for : String → Option String → StoredJob → Bool
is_active_for owner_id conversation_id job =
    job.owner_id == owner_id && not (is_terminal job.response.stage) && in_scope conversation_id job

unfoldable pub count_active_jobs : String → Option String → StudioRepository → ℕ
count_active_jobs owner_id conversation_id s =
    count (is_active_for owner_id conversation_id) (values s.jobs)

unfoldable pub get_job : String → String → Action StoredJob
get_job owner_id job_id = do
  found ← gets (λ s. get job_id s.jobs)
  job ← require found (key_error job_id)
  raise_if (not (job.owner_id == owner_id)) (key_error job_id)
  pure job

unfoldable pub add_attempt : JobAttemptRecord → Action Unit
add_attempt attempt = modify λ s. record s {
  attempts =
      put attempt.job_id (or_else (get attempt.job_id s.attempts) [] ++ attempt ∷ []) s.attempts;
}

-- the first attempt with this identifier is replaced
abbrev pub replaced : JobAttemptRecord → List JobAttemptRecord → Option (List JobAttemptRecord)
replaced attempt [] = none
replaced attempt (item ∷ items) =
    if item.id == attempt.id then some (attempt ∷ items) else kept item (replaced attempt items)
  where
    kept : JobAttemptRecord → Option (List JobAttemptRecord) → Option (List JobAttemptRecord)
    kept item none = none
    kept item (some items) = some (item ∷ items)

unfoldable pub update_attempt : JobAttemptRecord → Action Unit
update_attempt attempt = do
  found ← gets (λ s. replaced attempt (or_else (get attempt.job_id s.attempts) []))
  items ← require found (key_error attempt.id)
  modify (λ s. record s { attempts = put attempt.job_id items s.attempts })

unfoldable pub list_attempts : String → StudioRepository → List JobAttemptRecord
list_attempts job_id s = or_else (get job_id s.attempts) []

abbrev pub new_event : ℕ → String → String → String → StudioRepository → JobEventResponse
new_event now job_id event_type payload s = record {
  id = s.event_id;
  job_id = job_id;
  event_type = event_type;
  payload = payload;
  created_at = now;
}

unfoldable pub add_event : ℕ → String → String → String → String → Action JobEventResponse
add_event now owner_id job_id event_type payload = do
  get_job owner_id job_id
  event ← gets (new_event now job_id event_type payload)
  modify (λ s. record s {
    event_id = s.event_id + 1;
    events = put job_id (or_else (get job_id s.events) [] ++ event ∷ []) s.events;
  })
  pure event

unfoldable pub list_events : String → String → ℕ → Action (List JobEventResponse)
list_events owner_id job_id after_id = do
  get_job owner_id job_id
  items ← gets (λ s. or_else (get job_id s.events) [])
  pure (filter (λ event. ltb after_id event.id) items)
