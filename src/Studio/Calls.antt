-- ===== src/Studio/Calls.antt =====
-- The calls of services/gateway/src/oneiroi_gateway/repositories/studio.py,
-- `InMemoryStudioRepository`, that an owner makes and that change it, as one step.
use oneiroi.Prelude.{ℕ, ◌≡◌, String, Option, none, some, string_eq}
use oneiroi.Prelude.Dict.{get}
use oneiroi.Studio.{StoredAsset, StoredJob}
use oneiroi.Studio.Repository.{
  StudioRepository, create_conversation, put_conversation, delete_conversation, create_asset,
  delete_asset, create_job, update_job, add_event,
}

-- The calls that change the repository on behalf of an owner.
pub data Call : Type 0 where
  call_create_conversation : String → ℕ → String → String → Call
  call_put_conversation : ℕ → String → String → String → Call
  call_delete_conversation : String → String → Call
  call_create_asset : StoredAsset → Call
  call_delete_asset : String → String → Call
  call_create_job : StoredJob → Call
  call_update_job : StoredJob → Call
  call_add_event : ℕ → String → String → String → String → Call

abbrev pub step : Call → StudioRepository → StudioRepository
step (call_create_conversation id now owner_id title) s =
    (create_conversation id now owner_id title s).1
step (call_put_conversation now owner_id id title) s = (put_conversation now owner_id id title s).1
step (call_delete_conversation owner_id id) s = (delete_conversation owner_id id s).1
step (call_create_asset asset) s = (create_asset asset s).1
step (call_delete_asset owner_id id) s = (delete_asset owner_id id s).1
step (call_create_job job) s = (create_job job s).1
step (call_update_job job) s = (update_job job s).1
step (call_add_event now owner_id job_id event_type payload) s =
    (add_event now owner_id job_id event_type payload s).1

abbrev pub caller : Call → String
caller (call_create_conversation id now owner_id title) = owner_id
caller (call_put_conversation now owner_id id title) = owner_id
caller (call_delete_conversation owner_id id) = owner_id
caller (call_create_asset asset) = asset.owner_id
caller (call_delete_asset owner_id id) = owner_id
caller (call_create_job job) = job.owner_id
caller (call_update_job job) = job.owner_id
caller (call_add_event now owner_id job_id event_type payload) = owner_id

-- The entry is of this owner, if there is one.
abbrev pub IsFree : {V : Type 0} → (V → String) → String → Option V → Type 0
IsFree owner p none = Unit
IsFree owner p (some v) = owner v ≡ p

-- An identifier that a call writes is new, or names an entry of the caller.
abbrev pub WritesOwn : Call → StudioRepository → Type 0
WritesOwn (call_create_conversation id now owner_id title) s =
    IsFree (λ e. e.0) owner_id (get id s.conversations)
WritesOwn (call_create_asset asset) s =
    IsFree (λ (a : StoredAsset). a.owner_id) asset.owner_id (get asset.response.id s.assets)
WritesOwn (call_create_job job) s =
    IsFree (λ (j : StoredJob). j.owner_id) job.owner_id (get job.response.id s.jobs)
WritesOwn (call_update_job job) s =
    IsFree (λ (j : StoredJob). j.owner_id) job.owner_id (get job.response.id s.jobs)
WritesOwn _ s = Unit
