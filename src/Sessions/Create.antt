-- ===== src/Sessions/Create.antt =====
-- `ComputeSessionService.create`: reserve GPUs, load a worker on each, and report the session.
-- What lies outside the code is an argument: the inventory, the hash of the request, the values
-- that `uuid4` draws, and what the backend answers for each slot. `clock` is read when the session
-- is reserved, `later` while it loads.
use oneiroi.Prelude.{
  ℕ, zero, suc, String, Bool, true, false, not, ◌&&◌, Option, none, some, List, [], ◌∷◌, ◌++◌, ◌==◌,
  string_eq, pair_eq, nat_eq, ltb, elem, map, filter, length, truthy,
}
use oneiroi.Prelude.Dict.{Dict, get, put, put_all}
use oneiroi.Prelude.Effects.{Result, ok, err, raise_if, pure, gets, modify, lift, zoom, ◌>>=◌, ◌>>◌}
use oneiroi.Failure.{Failure, value_error, runtime_error, key_error}
use oneiroi.Compute.{
  GpuInfo, GpuState, ProfileTier, ProfilePlan, ComputeSlot, ComputeSessionCreate,
  ComputeSessionSnapshot, ComputeSessionState, gpu_state_eq,
}
use oneiroi.Prelude.Int.{pos}
use oneiroi.Compute.Plan.{allocated_gpu_count, profile_plan_for_count}
use oneiroi.Leases.{Lease, LeaseStore, acquire, release_session}
use oneiroi.Sessions.{Action, Clock, put_session, emit_snapshot, start_lease_renewal}
use oneiroi.Sessions.Selection.{select_gpus}

-- The values that `uuid4` draws: for the session, for its slots and for the leases.
pub record Fresh : Type 0 where
  pub session_id : String
  pub slot_id : ℕ → String
  pub token : ℕ → String

-- What `backend.load_slot` does: return, with the hash in its result, or raise.
pub data LoadResult : Type 0 where
  loaded : Option String → LoadResult
  failed : String → LoadResult

-- the token of a lease on a GPU, `{lease.gpu_id: lease.fencing_token for lease in acquired}`
abbrev pub tokens_by_gpu : List Lease → Dict String String
tokens_by_gpu acquired = put_all (map (λ l. (l.gpu_id, l.fencing_token)) acquired) []

abbrev pub repeat : ℕ → ProfileTier → List ProfileTier
repeat zero tier = []
repeat (suc n) tier = tier ∷ repeat n tier

-- `[ProfileTier.FAST] * plan.fast + [ProfileTier.HQ] * plan.hq`
abbrev pub profiles_of : ProfilePlan → List ProfileTier
profiles_of plan = repeat plan.fast ProfileTier.fast ++ repeat plan.hq ProfileTier.hq

abbrev pub new_slot : String → GpuInfo → ProfileTier → ComputeSlot
new_slot id gpu profile = record {
  id = id;
  gpu_id = gpu.id;
  physical_index = gpu.physical_index;
  state = GpuState.reserved;
  profile = some profile;
  load_stage = some "reserving_gpu";
  load_progress = 0;
  pipeline_spec_hash = none;
  last_error = none;
}

abbrev cons_slot :
    ComputeSlot → Result Failure (List ComputeSlot) → Result Failure (List ComputeSlot)
cons_slot slot (ok slots) = ok (slot ∷ slots)
cons_slot slot (err e) = err e

-- one slot for each GPU with its profile; `strict=True` refuses lists of different lengths
unfoldable pub zip_slots :
    (ℕ → String) → ℕ → List GpuInfo → List ProfileTier → Result Failure (List ComputeSlot)
zip_slots ids n [] [] = ok []
zip_slots ids n [] (tier ∷ tiers) = err (value_error "zip() argument 2 is longer than argument 1")
zip_slots ids n (gpu ∷ gpus) [] = err (value_error "zip() argument 2 is shorter than argument 1")
zip_slots ids n (gpu ∷ gpus) (tier ∷ tiers) =
    cons_slot (new_slot (ids n) gpu tier) (zip_slots ids (suc n) gpus tiers)

abbrev pub new_session :
    Fresh
    → String
    → ComputeSessionCreate
    → ProfilePlan
    → List ComputeSlot
    → Clock
    → ComputeSessionSnapshot
new_session fresh owner_id payload plan slots clock = record {
  id = fresh.session_id;
  owner_id = owner_id;
  state = ComputeSessionState.allocating;
  requested_gpu_count = payload.requested_gpu_count;
  allocated_gpu_count = length slots;
  selection_mode = payload.selection_mode;
  profile_policy = payload.profile_policy;
  allow_partial = payload.allow_partial;
  profile_plan = plan;
  slots = slots;
  error_code = none;
  error_message = none;
  created_at = clock.utc;
  ready_at = none;
  released_at = none;
}

-- `fencing_by_gpu[slot.gpu_id]` for each slot
unfoldable pub slot_tokens :
    Dict String String → List ComputeSlot → Result Failure (List (String × String))
slot_tokens tokens [] = ok []
slot_tokens tokens (slot ∷ slots) =
    cons_token slot (get slot.gpu_id tokens) (slot_tokens tokens slots)
  where
    cons_token :
        ComputeSlot
        → Option String
        → Result Failure (List (String × String))
        → Result Failure (List (String × String))
    cons_token slot none rest = err (key_error slot.gpu_id)
    cons_token slot (some token) (ok rest) = ok ((slot.id, token) ∷ rest)
    cons_token slot (some token) (err e) = err e

-- a call of the lease store
abbrev pub on_leases : {A : Type 0} → (LeaseStore → A × LeaseStore) → Action A
on_leases method = zoom λ s. let r = method s.leases in (r.0, record s { leases = r.1 })

-- `ids = {lease.gpu_id for lease in acquired}; [gpu for gpu in eligible if gpu.id in ids]`
abbrev pub acquired_gpus : List Lease → List GpuInfo → List GpuInfo
acquired_gpus acquired eligible =
    filter (λ gpu. elem gpu.id (map (λ l. l.gpu_id) acquired)) eligible

-- the reason why no GPU can be allocated
abbrev pub refusal : List GpuInfo → String
refusal [] = "NO_ELIGIBLE_GPU"
refusal (gpu ∷ gpus) = "PARTIAL_ALLOCATION_DISABLED"

abbrev pub release_if : Bool → String → Action Unit
release_if false session_id = pure tt
release_if true session_id = do on_leases (release_session session_id); pure tt

-- `if idempotency_key: self.idempotency[...] = ...`
abbrev pub remember : String → Option String → String → String → Action Unit
remember owner_id none fingerprint session_id = pure tt
remember owner_id (some key) fingerprint session_id =
    modify
      (λ s. record s { idempotency = put (owner_id, key) (fingerprint, session_id) s.idempotency })

-- reserve GPUs for a new session and record it, or raise
unfoldable pub reserve_session :
    Fresh
    → Clock
    → String
    → ComputeSessionCreate
    → Option String
    → String
    → List GpuInfo
    → Action ComputeSessionSnapshot
reserve_session fresh clock owner_id payload idempotency_key fingerprint inventory = do
  eligible ← lift (select_gpus payload inventory)
  let requested = payload.requested_gpu_count
  expected ←
      lift (allocated_gpu_count (pos requested) (pos (length eligible)) payload.allow_partial)
  raise_if (expected == 0) (runtime_error (refusal eligible))
  ttl ← gets (λ s. s.lease_ttl_seconds)
  acquired ← on_leases (
      acquire (map (λ gpu. gpu.id) eligible) requested fresh.session_id ttl payload.allow_partial
        clock.monotonic fresh.token)
  raise_if (length acquired == 0) (runtime_error "NO_ELIGIBLE_GPU")
  let selected = acquired_gpus acquired eligible
  let short = not payload.allow_partial && ltb (length selected) requested
  release_if short fresh.session_id
  raise_if short (runtime_error "PARTIAL_ALLOCATION_DISABLED")
  plan ← lift (profile_plan_for_count (pos (length selected)))
  slots ← lift (zip_slots fresh.slot_id 0 selected (profiles_of plan))
  let session = new_session fresh owner_id payload plan slots clock
  put_session session
  modify (λ s. record s { last_activity = put session.id clock.monotonic s.last_activity })
  tokens ← lift (slot_tokens (tokens_by_gpu acquired) slots)
  modify (λ s. record s { fencing_tokens = put_all tokens s.fencing_tokens })
  remember owner_id (truthy idempotency_key) fingerprint session.id
  emit_snapshot session "compute.session.updated" clock
  start_lease_renewal session.id
  pure session
