-- ===== src/Compute/Capabilities.antt =====
-- services/gateway/src/oneiroi_gateway/services/capabilities.py, `CapabilityService`: which profiles
-- a session can be asked for. The lists of resolutions and durations are constants.
use oneiroi.Prelude.{
  ◌≡◌, ◌⊎◌, inl, inr, refl, Bool-cases, String, Bool, true, false, not, ◌&&◌, Option, none, some,
  List, [], ◌∷◌, ◌==◌, string_eq, option_eq, any, find, ltb, or_else, if◌then◌else◌,
}
use oneiroi.Prelude.Dict.{Dict, get}
use oneiroi.Prelude.Effects.{Result, ok, err}
use oneiroi.Failure.{Failure, ErrorCode, oneiroi_error}
use oneiroi.Compute.{
  ProfileTier, fast, hq, ComputeSlot, ComputeSessionSnapshot, GpuState, gpu_state_eq, tier_eq,
}

abbrev pub fast_profile_id : String
fast_profile_id = "ltx23-distilled-fast-v1"

abbrev pub hq_profile_id : String
hq_profile_id = "ltx23-dev-hq-v1"

-- `ProfileCapability`, without the constant lists
pub record ProfileCapability : Type 0 where
  pub id : String
  pub tier : ProfileTier
  pub available : Bool
  pub unavailable_reason : Option String

pub record CapabilityService : Type 0 where
  pub fast_installed : Bool
  pub hq_installed : Bool

abbrev pub is_ready_for : ProfileTier → ComputeSlot → Bool
is_ready_for tier slot = slot.profile == some tier && slot.state == GpuState.ready

-- the reason of the fast profile: the last assignment wins
abbrev pub fast_reason : CapabilityService → Option ComputeSessionSnapshot → Option String
fast_reason s none = if s.fast_installed then none else some "FAST_PROFILE_NOT_INSTALLED"
fast_reason s (some session) =
    if not s.fast_installed
    then some "FAST_PROFILE_NOT_INSTALLED"
    else if not (any (is_ready_for fast) session.slots)
    then some "FAST_NOT_READY"
    else none

abbrev pub hq_reason : CapabilityService → Option ComputeSessionSnapshot → Option String
hq_reason s none = if s.hq_installed then none else some "HQ_PROFILE_NOT_INSTALLED"
hq_reason s (some session) =
    if not s.hq_installed
    then some "HQ_PROFILE_NOT_INSTALLED"
    else if ltb session.allocated_gpu_count 2
    then some "HQ_REQUIRES_AT_LEAST_2_GPUS"
    else if not (any (is_ready_for hq) session.slots)
    then some "HQ_NOT_READY"
    else none

unfoldable pub profiles : CapabilityService → Option ComputeSessionSnapshot → List ProfileCapability
profiles s session =
    record {
      id = fast_profile_id;
      tier = fast;
      available = s.fast_installed;
      unavailable_reason = fast_reason s session;
    }
    ∷ record {
      id = hq_profile_id;
      tier = hq;
      available = s.hq_installed;
      unavailable_reason = hq_reason s session;
    }
    ∷ []

-- the values of `ErrorCode`
abbrev pub error_codes : Dict String ErrorCode
error_codes =
    ("NO_COMPUTE_SESSION", ErrorCode.no_compute_session)
    ∷ ("COMPUTE_NOT_READY", ErrorCode.compute_not_ready)
    ∷ ("HQ_REQUIRES_AT_LEAST_2_GPUS", ErrorCode.hq_requires_at_least_2_gpus)
    ∷ ("HQ_NOT_READY", ErrorCode.hq_not_ready)
    ∷ ("GPU_BECAME_BUSY", ErrorCode.gpu_became_busy)
    ∷ ("MODEL_LOAD_FAILED", ErrorCode.model_load_failed)
    ∷ ("MODEL_PROFILE_MISMATCH", ErrorCode.model_profile_mismatch)
    ∷ ("CUDA_OOM", ErrorCode.cuda_oom)
    ∷ ("INFERENCE_FAILED", ErrorCode.inference_failed)
    ∷ ("ENCODING_FAILED", ErrorCode.encoding_failed)
    ∷ ("CANCELLED_BY_USER", ErrorCode.cancelled_by_user)
    ∷ ("RUNNER_HEARTBEAT_LOST", ErrorCode.runner_heartbeat_lost)
    ∷ ("ARTIFACT_WRITE_FAILED", ErrorCode.artifact_write_failed)
    ∷ ("IDEMPOTENCY_KEY_REUSED", ErrorCode.idempotency_key_reused)
    ∷ ("INVALID_ASSET", ErrorCode.invalid_asset)
    ∷ ("CONVERSATION_BUSY", ErrorCode.conversation_busy)
    ∷ ("CONCURRENCY_LIMIT", ErrorCode.concurrency_limit)
    ∷ []

-- the reason of an unavailable profile, as the exception that is raised
abbrev pub refused : String → Result Failure ProfileCapability
refused reason =
    err (oneiroi_error (or_else (get reason error_codes) ErrorCode.compute_not_ready) reason)

abbrev pub check_available : ProfileCapability → Result Failure ProfileCapability
check_available capability =
    if capability.available
    then ok capability
    else refused (or_else capability.unavailable_reason "COMPUTE_NOT_READY")

-- `next(profile for profile in ... if profile.tier is tier)`: both tiers are in the list
abbrev pub capability_of : ProfileTier → List ProfileCapability → Option ProfileCapability
capability_of tier = find (λ profile. profile.tier == tier)

unfoldable pub require_profile :
    CapabilityService → ComputeSessionSnapshot → ProfileTier → Result Failure ProfileCapability
unfolding profiles
require_profile s session tier = elim (capability_of tier (profiles s (some session))) [
  | none ↦ refused "COMPUTE_NOT_READY"
  | some capability ↦ check_available capability
]

-- The session plays no part: a profile is refused exactly if it is not installed.
abbrev pub is_installed : ProfileTier → CapabilityService → Bool
is_installed fast s = s.fast_installed
is_installed hq s = s.hq_installed

-- A profile is granted exactly if it is installed, whatever the slots of the session are; what is
-- granted is the capability of that profile. A profile that is not installed is refused with the
-- code COMPUTE_NOT_READY.
pub require_profile_lem :
    (s : CapabilityService) (session : ComputeSessionSnapshot) (tier : ProfileTier)
    → ((capability : ProfileCapability) × (require_profile s session tier ≡ ok capability)
        × (capability.tier ≡ tier)
        × (is_installed tier s ≡ true))
      ⊎ ((message : String) × (require_profile s session tier
            ≡ err (oneiroi_error ErrorCode.compute_not_ready message))
          × (is_installed tier s ≡ false))
unfolding require_profile get
require_profile_lem s session fast = elim (Bool-cases s.fast_installed) [
  | inl e ↦ inl (fast_capability, rw e, refl, e)
  | inr e ↦ inr ("FAST_PROFILE_NOT_INSTALLED", rw e, e)
]
  where
    fast_capability : ProfileCapability
    fast_capability = record {
      id = fast_profile_id;
      tier = fast;
      available = s.fast_installed;
      unavailable_reason = fast_reason s (some session);
    }
require_profile_lem s session hq = elim (Bool-cases s.hq_installed) [
  | inl e ↦ inl (hq_capability, rw e, refl, e)
  | inr e ↦ inr ("HQ_PROFILE_NOT_INSTALLED", rw e, e)
]
  where
    hq_capability : ProfileCapability
    hq_capability = record {
      id = hq_profile_id;
      tier = hq;
      available = s.hq_installed;
      unavailable_reason = hq_reason s (some session);
    }
