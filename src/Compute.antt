-- ===== src/Compute.antt =====
-- packages/python/common/src/oneiroi_common/compute.py: the contracts of GPU compute sessions.
-- Texts are `String`, counts are ℕ; NVML reports whole percents and degrees, so they are ℕ too.
pub mod Plan
pub mod Capabilities
use oneiroi.Prelude.{ℕ, String, Bool, Option, ◌≡◌, refl, [], ◌∷◌, ◌+◌, List, Eq, enum_eq, nth}

abbrev pub max_gpu_count : ℕ
max_gpu_count = 4

pub data GpuState : Type 0 where
  offline empty reserved loading ready busy draining unloading error foreign_busy : GpuState

pub data ComputeSessionState : Type 0 where
  requested allocating loading ready degraded failed draining releasing : ComputeSessionState
  released : ComputeSessionState

pub data SelectionMode : Type 0 where
  auto manual : SelectionMode

pub data ProfilePolicy : Type 0 where
  balanced : ProfilePolicy

pub data ProfileTier : Type 0 where
  fast hq : ProfileTier

pub data ReleasePolicy : Type 0 where
  when_idle cancel_running : ReleasePolicy

pub record ProfilePlan : Type 0 where
  pub fast : ℕ
  pub hq : ℕ

unfoldable pub total : ProfilePlan → ℕ
total p = p.fast + p.hq

pub record GpuInfo : Type 0 where
  pub id : String
  pub physical_index : ℕ
  pub name : String
  pub vram_total_mib : ℕ
  pub vram_used_mib : ℕ
  pub utilization_percent : ℕ
  pub temperature_celsius : ℕ
  pub state : GpuState
  pub eligible : Bool
  pub unavailable_reason : Option String
  pub external_process_count : ℕ
  pub last_heartbeat_at : Option String

pub record ComputeSlot : Type 0 where
  pub id : String
  pub gpu_id : String
  pub physical_index : ℕ
  pub state : GpuState
  pub profile : Option ProfileTier
  pub load_stage : Option String
  pub load_progress : ℕ
  pub pipeline_spec_hash : Option String
  pub last_error : Option String

pub record ComputeSessionCreate : Type 0 where
  pub requested_gpu_count : ℕ
  pub selection_mode : SelectionMode
  pub gpu_ids : List String
  pub profile_policy : ProfilePolicy
  pub allow_partial : Bool

pub record ComputeSessionRelease : Type 0 where
  pub policy : ReleasePolicy
  pub confirmed : Bool

pub record ComputeSessionSnapshot : Type 0 where
  pub id : String
  pub owner_id : String
  pub state : ComputeSessionState
  pub requested_gpu_count : ℕ
  pub allocated_gpu_count : ℕ
  pub selection_mode : SelectionMode
  pub profile_policy : ProfilePolicy
  pub allow_partial : Bool
  pub profile_plan : ProfilePlan
  pub slots : List ComputeSlot
  pub error_code : Option String
  pub error_message : Option String
  pub created_at : String
  pub ready_at : Option String
  pub released_at : Option String

abbrev pub gpu_code : GpuState → ℕ
gpu_code offline = 0
gpu_code empty = 1
gpu_code reserved = 2
gpu_code loading = 3
gpu_code ready = 4
gpu_code busy = 5
gpu_code draining = 6
gpu_code unloading = 7
gpu_code error = 8
gpu_code foreign_busy = 9

abbrev pub gpu_decode : ℕ → GpuState
gpu_decode = nth offline (
    offline ∷ empty ∷ reserved ∷ loading ∷ ready ∷ busy ∷ draining ∷ unloading ∷ error
    ∷ foreign_busy ∷ [])

pub gpu_decode-gpu_code : (s : GpuState) → gpu_decode (gpu_code s) ≡ s
gpu_decode-gpu_code offline = refl
gpu_decode-gpu_code empty = refl
gpu_decode-gpu_code reserved = refl
gpu_decode-gpu_code loading = refl
gpu_decode-gpu_code ready = refl
gpu_decode-gpu_code busy = refl
gpu_decode-gpu_code draining = refl
gpu_decode-gpu_code unloading = refl
gpu_decode-gpu_code error = refl
gpu_decode-gpu_code foreign_busy = refl

instance abbrev pub gpu_state_eq : Eq GpuState
gpu_state_eq = enum_eq gpu_code gpu_decode gpu_decode-gpu_code

abbrev pub session_code : ComputeSessionState → ℕ
session_code requested = 0
session_code allocating = 1
session_code loading = 2
session_code ready = 3
session_code degraded = 4
session_code failed = 5
session_code draining = 6
session_code releasing = 7
session_code released = 8

abbrev pub session_decode : ℕ → ComputeSessionState
session_decode = nth requested (
    requested ∷ allocating ∷ loading ∷ ready ∷ degraded ∷ failed ∷ draining ∷ releasing ∷ released
    ∷ [])

pub session_decode-session_code : (s : ComputeSessionState) → session_decode (session_code s) ≡ s
session_decode-session_code requested = refl
session_decode-session_code allocating = refl
session_decode-session_code loading = refl
session_decode-session_code ready = refl
session_decode-session_code degraded = refl
session_decode-session_code failed = refl
session_decode-session_code draining = refl
session_decode-session_code releasing = refl
session_decode-session_code released = refl

instance abbrev pub session_state_eq : Eq ComputeSessionState
session_state_eq = enum_eq session_code session_decode session_decode-session_code

abbrev pub tier_code : ProfileTier → ℕ
tier_code fast = 0
tier_code hq = 1

abbrev pub tier_decode : ℕ → ProfileTier
tier_decode = nth fast (fast ∷ hq ∷ [])

pub tier_decode-tier_code : (t : ProfileTier) → tier_decode (tier_code t) ≡ t
tier_decode-tier_code fast = refl
tier_decode-tier_code hq = refl

instance abbrev pub tier_eq : Eq ProfileTier
tier_eq = enum_eq tier_code tier_decode tier_decode-tier_code
