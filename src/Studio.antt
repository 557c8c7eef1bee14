-- ===== src/Studio.antt =====
-- packages/python/common/src/oneiroi_common/jobs.py and studio.py, and the stored records of
-- services/gateway/src/oneiroi_gateway/repositories/studio.py: conversations, assets and jobs.
-- Times are ℕ; a `dict[str, object]`, a path and a `float` that the code only passes on are texts.
pub mod Repository
pub mod Calls
pub mod Listing
pub mod Tenancy
use oneiroi.Prelude.{
  ℕ, String, Bool, true, false, Option, List, [], ◌∷◌, ◌≡◌, refl, Eq, enum_eq, nth,
}
use oneiroi.Compute.{ProfileTier}

pub data QueueTier : Type 0 where
  fast hq : QueueTier

pub data JobStatus : Type 0 where
  draft uploaded queued assigned loading_model preparing generating encoding : JobStatus
  cancel_requested succeeded cancelled failed : JobStatus

abbrev pub is_terminal : JobStatus → Bool
is_terminal succeeded = true
is_terminal cancelled = true
is_terminal failed = true
is_terminal _ = false

pub data AssetKind : Type 0 where
  image video template : AssetKind

pub record ConversationResponse : Type 0 where
  pub id : String
  pub title : String
  pub created_at : ℕ
  pub updated_at : ℕ

pub record AssetResponse : Type 0 where
  pub id : String
  pub kind : AssetKind
  pub title : String
  pub created_at : ℕ
  pub media_type : String
  pub size_bytes : ℕ
  pub width : Option ℕ
  pub height : Option ℕ
  pub source_job_id : Option String
  pub preview_url : Option String
  pub provenance : Option String

pub record GenerationDraft : Type 0 where
  pub prompt : String
  pub negative_prompt : String
  pub queue : QueueTier
  pub profile : ProfileTier
  pub ratio : String
  pub resolution : String
  pub duration : ℕ
  pub seed : String
  pub first_strength : String
  pub last_strength : String
  pub enhance_prompt : Bool
  pub quantization : String
  pub offload : String
  pub first_frame_asset_id : Option String
  pub last_frame_asset_id : Option String

pub record GpuAssignment : Type 0 where
  pub id : String
  pub physical_index : ℕ

pub record JobOutput : Type 0 where
  pub asset_id : String
  pub file_url : String
  pub manifest_url : String
  pub media_type : String
  pub size_bytes : ℕ

pub record JobError : Type 0 where
  pub code : String
  pub message : String
  pub retryable : Bool

pub record JobResponse : Type 0 where
  pub id : String
  pub conversation_id : String
  pub compute_session_id : String
  pub created_at : ℕ
  pub updated_at : ℕ
  pub stage : JobStatus
  pub progress : ℕ
  pub draft : GenerationDraft
  pub queue_position : Option ℕ
  pub profile_id : Option String
  pub gpu : Option GpuAssignment
  pub attempt : ℕ
  pub warm_start : Option Bool
  pub phase : Option String
  pub current_step : Option ℕ
  pub total_steps : Option ℕ
  pub output : Option JobOutput
  pub failure : Option JobError

pub record JobEventResponse : Type 0 where
  pub id : ℕ
  pub job_id : String
  pub event_type : String
  pub payload : String
  pub created_at : ℕ

pub record StoredAsset : Type 0 where
  pub owner_id : String
  pub response : AssetResponse
  pub storage_path : String
  pub sha256 : String

pub record StoredJob : Type 0 where
  pub owner_id : String
  pub response : JobResponse
  pub manifest_path : Option String
  pub output_path : Option String

pub record JobAttemptRecord : Type 0 where
  pub id : String
  pub job_id : String
  pub attempt : ℕ
  pub slot_id : String
  pub gpu_id : String
  pub runner_id : Option String
  pub worker_pid : Option ℕ
  pub warm_start : Option Bool
  pub status : String
  pub error_code : Option String
  pub created_at : ℕ
  pub finished_at : Option ℕ
  pub peak_vram_mib : Option ℕ
  pub load_seconds : Option String
  pub generation_seconds : Option String
  pub encoding_seconds : Option String
