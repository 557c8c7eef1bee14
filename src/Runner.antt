-- ===== src/Runner.antt =====
-- workers/runner/src/oneiroi_runner: the process on a GPU machine that owns one model worker, and
-- what its parts share.
pub mod Frames
pub mod Supervisor
pub mod Finality
pub mod Slot
pub mod Commands
pub mod Runtime
pub mod Handlers
pub mod Work
pub mod Release
use oneiroi.Prelude.{
  ℕ, String, Bool, true, false, ◌&&◌, Option, none, some, List, [], ◌∷◌, ◌==◌, string_eq, pair_eq,
  Eq,
}
use oneiroi.Compute.{ProfileTier, tier_eq}

-- An exception: its type's name and its message, or a cancellation.
pub data Raised : Type 0 where
  exception : String → String → Raised
  cancelled_error : Raised

-- `PipelineSpec`; the number of a scale is its text
pub record PipelineSpec : Type 0 where
  pub profile_id : String
  pub tier : ProfileTier
  pub ltx_git_commit : String
  pub checkpoint_path : String
  pub checkpoint_sha256 : String
  pub upsampler_path : String
  pub upsampler_sha256 : String
  pub gemma_root : String
  pub gemma_revision : String
  pub lora_paths_and_scales : List (String × String)
  pub lora_sha256s : List String
  pub quantization : String
  pub offload : String
  pub dtype : String
  pub attention_backend : String
  pub compile_mode : String
  pub runtime_policy_version : String

abbrev pub list_beq : {A : Type 0} ⦃e : Eq A⦄ → List A → List A → Bool
list_beq [] [] = true
list_beq ⦃e⦄ (x ∷ xs) (y ∷ ys) = e.beq x y && list_beq xs ys
list_beq _ _ = false

-- `==` on specs: field by field
abbrev pub same_spec : PipelineSpec → PipelineSpec → Bool
same_spec a b =
    a.profile_id == b.profile_id
    && a.tier == b.tier
    && a.ltx_git_commit == b.ltx_git_commit
    && a.checkpoint_path == b.checkpoint_path
    && a.checkpoint_sha256 == b.checkpoint_sha256
    && a.upsampler_path == b.upsampler_path
    && a.upsampler_sha256 == b.upsampler_sha256
    && a.gemma_root == b.gemma_root
    && a.gemma_revision == b.gemma_revision
    && list_beq a.lora_paths_and_scales b.lora_paths_and_scales
    && list_beq a.lora_sha256s b.lora_sha256s
    && a.quantization == b.quantization
    && a.offload == b.offload
    && a.dtype == b.dtype
    && a.attention_backend == b.attention_backend
    && a.compile_mode == b.compile_mode
    && a.runtime_policy_version == b.runtime_policy_version
