-- ===== src/Failure.antt =====
-- packages/python/common/src/oneiroi_common/errors.py, and the built-in exceptions that the
-- services raise. An exception carries its message.
use oneiroi.Prelude.{String}

pub data ErrorCode : Type 0 where
  no_compute_session compute_not_ready hq_requires_at_least_2_gpus hq_not_ready : ErrorCode
  gpu_became_busy model_load_failed model_profile_mismatch cuda_oom inference_failed : ErrorCode
  encoding_failed cancelled_by_user runner_heartbeat_lost artifact_write_failed : ErrorCode
  idempotency_key_reused invalid_asset conversation_busy concurrency_limit : ErrorCode

pub data Failure : Type 0 where
  value_error runtime_error key_error : String → Failure
  oneiroi_error : ErrorCode → String → Failure
