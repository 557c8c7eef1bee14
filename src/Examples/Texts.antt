-- ===== src/Examples/Texts.antt =====
-- Texts that the services build and take apart, at concrete values.
use oneiroi.Prelude.{◌≡◌, refl, decimal, decimal_upto}
use oneiroi.Prelude.Dict.{get}
use oneiroi.Studio.{JobStatus}
use oneiroi.Jobs.Tasks.{stage_of, error_code_of, before_colon}
use oneiroi.Runner.Slot.{code_of}
use oneiroi.Leases.Redis.{lease_key, remove_prefix}

decimal_of_12 : decimal 12 ≡ "12"
unfolding decimal decimal_upto
decimal_of_12 = refl

decimal_of_0 : decimal 0 ≡ "0"
unfolding decimal decimal_upto
decimal_of_0 = refl

code_before_colon : error_code_of "CUDA_OOM: out of memory" ≡ "CUDA_OOM"
unfolding error_code_of before_colon
code_before_colon = refl

code_without_text : error_code_of "" ≡ "INFERENCE_FAILED"
unfolding error_code_of before_colon
code_without_text = refl

code_of_type : code_of "TimeoutError" ": late" ≡ "TimeoutError"
unfolding code_of before_colon
code_of_type = refl

stage_of_decoding : stage_of "decoding" ≡ JobStatus.encoding
unfolding stage_of get
stage_of_decoding = refl

stage_of_unknown : stage_of "warming" ≡ JobStatus.generating
unfolding stage_of get
stage_of_unknown = refl

key_read_back : remove_prefix (lease_key "gpu-0") ≡ "gpu-0"
unfolding remove_prefix lease_key
key_read_back = refl
