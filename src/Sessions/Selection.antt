-- ===== src/Sessions/Selection.antt =====
-- `ComputeSessionService.create`, first half: which GPUs a new session may use.
use oneiroi.Prelude.{
  String, Bool, not, ◌&&◌, ◌||◌, none, some, List, [], ◌∷◌, ◌==◌, string_eq, nat_eq, ltb, str_ltb,
  any, filter, sort_by, map, length, is_none, nat_beq, if◌then◌else◌,
}
use oneiroi.Prelude.Dict.{Dict, get, put_all}
use oneiroi.Prelude.Effects.{Result, ok, err}
use oneiroi.Failure.{Failure, value_error}
use oneiroi.Compute.{GpuInfo, ComputeSessionCreate, SelectionMode, auto, manual}

-- `list(dict.fromkeys(ids))`
abbrev pub from_keys : List String → List String
from_keys [] = []
from_keys (id ∷ ids) = id ∷ filter (λ other. not (other == id)) (from_keys ids)

-- the key `(vram_used_mib, utilization_percent, temperature_celsius, id)`, compared in that order
abbrev pub gpu_before : GpuInfo → GpuInfo → Bool
gpu_before a b =
    ltb a.vram_used_mib b.vram_used_mib
    || (a.vram_used_mib == b.vram_used_mib
        && (ltb a.utilization_percent b.utilization_percent
            || (a.utilization_percent == b.utilization_percent
                && (ltb a.temperature_celsius b.temperature_celsius
                    || (a.temperature_celsius == b.temperature_celsius && str_ltb a.id b.id)))))

-- `{gpu.id: gpu for gpu in gpus}`
abbrev pub by_id : List GpuInfo → Dict String GpuInfo
by_id gpus = put_all (map (λ gpu. (gpu.id, gpu)) gpus) []

-- `[available_by_id[gpu_id] for gpu_id in ids]`; an absent id is refused before this is read
abbrev pub picked : List String → Dict String GpuInfo → List GpuInfo
picked [] available = []
picked (id ∷ ids) available = elim (get id available) [
  | none ↦ picked ids available
  | some gpu ↦ gpu ∷ picked ids available
]

abbrev pub is_absent : Dict String GpuInfo → String → Bool
is_absent available id = is_none (get id available)

unfoldable pub pick_manual : List String → List GpuInfo → Result Failure (List GpuInfo)
pick_manual requested_ids eligible =
    let available = by_id eligible in
    if nat_beq (length requested_ids) 0
    then err (value_error "MANUAL_GPU_IDS_REQUIRED")
    else if any (is_absent available) requested_ids
    then err (value_error "GPU_NOT_ELIGIBLE")
    else ok (picked requested_ids available)

unfoldable pub select_for :
    SelectionMode → List String → List GpuInfo → Result Failure (List GpuInfo)
unfolding pick_manual
select_for manual gpu_ids eligible = pick_manual (from_keys gpu_ids) eligible
select_for auto gpu_ids eligible = ok (sort_by gpu_before eligible)

-- the eligible GPUs of the inventory, in the order in which they are tried
unfoldable pub select_gpus : ComputeSessionCreate → List GpuInfo → Result Failure (List GpuInfo)
unfolding select_for
select_gpus payload inventory =
    select_for payload.selection_mode payload.gpu_ids (filter (λ gpu. gpu.eligible) inventory)
