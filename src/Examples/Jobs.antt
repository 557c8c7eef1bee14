-- ===== src/Examples/Jobs.antt =====
-- The job service at concrete values: jobs in every stage of their lives, and a dispatcher that raises.
use oneiroi.Prelude.{
  ◌≡◌, ◌≤◌, refl, String, Bool, true, false, none, some, [], ◌∷◌, string_eq, elem, arith,
  if◌then◌else◌,
}
use oneiroi.Prelude.Dict.{get, IsDistinct}
use oneiroi.Prelude.Effects.{err}
use oneiroi.Failure.{runtime_error, key_error}
use oneiroi.Compute.{ComputeSlot, GpuState, ProfileTier}
use oneiroi.Studio.{
  GpuAssignment, StoredJob, JobStatus, GenerationDraft, QueueTier, ConversationResponse,
}
use oneiroi.Studio.Repository.{StudioRepository, count_active_jobs}
use oneiroi.Jobs.{JobService, World, Execution}
use oneiroi.Jobs.Requests.{JobCreate, create, cancel, busy_failure, limit_failure, retry}
use oneiroi.Jobs.Dispatch.{dispatch_or_fail, dispatch_failed, assigned}
use oneiroi.Jobs.Tasks.{Registration, Outcome, Details, execution_event, end_execution, reported}
use oneiroi.Jobs.Restart.{restore_or_fail}
use oneiroi.Jobs.Restarted.{IsHeld, IsFound, restored_reservation, restore_or_fail-IsHeld}
use oneiroi.Jobs.Limits.{create_refused, has_active_job}
use oneiroi.Jobs.Bounds.{create_bounded, active_jobs}
use oneiroi.Jobs.Endings.{IsGivenBack, end_execution-IsGivenBack}
use oneiroi.Jobs.Cancelling.{IsStored, asked, cancel-reported}
use oneiroi.Jobs.Retrying.{LacksFrame, again, retry_stranded}
use oneiroi.Jobs.Failing.{dispatch_undelivered}
use oneiroi.Jobs.Undoing.{IsUndone}
use oneiroi.Examples.Services.{
  slot, clock, scheduler, reservation, reserved, reserve-reservation, reserved-IsKeyed,
  ready_session,
}

abbrev draft : GenerationDraft
draft = record {
  prompt = "p";
  negative_prompt = "";
  queue = QueueTier.fast;
  profile = ProfileTier.fast;
  ratio = "1:1";
  resolution = "720p";
  duration = 5;
  seed = "42";
  first_strength = "1";
  last_strength = "1";
  enhance_prompt = false;
  quantization = "none";
  offload = "none";
  first_frame_asset_id = some "gone";
  last_frame_asset_id = none;
}

abbrev job : String → JobStatus → StoredJob
job id stage = record {
  owner_id = "owner";
  response = record {
    id = id;
    conversation_id = "c";
    compute_session_id = "session";
    created_at = 0;
    updated_at = 0;
    stage = stage;
    progress = 10;
    draft = draft;
    queue_position = none;
    profile_id = none;
    gpu = none;
    attempt = 1;
    warm_start = none;
    phase = none;
    current_step = none;
    total_steps = none;
    output = none;
    failure = none;
  };
  manifest_path = none;
  output_path = none;
}

abbrev conversation : ConversationResponse
conversation = record { id = "c"; title = "t"; created_at = 0; updated_at = 0 }

abbrev studio : StudioRepository
studio = record {
  conversations = ("c", ("owner", conversation)) ∷ [];
  assets = [];
  jobs =
      ("running", job "running" JobStatus.generating)
      ∷ ("failed", job "failed" JobStatus.failed)
      ∷ [];
  attempts = [];
  events = [];
  event_id = 1;
}

abbrev execution : Execution
execution = record { job_id = "running"; reservation = reservation; input_paths = (none, none) }

abbrev pub jobs : Bool → JobService
jobs closing = record {
  repository = studio;
  capabilities = record { fast_installed = true; hq_installed = false };
  scheduler = scheduler;
  has_executor = true;
  max_active_per_owner = 4;
  cancel_requested = [];
  reservations = ("running", reservation) ∷ [];
  tasks = execution ∷ [];
  shutting_down = closing;
}

-- a dispatcher that delivers nothing
abbrev pub world : World
world = record {
  now = 7;
  clock = clock;
  job_id = "new";
  attempt_id = "attempt";
  dump = λ response. response.id;
  undelivered = λ r response paths. some (runtime_error "no runner");
}

abbrev payload : JobCreate
payload = record { conversation_id = "c"; compute_session_id = "session"; draft = draft }

conversation-found : get "c" studio.conversations ≡ some ("owner", conversation)
unfolding get
conversation-found = refl

busy-conversation : has_active_job "owner" "c" (jobs false) ≡ true
unfolding count_active_jobs
busy-conversation = refl

create_refused_example : create world "owner" payload (jobs false) ≡ (
  err (if has_active_job "owner" "c" (jobs false) then busy_failure else limit_failure 4),
  jobs false,
)
create_refused_example =
    create_refused world "owner" payload (jobs false) conversation conversation-found
      (ground (arith, busy-conversation))

studio-IsDistinct : IsDistinct studio.jobs
unfolding get
studio-IsDistinct = (refl, (refl, tt))

new-absent : get "new" studio.jobs ≡ none
unfolding get
new-absent = refl

one-active : active_jobs "owner" (jobs false) ≡ 1
unfolding count_active_jobs
one-active = refl

create_bounded_example : active_jobs "owner" (create world "owner" payload (jobs false)).1 ≤ 4
create_bounded_example =
    create_bounded world "owner" payload (jobs false) studio-IsDistinct new-absent
      (omega (arith, one-active))

abbrev pub running : StoredJob
running = job "running" JobStatus.generating

-- the artifact store refuses the video
abbrev register : Registration
register owner_id job_id path r = (err (runtime_error "ARTIFACT_MISSING"), r)

end_execution-IsGivenBack_example :
    IsGivenBack execution
      (jobs false)
      (end_execution world register running execution Outcome.cancelled (jobs false)).1
end_execution-IsGivenBack_example =
    end_execution-IsGivenBack world register running execution Outcome.cancelled (jobs false) refl
      reserved-IsKeyed

running-IsStored : IsStored running (jobs false)
unfolding get
running-IsStored = refl

abbrev details : Details
details = record { current_step = some 3; total_steps = some 15 }

cancel-reported_example :
    let t =
      (execution_event world running "stage-1" 40 details
        (cancel world "owner" "running" (jobs false)).1).1 in
    IsStored (reported (asked world running) "stage-1" 40 details 7) t
    × (elem "running" t.cancel_requested ≡ true)
cancel-reported_example =
    cancel-reported world world running (jobs false) "stage-1" 40 details running-IsStored refl refl

abbrev failed : StoredJob
failed = job "failed" JobStatus.failed

failed-IsStored : IsStored failed (jobs false)
unfolding get
failed-IsStored = refl

failed-LacksFrame : LacksFrame failed "gone" (jobs false)
unfolding get
failed-LacksFrame = (refl, refl)

retry_stranded_example :
    let r = retry world "owner" "failed" (jobs false) in
    (r.0 ≡ err (key_error "gone"))
    × IsStored (again world failed (jobs false)) r.1
    × (r.1.tasks ≡ execution ∷ [])
    × (r.1.reservations ≡ ("running", reservation) ∷ [])
    × (r.1.scheduler ≡ scheduler)
retry_stranded_example =
    retry_stranded world failed "gone" (jobs false) failed-IsStored refl failed-LacksFrame

abbrev queued : StoredJob
queued = job "new" JobStatus.queued

dispatch_undelivered_example :
    let r = dispatch_or_fail world queued (none, none) (jobs false) in
    IsUndone "new" reservation (jobs false) r.1
    × (get "new" r.1.repository.jobs
        ≡ some (dispatch_failed (assigned queued reservation 7) "no runner" 7))
dispatch_undelivered_example =
    dispatch_undelivered world queued (none, none) (jobs false) reservation reserved
      (runtime_error "no runner") reserve-reservation refl

-- the job ran on GPU a, and its first frame is gone
abbrev gpu : GpuAssignment
gpu = record { id = "a"; physical_index = 0 }

abbrev interrupted : StoredJob
interrupted = record running { response = record running.response { gpu = some gpu } }

abbrev slot_a : ComputeSlot
slot_a = slot "s1" "a" GpuState.ready

interrupted-IsFound : IsFound interrupted ready_session gpu slot_a "t1" (jobs false)
unfolding get
interrupted-IsFound = (refl, refl, refl, refl, refl, refl, refl)

restore_or_fail-IsHeld_example :
    IsHeld "running"
      (restored_reservation interrupted ready_session slot_a "t1")
      (restore_or_fail world interrupted (jobs false)).1
restore_or_fail-IsHeld_example =
    restore_or_fail-IsHeld world interrupted ready_session gpu slot_a "t1" (jobs false)
      interrupted-IsFound
