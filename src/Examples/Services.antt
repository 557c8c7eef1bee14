-- ===== src/Examples/Services.antt =====
-- A session of two slots, its release, a reservation on it, and a repository with two owners, at
-- concrete values.
use oneiroi.Prelude.{
  ◌+◌, ◌≡◌, ◌≢◌, refl, String, true, false, none, some, [], ◌∷◌, ◌++◌, string_eq, strings_differ,
  arith, ltb, leb, if◌then◌else◌, map, All,
}
use oneiroi.Prelude.Dict.{Dict, get, put, IsDistinct}
use oneiroi.Prelude.Effects.{Result, ok, err, ◌>>=◌}
use oneiroi.Prelude.Returns.{Returns}
use oneiroi.Failure.{Failure}
use oneiroi.Compute.{
  GpuState, ComputeSlot, ComputeSessionSnapshot, ComputeSessionState, ProfileTier, SelectionMode,
  ProfilePolicy, ComputeSessionRelease, ReleasePolicy,
}
use oneiroi.Leases.{Lease, granted_lease}
use oneiroi.Events.{SessionEventService, emit, since}
use oneiroi.Events.Stream.{IsNumbered, since-emit}
use oneiroi.Sessions.{get_session, touch, fencing_token, persist, ComputeSessionService, Clock}
use oneiroi.Sessions.Create.{loaded, failed}
use oneiroi.Sessions.Loading.{Backend, load_session}
use oneiroi.Sessions.Loaded.{IsReported, load_session_lem}
use oneiroi.Sessions.Release.{release, Unloading}
use oneiroi.Prelude.Runs.{Ended}
use oneiroi.Sessions.Unloaded.{IsInterrupted}
use oneiroi.Sessions.Released.{IsReleased, release_lem}
use oneiroi.Sessions.Upkeep.{restore, load_active}
use oneiroi.Leases.{active}
use oneiroi.Sessions.Restored.{IsRestored, restore-IsRestored}
use oneiroi.Scheduler.{within, JobScheduler, SlotReservation, reserve, release as release_slot}
use oneiroi.Scheduler.Slots.{IsKeyed}
use oneiroi.Scheduler.RoundTrip.{IsRestoredTo, release-reserve}
use oneiroi.Scheduler.Reservation.{IsReserved, reserve_lem}
use oneiroi.Studio.{StoredAsset, AssetKind}
use oneiroi.Studio.Repository.{StudioRepository}
use oneiroi.Studio.Calls.{step, call_delete_asset}
use oneiroi.Studio.Tenancy.{SameFor}
use oneiroi.Studio.Listing.{HasEntries, SameLists, reads_kept}

abbrev pub slot : String → String → GpuState → ComputeSlot
slot id gpu_id state = record {
  id = id;
  gpu_id = gpu_id;
  physical_index = 0;
  state = state;
  profile = some ProfileTier.fast;
  load_stage = none;
  load_progress = 0;
  pipeline_spec_hash = none;
  last_error = none;
}

abbrev session : ComputeSessionState → GpuState → ComputeSessionSnapshot
session state slot_state = record {
  id = "session";
  owner_id = "owner";
  state = state;
  requested_gpu_count = 2;
  allocated_gpu_count = 2;
  selection_mode = SelectionMode.auto;
  profile_policy = ProfilePolicy.balanced;
  allow_partial = true;
  profile_plan = record { fast = 1; hq = 1 };
  slots = slot "s1" "a" slot_state ∷ slot "s2" "b" slot_state ∷ [];
  error_code = none;
  error_message = none;
  created_at = "now";
  ready_at = none;
  released_at = none;
}

abbrev pub clock : Clock
clock = record { monotonic = 5; utc = "now" }

-- the backend loads slot s1 alone, and unloads every slot
abbrev backend : Backend
backend s token = if string_eq.beq s.id "s1" then loaded (some "hash") else failed "no memory"

abbrev unload : Unloading
unload s token = ok true

abbrev fresh_session : ComputeSessionSnapshot
fresh_session = session ComputeSessionState.allocating GpuState.reserved

load_session_lem_example : Returns (IsReported 2 2) (load_session backend clock fresh_session)
load_session_lem_example = load_session_lem backend clock fresh_session (omega arith)

abbrev pub ready_session : ComputeSessionSnapshot
ready_session = session ComputeSessionState.ready GpuState.ready

abbrev leases : Dict String Lease
leases =
    ("a", granted_lease "a" "session" "t1" 100) ∷ ("b", granted_lease "b" "session" "t2" 100) ∷ []

abbrev service : ComputeSessionService
service = record {
  leases = leases;
  events = record { events = []; next_id = 1 };
  state_repository = none;
  lease_ttl_seconds = 60;
  idle_ttl_seconds = 1000;
  sessions = ("session", ready_session) ∷ [];
  idempotency = [];
  lease_tasks = ("session", tt) ∷ [];
  fencing_tokens = ("s1", "t1") ∷ ("s2", "t2") ∷ [];
  last_activity = ("session", 5) ∷ [];
}

leases-IsDistinct : IsDistinct leases
unfolding get
leases-IsDistinct = (refl, (refl, tt))

session-found : get "session" service.sessions ≡ some ready_session
unfolding get
session-found = refl

ready-not_released : ready_session.state ≢ ComputeSessionState.released
ready-not_released = λ q. ground (arith, q)

abbrev when_idle : ComputeSessionRelease
when_idle = record { policy = ReleasePolicy.when_idle; confirmed = false }

release_lem_example :
    Ended
      (IsReleased "session" 2)
      (IsInterrupted unload "session" service)
      (release unload clock "owner" "session" when_idle service)
release_lem_example =
    release_lem unload clock "owner" "session" when_idle service ready_session leases-IsDistinct
      session-found refl refl ready-not_released

-- the service with a repository, which has the session; its leases have one GPU of the two
abbrev saved_sessions : Dict String ComputeSessionSnapshot
saved_sessions = ("session", ready_session) ∷ []

abbrev saving_service : ComputeSessionService
saving_service = record service { state_repository = some saved_sessions }

restore-IsRestored_example :
    let r = restore clock saving_service in
    (r.0 ≡ ok (map (λ x. x.id) (load_active saved_sessions)))
    × All
        (λ x. IsRestored (active 5 leases).0 x (get x.id r.1.sessions))
        (load_active saved_sessions)
restore-IsRestored_example = restore-IsRestored clock saving_service saved_sessions refl (refl, tt)

abbrev pub scheduler : JobScheduler
scheduler = record { sessions = service; busy_slots = "s2" ∷ [] }

abbrev none_reserved : SlotReservation
none_reserved = record {
  session_id = "";
  slot_id = "";
  gpu_id = "";
  physical_index = 0;
  profile = ProfileTier.hq;
  fencing_token = "";
}

abbrev reservation_of : Result Failure SlotReservation → SlotReservation
reservation_of (ok r) = r
reservation_of (err e) = none_reserved

abbrev pub reserved : JobScheduler
reserved = (reserve clock "owner" "session" ProfileTier.fast scheduler).1

abbrev pub reservation : SlotReservation
reservation = reservation_of (reserve clock "owner" "session" ProfileTier.fast scheduler).0

pub reserve-reservation :
    reserve clock "owner" "session" ProfileTier.fast scheduler ≡ (ok reservation, reserved)
unfolding reserve get put ◌>>=◌ within get_session touch fencing_token persist
reserve-reservation = refl

pub reserved-IsKeyed : IsKeyed reservation.session_id scheduler
unfolding reserve get put ◌>>=◌ within get_session touch fencing_token persist
reserved-IsKeyed = refl

release-reserve_example :
    IsRestoredTo ready_session scheduler reservation (release_slot clock reservation reserved).1
release-reserve_example =
    release-reserve clock clock "owner" "session" ProfileTier.fast scheduler reserved reservation
      ready_session session-found reserve-reservation

reserve_lem_example : IsReserved "owner" "session" ProfileTier.fast scheduler reservation reserved
reserve_lem_example =
    reserve_lem clock "owner" "session" ProfileTier.fast scheduler reserved reservation
      reserve-reservation

abbrev log : SessionEventService String
log = record {
  next_id = 2;
  events =
      (
        "session",
        record {
          id = 1;
          session_id = "session";
          event_type = "e";
          payload = "p";
          created_at = "now";
        }
            ∷ [],
      )
      ∷ [];
}

log-IsNumbered : IsNumbered "session" log
unfolding get
log-IsNumbered = refl

since-emit_example :
    let r = emit "session" "e" "q" "later" log in
    (since "session" 1 r.1
      ≡ since "session" 1 log
        ++ (if string_eq.beq "session" "session" then (if ltb 1 2 then r.0 ∷ [] else []) else []))
    × IsNumbered "session" r.1
    × (since "session" 1 log ≡ (if leb 2 (1 + 1) then [] else since "session" 1 log))
since-emit_example = since-emit "session" "e" "q" "later" "session" 1 log log-IsNumbered

abbrev asset : StoredAsset
asset = record {
  owner_id = "owner";
  response = record {
    id = "asset";
    kind = AssetKind.image;
    title = "t";
    created_at = 0;
    media_type = "image/png";
    size_bytes = 1;
    width = none;
    height = none;
    source_job_id = none;
    preview_url = none;
    provenance = none;
  };
  storage_path = "/a";
  sha256 = "";
}

abbrev studio : StudioRepository
studio = record {
  conversations = [];
  assets = ("asset", asset) ∷ [];
  jobs = [];
  attempts = [];
  events = [];
  event_id = 1;
}

studio-HasEntries : HasEntries studio
unfolding get
studio-HasEntries = (tt, (refl, tt), tt)

reads_kept_example :
    SameFor "owner" "asset" 0 (step (call_delete_asset "guest" "asset") studio) studio
    × SameLists "owner" (step (call_delete_asset "guest" "asset") studio) studio
reads_kept_example =
    reads_kept (call_delete_asset "guest" "asset") studio "owner" "asset" 0
      (strings_differ "guest" "owner" refl) tt studio-HasEntries
