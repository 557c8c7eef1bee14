-- ===== src/Scheduler.antt =====
-- services/gateway/src/oneiroi_gateway/services/job_scheduler.py, `JobScheduler`: which slot a job
-- runs on. A slot object is found in its session by its identifier, which `uuid4` draws.
pub mod Candidates
pub mod Reservation
pub mod RoundTrip
pub mod Slots
use oneiroi.Prelude.{
  ℕ, String, Bool, true, false, not, ◌&&◌, ◌||◌, Option, none, some, List, [], ◌∷◌, ◌==◌, string_eq,
  option_eq, nat_eq, elem, filter, find, map, ltb, str_ltb, sort_by, if◌then◌else◌,
}
use oneiroi.Prelude.Dict.{get}
use oneiroi.Prelude.Effects.{Exec, Result, pure, raise, gets, require, modify, ◌>>=◌, ◌>>◌}
use oneiroi.Failure.{Failure, runtime_error}
use oneiroi.Compute.{
  GpuState, ProfileTier, ComputeSlot, ComputeSessionSnapshot, gpu_state_eq, tier_eq, fast, hq,
}
use oneiroi.Sessions.{
  Action, Clock, ComputeSessionService, get_session, touch, persist, fencing_token, put_session,
}
use oneiroi.Sessions.Loading.{with_slots}

pub record SlotReservation : Type 0 where
  pub session_id : String
  pub slot_id : String
  pub gpu_id : String
  pub physical_index : ℕ
  pub profile : ProfileTier
  pub fencing_token : String

pub record JobScheduler : Type 0 where
  pub sessions : ComputeSessionService
  pub busy_slots : List String

-- a method of the session service
unfoldable pub within : {A : Type 0} → Action A → Exec Failure JobScheduler A
within method s = let r = method s.sessions in (r.0, record s { sessions = r.1 })

-- `slot.state = state` on the slot of the session that has this identifier
abbrev pub with_state : String → GpuState → ComputeSessionSnapshot → ComputeSessionSnapshot
with_state slot_id state session = with_slots session (
    map (λ (slot : ComputeSlot). if slot.id == slot_id then record slot { state = state } else slot)
      session.slots)

-- the key `(slot.physical_index, slot.gpu_id)`
abbrev pub slot_before : ComputeSlot → ComputeSlot → Bool
slot_before a b =
    ltb a.physical_index b.physical_index
    || (a.physical_index == b.physical_index && str_ltb a.gpu_id b.gpu_id)

abbrev pub is_candidate : ProfileTier → List String → ComputeSlot → Bool
is_candidate profile busy slot =
    slot.profile == some profile && slot.state == GpuState.ready && not (elem slot.id busy)

abbrev pub candidates : ProfileTier → ComputeSessionSnapshot → JobScheduler → List ComputeSlot
candidates profile session s =
    sort_by slot_before (filter (is_candidate profile s.busy_slots) session.slots)

abbrev pub unready_code : ProfileTier → String
unready_code hq = "HQ_NOT_READY"
unready_code fast = "COMPUTE_NOT_READY"

abbrev pub first : List ComputeSlot → Option ComputeSlot
first [] = none
first (slot ∷ slots) = some slot

abbrev pub new_reservation : String → ComputeSlot → ProfileTier → String → SlotReservation
new_reservation session_id slot profile token = record {
  session_id = session_id;
  slot_id = slot.id;
  gpu_id = slot.gpu_id;
  physical_index = slot.physical_index;
  profile = profile;
  fencing_token = token;
}

-- `self._busy_slots.add(...)` and `discard`, on a set
abbrev pub add_busy : String → Exec Failure JobScheduler Unit
add_busy slot_id = modify λ s. record s {
  busy_slots = if elem slot_id s.busy_slots then s.busy_slots else slot_id ∷ s.busy_slots;
}

abbrev pub discard_busy : String → Exec Failure JobScheduler Unit
discard_busy slot_id =
    modify λ s. record s { busy_slots = filter (λ id. not (id == slot_id)) s.busy_slots }

unfoldable pub reserve :
    Clock → String → String → ProfileTier → Exec Failure JobScheduler SlotReservation
reserve clock owner_id session_id profile = do
  session ← within (get_session owner_id session_id)
  within (touch session_id clock)
  found ← gets (λ s. first (candidates profile session s))
  slot ← require found (runtime_error (unready_code profile))
  add_busy slot.id
  within (put_session (with_state slot.id GpuState.busy session))
  token ← within (fencing_token slot.id)
  within (persist session.id)
  pure (new_reservation session.id slot profile token)

-- `next((item for item in session.slots if item.id == slot_id), None)`
abbrev pub slot_of : String → ComputeSessionSnapshot → Option ComputeSlot
slot_of slot_id session = find (λ slot. slot.id == slot_id) session.slots

unfoldable pub restore : SlotReservation → Exec Failure JobScheduler Unit
restore reservation = do
  add_busy reservation.slot_id
  found ← gets (λ s. get reservation.session_id s.sessions.sessions)
  session ← require found (runtime_error "COMPUTE_SESSION_NOT_RESTORED")
  slot ← require (slot_of reservation.slot_id session) (runtime_error "COMPUTE_SLOT_NOT_RESTORED")
  within (put_session (with_state slot.id GpuState.busy session))
  within (persist reservation.session_id)

abbrev pub is_busy : Option ComputeSlot → Bool
is_busy none = false
is_busy (some slot) = slot.state == GpuState.busy

-- the slot becomes ready if it is still busy
abbrev pub freed : String → ComputeSessionSnapshot → ComputeSessionSnapshot
freed slot_id session =
    if is_busy (slot_of slot_id session) then with_state slot_id GpuState.ready session else session

unfoldable pub release_in :
    SlotReservation → Option ComputeSessionSnapshot → Exec Failure JobScheduler Unit
release_in reservation none = pure tt
release_in reservation (some session) = do
  within (put_session (freed reservation.slot_id session))
  within (persist reservation.session_id)

unfoldable pub release : Clock → SlotReservation → Exec Failure JobScheduler Unit
unfolding release_in
release clock reservation = do
  within (touch reservation.session_id clock)
  discard_busy reservation.slot_id
  found ← gets (λ s. get reservation.session_id s.sessions.sessions)
  release_in reservation found
