-- ===== src/Scheduler/RoundTrip.antt =====
-- A reservation that is released, of job_scheduler.py.
use oneiroi.Prelude.{
  ◌≡◌, subst, String, Option, none, some, ◌==◌, string_eq, arith, elem, if◌then◌else◌,
}
use oneiroi.Prelude.Effects.{ok}
use oneiroi.Compute.{GpuState, ProfileTier, ComputeSlot, ComputeSessionSnapshot, gpu_state_eq}
use oneiroi.Sessions.{Clock}
use oneiroi.Prelude.Dict.{get}
use oneiroi.Scheduler.{SlotReservation, JobScheduler, reserve, release, slot_of}
use oneiroi.Scheduler.Slots.{slot_in, put_in_state, made_ready, slot_in-release, elem-release}
use oneiroi.Scheduler.Reservation.{reserve_lem, reserved_lem}

-- The slots of the session and the busy identifiers are those from before; the reserved slot is READY.
abbrev pub IsRestoredTo :
    ComputeSessionSnapshot → JobScheduler → SlotReservation → JobScheduler → Type 0
IsRestoredTo session s r t =
    ((j : String) → elem j t.busy_slots ≡ elem j s.busy_slots)
    × ((j : String)
        → slot_in session.id j t ≡ (
            if r.slot_id == j
            then put_in_state GpuState.ready (slot_of j session)
            else slot_of j session))

ready_again :
    (slot : Option ComputeSlot)
    → made_ready (put_in_state GpuState.busy slot) ≡ put_in_state GpuState.ready slot
ready_again none = ground arith
ready_again (some slot) = ground (arith, gpu_state_eq.beq_iff GpuState.busy GpuState.busy)

-- If a reservation in a session succeeds and is then released, at whatever time, the busy identifiers
-- are those from before, the slot of the reservation is READY, as it was, and every other slot of the
-- session is as it was.
pub release-reserve :
    (clock later : Clock) (owner_id session_id : String) (profile : ProfileTier)
    (s t : JobScheduler) (r : SlotReservation) (session : ComputeSessionSnapshot)
    → get session_id s.sessions.sessions ≡ some session
    → reserve clock owner_id session_id profile s ≡ (ok r, t)
    → IsRestoredTo session s r (release later r t).1
release-reserve clock later owner_id session_id profile s t r session e q =
    let (found, slot, f, owner, h) = reserve_lem clock owner_id session_id profile s t r q in
    let k = (reserved_lem clock owner_id session_id profile s t r q).0 in
    let same : found ≡ session = ground (arith, e, f) in
    subst (λ x. IsRestoredTo x s r (release later r t).1) same
      (
        λ j. ground (arith, h.0, h.1, h.4 j, elem-release later r j t, string_eq.beq_iff slot.id j),
        λ j. ground (
          arith,
          h.0,
          h.7 j,
          slot_in-release later r found.id j t k,
          ready_again (slot_of j found),
          string_eq.beq_iff found.id found.id,
          string_eq.beq_iff slot.id j,
        ),
      )
