-- ===== src/Scheduler/Slots.antt =====
-- The slots of the stored sessions, as `reserve` and `release` of job_scheduler.py change them.
use oneiroi.Prelude.{
  ◌≡◌, refl, String, false, not, ◌&&◌, Option, none, some, List, [], ◌∷◌, ◌==◌, string_eq,
  option_eq, nat_eq, arith, elem, filter, map, find, if◌then◌else◌, Option-cases, inl, inr,
}
use oneiroi.Prelude.Dict.{get, get-put, holds}
use oneiroi.Prelude.Effects.{◌>>=◌}
use oneiroi.Compute.{GpuState, ComputeSlot, ComputeSessionSnapshot, gpu_state_eq, tier_eq}
use oneiroi.Sessions.{Clock, touch, persist}
use oneiroi.Scheduler.{
  SlotReservation, JobScheduler, within, with_state, slot_of, is_busy, freed, release, release_in,
}

-- the slot of a session that the service stores
abbrev pub slot_in_session : String → Option ComputeSessionSnapshot → Option ComputeSlot
slot_in_session slot_id none = none
slot_in_session slot_id (some session) = slot_of slot_id session

abbrev pub slot_in : String → String → JobScheduler → Option ComputeSlot
slot_in session_id slot_id s = slot_in_session slot_id (get session_id s.sessions.sessions)

abbrev pub state_of : Option ComputeSlot → Option GpuState
state_of none = none
state_of (some slot) = some slot.state

-- the slot, in this state
abbrev pub put_in_state : GpuState → Option ComputeSlot → Option ComputeSlot
put_in_state state none = none
put_in_state state (some slot) = some (record slot { state = state })

-- the slot, READY if it was BUSY
abbrev pub made_ready : Option ComputeSlot → Option ComputeSlot
made_ready slot = if is_busy slot then put_in_state GpuState.ready slot else slot

-- The session that is stored under the identifier, if there is one, has this identifier.
abbrev pub IsKeyed : String → JobScheduler → Type 0
IsKeyed session_id s =
    holds (λ session. not (session.id == session_id)) (get session_id s.sessions.sessions) ≡ false

find-with_state :
    (j slot_id : String) (state : GpuState) (slots : List ComputeSlot)
    → find
        (λ slot. slot.id == j)
        (map
          (λ (slot : ComputeSlot).
            if slot.id == slot_id then record slot { state = state } else slot)
          slots)
      ≡ (if slot_id == j
          then put_in_state state (find (λ slot. slot.id == j) slots)
          else find (λ slot. slot.id == j) slots)
find-with_state j slot_id state [] = ground arith
find-with_state j slot_id state (slot ∷ slots) = ground (
  arith,
  find-with_state j slot_id state slots,
  string_eq.beq_iff slot.id slot_id,
  string_eq.beq_iff slot.id j,
  string_eq.beq_iff slot_id j,
)

pub slot_of-with_state :
    (j slot_id : String) (state : GpuState) (session : ComputeSessionSnapshot)
    → slot_of j (with_state slot_id state session)
      ≡ (if slot_id == j then put_in_state state (slot_of j session) else slot_of j session)
slot_of-with_state j slot_id state session = find-with_state j slot_id state session.slots

slot_of-freed :
    (j slot_id : String) (session : ComputeSessionSnapshot)
    → slot_of j (freed slot_id session)
      ≡ (if slot_id == j then made_ready (slot_of j session) else slot_of j session)
slot_of-freed j slot_id session =
    ground (arith, slot_of-with_state j slot_id GpuState.ready session, string_eq.beq_iff slot_id j)

-- A release makes the slot of the reservation READY if it was BUSY, and leaves every other slot as
-- it was.
pub slot_in-release :
    (clock : Clock) (r : SlotReservation) (session_id j : String) (s : JobScheduler)
    → IsKeyed r.session_id s
    → slot_in session_id j (release clock r s).1 ≡ (
        if r.session_id == session_id && r.slot_id == j
        then made_ready (slot_in session_id j s)
        else slot_in session_id j s)
unfolding release release_in within touch persist ◌>>=◌
slot_in-release clock r session_id j s k =
    elim (Option-cases (get r.session_id s.sessions.sessions)) [
      | inl e ↦ ground (arith, e, string_eq.beq_iff r.session_id session_id)
      | inr (session, e) ↦ ground (
        arith,
        e,
        k,
        get-put session.id session_id (freed r.slot_id session) s.sessions.sessions,
        slot_of-freed j r.slot_id session,
        string_eq.beq_iff session.id r.session_id,
        string_eq.beq_iff r.session_id session_id,
        string_eq.beq_iff session.id session_id,
      )
    ]

-- A slot that is BUSY before the release of its reservation is READY after it.
pub state_of-release :
    (clock : Clock) (r : SlotReservation) (s : JobScheduler)
    → IsKeyed r.session_id s
    → state_of (slot_in r.session_id r.slot_id s) ≡ some GpuState.busy
    → state_of (slot_in r.session_id r.slot_id (release clock r s).1) ≡ some GpuState.ready
state_of-release clock r s k b = elim (Option-cases (slot_in r.session_id r.slot_id s)) [
  | inl e ↦ ground (arith, e, b)
  | inr (slot, e) ↦ ground (
    arith,
    e,
    b,
    slot_in-release clock r r.session_id r.slot_id s k,
    string_eq.beq_iff r.session_id r.session_id,
    string_eq.beq_iff r.slot_id r.slot_id,
    gpu_state_eq.beq_iff slot.state GpuState.busy,
  )
]

-- a set without one key
elem-without :
    (j key : String) (ids : List String)
    → elem j (filter (λ id. not (id == key)) ids) ≡ (elem j ids && not (key == j))
elem-without j key [] = refl
elem-without j key (id ∷ ids) = ground (
  arith,
  elem-without j key ids,
  string_eq.beq_iff id key,
  string_eq.beq_iff id j,
  string_eq.beq_iff key j,
)

pub elem-release :
    (clock : Clock) (reservation : SlotReservation) (j : String) (s : JobScheduler)
    → elem j (release clock reservation s).1.busy_slots
      ≡ (elem j s.busy_slots && not (reservation.slot_id == j))
unfolding release release_in within touch persist ◌>>=◌
elem-release clock reservation j s = ground (arith, elem-without j reservation.slot_id s.busy_slots)
