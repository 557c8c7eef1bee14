-- ===== src/Scheduler/Reservation.antt =====
-- What a reservation of a slot promises.
use oneiroi.Prelude.{
  ◌≡◌, ◌∙◌, ap, sym, subst, String, true, false, ◌||◌, nat_eq, any, if◌then◌else◌, some, ◌==◌,
  string_eq, option_eq, elem, Option-cases, inl, inr, arith,
}
use oneiroi.Prelude.Dict.{get, get-put_self}
use oneiroi.Prelude.Effects.{ok, ◌>>=◌}
use oneiroi.Compute.{
  GpuState, ProfileTier, ComputeSlot, ComputeSessionSnapshot, gpu_state_eq, tier_eq,
}
use oneiroi.Sessions.{Clock, get_session, touch, persist, fencing_token}
use oneiroi.Scheduler.{
  SlotReservation, JobScheduler, within, reserve, candidates, first, with_state, slot_of,
  new_reservation,
}
use oneiroi.Scheduler.Slots.{
  slot_in, slot_in_session, IsKeyed, state_of, put_in_state, slot_of-with_state,
}
use oneiroi.Scheduler.Candidates.{WhenSome, IsChosen, is_ready_slot, candidate_lem, found_slot}

-- What a reservation comes to, for the session that it is made in: one of its slots had the profile
-- and was READY and not busy; the reservation has this slot's identifier, GPU, index and token;
-- afterwards the slot is BUSY and among the busy ones, and every other slot is as before.
abbrev pub IsReservedIn :
    ProfileTier
    → ComputeSessionSnapshot
    → ComputeSlot
    → JobScheduler
    → SlotReservation
    → JobScheduler
    → Type 0
IsReservedIn profile session slot s r t =
    (r ≡ new_reservation session.id slot profile r.fencing_token)
    × (elem slot.id s.busy_slots ≡ false)
    × (any (is_ready_slot profile slot) session.slots ≡ true)
    × (get slot.id s.sessions.fencing_tokens ≡ some r.fencing_token)
    × ((j : String) → elem j t.busy_slots ≡ (slot.id == j || elem j s.busy_slots))
    × IsKeyed session.id t
    × (state_of (slot_in session.id slot.id t) ≡ some GpuState.busy)
    × ((j : String)
        → slot_in session.id j t ≡ (
            if slot.id == j
            then put_in_state GpuState.busy (slot_of j session)
            else slot_of j session))

abbrev pub IsReserved :
    String → String → ProfileTier → JobScheduler → SlotReservation → JobScheduler → Type 0
IsReserved owner_id session_id profile s r t =
    (session : ComputeSessionSnapshot) × (slot : ComputeSlot) × (get session_id s.sessions.sessions
      ≡ some session)
    × (session.owner_id ≡ owner_id)
    × IsReservedIn profile session slot s r t

module _ (clock : Clock) (owner_id session_id : String) (profile : ProfileTier) (s t : JobScheduler)
    (r : SlotReservation) (session : ComputeSessionSnapshot) (slot : ComputeSlot) where
  reserved_session :
      get session_id s.sessions.sessions ≡ some session
      → first (candidates profile session s) ≡ some slot
      → reserve clock owner_id session_id profile s ≡ (ok r, t)
      → get session.id t.sessions.sessions ≡ some (with_state slot.id GpuState.busy session)
  unfolding reserve within get_session touch persist fencing_token ◌>>=◌
  reserved_session e c q = ground (
    arith,
    q,
    e,
    c,
    get-put_self session.id (with_state slot.id GpuState.busy session) s.sessions.sessions,
  )

  reserved_values :
      get session_id s.sessions.sessions ≡ some session
      → first (candidates profile session s) ≡ some slot
      → reserve clock owner_id session_id profile s ≡ (ok r, t)
      → (session.owner_id ≡ owner_id)
        × (r ≡ new_reservation session.id slot profile r.fencing_token)
        × (get slot.id s.sessions.fencing_tokens ≡ some r.fencing_token)
  unfolding reserve within get_session touch persist fencing_token ◌>>=◌
  reserved_values e c q = (
    ground (arith, q, e, c, string_eq.beq_iff session.owner_id owner_id),
    ground (arith, q, e, c),
    ground (arith, q, e, c),
  )

  reserved_busy :
      (j : String)
      → get session_id s.sessions.sessions ≡ some session
      → first (candidates profile session s) ≡ some slot
      → elem slot.id s.busy_slots ≡ false
      → reserve clock owner_id session_id profile s ≡ (ok r, t)
      → elem j t.busy_slots ≡ (slot.id == j || elem j s.busy_slots)
  unfolding reserve within get_session touch persist fencing_token ◌>>=◌
  reserved_busy j e c k q = ground (arith, q, e, c, k)

  IsReservedIn-slot :
      get session_id s.sessions.sessions ≡ some session
      → first (candidates profile session s) ≡ some slot
      → IsChosen profile s.busy_slots session.slots slot
      → reserve clock owner_id session_id profile s ≡ (ok r, t)
      → IsReserved owner_id session_id profile s r t
  IsReservedIn-slot e c (k, chosen) q =
      let (owner, same, token) = reserved_values e c q in
      let stored = reserved_session e c q in
      let slots = λ (j : String).
        ap (slot_in_session j) stored ∙ slot_of-with_state j slot.id GpuState.busy session in
      (
        session,
        slot,
        e,
        owner,
        (
          same,
          k,
          chosen,
          token,
          λ j. reserved_busy j e c k q,
          ground (arith, stored, string_eq.beq_iff session.id session.id),
          ground (
            arith,
            slots slot.id,
            string_eq.beq_iff slot.id slot.id,
            found_slot profile slot session.slots chosen,
          ),
          slots,
        ),
      )

-- A reservation that succeeds is made in the session that was asked for, which is the owner's. One
-- of its slots had the requested profile and was READY and not busy; the reservation carries this
-- slot's identifier, GPU, index and fencing token. Afterwards this slot is BUSY, the other slots of
-- the session are as before, the session is stored under its own identifier, and the busy identifiers are those from before and the slot's.
pub reserve_lem :
    (clock : Clock) (owner_id session_id : String) (profile : ProfileTier) (s t : JobScheduler)
    (r : SlotReservation)
    → reserve clock owner_id session_id profile s ≡ (ok r, t)
    → IsReserved owner_id session_id profile s r t
unfolding reserve within get_session touch persist fencing_token ◌>>=◌
reserve_lem clock owner_id session_id profile s t r q =
    elim (Option-cases (get session_id s.sessions.sessions)) [
      | inl e ↦ ground (arith, q, e)
      | inr (session, e) ↦ elim (Option-cases (first (candidates profile session s))) [
        | inl c ↦ ground (arith, q, e, c)
        | inr (slot, c) ↦
            IsReservedIn-slot clock owner_id session_id profile s t r session slot e c
              (subst (WhenSome (IsChosen profile s.busy_slots session.slots)) c
                (candidate_lem profile session s))
              q
      ]
    ]

-- the reserved slot, as the reservation names it
pub reserved_lem :
    (clock : Clock) (owner_id session_id : String) (profile : ProfileTier) (s t : JobScheduler)
    (r : SlotReservation)
    → reserve clock owner_id session_id profile s ≡ (ok r, t)
    → IsKeyed r.session_id t × (state_of (slot_in r.session_id r.slot_id t) ≡ some GpuState.busy)
reserved_lem clock owner_id session_id profile s t r q =
    let (session, slot, e, o, h) = reserve_lem clock owner_id session_id profile s t r q in
    (subst (λ i. IsKeyed i t) (sym (ap (λ x. x.session_id) h.0)) h.5, ground (arith, h.0, h.6))
