-- ===== src/Sessions/Unloaded.antt =====
-- The loop of `ComputeSessionService.release` over the slots.
use oneiroi.Prelude.{
  ℕ, ◌+◌, ◌≡◌, refl, sym, String, Bool, true, false, ◌&&◌, ◌||◌, List, [], ◌∷◌, ◌++◌, ◌==◌,
  string_eq, arith, all, length, all-append, length-append, append_nil, append_assoc,
}
use oneiroi.Prelude.Dict.{get, holds, get-put}
use oneiroi.Prelude.Effects.{Result, ok, err, lift, ◌>>=◌}
use oneiroi.Prelude.Runs.{Ended, Runs, Runs-pure, Runs-gets, Runs-modify, Runs-bind}
use oneiroi.Failure.{Failure}
use oneiroi.Compute.{
  GpuState, ComputeSlot, ComputeSessionSnapshot, ComputeSessionState, gpu_state_eq,
  session_state_eq,
}
use oneiroi.Sessions.{Clock, ComputeSessionService, put_session, emit_slot}
use oneiroi.Sessions.Loading.{with_slots}
use oneiroi.Sessions.Loaded.{is_error}
use oneiroi.Sessions.Release.{Unloading, unloading_slot, unloaded_slot, unload_slots}

abbrev pub is_empty : ComputeSlot → Bool
is_empty slot = slot.state == GpuState.empty

abbrev pub is_unloaded : ComputeSlot → Bool
is_unloaded slot = is_empty slot || is_error slot

-- What the loop makes of the session: the slots alone change, and the flag says that none of them
-- is in error.
abbrev pub IsUnloaded : ComputeSessionSnapshot → ℕ → ComputeSessionSnapshot × Bool → Type 0
IsUnloaded session n (final, all_released) =
    (final ≡ with_slots session final.slots)
    × (length final.slots ≡ n)
    × (all is_unloaded final.slots ≡ true)
    × (all is_empty final.slots ≡ all_released)

unloaded_append :
    (done : List ComputeSlot) (slot : ComputeSlot) (flag released : Bool)
    → all is_unloaded done ≡ true
    → all is_empty done ≡ flag
    → (all is_unloaded (done ++ unloaded_slot slot released ∷ []) ≡ true)
      × (all is_empty (done ++ unloaded_slot slot released ∷ []) ≡ (flag && released))
unloaded_append done slot flag true h k = ground (
  arith,
  all-append is_unloaded done (unloaded_slot slot true ∷ []),
  all-append is_empty done (unloaded_slot slot true ∷ []),
)
unloaded_append done slot flag false h k = ground (
  arith,
  all-append is_unloaded done (unloaded_slot slot false ∷ []),
  all-append is_empty done (unloaded_slot slot false ∷ []),
)

-- During the loop the stored session is RELEASING, and the leases and the renewal tasks are those
-- from before.
abbrev pub IsReleasing : String → ComputeSessionService → ComputeSessionService → Type 0
IsReleasing session_id s t =
    (holds (λ x. x.state == ComputeSessionState.releasing) (get session_id t.sessions) ≡ true)
    × (t.leases ≡ s.leases)
    × (t.lease_tasks ≡ s.lease_tasks)

-- The backend raised this exception, for some slot and token, and the release stopped there.
abbrev pub IsInterrupted :
    Unloading → String → ComputeSessionService → Failure → ComputeSessionService → Type 0
IsInterrupted unload session_id s e t =
    ((slot : ComputeSlot) × (token : String) × (unload slot token ≡ err e))
    × IsReleasing session_id s t

module _ (unload : Unloading) (session_id : String) (s : ComputeSessionService) where
  abbrev Open : ComputeSessionService → Type 0
  Open t = IsReleasing session_id s t

  abbrev Broken : Failure → ComputeSessionService → Type 0
  Broken e t = IsInterrupted unload session_id s e t

  put_session-Runs :
      (session : ComputeSessionSnapshot)
      → session.id ≡ session_id
      → session.state ≡ ComputeSessionState.releasing
      → Runs Open (λ u. Open) Broken (put_session session)
  put_session-Runs session i r = Runs-modify Open Open Broken _ λ t h. (
    ground (
      arith,
      i,
      r,
      get-put session.id session_id session t.sessions,
      string_eq.beq_iff session.id session_id,
    ),
    h.1,
    h.2,
  )

  emit_slot-Runs :
      (session : ComputeSessionSnapshot) (slot : ComputeSlot) (clock : Clock)
      → Runs Open (λ u. Open) Broken (emit_slot session slot clock)
  unfolding emit_slot ◌>>=◌
  emit_slot-Runs session slot clock = record { from = λ t h. h }

  answered :
      (r : Result Failure Bool) (slot : ComputeSlot) (token : String)
      → unload slot token ≡ r
      → (t : ComputeSessionService) → Open t
      → Ended (λ b. Open) Broken (lift r t)
  unfolding ◌>>=◌
  answered (ok b) slot token q t h = h
  answered (err e) slot token q t h = ((slot, token, q), h)

  unload-Runs :
      (slot : ComputeSlot) (token : String)
      → Runs Open (λ b. Open) Broken (lift (unload slot token))
  unload-Runs slot token = record { from = answered (unload slot token) slot token refl }

  pub unload_slots-Runs :
      (clock : Clock) (session : ComputeSessionSnapshot) (done : List ComputeSlot) (flag : Bool)
      (rest : List ComputeSlot) (n : ℕ)
      → session.id ≡ session_id
      → session.state ≡ ComputeSessionState.releasing
      → session.slots ≡ done ++ rest
      → length done + length rest ≡ n
      → all is_unloaded done ≡ true
      → all is_empty done ≡ flag
      → Runs Open
          (λ result t. IsUnloaded session n result × Open t)
          Broken
          (unload_slots unload clock session done flag rest)
  unfolding unload_slots
  unload_slots-Runs clock session done flag [] n i r q l a c =
      Runs-pure Open _ Broken (session, flag)
        λ t h. (
          (
            refl,
            ground (arith, q, append_nil done),
            ground (arith, q, append_nil done),
            ground (arith, q, append_nil done),
          ),
          h,
        )
  unload_slots-Runs clock session done flag (slot ∷ rest) n i r q l a c =
      Runs-bind Open (λ u. Open) _ Broken _ _ (put_session-Runs _ i r)
        λ u1.
          Runs-bind Open (λ u. Open) _ Broken _ _ (emit_slot-Runs _ _ clock)
            λ u2.
              Runs-bind Open (λ x. Open) _ Broken _ _ (Runs-gets Open Broken _)
                λ token.
                  Runs-bind Open (λ x. Open) _ Broken _ _ (unload-Runs (unloading_slot slot) token)
                    λ released.
                      Runs-bind Open (λ u. Open) _ Broken _ _ (put_session-Runs _ i r)
                        λ u3.
                          Runs-bind Open (λ u. Open) _ Broken _ _ (emit_slot-Runs _ _ clock)
                            λ u4.
                              (let ended = unloaded_slot (unloading_slot slot) released in
                                unload_slots-Runs clock (with_slots session (done ++ ended ∷ rest))
                                  (done ++ ended ∷ []) (flag && released) rest n i r
                                  (sym (append_assoc done (ended ∷ []) rest))
                                  (omega (arith, length-append done (ended ∷ []), l))
                                  (unloaded_append done (unloading_slot slot) flag released a c).0
                                  (unloaded_append done (unloading_slot slot) flag released a c).1)
