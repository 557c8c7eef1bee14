-- ===== src/Sessions/Release.antt =====
-- `ComputeSessionService.release`: every slot is unloaded, and the leases go back if all of them are.
use oneiroi.Prelude.{
  String, Bool, true, false, not, ◌&&◌, some, List, [], ◌∷◌, ◌++◌, ◌==◌, string_eq, or_else, map,
}
use oneiroi.Prelude.Dict.{get, pop, pop_all}
use oneiroi.Prelude.Effects.{Result, lift, raise_if, pure, gets, modify, ◌>>=◌, ◌>>◌}
use oneiroi.Failure.{Failure, value_error}
use oneiroi.Compute.{
  GpuState, ComputeSlot, ComputeSessionSnapshot, ComputeSessionState, ComputeSessionRelease,
  ReleasePolicy, cancel_running, session_state_eq,
}
use oneiroi.Leases.{release_session}
use oneiroi.Sessions.{
  Action, Clock, ComputeSessionService, get_session, put_session, emit_snapshot, emit_slot,
  stop_lease_renewal,
}
use oneiroi.Sessions.Create.{on_leases}
use oneiroi.Sessions.Loading.{with_slots}

-- Whether the backend could unload the slot, with the token that it is given; or what it raises.
abbrev pub Unloading : Type 0
Unloading = ComputeSlot → String → Result Failure Bool

abbrev pub unloading_slot : ComputeSlot → ComputeSlot
unloading_slot slot = record slot { state = GpuState.unloading }

abbrev pub unloaded_slot : ComputeSlot → Bool → ComputeSlot
unloaded_slot slot true = record slot { state = GpuState.empty }
unloaded_slot slot false = record slot {
  state = GpuState.error;
  last_error = some "GPU_MEMORY_NOT_RELEASED";
}

-- The loop over the slots: `done` are behind it, and `all_released` is its flag. An exception of the
-- backend ends the loop and is not caught.
unfoldable pub unload_slots :
    Unloading
    → Clock
    → ComputeSessionSnapshot
    → List ComputeSlot
    → Bool
    → List ComputeSlot
    → Action (ComputeSessionSnapshot × Bool)
unload_slots unload clock session done all_released [] = pure (session, all_released)
unload_slots unload clock session done all_released (slot ∷ rest) = do
  let begun = unloading_slot slot
  let unloading_session = with_slots session (done ++ begun ∷ rest)
  put_session unloading_session
  emit_slot unloading_session begun clock
  token ← gets (λ s. or_else (get begun.id s.fencing_tokens) "")
  released ← lift (unload begun token)
  let ended = unloaded_slot begun released
  let ended_session = with_slots session (done ++ ended ∷ rest)
  put_session ended_session
  emit_slot ended_session ended clock
  unload_slots unload clock ended_session (done ++ ended ∷ []) (all_released && released) rest

-- what the session gives back when every slot is unloaded
abbrev pub forgotten : ComputeSessionSnapshot → ComputeSessionService → ComputeSessionService
forgotten session s = record s {
  fencing_tokens = pop_all (map (λ slot. slot.id) session.slots) s.fencing_tokens;
}

abbrev pub released_session : ComputeSessionSnapshot → Clock → ComputeSessionSnapshot
released_session session clock = record session {
  state = ComputeSessionState.released;
  released_at = some clock.utc;
}

abbrev pub stuck_session : ComputeSessionSnapshot → ComputeSessionSnapshot
stuck_session session = record session {
  state = ComputeSessionState.failed;
  error_code = some "GPU_MEMORY_NOT_RELEASED";
}

unfoldable pub end_release : ComputeSessionSnapshot → Clock → Bool → Action ComputeSessionSnapshot
end_release session clock true = do
  on_leases (release_session session.id)
  modify (forgotten session)
  stop_lease_renewal session.id
  put_session (released_session session clock)
  modify (λ s. record s { last_activity = pop session.id s.last_activity })
  emit_snapshot (released_session session clock) "compute.session.released" clock
  pure (released_session session clock)
end_release session clock false = do
  put_session (stuck_session session)
  emit_snapshot (stuck_session session) "compute.session.failed" clock
  pure (stuck_session session)

abbrev pub draining_session : ComputeSessionSnapshot → ComputeSessionSnapshot
draining_session session = record session { state = ComputeSessionState.draining }

abbrev pub releasing_session : ComputeSessionSnapshot → ComputeSessionSnapshot
releasing_session session = record session { state = ComputeSessionState.releasing }

-- after the guards; a released session is returned as it is
unfoldable pub release_open :
    Unloading → Clock → ComputeSessionSnapshot → Bool → Action ComputeSessionSnapshot
unfolding unload_slots end_release
release_open unload clock session true = pure session
release_open unload clock session false = do
  put_session (draining_session session)
  emit_snapshot (draining_session session) "compute.session.updated" clock
  put_session (releasing_session session)
  result ← unload_slots unload clock (releasing_session session) [] true session.slots
  end_release result.0 clock result.1

abbrev pub needs_confirmation : ReleasePolicy → Bool
needs_confirmation cancel_running = true
needs_confirmation _ = false

unfoldable pub release :
    Unloading → Clock → String → String → ComputeSessionRelease → Action ComputeSessionSnapshot
unfolding release_open
release unload clock owner_id session_id payload = do
  session ← get_session owner_id session_id
  raise_if (needs_confirmation payload.policy && not payload.confirmed)
      (value_error "FORCE_RELEASE_CONFIRMATION_REQUIRED")
  release_open unload clock session (session.state == ComputeSessionState.released)
