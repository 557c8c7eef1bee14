-- ===== src/Sessions/Renewal.antt =====
-- `ComputeSessionService._renew_lease_loop`: one round, after the task has slept. `available` says
-- whether the lease store answers the renewal; a store that cannot be reached raises.
use oneiroi.Prelude.{
  ◌+◌, String, Bool, true, false, not, ◌&&◌, ◌||◌, some, List, [], ◌∷◌, ◌++◌, ◌==◌, string_eq,
  option_eq, or_else, elem, filter, map, leb, if◌then◌else◌,
}
use oneiroi.Prelude.Dict.{get, pop}
use oneiroi.Prelude.Effects.{Result, ok, err, pure, gets, ◌>>=◌, ◌>>◌}
use oneiroi.Failure.{Failure}
use oneiroi.Compute.{
  GpuState, ComputeSlot, ComputeSessionSnapshot, ComputeSessionState, ComputeSessionRelease,
  when_idle, gpu_state_eq, session_state_eq,
}
use oneiroi.Leases.{renew_session}
use oneiroi.Sessions.{
  Action, Clock, ComputeSessionService, put_session, emit_snapshot, emit_slot, stop_lease_renewal,
}
use oneiroi.Sessions.Create.{on_leases}
use oneiroi.Sessions.Loading.{with_slots}
use oneiroi.Sessions.Release.{Unloading, release}
use oneiroi.Sessions.Upkeep.{error_slot}

-- Whether the loop goes on after the round.
pub data Round : Type 0 where
  goes_on ends : Round

-- `time.monotonic() - last_activity >= self.idle_ttl_seconds` in a session that serves
abbrev pub is_abandoned : ComputeSessionSnapshot → Clock → ComputeSessionService → Bool
is_abandoned session clock s =
    (session.state == ComputeSessionState.ready || session.state == ComputeSessionState.degraded)
    && leb (or_else (get session.id s.last_activity) clock.monotonic + s.idle_ttl_seconds)
        clock.monotonic

-- the slots whose lease is to be kept
abbrev pub is_expected : ComputeSlot → Bool
is_expected slot =
    not (slot.state == GpuState.empty)
    && (not (slot.state == GpuState.error) || slot.last_error == some "GPU_MEMORY_NOT_RELEASED")

abbrev pub expected_gpus : ComputeSessionSnapshot → List String
expected_gpus session = map (λ slot. slot.gpu_id) (filter is_expected session.slots)

abbrev pub missing_gpus : List String → List String → List String
missing_gpus expected renewed = filter (λ id. not (elem id renewed)) expected

abbrev pub broken_session : ComputeSessionSnapshot → String → String → ComputeSessionSnapshot
broken_session session code message = record session {
  state = ComputeSessionState.failed;
  error_code = some code;
  error_message = some message;
}

unfoldable pub end_broken : ComputeSessionSnapshot → String → String → Clock → Action Round
end_broken session code message clock = do
  put_session (broken_session session code message)
  emit_snapshot (broken_session session code message) "compute.session.failed" clock
  stop_lease_renewal session.id
  pure ends

-- the loop over the slots whose GPU is missing: `done` are behind it
unfoldable pub break_slots :
    Clock
    → List String
    → ComputeSessionSnapshot
    → List ComputeSlot
    → List ComputeSlot
    → Action ComputeSessionSnapshot
break_slots clock missing session done [] = pure session
break_slots clock missing session done (slot ∷ rest) = do
  let lost = elem slot.gpu_id missing
  let ended = if lost then error_slot "GPU_LEASE_LOST" slot else slot
  let ended_session = with_slots session (done ++ ended ∷ rest)
  report lost ended_session ended
  break_slots clock missing ended_session (done ++ ended ∷ []) rest
  where
    report : Bool → ComputeSessionSnapshot → ComputeSlot → Action Unit
    report false session slot = pure tt
    report true session slot = do put_session session; emit_slot session slot clock

unfoldable pub compare_leases : Clock → ComputeSessionSnapshot → List String → Action Round
unfolding break_slots end_broken
compare_leases clock session [] = pure goes_on
compare_leases clock session (gpu_id ∷ gpu_ids) = do
  broken ← break_slots clock (gpu_id ∷ gpu_ids) session [] session.slots
  end_broken broken "GPU_LEASE_LOST" "one or more GPU leases could not be renewed" clock

unfoldable pub renew_leases : Bool → Clock → ComputeSessionSnapshot → List String → Action Round
unfolding compare_leases end_broken
renew_leases available clock session [] = do stop_lease_renewal session.id; pure ends
renew_leases false clock session (gpu_id ∷ gpu_ids) =
    end_broken session "REDIS_LEASE_RENEWAL_FAILED" "GPU lease renewal backend is unavailable" clock
renew_leases true clock session (gpu_id ∷ gpu_ids) = do
  ttl ← gets (λ s. s.lease_ttl_seconds)
  renewed ← on_leases (renew_session session.id ttl clock.monotonic)
  compare_leases clock session (missing_gpus (gpu_id ∷ gpu_ids) renewed)

-- the payload `ComputeSessionRelease()`
abbrev pub idle_release : ComputeSessionRelease
idle_release = record { policy = when_idle; confirmed = false }

-- the task is forgotten however the release ends
unfoldable pub release_idle : Unloading → Clock → ComputeSessionSnapshot → Action Round
unfolding release
release_idle unload clock session s =
    let r = release unload clock session.owner_id session.id idle_release s in
    (ended r.0, record r.1 { lease_tasks = pop session.id r.1.lease_tasks })
  where
    ended : Result Failure ComputeSessionSnapshot → Result Failure Round
    ended (ok session) = ok ends
    ended (err e) = err e

unfoldable pub renewal_round : Unloading → Bool → Clock → ComputeSessionSnapshot → Action Round
unfolding release_idle renew_leases
renewal_round unload available clock session = do
  abandoned ← gets (is_abandoned session clock)
  elim abandoned [
    | true ↦ release_idle unload clock session
    | false ↦ renew_leases available clock session (expected_gpus session)
  ]
