-- ===== src/Sessions/Loading.antt =====
-- `ComputeSessionService.create`, second half: a worker is loaded on each slot in turn, and the
-- session ends ready, degraded or failed.
use Prim.Native.String.{◌++◌ as str_append}
use oneiroi.Prelude.{
  ℕ, ◌+◌, String, Bool, true, false, not, ◌&&◌, Option, none, some, List, [], ◌∷◌, ◌++◌, ◌==◌,
  string_eq, nat_eq, length, count, truthy, if◌then◌else◌,
}
use oneiroi.Prelude.Dict.{get, pop}
use oneiroi.Prelude.Effects.{pure, gets, modify, ◌>>=◌, ◌>>◌}
use oneiroi.Compute.{
  GpuState, ComputeSlot, ComputeSessionSnapshot, ComputeSessionState, gpu_state_eq,
}
use oneiroi.Leases.{release_gpu, release_session}
use oneiroi.Sessions.{Action, Clock, put_session, emit_snapshot, emit_slot, stop_lease_renewal}
use oneiroi.Sessions.Create.{LoadResult, loaded, failed, on_leases}

-- What the backend answers for a slot with its token.
abbrev pub Backend : Type 0
Backend = ComputeSlot → String → LoadResult

abbrev pub starting : ComputeSlot → ComputeSlot
starting slot = record slot {
  state = GpuState.loading;
  load_stage = some "starting_worker";
  load_progress = 5;
}

-- the slot after a successful load; an empty hash is not written
abbrev pub hash_or : Option String → Option String → Option String
hash_or none before = before
hash_or (some hash) before = some hash

abbrev pub loaded_slot : ComputeSlot → Option String → ComputeSlot
loaded_slot slot hash = record slot {
  state = GpuState.ready;
  load_stage = some "ready";
  load_progress = 100;
  pipeline_spec_hash = hash_or (truthy hash) slot.pipeline_spec_hash;
}

abbrev pub failed_slot : ComputeSlot → String → ComputeSlot
failed_slot slot message = record slot { state = GpuState.error; last_error = some message }

-- `self._fencing_tokens[slot.id]` stands inside the `try`, so a missing token is a failed load
unfoldable pub answer : Backend → ComputeSlot → Option String → LoadResult
answer backend slot none = failed (str_append "'" (str_append slot.id "'"))
answer backend slot (some token) = backend slot token

abbrev pub with_slots : ComputeSessionSnapshot → List ComputeSlot → ComputeSessionSnapshot
with_slots session slots = record session { slots = slots }

-- the `except` branch: the slot's GPU goes back, and so does its token
unfoldable pub settle_slot :
    ComputeSessionSnapshot → ComputeSlot → LoadResult → Action (ComputeSlot × Bool)
settle_slot session slot (loaded hash) = pure (loaded_slot slot hash, false)
settle_slot session slot (failed message) = do
  on_leases (release_gpu slot.gpu_id session.id)
  modify (λ s. record s { fencing_tokens = pop slot.id s.fencing_tokens })
  pure (failed_slot slot message, true)

-- the loop over the slots: `done` are behind it, and `failures` counts the failed loads
unfoldable pub load_slots :
    Backend
    → Clock
    → ComputeSessionSnapshot
    → List ComputeSlot
    → ℕ
    → List ComputeSlot
    → Action (ComputeSessionSnapshot × ℕ)
unfolding settle_slot answer
load_slots backend clock session done failures [] = pure (session, failures)
load_slots backend clock session done failures (slot ∷ rest) = do
  let begun = starting slot
  let begun_session = with_slots session (done ++ begun ∷ rest)
  put_session begun_session
  emit_slot begun_session begun clock
  token ← gets (λ s. get begun.id s.fencing_tokens)
  settled ← settle_slot begun_session begun (answer backend begun token)
  let settled_session = with_slots session (done ++ settled.0 ∷ rest)
  put_session settled_session
  emit_slot settled_session settled.0 clock
  load_slots backend clock settled_session (done ++ settled.0 ∷ [])
      (if settled.1 then failures + 1 else failures) rest

abbrev pub is_ready : ComputeSlot → Bool
is_ready slot = slot.state == GpuState.ready

-- The outcome of the loop, by the slots that became ready.
pub data Outcome : Type 0 where
  all_ready partly_ready none_ready : Outcome

abbrev pub outcome : ComputeSessionSnapshot → Outcome
outcome session =
    let ready_count = count is_ready session.slots in
    if ready_count == length session.slots && length session.slots == session.requested_gpu_count
    then all_ready
    else if not (ready_count == 0)
    then partly_ready
    else none_ready

abbrev pub ready_session : ComputeSessionSnapshot → Clock → ComputeSessionSnapshot
ready_session session clock = record session {
  state = ComputeSessionState.ready;
  ready_at = some clock.utc;
}

abbrev pub degraded_session : ComputeSessionSnapshot → ℕ → Clock → ComputeSessionSnapshot
degraded_session session failures clock = record session {
  state = ComputeSessionState.degraded;
  ready_at = some clock.utc;
  error_code = some (if failures == 0 then "PARTIAL_ALLOCATION" else "MODEL_LOAD_FAILED");
}

abbrev pub failed_session : ComputeSessionSnapshot → ComputeSessionSnapshot
failed_session session = record session {
  state = ComputeSessionState.failed;
  error_code = some "MODEL_LOAD_FAILED";
  error_message = some "no allocated slot became ready";
}

unfoldable pub conclude :
    Outcome → ComputeSessionSnapshot → ℕ → Clock → Action ComputeSessionSnapshot
conclude all_ready session failures clock = do
  put_session (ready_session session clock)
  emit_snapshot (ready_session session clock) "compute.session.ready" clock
  pure (ready_session session clock)
conclude partly_ready session failures clock = do
  put_session (degraded_session session failures clock)
  emit_snapshot (degraded_session session failures clock) "compute.session.degraded" clock
  pure (degraded_session session failures clock)
conclude none_ready session failures clock = do
  put_session (failed_session session)
  on_leases (release_session session.id)
  stop_lease_renewal session.id
  emit_snapshot (failed_session session) "compute.session.failed" clock
  pure (failed_session session)

abbrev pub loading_session : ComputeSessionSnapshot → ComputeSessionSnapshot
loading_session session = record session { state = ComputeSessionState.loading }

unfoldable pub load_session :
    Backend → Clock → ComputeSessionSnapshot → Action ComputeSessionSnapshot
unfolding load_slots conclude
load_session backend clock session = do
  put_session (loading_session session)
  result ← load_slots backend clock (loading_session session) [] 0 session.slots
  conclude (outcome result.0) result.0 result.1 clock
