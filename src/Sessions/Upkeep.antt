-- ===== src/Sessions/Upkeep.antt =====
-- `ComputeSessionService`: `restore`, `reconcile_stale_gpus` and `close`.
use oneiroi.Prelude.{
  String, Bool, true, false, not, ◌&&◌, ◌||◌, Option, none, some, List, [], ◌∷◌, ◌++◌, ◌==◌,
  string_eq, option_eq, is_none, is_some, elem, any, filter, map, if◌then◌else◌,
}
use oneiroi.Prelude.Dict.{Dict, get, put, pop, values, keys}
use oneiroi.Prelude.Effects.{pure, gets, modify, ◌>>=◌, ◌>>◌}
use oneiroi.Compute.{
  GpuState, ComputeSlot, ComputeSessionSnapshot, ComputeSessionState, gpu_state_eq,
  session_state_eq,
}
use oneiroi.Leases.{Lease, is_held_by, active, release_gpu}
use oneiroi.Sessions.{
  Action, Clock, ComputeSessionService, put_session, save_session, emit_snapshot, emit_slot,
  start_lease_renewal, stop_lease_renewal,
}
use oneiroi.Sessions.Create.{on_leases}
use oneiroi.Sessions.Loading.{with_slots, is_ready}

-- the state is `EMPTY` or `ERROR`
abbrev pub is_idle : ComputeSlot → Bool
is_idle slot = slot.state == GpuState.empty || slot.state == GpuState.error

-- the token of the slot's lease, if the session still holds it
abbrev pub held_token : Dict String Lease → String → ComputeSlot → Option String
held_token leases session_id slot = token_of session_id (get slot.gpu_id leases)
  where
    token_of : String → Option Lease → Option String
    token_of session_id none = none
    token_of session_id (some lease) =
        if is_held_by session_id lease then some lease.fencing_token else none

abbrev pub has_lost : Dict String Lease → String → ComputeSlot → Bool
has_lost leases session_id slot = is_none (held_token leases session_id slot) && not (is_idle slot)

abbrev pub error_slot : String → ComputeSlot → ComputeSlot
error_slot message slot = record slot { state = GpuState.error; last_error = some message }

abbrev pub restored_session : Dict String Lease → ComputeSessionSnapshot → ComputeSessionSnapshot
restored_session leases session =
    let lost = any (has_lost leases session.id) session.slots in
    record session {
      slots =
          map
            (λ slot.
              if has_lost leases session.id slot then error_slot "GPU_LEASE_LOST" slot else slot)
            session.slots;
      state = if lost then ComputeSessionState.failed else session.state;
      error_code = if lost then some "GPU_LEASE_LOST" else session.error_code;
    }

abbrev pub keep_token : String → Option String → Dict String String → Dict String String
keep_token slot_id none tokens = tokens
keep_token slot_id (some token) tokens = put slot_id token tokens

abbrev pub keep_tokens :
    Dict String Lease → String → List ComputeSlot → Dict String String → Dict String String
keep_tokens leases session_id [] tokens = tokens
keep_tokens leases session_id (slot ∷ slots) tokens =
    keep_tokens leases session_id slots
      (keep_token slot.id (held_token leases session_id slot) tokens)

-- `bool(self._fencing_tokens_for_session(session))`
abbrev pub has_tokens : ComputeSessionSnapshot → ComputeSessionService → Bool
has_tokens session s = any (λ slot. is_some (get slot.id s.fencing_tokens)) session.slots

abbrev pub start_if : Bool → String → Action Unit
start_if true session_id = start_lease_renewal session_id
start_if false session_id = pure tt

unfoldable pub restore_sessions :
    Clock → Dict String Lease → List ComputeSessionSnapshot → Action (List String)
restore_sessions clock leases [] = pure []
restore_sessions clock leases (saved ∷ rest) = do
  let session = restored_session leases saved
  put_session session
  modify (λ s. record s {
    last_activity = put session.id clock.monotonic s.last_activity;
    fencing_tokens = keep_tokens leases session.id saved.slots s.fencing_tokens;
  })
  with_tokens ← gets (has_tokens session)
  start_if with_tokens session.id
  save_session session
  restored ← restore_sessions clock leases rest
  pure (session.id ∷ restored)

-- `load_active` of `InMemoryComputeStateRepository`
abbrev pub load_active : Dict String ComputeSessionSnapshot → List ComputeSessionSnapshot
load_active items =
    filter (λ session. not (session.state == ComputeSessionState.released)) (values items)

abbrev pub restore_from : Clock → Option (Dict String ComputeSessionSnapshot) → Action (List String)
restore_from clock none = pure []
restore_from clock (some items) = do
  leases ← on_leases (active clock.monotonic)
  restore_sessions clock leases (load_active items)

unfoldable pub restore : Clock → Action (List String)
unfolding restore_sessions
restore clock = do repository ← gets (λ s. s.state_repository); restore_from clock repository

abbrev pub is_stale : List String → ComputeSlot → Bool
is_stale stale_gpu_ids slot = elem slot.gpu_id stale_gpu_ids && not (is_idle slot)

-- the slot's GPU goes back, and so does its token
unfoldable pub lose_slot : Clock → ComputeSessionSnapshot → ComputeSlot → Action Unit
lose_slot clock session slot = do
  put_session session
  on_leases (release_gpu slot.gpu_id session.id)
  modify (λ s. record s { fencing_tokens = pop slot.id s.fencing_tokens })
  emit_slot session slot clock

abbrev lose_if : Bool → Clock → ComputeSessionSnapshot → ComputeSlot → Action Unit
lose_if true clock session slot = lose_slot clock session slot
lose_if false clock session slot = pure tt

-- the loop over the slots of one session: `done` are behind it
unfoldable pub reconcile_slots :
    Clock
    → List String
    → ComputeSessionSnapshot
    → List ComputeSlot
    → List ComputeSlot
    → Action ComputeSessionSnapshot
unfolding lose_slot
reconcile_slots clock stale session done [] = pure session
reconcile_slots clock stale session done (slot ∷ rest) = do
  let lost = is_stale stale slot
  let ended = if lost then error_slot "RUNNER_HEARTBEAT_LOST" slot else slot
  let ended_session = with_slots session (done ++ ended ∷ rest)
  lose_if lost clock ended_session ended
  reconcile_slots clock stale ended_session (done ++ ended ∷ []) rest

abbrev pub lost_state : ComputeSessionSnapshot → ComputeSessionState
lost_state session =
    if any is_ready session.slots then ComputeSessionState.degraded else ComputeSessionState.failed

abbrev pub lost_event : ComputeSessionSnapshot → String
lost_event session =
    if any is_ready session.slots then "compute.session.degraded" else "compute.session.failed"

abbrev pub lost_session : ComputeSessionSnapshot → ComputeSessionSnapshot
lost_session session = record session {
  state = lost_state session;
  error_code = some "RUNNER_HEARTBEAT_LOST";
}

unfoldable pub reconcile_session :
    Clock → List String → ComputeSessionSnapshot → Bool → Action (List String)
unfolding reconcile_slots
reconcile_session clock stale session false = pure []
reconcile_session clock stale session true = do
  ended ← reconcile_slots clock stale session [] session.slots
  put_session (lost_session ended)
  emit_snapshot (lost_session ended) (lost_event ended) clock
  pure (session.id ∷ [])

unfoldable pub reconcile_sessions :
    Clock → List String → List ComputeSessionSnapshot → Action (List String)
unfolding reconcile_session
reconcile_sessions clock stale [] = pure []
reconcile_sessions clock stale (session ∷ rest) = do
  affected ← reconcile_session clock stale session (any (is_stale stale) session.slots)
  others ← reconcile_sessions clock stale rest
  pure (affected ++ others)

unfoldable pub reconcile_stale_gpus : Clock → List String → Action (List String)
unfolding reconcile_sessions
reconcile_stale_gpus clock stale_gpu_ids = do
  sessions ← gets (λ s. values s.sessions)
  reconcile_sessions clock stale_gpu_ids sessions

-- `close`: every renewal task is stopped; the in-memory store has no `close`
abbrev stop_all : List String → Action Unit
stop_all [] = pure tt
stop_all (session_id ∷ session_ids) = do stop_lease_renewal session_id; stop_all session_ids

unfoldable pub close : Action Unit
close = do tasks ← gets (λ s. keys s.lease_tasks); stop_all tasks
