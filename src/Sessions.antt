-- ===== src/Sessions.antt =====
-- services/gateway/src/oneiroi_gateway/services/compute_sessions.py, `ComputeSessionService`: the
-- sessions, the tokens of their slots, and the helpers that every method uses. `self.leases` is the
-- in-memory store; a session object is shared by all who hold it, so its one copy is the entry of
-- `sessions`, and each change of it is written there.
pub mod Selection
pub mod Create
pub mod Loading
pub mod Loaded
pub mod Requests
pub mod Release
pub mod Unloaded
pub mod Released
pub mod Upkeep
pub mod Renewal
pub mod Restored
use oneiroi.Prelude.{
  ℕ, String, Bool, true, false, not, Option, none, some, List, [], ◌∷◌, ◌==◌, string_eq, or_else,
  is_none, if◌then◌else◌,
}
use oneiroi.Prelude.Dict.{Dict, get, put, pop}
use oneiroi.Prelude.Effects.{Exec, ok, raise_if, require, pure, gets, modify, ◌>>=◌, ◌>>◌}
use oneiroi.Failure.{Failure, key_error, runtime_error}
use oneiroi.Compute.{ComputeSessionSnapshot, ComputeSlot}
use oneiroi.Events.{SessionEventService, SessionEvent, emit}
use oneiroi.Leases.{LeaseStore}

-- What an event of a session carries: the dump of the session or of one slot.
pub data Payload : Type 0 where
  of_session : ComputeSessionSnapshot → Payload
  of_slot : ComputeSlot → Payload

-- The two clocks that a step reads.
pub record Clock : Type 0 where
  pub monotonic : ℕ
  pub utc : String

-- `state_repository` holds what `InMemoryComputeStateRepository` saved last, if there is one;
-- `lease_tasks` has a key for each running renewal task.
pub record ComputeSessionService : Type 0 where
  pub leases : LeaseStore
  pub events : SessionEventService Payload
  pub state_repository : Option (Dict String ComputeSessionSnapshot)
  pub lease_ttl_seconds : ℕ
  pub idle_ttl_seconds : ℕ
  pub sessions : Dict String ComputeSessionSnapshot
  pub idempotency : Dict (String × String) (String × String)
  pub lease_tasks : Dict String Unit
  pub fencing_tokens : Dict String String
  pub last_activity : Dict String ℕ

abbrev pub Action : Type 0 → Type 0
Action = Exec Failure ComputeSessionService

-- a change of the session object
abbrev pub put_session : ComputeSessionSnapshot → Action Unit
put_session session = modify λ s. record s { sessions = put session.id session s.sessions }

abbrev pub save :
    ComputeSessionSnapshot
    → Option (Dict String ComputeSessionSnapshot)
    → Option (Dict String ComputeSessionSnapshot)
save snapshot none = none
save snapshot (some items) = some (put snapshot.id snapshot items)

abbrev pub save_session : ComputeSessionSnapshot → Action Unit
save_session session = modify λ s. record s { state_repository = save session s.state_repository }

abbrev pub emit_event : String → String → Payload → Clock → Action Unit
emit_event session_id event_type payload clock =
    modify λ s. record s { events = (emit session_id event_type payload clock.utc s.events).1 }

-- `_emit_snapshot`
unfoldable pub emit_snapshot : ComputeSessionSnapshot → String → Clock → Action Unit
emit_snapshot session event_type clock = do
  save_session session
  emit_event session.id event_type (Payload.of_session session) clock

-- `_emit_slot`
unfoldable pub emit_slot : ComputeSessionSnapshot → ComputeSlot → Clock → Action Unit
emit_slot session slot clock = do
  save_session session
  emit_event session.id "compute.slot.updated" (Payload.of_slot slot) clock

unfoldable pub get_session : String → String → Action ComputeSessionSnapshot
get_session owner_id session_id = do
  found ← gets (λ s. get session_id s.sessions)
  session ← require found (key_error session_id)
  raise_if (not (session.owner_id == owner_id)) (key_error session_id)
  pure session

unfoldable pub fencing_token : String → Action String
fencing_token slot_id = do
  found ← gets (λ s. get slot_id s.fencing_tokens)
  require found (runtime_error "GPU_LEASE_LOST")

-- `session_id in self.sessions`
abbrev pub has_session : String → ComputeSessionService → Bool
has_session session_id s = not (is_none (get session_id s.sessions))

abbrev pub touched : String → Clock → ComputeSessionService → ComputeSessionService
touched session_id clock s = record s {
  last_activity = put session_id clock.monotonic s.last_activity;
}

unfoldable pub touch : String → Clock → Action Unit
touch session_id clock =
    modify λ s. if has_session session_id s then touched session_id clock s else s

abbrev saved_again : Option ComputeSessionSnapshot → Action Unit
saved_again none = pure tt
saved_again (some session) = save_session session

unfoldable pub persist : String → Action Unit
persist session_id = do found ← gets (λ s. get session_id s.sessions); saved_again found

-- `_start_lease_renewal` and `_stop_lease_renewal`
abbrev pub start_lease_renewal : String → Action Unit
start_lease_renewal session_id =
    modify λ s. record s { lease_tasks = put session_id tt s.lease_tasks }

abbrev pub stop_lease_renewal : String → Action Unit
stop_lease_renewal session_id = modify λ s. record s { lease_tasks = pop session_id s.lease_tasks }
