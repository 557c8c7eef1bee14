-- ===== src/Sessions/Requests.antt =====
-- `ComputeSessionService.create` as a whole, with its idempotency key, and `current`.
use oneiroi.Prelude.{
  String, not, ◌&&◌, Option, none, some, List, [], ◌∷◌, ◌==◌, string_eq, pair_eq, filter, truthy,
  str_ltb, if◌then◌else◌,
}
use oneiroi.Prelude.Dict.{get, values}
use oneiroi.Prelude.Effects.{raise_if, require, gets, ◌>>=◌, ◌>>◌}
use oneiroi.Failure.{value_error, key_error}
use oneiroi.Compute.{
  GpuInfo, ComputeSessionCreate, ComputeSessionSnapshot, ComputeSessionState, session_state_eq,
}
use oneiroi.Sessions.{Action, Clock, ComputeSessionService}
use oneiroi.Sessions.Create.{Fresh, reserve_session}
use oneiroi.Sessions.Loading.{Backend, load_session}

-- What a request brings beside the service: the drawn identifiers, the clock while the session is
-- reserved and the clock while it loads, the inventory, and the backend.
pub record Surroundings : Type 0 where
  pub fresh : Fresh
  pub clock : Clock
  pub later : Clock
  pub inventory : List GpuInfo
  pub backend : Backend

-- `self.idempotency.get((owner_id, idempotency_key))`, if there is a key
abbrev pub remembered : String → Option String → ComputeSessionService → Option (String × String)
remembered owner_id none s = none
remembered owner_id (some key) s = get (owner_id, key) s.idempotency

-- a key that is known, or a new session
unfoldable pub create_or_repeat :
    Surroundings
    → String
    → ComputeSessionCreate
    → Option String
    → String
    → Option (String × String)
    → Action ComputeSessionSnapshot
create_or_repeat around owner_id payload key fingerprint none = do
  session ←
      reserve_session around.fresh around.clock owner_id payload key fingerprint around.inventory
  load_session around.backend around.later session
create_or_repeat around owner_id payload key fingerprint (some (existing_fingerprint, session_id)) =
    do
      raise_if (not (existing_fingerprint == fingerprint)) (value_error "IDEMPOTENCY_KEY_REUSED")
      found ← gets (λ s. get session_id s.sessions)
      require found (key_error session_id)

-- `fingerprint` is the hash of the request's JSON.
unfoldable pub create :
    Surroundings
    → String
    → ComputeSessionCreate
    → Option String
    → String
    → Action ComputeSessionSnapshot
unfolding create_or_repeat
create around owner_id payload idempotency_key fingerprint = do
  existing ← gets (remembered owner_id (truthy idempotency_key))
  create_or_repeat around owner_id payload idempotency_key fingerprint existing

-- `max(active, key=created_at, default=None)`: the first of the latest
abbrev pub latest :
    Option ComputeSessionSnapshot → List ComputeSessionSnapshot → Option ComputeSessionSnapshot
latest best [] = best
latest none (session ∷ sessions) = latest (some session) sessions
latest (some best) (session ∷ sessions) =
    latest (some (if str_ltb best.created_at session.created_at then session else best)) sessions

unfoldable pub current : String → ComputeSessionService → Option ComputeSessionSnapshot
current owner_id s = latest none (
    filter
      (λ session.
        session.owner_id == owner_id && not (session.state == ComputeSessionState.released))
      (values s.sessions))
