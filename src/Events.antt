-- ===== src/Events.antt =====
-- services/gateway/src/oneiroi_gateway/services/session_events.py, `SessionEventService`: the event
-- log of each compute session, and what a stream reads from it.
pub mod Stream
use oneiroi.Prelude.{
  ℕ, ◌+◌, String, Bool, Option, none, some, List, [], ◌∷◌, ◌++◌, ◌==◌, string_eq, ltb, or_else,
  filter,
}
use oneiroi.Prelude.Dict.{Dict, get, put}

-- `P` is the type of the payloads.
pub record SessionEvent (P : Type 0) : Type 0 where
  pub id : ℕ
  pub session_id : String
  pub event_type : String
  pub payload : P
  pub created_at : String

pub record SessionEventService (P : Type 0) : Type 0 where
  pub events : Dict String (List (SessionEvent P))
  pub next_id : ℕ

module _ {P : Type 0} where
  unfoldable pub emit :
      String
      → String
      → P
      → (now : String) → SessionEventService P
      → SessionEvent P × SessionEventService P
  emit session_id event_type payload now s =
      let event : SessionEvent P = record {
        id = s.next_id;
        session_id = session_id;
        event_type = event_type;
        payload = payload;
        created_at = now;
      } in
      (
        event,
        record s {
          next_id = s.next_id + 1;
          events = put session_id (or_else (get session_id s.events) [] ++ event ∷ []) s.events;
        },
      )

  unfoldable pub since : String → ℕ → SessionEventService P → List (SessionEvent P)
  since session_id after_id s =
      filter (λ event. ltb after_id event.id) (or_else (get session_id s.events) [])
